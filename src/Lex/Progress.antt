-- ===== src/Lex/Progress.antt =====
-- `llex` (lua-5.1.5/src/llex.c) comes to a token, and reading on comes to the end of the input.
use unitu_lua_test.Base.{
  ℕ, zero, suc, ◌<◌, ◌≤◌, ◌≡◌, refl, ap, arith, ◌⊎◌, inl, inr, List, [], ◌∷◌, Option, length,
}
use unitu_lua_test.Lex.{Token, LexState, tk_eos, Result, ok, ◌>>=◌}
use unitu_lua_test.Lex.Scan.{resetbuffer}
use unitu_lua_test.Lex.Next.{Step, again, token, lex_round, lex_loop, llex}
use unitu_lua_test.Lex.Ends.{Post, Post-bind, Post-weaken, left}
use unitu_lua_test.Lex.Rounds.{StepWithin, lex_round-StepWithin}

module _ (str2d : List ℕ → Option ℕ) where
  -- A token takes a character at least, but for the one at the end of the input.
  StepAdvances : ℕ → Step → Type 0
  StepAdvances n (again st) = left st < n
  StepAdvances n (token k info st) = (left st < n) ⊎ ((k ≡ tk_eos) × (left st ≡ 0))

  StepWithin-StepAdvances : (n : ℕ) (s : Step) → StepWithin n s → StepAdvances n s
  unfolding StepWithin StepAdvances
  StepWithin-StepAdvances n (again st) h = h
  StepWithin-StepAdvances n (token k info st) h = inl h

  lex_round-StepAdvances :
      (st : LexState) (xs : List ℕ)
      → st.input ≡ xs
      → Post (StepAdvances (left st)) (lex_round str2d st xs)
  unfolding lex_round StepAdvances
  lex_round-StepAdvances st [] h = inr (refl, ap length h)
  lex_round-StepAdvances st (c ∷ cs) h =
      let some_left : left st ≡ suc (length cs) = ap length h in
      Post-weaken (StepWithin (left st)) (StepAdvances (left st)) (lex_round str2d st (c ∷ cs))
        (lex_round-StepWithin str2d st c cs (omega arith)) (StepWithin-StepAdvances (left st))

  unfoldable pub Advances : ℕ → Token × LexState → Type 0
  Advances n (k, st') = (left st' < n) ⊎ ((k.token ≡ tk_eos) × (left st' ≡ 0))

  Advances-weaken : (m n : ℕ) → m ≤ n → (r : Token × LexState) → Advances m r → Advances n r
  unfolding Advances
  Advances-weaken m n h r (inl g) = inl (omega arith)
  Advances-weaken m n h r (inr g) = inr g

  Post-step :
      (fuel n : ℕ) (s : Step)
      → StepAdvances n s
      → ((st : LexState) → left st < n → Post (Advances n) (lex_loop str2d fuel st))
      → Post (Advances n) (elim s [
        | again st ↦ lex_loop str2d fuel st
        | token k info st ↦ ok (record { token = k; seminfo = info }, st)
      ])
  unfolding StepAdvances Advances
  Post-step fuel n (again st) h goes_on = goes_on st h
  Post-step fuel n (token k info st) h goes_on = h

  lex_loop-Advances :
      (fuel : ℕ) (st : LexState)
      → left st < fuel
      → Post (Advances (left st)) (lex_loop str2d fuel st)
  unfolding lex_loop
  lex_loop-Advances zero st enough = absurd (omega arith)
  lex_loop-Advances (suc fuel) st enough =
      Post-bind (StepAdvances (left st)) (Advances (left st)) (lex_round str2d st st.input)
        (λ s. elim s [
          | again st' ↦ lex_loop str2d fuel st'
          | token k info st' ↦ ok (record { token = k; seminfo = info }, st')
        ])
        (lex_round-StepAdvances st st.input refl)
        (λ s h. Post-step fuel (left st) s h (λ st' g.
          Post-weaken (Advances (left st')) (Advances (left st)) (lex_loop str2d fuel st')
            (lex_loop-Advances fuel st' (omega arith))
            (Advances-weaken (left st') (left st) (omega arith))))

  -- `llex` comes to a token on every input, or reports an error: it never runs out of the rounds that the length of
  -- the input gives. The token has taken a character at least, or it is the end of the input.
  pub llex-Advances : (st : LexState) → Post (Advances (left st)) (llex str2d st)
  unfolding llex resetbuffer
  llex-Advances st = lex_loop-Advances (suc (length st.input)) (resetbuffer st) (omega arith)

  -- The token behind `n` others.
  unfoldable pub nth_token : ℕ → LexState → Result (Token × LexState)
  nth_token zero st = llex str2d st
  nth_token (suc n) st = llex str2d st >>= λ r. nth_token n r.1

  -- Reading tokens comes to the end of the input, or to an error: when as many tokens are read as there are
  -- characters, the next one is TK_EOS.
  pub nth_token-eos :
      (n : ℕ) (st : LexState)
      → length st.input ≤ n
      → Post (λ r. r.0.token ≡ tk_eos) (nth_token n st)
  unfolding nth_token Advances
  nth_token-eos zero st h =
      Post-weaken (Advances (left st)) (λ r. r.0.token ≡ tk_eos) (llex str2d st) (llex-Advances st)
        (λ r g. elim g [ inl more ↦ absurd (omega arith) | inr (e, _) ↦ e ])
  nth_token-eos (suc n) st h =
      Post-bind (Advances (left st)) (λ r. r.0.token ≡ tk_eos) (llex str2d st)
        (λ r. nth_token n r.1) (llex-Advances st)
        (λ r g. nth_token-eos n r.1 (elim g [ inl more ↦ omega arith | inr (_, e) ↦ omega arith ]))
