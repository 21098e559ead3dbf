-- ===== src/Zio/Read.antt =====
-- `luaZ_read` gives the bytes of the input in order, whatever the blocks are.
use unitu_lua_test.Base.{
  ℕ, zero, suc, ◌+◌, ◌-◌, ◌≤◌, ◌<◌, ◌≡◌, refl, ap, ◌∙◌, sym, leb, ◌==◌, if◌then◌else◌, inl, inr,
  false, Bool-cases, arith, List, [], ◌∷◌, ◌++◌, length, take, drop, drop-nil, take-nil,
  length-drop, length-append, drop-add, drop-append_le, take-append_le, take-split, get_or, Option,
  none, some,
}
use mathlib.Core.List.{append-nil, append_assoc}
use unitu_lua_test.Zio.{Zio, fill_from, put_back, fill, lookahead, read_loop, read, init}

-- The input that the reader has not given yet.
unfoldable pub stream : List (List ℕ) → List ℕ
stream [] = []
stream ([] ∷ bs) = []
stream ((c ∷ cs) ∷ bs) = (c ∷ cs) ++ stream bs

-- The input that the program has not read yet.
unfoldable pub content : Zio → List ℕ
content z = drop z.p z.buff ++ stream z.blocks

-- `n` counts what is left of the block.
pub record IsValid (z : Zio) : Type 0 where
  pub rest : z.p + z.n ≡ length z.buff

drop_all {ℓ} : {A : Type ℓ} (xs : List A) (p : ℕ) → p ≡ length xs → drop p xs ≡ []
drop_all [] p h = drop-nil p
drop_all (x ∷ xs) zero h = absurd (omega arith)
drop_all (x ∷ xs) (suc p) h = drop_all xs p (omega arith)

get_or-drop : (xs : List ℕ) (p : ℕ) → p < length xs → drop p xs ≡ get_or xs p 0 ∷ drop (suc p) xs
get_or-drop [] p h = absurd (omega arith)
get_or-drop (x ∷ xs) zero h = refl
get_or-drop (x ∷ xs) (suc p) h = get_or-drop xs p (omega arith)

-- What `luaZ_lookahead` does, by what is left of the input.
record Looks (z : Zio) (r : Option ℕ × Zio) : Type 0 where
  valid : IsValid r.1
  at_end : content z ≡ [] → r.0 ≡ none
  inside :
      (c : ℕ) (cs : List ℕ)
      → content z ≡ c ∷ cs
      → (r.0 ≡ some c) × (content r.1 ≡ content z) × (0 < r.1.n)

fill-Looks :
    (z : Zio) (bs : List (List ℕ))
    → IsValid z
    → content z ≡ stream bs
    → Looks z (put_back (fill_from z bs))
unfolding put_back fill_from stream
fill-Looks z [] v e = record { valid = v; at_end = λ _. refl; inside = λ c cs k. cc }
fill-Looks z ([] ∷ bs) v e = record {
  valid = record { rest = v.rest };
  at_end = λ _. refl;
  inside = λ c cs k. cc;
}
fill-Looks z ((x ∷ xs) ∷ bs) v e = record {
  valid = record { rest = omega arith };
  at_end = λ k. cc;
  inside = λ c cs k. (cc, unfold content in sym e, omega arith);
}

lookahead-Looks : (z : Zio) → IsValid z → Looks z (lookahead z)
unfolding lookahead fill
lookahead-Looks z v = elim (Bool-cases (z.n == 0)) [
  | inl out ↦
      let none_left : drop z.p z.buff ≡ [] = drop_all z.buff z.p (ground arith) in
      rw (out) (fill-Looks z z.blocks v (unfold content in rw none_left))
  | inr more ↦
      let pos : 0 < z.n = ground arith in
      let head = get_or-drop z.buff z.p (omega (arith, v.rest)) in
      rw more (record {
        valid = v;
        at_end = λ k. unfold content in cc;
        inside = λ c cs k. unfold content in (cc, refl, pos);
      })
]

-- Consuming `m` bytes of the current block.
record Advances (z : Zio) (m : ℕ) : Type 0 where
  valid : IsValid (record z { n = z.n - m; p = z.p + m })
  rest : content (record z { n = z.n - m; p = z.p + m }) ≡ drop m (content z)
  copied : take m (drop z.p z.buff) ≡ take m (content z)
  within : m ≤ length (content z)

advance : (z : Zio) (m : ℕ) → IsValid z → m ≤ z.n → Advances z m
unfolding content
advance z m v h =
    let left : m ≤ length (drop z.p z.buff) = omega (arith, length-drop z.p z.buff, v.rest) in
    record {
      valid = record { rest = omega (arith, v.rest) };
      rest = rw (drop-add z.p m z.buff) (sym (drop-append_le m _ _ left));
      copied = sym (take-append_le m _ _ left);
      within = omega (arith, left, length-append (drop z.p z.buff) (stream z.blocks));
    }

-- `n` bytes asked for behind those that `b` holds.
record Reads (z : Zio) (b : List ℕ) (n : ℕ) (r : ℕ × List ℕ × Zio) : Type 0 where
  valid : IsValid r.2
  missing : r.0 ≡ n - length (content z)
  bytes : r.1 ≡ b ++ take n (content z)
  rest : n ≤ length (content z) → content r.2 ≡ drop n (content z)

read_round :
    (fuel : ℕ)
    → ((z : Zio) (b : List ℕ) (n : ℕ) → IsValid z → n ≤ fuel → Reads z b n (read_loop fuel z b n))
    → (z : Zio) (b : List ℕ) (n : ℕ) → IsValid z
    → n ≤ suc fuel
    → (n == 0) ≡ false
    → (l : List ℕ) → content z ≡ l
    → Reads z b n (read_loop (suc fuel) z b n)
unfolding read_loop
read_round fuel ih z b n v hn more [] e =
    let look = lookahead-Looks z v in
    rw (more, read_loop, look.at_end e)
      (record {
        valid = look.valid;
        missing = rw e (omega arith);
        bytes = rw (e, take-nil, append-nil);
        rest = λ h. absurd (let h' : n ≤ 0 = rw e at h in ground arith);
      })
read_round fuel ih z b n v hn more (c ∷ cs) e =
    let look = lookahead-Looks z v in
    let (some_c, same, pos) = look.inside c cs e in
    let z' = (lookahead z).1 in
    let m : ℕ = if leb n z'.n then n else z'.n in
    let step = advance z' m look.valid (ground arith) in
    let next =
      ih (record z' { n = z'.n - m; p = z'.p + m }) (b ++ take m (drop z'.p z'.buff)) (n - m)
        step.valid (ground arith) in
    let m_le : m ≤ n = ground arith in
    let left = step.rest ∙ ap (drop m) same in
    let size = ap length left ∙ length-drop m (content z) in
    let inside = rw same at step.within in
    let whole : m + (n - m) ≡ n = omega arith in
    rw (more, read_loop, some_c)
      (record {
        valid = next.valid;
        missing = omega (arith, next.missing, size, inside);
        bytes =
            next.bytes
            ∙ append_assoc b (take m (drop z'.p z'.buff)) _
            ∙ ap (λ t. b ++ t)
                (rw (step.copied, left, same) (sym (take-split m n (content z) m_le)));
        rest = λ h. next.rest (omega (arith, size)) ∙ rw (left, ← drop-add, whole);
      })

read_loop-Reads :
    (fuel : ℕ) (z : Zio) (b : List ℕ) (n : ℕ)
    → IsValid z
    → n ≤ fuel
    → Reads z b n (read_loop fuel z b n)
read_loop-Reads zero z b zero v h =
    unfold read_loop in
    record { valid = v; missing = omega arith; bytes = rw append-nil; rest = λ _. refl }
read_loop-Reads zero z b (suc n) v h = absurd (omega arith)
read_loop-Reads (suc fuel) z b n v h = elim (Bool-cases (n == 0)) [
  | inl done ↦
      let zero_n : n ≡ 0 = ground arith in
      unfold read_loop in
      rw (done, read_loop)
        (record {
          valid = v;
          missing = omega arith;
          bytes = rw (zero_n, append-nil);
          rest = λ _. rw zero_n;
        })
  | inr more ↦ read_round fuel (read_loop-Reads fuel) z b n v h more (content z) refl
]

-- If `n` bytes are left of the input, reading `n` bytes gives just these, none is missing, and
-- the bytes behind them stay to be read.
pub read_enough :
    (z : Zio) (n : ℕ)
    → IsValid z
    → n ≤ length (content z)
    → ((read z n).0 ≡ 0)
      × ((read z n).1 ≡ take n (content z))
      × IsValid (read z n).2
      × (content (read z n).2 ≡ drop n (content z))
unfolding read
read_enough z n v h =
    let r = read_loop-Reads n z [] n v (omega arith) in
    (omega (arith, r.missing), r.bytes, r.valid, r.rest h)

take-all {ℓ} : {A : Type ℓ} (n : ℕ) (xs : List A) → length xs ≤ n → take n xs ≡ xs
take-all n [] h = take-nil n
take-all zero (x ∷ xs) h = absurd (omega arith)
take-all (suc n) (x ∷ xs) h = ap (λ t. x ∷ t) (take-all n xs (omega arith))

-- If fewer than `n` bytes are left of the input, reading `n` bytes gives all of them and counts the missing ones.
pub read_short :
    (z : Zio) (n : ℕ)
    → IsValid z
    → length (content z) < n
    → ((read z n).0 ≡ n - length (content z)) × ((read z n).1 ≡ content z) × IsValid (read z n).2
unfolding read
read_short z n v h =
    let r = read_loop-Reads n z [] n v (omega arith) in
    (r.missing, r.bytes ∙ take-all n (content z) (omega arith), r.valid)

-- A stream that was just initialised holds the reader's blocks, up to the first empty one.
pub init-content :
    (blocks : List (List ℕ)) → IsValid (init blocks) × (content (init blocks) ≡ stream blocks)
unfolding init content
init-content blocks = (record { rest = omega arith }, refl)
