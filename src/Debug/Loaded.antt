-- ===== src/Debug/Loaded.antt =====
-- The check of a precompiled chunk: `luaU_undump` (lua-5.1.5/src/lundump.c) with `luaG_checkcode`
-- (lua-5.1.5/src/ldebug.c).
use unitu_lua_test.Base.{
  ℕ, zero, suc, ◌<◌, ◌≡◌, refl, sym, ap, ◌∙◌, length, Bool, true, false, if◌then◌else◌, none,
}
use unitu_lua_test.Zio.{Zio}
use unitu_lua_test.Chunk.{Proto, info, TString}
use unitu_lua_test.Chunk.Dump.{same_string}
use unitu_lua_test.Chunk.Load.{
  Load, Result, ok, err, ◌>>=◌, return, fail, bad_code, load_header, load_function, undump,
  load_string, load_int, load_char, load_code, load_each, load_constant, load_protos, load_locvar,
  chunk_source,
}
use unitu_lua_test.Debug.{checkcode, children}
use unitu_lua_test.Debug.Visited.{IsVisited}
use unitu_lua_test.Debug.Flow.{Reaches}
use unitu_lua_test.Debug.Safety.{HasFlags, checkcode-Reaches}

-- A load that returns a value returns one of which `P` holds.
Returns : {A : Type 0} → (A → Type 0) → Load A → Type 0
Returns {A} P m = (z z' : Zio) (a : A) → m z ≡ ok a z' → P a

after :
    {A B : Type 0} (P : B → Type 0) (m : Load A) (f : A → Load B)
    → ((a : A) → Returns P (f a))
    → Returns P (m >>= f)
unfolding Returns
after {A} {B} P m f h z z' b e = by_result (m z) e
  where
    by_result :
        (r : Result A)
        → elim r as (λ _. Result B) [ ok a z₁ ↦ f a z₁ | err x ↦ err x ] ≡ ok b z'
        → P b
    by_result (ok a z₁) e = h a z₁ z' b e
    by_result (err x) e = absurd cc

checked :
    (accepts : Proto → Bool) (f : Proto)
    → Returns (λ g. accepts g ≡ true) (if accepts f then return f else fail bad_code)
unfolding Returns
checked accepts f z z' g e = by_test (accepts f) refl e
  where
    by_test :
        (b : Bool)
        → accepts f ≡ b
        → (if b then return f else fail bad_code) z ≡ ok g z'
        → accepts g ≡ true
    by_test true good e = let same : f ≡ g = cc in ap accepts (sym same) ∙ good
    by_test false bad e = absurd cc

load_function-checked :
    (accepts : Proto → Bool) (left : ℕ) (p : TString)
    → Returns (λ g. accepts g ≡ true) (load_function accepts left p)
unfolding load_function
load_function-checked accepts zero p = unfold Returns in λ z z' g e. absurd cc
load_function-checked accepts (suc left) p =
    let P = λ (g : Proto). accepts g ≡ true in
    after P load_string _ λ s. after P load_int _ λ linedefined.
      after P load_int _ λ lastlinedefined. after P load_char _ λ nups.
        after P load_char _ λ numparams. after P load_char _ λ is_vararg.
          after P load_char _ λ maxstacksize. after P load_code _ λ code. after P load_int _ λ n_k.
            after P (load_each load_constant n_k) _ λ k. after P load_int _ λ n_p.
              after P
                (load_protos (load_function accepts left (if same_string s none then p else s)) n_p)
                _
                λ fs. after P load_code _ λ lineinfo. after P load_int _ λ n_locvars.
                  after P (load_each load_locvar n_locvars) _ λ locvars.
                    after P load_int _ λ n_upvalues.
                      after P (load_each load_string n_upvalues) _ λ upvalues. checked accepts _

-- A function that `luaU_undump` returns has passed the check of its code.
undump-checked :
    (accepts : Proto → Bool) (left : ℕ) → Returns (λ g. accepts g ≡ true) (undump accepts left)
unfolding undump
undump-checked accepts left =
    after (λ g. accepts g ≡ true) load_header _ λ _. load_function-checked accepts left chunk_source

-- Whatever bytes are loaded as a chunk: in a function that comes back, the machine never leaves the code,
-- where OP_LOADBOOL has 0 or 1 as its C.
pub undump-Reaches :
    (left : ℕ) (z z' : Zio) (f : Proto) (pc : ℕ)
    → undump checkcode left z ≡ ok f z'
    → HasFlags (info f).code
    → Reaches (info f).code (children f) pc
    → (pc < length (info f).code) × IsVisited (info f).code pc
unfolding Returns
undump-Reaches left z z' f pc e flags reach =
    checkcode-Reaches f pc (undump-checked checkcode left z z' f e) flags reach
