-- ===== src/Tests/Strings.antt =====
-- The table of strings (lua-5.1.5/src/lstring.c) at concrete strings.
use unitu_lua_test.Base.{ℕ, ◌^◌, ◌≡◌, ◌↔◌, refl, arith, List, [], ◌∷◌, some}
use unitu_lua_test.Base.Text.{codes}
use unitu_lua_test.Chunk.Dump.{same_bytes}
use unitu_lua_test.Func.{white}
use unitu_lua_test.StringTable.{
  TString, GlobalState, lmod, hash_of, hash_loop, hash_step, push, rehash_chain, rehash, resize,
  too_big, grow, newlstr, search, luas_newlstr,
}
use unitu_lua_test.StringTable.Chains.{empty-In}
use unitu_lua_test.StringTable.Resize.{IsHeld, IsTable, resize-IsHeld}
use unitu_lua_test.StringTable.Intern.{Interns, luas_newlstr-IsInterned, luas_newlstr-eq}

abbrev start : GlobalState
start = record { heap = []; chains = [] ∷ []; nuse = 0; size = 1; currentwhite = 33; gcstate = 0 }

start-IsTable : IsTable start
start-IsTable = record {
  k = 0;
  size-pow = refl;
  size-chains = refl;
  in_heap = λ i a h. absurd (empty-In 1 i a h);
  hashed = λ i a h. absurd (empty-In 1 i a h);
  placed = λ i a h. absurd (empty-In 1 i a h);
  unique = λ i j a b h _ _. absurd (empty-In 1 i a h);
}

abbrev object_of : List ℕ → TString
object_of str = record { marked = 1; reserved = 0; hash = hash_of str; value = str }

abbrev with_a : GlobalState
with_a = record start { heap = object_of (codes "a") ∷ []; chains = (0 ∷ []) ∷ []; nuse = 1 }

-- The second string makes the table grow to two chains.
abbrev with_ab : GlobalState
with_ab = record with_a {
  heap = object_of (codes "a") ∷ object_of (codes "b") ∷ [];
  chains = (0 ∷ []) ∷ (1 ∷ []) ∷ [];
  nuse = 2;
  size = 2;
}

a_first : luas_newlstr (codes "a") start ≡ some (0, with_a)
unfolding luas_newlstr newlstr search grow too_big push lmod hash_of hash_loop hash_step white
a_first = refl

b_second : luas_newlstr (codes "b") with_a ≡ some (1, with_ab)
unfolding luas_newlstr newlstr search grow too_big push lmod hash_of hash_loop hash_step white
    resize rehash rehash_chain same_bytes
b_second = refl

luas_newlstr-IsInterned_example : Interns (codes "b") start (luas_newlstr (codes "b") start)
luas_newlstr-IsInterned_example =
    luas_newlstr-IsInterned (codes "b") start start-IsTable (omega arith)

luas_newlstr-eq_example : (◌≡◌ {A = ℕ} 0 1) ↔ (codes "a" ≡ codes "b")
luas_newlstr-eq_example =
    luas_newlstr-eq (codes "a") (codes "b") start with_a with_ab 0 1 start-IsTable (omega arith)
      (omega arith) a_first b_second

resize-IsHeld_example :
    (IsHeld with_a.chains 0 → IsHeld (resize (2 ^ 3) with_a).chains 0)
    × (IsHeld (resize (2 ^ 3) with_a).chains 0 → IsHeld with_a.chains 0)
resize-IsHeld_example = resize-IsHeld with_a 3 0
