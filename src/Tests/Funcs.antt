-- ===== src/Tests/Funcs.antt =====
-- Upvalues and local names (lua-5.1.5/src/lfunc.c) at concrete values.
use unitu_lua_test.Base.{
  ℕ, zero, suc, ◌≡◌, refl, arith, [], ◌∷◌, get_or, get_elem?, none, some, inl, false, List,
}
use unitu_lua_test.Base.Text.{codes}
use unitu_lua_test.Chunk.{LocVar}
use unitu_lua_test.Func.{
  State, on_stack, own, slot_of, slot_level, slot_at, open_level, level_of, mark_of, isdead,
  dead_at, search_open, past, found, findupval, remove, is_open, unlinkupval, freeupval, iswhite,
  isblack, isgray, linkupval, close_one, close_loop, close,
}
use unitu_lua_test.Func.Open.{Descends, IsValid}
use unitu_lua_test.Func.Find.{findupval-Shares}
use unitu_lua_test.Func.Colour.{IsMark, IsColoured, findupval-dead_at}
use unitu_lua_test.Func.Close.{close-Descends}
use unitu_lua_test.Func.Values.{value_at, close-value_at, close-slot_at}
use unitu_lua_test.Func.Names.{getlocalname, active, IsSorted, getlocalname-active}

-- Three upvalues: a live one at slot 2, a dead one at slot 1, and a closed one.
abbrev two_open : State ℕ
two_open = record {
  stack = 10 ∷ 11 ∷ 12 ∷ 13 ∷ [];
  heap =
      some (record { marked = 1; v = on_stack 2 })
      ∷ some (record { marked = 2; v = on_stack 1 })
      ∷ some (record { marked = 1; v = own 7 })
      ∷ [];
  openupval = 0 ∷ 1 ∷ [];
  uvhead = 1 ∷ 0 ∷ [];
  rootgc = 2 ∷ [];
  currentwhite = 33;
  gcstate = 0;
  barriers = [];
}

two_open-IsValid : IsValid two_open
unfolding Descends open_level slot_level slot_at slot_of
two_open-IsValid = record { sorted = (2, refl, omega arith, (1, refl, omega arith, tt)) }

two_open-IsColoured : IsColoured two_open
unfolding mark_of
two_open-IsColoured = record { current = inl refl; marks = mark }
  where
    mark : (q : ℕ) → IsMark (mark_of (get_or two_open.heap q none))
    mark zero = record { byte = omega arith; one_white = λ h. absurd (omega arith) }
    mark (suc zero) = record { byte = omega arith; one_white = λ h. absurd (omega arith) }
    mark (suc (suc zero)) = record { byte = omega arith; one_white = λ h. absurd (omega arith) }
    mark (suc (suc (suc q))) = record { byte = omega arith; one_white = λ h. absurd (omega arith) }

find_dead : (findupval two_open 1).0 ≡ 1
unfolding findupval search_open found past level_of open_level slot_level slot_at slot_of
find_dead = refl

-- A new upvalue for slot 3 goes to the front of the list.
find_new : (findupval two_open 3).1.openupval ≡ 3 ∷ 0 ∷ 1 ∷ []
unfolding findupval search_open found past level_of open_level slot_level slot_at slot_of
find_new = refl

-- The live upvalue is closed over 12, the dead one is freed.
close_both :
    (close 0 two_open 1).heap
    ≡ some (record { marked = 1; v = own 12 }) ∷ none ∷ some (record { marked = 1; v = own 7 }) ∷ []
unfolding close close_loop close_one level_of open_level slot_level slot_at slot_of dead_at isdead
    mark_of freeupval unlinkupval linkupval isgray iswhite isblack is_open remove
close_both = refl

findupval-Shares_example :
    IsValid (findupval two_open 3).1
    × (open_level (findupval two_open 3).1.heap (findupval two_open 3).0 ≡ some 3)
    × ((findupval (findupval two_open 3).1 3).0 ≡ (findupval two_open 3).0)
findupval-Shares_example = findupval-Shares two_open 3 two_open-IsValid (omega arith)

findupval-dead_at_example : dead_at (findupval two_open 1).1 (findupval two_open 1).0 ≡ false
findupval-dead_at_example = findupval-dead_at two_open 1 two_open-IsColoured

close-Descends_example : Descends (close 0 two_open 2).heap 2 (close 0 two_open 2).openupval
close-Descends_example = close-Descends 0 two_open 2 two_open-IsValid

live_0 : dead_at two_open 0 ≡ false
unfolding dead_at isdead mark_of
live_0 = refl

close-value_at_example : value_at 0 (close 0 two_open 1) 0 ≡ value_at 0 two_open 0
close-value_at_example = close-value_at 0 two_open 1 0 two_open-IsValid live_0

open_0 : open_level two_open.heap 0 ≡ some 2
unfolding open_level slot_level slot_at slot_of
open_0 = refl

close-slot_at_example : slot_at (close 0 two_open 1).heap 0 ≡ some (own 12)
close-slot_at_example =
    close-slot_at 0 two_open 1 0 0 2 two_open-IsValid refl open_0 (omega arith) live_0

abbrev two_locals : List LocVar
two_locals =
    record { varname = some (codes "a"); startpc = 1; endpc = 9 }
    ∷ record { varname = some (codes "b"); startpc = 3; endpc = 5 }
    ∷ []

two_locals-IsSorted : IsSorted two_locals
unfolding IsSorted
two_locals-IsSorted = ((omega arith, tt), (tt, tt))

getlocalname-active_example : getlocalname two_locals 2 4 ≡ get_elem? (active two_locals 4) 1
getlocalname-active_example = getlocalname-active two_locals 1 4 two_locals-IsSorted
