-- ===== src/Func.antt =====
-- Upvalues and local names: lua-5.1.5/src/lfunc.c, with the bits of an object's mark in lgc.h and
-- luaC_linkupval of lgc.c. `V` is the type of the values.
--
-- An address is a place of the heap; a freed place holds `none`. A linked list of upvalues is the list of its
-- addresses, the head first. `v` of an upvalue points to a slot of the stack, or to the upvalue's own value.
pub mod Open
pub mod Find
pub mod Close
pub mod Values
pub mod Colour
pub mod Names
use Prim.Native.Nat.{bit_xor}
use unitu_lua_test.Base.{
  ℕ, zero, suc, ◌+◌, ◌-◌, ltb, leb, ◌==◌, if◌then◌else◌, ◌&&◌, not, Bool, true, false, bit_and,
  bit_or, List, [], ◌∷◌, ◌++◌, length, get_or, set, Option, none, some,
}

-- `WHITEBITS`
abbrev pub whitebits : ℕ
whitebits = 3

unfoldable pub iswhite : ℕ → Bool
iswhite marked = not (bit_and marked whitebits == 0)

unfoldable pub isblack : ℕ → Bool
isblack marked = not (bit_and marked 4 == 0)

unfoldable pub isgray : ℕ → Bool
isgray marked = not (isblack marked) && not (iswhite marked)

unfoldable pub isdead : ℕ → ℕ → Bool
isdead currentwhite marked =
    not (bit_and (bit_and marked (bit_xor currentwhite whitebits)) whitebits == 0)

unfoldable pub changewhite : ℕ → ℕ
changewhite marked = bit_xor marked whitebits

unfoldable pub gray2black : ℕ → ℕ
gray2black marked = bit_or marked 4

-- `luaC_white(g)`
unfoldable pub white : ℕ → ℕ
white currentwhite = bit_and currentwhite whitebits

unfoldable pub makewhite : ℕ → ℕ → ℕ
makewhite currentwhite marked = bit_or (bit_and marked 0xf8) (white currentwhite)

pub data Slot (V : Type 0) : Type 0 where
  on_stack : ℕ → Slot V
  own : V → Slot V

pub record UpVal (V : Type 0) : Type 0 where
  pub marked : ℕ
  pub v : Slot V

abbrev pub Heap : Type 0 → Type 0
Heap V = List (Option (UpVal V))

-- `barriers` has the values that the write barrier was called with, the last one first.
pub record State (V : Type 0) : Type 0 where
  pub stack : List V
  pub heap : Heap V
  pub openupval : List ℕ
  pub uvhead : List ℕ
  pub rootgc : List ℕ
  pub currentwhite : ℕ
  pub gcstate : ℕ
  pub barriers : List V

module _ {V : Type 0} where
  unfoldable pub slot_of : Option (UpVal V) → Option (Slot V)
  slot_of none = none
  slot_of (some uv) = some uv.v

  unfoldable pub slot_level : Option (Slot V) → Option ℕ
  slot_level none = none
  slot_level (some (on_stack l)) = some l
  slot_level (some (own x)) = none

  unfoldable pub slot_at : Heap V → ℕ → Option (Slot V)
  slot_at h p = slot_of (get_or h p none)

  -- The slot of the stack that an upvalue points to.
  unfoldable pub open_level : Heap V → ℕ → Option ℕ
  open_level h p = slot_level (slot_at h p)

  -- The asserts say that every upvalue of the list is open.
  unfoldable pub level_of : Heap V → ℕ → ℕ
  level_of h p = elim (open_level h p) [ some l ↦ l | none ↦ 0 ]

  unfoldable pub mark_of : Option (UpVal V) → ℕ
  mark_of none = 0
  mark_of (some uv) = uv.marked

  unfoldable pub dead_at : State V → ℕ → Bool
  dead_at s p = isdead s.currentwhite (mark_of (get_or s.heap p none))

-- What the loop of `luaF_findupval` stops at: an upvalue, or the place behind `before`.
pub data Search : Type 0 where
  hit : ℕ → Search
  place : (before after : List ℕ) → Search

unfoldable pub past : ℕ → Search → Search
past p (hit q) = hit q
past p (place before after) = place (p ∷ before) after

-- `uv` taken out of the doubly linked list.
unfoldable pub remove : ℕ → List ℕ → List ℕ
remove p [] = []
remove p (q ∷ qs) = let rest = remove p qs in if p == q then qs else q ∷ rest

unfoldable pub is_open : Option ℕ → Bool
is_open none = false
is_open (some l) = true

module _ {V : Type 0} where
  unfoldable pub search_open : Heap V → ℕ → List ℕ → Search
  search_open h level [] = place [] []
  search_open h level (p ∷ ps) =
      let rest = search_open h level ps in
      if leb level (level_of h p)
      then (if level_of h p == level then hit p else past p rest)
      else place [] (p ∷ ps)

  -- `changewhite(obj2gco(p))`, for a dead upvalue
  unfoldable pub resurrect : ℕ → Option (UpVal V) → Option (UpVal V)
  resurrect p none = none
  resurrect p (some uv) = some (record uv { marked = changewhite uv.marked })

  -- A new object has an address behind those in use.
  unfoldable pub found : State V → ℕ → Search → ℕ × State V
  found s level (hit p) = (
    p,
    if dead_at s p
        then record s { heap = set s.heap p (resurrect p (get_or s.heap p none)) }
        else s,
  )
  found s level (place before after) =
      let uv = length s.heap in
      (
        uv,
        record s {
          heap =
              s.heap ++ (some (record { marked = white s.currentwhite; v = on_stack level }) ∷ []);
          openupval = before ++ (uv ∷ after);
          uvhead = uv ∷ s.uvhead;
        },
      )

  -- `luaF_findupval`
  unfoldable pub findupval : State V → ℕ → ℕ × State V
  findupval s level = found s level (search_open s.heap level s.openupval)

  -- `unlinkupval`
  unfoldable pub unlinkupval : State V → ℕ → State V
  unlinkupval s p = record s { uvhead = remove p s.uvhead }

  -- `luaF_freeupval`
  unfoldable pub freeupval : State V → ℕ → State V
  freeupval s p =
      let s' = if is_open (open_level s.heap p) then unlinkupval s p else s in
      record s' { heap = set s'.heap p none }

  -- `luaC_linkupval`, of an upvalue that is closed over `x`
  unfoldable pub linkupval : State V → ℕ → ℕ → V → State V
  linkupval s p marked x =
      let linked : State V = record s { rootgc = p ∷ s.rootgc } in
      if isgray marked
      then if s.gcstate == 1
        then record linked {
          heap = set s.heap p (some (record { marked = gray2black marked; v = own x }));
          barriers = x ∷ s.barriers;
        }
        else record linked {
          heap =
              set s.heap p (some (record { marked = makewhite s.currentwhite marked; v = own x }));
        }
      else record linked { heap = set s.heap p (some (record { marked = marked; v = own x })) }

  -- The body of the loop of `luaF_close`; `d` stands for what lies beyond the stack.
  unfoldable pub close_one : V → State V → ℕ → List ℕ → State V
  close_one d s uv next =
      let s' : State V = record s { openupval = next } in
      if dead_at s' uv
      then freeupval s' uv
      else linkupval (unlinkupval s' uv) uv (mark_of (get_or s'.heap uv none))
          (get_or s'.stack (level_of s'.heap uv) d)

  unfoldable pub close_loop : V → State V → ℕ → List ℕ → State V
  close_loop d s level [] = s
  close_loop d s level (uv ∷ next) = elim (leb level (level_of s.heap uv)) [
    | true ↦ close_loop d (close_one d s uv next) level next
    | false ↦ s
  ]

  -- `luaF_close`
  unfoldable pub close : V → State V → ℕ → State V
  close d s level = close_loop d s level s.openupval
