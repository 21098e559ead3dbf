-- ===== src/StringTable.antt =====
-- The table of strings: lua-5.1.5/src/lstring.c, with the macro lmod of lobject.h. luaS_newlstr is luas_newlstr,
-- luaS_resize is resize.
--
-- An address is a place of the heap of strings, which only grows here. A chain of the table is the list of its
-- addresses, the head first. Allocation does not fail.
pub mod Chains
pub mod Hash
pub mod Resize
pub mod Added
pub mod Intern
use Prim.Native.Nat.{bit_xor}
use unitu_lua_test.Base.{
  ℕ, zero, suc, ◌+◌, ◌-◌, ◌*◌, ◌/◌, ◌%◌, ◌^◌, ltb, leb, ◌==◌, if◌then◌else◌, ◌&&◌, Bool, true,
  false, bit_and, List, [], ◌∷◌, ◌++◌, length, get_or, set, replicate, Option, none, some,
}
use unitu_lua_test.Chunk.Dump.{same_bytes}
use unitu_lua_test.Func.{isdead, changewhite, white}

pub record TString : Type 0 where
  pub marked : ℕ
  pub reserved : ℕ
  pub hash : ℕ
  pub value : List ℕ

-- `strt` with its fields `hash`, `nuse` and `size`, and what the functions read of the collector
pub record GlobalState : Type 0 where
  pub heap : List TString
  pub chains : List (List ℕ)
  pub nuse : ℕ
  pub size : ℕ
  pub currentwhite : ℕ
  pub gcstate : ℕ

abbrev pub gcs_sweepstring : ℕ
gcs_sweepstring = 2

abbrev pub max_int : ℕ
max_int = 2 ^ 31 - 3

-- The string at an address. No chain holds an address beyond the heap.
abbrev pub nowhere : TString
nowhere = record { marked = 0; reserved = 0; hash = 0; value = [] }

abbrev pub string_at : List TString → ℕ → TString
string_at heap a = get_or heap a nowhere

abbrev pub chain_at : List (List ℕ) → ℕ → List ℕ
chain_at chains i = get_or chains i []

unfoldable pub lmod : ℕ → ℕ → ℕ
lmod s size = bit_and s (size - 1)

-- `h = h ^ ((h<<5)+(h>>2)+c)`
unfoldable pub hash_step : ℕ → ℕ → ℕ
hash_step h c = bit_xor h ((h * 2 ^ 5 + h / 2 ^ 2 + c) % 2 ^ 32)

-- `for (l1=l; l1>=step; l1-=step)`
unfoldable pub hash_loop : ℕ → List ℕ → ℕ → ℕ → ℕ → ℕ
hash_loop zero str step l1 h = h
hash_loop (suc fuel) str step l1 h =
    let rest = hash_loop fuel str step (l1 - step) (hash_step h (get_or str (l1 - 1) 0)) in
    if leb step l1 then rest else h

unfoldable pub hash_of : List ℕ → ℕ
hash_of str = let l = length str in hash_loop (suc l) str (l / 2 ^ 5 + 1) l (l % 2 ^ 32)

-- `next = chains[h]; chains[h] = a`
unfoldable pub push : List (List ℕ) → ℕ → ℕ → List (List ℕ)
push chains h a = set chains h (a ∷ chain_at chains h)

unfoldable pub rehash_chain : List TString → ℕ → List (List ℕ) → List ℕ → List (List ℕ)
rehash_chain heap newsize newhash [] = newhash
rehash_chain heap newsize newhash (a ∷ chain) =
    rehash_chain heap newsize (push newhash (lmod (string_at heap a).hash newsize) a) chain

unfoldable pub rehash : List TString → ℕ → List (List ℕ) → List (List ℕ) → List (List ℕ)
rehash heap newsize newhash [] = newhash
rehash heap newsize newhash (chain ∷ chains) =
    rehash heap newsize (rehash_chain heap newsize newhash chain) chains

unfoldable pub resize : ℕ → GlobalState → GlobalState
resize newsize g =
    if g.gcstate == gcs_sweepstring
    then g
    else record g { chains = rehash g.heap newsize (replicate newsize []) g.chains; size = newsize }

-- `luaM_toobig` beyond MAX_SIZET; a TString has 24 bytes
unfoldable pub too_big : ℕ → Bool
too_big l = ltb (2 ^ 64 - 3 - 24) (l + 1)

unfoldable pub grow : GlobalState → GlobalState
grow g = if ltb g.size g.nuse && leb g.size (max_int / 2) then resize (g.size * 2) g else g

unfoldable pub newlstr : List ℕ → ℕ → GlobalState → Option (ℕ × GlobalState)
newlstr str h g =
    let a = length g.heap in
    let ts : TString = record {
      marked = white g.currentwhite;
      reserved = 0;
      hash = h;
      value = str;
    } in
    let g' = record g {
      heap = g.heap ++ (ts ∷ []);
      chains = push g.chains (lmod h g.size) a;
      nuse = (g.nuse + 1) % 2 ^ 32;
    } in
    if too_big (length str) then none else some (a, grow g')

-- The loop over a chain
unfoldable pub search : List TString → List ℕ → List ℕ → Option ℕ
search heap str [] = none
search heap str (a ∷ chain) =
    let rest = search heap str chain in
    if same_bytes str (string_at heap a).value then some a else rest

-- A string that is found may be dead.
unfoldable pub revive : ℕ → GlobalState → GlobalState
revive a g =
    let ts = string_at g.heap a in
    if isdead g.currentwhite ts.marked
    then record g { heap = set g.heap a (record ts { marked = changewhite ts.marked }) }
    else g

unfoldable pub luas_newlstr : List ℕ → GlobalState → Option (ℕ × GlobalState)
luas_newlstr str g =
    let h = hash_of str in
    elim (search g.heap str (chain_at g.chains (lmod h g.size))) [
      | some a ↦ some (a, revive a g)
      | none ↦ newlstr str h g
    ]
