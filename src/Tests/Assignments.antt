-- ===== src/Tests/Assignments.antt =====
-- The theorems on the hash part of tables (lua-5.1.5/src/ltable.c) at a table with two colliding strings.
use unitu_lua_test.Table.Refill.{valued}
use unitu_lua_test.Table.Regrow.{IsKeptBy, resize-IsKeptBy}
use unitu_lua_test.Table.Node.{
  get, getnum, find_number, find_node, hashnum, insert, mainposition, getfreepos, collide, find_key,
  find_previous, free_loop, getstr, hashmod, link_node, move_node, put, set_key, set_next, value_at,
  Node, Table,
}
use unitu_lua_test.Object.Value.{
  numeq, number2int, double_of, high_digit, is_nan, is_zero, rawequal, truncated, TValue, nil,
  boolean, lightuserdata, number, object,
}
use unitu_lua_test.Table.{numusearray_loop, sizes_loop, computesizes, numusearray, slice_loop}
use unitu_lua_test.Object.{ceillog2, log2, log2_loop}
use unitu_lua_test.Base.Int.{◌+ℤ◌}
use unitu_lua_test.StringTable.{lmod}
use unitu_lua_test.Table.Access.{arrayindex, newkey, set_new, setnum, set}
use unitu_lua_test.Table.Resize.{
  countint, insert_nodes, insert_slice, new_sizes, numusehash, numusehash_loop, resize,
  setarrayvector, setnodevector, grow_at, new,
}
use unitu_lua_test.Base.{ℕ, zero, suc, ◌≡◌, refl, false, [], ◌∷◌, none, some}
use unitu_lua_test.Tests.Hashes.{address_hash}
use unitu_lua_test.Table.Node.{gnode, free_node, place_of}
use unitu_lua_test.Table.Chained.{IsUsed, IsNew}
use unitu_lua_test.Table.Find.{IsHash}
use unitu_lua_test.Table.Insert.{IsPlaced, Inserted, insert-Inserted}
use unitu_lua_test.Table.Store.{stored-IsHash, none-IsNew}
use unitu_lua_test.Table.Slot.{slot, place_in, get-find_key}
use unitu_lua_test.Table.Map.{array-IsHash}
use unitu_lua_test.Table.Assign.{IsKey, Assigned, set-Assigned}
use unitu_lua_test.Table.New.{IsEmptyTable, new-IsEmptyTable}
use unitu_lua_test.Table.Border.{getn}
use unitu_lua_test.Table.Border.Found.{HasBorder, getn-HasBorder}
use unitu_lua_test.Table.Next.{is_dead}
use unitu_lua_test.Table.Next.Walk.{walk, entries}
use unitu_lua_test.Table.Next.Visits.{IsListed, walk-entries}
use unitu_lua_test.Base.{arith}

-- A slot and four nodes
abbrev bare : Table
bare = record {
  flags = 255;
  array = nil ∷ [];
  node = free_node ∷ free_node ∷ free_node ∷ free_node ∷ [];
  lastfree = 4;
  isdummy = false;
}

new-IsEmptyTable_example : IsEmptyTable address_hash 1 4 (new 1 4)
new-IsEmptyTable_example = new-IsEmptyTable address_hash 1 4 (omega arith)

bare-IsHash : IsHash address_hash bare
unfolding IsEmptyTable new setarrayvector setnodevector ceillog2 log2 log2_loop ◌+ℤ◌
bare-IsHash = (new-IsEmptyTable address_hash 1 4 (omega arith)).0

-- Two strings with the main position 0
abbrev one : TValue
one = object 4 8

abbrev two : TValue
two = object 4 16

abbrev one_node : Node
one_node = record { val = boolean 1; key = one; next = none }

abbrev with_one : Table
with_one = record bare {
  array = boolean 2 ∷ [];
  node = one_node ∷ free_node ∷ free_node ∷ free_node ∷ [];
}

one-IsNew : IsNew (gnode bare.node) one
unfolding get numeq number2int getnum find_number find_node hashnum insert mainposition getfreepos
    numusearray_loop sizes_loop ceillog2 ◌+ℤ◌ double_of high_digit is_nan is_zero rawequal truncated
    log2 log2_loop lmod arrayindex newkey set_new setnum collide find_key find_previous free_loop
    getstr hashmod link_node move_node put set_key set_next value_at countint insert_nodes
    insert_slice new_sizes numusehash numusehash_loop resize setarrayvector setnodevector
    computesizes numusearray slice_loop
one-IsNew = none-IsNew address_hash bare bare-IsHash one refl refl

one-Inserted :
    IsPlaced address_hash bare one 0 (record bare {
      node = record free_node { key = one } ∷ free_node ∷ free_node ∷ free_node ∷ [];
    })
unfolding Inserted get numeq number2int getnum find_number find_node hashnum insert mainposition
    getfreepos numusearray_loop sizes_loop ceillog2 ◌+ℤ◌ double_of high_digit is_nan is_zero
    rawequal truncated log2 log2_loop lmod arrayindex newkey set_new setnum collide find_key
    find_previous free_loop getstr hashmod link_node move_node put set_key set_next value_at
    countint insert_nodes insert_slice new_sizes numusehash numusehash_loop resize setarrayvector
    setnodevector computesizes numusearray slice_loop
one-Inserted = insert-Inserted address_hash bare bare-IsHash one refl one-IsNew

with_one-IsHash : IsHash address_hash with_one
unfolding put
with_one-IsHash =
    array-IsHash address_hash _
      (stored-IsHash address_hash _ one-Inserted.hash 0 (boolean 1) one-Inserted.within refl) 0
      (boolean 2)

two-IsNew : IsNew (gnode with_one.node) two
unfolding get numeq number2int getnum find_number find_node hashnum insert mainposition getfreepos
    numusearray_loop sizes_loop ceillog2 ◌+ℤ◌ double_of high_digit is_nan is_zero rawequal truncated
    log2 log2_loop lmod arrayindex newkey set_new setnum collide find_key find_previous free_loop
    getstr hashmod link_node move_node put set_key set_next value_at countint insert_nodes
    insert_slice new_sizes numusehash numusehash_loop resize setarrayvector setnodevector
    computesizes numusearray slice_loop
two-IsNew = none-IsNew address_hash with_one with_one-IsHash two refl refl

insert-Inserted_example : Inserted address_hash with_one two (insert address_hash with_one two)
insert-Inserted_example = insert-Inserted address_hash with_one with_one-IsHash two refl two-IsNew

set-Assigned_example :
    Assigned address_hash
      (grow_at address_hash 1)
      with_one
      two
      (set address_hash (grow_at address_hash 1) with_one two)
set-Assigned_example =
    set-Assigned address_hash (grow_at address_hash 1) with_one two with_one-IsHash refl

get-find_key_example :
    get address_hash with_one one
    ≡ place_in (slot 1 one) (place_of (find_key address_hash with_one one))
get-find_key_example = get-find_key address_hash with_one one refl

getn-HasBorder_example : HasBorder with_one (getn with_one)
getn-HasBorder_example =
    getn-HasBorder with_one (omega arith) (λ dummy. absurd (let both = dummy in cc))

with_one-outside :
    (j : ℕ) → IsUsed (gnode with_one.node j).val → slot 1 (gnode with_one.node j).key ≡ none
unfolding slot arrayindex
with_one-outside zero h = refl
with_one-outside (suc zero) h = cc
with_one-outside (suc (suc zero)) h = cc
with_one-outside (suc (suc (suc zero))) h = cc
with_one-outside (suc (suc (suc (suc j)))) h = cc

with_one-keys : (j : ℕ) → IsUsed (gnode with_one.node j).val → IsKey (gnode with_one.node j).key
with_one-keys zero h = refl
with_one-keys (suc zero) h = cc
with_one-keys (suc (suc zero)) h = cc
with_one-keys (suc (suc (suc zero))) h = cc
with_one-keys (suc (suc (suc (suc j)))) h = cc

string-undead : (a : ℕ) (key : TValue) → is_dead (object 4 a) key ≡ false
string-undead a nil = refl
string-undead a (boolean b) = refl
string-undead a (lightuserdata p) = refl
string-undead a (number n) = refl
string-undead a (object tt b) = refl

nil-undead : (key : TValue) → is_dead nil key ≡ false
nil-undead key = refl

with_one-undead : (j : ℕ) (key : TValue) → is_dead (gnode with_one.node j).key key ≡ false
with_one-undead zero key = string-undead 8 key
with_one-undead (suc zero) key = nil-undead key
with_one-undead (suc (suc zero)) key = nil-undead key
with_one-undead (suc (suc (suc zero))) key = nil-undead key
with_one-undead (suc (suc (suc (suc j)))) key = nil-undead key

with_one-IsListed : IsListed address_hash with_one
with_one-IsListed = record {
  hash = with_one-IsHash;
  outside = with_one-outside;
  keys = with_one-keys;
  undead = with_one-undead;
  size = omega arith;
}

walk-entries_example : walk address_hash 6 with_one nil ≡ some (entries with_one 5 0)
walk-entries_example = walk-entries address_hash with_one with_one-IsListed

with_one-valued : valued with_one.node 4 ≡ 1
unfolding valued
with_one-valued = refl

resize-IsKeptBy_example :
    IsKeptBy address_hash with_one 2 (resize address_hash (grow_at address_hash 0) with_one 2 2)
resize-IsKeptBy_example =
    resize-IsKeptBy address_hash (grow_at address_hash 0) with_one with_one-IsListed 2 (omega arith)
      (omega (arith, with_one-valued)) 2 (omega arith) (omega arith)
