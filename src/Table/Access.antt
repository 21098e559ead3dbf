-- ===== src/Table/Access.antt =====
-- Assignments to a table: arrayindex, newkey, luaH_set, luaH_setnum and luaH_setstr of lua-5.1.5/src/ltable.c.
use unitu_lua_test.Base.{ℕ, if◌then◌else◌, none, some}
use unitu_lua_test.Base.Int.{ℤ, negsuc}
use unitu_lua_test.Object.Value.{
  TValue, nil, boolean, lightuserdata, number, object, lua_tstring, is_nan, numeq, cast_num,
  number2int,
}
use unitu_lua_test.Table.Node.{
  Table, Place, in_node, value_at, get, getnum, getstr, placed, full, fault, insert,
}

-- "table index is nil", "table index is NaN", "table overflow", a chain that does not lead to the colliding node,
-- and a recursion of rehash that is deeper than the one chosen
pub data Failure : Type 0 where
  nil_index : Failure
  nan_index : Failure
  table_overflow : Failure
  broken_chain : Failure
  too_deep : Failure

-- The place for the value of a key
pub data Access : Type 0 where
  place : Place → Table → Access
  failed : Failure → Access

unfoldable pub arrayindex : TValue → ℤ
arrayindex nil = negsuc 0
arrayindex (boolean b) = negsuc 0
arrayindex (lightuserdata p) = negsuc 0
arrayindex (number n) = if numeq (cast_num (number2int n)) n then number2int n else negsuc 0
arrayindex (object tt a) = negsuc 0

-- `grow` is what happens where no node is free: a call of `rehash`, and the assignment again.
module _ (hash_str : ℕ → ℕ) (grow : Table → TValue → Access) where
  unfoldable pub newkey : Table → TValue → Access
  newkey t key = elim (insert hash_str t key) [
    | placed i t' ↦ place (in_node i) t'
    | full t' ↦ grow t' key
    | fault ↦ failed broken_chain
  ]

  -- The key is not in the table.
  unfoldable pub set_new : Table → TValue → Access
  unfolding newkey
  set_new t nil = failed nil_index
  set_new t (boolean b) = newkey t (boolean b)
  set_new t (lightuserdata p) = newkey t (lightuserdata p)
  set_new t (number n) = if is_nan n then failed nan_index else newkey t (number n)
  set_new t (object tt a) = newkey t (object tt a)

  unfoldable pub set : Table → TValue → Access
  unfolding set_new
  set t key =
      let t' : Table = record t { flags = 0 } in
      elim (get hash_str t key) [ none ↦ set_new t' key | some p ↦ place p t' ]

  unfoldable pub setnum : Table → ℤ → Access
  unfolding newkey
  setnum t key = elim (getnum t key) [
    | none ↦ newkey t (number (cast_num key))
    | some p ↦ place p t
  ]

  unfoldable pub setstr : Table → ℕ → Access
  unfolding newkey
  setstr t a = elim (getstr hash_str t a) [
    | none ↦ newkey t (object lua_tstring a)
    | some p ↦ place p t
  ]

-- What luaH_get returns: the value at the place, or luaO_nilobject
unfoldable pub read : (ℕ → ℕ) → Table → TValue → TValue
read hash_str t key = elim (get hash_str t key) [ none ↦ nil | some p ↦ value_at t p ]
