-- ===== src/Tests/Hashes.antt =====
-- Runs of the assignments to tables of lua-5.1.5/src/ltable.c.
use unitu_lua_test.Table.Node.{
  get, getnum, find_number, find_node, hashnum, insert, mainposition, getfreepos, collide, find_key,
  find_previous, free_loop, getstr, hashmod, link_node, move_node, put, set_key, set_next, value_at,
  Table,
}
use unitu_lua_test.Object.Value.{
  numeq, number2int, double_of, high_digit, is_nan, is_zero, rawequal, truncated, TValue, nil,
  boolean, number, object, cast_num,
}
use unitu_lua_test.Table.{numusearray_loop, sizes_loop, computesizes, numusearray, slice_loop}
use unitu_lua_test.Object.{ceillog2, log2, log2_loop}
use unitu_lua_test.Base.Int.{◌+ℤ◌, pos}
use unitu_lua_test.StringTable.{lmod}
use unitu_lua_test.Table.Access.{arrayindex, newkey, set_new, setnum, set, read}
use unitu_lua_test.Table.Resize.{
  countint, insert_nodes, insert_slice, new_sizes, numusehash, numusehash_loop, resize,
  setarrayvector, setnodevector, Outcome, done, stopped, store, and_then, grow_at, new,
}
use unitu_lua_test.Base.{ℕ, ◌≡◌, refl, List, [], ◌∷◌, length}

abbrev pub address_hash : ℕ → ℕ
address_hash a = a

-- Assignments, one by one
assign_all : List (TValue × TValue) → Table → Outcome
assign_all [] t = done t
assign_all ((k, v) ∷ rest) t =
    and_then (store (set address_hash (grow_at address_hash 1) t k) v) (assign_all rest)

abbrev int_key : ℕ → TValue
int_key n = number (cast_num (pos n))

made : List (TValue × TValue) → Outcome
unfolding assign_all
made pairs = and_then (new 0 0) (assign_all pairs)

reads : Outcome → List TValue → List TValue
reads (stopped e) keys = []
reads (done t) [] = []
reads (done t) (k ∷ ks) = read address_hash t k ∷ reads (done t) ks

sizes : Outcome → ℕ × ℕ
sizes (stopped e) = (0, 0)
sizes (done t) = (length t.array, length t.node)

-- Three elements of an array and two strings that collide
abbrev pairs : List (TValue × TValue)
pairs =
    (int_key 1, boolean 1)
    ∷ (object 4 8, boolean 2)
    ∷ (int_key 2, boolean 3)
    ∷ (object 4 16, boolean 4)
    ∷ (int_key 3, boolean 5)
    ∷ []

pairs-reads :
    reads
      (made pairs)
      (int_key 1 ∷ int_key 2 ∷ int_key 3 ∷ object 4 8 ∷ object 4 16 ∷ object 4 24 ∷ [])
    ≡ boolean 1 ∷ boolean 3 ∷ boolean 5 ∷ boolean 2 ∷ boolean 4 ∷ nil ∷ []
unfolding made reads assign_all new set cast_num grow_at read get numeq number2int getnum
    find_number find_node hashnum insert mainposition getfreepos numusearray_loop sizes_loop
    ceillog2 ◌+ℤ◌ double_of high_digit is_nan is_zero rawequal truncated log2 log2_loop lmod
    arrayindex newkey set_new setnum collide find_key find_previous free_loop getstr hashmod
    link_node move_node put set_key set_next value_at countint insert_nodes insert_slice new_sizes
    numusehash numusehash_loop resize setarrayvector setnodevector computesizes numusearray
    slice_loop
pairs-reads = refl

pairs-sizes : sizes (made pairs) ≡ (4, 2)
unfolding made sizes assign_all new set cast_num grow_at get numeq number2int getnum find_number
    find_node hashnum insert mainposition getfreepos numusearray_loop sizes_loop ceillog2 ◌+ℤ◌
    double_of high_digit is_nan is_zero rawequal truncated log2 log2_loop lmod arrayindex newkey
    set_new setnum collide find_key find_previous free_loop getstr hashmod link_node move_node put
    set_key set_next value_at countint insert_nodes insert_slice new_sizes numusehash
    numusehash_loop resize setarrayvector setnodevector computesizes numusearray slice_loop
pairs-sizes = refl
