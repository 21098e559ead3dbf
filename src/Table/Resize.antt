-- ===== src/Table/Resize.antt =====
-- How a table is made and grows: setarrayvector, setnodevector, resize, numusehash, countint, rehash, luaH_new and
-- luaH_resizearray of lua-5.1.5/src/ltable.c. An allocation does not fail, and the metatable is left out.
use unitu_lua_test.Base.{
  ℕ, zero, suc, ◌+◌, ◌-◌, ◌^◌, ltb, leb, ◌==◌, if◌then◌else◌, ◌&&◌, true, false, List, [], ◌∷◌,
  ◌++◌, length, take, drop, replicate, get_or,
}
use unitu_lua_test.Base.{set as set_entry}
use unitu_lua_test.Base.Int.{pos, pos_part}
use unitu_lua_test.Object.{ceillog2}
use unitu_lua_test.Object.Value.{TValue, nil, ttisnil}
use unitu_lua_test.Table.{computesizes, numusearray}
use unitu_lua_test.Table.Node.{Node, Table, free_node, gnode, put}
use unitu_lua_test.Table.Access.{
  Failure, table_overflow, too_deep, Access, place, failed, arrayindex, set, setnum,
}

abbrev pub maxbits : ℕ
maxbits = 26

-- A table, or the failure of an assignment
pub data Outcome : Type 0 where
  done : Table → Outcome
  stopped : Failure → Outcome

unfoldable pub setarrayvector : Table → ℕ → Table
setarrayvector t size = record t {
  array = take size t.array ++ replicate (size - length t.array) nil;
}

unfoldable pub setnodevector : Table → ℕ → Outcome
setnodevector t size =
    let lsize = pos_part (ceillog2 size) in
    if size == 0
    then done (record t { node = free_node ∷ []; lastfree = 0; isdummy = true })
    else if ltb maxbits lsize
    then stopped table_overflow
    else done
        (record t { node = replicate (2 ^ lsize) free_node; lastfree = 2 ^ lsize; isdummy = false })

-- `setobjt2t(L, …, v)`
abbrev pub store : Access → TValue → Outcome
store (place p t) v = done (put t p v)
store (failed e) v = stopped e

abbrev pub and_then : Outcome → (Table → Outcome) → Outcome
and_then (done t) next = next t
and_then (stopped e) next = stopped e

module _ (hash_str : ℕ → ℕ) (grow : Table → TValue → Access) where
  -- The elements of the vanishing slice, from the index `i`
  unfoldable pub insert_slice : List TValue → ℕ → Table → Outcome
  insert_slice [] i t = done t
  insert_slice (v ∷ vs) i t = elim (ttisnil v) [
    | true ↦ insert_slice vs (suc i) t
    | false ↦ and_then (store (setnum hash_str grow t (pos (suc i))) v) (insert_slice vs (suc i))
  ]

  -- The old nodes below `n`, from the last
  unfoldable pub insert_nodes : List Node → ℕ → Table → Outcome
  insert_nodes nold zero t = done t
  insert_nodes nold (suc i) t =
      let old = gnode nold i in
      elim (ttisnil old.val) [
        | true ↦ insert_nodes nold i t
        | false ↦ and_then (store (set hash_str grow t old.key) old.val) (insert_nodes nold i)
      ]

  -- While the elements are inserted, `array` is the old array, and the table has the slots that stay.
  unfoldable pub resize : Table → (nasize nhsize : ℕ) → Outcome
  unfolding setarrayvector setnodevector insert_slice insert_nodes
  resize t nasize nhsize =
      let grown = if ltb (length t.array) nasize then setarrayvector t nasize else t in
      and_then (setnodevector grown nhsize) (λ t'.
        and_then
          (if ltb nasize (length t.array)
            then insert_slice (drop nasize t.array) nasize
                (record t' { array = take nasize t.array })
            else done t')
          (insert_nodes t.node (length t.node)))

  unfoldable pub resizearray : Table → ℕ → Outcome
  unfolding resize
  resizearray t nasize = resize t nasize (if t.isdummy then 0 else length t.node)

-- The count, and `nums` behind the call
unfoldable pub countint : TValue → List ℕ → ℕ × List ℕ
unfolding arrayindex
countint key nums =
    let k = pos_part (arrayindex key) in
    let lg = pos_part (ceillog2 k) in
    if ltb 0 k && leb k (2 ^ maxbits)
    then (1, set_entry nums lg (get_or nums lg 0 + 1))
    else (0, nums)

-- The loop over the nodes below `n`: `totaluse`, `ause` and `nums` behind it
unfoldable pub numusehash_loop : List Node → ℕ → (totaluse ause : ℕ) → List ℕ → ℕ × ℕ × List ℕ
unfolding countint
numusehash_loop nodes zero totaluse ause nums = (totaluse, ause, nums)
numusehash_loop nodes (suc i) totaluse ause nums =
    let (c, nums') = countint (gnode nodes i).key nums in
    elim (ttisnil (gnode nodes i).val) [
      | true ↦ numusehash_loop nodes i totaluse ause nums
      | false ↦ numusehash_loop nodes i (suc totaluse) (ause + c) nums'
    ]

-- `totaluse`, `*pnasize` and `nums` behind the call
unfoldable pub numusehash : Table → List ℕ → ℕ → ℕ × ℕ × List ℕ
unfolding numusehash_loop
numusehash t nums pnasize =
    let (totaluse, ause, nums') = numusehash_loop t.node (length t.node) 0 0 nums in
    (totaluse, pnasize + ause, nums')

-- The sizes of the array part and of the hash part that `rehash` chooses for the table and one more key
unfoldable pub new_sizes : Table → TValue → ℕ × ℕ
unfolding numusearray numusehash countint computesizes
new_sizes t ek =
    let (used, nums) = numusearray ttisnil nil t.array (replicate (suc maxbits) 0) in
    let (hashed, nasize, nums') = numusehash t nums used in
    let (extra, nums'') = countint ek nums' in
    let (n, na) = computesizes nums'' (nasize + extra) in (n, used + hashed + 1 - na)

-- `d` is how deep rehash may call itself by the assignments of resize.
module _ (hash_str : ℕ → ℕ) where
  unfoldable pub grow_at : ℕ → Table → TValue → Access
  unfolding new_sizes resize set
  grow_at zero t key = failed too_deep
  grow_at (suc d) t key =
      let (nasize, nhsize) = new_sizes t key in
      elim (resize hash_str (grow_at d) t nasize nhsize) [
        | done t' ↦ set hash_str (grow_at d) t' key
        | stopped e ↦ failed e
      ]

unfoldable pub new : (narray nhash : ℕ) → Outcome
unfolding setarrayvector setnodevector
new narray nhash =
    setnodevector
      (setarrayvector
        (record { flags = 255; array = []; node = free_node ∷ []; lastfree = 0; isdummy = true })
        narray)
      nhash
