-- ===== src/Table/Refill.antt =====
-- The assignments of resize (lua-5.1.5/src/ltable.c): in a table with enough nodes none of them calls rehash.
use unitu_lua_test.Base.{
  ℕ, zero, suc, ◌+◌, ◌≤◌, ◌≡◌, refl, ap, ◌∙◌, arith, if◌then◌else◌, true, false, inl, inr, List,
  length, Bool-cases,
}
use unitu_lua_test.Object.Value.{TValue, ttisnil, rawequal}
use unitu_lua_test.Table.Access.{Access, place, set, read}
use unitu_lua_test.Table.Assign.{IsKey, Assigned, set-Assigned}
use unitu_lua_test.Table.Chained.{IsAlive, IsUsed}
use unitu_lua_test.Table.Find.{IsHash}
use unitu_lua_test.Table.Map.{IsWritten}
use unitu_lua_test.Table.Node.{Node, Table, Place, gnode, put}
use unitu_lua_test.Table.Resize.{Outcome, done, insert_nodes}
use unitu_lua_test.Table.Room.{used_count, all_used}
use mathlib.Core.Path.{subst}

-- Nodes with room for `m` more keys
pub record HasRoom (hash_str : ℕ → ℕ) (m : ℕ) (t : Table) : Type 0 where
  pub hash : IsHash hash_str t
  pub live : t.isdummy ≡ false
  pub room : used_count t.node + m ≤ length t.node

module _ (hash_str : ℕ → ℕ) (grow : Table → TValue → Access) where
  -- With room for one more key, luaH_set finds a place.
  set_room :
      (m : ℕ) (t : Table) (key : TValue)
      → HasRoom hash_str (suc m) t
      → IsKey key
      → (p : Place) × (t' : Table) × (set hash_str grow t key ≡ place p t')
        × ((v : TValue) → IsWritten hash_str t key v p t')
  unfolding Assigned
  set_room m t key r valid = elim (set-Assigned hash_str grow t key r.hash valid) [
    | inl placed ↦ placed
    | inr (t', full, e) ↦ elim full.none_free [
      | inl dummy ↦ absurd (let live = r.live in cc)
      | inr used ↦ let all = all_used t.node used in let some_room = r.room in absurd (omega arith)
    ]
  ]

  still_HasRoom :
      (m : ℕ) (t : Table) (key v : TValue) (p : Place) (t' : Table)
      → HasRoom hash_str (suc m) t
      → IsWritten hash_str t key v p t'
      → HasRoom hash_str m (put t' p v)
  still_HasRoom m t key v p t' r w = record {
    hash = w.hash;
    live = w.takes_one.same_dummy ∙ r.live;
    room =
        let le = w.takes_one.count in
        let same = w.takes_one.same_size in let some_room = r.room in omega arith;
  }

-- The nodes below `n` that have a value
unfoldable pub valued : List Node → ℕ → ℕ
valued nodes zero = 0
valued nodes (suc i) = elim (ttisnil (gnode nodes i).val) [
  | true ↦ valued nodes i
  | false ↦ suc (valued nodes i)
]

-- What a reader finds behind the assignments of the nodes below `n`, from the last
unfoldable pub refilled : List Node → ℕ → (TValue → TValue) → TValue → TValue
refilled nodes zero r k = r k
refilled nodes (suc i) r k = elim (ttisnil (gnode nodes i).val) [
  | true ↦ refilled nodes i r k
  | false ↦
      refilled nodes i (λ x. if rawequal (gnode nodes i).key x then (gnode nodes i).val else r x) k
]

-- What is read of alive keys before the assignments decides what is read behind them.
refilled_same :
    (nodes : List Node) (n : ℕ) (r s : TValue → TValue) (k : TValue)
    → r k ≡ s k
    → refilled nodes n r k ≡ refilled nodes n s k
unfolding refilled
refilled_same nodes zero r s k e = e
refilled_same nodes (suc i) r s k e = elim (Bool-cases (ttisnil (gnode nodes i).val)) [
  | inl empty ↦ rw (refilled, empty) (refilled_same nodes i r s k e)
  | inr held ↦
      rw (refilled, held)
        (refilled_same nodes i
          (λ x. if rawequal (gnode nodes i).key x then (gnode nodes i).val else r x)
          (λ x. if rawequal (gnode nodes i).key x then (gnode nodes i).val else s x) k
          (ap (λ x. if rawequal (gnode nodes i).key k then (gnode nodes i).val else x) e))
]

module _ (hash_str : ℕ → ℕ) (grow : Table → TValue → Access) (nold : List Node)
    (keys : (j : ℕ) → IsUsed (gnode nold j).val → IsKey (gnode nold j).key) where
  -- The old nodes are assigned to a table with room for them.
  unfoldable pub IsRefilled : ℕ → Table → Outcome → Type 0
  IsRefilled n t o =
      (t' : Table) × (o ≡ done t')
      × HasRoom hash_str 0 t'
      × ((k : TValue) → IsAlive k → read hash_str t' k ≡ refilled nold n (read hash_str t) k)

  pub insert_nodes-IsRefilled :
      (n : ℕ) (t : Table)
      → HasRoom hash_str (valued nold n) t
      → IsRefilled n t (insert_nodes hash_str grow nold n t)
  unfolding insert_nodes IsRefilled refilled valued
  insert_nodes-IsRefilled zero t r = (t, refl, r, (λ k alive. refl))
  insert_nodes-IsRefilled (suc i) t r = elim (Bool-cases (ttisnil (gnode nold i).val)) [
    | inl empty ↦
        let r' : HasRoom hash_str (valued nold i) t =
          subst (λ m. HasRoom hash_str m t) (rw (valued, empty) refl) r in
        let (t', e, room, reads) = insert_nodes-IsRefilled i t r' in
        (t', rw (insert_nodes, empty) e, room, (λ k alive. rw (refilled, empty) (reads k alive)))
    | inr held ↦
        let r' : HasRoom hash_str (suc (valued nold i)) t =
          subst (λ m. HasRoom hash_str m t) (rw (valued, held) refl) r in
        let (p, t1, placed, written) =
          set_room hash_str grow (valued nold i) t (gnode nold i).key r' (keys i held) in
        let w = written (gnode nold i).val in
        let (t', e, room, reads) = insert_nodes-IsRefilled i (put t1 p (gnode nold i).val) (
          still_HasRoom hash_str grow (valued nold i) t (gnode nold i).key (gnode nold i).val p t1
            r' w) in
        (
          t',
          rw (insert_nodes, held, placed) e,
          room,
          (λ k alive.
              rw (refilled, held)
                (reads k alive
                  ∙ refilled_same nold i (read hash_str (put t1 p (gnode nold i).val))
                      (λ x.
                        if rawequal (gnode nold i).key x
                        then (gnode nold i).val
                        else read hash_str t x)
                      k (w.reads k alive))),
        )
  ]
