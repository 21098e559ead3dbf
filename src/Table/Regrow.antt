-- ===== src/Table/Regrow.antt =====
-- A table that resize (lua-5.1.5/src/ltable.c) gives a larger array part and enough nodes keeps its values.
use unitu_lua_test.Base.{
  ℕ, zero, suc, ◌-◌, ◌^◌, ◌<◌, ◌≤◌, ◌≡◌, ◌≢◌, refl, ap, sym, ◌∙◌, arith, ltb, if◌then◌else◌, Bool,
  true, false, ◌⊎◌, inl, inr, List, [], ◌∷◌, ◌++◌, length, length-take, length-replicate,
  length-append, take, drop, replicate, get_or, Option, none, some, Bool-cases,
}
use unitu_lua_test.Base.Distinct.{eq_or_ne}
use unitu_lua_test.Base.Int.{ℤ, pos, negsuc}
use unitu_lua_test.Object.Value.{TValue, nil, ttisnil, rawequal}
use unitu_lua_test.Table.Access.{Access, table_overflow, arrayindex, read}
use unitu_lua_test.Table.Chained.{IsAlive, IsUsed, IsAlive-IsUsed}
use unitu_lua_test.Table.Find.{
  IsHash, lookup, lookup-found, absent, at_node, find_key-Found, find_key-none,
}
use unitu_lua_test.Table.Map.{read_slot, read-read_slot, used-lt}
use unitu_lua_test.Table.New.{
  AreFree, NewNodes, setnodevector-NewNodes, nil-rawequal, get_or-replicate,
}
use unitu_lua_test.Table.Next.Visits.{IsListed}
use unitu_lua_test.Table.Node.{Node, Table, gnode}
use unitu_lua_test.Table.Positions.{rawequal-sym, rawequal_trans, rawequal-IsAlive}
use unitu_lua_test.Table.Refill.{HasRoom, valued, refilled, IsRefilled, insert_nodes-IsRefilled}
use unitu_lua_test.Table.Resize.{
  Outcome, done, stopped, and_then, setarrayvector, setnodevector, insert_nodes, insert_slice,
  resize, maxbits,
}
use unitu_lua_test.Table.Room.{used_count}
use unitu_lua_test.Table.Slot.{slot, slot_index, rawequal-slot}
use mathlib.Core.Path.{subst}

-- No node below `n` has a value for the key.
refilled_old :
    (nodes : List Node) (n : ℕ) (r : TValue → TValue) (k : TValue)
    → ((x : ℕ) → x < n → IsUsed (gnode nodes x).val → rawequal (gnode nodes x).key k ≡ false)
    → refilled nodes n r k ≡ r k
unfolding refilled
refilled_old nodes zero r k away = refl
refilled_old nodes (suc i) r k away = elim (Bool-cases (ttisnil (gnode nodes i).val)) [
  | inl empty ↦ rw (refilled, empty) (refilled_old nodes i r k (λ x lt. away x (omega arith)))
  | inr held ↦
      rw (refilled, held)
        (refilled_old nodes i
            (λ x. if rawequal (gnode nodes i).key x then (gnode nodes i).val else r x) k
            (λ x lt. away x (omega arith))
          ∙ ap (λ (b : Bool). if b then (gnode nodes i).val else r k) (away i (omega arith) held))
]

-- The only node with a value for the key gives it.
refilled_new :
    (nodes : List Node) (n j : ℕ) (r : TValue → TValue) (k : TValue)
    → j < n
    → IsUsed (gnode nodes j).val
    → rawequal (gnode nodes j).key k ≡ true
    → ((x : ℕ) → x ≢ j → IsUsed (gnode nodes x).val → rawequal (gnode nodes x).key k ≡ false)
    → refilled nodes n r k ≡ (gnode nodes j).val
unfolding refilled
refilled_new nodes zero j r k lt used same only = absurd (omega arith)
refilled_new nodes (suc i) j r k lt used same only = elim (eq_or_ne j i) [
  | inl e ↦
      let held = subst (λ x. IsUsed (gnode nodes x).val) e used in
      let same' = subst (λ x. rawequal (gnode nodes x).key k ≡ true) e same in
      rw (refilled, held)
        (refilled_old nodes i
            (λ x. if rawequal (gnode nodes i).key x then (gnode nodes i).val else r x) k
            (λ x less. only x (λ x_j. (let gap = x_j ∙ e in omega arith)))
          ∙ ap (λ (b : Bool). if b then (gnode nodes i).val else r k) same'
          ∙ ap (λ x. (gnode nodes x).val) (sym e))
  | inr ne ↦
      let below : j < i = omega arith in
      elim (Bool-cases (ttisnil (gnode nodes i).val)) [
        | inl empty ↦ rw (refilled, empty) (refilled_new nodes i j r k below used same only)
        | inr held ↦ rw (refilled, held) (refilled_new nodes i j _ k below used same only)
      ]
]

-- What the array part holds for a key
slot_value : List TValue → Option ℕ → TValue
slot_value array none = nil
slot_value array (some s) = get_or array s nil

get_or_beyond : (xs : List TValue) (m : ℕ) → length xs ≤ m → get_or xs m nil ≡ nil
get_or_beyond [] m h = refl
get_or_beyond (x ∷ xs) zero h = absurd (omega arith)
get_or_beyond (x ∷ xs) (suc m) h = get_or_beyond xs m (omega arith)

-- An array that grows keeps its elements, and the others are nil.
get_or-grown :
    (n p : ℕ) (xs : List TValue) (m : ℕ)
    → length xs ≤ n
    → get_or (take n xs ++ replicate p nil) m nil ≡ get_or xs m nil
get_or-grown zero p [] m h = get_or-replicate p m
get_or-grown zero p (x ∷ xs) m h = absurd (omega arith)
get_or-grown (suc n) p [] m h = get_or-replicate p m
get_or-grown (suc n) p (x ∷ xs) zero h = refl
get_or-grown (suc n) p (x ∷ xs) (suc m) h = get_or-grown n p xs m (omega arith)

same_slot_value :
    (xs ys : List TValue) (i : ℤ)
    → length xs ≤ length ys
    → ((m : ℕ) → get_or ys m nil ≡ get_or xs m nil)
    → slot_value ys (slot_index (length ys) i) ≡ slot_value xs (slot_index (length xs) i)
unfolding slot_value
same_slot_value xs ys (pos zero) le same = refl
same_slot_value xs ys (pos (suc m)) le same = value_at_slot ys m ∙ same m ∙ sym (value_at_slot xs m)
  where
    value_at_slot :
        (zs : List TValue) (m : ℕ)
        → slot_value zs (if ltb m (length zs) then some m else none) ≡ get_or zs m nil
    value_at_slot zs m = elim (Bool-cases (ltb m (length zs))) [
      | inl inside ↦ rw (inside) refl
      | inr beyond ↦
          let le' : length zs ≤ m = ground arith in rw (beyond) (sym (get_or_beyond zs m le'))
    ]
same_slot_value xs ys (negsuc m) le same = refl

used_count-AreFree : (nodes : List Node) → AreFree nodes → used_count nodes ≡ 0
unfolding used_count
used_count-AreFree [] free = refl
used_count-AreFree (n ∷ nodes) free =
    let rest = used_count-AreFree nodes (λ i. free (suc i)) in
    rw (ap (λ x. x.key) (free 0)) (omega arith)

module _ (hash_str : ℕ → ℕ) (t : Table) (listed : IsListed hash_str t) (k : TValue)
    (alive : IsAlive k) where
  -- The key is read from the old nodes, or else from the table behind.
  refilled-read :
      (r : TValue → TValue)
      → r k ≡ slot_value t.array (slot (length t.array) k)
      → refilled t.node (length t.node) r k ≡ read hash_str t k
  unfolding slot_value
  refilled-read r e = elim (find_key-Found hash_str t k) [
    | absent missing ↦
        refilled_old t.node (length t.node) r k (away missing)
        ∙ e
        ∙ by_slot missing (slot (length t.array) k)
        ∙ sym (read-read_slot hash_str t k alive)
    | at_node j same used ↦
        let held = lookup-found hash_str t listed.hash k alive j same in
        let no_slot =
          sym (rawequal-slot (length t.array) (gnode t.node j).key k same)
          ∙ listed.outside j used in
        refilled_new t.node (length t.node) j r k (node_lt j same) used same (only j same)
        ∙ sym held
        ∙ ap (read_slot hash_str t k) (sym no_slot)
        ∙ sym (read-read_slot hash_str t k alive)
  ]
    where
      alive_at : (x : ℕ) → rawequal (gnode t.node x).key k ≡ true → IsAlive (gnode t.node x).key
      alive_at x same = rawequal-IsAlive (gnode t.node x).key k same alive

      node_lt : (j : ℕ) → rawequal (gnode t.node j).key k ≡ true → j < length t.node
      node_lt j same = used-lt t.node j (IsAlive-IsUsed (gnode t.node j).key (alive_at j same))

      away :
          lookup hash_str t k ≡ nil
          → (x : ℕ) → x < length t.node
          → IsUsed (gnode t.node x).val
          → rawequal (gnode t.node x).key k ≡ false
      away missing x lt used = elim (Bool-cases (rawequal (gnode t.node x).key k)) [
        | inr ne ↦ ne
        | inl same ↦
            let empty : ttisnil (gnode t.node x).val ≡ true =
              ap ttisnil (sym (lookup-found hash_str t listed.hash k alive x same) ∙ missing) in
            absurd (let held = used in cc)
      ]

      only :
          (j : ℕ)
          → rawequal (gnode t.node j).key k ≡ true
          → (x : ℕ) → x ≢ j
          → IsUsed (gnode t.node x).val
          → rawequal (gnode t.node x).key k ≡ false
      only j same x ne used = elim (Bool-cases (rawequal (gnode t.node x).key k)) [
        | inr away ↦ away
        | inl same' ↦ absurd (
            ne (
              listed.hash.chained.unique x (alive_at x same') j (alive_at j same) (
                rawequal_trans (gnode t.node x).key k (gnode t.node j).key same'
                  (rawequal-sym (gnode t.node j).key k same))))
      ]

      by_slot :
          lookup hash_str t k ≡ nil
          → (o : Option ℕ) → slot_value t.array o ≡ read_slot hash_str t k o
      by_slot missing none = sym missing
      by_slot missing (some s) = refl

-- A table without keys in its nodes
free-read :
    (hash_str : ℕ → ℕ) (t : Table)
    → IsHash hash_str t
    → AreFree t.node
    → (k : TValue) → IsAlive k
    → read hash_str t k ≡ slot_value t.array (slot (length t.array) k)
unfolding slot_value lookup
free-read hash_str t hash free k alive =
    read-read_slot hash_str t k alive ∙ by_slot (slot (length t.array) k)
  where
    by_slot : (o : Option ℕ) → read_slot hash_str t k o ≡ slot_value t.array o
    by_slot (some s) = refl
    by_slot none =
        rw
          (
            lookup,
            find_key-none hash_str t hash k
                (λ j. subst (λ n. rawequal n.key k ≡ false) (sym (free j)) (nil-rawequal k alive)),
          )
          refl

-- A table that is kept, or the error of a table with too many nodes
unfoldable pub IsKeptBy : (ℕ → ℕ) → Table → ℕ → Outcome → Type 0
IsKeptBy hash_str t nhsize (done t') =
    IsHash hash_str t' × ((k : TValue) → IsAlive k → read hash_str t' k ≡ read hash_str t k)
IsKeptBy hash_str t nhsize (stopped e) = (e ≡ table_overflow) × (2 ^ maxbits < nhsize)

module _ (hash_str : ℕ → ℕ) (grow : Table → TValue → Access) (t : Table)
    (listed : IsListed hash_str t) (nhsize : ℕ) (lo : 1 ≤ nhsize)
    (enough : valued t.node (length t.node) ≤ nhsize) where
  refill_kept :
      (grown : Table) (o : Outcome)
      → length t.array ≤ length grown.array
      → ((m : ℕ) → get_or grown.array m nil ≡ get_or t.array m nil)
      → NewNodes hash_str grown nhsize o
      → IsKeptBy hash_str t nhsize (and_then o (insert_nodes hash_str grow t.node (length t.node)))
  unfolding IsKeptBy NewNodes IsRefilled slot
  refill_kept grown (stopped e) le same overflow = overflow
  refill_kept grown (done t1) le same (hash, free, size, array, live) =
      let no_key = used_count-AreFree t1.node free in
      let room : HasRoom hash_str (valued t.node (length t.node)) t1 = record {
        hash = hash;
        live = not_empty live;
        room = omega arith;
      } in
      let (t', e, room', reads) =
        insert_nodes-IsRefilled hash_str grow t.node listed.keys (length t.node) t1 room in
      subst (IsKeptBy hash_str t nhsize) (sym e) (
        room'.hash,
        (λ k alive.
            reads k alive
            ∙ refilled-read hash_str t listed k alive (read hash_str t1) (
                free-read hash_str t1 hash free k alive
                ∙ ap (λ a. slot_value a (slot (length a) k)) array
                ∙ same_slot_value t.array grown.array (arrayindex k) le same)),
      )
    where
      not_empty : (nhsize ≡ 0) ⊎ (t1.isdummy ≡ false) → t1.isdummy ≡ false
      not_empty (inl e) = absurd (omega arith)
      not_empty (inr h) = h

  module _ (nasize : ℕ) (le : length t.array ≤ nasize) (hi : nhsize ≤ 2 ^ 31) where
    -- The rest of resize, where `shrinks` says that the array part gets smaller
    refill : Table → Bool → Outcome
    refill grown shrinks = and_then (setnodevector grown nhsize) (λ t'.
        and_then
          (if shrinks
            then insert_slice hash_str grow (drop nasize t.array) nasize
                (record t' { array = take nasize t.array })
            else done t')
          (insert_nodes hash_str grow t.node (length t.node)))

    refill-IsKeptBy :
        (grown : Table)
        → length t.array ≤ length grown.array
        → ((m : ℕ) → get_or grown.array m nil ≡ get_or t.array m nil)
        → IsKeptBy hash_str t nhsize (refill grown (ltb nasize (length t.array)))
    unfolding refill
    refill-IsKeptBy grown up same =
        let stays : ltb nasize (length t.array) ≡ false = ground arith in
        subst (λ b. IsKeptBy hash_str t nhsize (refill grown b)) (sym stays)
          (refill_kept grown (setnodevector grown nhsize) up same
            (setnodevector-NewNodes hash_str grown nhsize hi))

    grown_array : length t.array ≤ length (setarrayvector t nasize).array
    unfolding setarrayvector
    grown_array =
        let both = length-append (take nasize t.array) (replicate (nasize - length t.array) nil) in
        let new = length-replicate (nasize - length t.array) nil in
        let old = length-take nasize t.array in omega arith

    grown_same : (m : ℕ) → get_or (setarrayvector t nasize).array m nil ≡ get_or t.array m nil
    unfolding setarrayvector
    grown_same m = get_or-grown nasize (nasize - length t.array) t.array m le

    -- resize of a table whose nodes are in order, to an array part that is not smaller and to nodes for all the elements
    -- of the hash part, from 1 to 2 ^ 31: it never calls rehash again, the nodes of the result are in order, and every
    -- alive key is read as before; or it raises "table overflow", for more than 2 ^ 26 nodes. The hash part has no key
    -- of the array part, no dead key, and no value under a key that may not be assigned to; the places are less than
    -- 2 ^ 31.
    pub resize-IsKeptBy : IsKeptBy hash_str t nhsize (resize hash_str grow t nasize nhsize)
    unfolding resize refill
    resize-IsKeptBy = by_growth (ltb (length t.array) nasize)
      where
        by_growth :
            (b : Bool)
            → IsKeptBy hash_str t nhsize
                (refill (if b then setarrayvector t nasize else t) (ltb nasize (length t.array)))
        by_growth true = refill-IsKeptBy (setarrayvector t nasize) grown_array grown_same
        by_growth false = refill-IsKeptBy t (omega arith) (λ m. refl)
