-- ===== src/Table/Next/Visits.antt =====
-- The index of a key of a table (lua-5.1.5/src/ltable.c, findindex) is that of its element, so that a traversal by
-- luaH_next visits every element once.
use unitu_lua_test.Base.{
  ℕ, zero, suc, ◌+◌, ◌-◌, ◌^◌, ◌<◌, ◌≤◌, ◌≡◌, refl, ap, sym, ◌∙◌, arith, ltb, leb, ==_iff,
  if◌then◌else◌, ◌&&◌, ◌||◌, Bool, true, false, ◌⊎◌, inl, inr, List, [], ◌∷◌, length, Option, none,
  some, Bool-cases,
}
use unitu_lua_test.Base.Int.{ℤ, pos, negsuc, pos_part}
use unitu_lua_test.Object.Value.{
  TValue, nil, boolean, lightuserdata, number, object, is_nan, ttisnil, cast_num, numeq, rawequal,
}
use unitu_lua_test.Object.Whole.{number2int-cast_num, cast_num-is_nan}
use unitu_lua_test.Table.Access.{arrayindex}
use unitu_lua_test.Table.Assign.{IsKey, IsKey-IsAlive, not_nan}
use unitu_lua_test.Table.Chained.{IsUsed, IsAlive-IsUsed}
use unitu_lua_test.Table.Find.{IsHash, position-lt}
use unitu_lua_test.Table.Node.{Table, gnode, mainposition}
use unitu_lua_test.Table.Next.{is_dead, is_entry, find_index, next_from, index_after, next}
use unitu_lua_test.Table.Next.Walk.{
  entry_at, entries, walk, first, entry_slot, entry_node, next_from-first,
}
use unitu_lua_test.Table.Positions.{numeq_intro, same_bits, rawequal-IsAlive}
use unitu_lua_test.Table.Slot.{slot, slot_index}
use unitu_lua_test.Table.Ways.{find_node-found}
use mathlib.Core.Path.{subst}
use mathlib.Core.Option.{none-ne-some}

rawequal_self : (key : TValue) → IsKey key → rawequal key key ≡ true
unfolding rawequal
rawequal_self nil h = cc
rawequal_self (boolean b) h = (==_iff b b).1 refl
rawequal_self (lightuserdata p) h = (==_iff p p).1 refl
rawequal_self (number n) h = numeq_intro n n (same_bits refl) (not_nan (is_nan n) h)
rawequal_self (object tt a) h = rw ((==_iff tt tt).1 refl, (==_iff a a).1 refl) refl

-- A table whose hash part has no key of the array part, and no dead key
pub record IsListed (hash_str : ℕ → ℕ) (t : Table) : Type 0 where
  pub hash : IsHash hash_str t
  pub outside :
      (j : ℕ) → IsUsed (gnode t.node j).val → slot (length t.array) (gnode t.node j).key ≡ none
  pub keys : (j : ℕ) → IsUsed (gnode t.node j).val → IsKey (gnode t.node j).key
  pub undead : (j : ℕ) (key : TValue) → is_dead (gnode t.node j).key key ≡ false
  pub size : length t.array + length t.node < 2 ^ 31

or-false : (b c : Bool) → c ≡ false → (b || c) ≡ b
or-false true c h = refl
or-false false c h = h

module _ (hash_str : ℕ → ℕ) (t : Table) (listed : IsListed hash_str t) where
  -- The index of a key of the array part
  slot-find_index :
      (e : ℕ)
      → e < length t.array
      → find_index hash_str t (number (cast_num (pos (e + 1)))) ≡ some (pos e)
  unfolding find_index arrayindex
  slot-find_index e lt =
      let n = cast_num (pos (e + 1)) in
      let below : e + 1 < 2 ^ 31 = (let small = listed.size in omega arith) in
      let back = number2int-cast_num (e + 1) below in
      let whole : numeq n n ≡ true =
        numeq_intro n n (same_bits refl) (cast_num-is_nan (e + 1) below) in
      let from_1 : ltb 0 (e + 1) ≡ true = ground arith in
      let inside : leb (e + 1) (length t.array) ≡ true = ground arith in
      let down : e + 1 - 1 ≡ e = omega arith in
      rw (find_index, back, whole, from_1, inside, down) refl

  not_inside :
      (size : ℕ) (i : ℤ)
      → slot_index size i ≡ none
      → (ltb 0 (pos_part i) && leb (pos_part i) size) ≡ false
  not_inside size (pos zero) h = refl
  not_inside size (pos (suc m)) h = elim (Bool-cases (ltb m size)) [
    | inl inside ↦
        absurd (none-ne-some m (sym h ∙ ap (λ (b : Bool). if b then some m else none) inside))
    | inr outside ↦
        let beyond : leb (suc m) size ≡ false = ground arith in
        let from_1 : ltb 0 (suc m) ≡ true = ground arith in rw (beyond, from_1) refl
  ]
  not_inside size (negsuc m) h = refl

  -- The index of a key of the hash part
  node-find_index :
      (i : ℕ)
      → IsUsed (gnode t.node i).val
      → find_index hash_str t (gnode t.node i).key ≡ some (pos (i + length t.array))
  unfolding find_index slot
  node-find_index i used =
      let key = (gnode t.node i).key in
      let valid = listed.keys i used in
      let alive = IsKey-IsAlive key valid in
      let not_nil : ttisnil key ≡ false = IsAlive-IsUsed key alive in
      let is_raw : (k : ℕ) → is_entry key (gnode t.node k).key ≡ rawequal (gnode t.node k).key key =
        λ k. or-false (rawequal (gnode t.node k).key key) _ (listed.undead k key) in
      let mp = mainposition hash_str (length t.node) in
      let found =
        find_node-found mp (length t.node) t.node listed.hash.chained (is_entry key)
          (listed.hash.chained.leads i alive) (position-lt hash_str t listed.hash key)
          (is_raw i ∙ rawequal_self key valid)
          (λ x same.
            (let equal = sym (is_raw x) ∙ same in
              listed.hash.chained.unique x (rawequal-IsAlive (gnode t.node x).key key equal alive) i
                alive equal)) in
      rw
        (
          find_index,
          not_nil,
          not_inside (length t.array) (arrayindex key) (listed.outside i used),
          found,
        )
        refl

  entry-find_index :
      (e : ℕ)
      → e < length t.array + length t.node
      → IsUsed (entry_at t e).1
      → find_index hash_str t (entry_at t e).0 ≡ some (pos e)
  entry-find_index e lt used = elim (side e) [
    | inl inside ↦
        ap (λ x. find_index hash_str t x.0) (entry_slot t e inside) ∙ slot-find_index e inside
    | inr le ↦
        let back : e - length t.array + length t.array ≡ e = omega arith in
        let same : entry_at t e
            ≡ ((gnode t.node (e - length t.array)).key, (gnode t.node (e - length t.array)).val) =
          ap (entry_at t) (sym back) ∙ entry_node t (e - length t.array) in
        ap (λ x. find_index hash_str t x.0) same
        ∙ node-find_index (e - length t.array) (subst (λ x. IsUsed x.1) same used)
        ∙ ap (λ x. some (pos x)) back
  ]
    where
      side : (e : ℕ) → (e < length t.array) ⊎ (length t.array ≤ e)
      side e = ground arith

  -- What a traversal does with what it finds
  visit : ℕ → Option (TValue × TValue) → Option (List (TValue × TValue))
  visit fuel none = some []
  visit fuel (some entry) = elim (walk hash_str fuel t entry.0) [
    | none ↦ none
    | some rest ↦ some (entry ∷ rest)
  ]

  walk-visit :
      (fuel e : ℕ) (key : TValue) (i : ℤ)
      → find_index hash_str t key ≡ some i
      → index_after i ≡ e
      → walk hash_str (suc fuel) t key ≡ visit fuel (next_from t e)
  unfolding walk next visit
  walk-visit fuel e key i found after =
      let one : walk hash_str (suc fuel) t key ≡ visit fuel (next_from t (index_after i)) =
        rw (walk, next, found) (by_entry (next_from t (index_after i))) in
      one ∙ ap (λ x. visit fuel (next_from t x)) after
    where
      by_entry :
          (o : Option (TValue × TValue))
          → (elim o as (λ _. Option (List (TValue × TValue))) [
            | none ↦ some []
            | some entry ↦ elim (walk hash_str fuel t entry.0) [
              | none ↦ none
              | some rest ↦ some (entry ∷ rest)
            ]
          ])
            ≡ visit fuel o
      by_entry none = refl
      by_entry (some entry) = refl

  visit-entries :
      (n e fuel : ℕ)
      → e + n ≡ length t.array + length t.node
      → n ≤ fuel
      → visit fuel (first t n e) ≡ some (entries t n e)
  unfolding visit first entries
  visit-entries zero e fuel sum enough = refl
  visit-entries (suc n) e zero sum enough = absurd (omega arith)
  visit-entries (suc n) e (suc fuel) sum enough = elim (Bool-cases (ttisnil (entry_at t e).1)) [
    | inl empty ↦
        rw (first, entries, empty) (visit-entries n (suc e) (suc fuel) (omega arith) (omega arith))
    | inr held ↦
        let next_one =
          walk-visit fuel (suc e) (entry_at t e).0 (pos e) (entry-find_index e (omega arith) held)
            refl in
        let rest =
          next_one
          ∙ ap (visit fuel) (next_from-first t n (suc e) (omega arith))
          ∙ visit-entries n (suc e) fuel (omega arith) (omega arith) in
        rw (first, entries, held, visit, rest) refl
  ]

  -- In a table whose nodes are in order, whose hash part has no key of the array part and whose nodes have no dead
  -- key, a traversal by luaH_next from nil on visits the elements that have a value, each once and in order, and ends.
  pub walk-entries :
      walk hash_str (suc (length t.array + length t.node)) t nil
      ≡ some (entries t (length t.array + length t.node) 0)
  unfolding find_index
  walk-entries =
      walk-visit (length t.array + length t.node) 0 nil (negsuc 0) refl refl
      ∙ ap (visit (length t.array + length t.node))
          (next_from-first t (length t.array + length t.node) 0 (omega arith))
      ∙ visit-entries (length t.array + length t.node) 0 _ (omega arith) (omega arith)
