-- ===== src/Table/Chained.antt =====
-- The order of the hash part of a table (lua-5.1.5/src/ltable.c): nodes that are chained by `next`.
use unitu_lua_test.Base.{ℕ, ◌<◌, ◌≡◌, refl, ◌∙◌, Bool, true, false, not, ◌==◌, none, some}
use unitu_lua_test.Object.Value.{
  TValue, nil, boolean, lightuserdata, number, object, lua_tdeadkey, ttisnil, rawequal,
}
use unitu_lua_test.Table.Node.{Node}

-- A key that a search can find: neither nil nor dead
abbrev pub is_alive : TValue → Bool
is_alive nil = false
is_alive (boolean b) = true
is_alive (lightuserdata p) = true
is_alive (number n) = true
is_alive (object tt a) = not (tt == lua_tdeadkey)

abbrev pub IsAlive : TValue → Type 0
IsAlive k = is_alive k ≡ true

abbrev pub IsUsed : TValue → Type 0
IsUsed v = ttisnil v ≡ false

pub IsAlive-IsUsed : (k : TValue) → IsAlive k → IsUsed k
IsAlive-IsUsed nil h = cc
IsAlive-IsUsed (boolean b) h = refl
IsAlive-IsUsed (lightuserdata p) h = refl
IsAlive-IsUsed (number n) h = refl
IsAlive-IsUsed (object tt a) h = refl

-- The nodes from `i` to `j`
pub data Leads (f : ℕ → Node) : ℕ → ℕ → Type 0 where
  here : {i : ℕ} → Leads f i i
  step : {i k j : ℕ} → (f i).next ≡ some k → Leads f k j → Leads f i j

-- A key of the main position `x` stands at `x`, or a dead one.
abbrev pub IsHome : (TValue → ℕ) → (ℕ → Node) → ℕ → Type 0
IsHome mp f x = IsUsed (f x).key × (IsAlive (f x).key → mp (f x).key ≡ x)

-- `mp` is the main position of a key. Following `next` from a node ends, and no two nodes have one successor. A key
-- is found from its main position; there stands a key of this position, if any key has it.
pub record IsChained (mp : TValue → ℕ) (size : ℕ) (f : ℕ → Node) : Type 0 where
  pub rank : ℕ → ℕ
  pub ranked : (i j : ℕ) → (f i).next ≡ some j → rank j < rank i
  pub inside : (i j : ℕ) → (f i).next ≡ some j → (j < size) × IsUsed (f j).key
  pub ends : (i : ℕ) → ttisnil (f i).key ≡ true → (f i).next ≡ none
  pub one_way : (i i' j : ℕ) → (f i).next ≡ some j → (f i').next ≡ some j → i ≡ i'
  pub leads : (j : ℕ) → IsAlive (f j).key → Leads f (mp (f j).key) j
  pub home : (j : ℕ) → IsAlive (f j).key → IsHome mp f (mp (f j).key)
  pub unique :
      (i : ℕ)
      → IsAlive (f i).key
      → (j : ℕ) → IsAlive (f j).key
      → rawequal (f i).key (f j).key ≡ true
      → i ≡ j
  pub live : (i : ℕ) → IsUsed (f i).val → IsAlive (f i).key

-- `key` is that of no node.
abbrev pub IsNew : (ℕ → Node) → TValue → Type 0
IsNew f key =
    (j : ℕ)
    → IsAlive (f j).key
    → (rawequal (f j).key key ≡ false) × (rawequal key (f j).key ≡ false)

-- The nodes lead on where each `next` is kept.
pub same-Leads :
    (f g : ℕ → Node) → ((i : ℕ) → (g i).next ≡ (f i).next) → {i j : ℕ} → Leads f i j → Leads g i j
same-Leads f g same here = here
same-Leads f g same (step {i} e l) = step (same i ∙ e) (same-Leads f g same l)
