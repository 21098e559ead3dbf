-- ===== src/Chunk/Received.antt =====
-- What becomes of a function that is dumped and loaded again (lua-5.1.5/src/ldump.c, lundump.c), and which
-- functions can be.
use unitu_lua_test.Base.{
  ℕ, zero, suc, ◌<◌, ◌≡◌, ◌≢◌, ◌⊎◌, inl, inr, arith, Bool-cases, refl, sym, ap, ◌∙◌, Bool, true,
  false, if◌then◌else◌, List, [], ◌∷◌, length, All, none, some,
}
use unitu_lua_test.Chunk.{TString, Info, Proto, proto, Protos, none_left, one_more}
use mathlib.Core.Path.{ap₂}
use unitu_lua_test.Chunk.Dump.{same_bytes, same_string, number_protos}
use unitu_lua_test.Chunk.Encode.{source_left, shown_debug}
use unitu_lua_test.Chunk.Parts.{IsStorable, IsInt, IsWord, IsValue, IsVariable}

-- A name that was left out is taken from the enclosing function.
unfoldable pub source_got : TString → TString → TString
source_got s p = if same_string s none then p else s

-- `p` and `q` are the names that the enclosing function has when dumping and when loading.
unfoldable mutual
  pub received : Bool → Proto → TString → TString → Proto
  received strip (proto f fs) p q =
      let source = source_got (source_left strip f.source p) q in
      proto
        (record f {
          source = source;
          lineinfo = shown_debug strip f.lineinfo;
          locvars = shown_debug strip f.locvars;
          upvalues = shown_debug strip f.upvalues;
        })
        (received_all strip fs f.source source)

  pub received_all : Bool → Protos → TString → TString → Protos
  received_all strip none_left p q = none_left
  received_all strip (one_more f fs) p q =
      one_more (received strip f p q) (received_all strip fs p q)

-- Every number fits the field that it is stored in.
pub record IsSound (f : Info) : Type 0 where
  pub source : IsStorable f.source
  pub linedefined : IsInt f.linedefined
  pub lastlinedefined : IsInt f.lastlinedefined
  pub nups : f.nups < 256
  pub numparams : f.numparams < 256
  pub is_vararg : f.is_vararg < 256
  pub maxstacksize : f.maxstacksize < 256
  pub sizecode : IsInt (length f.code)
  pub code : All IsWord f.code
  pub sizek : IsInt (length f.k)
  pub k : All IsValue f.k
  pub sizelineinfo : IsInt (length f.lineinfo)
  pub lineinfo : All IsWord f.lineinfo
  pub sizelocvars : IsInt (length f.locvars)
  pub locvars : All IsVariable f.locvars
  pub sizeupvalues : IsInt (length f.upvalues)
  pub upvalues : All IsStorable f.upvalues

-- The function and those inside it are sound, are nested `left` deep at most, and pass the check of their code.
module _ (checkcode : Proto → Bool) where
  unfoldable mutual
    pub IsLoadable : Bool → Proto → ℕ → TString → TString → Type 0
    IsLoadable strip (proto f fs) zero p q = ⊥
    IsLoadable strip (proto f fs) (suc left) p q =
        IsSound f
        × IsInt (number_protos fs)
        × (checkcode (received strip (proto f fs) p q) ≡ true)
        × AreLoadable strip fs left f.source (source_got (source_left strip f.source p) q)

    pub AreLoadable : Bool → Protos → ℕ → TString → TString → Type 0
    AreLoadable strip none_left left p q = Unit {0}
    AreLoadable strip (one_more f fs) left p q =
        IsLoadable strip f left p q × AreLoadable strip fs left p q

-- The function and those inside it have the name of a source.
unfoldable mutual
  pub IsNamed : Proto → Type 0
  IsNamed (proto f fs) = (f.source ≢ none) × AreNamed fs

  pub AreNamed : Protos → Type 0
  AreNamed none_left = Unit {0}
  AreNamed (one_more f fs) = IsNamed f × AreNamed fs

pub same_bytes-eq : (a b : List ℕ) → same_bytes a b ≡ true → a ≡ b
unfolding same_bytes
same_bytes-eq [] [] h = refl
same_bytes-eq (x ∷ a) (y ∷ b) h = ground (arith, same_bytes-eq a b)
same_bytes-eq [] (y ∷ b) h = cc
same_bytes-eq (x ∷ a) [] h = cc

same_string-eq : (s t : TString) → same_string s t ≡ true → s ≡ t
unfolding same_string
same_string-eq none none h = refl
same_string-eq (some a) (some b) h = ap some (same_bytes-eq a b h)
same_string-eq none (some b) h = cc
same_string-eq (some a) none h = cc

same_string-none : (s : TString) → s ≢ none → same_string s none ≡ false
unfolding same_string
same_string-none none h = absurd (h refl)
same_string-none (some a) h = refl

-- Without stripping, a name that is left out is that of the enclosing function.
named-source :
    (s p q : TString) → s ≢ none → ((p ≡ none) ⊎ (p ≡ q)) → source_got (source_left false s p) q ≡ s
unfolding source_got source_left same_string
named-source s p q named e = elim (Bool-cases (same_string s p)) [
  | inl same ↦
      let s_p = same_string-eq s p same in
      rw same (elim e [ inl no_name ↦ absurd (named (s_p ∙ no_name)) | inr p_q ↦ sym (s_p ∙ p_q) ])
  | inr other ↦ rw other (rw (same_string-none s named))
]

mutual
  unfolding received received_all IsNamed AreNamed shown_debug

  pub received_named :
      (f : Proto) (p q : TString) → IsNamed f → ((p ≡ none) ⊎ (p ≡ q)) → received false f p q ≡ f
  received_named (proto f fs) p q (named, inner) e =
      let s = named-source f.source p q named e in
      rw s (ap (λ gs. proto f gs) (received_all_named fs f.source f.source inner (inr refl)))

  received_all_named :
      (fs : Protos) (p q : TString)
      → AreNamed fs
      → ((p ≡ none) ⊎ (p ≡ q))
      → received_all false fs p q ≡ fs
  received_all_named none_left p q h e = refl
  received_all_named (one_more f fs) p q (h, hs) e =
      ap₂ one_more (received_named f p q h e) (received_all_named fs p q hs e)
