-- ===== src/Chunk/Function.antt =====
-- `LoadFunction` (lua-5.1.5/src/lundump.c) on the blocks of the format that belong to a function.
use unitu_lua_test.Base.{
  ℕ, zero, suc, ◌≡◌, inl, inr, Bool-cases, Bool, true, false, ◌||◌, if◌then◌else◌, arith, List, [],
  ◌++◌, length, All,
}
use mathlib.Core.List.{append-nil, append_assoc}
use unitu_lua_test.Chunk.{TString, Info, Proto, proto, Protos, none_left, one_more, to_bytes}
use unitu_lua_test.Chunk.Dump.{same_string, number_protos}
use unitu_lua_test.Chunk.Load.{return, fail, bad_code, load_function, load_protos}
use unitu_lua_test.Chunk.Encode.{
  source_left, shown_debug, string_blocks, vector_blocks, constant_blocks, array_blocks,
  locvar_blocks, each_blocks, prefix_blocks, debug_blocks, function_blocks, protos_blocks,
}
use unitu_lua_test.Chunk.Decodes.{
  Decodes, return-Decodes, bind-Decodes, map-Decodes, char-Decodes, int-Decodes,
}
use unitu_lua_test.Chunk.Parts.{
  bytes, bytes-append, bytes-cons, bytes-nil, IsStorable, IsInt, IsWord, IsVariable, string-Decodes,
  code-Decodes, constant-Decodes, each-Decodes, locvar-Decodes,
}
use unitu_lua_test.Chunk.Received.{source_got, received, received_all, IsLoadable, AreLoadable}

-- The parts of a sound function stay so where debug information is stripped.
shown-All :
    {A : Type 0} (P : A → Type 0) (b : Bool) (xs : List A) → All P xs → All P (shown_debug b xs)
unfolding shown_debug
shown-All P true xs h = tt
shown-All P false xs h = h

shown-IsInt :
    {A : Type 0} (b : Bool) (xs : List A) → IsInt (length xs) → IsInt (length (shown_debug b xs))
unfolding shown_debug
shown-IsInt true xs h = omega arith
shown-IsInt false xs h = h

left-IsStorable : (b : Bool) (s p : TString) → IsStorable s → IsStorable (source_left b s p)
unfolding source_left
left-IsStorable b s p h = elim (Bool-cases (same_string s p || b)) [
  | inl gone ↦ rw gone tt
  | inr kept ↦ rw kept h
]

-- The bytes of a function, item by item.
function-bytes :
    (b : Bool) (f : Info) (fs : Protos) (p : TString)
    → bytes (function_blocks b (proto f fs) p)
      ≡ bytes (string_blocks (source_left b f.source p))
        ++ (to_bytes 4 f.linedefined
            ++ (to_bytes 4 f.lastlinedefined
                ++ (to_bytes 1 f.nups
                    ++ (to_bytes 1 f.numparams
                        ++ (to_bytes 1 f.is_vararg
                            ++ (to_bytes 1 f.maxstacksize
                                ++ (bytes (vector_blocks f.code)
                                    ++ (to_bytes 4 (length f.k)
                                        ++ (bytes (each_blocks constant_blocks f.k)
                                            ++ (to_bytes 4 (number_protos fs)
                                                ++ (bytes (protos_blocks b fs f.source)
                                                    ++ (bytes
                                                          (vector_blocks (shown_debug b f.lineinfo))
                                                        ++ (to_bytes 4
                                                            (length (shown_debug b f.locvars))
                                                            ++ (bytes (
                                                            each_blocks locvar_blocks
                                                            (shown_debug b f.locvars))
                                                            ++ (to_bytes 4
                                                            (length (shown_debug b f.upvalues))
                                                            ++ (bytes (
                                                            each_blocks string_blocks
                                                            (shown_debug b f.upvalues))
                                                            ++ []))))))))))))))))
unfolding function_blocks prefix_blocks debug_blocks array_blocks
function-bytes b f fs p = simp (bytes-append, bytes-cons, bytes-nil, append_assoc, append-nil)

none_left-bytes : (b : Bool) (p : TString) → bytes (protos_blocks b none_left p) ≡ []
unfolding protos_blocks
none_left-bytes b p = bytes-nil

one_more-bytes :
    (b : Bool) (f : Proto) (fs : Protos) (p : TString)
    → bytes (protos_blocks b (one_more f fs) p)
      ≡ bytes (function_blocks b f p) ++ bytes (protos_blocks b fs p)
unfolding protos_blocks
one_more-bytes b f fs p = bytes-append (function_blocks b f p) (protos_blocks b fs p)

checked-Decodes :
    (checkcode : Proto → Bool) (f : Proto)
    → checkcode f ≡ true
    → Decodes (if checkcode f then return f else fail bad_code) [] f
checked-Decodes checkcode f good = rw good (return-Decodes f)

module _ (checkcode : Proto → Bool) (strip : Bool) where
  mutual
    unfolding received received_all IsLoadable AreLoadable load_function load_protos source_got

    pub function-Decodes :
        (f : Proto) (left : ℕ) (p q : TString)
        → IsLoadable checkcode strip f left p q
        → Decodes
            (load_function checkcode left q)
            (bytes (function_blocks strip f p))
            (received strip f p q)
    function-Decodes (proto f fs) zero p q h = absurd h
    function-Decodes (proto f fs) (suc left) p q (s, n, good, inner) =
        let source = source_left strip f.source p in
        let d = protos-Decodes fs left f.source (source_got source q) inner in
        let lineinfo = shown_debug strip f.lineinfo in
        let locvars = shown_debug strip f.locvars in
        let upvalues = shown_debug strip f.upvalues in
        rw (function-bytes strip f fs p) (
          bind-Decodes _ (string-Decodes source (left-IsStorable strip f.source p s.source)) (
            bind-Decodes _ (int-Decodes f.linedefined s.linedefined) (
              bind-Decodes _ (int-Decodes f.lastlinedefined s.lastlinedefined) (
                bind-Decodes _ (char-Decodes f.nups s.nups) (
                  bind-Decodes _ (char-Decodes f.numparams s.numparams) (
                    bind-Decodes _ (char-Decodes f.is_vararg s.is_vararg) (
                      bind-Decodes _ (char-Decodes f.maxstacksize s.maxstacksize) (
                        bind-Decodes _ (code-Decodes f.code s.sizecode s.code) (
                          bind-Decodes _ (int-Decodes (length f.k) s.sizek) (
                            bind-Decodes _ (each-Decodes _ _ _ constant-Decodes f.k s.k) (
                              bind-Decodes _ (int-Decodes (number_protos fs) n) (
                                bind-Decodes _ d (
                                  bind-Decodes _
                                    (code-Decodes lineinfo
                                      (shown-IsInt strip f.lineinfo s.sizelineinfo)
                                      (shown-All IsWord strip f.lineinfo s.lineinfo))
                                    (bind-Decodes _
                                      (int-Decodes (length locvars)
                                        (shown-IsInt strip f.locvars s.sizelocvars))
                                      (bind-Decodes _
                                        (each-Decodes _ _ _ locvar-Decodes locvars
                                          (shown-All IsVariable strip f.locvars s.locvars))
                                        (bind-Decodes _
                                          (int-Decodes (length upvalues)
                                            (shown-IsInt strip f.upvalues s.sizeupvalues))
                                          (bind-Decodes _
                                            (each-Decodes _ _ _ string-Decodes upvalues
                                              (shown-All IsStorable strip f.upvalues s.upvalues))
                                            (checked-Decodes checkcode _ good))))))))))))))))))

    protos-Decodes :
        (fs : Protos) (left : ℕ) (p q : TString)
        → AreLoadable checkcode strip fs left p q
        → Decodes
            (load_protos (load_function checkcode left q) (number_protos fs))
            (bytes (protos_blocks strip fs p))
            (received_all strip fs p q)
    protos-Decodes none_left left p q h = rw (none_left-bytes strip p) (return-Decodes none_left)
    protos-Decodes (one_more f fs) left p q (h, hs) = rw (one_more-bytes strip f fs p) (
        bind-Decodes _ (function-Decodes f left p q h)
          (map-Decodes (λ t. one_more (received strip f p q) t) (protos-Decodes fs left p q hs)))
