-- ===== src/Chunk/Feed.antt =====
-- `luaU_dump` (lua-5.1.5/src/ldump.c) hands just the blocks of the format to its writer, in order, until
-- the writer reports an error.
use unitu_lua_test.Base.{
  ℕ, ◌≡◌, refl, sym, ap, ◌∙◌, true, false, Bool, Bool-cases, ◌==◌, ==_iff, inl, inr, arith, List,
  [], ◌∷◌, ◌++◌, length, take-length, none, some,
}
use mathlib.Core.Path.{subst}
use unitu_lua_test.Chunk.{
  TString, Constant, nil, boolean, number, string, LocVar, Info, Proto, proto, Protos, none_left,
  one_more, to_bytes, header,
}
use unitu_lua_test.Chunk.Dump.{
  DumpState, Dump, number_protos, dump_block, dump_char, dump_int, dump_number, dump_vector,
  dump_string, dump_constant, dump_each, dump_locvar, dump_debug, dump_prefix, dump_function,
  dump_protos, dump_header, dump,
}
use unitu_lua_test.Chunk.Encode.{
  Blocks, vector_blocks, string_blocks, constant_blocks, each_blocks, locvar_blocks, array_blocks,
  shown_debug, debug_blocks, source_left, prefix_blocks, function_blocks, protos_blocks,
}

module _ {S : Type 0} (writer : List ℕ → S → ℕ × S) where
  -- What a writer is handed, by itself: the blocks in order, up to the first call that returns a status that is not 0.
  -- The result is the status and the state of the writer after the last call.
  unfoldable pub feed : Blocks → S → ℕ × S
  feed [] w = (0, w)
  feed (b ∷ bs) w = elim ((writer b w).0 == 0) [
    | true ↦ feed bs (writer b w).1
    | false ↦ writer b w
  ]

  -- The blocks as the calls of DumpBlock
  dump_blocks : Blocks → Dump S
  dump_blocks [] d = d
  dump_blocks (b ∷ bs) d = dump_blocks bs (dump_block writer b d)

  dump_blocks-nil : (d : DumpState S) → dump_blocks [] d ≡ d
  unfolding dump_blocks
  dump_blocks-nil d = refl

  dump_blocks-cons :
      (b : List ℕ) (bs : Blocks) (d : DumpState S)
      → dump_blocks (b ∷ bs) d ≡ dump_blocks bs (dump_block writer b d)
  unfolding dump_blocks
  dump_blocks-cons b bs d = refl

  dump_blocks-append :
      (xs ys : Blocks) (d : DumpState S)
      → dump_blocks (xs ++ ys) d ≡ dump_blocks ys (dump_blocks xs d)
  unfolding dump_blocks
  dump_blocks-append [] ys d = refl
  dump_blocks-append (x ∷ xs) ys d = dump_blocks-append xs ys (dump_block writer x d)

  dump_blocks-strip : (bs : Blocks) (d : DumpState S) → (dump_blocks bs d).strip ≡ d.strip
  unfolding dump_blocks dump_block
  dump_blocks-strip [] d = refl
  dump_blocks-strip (b ∷ bs) d = dump_blocks-strip bs (dump_block writer b d) ∙ ground arith

  string-dump_blocks :
      (s : TString) (d : DumpState S) → dump_string writer s d ≡ dump_blocks (string_blocks s) d
  unfolding dump_string dump_blocks string_blocks
  string-dump_blocks none d = refl
  string-dump_blocks (some s) d = refl

  constant-dump_blocks :
      (k : Constant) (d : DumpState S)
      → dump_constant writer k d ≡ dump_blocks (constant_blocks k) d
  unfolding dump_constant dump_char dump_number dump_blocks constant_blocks
  constant-dump_blocks nil d = refl
  constant-dump_blocks (boolean b) d = refl
  constant-dump_blocks (number x) d = refl
  constant-dump_blocks (string s) d = string-dump_blocks s (dump_block writer (to_bytes 1 4) d)

  each-dump_blocks :
      {A : Type 0} (f : A → Dump S) (g : A → Blocks)
      → ((x : A) (d : DumpState S) → f x d ≡ dump_blocks (g x) d)
      → (xs : List A) (d : DumpState S) → dump_each writer f xs d ≡ dump_blocks (each_blocks g xs) d
  unfolding dump_each dump_blocks each_blocks
  each-dump_blocks f g h [] d = refl
  each-dump_blocks f g h (x ∷ xs) d =
      each-dump_blocks f g h xs (f x d) ∙ rw (h x d, dump_blocks-append (g x) (each_blocks g xs) d)

  locvar-dump_blocks :
      (v : LocVar) (d : DumpState S) → dump_locvar writer v d ≡ dump_blocks (locvar_blocks v) d
  unfolding dump_locvar dump_int dump_blocks locvar_blocks
  locvar-dump_blocks v d =
      rw (string-dump_blocks v.varname d, dump_blocks-append (string_blocks v.varname))

  array-dump_blocks :
      {A : Type 0} (f : A → Dump S) (g : A → Blocks)
      → ((x : A) (d : DumpState S) → f x d ≡ dump_blocks (g x) d)
      → (xs : List A) (d : DumpState S)
      → dump_each writer f xs (dump_int writer (length xs) d) ≡ dump_blocks (array_blocks g xs) d
  unfolding array_blocks dump_blocks dump_int
  array-dump_blocks f g h xs d =
      each-dump_blocks f g h xs (dump_block writer (to_bytes 4 (length xs)) d)

  vector-dump_blocks :
      (xs : List ℕ) (d : DumpState S)
      → dump_vector writer xs (length xs) d ≡ dump_blocks (vector_blocks xs) d
  unfolding dump_vector dump_int dump_blocks vector_blocks
  vector-dump_blocks xs d = rw (take-length xs)

  debug-dump_blocks :
      (b : Bool) (f : Info) (d : DumpState S)
      → d.strip ≡ b
      → dump_debug writer f d ≡ dump_blocks (debug_blocks b f) d
  unfolding dump_debug debug_blocks shown_debug
  debug-dump_blocks true f d e = rw e (
      unfold dump_vector dump_int dump_each dump_blocks vector_blocks array_blocks each_blocks in
      refl)
  debug-dump_blocks false f d e = rw (
    e,
    take-length,
    take-length,
    vector-dump_blocks,
    array-dump_blocks _ _ locvar-dump_blocks,
    array-dump_blocks _ _ string-dump_blocks,
    dump_blocks-append (vector_blocks f.lineinfo),
    dump_blocks-append (array_blocks locvar_blocks f.locvars),
  )

  prefix-dump_blocks :
      (f : Info) (p : TString) (n : ℕ) (d : DumpState S)
      → dump_prefix writer f p n d ≡ dump_blocks (prefix_blocks d.strip f p n) d
  unfolding dump_prefix prefix_blocks source_left dump_char
  prefix-dump_blocks f p n d =
      let s = source_left d.strip f.source p in
      rw
        (
          vector-dump_blocks,
          array-dump_blocks _ _ constant-dump_blocks,
          dump_blocks-append (string_blocks s),
          string-dump_blocks s,
        )
        (unfold dump_int in simp (dump_blocks-cons, dump_blocks-nil, dump_blocks-append))

  mutual
    unfolding dump_function dump_protos function_blocks protos_blocks

    function-dump_blocks :
        (f : Proto) (b : Bool) (p : TString) (d : DumpState S)
        → d.strip ≡ b
        → dump_function writer f p d ≡ dump_blocks (function_blocks b f p) d
    function-dump_blocks (proto f fs) b p d e =
        let start = prefix_blocks b f p (number_protos fs) in
        let first =
          subst
            (λ t.
              dump_prefix writer f p (number_protos fs) d
              ≡ dump_blocks (prefix_blocks t f p (number_protos fs)) d)
            e (prefix-dump_blocks f p (number_protos fs) d) in
        let kept = dump_blocks-strip start d ∙ e in
        let inner = protos-dump_blocks fs b f.source (dump_blocks start d) kept in
        let kept' = dump_blocks-strip (protos_blocks b fs f.source) (dump_blocks start d) ∙ kept in
        let last =
          debug-dump_blocks b f (dump_blocks (protos_blocks b fs f.source) (dump_blocks start d))
            kept' in
        rw (
          first,
          inner,
          last,
          dump_blocks-append start,
          dump_blocks-append (protos_blocks b fs f.source),
        )

    protos-dump_blocks :
        (fs : Protos) (b : Bool) (p : TString) (d : DumpState S)
        → d.strip ≡ b
        → dump_protos writer fs p d ≡ dump_blocks (protos_blocks b fs p) d
    protos-dump_blocks none_left b p d e = sym (dump_blocks-nil d)
    protos-dump_blocks (one_more f fs) b p d e =
        let first = function-dump_blocks f b p d e in
        let kept = dump_blocks-strip (function_blocks b f p) d ∙ e in
        let rest = protos-dump_blocks fs b p (dump_blocks (function_blocks b f p) d) kept in
        rw (first, rest, dump_blocks-append (function_blocks b f p))

  -- Behind an error, DumpBlock calls the writer no more.
  dump_blocks_stopped :
      (bs : Blocks) (d : DumpState S) → (d.status == 0) ≡ false → dump_blocks bs d ≡ d
  unfolding dump_blocks dump_block
  dump_blocks_stopped [] d stopped = refl
  dump_blocks_stopped (b ∷ bs) d stopped =
      let same : dump_block writer b d ≡ d = rw (dump_block, stopped) refl in
      ap (dump_blocks bs) same ∙ dump_blocks_stopped bs d stopped

  dump_blocks-feed :
      (bs : Blocks) (w : S) (strip : Bool)
      → let d = dump_blocks bs (record { sink = w; strip = strip; status = 0 }) in
        (d.status, d.sink) ≡ feed bs w
  unfolding dump_blocks feed dump_block
  dump_blocks-feed [] w strip = refl
  dump_blocks-feed (b ∷ bs) w strip =
      let r = writer b w in
      let d : DumpState S = record { sink = r.1; strip = strip; status = r.0 } in
      let result : DumpState S → ℕ × S = λ e. (e.status, e.sink) in
      elim (Bool-cases (r.0 == 0)) [
        | inl goes_on ↦
            let from_0 =
              ap
                (λ (k : ℕ).
                  result (dump_blocks bs (record { sink = r.1; strip = strip; status = k })))
                ((==_iff r.0 0).0 goes_on) in
            rw (goes_on, feed) (from_0 ∙ dump_blocks-feed bs r.1 strip)
        | inr stopped ↦ rw (stopped, feed) (ap result (dump_blocks_stopped bs d stopped))
      ]

  -- For any writer, a dump hands the header and the blocks of the format to the writer, one call for each block and in
  -- their order, up to the first call that returns a status that is not 0; it returns the status of the last call.
  pub dump-feed :
      (f : Proto) (w : S) (strip : Bool)
      → dump writer f w strip ≡ feed (header ∷ function_blocks strip f none) w
  unfolding dump dump_header
  dump-feed f w strip =
      let start = dump_block writer header (record { sink = w; strip = strip; status = 0 }) in
      let run = function-dump_blocks f strip none start (unfold dump_block in refl) in
      let first =
        dump_blocks-cons header (function_blocks strip f none)
          (record { sink = w; strip = strip; status = 0 }) in
      let all = run ∙ sym first in
      ap (λ d. (d.status, d.sink)) all
      ∙ dump_blocks-feed (header ∷ function_blocks strip f none) w strip
