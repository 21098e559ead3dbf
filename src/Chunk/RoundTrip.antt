-- ===== src/Chunk/RoundTrip.antt =====
-- Loading what was dumped: lua-5.1.5/src/ldump.c and lundump.c together.
use unitu_lua_test.Base.{
  ℕ, ◌≡◌, refl, sym, ap, ◌∙◌, inl, Bool, true, false, if◌then◌else◌, List, [], ◌∷◌, ◌++◌, none,
  some,
}
use mathlib.Core.List.{append-nil, append_assoc}
use unitu_lua_test.Chunk.{Proto, header}
use unitu_lua_test.Chunk.Dump.{same_string, append_writer, dump}
use unitu_lua_test.Chunk.Feed.{feed, dump-feed}
use unitu_lua_test.Zio.{Zio, init}
use unitu_lua_test.Zio.Read.{stream, content, init-content}
use unitu_lua_test.Chunk.Load.{return, fail, bad_header, ok, load_header, undump, chunk_source}
use unitu_lua_test.Chunk.Encode.{Blocks, function_blocks}
use unitu_lua_test.Chunk.Decodes.{Decodes, return-Decodes, bind-Decodes, block-Decodes}
use unitu_lua_test.Chunk.Parts.{bytes, bytes-cons, bytes-nil}
use unitu_lua_test.Chunk.Received.{received, IsLoadable, IsNamed, received_named}
use unitu_lua_test.Chunk.Function.{function-Decodes}

same_header : same_string (some header) (some header) ≡ true
unfolding same_string header
same_header = refl

header-Decodes : Decodes load_header header tt
unfolding load_header
header-Decodes =
    let d = block-Decodes 12 header (unfold header in refl) in
    let checked : Decodes
        (if same_string (some header) (some header) then return tt else fail bad_header) [] tt =
      rw same_header (return-Decodes tt) in
    rw append-nil at (
      bind-Decodes (λ s. if same_string (some s) (some header) then return tt else fail bad_header)
        d checked)

-- What `string.dump` leaves in its buffer.
feed-append_writer : (bs : Blocks) (b : List ℕ) → feed append_writer bs b ≡ (0, b ++ bytes bs)
unfolding feed append_writer
feed-append_writer [] b = ap (λ s. (0, s)) (rw bytes-nil (sym (append-nil b)))
feed-append_writer (x ∷ bs) b =
    feed-append_writer bs (b ++ x) ∙ ap (λ s. (0, s)) (rw bytes-cons (append_assoc b x (bytes bs)))

dump-bytes :
    (f : Proto) (strip : Bool)
    → dump append_writer f [] strip ≡ (0, header ++ bytes (function_blocks strip f none))
dump-bytes f strip =
    rw (dump-feed, feed-append_writer (header ∷ function_blocks strip f none) [], bytes-cons)

undump-Decodes :
    (checkcode : Proto → Bool) (left : ℕ) (strip : Bool) (f : Proto)
    → IsLoadable checkcode strip f left none chunk_source
    → Decodes
        (undump checkcode left)
        (header ++ bytes (function_blocks strip f none))
        (received strip f none chunk_source)
unfolding undump
undump-Decodes checkcode left strip f h =
    bind-Decodes _ header-Decodes (function-Decodes checkcode strip f left none chunk_source h)

-- A function that is dumped by the writer of `string.dump`, with or without stripping, and loaded
-- again from any reader that gives these bytes, comes back: the load ends without an error, and leaves no byte of the input. The
-- function must be sound, nested `left` deep at most, and pass the check of its code.
pub undump-dump :
    (checkcode : Proto → Bool) (left : ℕ) (strip : Bool) (f : Proto) (blocks : List (List ℕ))
    → IsLoadable checkcode strip f left none chunk_source
    → stream blocks ≡ (dump append_writer f [] strip).1
    → (z : Zio) × (undump checkcode left (init blocks) ≡ ok (received strip f none chunk_source) z)
      × (content z ≡ [])
undump-dump checkcode left strip f blocks h e =
    let d = undump-Decodes checkcode left strip f h in
    let (valid, full) = init-content blocks in
    let input = full ∙ e ∙ ap (λ r. r.1) (dump-bytes f strip) ∙ sym (append-nil _) in
    let end = d.whole (init blocks) [] valid input in (end.left, end.run, end.rest_left)

-- A sound function that is dumped without stripping by the writer of `string.dump`, and in which every
-- function has the name of a source, comes back unchanged when it is loaded again, from any reader
-- that gives these bytes. It must be nested `left` deep at most and pass the check of its code.
pub undump-dump_named :
    (checkcode : Proto → Bool) (left : ℕ) (f : Proto) (blocks : List (List ℕ))
    → IsLoadable checkcode false f left none chunk_source
    → IsNamed f
    → stream blocks ≡ (dump append_writer f [] false).1
    → (z : Zio) × (undump checkcode left (init blocks) ≡ ok f z) × (content z ≡ [])
undump-dump_named checkcode left f blocks h named e =
    let (z, run, end) = undump-dump checkcode left false f blocks h e in
    (z, run ∙ ap (λ g. ok g z) (received_named f none chunk_source named (inl refl)), end)
