-- ===== src/Tests/Debugs.antt =====
-- The code checker (lua-5.1.5/src/ldebug.c) at concrete functions.
use unitu_lua_test.Base.{
  ℕ, zero, suc, ◌<◌, ◌≡◌, ◌≢◌, refl, arith, true, false, List, [], ◌∷◌, length, some, none,
}
use unitu_lua_test.Base.Int.{◌+ℤ◌, ◌-ℤ◌}
use unitu_lua_test.Base.Text.{codes}
use unitu_lua_test.Opcode.{
  create_abc, create_abx, get_opcode, getarg_a, getarg_b, getarg_c, getarg_bx, getarg_sbx, isk,
  indexk,
}
use unitu_lua_test.Opcode.Modes.{
  opcode_number, opmodes, get_op_mode, get_b_mode, get_c_mode, test_a_mode, test_t_mode,
  op_loadbool,
}
use unitu_lua_test.Chunk.{Proto, proto, none_left, nil}
use unitu_lua_test.Chunk.{to_bytes, array_bytes, header}
use unitu_lua_test.Chunk.Dump.{
  dump, append_writer, dump_function, dump_prefix, dump_header, dump_block, dump_char, dump_int,
  dump_number, dump_vector, dump_string, dump_constant, dump_each, dump_locvar, dump_debug,
  same_string,
}
use unitu_lua_test.Chunk.Load.{undump, ok, chunk_source}
use unitu_lua_test.Chunk.Encode.{source_left, shown_debug}
use unitu_lua_test.Chunk.Received.{IsLoadable, IsNamed, received, source_got}
use unitu_lua_test.Chunk.RoundTrip.{undump-dump_named}
use unitu_lua_test.Zio.{Zio, init}
use unitu_lua_test.Zio.Read.{stream, content}
use unitu_lua_test.Debug.Loaded.{undump-Reaches}
use unitu_lua_test.Debug.Outcome.{fault, fetch}
use unitu_lua_test.Debug.Opcodes.{opcode_of}
use unitu_lua_test.Debug.{
  nups_of, is_string, precheck, checkopenop, check_arg_mode, is_wide, wide_before, jump_dest,
  check_dest, check_operands, check_skip, check_captures, follow, check_past, open_values,
  check_call, check_op, decode, children, step, symbexec_loop, symbexec, accepted, checkcode,
}
use unitu_lua_test.Debug.Visited.{IsVisited}
use unitu_lua_test.Debug.Flow.{GoesOn, Reaches, entry, later}
use unitu_lua_test.Debug.Flow
use unitu_lua_test.Debug.Loop.{symbexec-ne-fault}
use unitu_lua_test.Debug.Safety.{HasFlags, checkcode-Reaches}

abbrev with_code : List ℕ → Proto
with_code code =
    proto
      (record {
        source = some (codes "@a");
        linedefined = 0;
        lastlinedefined = 0;
        nups = 0;
        numparams = 0;
        is_vararg = 2;
        maxstacksize = 2;
        code = code;
        k = nil ∷ [];
        lineinfo = [];
        locvars = [];
        upvalues = [];
      })
      none_left

-- R0 := true and skip; jump to the end; R0 := false; return
abbrev choice : List ℕ
choice = 16386 ∷ 2147483670 ∷ 2 ∷ 8388638 ∷ []

choice_words :
    create_abc 2 0 0 1 ∷ create_abx 22 0 131072 ∷ create_abc 2 0 0 0 ∷ create_abc 30 0 1 0 ∷ []
    ≡ choice
unfolding create_abc create_abx
choice_words = refl

all : Unit {0}
unfolding fetch opcode_of nups_of is_string precheck checkopenop check_arg_mode is_wide wide_before
    jump_dest check_dest check_operands check_skip check_captures follow check_past open_values
    check_call check_op decode children step symbexec_loop symbexec accepted checkcode get_opcode
    getarg_a getarg_b getarg_c getarg_bx getarg_sbx isk indexk opcode_number opmodes get_op_mode
    get_b_mode get_c_mode test_a_mode test_t_mode ◌+ℤ◌ ◌-ℤ◌
all = tt

all_dump : Unit {0}
unfolding dump append_writer dump_function dump_prefix dump_header dump_block dump_char dump_int
    dump_number dump_vector dump_string dump_constant dump_each dump_locvar dump_debug same_string
    to_bytes array_bytes header
all_dump = tt

choice_accepted : checkcode (with_code choice) ≡ true
unfolding all
choice_accepted = refl

-- A jump over the end is refused, and so is a function without OP_RETURN.
jump_refused : checkcode (with_code (2147500054 ∷ 8388638 ∷ [])) ≡ false
unfolding all
jump_refused = refl

open_end_refused : checkcode (with_code (2 ∷ [])) ≡ false
unfolding all
open_end_refused = refl

-- OP_LOADBOOL with 2 as its C skips the last instruction, and is accepted: the machine leaves the code.
abbrev hole : List ℕ
hole = 32770 ∷ 8388638 ∷ []

hole_accepted : checkcode (with_code hole) ≡ true
unfolding all
hole_accepted = refl

hole-Reaches : Reaches hole [] 2
unfolding all GoesOn
hole-Reaches = later entry (Flow.step op_loadbool refl refl)

symbexec-ne-fault_example : symbexec (with_code choice) 3 0 ≢ fault
symbexec-ne-fault_example = symbexec-ne-fault (with_code choice) 3 0 (omega arith)

choice_flags : HasFlags choice
unfolding HasFlags all
choice_flags zero e = omega arith
choice_flags (suc zero) e = absurd (omega arith)
choice_flags (suc (suc zero)) e = omega arith
choice_flags (suc (suc (suc zero))) e = absurd (omega arith)
choice_flags (suc (suc (suc (suc pc)))) e = absurd (omega arith)

choice-Reaches : Reaches choice [] 2
unfolding all GoesOn
choice-Reaches = later entry (Flow.step op_loadbool refl refl)

checkcode-Reaches_example : (2 < length choice) × IsVisited choice 2
unfolding children nups_of
checkcode-Reaches_example =
    checkcode-Reaches (with_code choice) 2 choice_accepted choice_flags choice-Reaches

-- The same function as a chunk.
abbrev chunk : List ℕ
chunk = (dump append_writer (with_code choice) [] false).1

chunk_block : stream (chunk ∷ []) ≡ chunk
unfolding all_dump stream
chunk_block = refl

chunk-IsLoadable : IsLoadable checkcode false (with_code choice) 200 none chunk_source
unfolding IsLoadable source_left source_got same_string all received shown_debug
chunk-IsLoadable = (omega arith, omega arith, refl, tt)

chunk-IsNamed : IsNamed (with_code choice)
unfolding IsNamed
chunk-IsNamed = (λ e. cc, tt)

chunk_loads :
    (z : Zio) × (undump checkcode 200 (init (chunk ∷ [])) ≡ ok (with_code choice) z)
    × (content z ≡ [])
chunk_loads =
    undump-dump_named checkcode 200 (with_code choice) (chunk ∷ []) chunk-IsLoadable chunk-IsNamed
      chunk_block

undump-Reaches_example : (2 < length choice) × IsVisited choice 2
unfolding children nups_of
undump-Reaches_example =
    undump-Reaches 200 (init (chunk ∷ [])) chunk_loads.0 (with_code choice) 2 chunk_loads.1
      choice_flags choice-Reaches
