-- ===== src/Lib.antt =====
-- The Lua 5.1.5 interpreter that this repository builds for Unity (lua-5.1.5/src).
--
-- The parts and their files:
--   Base      shared names: lists and Boolean tests on native numbers, integers, bits, texts.
--   Opcode    lua-5.1.5/src/lopcodes.h and lopcodes.c. A macro has its own name in small letters
--             (GETARG_A is getarg_a); an instruction is a number of 32 bits. Opcode/Modes has the
--             opcodes and the table luaP_opmodes.
--   Object    lua-5.1.5/src/lobject.c without the prefix luaO_: int2fb, fb2int, log2, chunkid, and the
--             macro ceillog2. Object/Value has the values of lobject.h, luaO_rawequalObj (rawequal) and
--             the conversions of numbers of luaconf.h, Object/Whole an int as a number and back.
--   Zio       lua-5.1.5/src/lzio.c and lzio.h without the prefix luaZ_: fill, lookahead, read, init,
--             and the macro zgetc. The reader of the caller is the list of blocks that it is going to
--             return.
--   Func      lua-5.1.5/src/lfunc.c: luaF_findupval is findupval, luaF_close is close, and so on, with
--             luaC_linkupval of lgc.c and the marks of lgc.h. Func/Open has the order of the list of
--             open upvalues, Func/Find the search in it, Func/Colour the marks, Func/Close and
--             Func/Values what closing does, Func/Names luaF_getlocalname, over the LocVar of Chunk.
--   Chunk     lua-5.1.5/src/ldump.c (Chunk/Dump) and lundump.c (Chunk/Load), with the type Proto of
--             lobject.h. DumpString is dump_string, LoadString is load_string, and so on; luaU_dump is
--             dump and luaU_undump is undump. Chunk/Encode states the format, Chunk/Feed compares the
--             dump with it, Chunk/Decodes, Parts and Function the load, which reads through Zio.
--   Table     lua-5.1.5/src/ltable.c and ltable.h. Here are numusearray and computesizes: Table/Slices
--             and Table/Use have what is counted, Table/Counts a round of the loop of computesizes,
--             Table/Sizes what it chooses. Table/Node has the nodes: luaH_getnum, luaH_getstr and
--             luaH_get without the prefix luaH_, and newkey without its call of rehash as insert,
--             Table/Access newkey and luaH_set, Table/Resize rehash (grow_at), resize and luaH_new,
--             Table/Border luaH_getn, Table/Next luaH_next. Table/Chained states the order of the
--             nodes; Settle, Link and Move have the three ways in which newkey keeps it, Keep the
--             values, Writes the nodes that change, Free getfreepos and Insert all of newkey. Positions
--             has the main positions, Ways and Find the searches, Store, Slot, Map and Assign the table
--             as a map, New the empty table, Room, Refill and Regrow resize, Border/Present and
--             Border/Found the boundary, Next/Walk and Next/Visits the traversal.
--   Debug     lua-5.1.5/src/ldebug.c: luaG_checkcode is checkcode and accepted, with symbexec, precheck
--             and checkArgMode (check_arg_mode). Debug/Outcome has the macro check, Debug/Flow the
--             moves of the machine (lvm.c) between instructions. Accepted code is what Chunk loads:
--             Debug/Loaded.
--   Lex       lua-5.1.5/src/llex.c: luaX_next is next_token, luaX_lookahead is lookahead_token, the
--             others keep their names. Lex/Scan has numerals, strings and long strings, Lex/Next
--             tokens; Lex/Ends, Lines, Rounds and Progress say how much of the input is taken,
--             Lex/Strings compares with Strlib.
--   Strlib    lua-5.1.5/src/lstrlib.c: addquoted, the format %q, and lmemfind, the search for a plain
--             text.
--   Code      lua-5.1.5/src/lcode.c: getjump, fixjump, need_value, patchtestreg, patchlistaux and
--             dischargejpc, and luaK_concat and others without the prefix luaK_. Code/Jumps has one
--             jump, Code/Lists the list that the jumps are threaded on, Code/Patch their targets,
--             Code/Here the jumps to the next instruction.
--   StringTable  lua-5.1.5/src/lstring.c: luaS_newlstr is luas_newlstr, luaS_resize is resize. Chains
--             has what a chain has, Resize the order of the table, Added and Intern the search for a
--             string and a new one.
--   Tests     runs of the code, and the theorems at concrete inputs.
--
-- Numbers. An unsigned int is a number below 2 ^ 32 and a size_t one below 2 ^ 64, with the wrap-around
-- written out; so is an int that luaO_fb2int shifts. Objects in memory are those of a machine of 64
-- bits, little-endian.
--
-- Fuel. int2fb takes 32 rounds, each of which halves an unsigned int, log2 takes 3, each of which takes
-- 8 bits off it, and read takes as many rounds as bytes are asked for. computesizes and numusearray
-- take 27 rounds, one for each entry of nums: computesizes ends by then where narray is the sum of
-- nums, and the loop of numusearray has no more. The fuel of load_function is the number of nested
-- calls of C functions that LUAI_MAXCCALLS still allows: where it ends, the program itself raises "code
-- too deep". symbexec takes as many rounds as there are instructions, the loops of the lexer one more
-- than there are characters, and lmemfind one more than there are places to try; all of these are
-- proved to be enough. A search over the nodes of a table has as many rounds as there are nodes, the
-- linear search of unbound_search one more than the table has places, and its doubling 32; they are
-- proved to be enough. rehash may call itself through luaH_set: grow_at has the depth as a parameter. A
-- loop over a list of jumps has as many rounds as there are instructions, and one more where it visits
-- the end of the list; the theorems take a list of at most as many jumps. The hash of a string takes
-- one round more than it has bytes; StringTable/Hash proves that more change nothing.
--
-- Not modelled. Allocation does not fail. The load of a chunk has luaG_checkcode as a parameter, which
-- Debug/Loaded fills. The lexer has luaO_str2d as a parameter, as it rests on strtod of the C library;
-- its characters are of the locale "C", and the text of its messages is left out. A table has no
-- metatable and no write barrier here; of rehash there are runs; that the sizes which it chooses are
-- enough, and that the elements of an array part that gets smaller are kept, is not proved. The garbage
-- collector, of which Func has the marks of an upvalue and the calls of the write barrier, the parser
-- and the rest of the code generator, the virtual machine, the API, the other libraries of the language
-- and the C# bindings have no model.
pub mod Base
pub mod Opcode
pub mod Object
pub mod Zio
pub mod Debug
pub mod Lex
pub mod Code
pub mod Strlib
pub mod StringTable
pub mod Func
pub mod Chunk
pub mod Table
mod Tests
