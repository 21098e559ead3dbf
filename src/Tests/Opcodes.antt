-- ===== src/Tests/Opcodes.antt =====
-- Instructions (lua-5.1.5/src/lopcodes.h) at concrete values.
use unitu_lua_test.Base.{ℕ, ◌≡◌, refl, arith}
use unitu_lua_test.Base.Int.{negsuc}
use unitu_lua_test.Opcode.{
  get_opcode, set_opcode, getarg_a, setarg_a, getarg_b, setarg_b, getarg_c, setarg_c, getarg_sbx,
  setarg_sbx, create_abc,
}
use unitu_lua_test.Opcode.Fields.{
  IsWord, Fields, set_field-Fields, create_abc-Fields, getarg_sbx-setarg_sbx,
}

-- ADD 3 260 5, as an instruction
add_word : create_abc 12 3 260 5 ≡ 2181120204
unfolding create_abc
add_word = refl

create_abc-Fields_example :
    IsWord (create_abc 12 3 260 5) × Fields (create_abc 12 3 260 5) 12 3 260 5
create_abc-Fields_example =
    create_abc-Fields 12 3 260 5 (omega arith) (omega arith) (omega arith) (omega arith)

abbrev word : ℕ
word = 2181120204

set_field-Fields_example :
    (IsWord (set_opcode word 13)
      × Fields (set_opcode word 13) 13 (getarg_a word) (getarg_b word) (getarg_c word))
    × (IsWord (setarg_a word 7)
        × Fields (setarg_a word 7) (get_opcode word) 7 (getarg_b word) (getarg_c word))
    × (IsWord (setarg_b word 9)
        × Fields (setarg_b word 9) (get_opcode word) (getarg_a word) 9 (getarg_c word))
    × (IsWord (setarg_c word 11)
        × Fields (setarg_c word 11) (get_opcode word) (getarg_a word) (getarg_b word) 11)
set_field-Fields_example =
    set_field-Fields word 13 7 9 11 (omega arith) (omega arith) (omega arith) (omega arith)
      (omega arith)

getarg_sbx-setarg_sbx_example :
    (getarg_sbx (setarg_sbx 22 (negsuc 4)) ≡ negsuc 4)
    × (get_opcode (setarg_sbx 22 (negsuc 4)) ≡ get_opcode 22)
    × (getarg_a (setarg_sbx 22 (negsuc 4)) ≡ getarg_a 22)
getarg_sbx-setarg_sbx_example =
    getarg_sbx-setarg_sbx 22 (negsuc 4) (omega arith) (omega arith) (omega arith)
