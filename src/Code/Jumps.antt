-- ===== src/Code/Jumps.antt =====
-- A jump that `fixjump` (lua-5.1.5/src/lcode.c) has set goes where it should.
use unitu_lua_test.Base.{
  ℕ, ◌+◌, ◌<◌, ◌≡◌, ◌≢◌, refl, arith, ltb, false, List, length, set, get_or-set_self, get_or-set_ne,
}
use unitu_lua_test.Base.Int.{ℤ, pos, negsuc, ◌+ℤ◌, ◌-ℤ◌, ◌≤ℤ◌}
use unitu_lua_test.Debug.{jump_dest}
use unitu_lua_test.Opcode.{setarg_sbx, maxarg_sbx}
use unitu_lua_test.Opcode.Fields.{IsWord, getarg_sbx-setarg_sbx}
use unitu_lua_test.Code.{ok, is_no_jump, abs, instruction_at, fixjump, getjump}

-- Every instruction has 32 bits.
abbrev pub AreWords : List ℕ → Type 0
AreWords code = (p : ℕ) → IsWord (instruction_at code p)

-- The offset of a jump to `d`, added again
pub offset-jump : (d pc : ℕ) → pos (pc + 1) +ℤ (pos d -ℤ pos (pc + 1)) ≡ pos d
unfolding ◌+ℤ◌ ◌-ℤ◌
offset-jump d pc = ground arith

pub offset-in_range :
    (b : ℤ) → ltb maxarg_sbx (abs b) ≡ false → (negsuc 131070 ≤ℤ b) × (b ≤ℤ pos 131072)
offset-in_range (pos n) h = ground arith
offset-in_range (negsuc n) h = ground arith

-- Only the jump to itself has the offset that ends a list.
offset-no_jump : (d pc : ℕ) → d ≢ pc → is_no_jump (pos d -ℤ pos (pc + 1)) ≡ false
unfolding ◌-ℤ◌
offset-no_jump d pc h = ground arith

-- What `fixjump` gives
pub fixjump_ok :
    (code : List ℕ) (pc : ℕ) (dest : ℤ)
    → ltb maxarg_sbx (abs (dest -ℤ pos (pc + 1))) ≡ false
    → fixjump code pc dest
      ≡ ok (set code pc (setarg_sbx (instruction_at code pc) (dest -ℤ pos (pc + 1))))
unfolding fixjump
fixjump_ok code pc dest h = rw h refl

-- The code behind `fixjump`
abbrev pub fixed : List ℕ → ℕ → ℕ → List ℕ
fixed code pc d = set code pc (setarg_sbx (instruction_at code pc) (pos d -ℤ pos (pc + 1)))

pub getjump-fixed :
    (code : List ℕ) (pc d : ℕ)
    → AreWords code
    → pc < length code
    → d ≢ pc
    → ltb maxarg_sbx (abs (pos d -ℤ pos (pc + 1))) ≡ false
    → getjump (fixed code pc d) pc ≡ pos d
unfolding getjump jump_dest
getjump-fixed code pc d words lt ne near =
    let offset = pos d -ℤ pos (pc + 1) in
    let (lo, hi) = offset-in_range offset near in
    let (read, _, _) = getarg_sbx-setarg_sbx (instruction_at code pc) offset (words pc) lo hi in
    rw
      (
        get_or-set_self code pc (setarg_sbx (instruction_at code pc) offset) 0 lt,
        read,
        offset-no_jump d pc ne,
      )
      (offset-jump d pc)

pub getjump-fixed_ne :
    (code : List ℕ) (pc p d : ℕ) → pc ≢ p → getjump (fixed code pc d) p ≡ getjump code p
unfolding getjump
getjump-fixed_ne code pc p d ne =
    rw (get_or-set_ne code pc p (setarg_sbx (instruction_at code pc) (pos d -ℤ pos (pc + 1))) 0 ne)
      refl
