-- ===== src/Link/Crc.antt =====
-- crates/tpt-t-link/src/crc.rs: the CRC that ends a datagram, and the tag of a command.
use tpt_teleop.Prelude.{
  ℕ, zero, suc, ◌-◌, ◌/◌, ◌%◌, ◌≡◌, refl, bit_xor, List, [], ◌∷◌, ◌==◌, if◌then◌else◌,
}
use tpt_teleop.Prelude.Words.{u32_mod}
use tpt_teleop.Core.Ser.{ControlCommand, command_bytes}

-- `k` rounds of the inner loop of `build_table`.
unfoldable pub table_bits : ℕ → ℕ → ℕ
table_bits zero c = c
table_bits (suc k) c = table_bits k (if c % 2 == 0 then c / 2 else bit_xor 3988292384 (c / 2))

-- An entry of the table.
unfoldable pub table : ℕ → ℕ
unfolding table_bits
table i = table_bits 8 i

unfoldable pub crc_from : List ℕ → ℕ → ℕ
unfolding table
crc_from [] c = c
crc_from (b ∷ bs) c = crc_from bs (bit_xor (table (bit_xor c b % 256)) (c / 256))

unfoldable pub crc32 : List ℕ → ℕ
unfolding crc_from
crc32 bytes = u32_mod - 1 - crc_from bytes (u32_mod - 1)

-- The tag of a command: the CRC of its image without the tag.
unfoldable pub command_crc : ControlCommand → ℕ
command_crc c = crc32 (command_bytes (record c { crc = 0 }))

-- The check value of the standard, over the digits 1 to 9.
check_value : crc32 (49 ∷ 50 ∷ 51 ∷ 52 ∷ 53 ∷ 54 ∷ 55 ∷ 56 ∷ 57 ∷ []) ≡ 3421780262
unfolding crc32 crc_from table table_bits
check_value = refl
