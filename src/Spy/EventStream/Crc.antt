-- ===== src/Spy/EventStream/Crc.antt =====
-- The table-driven `crc32` of src/spy/eventstream.ts, and the bitwise CRC-32 that it computes.
-- The values of JavaScript's signed 32-bit operators are written as the unsigned numbers of the
-- same bits.
pub mod Bitwise
use Prim.Native.Nat.{bit_xor}
use rootcell.Prelude.{
  ℕ, zero, suc, ◌+◌, ◌*◌, ◌/◌, ◌%◌, List, [], ◌∷◌, Option, none, some, ◌==◌, if◌then◌else◌,
  get_elem?,
}
use rootcell.Spy.Bytes.{Bytes}

-- `(value & 1) === 1 ? 0xEDB88320 ^ (value >>> 1) : value >>> 1`
unfoldable pub crc_round : ℕ → ℕ
crc_round value = if value % 2 == 1 then bit_xor 0xEDB88320 (value / 2) else value / 2

-- The inner loop of the table.
unfoldable pub crc_rounds : ℕ → ℕ → ℕ
unfolding crc_round
crc_rounds zero value = value
crc_rounds (suc bits) value = crc_rounds bits (crc_round value)

unfoldable pub crc_table_from : ℕ → ℕ → List ℕ
unfolding crc_rounds
crc_table_from zero index = []
crc_table_from (suc count) index = crc_rounds 8 index ∷ crc_table_from count (index + 1)

-- `CRC32_TABLE`
unfoldable pub crc32_table : List ℕ
unfolding crc_table_from
crc32_table = crc_table_from 256 0

unfoldable pub table_at : ℕ → ℕ
unfolding crc32_table
table_at index = elim (get_elem? crc32_table index) [ none ↦ 0 | some entry ↦ entry ]

-- The loop over the bytes.
unfoldable pub crc32_from : ℕ → Bytes → ℕ
unfolding table_at
crc32_from crc [] = crc
crc32_from crc (byte ∷ bytes) =
    crc32_from (bit_xor (table_at (bit_xor crc byte % 256)) (crc / 256)) bytes

unfoldable pub crc32 : Bytes → ℕ
unfolding crc32_from
crc32 bytes = bit_xor (crc32_from 0xFFFFFFFF bytes) 0xFFFFFFFF
