-- ===== src/Spy/Cursor/Varint.antt =====
-- `readProtoVarint` and `decodePackedProtoVarints` of src/spy/cursor.ts.
pub mod RoundTrip
pub mod Progress
use rootcell.Prelude.{
  ℕ, zero, suc, ◌+◌, ◌-◌, ◌*◌, ◌/◌, ◌%◌, ◌^◌, Bool, true, false, ◌||◌, List, [], ◌∷◌, Option, none,
  some, ◌==◌, ltb, leb, if◌then◌else◌, length, get_elem?,
}
use Prim.Native.Nat.{bit_or}
use rootcell.Spy.Bytes.{Bytes}

-- `Number.MAX_SAFE_INTEGER`
abbrev pub max_safe_integer : ℕ
max_safe_integer = 9007199254740991

pub record VarintRead : Type 0 where
  pub value : ℕ
  pub next_offset : ℕ

-- The loop from `index` on, with `left` rounds left of ten, and its `result` so far.
unfoldable pub read_varint_from : ℕ → ℕ → ℕ → Bytes → ℕ → Option VarintRead
read_varint_from zero index result buffer offset = none
read_varint_from (suc left) index result buffer offset = elim (get_elem? buffer (offset + index)) [
  | none ↦ none
  | some byte ↦
      let next = bit_or result (byte % 128 * 2 ^ (7 * index)) in
      let rest = read_varint_from left (index + 1) next buffer offset in
      if byte / 128 % 2 == 0
      then some (record { value = next; next_offset = offset + index + 1 })
      else rest
]

unfoldable pub read_proto_varint : Bytes → ℕ → Option VarintRead
read_proto_varint buffer offset = read_varint_from 10 0 0 buffer offset

-- The loop of `decodePackedProtoVarints`. Each number has a byte, so the length is fuel enough.
unfoldable pub decode_packed_from : ℕ → Bytes → ℕ → Option (List ℕ)
decode_packed_from zero buffer offset = if ltb offset (length buffer) then none else some []
decode_packed_from (suc fuel) buffer offset =
    if ltb offset (length buffer)
    then elim (read_proto_varint buffer offset) [
      | none ↦ none
      | some read ↦
          let rest = decode_packed_from fuel buffer read.next_offset in
          if ltb max_safe_integer read.value
          then none
          else elim rest [ none ↦ none | some values ↦ some (read.value ∷ values) ]
    ]
    else some []

unfoldable pub decode_packed_proto_varints : Bytes → Option (List ℕ)
decode_packed_proto_varints buffer =
    if length buffer == 0 || ltb 10000 (length buffer)
    then none
    else decode_packed_from (length buffer) buffer 0
