-- ===== src/Spy/Cursor/Proto/Fuel.antt =====
-- The loop over the fields of a protobuf message ends within its fuel.
use rootcell.Prelude.{
  ℕ, zero, suc, ◌+◌, ◌≤◌, ◌<◌, ◌≡◌, refl, false, some, ltb, length, Text, arith, Option-cases, inl,
  inr,
}
use rootcell.Spy.Bytes.{Bytes}
use rootcell.Spy.Cursor.Varint.{read_proto_varint}
use rootcell.Spy.Cursor.Varint.Progress.{read_proto_varint-progress}
use rootcell.Spy.Cursor.Proto.{ProtoMessage, read_key, decode_fields_from}

read_key-progress :
    (buffer : Bytes) (offset number wire_type start : ℕ)
    → read_key buffer offset ≡ some (number, wire_type, start)
    → offset < start
unfolding read_key
read_key-progress buffer offset number wire_type start h =
    elim (Option-cases (read_proto_varint buffer offset)) [
      | inl nothing ↦ absurd (cc (rw (nothing, read_key) at h))
      | inr (key, e) ↦
          ground (arith, rw (e, read_key) at h, read_proto_varint-progress buffer offset key e)
    ]

module _ (utf8 : Bytes → Text) (sha256 : Bytes → Text) (nested : Bytes → Text → ProtoMessage)
    (buffer : Bytes) (path : Text) where
  -- With fuel for each byte that is left, the fields that are decoded do not depend on the fuel.
  pub decode_fields_from-fuel :
      (fuel other offset count : ℕ)
      → length buffer ≤ offset + fuel
      → length buffer ≤ offset + other
      → decode_fields_from utf8 sha256 nested fuel buffer path offset count
        ≡ decode_fields_from utf8 sha256 nested other buffer path offset count
  unfolding decode_fields_from
  decode_fields_from-fuel zero zero offset count h k = refl
  decode_fields_from-fuel zero (suc other) offset count h k =
      let over : ltb offset (length buffer) ≡ false = ground arith in
      rw (over, decode_fields_from) refl
  decode_fields_from-fuel (suc fuel) zero offset count h k =
      let over : ltb offset (length buffer) ≡ false = ground arith in
      rw (over, decode_fields_from) refl
  decode_fields_from-fuel (suc fuel) (suc other) offset count h k =
      elim (Option-cases (read_key buffer offset)) [
        | inl nothing ↦ rw (decode_fields_from, nothing) refl
        | inr ((number, wire_type, start), e) ↦
            let ahead = read_key-progress buffer offset number wire_type start e in
            let fixed_8 =
              decode_fields_from-fuel fuel other (start + 8) (count + 1) (omega arith)
                (omega arith) in
            let fixed_4 =
              decode_fields_from-fuel fuel other (start + 4) (count + 1) (omega arith)
                (omega arith) in
            elim (Option-cases (read_proto_varint buffer start)) [
              | inl nothing ↦ rw (decode_fields_from, e, nothing, fixed_8, fixed_4) refl
              | inr (v, read) ↦
                  let (behind, _) = read_proto_varint-progress buffer start v read in
                  let number_next =
                    decode_fields_from-fuel fuel other v.next_offset (count + 1) (omega arith)
                      (omega arith) in
                  let bytes_next =
                    decode_fields_from-fuel fuel other (v.next_offset + v.value) (count + 1)
                      (omega arith) (omega arith) in
                  rw (decode_fields_from, e, read, fixed_8, fixed_4, number_next, bytes_next) refl
            ]
      ]
