-- ===== src/Spy/Cursor/Varint/Progress.antt =====
-- Reading a varint moves on, so the loops over varints end within their fuel.
use rootcell.Prelude.{
  ℕ, zero, suc, ◌+◌, ◌*◌, ◌/◌, ◌%◌, ◌^◌, ◌≤◌, ◌<◌, ◌≡◌, refl, false, [], ◌∷◌, some, ◌==◌, ltb,
  length, get_elem?, arith, Option-cases, Bool-cases, inl, inr,
}
use Prim.Native.Nat.{bit_or}
use rootcell.Spy.Bytes.{Bytes}
use rootcell.Spy.Cursor.Varint.{VarintRead, read_varint_from, read_proto_varint, decode_packed_from}

get_elem?-lt_length : (xs : Bytes) (i : ℕ) {x : ℕ} → get_elem? xs i ≡ some x → i < length xs
get_elem?-lt_length [] i h = absurd (cc)
get_elem?-lt_length (x ∷ xs) zero h = omega arith
get_elem?-lt_length (x ∷ xs) (suc i) h = omega (arith, get_elem?-lt_length xs i h)

read_varint_from-progress :
    (left index result : ℕ) (buffer : Bytes) (offset : ℕ) (r : VarintRead)
    → read_varint_from left index result buffer offset ≡ some r
    → (offset + index < r.next_offset) × (r.next_offset ≤ length buffer)
unfolding read_varint_from
read_varint_from-progress zero index result buffer offset r h = absurd (cc)
read_varint_from-progress (suc left) index result buffer offset r h =
    elim (Option-cases (get_elem? buffer (offset + index))) [
      | inl nothing ↦ absurd (cc (rw (nothing, read_varint_from) at h))
      | inr (byte, there) ↦
          let here = get_elem?-lt_length buffer (offset + index) there in
          elim (Bool-cases (byte / 128 % 2 == 0)) [
            | inl last ↦
                let e = rw (there, last, read_varint_from) at h in
                let next : r.next_offset ≡ offset + index + 1 = cc in (omega arith, omega arith)
            | inr more ↦
                let (a, b) =
                  read_varint_from-progress left (index + 1)
                    (bit_or result (byte % 128 * 2 ^ (7 * index))) buffer offset r
                    (rw (there, more, read_varint_from) at h) in
                (omega arith, b)
          ]
    ]

pub read_proto_varint-progress :
    (buffer : Bytes) (offset : ℕ) (r : VarintRead)
    → read_proto_varint buffer offset ≡ some r
    → (offset < r.next_offset) × (r.next_offset ≤ length buffer)
unfolding read_proto_varint
read_proto_varint-progress buffer offset r h =
    let (a, b) = read_varint_from-progress 10 0 0 buffer offset r h in (omega arith, b)

-- With fuel for each byte that is left, the decoding of packed numbers does not depend on the fuel.
decode_packed_from-fuel :
    (fuel other : ℕ) (buffer : Bytes) (offset : ℕ)
    → length buffer ≤ offset + fuel
    → length buffer ≤ offset + other
    → decode_packed_from fuel buffer offset ≡ decode_packed_from other buffer offset
unfolding decode_packed_from
decode_packed_from-fuel zero zero buffer offset h k = refl
decode_packed_from-fuel zero (suc other) buffer offset h k =
    let over : ltb offset (length buffer) ≡ false = ground arith in
    rw (over, decode_packed_from) refl
decode_packed_from-fuel (suc fuel) zero buffer offset h k =
    let over : ltb offset (length buffer) ≡ false = ground arith in
    rw (over, decode_packed_from) refl
decode_packed_from-fuel (suc fuel) (suc other) buffer offset h k =
    elim (Option-cases (read_proto_varint buffer offset)) [
      | inl nothing ↦ rw (nothing, decode_packed_from) refl
      | inr (r, e) ↦
          let (ahead, _) = read_proto_varint-progress buffer offset r e in
          let later =
            decode_packed_from-fuel fuel other buffer r.next_offset (omega arith) (omega arith) in
          rw (decode_packed_from, e, later) refl
    ]
