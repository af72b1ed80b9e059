-- ===== src/Spy/EventStream/Frames.antt =====
-- The layout of a message of the event stream, and that `decode_message` reads it back.
use mathlib.Core.List.{append_assoc}
use rootcell.Prelude.{
  ℕ, ◌+◌, ◌-◌, ◌^◌, ◌≤◌, ◌<◌, ◌≡◌, refl, sym, ap, ◌∙◌, List, ◌++◌, arith, length, take, drop,
  length-append, take-append_length, drop-append_length, ok, length-drop, ==_refl,
}
use rootcell.Spy.Bytes.{
  Bytes, read_u32_be, subarray, u32_be, u32_bytes, u32_be-u32_bytes, drop-drop,
}
use rootcell.Spy.EventStream.{decode_message}
use rootcell.Spy.EventStream.Crc.{crc32}
use rootcell.Spy.EventStream.Headers.{Header, decode_headers}

pub record Frame : Type 0 where
  pub headers : Bytes
  pub payload : Bytes

-- The length of a message: prelude, checksum of the prelude, headers, payload, checksum.
abbrev pub total_length : Frame → ℕ
total_length f = length f.headers + length f.payload + 16

abbrev pub prelude : Frame → Bytes
prelude f = u32_bytes (total_length f) ++ u32_bytes (length f.headers)

-- What the last checksum covers.
abbrev pub covered : Frame → Bytes
covered f = prelude f ++ (u32_bytes (crc32 (prelude f)) ++ (f.headers ++ f.payload))

unfoldable pub frame_bytes : Frame → Bytes
frame_bytes f = covered f ++ u32_bytes (crc32 (covered f))

length-u32_bytes : (n : ℕ) → length (u32_bytes n) ≡ 4
unfolding u32_bytes
length-u32_bytes n = refl

pub length-covered : (f : Frame) → length (covered f) + 4 ≡ total_length f
length-covered f = omega (
  arith,
  length-append (prelude f) (u32_bytes (crc32 (prelude f)) ++ (f.headers ++ f.payload)),
  length-append (u32_bytes (total_length f)) (u32_bytes (length f.headers)),
  length-append (u32_bytes (crc32 (prelude f))) (f.headers ++ f.payload),
  length-append f.headers f.payload,
  length-u32_bytes (total_length f),
  length-u32_bytes (length f.headers),
  length-u32_bytes (crc32 (prelude f)),
)

pub length-frame_bytes : (f : Frame) → length (frame_bytes f) ≡ total_length f
unfolding frame_bytes
length-frame_bytes f = omega (
  arith,
  length-append (covered f) (u32_bytes (crc32 (covered f))),
  length-u32_bytes (crc32 (covered f)),
  length-covered f,
)

-- Reads at an offset are reads of what stands there.
pub read_at :
    (buffer : Bytes) (offset k : ℕ)
    → read_u32_be buffer (offset + k) ≡ u32_be (drop k (drop offset buffer))
read_at buffer offset k = ap u32_be (sym (drop-drop offset k buffer))

pub subarray_at :
    (buffer : Bytes) (offset a b : ℕ)
    → subarray buffer (offset + a) (offset + b) ≡ take (b - a) (drop a (drop offset buffer))
subarray_at buffer offset a b =
    let e : offset + b - (offset + a) ≡ b - a = omega arith in
    ap (λ k. take k (drop (offset + a) buffer)) e
    ∙ ap (take (b - a)) (sym (drop-drop offset a buffer))

drop-covered :
    (f : Frame) (rest : Bytes)
    → drop (length (covered f)) (frame_bytes f ++ rest) ≡ u32_bytes (crc32 (covered f)) ++ rest
unfolding frame_bytes
drop-covered f rest =
    ap (drop (length (covered f))) (append_assoc (covered f) _ rest)
    ∙ drop-append_length (covered f) _

take-covered :
    (f : Frame) (rest : Bytes) → take (length (covered f)) (frame_bytes f ++ rest) ≡ covered f
unfolding frame_bytes
take-covered f rest =
    ap (take (length (covered f))) (append_assoc (covered f) _ rest)
    ∙ take-append_length (covered f) _

-- A message, as its parts.
frame_parts :
    (f : Frame) (rest : Bytes)
    → frame_bytes f ++ rest
      ≡ u32_bytes (total_length f)
        ++ (u32_bytes (length f.headers)
            ++ (u32_bytes (crc32 (prelude f))
                ++ (f.headers ++ (f.payload ++ (u32_bytes (crc32 (covered f)) ++ rest)))))
unfolding frame_bytes
frame_parts f rest = simp append_assoc

module _ (buffer : Bytes) (offset : ℕ) (f : Frame) (rest : Bytes)
    (there : drop offset buffer ≡ frame_bytes f ++ rest) (fits : total_length f < 2 ^ 32)
    (prelude_fits : crc32 (prelude f) < 2 ^ 32) (covered_fits : crc32 (covered f) < 2 ^ 32) where
  abbrev tail_parts : Bytes
  tail_parts = f.headers ++ (f.payload ++ (u32_bytes (crc32 (covered f)) ++ rest))

  parts :
      drop offset buffer
      ≡ u32_bytes (total_length f)
        ++ (u32_bytes (length f.headers) ++ (u32_bytes (crc32 (prelude f)) ++ tail_parts))
  parts = there ∙ frame_parts f rest

  enough : total_length f ≤ length buffer - offset
  enough = omega (
    arith,
    length-drop offset buffer,
    ap (λ x. length x) there,
    length-append (frame_bytes f) rest,
    length-frame_bytes f,
  )

  read_total : read_u32_be buffer offset ≡ total_length f
  read_total = rw parts (u32_be-u32_bytes (total_length f) _ fits)

  read_headers_length : read_u32_be buffer (offset + 4) ≡ length f.headers
  unfolding u32_bytes
  read_headers_length =
      read_at buffer offset 4
      ∙ ap (λ x. u32_be (drop 4 x)) parts
      ∙ u32_be-u32_bytes (length f.headers) _ (omega arith)

  read_prelude_crc : read_u32_be buffer (offset + 8) ≡ crc32 (prelude f)
  unfolding u32_bytes
  read_prelude_crc =
      read_at buffer offset 8
      ∙ ap (λ x. u32_be (drop 8 x)) parts
      ∙ u32_be-u32_bytes (crc32 (prelude f)) _ prelude_fits

  the_prelude : subarray buffer offset (offset + 8) ≡ prelude f
  unfolding u32_bytes
  the_prelude =
      let e : offset + 8 - offset ≡ 8 = omega arith in
      ap (λ k. take k (drop offset buffer)) e ∙ ap (take 8) parts

  the_covered : subarray buffer offset (offset + total_length f - 4) ≡ covered f
  the_covered =
      let e : offset + total_length f - 4 - offset ≡ length (covered f) =
        omega (arith, length-covered f) in
      ap (λ k. take k (drop offset buffer)) e
      ∙ ap (take (length (covered f))) there
      ∙ take-covered f rest

  read_message_crc : read_u32_be buffer (offset + total_length f - 4) ≡ crc32 (covered f)
  read_message_crc =
      let e : offset + total_length f - 4 ≡ offset + length (covered f) =
        omega (arith, length-covered f) in
      ap (read_u32_be buffer) e
      ∙ read_at buffer offset (length (covered f))
      ∙ ap (λ x. u32_be (drop (length (covered f)) x)) there
      ∙ ap u32_be (drop-covered f rest)
      ∙ u32_be-u32_bytes (crc32 (covered f)) _ covered_fits

  drop_twelve : drop 12 (drop offset buffer) ≡ tail_parts
  unfolding u32_bytes
  drop_twelve = ap (drop 12) parts

  the_headers : subarray buffer (offset + 12) (offset + 12 + length f.headers) ≡ f.headers
  the_headers =
      let e : offset + 12 + length f.headers - (offset + 12) ≡ length f.headers = omega arith in
      ap (λ k. take k (drop (offset + 12) buffer)) e
      ∙ ap (take (length f.headers)) (sym (drop-drop offset 12 buffer) ∙ drop_twelve)
      ∙ take-append_length f.headers _

  the_payload :
      subarray buffer (offset + 12 + length f.headers) (offset + total_length f - 4) ≡ f.payload
  the_payload =
      let e : offset + total_length f - 4 - (offset + 12 + length f.headers) ≡ length f.payload =
        omega arith in
      ap (λ k. take k (drop (offset + 12 + length f.headers) buffer)) e
      ∙ ap (take (length f.payload)) (
          sym (drop-drop (offset + 12) (length f.headers) buffer)
          ∙ ap (drop (length f.headers)) (sym (drop-drop offset 12 buffer) ∙ drop_twelve)
          ∙ drop-append_length f.headers _)
      ∙ take-append_length f.payload _

  -- A message that stands in the input is decoded to its headers and its payload.
  pub decode_message_of_frame :
      (headers : List Header)
      → decode_headers f.headers ≡ ok headers
      → decode_message buffer offset
        ≡ ok (record { headers = headers; payload = f.payload }, offset + total_length f)
  unfolding decode_message
  decode_message_of_frame headers h =
      rw
        (
          read_total, read_headers_length, read_prelude_crc, the_prelude, the_covered,
          read_message_crc, the_headers, the_payload, h,
        )
        (ground (arith, enough, ==_refl (crc32 (prelude f)), ==_refl (crc32 (covered f))))
