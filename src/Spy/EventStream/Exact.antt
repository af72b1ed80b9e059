-- ===== src/Spy/EventStream/Exact.antt =====
-- The inputs that `decodeAwsEventStream` accepts are exactly the sequences of messages.
pub mod Whole
use mathlib.Core.List.{append_assoc}
use rootcell.Prelude.{
  ℕ, zero, suc, ◌+◌, ◌-◌, ◌^◌, ◌≤◌, ◌<◌, ◌≡◌, refl, sym, ap, ap₂, ◌∙◌, Bool, true, false, not, List,
  [], ◌∷◌, ◌++◌, arith, ◌==◌, ltb, leb, if◌then◌else◌, length, take, drop, length-append,
  length-take, take-append-drop, Result, ok, err, throw_if, ◌>>=◌, ◌>>◌, length-drop, ==_iff,
  throw_if-eq-ok, >>=-eq-ok, All,
}
use rootcell.Spy.Bytes.{
  Bytes, IsByte, read_u32_be, subarray, u32_be, u32_bytes, u32_bytes-u32_be, u32_be_bound,
  drop-drop, All-drop, All-take,
}
use rootcell.Spy.EventStream.{AwsEventStreamMessage, decode_message}
use rootcell.Spy.EventStream.Crc.{crc32}
use rootcell.Spy.EventStream.Headers.{Header, DecodeError, decode_headers}
use rootcell.Spy.EventStream.Frames.{
  Frame, total_length, prelude, covered, frame_bytes, read_at, subarray_at,
}

-- What the tests of `decode_message` establish.
pub record Passes (buffer : Bytes) (offset : ℕ) (message : AwsEventStreamMessage) (end : ℕ)
    : Type 0 where
  pub total : ℕ
  pub size : ℕ
  pub total_read : read_u32_be buffer offset ≡ total
  pub size_read : read_u32_be buffer (offset + 4) ≡ size
  pub starts : 16 ≤ length buffer - offset
  pub long : 16 ≤ total
  pub inside : offset + total ≤ length buffer
  pub prelude_crc : crc32 (subarray buffer offset (offset + 8)) ≡ read_u32_be buffer (offset + 8)
  pub message_crc :
      crc32 (subarray buffer offset (offset + total - 4)) ≡ read_u32_be buffer (offset + total - 4)
  pub headers_fit : offset + 12 + size ≤ offset + total - 4
  pub headers_read :
      decode_headers (subarray buffer (offset + 12) (offset + 12 + size)) ≡ ok message.headers
  pub payload_read : message.payload ≡ subarray buffer (offset + 12 + size) (offset + total - 4)
  pub end_read : end ≡ offset + total

decode_message-Passes :
    (buffer : Bytes) (offset : ℕ) {message : AwsEventStreamMessage} {end : ℕ}
    → decode_message buffer offset ≡ ok (message, end)
    → Passes buffer offset message end
unfolding decode_message
decode_message-Passes buffer offset {message} {end} h = record {
  total = read_u32_be buffer offset;
  size = read_u32_be buffer (offset + 4);
  total_read = refl;
  size_read = refl;
  starts = ground arith;
  long = ground arith;
  inside = ground arith;
  prelude_crc = ground arith;
  message_crc = ground arith;
  headers_fit = ground arith;
  headers_read = ground arith;
  payload_read = ground arith;
  end_read = ground arith;
}

-- A list cut at a place, and what is left cut again.
cut : (n : ℕ) (xs : Bytes) → xs ≡ take n xs ++ drop n xs
cut n xs = sym (take-append-drop n xs)

take-nil : (n : ℕ) → take {A = ℕ} n [] ≡ []
take-nil zero = refl
take-nil (suc n) = refl

take_plus : (m n : ℕ) (xs : Bytes) → take (m + n) xs ≡ take m xs ++ take n (drop m xs)
take_plus zero n xs = ap (λ k. take k xs) (omega arith)
take_plus (suc m) n [] = take-nil (suc m + n) ∙ sym (take-nil n)
take_plus (suc m) n (x ∷ xs) =
    let e : suc m + n ≡ suc (m + n) = omega arith in
    ap (λ k. take k (x ∷ xs)) e ∙ ap (λ r. x ∷ r) (take_plus m n xs)

module _ (buffer : Bytes) (offset : ℕ) (message : AwsEventStreamMessage) (end : ℕ)
    (all_bytes : All IsByte buffer) (p : Passes buffer offset message end) where
  abbrev there : Bytes
  there = drop offset buffer

  abbrev the_frame : Frame
  the_frame = record {
    headers = subarray buffer (offset + 12) (offset + 12 + p.size);
    payload = message.payload;
  }

  length-there : length there ≡ length buffer - offset
  length-there = length-drop offset buffer

  headers_at : subarray buffer (offset + 12) (offset + 12 + p.size) ≡ take p.size (drop 12 there)
  headers_at =
      let e : offset + 12 + p.size - (offset + 12) ≡ p.size = omega arith in
      ap (λ k. take k (drop (offset + 12) buffer)) e
      ∙ ap (take p.size) (sym (drop-drop offset 12 buffer))

  payload_at : message.payload ≡ take (p.total - 16 - p.size) (drop (12 + p.size) there)
  payload_at =
      let e : offset + p.total - 4 - (offset + 12 + p.size) ≡ p.total - 16 - p.size = omega arith in
      p.payload_read
      ∙ ap (λ k. take k (drop (offset + 12 + p.size) buffer)) e
      ∙ ap (λ r. take (p.total - 16 - p.size) r)
          (ap (λ k. drop k buffer) (omega arith) ∙ sym (drop-drop offset (12 + p.size) buffer))

  length_headers : length (subarray buffer (offset + 12) (offset + 12 + p.size)) ≡ p.size
  length_headers = omega (
    arith,
    p.inside,
    p.headers_fit,
    p.long,
    p.starts,
    length-there,
    ap (λ x. length x) headers_at,
    length-take p.size (drop 12 there),
    length-drop 12 there,
  )

  length_payload : length message.payload + 16 + p.size ≡ p.total
  length_payload = omega (
    arith,
    p.inside,
    p.headers_fit,
    p.long,
    p.starts,
    length-there,
    ap (λ x. length x) payload_at,
    length-take (p.total - 16 - p.size) (drop (12 + p.size) there),
    length-drop (12 + p.size) there,
  )

  total_is : total_length the_frame ≡ p.total
  total_is = omega (arith, length_headers, length_payload)

  length_total : p.total ≤ length there
  length_total = omega (arith, p.inside, p.long, p.starts, length-there)

  bytes_at : (k : ℕ) → All IsByte (drop k there)
  bytes_at k = All-drop IsByte k there (All-drop IsByte offset buffer all_bytes)

  -- Four bytes that are read as a number are the bytes of that number.
  four_at :
      (k n : ℕ) → k + 4 ≤ p.total → u32_be (drop k there) ≡ n → take 4 (drop k there) ≡ u32_bytes n
  four_at k n fits e =
      sym (
        u32_bytes-u32_be (drop k there) (bytes_at k)
          (omega (arith, length-drop k there, length_total)))
      ∙ ap u32_bytes e

  prelude_is : take 8 there ≡ prelude the_frame
  prelude_is =
      let first =
        four_at 0 (total_length the_frame) (omega (arith, p.long)) (p.total_read ∙ sym total_is) in
      let second =
        four_at 4 (length the_frame.headers) (omega (arith, p.long))
          (sym (read_at buffer offset 4) ∙ p.size_read ∙ sym length_headers) in
      take_plus 4 4 there ∙ ap₂ (λ a b. a ++ b) first second

  prelude_crc_at : take 4 (drop 8 there) ≡ u32_bytes (crc32 (prelude the_frame))
  prelude_crc_at =
      let e : offset + 8 - offset ≡ 8 = omega arith in
      four_at 8 _ (omega (arith, p.long)) (
        sym (read_at buffer offset 8)
        ∙ sym p.prelude_crc
        ∙ ap crc32 (ap (λ k. take k there) e ∙ prelude_is))

  covered_is : take (p.total - 4) there ≡ covered the_frame
  covered_is =
      let e : p.total - 4 ≡ 8 + (4 + (p.size + (p.total - 16 - p.size))) =
        omega (arith, p.long, length_payload) in
      ap (λ k. take k there) e
      ∙ take_plus 8 (4 + (p.size + (p.total - 16 - p.size))) there
      ∙ ap₂ (λ a b. a ++ b) prelude_is
          (take_plus 4 (p.size + (p.total - 16 - p.size)) (drop 8 there)
            ∙ ap₂ (λ a b. a ++ b) prelude_crc_at
                (ap (take (p.size + (p.total - 16 - p.size))) (drop-drop 8 4 there)
                  ∙ take_plus p.size (p.total - 16 - p.size) (drop 12 there)
                  ∙ ap₂ (λ a b. a ++ b) (sym headers_at)
                      (ap (take (p.total - 16 - p.size)) (drop-drop 12 p.size there)
                        ∙ sym payload_at)))

  message_crc_at : take 4 (drop (p.total - 4) there) ≡ u32_bytes (crc32 (covered the_frame))
  message_crc_at =
      let e : offset + p.total - 4 - offset ≡ p.total - 4 = omega arith in
      let e' : offset + p.total - 4 ≡ offset + (p.total - 4) = omega (arith, p.long) in
      four_at (p.total - 4) _ (omega (arith, p.long)) (
        sym (read_at buffer offset (p.total - 4))
        ∙ ap (read_u32_be buffer) (sym e')
        ∙ sym p.message_crc
        ∙ ap crc32 (ap (λ k. take k there) e ∙ covered_is))

  -- The input at the offset is the message's layout, followed by what stands behind the message.
  pub frame_stands : there ≡ frame_bytes the_frame ++ drop end buffer
  unfolding frame_bytes
  frame_stands =
      let e : p.total ≡ p.total - 4 + 4 = omega (arith, p.long) in
      cut p.total there
      ∙ ap₂ (λ a b. a ++ b)
          (ap (λ k. take k there) e
            ∙ take_plus (p.total - 4) 4 there
            ∙ ap₂ (λ a b. a ++ b) covered_is message_crc_at)
          (drop-drop offset p.total buffer ∙ ap (λ k. drop k buffer) (sym p.end_read))
