-- ===== src/Spy/EventStream/Exact/Whole.antt =====
-- `decodeAwsEventStream` against the description of its inputs as sequences of messages.
use rootcell.Prelude.{
  ℕ, zero, suc, ◌+◌, ◌^◌, ◌≤◌, ◌<◌, ◌≡◌, ◌↔◌, refl, sym, ap, ap₂, ◌∙◌, true, false, List, [], ◌∷◌,
  ◌++◌, arith, ltb, length, drop, length-append, length-drop, drop-append_length, subst, Result, ok,
  >>=-eq-ok, All, Bool-cases, inl, inr,
}
use rootcell.Spy.Bytes.{Bytes, IsByte, u32_be_bound, All-drop, drop-drop}
use rootcell.Spy.EventStream.{
  AwsEventStreamMessage, decode_message, decode_from, decode_aws_event_stream,
}
use rootcell.Spy.EventStream.Crc.{crc32}
use rootcell.Spy.EventStream.Crc.Bitwise.{crc32_bound}
use rootcell.Spy.EventStream.Headers.{Header, DecodeError, decode_headers}
use rootcell.Spy.EventStream.Frames.{
  Frame, total_length, prelude, covered, frame_bytes, length-frame_bytes, decode_message_of_frame,
}
use rootcell.Spy.EventStream.Exact.{
  Passes, decode_message-Passes, the_frame, total_is, frame_stands,
}

-- The bytes are the layouts of these messages, one behind the other.
pub data IsStream : Bytes → List AwsEventStreamMessage → Type 0 where
  ends : {bs : Bytes} → bs ≡ [] → IsStream bs []
  message :
      {bs rest : Bytes} {messages : List AwsEventStreamMessage} (f : Frame) (headers : List Header)
      → bs ≡ frame_bytes f ++ rest
      → total_length f < 2 ^ 32
      → decode_headers f.headers ≡ ok headers
      → IsStream rest messages
      → IsStream bs (record { headers = headers; payload = f.payload } ∷ messages)

All-left {ℓ κ} : {A : Type ℓ} (P : A → Type κ) (xs ys : List A) → All P (xs ++ ys) → All P xs
All-left P [] ys h = tt
All-left P (x ∷ xs) ys (p, h) = (p, All-left P xs ys h)

drop_all {ℓ} : {A : Type ℓ} (n : ℕ) (xs : List A) → length xs ≤ n → drop n xs ≡ []
drop_all zero [] h = refl
drop_all zero (x ∷ xs) h = absurd (omega arith)
drop_all (suc n) [] h = refl
drop_all (suc n) (x ∷ xs) h = drop_all n xs (omega arith)

total_fits :
    (buffer : Bytes) (offset : ℕ) {message : AwsEventStreamMessage} {end : ℕ}
    → All IsByte buffer
    → (p : Passes buffer offset message end) → p.total < 2 ^ 32
total_fits buffer offset bytes p =
    omega
      (arith, p.total_read, u32_be_bound (drop offset buffer) (All-drop IsByte offset buffer bytes))

abbrev returned : List AwsEventStreamMessage → Result DecodeError (List AwsEventStreamMessage)
returned messages = ok messages

finished :
    (offset : ℕ) (buffer : Bytes) {messages : List AwsEventStreamMessage}
    → length buffer ≤ offset
    → returned [] ≡ returned messages
    → IsStream (drop offset buffer) messages
finished offset buffer {messages} le h =
    let e : [] ≡ messages = cc h in rw (← e) (ends (drop_all offset buffer le))

decode_from-IsStream :
    (fuel : ℕ) (buffer : Bytes) (offset : ℕ) {messages : List AwsEventStreamMessage}
    → All IsByte buffer
    → decode_from fuel buffer offset ≡ returned messages
    → IsStream (drop offset buffer) messages
unfolding decode_from
decode_from-IsStream zero buffer offset {messages} bytes h =
    elim (Bool-cases (ltb offset (length buffer))) [
      | inl more ↦ absurd (cc (rw more at h))
      | inr done ↦ finished offset buffer (ground arith) (rw done at h)
    ]
decode_from-IsStream (suc fuel) buffer offset {messages} bytes h =
    elim (Bool-cases (ltb offset (length buffer))) [
      | inr done ↦ finished offset buffer (ground arith) (rw done at h)
      | inl more ↦
          let ((m, end), decoded, h₁) = >>=-eq-ok (decode_message buffer offset) _ (rw more at h) in
          let (ms, later, h₂) = >>=-eq-ok (decode_from fuel buffer end) _ h₁ in
          let p = decode_message-Passes buffer offset decoded in
          let stream =
            message (the_frame buffer offset m end bytes p) m.headers
              (frame_stands buffer offset m end bytes p)
              (omega
                (arith, total_is buffer offset m end bytes p, total_fits buffer offset bytes p))
              p.headers_read (decode_from-IsStream fuel buffer end bytes later) in
          let e : m ∷ ms ≡ messages = cc h₂ in rw (← e) stream
    ]

-- The checksums of a message that stands in bytes fit 32 bits.
crcs_fit :
    (f : Frame) (rest : Bytes)
    → All IsByte (frame_bytes f ++ rest)
    → (crc32 (prelude f) < 2 ^ 32) × (crc32 (covered f) < 2 ^ 32)
unfolding frame_bytes
crcs_fit f rest bytes =
    let all_covered = All-left IsByte (covered f) _ (All-left IsByte (frame_bytes f) rest bytes) in
    (
      crc32_bound (prelude f) (All-left IsByte (prelude f) _ all_covered),
      crc32_bound (covered f) all_covered,
    )

nothing_left :
    (buffer : Bytes) (offset : ℕ) → drop offset buffer ≡ [] → ltb offset (length buffer) ≡ false
nothing_left buffer offset e = ground (arith, length-drop offset buffer, ap (λ x. length x) e)

frame_left :
    (buffer : Bytes) (offset : ℕ) (f : Frame) (rest : Bytes)
    → drop offset buffer ≡ frame_bytes f ++ rest
    → length buffer ≡ offset + total_length f + length rest
frame_left buffer offset f rest e = omega (
  arith,
  length-drop offset buffer,
  ap (λ x. length x) e,
  length-append (frame_bytes f) rest,
  length-frame_bytes f,
)

behind_frame :
    (buffer : Bytes) (offset : ℕ) (f : Frame) (rest : Bytes)
    → drop offset buffer ≡ frame_bytes f ++ rest
    → drop (offset + total_length f) buffer ≡ rest
behind_frame buffer offset f rest e =
    sym (drop-drop offset (total_length f) buffer)
    ∙ ap₂ (λ k x. drop k x) (sym (length-frame_bytes f)) e
    ∙ drop-append_length (frame_bytes f) rest

IsStream-decode_from :
    (fuel : ℕ) (buffer : Bytes) (offset : ℕ) {bs : Bytes} {messages : List AwsEventStreamMessage}
    → All IsByte buffer
    → drop offset buffer ≡ bs
    → length buffer ≤ offset + fuel
    → IsStream bs messages
    → decode_from fuel buffer offset ≡ ok messages
unfolding decode_from
IsStream-decode_from zero buffer offset bytes e enough (ends nothing) =
    rw (nothing_left buffer offset (e ∙ nothing))
IsStream-decode_from (suc fuel) buffer offset bytes e enough (ends nothing) =
    rw (nothing_left buffer offset (e ∙ nothing))
IsStream-decode_from zero buffer offset bytes e enough
      (message {rest = rest} f headers parts fits decoded stream) =
    absurd (omega (arith, frame_left buffer offset f rest (e ∙ parts)))
IsStream-decode_from (suc fuel) buffer offset bytes e enough
      (message {rest = rest} f headers parts fits decoded stream) =
    let there = e ∙ parts in
    let size = frame_left buffer offset f rest there in
    let all_here = subst (All IsByte) there (All-drop IsByte offset buffer bytes) in
    let (prelude_fits, covered_fits) = crcs_fit f rest all_here in
    let more : ltb offset (length buffer) ≡ true = ground arith in
    rw (
      more,
      decode_message_of_frame buffer offset f rest there fits prelude_fits covered_fits headers
          decoded,
      IsStream-decode_from fuel buffer (offset + total_length f) bytes
          (behind_frame buffer offset f rest there) (omega arith) stream,
    )

-- The decoder returns a list of messages exactly for the bytes that are the layouts of these
-- messages one behind the other, each with the right lengths and checksums.
pub decode_aws_event_stream_iff :
    (buffer : Bytes) (messages : List AwsEventStreamMessage)
    → All IsByte buffer
    → (decode_aws_event_stream buffer ≡ ok messages) ↔ IsStream buffer messages
unfolding decode_aws_event_stream
decode_aws_event_stream_iff buffer messages bytes = (
  λ h. decode_from-IsStream (length buffer) buffer 0 bytes h,
  λ s. IsStream-decode_from (length buffer) buffer 0 bytes refl (omega arith) s,
)
