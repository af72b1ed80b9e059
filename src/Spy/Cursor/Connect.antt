-- ===== src/Spy/Cursor/Connect.antt =====
-- The frames of `parseConnectEnvelope` of src/spy/cursor.ts: a byte of flags, the length in four
-- bytes, and the payload, which may be compressed. Decompression is a call of zlib, and an argument.
use rootcell.Prelude.{
  ℕ, zero, suc, ◌+◌, ◌%◌, Bool, false, not, ◌&&◌, List, [], ◌∷◌, Option, none, some, ◌==◌, ltb, leb,
  if◌then◌else◌, length, get_elem?, or_else,
}
use rootcell.Spy.Bytes.{Bytes, subarray, read_u32_be}

-- What a frame keeps of its bytes.
pub record ConnectFrame : Type 0 where
  pub index : ℕ
  pub compressed : Bool
  pub offset : ℕ
  pub frame_byte_length : ℕ
  pub payload : Bytes

unfoldable pub is_gzip : Bytes → Bool
is_gzip (a ∷ b ∷ rest) = (a == 0x1f) && (b == 0x8b)
is_gzip _ = false

module _ (gunzip : Bytes → Option Bytes) where
  unfoldable pub decode_connect_payload : Bytes → Bool → Bytes
  unfolding is_gzip
  decode_connect_payload payload compressed =
      if not compressed && not (is_gzip payload) then payload else or_else (gunzip payload) payload

  -- The loop: the frames, and the offset at which it ends. A frame has five bytes at least, so the
  -- length of the buffer is fuel enough.
  unfoldable pub parse_frames_from : ℕ → Bytes → ℕ → ℕ → Option (List ConnectFrame × ℕ)
  parse_frames_from zero buffer offset index =
      if leb (offset + 5) (length buffer) then none else some ([], offset)
  parse_frames_from (suc fuel) buffer offset index =
      if leb (offset + 5) (length buffer)
      then (let flags = or_else (get_elem? buffer offset) 0 in
          let size = read_u32_be buffer (offset + 1) in
          let end = offset + 5 + size in
          let compressed = flags % 2 == 1 in
          let rest = parse_frames_from fuel buffer end (index + 1) in
          if ltb (length buffer) end then none else elim rest [
            | none ↦ none
            | some (frames, stop) ↦ some (
              record {
                index = index;
                compressed = compressed;
                offset = offset;
                frame_byte_length = 5 + size;
                payload = decode_connect_payload (subarray buffer (offset + 5) end) compressed;
              }
                  ∷ frames,
              stop,
            )
          ])
      else some ([], offset)

  unfoldable pub parse_connect_frames : Bytes → Option (List ConnectFrame)
  parse_connect_frames buffer =
      if ltb (length buffer) 5 then none else elim (parse_frames_from (length buffer) buffer 0 0) [
        | none ↦ none
        | some ([], stop) ↦ none
        | some (frame ∷ frames, stop) ↦
            if stop == length buffer then some (frame ∷ frames) else none
      ]
