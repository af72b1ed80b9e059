-- ===== src/Spy/EventStream.antt =====
-- src/spy/eventstream.ts: `decodeAwsEventStream` and `decodeHeaders` over the bytes of the input.
-- Base64 is decoded before, and texts are kept as their UTF-8 bytes.
pub mod Crc
pub mod Headers
pub mod Frames
pub mod Exact
use rootcell.Prelude.{
  ℕ, zero, suc, ◌+◌, ◌-◌, Bool, true, false, not, List, [], ◌∷◌, ◌==◌, ltb, leb, if◌then◌else◌,
  length, Result, ok, err, throw_if, ◌>>=◌, ◌>>◌,
}
use rootcell.Spy.Bytes.{Bytes, read_u32_be, subarray}
use Crc.{crc32}
use Headers.{DecodeError, Header, decode_headers}
use Headers.{
  out_of_fuel, truncated_prelude, invalid_total_length, truncated_message, prelude_crc_mismatch,
  message_crc_mismatch, headers_exceed_message,
}

pub record AwsEventStreamMessage : Type 0 where
  pub headers : List Header
  pub payload : Bytes

-- One round of the loop at `offset`: the message and the offset behind it.
unfoldable pub decode_message : Bytes → ℕ → Result DecodeError (AwsEventStreamMessage × ℕ)
decode_message buffer offset = do
  throw_if (ltb (length buffer - offset) 16) truncated_prelude
  let total_length = read_u32_be buffer offset
  let headers_length = read_u32_be buffer (offset + 4)
  throw_if (ltb total_length 16) (invalid_total_length total_length)
  let end = offset + total_length
  throw_if (ltb (length buffer) end) truncated_message
  throw_if (not (crc32 (subarray buffer offset (offset + 8)) == read_u32_be buffer (offset + 8)))
      prelude_crc_mismatch
  throw_if (not (crc32 (subarray buffer offset (end - 4)) == read_u32_be buffer (end - 4)))
      message_crc_mismatch
  let headers_start = offset + 12
  let headers_end = headers_start + headers_length
  throw_if (ltb (end - 4) headers_end) headers_exceed_message
  headers ← decode_headers (subarray buffer headers_start headers_end)
  ok (record { headers = headers; payload = subarray buffer headers_end (end - 4) }, end)

-- The loop. Each message has at least 16 bytes, so the length of the input is fuel enough.
unfoldable pub decode_from : ℕ → Bytes → ℕ → Result DecodeError (List AwsEventStreamMessage)
decode_from zero buffer offset = if ltb offset (length buffer) then err out_of_fuel else ok []
decode_from (suc fuel) buffer offset =
    if ltb offset (length buffer)
    then (do
      message ← decode_message buffer offset
      messages ← decode_from fuel buffer message.1
      ok (message.0 ∷ messages))
    else ok []

unfoldable pub decode_aws_event_stream : Bytes → Result DecodeError (List AwsEventStreamMessage)
decode_aws_event_stream buffer = decode_from (length buffer) buffer 0
