-- ===== src/Spy/Tests.antt =====
-- Runs of the models of src/spy, and the theorems about them at concrete inputs.
use rootcell.Prelude.{
  ℕ, ◌+◌, ◌≡◌, refl, Bool, false, [], ◌∷◌, ◌++◌, length, drop, none, some, ◌↔◌, All, codes, Text,
  text_eq, includes, ok, arith,
}
use rootcell.Spy.Bytes.{Bytes, u32_be, IsByte}
use rootcell.Spy.EventStream.{
  AwsEventStreamMessage, decode_aws_event_stream, decode_message, decode_from,
}
use rootcell.Spy.EventStream.Crc.{
  crc32, crc32_from, crc32_table, crc_table_from, crc_rounds, crc_round, table_at,
}
use rootcell.Spy.EventStream.Headers.{decode_headers, decode_headers_from}
use rootcell.Spy.EventStream.Crc.Bitwise.{crc32_bitwise, crc32-eq-bitwise}
use rootcell.Spy.EventStream.Exact.Whole.{IsStream, decode_aws_event_stream_iff}
use rootcell.Spy.Cursor.Varint.{read_proto_varint}
use rootcell.Spy.Cursor.Proto.{ProtoMessage, undefined, decode_fields_from}
use rootcell.Spy.Cursor.Proto.Fuel.{decode_fields_from-fuel}
use rootcell.Spy.Cursor.Varint.RoundTrip.{varint_bytes, read_proto_varint-varint_bytes}
use rootcell.Spy.Compaction.Blocks.{
  Pattern, SpyCallSummary, RequestTransitionInput, context_tokens, is_claude_code_request_context,
}
use rootcell.Spy.Records.{NormalizedBlock}
use rootcell.Spy.Compaction.Summarization.{
  detect_summarization_request, is_claude_code_summarization_prompt,
}
use rootcell.Spy.Compaction.{detect_compaction, summarization_of}
use rootcell.Spy.Compaction.Growth.{HasNotShrunk, detect_compaction-no_shrink}

crc32-eq-bitwise_example : crc32 (codes "123") ≡ crc32_bitwise (codes "123")
crc32-eq-bitwise_example =
    crc32-eq-bitwise (codes "123") (omega arith, (omega arith, (omega arith, tt)))

-- A message without headers and payload.
abbrev empty_frame : Bytes
empty_frame =
    0 ∷ 0 ∷ 0 ∷ 16 ∷ 0 ∷ 0 ∷ 0 ∷ 0 ∷ 0x05 ∷ 0xC2 ∷ 0x48 ∷ 0xEB ∷ 0x7D ∷ 0x98 ∷ 0xC8 ∷ 0xFF ∷ []

abbrev empty_message : AwsEventStreamMessage
empty_message = record { headers = []; payload = [] }

empty_frame-bytes : All IsByte empty_frame
empty_frame-bytes = ground arith

decode_test : decode_aws_event_stream empty_frame ≡ ok (empty_message ∷ [])
unfolding decode_aws_event_stream decode_from decode_message crc32 crc32_from crc32_table
    crc_table_from crc_rounds crc_round table_at u32_be decode_headers decode_headers_from
decode_test = refl

decode_aws_event_stream_iff_example :
    (decode_aws_event_stream empty_frame ≡ ok (empty_message ∷ []))
    ↔ IsStream empty_frame (empty_message ∷ [])
decode_aws_event_stream_iff_example =
    decode_aws_event_stream_iff empty_frame (empty_message ∷ []) empty_frame-bytes

bytes_300 : drop 1 (8 ∷ 172 ∷ 2 ∷ 18 ∷ []) ≡ varint_bytes 300 ++ 18 ∷ []
unfolding varint_bytes
bytes_300 = refl

read_proto_varint-varint_bytes_example :
    read_proto_varint (8 ∷ 172 ∷ 2 ∷ 18 ∷ []) 1
    ≡ some (record { value = 300; next_offset = 1 + length (varint_bytes 300) })
read_proto_varint-varint_bytes_example =
    read_proto_varint-varint_bytes 300 (8 ∷ 172 ∷ 2 ∷ 18 ∷ []) 1 (18 ∷ []) (omega arith) bytes_300

-- A regular expression engine that finds nothing.
abbrev no_match : Pattern → Text → Bool
no_match p t = false

abbrev call_of : ℕ → SpyCallSummary
call_of size = record {
  call_id = codes "c";
  provider = codes "cursor";
  request_byte_size = size;
  input_tokens = some 3000;
  cache_read_tokens = none;
  cache_write_tokens = none;
}

abbrev history_block : NormalizedBlock
history_block = record {
  id = codes "b";
  call_id = codes "c";
  direction = codes "request";
  ordinal = 0;
  role = some (codes "user");
  kind = codes "prior-conversation-history";
  source = codes "cursor-history";
  provider_path = none;
  text = some (codes "hello");
  json = none;
  char_size = 4096;
  byte_size = 4096;
  content_hash = codes "h";
  cache_marker = false;
}

abbrev same_request : RequestTransitionInput
same_request = record {
  summary = call_of 9000;
  request_blocks = history_block ∷ [];
  previous_summary = some (call_of 9000);
  previous_request_blocks = history_block ∷ [];
}

quiet_test : (summarization_of no_match same_request).is_candidate ≡ false
unfolding detect_summarization_request is_claude_code_summarization_prompt
    is_claude_code_request_context text_eq includes
quiet_test = refl

not_shrunk : HasNotShrunk same_request (call_of 9000)
unfolding context_tokens
not_shrunk = record {
  there = refl;
  history = omega arith;
  request = omega arith;
  tokens = omega arith;
}

detect_compaction-no_shrink_example : (detect_compaction no_match same_request).candidate ≡ false
detect_compaction-no_shrink_example =
    detect_compaction-no_shrink no_match same_request (call_of 9000) quiet_test not_shrunk

-- A decoding of ASCII, a hash, and a level below which nothing is decoded.
abbrev ascii : Bytes → Text
ascii bytes = bytes

abbrev no_nested : Bytes → Text → ProtoMessage
no_nested bytes path = undefined

decode_fields_from-fuel_example :
    decode_fields_from ascii ascii no_nested 3 (8 ∷ 172 ∷ 2 ∷ []) (codes "$frame[0]") 0 0
    ≡ decode_fields_from ascii ascii no_nested 9 (8 ∷ 172 ∷ 2 ∷ []) (codes "$frame[0]") 0 0
decode_fields_from-fuel_example =
    decode_fields_from-fuel ascii ascii no_nested (8 ∷ 172 ∷ 2 ∷ []) (codes "$frame[0]") 3 9 0 0
      (omega arith) (omega arith)
