-- ===== src/Spy/Store/Persist.antt =====
-- The writes of src/spy/store.ts for one event: `persistRequestUnlocked`, `persistResponseUnlocked`,
-- `persistDroppedEventUnlocked`, `persistErrorEventUnlocked` and `persistStreamChunkEventUnlocked`.
-- The providers' normalisation is an interface (`SpyProviderAdapter` of src/spy/providers.ts), and
-- the texts of numbers and JSON values, Base64 and SHA-256 are the platform's.
use rootcell.Prelude.{
  ℕ, Bool, false, not, ◌&&◌, ◌||◌, List, [], ◌∷◌, ◌++◌, Option, none, some, ◌==◌, ltb,
  if◌then◌else◌, all, filter, find, length, Text, codes, text_eq, Result, ok, ◌>>=◌,
}
use rootcell.Spy.Bytes.{Bytes}
use rootcell.Spy.Store.Order.{sort, key_ltb}
use rootcell.Spy.Records.{
  ProviderId, request, response, Headers, ProviderCall, NormalizedBlock, CapturedBody,
  HttpEventRecord, UsageRecord, StreamEvent, RawPayloadRecord, StreamChunkCapture,
  SpoolRequestEvent, SpoolResponseEvent, SpoolStreamChunkEvent, SpoolErrorEvent, SpoolDroppedEvent,
}
use rootcell.Spy.Store.Tables.{
  Db, StoreError, has_call, replace_http_event, replace_blocks, replace_usage_records,
  replace_stream_events, replace_raw_payloads, upsert_chunk, increment_counter, set_metadata,
}
use rootcell.Spy.Store.Tables.Calls.{upsert_pending_call, update_response_call, update_error_call}

pub record NormalizedProviderRequest : Type 0 where
  pub call : ProviderCall
  pub blocks : List NormalizedBlock
  pub raw_payloads : List RawPayloadRecord

pub record NormalizedProviderResponse : Type 0 where
  pub call : ProviderCall
  pub blocks : List NormalizedBlock
  pub usage : List UsageRecord
  pub stream_events : List StreamEvent
  pub raw_payloads : List RawPayloadRecord

-- A normalisation that throws gives its message.
pub record SpyProviderAdapter : Type 0 where
  pub call_id_for_flow : Text → Text
  pub normalize_request : SpoolRequestEvent → Result StoreError NormalizedProviderRequest
  pub normalize_response : SpoolResponseEvent → Result StoreError NormalizedProviderResponse

pub record Platform : Type 0 where
  pub number_text : ℕ → Text
  pub dropped_json : SpoolDroppedEvent → Text
  pub error_json : SpoolErrorEvent → Text
  pub chunk_json : Text → ℕ → Option Text → Text
  pub six_digits : ℕ → Text
  pub decode_base64 : Text → Bytes
  pub encode_base64 : Bytes → Text
  pub sha256 : Bytes → Text
  pub lower_case : Text → Text

abbrev pub no_body : CapturedBody
no_body = record { body_text = none; body_b64 = none; body_sha256 = none; body_encoding = none }

abbrev pub bodies : (Text → Bytes) → List StreamChunkCapture → Bytes
bodies decode [] = []
bodies decode (chunk ∷ chunks) = decode chunk.body_b64 ++ bodies decode chunks

-- `ORDER BY chunk_index ASC`
unfoldable pub stream_chunks_for_call : Text → Db → List StreamChunkCapture
stream_chunks_for_call call_id db =
    sort (λ chunk. chunk.chunk_index) ltb
      (filter (λ chunk. text_eq chunk.call_id call_id) db.stream_chunks)

-- The encoding that all chunks have.
abbrev pub encoding_eq : Option Text → Option Text → Bool
encoding_eq (some a) (some b) = text_eq a b
encoding_eq _ _ = false

abbrev pub common_encoding : List StreamChunkCapture → Option Text
common_encoding [] = none
common_encoding (first ∷ chunks) =
    if all (λ c. encoding_eq c.body_encoding first.body_encoding) (first ∷ chunks)
    then first.body_encoding
    else none

-- `isResponseDerivedRequestBlock`
unfoldable pub is_response_derived_request_block : NormalizedBlock → Bool
is_response_derived_request_block block =
    text_eq block.source (codes "cursor-response-request-context")
    || text_eq block.source (codes "cursor-response-context-metadata")

-- `ORDER BY direction ASC, ordinal ASC, id ASC`
unfoldable pub blocks_for_call : Text → Text → Db → List NormalizedBlock
blocks_for_call call_id direction db =
    sort (λ b. (b.ordinal, b.id)) key_ltb
      (filter (λ b. text_eq b.call_id call_id && text_eq b.direction direction) db.blocks)

-- The request blocks that a response brings along stand behind those of the request.
unfoldable pub replace_derived_blocks : Text → List NormalizedBlock → Db → Result StoreError Db
replace_derived_blocks call_id [] db = ok db
replace_derived_blocks call_id (block ∷ blocks) db =
    let existing =
      filter (λ b. not (is_response_derived_request_block b))
        (blocks_for_call call_id (codes "request") db) in
    replace_blocks call_id (codes "request") (existing ++ block ∷ blocks) db

module _ (platform : Platform) (adapters : ProviderId → SpyProviderAdapter) where
  abbrev pub content_type : Headers → Option Text
  content_type headers =
      elim (find (λ (h : Text × Text). text_eq (platform.lower_case h.0) (codes "content-type"))
        headers) [ none ↦ none | some (_, value) ↦ some value ]

  unfoldable pub http_event_from_request : SpoolRequestEvent → Text → HttpEventRecord
  http_event_from_request event call_id = record {
    id = codes "http-" ++ (call_id ++ codes "-request");
    call_id = call_id;
    direction = request;
    observed_at = event.http.ts;
    host = event.http.host;
    method = event.http.method;
    path = event.http.path;
    status_code = none;
    reason = none;
    headers = event.http.headers;
    request_headers = none;
    content_type = content_type event.http.headers;
    body = no_body;
  }

  unfoldable pub http_event_from_response : SpoolResponseEvent → Text → HttpEventRecord
  http_event_from_response event call_id = record {
    id = codes "http-" ++ (call_id ++ codes "-response");
    call_id = call_id;
    direction = response;
    observed_at = event.http.ts;
    host = event.http.host;
    method = event.http.method;
    path = event.http.path;
    status_code = some event.status_code;
    reason = some event.reason;
    headers = event.http.headers;
    request_headers = some event.request_headers;
    content_type = content_type event.http.headers;
    body = no_body;
  }

  unfoldable pub persist_request : SpoolRequestEvent → Db → Result StoreError Db
  persist_request event db = do
    normalized ← (adapters event.http.provider).normalize_request event
    let call_id = normalized.call.id
    called ← upsert_pending_call normalized.call db
    sent ← replace_http_event (http_event_from_request event call_id) called
    blocked ← replace_blocks call_id (codes "request") normalized.blocks sent
    stored ← replace_raw_payloads call_id request normalized.raw_payloads blocked
    ok (
        set_metadata (codes "last_request_at") (platform.number_text event.http.ts)
          (increment_counter (codes "spool_request_events") 1 stored))

  unfoldable pub response_event_with_captured_stream_chunks :
      SpoolResponseEvent → Text → Db → SpoolResponseEvent
  response_event_with_captured_stream_chunks event call_id db =
      let chunks = stream_chunks_for_call call_id db in
      let body = bodies platform.decode_base64 chunks in
      if length chunks == 0 || length body == 0 then event else record event {
        body = record {
          body_text = none;
          body_b64 = some (platform.encode_base64 body);
          body_sha256 = some (platform.sha256 body);
          body_encoding = common_encoding chunks;
        };
      }

  -- The transaction of a response whose call is there.
  unfoldable pub write_response :
      SpoolResponseEvent → NormalizedProviderResponse → Db → Result StoreError Db
  write_response event normalized db = do
    let call_id = normalized.call.id
    sent ←
        replace_http_event (http_event_from_response event call_id)
          (update_response_call normalized.call db)
    derived ←
        replace_derived_blocks call_id
          (filter (λ b. text_eq b.direction (codes "request")) normalized.blocks) sent
    blocked ←
        replace_blocks call_id (codes "response")
          (filter (λ b. text_eq b.direction (codes "response")) normalized.blocks) derived
    used ← replace_usage_records call_id normalized.usage blocked
    streamed ← replace_stream_events call_id normalized.stream_events used
    stored ← replace_raw_payloads call_id response normalized.raw_payloads streamed
    ok (
        set_metadata (codes "last_response_at") (platform.number_text event.http.ts)
          (increment_counter (codes "spool_response_events") 1 stored))

  -- `none` where the code returns false.
  unfoldable pub persist_response : SpoolResponseEvent → Db → Result StoreError (Option Db)
  persist_response event db =
      let adapter = adapters event.http.provider in
      let call_id = adapter.call_id_for_flow event.http.flow_id in
      if not (has_call db.calls call_id) then ok none else (do
        normalized ←
            adapter.normalize_response (response_event_with_captured_stream_chunks event call_id db)
        written ← write_response event normalized db
        ok (some written))

  unfoldable pub persist_dropped_event : SpoolDroppedEvent → Db → Db
  persist_dropped_event event db =
      set_metadata (codes "last_dropped_event") (platform.dropped_json event) (
        set_metadata (codes "last_dropped_at") (platform.number_text event.ts) (
          increment_counter (codes "captures_dropped") event.dropped_count
            (increment_counter (codes "spool_dropped_events") 1 db)))

  -- The update of the call that an error names.
  unfoldable pub mark_error : SpoolErrorEvent → Db → Db
  mark_error event db = elim event.flow_id [
    | none ↦ db
    | some flow_id ↦ elim event.provider [
      | none ↦ db
      | some provider ↦
          let call_id = (adapters provider).call_id_for_flow flow_id in
          if has_call db.calls call_id then update_error_call event.ts flow_id call_id db else db
    ]
  ]

  unfoldable pub persist_error_event : SpoolErrorEvent → Db → Db
  persist_error_event event db = mark_error event (
      set_metadata (codes "last_spool_error") (platform.error_json event) (
        set_metadata (codes "last_spool_error_at") (platform.number_text event.ts)
          (increment_counter (codes "spool_error_events") 1 db)))

  unfoldable pub chunk_capture : SpoolStreamChunkEvent → Text → StreamChunkCapture
  chunk_capture event call_id = record {
    id = codes "stream-chunk-" ++ (call_id ++ (codes "-" ++ platform.six_digits event.chunk_index));
    call_id = call_id;
    flow_id = event.http.flow_id;
    chunk_index = event.chunk_index;
    observed_at = event.http.ts;
    host = event.http.host;
    method = event.http.method;
    path = event.http.path;
    headers = event.http.headers;
    body_b64 = event.body_b64;
    body_sha256 = event.body_sha256;
    body_encoding = event.body_encoding;
    content_type = content_type event.http.headers;
  }

  unfoldable pub persist_stream_chunk_event :
      SpoolStreamChunkEvent → Db → Result StoreError (Option Db)
  persist_stream_chunk_event event db =
      let call_id = (adapters event.http.provider).call_id_for_flow event.http.flow_id in
      if not (has_call db.calls call_id) then ok none else (do
        captured ← upsert_chunk (chunk_capture event call_id) db
        ok (
            some (
              set_metadata (codes "last_stream_chunk_event")
                (platform.chunk_json event.http.flow_id event.chunk_index event.body_sha256)
                (set_metadata (codes "last_stream_chunk_at") (platform.number_text event.http.ts)
                  (increment_counter (codes "spool_stream_chunk_events") 1 captured)))))
