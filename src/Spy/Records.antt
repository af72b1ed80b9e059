-- ===== src/Spy/Records.antt =====
-- The records of src/spy/schemas.ts: calls, the rows that belong to a call, and the events of the
-- spool. Times, seconds with a fraction in the code, are whole milliseconds. A JSON value is its
-- text.
use rootcell.Prelude.{ℕ, Bool, List, Option, Text}

pub data ProviderId : Type 0 where
  bedrock : ProviderId
  cursor : ProviderId

pub data Direction : Type 0 where
  request : Direction
  response : Direction

pub data CallStatus : Type 0 where
  pending : CallStatus
  complete : CallStatus
  error : CallStatus
  dropped : CallStatus

abbrev pub Headers : Type 0
Headers = List (Text × Text)

pub record ProviderCall : Type 0 where
  pub id : Text
  pub provider : ProviderId
  pub operation : Text
  pub model_id : Text
  pub status : CallStatus
  pub started_at : ℕ
  pub completed_at : Option ℕ
  pub status_code : Option ℕ
  pub request_flow_id : Text
  pub response_flow_id : Option Text
  pub request_content_hash : Option Text
  pub response_content_hash : Option Text

-- `direction` and `kind` are the texts of their enumerations.
pub record NormalizedBlock : Type 0 where
  pub id : Text
  pub call_id : Text
  pub direction : Text
  pub ordinal : ℕ
  pub role : Option Text
  pub kind : Text
  pub source : Text
  pub provider_path : Option Text
  pub text : Option Text
  pub json : Option Text
  pub char_size : ℕ
  pub byte_size : ℕ
  pub content_hash : Text
  pub cache_marker : Bool

-- `CapturedBodyShape`
pub record CapturedBody : Type 0 where
  pub body_text : Option Text
  pub body_b64 : Option Text
  pub body_sha256 : Option Text
  pub body_encoding : Option Text

-- `HttpCaptureBaseSchema`
pub record HttpCapture : Type 0 where
  pub ts : ℕ
  pub flow_id : Text
  pub provider : ProviderId
  pub operation : Text
  pub model_id : Text
  pub host : Text
  pub method : Text
  pub path : Text
  pub headers : Headers

pub record SpoolRequestEvent : Type 0 where
  pub http : HttpCapture
  pub body : CapturedBody

pub record SpoolResponseEvent : Type 0 where
  pub http : HttpCapture
  pub status_code : ℕ
  pub reason : Text
  pub request_headers : Headers
  pub body : CapturedBody

pub record SpoolStreamChunkEvent : Type 0 where
  pub http : HttpCapture
  pub chunk_index : ℕ
  pub body_b64 : Text
  pub body_sha256 : Option Text
  pub body_encoding : Option Text

pub record SpoolErrorEvent : Type 0 where
  pub ts : ℕ
  pub flow_id : Option Text
  pub provider : Option ProviderId
  pub error_text : Text

pub record SpoolDroppedEvent : Type 0 where
  pub ts : ℕ
  pub provider : Option ProviderId
  pub reason : Text
  pub dropped_count : ℕ

pub data SpoolEvent : Type 0 where
  request_event : SpoolRequestEvent → SpoolEvent
  response_event : SpoolResponseEvent → SpoolEvent
  stream_chunk_event : SpoolStreamChunkEvent → SpoolEvent
  error_event : SpoolErrorEvent → SpoolEvent
  dropped_event : SpoolDroppedEvent → SpoolEvent

pub record HttpEventRecord : Type 0 where
  pub id : Text
  pub call_id : Text
  pub direction : Direction
  pub observed_at : ℕ
  pub host : Text
  pub method : Text
  pub path : Text
  pub status_code : Option ℕ
  pub reason : Option Text
  pub headers : Headers
  pub request_headers : Option Headers
  pub content_type : Option Text
  pub body : CapturedBody

pub record UsageRecord : Type 0 where
  pub id : Text
  pub call_id : Text
  pub source : Text
  pub input_tokens : Option ℕ
  pub output_tokens : Option ℕ
  pub cache_read_tokens : Option ℕ
  pub cache_write_tokens : Option ℕ
  pub total_tokens : Option ℕ
  pub raw : Option Text

pub record StreamEvent : Type 0 where
  pub id : Text
  pub call_id : Text
  pub ordinal : ℕ
  pub event_type : Text
  pub headers : Text
  pub payload : Option Text
  pub payload_text : Option Text
  pub payload_sha256 : Option Text
  pub observed_at : Option ℕ

pub record RawPayloadRecord : Type 0 where
  pub id : Text
  pub call_id : Text
  pub direction : Direction
  pub content_type : Option Text
  pub body : CapturedBody

-- A row of the table stream_chunk_capture.
pub record StreamChunkCapture : Type 0 where
  pub id : Text
  pub call_id : Text
  pub flow_id : Text
  pub chunk_index : ℕ
  pub observed_at : ℕ
  pub host : Text
  pub method : Text
  pub path : Text
  pub headers : Headers
  pub body_b64 : Text
  pub body_sha256 : Option Text
  pub body_encoding : Option Text
  pub content_type : Option Text
