-- ===== src/Spy/Store/Tables.antt =====
-- The tables of the database with their keys (src/spy/migrations.ts), and the statements that
-- change them.
pub mod Calls
use rootcell.Prelude.{
  ℕ, ◌+◌, Bool, true, false, not, ◌&&◌, ◌||◌, List, [], ◌∷◌, ◌++◌, map, Option, none, some, ◌==◌,
  if◌then◌else◌, any, filter, Text, codes, text_eq, Result, ok, err, ◌>>=◌,
}
use rootcell.Spy.Records.{
  ProviderCall, NormalizedBlock, HttpEventRecord, UsageRecord, StreamEvent, RawPayloadRecord,
  StreamChunkCapture, Direction, request, response,
}

pub data StoreError : Type 0 where
  duplicate_id : Text → StoreError
  duplicate_flow_id : Text → StoreError
  no_such_call : Text → StoreError
  invalid_event : Text → StoreError

pub record Db : Type 0 where
  pub calls : List ProviderCall
  pub http_events : List HttpEventRecord
  pub blocks : List NormalizedBlock
  pub usage : List UsageRecord
  pub stream_events : List StreamEvent
  pub raw_payloads : List RawPayloadRecord
  pub stream_chunks : List StreamChunkCapture
  pub counters : List (Text × ℕ)
  pub metadata : List (Text × Text)

abbrev pub empty_db : Db
empty_db = record {
  calls = [];
  http_events = [];
  blocks = [];
  usage = [];
  stream_events = [];
  raw_payloads = [];
  stream_chunks = [];
  counters = [];
  metadata = [];
}

-- A row of a table that refers to provider_call: its primary key, and the id of its call.
pub record Row {ℓ} (A : Type ℓ) : Type ℓ where
  pub id_of : A → Text
  pub call_of : A → Text

instance abbrev pub http_row : Row HttpEventRecord
http_row = record { id_of = λ r. r.id; call_of = λ r. r.call_id }

instance abbrev pub block_row : Row NormalizedBlock
block_row = record { id_of = λ r. r.id; call_of = λ r. r.call_id }

instance abbrev pub usage_row : Row UsageRecord
usage_row = record { id_of = λ r. r.id; call_of = λ r. r.call_id }

instance abbrev pub stream_event_row : Row StreamEvent
stream_event_row = record { id_of = λ r. r.id; call_of = λ r. r.call_id }

instance abbrev pub raw_payload_row : Row RawPayloadRecord
raw_payload_row = record { id_of = λ r. r.id; call_of = λ r. r.call_id }

instance abbrev pub stream_chunk_row : Row StreamChunkCapture
stream_chunk_row = record { id_of = λ r. r.id; call_of = λ r. r.call_id }

-- `callExists`
unfoldable pub has_call : List ProviderCall → Text → Bool
has_call calls id = any (λ c. text_eq c.id id) calls

module _ {ℓ} {A : Type ℓ} ⦃row : Row A⦄ where
  -- `INSERT INTO table ...`: the id must be new, and the call must be there.
  unfoldable pub insert_row : List ProviderCall → A → List A → Result StoreError (List A)
  insert_row calls a rows =
      if any (λ r. text_eq (row.id_of r) (row.id_of a)) rows
      then err (duplicate_id (row.id_of a))
      else if has_call calls (row.call_of a)
      then ok (rows ++ a ∷ [])
      else err (no_such_call (row.call_of a))

  unfoldable pub insert_rows : List ProviderCall → List A → List A → Result StoreError (List A)
  insert_rows calls [] rows = ok rows
  insert_rows calls (a ∷ more) rows = insert_row calls a rows >>= insert_rows calls more

  -- `DELETE FROM table WHERE ...`, and the inserts behind it.
  unfoldable pub replace_rows :
      List ProviderCall → (A → Bool) → List A → List A → Result StoreError (List A)
  replace_rows calls old new rows = insert_rows calls new (filter (λ r. not (old r)) rows)

  abbrev pub is_of : Text → A → Bool
  is_of call_id r = text_eq (row.call_of r) call_id

abbrev pub direction_eq : Direction → Direction → Bool
direction_eq request request = true
direction_eq response response = true
direction_eq _ _ = false

unfoldable pub replace_http_event : HttpEventRecord → Db → Result StoreError Db
replace_http_event event db = do
  rows ← replace_rows db.calls (λ r. text_eq r.id event.id) (event ∷ []) db.http_events
  ok (record db { http_events = rows })

unfoldable pub replace_blocks : Text → Text → List NormalizedBlock → Db → Result StoreError Db
replace_blocks call_id direction blocks db = do
  rows ←
      replace_rows db.calls (λ b. is_of call_id b && text_eq b.direction direction) blocks db.blocks
  ok (record db { blocks = rows })

unfoldable pub replace_usage_records : Text → List UsageRecord → Db → Result StoreError Db
replace_usage_records call_id usage db = do
  rows ← replace_rows db.calls (is_of call_id) usage db.usage
  ok (record db { usage = rows })

unfoldable pub replace_stream_events : Text → List StreamEvent → Db → Result StoreError Db
replace_stream_events call_id events db = do
  rows ← replace_rows db.calls (is_of call_id) events db.stream_events
  ok (record db { stream_events = rows })

unfoldable pub replace_raw_payloads :
    Text → Direction → List RawPayloadRecord → Db → Result StoreError Db
replace_raw_payloads call_id direction payloads db = do
  rows ←
      replace_rows db.calls (λ r. is_of call_id r && direction_eq r.direction direction) payloads
        db.raw_payloads
  ok (record db { raw_payloads = rows })

-- `ON CONFLICT(call_id, chunk_index) DO UPDATE`: every column but these two is taken over, the id
-- among them, which must stay unique.
abbrev pub same_chunk : StreamChunkCapture → StreamChunkCapture → Bool
same_chunk a b = text_eq a.call_id b.call_id && a.chunk_index == b.chunk_index

unfoldable pub upsert_chunk : StreamChunkCapture → Db → Result StoreError Db
upsert_chunk chunk db =
    if any (λ r. text_eq r.id chunk.id && not (same_chunk r chunk)) db.stream_chunks
    then err (duplicate_id chunk.id)
    else if not (has_call db.calls chunk.call_id)
    then err (no_such_call chunk.call_id)
    else ok (record db {
      stream_chunks =
          if any (λ r. same_chunk r chunk) db.stream_chunks
          then map (λ r. if same_chunk r chunk then chunk else r) db.stream_chunks
          else db.stream_chunks ++ chunk ∷ [];
    })

-- `incrementCounter` and `setMetadata`
unfoldable pub add_to : Text → ℕ → List (Text × ℕ) → List (Text × ℕ)
add_to name amount [] = (name, amount) ∷ []
add_to name amount ((key, value) ∷ rows) =
    if text_eq key name
    then (key, value + amount) ∷ rows
    else (key, value) ∷ add_to name amount rows

unfoldable pub put : Text → Text → List (Text × Text) → List (Text × Text)
put name text [] = (name, text) ∷ []
put name text ((key, value) ∷ rows) =
    if text_eq key name then (key, text) ∷ rows else (key, value) ∷ put name text rows

abbrev pub increment_counter : Text → ℕ → Db → Db
increment_counter name amount db = record db { counters = add_to name amount db.counters }

abbrev pub set_metadata : Text → Text → Db → Db
set_metadata key value db = record db { metadata = put key value db.metadata }

-- `DELETE FROM provider_call WHERE ...`, with the rows that refer to a deleted call.
unfoldable pub delete_calls : (ProviderCall → Bool) → Db → Db
delete_calls gone db =
    let deleted = filter gone db.calls in
    record db {
      calls = filter (λ c. not (gone c)) db.calls;
      http_events = filter (λ r. not (has_call deleted r.call_id)) db.http_events;
      blocks = filter (λ r. not (has_call deleted r.call_id)) db.blocks;
      usage = filter (λ r. not (has_call deleted r.call_id)) db.usage;
      stream_events = filter (λ r. not (has_call deleted r.call_id)) db.stream_events;
      raw_payloads = filter (λ r. not (has_call deleted r.call_id)) db.raw_payloads;
      stream_chunks = filter (λ r. not (has_call deleted r.call_id)) db.stream_chunks;
    }
