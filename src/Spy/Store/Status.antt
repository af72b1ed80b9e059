-- ===== src/Spy/Store/Status.antt =====
-- A call that is no longer pending: the statements that only write other tables, and the updates of
-- the table of calls.
pub mod Transactions
use rootcell.Prelude.{
  OnOk, OnOk-after, ℕ, ◌≡◌, refl, sym, subst, ◌∙◌, Bool, true, false, not, ◌&&◌, ◌||◌, List, [],
  ◌∷◌, ◌++◌, Option, none, some, any, Text, codes, text_eq, Result, ok, err, ◌>>=◌, arith,
  Bool-cases, inl, inr,
}
use rootcell.Spy.Records.{
  ProviderCall, CallStatus, pending, complete, error, dropped, Direction, HttpEventRecord,
  NormalizedBlock, UsageRecord, StreamEvent, RawPayloadRecord, StreamChunkCapture,
}
use rootcell.Spy.Store.Tables.{
  Db, StoreError, has_call, replace_rows, http_row, block_row, usage_row, stream_event_row,
  raw_payload_row, stream_chunk_row, replace_http_event, replace_blocks, replace_usage_records,
  replace_stream_events, replace_raw_payloads, upsert_chunk, same_chunk, direction_eq,
}
use rootcell.Spy.Store.Tables.Calls.{
  update_call, keep_status, update_pending, inserted_call, upsert_pending_call,
}

abbrev pub is_pending : CallStatus → Bool
is_pending pending = true
is_pending _ = false

-- Whether there is a call of an id that is not pending.
abbrev pub is_settled : Text → List ProviderCall → Bool
is_settled id calls = any (λ c. text_eq c.id id && not (is_pending c.status)) calls

-- What holds of the table of calls, after a statement on another table.
module _ (P : List ProviderCall → Type 0) where
  abbrev pub OfCalls : Db → Type 0
  OfCalls db = P db.calls

  pub replace_http_event-calls :
      (event : HttpEventRecord) (db : Db) → P db.calls → OnOk OfCalls (replace_http_event event db)
  unfolding replace_http_event
  replace_http_event-calls event db h =
      OnOk-after OfCalls
        (replace_rows db.calls (λ r. text_eq r.id event.id) (event ∷ []) db.http_events) _
        (λ rows. h)

  pub replace_blocks-calls :
      (call_id direction : Text) (blocks : List NormalizedBlock) (db : Db)
      → P db.calls
      → OnOk OfCalls (replace_blocks call_id direction blocks db)
  unfolding replace_blocks
  replace_blocks-calls call_id direction blocks db h =
      OnOk-after OfCalls
        (replace_rows db.calls (λ b. text_eq b.call_id call_id && text_eq b.direction direction)
          blocks db.blocks)
        _ (λ rows. h)

  pub replace_usage_records-calls :
      (call_id : Text) (usage : List UsageRecord) (db : Db)
      → P db.calls
      → OnOk OfCalls (replace_usage_records call_id usage db)
  unfolding replace_usage_records
  replace_usage_records-calls call_id usage db h =
      OnOk-after OfCalls (replace_rows db.calls (λ r. text_eq r.call_id call_id) usage db.usage) _
        (λ rows. h)

  pub replace_stream_events-calls :
      (call_id : Text) (events : List StreamEvent) (db : Db)
      → P db.calls
      → OnOk OfCalls (replace_stream_events call_id events db)
  unfolding replace_stream_events
  replace_stream_events-calls call_id events db h =
      OnOk-after OfCalls
        (replace_rows db.calls (λ r. text_eq r.call_id call_id) events db.stream_events) _
        (λ rows. h)

  pub replace_raw_payloads-calls :
      (call_id : Text) (direction : Direction) (payloads : List RawPayloadRecord) (db : Db)
      → P db.calls
      → OnOk OfCalls (replace_raw_payloads call_id direction payloads db)
  unfolding replace_raw_payloads
  replace_raw_payloads-calls call_id direction payloads db h =
      OnOk-after OfCalls
        (replace_rows db.calls
          (λ r. text_eq r.call_id call_id && direction_eq r.direction direction) payloads
          db.raw_payloads)
        _ (λ rows. h)

  pub upsert_chunk-calls :
      (chunk : StreamChunkCapture) (db : Db) → P db.calls → OnOk OfCalls (upsert_chunk chunk db)
  unfolding upsert_chunk
  upsert_chunk-calls chunk db h =
      elim (Bool-cases
        (any (λ r. text_eq r.id chunk.id && not (same_chunk r chunk)) db.stream_chunks)) [
          | inl taken ↦ rw (upsert_chunk, taken) tt
          | inr free ↦ elim (Bool-cases (has_call db.calls chunk.call_id)) [
            | inr missing ↦ rw (upsert_chunk, free, missing) tt
            | inl there ↦ rw (upsert_chunk, free, there) h
          ]
        ]

-- A change that settles no less than there was.
abbrev pub Settles : (ProviderCall → ProviderCall) → Type 0
Settles change =
    (c : ProviderCall)
    → ((change c).id ≡ c.id) × (is_pending c.status ≡ false → is_pending (change c).status ≡ false)

pub is_settled-update_call :
    (x id : Text) (change : ProviderCall → ProviderCall) (calls : List ProviderCall)
    → Settles change
    → is_settled x calls ≡ true
    → is_settled x (update_call id change calls) ≡ true
is_settled-update_call x id change [] s h = h
is_settled-update_call x id change (c ∷ calls) s h = elim (Bool-cases (text_eq c.id id)) [
  | inl e ↦ rw (e, (s c).0) (ground (arith, is_settled-update_call x id change calls s, (s c).1))
  | inr e ↦ rw e (ground (arith, is_settled-update_call x id change calls s))
]

is_settled-append :
    (x : Text) (calls : List ProviderCall) (c : ProviderCall)
    → is_settled x calls ≡ true
    → is_settled x (calls ++ c ∷ []) ≡ true
is_settled-append x [] c h = absurd (cc)
is_settled-append x (d ∷ calls) c h = ground (arith, is_settled-append x calls c)

keep_status-is_pending :
    (old new : CallStatus) → is_pending old ≡ false → is_pending (keep_status old new) ≡ false
keep_status-is_pending pending new h = absurd (cc)
keep_status-is_pending complete new h = refl
keep_status-is_pending error new h = refl
keep_status-is_pending dropped new h = refl

pub upsert_pending_call-is_settled :
    (x : Text) (call : ProviderCall) (db : Db)
    → is_settled x db.calls ≡ true
    → OnOk (λ after. is_settled x after.calls ≡ true) (upsert_pending_call call db)
unfolding upsert_pending_call
upsert_pending_call-is_settled x call db h =
    elim (Bool-cases (
      any (λ c. text_eq c.request_flow_id call.request_flow_id && not (text_eq c.id call.id))
        db.calls)) [
          | inl taken ↦ rw (upsert_pending_call, taken) tt
          | inr free ↦ elim (Bool-cases (has_call db.calls call.id)) [
            | inl old ↦
                rw (upsert_pending_call, free, old)
                  (is_settled-update_call x call.id (update_pending call) db.calls
                    (λ c. (refl, keep_status-is_pending c.status call.status)) h)
            | inr new ↦
                rw (upsert_pending_call, free, new)
                  (is_settled-append x db.calls (inserted_call call) h)
          ]
        ]
