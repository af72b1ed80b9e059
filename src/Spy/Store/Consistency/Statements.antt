-- ===== src/Spy/Store/Consistency/Statements.antt =====
-- Each statement of src/spy/store.ts that succeeds leaves a consistent database consistent.
use rootcell.Prelude.{
  OnOk, OnOk-bind, OnOk-of, ◌≡◌, refl, ◌∙◌, Bool, true, false, not, ◌&&◌, List, [], ◌∷◌, ◌++◌, map,
  if◌then◌else◌, any, All-append, Text, codes, text_eq, Bool-cases, inl, inr,
}
use rootcell.Spy.Records.{
  ProviderCall, NormalizedBlock, HttpEventRecord, UsageRecord, StreamEvent, RawPayloadRecord,
  StreamChunkCapture, Direction,
}
use rootcell.Spy.Store.Tables.{
  Db, Row, http_row, block_row, usage_row, stream_event_row, raw_payload_row, stream_chunk_row,
  has_call, replace_rows, same_chunk, upsert_chunk, replace_http_event, replace_blocks,
  replace_usage_records, replace_stream_events, replace_raw_payloads,
}
use rootcell.Spy.Store.Tables.Calls.{
  update_call, update_pending, inserted_call, upsert_pending_call,
}
use rootcell.Spy.Store.Persist.{replace_derived_blocks}
use rootcell.Spy.Store.Consistency.{
  UniqueIds, Refers, IsConsistent, Keeps, Refers-keep, replace_rows-Refers, has_call-update_call,
  UniqueIds-update_call, has_call-append, UniqueIds-append,
}

replace_rows-OnOk :
    {A : Type 0} ⦃row : Row A⦄ (calls : List ProviderCall) (old : A → Bool) (new rows : List A)
    → Refers calls rows
    → OnOk (Refers calls) (replace_rows calls old new rows)
replace_rows-OnOk calls old new rows h =
    OnOk-of (Refers calls) (replace_rows calls old new rows)
      (λ rows' e. replace_rows-Refers calls old new rows rows' h e)

pub replace_http_event-OnOk :
    (event : HttpEventRecord) (db : Db)
    → IsConsistent db
    → OnOk IsConsistent (replace_http_event event db)
unfolding replace_http_event
replace_http_event-OnOk event db (u, a, b, c, d, e, f) =
    OnOk-bind (Refers db.calls) IsConsistent _ _
      (replace_rows-OnOk db.calls (λ r. text_eq r.id event.id) (event ∷ []) db.http_events a)
      (λ rows h. (u, h, b, c, d, e, f))

pub replace_blocks-OnOk :
    (call_id direction : Text) (blocks : List NormalizedBlock) (db : Db)
    → IsConsistent db
    → OnOk IsConsistent (replace_blocks call_id direction blocks db)
unfolding replace_blocks
replace_blocks-OnOk call_id direction blocks db (u, a, b, c, d, e, f) =
    OnOk-bind (Refers db.calls) IsConsistent _ _ (replace_rows-OnOk db.calls _ blocks db.blocks b)
      (λ rows h. (u, a, h, c, d, e, f))

pub replace_usage_records-OnOk :
    (call_id : Text) (usage : List UsageRecord) (db : Db)
    → IsConsistent db
    → OnOk IsConsistent (replace_usage_records call_id usage db)
unfolding replace_usage_records
replace_usage_records-OnOk call_id usage db (u, a, b, c, d, e, f) =
    OnOk-bind (Refers db.calls) IsConsistent _ _ (replace_rows-OnOk db.calls _ usage db.usage c)
      (λ rows h. (u, a, b, h, d, e, f))

pub replace_stream_events-OnOk :
    (call_id : Text) (events : List StreamEvent) (db : Db)
    → IsConsistent db
    → OnOk IsConsistent (replace_stream_events call_id events db)
unfolding replace_stream_events
replace_stream_events-OnOk call_id events db (u, a, b, c, d, e, f) =
    OnOk-bind (Refers db.calls) IsConsistent _ _
      (replace_rows-OnOk db.calls _ events db.stream_events d) (λ rows h. (u, a, b, c, h, e, f))

pub replace_raw_payloads-OnOk :
    (call_id : Text) (direction : Direction) (payloads : List RawPayloadRecord) (db : Db)
    → IsConsistent db
    → OnOk IsConsistent (replace_raw_payloads call_id direction payloads db)
unfolding replace_raw_payloads
replace_raw_payloads-OnOk call_id direction payloads db (u, a, b, c, d, e, f) =
    OnOk-bind (Refers db.calls) IsConsistent _ _
      (replace_rows-OnOk db.calls _ payloads db.raw_payloads e) (λ rows h. (u, a, b, c, d, h, f))

-- Rows that referred to a call still do when calls are only added.
keep_calls-IsConsistent :
    (calls : List ProviderCall) (db : Db)
    → UniqueIds calls
    → Keeps db.calls calls
    → IsConsistent db
    → IsConsistent (record db { calls = calls })
keep_calls-IsConsistent calls db unique k (_, a, b, c, d, e, f) = (
  unique,
  Refers-keep db.calls calls db.http_events k a,
  Refers-keep db.calls calls db.blocks k b,
  Refers-keep db.calls calls db.usage k c,
  Refers-keep db.calls calls db.stream_events k d,
  Refers-keep db.calls calls db.raw_payloads k e,
  Refers-keep db.calls calls db.stream_chunks k f,
)

pub update_call-IsConsistent :
    (id : Text) (change : ProviderCall → ProviderCall) (db : Db)
    → ((c : ProviderCall) → (change c).id ≡ c.id)
    → IsConsistent db
    → IsConsistent (record db { calls = update_call id change db.calls })
update_call-IsConsistent id change db same h =
    keep_calls-IsConsistent (update_call id change db.calls) db
      (UniqueIds-update_call id change db.calls same h.0)
      (λ x there. has_call-update_call id x change db.calls same ∙ there) h

append_call-IsConsistent :
    (call : ProviderCall) (db : Db)
    → has_call db.calls call.id ≡ false
    → IsConsistent db
    → IsConsistent (record db { calls = db.calls ++ call ∷ [] })
append_call-IsConsistent call db new h =
    keep_calls-IsConsistent (db.calls ++ call ∷ []) db (UniqueIds-append db.calls call new h.0)
      (λ x there. has_call-append db.calls call x ∙ rw there refl) h

pub upsert_pending_call-OnOk :
    (call : ProviderCall) (db : Db)
    → IsConsistent db
    → OnOk IsConsistent (upsert_pending_call call db)
unfolding upsert_pending_call
upsert_pending_call-OnOk call db h =
    elim (Bool-cases (
      any (λ c. text_eq c.request_flow_id call.request_flow_id && not (text_eq c.id call.id))
        db.calls)) [
          | inl taken ↦ rw (upsert_pending_call, taken) tt
          | inr free ↦ elim (Bool-cases (has_call db.calls call.id)) [
            | inl old ↦
                rw (upsert_pending_call, free, old)
                  (update_call-IsConsistent call.id (update_pending call) db (λ c. refl) h)
            | inr new ↦
                rw (upsert_pending_call, free, new)
                  (append_call-IsConsistent (inserted_call call) db new h)
          ]
        ]

replace_chunk-Refers :
    (calls : List ProviderCall) (chunk : StreamChunkCapture) (rows : List StreamChunkCapture)
    → has_call calls chunk.call_id ≡ true
    → Refers calls rows
    → Refers calls (map (λ r. if same_chunk r chunk then chunk else r) rows)
replace_chunk-Refers calls chunk [] there h = tt
replace_chunk-Refers calls chunk (r ∷ rows) there (h, hs) = elim (Bool-cases (same_chunk r chunk)) [
  | inl e ↦ rw e (there, replace_chunk-Refers calls chunk rows there hs)
  | inr e ↦ rw e (h, replace_chunk-Refers calls chunk rows there hs)
]

pub upsert_chunk-OnOk :
    (chunk : StreamChunkCapture) (db : Db)
    → IsConsistent db
    → OnOk IsConsistent (upsert_chunk chunk db)
unfolding upsert_chunk
upsert_chunk-OnOk chunk db (u, a, b, c, d, e, f) =
    elim (Bool-cases
      (any (λ r. text_eq r.id chunk.id && not (same_chunk r chunk)) db.stream_chunks)) [
        | inl taken ↦ rw (upsert_chunk, taken) tt
        | inr free ↦ elim (Bool-cases (has_call db.calls chunk.call_id)) [
          | inr missing ↦ rw (upsert_chunk, free, missing) tt
          | inl there ↦ elim (Bool-cases (any (λ r. same_chunk r chunk) db.stream_chunks)) [
            | inl old ↦
                rw (upsert_chunk, free, there, old)
                  (u, a, b, c, d, e, replace_chunk-Refers db.calls chunk db.stream_chunks there f)
            | inr new ↦
                rw (upsert_chunk, free, there, new)
                  (
                    u,
                    a,
                    b,
                    c,
                    d,
                    e,
                    All-append (λ (r : StreamChunkCapture). has_call db.calls r.call_id ≡ true)
                        db.stream_chunks (chunk ∷ []) f (there, tt),
                  )
          ]
        ]
      ]

pub replace_derived_blocks-OnOk :
    (call_id : Text) (blocks : List NormalizedBlock) (db : Db)
    → IsConsistent db
    → OnOk IsConsistent (replace_derived_blocks call_id blocks db)
unfolding replace_derived_blocks
replace_derived_blocks-OnOk call_id [] db h = h
replace_derived_blocks-OnOk call_id (block ∷ blocks) db h =
    replace_blocks-OnOk call_id (codes "request") _ db h
