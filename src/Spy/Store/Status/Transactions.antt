-- ===== src/Spy/Store/Status/Transactions.antt =====
-- No transaction of src/spy/store.ts makes a call pending that was not.
use rootcell.Prelude.{
  OnOk, OnOk-after, OnOk-bind, OnOk-of, ℕ, ◌≡◌, refl, true, false, List, [], ◌∷◌, Option, none,
  some, Text, codes, ltb, Result, ok, err, Bool-cases, Option-cases, Result-cases, inl, inr,
}
use rootcell.Spy.Records.{
  ProviderId, ProviderCall, NormalizedBlock, SpoolRequestEvent, SpoolResponseEvent,
  SpoolStreamChunkEvent, SpoolErrorEvent, SpoolEvent, request_event, response_event,
  stream_chunk_event, error_event, dropped_event,
}
use rootcell.Spy.Store.Tables.{Db, StoreError, has_call}
use rootcell.Spy.Store.Tables.Calls.{
  set_response, set_error, update_response_call, update_error_call,
}
use rootcell.Spy.Store.Persist.{
  Platform, SpyProviderAdapter, NormalizedProviderResponse, persist_request, persist_response,
  write_response, replace_derived_blocks, mark_error, persist_error_event, persist_dropped_event,
  persist_stream_chunk_event, response_event_with_captured_stream_chunks,
}
use rootcell.Spy.Store.Ingest.{
  SpoolFile, Spy, IngestResult, write_outcome, optional_outcome, record_ingest_error,
  record_malformed_spool_file, ingest_event, ingest_content, ingest_spool_file, ingest_files,
  ingest_spool_batch, limited, spool_files, no_files,
}
use rootcell.Spy.Store.Consistency.Transactions.{OnSome}
use rootcell.Spy.Store.Status.{
  is_pending, is_settled, replace_http_event-calls, replace_blocks-calls,
  replace_usage_records-calls, replace_stream_events-calls, replace_raw_payloads-calls,
  upsert_chunk-calls, is_settled-update_call, upsert_pending_call-is_settled,
}

module _ (platform : Platform) (adapters : ProviderId → SpyProviderAdapter) (x : Text) where
  abbrev IsSettled : List ProviderCall → Type 0
  IsSettled calls = is_settled x calls ≡ true

  abbrev Settled : Db → Type 0
  Settled db = is_settled x db.calls ≡ true

  persist_request-Settled :
      (event : SpoolRequestEvent) (db : Db)
      → Settled db
      → OnOk Settled (persist_request platform adapters event db)
  unfolding persist_request
  persist_request-Settled event db h =
      OnOk-after Settled ((adapters event.http.provider).normalize_request event) _ λ normalized.
        OnOk-bind Settled Settled _ _ (upsert_pending_call-is_settled x normalized.call db h)
          λ called h1.
            OnOk-bind Settled Settled _ _ (replace_http_event-calls IsSettled _ called h1)
              λ sent h2.
                OnOk-bind Settled Settled _ _ (replace_blocks-calls IsSettled _ _ _ sent h2)
                  λ blocked h3.
                    OnOk-bind Settled Settled _ _
                      (replace_raw_payloads-calls IsSettled _ _ _ blocked h3) λ stored h4. h4

  replace_derived_blocks-Settled :
      (call_id : Text) (blocks : List NormalizedBlock) (db : Db)
      → Settled db
      → OnOk Settled (replace_derived_blocks call_id blocks db)
  unfolding replace_derived_blocks
  replace_derived_blocks-Settled call_id [] db h = h
  replace_derived_blocks-Settled call_id (block ∷ blocks) db h =
      replace_blocks-calls IsSettled call_id (codes "request") _ db h

  write_response-Settled :
      (event : SpoolResponseEvent) (normalized : NormalizedProviderResponse) (db : Db)
      → is_pending normalized.call.status ≡ false
      → Settled db
      → OnOk Settled (write_response platform adapters event normalized db)
  unfolding write_response update_response_call
  write_response-Settled event normalized db settled h =
      OnOk-bind Settled Settled _ _
        (replace_http_event-calls IsSettled _ _ (
          is_settled-update_call x normalized.call.id (set_response normalized.call) db.calls
            (λ c. (refl, λ _. settled)) h))
        λ sent h1.
          OnOk-bind Settled Settled _ _ (replace_derived_blocks-Settled _ _ sent h1) λ derived h2.
            OnOk-bind Settled Settled _ _ (replace_blocks-calls IsSettled _ _ _ derived h2)
              λ blocked h3.
                OnOk-bind Settled Settled _ _ (replace_usage_records-calls IsSettled _ _ blocked h3)
                  λ used h4.
                    OnOk-bind Settled Settled _ _
                      (replace_stream_events-calls IsSettled _ _ used h4)
                      λ streamed h5.
                        OnOk-bind Settled Settled _ _
                          (replace_raw_payloads-calls IsSettled _ _ _ streamed h5) λ stored h6. h6

  persist_stream_chunk_event-Settled :
      (event : SpoolStreamChunkEvent) (db : Db)
      → Settled db
      → OnOk (OnSome Settled) (persist_stream_chunk_event platform adapters event db)
  unfolding persist_stream_chunk_event
  persist_stream_chunk_event-Settled event db h =
      let call_id = (adapters event.http.provider).call_id_for_flow event.http.flow_id in
      elim (Bool-cases (has_call db.calls call_id)) [
        | inr missing ↦ rw (persist_stream_chunk_event, missing) tt
        | inl there ↦
            rw (persist_stream_chunk_event, there)
              (OnOk-bind Settled (OnSome Settled) _ _ (upsert_chunk-calls IsSettled _ db h)
                λ captured h1. h1)
      ]

  persist_error_event-Settled :
      (event : SpoolErrorEvent) (db : Db)
      → Settled db
      → Settled (persist_error_event platform adapters event db)
  unfolding persist_error_event mark_error update_error_call
  persist_error_event-Settled event db h = elim (Option-cases event.flow_id) [
    | inl e ↦ rw (persist_error_event, mark_error, e) h
    | inr (flow_id, e) ↦ elim (Option-cases event.provider) [
      | inl e' ↦ rw (persist_error_event, mark_error, e, e') h
      | inr (provider, e') ↦
          elim (Bool-cases (has_call db.calls ((adapters provider).call_id_for_flow flow_id))) [
            | inr missing ↦ rw (persist_error_event, mark_error, e, e', missing) h
            | inl there ↦
                rw (persist_error_event, mark_error, e, e', there)
                  (is_settled-update_call x _ (set_error event.ts flow_id) db.calls
                    (λ c. (refl, λ _. refl)) h)
          ]
    ]
  ]

-- The normalisation of a response settles its call.
abbrev pub ResponsesSettle : (ProviderId → SpyProviderAdapter) → Type 0
ResponsesSettle adapters =
    (provider : ProviderId) (event : SpoolResponseEvent) (normalized : NormalizedProviderResponse)
    → (adapters provider).normalize_response event ≡ ok normalized
    → is_pending normalized.call.status ≡ false

module _ (platform : Platform) (adapters : ProviderId → SpyProviderAdapter)
    (error_message : StoreError → Text) (settle : ResponsesSettle adapters) (x : Text) where
  abbrev AfterSettled : Db → Type 0
  AfterSettled db = is_settled x db.calls ≡ true

  persist_response-Settled :
      (event : SpoolResponseEvent) (db : Db)
      → AfterSettled db
      → OnOk (OnSome AfterSettled) (persist_response platform adapters event db)
  unfolding persist_response
  persist_response-Settled event db h =
      let adapter = adapters event.http.provider in
      let call_id = adapter.call_id_for_flow event.http.flow_id in
      let captured =
        response_event_with_captured_stream_chunks platform adapters event call_id db in
      elim (Bool-cases (has_call db.calls call_id)) [
        | inr missing ↦ rw (persist_response, missing) tt
        | inl there ↦
            rw (persist_response, there)
              (OnOk-bind (λ normalized. is_pending normalized.call.status ≡ false)
                (OnSome AfterSettled) (adapter.normalize_response captured) _
                (OnOk-of _ _ (settle event.http.provider captured))
                λ normalized settled.
                  OnOk-bind AfterSettled (OnSome AfterSettled) _ _
                    (write_response-Settled platform adapters x event normalized db settled h)
                    λ written h1. h1)
      ]

  write_outcome-Settled :
      (failure : StoreError → Db) (r : Result StoreError Db)
      → ((e : StoreError) → AfterSettled (failure e))
      → OnOk AfterSettled r
      → AfterSettled (write_outcome failure r).1
  write_outcome-Settled failure (err e) h k = h e
  write_outcome-Settled failure (ok db) h k = k

  optional_outcome-Settled :
      (db : Db) (failure : StoreError → Db) (r : Result StoreError (Option Db))
      → AfterSettled db
      → ((e : StoreError) → AfterSettled (failure e))
      → OnOk (OnSome AfterSettled) r
      → AfterSettled (optional_outcome db failure r).1
  optional_outcome-Settled db failure (err e) h k o = k e
  optional_outcome-Settled db failure (ok none) h k o = h
  optional_outcome-Settled db failure (ok (some written)) h k o = o

  ingest_event-Settled :
      (path : Text) (event : SpoolEvent) (db : Db)
      → AfterSettled db
      → AfterSettled (ingest_event platform adapters error_message path event db).1
  unfolding ingest_event record_ingest_error persist_dropped_event
  ingest_event-Settled path (request_event e) db h =
      write_outcome-Settled _ (persist_request platform adapters e db) (λ _. h)
        (persist_request-Settled platform adapters x e db h)
  ingest_event-Settled path (response_event e) db h =
      optional_outcome-Settled db _ (persist_response platform adapters e db) h (λ _. h)
        (persist_response-Settled e db h)
  ingest_event-Settled path (dropped_event e) db h = h
  ingest_event-Settled path (error_event e) db h =
      persist_error_event-Settled platform adapters x e db h
  ingest_event-Settled path (stream_chunk_event e) db h =
      optional_outcome-Settled db _ (persist_stream_chunk_event platform adapters e db) h (λ _. h)
        (persist_stream_chunk_event-Settled platform adapters x e db h)

  ingest_content-Settled :
      (file : SpoolFile) (db : Db)
      → AfterSettled db
      → AfterSettled (ingest_content platform adapters error_message file db).1
  unfolding ingest_content record_malformed_spool_file
  ingest_content-Settled file db h = elim (Result-cases file.content) [
    | inr (message, e) ↦ rw (ingest_content, e) h
    | inl (event, e) ↦ rw (ingest_content, e) (ingest_event-Settled file.name event db h)
  ]

  ingest_files-Settled :
      (files : List SpoolFile) (result : IngestResult) (spy : Spy)
      → AfterSettled spy.db
      → AfterSettled (ingest_files platform adapters error_message files result spy).1.db
  unfolding ingest_files ingest_spool_file
  ingest_files-Settled [] result spy h = h
  ingest_files-Settled (file ∷ files) result spy h =
      ingest_files-Settled files _ _ (ingest_content-Settled file spy.db h)

  -- Where the providers give responses a status other than pending, a call that is not pending before
  -- a batch is there and not pending after it: neither a request that comes again nor any other
  -- event reopens it.
  pub ingest_spool_batch-is_settled :
      (limit : Option ℕ) (now : ℕ) (spy : Spy)
      → is_settled x spy.db.calls ≡ true
      → is_settled x (ingest_spool_batch platform adapters error_message limit now spy).1.db.calls
        ≡ true
  unfolding ingest_spool_batch
  ingest_spool_batch-is_settled limit now spy h =
      let files = limited platform adapters error_message limit (spool_files spy.spool) in
      let left = ingest_files platform adapters error_message files no_files spy in
      let kept = ingest_files-Settled files no_files spy h in
      elim (Bool-cases (ltb 0 left.0.ingested_count)) [
        | inl e ↦ rw (ingest_spool_batch, e) kept
        | inr e ↦ rw (ingest_spool_batch, e) kept
      ]
