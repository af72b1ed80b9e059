-- ===== src/Spy/Store/Consistency/Reachable.antt =====
-- The database of a running spy: what the operations of src/spy/store.ts make of an empty one.
use rootcell.Prelude.{
  OnOk, ℕ, ◌≡◌, subst, true, List, [], ◌∷◌, ◌++◌, Option, none, some, ltb, Text, Result, ok, err,
  Bool-cases, Result-cases, ◌-◌, inl, inr, zero, suc,
}
use rootcell.Spy.Records.{
  ProviderId, SpoolEvent, request_event, response_event, stream_chunk_event, error_event,
  dropped_event, SpoolRequestEvent, SpoolResponseEvent,
}
use rootcell.Spy.Store.Tables.{Db, StoreError, empty_db, delete_calls}
use rootcell.Spy.Store.Persist.{
  Platform, SpyProviderAdapter, persist_request, persist_response, persist_stream_chunk_event,
}
use rootcell.Spy.Store.Ingest.{
  SpoolFile, Spy, IngestResult, optional_outcome, write_outcome, record_ingest_error,
  record_malformed_spool_file, ingest_event, ingest_content, ingest_spool_file, ingest_files,
  ingest_spool_batch, limited, spool_files, no_files,
}
use rootcell.Spy.Store.Retention.{
  run_retention, clear_data, shrink, note_retention, delete_calls_before, has_id, days_ms, is_older,
}
use rootcell.Spy.Store.Retention.Bounds.{delete_oldest_call-cases}
use rootcell.Spy.Store.Consistency.{IsConsistent, delete_calls-IsConsistent}
use rootcell.Spy.Store.Consistency.Transactions.{
  OnSome, persist_request-OnOk, persist_response-OnOk, persist_stream_chunk_event-OnOk,
  persist_error_event-IsConsistent, persist_dropped_event-IsConsistent,
}

write_outcome-IsConsistent :
    (failure : StoreError → Db) (r : Result StoreError Db)
    → ((e : StoreError) → IsConsistent (failure e))
    → OnOk IsConsistent r
    → IsConsistent (write_outcome failure r).1
write_outcome-IsConsistent failure (err e) h k = h e
write_outcome-IsConsistent failure (ok db) h k = k

optional_outcome-IsConsistent :
    (db : Db) (failure : StoreError → Db) (r : Result StoreError (Option Db))
    → IsConsistent db
    → ((e : StoreError) → IsConsistent (failure e))
    → OnOk (OnSome IsConsistent) r
    → IsConsistent (optional_outcome db failure r).1
optional_outcome-IsConsistent db failure (err e) h k o = k e
optional_outcome-IsConsistent db failure (ok none) h k o = h
optional_outcome-IsConsistent db failure (ok (some written)) h k o = o

-- A change of the spy by one operation, or by the proxy that writes a spool file.
module _ (platform : Platform) (adapters : ProviderId → SpyProviderAdapter)
    (error_message : StoreError → Text) (used_bytes size_bytes : Db → ℕ) where
  pub data Step : Spy → Spy → Type 0 where
    capture :
        (db : Db) (before after : List SpoolFile) (file : SpoolFile)
        → Step
            (record { db = db; spool = before ++ after })
            (record { db = db; spool = before ++ file ∷ after })
    ingest :
        (limit : Option ℕ) (now : ℕ) (spy : Spy)
        → Step spy (ingest_spool_batch platform adapters error_message limit now spy).1
    direct_request :
        (event : SpoolRequestEvent) (spy : Spy) (db : Db)
        → persist_request platform adapters event spy.db ≡ ok db
        → Step spy (record spy { db = db })
    direct_response :
        (event : SpoolResponseEvent) (spy : Spy) (db : Db)
        → persist_response platform adapters event spy.db ≡ ok (some db)
        → Step spy (record spy { db = db })
    retain :
        (now retention_days max_bytes : ℕ) (spy : Spy)
        → Step spy (record spy {
          db =
              (run_retention used_bytes size_bytes platform.number_text now retention_days max_bytes
                spy.db).1;
        })
    clear :
        (now generation : ℕ) (spy : Spy)
        → Step spy (clear_data used_bytes size_bytes platform.number_text now generation spy).1

  -- The states of a spy that began with an empty database.
  pub data IsReachable : Spy → Type 0 where
    start : (spool : List SpoolFile) → IsReachable (record { db = empty_db; spool = spool })
    then_step : (spy next : Spy) → IsReachable spy → Step spy next → IsReachable next

  ingest_event-IsConsistent :
      (path : Text) (event : SpoolEvent) (db : Db)
      → IsConsistent db
      → IsConsistent (ingest_event platform adapters error_message path event db).1
  unfolding ingest_event record_ingest_error
  ingest_event-IsConsistent path (request_event e) db h =
      write_outcome-IsConsistent _ (persist_request platform adapters e db) (λ _. h)
        (persist_request-OnOk platform adapters e db h)
  ingest_event-IsConsistent path (response_event e) db h =
      optional_outcome-IsConsistent db _ (persist_response platform adapters e db) h (λ _. h)
        (persist_response-OnOk platform adapters e db h)
  ingest_event-IsConsistent path (dropped_event e) db h =
      persist_dropped_event-IsConsistent platform adapters e db h
  ingest_event-IsConsistent path (error_event e) db h =
      persist_error_event-IsConsistent platform adapters e db h
  ingest_event-IsConsistent path (stream_chunk_event e) db h =
      optional_outcome-IsConsistent db _ (persist_stream_chunk_event platform adapters e db) h
        (λ _. h) (persist_stream_chunk_event-OnOk platform adapters e db h)

  ingest_content-IsConsistent :
      (file : SpoolFile) (db : Db)
      → IsConsistent db
      → IsConsistent (ingest_content platform adapters error_message file db).1
  unfolding ingest_content record_malformed_spool_file
  ingest_content-IsConsistent file db h = elim (Result-cases file.content) [
    | inr (message, e) ↦ rw (ingest_content, e) h
    | inl (event, e) ↦ rw (ingest_content, e) (ingest_event-IsConsistent file.name event db h)
  ]

  ingest_files-IsConsistent :
      (files : List SpoolFile) (result : IngestResult) (spy : Spy)
      → IsConsistent spy.db
      → IsConsistent (ingest_files platform adapters error_message files result spy).1.db
  unfolding ingest_files ingest_spool_file
  ingest_files-IsConsistent [] result spy h = h
  ingest_files-IsConsistent (file ∷ files) result spy h =
      ingest_files-IsConsistent files _ _ (ingest_content-IsConsistent file spy.db h)

  ingest_spool_batch-IsConsistent :
      (limit : Option ℕ) (now : ℕ) (spy : Spy)
      → IsConsistent spy.db
      → IsConsistent (ingest_spool_batch platform adapters error_message limit now spy).1.db
  unfolding ingest_spool_batch
  ingest_spool_batch-IsConsistent limit now spy h =
      let left =
        ingest_files platform adapters error_message
          (limited platform adapters error_message limit (spool_files spy.spool)) no_files spy in
      let kept =
        ingest_files-IsConsistent
          (limited platform adapters error_message limit (spool_files spy.spool)) no_files spy h in
      elim (Bool-cases (ltb 0 left.0.ingested_count)) [
        | inl e ↦ rw (ingest_spool_batch, e) kept
        | inr e ↦ rw (ingest_spool_batch, e) kept
      ]

  shrink-IsConsistent :
      (fuel max_bytes : ℕ) (db : Db)
      → IsConsistent db
      → IsConsistent (shrink used_bytes size_bytes platform.number_text fuel max_bytes db).1
  unfolding shrink
  shrink-IsConsistent zero max_bytes db h = h
  shrink-IsConsistent (suc fuel) max_bytes db h =
      elim (Bool-cases (ltb max_bytes (used_bytes db))) [
        | inr small ↦ rw (shrink, small) h
        | inl large ↦ elim (delete_oldest_call-cases db) [
          | inl (_, stop) ↦ rw (shrink, large, stop) h
          | inr (id, next, _) ↦
              rw (shrink, large, next)
                (shrink-IsConsistent fuel max_bytes (delete_calls (has_id id) db)
                  (delete_calls-IsConsistent (has_id id) db h))
        ]
      ]

  note_retention-IsConsistent :
      (now deleted : ℕ) (db : Db)
      → IsConsistent db
      → IsConsistent (note_retention used_bytes size_bytes platform.number_text now deleted db)
  unfolding note_retention
  note_retention-IsConsistent now deleted db h = elim (Bool-cases (ltb 0 deleted)) [
    | inl e ↦ rw (note_retention, e) h
    | inr e ↦ rw (note_retention, e) h
  ]

  run_retention-IsConsistent :
      (now retention_days max_bytes : ℕ) (db : Db)
      → IsConsistent db
      → IsConsistent
          (run_retention used_bytes size_bytes platform.number_text now retention_days max_bytes
            db).1
  unfolding run_retention delete_calls_before
  run_retention-IsConsistent now retention_days max_bytes db h =
      note_retention-IsConsistent now _ _ (
        shrink-IsConsistent _ max_bytes _
          (delete_calls-IsConsistent (is_older (now - days_ms retention_days)) db h))

  Step-IsConsistent : {spy next : Spy} → Step spy next → IsConsistent spy.db → IsConsistent next.db
  unfolding clear_data
  Step-IsConsistent (capture db before after file) h = h
  Step-IsConsistent (ingest limit now spy) h = ingest_spool_batch-IsConsistent limit now spy h
  Step-IsConsistent (direct_request event spy db e) h =
      subst (OnOk IsConsistent) e (persist_request-OnOk platform adapters event spy.db h)
  Step-IsConsistent (direct_response event spy db e) h =
      subst (OnOk (OnSome IsConsistent)) e (persist_response-OnOk platform adapters event spy.db h)
  Step-IsConsistent (retain now retention_days max_bytes spy) h =
      run_retention-IsConsistent now retention_days max_bytes spy.db h
  Step-IsConsistent (clear now generation spy) h = delete_calls-IsConsistent (λ _. true) spy.db h

  -- Whatever sequence of ingested batches, directly persisted requests and responses, retentions and
  -- clears a spy goes through from an empty database, while the proxy writes spool files, the ids of
  -- its calls stay distinct and every row of the other tables belongs to a call that is there.
  pub IsReachable-IsConsistent : (spy : Spy) → IsReachable spy → IsConsistent spy.db
  IsReachable-IsConsistent _ (start spool) = (tt, tt, tt, tt, tt, tt, tt)
  IsReachable-IsConsistent _ (then_step spy next past step) =
      Step-IsConsistent step (IsReachable-IsConsistent spy past)
