-- ===== src/Spy/Store/Ingest/Waiting.antt =====
-- Files that wait for a call: responses and stream chunks whose call is not in the database.
use rootcell.Prelude.{
  ℕ, ◌+◌, ◌≡◌, refl, subst, false, List, [], ◌∷◌, some, All, take, length, Text, Result, ok,
  Result-cases, inl, inr, arith,
}
use rootcell.Spy.Records.{
  ProviderId, SpoolEvent, request_event, response_event, stream_chunk_event, error_event,
  dropped_event, HttpCapture,
}
use rootcell.Spy.Store.Tables.{Db, StoreError, has_call}
use rootcell.Spy.Store.Persist.{
  Platform, SpyProviderAdapter, persist_response, persist_stream_chunk_event,
}
use rootcell.Spy.Store.Ingest.{
  SpoolFile, Spy, IngestResult, deferred, no_files, count_outcome, spool_files, ingest_event,
  ingest_content, ingest_spool_file, ingest_files, ingest_spool_batch,
}

module _ (platform : Platform) (adapters : ProviderId → SpyProviderAdapter)
    (error_message : StoreError → Text) where
  abbrev pub LacksCall : Db → HttpCapture → Type 0
  LacksCall db http =
      has_call db.calls ((adapters http.provider).call_id_for_flow http.flow_id) ≡ false

  abbrev pub Waits : Db → Result Text SpoolEvent → Type 0
  Waits db (ok (response_event e)) = LacksCall db e.http
  Waits db (ok (stream_chunk_event e)) = LacksCall db e.http
  Waits db _ = ⊥

  ingest_event-Waits :
      (name : Text) (event : SpoolEvent) (db : Db)
      → Waits db (ok event)
      → ingest_event platform adapters error_message name event db ≡ (deferred, db)
  unfolding ingest_event persist_response persist_stream_chunk_event
  ingest_event-Waits name (response_event e) db h = rw (ingest_event, persist_response, h) refl
  ingest_event-Waits name (stream_chunk_event e) db h =
      rw (ingest_event, persist_stream_chunk_event, h) refl
  ingest_event-Waits name (request_event e) db h = absurd h
  ingest_event-Waits name (error_event e) db h = absurd h
  ingest_event-Waits name (dropped_event e) db h = absurd h

  ingest_content-Waits :
      (file : SpoolFile) (db : Db)
      → Waits db file.content
      → ingest_content platform adapters error_message file db ≡ (deferred, db)
  unfolding ingest_content
  ingest_content-Waits file db h = elim (Result-cases file.content) [
    | inr (message, e) ↦ absurd (subst (Waits db) e h)
    | inl (event, e) ↦
        rw (ingest_content, e) (ingest_event-Waits file.name event db (subst (Waits db) e h))
  ]

  ingest_spool_file-Waits :
      (file : SpoolFile) (spy : Spy)
      → Waits spy.db file.content
      → ingest_spool_file platform adapters error_message file spy ≡ (deferred, spy)
  unfolding ingest_spool_file
  ingest_spool_file-Waits file spy h =
      rw (ingest_spool_file, ingest_content-Waits file spy.db h) refl

  ingest_files-Waits :
      (files : List SpoolFile) (r : IngestResult) (spy : Spy)
      → All (λ file. Waits spy.db file.content) files
      → let (result, after) = ingest_files platform adapters error_message files r spy in
        (after ≡ spy)
        × (result.deferred_count ≡ r.deferred_count + length files)
        × (result.ingested_count ≡ r.ingested_count)
  unfolding ingest_files count_outcome
  ingest_files-Waits [] r spy h = (refl, omega arith, refl)
  ingest_files-Waits (file ∷ files) r spy (h, hs) =
      let (same, d, i) = ingest_files-Waits files (count_outcome deferred r) spy hs in
      rw (ingest_files, ingest_spool_file-Waits file spy h) (same, omega (arith, d), i)

  -- When the first files of the spool, as many as the limit, are responses and stream chunks whose
  -- calls are not in the database, a batch with that limit defers them all and leaves the database
  -- and the spool as they are, so that the next batch takes the same files again and not the files
  -- behind them.
  pub ingest_spool_batch-Waits :
      (limit now : ℕ) (spy : Spy)
      → All (λ file. Waits spy.db file.content) (take limit (spool_files spy.spool))
      → let (result, after) =
          ingest_spool_batch platform adapters error_message (some limit) now spy in
        (after ≡ spy) × (result.deferred_count ≡ length (take limit (spool_files spy.spool)))
  unfolding ingest_spool_batch
  ingest_spool_batch-Waits limit now spy h =
      let (same, d, i) = ingest_files-Waits (take limit (spool_files spy.spool)) no_files spy h in
      rw (ingest_spool_batch, i) (same, omega (arith, d))
