-- ===== src/Spy/Store/Ingest/Outcomes.antt =====
-- What ingesting a file of the spool does, by the file's content and the end of its transaction
-- (`ingestSpoolFileUnlocked` of src/spy/store.ts).
use rootcell.Prelude.{
  ◌≡◌, refl, Bool, true, false, not, List, Option, none, some, filter, Text, text_eq, Result, ok,
  err, arith, Result-cases, inl, inr, ◌⊎◌, Bool-cases,
}
use rootcell.Spy.Records.{
  ProviderId, HttpCapture, SpoolEvent, request_event, response_event, stream_chunk_event,
  error_event, dropped_event, SpoolResponseEvent, SpoolStreamChunkEvent,
}
use rootcell.Spy.Store.Tables.{Db, StoreError, has_call}
use rootcell.Spy.Store.Persist.{
  Platform, SpyProviderAdapter, persist_request, persist_response, persist_dropped_event,
  persist_error_event, persist_stream_chunk_event,
}
use rootcell.Spy.Store.Ingest.{
  SpoolFile, Spy, Outcome, ingested, deferred, malformed, failed, unlink,
  record_malformed_spool_file, record_ingest_error, ingest_event, ingest_content, ingest_spool_file,
}

some_is_not_none : (db : Db) → ¬ (Path (Result StoreError (Option Db)) (ok (some db)) (ok none))
some_is_not_none db h = cc

-- The spool without the file of a name.
abbrev pub without_file : Text → List SpoolFile → List SpoolFile
without_file name spool = filter (λ file. not (text_eq file.name name)) spool

module _ (platform : Platform) (adapters : ProviderId → SpyProviderAdapter)
    (error_message : StoreError → Text) where
  -- Is the call of a captured flow in the database?
  abbrev pub is_known_flow : HttpCapture → Db → Bool
  is_known_flow http db = has_call db.calls ((adapters http.provider).call_id_for_flow http.flow_id)

  -- The transaction of an event writes a database.
  abbrev pub Writes : SpoolEvent → Db → Db → Type 0
  Writes (request_event e) db after = persist_request platform adapters e db ≡ ok after
  Writes (response_event e) db after =
      (is_known_flow e.http db ≡ true) × (persist_response platform adapters e db ≡ ok (some after))
  Writes (stream_chunk_event e) db after =
      (is_known_flow e.http db ≡ true)
      × (persist_stream_chunk_event platform adapters e db ≡ ok (some after))
  Writes (error_event e) db after = after ≡ persist_error_event platform adapters e db
  Writes (dropped_event e) db after = after ≡ persist_dropped_event platform adapters e db

  -- The transaction of an event throws.
  abbrev pub Throws : SpoolEvent → Db → StoreError → Type 0
  Throws (request_event e) db error = persist_request platform adapters e db ≡ err error
  Throws (response_event e) db error = persist_response platform adapters e db ≡ err error
  Throws (stream_chunk_event e) db error =
      persist_stream_chunk_event platform adapters e db ≡ err error
  Throws _ db error = ⊥

  -- The call of a response or a stream chunk is not in the database.
  abbrev pub IsEarly : SpoolEvent → Db → Type 0
  IsEarly (response_event e) db = is_known_flow e.http db ≡ false
  IsEarly (stream_chunk_event e) db = is_known_flow e.http db ≡ false
  IsEarly _ db = ⊥

  -- The outcome of an event and the database behind it.
  abbrev EventEnds : Text → SpoolEvent → Db → Outcome → Db → Type 0
  EventEnds name event db outcome after =
      ((outcome ≡ ingested) × Writes event db after)
      ⊎ ((outcome ≡ deferred) × IsEarly event db × (after ≡ db))
      ⊎ ((outcome ≡ failed)
          × ((error : StoreError) × Throws event db error
              × (after ≡ record_ingest_error name (error_message error) db)))

  -- The outcome of a file, and the database and the spool behind it.
  abbrev pub Ends : SpoolFile → Spy → Outcome → Spy → Type 0
  Ends file spy outcome after =
      ((outcome ≡ malformed)
        × (after.spool ≡ without_file file.name spy.spool)
        × ((message : Text) × (file.content ≡ err message)
            × (after.db ≡ record_malformed_spool_file file.name message spy.db)))
      ⊎ ((outcome ≡ ingested)
          × (after.spool ≡ without_file file.name spy.spool)
          × ((event : SpoolEvent) × (file.content ≡ ok event) × Writes event spy.db after.db))
      ⊎ ((outcome ≡ deferred)
          × (after.spool ≡ spy.spool)
          × ((event : SpoolEvent) × (file.content ≡ ok event)
              × IsEarly event spy.db
              × (after.db ≡ spy.db)))
      ⊎ ((outcome ≡ failed)
          × (after.spool ≡ spy.spool)
          × ((event : SpoolEvent) × (file.content ≡ ok event)
              × ((error : StoreError) × Throws event spy.db error
                  × (after.db ≡ record_ingest_error file.name (error_message error) spy.db))))

  persist_response-known :
      (e : SpoolResponseEvent) (db : Db)
      → is_known_flow e.http db ≡ true
      → ¬ (persist_response platform adapters e db ≡ ok none)
  unfolding persist_response
  persist_response-known e db known h = ground arith

  persist_response-early :
      (e : SpoolResponseEvent) (db : Db)
      → is_known_flow e.http db ≡ false
      → persist_response platform adapters e db ≡ ok none
  unfolding persist_response
  persist_response-early e db early = rw (persist_response, early) refl

  persist_chunk-known :
      (e : SpoolStreamChunkEvent) (db : Db)
      → is_known_flow e.http db ≡ true
      → ¬ (persist_stream_chunk_event platform adapters e db ≡ ok none)
  unfolding persist_stream_chunk_event
  persist_chunk-known e db known h = ground arith

  persist_chunk-early :
      (e : SpoolStreamChunkEvent) (db : Db)
      → is_known_flow e.http db ≡ false
      → persist_stream_chunk_event platform adapters e db ≡ ok none
  unfolding persist_stream_chunk_event
  persist_chunk-early e db early = rw (persist_stream_chunk_event, early) refl

  ingest_event-response :
      (name : Text) (e : SpoolResponseEvent) (db : Db)
      → let (outcome, after) =
          ingest_event platform adapters error_message name (response_event e) db in
        EventEnds name (response_event e) db outcome after
  unfolding ingest_event
  ingest_event-response name e db = elim (Bool-cases (is_known_flow e.http db)) [
    | inr early ↦
        rw (ingest_event, persist_response-early e db early) (inr (inl (refl, early, refl)))
    | inl known ↦ elim (Result-cases (persist_response platform adapters e db)) [
      | inr (error, p) ↦ rw (ingest_event, p) (inr (inr (refl, (error, refl, refl))))
      | inl (some after, p) ↦ rw (ingest_event, p) (inl (refl, (known, refl)))
      | inl (none, p) ↦ absurd (persist_response-known e db known p)
    ]
  ]

  ingest_event-chunk :
      (name : Text) (e : SpoolStreamChunkEvent) (db : Db)
      → let (outcome, after) =
          ingest_event platform adapters error_message name (stream_chunk_event e) db in
        EventEnds name (stream_chunk_event e) db outcome after
  unfolding ingest_event
  ingest_event-chunk name e db = elim (Bool-cases (is_known_flow e.http db)) [
    | inr early ↦ rw (ingest_event, persist_chunk-early e db early) (inr (inl (refl, early, refl)))
    | inl known ↦ elim (Result-cases (persist_stream_chunk_event platform adapters e db)) [
      | inr (error, p) ↦ rw (ingest_event, p) (inr (inr (refl, (error, refl, refl))))
      | inl (some after, p) ↦ rw (ingest_event, p) (inl (refl, (known, refl)))
      | inl (none, p) ↦ absurd (persist_chunk-known e db known p)
    ]
  ]

  ingest_event-Ends :
      (name : Text) (event : SpoolEvent) (db : Db)
      → let (outcome, after) = ingest_event platform adapters error_message name event db in
        EventEnds name event db outcome after
  unfolding ingest_event
  ingest_event-Ends name (request_event e) db =
      elim (Result-cases (persist_request platform adapters e db)) [
        | inr (error, p) ↦ rw (ingest_event, p) (inr (inr (refl, (error, refl, refl))))
        | inl (after, p) ↦ rw (ingest_event, p) (inl (refl, refl))
      ]
  ingest_event-Ends name (response_event e) db = ingest_event-response name e db
  ingest_event-Ends name (stream_chunk_event e) db = ingest_event-chunk name e db
  ingest_event-Ends name (dropped_event e) db = inl (refl, refl)
  ingest_event-Ends name (error_event e) db = inl (refl, refl)

  -- Ingesting a file ends in one of four ways. A file that cannot be read is malformed: it is
  -- removed from the spool and recorded. The event of another file is ingested: the file is removed
  -- from the spool, and the database is what the event's transaction writes, for a response or a
  -- stream chunk only if its call is in the database. Or it is deferred, a response or a stream chunk
  -- whose call is not in the database: nothing changes. Or its transaction throws: the file stays,
  -- and the error is recorded in the database of before. In every case the other files stay.
  pub ingest_spool_file-Ends :
      (file : SpoolFile) (spy : Spy)
      → let (outcome, after) = ingest_spool_file platform adapters error_message file spy in
        Ends file spy outcome after
  unfolding ingest_spool_file ingest_content unlink
  ingest_spool_file-Ends file spy = elim (Result-cases file.content) [
    | inr (message, p) ↦
        rw (ingest_spool_file, ingest_content, p) (inl (refl, refl, (message, refl, refl)))
    | inl (event, p) ↦
        let (outcome, db) = ingest_event platform adapters error_message file.name event spy.db in
        elim (ingest_event-Ends file.name event spy.db) [
          | inl (done, written) ↦
              rw (ingest_spool_file, ingest_content, p, done)
                (inr (inl (refl, refl, (event, refl, written))))
          | inr (inl (later, early, same)) ↦
              rw (ingest_spool_file, ingest_content, p, later)
                (inr (inr (inl (refl, refl, (event, refl, early, same)))))
          | inr (inr (broken, (error, thrown, same))) ↦
              rw (ingest_spool_file, ingest_content, p, broken)
                (inr (inr (inr (refl, refl, (event, refl, (error, thrown, same))))))
        ]
  ]
