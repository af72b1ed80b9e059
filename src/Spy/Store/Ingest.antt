-- ===== src/Spy/Store/Ingest.antt =====
-- `ingestSpoolBatch` and `ingestSpoolFileUnlocked` of src/spy/store.ts. The spool directory is the
-- list of its files in the order of their names; a file is its event, or the error of reading it.
pub mod Counts
pub mod Outcomes
pub mod Waiting
use rootcell.Prelude.{
  ℕ, ◌+◌, Bool, true, false, not, ◌&&◌, ◌||◌, List, [], ◌∷◌, ◌++◌, Option, none, some, ◌==◌, ltb,
  if◌then◌else◌, filter, take, Text, codes, text_eq, starts_with, length, Result, ok, err,
}
use rootcell.Instance.Name.Selection.{ends_with}
use rootcell.Spy.Records.{
  ProviderId, SpoolEvent, request_event, response_event, stream_chunk_event, error_event,
  dropped_event,
}
use rootcell.Spy.Store.Tables.{Db, StoreError, increment_counter, set_metadata, delete_calls}
use rootcell.Spy.Store.Persist.{
  Platform, SpyProviderAdapter, persist_request, persist_response, persist_dropped_event,
  persist_error_event, persist_stream_chunk_event,
}

pub record SpoolFile : Type 0 where
  pub name : Text
  pub content : Result Text SpoolEvent

pub data Outcome : Type 0 where
  ingested : Outcome
  deferred : Outcome
  malformed : Outcome
  failed : Outcome

pub record IngestResult : Type 0 where
  pub attempted : ℕ
  pub ingested_count : ℕ
  pub deleted : ℕ
  pub deferred_count : ℕ
  pub malformed_count : ℕ
  pub errors : ℕ

-- The database and the spool directory.
pub record Spy : Type 0 where
  pub db : Db
  pub spool : List SpoolFile

abbrev pub no_files : IngestResult
no_files = record {
  attempted = 0;
  ingested_count = 0;
  deleted = 0;
  deferred_count = 0;
  malformed_count = 0;
  errors = 0;
}

-- `spoolFiles`
unfoldable pub is_spool_file : SpoolFile → Bool
is_spool_file file = not (starts_with file.name (codes ".")) && ends_with file.name (codes ".json")

abbrev pub spool_files : List SpoolFile → List SpoolFile
spool_files spool = filter is_spool_file spool

unfoldable pub unlink : Text → List SpoolFile → List SpoolFile
unlink name spool = filter (λ file. not (text_eq file.name name)) spool

unfoldable pub record_malformed_spool_file : Text → Text → Db → Db
record_malformed_spool_file path message db = set_metadata (codes "last_malformed_error") message (
    set_metadata (codes "last_malformed_spool_file") path
      (increment_counter (codes "spool_malformed_events") 1 db))

unfoldable pub record_ingest_error : Text → Text → Db → Db
record_ingest_error path message db = set_metadata (codes "last_ingest_error") message (
    set_metadata (codes "last_ingest_error_file") path
      (increment_counter (codes "spool_ingest_errors") 1 db))

-- How the round of the loop counts an outcome.
unfoldable pub count_outcome : Outcome → IngestResult → IngestResult
count_outcome ingested r = record r {
  attempted = r.attempted + 1;
  ingested_count = r.ingested_count + 1;
  deleted = r.deleted + 1;
}
count_outcome malformed r = record r {
  attempted = r.attempted + 1;
  malformed_count = r.malformed_count + 1;
  deleted = r.deleted + 1;
}
count_outcome deferred r = record r {
  attempted = r.attempted + 1;
  deferred_count = r.deferred_count + 1;
}
count_outcome failed r = record r { attempted = r.attempted + 1; errors = r.errors + 1 }

-- A transaction that may put the event off.
abbrev pub optional_outcome : Db → (StoreError → Db) → Result StoreError (Option Db) → Outcome × Db
optional_outcome db failure (err e) = (failed, failure e)
optional_outcome db failure (ok none) = (deferred, db)
optional_outcome db failure (ok (some written)) = (ingested, written)

abbrev pub write_outcome : (StoreError → Db) → Result StoreError Db → Outcome × Db
write_outcome failure (err e) = (failed, failure e)
write_outcome failure (ok written) = (ingested, written)

module _ (platform : Platform) (adapters : ProviderId → SpyProviderAdapter)
    (error_message : StoreError → Text) where
  unfoldable pub ingest_event : Text → SpoolEvent → Db → Outcome × Db
  ingest_event path event db =
      let failure : StoreError → Db = λ e. record_ingest_error path (error_message e) db in
      elim event [
        | request_event e ↦ write_outcome failure (persist_request platform adapters e db)
        | response_event e ↦ optional_outcome db failure (persist_response platform adapters e db)
        | dropped_event e ↦ (ingested, persist_dropped_event platform adapters e db)
        | error_event e ↦ (ingested, persist_error_event platform adapters e db)
        | stream_chunk_event e ↦
            optional_outcome db failure (persist_stream_chunk_event platform adapters e db)
      ]

  -- A file that is done with is unlinked.
  abbrev pub is_done : Outcome → Bool
  is_done ingested = true
  is_done malformed = true
  is_done deferred = false
  is_done failed = false

  unfoldable pub ingest_content : SpoolFile → Db → Outcome × Db
  ingest_content file db = elim file.content [
    | err message ↦ (malformed, record_malformed_spool_file file.name message db)
    | ok event ↦ ingest_event file.name event db
  ]

  unfoldable pub ingest_spool_file : SpoolFile → Spy → Outcome × Spy
  ingest_spool_file file spy =
      let (outcome, db) = ingest_content file spy.db in
      (
        outcome,
        record {
          db = db;
          spool = if is_done outcome then unlink file.name spy.spool else spy.spool;
        },
      )

  unfoldable pub ingest_files : List SpoolFile → IngestResult → Spy → IngestResult × Spy
  ingest_files [] result spy = (result, spy)
  ingest_files (file ∷ files) result spy =
      let (outcome, next) = ingest_spool_file file spy in
      ingest_files files (count_outcome outcome result) next

  -- Without a limit all files are taken.
  abbrev pub limited : Option ℕ → List SpoolFile → List SpoolFile
  limited none files = files
  limited (some limit) files = take limit files

  unfoldable pub ingest_spool_batch : Option ℕ → ℕ → Spy → IngestResult × Spy
  ingest_spool_batch limit now spy =
      let (result, next) = ingest_files (limited limit (spool_files spy.spool)) no_files spy in
      (
        result,
        if ltb 0 result.ingested_count
            then record next {
              db = set_metadata (codes "last_ingest_at") (platform.number_text now) next.db;
            }
            else next,
      )
