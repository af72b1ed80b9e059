-- ===== src/Spy/Store/Ingest/Counts.antt =====
-- The counts that a batch of src/spy/store.ts reports, against the outcomes of its files and the
-- spool that it leaves.
use rootcell.Prelude.{
  ℕ, ◌+◌, ◌≡◌, refl, sym, ap, ◌∙◌, ltb, Bool, true, false, not, ◌&&◌, ◌||◌, List, [], ◌∷◌, Option,
  length, filter, any, Text, text_eq, arith, if◌then◌else◌,
}
use rootcell.Spy.Records.{ProviderId}
use rootcell.Spy.Store.Tables.{StoreError, Db}
use rootcell.Spy.Store.Persist.{Platform, SpyProviderAdapter}
use rootcell.Spy.Store.Ingest.{
  SpoolFile, Spy, Outcome, IngestResult, ingested, deferred, malformed, failed, no_files,
  count_outcome, ingest_files, ingest_spool_batch, ingest_spool_file, ingest_content, is_done,
  limited, spool_files, unlink,
}

-- A file that a batch has taken, and how it ended.
abbrev pub Ended : Type 0
Ended = SpoolFile × Outcome

abbrev pub same_outcome : Outcome → Outcome → Bool
same_outcome ingested ingested = true
same_outcome deferred deferred = true
same_outcome malformed malformed = true
same_outcome failed failed = true
same_outcome _ _ = false

-- How many of the files ended this way.
abbrev pub number_of : Outcome → List Ended → ℕ
number_of outcome trace = length (filter (λ (e : Ended). same_outcome e.1 outcome) trace)

-- A file is read and done with: it was ingested or could not be parsed.
abbrev pub is_settled_file : Ended → Bool
is_settled_file (file, outcome) = same_outcome outcome ingested || same_outcome outcome malformed

-- Is this the name of a file that is done with?
abbrev pub is_settled_name : List Ended → Text → Bool
is_settled_name trace name = any (λ (e : Ended). is_settled_file e && text_eq name e.0.name) trace

-- The counters of `after` are those of `before` and the files that ended since.
abbrev pub Adds : List Ended → IngestResult → IngestResult → Type 0
Adds trace before after =
    (after.attempted ≡ before.attempted + length trace)
    × (after.ingested_count ≡ before.ingested_count + number_of ingested trace)
    × (after.malformed_count ≡ before.malformed_count + number_of malformed trace)
    × (after.deferred_count ≡ before.deferred_count + number_of deferred trace)
    × (after.errors ≡ before.errors + number_of failed trace)
    × (after.deleted ≡ before.deleted + length (filter is_settled_file trace))

-- One file more.
Adds-count_outcome :
    (file : SpoolFile) (outcome : Outcome) (n : IngestResult) (trace : List Ended)
    (r : IngestResult)
    → Adds trace (count_outcome outcome n) r
    → Adds ((file, outcome) ∷ trace) n r
unfolding count_outcome
Adds-count_outcome file ingested n trace r h = ground arith
Adds-count_outcome file malformed n trace r h = ground arith
Adds-count_outcome file deferred n trace r h = ground arith
Adds-count_outcome file failed n trace r h = ground arith

-- Removing one name after the others.
without_settled :
    (e : Ended) (trace : List Ended) (spool : List SpoolFile)
    → filter
        (λ file. not (is_settled_name trace file.name))
        (if is_settled_file e then unlink e.0.name spool else spool)
      ≡ filter (λ file. not (is_settled_name (e ∷ trace) file.name)) spool
unfolding unlink
without_settled e trace [] = ground arith
without_settled e trace (file ∷ spool) = ground (arith, without_settled e trace spool)

filter_all : (spool : List SpoolFile) → filter (λ f. not (is_settled_name [] f.name)) spool ≡ spool
filter_all [] = refl
filter_all (file ∷ spool) = ap (λ rest. file ∷ rest) (filter_all spool)

-- Writing to the database leaves the spool.
noted_spool :
    (b : Bool) (spy : Spy) (db : Db) → (if b then record spy { db = db } else spy).spool ≡ spy.spool
noted_spool true spy db = refl
noted_spool false spy db = refl

module _ (platform : Platform) (adapters : ProviderId → SpyProviderAdapter)
    (error_message : StoreError → Text) where
  -- How each of the files ends when they are ingested one after the other.
  pub outcomes : List SpoolFile → Spy → List Ended
  outcomes [] spy = []
  outcomes (file ∷ files) spy =
      let (outcome, next) = ingest_spool_file platform adapters error_message file spy in
      (file, outcome) ∷ outcomes files next

  Adds-ingest_files :
      (files : List SpoolFile) (r : IngestResult) (spy : Spy)
      → Adds (outcomes files spy) r (ingest_files platform adapters error_message files r spy).0
  unfolding ingest_files outcomes
  Adds-ingest_files [] r spy =
      (omega arith, omega arith, omega arith, omega arith, omega arith, omega arith)
  Adds-ingest_files (file ∷ files) r spy =
      let (outcome, next) = ingest_spool_file platform adapters error_message file spy in
      Adds-count_outcome file outcome r _ _ (Adds-ingest_files files (count_outcome outcome r) next)

  is_done-spool :
      (outcome : Outcome) (name : Text) (spool : List SpoolFile)
      → (if is_done platform adapters error_message outcome then unlink name spool else spool) ≡ (
          if same_outcome outcome ingested || same_outcome outcome malformed
          then unlink name spool
          else spool)
  is_done-spool ingested name spool = refl
  is_done-spool malformed name spool = refl
  is_done-spool deferred name spool = refl
  is_done-spool failed name spool = refl

  ingest_spool_file-spool :
      (file : SpoolFile) (spy : Spy)
      → let (outcome, next) = ingest_spool_file platform adapters error_message file spy in
        next.spool
        ≡ (if is_settled_file (file, outcome) then unlink file.name spy.spool else spy.spool)
  unfolding ingest_spool_file
  ingest_spool_file-spool file spy =
      let (outcome, db) = ingest_content platform adapters error_message file spy.db in
      is_done-spool outcome file.name spy.spool

  ingest_files-spool :
      (files : List SpoolFile) (r : IngestResult) (spy : Spy)
      → (ingest_files platform adapters error_message files r spy).1.spool
        ≡ filter (λ f. not (is_settled_name (outcomes files spy) f.name)) spy.spool
  unfolding ingest_files outcomes
  ingest_files-spool [] r spy = sym (filter_all spy.spool)
  ingest_files-spool (file ∷ files) r spy =
      let (outcome, next) = ingest_spool_file platform adapters error_message file spy in
      let trace = outcomes files next in
      ingest_files-spool files (count_outcome outcome r) next
      ∙ ap (filter (λ f. not (is_settled_name trace f.name))) (ingest_spool_file-spool file spy)
      ∙ without_settled (file, outcome) trace spy.spool

  -- A batch takes the spool files one after the other, up to the limit. Each of its counters is the
  -- number of these files that ended so: all of them, the ingested, the malformed, the deferred, the
  -- failed, and as deleted the ingested or malformed ones. The spool behind it is the spool of before
  -- without the names of exactly the files that were ingested or malformed.
  pub ingest_spool_batch-Counts :
      (limit : Option ℕ) (now : ℕ) (spy : Spy)
      → let trace =
          outcomes (limited platform adapters error_message limit (spool_files spy.spool)) spy in
        let (result, after) = ingest_spool_batch platform adapters error_message limit now spy in
        Adds trace no_files result
        × (after.spool ≡ filter (λ f. not (is_settled_name trace f.name)) spy.spool)
  unfolding ingest_spool_batch
  ingest_spool_batch-Counts limit now spy =
      let files = limited platform adapters error_message limit (spool_files spy.spool) in
      let (result, next) = ingest_files platform adapters error_message files no_files spy in
      (
        Adds-ingest_files files no_files spy,
        noted_spool (ltb 0 result.ingested_count) next _ ∙ ingest_files-spool files no_files spy,
      )
