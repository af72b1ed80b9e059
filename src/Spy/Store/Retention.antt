-- ===== src/Spy/Store/Retention.antt =====
-- `runRetention` and `clearData` of src/spy/store.ts. How many bytes the pages of a database take is
-- SQLite's matter, and an argument; VACUUM leaves the rows as they are.
pub mod Bounds
use rootcell.Prelude.{
  ℕ, zero, suc, ◌+◌, ◌-◌, ◌*◌, Bool, true, false, not, ◌&&◌, ◌||◌, List, [], ◌∷◌, ◌++◌, Option,
  none, some, ◌==◌, ltb, leb, if◌then◌else◌, filter, length, Text, codes, text_eq, starts_with,
}
use rootcell.Spy.Store.Order.{text_ltb}
use rootcell.Spy.Records.{ProviderCall}
use rootcell.Spy.Store.Tables.{Db, delete_calls, increment_counter, set_metadata}
use rootcell.Spy.Store.Ingest.{SpoolFile, Spy}

pub record RetentionResult : Type 0 where
  pub deleted_by_age : ℕ
  pub deleted_by_size : ℕ
  pub vacuumed : Bool

-- `ORDER BY started_at ASC, id ASC`
unfoldable pub is_before : ProviderCall → ProviderCall → Bool
is_before a b =
    ltb a.started_at b.started_at || (a.started_at == b.started_at && text_ltb a.id b.id)

unfoldable pub oldest_of : ProviderCall → List ProviderCall → ProviderCall
oldest_of call [] = call
oldest_of call (c ∷ calls) =
    let oldest = oldest_of c calls in if is_before oldest call then oldest else call

unfoldable pub oldest_call : List ProviderCall → Option ProviderCall
oldest_call [] = none
oldest_call (c ∷ calls) = some (oldest_of c calls)

abbrev pub has_id : Text → ProviderCall → Bool
has_id id c = text_eq c.id id

unfoldable pub delete_oldest_call : Db → Option Db
delete_oldest_call db = elim (oldest_call db.calls) [
  | none ↦ none
  | some oldest ↦ some (delete_calls (has_id oldest.id) db)
]

abbrev pub is_older : ℕ → ProviderCall → Bool
is_older cutoff c = ltb c.started_at cutoff

-- How many calls were deleted, and what is left.
unfoldable pub delete_calls_before : ℕ → Db → ℕ × Db
delete_calls_before cutoff db =
    (length (filter (is_older cutoff) db.calls), delete_calls (is_older cutoff) db)

-- The time of a retention of some days, in milliseconds.
abbrev pub days_ms : ℕ → ℕ
days_ms days = days * 24 * 60 * 60 * 1000

module _ (used_bytes : Db → ℕ) (size_bytes : Db → ℕ) (number_text : ℕ → Text) where
  -- The loop over the size: each round deletes a call, so their number is fuel enough.
  unfoldable pub shrink : ℕ → ℕ → Db → ℕ × Db
  shrink zero max_bytes db = (0, db)
  shrink (suc fuel) max_bytes db =
      if ltb max_bytes (used_bytes db)
      then elim (delete_oldest_call db) [
        | none ↦ (0, db)
        | some smaller ↦ let (deleted, left) = shrink fuel max_bytes smaller in (deleted + 1, left)
      ]
      else (0, db)

  unfoldable pub note_retention : ℕ → ℕ → Db → Db
  note_retention now deleted db =
      if ltb 0 deleted
      then increment_counter (codes "retention_deleted_calls") deleted
          (set_metadata (codes "last_retention_at") (number_text now) db)
      else db

  unfoldable pub run_retention : ℕ → ℕ → ℕ → Db → RetentionResult × Db
  run_retention now retention_days max_bytes db =
      let (by_age, recent) = delete_calls_before (now - days_ms retention_days) db in
      let (by_size, small) = shrink (length recent.calls) max_bytes recent in
      let noted = note_retention now (by_age + by_size) small in
      (
        record {
          deleted_by_age = by_age;
          deleted_by_size = by_size;
          vacuumed = ltb 0 (by_age + by_size) && ltb max_bytes (size_bytes noted);
        },
        noted,
      )

  -- `clearSpoolFiles`: the files whose name does not begin with a dot.
  abbrev pub is_hidden : SpoolFile → Bool
  is_hidden file = starts_with file.name (codes ".")

  -- `generation` is the number in the metadata, 0 where there is none.
  unfoldable pub clear_data : ℕ → ℕ → Spy → ℕ × Spy
  clear_data now generation spy =
      let cleared = delete_calls (λ _. true) spy.db in
      (
        length (filter (λ file. not (is_hidden file)) spy.spool),
        record {
          db = set_metadata (codes "clear_baseline_ts") (number_text now) (
              set_metadata (codes "clear_generation") (number_text (generation + 1))
                (record cleared { counters = [] }));
          spool = filter is_hidden spy.spool;
        },
      )
