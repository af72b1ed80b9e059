-- ===== src/Spy/Store/Tokens.antt =====
-- The token counts of src/spy/store.ts: what is counted of a subject, the table of counts, and the
-- choice of a record for each subject. The final sorting of the chosen records is left out.
pub mod Cache
use rootcell.Prelude.{
  ℕ, Bool, true, false, not, ◌&&◌, List, [], ◌∷◌, ◌++◌, map, Option, none, some, ltb, if◌then◌else◌,
  any, filter, find, take, or_else, Text, codes, text_eq, join, Result, ok, err,
}
use rootcell.Spy.Records.{ProviderId, ProviderCall, NormalizedBlock}
use rootcell.Spy.Tokens.{
  SubjectType, call_subject, section_subject, block_subject, selection_subject, Provenance,
  provider_counted, provider_reported, unavailable, SpyTokenCountRecord, SpyTokenCountSubject,
  whole_call, section, single_block, selection, TokenRecordBase, text_for_block, text_for_blocks,
  subject_text, token_cache_key, base_of,
}
use rootcell.Spy.Store.Tables.{Db, StoreError, duplicate_id, no_such_call, has_call}
use rootcell.Spy.Store.Persist.{blocks_for_call}

-- A row of token_count: its id and its cache key are those of the record that was inserted.
pub record TokenCountRow : Type 0 where
  pub id : Text
  pub cache_key : Text
  pub count : SpyTokenCountRecord

unfoldable pub token_count_id : SpyTokenCountRecord → Text
token_count_id r = join b'-' (
    codes "token"
    ∷ or_else r.call_id (codes "transient")
    ∷ subject_text r.subject_type
    ∷ or_else r.direction (codes "none")
    ∷ or_else r.block_id (or_else r.kind (codes "all"))
    ∷ take 16 r.source_hash
    ∷ [])

abbrev pub is_counted : Provenance → Bool
is_counted provider_counted = true
is_counted _ = false

-- `DO UPDATE SET`
unfoldable pub update_count : SpyTokenCountRecord → TokenCountRow → TokenCountRow
update_count r row = record row {
  count = record row.count {
    label = r.label;
    tokens = r.tokens;
    provenance = r.provenance;
    counted_at = r.counted_at;
    error_text = r.error_text;
  };
}

abbrev pub has_cache_key : Text → TokenCountRow → Bool
has_cache_key key row = text_eq row.cache_key key

unfoldable pub update_rows : Text → SpyTokenCountRecord → List TokenCountRow → List TokenCountRow
update_rows key r [] = []
update_rows key r (row ∷ rows) =
    (if has_cache_key key row then update_count r row else row) ∷ update_rows key r rows

-- `INSERT INTO token_count ... ON CONFLICT(cache_key) DO UPDATE`, for the calls of the database.
unfoldable pub upsert_count :
    List ProviderCall
    → Text
    → SpyTokenCountRecord
    → List TokenCountRow
    → Result StoreError (List TokenCountRow)
upsert_count calls call_id r rows =
    let key = token_cache_key (base_of r) in
    if any (has_cache_key key) rows
    then ok (update_rows key r rows)
    else if any (λ row. text_eq row.id (token_count_id r)) rows
    then err (duplicate_id (token_count_id r))
    else if has_call calls call_id
    then ok (rows ++ record { id = token_count_id r; cache_key = key; count = r } ∷ [])
    else err (no_such_call call_id)

-- What is saved of a record with or without a call, counted by the provider or not.
unfoldable pub save_count :
    Option Text
    → Bool
    → List ProviderCall
    → SpyTokenCountRecord
    → List TokenCountRow
    → Result StoreError (List TokenCountRow)
save_count none counted calls r rows = ok rows
save_count (some call_id) false calls r rows = ok rows
save_count (some call_id) true calls r rows = upsert_count calls call_id r rows

unfoldable pub save_provider_token_count :
    List ProviderCall
    → SpyTokenCountRecord
    → List TokenCountRow
    → Result StoreError (List TokenCountRow)
save_provider_token_count calls r rows = save_count r.call_id (is_counted r.provenance) calls r rows

unfoldable pub get_cached_provider_token_count :
    Text → List TokenCountRow → Option SpyTokenCountRecord
get_cached_provider_token_count cache_key rows = elim (find (has_cache_key cache_key) rows) [
  | none ↦ none
  | some row ↦ some row.count
]

unfoldable pub token_record_key : SpyTokenCountRecord → Text
token_record_key r = join b':' (
    subject_text r.subject_type
    ∷ or_else r.call_id []
    ∷ or_else r.direction []
    ∷ or_else r.block_id []
    ∷ or_else r.kind []
    ∷ or_else r.label []
    ∷ [])

unfoldable pub token_record_priority : SpyTokenCountRecord → ℕ
token_record_priority r = elim r.provenance [
  | provider_counted ↦ 4
  | provider_reported ↦ 3
  | unavailable ↦ 1
]

-- `records` is the map from keys to records.
unfoldable pub add_best_token_record :
    SpyTokenCountRecord → List (Text × SpyTokenCountRecord) → List (Text × SpyTokenCountRecord)
add_best_token_record r [] = (token_record_key r, r) ∷ []
add_best_token_record r ((key, existing) ∷ records) =
    let rest = add_best_token_record r records in
    if text_eq key (token_record_key r)
    then (
      key,
      if ltb (token_record_priority existing) (token_record_priority r) then r else existing,
    )
      ∷ records
    else (key, existing) ∷ rest

pub record SpyPreparedTokenCountSubject : Type 0 where
  pub subject : SpyTokenCountSubject
  pub provider : ProviderId
  pub base : TokenRecordBase
  pub text : Text
  pub request_body_text : Option Text
  pub cache_key : Text

module _ (stable_json token_source_hash : Text → Text)
    (request_body_text_for_call : Text → Option Text) where
  abbrev pub base_for : SubjectType → Text → ProviderCall → ℕ → Text → TokenRecordBase
  base_for subject_type call_id row counted_at source_hash = record {
    subject_type = subject_type;
    call_id = some call_id;
    block_id = none;
    direction = none;
    kind = none;
    label = none;
    source_hash = source_hash;
    model_id = row.model_id;
    counted_at = counted_at;
  }

  abbrev pub prepared :
      SpyTokenCountSubject
      → ProviderCall
      → TokenRecordBase
      → Text
      → Option Text
      → SpyPreparedTokenCountSubject
  prepared subject row base text body = record {
    subject = subject;
    provider = row.provider;
    base = base;
    text = text;
    request_body_text = body;
    cache_key = token_cache_key base;
  }

  abbrev pub subject_call : SpyTokenCountSubject → Text
  subject_call (whole_call call_id direction) = call_id
  subject_call (section call_id direction kind) = call_id
  subject_call (single_block call_id block_id) = call_id
  subject_call (selection call_id label text) = call_id

  unfoldable pub prepare_for_row :
      ℕ → ProviderCall → SpyTokenCountSubject → Db → Option SpyPreparedTokenCountSubject
  prepare_for_row counted_at row (whole_call call_id direction) db =
      let text = text_for_blocks stable_json (blocks_for_call call_id direction db) in
      let hash = or_else row.request_content_hash (token_source_hash text) in
      let base = record (base_for call_subject call_id row counted_at hash) {
        direction = some direction;
      } in
      some
        (prepared (whole_call call_id direction) row base text (request_body_text_for_call call_id))
  prepare_for_row counted_at row (section call_id direction kind) db =
      let blocks = filter (λ b. text_eq b.kind kind) (blocks_for_call call_id direction db) in
      let hash = token_source_hash (join b'\n' (map (λ b. b.content_hash) blocks)) in
      let base = record (base_for section_subject call_id row counted_at hash) {
        direction = some direction;
        kind = some kind;
      } in
      some (
        prepared (section call_id direction kind) row base (text_for_blocks stable_json blocks)
          none)
  prepare_for_row counted_at row (single_block call_id block_id) db =
      elim (find (λ (b : NormalizedBlock). text_eq b.call_id call_id && text_eq b.id block_id)
        db.blocks) [
          | none ↦ none
          | some block ↦
              let base = record (base_for block_subject call_id row counted_at block.content_hash) {
                block_id = some block_id;
                direction = some block.direction;
                kind = some block.kind;
              } in
              some (
                prepared (single_block call_id block_id) row base (text_for_block stable_json block)
                  none)
        ]
  prepare_for_row counted_at row (selection call_id label text) db =
      let base =
        record (base_for selection_subject call_id row counted_at (token_source_hash text)) {
          label = label;
        } in
      some (prepared (selection call_id label text) row base text none)

  unfoldable pub prepare_token_count_subject :
      ℕ → SpyTokenCountSubject → Db → Option SpyPreparedTokenCountSubject
  prepare_token_count_subject counted_at subject db =
      elim (find (λ (c : ProviderCall). text_eq c.id (subject_call subject)) db.calls) [
        | none ↦ none
        | some row ↦ prepare_for_row counted_at row subject db
      ]
