-- ===== src/Spy/Store/Tests.antt =====
-- The theorems about the store of the spy at concrete inputs.
use rootcell.Prelude.{
  ℕ, ◌+◌, ◌*◌, ◌-◌, ◌≤◌, ◌≡◌, refl, sym, ap, Bool, true, false, not, [], ◌∷◌, ◌++◌, List, map,
  filter, take, length, none, some, Option, ◌⊎◌, All, codes, Text, text_eq, ok, err, Result,
}
use rootcell.Prelude.Decimal.{decimal}
use rootcell.Spy.Records.{
  ProviderId, bedrock, pending, complete, ProviderCall, HttpCapture, SpoolRequestEvent,
  SpoolResponseEvent, request_event, response_event, NormalizedBlock,
}
use rootcell.Spy.Store.Tables.{Db, StoreError, empty_db, has_call}
use rootcell.Spy.Store.Persist.{
  Platform, SpyProviderAdapter, NormalizedProviderRequest, NormalizedProviderResponse, no_body,
}
use rootcell.Spy.Store.Ingest.{
  SpoolFile, Spy, ingest_spool_batch, ingest_spool_file, spool_files, is_spool_file, limited,
  no_files,
}
use rootcell.Instance.Name.Selection.{ends_with}
use rootcell.Spy.Store.Ingest.Counts.{Adds, outcomes, is_settled_name, ingest_spool_batch-Counts}
use rootcell.Spy.Store.Ingest.Outcomes.{Ends, ingest_spool_file-Ends}
use rootcell.Spy.Store.Ingest.Waiting.{Waits, ingest_spool_batch-Waits}
use rootcell.Spy.Store.Retention.{days_ms, run_retention, note_retention}
use rootcell.Spy.Store.Retention.Bounds.{run_retention-bounds}
use rootcell.Spy.Store.Consistency.{IsConsistent}
use rootcell.Spy.Store.Consistency.Reachable.{start, then_step, ingest, IsReachable-IsConsistent}
use rootcell.Spy.Store.Status.{is_pending, is_settled}
use rootcell.Spy.Store.Status.Transactions.{ingest_spool_batch-is_settled}
use rootcell.Spy.Store.Order.{Key, IsSorted}
use rootcell.Spy.Store.Queries.Calls.{
  SpyProviderCallFilters, SpyUsageSummary, call_key, descending, call_summary, filtered_calls,
  list_all_pages, list_call_summaries,
}
use rootcell.Spy.Store.Queries.Listing.{list_call_summaries-pages}
use rootcell.Spy.Store.Queries.Diff.{diff_blocks}
use rootcell.Spy.Store.Queries.Classes.{Describes, diff_blocks-Describes}
use rootcell.Spy.Store.Queries.Composition.{section_order, request_composition_for_blocks}
use rootcell.Spy.Store.Queries.Search.{trim, like_pattern_for_search}
use rootcell.Spy.Store.Queries.Patterns.{
  any_text, literal, read_pattern, read_pattern-like_pattern_for_search,
}
use rootcell.Spy.Store.Queries.Sums.{chars_of, bytes_of, CountsMessages}
use rootcell.Spy.Store.Queries.Pass.{
  is_in_section, is_cache_marker, is_tool_definition, is_media_summary,
}
use rootcell.Spy.Store.Queries.Sections.{Tallies, Summarizes, request_composition-sections}

abbrev test_platform : Platform
test_platform = record {
  number_text = decimal;
  dropped_json = λ e. e.reason;
  error_json = λ e. e.error_text;
  chunk_json = λ flow index digest. flow;
  six_digits = decimal;
  decode_base64 = λ s. s;
  encode_base64 = λ s. s;
  sha256 = λ s. s;
  lower_case = λ s. s;
}

abbrev test_call : Text → ℕ → ProviderCall
test_call flow_id ts = record {
  id = codes "call-" ++ flow_id;
  provider = bedrock;
  operation = codes "Converse";
  model_id = codes "model";
  status = pending;
  started_at = ts;
  completed_at = none;
  status_code = none;
  request_flow_id = flow_id;
  response_flow_id = none;
  request_content_hash = none;
  response_content_hash = none;
}

abbrev answered : ProviderCall → ProviderCall
answered call = record call { status = complete; completed_at = some 9 }

abbrev test_block : Text → ℕ → Text → NormalizedBlock
test_block call_id ordinal content = record {
  id = call_id ++ decimal ordinal;
  call_id = call_id;
  direction = codes "request";
  ordinal = ordinal;
  role = none;
  kind = codes "current-user-input";
  source = codes "source";
  provider_path = some (codes "$.messages[2].content");
  text = some content;
  json = none;
  char_size = length content;
  byte_size = length content;
  content_hash = content;
  cache_marker = false;
}

abbrev normal_request : SpoolRequestEvent → NormalizedProviderRequest
normal_request event = record {
  call = test_call event.http.flow_id event.http.ts;
  blocks = test_block (codes "call-" ++ event.http.flow_id) 0 (codes "hi") ∷ [];
  raw_payloads = [];
}

abbrev normal_response : SpoolResponseEvent → NormalizedProviderResponse
normal_response event = record {
  call = answered (test_call event.http.flow_id event.http.ts);
  blocks = [];
  usage = [];
  stream_events = [];
  raw_payloads = [];
}

abbrev test_adapter : SpyProviderAdapter
test_adapter = record {
  call_id_for_flow = λ flow_id. codes "call-" ++ flow_id;
  normalize_request = λ event. ok (normal_request event);
  normalize_response = λ event. ok (normal_response event);
}

abbrev test_adapters : ProviderId → SpyProviderAdapter
test_adapters _ = test_adapter

abbrev test_message : StoreError → Text
test_message _ = codes "failed"

abbrev test_http : Text → ℕ → HttpCapture
test_http flow_id ts = record {
  ts = ts;
  flow_id = flow_id;
  provider = bedrock;
  operation = codes "Converse";
  model_id = codes "model";
  host = codes "host";
  method = codes "POST";
  path = codes "/";
  headers = [];
}

abbrev request_file : SpoolFile
request_file = record {
  name = codes "1.json";
  content = ok (request_event (record { http = test_http (codes "a") 5; body = no_body }));
}

abbrev response_file : SpoolFile
response_file = record {
  name = codes "2.json";
  content = ok (
      response_event (record {
        http = test_http (codes "a") 6;
        status_code = 200;
        reason = codes "OK";
        request_headers = [];
        body = no_body;
      }));
}

abbrev broken_file : SpoolFile
broken_file = record { name = codes "3.json"; content = err (codes "no JSON") }

abbrev test_spool : List SpoolFile
test_spool = request_file ∷ response_file ∷ broken_file ∷ []

abbrev test_spy : Spy
test_spy = record { db = empty_db; spool = test_spool }

abbrev one_call : Db
one_call = record empty_db { calls = test_call (codes "a") 5 ∷ [] }

abbrev two_calls : Db
two_calls = record empty_db { calls = test_call (codes "a") 5 ∷ test_call (codes "b") 7 ∷ [] }

abbrev count_bytes : Db → ℕ
count_bytes db = length db.calls * 1000

IsReachable-IsConsistent_example :
    IsConsistent (ingest_spool_batch test_platform test_adapters test_message none 8 test_spy).1.db
IsReachable-IsConsistent_example =
    IsReachable-IsConsistent test_platform test_adapters test_message count_bytes count_bytes
      (ingest_spool_batch test_platform test_adapters test_message none 8 test_spy).1
      (then_step test_spy
        (ingest_spool_batch test_platform test_adapters test_message none 8 test_spy).1
        (start test_spool) (ingest none 8 test_spy))

ingest_spool_batch-Counts_example :
    let trace =
      outcomes test_platform test_adapters test_message
        (limited test_platform test_adapters test_message (some 2) (spool_files test_spool))
        test_spy in
    let (result, after) =
      ingest_spool_batch test_platform test_adapters test_message (some 2) 8 test_spy in
    Adds trace no_files result
    × (after.spool ≡ filter (λ f. not (is_settled_name trace f.name)) test_spool)
ingest_spool_batch-Counts_example =
    ingest_spool_batch-Counts test_platform test_adapters test_message (some 2) 8 test_spy

ingest_spool_file-Ends_example :
    let (outcome, after) =
      ingest_spool_file test_platform test_adapters test_message response_file test_spy in
    Ends test_platform test_adapters test_message response_file test_spy outcome after
ingest_spool_file-Ends_example =
    ingest_spool_file-Ends test_platform test_adapters test_message response_file test_spy

-- A response without its request in front of a request.
abbrev stuck_spy : Spy
stuck_spy = record { db = empty_db; spool = response_file ∷ request_file ∷ [] }

stuck_spy-Waits :
    All
      (λ file. Waits test_platform test_adapters test_message empty_db file.content)
      (take 1 (spool_files stuck_spy.spool))
unfolding is_spool_file ends_with has_call
stuck_spy-Waits = (refl, tt)

ingest_spool_batch-Waits_example :
    let (result, after) =
      ingest_spool_batch test_platform test_adapters test_message (some 1) 8 stuck_spy in
    (after ≡ stuck_spy) × (result.deferred_count ≡ length (take 1 (spool_files stuck_spy.spool)))
ingest_spool_batch-Waits_example =
    ingest_spool_batch-Waits test_platform test_adapters test_message 1 8 stuck_spy stuck_spy-Waits

run_retention-bounds_example :
    let (result, after) = run_retention count_bytes count_bytes decimal 10 1 500 two_calls in
    All (λ c. 10 - days_ms 1 ≤ c.started_at) after.calls
    × ((small : Db) × (after
          ≡ note_retention count_bytes count_bytes decimal 10
              (result.deleted_by_age + result.deleted_by_size)
              small)
        × ((count_bytes small ≤ 500) ⊎ (after.calls ≡ [])))
run_retention-bounds_example =
    run_retention-bounds count_bytes count_bytes decimal 10 1 500 two_calls

abbrev settled_of : Result StoreError NormalizedProviderResponse → Bool
settled_of (ok normalized) = is_pending normalized.call.status
settled_of (err e) = false

test_adapters-settle :
    (provider : ProviderId) (event : SpoolResponseEvent) (normalized : NormalizedProviderResponse)
    → (test_adapters provider).normalize_response event ≡ ok normalized
    → is_pending normalized.call.status ≡ false
test_adapters-settle provider event normalized e = sym (ap settled_of e)

abbrev answered_call : Db
answered_call = record empty_db { calls = answered (test_call (codes "a") 5) ∷ [] }

answered_call-settled : is_settled (codes "call-a") answered_call.calls ≡ true
answered_call-settled = unfold text_eq in refl

ingest_spool_batch-is_settled_example :
    is_settled
      (codes "call-a")
      (ingest_spool_batch test_platform test_adapters test_message none 8
        (record { db = answered_call; spool = test_spool })).1.db.calls
    ≡ true
ingest_spool_batch-is_settled_example =
    ingest_spool_batch-is_settled test_platform test_adapters test_message test_adapters-settle
      (codes "call-a") none 8 (record { db = answered_call; spool = test_spool })
      answered_call-settled

abbrev no_filters : SpyProviderCallFilters
no_filters = record {
  since = none;
  provider = none;
  model_id = none;
  operation = none;
  status = none;
  conversation_traffic = false;
}

list_call_summaries-pages_example :
    (list_all_pages 3 no_filters none (some 1) two_calls
      ≡ map (call_summary two_calls) (filtered_calls no_filters two_calls))
    × IsSorted call_key descending (filtered_calls no_filters two_calls)
    × ((after : Option Key)
        → length (list_call_summaries no_filters after (some 1) two_calls).items ≤ 500)
unfolding has_call text_eq
list_call_summaries-pages_example =
    list_call_summaries-pages no_filters (some 1) two_calls (refl, (refl, tt))

abbrev old_blocks : List NormalizedBlock
old_blocks = test_block (codes "a") 0 (codes "one") ∷ test_block (codes "a") 1 (codes "two") ∷ []

abbrev new_blocks : List NormalizedBlock
new_blocks = test_block (codes "b") 0 (codes "two") ∷ test_block (codes "b") 1 (codes "three") ∷ []

diff_blocks-Describes_example :
    (map (λ diff. diff.block) (diff_blocks (some old_blocks) new_blocks) ≡ new_blocks)
    × All (Describes (some old_blocks)) (diff_blocks (some old_blocks) new_blocks)
diff_blocks-Describes_example = diff_blocks-Describes (some old_blocks) new_blocks

abbrev no_usage : SpyUsageSummary
no_usage = record {
  input_tokens = none;
  output_tokens = none;
  cache_read_tokens = none;
  cache_write_tokens = none;
  total_tokens = none;
}

request_composition-sections_example :
    let composition = request_composition_for_blocks new_blocks no_usage in
    (map (λ section. section.kind) composition.sections ≡ section_order)
    × All (Summarizes new_blocks) composition.sections
    × (composition.total_block_count ≡ length new_blocks)
    × (composition.total_char_size ≡ chars_of new_blocks)
    × (composition.total_byte_size ≡ bytes_of new_blocks)
    × CountsMessages composition.total_message_count (filter is_in_section new_blocks)
    × Tallies composition.tool_definitions (filter is_tool_definition new_blocks)
    × Tallies composition.cache_markers (filter is_cache_marker new_blocks)
    × Tallies composition.media_summaries (filter is_media_summary new_blocks)
request_composition-sections_example = request_composition-sections new_blocks no_usage

read_pattern-like_pattern_for_search_example :
    ((length (trim (codes " 50%_ ")) ≡ 0) × (like_pattern_for_search (codes " 50%_ ") ≡ none))
    ⊎ ((pattern : Text) × (like_pattern_for_search (codes " 50%_ ") ≡ some pattern)
        × (read_pattern false pattern
            ≡ any_text ∷ map literal (trim (codes " 50%_ ")) ++ any_text ∷ []))
read_pattern-like_pattern_for_search_example = read_pattern-like_pattern_for_search (codes " 50%_ ")
