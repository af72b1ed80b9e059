-- ===== src/Spy/Service/Tests.antt =====
-- The theorems about the service of the spy at concrete inputs.
use Prim.Native.Nat.{min}
use rootcell.Prelude.{
  refl, ℕ, ◌+◌, ◌*◌, ◌≤◌, ◌≡◌, List, [], ◌∷◌, false, none, codes, some, map, length, OnOk, arith,
  ◌⊎◌, All,
}
use rootcell.Spy.Records.{NormalizedBlock, ProviderCall, bedrock, complete}
use rootcell.Spy.Store.Tokens.{get_cached_provider_token_count, save_provider_token_count}
use rootcell.Spy.Store.Tokens.Cache.{HasValues, get_cached-save}
use rootcell.Spy.Tokens.{
  SpyTokenCountRecord, block_subject, provider_counted, whole_call, single_block, token_cache_key,
  base_of,
}
use rootcell.Spy.Service.Subjects.{section_of_block, missing_token_count_subjects}
use rootcell.Spy.Service.Subjects.Keys.{IsPlainRecord}
use rootcell.Spy.Service.Subjects.Exact.{
  IsPlainBlock, IsOfRequest, IsSettled, is_counted, missing_token_count_subjects_exact,
}
use rootcell.Spy.Service.Pool.{
  Pool, ready, resumed, first_pool, Step, resumes, Runs, starts, goes_on,
}
use rootcell.Spy.Service.Invariant.{ready-finished}
use rootcell.Spy.Service.Runs.{collected, map_with_concurrency-results}

abbrev two_items : List ℕ
two_items = 5 ∷ 7 ∷ []

abbrev increment : ℕ → ℕ
increment n = n + 1

-- The second worker takes the first item.
abbrev second_first : Pool ℕ
second_first =
    resumed two_items increment (first_pool two_items increment 2).shared (ready ∷ []) ready []

second_first-Runs : Runs two_items increment 2 1 second_first
second_first-Runs =
    goes_on 0 (first_pool two_items increment 2) second_first starts
      (resumes (first_pool two_items increment 2).shared (ready ∷ []) ready [] ready-finished)

map_with_concurrency-results_example :
    (1 ≤ 2 * length two_items + min 2 (length two_items))
    × (((next : Pool ℕ) × Step two_items increment second_first next)
        ⊎ (collected two_items increment second_first.shared.results 0 two_items
            ≡ map (λ x. some (increment x)) two_items))
map_with_concurrency-results_example =
    map_with_concurrency-results two_items increment 2 1 second_first (omega arith)
      second_first-Runs

abbrev input_block : NormalizedBlock
input_block = record {
  id = codes "b";
  call_id = codes "a";
  direction = codes "request";
  ordinal = 0;
  role = none;
  kind = codes "current-user-input";
  source = codes "source";
  provider_path = none;
  text = none;
  json = none;
  char_size = 2;
  byte_size = 2;
  content_hash = codes "hash";
  cache_marker = false;
}

abbrev counted_block : SpyTokenCountRecord
counted_block = record {
  subject_type = block_subject;
  call_id = some (codes "a");
  direction = none;
  block_id = some (codes "b");
  kind = none;
  label = none;
  source_hash = codes "hash";
  model_id = codes "model";
  tokens = some 2;
  provenance = provider_counted;
  counted_at = 9;
  error_text = none;
}

counted_block-IsPlain : IsPlainRecord counted_block
counted_block-IsPlain = record {
  call_id = ground arith;
  direction = tt;
  block_id = ground arith;
  kind = tt;
}

input_block-IsPlain : IsPlainBlock input_block
input_block-IsPlain = (ground arith, ground arith, ground arith)

missing_token_count_subjects_exact_example :
    let records = counted_block ∷ [] in
    let blocks = input_block ∷ [] in
    let subjects = missing_token_count_subjects (codes "a") records blocks in
    All (λ s. IsOfRequest (codes "a") blocks s × (is_counted records s ≡ false)) subjects
    × IsSettled records subjects (whole_call (codes "a") (codes "request"))
    × All
        (λ b.
          IsSettled records subjects (section_of_block (codes "a") b)
          × IsSettled records subjects (single_block (codes "a") b.id))
        blocks
missing_token_count_subjects_exact_example =
    missing_token_count_subjects_exact (codes "a") (counted_block ∷ []) (input_block ∷ [])
      (ground arith) (counted_block-IsPlain, tt) (input_block-IsPlain, tt)

abbrev counted_call : ProviderCall
counted_call = record {
  id = codes "a";
  provider = bedrock;
  operation = codes "Converse";
  model_id = codes "model";
  status = complete;
  started_at = 1;
  completed_at = some 2;
  status_code = some 200;
  request_flow_id = codes "f";
  response_flow_id = none;
  request_content_hash = none;
  response_content_hash = none;
}

get_cached-save_example :
    OnOk
      (λ after.
        HasValues counted_block
          (get_cached_provider_token_count (token_cache_key (base_of counted_block)) after))
      (save_provider_token_count (counted_call ∷ []) counted_block [])
get_cached-save_example = get_cached-save (counted_call ∷ []) counted_block (codes "a") [] refl refl
