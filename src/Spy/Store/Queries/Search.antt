-- ===== src/Spy/Store/Queries/Search.antt =====
-- The search of src/spy/store.ts: the queries that it makes of a text, and `searchCallSummaries` over
-- what SQLite matches, its full-text index and its LIKE, which are arguments.
use rootcell.Prelude.{
  ℕ, Bool, false, ◌&&◌, ◌||◌, List, [], ◌∷◌, ◌++◌, Option, none, some, ◌==◌, ltb, leb,
  if◌then◌else◌, any, filter, take, map, length, Text, codes, text_eq,
}
use rootcell.Config.Extensions.{trim_start, trim_end}
use rootcell.Spy.Records.{
  ProviderId, bedrock, cursor, CallStatus, pending, complete, error, dropped, ProviderCall,
  NormalizedBlock,
}
use rootcell.Spy.Store.Tables.{Db}
use rootcell.Spy.Store.Order.{Key}
use rootcell.Spy.Store.Queries.Pages.{SpyPaginatedResult, query_limit, query_page}
use rootcell.Spy.Store.Queries.Calls.{
  SpyProviderCallFilters, CallSummary, call_key, descending, filtered_calls,
  paginated_call_summaries,
}

abbrev pub trim : Text → Text
trim s = trim_end (trim_start s)

-- `[A-Za-z0-9_]`
abbrev pub is_token_unit : ℕ → Bool
is_token_unit c =
    (leb b'A' c && leb c b'Z')
    || ((leb b'a' c && leb c b'z') || ((leb b'0' c && leb c b'9') || c == b'_'))

-- A unit in front of the first part.
abbrev pub push_token_unit : ℕ → List Text → List Text
push_token_unit c [] = (c ∷ []) ∷ []
push_token_unit c (part ∷ parts) = (c ∷ part) ∷ parts

-- `split(/[^A-Za-z0-9_]+/)`, up to empty parts, which are left out behind it.
unfoldable pub split_tokens : Text → List Text
split_tokens [] = [] ∷ []
split_tokens (c ∷ s) =
    let parts = split_tokens s in if is_token_unit c then push_token_unit c parts else [] ∷ parts

-- `replaceAll("\"", "\"\"")`
unfoldable pub double_quotes : Text → Text
double_quotes [] = []
double_quotes (c ∷ s) = let rest = double_quotes s in if c == b'"' then c ∷ c ∷ rest else c ∷ rest

abbrev pub quoted : Text → Text
quoted token = b'"' ∷ double_quotes token ++ b'"' ∷ []

-- `join(" AND ")`
unfoldable pub join_and : List Text → Text
join_and [] = []
join_and (token ∷ []) = token
join_and (token ∷ next ∷ tokens) = token ++ (codes " AND " ++ join_and (next ∷ tokens))

unfoldable pub fts_query_for_search : Text → Option Text
fts_query_for_search query =
    let tokens = take 16 (filter (λ token. ltb 0 (length token)) (split_tokens (trim query))) in
    if length tokens == 0 then none else some (join_and (map quoted tokens))

-- `replaceAll(unit, "\\" + unit)`
unfoldable pub escape_unit : ℕ → Text → Text
escape_unit unit [] = []
escape_unit unit (c ∷ s) =
    let rest = escape_unit unit s in if c == unit then b'\\' ∷ c ∷ rest else c ∷ rest

unfoldable pub like_pattern_for_search : Text → Option Text
like_pattern_for_search query =
    let trimmed = trim query in
    if length trimmed == 0
    then none
    else some (b'%' ∷ escape_unit b'_' (escape_unit b'%' (escape_unit b'\\' trimmed)) ++ b'%' ∷ [])

abbrev pub provider_text : ProviderId → Text
provider_text bedrock = codes "bedrock"
provider_text cursor = codes "cursor"

abbrev pub status_text : CallStatus → Text
status_text pending = codes "pending"
status_text complete = codes "complete"
status_text error = codes "error"
status_text dropped = codes "dropped"

-- A test on a column that may be NULL.
abbrev pub column_matches : (Text → Bool) → Option Text → Bool
column_matches test none = false
column_matches test (some value) = test value

module _ (fts_match : Text → NormalizedBlock → Bool) (like : Text → Text → Bool) where
  unfoldable pub provider_call_metadata_search : Text → ProviderCall → Bool
  provider_call_metadata_search pattern call =
      like pattern call.id
      || (like pattern call.request_flow_id
          || (column_matches (like pattern) call.response_flow_id
              || (like pattern call.model_id
                  || (like pattern (provider_text call.provider)
                      || (like pattern call.operation || like pattern (status_text call.status))))))

  abbrev pub matches_blocks : Option Text → Db → ProviderCall → Bool
  matches_blocks none db call = false
  matches_blocks (some query) db call =
      any (λ b. text_eq b.call_id call.id && fts_match query b) db.blocks

  abbrev pub matches_metadata : Option Text → ProviderCall → Bool
  matches_metadata none call = false
  matches_metadata (some pattern) call = provider_call_metadata_search pattern call

  -- The union of the two matches.
  unfoldable pub is_matched : Text → Db → ProviderCall → Bool
  is_matched query db call =
      matches_blocks (fts_query_for_search query) db call
      || matches_metadata (like_pattern_for_search query) call

  unfoldable pub search_call_summaries :
      Text
      → SpyProviderCallFilters
      → Option Key
      → Option ℕ
      → Db
      → SpyPaginatedResult CallSummary Key
  search_call_summaries query options after limit db = paginated_call_summaries db (
      query_page call_key descending after (query_limit limit)
        (filter (is_matched query db) (filtered_calls options db)))
