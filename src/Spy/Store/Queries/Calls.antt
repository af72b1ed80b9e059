-- ===== src/Spy/Store/Queries/Calls.antt =====
-- The list of calls with its filters: `callSummaryForRow`, `appendProviderCallFilters` and
-- `listCallSummaries`. The codec of the cursors (JSON in Base64) is left out: a cursor is its key.
use rootcell.Prelude.{
  ℕ, zero, suc, ◌+◌, ◌-◌, Bool, true, false, not, ◌&&◌, ◌||◌, List, [], ◌∷◌, ◌++◌, map, Option,
  none, some, leb, if◌then◌else◌, filter, any, length, Text, codes, text_eq, is_some,
}
use rootcell.Spy.Records.{
  ProviderId, bedrock, cursor, ProviderCall, CallStatus, pending, complete, error, dropped,
  NormalizedBlock, StreamEvent,
}
use rootcell.Spy.Store.Tables.{Db}
use rootcell.Spy.Store.Order.{Key, key_ltb, sort}
use rootcell.Spy.Store.Queries.Pages.{SpyPaginatedResult, query_limit, query_page}

pub record SpyUsageSummary : Type 0 where
  pub input_tokens : Option ℕ
  pub output_tokens : Option ℕ
  pub cache_read_tokens : Option ℕ
  pub cache_write_tokens : Option ℕ
  pub total_tokens : Option ℕ

pub record CallSummary : Type 0 where
  pub call : ProviderCall
  pub duration_ms : Option ℕ
  pub usage : SpyUsageSummary
  pub request_block_count : ℕ
  pub response_block_count : ℕ
  pub request_byte_size : ℕ
  pub response_byte_size : ℕ
  pub cache_marker_count : ℕ
  pub stream_event_count : ℕ
  pub raw_payload_count : ℕ

-- `SUM(column)`: the rows where the column is NULL do not count, and without others there is no sum.
abbrev pub add_value : Option ℕ → Option ℕ → Option ℕ
add_value none sum = sum
add_value (some n) none = some n
add_value (some n) (some sum) = some (n + sum)

abbrev pub sum_column : {A : Type 0} → (A → Option ℕ) → List A → Option ℕ
sum_column column [] = none
sum_column column (row ∷ rows) = add_value (column row) (sum_column column rows)

abbrev pub sum_sizes : List NormalizedBlock → ℕ
sum_sizes [] = 0
sum_sizes (b ∷ blocks) = b.byte_size + sum_sizes blocks

unfoldable pub usage_summary_for_call : Text → Db → SpyUsageSummary
usage_summary_for_call call_id db =
    let rows = filter (λ u. text_eq u.call_id call_id) db.usage in
    record {
      input_tokens = sum_column (λ u. u.input_tokens) rows;
      output_tokens = sum_column (λ u. u.output_tokens) rows;
      cache_read_tokens = sum_column (λ u. u.cache_read_tokens) rows;
      cache_write_tokens = sum_column (λ u. u.cache_write_tokens) rows;
      total_tokens = sum_column (λ u. u.total_tokens) rows;
    }

-- `Math.max(0, ...)` is the subtraction of times that stops at 0.
abbrev pub duration : ProviderCall → Option ℕ
duration call = elim call.completed_at [ none ↦ none | some at ↦ some (at - call.started_at) ]

unfoldable pub call_summary : Db → ProviderCall → CallSummary
call_summary db call =
    let blocks = filter (λ b. text_eq b.call_id call.id) db.blocks in
    let requests = filter (λ b. text_eq b.direction (codes "request")) blocks in
    let responses = filter (λ b. text_eq b.direction (codes "response")) blocks in
    record {
      call = call;
      duration_ms = duration call;
      usage = usage_summary_for_call call.id db;
      request_block_count = length requests;
      response_block_count = length responses;
      request_byte_size = sum_sizes requests;
      response_byte_size = sum_sizes responses;
      cache_marker_count = length (filter (λ b. b.cache_marker) blocks);
      stream_event_count = length (filter (λ e. text_eq e.call_id call.id) db.stream_events);
      raw_payload_count = length (filter (λ r. text_eq r.call_id call.id) db.raw_payloads);
    }

abbrev pub provider_eq : ProviderId → ProviderId → Bool
provider_eq bedrock bedrock = true
provider_eq cursor cursor = true
provider_eq _ _ = false

abbrev pub status_eq : CallStatus → CallStatus → Bool
status_eq pending pending = true
status_eq complete complete = true
status_eq error error = true
status_eq dropped dropped = true
status_eq _ _ = false

-- `conversation_traffic` is `traffic === "conversation"`.
pub record SpyProviderCallFilters : Type 0 where
  pub since : Option ℕ
  pub provider : Option ProviderId
  pub model_id : Option Text
  pub operation : Option Text
  pub status : Option CallStatus
  pub conversation_traffic : Bool

abbrev pub given : {A : Type 0} → Option A → (A → Bool) → Bool
given none test = true
given (some a) test = test a

abbrev pub is_conversation_operation : Text → Bool
is_conversation_operation operation =
    any (λ o. text_eq o operation)
      (codes "Run"
        ∷ codes "RunSSE"
        ∷ codes "StreamUnifiedChat"
        ∷ codes "StreamUnifiedChatWithTools"
        ∷ [])

unfoldable pub provider_call_filters : SpyProviderCallFilters → ProviderCall → Bool
provider_call_filters options call =
    given options.since (λ since. leb since call.started_at)
    && (given options.provider (λ provider. provider_eq call.provider provider)
        && (given options.model_id (λ model. text_eq call.model_id model)
            && (given options.operation (λ operation. text_eq call.operation operation)
                && (given options.status (λ status. status_eq call.status status)
                    && (if options.conversation_traffic && not (is_some options.operation)
                        then not (provider_eq call.provider cursor)
                          || is_conversation_operation call.operation
                        else true)))))

abbrev pub call_key : ProviderCall → Key
call_key call = (call.started_at, call.id)

-- `ORDER BY started_at DESC, id DESC`
abbrev pub descending : Key → Key → Bool
descending a b = key_ltb b a

-- The calls that the filters choose, in the order of the list.
unfoldable pub filtered_calls : SpyProviderCallFilters → Db → List ProviderCall
filtered_calls options db =
    filter (provider_call_filters options) (sort call_key descending db.calls)

abbrev pub paginated_call_summaries :
    Db → SpyPaginatedResult ProviderCall Key → SpyPaginatedResult CallSummary Key
paginated_call_summaries db page = record {
  items = map (call_summary db) page.items;
  next_cursor = page.next_cursor;
}

unfoldable pub list_call_summaries :
    SpyProviderCallFilters → Option Key → Option ℕ → Db → SpyPaginatedResult CallSummary Key
list_call_summaries options after limit db =
    paginated_call_summaries db
      (query_page call_key descending after (query_limit limit) (filtered_calls options db))

-- What a client gets who asks for page after page, `fuel` times at most.
unfoldable pub list_all_pages :
    ℕ → SpyProviderCallFilters → Option Key → Option ℕ → Db → List CallSummary
list_all_pages zero options after limit db = []
list_all_pages (suc fuel) options after limit db =
    let page = list_call_summaries options after limit db in
    page.items ++ elim page.next_cursor [
      | none ↦ []
      | some next ↦ list_all_pages fuel options (some next) limit db
    ]

-- `ORDER BY ordinal ASC, id ASC`
abbrev pub stream_key : StreamEvent → Key
stream_key event = (event.ordinal, event.id)

unfoldable pub get_stream_events :
    Text → Option Key → Option ℕ → Db → SpyPaginatedResult StreamEvent Key
get_stream_events call_id after limit db =
    query_page stream_key key_ltb after (query_limit limit)
      (sort stream_key key_ltb (filter (λ e. text_eq e.call_id call_id) db.stream_events))

-- `previousComparableCallRow`: `LIMIT 1`
abbrev pub first_of : {A : Type 0} → List A → Option A
first_of [] = none
first_of (a ∷ rows) = some a

unfoldable pub previous_comparable_call : ProviderCall → Db → Option ProviderCall
previous_comparable_call row db = first_of (
    sort call_key descending (
      filter
        (λ c.
          provider_eq c.provider row.provider
          && (text_eq c.model_id row.model_id
              && (text_eq c.operation row.operation && key_ltb (call_key c) (call_key row))))
        db.calls))
