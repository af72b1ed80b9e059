-- ===== src/Spy/Compaction/Signals.antt =====
-- The evidence of src/spy/compaction.ts, the drops that it shows, and the confidence.
use rootcell.Prelude.{
  ℕ, ◌+◌, ◌*◌, ◌/◌, Bool, true, false, ◌&&◌, ◌||◌, List, [], map, Option, none, some, if◌then◌else◌,
  Text, length, any, filter, or_else, leb, ltb,
}
use rootcell.Spy.Compaction.Blocks.{
  Pattern, SpyCallSummary, RequestTransitionInput, summary_like_history_pattern, history_blocks,
  byte_size, context_tokens, classify_history_blocks, stable_context, is_kind,
}

pub record Evidence : Type 0 where
  pub current_call_id : Text
  pub previous_call_id : Option Text
  pub current_request_byte_size : ℕ
  pub previous_request_byte_size : Option ℕ
  pub current_input_tokens : Option ℕ
  pub previous_input_tokens : Option ℕ
  pub current_context_tokens : Option ℕ
  pub previous_context_tokens : Option ℕ
  pub current_prior_history_byte_size : ℕ
  pub previous_prior_history_byte_size : Option ℕ
  pub current_prior_history_block_count : ℕ
  pub previous_prior_history_block_count : Option ℕ
  pub summary_like_block_ids : List Text
  pub new_history_block_ids : List Text
  pub changed_history_block_ids : List Text
  pub repeated_context_block_count : ℕ
  pub changed_context_block_count : ℕ

-- `previous === null ? null : f(previous)`, and `previous?.f ?? null`
abbrev pub of_previous {ℓ} : {A : Type ℓ} → Option SpyCallSummary → (SpyCallSummary → A) → Option A
of_previous none f = none
of_previous (some previous) f = some (f previous)

abbrev pub of_previous_option : Option SpyCallSummary → (SpyCallSummary → Option ℕ) → Option ℕ
of_previous_option none f = none
of_previous_option (some previous) f = f previous

unfoldable pub evidence_of : (Pattern → Text → Bool) → RequestTransitionInput → Evidence
evidence_of test input =
    let current_history = history_blocks input.request_blocks in
    let previous_history = history_blocks input.previous_request_blocks in
    let diff = classify_history_blocks current_history previous_history in
    let stability = stable_context input.request_blocks input.previous_request_blocks in
    let previous = input.previous_summary in
    record {
      current_call_id = input.summary.call_id;
      previous_call_id = of_previous previous (λ s. s.call_id);
      current_request_byte_size = input.summary.request_byte_size;
      previous_request_byte_size = of_previous previous (λ s. s.request_byte_size);
      current_input_tokens = input.summary.input_tokens;
      previous_input_tokens = of_previous_option previous (λ s. s.input_tokens);
      current_context_tokens = context_tokens input.summary;
      previous_context_tokens = of_previous_option previous context_tokens;
      current_prior_history_byte_size = byte_size current_history;
      previous_prior_history_byte_size = of_previous previous (λ _. byte_size previous_history);
      current_prior_history_block_count = length current_history;
      previous_prior_history_block_count = of_previous previous (λ _. length previous_history);
      summary_like_block_ids =
          map (λ b. b.id)
            (filter (λ b. test summary_like_history_pattern (or_else b.text [])) current_history);
      new_history_block_ids = diff.new_block_ids;
      changed_history_block_ids = diff.changed_block_ids;
      repeated_context_block_count = stability.repeated_block_count;
      changed_context_block_count = stability.changed_block_count;
    }

-- `floor(n * 0.4)`, but at least 1.
abbrev pub allowed_blocks : ℕ → ℕ
allowed_blocks n = let part = n * 4 / 10 in if ltb part 1 then 1 else part

unfoldable pub is_history_byte_drop : ℕ → Option ℕ → Bool
is_history_byte_drop current none = false
is_history_byte_drop current (some previous) =
    leb 2048 previous && leb (current * 100) (previous * 55)

unfoldable pub is_history_block_drop : ℕ → Option ℕ → Bool
is_history_block_drop current none = false
is_history_block_drop current (some previous) =
    leb 4 previous && leb current (allowed_blocks previous)

unfoldable pub is_request_byte_drop : ℕ → Option ℕ → Bool
is_request_byte_drop current none = false
is_request_byte_drop current (some previous) = leb 8192 previous && leb (current * 4) (previous * 3)

unfoldable pub is_input_token_drop : Option ℕ → Option ℕ → Bool
is_input_token_drop (some current) (some previous) =
    leb 2000 previous && leb (current * 4) (previous * 3)
is_input_token_drop _ _ = false

abbrev pub is_positive : Option ℕ → Bool
is_positive none = false
is_positive (some n) = ltb 0 n

pub record TransitionSignals : Type 0 where
  pub stable : Bool
  pub current_input_exists : Bool
  pub has_prior_history : Bool
  pub summary_like_history : Bool
  pub history_byte_drop : Bool
  pub history_block_drop : Bool
  pub request_byte_drop : Bool
  pub input_token_drop : Bool

unfoldable pub signals_of : RequestTransitionInput → Evidence → TransitionSignals
signals_of input e = record {
  stable = ltb 0 (e.repeated_context_block_count + e.changed_context_block_count);
  current_input_exists = any (is_kind "current-user-input") input.request_blocks;
  has_prior_history =
      ltb 0 e.current_prior_history_block_count && is_positive e.previous_prior_history_block_count;
  summary_like_history = ltb 0 (length e.summary_like_block_ids);
  history_byte_drop =
      is_history_byte_drop e.current_prior_history_byte_size e.previous_prior_history_byte_size;
  history_block_drop =
      is_history_block_drop e.current_prior_history_block_count
        e.previous_prior_history_block_count;
  request_byte_drop = is_request_byte_drop e.current_request_byte_size e.previous_request_byte_size;
  input_token_drop = is_input_token_drop e.current_context_tokens e.previous_context_tokens;
}

-- What a request of a known harness, and any other request, must show.
unfoldable pub profile_pattern : TransitionSignals → Bool
profile_pattern s =
    (s.summary_like_history && (s.history_byte_drop || s.request_byte_drop || s.input_token_drop))
    || (s.history_byte_drop && (s.history_block_drop || s.request_byte_drop || s.input_token_drop))

unfoldable pub heuristic_pattern : TransitionSignals → Bool
heuristic_pattern s =
    (s.summary_like_history && s.history_byte_drop)
    || (s.history_byte_drop && s.history_block_drop && (s.request_byte_drop || s.input_token_drop))

pub data Confidence : Type 0 where
  none_confidence : Confidence
  low : Confidence
  medium : Confidence
  high : Confidence

abbrev pub one_if : Bool → ℕ
one_if true = 1
one_if false = 0

unfoldable pub signal_count : TransitionSignals → ℕ
signal_count s =
    one_if s.summary_like_history
    + one_if s.history_byte_drop
    + one_if s.history_block_drop
    + one_if (s.request_byte_drop || s.input_token_drop)

unfoldable pub candidate_confidence : Bool → TransitionSignals → Confidence
candidate_confidence pi_candidate s =
    if pi_candidate && leb 3 (signal_count s)
    then high
    else if leb 2 (signal_count s)
    then medium
    else low
