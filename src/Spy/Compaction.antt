-- ===== src/Spy/Compaction.antt =====
-- src/spy/compaction.ts: `detectCompaction`, which judges by two requests of a session whether the
-- agent has compacted its conversation. The regular expressions are matched by the JavaScript
-- engine, so the match `test` is an argument. Sizes are natural numbers far below 2^50, where
-- the products with 0.55, 0.75 and 0.4 compare like the exact fractions.
pub mod Blocks
pub mod Summarization
pub mod Signals
pub mod Candidates
pub mod Asks
pub mod Drops
pub mod Transition
pub mod Growth
use rootcell.Prelude.{
  ℕ, ◌+◌, ◌*◌, Bool, true, false, not, ◌&&◌, ◌||◌, List, [], ◌∷◌, ◌++◌, map, Option, none, some,
  if◌then◌else◌, Text, codes, length, is_some, ltb,
}
use Blocks.{Pattern, SpyCallSummary, RequestTransitionInput, Reason, push_if}
use rootcell.Spy.Records.{NormalizedBlock}
use Blocks.{is_pi_request_context, is_claude_code_request_context, is_cursor_request_context}
use Summarization.{SummarizationRequest, detect_summarization_request}
use Signals.{
  Evidence, evidence_of, TransitionSignals, signals_of, Confidence, none_confidence, medium, high,
  candidate_confidence, profile_pattern, heuristic_pattern,
}
use Blocks.{
  no_previous_comparable_call, pi_request_context_profile, claude_code_request_context_profile,
  cursor_request_context_profile, stable_request_context, summary_like_history_block,
  prior_history_byte_drop, prior_history_block_drop, request_byte_drop, input_token_drop,
}

pub data Source : Type 0 where
  no_source : Source
  pi_pattern : Source
  claude_code_pattern : Source
  cursor_pattern : Source
  heuristic : Source
  summarization_request : Source

-- The status is a candidate if `candidate` is true.
pub record Assessment : Type 0 where
  pub candidate : Bool
  pub source : Source
  pub confidence : Confidence
  pub label : Text
  pub reasons : List Reason
  pub evidence : Evidence

unfoldable pub no_candidate : List Reason → Evidence → Assessment
no_candidate reasons evidence = record {
  candidate = false;
  source = no_source;
  confidence = none_confidence;
  label = codes "No compaction candidate";
  reasons = reasons;
  evidence = evidence;
}

unfoldable pub summarization_candidate : SummarizationRequest → Evidence → Assessment
summarization_candidate request evidence = record {
  candidate = true;
  source = summarization_request;
  confidence =
      if request.large_current_input || request.claude_code_summary_prompt then high else medium;
  label =
      if request.claude_code_summary_prompt
      then codes "Claude Code compaction summary request"
      else codes "Compaction summarization request";
  reasons = request.reasons;
  evidence = evidence;
}

-- Which harness the request comes from.
pub record Profiles : Type 0 where
  pub pi_profile : Bool
  pub claude_code_profile : Bool
  pub cursor_profile : Bool

unfoldable pub transition_reasons : Profiles → TransitionSignals → List Reason
transition_reasons p s =
    push_if p.pi_profile pi_request_context_profile
    ++ push_if p.claude_code_profile claude_code_request_context_profile
    ++ push_if p.cursor_profile cursor_request_context_profile
    ++ push_if s.stable stable_request_context
    ++ push_if s.summary_like_history summary_like_history_block
    ++ push_if s.history_byte_drop prior_history_byte_drop
    ++ push_if s.history_block_drop prior_history_block_drop
    ++ push_if s.request_byte_drop request_byte_drop
    ++ push_if s.input_token_drop input_token_drop

-- The four candidates, in the order in which the code tests them, and what they are called.
unfoldable pub transition_source : Profiles → TransitionSignals → Source
transition_source p s =
    let base = s.stable && s.current_input_exists && s.has_prior_history in
    let pi_candidate = p.pi_profile && base && profile_pattern s in
    let claude_code_candidate =
      not pi_candidate && p.claude_code_profile && base && profile_pattern s in
    let cursor_candidate =
      not pi_candidate
      && not claude_code_candidate
      && p.cursor_profile
      && base
      && profile_pattern s in
    let heuristic_candidate =
      not pi_candidate
      && not claude_code_candidate
      && not cursor_candidate
      && base
      && heuristic_pattern s in
    if not pi_candidate
      && not claude_code_candidate
      && not cursor_candidate
      && not heuristic_candidate
    then no_source
    else if pi_candidate
    then pi_pattern
    else if claude_code_candidate
    then claude_code_pattern
    else if cursor_candidate
    then cursor_pattern
    else heuristic

unfoldable pub source_label : Source → Text
source_label pi_pattern = codes "Pi compaction candidate"
source_label claude_code_pattern = codes "Claude Code compaction candidate"
source_label cursor_pattern = codes "Cursor compaction candidate"
source_label _ = codes "Heuristic compaction candidate"

abbrev pub is_profile_source : Source → Bool
is_profile_source pi_pattern = true
is_profile_source claude_code_pattern = true
is_profile_source cursor_pattern = true
is_profile_source _ = false

unfoldable pub named_candidate : Source → Profiles → TransitionSignals → Evidence → Assessment
named_candidate source p s evidence = record {
  candidate = true;
  source = source;
  confidence = candidate_confidence (is_profile_source source) s;
  label = source_label source;
  reasons = transition_reasons p s;
  evidence = evidence;
}

-- The assessment of a request that asks for no summary, with a previous one.
unfoldable pub assess_transition : Profiles → TransitionSignals → Evidence → Assessment
assess_transition p s evidence = elim (transition_source p s) [
  | no_source ↦ no_candidate [] evidence
  | pi_pattern ↦ named_candidate pi_pattern p s evidence
  | claude_code_pattern ↦ named_candidate claude_code_pattern p s evidence
  | cursor_pattern ↦ named_candidate cursor_pattern p s evidence
  | heuristic ↦ named_candidate heuristic p s evidence
  | summarization_request ↦ named_candidate summarization_request p s evidence
]

module _ (test : Pattern → Text → Bool) where
  abbrev pub profiles_of : RequestTransitionInput → Profiles
  profiles_of input = record {
    pi_profile = is_pi_request_context test input;
    claude_code_profile = is_claude_code_request_context test input;
    cursor_profile = is_cursor_request_context input;
  }

  abbrev pub summarization_of : RequestTransitionInput → SummarizationRequest
  summarization_of input =
      detect_summarization_request test input.request_blocks
        (is_claude_code_request_context test input)

  unfoldable pub detect_compaction : RequestTransitionInput → Assessment
  detect_compaction input =
      let evidence = evidence_of test input in
      let request = summarization_of input in
      if request.is_candidate
      then summarization_candidate request evidence
      else elim input.previous_summary [
        | none ↦ no_candidate (no_previous_comparable_call ∷ []) evidence
        | some previous ↦ assess_transition (profiles_of input) (signals_of input evidence) evidence
      ]
