-- ===== src/Spy/Compaction/Blocks.antt =====
-- The blocks of a request, the parts of src/spy/compaction.ts that read one block, and the tests
-- for the harness that a request comes from.
use rootcell.Prelude.{
  ℕ, String, ◌+◌, Bool, true, false, ◌&&◌, ◌||◌, List, [], ◌∷◌, map, Option, none, some,
  if◌then◌else◌, Text, codes, any, filter, or_else, text_eq, starts_with, includes, join,
}
use rootcell.Spy.Records.{NormalizedBlock}

-- The regular expressions of the file.
pub data Pattern : Type 0 where
  summary_like_history_pattern : Pattern
  summarization_system_pattern : Pattern
  conversation_wrapper_pattern : Pattern
  claude_code_text_only_pattern : Pattern
  claude_code_no_tool_pattern : Pattern
  claude_code_summary_intent_pattern : Pattern
  claude_code_conversation_scope_pattern : Pattern
  claude_code_continuation_pattern : Pattern
  inside_pi_pattern : Pattern
  claude_code_name_pattern : Pattern

pub data Reason : Type 0 where
  no_previous_comparable_call : Reason
  pi_request_context_profile : Reason
  claude_code_request_context_profile : Reason
  cursor_request_context_profile : Reason
  summarization_system_prompt : Reason
  conversation_wrapper_input : Reason
  claude_code_summary_prompt : Reason
  large_current_user_input : Reason
  stable_request_context : Reason
  summary_like_history_block : Reason
  prior_history_byte_drop : Reason
  prior_history_block_drop : Reason
  request_byte_drop : Reason
  input_token_drop : Reason

-- `if (test) reasons.push(reason)`
abbrev pub push_if : Bool → Reason → List Reason
push_if true reason = reason ∷ []
push_if false reason = []

-- The fields of a summary that are read, those of `call` and `usage` among them.
pub record SpyCallSummary : Type 0 where
  pub call_id : Text
  pub provider : Text
  pub request_byte_size : ℕ
  pub input_tokens : Option ℕ
  pub cache_read_tokens : Option ℕ
  pub cache_write_tokens : Option ℕ

pub record RequestTransitionInput : Type 0 where
  pub summary : SpyCallSummary
  pub request_blocks : List NormalizedBlock
  pub previous_summary : Option SpyCallSummary
  pub previous_request_blocks : List NormalizedBlock

abbrev pub is_kind : String → NormalizedBlock → Bool
is_kind kind block = text_eq block.kind (codes kind)

abbrev pub is_request : NormalizedBlock → Bool
is_request block = text_eq block.direction (codes "request")

unfoldable pub history_blocks : List NormalizedBlock → List NormalizedBlock
history_blocks blocks =
    filter (λ block. is_request block && is_kind "prior-conversation-history" block) blocks

unfoldable pub byte_size : List NormalizedBlock → ℕ
byte_size [] = 0
byte_size (block ∷ blocks) = block.byte_size + byte_size blocks

-- The numbers that are there, added up.
abbrev pub add_present : Option ℕ → Option ℕ → Option ℕ
add_present none total = total
add_present (some n) none = some n
add_present (some n) (some m) = some (n + m)

unfoldable pub context_tokens : SpyCallSummary → Option ℕ
context_tokens summary =
    add_present summary.input_tokens
      (add_present summary.cache_read_tokens (add_present summary.cache_write_tokens none))

unfoldable pub is_context_block : NormalizedBlock → Bool
is_context_block block =
    is_request block
    && (is_kind "harness-system-context" block
        || is_kind "tool-definition" block
        || is_kind "provider-envelope" block)

unfoldable pub block_signature : NormalizedBlock → Text
block_signature block =
    join b':'
      (block.direction ∷ block.kind ∷ or_else block.role [] ∷ or_else block.provider_path [] ∷ [])

-- `new Set(texts).has(text)`
abbrev pub has : List Text → Text → Bool
has texts text = any (λ t. text_eq t text) texts

pub record HistoryDiff : Type 0 where
  pub new_block_ids : List Text
  pub changed_block_ids : List Text

-- The loop of `classifyHistoryBlocks` over the current blocks.
unfoldable pub classify_blocks : List Text → List Text → List NormalizedBlock → HistoryDiff
classify_blocks hashes signatures [] = record { new_block_ids = []; changed_block_ids = [] }
classify_blocks hashes signatures (block ∷ blocks) =
    let diff = classify_blocks hashes signatures blocks in
    if has hashes block.content_hash
    then diff
    else if has signatures (block_signature block)
    then record diff { changed_block_ids = block.id ∷ diff.changed_block_ids }
    else record diff { new_block_ids = block.id ∷ diff.new_block_ids }

unfoldable pub classify_history_blocks : List NormalizedBlock → List NormalizedBlock → HistoryDiff
classify_history_blocks current previous =
    classify_blocks (map (λ b. b.content_hash) previous) (map block_signature previous) current

pub record ContextStability : Type 0 where
  pub repeated_block_count : ℕ
  pub changed_block_count : ℕ

-- The loop of `stableContext`.
unfoldable pub count_context : List Text → List Text → List NormalizedBlock → ContextStability
count_context hashes signatures [] = record { repeated_block_count = 0; changed_block_count = 0 }
count_context hashes signatures (block ∷ blocks) =
    let counts = count_context hashes signatures blocks in
    if has hashes block.content_hash
    then record counts { repeated_block_count = counts.repeated_block_count + 1 }
    else if has signatures (block_signature block)
    then record counts { changed_block_count = counts.changed_block_count + 1 }
    else counts

unfoldable pub stable_context : List NormalizedBlock → List NormalizedBlock → ContextStability
stable_context current previous =
    let previous_context = filter is_context_block previous in
    count_context (map (λ b. b.content_hash) previous_context)
      (map block_signature previous_context) (filter is_context_block current)

unfoldable pub is_cursor_request_context : RequestTransitionInput → Bool
is_cursor_request_context input =
    text_eq input.summary.provider (codes "cursor")
    || any (λ block. includes block.source (codes "cursor")) input.request_blocks

module _ (test : Pattern → Text → Bool) where
  unfoldable pub is_pi_request_context : RequestTransitionInput → Bool
  is_pi_request_context input =
      any
        (λ block.
          if text_eq block.source (codes "pi")
            || starts_with block.source (codes "pi-")
            || includes block.source (codes "-pi-")
          then true
          else is_kind "harness-system-context" block
            && test inside_pi_pattern (or_else block.text []))
        input.request_blocks

  unfoldable pub is_claude_code_request_context : RequestTransitionInput → Bool
  is_claude_code_request_context input =
      any
        (λ block.
          if includes block.source (codes "claude-code")
          then true
          else is_kind "harness-system-context" block
            && test claude_code_name_pattern (or_else block.text []))
        input.request_blocks
