-- ===== src/Spy/Compaction/Summarization.antt =====
-- `detectSummarizationRequest` and `isClaudeCodeSummarizationPrompt` of src/spy/compaction.ts.
use rootcell.Prelude.{
  ℕ, Bool, false, ◌&&◌, ◌||◌, List, [], ◌++◌, Option, none, some, if◌then◌else◌, Text, find,
  is_some, or_else, leb,
}
use rootcell.Spy.Compaction.Blocks.{
  Pattern, Reason, is_kind, is_request, push_if, summarization_system_prompt,
  conversation_wrapper_input, claude_code_request_context_profile, claude_code_summary_prompt,
  large_current_user_input, summarization_system_pattern, conversation_wrapper_pattern,
  claude_code_no_tool_pattern, claude_code_text_only_pattern, claude_code_summary_intent_pattern,
  claude_code_conversation_scope_pattern, claude_code_continuation_pattern,
}
use rootcell.Spy.Records.{NormalizedBlock}

abbrev pub min_large_summarization_input_bytes : ℕ
min_large_summarization_input_bytes = 16384

pub record SummarizationRequest : Type 0 where
  pub is_candidate : Bool
  pub large_current_input : Bool
  pub claude_code_summary_prompt : Bool
  pub reasons : List Reason

abbrev pub is_large : Option NormalizedBlock → Bool
is_large none = false
is_large (some block) = leb min_large_summarization_input_bytes block.byte_size

module _ (test : Pattern → Text → Bool) where
  unfoldable pub is_claude_code_summarization_prompt : Text → Bool
  is_claude_code_summarization_prompt text =
      let constrained_single_turn =
        test claude_code_no_tool_pattern text && test claude_code_text_only_pattern text in
      let summary_of_prior_conversation =
        test claude_code_summary_intent_pattern text
        && test claude_code_conversation_scope_pattern text in
      constrained_single_turn
      && summary_of_prior_conversation
      && test claude_code_continuation_pattern text

  -- The three blocks that are looked for.
  abbrev pub system_prompt_of : List NormalizedBlock → Option NormalizedBlock
  system_prompt_of blocks =
      find
        (λ block.
          is_request block
          && is_kind "harness-system-context" block
          && test summarization_system_pattern (or_else block.text []))
        blocks

  abbrev pub wrapped_input_of : List NormalizedBlock → Option NormalizedBlock
  wrapped_input_of blocks =
      find
        (λ block.
          is_request block
          && is_kind "current-user-input" block
          && test conversation_wrapper_pattern (or_else block.text []))
        blocks

  abbrev pub claude_code_prompt_of : List NormalizedBlock → Bool → Option NormalizedBlock
  claude_code_prompt_of blocks claude_code_profile =
      let found =
        find
          (λ block.
            is_request block
            && is_kind "current-user-input" block
            && is_claude_code_summarization_prompt (or_else block.text []))
          blocks in
      if claude_code_profile then found else none

  unfoldable pub detect_summarization_request : List NormalizedBlock → Bool → SummarizationRequest
  detect_summarization_request blocks claude_code_profile =
      let system_prompt = system_prompt_of blocks in
      let wrapped_input = wrapped_input_of blocks in
      let claude_code_prompt = claude_code_prompt_of blocks claude_code_profile in
      let large = is_large wrapped_input || is_large claude_code_prompt in
      record {
        is_candidate =
            (is_some system_prompt && is_some wrapped_input) || is_some claude_code_prompt;
        large_current_input = large;
        claude_code_summary_prompt = is_some claude_code_prompt;
        reasons =
            push_if (is_some system_prompt) summarization_system_prompt
            ++ push_if (is_some wrapped_input) conversation_wrapper_input
            ++ push_if (is_some claude_code_prompt) claude_code_request_context_profile
            ++ push_if (is_some claude_code_prompt) claude_code_summary_prompt
            ++ push_if large large_current_user_input;
      }
