-- ===== src/Spy/Compaction/Transition.antt =====
-- What `detectCompaction` of src/spy/compaction.ts takes for a compaction, on the sizes, the counts
-- and the texts of the two requests.
use rootcell.Prelude.{
  ◌<◌, ◌≡◌, Bool, true, ◌&&◌, ◌||◌, some, Text, List, [], map, filter, any, length, or_else, ltb,
}
use rootcell.Spy.Records.{NormalizedBlock}
use rootcell.Spy.Compaction.Blocks.{
  Pattern, RequestTransitionInput, SpyCallSummary, history_blocks, byte_size, context_tokens, has,
  is_kind, is_context_block, block_signature, summary_like_history_pattern,
  is_claude_code_request_context, is_pi_request_context, is_cursor_request_context,
}
use rootcell.Spy.Compaction.Signals.{
  TransitionSignals, is_history_byte_drop, is_history_block_drop, is_request_byte_drop,
  is_input_token_drop,
}
use rootcell.Spy.Compaction.Drops.{
  HistoryShrank, HistoryLostBlocks, RequestShrank, ContextShrank, Shows,
}

-- A context block of the previous request has this content or this signature.
abbrev pub is_kept_from : List NormalizedBlock → NormalizedBlock → Bool
is_kept_from previous block =
    has (map (λ b. b.content_hash) previous) block.content_hash
    || has (map block_signature previous) (block_signature block)

-- Some context block is kept, and there is a current input, and a history on both sides.
pub record GoesOn (input : RequestTransitionInput) : Type 0 where
  pub context :
      any
        (is_kept_from (filter is_context_block input.previous_request_blocks))
        (filter is_context_block input.request_blocks)
      ≡ true
  pub input_exists : any (is_kind "current-user-input") input.request_blocks ≡ true
  pub history : 0 < length (history_blocks input.request_blocks)
  pub previous_history : 0 < length (history_blocks input.previous_request_blocks)

module _ (test : Pattern → Text → Bool) where
  -- Some history block reads like a summary.
  abbrev pub HasSummary : RequestTransitionInput → Type 0
  HasSummary input =
      any (λ b. test summary_like_history_pattern (or_else b.text []))
        (history_blocks input.request_blocks)
      ≡ true

  -- The signals of a transition, on the two requests.
  abbrev signals_on : RequestTransitionInput → SpyCallSummary → TransitionSignals
  signals_on input previous =
      let now = history_blocks input.request_blocks in
      let before = history_blocks input.previous_request_blocks in
      record {
        stable =
            any (is_kept_from (filter is_context_block input.previous_request_blocks))
              (filter is_context_block input.request_blocks);
        current_input_exists = any (is_kind "current-user-input") input.request_blocks;
        has_prior_history = ltb 0 (length now) && ltb 0 (length before);
        summary_like_history = any (λ b. test summary_like_history_pattern (or_else b.text [])) now;
        history_byte_drop = is_history_byte_drop (byte_size now) (some (byte_size before));
        history_block_drop = is_history_block_drop (length now) (some (length before));
        request_byte_drop =
            is_request_byte_drop input.summary.request_byte_size (some previous.request_byte_size);
        input_token_drop =
            is_input_token_drop (context_tokens input.summary) (context_tokens previous);
      }

  -- A request of Pi, of Claude Code or of Cursor.
  abbrev pub IsKnownHarness : RequestTransitionInput → Type 0
  IsKnownHarness input =
      (is_pi_request_context test input
        || is_claude_code_request_context test input
        || is_cursor_request_context input)
      ≡ true

  -- The conversation goes on, and has been compacted since the previous request.
  abbrev pub Compacts : RequestTransitionInput → SpyCallSummary → Type 0
  Compacts input previous =
      GoesOn input
      × Shows (HasSummary input) (HistoryShrank input) (HistoryLostBlocks input)
          (RequestShrank input previous) (ContextShrank input previous) (IsKnownHarness input)
