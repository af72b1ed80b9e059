-- ===== src/Spy/Compaction/Asks.antt =====
-- The request for a summary that `detectSummarizationRequest` of src/spy/compaction.ts finds, on the
-- blocks of the request.
use rootcell.Prelude.{
  ◌≡◌, refl, Bool, true, ◌&&◌, arith, Text, String, inl, inr, ◌⊎◌, ◌↔◌, List, [], ◌∷◌, any, or_else,
  find, is_some, Bool-cases,
}
use rootcell.Spy.Records.{NormalizedBlock}
use rootcell.Spy.Compaction.Blocks.{
  Pattern, RequestTransitionInput, is_kind, is_request, summarization_system_pattern,
  conversation_wrapper_pattern, is_claude_code_request_context,
}
use rootcell.Spy.Compaction.Summarization.{
  detect_summarization_request, is_claude_code_summarization_prompt,
}
use rootcell.Spy.Compaction.{summarization_of}

is_some-find :
    (p : NormalizedBlock → Bool) (blocks : List NormalizedBlock)
    → is_some (find p blocks) ≡ any p blocks
is_some-find p [] = refl
is_some-find p (block ∷ blocks) = ground (arith, is_some-find p blocks)

module _ (test : Pattern → Text → Bool) where
  -- A request block of a kind whose text passes.
  abbrev pub has_request_block : String → (Text → Bool) → List NormalizedBlock → Bool
  has_request_block kind passes blocks =
      any (λ b. is_request b && is_kind kind b && passes (or_else b.text [])) blocks

  -- The request asks the model for a summary: by its system prompt and the wrapped conversation, or
  -- by the prompt of Claude Code.
  abbrev pub AsksForSummary : RequestTransitionInput → Type 0
  AsksForSummary input =
      ((has_request_block "harness-system-context" (test summarization_system_pattern)
            input.request_blocks
          ≡ true)
        × (has_request_block "current-user-input" (test conversation_wrapper_pattern)
              input.request_blocks
            ≡ true))
      ⊎ ((is_claude_code_request_context test input ≡ true)
          × (has_request_block "current-user-input" (is_claude_code_summarization_prompt test)
                input.request_blocks
              ≡ true))

  pub summarization_iff :
      (input : RequestTransitionInput)
      → ((summarization_of test input).is_candidate ≡ true) ↔ AsksForSummary input
  unfolding detect_summarization_request
  summarization_iff input =
      let system =
        is_some-find
          (λ b.
            is_request b
            && is_kind "harness-system-context" b
            && test summarization_system_pattern (or_else b.text []))
          input.request_blocks in
      let wrapped =
        is_some-find
          (λ b.
            is_request b
            && is_kind "current-user-input" b
            && test conversation_wrapper_pattern (or_else b.text []))
          input.request_blocks in
      let claude =
        is_some-find
          (λ b.
            is_request b
            && is_kind "current-user-input" b
            && is_claude_code_summarization_prompt test (or_else b.text []))
          input.request_blocks in
      elim (Bool-cases (is_claude_code_request_context test input)) [
        | inl profile ↦
            rw (detect_summarization_request, profile, system, wrapped, claude)
              (λ h. ground arith, λ h. ground arith)
        | inr other ↦
            rw (detect_summarization_request, other, system, wrapped)
              (λ h. ground arith, λ h. ground arith)
      ]
