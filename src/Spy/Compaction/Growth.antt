-- ===== src/Spy/Compaction/Growth.antt =====
-- A conversation that has not shrunk is no candidate, and the history blocks are counted once.
use rootcell.Prelude.{
  ℕ, ◌+◌, ◌≤◌, ◌≡◌, refl, Bool, true, false, ◌&&◌, ◌||◌, arith, Option, none, some, Text, inl, inr,
  Bool-cases, List, [], ◌∷◌, map, length, filter,
}
use rootcell.Spy.Compaction.Blocks.{
  Pattern, RequestTransitionInput, SpyCallSummary, history_blocks, byte_size, context_tokens, has,
  classify_blocks, classify_history_blocks,
}
use rootcell.Spy.Records.{NormalizedBlock}
use rootcell.Spy.Compaction.Signals.{
  evidence_of, TransitionSignals, signals_of, is_history_byte_drop, is_request_byte_drop,
  is_input_token_drop, profile_pattern, heuristic_pattern,
}
use rootcell.Spy.Compaction.{profiles_of, summarization_of, detect_compaction}
use rootcell.Spy.Compaction.Candidates.{is_known_harness, detect_compaction-candidate_iff}

-- The context tokens, where both requests report some, have not become fewer.
abbrev pub HasNoFewerTokens : Option ℕ → Option ℕ → Type 0
HasNoFewerTokens (some current) (some previous) = previous ≤ current
HasNoFewerTokens _ _ = Unit {0}

-- The request, its history and its context are at least as large as those of the previous one.
pub record HasNotShrunk (input : RequestTransitionInput) (previous : SpyCallSummary) : Type 0 where
  pub there : input.previous_summary ≡ some previous
  pub history :
      byte_size (history_blocks input.previous_request_blocks)
      ≤ byte_size (history_blocks input.request_blocks)
  pub request : previous.request_byte_size ≤ input.summary.request_byte_size
  pub tokens : HasNoFewerTokens (context_tokens input.summary) (context_tokens previous)

no_history_byte_drop : (c p : ℕ) → p ≤ c → is_history_byte_drop c (some p) ≡ false
unfolding is_history_byte_drop
no_history_byte_drop c p h = ground arith

no_request_byte_drop : (c p : ℕ) → p ≤ c → is_request_byte_drop c (some p) ≡ false
unfolding is_request_byte_drop
no_request_byte_drop c p h = ground arith

no_input_token_drop : (c p : Option ℕ) → HasNoFewerTokens c p → is_input_token_drop c p ≡ false
unfolding is_input_token_drop
no_input_token_drop none none h = refl
no_input_token_drop none (some p) h = refl
no_input_token_drop (some c) none h = refl
no_input_token_drop (some c) (some p) h = ground arith

abbrev has_drop : TransitionSignals → Bool
has_drop s = s.history_byte_drop || s.request_byte_drop || s.input_token_drop

-- Every pattern has a drop in size.
is_compaction-has_drop :
    (b : Bool) (s : TransitionSignals)
    → ((b && profile_pattern s) || heuristic_pattern s) ≡ true
    → has_drop s ≡ true
unfolding profile_pattern heuristic_pattern
is_compaction-has_drop b s h = ground arith

signals-no_drop :
    (test : Pattern → Text → Bool) (input : RequestTransitionInput) (previous : SpyCallSummary)
    → HasNotShrunk input previous
    → has_drop (signals_of input (evidence_of test input)) ≡ false
unfolding signals_of evidence_of
signals-no_drop test input previous h =
    rw
      (
        h.there,
        no_history_byte_drop _ _ h.history,
        no_request_byte_drop _ _ h.request,
        no_input_token_drop (context_tokens input.summary) (context_tokens previous) h.tokens,
      )
      refl

-- A request that asks for no summary, and that has not shrunk against the previous one in its
-- size, in its history and in its context tokens, is no candidate.
pub detect_compaction-no_shrink :
    (test : Pattern → Text → Bool) (input : RequestTransitionInput) (previous : SpyCallSummary)
    → (summarization_of test input).is_candidate ≡ false
    → HasNotShrunk input previous
    → (detect_compaction test input).candidate ≡ false
detect_compaction-no_shrink test input previous quiet h =
    elim (Bool-cases (detect_compaction test input).candidate) [
      | inr out ↦ out
      | inl candidate ↦ elim ((detect_compaction-candidate_iff test input).0 candidate) [
        | inl asks ↦ absurd (cc)
        | inr (_, c) ↦
            let s = signals_of input (evidence_of test input) in
            let drop =
              is_compaction-has_drop (is_known_harness (profiles_of test input)) s (ground arith) in
            absurd (cc (drop, signals-no_drop test input previous h))
      ]
    ]

-- Every history block is known by its content, changed or new.
classify_blocks-length :
    (hashes signatures : List Text) (blocks : List NormalizedBlock)
    → length (classify_blocks hashes signatures blocks).new_block_ids
        + length (classify_blocks hashes signatures blocks).changed_block_ids
        + length (filter (λ b. has hashes b.content_hash) blocks)
      ≡ length blocks
unfolding classify_blocks
classify_blocks-length hashes signatures [] = refl
classify_blocks-length hashes signatures (block ∷ blocks) =
    ground (arith, classify_blocks-length hashes signatures blocks)

-- The blocks that are new, those that are changed and those whose content the previous request has
-- are together all blocks.
classify_history_blocks-length :
    (current previous : List NormalizedBlock)
    → length (classify_history_blocks current previous).new_block_ids
        + length (classify_history_blocks current previous).changed_block_ids
        + length (filter (λ b. has (map (λ p. p.content_hash) previous) b.content_hash) current)
      ≡ length current
unfolding classify_history_blocks
classify_history_blocks-length current previous = classify_blocks-length _ _ current
