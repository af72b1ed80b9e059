-- ===== src/Spy/Compaction/Drops.antt =====
-- The drops between two requests that `detectCompaction` of src/spy/compaction.ts looks for, on the
-- sizes and counts, and the ways in which they come together.
use rootcell.Prelude.{
  ℕ, ◌*◌, ◌≤◌, ◌≡◌, Bool, true, ◌&&◌, ◌||◌, arith, some, none, inl, inr, ◌⊎◌, ◌↔◌, length, Option,
}
use rootcell.Spy.Compaction.Blocks.{
  RequestTransitionInput, SpyCallSummary, history_blocks, byte_size, context_tokens,
}
use rootcell.Spy.Compaction.Signals.{
  TransitionSignals, is_history_byte_drop, is_history_block_drop, is_request_byte_drop,
  is_input_token_drop, profile_pattern, heuristic_pattern,
}

-- The history has lost 45 % of its bytes.
abbrev pub HistoryShrank : RequestTransitionInput → Type 0
HistoryShrank input =
    (2048 ≤ byte_size (history_blocks input.previous_request_blocks))
    × (byte_size (history_blocks input.request_blocks) * 100
        ≤ byte_size (history_blocks input.previous_request_blocks) * 55)

-- The history has lost 60 % of its blocks, or all but one.
abbrev pub HistoryLostBlocks : RequestTransitionInput → Type 0
HistoryLostBlocks input =
    (4 ≤ length (history_blocks input.previous_request_blocks))
    × ((length (history_blocks input.request_blocks) ≤ 1)
        ⊎ (length (history_blocks input.request_blocks) * 10
            ≤ length (history_blocks input.previous_request_blocks) * 4))

-- The request has lost a quarter of its bytes.
abbrev pub RequestShrank : RequestTransitionInput → SpyCallSummary → Type 0
RequestShrank input previous =
    (8192 ≤ previous.request_byte_size)
    × (input.summary.request_byte_size * 4 ≤ previous.request_byte_size * 3)

abbrev pub FewerTokens : Option ℕ → Option ℕ → Type 0
FewerTokens (some current) (some previous) = (2000 ≤ previous) × (current * 4 ≤ previous * 3)
FewerTokens _ _ = ⊥

-- Both requests report their context tokens, and a quarter of them is gone.
abbrev pub ContextShrank : RequestTransitionInput → SpyCallSummary → Type 0
ContextShrank input previous = FewerTokens (context_tokens input.summary) (context_tokens previous)

pub history_byte_drop_iff :
    (c p : ℕ) → (is_history_byte_drop c (some p) ≡ true) ↔ ((2048 ≤ p) × (c * 100 ≤ p * 55))
unfolding is_history_byte_drop
history_byte_drop_iff c p = (λ h. ground arith, λ h. ground arith)

pub history_block_drop_iff :
    (c p : ℕ) → (is_history_block_drop c (some p) ≡ true) ↔ ((4 ≤ p) × ((c ≤ 1) ⊎ (c * 10 ≤ p * 4)))
unfolding is_history_block_drop
history_block_drop_iff c p = (λ h. ground arith, λ h. ground arith)

pub request_byte_drop_iff :
    (c p : ℕ) → (is_request_byte_drop c (some p) ≡ true) ↔ ((8192 ≤ p) × (c * 4 ≤ p * 3))
unfolding is_request_byte_drop
request_byte_drop_iff c p = (λ h. ground arith, λ h. ground arith)

pub input_token_drop_iff : (c p : Option ℕ) → (is_input_token_drop c p ≡ true) ↔ FewerTokens c p
unfolding is_input_token_drop
input_token_drop_iff (some c) (some p) = (λ h. ground arith, λ h. ground arith)
input_token_drop_iff (some c) none = (λ h. absurd (cc), λ h. absurd h)
input_token_drop_iff none p = (λ h. absurd (cc), λ h. absurd h)

-- What must come together, for the propositions that the history looks like a summary, has fewer
-- bytes, has fewer blocks, that the request has fewer bytes, the context fewer tokens, and that the
-- harness is known.
abbrev pub Shows : Type 0 → Type 0 → Type 0 → Type 0 → Type 0 → Type 0 → Type 0
Shows Summary Bytes Blocks Request Tokens Known =
    (Known × ((Summary × (Bytes ⊎ Request ⊎ Tokens)) ⊎ (Bytes × (Blocks ⊎ Request ⊎ Tokens))))
    ⊎ (Bytes × (Summary ⊎ (Blocks × (Request ⊎ Tokens))))

pub Shows-map :
    {S H B R T K S' H' B' R' T' K' : Type 0}
    → (S → S')
    → (H → H')
    → (B → B')
    → (R → R')
    → (T → T')
    → (K → K')
    → Shows S H B R T K
    → Shows S' H' B' R' T' K'
Shows-map s h b r t k (inl (x, inl (y, inl z))) = inl (k x, inl (s y, inl (h z)))
Shows-map s h b r t k (inl (x, inl (y, inr (inl z)))) = inl (k x, inl (s y, inr (inl (r z))))
Shows-map s h b r t k (inl (x, inl (y, inr (inr z)))) = inl (k x, inl (s y, inr (inr (t z))))
Shows-map s h b r t k (inl (x, inr (y, inl z))) = inl (k x, inr (h y, inl (b z)))
Shows-map s h b r t k (inl (x, inr (y, inr (inl z)))) = inl (k x, inr (h y, inr (inl (r z))))
Shows-map s h b r t k (inl (x, inr (y, inr (inr z)))) = inl (k x, inr (h y, inr (inr (t z))))
Shows-map s h b r t k (inr (x, inl y)) = inr (h x, inl (s y))
Shows-map s h b r t k (inr (x, inr (y, inl z))) = inr (h x, inr (b y, inl (r z)))
Shows-map s h b r t k (inr (x, inr (y, inr z))) = inr (h x, inr (b y, inr (t z)))

abbrev pub Shown : Bool → TransitionSignals → Type 0
Shown known s =
    Shows (s.summary_like_history ≡ true) (s.history_byte_drop ≡ true) (s.history_block_drop ≡ true)
      (s.request_byte_drop ≡ true) (s.input_token_drop ≡ true) (known ≡ true)

pub patterns_iff :
    (known : Bool) (s : TransitionSignals)
    → (((known && profile_pattern s) || heuristic_pattern s) ≡ true) ↔ Shown known s
unfolding profile_pattern heuristic_pattern
patterns_iff known s = (λ h. ground arith, λ h. ground arith)
