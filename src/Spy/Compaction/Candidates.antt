-- ===== src/Spy/Compaction/Candidates.antt =====
-- Which requests are candidates for a compaction, and how sure the assessment is.
use rootcell.Prelude.{
  ◌≡◌, refl, sym, ◌∙◌, Bool, true, ◌&&◌, ◌||◌, arith, some, Text, inl, inr, ◌⊎◌, ◌↔◌, Bool-cases,
  Option-cases,
}
use rootcell.Spy.Compaction.Blocks.{Pattern, RequestTransitionInput, SpyCallSummary}
use rootcell.Spy.Compaction.Signals.{
  Evidence, evidence_of, TransitionSignals, signals_of, profile_pattern, heuristic_pattern,
}
use rootcell.Spy.Compaction.{
  Profiles, profiles_of, summarization_of, transition_source, assess_transition, detect_compaction,
  no_candidate, summarization_candidate, named_candidate,
}

abbrev pub is_transition : TransitionSignals → Bool
is_transition s = s.stable && s.current_input_exists && s.has_prior_history

abbrev pub is_known_harness : Profiles → Bool
is_known_harness p = p.pi_profile || p.claude_code_profile || p.cursor_profile

-- What the transition between two requests must show to be a candidate.
abbrev pub is_compaction : Profiles → TransitionSignals → Bool
is_compaction p s =
    is_transition s && ((is_known_harness p && profile_pattern s) || heuristic_pattern s)

assess_transition-candidate :
    (p : Profiles) (s : TransitionSignals) (e : Evidence)
    → (assess_transition p s e).candidate ≡ is_compaction p s
unfolding assess_transition transition_source no_candidate named_candidate
assess_transition-candidate p s e = ground arith

-- A request is a candidate exactly if it asks for a summary, or if there is a previous request and
-- the transition shows a compaction: stable context, a current input, history on both sides, and
-- the drops that a known harness, or any one, must show.
pub detect_compaction-candidate_iff :
    (test : Pattern → Text → Bool) (input : RequestTransitionInput)
    → ((detect_compaction test input).candidate ≡ true) ↔ (
        ((summarization_of test input).is_candidate ≡ true)
        ⊎ (((previous : SpyCallSummary) × (input.previous_summary ≡ some previous))
            × (is_compaction (profiles_of test input) (signals_of input (evidence_of test input))
                ≡ true)))
unfolding detect_compaction no_candidate summarization_candidate
detect_compaction-candidate_iff test input =
    let p = profiles_of test input in
    let e = evidence_of test input in
    let transition = assess_transition-candidate p (signals_of input e) e in
    elim (Bool-cases (summarization_of test input).is_candidate) [
      | inl asks ↦ (λ h. inl asks, λ h. rw asks refl)
      | inr quiet ↦ elim (Option-cases input.previous_summary) [
        | inl first ↦ (
          λ h. absurd (cc (rw (quiet, first) at h)),
          λ h. elim h [ inl asks ↦ absurd (cc) | inr ((q, there), _) ↦ absurd (cc) ],
        )
        | inr (previous, there) ↦ (
          λ h. inr ((previous, there), sym transition ∙ (rw (quiet, there) at h)),
          λ h. elim h [ inl asks ↦ absurd (cc) | inr (_, c) ↦ rw (quiet, there) (transition ∙ c) ],
        )
      ]
    ]
