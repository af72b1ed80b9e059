-- ===== src/Spy/Store/Queries/Sections.antt =====
-- What the one pass of `requestCompositionForBlocks` of src/spy/store.ts over the blocks of a
-- request counts, against the lengths and the sums over the blocks of each part.
use rootcell.Prelude.{
  ℕ, ◌+◌, ◌≡◌, refl, sym, ap, ◌∙◌, Bool, subst, List, [], ◌∷◌, map, filter, Text, arith, any,
  length, ltb, All,
}
use rootcell.Spy.Records.{NormalizedBlock}
use rootcell.Spy.Store.Queries.Calls.{SpyUsageSummary}
use rootcell.Spy.Store.Queries.Composition.{
  section_order, no_blocks, Tally, no_tally, first_totals, composition_section,
  SpyRequestCompositionSection, request_composition_for_blocks,
}
use rootcell.Spy.Store.Queries.Pass.{
  is_of_kind, is_in_section, is_cache_marker, is_tool_definition, is_media_summary, tally_blocks,
  section_of, add_blocks_lem, tally_blocks_lem, sections-count_blocks, sizes-count_blocks,
  tallies-count_blocks, message_indexes_of_all,
}
use rootcell.Spy.Store.Queries.Sums.{chars_of, bytes_of, CountsMessages, CountsMessages-add_indexes}

-- The count and the sizes of a list of blocks.
abbrev pub Tallies : Tally → List NormalizedBlock → Type 0
Tallies tally blocks =
    (tally.count ≡ length blocks)
    × (tally.char_size ≡ chars_of blocks)
    × (tally.byte_size ≡ bytes_of blocks)

-- A section, by the blocks of its kind.
abbrev pub Summarizes : List NormalizedBlock → SpyRequestCompositionSection → Type 0
Summarizes blocks section =
    let own = filter (is_of_kind section.kind) blocks in
    (section.present ≡ any (is_of_kind section.kind) blocks)
    × (section.block_count ≡ length own)
    × (section.char_size ≡ chars_of own)
    × (section.byte_size ≡ bytes_of own)
    × CountsMessages section.message_count own

Tallies-tally_blocks :
    (blocks : List NormalizedBlock) → Tallies (tally_blocks blocks no_tally) blocks
Tallies-tally_blocks blocks =
    let (n, c, b) = tally_blocks_lem blocks no_tally in
    (omega (arith, n), omega (arith, c), omega (arith, b))

-- Whether there is a block is whether their number is positive.
present_by_count :
    (p : NormalizedBlock → Bool) (blocks : List NormalizedBlock)
    → ltb 0 (length (filter p blocks)) ≡ any p blocks
present_by_count p [] = refl
present_by_count p (block ∷ blocks) = ground (arith, present_by_count p blocks)

counted_from_zero : {m n : ℕ} → m ≡ 0 + n → m ≡ n
counted_from_zero h = omega (arith, h)

Summarizes-composition_section :
    (blocks : List NormalizedBlock) (kind : Text)
    → Summarizes blocks (composition_section (section_of blocks (kind, no_blocks)))
unfolding composition_section
Summarizes-composition_section blocks kind =
    let own = filter (is_of_kind kind) blocks in
    let (n, c, b, i) = add_blocks_lem own no_blocks in
    (
      ap (λ k. ltb 0 k) (counted_from_zero n) ∙ present_by_count (is_of_kind kind) blocks,
      omega (arith, n),
      omega (arith, c),
      omega (arith, b),
      subst (λ indexes. CountsMessages (length indexes) own) (sym i)
          (CountsMessages-add_indexes own),
    )

-- The sections of the kinds.
abbrev sections_of : List NormalizedBlock → List Text → List SpyRequestCompositionSection
sections_of blocks kinds =
    map composition_section (map (section_of blocks) (map (λ kind. (kind, no_blocks)) kinds))

sections_of-Summarizes :
    (blocks : List NormalizedBlock) (kinds : List Text)
    → (map (λ section. section.kind) (sections_of blocks kinds) ≡ kinds)
      × All (Summarizes blocks) (sections_of blocks kinds)
unfolding composition_section
sections_of-Summarizes blocks [] = (refl, tt)
sections_of-Summarizes blocks (kind ∷ kinds) =
    let (same, rest) = sections_of-Summarizes blocks kinds in
    (ap (λ ks. kind ∷ ks) same, (Summarizes-composition_section blocks kind, rest))

-- The composition of a request has a section for each kind, in their fixed order, with the number,
-- the messages, the characters and the bytes of the blocks of that kind. The totals are those of
-- all blocks, the messages only those with a block that has a section, and the tool definitions, the
-- cache markers and the media summaries are counted by the blocks of that kind, or marked so.
pub request_composition-sections :
    (blocks : List NormalizedBlock) (usage : SpyUsageSummary)
    → let composition = request_composition_for_blocks blocks usage in
      (map (λ section. section.kind) composition.sections ≡ section_order)
      × All (Summarizes blocks) composition.sections
      × (composition.total_block_count ≡ length blocks)
      × (composition.total_char_size ≡ chars_of blocks)
      × (composition.total_byte_size ≡ bytes_of blocks)
      × CountsMessages composition.total_message_count (filter is_in_section blocks)
      × Tallies composition.tool_definitions (filter is_tool_definition blocks)
      × Tallies composition.cache_markers (filter is_cache_marker blocks)
      × Tallies composition.media_summaries (filter is_media_summary blocks)
unfolding request_composition_for_blocks
request_composition-sections blocks usage =
    let sections = ap (map composition_section) (sections-count_blocks blocks first_totals) in
    let (kinds, all) = sections_of-Summarizes blocks section_order in
    let (c, b) = sizes-count_blocks blocks first_totals in
    let (t, k, m) = tallies-count_blocks blocks first_totals in
    (
      ap (map (λ section. section.kind)) sections ∙ kinds,
      subst (All (Summarizes blocks)) (sym sections) all,
      refl,
      omega (arith, c),
      omega (arith, b),
      subst (λ indexes. CountsMessages (length indexes) (filter is_in_section blocks))
          (sym (message_indexes_of_all blocks))
          (CountsMessages-add_indexes (filter is_in_section blocks)),
      subst (λ tally. Tallies tally (filter is_tool_definition blocks)) (sym t)
          (Tallies-tally_blocks (filter is_tool_definition blocks)),
      subst (λ tally. Tallies tally (filter is_cache_marker blocks)) (sym k)
          (Tallies-tally_blocks (filter is_cache_marker blocks)),
      subst (λ tally. Tallies tally (filter is_media_summary blocks)) (sym m)
          (Tallies-tally_blocks (filter is_media_summary blocks)),
    )
