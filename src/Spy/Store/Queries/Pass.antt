-- ===== src/Spy/Store/Queries/Pass.antt =====
-- The one pass of `requestCompositionForBlocks` of src/spy/store.ts, part by part: each variable of
-- the loop is what a pass over the blocks of its part alone gives.
use rootcell.Prelude.{
  ℕ, ◌+◌, ◌≡◌, refl, sym, ap, ap₂, ◌∙◌, Bool, true, false, ◌||◌, List, [], ◌∷◌, map, filter, Text,
  codes, text_eq, arith, Bool-cases, inl, inr, any, length, if◌then◌else◌,
}
use rootcell.Spy.Records.{NormalizedBlock}
use rootcell.Spy.Store.Queries.Composition.{
  section_order, SectionTotals, add_to_section, Tally, tally_if, Totals, first_totals,
  message_index_for_block, add_index, update_section, has_section, count_block, count_blocks,
}
use rootcell.Spy.Store.Queries.Sums.{chars_of, bytes_of, add_indexes}

-- The blocks of a kind.
abbrev pub is_of_kind : Text → NormalizedBlock → Bool
is_of_kind kind block = text_eq kind block.kind

-- A block with the kind of a section.
abbrev pub is_in_section : NormalizedBlock → Bool
is_in_section block = any (λ kind. text_eq kind block.kind) section_order

abbrev pub is_cache_marker : NormalizedBlock → Bool
is_cache_marker block = text_eq block.kind (codes "cache-marker") || block.cache_marker

abbrev pub is_tool_definition : NormalizedBlock → Bool
is_tool_definition block = text_eq block.kind (codes "tool-definition")

abbrev pub is_media_summary : NormalizedBlock → Bool
is_media_summary block = text_eq block.kind (codes "media-summary")

-- The sums over blocks of one kind, one block after the other.
abbrev pub add_blocks : List NormalizedBlock → SectionTotals → SectionTotals
add_blocks [] section = section
add_blocks (block ∷ blocks) section = add_blocks blocks (add_to_section block section)

abbrev pub tally_blocks : List NormalizedBlock → Tally → Tally
tally_blocks [] tally = tally
tally_blocks (block ∷ blocks) tally = tally_blocks blocks (tally_if true block tally)

abbrev pub section_of : List NormalizedBlock → Text × SectionTotals → Text × SectionTotals
section_of blocks (kind, section) = (kind, add_blocks (filter (is_of_kind kind) blocks) section)

pub add_blocks_lem :
    (blocks : List NormalizedBlock) (s : SectionTotals)
    → let after = add_blocks blocks s in
      (after.block_count ≡ s.block_count + length blocks)
      × (after.char_size ≡ s.char_size + chars_of blocks)
      × (after.byte_size ≡ s.byte_size + bytes_of blocks)
      × (after.message_indexes ≡ add_indexes blocks s.message_indexes)
unfolding add_to_section
add_blocks_lem [] s = (omega arith, omega arith, omega arith, refl)
add_blocks_lem (block ∷ blocks) s =
    let (n, c, b, i) = add_blocks_lem blocks (add_to_section block s) in
    (omega (arith, n), omega (arith, c), omega (arith, b), i)

pub tally_blocks_lem :
    (blocks : List NormalizedBlock) (t : Tally)
    → let after = tally_blocks blocks t in
      (after.count ≡ t.count + length blocks)
      × (after.char_size ≡ t.char_size + chars_of blocks)
      × (after.byte_size ≡ t.byte_size + bytes_of blocks)
unfolding tally_if
tally_blocks_lem [] t = (omega arith, omega arith, omega arith)
tally_blocks_lem (block ∷ blocks) t =
    let (n, c, b) = tally_blocks_lem blocks (tally_if true block t) in
    (omega (arith, n), omega (arith, c), omega (arith, b))

section_of-update_section :
    (block : NormalizedBlock) (blocks : List NormalizedBlock) (s : Text × SectionTotals)
    → section_of blocks (update_section block s) ≡ section_of (block ∷ blocks) s
unfolding update_section
section_of-update_section block blocks (kind, section) =
    elim (Bool-cases (text_eq kind block.kind)) [
      | inl e ↦ rw (update_section, e) refl
      | inr e ↦ rw (update_section, e) refl
    ]

map-update_section :
    (block : NormalizedBlock) (blocks : List NormalizedBlock)
    (sections : List (Text × SectionTotals))
    → map (section_of blocks) (map (update_section block) sections)
      ≡ map (section_of (block ∷ blocks)) sections
map-update_section block blocks [] = refl
map-update_section block blocks (s ∷ sections) =
    ap₂ (λ x xs. x ∷ xs) (section_of-update_section block blocks s)
      (map-update_section block blocks sections)

section_of_none : (sections : List (Text × SectionTotals)) → map (section_of []) sections ≡ sections
section_of_none [] = refl
section_of_none ((kind, section) ∷ sections) =
    ap (λ xs. (kind, section) ∷ xs) (section_of_none sections)

pub sections-count_blocks :
    (blocks : List NormalizedBlock) (totals : Totals)
    → (count_blocks blocks totals).sections ≡ map (section_of blocks) totals.sections
unfolding count_blocks count_block
sections-count_blocks [] totals = sym (section_of_none totals.sections)
sections-count_blocks (block ∷ blocks) totals =
    sections-count_blocks blocks (count_block block totals)
    ∙ map-update_section block blocks totals.sections

pub sizes-count_blocks :
    (blocks : List NormalizedBlock) (totals : Totals)
    → ((count_blocks blocks totals).char_size ≡ totals.char_size + chars_of blocks)
      × ((count_blocks blocks totals).byte_size ≡ totals.byte_size + bytes_of blocks)
unfolding count_blocks count_block
sizes-count_blocks [] totals = (omega arith, omega arith)
sizes-count_blocks (block ∷ blocks) totals =
    let (c, b) = sizes-count_blocks blocks (count_block block totals) in
    (omega (arith, c), omega (arith, b))

tally_blocks-if :
    (p : NormalizedBlock → Bool) (block : NormalizedBlock) (blocks : List NormalizedBlock)
    (tally : Tally)
    → tally_blocks (filter p blocks) (tally_if (p block) block tally)
      ≡ tally_blocks (filter p (block ∷ blocks)) tally
unfolding tally_if
tally_blocks-if p block blocks tally = elim (Bool-cases (p block)) [
  | inl e ↦ rw e refl
  | inr e ↦ rw e refl
]

pub tallies-count_blocks :
    (blocks : List NormalizedBlock) (totals : Totals)
    → let after = count_blocks blocks totals in
      (after.tool_definitions
        ≡ tally_blocks (filter is_tool_definition blocks) totals.tool_definitions)
      × (after.cache_markers ≡ tally_blocks (filter is_cache_marker blocks) totals.cache_markers)
      × (after.media_summaries
          ≡ tally_blocks (filter is_media_summary blocks) totals.media_summaries)
unfolding count_blocks count_block
tallies-count_blocks [] totals = (refl, refl, refl)
tallies-count_blocks (block ∷ blocks) totals =
    let (t, c, m) = tallies-count_blocks blocks (count_block block totals) in
    (
      t ∙ tally_blocks-if is_tool_definition block blocks totals.tool_definitions,
      c ∙ tally_blocks-if is_cache_marker block blocks totals.cache_markers,
      m ∙ tally_blocks-if is_media_summary block blocks totals.media_summaries,
    )

has_section-update_section :
    (kind : Text) (block : NormalizedBlock) (sections : List (Text × SectionTotals))
    → has_section kind (map (update_section block) sections) ≡ has_section kind sections
unfolding has_section update_section
has_section-update_section kind block [] = refl
has_section-update_section kind block ((k, section) ∷ sections) =
    ap (λ b. text_eq k kind || b) (has_section-update_section kind block sections)

-- The kinds of the sections stay those of the first map.
HasSections : Totals → Type 0
HasSections totals =
    (block : NormalizedBlock) → has_section block.kind totals.sections ≡ is_in_section block

add_indexes-if :
    (b : Bool) (block : NormalizedBlock) (rest : List NormalizedBlock) (indexes : List ℕ)
    → add_indexes rest (if b then add_index (message_index_for_block block) indexes else indexes)
      ≡ add_indexes (if b then block ∷ rest else rest) indexes
add_indexes-if true block rest indexes = refl
add_indexes-if false block rest indexes = refl

message_indexes-count_blocks :
    (blocks : List NormalizedBlock) (totals : Totals)
    → HasSections totals
    → (count_blocks blocks totals).message_indexes
      ≡ add_indexes (filter is_in_section blocks) totals.message_indexes
unfolding count_blocks count_block HasSections
message_indexes-count_blocks [] totals h = refl
message_indexes-count_blocks (block ∷ blocks) totals h =
    message_indexes-count_blocks blocks (count_block block totals)
      (λ b. has_section-update_section b.kind block totals.sections ∙ h b)
    ∙ add_indexes-if (has_section block.kind totals.sections) block (filter is_in_section blocks)
        totals.message_indexes
    ∙ ap
        (λ b.
          add_indexes
            (if b then block ∷ filter is_in_section blocks else filter is_in_section blocks)
            totals.message_indexes)
        (h block)

first_totals-HasSections : HasSections first_totals
unfolding HasSections has_section
first_totals-HasSections block = refl

-- The indexes of all blocks that have a section.
pub message_indexes_of_all :
    (blocks : List NormalizedBlock)
    → (count_blocks blocks first_totals).message_indexes
      ≡ add_indexes (filter is_in_section blocks) []
message_indexes_of_all blocks =
    message_indexes-count_blocks blocks first_totals first_totals-HasSections
