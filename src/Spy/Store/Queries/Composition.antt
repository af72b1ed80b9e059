-- ===== src/Spy/Store/Queries/Composition.antt =====
-- `requestCompositionForBlocks` of src/spy/store.ts: the sizes of a request by the kinds of its
-- blocks, in one pass over the blocks.
use rootcell.Prelude.{
  ℕ, ◌+◌, Bool, true, false, ◌&&◌, ◌||◌, List, [], ◌∷◌, ◌++◌, map, Option, none, some,
  if◌then◌else◌, any, length, ltb, ◌==◌, Text, codes, text_eq, or_else, starts_with, drop,
}
use rootcell.Prelude.Decimal.{is_digit, number}
use rootcell.Spy.Records.{NormalizedBlock}
use rootcell.Spy.Store.Queries.Calls.{SpyUsageSummary}

-- REQUEST_COMPOSITION_SECTION_ORDER
abbrev pub section_order : List Text
section_order =
    codes "provider-envelope"
    ∷ codes "harness-system-context"
    ∷ codes "user-visible-message"
    ∷ codes "prior-conversation-history"
    ∷ codes "current-user-input"
    ∷ codes "assistant-output"
    ∷ codes "thinking"
    ∷ codes "tool-definition"
    ∷ codes "tool-call"
    ∷ codes "tool-result"
    ∷ codes "cache-marker"
    ∷ codes "media-summary"
    ∷ codes "unknown"
    ∷ []

-- The digits that a text begins with, and the rest.
abbrev pub span_digits : Text → Text × Text
span_digits [] = ([], [])
span_digits (c ∷ s) =
    let (digits, rest) = span_digits s in if is_digit c then (c ∷ digits, rest) else ([], c ∷ s)

-- `/^\$\.messages\[(\d+)\]/`
unfoldable pub message_index_for_block : NormalizedBlock → Option ℕ
message_index_for_block block =
    let path = or_else block.provider_path [] in
    let (digits, rest) = span_digits (drop 11 path) in
    if starts_with path (codes "$.messages[")
      && (ltb 0 (length digits) && starts_with rest (codes "]"))
    then some (number digits)
    else none

-- `set.add(index)`, where there is one.
unfoldable pub add_index : Option ℕ → List ℕ → List ℕ
add_index none indexes = indexes
add_index (some index) indexes =
    if any (λ i. i == index) indexes then indexes else indexes ++ index ∷ []

pub record SectionTotals : Type 0 where
  pub block_count : ℕ
  pub message_indexes : List ℕ
  pub char_size : ℕ
  pub byte_size : ℕ

abbrev pub no_blocks : SectionTotals
no_blocks = record { block_count = 0; message_indexes = []; char_size = 0; byte_size = 0 }

unfoldable pub add_to_section : NormalizedBlock → SectionTotals → SectionTotals
add_to_section block section = record {
  block_count = section.block_count + 1;
  message_indexes = add_index (message_index_for_block block) section.message_indexes;
  char_size = section.char_size + block.char_size;
  byte_size = section.byte_size + block.byte_size;
}

-- A count with its sizes: of the tool definitions, the cache markers or the media summaries.
pub record Tally : Type 0 where
  pub count : ℕ
  pub char_size : ℕ
  pub byte_size : ℕ

abbrev pub no_tally : Tally
no_tally = record { count = 0; char_size = 0; byte_size = 0 }

unfoldable pub tally_if : Bool → NormalizedBlock → Tally → Tally
tally_if false block tally = tally
tally_if true block tally = record {
  count = tally.count + 1;
  char_size = tally.char_size + block.char_size;
  byte_size = tally.byte_size + block.byte_size;
}

-- The variables of the loop.
pub record Totals : Type 0 where
  pub message_indexes : List ℕ
  pub sections : List (Text × SectionTotals)
  pub char_size : ℕ
  pub byte_size : ℕ
  pub tool_definitions : Tally
  pub cache_markers : Tally
  pub media_summaries : Tally

abbrev pub first_totals : Totals
first_totals = record {
  message_indexes = [];
  sections = map (λ kind. (kind, no_blocks)) section_order;
  char_size = 0;
  byte_size = 0;
  tool_definitions = no_tally;
  cache_markers = no_tally;
  media_summaries = no_tally;
}

-- The section of a kind, which the map has once, changes in place.
unfoldable pub update_section : NormalizedBlock → Text × SectionTotals → Text × SectionTotals
update_section block (kind, section) =
    (kind, if text_eq kind block.kind then add_to_section block section else section)

unfoldable pub has_section : Text → List (Text × SectionTotals) → Bool
has_section kind sections = any (λ (s : Text × SectionTotals). text_eq s.0 kind) sections

unfoldable pub count_block : NormalizedBlock → Totals → Totals
count_block block totals = record {
  message_indexes =
      if has_section block.kind totals.sections
      then add_index (message_index_for_block block) totals.message_indexes
      else totals.message_indexes;
  sections = map (update_section block) totals.sections;
  char_size = totals.char_size + block.char_size;
  byte_size = totals.byte_size + block.byte_size;
  tool_definitions =
      tally_if (text_eq block.kind (codes "tool-definition")) block totals.tool_definitions;
  cache_markers =
      tally_if (text_eq block.kind (codes "cache-marker") || block.cache_marker) block
        totals.cache_markers;
  media_summaries =
      tally_if (text_eq block.kind (codes "media-summary")) block totals.media_summaries;
}

unfoldable pub count_blocks : List NormalizedBlock → Totals → Totals
count_blocks [] totals = totals
count_blocks (block ∷ blocks) totals = count_blocks blocks (count_block block totals)

pub record SpyRequestCompositionSection : Type 0 where
  pub kind : Text
  pub present : Bool
  pub block_count : ℕ
  pub message_count : ℕ
  pub char_size : ℕ
  pub byte_size : ℕ

pub record SpyRequestComposition : Type 0 where
  pub total_block_count : ℕ
  pub total_message_count : ℕ
  pub total_char_size : ℕ
  pub total_byte_size : ℕ
  pub sections : List SpyRequestCompositionSection
  pub tool_definitions : Tally
  pub cache_markers : Tally
  pub media_summaries : Tally
  pub usage : SpyUsageSummary

unfoldable pub composition_section : Text × SectionTotals → SpyRequestCompositionSection
composition_section (kind, section) = record {
  kind = kind;
  present = ltb 0 section.block_count;
  block_count = section.block_count;
  message_count = length section.message_indexes;
  char_size = section.char_size;
  byte_size = section.byte_size;
}

unfoldable pub request_composition_for_blocks :
    List NormalizedBlock → SpyUsageSummary → SpyRequestComposition
request_composition_for_blocks blocks usage =
    let totals = count_blocks blocks first_totals in
    record {
      total_block_count = length blocks;
      total_message_count = length totals.message_indexes;
      total_char_size = totals.char_size;
      total_byte_size = totals.byte_size;
      sections = map composition_section totals.sections;
      tool_definitions = totals.tool_definitions;
      cache_markers = totals.cache_markers;
      media_summaries = totals.media_summaries;
      usage = usage;
    }
