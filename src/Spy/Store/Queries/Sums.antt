-- ===== src/Spy/Store/Queries/Sums.antt =====
-- Sums over blocks, and how the accumulators of `requestCompositionForBlocks` of src/spy/store.ts
-- grow by them.
use rootcell.Prelude.{
  ℕ, ◌+◌, ◌≡◌, refl, ◌∙◌, Bool, true, false, ◌||◌, List, [], ◌∷◌, ◌++◌, Option, none, some, ◌==◌,
  any, length, arith, Bool-cases, inl, inr,
}
use rootcell.Spy.Records.{NormalizedBlock}
use rootcell.Spy.Store.Queries.Composition.{message_index_for_block, add_index}

abbrev pub sum_of : (NormalizedBlock → ℕ) → List NormalizedBlock → ℕ
sum_of size [] = 0
sum_of size (block ∷ blocks) = size block + sum_of size blocks

abbrev pub chars_of : List NormalizedBlock → ℕ
chars_of blocks = sum_of (λ b. b.char_size) blocks

abbrev pub bytes_of : List NormalizedBlock → ℕ
bytes_of blocks = sum_of (λ b. b.byte_size) blocks

abbrev pub is_index : ℕ → Option ℕ → Bool
is_index i none = false
is_index i (some index) = index == i

-- Does a block stand in the message with this index?
abbrev pub is_in_message : ℕ → NormalizedBlock → Bool
is_in_message i block = is_index i (message_index_for_block block)

abbrev pub has_index : ℕ → List ℕ → Bool
has_index i indexes = any (λ j. j == i) indexes

abbrev pub IsDistinct : List ℕ → Type 0
IsDistinct [] = Unit {0}
IsDistinct (i ∷ indexes) = (has_index i indexes ≡ false) × IsDistinct indexes

-- So many messages do the blocks come from: there are so many distinct indexes, and these are the
-- indexes of the blocks' messages.
abbrev pub CountsMessages : ℕ → List NormalizedBlock → Type 0
CountsMessages n blocks =
    (indexes : List ℕ) × (length indexes ≡ n)
    × IsDistinct indexes
    × ((i : ℕ) → has_index i indexes ≡ any (is_in_message i) blocks)

-- The indexes of the blocks' messages, added one after the other.
abbrev pub add_indexes : List NormalizedBlock → List ℕ → List ℕ
add_indexes [] indexes = indexes
add_indexes (block ∷ blocks) indexes =
    add_indexes blocks (add_index (message_index_for_block block) indexes)

has_index-append :
    (i j : ℕ) (indexes : List ℕ) → has_index i (indexes ++ j ∷ []) ≡ (has_index i indexes || j == i)
has_index-append i j [] = ground arith
has_index-append i j (k ∷ indexes) = ground (arith, has_index-append i j indexes)

has_index_again :
    (i j : ℕ) (indexes : List ℕ)
    → has_index j indexes ≡ true
    → has_index i indexes ≡ (has_index i indexes || j == i)
has_index_again i j [] h = absurd (cc)
has_index_again i j (k ∷ indexes) h = ground (arith, has_index_again i j indexes)

has_index-add_index :
    (i : ℕ) (index : Option ℕ) (indexes : List ℕ)
    → has_index i (add_index index indexes) ≡ (has_index i indexes || is_index i index)
unfolding add_index
has_index-add_index i none indexes = ground arith
has_index-add_index i (some j) indexes = elim (Bool-cases (has_index j indexes)) [
  | inl there ↦ rw (add_index, there) (has_index_again i j indexes there)
  | inr absent ↦ rw (add_index, absent) (has_index-append i j indexes)
]

IsDistinct-append :
    (j : ℕ) (indexes : List ℕ)
    → has_index j indexes ≡ false
    → IsDistinct indexes
    → IsDistinct (indexes ++ j ∷ [])
IsDistinct-append j [] h d = (refl, tt)
IsDistinct-append j (i ∷ indexes) h (new, d) =
    (has_index-append i j indexes ∙ ground arith, IsDistinct-append j indexes (ground arith) d)

IsDistinct-add_index :
    (index : Option ℕ) (indexes : List ℕ)
    → IsDistinct indexes
    → IsDistinct (add_index index indexes)
unfolding add_index
IsDistinct-add_index none indexes d = d
IsDistinct-add_index (some j) indexes d = elim (Bool-cases (has_index j indexes)) [
  | inl there ↦ rw (add_index, there) d
  | inr absent ↦ rw (add_index, absent) (IsDistinct-append j indexes absent d)
]

IsDistinct-add_indexes :
    (blocks : List NormalizedBlock) (indexes : List ℕ)
    → IsDistinct indexes
    → IsDistinct (add_indexes blocks indexes)
IsDistinct-add_indexes [] indexes d = d
IsDistinct-add_indexes (block ∷ blocks) indexes d =
    IsDistinct-add_indexes blocks _ (IsDistinct-add_index (message_index_for_block block) indexes d)

has_index-add_indexes :
    (i : ℕ) (blocks : List NormalizedBlock) (indexes : List ℕ)
    → has_index i (add_indexes blocks indexes)
      ≡ (has_index i indexes || any (is_in_message i) blocks)
has_index-add_indexes i [] indexes = ground arith
has_index-add_indexes i (block ∷ blocks) indexes =
    let index = message_index_for_block block in
    ground (
      arith,
      has_index-add_indexes i blocks (add_index index indexes),
      has_index-add_index i index indexes,
    )

-- The indexes that are added to none count the messages.
pub CountsMessages-add_indexes :
    (blocks : List NormalizedBlock) → CountsMessages (length (add_indexes blocks [])) blocks
CountsMessages-add_indexes blocks = (
  add_indexes blocks [],
  refl,
  IsDistinct-add_indexes blocks [] tt,
  λ i. has_index-add_indexes i blocks [],
)
