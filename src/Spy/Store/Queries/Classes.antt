-- ===== src/Spy/Store/Queries/Classes.antt =====
-- What the classification of a block says of the previous call.
use rootcell.Prelude.{
  ◌≡◌, refl, ap, ap₂, Bool, true, false, ◌&&◌, List, [], ◌∷◌, map, Option, none, some, any, All,
  Text, text_eq, text_eq_refl, arith, Bool-cases, inl, inr, ◌⊎◌,
}
use rootcell.Spy.Records.{NormalizedBlock}
use rootcell.Spy.Store.Queries.Diff.{
  Classification, unknown_block, repeated_block, changed_block, new_block, SpyBlockDiff,
  block_signature, BlockMap, get_block, set_blocks, classify_block, unknown_diff, diff_blocks,
}

-- There is a block with a key, and one with this id.
abbrev pub has_key : (NormalizedBlock → Text) → Text → List NormalizedBlock → Bool
has_key f key blocks = any (λ b. text_eq (f b) key) blocks

abbrev pub has_key_id : (NormalizedBlock → Text) → Text → Text → List NormalizedBlock → Bool
has_key_id f key id blocks = any (λ b. text_eq (f b) key && text_eq b.id id) blocks

-- The map of a loop has the blocks of the loop, or what it had before.
get_block-set_blocks :
    (f : NormalizedBlock → Text) (key : Text) (entries : BlockMap) (blocks : List NormalizedBlock)
    → ((b : NormalizedBlock) × (get_block key (set_blocks f entries blocks) ≡ some b)
        × (has_key_id f key b.id blocks ≡ true))
      ⊎ ((get_block key (set_blocks f entries blocks) ≡ get_block key entries)
          × (has_key f key blocks ≡ false))
unfolding set_blocks get_block
get_block-set_blocks f key entries [] = inr (refl, refl)
get_block-set_blocks f key entries (block ∷ blocks) =
    elim (get_block-set_blocks f key ((f block, block) ∷ entries) blocks) [
      | inl (b, found, there) ↦ inl (b, found, ground arith)
      | inr (same, lacks) ↦ elim (Bool-cases (text_eq (f block) key)) [
        | inl e ↦ inl (block, rw (same, e) refl, rw (e, text_eq_refl block.id) refl)
        | inr e ↦ inr (rw (same, e) refl, ground arith)
      ]
    ]

-- What a classification and the id that stands with it say of a block and the blocks of the previous
-- request.
abbrev pub Says : List NormalizedBlock → NormalizedBlock → Classification → Option Text → Type 0
Says previous block repeated_block (some id) =
    has_key_id (λ b. b.content_hash) block.content_hash id previous ≡ true
Says previous block changed_block (some id) =
    (has_key (λ b. b.content_hash) block.content_hash previous ≡ false)
    × (has_key_id block_signature (block_signature block) id previous ≡ true)
Says previous block new_block none =
    (has_key (λ b. b.content_hash) block.content_hash previous ≡ false)
    × (has_key block_signature (block_signature block) previous ≡ false)
Says previous block _ _ = ⊥

-- The diff of a block, with or without a previous request.
abbrev pub Describes : Option (List NormalizedBlock) → SpyBlockDiff → Type 0
Describes none diff = (diff.classification ≡ unknown_block) × (diff.previous_block_id ≡ none)
Describes (some previous) diff = Says previous diff.block diff.classification diff.previous_block_id

classify_block-Says :
    (previous : List NormalizedBlock) (block : NormalizedBlock)
    → let diff =
        classify_block
          (set_blocks (λ b. b.content_hash) [] previous)
          (set_blocks block_signature [] previous)
          block in
      (diff.block ≡ block) × Describes (some previous) diff
unfolding classify_block get_block
classify_block-Says previous block =
    elim (get_block-set_blocks (λ b. b.content_hash) block.content_hash [] previous) [
      | inl (b, found, there) ↦ rw (classify_block, found) (refl, there)
      | inr (none_found, lacks) ↦
          elim (get_block-set_blocks block_signature (block_signature block) [] previous) [
            | inl (b, found, there) ↦ rw (classify_block, none_found, found) (refl, (lacks, there))
            | inr (no_match, unlike) ↦
                rw (classify_block, none_found, no_match) (refl, (lacks, unlike))
          ]
    ]

classify_block-Describes :
    (previous : List NormalizedBlock) (blocks : List NormalizedBlock)
    → let diffs =
        map
          (classify_block
            (set_blocks (λ b. b.content_hash) [] previous)
            (set_blocks block_signature [] previous))
          blocks in
      (map (λ diff. diff.block) diffs ≡ blocks) × All (Describes (some previous)) diffs
classify_block-Describes previous [] = (refl, tt)
classify_block-Describes previous (block ∷ blocks) =
    let (same, says) = classify_block-Says previous block in
    let (rest, all) = classify_block-Describes previous blocks in
    (ap₂ (λ b bs. b ∷ bs) same rest, (says, all))

unknown_diff-Describes :
    (blocks : List NormalizedBlock)
    → (map (λ diff. diff.block) (map unknown_diff blocks) ≡ blocks)
      × All (Describes none) (map unknown_diff blocks)
unknown_diff-Describes [] = (refl, tt)
unknown_diff-Describes (block ∷ blocks) =
    let (rest, all) = unknown_diff-Describes blocks in
    (ap (λ bs. block ∷ bs) rest, ((refl, refl), all))

-- The diff has the request's blocks in their order. Without a previous comparable call each is
-- unknown. With one, a repeated block names a block of the previous request with the same content
-- hash; a changed one names a block with the same signature, and no block there has its hash; and
-- for a new one no block there has its hash or its signature.
pub diff_blocks-Describes :
    (previous : Option (List NormalizedBlock)) (blocks : List NormalizedBlock)
    → (map (λ diff. diff.block) (diff_blocks previous blocks) ≡ blocks)
      × All (Describes previous) (diff_blocks previous blocks)
unfolding diff_blocks
diff_blocks-Describes none blocks = unknown_diff-Describes blocks
diff_blocks-Describes (some previous) blocks = classify_block-Describes previous blocks
