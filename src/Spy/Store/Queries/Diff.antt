-- ===== src/Spy/Store/Queries/Diff.antt =====
-- `getCallDiff` of src/spy/store.ts: how the blocks of a request differ from those of the previous
-- comparable call.
use rootcell.Prelude.{
  List, [], ◌∷◌, map, Option, none, some, if◌then◌else◌, find, Text, codes, text_eq, or_else, join,
}
use rootcell.Prelude.Decimal.{decimal}
use rootcell.Spy.Records.{ProviderCall, NormalizedBlock}
use rootcell.Spy.Store.Tables.{Db}
use rootcell.Spy.Store.Persist.{blocks_for_call}
use rootcell.Spy.Store.Queries.Calls.{CallSummary, call_summary, previous_comparable_call}

pub data Classification : Type 0 where
  unknown_block : Classification
  repeated_block : Classification
  changed_block : Classification
  new_block : Classification

pub record SpyBlockDiff : Type 0 where
  pub block : NormalizedBlock
  pub classification : Classification
  pub previous_block_id : Option Text

pub record SpyCallDiff : Type 0 where
  pub call : CallSummary
  pub previous_call : Option CallSummary
  pub blocks : List SpyBlockDiff

-- The parts, joined by the unit separator.
unfoldable pub block_signature : NormalizedBlock → Text
block_signature block = join 31 (
    block.direction
    ∷ decimal block.ordinal
    ∷ block.kind
    ∷ or_else block.role []
    ∷ block.source
    ∷ or_else block.provider_path []
    ∷ [])

abbrev pub BlockMap : Type 0
BlockMap = List (Text × NormalizedBlock)

-- `map.get(key)`; a key that is set again stands in front of its old value.
unfoldable pub get_block : Text → BlockMap → Option NormalizedBlock
get_block key [] = none
get_block key ((k, block) ∷ entries) =
    let rest = get_block key entries in if text_eq k key then some block else rest

-- The loop of `map.set(f(block), block)`.
unfoldable pub set_blocks : (NormalizedBlock → Text) → BlockMap → List NormalizedBlock → BlockMap
set_blocks f entries [] = entries
set_blocks f entries (block ∷ blocks) = set_blocks f ((f block, block) ∷ entries) blocks

unfoldable pub classify_block : BlockMap → BlockMap → NormalizedBlock → SpyBlockDiff
classify_block by_hash by_signature block = elim (get_block block.content_hash by_hash) [
  | some hash_match ↦ record {
    block = block;
    classification = repeated_block;
    previous_block_id = some hash_match.id;
  }
  | none ↦ elim (get_block (block_signature block) by_signature) [
    | some signature_match ↦ record {
      block = block;
      classification = changed_block;
      previous_block_id = some signature_match.id;
    }
    | none ↦ record { block = block; classification = new_block; previous_block_id = none }
  ]
]

abbrev pub unknown_diff : NormalizedBlock → SpyBlockDiff
unknown_diff block = record {
  block = block;
  classification = unknown_block;
  previous_block_id = none;
}

-- The blocks of the previous call, where there is one.
unfoldable pub diff_blocks :
    Option (List NormalizedBlock) → List NormalizedBlock → List SpyBlockDiff
diff_blocks none blocks = map unknown_diff blocks
diff_blocks (some previous) blocks =
    map
      (classify_block (set_blocks (λ b. b.content_hash) [] previous)
        (set_blocks block_signature [] previous))
      blocks

abbrev pub map_option : {A B : Type 0} → (A → B) → Option A → Option B
map_option f none = none
map_option f (some a) = some (f a)

abbrev pub call_row : Text → Db → Option ProviderCall
call_row call_id db = find (λ c. text_eq c.id call_id) db.calls

abbrev pub previous_request_blocks : ProviderCall → Db → Option (List NormalizedBlock)
previous_request_blocks row db =
    map_option (λ previous. blocks_for_call previous.id (codes "request") db)
      (previous_comparable_call row db)

unfoldable pub get_call_diff : Text → Db → Option SpyCallDiff
get_call_diff call_id db = elim (call_row call_id db) [
  | none ↦ none
  | some row ↦ some (record {
    call = call_summary db row;
    previous_call = map_option (call_summary db) (previous_comparable_call row db);
    blocks =
        diff_blocks (previous_request_blocks row db) (blocks_for_call call_id (codes "request") db);
  })
]
