-- ===== src/Spy/Service/Subjects.antt =====
-- The subjects of a call whose tokens are not counted yet: `missingTokenCountSubjects` of
-- src/spy/service.ts with the keys of subjects and records.
pub mod Missing
pub mod Parts
pub mod Keys
pub mod Exact
use rootcell.Prelude.{
  ℕ, String, Bool, true, false, not, ◌&&◌, ◌||◌, List, [], ◌∷◌, ◌++◌, map, Option, none, some,
  if◌then◌else◌, any, filter, or_else, Text, codes, text_eq, join,
}
use rootcell.Spy.Records.{NormalizedBlock}
use rootcell.Spy.Tokens.{
  SubjectType, call_subject, section_subject, block_subject, selection_subject, Provenance,
  unavailable, SpyTokenCountRecord, SpyTokenCountSubject, whole_call, section, single_block,
  selection,
}

-- `[...].join(":")`
abbrev pub join_key : String → Text → Text → Text → Text → Text → Text
join_key name call_id direction block_id kind label =
    join b':' (codes name ∷ call_id ∷ direction ∷ block_id ∷ kind ∷ label ∷ [])

unfoldable pub subject_key : SpyTokenCountSubject → Text
subject_key (whole_call call_id direction) = join_key "call" call_id direction [] [] []
subject_key (section call_id direction kind) = join_key "section" call_id direction [] kind []
subject_key (single_block call_id block_id) = join_key "block" call_id [] block_id [] []
subject_key (selection call_id label text) =
    join_key "selection" call_id [] [] [] (or_else label text)

unfoldable pub record_subject_key : SpyTokenCountRecord → Text
record_subject_key r = elim r.subject_type [
  | call_subject ↦ join_key "call" (or_else r.call_id []) (or_else r.direction []) [] [] []
  | section_subject ↦
      join_key "section" (or_else r.call_id []) (or_else r.direction []) [] (or_else r.kind []) []
  | block_subject ↦ join_key "block" (or_else r.call_id []) [] (or_else r.block_id []) [] []
  | selection_subject ↦
      join_key "selection" (or_else r.call_id []) [] [] [] (or_else r.label r.source_hash)
]

abbrev pub is_available : SpyTokenCountRecord → Bool
is_available r = elim r.provenance [ unavailable ↦ false | _ ↦ true ]

-- `set.has(key)`
unfoldable pub has_key : Text → List Text → Bool
has_key key keys = any (λ k. text_eq k key) keys

-- `if (!present.has(subjectKey(subject))) subjects.push(subject)`
unfoldable pub push_missing :
    List Text → SpyTokenCountSubject → List SpyTokenCountSubject → List SpyTokenCountSubject
push_missing present subject subjects =
    if has_key (subject_key subject) present then subjects else subjects ++ subject ∷ []

abbrev pub section_of_block : Text → NormalizedBlock → SpyTokenCountSubject
section_of_block call_id block = section call_id block.direction block.kind

-- The loop over the blocks, with the keys of the sections that it has met.
unfoldable pub add_block_subjects :
    Text
    → List Text
    → List NormalizedBlock
    → List Text
    → List SpyTokenCountSubject
    → List SpyTokenCountSubject
add_block_subjects call_id present [] section_keys subjects = subjects
add_block_subjects call_id present (block ∷ blocks) section_keys subjects =
    let of_section = section_of_block call_id block in
    let key = subject_key of_section in
    let sectioned =
      if has_key key section_keys then subjects else push_missing present of_section subjects in
    let keys = if has_key key section_keys then section_keys else key ∷ section_keys in
    add_block_subjects call_id present blocks keys
      (push_missing present (single_block call_id block.id) sectioned)

unfoldable pub present_keys : List SpyTokenCountRecord → List Text
present_keys records = map record_subject_key (filter is_available records)

unfoldable pub missing_token_count_subjects :
    Text → List SpyTokenCountRecord → List NormalizedBlock → List SpyTokenCountSubject
missing_token_count_subjects call_id records blocks =
    let present = present_keys records in
    add_block_subjects call_id present blocks []
      (push_missing present (whole_call call_id (codes "request")) [])
