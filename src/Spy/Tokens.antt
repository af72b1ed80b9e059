-- ===== src/Spy/Tokens.antt =====
-- src/spy/tokens.ts: the texts whose tokens are counted, and the keys of the counts. SHA-256 and the
-- text of a JSON value with sorted keys are arguments.
use rootcell.Prelude.{
  ℕ, List, [], ◌∷◌, ◌++◌, map, Option, none, some, ltb, filter, length, or_else, Text, codes, join,
}
use rootcell.Spy.Records.{NormalizedBlock}

pub data SubjectType : Type 0 where
  call_subject : SubjectType
  section_subject : SubjectType
  block_subject : SubjectType
  selection_subject : SubjectType

pub data Provenance : Type 0 where
  provider_counted : Provenance
  provider_reported : Provenance
  unavailable : Provenance

pub record SpyTokenCountRecord : Type 0 where
  pub subject_type : SubjectType
  pub call_id : Option Text
  pub block_id : Option Text
  pub direction : Option Text
  pub kind : Option Text
  pub label : Option Text
  pub source_hash : Text
  pub model_id : Text
  pub tokens : Option ℕ
  pub provenance : Provenance
  pub counted_at : ℕ
  pub error_text : Option Text

pub data SpyTokenCountSubject : Type 0 where
  whole_call : Text → Text → SpyTokenCountSubject
  section : Text → Text → Text → SpyTokenCountSubject
  single_block : Text → Text → SpyTokenCountSubject
  selection : Text → Option Text → Text → SpyTokenCountSubject

pub record TokenRecordBase : Type 0 where
  pub subject_type : SubjectType
  pub call_id : Option Text
  pub block_id : Option Text
  pub direction : Option Text
  pub kind : Option Text
  pub label : Option Text
  pub source_hash : Text
  pub model_id : Text
  pub counted_at : ℕ

unfoldable pub text_for_block : (Text → Text) → NormalizedBlock → Text
text_for_block stable_json block = elim block.text [
  | some text ↦ text
  | none ↦ elim block.json [ some json ↦ stable_json json | none ↦ [] ]
]

-- `join("\n\n")`
unfoldable pub join_paragraphs : List Text → Text
join_paragraphs [] = []
join_paragraphs (text ∷ []) = text
join_paragraphs (text ∷ next ∷ texts) = text ++ (b'\n' ∷ b'\n' ∷ join_paragraphs (next ∷ texts))

unfoldable pub text_for_blocks : (Text → Text) → List NormalizedBlock → Text
text_for_blocks stable_json blocks =
    join_paragraphs (filter (λ text. ltb 0 (length text)) (map (text_for_block stable_json) blocks))

abbrev pub subject_text : SubjectType → Text
subject_text call_subject = codes "call"
subject_text section_subject = codes "section"
subject_text block_subject = codes "block"
subject_text selection_subject = codes "selection"

unfoldable pub token_cache_key : TokenRecordBase → Text
token_cache_key base = join b':' (
    subject_text base.subject_type
    ∷ or_else base.call_id []
    ∷ or_else base.direction []
    ∷ or_else base.block_id []
    ∷ or_else base.kind []
    ∷ base.source_hash
    ∷ base.model_id
    ∷ [])

unfoldable pub unavailable_token_record : TokenRecordBase → Text → SpyTokenCountRecord
unavailable_token_record base message = record {
  subject_type = base.subject_type;
  call_id = base.call_id;
  block_id = base.block_id;
  direction = base.direction;
  kind = base.kind;
  label = base.label;
  source_hash = base.source_hash;
  model_id = base.model_id;
  tokens = none;
  provenance = unavailable;
  counted_at = base.counted_at;
  error_text = some message;
}

-- The base of a record.
abbrev pub base_of : SpyTokenCountRecord → TokenRecordBase
base_of r = record {
  subject_type = r.subject_type;
  call_id = r.call_id;
  block_id = r.block_id;
  direction = r.direction;
  kind = r.kind;
  label = r.label;
  source_hash = r.source_hash;
  model_id = r.model_id;
  counted_at = r.counted_at;
}
