-- ===== src/Spy/Service/Subjects/Missing.antt =====
-- The subjects that are found missing are those that are wanted and not counted.
use rootcell.Prelude.{
  ◌≡◌, refl, subst, Bool, true, false, ◌||◌, List, [], ◌∷◌, ◌++◌, if◌then◌else◌, any, All,
  All-append, Text, codes, text_eq, text_eq_refl, text_eq_iff, arith, Bool-cases, inl, inr,
}
use rootcell.Spy.Records.{NormalizedBlock}
use rootcell.Spy.Tokens.{SpyTokenCountRecord, SpyTokenCountSubject, whole_call, single_block}
use rootcell.Spy.Service.Subjects.{
  subject_key, has_key, push_missing, section_of_block, add_block_subjects, present_keys,
  missing_token_count_subjects,
}

abbrev pub has_subject : Text → List SpyTokenCountSubject → Bool
has_subject key subjects = any (λ s. text_eq (subject_key s) key) subjects

-- A subject is counted, or it is in the list.
abbrev pub is_cared_for : List Text → List SpyTokenCountSubject → SpyTokenCountSubject → Bool
is_cared_for present subjects subject =
    has_key (subject_key subject) present || has_subject (subject_key subject) subjects

abbrev pub AreMissing : List Text → List SpyTokenCountSubject → Type 0
AreMissing present subjects = All (λ s. has_key (subject_key s) present ≡ false) subjects

push_missing-AreMissing :
    (present : List Text) (subject : SpyTokenCountSubject) (subjects : List SpyTokenCountSubject)
    → AreMissing present subjects
    → AreMissing present (push_missing present subject subjects)
unfolding push_missing
push_missing-AreMissing present subject subjects h =
    elim (Bool-cases (has_key (subject_key subject) present)) [
      | inl e ↦ rw (push_missing, e) h
      | inr e ↦
          rw (push_missing, e)
            (All-append (λ s. has_key (subject_key s) present ≡ false) subjects (subject ∷ []) h
              (e, tt))
    ]

add_block_subjects-AreMissing :
    (call_id : Text) (present : List Text) (blocks : List NormalizedBlock)
    (section_keys : List Text) (subjects : List SpyTokenCountSubject)
    → AreMissing present subjects
    → AreMissing present (add_block_subjects call_id present blocks section_keys subjects)
unfolding add_block_subjects
add_block_subjects-AreMissing call_id present [] section_keys subjects h = h
add_block_subjects-AreMissing call_id present (block ∷ blocks) section_keys subjects h =
    elim (Bool-cases (has_key (subject_key (section_of_block call_id block)) section_keys)) [
      | inl e ↦
          rw (add_block_subjects, e)
            (add_block_subjects-AreMissing call_id present blocks _ _
              (push_missing-AreMissing present (single_block call_id block.id) subjects h))
      | inr e ↦
          rw (add_block_subjects, e)
            (add_block_subjects-AreMissing call_id present blocks _ _ (
              push_missing-AreMissing present (single_block call_id block.id) _
                (push_missing-AreMissing present (section_of_block call_id block) subjects h)))
    ]

has_subject-append :
    (key : Text) (subjects : List SpyTokenCountSubject) (subject : SpyTokenCountSubject)
    → has_subject key (subjects ++ subject ∷ [])
      ≡ (has_subject key subjects || text_eq (subject_key subject) key)
has_subject-append key [] subject = ground arith
has_subject-append key (s ∷ subjects) subject =
    ground (arith, has_subject-append key subjects subject)

-- What is cared for stays so.
push_missing-keeps :
    (present : List Text) (subject : SpyTokenCountSubject) (subjects : List SpyTokenCountSubject)
    (key : Text)
    → (has_key key present || has_subject key subjects) ≡ true
    → (has_key key present || has_subject key (push_missing present subject subjects)) ≡ true
unfolding push_missing
push_missing-keeps present subject subjects key h =
    elim (Bool-cases (has_key (subject_key subject) present)) [
      | inl e ↦ rw (push_missing, e) h
      | inr e ↦ rw (push_missing, e, has_subject-append key subjects subject) (ground arith)
    ]

push_missing-is_cared_for :
    (present : List Text) (subject : SpyTokenCountSubject) (subjects : List SpyTokenCountSubject)
    → is_cared_for present (push_missing present subject subjects) subject ≡ true
unfolding push_missing
push_missing-is_cared_for present subject subjects =
    elim (Bool-cases (has_key (subject_key subject) present)) [
      | inl e ↦ rw (push_missing, e) refl
      | inr e ↦
          rw
            (
              push_missing,
              e,
              has_subject-append (subject_key subject) subjects subject,
              text_eq_refl (subject_key subject),
            )
            (ground arith)
    ]

-- The subjects after the section of a block, and the keys of the sections that were met.
abbrev sectioned :
    Text
    → List Text
    → NormalizedBlock
    → List Text
    → List SpyTokenCountSubject
    → List SpyTokenCountSubject
sectioned call_id present block keys subjects =
    if has_key (subject_key (section_of_block call_id block)) keys
    then subjects
    else push_missing present (section_of_block call_id block) subjects

abbrev met : Text → NormalizedBlock → List Text → List Text
met call_id block keys =
    if has_key (subject_key (section_of_block call_id block)) keys
    then keys
    else subject_key (section_of_block call_id block) ∷ keys

abbrev cares : List Text → List SpyTokenCountSubject → Text → Bool
cares present subjects key = has_key key present || has_subject key subjects

abbrev AllCared : List Text → List SpyTokenCountSubject → List Text → Type 0
AllCared present subjects keys = All (λ key. cares present subjects key ≡ true) keys

AllCared-push_missing :
    (present : List Text) (subject : SpyTokenCountSubject) (subjects : List SpyTokenCountSubject)
    (keys : List Text)
    → AllCared present subjects keys
    → AllCared present (push_missing present subject subjects) keys
AllCared-push_missing present subject subjects [] h = tt
AllCared-push_missing present subject subjects (key ∷ keys) (h, hs) = (
  push_missing-keeps present subject subjects key h,
  AllCared-push_missing present subject subjects keys hs,
)

has_key-AllCared :
    (present : List Text) (subjects : List SpyTokenCountSubject) (keys : List Text) (key : Text)
    → AllCared present subjects keys
    → has_key key keys ≡ true
    → cares present subjects key ≡ true
unfolding has_key
has_key-AllCared present subjects [] key h e = absurd (cc)
has_key-AllCared present subjects (k ∷ keys) key (h, hs) e = elim (Bool-cases (text_eq k key)) [
  | inl same ↦ subst (λ x. cares present subjects x ≡ true) ((text_eq_iff k key).0 same) h
  | inr other ↦ has_key-AllCared present subjects keys key hs (ground arith)
]

-- One block: its section is cared for, and the keys that were met are.
sectioned-AllCared :
    (call_id : Text) (present : List Text) (block : NormalizedBlock) (keys : List Text)
    (subjects : List SpyTokenCountSubject)
    → AllCared present subjects keys
    → AllCared present (sectioned call_id present block keys subjects) (met call_id block keys)
      × (cares present
            (sectioned call_id present block keys subjects)
            (subject_key (section_of_block call_id block))
          ≡ true)
sectioned-AllCared call_id present block keys subjects h =
    let of_section = section_of_block call_id block in
    elim (Bool-cases (has_key (subject_key of_section) keys)) [
      | inl e ↦ rw e (h, has_key-AllCared present subjects keys (subject_key of_section) h e)
      | inr e ↦
          let cared = push_missing-is_cared_for present of_section subjects in
          rw e ((cared, AllCared-push_missing present of_section subjects keys h), cared)
    ]

add_block_subjects-keeps :
    (call_id : Text) (present : List Text) (blocks : List NormalizedBlock) (keys : List Text)
    (subjects : List SpyTokenCountSubject) (key : Text)
    → cares present subjects key ≡ true
    → cares present (add_block_subjects call_id present blocks keys subjects) key ≡ true
unfolding add_block_subjects
add_block_subjects-keeps call_id present [] keys subjects key h = h
add_block_subjects-keeps call_id present (block ∷ blocks) keys subjects key h =
    elim (Bool-cases (has_key (subject_key (section_of_block call_id block)) keys)) [
      | inl e ↦
          rw (add_block_subjects, e)
            (add_block_subjects-keeps call_id present blocks _ _ key
              (push_missing-keeps present (single_block call_id block.id) subjects key h))
      | inr e ↦
          rw (add_block_subjects, e)
            (add_block_subjects-keeps call_id present blocks _ _ key (
              push_missing-keeps present (single_block call_id block.id) _ key
                (push_missing-keeps present (section_of_block call_id block) subjects key h)))
    ]

abbrev pub AreCaredFor :
    Text → List Text → List SpyTokenCountSubject → List NormalizedBlock → Type 0
AreCaredFor call_id present subjects blocks =
    All
      (λ block.
        (is_cared_for present subjects (section_of_block call_id block) ≡ true)
        × (is_cared_for present subjects (single_block call_id block.id) ≡ true))
      blocks

add_block_subjects-AreCaredFor :
    (call_id : Text) (present : List Text) (blocks : List NormalizedBlock) (keys : List Text)
    (subjects : List SpyTokenCountSubject)
    → AllCared present subjects keys
    → AreCaredFor call_id present (add_block_subjects call_id present blocks keys subjects) blocks
unfolding add_block_subjects
add_block_subjects-AreCaredFor call_id present [] keys subjects h = tt
add_block_subjects-AreCaredFor call_id present (block ∷ blocks) keys subjects h =
    let this = single_block call_id block.id in
    let of_section = section_of_block call_id block in
    let before = sectioned call_id present block keys subjects in
    let after = push_missing present this before in
    let (all_met, section_cared) = sectioned-AllCared call_id present block keys subjects h in
    (
      (
        add_block_subjects-keeps call_id present blocks (met call_id block keys) after
            (subject_key of_section)
            (push_missing-keeps present this before (subject_key of_section) section_cared),
        add_block_subjects-keeps call_id present blocks (met call_id block keys) after
            (subject_key this) (push_missing-is_cared_for present this before),
      ),
      add_block_subjects-AreCaredFor call_id present blocks (met call_id block keys) after
          (AllCared-push_missing present this before (met call_id block keys) all_met),
    )

-- No subject that is returned has a count under its key. The request as a whole, the section of each
-- block and each block have a count under their key, or they are returned.
pub missing_token_count_subjects-AreMissing :
    (call_id : Text) (records : List SpyTokenCountRecord) (blocks : List NormalizedBlock)
    → let subjects = missing_token_count_subjects call_id records blocks in
      AreMissing (present_keys records) subjects
      × (is_cared_for (present_keys records) subjects (whole_call call_id (codes "request")) ≡ true)
      × AreCaredFor call_id (present_keys records) subjects blocks
unfolding missing_token_count_subjects
missing_token_count_subjects-AreMissing call_id records blocks =
    let present = present_keys records in
    let request = whole_call call_id (codes "request") in
    let first = push_missing present request [] in
    (
      add_block_subjects-AreMissing call_id present blocks [] first
          (push_missing-AreMissing present request [] tt),
      add_block_subjects-keeps call_id present blocks [] first (subject_key request)
          (push_missing-is_cared_for present request []),
      add_block_subjects-AreCaredFor call_id present blocks [] first tt,
    )
