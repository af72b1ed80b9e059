-- ===== src/Spy/Service/Subjects/Exact.antt =====
-- `missingTokenCountSubjects` of src/spy/service.ts returns exactly the subjects of a request that no
-- available record counts.
use rootcell.Prelude.{
  ◌≡◌, refl, sym, ap₂, ◌∙◌, subst, Bool, true, false, ◌&&◌, ◌||◌, List, [], ◌∷◌, any, All,
  All-append, Text, codes, text_eq, text_eq_refl, arith, Bool-cases, inl, inr, ◌⊎◌, Lacks,
}
use rootcell.Spy.Records.{NormalizedBlock}
use rootcell.Spy.Tokens.{
  SpyTokenCountRecord, SpyTokenCountSubject, whole_call, section, single_block, selection,
}
use rootcell.Spy.Service.Subjects.{
  subject_key, is_available, has_key, push_missing, section_of_block, add_block_subjects,
  present_keys, missing_token_count_subjects,
}
use rootcell.Spy.Service.Subjects.Keys.{
  IsPlain, IsPlainRecord, counts, record_key-counts, subject_key_exact,
}
use rootcell.Spy.Service.Subjects.Missing.{
  AreMissing, is_cared_for, has_subject, missing_token_count_subjects-AreMissing,
}

-- Some record with tokens is of this subject.
abbrev pub is_counted : List SpyTokenCountRecord → SpyTokenCountSubject → Bool
is_counted records subject = any (λ r. is_available r && counts r subject) records

-- The request as a whole, a section with the direction and the kind of a block, or a block.
abbrev pub IsOfRequest : Text → List NormalizedBlock → SpyTokenCountSubject → Type 0
IsOfRequest call_id blocks (whole_call id direction) =
    (id ≡ call_id) × (direction ≡ codes "request")
IsOfRequest call_id blocks (section id direction kind) =
    (id ≡ call_id) × (any (λ b. text_eq b.direction direction && text_eq b.kind kind) blocks ≡ true)
IsOfRequest call_id blocks (single_block id block_id) =
    (id ≡ call_id) × (any (λ b. text_eq b.id block_id) blocks ≡ true)
IsOfRequest call_id blocks (selection id label text) = ⊥

abbrev pub Contains : SpyTokenCountSubject → List SpyTokenCountSubject → Type 0
Contains subject [] = ⊥
Contains subject (s ∷ subjects) = (s ≡ subject) ⊎ Contains subject subjects

-- A subject is counted, or it is returned.
abbrev pub IsSettled :
    List SpyTokenCountRecord → List SpyTokenCountSubject → SpyTokenCountSubject → Type 0
IsSettled records subjects subject = (is_counted records subject ≡ true) ⊎ Contains subject subjects

-- The names of a block have no colon.
abbrev pub IsPlainBlock : NormalizedBlock → Type 0
IsPlainBlock block = Lacks b':' block.direction × Lacks b':' block.kind × Lacks b':' block.id

All-implies :
    {A : Type 0} (P Q : A → Type 0) (xs : List A) → ((x : A) → P x → Q x) → All P xs → All Q xs
All-implies P Q [] f h = tt
All-implies P Q (x ∷ xs) f (p, h) = (f x p, All-implies P Q xs f h)

All-both :
    {A : Type 0} (P Q : A → Type 0) (xs : List A) → All P xs → All Q xs → All (λ x. P x × Q x) xs
All-both P Q [] h k = tt
All-both P Q (x ∷ xs) (p, h) (q, k) = ((p, q), All-both P Q xs h k)

has_key-present_keys :
    (records : List SpyTokenCountRecord) (subject : SpyTokenCountSubject)
    → All IsPlainRecord records
    → IsPlain subject
    → has_key (subject_key subject) (present_keys records) ≡ is_counted records subject
unfolding has_key present_keys
has_key-present_keys [] subject hs h = refl
has_key-present_keys (r ∷ records) subject (p, hs) h =
    let first = record_key-counts r subject p h in
    let rest = has_key-present_keys records subject hs h in
    elim (Bool-cases (is_available r)) [
      | inl e ↦ rw (has_key, present_keys, e) (ap₂ (λ a b. a || b) first rest)
      | inr e ↦ rw (has_key, present_keys, e) rest
    ]

Contains-has_subject :
    (subject : SpyTokenCountSubject) (subjects : List SpyTokenCountSubject)
    → IsPlain subject
    → All IsPlain subjects
    → has_subject (subject_key subject) subjects ≡ true
    → Contains subject subjects
Contains-has_subject subject [] p ps h = absurd (cc)
Contains-has_subject subject (s ∷ subjects) p (q, ps) h =
    elim (Bool-cases (text_eq (subject_key s) (subject_key subject))) [
      | inl e ↦ inl (subject_key_exact s subject q p e)
      | inr e ↦ inr (Contains-has_subject subject subjects p ps (ground arith))
    ]

-- What holds of the section of each block and of each block holds of all that the loop adds.
module _ (P : SpyTokenCountSubject → Type 0) (call_id : Text) (present : List Text) where
  push_missing-All :
      (subject : SpyTokenCountSubject) (subjects : List SpyTokenCountSubject)
      → P subject
      → All P subjects
      → All P (push_missing present subject subjects)
  unfolding push_missing
  push_missing-All subject subjects p h =
      elim (Bool-cases (has_key (subject_key subject) present)) [
        | inl e ↦ rw (push_missing, e) h
        | inr e ↦ rw (push_missing, e) (All-append P subjects (subject ∷ []) h (p, tt))
      ]

  add_block_subjects-All :
      (blocks : List NormalizedBlock) (keys : List Text) (subjects : List SpyTokenCountSubject)
      → All (λ b. P (section_of_block call_id b) × P (single_block call_id b.id)) blocks
      → All P subjects
      → All P (add_block_subjects call_id present blocks keys subjects)
  unfolding add_block_subjects
  add_block_subjects-All [] keys subjects hs h = h
  add_block_subjects-All (block ∷ blocks) keys subjects ((p, q), hs) h =
      elim (Bool-cases (has_key (subject_key (section_of_block call_id block)) keys)) [
        | inl e ↦
            rw (add_block_subjects, e)
              (add_block_subjects-All blocks _ _ hs
                (push_missing-All (single_block call_id block.id) subjects q h))
        | inr e ↦
            rw (add_block_subjects, e)
              (add_block_subjects-All blocks _ _ hs (
                push_missing-All (single_block call_id block.id) _ q
                  (push_missing-All (section_of_block call_id block) subjects p h)))
      ]

  missing_token_count_subjects-All :
      (records : List SpyTokenCountRecord) (blocks : List NormalizedBlock)
      → present ≡ present_keys records
      → P (whole_call call_id (codes "request"))
      → All (λ b. P (section_of_block call_id b) × P (single_block call_id b.id)) blocks
      → All P (missing_token_count_subjects call_id records blocks)
  unfolding missing_token_count_subjects
  missing_token_count_subjects-All records blocks same p hs =
      subst
        (λ keys. All P (
          add_block_subjects call_id keys blocks []
            (push_missing keys (whole_call call_id (codes "request")) [])))
        same (add_block_subjects-All blocks [] _ hs (push_missing-All _ [] p tt))

IsOfRequest-cons :
    (call_id : Text) (b : NormalizedBlock) (blocks : List NormalizedBlock)
    (subject : SpyTokenCountSubject)
    → IsOfRequest call_id blocks subject
    → IsOfRequest call_id (b ∷ blocks) subject
IsOfRequest-cons call_id b blocks (whole_call id direction) h = h
IsOfRequest-cons call_id b blocks (section id direction kind) (same, h) = (same, ground arith)
IsOfRequest-cons call_id b blocks (single_block id block_id) (same, h) = (same, ground arith)
IsOfRequest-cons call_id b blocks (selection id label text) h = absurd h

-- The sections of the blocks and the blocks are of the request.
blocks-IsOfRequest :
    (call_id : Text) (blocks : List NormalizedBlock)
    → All
        (λ b.
          IsOfRequest call_id blocks (section_of_block call_id b)
          × IsOfRequest call_id blocks (single_block call_id b.id))
        blocks
blocks-IsOfRequest call_id [] = tt
blocks-IsOfRequest call_id (block ∷ blocks) = (
  (
    (refl, rw (text_eq_refl block.direction, text_eq_refl block.kind) refl),
    (refl, rw (text_eq_refl block.id) refl),
  ),
  All-implies _ _ blocks
      (λ b (h, k). (
        IsOfRequest-cons call_id block blocks (section_of_block call_id b) h,
        IsOfRequest-cons call_id block blocks (single_block call_id b.id) k,
      ))
      (blocks-IsOfRequest call_id blocks),
)

blocks-IsPlain :
    (call_id : Text) (blocks : List NormalizedBlock)
    → Lacks b':' call_id
    → All IsPlainBlock blocks
    → All (λ b. IsPlain (section_of_block call_id b) × IsPlain (single_block call_id b.id)) blocks
blocks-IsPlain call_id blocks id = All-implies _ _ blocks (λ b (d, k, i). ((id, d, k), (id, i)))

-- What the keys say holds of the subjects.
module _ (records : List SpyTokenCountRecord) (plain : All IsPlainRecord records) where
  missing_exact :
      (subjects : List SpyTokenCountSubject)
      → All IsPlain subjects
      → AreMissing (present_keys records) subjects
      → All (λ s. is_counted records s ≡ false) subjects
  missing_exact [] ps h = tt
  missing_exact (s ∷ subjects) (p, ps) (h, hs) =
      (sym (has_key-present_keys records s plain p) ∙ h, missing_exact subjects ps hs)

  cared_for_exact :
      (subjects : List SpyTokenCountSubject) (subject : SpyTokenCountSubject)
      → All IsPlain subjects
      → IsPlain subject
      → is_cared_for (present_keys records) subjects subject ≡ true
      → IsSettled records subjects subject
  cared_for_exact subjects subject ps p h =
      let key = has_key-present_keys records subject plain p in
      elim (Bool-cases (is_counted records subject)) [
        | inl e ↦ inl e
        | inr e ↦ inr (Contains-has_subject subject subjects p ps (ground arith))
      ]

-- The subjects that are returned are of the request, and no available record is of one of them. The
-- request as a whole, the section of each block and each block are returned, or an available record
-- is of them. This is so while the call's id, the names of the blocks and those that the records
-- have have no colon.
pub missing_token_count_subjects_exact :
    (call_id : Text) (records : List SpyTokenCountRecord) (blocks : List NormalizedBlock)
    → Lacks b':' call_id
    → All IsPlainRecord records
    → All IsPlainBlock blocks
    → let subjects = missing_token_count_subjects call_id records blocks in
      All (λ s. IsOfRequest call_id blocks s × (is_counted records s ≡ false)) subjects
      × IsSettled records subjects (whole_call call_id (codes "request"))
      × All
          (λ b.
            IsSettled records subjects (section_of_block call_id b)
            × IsSettled records subjects (single_block call_id b.id))
          blocks
missing_token_count_subjects_exact call_id records blocks id plain named =
    let present = present_keys records in
    let subjects = missing_token_count_subjects call_id records blocks in
    let whole = whole_call call_id (codes "request") in
    let request_Lacks : Lacks b':' (codes "request") = ground arith in
    let block_parts = blocks-IsPlain call_id blocks id named in
    let parts =
      missing_token_count_subjects-All IsPlain call_id present records blocks refl
        (id, request_Lacks) block_parts in
    let wanted =
      missing_token_count_subjects-All (IsOfRequest call_id blocks) call_id present records blocks
        refl (refl, refl) (blocks-IsOfRequest call_id blocks) in
    let (missing, request, others) =
      missing_token_count_subjects-AreMissing call_id records blocks in
    (
      All-both _ _ subjects wanted (missing_exact records plain subjects parts missing),
      cared_for_exact records plain subjects whole parts (id, request_Lacks) request,
      All-implies _ _ blocks
          (λ b ((p, q), (h, k)). (
            cared_for_exact records plain subjects (section_of_block call_id b) parts p h,
            cared_for_exact records plain subjects (single_block call_id b.id) parts q k,
          ))
          (All-both _ _ blocks block_parts others),
    )
