-- ===== src/Spy/Service/Subjects/Keys.antt =====
-- `subjectKey` and `recordSubjectKey` of src/spy/service.ts: while the parts have no colon, two
-- subjects have the same key only if they are the same, and a record has the key of the subject that
-- its fields name.
use rootcell.Prelude.{
  ◌≡◌, refl, sym, ap₂, ◌∙◌, Bool, true, false, ◌&&◌, [], or_else, text_eq, eq_of_text_eq, Lacks,
  arith,
}
use rootcell.Spy.Tokens.{
  SubjectType, call_subject, section_subject, block_subject, selection_subject, SpyTokenCountRecord,
  SpyTokenCountSubject, whole_call, section, single_block, selection,
}
use rootcell.Spy.Service.Subjects.Parts.{
  Parts, key_of, same_parts, ArePlain, text_eq-key_of, parts_with,
}
use rootcell.Spy.Service.Subjects.{subject_key, record_subject_key}

-- The parts of a subject of a request have no colon; a selection is none.
abbrev pub IsPlain : SpyTokenCountSubject → Type 0
IsPlain (whole_call call_id direction) = Lacks b':' call_id × Lacks b':' direction
IsPlain (section call_id direction kind) =
    Lacks b':' call_id × Lacks b':' direction × Lacks b':' kind
IsPlain (single_block call_id block_id) = Lacks b':' call_id × Lacks b':' block_id
IsPlain (selection call_id label text) = ⊥

-- The fields of a record that its key takes have no colon.
pub record IsPlainRecord (r : SpyTokenCountRecord) : Type 0 where
  pub call_id : Lacks b':' (or_else r.call_id [])
  pub direction : Lacks b':' (or_else r.direction [])
  pub block_id : Lacks b':' (or_else r.block_id [])
  pub kind : Lacks b':' (or_else r.kind [])

abbrev pub is_type : SubjectType → SubjectType → Bool
is_type call_subject call_subject = true
is_type section_subject section_subject = true
is_type block_subject block_subject = true
is_type selection_subject selection_subject = true
is_type _ _ = false

-- The record is of this subject, by its type and its fields.
abbrev pub counts : SpyTokenCountRecord → SpyTokenCountSubject → Bool
counts r (whole_call call_id direction) =
    is_type call_subject r.subject_type
    && text_eq (or_else r.call_id []) call_id
    && text_eq (or_else r.direction []) direction
counts r (section call_id direction kind) =
    is_type section_subject r.subject_type
    && text_eq (or_else r.call_id []) call_id
    && text_eq (or_else r.direction []) direction
    && text_eq (or_else r.kind []) kind
counts r (single_block call_id block_id) =
    is_type block_subject r.subject_type
    && text_eq (or_else r.call_id []) call_id
    && text_eq (or_else r.block_id []) block_id
counts r (selection call_id label text) = false

abbrev subject_parts : SpyTokenCountSubject → Parts
subject_parts (whole_call call_id direction) = parts_with "call" call_id direction [] [] []
subject_parts (section call_id direction kind) = parts_with "section" call_id direction [] kind []
subject_parts (single_block call_id block_id) = parts_with "block" call_id [] block_id [] []
subject_parts (selection call_id label text) =
    parts_with "selection" call_id [] [] [] (or_else label text)

subject_key_lem : (s : SpyTokenCountSubject) → subject_key s ≡ key_of (subject_parts s)
unfolding subject_key
subject_key_lem (whole_call call_id direction) = refl
subject_key_lem (section call_id direction kind) = refl
subject_key_lem (single_block call_id block_id) = refl
subject_key_lem (selection call_id label text) = refl

subject_parts-ArePlain : (s : SpyTokenCountSubject) → IsPlain s → ArePlain (subject_parts s)
subject_parts-ArePlain (whole_call call_id direction) (c, d) = record {
  name = ground arith;
  call_id = c;
  direction = d;
  block_id = tt;
  kind = tt;
}
subject_parts-ArePlain (section call_id direction kind) (c, d, k) = record {
  name = ground arith;
  call_id = c;
  direction = d;
  block_id = tt;
  kind = k;
}
subject_parts-ArePlain (single_block call_id block_id) (c, b) = record {
  name = ground arith;
  call_id = c;
  direction = tt;
  block_id = b;
  kind = tt;
}
subject_parts-ArePlain (selection call_id label text) h = absurd h

abbrev record_parts : SubjectType → SpyTokenCountRecord → Parts
record_parts call_subject r =
    parts_with "call" (or_else r.call_id []) (or_else r.direction []) [] [] []
record_parts section_subject r =
    parts_with "section" (or_else r.call_id []) (or_else r.direction []) [] (or_else r.kind []) []
record_parts block_subject r =
    parts_with "block" (or_else r.call_id []) [] (or_else r.block_id []) [] []
record_parts selection_subject r =
    parts_with "selection" (or_else r.call_id []) [] [] [] (or_else r.label r.source_hash)

record_key_lem :
    (t : SubjectType) (r : SpyTokenCountRecord)
    → r.subject_type ≡ t
    → record_subject_key r ≡ key_of (record_parts t r)
unfolding record_subject_key
record_key_lem call_subject r e = rw (record_subject_key, e) refl
record_key_lem section_subject r e = rw (record_subject_key, e) refl
record_key_lem block_subject r e = rw (record_subject_key, e) refl
record_key_lem selection_subject r e = rw (record_subject_key, e) refl

record_parts-ArePlain :
    (t : SubjectType) (r : SpyTokenCountRecord) → IsPlainRecord r → ArePlain (record_parts t r)
record_parts-ArePlain call_subject r p = record {
  name = ground arith;
  call_id = p.call_id;
  direction = p.direction;
  block_id = tt;
  kind = tt;
}
record_parts-ArePlain section_subject r p = record {
  name = ground arith;
  call_id = p.call_id;
  direction = p.direction;
  block_id = tt;
  kind = p.kind;
}
record_parts-ArePlain block_subject r p = record {
  name = ground arith;
  call_id = p.call_id;
  direction = tt;
  block_id = p.block_id;
  kind = tt;
}
record_parts-ArePlain selection_subject r p = record {
  name = ground arith;
  call_id = p.call_id;
  direction = tt;
  block_id = tt;
  kind = tt;
}

record_parts-counts :
    (t : SubjectType) (r : SpyTokenCountRecord) (s : SpyTokenCountSubject)
    → r.subject_type ≡ t
    → IsPlain s
    → same_parts (record_parts t r) (subject_parts s) ≡ counts r s
unfolding text_eq
record_parts-counts t r (selection call_id label text) e h = absurd h
record_parts-counts call_subject r (whole_call call_id direction) e h = rw e (ground arith)
record_parts-counts call_subject r (section call_id direction kind) e h = rw e (ground arith)
record_parts-counts call_subject r (single_block call_id block_id) e h = rw e (ground arith)
record_parts-counts section_subject r (whole_call call_id direction) e h = rw e (ground arith)
record_parts-counts section_subject r (section call_id direction kind) e h = rw e (ground arith)
record_parts-counts section_subject r (single_block call_id block_id) e h = rw e (ground arith)
record_parts-counts block_subject r (whole_call call_id direction) e h = rw e (ground arith)
record_parts-counts block_subject r (section call_id direction kind) e h = rw e (ground arith)
record_parts-counts block_subject r (single_block call_id block_id) e h = rw e (ground arith)
record_parts-counts selection_subject r (whole_call call_id direction) e h = rw e (ground arith)
record_parts-counts selection_subject r (section call_id direction kind) e h = rw e (ground arith)
record_parts-counts selection_subject r (single_block call_id block_id) e h = rw e (ground arith)

-- A record has the key of a subject exactly if it is of this subject.
pub record_key-counts :
    (r : SpyTokenCountRecord) (s : SpyTokenCountSubject)
    → IsPlainRecord r
    → IsPlain s
    → text_eq (record_subject_key r) (subject_key s) ≡ counts r s
record_key-counts r s p h =
    let t = r.subject_type in
    rw (record_key_lem t r refl, subject_key_lem s)
      (text_eq-key_of (record_parts t r) (subject_parts s) (record_parts-ArePlain t r p)
          (subject_parts-ArePlain s h)
        ∙ record_parts-counts t r s refl h)

same_parts_exact :
    (s t : SpyTokenCountSubject)
    → IsPlain s
    → IsPlain t
    → same_parts (subject_parts s) (subject_parts t) ≡ true
    → s ≡ t
unfolding text_eq
same_parts_exact (whole_call c d) (whole_call c' d') h k e =
    ap₂ whole_call (eq_of_text_eq c c' (ground arith)) (eq_of_text_eq d d' (ground arith))
same_parts_exact (section c d k) (section c' d' k') h g e =
    let p = eq_of_text_eq c c' (ground arith) in
    let q = eq_of_text_eq d d' (ground arith) in let r = eq_of_text_eq k k' (ground arith) in cc
same_parts_exact (single_block c b) (single_block c' b') h k e =
    ap₂ single_block (eq_of_text_eq c c' (ground arith)) (eq_of_text_eq b b' (ground arith))
same_parts_exact (whole_call c d) (section c' d' k') h k e = absurd (ground arith)
same_parts_exact (whole_call c d) (single_block c' b') h k e = absurd (ground arith)
same_parts_exact (section c d k) (whole_call c' d') h g e = absurd (ground arith)
same_parts_exact (section c d k) (single_block c' b') h g e = absurd (ground arith)
same_parts_exact (single_block c b) (whole_call c' d') h k e = absurd (ground arith)
same_parts_exact (single_block c b) (section c' d' k') h g e = absurd (ground arith)
same_parts_exact (selection c l x) t h k e = absurd h
same_parts_exact s (selection c l x) h k e = absurd k

-- Two subjects with one key are the same.
pub subject_key_exact :
    (s t : SpyTokenCountSubject)
    → IsPlain s
    → IsPlain t
    → text_eq (subject_key s) (subject_key t) ≡ true
    → s ≡ t
subject_key_exact s t h k e = same_parts_exact s t h k (
    sym (
      text_eq-key_of (subject_parts s) (subject_parts t) (subject_parts-ArePlain s h)
        (subject_parts-ArePlain t k))
    ∙ (rw (subject_key_lem s, subject_key_lem t) at e))
