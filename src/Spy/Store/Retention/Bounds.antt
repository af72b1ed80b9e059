-- ===== src/Spy/Store/Retention/Bounds.antt =====
-- What retention leaves: only recent calls, and no more bytes than allowed unless nothing is left.
use rootcell.Prelude.{
  ℕ, zero, suc, ◌+◌, ◌-◌, ◌≤◌, ◌<◌, ◌≡◌, refl, sym, subst, ◌∙◌, Bool, true, not, ◌||◌, List, [],
  ◌∷◌, none, some, ltb, filter, length, Text, text_eq, text_eq_refl, any, All, arith, Bool-cases,
  inl, inr, ◌⊎◌,
}
use rootcell.Spy.Records.{ProviderCall}
use rootcell.Spy.Store.Tables.{Db, delete_calls}
use rootcell.Spy.Store.Retention.{
  is_before, oldest_of, oldest_call, has_id, delete_oldest_call, is_older, delete_calls_before,
  shrink, note_retention, run_retention, days_ms,
}

length-filter-not :
    {A : Type 0} (p : A → Bool) (xs : List A)
    → length (filter p xs) + length (filter (λ x. not (p x)) xs) ≡ length xs
length-filter-not p [] = refl
length-filter-not p (x ∷ xs) = ground (arith, length-filter-not p xs)

All-filter :
    {A : Type 0} (P : A → Type 0) (p : A → Bool) (xs : List A) → All P xs → All P (filter p xs)
All-filter P p [] h = tt
All-filter P p (x ∷ xs) (h, hs) = elim (Bool-cases (p x)) [
  | inl e ↦ rw e (h, All-filter P p xs hs)
  | inr e ↦ rw e (All-filter P p xs hs)
]

filter-All : {A : Type 0} (p : A → Bool) (xs : List A) → All (λ x. p x ≡ true) (filter p xs)
filter-All p [] = tt
filter-All p (x ∷ xs) = elim (Bool-cases (p x)) [
  | inl e ↦ rw e (e, filter-All p xs)
  | inr e ↦ rw e (filter-All p xs)
]

filter-not-shorter :
    {A : Type 0} (p : A → Bool) (xs : List A)
    → any p xs ≡ true
    → length (filter (λ x. not (p x)) xs) < length xs
filter-not-shorter p [] h = absurd (cc)
filter-not-shorter p (x ∷ xs) h = ground (arith, filter-not-shorter p xs, length-filter-not p xs)

nil_of_length : {A : Type 0} (xs : List A) → length xs ≤ 0 → xs ≡ []
nil_of_length [] h = refl
nil_of_length (x ∷ xs) h = absurd (omega arith)

or_true : (a b : Bool) → b ≡ true → (a || b) ≡ true
or_true a b h = ground arith

any-oldest_of :
    (c : ProviderCall) (calls : List ProviderCall)
    → any (has_id (oldest_of c calls).id) (c ∷ calls) ≡ true
unfolding oldest_of
any-oldest_of c [] = rw (text_eq_refl c.id) refl
any-oldest_of c (d ∷ calls) = elim (Bool-cases (is_before (oldest_of d calls) c)) [
  | inl later ↦
      let e : oldest_of c (d ∷ calls) ≡ oldest_of d calls = rw (oldest_of, later) refl in
      subst (λ o. any (has_id o.id) (c ∷ d ∷ calls) ≡ true) (sym e)
        (or_true (text_eq c.id (oldest_of d calls).id) _ (any-oldest_of d calls))
  | inr first ↦
      let e : oldest_of c (d ∷ calls) ≡ c = rw (oldest_of, first) refl in
      subst (λ o. any (has_id o.id) (c ∷ d ∷ calls) ≡ true) (sym e) (rw (text_eq_refl c.id) refl)
]

-- There is an oldest call, or none.
oldest_call-cases :
    (calls : List ProviderCall)
    → ((calls ≡ []) × (oldest_call calls ≡ none))
      ⊎ ((c : ProviderCall) × (oldest_call calls ≡ some c) × (any (has_id c.id) calls ≡ true))
unfolding oldest_call
oldest_call-cases [] = inl (refl, refl)
oldest_call-cases (c ∷ calls) = inr (oldest_of c calls, refl, any-oldest_of c calls)

pub delete_oldest_call-cases :
    (db : Db)
    → ((db.calls ≡ []) × (delete_oldest_call db ≡ none))
      ⊎ ((id : Text) × (delete_oldest_call db ≡ some (delete_calls (has_id id) db))
          × (length (delete_calls (has_id id) db).calls < length db.calls))
unfolding delete_oldest_call delete_calls
delete_oldest_call-cases db = elim (oldest_call-cases db.calls) [
  | inl (e, stop) ↦ inl (e, rw (delete_oldest_call, stop) refl)
  | inr (c, e, there) ↦
      inr (c.id, rw (delete_oldest_call, e) refl, filter-not-shorter (has_id c.id) db.calls there)
]

module _ (used_bytes : Db → ℕ) (size_bytes : Db → ℕ) (number_text : ℕ → Text) where
  -- Enough fuel brings the size down, or deletes everything.
  shrink-small :
      (fuel max_bytes : ℕ) (db : Db)
      → length db.calls ≤ fuel
      → (used_bytes (shrink used_bytes size_bytes number_text fuel max_bytes db).1 ≤ max_bytes)
        ⊎ ((shrink used_bytes size_bytes number_text fuel max_bytes db).1.calls ≡ [])
  unfolding shrink
  shrink-small zero max_bytes db h = inr (nil_of_length db.calls (omega arith))
  shrink-small (suc fuel) max_bytes db h = elim (Bool-cases (ltb max_bytes (used_bytes db))) [
    | inr small ↦ rw (shrink, small) (inl (ground arith))
    | inl large ↦ elim (delete_oldest_call-cases db) [
      | inl (e, stop) ↦ rw (shrink, large, stop) (inr e)
      | inr (id, next, fewer) ↦
          rw (shrink, large, next)
            (shrink-small fuel max_bytes (delete_calls (has_id id) db) (omega arith))
    ]
  ]

  -- What holds of all calls holds of those that are left.
  shrink-All :
      (P : ProviderCall → Type 0) (fuel max_bytes : ℕ) (db : Db)
      → All P db.calls
      → All P (shrink used_bytes size_bytes number_text fuel max_bytes db).1.calls
  unfolding shrink
  shrink-All P zero max_bytes db h = h
  shrink-All P (suc fuel) max_bytes db h = elim (Bool-cases (ltb max_bytes (used_bytes db))) [
    | inr small ↦ rw (shrink, small) h
    | inl large ↦ elim (delete_oldest_call-cases db) [
      | inl (e, stop) ↦ rw (shrink, large, stop) h
      | inr (id, next, fewer) ↦
          rw (shrink, large, next)
            (shrink-All P fuel max_bytes (delete_calls (has_id id) db)
              (unfold delete_calls in All-filter P (λ c. not (has_id id c)) db.calls h))
    ]
  ]

  calls-note_retention :
      (now deleted : ℕ) (db : Db)
      → (note_retention used_bytes size_bytes number_text now deleted db).calls ≡ db.calls
  unfolding note_retention
  calls-note_retention now deleted db = elim (Bool-cases (ltb 0 deleted)) [
    | inl e ↦ rw (note_retention, e) refl
    | inr e ↦ rw (note_retention, e) refl
  ]

  recent_calls :
      (cutoff : ℕ) (db : Db)
      → All (λ c. cutoff ≤ c.started_at) (delete_calls_before cutoff db).1.calls
  unfolding delete_calls_before delete_calls
  recent_calls cutoff db = recent db.calls
    where
      recent :
          (calls : List ProviderCall)
          → All (λ c. cutoff ≤ c.started_at) (filter (λ c. not (is_older cutoff c)) calls)
      recent [] = tt
      recent (c ∷ calls) = elim (Bool-cases (ltb c.started_at cutoff)) [
        | inl old ↦ rw old (recent calls)
        | inr new ↦ rw new (ground arith, recent calls)
      ]

  -- The calls that retention leaves are no older than the retention time. Apart from the note of
  -- the deletion, which counts the calls of both kinds, the database that it leaves takes no more
  -- bytes than allowed, or no call is left.
  pub run_retention-bounds :
      (now retention_days max_bytes : ℕ) (db : Db)
      → let (result, after) =
          run_retention used_bytes size_bytes number_text now retention_days max_bytes db in
        All (λ c. now - days_ms retention_days ≤ c.started_at) after.calls
        × ((small : Db) × (after
              ≡ note_retention used_bytes size_bytes number_text now
                  (result.deleted_by_age + result.deleted_by_size)
                  small)
            × ((used_bytes small ≤ max_bytes) ⊎ (after.calls ≡ [])))
  unfolding run_retention
  run_retention-bounds now retention_days max_bytes db =
      let cutoff = now - days_ms retention_days in
      let recent = (delete_calls_before cutoff db).1 in
      let fuel = length recent.calls in
      let shrunk = shrink used_bytes size_bytes number_text fuel max_bytes recent in
      let same = calls-note_retention now ((delete_calls_before cutoff db).0 + shrunk.0) shrunk.1 in
      (
        subst (All (λ c. cutoff ≤ c.started_at)) (sym same) (
            shrink-All (λ c. cutoff ≤ c.started_at) fuel max_bytes recent (recent_calls cutoff db)),
        (
          shrunk.1,
          refl,
          elim (shrink-small fuel max_bytes recent (omega arith)) [
            | inl small ↦ inl small
            | inr nothing ↦ inr (same ∙ nothing)
          ],
        ),
      )
