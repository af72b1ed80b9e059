-- ===== src/Spy/Store/Consistency.antt =====
-- The database is consistent: the ids of the calls are distinct, and every row belongs to a call
-- that is there.
pub mod Statements
pub mod Transactions
pub mod Reachable
use rootcell.Prelude.{
  ℕ, ◌+◌, ◌≡◌, refl, sym, ap, subst, ◌∙◌, Bool, true, false, not, ◌&&◌, ◌||◌, List, [], ◌∷◌, ◌++◌,
  map, Option, none, some, ◌==◌, if◌then◌else◌, any, filter, All, All-append, Text, text_eq,
  text_eq_iff, text_eq_refl, Result, ok, err, >>=-eq-ok, ◌>>=◌, arith, Bool-cases, inl, inr, ◌⊎◌,
}
use rootcell.Spy.Records.{ProviderCall, StreamChunkCapture}
use rootcell.Spy.Store.Tables.{
  Db, StoreError, Row, http_row, block_row, usage_row, stream_event_row, raw_payload_row,
  stream_chunk_row, has_call, insert_row, insert_rows, replace_rows, delete_calls, same_chunk,
  upsert_chunk, duplicate_id, no_such_call,
}
use rootcell.Spy.Store.Tables.Calls.{update_call}

abbrev pub UniqueIds : List ProviderCall → Type 0
UniqueIds [] = Unit {0}
UniqueIds (c ∷ calls) = (has_call calls c.id ≡ false) × UniqueIds calls

abbrev pub Refers : {A : Type 0} ⦃row : Row A⦄ → List ProviderCall → List A → Type 0
Refers ⦃row⦄ calls rows = All (λ r. has_call calls (row.call_of r) ≡ true) rows

abbrev pub IsConsistent : Db → Type 0
IsConsistent db =
    UniqueIds db.calls
    × Refers db.calls db.http_events
    × Refers db.calls db.blocks
    × Refers db.calls db.usage
    × Refers db.calls db.stream_events
    × Refers db.calls db.raw_payloads
    × Refers db.calls db.stream_chunks

-- All calls of one list are calls of another.
abbrev pub Keeps : List ProviderCall → List ProviderCall → Type 0
Keeps calls calls' = (id : Text) → has_call calls id ≡ true → has_call calls' id ≡ true

pub All-filter :
    {A : Type 0} (P : A → Type 0) (p : A → Bool) (xs : List A) → All P xs → All P (filter p xs)
All-filter P p [] h = tt
All-filter P p (x ∷ xs) (h, hs) = elim (Bool-cases (p x)) [
  | inl e ↦ rw e (h, All-filter P p xs hs)
  | inr e ↦ rw e (All-filter P p xs hs)
]

module _ {A : Type 0} ⦃row : Row A⦄ where
  pub Refers-keep :
      (calls calls' : List ProviderCall) (rows : List A)
      → Keeps calls calls'
      → Refers calls rows
      → Refers calls' rows
  Refers-keep calls calls' [] k h = tt
  Refers-keep calls calls' (r ∷ rows) k (h, hs) =
      (k (row.call_of r) h, Refers-keep calls calls' rows k hs)

  insert_row-Refers :
      (calls : List ProviderCall) (a : A) (rows rows' : List A)
      → Refers calls rows
      → insert_row calls a rows ≡ ok rows'
      → Refers calls rows'
  unfolding insert_row
  insert_row-Refers calls a rows rows' h e =
      elim (Bool-cases (any (λ r. text_eq (row.id_of r) (row.id_of a)) rows)) [
        | inl taken ↦ absurd (cc (rw (insert_row, taken) at e))
        | inr new ↦ elim (Bool-cases (has_call calls (row.call_of a))) [
          | inr missing ↦ absurd (cc (rw (insert_row, new, missing) at e))
          | inl there ↦
              let same : rows ++ a ∷ [] ≡ rows' = cc (rw (insert_row, new, there) at e) in
              subst (Refers calls) same (
                All-append (λ r. has_call calls (row.call_of r) ≡ true) rows (a ∷ []) h (there, tt))
        ]
      ]

  insert_rows-Refers :
      (calls : List ProviderCall) (new rows rows' : List A)
      → Refers calls rows
      → insert_rows calls new rows ≡ ok rows'
      → Refers calls rows'
  unfolding insert_rows
  insert_rows-Refers calls [] rows rows' h e =
      let same : rows ≡ rows' = cc in subst (Refers calls) same h
  insert_rows-Refers calls (a ∷ new) rows rows' h e =
      let (middle, first, rest) = >>=-eq-ok (insert_row calls a rows) (insert_rows calls new) e in
      insert_rows-Refers calls new middle rows' (insert_row-Refers calls a rows middle h first) rest

  pub replace_rows-Refers :
      (calls : List ProviderCall) (old : A → Bool) (new rows rows' : List A)
      → Refers calls rows
      → replace_rows calls old new rows ≡ ok rows'
      → Refers calls rows'
  unfolding replace_rows
  replace_rows-Refers calls old new rows rows' h e =
      insert_rows-Refers calls new _ rows'
        (All-filter (λ r. has_call calls (row.call_of r) ≡ true) (λ r. not (old r)) rows h) e

-- A change that leaves the ids alone.
pub has_call-update_call :
    (id x : Text) (change : ProviderCall → ProviderCall) (calls : List ProviderCall)
    → ((c : ProviderCall) → (change c).id ≡ c.id)
    → has_call (update_call id change calls) x ≡ has_call calls x
unfolding has_call
has_call-update_call id x change [] same = refl
has_call-update_call id x change (c ∷ calls) same = elim (Bool-cases (text_eq c.id id)) [
  | inl e ↦ rw (e, same c, has_call-update_call id x change calls same) refl
  | inr e ↦ rw (e, has_call-update_call id x change calls same) refl
]

pub UniqueIds-update_call :
    (id : Text) (change : ProviderCall → ProviderCall) (calls : List ProviderCall)
    → ((c : ProviderCall) → (change c).id ≡ c.id)
    → UniqueIds calls
    → UniqueIds (update_call id change calls)
UniqueIds-update_call id change [] same h = tt
UniqueIds-update_call id change (c ∷ calls) same (new, h) = elim (Bool-cases (text_eq c.id id)) [
  | inl e ↦ rw e (
    rw (same c) (has_call-update_call id c.id change calls same ∙ new),
    UniqueIds-update_call id change calls same h,
  )
  | inr e ↦ rw e (
    has_call-update_call id c.id change calls same ∙ new,
    UniqueIds-update_call id change calls same h,
  )
]

pub has_call-append :
    (calls : List ProviderCall) (c : ProviderCall) (x : Text)
    → has_call (calls ++ c ∷ []) x ≡ (has_call calls x || text_eq c.id x)
unfolding has_call
has_call-append [] c x = ground arith
has_call-append (d ∷ calls) c x = ground (arith, has_call-append calls c x)

pub UniqueIds-append :
    (calls : List ProviderCall) (c : ProviderCall)
    → has_call calls c.id ≡ false
    → UniqueIds calls
    → UniqueIds (calls ++ c ∷ [])
unfolding has_call
UniqueIds-append [] c new h = (refl, tt)
UniqueIds-append (d ∷ calls) c new (first, h) = (
  has_call-append calls c d.id ∙ ground (arith, text_eq_iff c.id d.id, text_eq_iff d.id c.id),
  UniqueIds-append calls c (ground arith) h,
)

has_call-filter :
    (p : ProviderCall → Bool) (calls : List ProviderCall) (x : Text)
    → has_call calls x ≡ false
    → has_call (filter p calls) x ≡ false
unfolding has_call
has_call-filter p [] x h = refl
has_call-filter p (c ∷ calls) x h = ground (arith, has_call-filter p calls x)

UniqueIds-filter :
    (p : ProviderCall → Bool) (calls : List ProviderCall)
    → UniqueIds calls
    → UniqueIds (filter p calls)
UniqueIds-filter p [] h = tt
UniqueIds-filter p (c ∷ calls) (new, h) = elim (Bool-cases (p c)) [
  | inl e ↦ rw e (has_call-filter p calls c.id new, UniqueIds-filter p calls h)
  | inr e ↦ rw e (UniqueIds-filter p calls h)
]

-- A call that is not deleted is kept.
has_call-kept :
    (gone : ProviderCall → Bool) (calls : List ProviderCall) (x : Text)
    → has_call calls x ≡ true
    → has_call (filter gone calls) x ≡ false
    → has_call (filter (λ c. not (gone c)) calls) x ≡ true
unfolding has_call
has_call-kept gone [] x h k = absurd (cc)
has_call-kept gone (c ∷ calls) x h k = ground (arith, has_call-kept gone calls x)

Refers-delete :
    {A : Type 0} ⦃row : Row A⦄ (gone : ProviderCall → Bool) (calls : List ProviderCall)
    (rows : List A)
    → Refers calls rows
    → Refers
        (filter (λ c. not (gone c)) calls)
        (filter (λ r. not (has_call (filter gone calls) (row.call_of r))) rows)
Refers-delete gone calls [] h = tt
Refers-delete ⦃row⦄ gone calls (r ∷ rows) (h, hs) =
    elim (Bool-cases (has_call (filter gone calls) (row.call_of r))) [
      | inl deleted ↦ rw deleted (Refers-delete gone calls rows hs)
      | inr kept ↦
          rw kept
            (has_call-kept gone calls (row.call_of r) h kept, Refers-delete gone calls rows hs)
    ]

pub delete_calls-IsConsistent :
    (gone : ProviderCall → Bool) (db : Db) → IsConsistent db → IsConsistent (delete_calls gone db)
unfolding delete_calls
delete_calls-IsConsistent gone db (u, a, b, c, d, e, f) = (
  UniqueIds-filter (λ x. not (gone x)) db.calls u,
  Refers-delete gone db.calls db.http_events a,
  Refers-delete gone db.calls db.blocks b,
  Refers-delete gone db.calls db.usage c,
  Refers-delete gone db.calls db.stream_events d,
  Refers-delete gone db.calls db.raw_payloads e,
  Refers-delete gone db.calls db.stream_chunks f,
)
