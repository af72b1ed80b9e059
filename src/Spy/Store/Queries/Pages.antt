-- ===== src/Spy/Store/Queries/Pages.antt =====
-- Pages of an ordered list of rows, as `listCallSummaries` and `getStreamEvents` of src/spy/store.ts
-- cut them: the key of a page's last row is the cursor of the next page.
use Prim.Native.Nat.{min, max}
use rootcell.Prelude.{
  ℕ, zero, suc, ◌≤◌, ◌≡◌, refl, sym, ap, subst, ◌∙◌, Bool, true, false, List, [], ◌∷◌, ◌++◌, Option,
  none, some, leb, if◌then◌else◌, filter, take, drop, length, All, arith, Bool-cases, inl, inr, ◌⊎◌,
  length-take, length-append, ◌<◌, take-append-drop,
}
use rootcell.Spy.Store.Order.{IsSorted}

abbrev default_query_limit : ℕ
default_query_limit = 100

abbrev max_query_limit : ℕ
max_query_limit = 500

-- `Math.trunc` changes no whole number, and a negative one counts as 1 as 0 does.
unfoldable pub query_limit : Option ℕ → ℕ
query_limit none = default_query_limit
query_limit (some value) = min max_query_limit (max 1 value)

pub record SpyPaginatedResult (A K : Type 0) : Type 0 where
  pub items : List A
  pub next_cursor : Option K

-- `rows.at(-1)`
abbrev pub last : {A : Type 0} → List A → Option A
last [] = none
last (a ∷ []) = some a
last (a ∷ b ∷ rows) = last (b ∷ rows)

last-cases :
    {A : Type 0} (xs : List A)
    → (xs ≡ []) ⊎ ((init : List A) × (a : A) × (xs ≡ init ++ a ∷ []) × (last xs ≡ some a))
last-cases [] = inl refl
last-cases (a ∷ []) = inr ([], a, refl, refl)
last-cases (a ∷ b ∷ xs) = elim (last-cases (b ∷ xs)) [
  | inl e ↦ absurd (cc)
  | inr (init, c, e, l) ↦ inr (a ∷ init, c, ap (λ r. a ∷ r) e, l)
]

++_nil : {A : Type 0} (xs : List A) → xs ++ [] ≡ xs
++_nil [] = refl
++_nil (x ∷ xs) = ap (λ r. x ∷ r) (++_nil xs)

++-assoc : {A : Type 0} (xs ys zs : List A) → (xs ++ ys) ++ zs ≡ xs ++ (ys ++ zs)
++-assoc [] ys zs = refl
++-assoc (x ∷ xs) ys zs = ap (λ r. x ∷ r) (++-assoc xs ys zs)

take-take : {A : Type 0} (n : ℕ) (xs : List A) → take n (take (suc n) xs) ≡ take n xs
take-take zero xs = refl
take-take (suc n) [] = refl
take-take (suc n) (x ∷ xs) = ap (λ r. x ∷ r) (take-take n xs)

take_all : {A : Type 0} (n : ℕ) (xs : List A) → length xs ≤ n → take n xs ≡ xs
take_all zero [] h = refl
take_all zero (x ∷ xs) h = absurd (omega arith)
take_all (suc n) [] h = refl
take_all (suc n) (x ∷ xs) h = ap (λ r. x ∷ r) (take_all n xs (omega arith))

module _ {A K : Type 0} (key : A → K) where
  -- The page of the rows that the query gives, which asks for one more than the limit.
  unfoldable pub paginated : List A → ℕ → SpyPaginatedResult A K
  paginated rows limit =
      let page_rows = take limit rows in
      record {
        items = page_rows;
        next_cursor =
            if leb (length rows) limit
            then none
            else elim (last page_rows) [ none ↦ none | some a ↦ some (key a) ];
      }

  -- A page is the rest of the rows, or it ends at a row whose key is the next cursor.
  paginated-cases :
      (limit : ℕ) (rest : List A)
      → 1 ≤ limit
      → let page = paginated (take (suc limit) rest) limit in
        ((page.items ≡ rest) × (page.next_cursor ≡ none))
        ⊎ ((init : List A) × (a : A) × (after : List A) × (rest ≡ init ++ a ∷ after)
            × (page.items ≡ init ++ a ∷ [])
            × (page.next_cursor ≡ some (key a)))
  unfolding paginated
  paginated-cases limit rest h = elim (Bool-cases (leb (length (take (suc limit) rest)) limit)) [
    | inl short ↦ inl (
      take-take limit rest ∙ take_all limit rest (ground (arith, length-take (suc limit) rest)),
      rw (paginated, short) refl,
    )
    | inr long ↦ elim (last-cases (take limit rest)) [
      | inl e ↦
          absurd (ground (arith, length-take (suc limit) rest, length-take limit rest, ap length e))
      | inr (init, a, e, l) ↦ inr (
        init,
        a,
        drop limit rest,
        sym (take-append-drop limit rest)
            ∙ ap (λ r. r ++ drop limit rest) e
            ∙ ++-assoc init (a ∷ []) (drop limit rest),
        take-take limit rest ∙ e,
        rw (paginated, long, take-take limit rest, l) refl,
      )
    ]
  ]

  module _ (lt : K → K → Bool) where
    -- `WHERE key > cursor`, where there is a cursor.
    abbrev pub rows_after : Option K → List A → List A
    rows_after none rows = rows
    rows_after (some k) rows = filter (λ a. lt k (key a)) rows

    abbrev pub query_page : Option K → ℕ → List A → SpyPaginatedResult A K
    query_page cursor limit rows = paginated (take (suc limit) (rows_after cursor rows)) limit

    -- The items of the pages that a client gets who follows the cursors.
    unfoldable pub all_pages : ℕ → ℕ → Option K → List A → List A
    all_pages zero limit cursor rows = []
    all_pages (suc fuel) limit cursor rows =
        let page = query_page cursor limit rows in
        page.items
        ++ elim page.next_cursor [ none ↦ [] | some next ↦ all_pages fuel limit (some next) rows ]

    module _ (asym : (a b : K) → lt a b ≡ true → lt b a ≡ false) where
      lt_irrefl : (a : K) → lt a a ≡ false
      lt_irrefl a = elim (Bool-cases (lt a a)) [ inl e ↦ asym a a e | inr e ↦ e ]

      filter-All :
          (p : A → Bool) (rows : List A) → All (λ a. p a ≡ true) rows → filter p rows ≡ rows
      filter-All p [] h = refl
      filter-All p (a ∷ rows) (h, hs) = rw (h, filter-All p rows hs) refl

      All-middle : (P : A → Type 0) (xs ys : List A) (a : A) → All P (xs ++ a ∷ ys) → P a
      All-middle P [] ys a (h, hs) = h
      All-middle P (x ∷ xs) ys a (h, hs) = All-middle P xs ys a hs

      -- The rows behind a row are those whose key is greater.
      after_last :
          (before after : List A) (a : A)
          → IsSorted key lt (before ++ a ∷ after)
          → filter (λ b. lt (key a) (key b)) (before ++ a ∷ after) ≡ after
      after_last [] after a (h, hs) =
          rw (lt_irrefl (key a)) (filter-All (λ b. lt (key a) (key b)) after h)
      after_last (b ∷ before) after a (h, hs) =
          rw (asym (key b) (key a) (All-middle (λ c. lt (key b) (key c) ≡ true) before after a h))
            (after_last before after a hs)

      all_pages_from :
          (fuel limit : ℕ) (cursor : Option K) (rows before rest : List A)
          → 1 ≤ limit
          → length rest < fuel
          → IsSorted key lt rows
          → rows ≡ before ++ rest
          → rows_after cursor rows ≡ rest
          → all_pages fuel limit cursor rows ≡ rest
      unfolding all_pages
      all_pages_from zero limit cursor rows before rest l f s e r = absurd (omega arith)
      all_pages_from (suc fuel) limit cursor rows before rest l f s e r =
          elim (paginated-cases limit rest l) [
            | inl (items, next) ↦ rw (all_pages, r, next, items) (++_nil rest)
            | inr (init, a, after, split, items, next) ↦
                let whole : rows ≡ (before ++ init) ++ a ∷ after =
                  e ∙ ap (λ x. before ++ x) split ∙ sym (++-assoc before init (a ∷ after)) in
                let behind : rows_after (some (key a)) rows ≡ after =
                  subst (λ x. rows_after (some (key a)) x ≡ after) (sym whole)
                    (after_last (before ++ init) after a (subst (IsSorted key lt) whole s)) in
                let fewer : length after < fuel =
                  omega (arith, ap length split, length-append init (a ∷ after)) in
                let pages : all_pages fuel limit (some (key a)) rows ≡ after =
                  all_pages_from fuel limit (some (key a)) rows ((before ++ init) ++ a ∷ []) after l
                    fewer s (whole ∙ sym (++-assoc (before ++ init) (a ∷ []) after)) behind in
                rw (all_pages, r, next, items, pages) (++-assoc init (a ∷ []) after ∙ sym split)
          ]

      -- Following the cursors gives every row once, in order.
      pub all_pages-eq :
          (fuel limit : ℕ) (rows : List A)
          → length rows < fuel
          → 1 ≤ limit
          → IsSorted key lt rows
          → all_pages fuel limit none rows ≡ rows
      all_pages-eq fuel limit rows f l s =
          all_pages_from fuel limit none rows [] rows l f s refl refl
