-- ===== src/Spy/Store/Queries/Listing.antt =====
-- The pages of the list of calls together are the whole list.
use rootcell.Prelude.{
  ℕ, zero, suc, ◌≤◌, ◌≡◌, refl, sym, ap, ◌∙◌, Bool, true, false, List, [], ◌∷◌, ◌++◌, map, Option,
  none, some, filter, take, length-take, length, text_eq, arith, inl, inr, Bool-cases, Option-cases,
}
use rootcell.Spy.Records.{ProviderCall}
use rootcell.Spy.Store.Tables.{Db, has_call}
use rootcell.Spy.Store.Consistency.{UniqueIds, All-filter}
use rootcell.Spy.Store.Order.{
  Key, key_ltb, key_ltb-asym, key_ltb_trans, key_ltb-total, sort, insert, IsSorted, Ordered,
  AllOrdered, sort-IsSorted,
}
use rootcell.Spy.Store.Queries.Pages.{
  query_limit, query_page, rows_after, paginated, all_pages, all_pages-eq,
}
use rootcell.Spy.Store.Queries.Calls.{
  SpyProviderCallFilters, call_summary, call_key, descending, provider_call_filters, filtered_calls,
  list_call_summaries, list_all_pages,
}

pub query_limit-bounds : (limit : Option ℕ) → (1 ≤ query_limit limit) × (query_limit limit ≤ 500)
unfolding query_limit
query_limit-bounds none = (omega arith, omega arith)
query_limit-bounds (some value) = (omega arith, omega arith)

descending-asym : (a b : Key) → descending a b ≡ true → descending b a ≡ false
descending-asym a b h = key_ltb-asym b a h

descending_trans :
    (a b c : Key) → descending a b ≡ true → descending b c ≡ true → descending a c ≡ true
descending_trans a b c h k = key_ltb_trans c b a k h

calls-Ordered :
    (c : ProviderCall) (calls : List ProviderCall)
    → has_call calls c.id ≡ false
    → Ordered call_key descending c calls
unfolding has_call
calls-Ordered c [] h = tt
calls-Ordered c (d ∷ calls) h =
    let new : text_eq d.id c.id ≡ false = ground arith in
    (
      elim (Bool-cases (key_ltb (call_key d) (call_key c))) [
        | inl e ↦ inl e
        | inr e ↦ inr (key_ltb-total (call_key d) (call_key c) new e)
      ],
      calls-Ordered c calls (ground arith),
    )

calls-AllOrdered :
    (calls : List ProviderCall) → UniqueIds calls → AllOrdered call_key descending calls
calls-AllOrdered [] h = tt
calls-AllOrdered (c ∷ calls) (new, h) = (calls-Ordered c calls new, calls-AllOrdered calls h)

filter-IsSorted :
    (p : ProviderCall → Bool) (calls : List ProviderCall)
    → IsSorted call_key descending calls
    → IsSorted call_key descending (filter p calls)
filter-IsSorted p [] h = tt
filter-IsSorted p (c ∷ calls) (h, hs) = elim (Bool-cases (p c)) [
  | inl e ↦ rw e (
    All-filter (λ d. descending (call_key c) (call_key d) ≡ true) p calls h,
    filter-IsSorted p calls hs,
  )
  | inr e ↦ rw e (filter-IsSorted p calls hs)
]

filtered_calls-IsSorted :
    (options : SpyProviderCallFilters) (db : Db)
    → UniqueIds db.calls
    → IsSorted call_key descending (filtered_calls options db)
unfolding filtered_calls
filtered_calls-IsSorted options db h =
    filter-IsSorted (provider_call_filters options) (sort call_key descending db.calls)
      (sort-IsSorted call_key descending descending_trans db.calls (calls-AllOrdered db.calls h))

length-insert :
    (c : ProviderCall) (calls : List ProviderCall)
    → length (insert call_key descending c calls) ≡ suc (length calls)
unfolding insert
length-insert c [] = refl
length-insert c (d ∷ calls) = elim (Bool-cases (descending (call_key d) (call_key c))) [
  | inl e ↦ rw (insert, e) (ap suc (length-insert c calls))
  | inr e ↦ rw (insert, e) refl
]

length-sort : (calls : List ProviderCall) → length (sort call_key descending calls) ≡ length calls
unfolding sort
length-sort [] = refl
length-sort (c ∷ calls) =
    omega (arith, length-insert c (sort call_key descending calls), length-sort calls)

length-filter :
    (p : ProviderCall → Bool) (calls : List ProviderCall) → length (filter p calls) ≤ length calls
length-filter p [] = omega arith
length-filter p (c ∷ calls) = ground (arith, length-filter p calls)

map-append : {A B : Type 0} (f : A → B) (xs ys : List A) → map f (xs ++ ys) ≡ map f xs ++ map f ys
map-append f [] ys = refl
map-append f (x ∷ xs) ys = ap (λ r. f x ∷ r) (map-append f xs ys)

-- The pages of summaries are the summaries of the pages.
list_all_pages-map :
    (fuel : ℕ) (options : SpyProviderCallFilters) (after : Option Key) (limit : Option ℕ) (db : Db)
    → list_all_pages fuel options after limit db
      ≡ map
          (call_summary db)
          (all_pages call_key descending fuel (query_limit limit) after (filtered_calls options db))
unfolding list_all_pages all_pages list_call_summaries
list_all_pages-map zero options after limit db = refl
list_all_pages-map (suc fuel) options after limit db =
    let page =
      query_page call_key descending after (query_limit limit) (filtered_calls options db) in
    elim (Option-cases page.next_cursor) [
      | inl e ↦
          rw (list_all_pages, all_pages, list_call_summaries, e)
            (sym (map-append (call_summary db) page.items []))
      | inr (next, e) ↦
          rw
            (
              list_all_pages,
              all_pages,
              list_call_summaries,
              e,
              list_all_pages-map fuel options (some next) limit db,
            )
            (sym (map-append (call_summary db) page.items _))
    ]

length-map : {A B : Type 0} (f : A → B) (xs : List A) → length (map f xs) ≡ length xs
length-map f [] = refl
length-map f (x ∷ xs) = ap suc (length-map f xs)

page_small :
    (options : SpyProviderCallFilters) (after : Option Key) (limit : Option ℕ) (db : Db)
    → length (list_call_summaries options after limit db).items ≤ 500
unfolding list_call_summaries paginated
page_small options after limit db =
    let rows =
      take (suc (query_limit limit))
        (rows_after call_key descending after (filtered_calls options db)) in
    omega (
      arith,
      (query_limit-bounds limit).1,
      length-take (query_limit limit) rows,
      length-map (call_summary db) (take (query_limit limit) rows),
    )

-- Where the ids of the calls are distinct, a client who asks for the list of calls and follows the
-- cursors, with any limit, gets the summaries of the calls that the filters choose of the ordered
-- table, strictly from the newest call to the oldest, in at most one request more than there are
-- calls; no page has more than 500 calls.
pub list_call_summaries-pages :
    (options : SpyProviderCallFilters) (limit : Option ℕ) (db : Db)
    → UniqueIds db.calls
    → (list_all_pages (suc (length db.calls)) options none limit db
        ≡ map (call_summary db) (filtered_calls options db))
      × IsSorted call_key descending (filtered_calls options db)
      × ((after : Option Key) → length (list_call_summaries options after limit db).items ≤ 500)
list_call_summaries-pages options limit db unique =
    let sorted = filtered_calls-IsSorted options db unique in
    (
      list_all_pages-map (suc (length db.calls)) options none limit db
          ∙ ap (map (call_summary db)) (
              all_pages-eq call_key descending descending-asym (suc (length db.calls))
                (query_limit limit) (filtered_calls options db)
                (unfold filtered_calls in
                  omega (
                    arith,
                    length-filter (provider_call_filters options)
                        (sort call_key descending db.calls),
                    length-sort db.calls,
                  ))
                (query_limit-bounds limit).0 sorted),
      sorted,
      λ after. page_small options after limit db,
    )
