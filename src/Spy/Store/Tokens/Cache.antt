-- ===== src/Spy/Store/Tokens/Cache.antt =====
-- A saved count is found under its cache key.
use rootcell.Prelude.{
  ◌≡◌, refl, sym, ap, ap₂, subst, true, false, List, [], ◌∷◌, ◌++◌, Option, none, some, any, Text,
  text_eq, text_eq_refl, arith, Bool-cases, inl, inr, OnOk,
}
use rootcell.Spy.Records.{ProviderCall}
use rootcell.Spy.Tokens.{SpyTokenCountRecord, provider_counted, token_cache_key, base_of}
use rootcell.Spy.Store.Tables.{has_call}
use rootcell.Spy.Store.Tokens.{
  TokenCountRow, token_count_id, is_counted, update_count, has_cache_key, update_rows, upsert_count,
  save_count, save_provider_token_count, get_cached_provider_token_count,
}

-- What a later record leaves of the values of an earlier one.
abbrev pub HasValues : SpyTokenCountRecord → Option SpyTokenCountRecord → Type 0
HasValues r none = ⊥
HasValues r (some found) =
    (found.tokens ≡ r.tokens)
    × (found.provenance ≡ r.provenance)
    × (found.counted_at ≡ r.counted_at)
    × (found.label ≡ r.label)

get_cached-update_rows :
    (key : Text) (r : SpyTokenCountRecord) (rows : List TokenCountRow)
    → any (has_cache_key key) rows ≡ true
    → HasValues r (get_cached_provider_token_count key (update_rows key r rows))
unfolding get_cached_provider_token_count update_rows update_count
get_cached-update_rows key r [] h = absurd (cc)
get_cached-update_rows key r (row ∷ rows) h = elim (Bool-cases (has_cache_key key row)) [
  | inl e ↦ rw (get_cached_provider_token_count, e, e) (refl, refl, refl, refl)
  | inr e ↦
      rw (get_cached_provider_token_count, e, e) (get_cached-update_rows key r rows (ground arith))
]

get_cached-append :
    (row : TokenCountRow) (rows : List TokenCountRow)
    → any (has_cache_key row.cache_key) rows ≡ false
    → get_cached_provider_token_count row.cache_key (rows ++ row ∷ []) ≡ some row.count
unfolding get_cached_provider_token_count
get_cached-append row [] h = rw (get_cached_provider_token_count, text_eq_refl row.cache_key) refl
get_cached-append row (other ∷ rows) h = elim (Bool-cases (has_cache_key row.cache_key other)) [
  | inl e ↦ absurd (ground arith)
  | inr e ↦ rw (get_cached_provider_token_count, e) (get_cached-append row rows (ground arith))
]

get_cached-upsert_count :
    (calls : List ProviderCall) (r : SpyTokenCountRecord) (call_id : Text)
    (rows : List TokenCountRow)
    → OnOk
        (λ after. HasValues r (get_cached_provider_token_count (token_cache_key (base_of r)) after))
        (upsert_count calls call_id r rows)
unfolding upsert_count
get_cached-upsert_count calls r call_id rows =
    let key = token_cache_key (base_of r) in
    elim (Bool-cases (any (has_cache_key key) rows)) [
      | inl old ↦ rw (upsert_count, old) (get_cached-update_rows key r rows old)
      | inr new ↦ elim (Bool-cases (any (λ row. text_eq row.id (token_count_id r)) rows)) [
        | inl taken ↦ rw (upsert_count, new, taken) tt
        | inr free ↦ elim (Bool-cases (has_call calls call_id)) [
          | inr missing ↦ rw (upsert_count, new, free, missing) tt
          | inl there ↦
              rw (upsert_count, new, free, there)
                (subst (HasValues r)
                  (sym (
                    get_cached-append (record { id = token_count_id r; cache_key = key; count = r })
                      rows new))
                  (refl, refl, refl, refl))
        ]
      ]
    ]

-- After a count by the provider for a call is saved without an error, the cache has, under the key of
-- the record, a count with its tokens, its provenance, its time and its label, whether the key was
-- new or not.
pub get_cached-save :
    (calls : List ProviderCall) (r : SpyTokenCountRecord) (call_id : Text)
    (rows : List TokenCountRow)
    → r.call_id ≡ some call_id
    → r.provenance ≡ provider_counted
    → OnOk
        (λ after. HasValues r (get_cached_provider_token_count (token_cache_key (base_of r)) after))
        (save_provider_token_count calls r rows)
unfolding save_provider_token_count save_count
get_cached-save calls r call_id rows e p =
    subst
      (OnOk (λ after.
        HasValues r (get_cached_provider_token_count (token_cache_key (base_of r)) after)))
      (sym (ap₂ (λ c b. save_count c b calls r rows) e (ap is_counted p)))
      (get_cached-upsert_count calls r call_id rows)
