-- ===== src/Spy/Store/Order.antt =====
-- The order of texts, of pairs of a number and a text, and of rows by such a key.
use rootcell.Prelude.{
  ℕ, ◌≡◌, refl, Bool, true, false, ◌&&◌, ◌||◌, List, [], ◌∷◌, ◌==◌, ltb, if◌then◌else◌, Text,
  text_eq, arith, Bool-cases, inl, inr, ◌⊎◌, All,
}

-- SQLite compares texts by their bytes, which is the order of the code units of ASCII ids.
unfoldable pub text_ltb : Text → Text → Bool
text_ltb [] [] = false
text_ltb [] (y ∷ ys) = true
text_ltb (x ∷ xs) [] = false
text_ltb (x ∷ xs) (y ∷ ys) = ltb x y || (x == y && text_ltb xs ys)

abbrev pub Key : Type 0
Key = ℕ × Text

-- `number < ? OR (number = ? AND id < ?)`
unfoldable pub key_ltb : Key → Key → Bool
key_ltb (m, s) (n, t) = ltb m n || (m == n && text_ltb s t)

text_ltb-asym : (s t : Text) → text_ltb s t ≡ true → text_ltb t s ≡ false
unfolding text_ltb
text_ltb-asym [] [] h = refl
text_ltb-asym [] (y ∷ t) h = refl
text_ltb-asym (x ∷ s) [] h = absurd (cc)
text_ltb-asym (x ∷ s) (y ∷ t) h = ground (arith, text_ltb-asym s t)

text_ltb_trans : (s t u : Text) → text_ltb s t ≡ true → text_ltb t u ≡ true → text_ltb s u ≡ true
unfolding text_ltb
text_ltb_trans [] [] u h k = k
text_ltb_trans [] (y ∷ t) [] h k = absurd (cc)
text_ltb_trans [] (y ∷ t) (z ∷ u) h k = refl
text_ltb_trans (x ∷ s) [] u h k = absurd (cc)
text_ltb_trans (x ∷ s) (y ∷ t) [] h k = absurd (cc)
text_ltb_trans (x ∷ s) (y ∷ t) (z ∷ u) h k = ground (arith, text_ltb_trans s t u)

text_ltb-total : (s t : Text) → text_eq s t ≡ false → text_ltb s t ≡ false → text_ltb t s ≡ true
unfolding text_ltb text_eq
text_ltb-total [] [] e h = absurd (cc)
text_ltb-total [] (y ∷ t) e h = absurd (cc)
text_ltb-total (x ∷ s) [] e h = refl
text_ltb-total (x ∷ s) (y ∷ t) e h = ground (arith, text_ltb-total s t)

pub key_ltb-asym : (a b : Key) → key_ltb a b ≡ true → key_ltb b a ≡ false
unfolding key_ltb
key_ltb-asym (m, s) (n, t) h = ground (arith, text_ltb-asym s t)

pub key_ltb_trans : (a b c : Key) → key_ltb a b ≡ true → key_ltb b c ≡ true → key_ltb a c ≡ true
unfolding key_ltb
key_ltb_trans (m, s) (n, t) (o, u) h k = ground (arith, text_ltb_trans s t u)

pub key_ltb-total : (a b : Key) → text_eq a.1 b.1 ≡ false → key_ltb a b ≡ false → key_ltb b a ≡ true
unfolding key_ltb
key_ltb-total (m, s) (n, t) e h = ground (arith, text_ltb-total s t)

-- `ORDER BY key`: a strict order of keys, and the rows in it.
module _ {A K : Type 0} (key : A → K) (lt : K → K → Bool) where
  unfoldable pub insert : A → List A → List A
  insert a [] = a ∷ []
  insert a (b ∷ rows) =
      let rest = insert a rows in if lt (key b) (key a) then b ∷ rest else a ∷ b ∷ rows

  unfoldable pub sort : List A → List A
  sort [] = []
  sort (a ∷ rows) = insert a (sort rows)

  abbrev pub IsSorted : List A → Type 0
  IsSorted [] = Unit {0}
  IsSorted (a ∷ rows) = All (λ b. lt (key a) (key b) ≡ true) rows × IsSorted rows

  abbrev pub Before : A → A → Type 0
  Before a b = lt (key a) (key b) ≡ true

  -- Every two keys are ordered.
  abbrev pub Ordered : A → List A → Type 0
  Ordered a rows = All (λ b. Before a b ⊎ Before b a) rows

  abbrev pub AllOrdered : List A → Type 0
  AllOrdered [] = Unit {0}
  AllOrdered (a ∷ rows) = Ordered a rows × AllOrdered rows

  insert-All : (P : A → Type 0) (a : A) (rows : List A) → P a → All P rows → All P (insert a rows)
  unfolding insert
  insert-All P a [] p h = (p, tt)
  insert-All P a (b ∷ rows) p (q, h) = elim (Bool-cases (lt (key b) (key a))) [
    | inl e ↦ rw (insert, e) (q, insert-All P a rows p h)
    | inr e ↦ rw (insert, e) (p, (q, h))
  ]

  sort-All : (P : A → Type 0) (rows : List A) → All P rows → All P (sort rows)
  unfolding sort
  sort-All P [] h = tt
  sort-All P (a ∷ rows) (p, h) = insert-All P a (sort rows) p (sort-All P rows h)

  module _ (trans : (a b c : K) → lt a b ≡ true → lt b c ≡ true → lt a c ≡ true) where
    Before-All :
        (a b : A) (rows : List A)
        → Before a b
        → All (λ c. Before b c) rows
        → All (λ c. Before a c) rows
    Before-All a b [] h k = tt
    Before-All a b (c ∷ rows) h (k, ks) =
        (trans (key a) (key b) (key c) h k, Before-All a b rows h ks)

    insert-IsSorted :
        (a : A) (rows : List A) → Ordered a rows → IsSorted rows → IsSorted (insert a rows)
    unfolding insert
    insert-IsSorted a [] o h = (tt, tt)
    insert-IsSorted a (b ∷ rows) (o, os) (h, hs) = elim (Bool-cases (lt (key b) (key a))) [
      | inl e ↦
          rw (insert, e) (insert-All (λ c. Before b c) a rows e h, insert-IsSorted a rows os hs)
      | inr e ↦
          let first : Before a b = elim o [ inl p ↦ p | inr q ↦ absurd (cc) ] in
          rw (insert, e) ((first, Before-All a b rows first h), (h, hs))
    ]

    -- Rows with different keys are sorted.
    pub sort-IsSorted : (rows : List A) → AllOrdered rows → IsSorted (sort rows)
    unfolding sort
    sort-IsSorted [] h = tt
    sort-IsSorted (a ∷ rows) (o, h) =
        insert-IsSorted a (sort rows) (sort-All (λ b. Before a b ⊎ Before b a) rows o)
          (sort-IsSorted rows h)
