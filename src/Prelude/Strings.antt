-- ===== src/Prelude/Strings.antt =====
-- JavaScript strings as lists of code units, with the string methods that the program calls.
use Prim.Native.Nat.{ℕ, suc, ◌-◌}
use Prim.Native.Char.{code}
use Prim.Native.String.{String}
use mathlib.Core.Path.{◌≡◌, refl, ap}
use mathlib.Core.Logic.{◌↔◌, ◌≢◌}
use mathlib.Core.Bool.{Bool, true, false, ◌&&◌, ◌||◌}
use mathlib.Core.List.{List, [], ◌∷◌, ◌++◌}
use mathlib.Core.Option.{Option, none, some}
use native.Mathlib.Omega.{arith}
use rootcell.Prelude.Tests.{◌==◌, if◌then◌else◌, ==_refl}
use rootcell.Prelude.Lists.{All, length, take, take-append_length}

abbrev pub Text : Type 0
Text = List ℕ

-- The code units of a literal.
abbrev pub codes : String → Text
codes String.[] = []
codes (String.◌∷◌ c s) = code c ∷ codes s

-- `left === right`.
unfoldable pub text_eq : Text → Text → Bool
text_eq [] [] = true
text_eq (x ∷ xs) (y ∷ ys) = (x == y) && text_eq xs ys
text_eq _ _ = false

pub text_eq_refl : (s : Text) → text_eq s s ≡ true
unfolding text_eq
text_eq_refl [] = refl
text_eq_refl (x ∷ xs) = ground (arith, text_eq_refl xs)

pub eq_of_text_eq : (s t : Text) → text_eq s t ≡ true → s ≡ t
unfolding text_eq
eq_of_text_eq [] [] h = refl
eq_of_text_eq [] (y ∷ ys) h = cc
eq_of_text_eq (x ∷ xs) [] h = cc
eq_of_text_eq (x ∷ xs) (y ∷ ys) h = ground (arith, eq_of_text_eq xs ys)

pub text_eq_iff : (s t : Text) → (text_eq s t ≡ true) ↔ (s ≡ t)
text_eq_iff s t = (eq_of_text_eq s t, λ p. rw p (text_eq_refl t))

-- `text.startsWith(prefix)`.
abbrev pub starts_with : Text → Text → Bool
starts_with s [] = true
starts_with [] (p ∷ ps) = false
starts_with (x ∷ xs) (p ∷ ps) = (x == p) && starts_with xs ps

-- `text.split(separator)` at a separator of one code unit.
abbrev push_unit : ℕ → List Text → List Text
push_unit x [] = (x ∷ []) ∷ []
push_unit x (p ∷ ps) = (x ∷ p) ∷ ps

unfoldable pub split : ℕ → Text → List Text
split c [] = [] ∷ []
split c (x ∷ xs) = let rest = split c xs in if x == c then [] ∷ rest else push_unit x rest

-- `parts.join(separator)`.
unfoldable pub join : ℕ → List Text → Text
join c [] = []
join c (p ∷ []) = p
join c (p ∷ q ∷ ps) = p ++ (c ∷ join c (q ∷ ps))

abbrev pub Lacks : ℕ → Text → Type 0
Lacks c = All (λ x. x ≢ c)

split_ne_nil : (c : ℕ) (s : Text) → split c s ≢ []
unfolding split
split_ne_nil c [] = cc
split_ne_nil c (x ∷ xs) = ground arith

join-push_unit : (c x : ℕ) (ps : List Text) → ps ≢ [] → join c (push_unit x ps) ≡ x ∷ join c ps
unfolding join
join-push_unit c x [] h = absurd (h refl)
join-push_unit c x (p ∷ []) h = refl
join-push_unit c x (p ∷ q ∷ ps) h = refl

join-cons_nil : (c : ℕ) (ps : List Text) → ps ≢ [] → join c ([] ∷ ps) ≡ c ∷ join c ps
unfolding join
join-cons_nil c [] h = absurd (h refl)
join-cons_nil c (p ∷ ps) h = refl

-- Joining what was split gives the text back.
pub join-split : (c : ℕ) (s : Text) → join c (split c s) ≡ s
unfolding split
join-split c [] = unfold join in refl
join-split c (x ∷ xs) = ground (
  arith,
  join-split c xs,
  join-push_unit c x (split c xs) (split_ne_nil c xs),
  join-cons_nil c (split c xs) (split_ne_nil c xs),
)

split-Lacks : (c : ℕ) (s : Text) → Lacks c s → split c s ≡ s ∷ []
unfolding split
split-Lacks c [] h = refl
split-Lacks c (x ∷ xs) (p, h) = ground (arith, split-Lacks c xs h)

split-append : (c : ℕ) (s t : Text) → Lacks c s → split c (s ++ (c ∷ t)) ≡ s ∷ split c t
unfolding split
split-append c [] t h = ground (arith, ==_refl c)
split-append c (x ∷ xs) t (p, h) = ground (arith, split-append c xs t h)

-- Splitting a join of parts without the separator gives the parts back.
pub split-join :
    (c : ℕ) (p : Text) (ps : List Text)
    → All (Lacks c) (p ∷ ps)
    → split c (join c (p ∷ ps)) ≡ p ∷ ps
unfolding join
split-join c p [] (h, _) = split-Lacks c p h
split-join c p (q ∷ ps) (h, k) = rw (split-append c p _ h) (ap (λ r. p ∷ r) (split-join c q ps k))

-- `text.lastIndexOf(c)`, and `text.slice(0, text.lastIndexOf(c))`: without a `c` the index is -1,
-- and the slice leaves off the last code unit.
abbrev last_index_cons : ℕ → ℕ → Option ℕ → Option ℕ
last_index_cons c x (some i) = some (suc i)
last_index_cons c x none = if x == c then some 0 else none

unfoldable pub last_index_of : ℕ → Text → Option ℕ
last_index_of c [] = none
last_index_of c (x ∷ xs) = last_index_cons c x (last_index_of c xs)

unfoldable pub before_last : ℕ → Text → Text
unfolding last_index_of
before_last c s = elim (last_index_of c s) [ none ↦ take (length s - 1) s | some i ↦ take i s ]

last_index_of-Lacks : (c : ℕ) (s : Text) → Lacks c s → last_index_of c s ≡ none
unfolding last_index_of
last_index_of-Lacks c [] h = refl
last_index_of-Lacks c (x ∷ xs) (p, h) = ground (arith, last_index_of-Lacks c xs h)

last_index_of-append :
    (c : ℕ) (s t : Text) → Lacks c t → last_index_of c (s ++ (c ∷ t)) ≡ some (length s)
unfolding last_index_of
last_index_of-append c [] t h = ground (arith, last_index_of-Lacks c t h, ==_refl c)
last_index_of-append c (x ∷ xs) t h = rw (last_index_of-append c xs t h)

-- What stands before the last separator.
pub before_last-append : (c : ℕ) (s t : Text) → Lacks c t → before_last c (s ++ (c ∷ t)) ≡ s
unfolding before_last
before_last-append c s t h =
    rw (last_index_of-append c s t h, before_last) (take-append_length s (c ∷ t))

-- `text.split(/\r?\n/)`: the parts between the newlines, each without the one "\r" before its
-- newline.
pub drop_cr : Text → Text
drop_cr [] = []
drop_cr (x ∷ []) = if x == b'\r' then [] else x ∷ []
drop_cr (x ∷ y ∷ s) = x ∷ drop_cr (y ∷ s)

drop_crs : List Text → List Text
unfolding drop_cr
drop_crs [] = []
drop_crs (p ∷ []) = p ∷ []
drop_crs (p ∷ q ∷ ps) = drop_cr p ∷ drop_crs (q ∷ ps)

unfoldable pub split_lines : Text → List Text
unfolding split drop_crs
split_lines s = drop_crs (split b'\n' s)

-- `text.indexOf(c)`.
abbrev index_cons : Option ℕ → Option ℕ
index_cons none = none
index_cons (some i) = some (suc i)

unfoldable pub index_of : ℕ → Text → Option ℕ
index_of c [] = none
index_of c (x ∷ xs) = if x == c then some 0 else index_cons (index_of c xs)

-- `text.includes(part)`.
unfoldable pub includes : Text → Text → Bool
includes [] part = starts_with [] part
includes (x ∷ xs) part = starts_with (x ∷ xs) part || includes xs part
