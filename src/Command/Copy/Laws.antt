-- ===== src/Command/Copy/Laws.antt =====
-- The operands that the copy command accepts.
use rootcell.Prelude.{
  ◌≤◌, ◌≡◌, refl, sym, ap, ap₂, subst, ◌∙◌, Bool, true, false, not, List, [], ◌∷◌, ◌++◌,
  if◌then◌else◌, any, all, length, Text, codes, text_eq, ok, throw_if, throw_if-eq-ok, ◌>>◌, arith,
  and_true, ◌↔◌,
}
use rootcell.Command.Copy.{
  empty_guest_path, mixed_sources, same_sides, CopyDirection, host_to_guest, guest_to_host,
  RootcellCopySpec, is_rootcell_guest_copy_path, bool_eq, split_last, is_guest_source, copy_sides,
  copy_spec, parse_rootcell_copy_spec,
}

abbrev pub from_guest : CopyDirection → Bool
from_guest guest_to_host = true
from_guest host_to_guest = false

-- Some sources on one side and a target on the other, no operand a guest path without a path.
abbrev pub IsCopy : List Text → RootcellCopySpec → Type 0
IsCopy operands spec =
    (operands ≡ spec.sources ++ spec.target ∷ [])
    × (1 ≤ length spec.sources)
    × (any (λ o. text_eq o (codes ":")) operands ≡ false)
    × (all (λ s. bool_eq (is_rootcell_guest_copy_path s) (from_guest spec.direction)) spec.sources
        ≡ true)
    × (is_rootcell_guest_copy_path spec.target ≡ not (from_guest spec.direction))

split_last_lem :
    (operand : Text) (operands : List Text)
    → operand ∷ operands ≡ (split_last operand operands).0 ++ (split_last operand operands).1 ∷ []
unfolding split_last
split_last_lem operand [] = refl
split_last_lem operand (next ∷ operands) = ap (λ r. operand ∷ r) (split_last_lem next operands)

split_last-append :
    (source : Text) (sources : List Text) (target : Text)
    → split_last source (sources ++ target ∷ []) ≡ (source ∷ sources, target)
unfolding split_last
split_last-append source [] target = refl
split_last-append source (next ∷ sources) target = rw (split_last-append next sources target) refl

-- The parse of operands that are taken apart.
parse-append :
    (source : Text) (sources : List Text) (target : Text)
    → parse_rootcell_copy_spec (source ∷ sources ++ target ∷ []) ≡ (
        throw_if
          (any (λ o. text_eq o (codes ":")) (source ∷ sources ++ target ∷ []))
          empty_guest_path
        >> copy_spec (source ∷ sources) target)
unfolding parse_rootcell_copy_spec
parse-append source [] target =
    rw (parse_rootcell_copy_spec, split_last-append source [] target) refl
parse-append source (next ∷ sources) target =
    rw (parse_rootcell_copy_spec, split_last-append source (next ∷ sources) target) refl

from_guest-if : (b : Bool) → from_guest (if b then guest_to_host else host_to_guest) ≡ b
from_guest-if true = refl
from_guest-if false = refl

bool_eq-eq : (a b : Bool) → bool_eq a b ≡ true → a ≡ b
bool_eq-eq true true h = refl
bool_eq-eq true false h = absurd (cc)
bool_eq-eq false true h = absurd (cc)
bool_eq-eq false false h = refl

bool_eq-false : (a b : Bool) → bool_eq a b ≡ false → b ≡ not a
bool_eq-false true b h = h
bool_eq-false false true h = refl
bool_eq-false false false h = absurd (cc)

not-false : (b : Bool) → not b ≡ false → b ≡ true
not-false true h = refl
not-false false h = absurd (cc)

bool_eq-not : (b : Bool) → bool_eq b (not b) ≡ false
bool_eq-not true = refl
bool_eq-not false = refl

if-from_guest : (d : CopyDirection) → (if from_guest d then guest_to_host else host_to_guest) ≡ d
if-from_guest host_to_guest = refl
if-from_guest guest_to_host = refl

-- The sources are on the side of a direction, and the target on the other.
abbrev Sides : List Text → Text → CopyDirection → Type 0
Sides sources target d =
    (all (λ s. bool_eq (is_rootcell_guest_copy_path s) (from_guest d)) sources ≡ true)
    × (is_rootcell_guest_copy_path target ≡ not (from_guest d))

copy_sides-eq-ok :
    (first : Bool) (sources : List Text) (target : Text) (spec : RootcellCopySpec)
    → copy_sides first sources target ≡ ok spec
    → (spec.sources ≡ sources) × (spec.target ≡ target) × Sides sources target spec.direction
unfolding copy_sides
copy_sides-eq-ok first sources target spec e =
    let result : RootcellCopySpec = record {
      sources = sources;
      target = target;
      direction = if first then guest_to_host else host_to_guest;
    } in
    let mixed = not (all (λ s. bool_eq (is_rootcell_guest_copy_path s) first) sources) in
    let same = bool_eq first (is_rootcell_guest_copy_path target) in
    let (one_side, e1) =
      throw_if-eq-ok mixed mixed_sources (throw_if same same_sides >> ok result) e in
    let (other, e2) = throw_if-eq-ok same same_sides (ok result) e1 in
    let found : result ≡ spec = cc in
    subst
      (λ (x : RootcellCopySpec).
        (x.sources ≡ sources) × (x.target ≡ target) × Sides sources target x.direction)
      found
      (refl, refl, rw (from_guest-if first) (not-false _ one_side, bool_eq-false first _ other))

copy_sides-Sides :
    (sources : List Text) (target : Text) (d : CopyDirection)
    → Sides sources target d
    → copy_sides (from_guest d) sources target
      ≡ ok (record { sources = sources; target = target; direction = d })
unfolding copy_sides
copy_sides-Sides sources target d (one_side, other) =
    rw (copy_sides, one_side, other, bool_eq-not (from_guest d), if-from_guest d) refl

copy_spec-Sides :
    (source : Text) (sources : List Text) (target : Text) (d : CopyDirection)
    → Sides (source ∷ sources) target d
    → copy_spec (source ∷ sources) target
      ≡ ok (record { sources = source ∷ sources; target = target; direction = d })
unfolding copy_spec
copy_spec-Sides source sources target d (one_side, other) =
    let first : is_rootcell_guest_copy_path source ≡ from_guest d =
      bool_eq-eq _ _ (and_true _ _ one_side).0 in
    ap (λ b. copy_sides b (source ∷ sources) target) first
    ∙ copy_sides-Sides (source ∷ sources) target d (one_side, other)

length-split_last :
    (operand next : Text) (operands : List Text)
    → 1 ≤ length (split_last operand (next ∷ operands)).0
unfolding split_last
length-split_last operand next operands = omega arith

-- Accepted operands, taken apart.
parse-eq-ok :
    (operands : List Text) (spec : RootcellCopySpec)
    → parse_rootcell_copy_spec operands ≡ ok spec
    → IsCopy operands spec
unfolding parse_rootcell_copy_spec
parse-eq-ok [] spec e = absurd (cc)
parse-eq-ok (operand ∷ []) spec e = absurd (cc)
parse-eq-ok (operand ∷ next ∷ operands) spec e =
    let sources = (split_last operand (next ∷ operands)).0 in
    let target = (split_last operand (next ∷ operands)).1 in
    let (colon, e1) =
      throw_if-eq-ok (any (λ o. text_eq o (codes ":")) (operand ∷ next ∷ operands)) empty_guest_path
        (copy_spec sources target) e in
    let (s, t, (sides, other)) =
      copy_sides-eq-ok (is_guest_source sources) sources target spec (unfold copy_spec in e1) in
    (
      split_last_lem operand (next ∷ operands) ∙ ap₂ (λ ss u. ss ++ u ∷ []) (sym s) (sym t),
      subst (λ ss. 1 ≤ length ss) (sym s) (length-split_last operand next operands),
      colon,
      rw s sides,
      rw t other,
    )

IsCopy-parse :
    (operands sources : List Text) (target : Text) (d : CopyDirection)
    → IsCopy operands (record { sources = sources; target = target; direction = d })
    → parse_rootcell_copy_spec operands
      ≡ ok (record { sources = sources; target = target; direction = d })
IsCopy-parse operands [] target d (e, some_source, _, _, _) = absurd (omega arith)
IsCopy-parse operands (source ∷ sources) target d (e, some_source, colon, one_side, other) =
    let free : any (λ o. text_eq o (codes ":")) (source ∷ sources ++ target ∷ []) ≡ false =
      subst (λ x. any (λ o. text_eq o (codes ":")) x ≡ false) e colon in
    ap parse_rootcell_copy_spec e
    ∙ parse-append source sources target
    ∙ rw free (copy_spec-Sides source sources target d (one_side, other))

-- The operands of copy are accepted, with these sources, this target and this direction, exactly if
-- they are the sources and the target behind them, there is a source, no operand is a colon alone,
-- and the sources are all on the side that the direction says and the target is on the other.
pub parse_rootcell_copy_spec_iff :
    (operands : List Text) (spec : RootcellCopySpec)
    → (parse_rootcell_copy_spec operands ≡ ok spec) ↔ IsCopy operands spec
parse_rootcell_copy_spec_iff operands spec =
    (parse-eq-ok operands spec, IsCopy-parse operands spec.sources spec.target spec.direction)
