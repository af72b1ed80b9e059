-- ===== src/Spy/Cursor/Json.antt =====
-- `jsonObjectEnd` and `extractJsonValues` of src/spy/cursor.ts: the JSON objects inside a text.
-- `JSON.parse` is an argument.
use rootcell.Prelude.{
  ℕ, zero, suc, ◌+◌, ◌-◌, Bool, true, false, not, ◌||◌, List, [], ◌∷◌, Option, none, some, ◌==◌,
  if◌then◌else◌, length, drop, take, Text,
}

-- The variables of the scan.
pub record Scan : Type 0 where
  pub depth : ℕ
  pub in_string : Bool
  pub escaped : Bool

-- One round of the loop: the variables behind a code unit, and whether the object ends with it.
unfoldable pub scan_unit : Scan → ℕ → Scan × Bool
scan_unit s char =
    if s.in_string
    then (if s.escaped
        then (record s { escaped = false }, false)
        else if char == b'\\'
        then (record s { escaped = true }, false)
        else if char == b'"'
        then (record s { in_string = false }, false)
        else (s, false))
    else if char == b'"'
    then (record s { in_string = true }, false)
    else if char == b'{'
    then (record s { depth = s.depth + 1 }, false)
    else if not (char == b'}') || s.depth == 0
    then (s, false)
    else (record s { depth = s.depth - 1 }, s.depth - 1 == 0)

-- The loop over what is left of the text from `index` on.
unfoldable pub scan_from : Scan → ℕ → Text → Option ℕ
scan_from s index [] = none
scan_from s index (char ∷ text) =
    let next = scan_unit s char in
    let rest = scan_from next.0 (index + 1) text in if next.1 then some index else rest

unfoldable pub json_object_end : Text → ℕ → Option ℕ
json_object_end text start =
    scan_from (record { depth = 0; in_string = false; escaped = false }) start (drop start text)

module _ {ℓ} {A : Type ℓ} (parse_json : Text → Option A) where
  -- The loop at `index`. Every round moves on by one unit at least, so the length is fuel enough.
  unfoldable pub extract_from : ℕ → Text → ℕ → List A
  extract_from zero text index = []
  extract_from (suc fuel) text index =
      let skipped = extract_from fuel text (index + 1) in
      elim (drop index text) [
        | [] ↦ []
        | char ∷ _ ↦ if not (char == b'{') then skipped else elim (json_object_end text index) [
          | none ↦ skipped
          | some end ↦
              let behind = extract_from fuel text (end + 1) in
              elim (parse_json (take (end + 1 - index) (drop index text))) [
                | none ↦ skipped
                | some value ↦ value ∷ behind
              ]
        ]
      ]

  unfoldable pub extract_json_values : Text → List A
  extract_json_values text = extract_from (length text) text 0
