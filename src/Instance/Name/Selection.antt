-- ===== src/Instance/Name/Selection.antt =====
-- The file that holds the selected instance: `stripOneTrailingNewline`, `parseSelectedInstanceFile`,
-- `readSelectedRootcellInstance` and `writeSelectedRootcellInstance` of src/rootcell/instance.ts.
-- A file is its content, and `none` where it does not exist.
pub mod Laws
use rootcell.Prelude.{
  ℕ, ◌+◌, ◌-◌, ◌≡◌, refl, Bool, true, false, not, ◌&&◌, ◌||◌, List, [], ◌∷◌, ◌++◌, Option, none,
  some, ◌==◌, ltb, leb, if◌then◌else◌, length, take, drop, Text, codes, text_eq, split_lines,
  Result, ok, err, throw_if, ◌>>=◌, ◌>>◌,
}
use rootcell.Instance.Error.{Error, empty_content, multiple_lines, embedded_whitespace}
use rootcell.Instance.Name.{default_instance, validate_instance_name}

-- `raw.endsWith(suffix)`
unfoldable pub ends_with : Text → Text → Bool
unfolding text_eq
ends_with s suffix =
    leb (length suffix) (length s) && text_eq (drop (length s - length suffix) s) suffix

unfoldable pub strip_one_trailing_newline : Text → Text
unfolding ends_with
strip_one_trailing_newline raw =
    if ends_with raw (codes "\r\n")
    then take (length raw - 2) raw
    else if ends_with raw (codes "\n")
    then take (length raw - 1) raw
    else raw

-- `/\r|\n/.test(content)`
unfoldable pub has_line_break : Text → Bool
has_line_break [] = false
has_line_break (c ∷ s) = c == b'\r' || c == b'\n' || has_line_break s

-- `/\s/`: the white space and line terminators of ECMAScript.
abbrev pub is_space : ℕ → Bool
is_space c =
    (leb 0x9 c && leb c 0xd)
    || c == 0x20
    || c == 0xa0
    || c == 0x1680
    || (leb 0x2000 c && leb c 0x200a)
    || c == 0x2028
    || c == 0x2029
    || c == 0x202f
    || c == 0x205f
    || c == 0x3000
    || c == 0xfeff

unfoldable pub has_space : Text → Bool
has_space [] = false
has_space (c ∷ s) = is_space c || has_space s

-- `lines.filter((line) => line.length > 0).length`
unfoldable pub count_non_empty : List Text → ℕ
count_non_empty [] = 0
count_non_empty ([] ∷ ps) = count_non_empty ps
count_non_empty ((c ∷ p) ∷ ps) = count_non_empty ps + 1

-- `parseSelectedInstanceFile` behind the stripping of the newline.
unfoldable pub parse_content : Text → Result Error Text
parse_content content =
    if length content == 0
    then err empty_content
    else if has_line_break content
    then (if ltb 1 (count_non_empty (split_lines content))
        then err multiple_lines
        else err embedded_whitespace)
    else if has_space content
    then err embedded_whitespace
    else validate_instance_name content

unfoldable pub parse_selected_instance_file : Text → Result Error Text
parse_selected_instance_file raw = parse_content (strip_one_trailing_newline raw)

unfoldable pub read_selected_instance : Option Text → Result Error Text
read_selected_instance none = ok default_instance
read_selected_instance (some raw) = parse_selected_instance_file raw

-- The content that the file has afterwards.
unfoldable pub write_selected_instance : Text → Result Error Text
unfolding validate_instance_name
write_selected_instance instance_name = do
  name ← validate_instance_name instance_name
  ok (name ++ codes "\n")
