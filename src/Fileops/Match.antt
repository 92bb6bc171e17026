-- ===== src/Fileops/Match.antt =====
-- Finding the places that an edit names (internal/fileops/match.go).
use elbot.Base.{
  has_prefix, index_of, ℕ, zero, suc, ◌+◌, ◌-◌, Bool, true, false, ◌||◌, Option, none, some, List,
  [], ◌∷◌, ◌++◌, Text, if◌then◌else◌, ltb, ◌==◌, ℤ, pos_part, length, take, drop, get_elem?, codes,
}
use elbot.Fileops.Lines.{normalize_edit_text}

-- strings.Count(text, "\n")
unfoldable pub count_newlines : Text → ℕ
count_newlines [] = 0
count_newlines (c ∷ s) = (if c == 10 then 1 else 0) + count_newlines s

-- An offset that is computed as `end - 1` is at least 0, since a needle is not empty.
unfoldable pub byte_offset_to_line : Text → ℕ → ℕ
unfolding count_newlines
byte_offset_to_line text offset = count_newlines (take offset text) + 1

-- strings.ReplaceAll(s, "\n", "\\n")
escape_newlines : Text → Text
escape_newlines [] = []
escape_newlines (c ∷ s) = if c == 10 then 92 ∷ (b'n' ∷ escape_newlines s) else c ∷ escape_newlines s

abbrev pub match_preview_width : ℕ
match_preview_width = 40

unfoldable pub truncate_line : Text → Text
unfolding escape_newlines
truncate_line s =
    let e = escape_newlines s in
    if ltb match_preview_width (length e) then take match_preview_width e ++ codes "..." else e

-- The loop that walks back to the start of the line; `text[lineStart-1]`.
line_start : ℕ → Text → ℕ
line_start zero text = 0
line_start (suc n) text =
    let back = line_start n text in
    elim (get_elem? text n) [ none ↦ suc n | some c ↦ if c == 10 then suc n else back ]

unfoldable pub match_preview : Text → ℕ → ℕ → Text
unfolding truncate_line line_start
match_preview text start end =
    let first = line_start start text in truncate_line (drop first (take end text))

pub record MatchLocation : Type 0 where
  pub byte_start : ℕ
  pub byte_end : ℕ
  pub start_line : ℕ
  pub end_line : ℕ
  pub preview : Text
  pub line_index : ℕ

pub record EditSourceLine : Type 0 where
  pub start : ℕ
  pub end : ℕ
  pub full_end : ℕ
  pub content : Text

abbrev pub content_match : Text → ℕ → ℕ → MatchLocation
content_match text start end = record {
  byte_start = start;
  byte_end = end;
  start_line = byte_offset_to_line text start;
  end_line = byte_offset_to_line text (end - 1);
  preview = match_preview text start end;
  line_index = 0;
}

-- The loop of findContentMatches. A match is at least one byte long, so as much fuel as the text
-- has bytes, and one more, is enough.
unfoldable pub content_matches : ℕ → Text → Text → ℕ → List MatchLocation
unfolding index_of
content_matches zero text needle offset = []
content_matches (suc fuel) text needle offset = elim (index_of (drop offset text) needle) [
  | none ↦ []
  | some idx ↦
      content_match text (offset + idx) (offset + idx + length needle)
      ∷ content_matches fuel text needle (offset + idx + length needle)
]

find_with : Text → Text → List MatchLocation
unfolding content_matches
find_with text [] = []
find_with text (c ∷ needle) = content_matches (suc (length text)) text (c ∷ needle) 0

unfoldable pub find_content_matches : Text → Text → List MatchLocation
unfolding find_with
find_content_matches text needle = find_with text (normalize_edit_text needle)

-- strings.TrimLeft(s, " \t")
unfoldable pub trim_indent : Text → Text
trim_indent [] = []
trim_indent (c ∷ s) = if c == 32 || c == 9 then trim_indent s else c ∷ s

line_matches : ℕ → List EditSourceLine → Text → List MatchLocation
unfolding has_prefix trim_indent
line_matches i [] needle = []
line_matches i (line ∷ rest) needle =
    let trimmed = trim_indent line.content in
    let more = line_matches (suc i) rest needle in
    if has_prefix trimmed needle
    then record {
      byte_start = line.start;
      byte_end = line.end;
      start_line = i + 1;
      end_line = i + 1;
      preview = truncate_line trimmed;
      line_index = i;
    }
      ∷ more
    else more

unfoldable pub find_line_matches : List EditSourceLine → Text → List MatchLocation
unfolding line_matches
find_line_matches lines needle = line_matches 0 lines needle

pub data SelectError : Type 0 where
  not_found mutually_exclusive : SelectError
  index_out_of_range : ℤ → ℕ → SelectError
  ambiguous : List MatchLocation → SelectError

pub data Selected : Type 0 where
  selected : List MatchLocation → Selected
  select_error : SelectError → Selected

abbrev single : Option MatchLocation → SelectError → Selected
single none e = select_error e
single (some l) e = selected (l ∷ [])

-- `i < 1 || i > n` is the lookup's failure at `i - 1`, with 0 for every i below 1.
select_index : List MatchLocation → ℤ → Selected
select_index locations i =
    if pos_part i == 0
    then select_error (index_out_of_range i (length locations))
    else single (get_elem? locations (pos_part i - 1)) (index_out_of_range i (length locations))

unfoldable pub select_matches : List MatchLocation → Option ℤ → Bool → Selected
unfolding select_index
select_matches [] index all = select_error not_found
select_matches (l ∷ rest) (some i) true = select_error mutually_exclusive
select_matches (l ∷ rest) none true = selected (l ∷ rest)
select_matches (l ∷ rest) (some i) false = select_index (l ∷ rest) i
select_matches (l ∷ []) none false = selected (l ∷ [])
select_matches (l ∷ (k ∷ rest)) none false = select_error (ambiguous (l ∷ (k ∷ rest)))
