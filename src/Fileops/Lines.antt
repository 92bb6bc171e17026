-- ===== src/Fileops/Lines.antt =====
-- Line endings, line ranges and limits (internal/fileops/text.go).
pub mod Endings
pub mod Ranges
use elbot.Base.{
  ℕ, zero, suc, ◌+◌, ◌-◌, Bool, true, false, not, ◌&&◌, ◌||◌, Option, none, some, List, [], ◌∷◌,
  ◌++◌, Text, replace_crlf, if◌then◌else◌, ltb, leb, ◌==◌, ℤ, pos, negsuc, pos_part, is_empty,
  length, take,
}

-- strings.ReplaceAll(text, "\r", "\n")
unfoldable pub replace_cr : Text → Text
replace_cr [] = []
replace_cr (c ∷ rest) = (if c == 13 then 10 else c) ∷ replace_cr rest

unfoldable pub normalize_edit_text : Text → Text
unfolding replace_crlf replace_cr
normalize_edit_text t = replace_cr (replace_crlf t)

-- strings.HasSuffix(text, "\n")
unfoldable pub ends_with_newline : Text → Bool
ends_with_newline [] = false
ends_with_newline (c ∷ []) = c == 10
ends_with_newline (c ∷ (d ∷ rest)) = ends_with_newline (d ∷ rest)

ensure_newline : Text → Text
ensure_newline t = if is_empty t || ends_with_newline t then t else t ++ 10 ∷ []

unfoldable pub ensure_trailing_newline : Text → Text
unfolding normalize_edit_text ensure_newline ends_with_newline
ensure_trailing_newline t = ensure_newline (normalize_edit_text t)

-- strings.ReplaceAll(text, "\n", lineEnding)
unfoldable pub replace_newline : Text → Text → Text
replace_newline e [] = []
replace_newline e (c ∷ rest) =
    if c == 10 then e ++ replace_newline e rest else c ∷ replace_newline e rest

abbrev is_newline : Text → Bool
is_newline (c ∷ []) = c == 10
is_newline _ = false

unfoldable pub restore_line_endings : Text → Text → Text
unfolding replace_newline
restore_line_endings t e = if is_empty e || is_newline e then t else replace_newline e t

contains_crlf : Text → Bool
contains_crlf [] = false
contains_crlf (c ∷ []) = false
contains_crlf (c ∷ (d ∷ rest)) = c == 13 && d == 10 || contains_crlf (d ∷ rest)

unfoldable pub contains_cr : Text → Bool
contains_cr [] = false
contains_cr (c ∷ rest) = c == 13 || contains_cr rest

unfoldable pub detect_line_ending : Text → Text
unfolding contains_crlf contains_cr
detect_line_ending t =
    if contains_crlf t then 13 ∷ 10 ∷ [] else if contains_cr t then 13 ∷ [] else 10 ∷ []

contains_zero : Text → Bool
contains_zero [] = false
contains_zero (c ∷ rest) = c == 0 || contains_zero rest

unfoldable pub looks_binary_utf8 : Text → Bool
unfolding contains_zero
looks_binary_utf8 t = contains_zero (take 4096 t)

-- strings.Split(text, "\n"); `acc` is the line so far.
unfoldable pub split_from : Text → Text → List Text
split_from acc [] = acc ∷ []
split_from acc (c ∷ rest) =
    let next = split_from [] rest in
    let same = split_from (acc ++ c ∷ []) rest in if c == 10 then acc ∷ next else same

-- strings.TrimSuffix(text, "\n")
unfoldable pub trim_newline : Text → Text
trim_newline [] = []
trim_newline (c ∷ []) = if c == 10 then [] else c ∷ []
trim_newline (c ∷ (d ∷ rest)) = c ∷ trim_newline (d ∷ rest)

split_trimmed : Text → List Text
unfolding split_from
split_trimmed [] = [] ∷ []
split_trimmed (c ∷ rest) = split_from [] (c ∷ rest)

split_normalized : Text → List Text
unfolding split_trimmed trim_newline
split_normalized [] = []
split_normalized (c ∷ rest) = split_trimmed (trim_newline (c ∷ rest))

unfoldable pub split_lines : Text → List Text
unfolding split_normalized normalize_edit_text
split_lines t = split_normalized (normalize_edit_text t)

abbrev pub default_read_line_limit : ℕ
default_read_line_limit = 200

pub record LineNumber : Type 0 where
  pub value : ℤ
  pub end : Bool

pub data RangeError : Type 0 where
  start_exceeds end_before_start line_below_one file_empty range_exceeds : RangeError

pub data RangeResult : Type 0 where
  range : ℕ → ℕ → Bool → RangeResult
  bad_range : RangeError → RangeResult

-- The end of the range, after the start is settled: the requested one, the last line, or the
-- default number of lines.
clip : ℕ → ℕ → ℕ → Bool → Bool → RangeResult
clip total start end is_end truncated =
    let last = if ltb total end then total else end in
    if ltb last start
    then bad_range end_before_start
    else if not is_end && ltb default_read_line_limit (last - start + 1)
    then range start (start + default_read_line_limit - 1) true
    else range start last truncated

unfoldable pub normalize_read_range : ℕ → ℤ → LineNumber → RangeResult
unfolding clip
normalize_read_range total start end_line =
    let first = if pos_part start == 0 then 1 else pos_part start in
    let window = first + default_read_line_limit - 1 in
    if total == 0
    then range 1 0 false
    else if ltb total first
    then bad_range start_exceeds
    else if end_line.end
    then clip total first total true false
    else if pos_part end_line.value == 0
    then clip total first window false (ltb window total)
    else clip total first (pos_part end_line.value) false false

unfoldable pub normalize_grep_context_lines : ℤ → ℕ
normalize_grep_context_lines (negsuc n) = 0
normalize_grep_context_lines (pos n) = if n == 0 then 2 else if ltb 20 n then 20 else n

unfoldable pub normalize_max_matches : ℤ → ℕ
normalize_max_matches (negsuc n) = 20
normalize_max_matches (pos n) = if n == 0 then 20 else if ltb 100 n then 100 else n

unfoldable pub normalize_context_lines : ℤ → ℕ
normalize_context_lines (negsuc n) = 0
normalize_context_lines (pos n) = if n == 0 then 3 else if ltb 20 n then 20 else n

-- `end < start`, once `start` is positive.
unfoldable pub validate_line_range : ℕ → ℤ → ℤ → Option RangeError
validate_line_range total start end =
    if pos_part start == 0
    then some line_below_one
    else if ltb (pos_part end) (pos_part start)
    then some end_before_start
    else if total == 0
    then some file_empty
    else if ltb total (pos_part start) || ltb total (pos_part end)
    then some range_exceeds
    else none
