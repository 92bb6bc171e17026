-- ===== src/Fileops/Edit/Resolve.antt =====
-- From an edit to byte ranges of the original text (internal/fileops/edit.go).
pub mod Scan
use elbot.Base.{
  ℕ, zero, suc, ◌+◌, ◌-◌, Bool, true, false, not, ◌&&◌, ◌||◌, Option, none, some, List, [], ◌∷◌,
  ◌++◌, Text, if◌then◌else◌, ltb, leb, ◌==◌, ℤ, pos, pos_part, is_zero, is_empty, length, take,
  drop, get_elem?,
}
use elbot.Fileops.Lines.{
  normalize_edit_text, ensure_trailing_newline, split_lines, ends_with_newline, validate_line_range,
}
use elbot.Fileops.Match.{
  MatchLocation, EditSourceLine, Selected, selected, select_error, find_content_matches,
  find_line_matches, select_matches,
}
use elbot.Fileops.Edit.{
  Edit, Operation, replace_text, replace, insert, delete, insert_before, insert_after, replace_line,
  delete_line, overwrite, missing, unsupported, EditError, bad_lines, bad_match, empty_block,
  insert_beyond, slice_panic, unsupported_operation, new_text_required, validate_edit_fields,
}

pub record ResolvedEdit : Type 0 where
  pub start : ℕ
  pub end : ℕ
  pub content : Text
  pub order : ℕ

pub data Result {ℓ} (A : Type ℓ) : Type ℓ where
  ok : A → Result A
  err : EditError → Result A

infixl 5 ◌>>=◌
abbrev pub ◌>>=◌ {ℓ κ} : {A : Type ℓ} {B : Type κ} → Result A → (A → Result B) → Result B
ok a >>= f = f a
err e >>= f = err e

-- A slice index out of range is a panic of the source.
abbrev pub or_panic {ℓ} : {A : Type ℓ} → Option A → Result A
or_panic none = err slice_panic
or_panic (some a) = ok a

abbrev pub guard_none : Option EditError → Result (Unit {0})
guard_none none = ok tt
guard_none (some e) = err e

-- strings.IndexByte(text, '\n')
unfoldable pub index_newline : Text → Option ℕ
index_newline [] = none
index_newline (c ∷ s) =
    let rest = index_newline s in
    if c == 10 then some 0 else elim rest [ none ↦ none | some i ↦ some (suc i) ]

-- The loop of scanEditLines; each line takes a byte at least, so the fuel is enough.
unfoldable pub scan_from : ℕ → Text → ℕ → List EditSourceLine
unfolding index_newline
scan_from zero text start = []
scan_from (suc fuel) text start =
    let more = λ (rel : ℕ). scan_from fuel text (start + rel + 1) in
    if not (ltb start (length text)) then [] else elim (index_newline (drop start text)) [
      | none ↦
          record {
            start = start;
            end = length text;
            full_end = length text;
            content = drop start text;
          }
          ∷ []
      | some rel ↦
          record {
            start = start;
            end = start + rel;
            full_end = start + rel + 1;
            content = take rel (drop start text);
          }
          ∷ more rel
    ]

unfoldable pub scan_edit_lines : Text → List EditSourceLine
scan_edit_lines text = scan_from (suc (length text)) text 0

-- strings.Join(lines, "\n")
join_lines : List Text → Text
join_lines [] = []
join_lines (l ∷ []) = l
join_lines (l ∷ (k ∷ rest)) = l ++ 10 ∷ join_lines (k ∷ rest)

unfoldable pub normalize_line_block : Text → Result Text
unfolding join_lines
normalize_line_block text =
    let lines = split_lines (ensure_trailing_newline text) in
    if is_empty lines then err empty_block else ok (join_lines lines)

-- `lines[line-1]`
abbrev pub line_at : List EditSourceLine → ℕ → Result EditSourceLine
line_at lines n = or_panic (get_elem? lines (n - 1))

unfoldable pub resolve_line_insert : Text → List EditSourceLine → ℤ → Text → Result (ℕ × Text)
resolve_line_insert text lines line block =
    let n = pos_part line in
    let total = length lines in
    if n == 0 || ltb (total + 1) n
    then err insert_beyond
    else if total == 0
    then ok (0, block)
    else if leb n total
    then (line_at lines n >>= λ l. ok (l.start, block ++ 10 ∷ []))
    else if ends_with_newline text
    then ok (length text, block ++ 10 ∷ [])
    else ok (length text, 10 ∷ block)

-- The last line, where it has no newline, goes with the newline before it.
unfoldable pub line_delete_range : List EditSourceLine → ℕ → ℕ → Result (ℕ × ℕ)
line_delete_range lines start_line end_line = do
  first ← line_at lines start_line
  last ← line_at lines end_line
  if end_line == length lines && last.full_end == last.end && ltb 1 start_line
      then (line_at lines (start_line - 1) >>= λ before. ok (before.end, last.full_end))
      else ok (first.start, last.full_end)

abbrev pub edit_at : ℕ → ℕ → Text → ResolvedEdit
edit_at start end t = record { start = start; end = end; content = t; order = 0 }

abbrev pub required : Option Text → Result Text
required none = err slice_panic
required (some t) = ok t

abbrev chosen : Selected → Result (List MatchLocation)
chosen (selected l) = ok l
chosen (select_error e) = err (bad_match e)

abbrev guard_range : ℕ → ℤ → ℤ → Result (Unit {0})
guard_range total start end = elim (validate_line_range total start end) [
  | none ↦ ok tt
  | some e ↦ err (bad_lines e)
]

abbrev last_line : Edit → ℤ
last_line e = if is_zero e.end_line then e.line else e.end_line

replacements : Text → List MatchLocation → List ResolvedEdit
replacements t [] = []
replacements t (l ∷ rest) = edit_at l.byte_start l.byte_end t ∷ replacements t rest

-- One location of an edit by anchor.
resolve_anchor : Operation → List EditSourceLine → Text → MatchLocation → Result ResolvedEdit
unfolding line_delete_range
resolve_anchor insert_before lines block l = or_panic (get_elem? lines l.line_index) >>= λ line.
    ok (edit_at line.start line.start (block ++ 10 ∷ []))
resolve_anchor insert_after lines block l = or_panic (get_elem? lines l.line_index) >>= λ line.
    if ltb line.end line.full_end
    then ok (edit_at line.full_end line.full_end (block ++ 10 ∷ []))
    else ok (edit_at line.end line.end (10 ∷ block))
resolve_anchor replace_line lines block l =
    or_panic (get_elem? lines l.line_index) >>= λ line. ok (edit_at line.start line.end block)
resolve_anchor _ lines block l = or_panic (get_elem? lines l.line_index) >>= λ line.
    line_delete_range lines (l.line_index + 1) (l.line_index + 1) >>= λ r. ok (edit_at r.0 r.1 [])

resolve_anchors :
    Operation → List EditSourceLine → Text → List MatchLocation → Result (List ResolvedEdit)
resolve_anchors op lines block [] = ok []
resolve_anchors op lines block (l ∷ rest) =
    let more = resolve_anchors op lines block rest in
    resolve_anchor op lines block l >>= λ e. more >>= λ es. ok (e ∷ es)

resolve_by_anchor : Operation → List EditSourceLine → Edit → Result (List ResolvedEdit)
resolve_by_anchor op lines e = do
  locations ← chosen (
      select_matches (find_line_matches lines (normalize_edit_text e.anchor)) e.index e.all_matches)
  t ← required e.new_text
  block ← normalize_line_block t
  resolve_anchors op lines block locations

resolve : Text → List EditSourceLine → Edit → Operation → Result (List ResolvedEdit)
unfolding replacements resolve_anchors resolve_by_anchor resolve_anchor
resolve text lines e replace_text = do
  locations ← chosen (
      select_matches (find_content_matches text (normalize_edit_text e.old_text)) e.index
        e.all_matches)
  t ← required e.new_text
  ok (replacements (normalize_edit_text t) locations)
resolve text lines e replace = do
  _ ← guard_range (length lines) e.line (last_line e)
  r ← line_delete_range lines (pos_part e.line) (pos_part (last_line e))
  t ← required e.new_text
  ok (edit_at r.0 r.1 (normalize_edit_text t) ∷ [])
resolve text lines e insert = do
  t ← required e.new_text
  block ← normalize_line_block t
  r ← resolve_line_insert text lines e.line block
  ok (edit_at r.0 r.0 r.1 ∷ [])
resolve text lines e delete = do
  _ ← guard_range (length lines) e.line (last_line e)
  r ← line_delete_range lines (pos_part e.line) (pos_part (last_line e))
  ok (edit_at r.0 r.1 [] ∷ [])
resolve text lines e insert_before = resolve_by_anchor insert_before lines e
resolve text lines e insert_after = resolve_by_anchor insert_after lines e
resolve text lines e replace_line = resolve_by_anchor replace_line lines e
resolve text lines e delete_line = do
  locations ← chosen (
      select_matches (find_line_matches lines (normalize_edit_text e.anchor)) e.index e.all_matches)
  resolve_anchors delete_line lines [] locations
resolve text lines e _ = err unsupported_operation

unfoldable pub resolve_edit :
    Text → List EditSourceLine → Edit → Operation → Result (List ResolvedEdit)
unfolding resolve
resolve_edit text lines e operation = do
  _ ← guard_none (validate_edit_fields e operation)
  resolve text lines e operation
