-- ===== src/Fileops/Edit.antt =====
-- Edit batches: fields, resolution and application (internal/fileops/edit.go).
pub mod Resolve
pub mod Apply
use elbot.Base.{
  ℕ, zero, suc, ◌+◌, ◌-◌, Bool, true, false, not, ◌&&◌, ◌||◌, Option, none, some, List, [], ◌∷◌,
  ◌++◌, Text, String, if◌then◌else◌, ltb, leb, ◌==◌, ℤ, pos, pos_part, is_zero, is_empty, is_some,
  codes, text_eq, trim_space, to_lower,
}
use elbot.Fileops.Lines.{normalize_edit_text, RangeError}
use elbot.Fileops.Match.{SelectError}

-- `operation` is a word, held by its code points; the other texts are held by their bytes.
pub record Edit : Type 0 where
  pub operation : Text
  pub line : ℤ
  pub end_line : ℤ
  pub new_text : Option Text
  pub old_text : Text
  pub anchor : Text
  pub index : Option ℤ
  pub all_matches : Bool

pub data Operation : Type 0 where
  replace_text replace insert delete insert_before insert_after replace_line delete_line : Operation
  overwrite missing : Operation
  unsupported : Text → Operation

-- `strings.ToLower(strings.TrimSpace(edit.Operation))`, as the switches on it read it.
unfoldable pub parse_operation : Text → Operation
parse_operation s =
    let w = to_lower (trim_space s) in
    if text_eq w (codes "replace_text")
    then replace_text
    else if text_eq w (codes "replace")
    then replace
    else if text_eq w (codes "insert")
    then insert
    else if text_eq w (codes "delete")
    then delete
    else if text_eq w (codes "insert_before")
    then insert_before
    else if text_eq w (codes "insert_after")
    then insert_after
    else if text_eq w (codes "replace_line")
    then replace_line
    else if text_eq w (codes "delete_line")
    then delete_line
    else if text_eq w (codes "overwrite")
    then overwrite
    else if is_empty w
    then missing
    else unsupported w

-- strings.EqualFold(word, "overwrite"): no letter of it folds beyond ASCII.
fold_rune : ℕ → ℕ
fold_rune c = if leb b'A' c && leb c b'Z' then c + 32 else c

fold_eq : Text → Text → Bool
unfolding fold_rune
fold_eq [] [] = true
fold_eq [] (d ∷ t) = false
fold_eq (c ∷ s) [] = false
fold_eq (c ∷ s) (d ∷ t) = fold_rune c == d && fold_eq s t

unfoldable pub is_overwrite_word : Text → Bool
unfolding fold_eq
is_overwrite_word s = fold_eq (trim_space s) (codes "overwrite")

abbrev needs_revision : Operation → Bool
needs_revision replace = true
needs_revision insert = true
needs_revision delete = true
needs_revision overwrite = true
needs_revision _ = false

unfoldable pub edits_require_revision : List Edit → Bool
edits_require_revision [] = false
edits_require_revision (e ∷ rest) =
    needs_revision (parse_operation e.operation) || edits_require_revision rest

-- The white space of UTF-8 text, for `strings.TrimSpace(edit.Anchor) != ""`: the bytes of a text
-- that is nothing but white space.
unfoldable pub is_blank : Text → Bool
is_blank [] = true
is_blank (a ∷ []) = leb 9 a && leb a 13 || a == 32
is_blank (a ∷ (b ∷ [])) =
    let tail = is_blank (b ∷ []) in
    if leb 9 a && leb a 13 || a == 32 then tail else a == 0xc2 && (b == 0x85 || b == 0xa0)
is_blank (a ∷ (b ∷ (c ∷ rest))) =
    let one = is_blank (b ∷ (c ∷ rest)) in
    let two = is_blank (c ∷ rest) in
    let three = is_blank rest in
    if leb 9 a && leb a 13 || a == 32
    then one
    else if a == 0xc2 && (b == 0x85 || b == 0xa0)
    then two
    else if a == 0xe1 && b == 0x9a && c == 0x80
        || a == 0xe2
          && b == 0x80
          && (leb 0x80 c && leb c 0x8a || c == 0xa8 || c == 0xa9 || c == 0xaf)
        || a == 0xe2 && b == 0x81 && c == 0x9f
        || a == 0xe3 && b == 0x80 && c == 0x80
    then three
    else false

pub data EditError : Type 0 where
  edits_required overwrite_alone operation_required index_and_all unused_lines unused_matches :
      EditError
  old_text_required new_text_required anchor_required anchor_multiline line_below_one : EditError
  foreign_fields unsupported_operation empty_block insert_beyond overlap : EditError
  slice_panic : EditError
  bad_lines : RangeError → EditError
  bad_match : SelectError → EditError

-- `rejectLineFields` and `rejectMatchFields`
abbrev reject_line_fields : Edit → Option EditError
reject_line_fields e =
    if not (is_zero e.line) || not (is_zero e.end_line) then some unused_lines else none

abbrev reject_match_fields : Edit → Option EditError
reject_match_fields e = if is_some e.index || e.all_matches then some unused_matches else none

contains_newline : Text → Bool
contains_newline [] = false
contains_newline (c ∷ s) = c == 10 || contains_newline s

validate_anchor : Edit → Text → Bool → Option EditError
unfolding contains_newline
validate_anchor e anchor deletes =
    if is_empty anchor
    then some anchor_required
    else if contains_newline anchor
    then some anchor_multiline
    else if not (is_empty e.old_text)
    then some foreign_fields
    else if is_some (reject_line_fields e)
    then reject_line_fields e
    else if deletes
    then (if is_some e.new_text then some foreign_fields else none)
    else if not (is_some e.new_text)
    then some new_text_required
    else none

validate_fields : Edit → Operation → Option EditError
unfolding validate_anchor is_blank
validate_fields e replace_text =
    if is_empty (normalize_edit_text e.old_text)
    then some old_text_required
    else if not (is_some e.new_text)
    then some new_text_required
    else if not (is_blank e.anchor)
    then some foreign_fields
    else reject_line_fields e
validate_fields e replace =
    if pos_part e.line == 0
    then some line_below_one
    else if not (is_some e.new_text)
    then some new_text_required
    else if not (is_empty e.old_text) || not (is_empty e.anchor)
    then some foreign_fields
    else reject_match_fields e
validate_fields e insert =
    if pos_part e.line == 0
    then some line_below_one
    else if not (is_zero e.end_line) || not (is_empty e.old_text) || not (is_empty e.anchor)
    then some foreign_fields
    else if not (is_some e.new_text)
    then some new_text_required
    else reject_match_fields e
validate_fields e delete =
    if pos_part e.line == 0
    then some line_below_one
    else if is_some e.new_text || not (is_empty e.old_text) || not (is_empty e.anchor)
    then some foreign_fields
    else reject_match_fields e
validate_fields e insert_before = validate_anchor e (normalize_edit_text e.anchor) false
validate_fields e insert_after = validate_anchor e (normalize_edit_text e.anchor) false
validate_fields e replace_line = validate_anchor e (normalize_edit_text e.anchor) false
validate_fields e delete_line = validate_anchor e (normalize_edit_text e.anchor) true
validate_fields e overwrite =
    if not (is_some e.new_text)
    then some new_text_required
    else if not (is_zero e.line)
        || not (is_zero e.end_line)
        || not (is_empty e.old_text)
        || not (is_empty e.anchor)
        || is_some e.index
        || e.all_matches
    then some foreign_fields
    else none
validate_fields e missing = some operation_required
validate_fields e (unsupported w) = some unsupported_operation

abbrev is_missing : Operation → Bool
is_missing missing = true
is_missing _ = false

unfoldable pub validate_edit_fields : Edit → Operation → Option EditError
unfolding validate_fields
validate_edit_fields e operation =
    if is_missing operation
    then some operation_required
    else if is_some e.index && e.all_matches
    then some index_and_all
    else validate_fields e operation
