-- ===== src/Fileops/Examples.antt =====
-- Edits and ranges on concrete inputs (internal/fileops).
use elbot.Base.{
  ℕ, ◌+◌, ◌≤◌, ◌<◌, ◌≡◌, ◌↔◌, refl, Text, Bool, true, false, Option, none, some, List, [], ◌∷◌,
  codes, arith, ℤ, pos, pos_part, length, if◌then◌else◌,
}
use elbot.Fileops.Lines.{
  LineNumber, normalize_edit_text, contains_cr, restore_line_endings, detect_line_ending,
}
use elbot.Fileops.Lines.Endings.{normalize-restore}
use elbot.Fileops.Edit.{Edit, overlap}
use elbot.Fileops.Edit.Resolve.{ResolvedEdit, Result, ok, err, scan_edit_lines}
use elbot.Fileops.Edit.Resolve.Scan.{Tiles, untile, scan_edit_lines-Tiles}
use elbot.Fileops.Edit.Apply.{finish_edits, validate_resolved_edits, sort_edits, apply_edits}
use elbot.Fileops.Edit.Apply.Splice.{spliced, finish_edits-spliced}

abbrev two_lines : Text
two_lines = codes "one\ntwo\n"

abbrev mixed : Text
mixed = 97 ∷ (13 ∷ (10 ∷ (98 ∷ (13 ∷ []))))

abbrev clean : Text
clean = 97 ∷ (10 ∷ (98 ∷ []))

-- Replace the second line's text and insert in front of the first.
abbrev batch : List ResolvedEdit
batch =
    record { start = 0; end = 0; content = codes "zero\n"; order = 0 }
    ∷ (record { start = 4; end = 7; content = codes "2"; order = 1 } ∷ [])

normalize-restore_example :
    normalize_edit_text (restore_line_endings clean (detect_line_ending mixed)) ≡ clean
unfolding contains_cr
normalize-restore_example = normalize-restore clean mixed refl

abbrev to_end : LineNumber
to_end = record { value = pos 0; end = true }

scan_edit_lines-Tiles_example :
    Tiles 0 (length two_lines) (scan_edit_lines two_lines)
    × (untile (scan_edit_lines two_lines) ≡ two_lines)
scan_edit_lines-Tiles_example = scan_edit_lines-Tiles two_lines

finish_edits-spliced_example : finish_edits two_lines batch ≡ (
    if validate_resolved_edits batch
    then ok (spliced two_lines (length two_lines) (sort_edits batch))
    else err overlap)
finish_edits-spliced_example = finish_edits-spliced two_lines batch (omega arith)

batch_applied : finish_edits two_lines batch ≡ ok (codes "zero\none\n2\n")
unfolding finish_edits validate_resolved_edits sort_edits elbot.Fileops.Edit.Apply.apply_each
batch_applied = refl

abbrev replace_two : Edit
replace_two = record {
  operation = codes " Replace_Text ";
  line = pos 0;
  end_line = pos 0;
  new_text = some (codes "2");
  old_text = codes "two";
  anchor = [];
  index = none;
  all_matches = false;
}

edits_applied : apply_edits two_lines (replace_two ∷ []) ≡ ok (codes "one\n2\n")
unfolding apply_edits elbot.Fileops.Edit.is_overwrite_word elbot.Base.trim_space
    elbot.Fileops.Edit.Apply.resolve_edits elbot.Fileops.Edit.parse_operation elbot.Base.to_lower
    elbot.Fileops.Edit.Resolve.resolve_edit elbot.Fileops.Edit.validate_edit_fields
    normalize_edit_text elbot.Fileops.Match.select_matches elbot.Fileops.Match.find_content_matches
    finish_edits validate_resolved_edits elbot.Fileops.Edit.Apply.apply_each sort_edits
edits_applied = refl
