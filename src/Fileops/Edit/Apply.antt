-- ===== src/Fileops/Edit/Apply.antt =====
-- Checking and applying a resolved batch (internal/fileops/edit.go).
pub mod Order
pub mod Splice
use elbot.Base.{
  ℕ, zero, suc, ◌+◌, ◌-◌, Bool, true, false, not, ◌&&◌, ◌||◌, Option, none, some, List, [], ◌∷◌,
  ◌++◌, Text, if◌then◌else◌, ltb, leb, ◌==◌, is_empty, is_some, length, take, drop, codes, text_eq,
}
use elbot.Fileops.Lines.{normalize_edit_text}
use elbot.Fileops.Match.{EditSourceLine}
use elbot.Fileops.Edit.{
  Edit, Operation, overwrite, EditError, edits_required, overwrite_alone, overlap, parse_operation,
  is_overwrite_word, validate_edit_fields,
}
use elbot.Fileops.Edit.Resolve.{
  ResolvedEdit, Result, ok, err, ◌>>=◌, guard_none, required, resolve_edit, scan_edit_lines,
}

abbrev pub is_insert : ResolvedEdit → Bool
is_insert e = e.start == e.end

-- The three cases of the switch in validateResolvedEdits.
unfoldable pub conflicts : ResolvedEdit → ResolvedEdit → Bool
conflicts a b =
    not (is_insert a) && not (is_insert b) && ltb a.start b.end && ltb b.start a.end
    || is_insert a && not (is_insert b) && ltb b.start a.start && ltb a.start b.end
    || is_insert b && not (is_insert a) && ltb a.start b.start && ltb b.start a.end

unfoldable pub conflicts_any : ResolvedEdit → List ResolvedEdit → Bool
unfolding conflicts
conflicts_any a [] = false
conflicts_any a (b ∷ rest) = conflicts a b || conflicts_any a rest

unfoldable pub validate_resolved_edits : List ResolvedEdit → Bool
unfolding conflicts_any
validate_resolved_edits [] = true
validate_resolved_edits (a ∷ rest) = not (conflicts_any a rest) && validate_resolved_edits rest

-- The comparison of sort.SliceStable: later ranges first, at one start the replacements before the
-- insertions, and of two equal ones the later first.
unfoldable pub before : ResolvedEdit → ResolvedEdit → Bool
before a b =
    if not (a.start == b.start)
    then ltb b.start a.start
    else if is_insert a && not (is_insert b)
    then false
    else if is_insert b && not (is_insert a)
    then true
    else ltb b.order a.order

-- A stable sort by `before`: an element goes in front of the first that does not come before it.
unfoldable pub insert_sorted : ResolvedEdit → List ResolvedEdit → List ResolvedEdit
unfolding before
insert_sorted e [] = e ∷ []
insert_sorted e (f ∷ rest) = if before f e then f ∷ insert_sorted e rest else e ∷ (f ∷ rest)

unfoldable pub sort_edits : List ResolvedEdit → List ResolvedEdit
unfolding insert_sorted
sort_edits [] = []
sort_edits (e ∷ rest) = insert_sorted e (sort_edits rest)

-- `out = out[:edit.start] + edit.text + out[edit.end:]`
unfoldable pub apply_each : Text → List ResolvedEdit → Text
apply_each out [] = out
apply_each out (e ∷ rest) = apply_each (take e.start out ++ (e.content ++ drop e.end out)) rest

number : ℕ → List ResolvedEdit → List ResolvedEdit
number n [] = []
number n (e ∷ rest) = record e { order = n } ∷ number (suc n) rest

abbrev is_overwrite : Operation → Bool
is_overwrite overwrite = true
is_overwrite _ = false

resolve_one : Text → List EditSourceLine → Edit → Operation → Result (List ResolvedEdit)
resolve_one text lines e operation =
    if is_overwrite operation then err overwrite_alone else resolve_edit text lines e operation

-- The loop over the edits; the orders are the positions in the whole list, numbered afterwards.
resolve_all : Text → List EditSourceLine → List Edit → Result (List ResolvedEdit)
unfolding resolve_one
resolve_all text lines [] = ok []
resolve_all text lines (e ∷ rest) =
    let more = resolve_all text lines rest in
    resolve_one text lines e (parse_operation e.operation) >>= λ items.
    more >>= λ r. ok (items ++ r)

unfoldable pub resolve_edits : Text → List Edit → Result (List ResolvedEdit)
unfolding resolve_all number
resolve_edits text edits = resolve_all text (scan_edit_lines text) edits >>= λ r. ok (number 0 r)

unfoldable pub finish_edits : Text → List ResolvedEdit → Result Text
finish_edits text resolved =
    if validate_resolved_edits resolved
    then ok (apply_each text (sort_edits resolved))
    else err overlap

overwrite_text : Edit → List Edit → Result Text
overwrite_text e rest =
    if not (is_empty rest)
    then err overwrite_alone
    else guard_none (validate_edit_fields e overwrite) >>= λ _.
        required e.new_text >>= λ t. ok (normalize_edit_text t)

unfoldable pub apply_edits : Text → List Edit → Result Text
unfolding overwrite_text
apply_edits text [] = err edits_required
apply_edits text (e ∷ rest) =
    let original = normalize_edit_text text in
    if is_overwrite_word e.operation
    then overwrite_text e rest
    else resolve_edits original (e ∷ rest) >>= λ resolved. finish_edits original resolved
