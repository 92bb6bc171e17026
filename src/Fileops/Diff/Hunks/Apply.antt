-- ===== src/Fileops/Diff/Hunks/Apply.antt =====
-- Applying hunks to a file, as `place` does, and what operations make of a file
-- (internal/fileops/diff.go).
use elbot.Base.{
  ℕ, ◌+◌, ◌-◌, ◌≡◌, refl, ap, ◌∙◌, ◌&&◌, Option, none, some, List, [], ◌∷◌, ◌++◌, Text, drop, take,
  length, leb, ◌==◌, if◌then◌else◌, text_eq, text_eq_iff, arith,
}
use elbot.Fileops.Diff.{
  DiffKind, diff_equal, diff_delete, diff_insert, DiffOp, DiffHunk, advance, diff_hunk_counts,
}
use elbot.Fileops.Diff.Script.{old_side, new_side, old_line, new_line}

-- One operation on the lines left: what it prints, where the line that it names is there.
patch_op : DiffKind → Text → List Text → Option (List Text × List Text)
patch_op diff_insert t old = some (t ∷ [], old)
patch_op k t [] = none
patch_op diff_equal t (x ∷ old) = if text_eq x t then some (t ∷ [], old) else none
patch_op diff_delete t (x ∷ old) = if text_eq x t then some ([], old) else none

-- The operations of a hunk: the new lines, and the old lines behind.
pub patch_ops : List DiffOp → List Text → Option (List Text × List Text)
unfolding patch_op
patch_ops [] old = some ([], old)
patch_ops (op ∷ ops) old = elim (patch_op op.kind op.text old) [
  | none ↦ none
  | some (out, rest) ↦ elim (patch_ops ops rest) [
    | none ↦ none
    | some (more, behind) ↦ some (out ++ more, behind)
  ]
]

-- The hunks from the line numbers `old_pos` and `new_pos` on, with the old lines from there. A hunk
-- stands at its numbers, in both files, and moves them on by its counts.
unfoldable pub place : ℕ → ℕ → List DiffHunk → List Text → Option (List Text)
unfolding patch_ops
place old_pos new_pos [] old = some old
place old_pos new_pos (h ∷ hunks) old =
    let skip = h.old_start - old_pos in
    let (old_count, new_count) = diff_hunk_counts h.ops in
    if leb old_pos h.old_start && new_pos + skip == h.new_start
    then elim (patch_ops h.ops (drop skip old)) [
      | none ↦ none
      | some (out, rest) ↦
          elim (place (h.old_start + old_count) (h.new_start + new_count) hunks rest) [
            | none ↦ none
            | some tail ↦ some (take skip old ++ (out ++ tail))
          ]
    ]
    else none

-- Where a hunk stands by the unified format: the number of a side without lines is that of the line in
-- front of it.
unfoldable pub positioned : DiffHunk → DiffHunk
positioned h = record h {
  old_start = if (diff_hunk_counts h.ops).0 == 0 then h.old_start + 1 else h.old_start;
  new_start = if (diff_hunk_counts h.ops).1 == 0 then h.new_start + 1 else h.new_start;
}

unfoldable pub positioned_all : List DiffHunk → List DiffHunk
unfolding positioned
positioned_all [] = []
positioned_all (h ∷ hunks) = positioned h ∷ positioned_all hunks

-- A patch with hunks in the unified format.
unfoldable pub patch : List DiffHunk → List Text → Option (List Text)
unfolding place positioned_all
patch hunks old = place 1 1 (positioned_all hunks) old

patch_op-line :
    (k : DiffKind) (t : Text) (old : List Text)
    → patch_op k t (old_line k t old) ≡ some (new_line k t [], old)
unfolding patch_op
patch_op-line diff_equal t old = ground (arith, text_eq_iff t t)
patch_op-line diff_delete t old = ground (arith, text_eq_iff t t)
patch_op-line diff_insert t [] = refl
patch_op-line diff_insert t (x ∷ old) = refl

pub old_line-append :
    (k : DiffKind) (t : Text) (l r : List Text) → old_line k t l ++ r ≡ old_line k t (l ++ r)
old_line-append diff_equal t l r = refl
old_line-append diff_delete t l r = refl
old_line-append diff_insert t l r = refl

pub new_line-append :
    (k : DiffKind) (t : Text) (l r : List Text) → new_line k t l ++ r ≡ new_line k t (l ++ r)
new_line-append diff_equal t l r = refl
new_line-append diff_delete t l r = refl
new_line-append diff_insert t l r = refl

patch_ops-cons :
    (op : DiffOp) (ops : List DiffOp) (old out rest more behind : List Text)
    → patch_op op.kind op.text old ≡ some (out, rest)
    → patch_ops ops rest ≡ some (more, behind)
    → patch_ops (op ∷ ops) old ≡ some (out ++ more, behind)
unfolding patch_ops
patch_ops-cons op ops old out rest more behind p q = ground (arith, p, q)

-- Operations apply to their old side, whatever stands behind it.
pub patch_ops-old_side :
    (ops : List DiffOp) (behind : List Text)
    → patch_ops ops (old_side ops ++ behind) ≡ some (new_side ops, behind)
unfolding patch_ops old_side new_side
patch_ops-old_side [] behind = refl
patch_ops-old_side (op ∷ ops) behind =
    patch_ops-cons op ops _ (new_line op.kind op.text []) (old_side ops ++ behind) (new_side ops)
      behind
      (ap (patch_op op.kind op.text) (old_line-append op.kind op.text (old_side ops) behind)
        ∙ patch_op-line op.kind op.text (old_side ops ++ behind))
      (patch_ops-old_side ops behind)
    ∙ ap (λ l. some (l, behind)) (new_line-append op.kind op.text [] (new_side ops))

-- The line numbers move on by the lines of both sides.
advance_kind :
    (k : DiffKind) (t : Text) (ops : List DiffOp) (n m : ℕ)
    → ((i j : ℕ) → advance ops i j ≡ (i + length (old_side ops), j + length (new_side ops)))
    → elim k [
      | diff_equal ↦ advance ops (n + 1) (m + 1)
      | diff_delete ↦ advance ops (n + 1) m
      | diff_insert ↦ advance ops n (m + 1)
    ]
      ≡ (n + length (old_line k t (old_side ops)), m + length (new_line k t (new_side ops)))
advance_kind diff_equal t ops n m ih = ground (arith, ih (n + 1) (m + 1))
advance_kind diff_delete t ops n m ih = ground (arith, ih (n + 1) m)
advance_kind diff_insert t ops n m ih = ground (arith, ih n (m + 1))

pub advance-sides :
    (ops : List DiffOp) (n m : ℕ)
    → advance ops n m ≡ (n + length (old_side ops), m + length (new_side ops))
unfolding advance old_side new_side
advance-sides [] n m = ground arith
advance-sides (op ∷ ops) n m = advance_kind op.kind op.text ops n m (advance-sides ops)

pub drop_append : {A : Type 0} (o l : List A) → drop (length o) (o ++ l) ≡ l
drop_append [] l = refl
drop_append (x ∷ o) l = drop_append o l

pub take_append : {A : Type 0} (o l : List A) → take (length o) (o ++ l) ≡ o
take_append [] l = refl
take_append (x ∷ o) l = ap (λ r. x ∷ r) (take_append o l)
