-- ===== src/Fileops/Diff/Script.antt =====
-- The script of a diff reads back as both files (internal/fileops/diff.go).
use elbot.Base.{ℕ, ◌+◌, ◌≡◌, refl, ap, List, [], ◌∷◌, Text, text_eq_iff, arith}
use elbot.Fileops.Diff.{
  DiffKind, diff_equal, diff_delete, diff_insert, DiffOp, walk, dp_table, diff_lines,
}

abbrev pub old_line : DiffKind → Text → List Text → List Text
old_line diff_equal t rest = t ∷ rest
old_line diff_delete t rest = t ∷ rest
old_line diff_insert t rest = rest

abbrev pub new_line : DiffKind → Text → List Text → List Text
new_line diff_equal t rest = t ∷ rest
new_line diff_delete t rest = rest
new_line diff_insert t rest = t ∷ rest

-- The lines that a script keeps or deletes: the old file.
unfoldable pub old_side : List DiffOp → List Text
old_side [] = []
old_side (op ∷ ops) = old_line op.kind op.text (old_side ops)

-- The lines that it keeps or inserts: the new file.
unfoldable pub new_side : List DiffOp → List Text
new_side [] = []
new_side (op ∷ ops) = new_line op.kind op.text (new_side ops)

walk-old_side : (dp : List (List ℕ)) (i j : ℕ) (a b : List Text) → old_side (walk dp i j a b) ≡ a
unfolding walk old_side
walk-old_side dp i j [] [] = refl
walk-old_side dp i j [] (y ∷ b) = walk-old_side dp i (j + 1) [] b
walk-old_side dp i j (x ∷ a) [] = ap (λ l. x ∷ l) (walk-old_side dp (i + 1) j a [])
walk-old_side dp i j (x ∷ a) (y ∷ b) = ground (
  arith,
  walk-old_side dp (i + 1) (j + 1) a b,
  walk-old_side dp (i + 1) j a (y ∷ b),
  walk-old_side dp i (j + 1) (x ∷ a) b,
)

walk-new_side : (dp : List (List ℕ)) (i j : ℕ) (a b : List Text) → new_side (walk dp i j a b) ≡ b
unfolding walk new_side
walk-new_side dp i j [] [] = refl
walk-new_side dp i j [] (y ∷ b) = ap (λ l. y ∷ l) (walk-new_side dp i (j + 1) [] b)
walk-new_side dp i j (x ∷ a) [] = walk-new_side dp (i + 1) j a []
walk-new_side dp i j (x ∷ a) (y ∷ b) = ground (
  arith,
  text_eq_iff x y,
  walk-new_side dp (i + 1) (j + 1) a b,
  walk-new_side dp (i + 1) j a (y ∷ b),
  walk-new_side dp i (j + 1) (x ∷ a) b,
)

-- The script of a diff keeps and deletes exactly the old lines, and keeps and inserts exactly the new
-- ones, each in their order.
pub diff_lines-sides :
    (a b : List Text) → (old_side (diff_lines a b) ≡ a) × (new_side (diff_lines a b) ≡ b)
unfolding diff_lines
diff_lines-sides a b = (walk-old_side (dp_table a b) 0 0 a b, walk-new_side (dp_table a b) 0 0 a b)
