-- ===== src/Fileops/Diff/Minimal.antt =====
-- The table holds the lengths of the longest common subsequences, so the script of a diff is shortest
-- (internal/fileops/diff.go).
use elbot.Base.{
  ℕ, zero, suc, ◌+◌, ◌≤◌, ◌≡◌, refl, sym, ap, ◌∙◌, List, [], ◌∷◌, Text, drop, if◌then◌else◌, leb,
  text_eq, text_eq_iff, arith, drop-drop, length,
}
use elbot.Fileops.Diff.{
  DiffKind, diff_equal, diff_delete, diff_insert, DiffOp, fill_row, zero_row, walk, dp_table,
  diff_lines, nth, nth_row, first, is_equal,
}
use elbot.Fileops.Diff.Script.{old_side, new_side, old_line, new_line, diff_lines-sides}

-- The length of a longest common subsequence, by the recursion that the table stores.
lcs : List Text → List Text → ℕ
lcs [] b = 0
lcs (x ∷ a) [] = 0
lcs (x ∷ a) (y ∷ b) =
    let same = lcs a b in
    let left = lcs a (y ∷ b) in
    let right = lcs (x ∷ a) b in
    if text_eq x y then same + 1 else (if leb right left then left else right)

lcs-nil : (a : List Text) → lcs a [] ≡ 0
unfolding lcs
lcs-nil [] = refl
lcs-nil (x ∷ a) = refl

nil-lcs : (b : List Text) → lcs [] b ≡ 0
unfolding lcs
nil-lcs b = refl

lcs_lem :
    (x : Text) (a : List Text) (y : Text) (b : List Text)
    → lcs (x ∷ a) (y ∷ b) ≡ (
        if text_eq x y
        then lcs a b + 1
        else (if leb (lcs (x ∷ a) b) (lcs a (y ∷ b)) then lcs a (y ∷ b) else lcs (x ∷ a) b))
unfolding lcs
lcs_lem x a y b = refl

-- The row of a suffix of the old file.
lcs_row : List Text → List Text → List ℕ
lcs_row a [] = 0 ∷ []
lcs_row a (y ∷ b) = lcs a (y ∷ b) ∷ lcs_row a b

first-lcs_row : (a b : List Text) → first (lcs_row a b) ≡ lcs a b
unfolding lcs_row
first-lcs_row a [] = sym (lcs-nil a)
first-lcs_row a (y ∷ b) = refl

zero_row-lcs_row : (b : List Text) → zero_row b ≡ lcs_row [] b
unfolding zero_row lcs_row lcs
zero_row-lcs_row [] = refl
zero_row-lcs_row (y ∷ b) = ap (λ l. 0 ∷ l) (zero_row-lcs_row b)

fill_row-lcs_row : (x : Text) (a b : List Text) → fill_row x b (lcs_row a b) ≡ lcs_row (x ∷ a) b
unfolding fill_row lcs_row lcs
fill_row-lcs_row x a [] = refl
fill_row-lcs_row x a (y ∷ b) =
    rw (fill_row-lcs_row x a b, first-lcs_row a b, first-lcs_row (x ∷ a) b)

nth_row-dp_table : (a b : List Text) → nth_row (dp_table a b) 0 ≡ lcs_row a b
unfolding dp_table
nth_row-dp_table [] b = zero_row-lcs_row b
nth_row-dp_table (x ∷ a) b = ap (fill_row x b) (nth_row-dp_table a b) ∙ fill_row-lcs_row x a b

nth-lcs_row : (a b : List Text) (j : ℕ) → nth (lcs_row a b) j ≡ lcs a (drop j b)
unfolding lcs_row
nth-lcs_row a [] zero = sym (lcs-nil a)
nth-lcs_row a [] (suc j) = sym (lcs-nil a)
nth-lcs_row a (y ∷ b) zero = refl
nth-lcs_row a (y ∷ b) (suc j) = nth-lcs_row a b j

-- What a read of the table gives.
nth-dp_table :
    (a b : List Text) (i j : ℕ) → nth (nth_row (dp_table a b) i) j ≡ lcs (drop i a) (drop j b)
unfolding dp_table
nth-dp_table a b zero j = rw (nth_row-dp_table a b) (nth-lcs_row a b j)
nth-dp_table [] b (suc i) j = sym (nil-lcs (drop j b))
nth-dp_table (x ∷ a) b (suc i) j = nth-dp_table a b i j

-- One more line on a side lengthens a common subsequence by one at most, and never shortens it.
record Close (a b : List Text) : Type 0 where
  grows_left : (x : Text) → lcs a b ≤ lcs (x ∷ a) b
  grows_right : (y : Text) → lcs a b ≤ lcs a (y ∷ b)
  one_left : (x : Text) → lcs (x ∷ a) b ≤ lcs a b + 1
  one_right : (y : Text) → lcs a (y ∷ b) ≤ lcs a b + 1

lcs-Close : (a b : List Text) → Close a b
lcs-Close [] b = record {
  grows_left = λ x. omega (arith, nil-lcs b);
  grows_right = λ y. omega (arith, nil-lcs b);
  one_left = one b;
  one_right = λ y. omega (arith, nil-lcs (y ∷ b));
}
  where
    one : (b : List Text) (x : Text) → lcs (x ∷ []) b ≤ lcs [] b + 1
    one [] x = omega (arith, lcs-nil (x ∷ []))
    one (y ∷ b) x = ground (arith, lcs_lem x [] y b, nil-lcs b, nil-lcs (y ∷ b), one b x)
lcs-Close (x ∷ a) [] =
    let c = lcs-Close a [] in
    record {
      grows_left = λ z. omega (arith, lcs-nil (x ∷ a));
      grows_right = λ y. omega (arith, lcs-nil (x ∷ a));
      one_left = λ z. omega (arith, lcs-nil (z ∷ (x ∷ a)));
      one_right = λ y. ground (arith, lcs_lem x a y [], c.one_right y, lcs-nil a, lcs-nil (x ∷ a));
    }
lcs-Close (x ∷ a) (y ∷ b) =
    let l = lcs-Close (x ∷ a) b in
    let r = lcs-Close a (y ∷ b) in
    record {
      grows_left = λ z. ground (arith, lcs_lem z (x ∷ a) y b, l.one_right y);
      grows_right = λ z. ground (arith, lcs_lem x a z (y ∷ b), r.one_left x);
      one_left = λ z. ground (arith, lcs_lem z (x ∷ a) y b, l.grows_right y, l.one_left z);
      one_right = λ z. ground (arith, lcs_lem x a z (y ∷ b), r.grows_left x, r.one_right z);
    }

-- How many lines a script keeps, and how many it changes.
unfoldable pub kept : List DiffOp → ℕ
unfolding is_equal
kept [] = 0
kept (op ∷ ops) = (if is_equal op.kind then 1 else 0) + kept ops

unfoldable pub changes : List DiffOp → ℕ
unfolding is_equal
changes [] = 0
changes (op ∷ ops) = (if is_equal op.kind then 0 else 1) + changes ops

kept_step :
    (k : DiffKind) (t : Text) (n : ℕ) (a b : List Text)
    → n ≤ lcs a b
    → (if is_equal k then 1 else 0) + n ≤ lcs (old_line k t a) (new_line k t b)
unfolding is_equal
kept_step diff_equal t n a b h = ground (arith, lcs_lem t a t b, text_eq_iff t t)
kept_step diff_delete t n a b h = omega (arith, (lcs-Close a b).grows_left t)
kept_step diff_insert t n a b h = omega (arith, (lcs-Close a b).grows_right t)

-- No script keeps more lines than a common subsequence of its sides has.
kept-le-lcs : (ops : List DiffOp) → kept ops ≤ lcs (old_side ops) (new_side ops)
unfolding kept old_side new_side
kept-le-lcs [] = omega arith
kept-le-lcs (op ∷ ops) =
    kept_step op.kind op.text (kept ops) (old_side ops) (new_side ops) (kept-le-lcs ops)

drop_next :
    {A : Type 0} (i : ℕ) (l : List A) (x : A) (r : List A) → drop i l ≡ x ∷ r → drop (i + 1) l ≡ r
drop_next i l x r e = sym (drop-drop 1 i l) ∙ ap (drop 1) e

-- The walk keeps as many lines as the table promises.
kept-walk :
    (a0 b0 : List Text) (i j : ℕ) (a b : List Text)
    → drop i a0 ≡ a
    → drop j b0 ≡ b
    → kept (walk (dp_table a0 b0) i j a b) ≡ lcs a b
unfolding walk kept is_equal
kept-walk a0 b0 i j [] [] p q = sym (nil-lcs [])
kept-walk a0 b0 i j [] (y ∷ b) p q =
    omega
      (arith, kept-walk a0 b0 i (j + 1) [] b p (drop_next j b0 y b q), nil-lcs b, nil-lcs (y ∷ b))
kept-walk a0 b0 i j (x ∷ a) [] p q =
    omega
      (arith, kept-walk a0 b0 (i + 1) j a [] (drop_next i a0 x a p) q, lcs-nil a, lcs-nil (x ∷ a))
kept-walk a0 b0 i j (x ∷ a) (y ∷ b) p q =
    let p' = drop_next i a0 x a p in
    let q' = drop_next j b0 y b q in
    let down = nth-dp_table a0 b0 (i + 1) j ∙ ap (λ l. lcs l (drop j b0)) p' ∙ ap (lcs a) q in
    let across =
      nth-dp_table a0 b0 i (j + 1) ∙ ap (λ l. lcs l (drop (j + 1) b0)) p ∙ ap (lcs (x ∷ a)) q' in
    ground (
      arith,
      lcs_lem x a y b,
      down,
      across,
      kept-walk a0 b0 (i + 1) (j + 1) a b p' q',
      kept-walk a0 b0 (i + 1) j a (y ∷ b) p' q,
      kept-walk a0 b0 i (j + 1) (x ∷ a) b p q',
    )

changes_step :
    (k : DiffKind) (t : Text) (a b : List Text) (n m : ℕ)
    → m + n + n ≡ length a + length b
    → ((if is_equal k then 0 else 1) + m)
        + ((if is_equal k then 1 else 0) + n)
        + ((if is_equal k then 1 else 0) + n)
      ≡ length (old_line k t a) + length (new_line k t b)
unfolding is_equal
changes_step diff_equal t a b n m h = omega arith
changes_step diff_delete t a b n m h = omega arith
changes_step diff_insert t a b n m h = omega arith

changes-kept :
    (ops : List DiffOp)
    → changes ops + kept ops + kept ops ≡ length (old_side ops) + length (new_side ops)
unfolding changes kept old_side new_side
changes-kept [] = refl
changes-kept (op ∷ ops) =
    changes_step op.kind op.text (old_side ops) (new_side ops) (kept ops) (changes ops)
      (changes-kept ops)

-- No script between two files changes fewer lines than their diff.
pub diff_lines_minimal :
    (a b : List Text) (ops : List DiffOp)
    → old_side ops ≡ a
    → new_side ops ≡ b
    → changes (diff_lines a b) ≤ changes ops
unfolding diff_lines
diff_lines_minimal a b ops p q =
    let mine = diff_lines-sides a b in
    let best = kept-walk a b 0 0 a b refl refl in
    let bound = kept-le-lcs ops in
    let same = ap (λ l. lcs l (new_side ops)) p ∙ ap (lcs a) q in
    let total = changes-kept (diff_lines a b) in
    omega (
      arith,
      best,
      bound,
      same,
      total,
      changes-kept ops,
      ap length p,
      ap length q,
      ap length mine.0,
      ap length mine.1,
    )
