-- ===== src/Fileops/Diff.antt =====
-- Line diffs (internal/fileops/diff.go): the edit script of two files, and its hunks.
--
-- `dp[i]` is the i-th row of the table, and a read beyond a row gives 0, where the source would panic;
-- no read of the code is beyond one.
pub mod Script
pub mod Minimal
pub mod Hunks
mod Examples
use elbot.Base.{
  ℕ, zero, suc, ◌+◌, ◌-◌, ◌*◌, ◌/◌, Bool, true, false, not, ◌&&◌, ◌||◌, Option, none, some, List,
  [], ◌∷◌, ◌++◌, Text, if◌then◌else◌, ltb, leb, ◌==◌, text_eq, is_empty, length, take, drop,
}

pub data DiffKind : Type 0 where
  diff_equal diff_delete diff_insert : DiffKind

pub record DiffOp : Type 0 where
  pub kind : DiffKind
  pub text : Text

pub record DiffHunk : Type 0 where
  pub ops : List DiffOp
  pub old_start : ℕ
  pub new_start : ℕ

unfoldable pub diff_too_large : List Text → List Text → Bool
diff_too_large old_lines new_lines =
    if length old_lines == 0 || length new_lines == 0
    then false
    else ltb (2_000_000 / length new_lines) (length old_lines)

abbrev pub first : List ℕ → ℕ
first [] = 0
first (d ∷ row) = d

abbrev pub nth : List ℕ → ℕ → ℕ
nth [] j = 0
nth (d ∷ row) zero = d
nth (d ∷ row) (suc j) = nth row j

abbrev pub nth_row : List (List ℕ) → ℕ → List ℕ
nth_row [] i = []
nth_row (row ∷ rows) zero = row
nth_row (row ∷ rows) (suc i) = nth_row rows i

-- The inner loop: dp[i] from dp[i+1], from the last column to the first.
unfoldable pub fill_row : Text → List Text → List ℕ → List ℕ
fill_row x [] next = 0 ∷ []
fill_row x (y ∷ ys) [] = 0 ∷ []
fill_row x (y ∷ ys) (d ∷ next) =
    let rest = fill_row x ys next in
    (if text_eq x y then first next + 1 else (if leb (first rest) d then d else first rest)) ∷ rest

-- make([]int, m+1)
unfoldable pub zero_row : List Text → List ℕ
zero_row [] = 0 ∷ []
zero_row (y ∷ ys) = 0 ∷ zero_row ys

unfoldable pub dp_table : List Text → List Text → List (List ℕ)
unfolding fill_row zero_row
dp_table [] b = zero_row b ∷ []
dp_table (x ∷ a) b = let rows = dp_table a b in fill_row x b (nth_row rows 0) ∷ rows

-- The walk from (i, j), where `a` and `b` are the lines from there on.
unfoldable pub walk : List (List ℕ) → ℕ → ℕ → List Text → List Text → List DiffOp
walk dp i j [] [] = []
walk dp i j [] (y ∷ b) = record { kind = diff_insert; text = y } ∷ walk dp i (j + 1) [] b
walk dp i j (x ∷ a) [] = record { kind = diff_delete; text = x } ∷ walk dp (i + 1) j a []
walk dp i j (x ∷ a) (y ∷ b) =
    let same = walk dp (i + 1) (j + 1) a b in
    let deleted = walk dp (i + 1) j a (y ∷ b) in
    let inserted = walk dp i (j + 1) (x ∷ a) b in
    if text_eq x y
    then record { kind = diff_equal; text = x } ∷ same
    else (if leb (nth (nth_row dp i) (j + 1)) (nth (nth_row dp (i + 1)) j)
        then record { kind = diff_delete; text = x } ∷ deleted
        else record { kind = diff_insert; text = y } ∷ inserted)

unfoldable pub diff_lines : List Text → List Text → List DiffOp
unfolding dp_table walk
diff_lines a b = walk (dp_table a b) 0 0 a b

unfoldable pub is_equal : DiffKind → Bool
is_equal diff_equal = true
is_equal _ = false

-- ops[i].kind == diffEqual
unfoldable pub equal_at : List DiffOp → ℕ → Bool
unfolding is_equal
equal_at [] i = true
equal_at (op ∷ ops) zero = is_equal op.kind
equal_at (op ∷ ops) (suc i) = equal_at ops i

-- The first loop of buildDiffHunks: the first and the last change from index `i` on.
unfoldable pub change_bounds : ℕ → List DiffOp → Option (ℕ × ℕ) → Option (ℕ × ℕ)
unfolding is_equal
change_bounds i [] seen = seen
change_bounds i (op ∷ ops) seen = change_bounds (i + 1) ops (
    if is_equal op.kind then seen else elim seen [ none ↦ some (i, i) | some (f, l) ↦ some (f, i) ])

-- equalOpsBetween, with the number of rounds and the index.
unfoldable pub equal_ops_between : List DiffOp → ℕ → ℕ → ℕ
unfolding equal_at
equal_ops_between ops zero i = 0
equal_ops_between ops (suc n) i =
    (if equal_at ops i then 1 else 0) + equal_ops_between ops n (i + 1)

-- The second loop, with the rounds left, its index, and the range that is open.
unfoldable pub change_ranges : List DiffOp → ℕ → ℕ → ℕ → ℕ → ℕ → List (ℕ × ℕ)
unfolding equal_at equal_ops_between
change_ranges ops context zero i start last = (start, last) ∷ []
change_ranges ops context (suc n) i start last =
    let same = change_ranges ops context n (i + 1) start last in
    let longer = change_ranges ops context n (i + 1) start i in
    let next = change_ranges ops context n (i + 1) i i in
    if equal_at ops i
    then same
    else (if ltb (context * 2) (equal_ops_between ops (i - (last + 1)) (last + 1))
        then (start, last) ∷ next
        else longer)

-- The line numbers behind some operations.
unfoldable pub advance : List DiffOp → ℕ → ℕ → ℕ × ℕ
advance [] old new = (old, new)
advance (op ∷ ops) old new = elim op.kind [
  | diff_equal ↦ advance ops (old + 1) (new + 1)
  | diff_delete ↦ advance ops (old + 1) new
  | diff_insert ↦ advance ops old (new + 1)
]

unfoldable pub trim_diff_context_range : List DiffOp → ℕ → ℕ → ℕ → DiffHunk
unfolding advance
trim_diff_context_range ops first last context =
    let start = first - context in
    let end = last + context + 1 in
    let stop = if ltb (length ops) end then length ops else end in
    let (old_start, new_start) = advance (take start ops) 1 1 in
    record {
      ops = take (stop - start) (drop start ops);
      old_start = old_start;
      new_start = new_start;
    }

unfoldable pub trim_all : List DiffOp → ℕ → List (ℕ × ℕ) → List DiffHunk
unfolding trim_diff_context_range
trim_all ops context [] = []
trim_all ops context ((first, last) ∷ rest) =
    trim_diff_context_range ops first last context ∷ trim_all ops context rest

-- contextLines is never negative where the code calls this.
unfoldable pub build_diff_hunks : List DiffOp → ℕ → List DiffHunk
unfolding change_bounds change_ranges trim_all
build_diff_hunks ops context = elim (change_bounds 0 ops none) [
  | none ↦ []
  | some (first, last) ↦
      trim_all ops context (change_ranges ops context (last - first) (first + 1) first first)
]

unfoldable pub diff_hunk_counts : List DiffOp → ℕ × ℕ
unfolding advance
diff_hunk_counts ops = advance ops 0 0

-- The loop over a hunk's operations: the size so far, and whether it passed the limit.
output_size : List DiffOp → ℕ → Option ℕ
output_size [] size = some size
output_size (op ∷ ops) size =
    let rest = output_size ops (size + (length op.text + 2)) in
    if ltb 65536 (size + (length op.text + 2)) then none else rest

hunks_size : List DiffHunk → ℕ → Option ℕ
unfolding output_size
hunks_size [] size = some size
hunks_size (h ∷ rest) size = elim (output_size h.ops (size + 64)) [
  | none ↦ none
  | some n ↦ hunks_size rest n
]

-- The 10 is the length of "--- \n+++ \n".
unfoldable pub diff_output_too_large : Text → List DiffHunk → Bool
unfolding hunks_size
diff_output_too_large path hunks = elim (hunks_size hunks (length path * 2 + 10)) [
  | none ↦ true
  | some size ↦ ltb 65536 size
]

-- What UnifiedDiff prints: the hunks below the names of the file, or that they are left out.
pub data Unified : Type 0 where
  too_many_comparisons : ℕ → ℕ → Unified
  output_too_large : Unified
  unified : List DiffHunk → Unified

unfoldable pub unified_diff : Text → List Text → List Text → ℕ → Unified
unfolding diff_too_large diff_lines build_diff_hunks diff_output_too_large
unified_diff path old_lines new_lines context =
    let hunks = build_diff_hunks (diff_lines old_lines new_lines) context in
    if diff_too_large old_lines new_lines
    then too_many_comparisons (length old_lines) (length new_lines)
    else (if diff_output_too_large path hunks then output_too_large else unified hunks)
