-- ===== src/Fileops/Diff/Examples.antt =====
-- Diffs of small files (internal/fileops/diff.go).
use elbot.Base.{All, none, arith, ◌≡◌, ◌≤◌, refl, List, [], ◌∷◌, Text, codes, some}
use elbot.Fileops.Diff.{
  DiffOp, DiffHunk, diff_equal, diff_delete, diff_insert, diff_hunk_counts, diff_lines,
  unified_diff, unified,
}
use elbot.Fileops.Diff.Script.{old_side, new_side}
use elbot.Fileops.Diff.Minimal.{changes, diff_lines_minimal}
use elbot.Fileops.Diff.Hunks.Apply.{patch}
use elbot.Fileops.Diff.Hunks.Patch.{HasLines, patch-unified_diff}

abbrev old_file : List Text
old_file = codes "one" ∷ (codes "two" ∷ (codes "three" ∷ (codes "four" ∷ [])))

abbrev new_file : List Text
new_file = codes "one" ∷ (codes "2" ∷ (codes "three" ∷ (codes "four" ∷ (codes "five" ∷ []))))

-- Every line is replaced.
abbrev rewrite_all : List DiffOp
rewrite_all =
    record { kind = diff_delete; text = codes "a" }
    ∷ (record { kind = diff_delete; text = codes "b" }
        ∷ (record { kind = diff_insert; text = codes "b" }
            ∷ (record { kind = diff_insert; text = codes "c" } ∷ [])))

diff_lines_minimal_example :
    changes (diff_lines (codes "a" ∷ (codes "b" ∷ [])) (codes "b" ∷ (codes "c" ∷ [])))
    ≤ changes rewrite_all
unfolding old_side new_side
diff_lines_minimal_example =
    diff_lines_minimal (codes "a" ∷ (codes "b" ∷ [])) (codes "b" ∷ (codes "c" ∷ [])) rewrite_all
      refl refl

-- With a line of context, the two changes have a hunk each.
abbrev longer_old : List Text
longer_old = codes "one" ∷ (codes "two" ∷ (codes "three" ∷ (codes "four" ∷ (codes "five" ∷ []))))

abbrev longer_new : List Text
longer_new =
    codes "one"
    ∷ (codes "2" ∷ (codes "three" ∷ (codes "four" ∷ (codes "five" ∷ (codes "six" ∷ [])))))

abbrev two_hunks : List DiffHunk
two_hunks =
    record {
      ops =
          record { kind = diff_equal; text = codes "one" }
          ∷ (record { kind = diff_delete; text = codes "two" }
              ∷ (record { kind = diff_insert; text = codes "2" }
                  ∷ (record { kind = diff_equal; text = codes "three" } ∷ [])));
      old_start = 1;
      new_start = 1;
    }
    ∷ (record {
      ops =
          record { kind = diff_equal; text = codes "five" }
          ∷ (record { kind = diff_insert; text = codes "six" } ∷ []);
      old_start = 5;
      new_start = 5;
    }
        ∷ [])

two_hunks-HasLines : All HasLines two_hunks
unfolding diff_hunk_counts
two_hunks-HasLines = ((omega arith, omega arith), ((omega arith, omega arith), tt))

patch-unified_diff_example : patch two_hunks longer_old ≡ some longer_new
unfolding unified_diff
patch-unified_diff_example =
    patch-unified_diff (codes "notes.txt") longer_old longer_new 1 two_hunks refl two_hunks-HasLines

-- Without context, an insertion is printed with the number of the line behind it, where the format has
-- that of the line in front, so that its two numbers disagree.
abbrev late : DiffHunk
late = record {
  ops = record { kind = diff_insert; text = codes "x" } ∷ [];
  old_start = 2;
  new_start = 2;
}

inserted_late :
    (unified_diff
        (codes "notes.txt")
        (codes "a" ∷ (codes "b" ∷ []))
        (codes "a" ∷ (codes "x" ∷ (codes "b" ∷ [])))
        0
      ≡ unified (late ∷ []))
    × (patch (late ∷ []) (codes "a" ∷ (codes "b" ∷ [])) ≡ none)
unfolding unified_diff patch diff_hunk_counts
inserted_late = (refl, refl)
