-- ===== src/Fileops/Diff/Hunks/Patch.antt =====
-- The hunks of a diff, applied to the old file as `place` does, give the new one
-- (internal/fileops/diff.go).
use elbot.Base.{
  All, ◌==◌, ℕ, zero, suc, ◌+◌, ◌-◌, ◌≤◌, ◌<◌, ◌≡◌, refl, sym, ap, ◌∙◌, subst, true, Option, none,
  some, List, [], ◌∷◌, ◌++◌, Text, drop, take, length, ltb, if◌then◌else◌, arith, drop-drop,
  take-append-drop, take-add, length-append, take_all,
}
use elbot.Fileops.Diff.{
  DiffKind, diff_equal, diff_delete, diff_insert, DiffOp, DiffHunk, advance, diff_hunk_counts,
  equal_at, is_equal, trim_all, trim_diff_context_range, build_diff_hunks, change_bounds,
  change_ranges, diff_lines, unified_diff, unified,
}
use elbot.Fileops.Diff.Script.{old_side, new_side, old_line, new_line, diff_lines-sides}
use elbot.Fileops.Diff.Hunks.Ranges.{Quiet, Ranges, bounds-Ranges, unchanged-Quiet, equal_at-drop}
use elbot.Fileops.Diff.Hunks.Apply.{
  patch_ops, place, patch, positioned, positioned_all, old_line-append, new_line-append,
  patch_ops-old_side, advance-sides, drop_append, take_append,
}

-- One hunk: `o` are the lines in front of it, `tail` what the others make of the lines behind.
place-cons :
    (old_pos new_pos : ℕ) (h : DiffHunk) (hunks : List DiffHunk) (o behind tail : List Text)
    → h.old_start ≡ old_pos + length o
    → h.new_start ≡ new_pos + length o
    → place
        (h.old_start + length (old_side h.ops))
        (h.new_start + length (new_side h.ops))
        hunks
        behind
      ≡ some tail
    → place old_pos new_pos (h ∷ hunks) (o ++ (old_side h.ops ++ behind))
      ≡ some (o ++ (new_side h.ops ++ tail))
unfolding place diff_hunk_counts
place-cons old_pos new_pos h hunks o behind tail p q rest =
    let n : h.old_start - old_pos ≡ length o = omega (arith, p) in
    let lines = old_side h.ops ++ behind in
    let dropped : drop (h.old_start - old_pos) (o ++ lines) ≡ lines =
      ap (λ k. drop k (o ++ lines)) n ∙ drop_append o lines in
    let taken : take (h.old_start - old_pos) (o ++ lines) ≡ o =
      ap (λ k. take k (o ++ lines)) n ∙ take_append o lines in
    let moved : advance h.ops 0 0 ≡ (length (old_side h.ops), length (new_side h.ops)) =
      ground (arith, advance-sides h.ops 0 0) in
    let after : place (h.old_start + (advance h.ops 0 0).0) (h.new_start + (advance h.ops 0 0).1)
          hunks behind
        ≡ some tail =
      ap (λ (c : ℕ × ℕ). place (h.old_start + c.0) (h.new_start + c.1) hunks behind) moved ∙ rest in
    let run : patch_ops h.ops (drop (h.old_start - old_pos) (o ++ lines))
        ≡ some (new_side h.ops, behind) =
      ap (patch_ops h.ops) dropped ∙ patch_ops-old_side h.ops behind in
    ground (arith, taken, after, run, p, q, n)

old_side-append : (l r : List DiffOp) → old_side (l ++ r) ≡ old_side l ++ old_side r
unfolding old_side
old_side-append [] r = refl
old_side-append (op ∷ l) r =
    ap (old_line op.kind op.text) (old_side-append l r)
    ∙ sym (old_line-append op.kind op.text (old_side l) (old_side r))

new_side-append : (l r : List DiffOp) → new_side (l ++ r) ≡ new_side l ++ new_side r
unfolding new_side
new_side-append [] r = refl
new_side-append (op ∷ l) r =
    ap (new_line op.kind op.text) (new_side-append l r)
    ∙ sym (new_line-append op.kind op.text (new_side l) (new_side r))

same_lines :
    (k : DiffKind) (t : Text) (l r : List Text)
    → is_equal k ≡ true
    → l ≡ r
    → old_line k t l ≡ new_line k t r
unfolding is_equal
same_lines diff_equal t l r e p = ap (λ l. t ∷ l) p
same_lines diff_delete t l r e p = absurd (ground arith)
same_lines diff_insert t l r e p = absurd (ground arith)

-- Equal operations have the same lines on both sides.
quiet_sides :
    (n : ℕ) (ops : List DiffOp)
    → ((k : ℕ) → k < n → equal_at ops k ≡ true)
    → old_side (take n ops) ≡ new_side (take n ops)
unfolding old_side new_side equal_at
quiet_sides zero ops h = refl
quiet_sides (suc n) [] h = refl
quiet_sides (suc n) (op ∷ ops) h =
    same_lines op.kind op.text (old_side (take n ops)) (new_side (take n ops)) (h 0 (omega arith))
      (quiet_sides n ops (λ k m. h (suc k) (omega (arith, m))))

-- A stretch of equal operations, from `p` to `s`.
stretch-sides :
    (ops : List DiffOp) (p s : ℕ)
    → p ≤ s
    → Quiet ops p s
    → old_side (take (s - p) (drop p ops)) ≡ new_side (take (s - p) (drop p ops))
stretch-sides ops p s le quiet =
    quiet_sides (s - p) (drop p ops)
      (λ k m. equal_at-drop ops p k ∙ quiet (p + k) (omega arith) (omega (arith, m, le)))

-- The operations up to `s` are those up to `p` and those between.
take-split :
    (ops : List DiffOp) (p s : ℕ) → p ≤ s → take s ops ≡ take p ops ++ take (s - p) (drop p ops)
take-split ops p s le = ap (λ n. take n ops) (back p s le) ∙ take-add p (s - p) ops
  where
    back : (p s : ℕ) → p ≤ s → s ≡ p + (s - p)
    back p s le = omega arith

-- The operations from `p` on are those up to `s` and those from there.
drop-split :
    (ops : List DiffOp) (p s : ℕ) → p ≤ s → drop p ops ≡ take (s - p) (drop p ops) ++ drop s ops
drop-split ops p s le =
    sym (take-append-drop (s - p) (drop p ops))
    ∙ ap (λ l. take (s - p) (drop p ops) ++ l)
        (drop-drop (s - p) p ops ∙ ap (λ n. drop n ops) (back p s le))
  where
    back : (p s : ℕ) → p ≤ s → p + (s - p) ≡ s
    back p s le = omega arith

quiet_all : (ops : List DiffOp) → ((k : ℕ) → equal_at ops k ≡ true) → old_side ops ≡ new_side ops
quiet_all ops h =
    ap old_side (sym (take_all (length ops) ops (omega arith)))
    ∙ quiet_sides (length ops) ops (λ k _. h k)
    ∙ ap new_side (take_all (length ops) ops (omega arith))

-- Three stretches of operations.
old_side-three :
    (l m r : List DiffOp) → old_side (l ++ (m ++ r)) ≡ old_side l ++ (old_side m ++ old_side r)
old_side-three l m r = old_side-append l (m ++ r) ∙ ap (λ t. old_side l ++ t) (old_side-append m r)

new_side-three :
    (l m r : List DiffOp) → new_side (l ++ (m ++ r)) ≡ new_side l ++ (new_side m ++ new_side r)
new_side-three l m r = new_side-append l (m ++ r) ∙ ap (λ t. new_side l ++ t) (new_side-append m r)

-- How many lines stand before `s`, counted by those before `p`.
old_count-split :
    (ops : List DiffOp) (p s : ℕ)
    → p ≤ s
    → length (old_side (take s ops))
      ≡ length (old_side (take p ops)) + length (old_side (take (s - p) (drop p ops)))
old_count-split ops p s le =
    ap (λ l. length (old_side l)) (take-split ops p s le)
    ∙ ap length (old_side-append (take p ops) (take (s - p) (drop p ops)))
    ∙ length-append (old_side (take p ops)) (old_side (take (s - p) (drop p ops)))

new_count-split :
    (ops : List DiffOp) (p s : ℕ)
    → p ≤ s
    → length (new_side (take s ops))
      ≡ length (new_side (take p ops)) + length (new_side (take (s - p) (drop p ops)))
new_count-split ops p s le =
    ap (λ l. length (new_side l)) (take-split ops p s le)
    ∙ ap length (new_side-append (take p ops) (take (s - p) (drop p ops)))
    ∙ length-append (new_side (take p ops)) (new_side (take (s - p) (drop p ops)))

-- One hunk of the operations from `s` to `e`, where those from `p` to `s` are equal.
patch_stretch :
    (ops : List DiffOp) (h : DiffHunk) (hunks : List DiffHunk) (p s e : ℕ)
    → p ≤ s
    → s ≤ e
    → Quiet ops p s
    → h.ops ≡ take (e - s) (drop s ops)
    → h.old_start ≡ 1 + length (old_side (take s ops))
    → h.new_start ≡ 1 + length (new_side (take s ops))
    → place
        (1 + length (old_side (take e ops)))
        (1 + length (new_side (take e ops)))
        hunks
        (old_side (drop e ops))
      ≡ some (new_side (drop e ops))
    → place
        (1 + length (old_side (take p ops)))
        (1 + length (new_side (take p ops)))
        (h ∷ hunks)
        (old_side (drop p ops))
      ≡ some (new_side (drop p ops))
patch_stretch ops h hunks p s e le le' quiet is old_at new_at rest =
    let seg = take (s - p) (drop p ops) in
    let parts : drop p ops ≡ seg ++ (h.ops ++ drop e ops) =
      drop-split ops p s le
      ∙ ap (λ l. seg ++ l) (drop-split ops s e le' ∙ ap (λ l. l ++ drop e ops) (sym is)) in
    let same : old_side seg ≡ new_side seg = stretch-sides ops p s le quiet in
    let slice_old : length (old_side (take (e - s) (drop s ops))) ≡ length (old_side h.ops) =
      ap (λ l. length (old_side l)) (sym is) in
    let slice_new : length (new_side (take (e - s) (drop s ops))) ≡ length (new_side h.ops) =
      ap (λ l. length (new_side l)) (sym is) in
    let old_end : 1 + length (old_side (take e ops)) ≡ h.old_start + length (old_side h.ops) =
      omega (arith, old_count-split ops s e le', slice_old, old_at) in
    let new_end : 1 + length (new_side (take e ops)) ≡ h.new_start + length (new_side h.ops) =
      omega (arith, new_count-split ops s e le', slice_new, new_at) in
    let behind : place (h.old_start + length (old_side h.ops))
          (h.new_start + length (new_side h.ops)) hunks (old_side (drop e ops))
        ≡ some (new_side (drop e ops)) =
      subst
        (λ n.
          place n (h.new_start + length (new_side h.ops)) hunks (old_side (drop e ops))
          ≡ some (new_side (drop e ops)))
        old_end
        (subst
          (λ n.
            place (1 + length (old_side (take e ops))) n hunks (old_side (drop e ops))
            ≡ some (new_side (drop e ops)))
          new_end rest) in
    ap (place (1 + length (old_side (take p ops))) (1 + length (new_side (take p ops))) (h ∷ hunks))
      (ap old_side parts ∙ old_side-three seg h.ops (drop e ops))
    ∙ place-cons _ _ h hunks (old_side seg) (old_side (drop e ops)) (new_side (drop e ops))
        (omega (arith, old_at, old_count-split ops p s le))
        (omega (arith, new_at, new_count-split ops p s le, ap length same)) behind
    ∙ ap (λ l. some (l ++ (new_side h.ops ++ new_side (drop e ops)))) same
    ∙ ap some (sym (new_side-three seg h.ops (drop e ops)) ∙ ap new_side (sym parts))

-- Where a hunk ends.
abbrev hunk_end : List DiffOp → ℕ → ℕ → ℕ
hunk_end ops l c = if ltb (length ops) (l + c + 1) then length ops else l + c + 1

-- The hunks of the ranges from position `p` on, applied to the old lines from there.
place-trim_all :
    (ops : List DiffOp) (c : ℕ) (ranges : List (ℕ × ℕ)) (P q p : ℕ)
    → Ranges ops c P q ranges
    → p ≤ P
    → q ≤ p
    → place
        (1 + length (old_side (take p ops)))
        (1 + length (new_side (take p ops)))
        (trim_all ops c ranges)
        (old_side (drop p ops))
      ≡ some (new_side (drop p ops))
unfolding place trim_all trim_diff_context_range
place-trim_all ops c [] P q p r a b =
    ap some (quiet_all (drop p ops) (λ k. equal_at-drop ops p k ∙ r (p + k) (omega arith)))
place-trim_all ops c ((f, l) ∷ rest) P q p r a b =
    patch_stretch ops (trim_diff_context_range ops f l c) (trim_all ops c rest) p (f - c)
      (hunk_end ops l c) (omega (arith, r.0)) (ground (arith, r.2, r.3))
      (λ k h m. r.1 k (omega (arith, h)) (omega (arith, m))) refl
      (ap (λ (n : ℕ × ℕ). n.0) (advance-sides (take (f - c) ops) 1 1))
      (ap (λ (n : ℕ × ℕ). n.1) (advance-sides (take (f - c) ops) 1 1))
      (place-trim_all ops c rest (l + c + 1) (l + 1) (hunk_end ops l c) r.4 (ground arith)
        (ground (arith, r.3)))

-- The hunks of a script, applied to its old side, give its new side.
place-build_diff_hunks :
    (ops : List DiffOp) (c : ℕ)
    → place 1 1 (build_diff_hunks ops c) (old_side ops) ≡ some (new_side ops)
unfolding build_diff_hunks place old_side new_side
place-build_diff_hunks ops c = bounds (change_bounds 0 ops none) refl
  where
    bounds :
        (o : Option (ℕ × ℕ))
        → change_bounds 0 ops none ≡ o
        → place 1 1
            (elim o [
              | none ↦ []
              | some (first, last) ↦
                  trim_all ops c (change_ranges ops c (last - first) (first + 1) first first)
            ])
            (old_side ops)
          ≡ some (new_side ops)
    bounds none e = ap some (quiet_all ops (unchanged-Quiet ops e))
    bounds (some (f, l)) e =
        place-trim_all ops c (change_ranges ops c (l - f) (f + 1) f f) 0 0 0
          (bounds-Ranges ops c f l e) (omega arith) (omega arith)

-- Both sides of the hunk have lines.
abbrev pub HasLines : DiffHunk → Type 0
HasLines h = (1 ≤ (diff_hunk_counts h.ops).0) × (1 ≤ (diff_hunk_counts h.ops).1)

positioned-HasLines : (h : DiffHunk) → HasLines h → positioned h ≡ h
unfolding positioned
positioned-HasLines h (o, n) =
    let old : (if (diff_hunk_counts h.ops).0 == 0 then h.old_start + 1 else h.old_start)
        ≡ h.old_start =
      ground (arith, o) in
    let new : (if (diff_hunk_counts h.ops).1 == 0 then h.new_start + 1 else h.new_start)
        ≡ h.new_start =
      ground (arith, n) in
    ap
      (λ (k : ℕ). record {
        ops = h.ops;
        old_start = k;
        new_start = if (diff_hunk_counts h.ops).1 == 0 then h.new_start + 1 else h.new_start;
      })
      old
    ∙ ap (λ (k : ℕ). record { ops = h.ops; old_start = h.old_start; new_start = k }) new

positioned_all-HasLines :
    (hunks : List DiffHunk) → All HasLines hunks → positioned_all hunks ≡ hunks
unfolding positioned_all
positioned_all-HasLines [] a = refl
positioned_all-HasLines (h ∷ hunks) a =
    ap (λ l. positioned h ∷ l) (positioned_all-HasLines hunks a.1)
    ∙ ap (λ x. x ∷ hunks) (positioned-HasLines h a.0)

-- Where UnifiedDiff prints hunks of which each has lines of both files, a patch in the unified format with
-- them turns the old file into the new one.
pub patch-unified_diff :
    (path : Text) (old_lines new_lines : List Text) (context : ℕ) (hunks : List DiffHunk)
    → unified_diff path old_lines new_lines context ≡ unified hunks
    → All HasLines hunks
    → patch hunks old_lines ≡ some new_lines
unfolding unified_diff patch
patch-unified_diff path old_lines new_lines context hunks e a =
    let ops = diff_lines old_lines new_lines in
    let sides = diff_lines-sides old_lines new_lines in
    let these : build_diff_hunks ops context ≡ hunks = ground arith in
    ap (λ h. place 1 1 h old_lines) (positioned_all-HasLines hunks a ∙ sym these)
    ∙ ap (place 1 1 (build_diff_hunks ops context)) (sym sides.0)
    ∙ place-build_diff_hunks ops context
    ∙ ap some sides.1
