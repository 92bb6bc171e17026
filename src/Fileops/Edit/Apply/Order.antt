-- ===== src/Fileops/Edit/Apply/Order.antt =====
-- A batch that passes the check, once sorted, is a chain of ranges from the end of the text to its
-- start (internal/fileops/edit.go: validateResolvedEdits and the sort of ApplyEdits).
use elbot.Base.{ℕ, ◌≤◌, ◌≡◌, ◌∙◌, refl, true, false, not, ◌&&◌, ◌||◌, List, [], ◌∷◌, arith, All}
use elbot.Fileops.Edit.Resolve.{ResolvedEdit}
use elbot.Fileops.Edit.Apply.{
  conflicts, conflicts_any, validate_resolved_edits, before, insert_sorted, sort_edits,
}

-- A range of the text.
abbrev pub InText : ℕ → ResolvedEdit → Type 0
InText n e = (e.start ≤ e.end) × (e.end ≤ n)

-- From the end of the text to its start, no range reaches into the one before it in the list.
abbrev pub Chain : ℕ → List ResolvedEdit → Type 0
Chain n [] = Unit {0}
Chain n (e ∷ rest) = (e.start ≤ e.end) × (e.end ≤ n) × Chain e.start rest

conflicts_symm : (a b : ResolvedEdit) → conflicts a b ≡ conflicts b a
unfolding conflicts
conflicts_symm a b = ground arith

conflicts_any-insert :
    (a e : ResolvedEdit) (l : List ResolvedEdit)
    → conflicts_any a (insert_sorted e l) ≡ (conflicts a e || conflicts_any a l)
unfolding conflicts_any insert_sorted
conflicts_any-insert a e [] = refl
conflicts_any-insert a e (f ∷ l) = ground (arith, conflicts_any-insert a e l)

validate-insert :
    (e : ResolvedEdit) (l : List ResolvedEdit)
    → validate_resolved_edits (insert_sorted e l)
      ≡ (not (conflicts_any e l) && validate_resolved_edits l)
unfolding validate_resolved_edits insert_sorted conflicts_any
validate-insert e [] = refl
validate-insert e (f ∷ l) =
    ground (arith, validate-insert e l, conflicts_any-insert f e l, conflicts_symm f e)

conflicts_any-sort :
    (a : ResolvedEdit) (l : List ResolvedEdit) → conflicts_any a (sort_edits l) ≡ conflicts_any a l
unfolding conflicts_any sort_edits
conflicts_any-sort a [] = refl
conflicts_any-sort a (e ∷ l) =
    ground (arith, conflicts_any-insert a e (sort_edits l), conflicts_any-sort a l)

validate-sort :
    (l : List ResolvedEdit) → validate_resolved_edits (sort_edits l) ≡ validate_resolved_edits l
unfolding validate_resolved_edits sort_edits
validate-sort [] = refl
validate-sort (e ∷ l) =
    ground (arith, validate-insert e (sort_edits l), conflicts_any-sort e l, validate-sort l)

All-insert :
    (n : ℕ) (e : ResolvedEdit) (l : List ResolvedEdit)
    → InText n e
    → All (InText n) l
    → All (InText n) (insert_sorted e l)
unfolding insert_sorted
All-insert n e [] h k = (h, tt)
All-insert n e (f ∷ l) h k = ground (arith, All-insert n e l)

All-sort : (n : ℕ) (l : List ResolvedEdit) → All (InText n) l → All (InText n) (sort_edits l)
unfolding sort_edits
All-sort n [] h = tt
All-sort n (e ∷ l) h = All-insert n e (sort_edits l) h.0 (All-sort n l h.1)

-- No element comes before the one in front of it.
abbrev IsSorted : List ResolvedEdit → Type 0
IsSorted [] = Unit {0}
IsSorted (e ∷ []) = Unit {0}
IsSorted (e ∷ (f ∷ l)) = (before f e ≡ false) × IsSorted (f ∷ l)

before_asym : (a b : ResolvedEdit) → before a b ≡ true → before b a ≡ false
unfolding before
before_asym a b h = ground arith

insert-IsSorted :
    (e : ResolvedEdit) (l : List ResolvedEdit) → IsSorted l → IsSorted (insert_sorted e l)
unfolding insert_sorted
insert-IsSorted e [] h = tt
insert-IsSorted e (f ∷ []) h = ground (arith, before_asym f e)
insert-IsSorted e (f ∷ (g ∷ l)) h = ground (arith, before_asym f e, insert-IsSorted e (g ∷ l))

sort-IsSorted : (l : List ResolvedEdit) → IsSorted (sort_edits l)
unfolding sort_edits
sort-IsSorted [] = tt
sort-IsSorted (e ∷ l) = insert-IsSorted e (sort_edits l) (sort-IsSorted l)

-- Two ranges in order that do not conflict follow one another.
apart :
    (a b : ResolvedEdit)
    → before b a ≡ false
    → conflicts a b ≡ false
    → a.start ≤ a.end
    → b.start ≤ b.end
    → b.end ≤ a.start
unfolding before conflicts
apart a b h c p q = ground arith

sorted-Chain :
    (n : ℕ) (l : List ResolvedEdit)
    → IsSorted l
    → validate_resolved_edits l ≡ true
    → All (InText n) l
    → Chain n l
unfolding validate_resolved_edits conflicts_any
sorted-Chain n [] s v h = tt
sorted-Chain n (e ∷ []) s v h = (h.0.0, h.0.1, tt)
sorted-Chain n (e ∷ (f ∷ l)) s v h =
    let rest = sorted-Chain n (f ∷ l) s.1 (ground arith) h.1 in
    (h.0.0, h.0.1, (rest.0, apart e f s.0 (ground arith) h.0.0 rest.0, rest.2))

-- A batch of ranges of the text that passes the check is, once sorted, such a chain: so each range
-- is cut out of the text while everything in front of it is still as it was.
pub sort_edits-Chain :
    (n : ℕ) (l : List ResolvedEdit)
    → validate_resolved_edits l ≡ true
    → All (InText n) l
    → Chain n (sort_edits l)
sort_edits-Chain n l v h =
    sorted-Chain n (sort_edits l) (sort-IsSorted l) (validate-sort l ∙ v) (All-sort n l h)

-- The check accepts a batch exactly when every two of its ranges, the first one earlier in the
-- batch, are compatible.
pub validate_resolved_edits_cons :
    (a b : ResolvedEdit) (l : List ResolvedEdit)
    → validate_resolved_edits (a ∷ (b ∷ l)) ≡ true
    → (conflicts a b ≡ false)
      × (conflicts b a ≡ false)
      × (validate_resolved_edits (a ∷ l) ≡ true)
      × (validate_resolved_edits (b ∷ l) ≡ true)
unfolding validate_resolved_edits conflicts_any
validate_resolved_edits_cons a b l h = ground (arith, conflicts_symm a b)
