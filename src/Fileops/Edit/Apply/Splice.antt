-- ===== src/Fileops/Edit/Apply/Splice.antt =====
-- Applying a batch replaces its ranges all at once (internal/fileops/edit.go: ApplyEdits).
use elbot.Base.{
  ℕ, ◌≤◌, ◌≡◌, refl, sym, ap, ◌∙◌, List, [], ◌∷◌, ◌++◌, Text, arith, length, take, drop, All,
  append_assoc, append-nil, take-take-append, drop-take-append, take_all, if◌then◌else◌, Bool-cases,
  inl, inr,
}
use elbot.Fileops.Edit.{overlap}
use elbot.Fileops.Edit.Resolve.{ResolvedEdit, ok, err}
use elbot.Fileops.Edit.Apply.{apply_each, sort_edits, validate_resolved_edits, finish_edits}
use elbot.Fileops.Edit.Apply.Order.{InText, Chain, sort_edits-Chain}

-- The bytes from `a` up to `b`.
abbrev slice : ℕ → ℕ → Text → Text
slice a b t = drop a (take b t)

-- The first `n` bytes of the original text with all ranges of the list replaced at once: what is
-- in front of the last range, its new text, and the original bytes behind it.
unfoldable pub spliced : Text → ℕ → List ResolvedEdit → Text
spliced text n [] = take n text
spliced text n (e ∷ rest) = spliced text e.start rest ++ (e.content ++ slice e.end n text)

apply_each-spliced :
    (text tail : Text) (n : ℕ) (l : List ResolvedEdit)
    → Chain n l
    → n ≤ length text
    → apply_each (take n text ++ tail) l ≡ spliced text n l ++ tail
unfolding apply_each spliced
apply_each-spliced text tail n [] c h = refl
apply_each-spliced text tail n (e ∷ l) c h =
    rw
      (
        take-take-append e.start n text tail (omega arith) h,
        drop-take-append e.end n text tail (omega arith) h,
      )
      (apply_each-spliced text (e.content ++ (slice e.end n text ++ tail)) e.start l c.2
          (omega arith)
        ∙ simp append_assoc)

apply_each-eq-spliced :
    (text : Text) (l : List ResolvedEdit)
    → Chain (length text) l
    → apply_each text l ≡ spliced text (length text) l
apply_each-eq-spliced text l c =
    ap (λ t. apply_each t l)
      (sym (append-nil text ∙ refl)
        ∙ ap (λ t. t ++ []) (sym (take_all (length text) text (omega arith))))
    ∙ apply_each-spliced text [] (length text) l c (omega arith)
    ∙ append-nil _

-- A batch of ranges of the text either is refused as overlapping, or gives the original text with
-- every range replaced at once: applying one edit never moves or changes the place of another.
pub finish_edits-spliced :
    (text : Text) (resolved : List ResolvedEdit)
    → All (InText (length text)) resolved
    → finish_edits text resolved ≡ (
        if validate_resolved_edits resolved
        then ok (spliced text (length text) (sort_edits resolved))
        else err overlap)
unfolding finish_edits
finish_edits-spliced text resolved h = elim (Bool-cases (validate_resolved_edits resolved)) [
  | inl y ↦
      rw y (ap ok (apply_each-eq-spliced text _ (sort_edits-Chain (length text) resolved y h)))
  | inr n ↦ rw n
]
