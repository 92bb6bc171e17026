-- ===== src/Fileops/Diff/Hunks/Ranges.antt =====
-- The ranges of changes that buildDiffHunks finds (internal/fileops/diff.go).
use elbot.Base.{
  drop-drop, ℕ, zero, suc, ◌+◌, ◌-◌, ◌*◌, ◌≤◌, ◌<◌, ◌≡◌, refl, sym, ap, ◌∙◌, subst, Bool, true,
  false, Option, none, some, List, [], ◌∷◌, length, if◌then◌else◌, ltb, arith, Bool-cases, inl, inr,
  ◌⊎◌, drop, if_elim, ltb→lt, leb→le, leb,
}
use elbot.Fileops.Diff.{DiffOp, equal_at, is_equal, change_bounds, equal_ops_between, change_ranges}

-- The operations of an interval are all equal ones.
abbrev pub Quiet : List DiffOp → ℕ → ℕ → Type 0
Quiet ops s e = (k : ℕ) → s ≤ k → k < e → equal_at ops k ≡ true

leb_cases : (i k : ℕ) → (i ≤ k) ⊎ (k < i)
leb_cases i k = elim (Bool-cases (leb i k)) [
  | inl y ↦ inl (leb→le i k y)
  | inr n ↦ inr (ground arith)
]

-- The ranges whose changes lie at `q` or behind, the first of them at least `p` and its context behind:
-- all changes from `q` on lie in them, and their contexts do not overlap.
abbrev pub Ranges : List DiffOp → ℕ → ℕ → ℕ → List (ℕ × ℕ) → Type 0
Ranges ops c p q [] = (k : ℕ) → q ≤ k → equal_at ops k ≡ true
Ranges ops c p q ((f, l) ∷ rest) =
    (p ≤ f - c) × Quiet ops q f × (f ≤ l) × (l < length ops) × Ranges ops c (l + c + 1) (l + 1) rest

equal_ops_between-le : (ops : List DiffOp) (n i : ℕ) → equal_ops_between ops n i ≤ n
unfolding equal_ops_between
equal_ops_between-le ops zero i = omega arith
equal_ops_between-le ops (suc n) i = ground (arith, equal_ops_between-le ops n (i + 1))

Quiet-extend :
    (ops : List DiffOp) (s i : ℕ) → Quiet ops s i → equal_at ops i ≡ true → Quiet ops s (i + 1)
Quiet-extend ops s i quiet same k h m = elim (leb_cases i k) [
  | inl a ↦ subst (λ j. equal_at ops j ≡ true) (antisym a m) same
  | inr b ↦ quiet k h b
]
  where
    antisym : {k : ℕ} → i ≤ k → k < i + 1 → i ≡ k
    antisym a m = omega arith

-- What the second loop yields from an open range: `last` is its last change so far.
pub change_ranges-Ranges :
    (ops : List DiffOp) (c n i start last p q : ℕ)
    → p ≤ start - c
    → Quiet ops q start
    → start ≤ last
    → last < i
    → i + n ≤ length ops
    → Quiet ops (last + 1) i
    → ((k : ℕ) → i + n ≤ k → equal_at ops k ≡ true)
    → Ranges ops c p q (change_ranges ops c n i start last)
unfolding change_ranges
change_ranges-Ranges ops c zero i start last p q before quiet le lt bound inner behind = (
  before,
  quiet,
  le,
  omega arith,
  λ k h. elim (leb_cases i k) [
    | inl a ↦ behind k (omega (arith, a))
    | inr b ↦ inner k h (omega (arith, b))
  ],
)
change_ranges-Ranges ops c (suc n) i start last p q before quiet le lt bound inner behind =
    if_elim (Ranges ops c p q) (equal_at ops i) _ _
      (λ same.
        change_ranges-Ranges ops c n (i + 1) start last p q before quiet le (omega arith)
          (omega arith) (Quiet-extend ops (last + 1) i inner same) (λ k h. behind k (omega arith)))
      (λ change.
        if_elim (Ranges ops c p q) (ltb (c * 2) (equal_ops_between ops (i - (last + 1)) (last + 1)))
          _ _
          (λ far. (
            before,
            quiet,
            le,
            omega arith,
            change_ranges-Ranges ops c n (i + 1) i i (last + c + 1) (last + 1)
                (omega
                  (arith, ltb→lt _ _ far, equal_ops_between-le ops (i - (last + 1)) (last + 1)))
                inner (omega arith) (omega arith) (omega arith)
                (λ k h m. absurd (omega (arith, h, m))) (λ k h. behind k (omega (arith, h))),
          ))
          (λ near.
            change_ranges-Ranges ops c n (i + 1) start i p q before quiet (omega arith)
              (omega arith) (omega arith) (λ k h m. absurd (omega (arith, h, m)))
              (λ k h. behind k (omega (arith, h)))))

pub equal_at-drop : (ops : List DiffOp) (i k : ℕ) → equal_at (drop i ops) k ≡ equal_at ops (i + k)
unfolding equal_at
equal_at-drop ops zero k = ap (equal_at ops) (omega arith)
equal_at-drop [] (suc i) k = refl
equal_at-drop (op ∷ ops) (suc i) k = equal_at-drop ops i k ∙ ap (equal_at (op ∷ ops)) next
  where
    next : suc (i + k) ≡ suc i + k
    next = omega arith

equal_at_beyond : (ops : List DiffOp) (k : ℕ) → length ops ≤ k → equal_at ops k ≡ true
unfolding equal_at
equal_at_beyond [] k h = refl
equal_at_beyond (op ∷ ops) zero h = absurd (omega arith)
equal_at_beyond (op ∷ ops) (suc k) h = equal_at_beyond ops k (omega arith)

-- What the first loop has found before index `i`.
abbrev Seen : List DiffOp → ℕ → Option (ℕ × ℕ) → Type 0
Seen ops i none = Quiet ops 0 i
Seen ops i (some (f, l)) = (f ≤ l) × (l < i) × Quiet ops 0 f × Quiet ops (l + 1) i

round_on :
    (ops : List DiffOp) (i : ℕ) (b : Bool) (seen : Option (ℕ × ℕ))
    → equal_at ops i ≡ b
    → Seen ops i seen
    → Seen ops
        (i + 1)
        (if b then seen else elim seen [ none ↦ some (i, i) | some (f, l) ↦ some (f, i) ])
round_on ops i true none e s = Quiet-extend ops 0 i s e
round_on ops i true (some (f, l)) e s =
    (s.0, omega (arith, s.1), s.2, Quiet-extend ops (l + 1) i s.3 e)
round_on ops i false none e s = (omega arith, omega arith, s, λ k h m. absurd (omega (arith, h, m)))
round_on ops i false (some (f, l)) e s =
    (omega (arith, s.0, s.1), omega arith, s.2, λ k h m. absurd (omega (arith, h, m)))

equal_at_head :
    (ops : List DiffOp) (i : ℕ) (op : DiffOp) (rest : List DiffOp)
    → drop i ops ≡ op ∷ rest
    → equal_at ops i ≡ is_equal op.kind
unfolding equal_at
equal_at_head ops i op rest d =
    ap (equal_at ops) plus_zero ∙ sym (equal_at-drop ops i 0) ∙ ap (λ l. equal_at l 0) d
  where
    plus_zero : i ≡ i + 0
    plus_zero = omega arith

change_bounds-Seen :
    (ops : List DiffOp) (i : ℕ) (rest : List DiffOp) (seen : Option (ℕ × ℕ))
    → drop i ops ≡ rest
    → i + length rest ≡ length ops
    → Seen ops i seen
    → Seen ops (length ops) (change_bounds i rest seen)
unfolding change_bounds
change_bounds-Seen ops i [] seen d n s = subst (λ j. Seen ops j seen) (omega (arith, n)) s
change_bounds-Seen ops i (op ∷ rest) seen d n s =
    change_bounds-Seen ops (i + 1) rest _ (sym (drop-drop 1 i ops) ∙ ap (drop 1) d)
      (omega (arith, n)) (round_on ops i (is_equal op.kind) seen (equal_at_head ops i op rest d) s)

-- The ranges of a whole script.
pub bounds-Ranges :
    (ops : List DiffOp) (c f l : ℕ)
    → change_bounds 0 ops none ≡ some (f, l)
    → Ranges ops c 0 0 (change_ranges ops c (l - f) (f + 1) f f)
bounds-Ranges ops c f l e =
    let s : Seen ops (length ops) (some (f, l)) =
      subst (Seen ops (length ops)) e (
        change_bounds-Seen ops 0 ops none refl (omega arith)
          (λ k h m. absurd (omega (arith, m)))) in
    change_ranges-Ranges ops c (l - f) (f + 1) f f 0 0 (omega arith) s.2 (omega arith) (omega arith)
      (omega (arith, s.0, s.1)) (λ k h m. absurd (omega (arith, h, m)))
      (λ k h. elim (leb_cases (length ops) k) [
        | inl a ↦ equal_at_beyond ops k a
        | inr b ↦ s.3 k (omega (arith, h, s.0)) b
      ])

pub unchanged-Quiet :
    (ops : List DiffOp) → change_bounds 0 ops none ≡ none → (k : ℕ) → equal_at ops k ≡ true
unchanged-Quiet ops e k =
    let s : Seen ops (length ops) none =
      subst (Seen ops (length ops)) e (
        change_bounds-Seen ops 0 ops none refl (omega arith)
          (λ k h m. absurd (omega (arith, m)))) in
    elim (leb_cases (length ops) k) [
      | inl a ↦ equal_at_beyond ops k a
      | inr b ↦ s k (omega arith) b
    ]
