-- ===== src/Fileops/Edit/Resolve/Scan.antt =====
-- The scanned lines tile the text (internal/fileops/edit.go: scanEditLines).
use elbot.Base.{
  ℕ, zero, suc, ◌+◌, ◌-◌, ◌≤◌, ◌<◌, ◌≡◌, refl, sym, ap, ◌∙◌, Bool, false, ◌||◌, ◌⊎◌, none, some,
  List, [], ◌∷◌, ◌++◌, Text, arith, length, take, drop, if◌then◌else◌, ltb, ◌==◌, drop-drop,
  length-drop, Bool-cases, Option-cases, inl, inr, append-nil, append_assoc, length-take, lt→ltb,
}
use elbot.Fileops.Match.{EditSourceLine}
use elbot.Fileops.Edit.Resolve.{index_newline, scan_from, scan_edit_lines}

unfoldable pub has_newline : Text → Bool
has_newline [] = false
has_newline (c ∷ s) = c == 10 || has_newline s

-- What a first newline at `i` says of the text.
index_newline-some :
    (s : Text) (i : ℕ)
    → index_newline s ≡ some i
    → (i < length s) × (has_newline (take i s) ≡ false) × (s ≡ take i s ++ 10 ∷ drop (suc i) s)
unfolding index_newline has_newline
index_newline-some [] i h = cc
index_newline-some (c ∷ s) zero h = ground arith
index_newline-some (c ∷ s) (suc i) h = ground (arith, index_newline-some s i)

index_newline-none : (s : Text) → index_newline s ≡ none → has_newline s ≡ false
unfolding index_newline has_newline
index_newline-none [] h = refl
index_newline-none (c ∷ s) h = ground (arith, index_newline-none s)

-- The text of a line, with its newline where it has one.
abbrev whole_line : EditSourceLine → Text
whole_line l = if ltb l.end l.full_end then l.content ++ 10 ∷ [] else l.content

unfoldable pub untile : List EditSourceLine → Text
untile [] = []
untile (l ∷ rest) = whole_line l ++ untile rest

-- From `off` on, the lines follow one another without a gap up to `n`, none holds a newline in its
-- content, and each has one at its end, but perhaps the last.
abbrev pub Tiles : ℕ → ℕ → List EditSourceLine → Type 0
Tiles off n [] = off ≡ n
Tiles off n (l ∷ rest) =
    (l.start ≡ off)
    × (l.end ≡ off + length l.content)
    × (l.start < l.full_end)
    × (has_newline l.content ≡ false)
    × ((l.full_end ≡ l.end + 1) ⊎ ((l.full_end ≡ l.end) × (rest ≡ [])))
    × (l.full_end ≤ n)
    × Tiles l.full_end n rest

drop-all : (t : Text) (n : ℕ) → length t ≤ n → drop n t ≡ []
drop-all [] zero h = refl
drop-all [] (suc n) h = refl
drop-all (c ∷ t) zero h = absurd (omega arith)
drop-all (c ∷ t) (suc n) h = drop-all t n (omega arith)

drop_at : (t : Text) {m n : ℕ} → m ≡ n → drop m t ≡ drop n t
drop_at t e = ap (λ k. drop k t) e

scan_from-Tiles :
    (fuel : ℕ) (text : Text) (start : ℕ)
    → length text - start < fuel
    → start ≤ length text
    → Tiles start (length text) (scan_from fuel text start)
      × (untile (scan_from fuel text start) ≡ drop start text)
unfolding scan_from untile
scan_from-Tiles zero text start h k = elim h [ ]
scan_from-Tiles (suc fuel) text start h k = elim (Bool-cases (ltb start (length text))) [
  | inr n ↦ rw n (ground arith, sym (drop-all text start (ground arith)))
  | inl y ↦ elim (Option-cases (index_newline (drop start text))) [
    | inl e ↦
        rw (y, e)
          (ground (
            arith,
            length-drop start text,
            index_newline-none (drop start text) e,
            append-nil (drop start text),
          ))
    | inr (rel, e) ↦
        rw (y, e)
          (let found = index_newline-some (drop start text) rel e in
            let ih =
              scan_from-Tiles fuel text (start + rel + 1) (omega (arith, length-drop start text))
                (omega (arith, length-drop start text)) in
            (
              (
                refl,
                omega (arith, length-take rel (drop start text), length-drop start text),
                omega arith,
                found.1,
                inl refl,
                omega (arith, length-drop start text),
                ih.0,
              ),
              rw (lt→ltb (start + rel) (start + rel + 1) (omega arith)) (
                  append_assoc (take rel (drop start text)) (10 ∷ []) _
                  ∙ ap (λ r. take rel (drop start text) ++ 10 ∷ r)
                      (ih.1 ∙ drop_at text (omega arith) ∙ sym (drop-drop (suc rel) start text))
                  ∙ sym found.2),
            ))
  ]
]

-- The scanned lines tile the whole text: put together with their newlines they are the text.
pub scan_edit_lines-Tiles :
    (text : Text)
    → Tiles 0 (length text) (scan_edit_lines text) × (untile (scan_edit_lines text) ≡ text)
unfolding scan_edit_lines
scan_edit_lines-Tiles text = scan_from-Tiles (suc (length text)) text 0 (omega arith) (omega arith)
