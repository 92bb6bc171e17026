-- ===== src/Fileops/Lines/Endings.antt =====
-- Normalising line endings, restoring them, and splitting into lines (internal/fileops/text.go).
use elbot.Base.{
  ℕ, ◌≡◌, refl, ap, ◌∙◌, Bool, false, [], ◌∷◌, Text, arith, ◌==◌, Bool-cases, inl, inr, ◌||◌,
  replace_crlf,
}
use elbot.Fileops.Lines.{
  replace_cr, normalize_edit_text, contains_cr, replace_newline, restore_line_endings,
  detect_line_ending,
}

replace_cr-clean : (t : Text) → contains_cr (replace_cr t) ≡ false
unfolding contains_cr replace_cr
replace_cr-clean [] = refl
replace_cr-clean (c ∷ t) = ground (arith, replace_cr-clean t)

replace_cr_id : (t : Text) → contains_cr t ≡ false → replace_cr t ≡ t
unfolding contains_cr replace_cr
replace_cr_id [] h = refl
replace_cr_id (c ∷ t) h = ground (arith, replace_cr_id t)

replace_crlf_id : (t : Text) → contains_cr t ≡ false → replace_crlf t ≡ t
unfolding contains_cr replace_crlf
replace_crlf_id [] h = refl
replace_crlf_id (c ∷ []) h = refl
replace_crlf_id (c ∷ (d ∷ t)) h = ground (arith, replace_crlf_id (d ∷ t))

-- Normalising leaves no carriage return, and changes nothing in a text that has none; so doing it
-- twice is doing it once.
pub normalize_edit_text-clean :
    (t : Text)
    → (contains_cr (normalize_edit_text t) ≡ false)
      × (contains_cr t ≡ false → normalize_edit_text t ≡ t)
      × (normalize_edit_text (normalize_edit_text t) ≡ normalize_edit_text t)
unfolding normalize_edit_text
normalize_edit_text-clean t =
    let clean = replace_cr-clean (replace_crlf t) in
    (
      clean,
      λ h. ap replace_cr (replace_crlf_id t h) ∙ replace_cr_id t h,
      ap replace_cr (replace_crlf_id _ clean) ∙ replace_cr_id _ clean,
    )

replace_crlf-cons :
    (c : ℕ) (t : Text) → (c == 13) ≡ false → replace_crlf (c ∷ t) ≡ c ∷ replace_crlf t
unfolding replace_crlf
replace_crlf-cons c [] h = refl
replace_crlf-cons c (d ∷ t) h = ground arith

restore_crlf :
    (t : Text) → contains_cr t ≡ false → replace_crlf (replace_newline (13 ∷ 10 ∷ []) t) ≡ t
unfolding replace_newline contains_cr replace_crlf
restore_crlf [] h = refl
restore_crlf (c ∷ t) h = elim (Bool-cases (c == 10)) [
  | inl y ↦ rw y (ground (arith, restore_crlf t))
  | inr n ↦ rw n (rw (replace_crlf-cons c _ (ground arith)) (ground (arith, restore_crlf t)))
]

contains_lf : Text → Bool
contains_lf [] = false
contains_lf (c ∷ rest) = c == 10 || contains_lf rest

replace_crlf_id_lf : (t : Text) → contains_lf t ≡ false → replace_crlf t ≡ t
unfolding contains_lf replace_crlf
replace_crlf_id_lf [] h = refl
replace_crlf_id_lf (c ∷ []) h = refl
replace_crlf_id_lf (c ∷ (d ∷ t)) h = ground (arith, replace_crlf_id_lf (d ∷ t))

restore_cr :
    (t : Text)
    → contains_cr t ≡ false
    → (contains_lf (replace_newline (13 ∷ []) t) ≡ false)
      × (replace_cr (replace_newline (13 ∷ []) t) ≡ t)
unfolding replace_newline contains_cr contains_lf replace_cr
restore_cr [] h = (refl, refl)
restore_cr (c ∷ t) h = ground (arith, restore_cr t)

-- A normalised text that is written back with the line ending found in any file (CRLF, CR or LF)
-- normalises to itself again.
pub normalize-restore :
    (t original : Text)
    → contains_cr t ≡ false
    → normalize_edit_text (restore_line_endings t (detect_line_ending original)) ≡ t
unfolding normalize_edit_text restore_line_endings detect_line_ending
normalize-restore t original h = ground (
  arith,
  restore_crlf t,
  replace_cr_id t,
  replace_crlf_id t,
  restore_cr t,
  replace_crlf_id_lf (replace_newline (13 ∷ []) t),
)
