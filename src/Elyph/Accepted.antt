-- ===== src/Elyph/Accepted.antt =====
-- What the tests of `finish` say of a document without an error (internal/elyph/parser.go).
use elbot.Base.{
  ℕ, ◌≡◌, refl, sym, ap, subst, Bool, true, false, not, ◌&&◌, Option, some, List, Text, ◌∙◌,
  is_empty, text_eq, text_eq_iff, trim_space, arith, if_elim, opt_elim, ◌⊎◌, inl, inr,
}
use elbot.Elyph.Syntax.{Unicode}
use elbot.Elyph.Parser.{
  Parser, add, warn, open_block, missing_header, kind_mismatch, name_mismatch, parse_header_line,
  set_header, header_words, valid_rest,
}
use elbot.Elyph.Statements.{parse_lines, add_step, check_header, check_kind, check_name, finish}
use elbot.Elyph.Document.{Header, error_diagnostics, new_parser}
use elbot.Elyph.Effects.{Kept}
use elbot.Elyph.Lines.{
  check_kind-Kept, check_name-Kept, check_blocks-Kept, finish-Kept, lines-Kept, check_header-Kept,
}
use elbot.Elyph.Header.{
  Faulty, Faulty-Kept, add-Faulty, HeaderIs, HeaderIs-Kept, Read, faulty, unread, read,
}

-- No diagnostic is an error.
abbrev pub Clean : Parser → Type 0
Clean p = is_empty (error_diagnostics p.diagnostics) ≡ true

pub clash : {b : Bool} → b ≡ true → b ≡ false → ⊥
clash x y = ground arith

-- The kind and the name that the caller expects.
pub record Expects (kind name : Text) (p : Parser) : Type 0 where
  pub kind_is : p.expected_kind ≡ kind
  pub name_is : p.expected_name ≡ name

Expects-Kept : (kind name : Text) → Kept (Expects kind name)
unfolding add warn open_block add_step
Expects-Kept kind name = record {
  adds = λ n. λ e. λ p. λ i. record { kind_is = i.kind_is; name_is = i.name_is };
  warns = λ n. λ e. λ p. λ i. record { kind_is = i.kind_is; name_is = i.name_is };
  opens = λ k. λ p. λ plain. λ i. record { kind_is = i.kind_is; name_is = i.name_is };
  steps = λ s. λ n. λ p. λ v. λ c. λ i. record { kind_is = i.kind_is; name_is = i.name_is };
  opens_step = λ s. λ n. λ p. λ v. λ c. λ i. record { kind_is = i.kind_is; name_is = i.name_is };
  forgets = λ c. λ p. λ i. record { kind_is = i.kind_is; name_is = i.name_is };
  counts = λ p. λ i. record { kind_is = i.kind_is; name_is = i.name_is };
  pops = λ frame. λ rest. λ p. λ e. λ i. record { kind_is = i.kind_is; name_is = i.name_is };
}

header_line-Expects :
    (kind name line : Text) (n : ℕ) (p : Parser)
    → Expects kind name p
    → Expects kind name (parse_header_line line n p)
unfolding parse_header_line set_header add
header_line-Expects kind name line n p i =
    opt_elim (Expects kind name) (header_words line) _ _
      (record { kind_is = i.kind_is; name_is = i.name_is })
      (λ words _.
        if_elim (Expects kind name) (valid_rest line words) _ _
          (λ _. record { kind_is = i.kind_is; name_is = i.name_is })
          (λ _. record { kind_is = i.kind_is; name_is = i.name_is }))

pub lines-Expects :
    (u : Unicode) (lines : List Text) (kind name : Text)
    → Expects (trim_space kind) (trim_space name) (parse_lines u lines 1 (new_parser kind name))
unfolding new_parser
lines-Expects u lines kind name =
    lines-Kept (Expects (trim_space kind) (trim_space name)) (Expects-Kept _ _)
      (header_line-Expects _ _) u lines 1 _ (record { kind_is = refl; name_is = refl })

name-Faulty : (p : Parser) → Faulty (check_name (check_kind (check_header p))) → Faulty (finish p)
unfolding finish
name-Faulty p = check_blocks-Kept Faulty Faulty-Kept (check_name (check_kind (check_header p)))

kind-Faulty : (p : Parser) → Faulty (check_kind (check_header p)) → Faulty (finish p)
kind-Faulty p f = name-Faulty p (check_name-Kept Faulty Faulty-Kept (check_kind (check_header p)) f)

header-Faulty : (p : Parser) → Faulty (check_header p) → Faulty (finish p)
header-Faulty p f = kind-Faulty p (check_kind-Kept Faulty Faulty-Kept (check_header p) f)

unseen-Faulty : (p : Parser) → p.seen_header ≡ false → Faulty (check_header p)
unfolding check_header
unseen-Faulty p e =
    if_elim Faulty (not p.seen_header) (add 0 missing_header p) p
      (λ _. add-Faulty 0 missing_header p) (λ n. absurd (clash (ap not e) n))

-- A parser that ends without an error has the header that ParseHeader reads.
pub finish-header :
    (found : Option Header) (p : Parser)
    → Read found p
    → Clean (finish p)
    → (h : Header) × (found ≡ some h) × HeaderIs h p
finish-header found p (faulty f) clean = absurd (clash clean (finish-Kept Faulty Faulty-Kept p f))
finish-header found p (unread e) clean = absurd (clash clean (header-Faulty p (unseen-Faulty p e)))
finish-header found p (read h e i) clean = (h, e, i)

mismatch :
    (e d : Text)
    → is_empty e ≡ false
    → is_empty d ≡ false
    → (not (is_empty e) && not (is_empty d) && not (text_eq d e)) ≡ false
    → d ≡ e
mismatch e d f g n = ground (arith, text_eq_iff d e)

check_kind-same :
    (p : Parser)
    → is_empty p.expected_kind ≡ false
    → is_empty p.doc.kind ≡ false
    → (p.doc.kind ≡ p.expected_kind) ⊎ Faulty (check_kind p)
unfolding check_kind
check_kind-same p e d =
    if_elim (λ q. (p.doc.kind ≡ p.expected_kind) ⊎ Faulty q)
      (not (is_empty p.expected_kind)
        && not (is_empty p.doc.kind)
        && not (text_eq p.doc.kind p.expected_kind))
      (add 0 kind_mismatch p) p (λ _. inr (add-Faulty 0 kind_mismatch p))
      (λ n. inl (mismatch p.expected_kind p.doc.kind e d n))

check_name-same :
    (p : Parser)
    → is_empty p.expected_name ≡ false
    → is_empty p.doc.name ≡ false
    → (p.doc.name ≡ p.expected_name) ⊎ Faulty (check_name p)
unfolding check_name
check_name-same p e d =
    if_elim (λ q. (p.doc.name ≡ p.expected_name) ⊎ Faulty q)
      (not (is_empty p.expected_name)
        && not (is_empty p.doc.name)
        && not (text_eq p.doc.name p.expected_name))
      (add 0 name_mismatch p) p (λ _. inr (add-Faulty 0 name_mismatch p))
      (λ n. inl (mismatch p.expected_name p.doc.name e d n))

pub finish-kind :
    (h : Header) (kind name : Text) (p : Parser)
    → HeaderIs h p
    → Expects kind name p
    → is_empty kind ≡ false
    → is_empty h.kind ≡ false
    → Clean (finish p)
    → h.kind ≡ kind
finish-kind h kind name p i x k d clean =
    elim (check_kind-same (check_header p) (subst (λ t. is_empty t ≡ false) (sym y.kind_is) k)
      (subst (λ t. is_empty t ≡ false) (sym j.kind) d)) [
        | inl same ↦ sym j.kind ∙ same ∙ y.kind_is
        | inr f ↦ absurd (clash clean (kind-Faulty p f))
      ]
  where
    j : HeaderIs h (check_header p)
    j = check_header-Kept (HeaderIs h) (HeaderIs-Kept h) p i

    y : Expects kind name (check_header p)
    y = check_header-Kept (Expects kind name) (Expects-Kept kind name) p x

pub finish-name :
    (h : Header) (kind name : Text) (p : Parser)
    → HeaderIs h p
    → Expects kind name p
    → is_empty name ≡ false
    → is_empty h.name ≡ false
    → Clean (finish p)
    → h.name ≡ name
finish-name h kind name p i x k d clean =
    elim (check_name-same (check_kind (check_header p))
      (subst (λ t. is_empty t ≡ false) (sym y.name_is) k)
      (subst (λ t. is_empty t ≡ false) (sym j.name) d)) [
        | inl same ↦ sym j.name ∙ same ∙ y.name_is
        | inr f ↦ absurd (clash clean (name-Faulty p f))
      ]
  where
    j : HeaderIs h (check_kind (check_header p))
    j =
        check_kind-Kept (HeaderIs h) (HeaderIs-Kept h) (check_header p)
          (check_header-Kept (HeaderIs h) (HeaderIs-Kept h) p i)

    y : Expects kind name (check_kind (check_header p))
    y =
        check_kind-Kept (Expects kind name) (Expects-Kept kind name) (check_header p)
          (check_header-Kept (Expects kind name) (Expects-Kept kind name) p x)
