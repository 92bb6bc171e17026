-- ===== src/Elyph/Header.antt =====
-- The header of a document (internal/elyph/parser.go): what ParseHeader reads is what the parser keeps.
use elbot.Base.{
  ℕ, ◌+◌, ◌≡◌, refl, sym, ap, subst, Bool, true, false, not, Option, none, some, List, [], ◌∷◌,
  ◌++◌, Text, inl, inr, Bool-cases, if_true, if_false, ◌∙◌, if◌then◌else◌, is_empty, trim_space,
  arith, if_elim, opt_elim,
}
use elbot.Elyph.Syntax.{Unicode}
use elbot.Elyph.Parser.{
  Parser, Diagnostic, Message, add, warn, open_block, header_words, parse_header_line, set_header,
  valid_rest, first_statement,
}
use elbot.Elyph.Statements.{parse_line, parse_lines, is_skipped, add_step}
use elbot.Elyph.Document.{Header, header_of, header_from, error_diagnostics, is_error}
use elbot.Elyph.Effects.{Kept}
use elbot.Elyph.Lines.{lines-Kept, line-Kept}

-- The diagnostics hold an error, so that the document is not accepted.
abbrev pub Faulty : Parser → Type 0
Faulty p = is_empty (error_diagnostics p.diagnostics) ≡ false

append_error-Faulty :
    (d : Diagnostic) (ds : List Diagnostic)
    → is_error d.severity ≡ true
    → is_empty (error_diagnostics (ds ++ (d ∷ []))) ≡ false
unfolding error_diagnostics
append_error-Faulty d [] h = ground arith
append_error-Faulty d (e ∷ rest) h = ground (arith, append_error-Faulty d rest h)

append-Faulty :
    (d : Diagnostic) (ds : List Diagnostic)
    → is_empty (error_diagnostics ds) ≡ false
    → is_empty (error_diagnostics (ds ++ (d ∷ []))) ≡ false
unfolding error_diagnostics
append-Faulty d [] h = ground arith
append-Faulty d (e ∷ rest) h = ground (arith, append-Faulty d rest)

pub add-Faulty : (n : ℕ) (m : Message) (p : Parser) → Faulty (add n m p)
unfolding add is_error
add-Faulty n m p = append_error-Faulty _ p.diagnostics refl

pub Faulty-Kept : Kept Faulty
unfolding add warn open_block add_step
Faulty-Kept = record {
  adds = λ n. λ e. λ p. λ h. add-Faulty n e p;
  warns = λ n. λ e. λ p. λ h. append-Faulty _ p.diagnostics h;
  opens = λ k. λ p. λ plain. λ h. h;
  steps = λ name. λ n. λ p. λ v. λ c. λ h. h;
  opens_step = λ name. λ n. λ p. λ v. λ c. λ h. h;
  forgets = λ c. λ p. λ h. h;
  counts = λ p. λ h. h;
  pops = λ frame. λ rest. λ p. λ e. λ h. h;
}

header_line-Faulty :
    (line : Text) (n : ℕ) (p : Parser) → Faulty p → Faulty (parse_header_line line n p)
unfolding parse_header_line set_header
header_line-Faulty line n p h =
    opt_elim Faulty (header_words line) _ _ (add-Faulty n first_statement p) (λ words _.
      if_elim Faulty (valid_rest line words) _ _ (λ _. h) (λ _. add-Faulty n first_statement p))

-- The header of the document is `h`.
pub record HeaderIs (h : Header) (p : Parser) : Type 0 where
  pub seen : p.seen_header ≡ true
  pub kind : p.doc.kind ≡ h.kind
  pub name : p.doc.name ≡ h.name

pub HeaderIs-Kept : (h : Header) → Kept (HeaderIs h)
unfolding add warn open_block add_step
HeaderIs-Kept h = record {
  adds = λ n. λ e. λ p. λ i. record { seen = i.seen; kind = i.kind; name = i.name };
  warns = λ n. λ e. λ p. λ i. record { seen = i.seen; kind = i.kind; name = i.name };
  opens = λ k. λ p. λ plain. λ i. record { seen = i.seen; kind = i.kind; name = i.name };
  steps = λ name. λ n. λ p. λ v. λ c. λ i. record { seen = i.seen; kind = i.kind; name = i.name };
  opens_step =
      λ name. λ n. λ p. λ v. λ c. λ i. record { seen = i.seen; kind = i.kind; name = i.name };
  forgets = λ c. λ p. λ i. record { seen = i.seen; kind = i.kind; name = i.name };
  counts = λ p. λ i. record { seen = i.seen; kind = i.kind; name = i.name };
  pops = λ frame. λ rest. λ p. λ e. λ i. record { seen = i.seen; kind = i.kind; name = i.name };
}

-- What a line that is not skipped makes of a parser that has seen no header.
pub data Decided (found : Option Header) (p : Parser) : Type 0 where
  wrong : Faulty p → Decided found p
  right : (h : Header) → found ≡ some h → HeaderIs h p → Decided found p

-- What the lines make of it.
pub data Read (found : Option Header) (p : Parser) : Type 0 where
  faulty : Faulty p → Read found p
  unread : p.seen_header ≡ false → Read found p
  read : (h : Header) → found ≡ some h → HeaderIs h p → Read found p

lines-Faulty :
    (u : Unicode) (lines : List Text) (n : ℕ) (p : Parser)
    → Faulty p
    → Faulty (parse_lines u lines n p)
lines-Faulty = lines-Kept Faulty Faulty-Kept header_line-Faulty

seen_lines-HeaderIs :
    (h : Header) (u : Unicode) (lines : List Text) (n : ℕ) (p : Parser)
    → HeaderIs h p
    → HeaderIs h (parse_lines u lines n p)
unfolding parse_lines
seen_lines-HeaderIs h u [] n p i = i
seen_lines-HeaderIs h u (line ∷ rest) n p i = seen_lines-HeaderIs h u rest (n + 1) _ (
    line-Kept (HeaderIs h) (HeaderIs-Kept h) u (trim_space line) n p (λ e. absurd (clash i.seen e))
      i)
  where
    clash : {b : Bool} → b ≡ true → b ≡ false → ⊥
    clash x y = ground arith

header_line-Decided :
    (line : Text) (n : ℕ) (p : Parser) (o : Option (Text × Text))
    → Decided
        (elim o [ none ↦ none | some words ↦ some (header_of line words) ])
        (elim o [
          | none ↦ add n first_statement p
          | some words ↦
              if valid_rest line words then set_header words p else add n first_statement p
        ])
unfolding set_header header_of
header_line-Decided line n p none = wrong (add-Faulty n first_statement p)
header_line-Decided line n p (some words) =
    if_elim (λ q. Decided (some (header_of line words)) q) (valid_rest line words) _ _
      (λ _. right _ refl (record { seen = refl; kind = refl; name = refl }))
      (λ _. wrong (add-Faulty n first_statement p))

-- The lines behind a line that decides the header.
rest-Read :
    (u : Unicode) (rest : List Text) (n : ℕ) (o : Option Header) (p : Parser)
    → Decided o p
    → Read o (parse_lines u rest n p)
rest-Read u rest n o p (wrong f) = faulty (lines-Faulty u rest n p f)
rest-Read u rest n o p (right h e i) = read h e (seen_lines-HeaderIs h u rest n p i)

first_header : Text → Option Header
unfolding header_of header_words
first_header line = elim (header_words line) [
  | none ↦ none
  | some words ↦ some (header_of line words)
]

first-Decided :
    (line : Text) (n : ℕ) (p : Parser) → Decided (first_header line) (parse_header_line line n p)
unfolding first_header parse_header_line
first-Decided line n p = header_line-Decided line n p (header_words line)

parse_line-skipped :
    (u : Unicode) (line : Text) (n : ℕ) (p : Parser)
    → is_skipped line ≡ true
    → parse_line u line n p ≡ p
unfolding parse_line
parse_line-skipped u line n p e = if_true e _ _

parse_line-header :
    (u : Unicode) (line : Text) (n : ℕ) (p : Parser)
    → is_skipped line ≡ false
    → p.seen_header ≡ false
    → parse_line u line n p ≡ parse_header_line line n p
unfolding parse_line
parse_line-header u line n p e unseen = if_false e _ _ ∙ if_true (ap not unseen) _ _

pub lines-Read :
    (u : Unicode) (lines : List Text) (n : ℕ) (p : Parser)
    → p.seen_header ≡ false
    → Read (header_from lines) (parse_lines u lines n p)
unfolding parse_lines header_from first_header
lines-Read u [] n p unseen = unread unseen
lines-Read u (line ∷ rest) n p unseen = elim (Bool-cases (is_skipped (trim_space line))) [
  | inl skipped ↦
      subst (λ o. Read o (parse_lines u rest (n + 1) (parse_line u (trim_space line) n p)))
        (sym (if_true skipped _ _))
        (subst (λ q. Read (header_from rest) (parse_lines u rest (n + 1) q))
          (sym (parse_line-skipped u (trim_space line) n p skipped))
          (lines-Read u rest (n + 1) p unseen))
  | inr held ↦
      subst (λ o. Read o (parse_lines u rest (n + 1) (parse_line u (trim_space line) n p)))
        (sym (if_false held _ _))
        (subst (λ q. Read (first_header (trim_space line)) (parse_lines u rest (n + 1) q))
          (sym (parse_line-header u (trim_space line) n p held unseen))
          (rest-Read u rest (n + 1) _ _ (first-Decided (trim_space line) n p)))
]
