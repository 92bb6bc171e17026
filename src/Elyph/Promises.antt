-- ===== src/Elyph/Promises.antt =====
-- What ELyph promises of a document (internal/elyph/parser.go, ast.go): its steps, and what a document
-- that is accepted shares with the header that ParseHeader reads.
use elbot.Base.{
  replace_crlf, ◌≤◌, ◌≡◌, refl, sym, subst, Bool, true, false, ◌∙◌, ap, ◌&&◌, ◌||◌, Option, none,
  some, List, [], ◌∷◌, Text, codes, fields, trim_prefix, Bool-cases, if◌then◌else◌, is_empty,
  text_eq, text_eq_iff, trim_space, has_prefix, arith, if_elim, opt_elim, ◌⊎◌, inl, inr,
}
use elbot.Elyph.Syntax.{Unicode, valid_name}
use elbot.Elyph.Parser.{Parser, Diagnostic, Document, header_words}
use elbot.Elyph.Statements.{parse_lines, is_skipped, finish}
use elbot.Elyph.Document.{
  Header, accepted, rejected, error_diagnostics, parsed, parse_document, validate_kind, lines_of,
  blank, new_parser, header_from, header_of, parse_header, is_error,
}
use elbot.Elyph.Lines.{lines-Kept, finish-Kept}
use elbot.Elyph.Steps.{
  StepsDistinct, open_steps, WellStepped, WellStepped-Kept, header_line-WellStepped,
}
use elbot.Elyph.Header.{HeaderIs, HeaderIs-Kept, lines-Read}
use elbot.Elyph.Accepted.{Clean, Expects, lines-Expects, finish-header, finish-kind, finish-name}

lines-WellStepped :
    (u : Unicode) (lines : List Text) (kind name : Text)
    → WellStepped (parse_lines u lines 1 (new_parser kind name))
unfolding new_parser
lines-WellStepped u lines kind name =
    lines-Kept WellStepped WellStepped-Kept header_line-WellStepped u lines 1 _
      (record { distinct = tt; unnested = ground arith })

-- Whatever the text, the steps of the parsed document have valid names, no two of them the same.
pub steps_distinct :
    (u : Unicode) (raw kind name : Text) → StepsDistinct (parse_document u raw kind name).0.steps
unfolding parse_document parsed
steps_distinct u raw kind name =
    if_elim (λ (r : Document × List Diagnostic). StepsDistinct r.0.steps)
      (is_empty (trim_space (replace_crlf raw))) blank
      ((parsed u (lines_of raw) kind name).doc, (parsed u (lines_of raw) kind name).diagnostics)
      (λ _. tt)
      (λ _.
        (finish-Kept WellStepped WellStepped-Kept
          (parse_lines u (lines_of raw) 1 (new_parser kind name))
          (lines-WellStepped u (lines_of raw) kind name)).distinct)

-- Steps do not nest: after any lines at most one of the open blocks is a step.
pub steps_unnested :
    (u : Unicode) (lines : List Text) (kind name : Text)
    → open_steps (parse_lines u lines 1 (new_parser kind name)).blocks ≤ 1
steps_unnested u lines kind name = (lines-WellStepped u lines kind name).unnested

not_blank :
    (b : Bool) (y : Document × List Diagnostic)
    → is_empty (error_diagnostics (if b then blank else y).1) ≡ true
    → (is_empty (error_diagnostics y.1) ≡ true) × ((if b then blank else y).0 ≡ y.0)
unfolding blank error_diagnostics is_error
not_blank true y e = ground arith
not_blank false y e = (e, refl)

-- A document with these diagnostics has been accepted.
validated :
    (p : Document × List Diagnostic) (doc : Document) (ds : List Diagnostic)
    → (if is_empty (error_diagnostics p.1) then accepted p.0 p.1 else rejected p.1)
      ≡ accepted doc ds
    → (is_empty (error_diagnostics p.1) ≡ true) × (p.0 ≡ doc)
validated p doc ds e = ground arith

validated-parsed :
    (u : Unicode) (raw kind name : Text) (doc : Document) (ds : List Diagnostic)
    → validate_kind u raw kind name ≡ accepted doc ds
    → Clean (parsed u (lines_of raw) kind name) × ((parsed u (lines_of raw) kind name).doc ≡ doc)
unfolding validate_kind parse_document
validated-parsed u raw kind name doc ds e = (clean.0, sym clean.1 ∙ found.1)
  where
    found :
        (is_empty (error_diagnostics (parse_document u raw kind name).1) ≡ true)
        × ((parse_document u raw kind name).0 ≡ doc)
    found = validated (parse_document u raw kind name) doc ds e

    clean :
        Clean (parsed u (lines_of raw) kind name)
        × ((parse_document u raw kind name).0 ≡ (parsed u (lines_of raw) kind name).doc)
    clean =
        not_blank (is_empty (trim_space (replace_crlf raw)))
          ((parsed u (lines_of raw) kind name).doc, (parsed u (lines_of raw) kind name).diagnostics)
          found.0

-- The parser of an accepted document.
record Parsed (raw kind name : Text) (doc : Document) (p : Parser) : Type 0 where
  clean : Clean (finish p)
  result : (finish p).doc ≡ doc
  header : Header
  found : header_from (lines_of raw) ≡ some header
  header_is : HeaderIs header p
  expects : Expects (trim_space kind) (trim_space name) p

accepted-Parsed :
    (u : Unicode) (raw kind name : Text) (doc : Document) (ds : List Diagnostic)
    → validate_kind u raw kind name ≡ accepted doc ds
    → Parsed raw kind name doc (parse_lines u (lines_of raw) 1 (new_parser kind name))
unfolding parsed new_parser
accepted-Parsed u raw kind name doc ds e =
    let v = validated-parsed u raw kind name doc ds e in
    let h =
      finish-header (header_from (lines_of raw))
        (parse_lines u (lines_of raw) 1 (new_parser kind name))
        (lines-Read u (lines_of raw) 1 (new_parser kind name) refl) v.0 in
    record {
      clean = v.0;
      result = v.1;
      header = h.0;
      found = h.1;
      header_is = h.2;
      expects = lines-Expects u (lines_of raw) kind name;
    }

doc-header :
    {raw kind name : Text} {doc : Document} {p : Parser} (q : Parsed raw kind name doc p)
    → (doc.kind ≡ q.header.kind) × (doc.name ≡ q.header.name)
doc-header {p = p} q = (
  ap (λ (d : Document). d.kind) (sym q.result) ∙ i.kind,
  ap (λ (d : Document). d.name) (sym q.result) ∙ i.name,
)
  where
    i : HeaderIs q.header (finish p)
    i = finish-Kept (HeaderIs q.header) (HeaderIs-Kept q.header) p q.header_is

-- Where a document is accepted, ParseHeader reads its header, with the same kind and the same name.
pub accepted_header :
    (u : Unicode) (raw kind name : Text) (doc : Document) (ds : List Diagnostic)
    → validate_kind u raw kind name ≡ accepted doc ds
    → (h : Header) × (parse_header raw ≡ some h) × (doc.kind ≡ h.kind) × (doc.name ≡ h.name)
unfolding parse_header
accepted_header u raw kind name doc ds e =
    let q = accepted-Parsed u raw kind name doc ds e in
    (q.header, q.found, (doc-header q).0, (doc-header q).1)

-- The header has a valid name and one of the two kinds.
abbrev HeaderShape : Text → Text → Type 0
HeaderShape kind name = (valid_name name ≡ true) × ((kind ≡ codes "skill") ⊎ (kind ≡ codes "task"))

marker-kind :
    (marker : Text)
    → (text_eq marker (codes "#skill") || text_eq marker (codes "#task")) ≡ true
    → (trim_prefix marker (codes "#") ≡ codes "skill")
      ⊎ (trim_prefix marker (codes "#") ≡ codes "task")
unfolding trim_prefix has_prefix
marker-kind marker e = elim (Bool-cases (text_eq marker (codes "#skill"))) [
  | inl y ↦ inl (ap (λ m. trim_prefix m (codes "#")) ((text_eq_iff marker (codes "#skill")).0 y))
  | inr n ↦
      inr (
        ap (λ m. trim_prefix m (codes "#")) ((text_eq_iff marker (codes "#task")).0 (ground arith)))
]

-- What the test on the two words lets through.
tested-words :
    (b c : Bool) (marker name : Text) (words : Text × Text)
    → (if b && c then some (marker, name) else none) ≡ some words
    → (b ≡ true) × (c ≡ true) × (marker ≡ words.0) × (name ≡ words.1)
tested-words b c marker name words e = ground arith

words-HeaderShape :
    (line : Text) (words : Text × Text)
    → header_words line ≡ some words
    → HeaderShape (header_of line words).kind (header_of line words).name
unfolding header_words header_of
words-HeaderShape line words e = go (fields line) e
  where
    go :
        (fs : List Text)
        → elim fs [
          | [] ↦ none
          | marker ∷ rest ↦ elim rest [
            | [] ↦ none
            | name ∷ more ↦
                if (text_eq marker (codes "#skill") || text_eq marker (codes "#task"))
                  && valid_name name
                then some (marker, name)
                else none
          ]
        ]
          ≡ some words
        → HeaderShape (trim_prefix words.0 (codes "#")) words.1
    go [] q = ground arith
    go (marker ∷ []) q = ground arith
    go (marker ∷ name ∷ more) q =
        let t = tested-words _ _ marker name words q in
        (
          subst (λ n. valid_name n ≡ true) t.3 t.1,
          subst
              (λ m.
                (trim_prefix m (codes "#") ≡ codes "skill")
                ⊎ (trim_prefix m (codes "#") ≡ codes "task"))
              t.2 (marker-kind marker t.0),
        )

found-HeaderShape :
    (lines : List Text) (h : Header) → header_from lines ≡ some h → HeaderShape h.kind h.name
unfolding header_from
found-HeaderShape [] h e = ground arith
found-HeaderShape (line ∷ rest) h e =
    if_elim (λ (o : Option Header). o ≡ some h → HeaderShape h.kind h.name)
      (is_skipped (trim_space line)) (header_from rest)
      (elim (header_words (trim_space line)) [
        | none ↦ none
        | some words ↦ some (header_of (trim_space line) words)
      ])
      (λ _. found-HeaderShape rest h)
      (λ _.
        opt_elim (λ (o : Option Header). o ≡ some h → HeaderShape h.kind h.name)
          (header_words (trim_space line)) none _ (λ q. ground arith)
          (λ words w q.
            subst (λ (g : Header). HeaderShape g.kind g.name) (some_inj q)
              (words-HeaderShape (trim_space line) words w)))
      e
  where
    some_inj : {A : Type 0} {a b : A} → some a ≡ some b → a ≡ b
    some_inj q = ground arith

kind-nonempty : (t : Text) → (t ≡ codes "skill") ⊎ (t ≡ codes "task") → is_empty t ≡ false
kind-nonempty t (inl e) = ap is_empty e
kind-nonempty t (inr e) = ap is_empty e

name-nonempty : (t : Text) → valid_name t ≡ true → is_empty t ≡ false
unfolding valid_name
name-nonempty [] e = ground arith
name-nonempty (c ∷ t) e = refl

-- Where the caller expects a kind and a name, neither of them blank, an accepted document has a valid
-- name, the kind skill or task, and that kind and that name, blanks around them left out.
pub accepted_as_expected :
    (u : Unicode) (raw kind name : Text) (doc : Document) (ds : List Diagnostic)
    → validate_kind u raw kind name ≡ accepted doc ds
    → is_empty (trim_space kind) ≡ false
    → is_empty (trim_space name) ≡ false
    → (valid_name doc.name ≡ true)
      × ((doc.kind ≡ codes "skill") ⊎ (doc.kind ≡ codes "task"))
      × (doc.kind ≡ trim_space kind)
      × (doc.name ≡ trim_space name)
accepted_as_expected u raw kind name doc ds e k n =
    let q = accepted-Parsed u raw kind name doc ds e in
    let shape = found-HeaderShape (lines_of raw) q.header q.found in
    let same = doc-header q in
    (
      ap valid_name same.1 ∙ shape.0,
      subst (λ t. (t ≡ codes "skill") ⊎ (t ≡ codes "task")) (sym same.0) shape.1,
      same.0 ∙ finish-kind q.header _ _ _ q.header_is q.expects k (kind-nonempty _ shape.1) q.clean,
      same.1 ∙ finish-name q.header _ _ _ q.header_is q.expects n (name-nonempty _ shape.0) q.clean,
    )
