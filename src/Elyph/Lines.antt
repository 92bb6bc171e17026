-- ===== src/Elyph/Lines.antt =====
-- Steps, the dispatch of a statement and a whole line (internal/elyph/parser.go): what the changes of
-- Effects keep is kept by every line below the header.
use elbot.Base.{
  ℕ, ◌+◌, ◌≡◌, refl, List, [], ◌∷◌, ◌&&◌, Bool, true, false, not, ◌||◌, Option, none, some, Text,
  codes, is_empty, if_elim, opt_elim, has_prefix, has_suffix, cut, trim_space, trim_prefix, text_eq,
  trim_suffix, arith,
}
use elbot.Elyph.Syntax.{Unicode, valid_step_name}
use elbot.Elyph.Parser.{
  Message, step_empty_body, step_single_body, step_shape, step_block_shape, step_single_shape,
  else_spelling, header_once, missing_header, kind_mismatch, name_mismatch, unclosed_block,
  parse_header_line, Parser,
}
use elbot.Elyph.Statements.{
  step_context, step_name_error, parse_step_block, valid_step_single_body, is_skipped,
  forget_closed, parse_step_single, parse_step, parse_statement_content, parse_line, parse_lines,
  check_header, check_kind, check_name, check_blocks, finish,
}
use elbot.Elyph.Effects.{Kept, close-Kept, simple-Kept, if-Kept, else-Kept, each-Kept}

-- A name that no message is for is valid.
step_name_error-none :
    (name : Text) (shape : Message)
    → step_name_error name shape ≡ none
    → valid_step_name name ≡ true
unfolding step_name_error
step_name_error-none name shape h = ground arith

not-true : (b : Bool) → not b ≡ true → b ≡ false
not-true true f = ground arith
not-true false f = refl

-- A message, or the next test.
error_elim {κ} :
    (P : Parser → Type κ) (o : Option Message) (x : Parser) (f : Message → Parser)
    → ((e : Message) → P (f e))
    → (o ≡ none → P x)
    → P (elim o [ some e ↦ f e | none ↦ x ])
error_elim P none x f s c = c refl
error_elim P (some e) x f s c = s e

module _ (P : Parser → Type 0) (k : Kept P) where
  forget_closed-Kept : (line : Text) (p : Parser) → P p → P (forget_closed line p)
  unfolding forget_closed
  forget_closed-Kept line p h =
      if_elim P (has_prefix line (codes "?else")) _ _ (λ _. h) (λ _. k.forgets none p h)

  step_block-Kept : (text : Text) (n : ℕ) (p : Parser) → P p → P (parse_step_block text n p)
  unfolding parse_step_block
  step_block-Kept text n p h =
      error_elim P (step_name_error name step_block_shape) _ _ (λ a. k.adds n a p h)
        (λ named.
          error_elim P (step_context name p) _ _ (λ a. k.adds n a p h)
            (λ fresh. k.opens_step name n p (step_name_error-none name _ named) fresh h))
    where
      name : Text
      name = trim_space (trim_suffix text (codes "{"))

  step_single-Kept :
      (u : Unicode) (name_text after_text : Text) (n : ℕ) (p : Parser)
      → P p
      → P (parse_step_single u name_text after_text n p)
  unfolding parse_step_single
  step_single-Kept u name_text after_text n p h =
      error_elim P (step_name_error name step_single_shape) _ _ (λ a. k.adds n a p h)
        (λ named.
          if_elim P (is_empty after) _ _ (λ _. k.adds n step_empty_body p h)
            (λ _.
              if_elim P (not (valid_step_single_body after)) _ _
                (λ _. k.adds n step_single_body p h)
                (λ _.
                  error_elim P (step_context name p) _ _ (λ a. k.adds n a p h)
                    (λ fresh. simple-Kept P k u after n _ (
                      forget_closed-Kept after _
                        (k.steps name n p (step_name_error-none name _ named) fresh h))))))
    where
      name : Text
      name = trim_space name_text

      after : Text
      after = trim_space after_text

  step-Kept : (u : Unicode) (line : Text) (n : ℕ) (p : Parser) → P p → P (parse_step u line n p)
  unfolding parse_step
  step-Kept u line n p h =
      if_elim P (has_suffix rest (codes "{")) _ _ (λ _. step_block-Kept rest n p h)
        (λ _. opt_elim P (cut b':' rest) _ _ (k.adds n step_shape p h) (λ v _.
          if_elim P (is_empty v.0) _ _ (λ _. k.adds n step_shape p h)
            (λ _. step_single-Kept u v.0 v.1 n p h)))
    where
      rest : Text
      rest = trim_space (trim_prefix line (codes "step"))

  statement-Kept :
      (u : Unicode) (line : Text) (n : ℕ) (p : Parser)
      → P p
      → P (parse_statement_content u line n p)
  unfolding parse_statement_content
  statement-Kept u line n p0 h0 =
      if_elim P (has_prefix line (codes "?if")) _ _ (λ _. if-Kept P k line n p h)
        (λ _.
          if_elim P (has_prefix line (codes "?else")) _ _ (λ _. else-Kept P k line n p h)
            (λ _.
              if_elim P (has_prefix line (codes "? else") || has_prefix line (codes "else")) _ _
                (λ _. k.adds n else_spelling p h)
                (λ _.
                  if_elim P (has_prefix line (codes "each")) _ _ (λ _. each-Kept P k u line n p h)
                    (λ _.
                      if_elim P (has_prefix line (codes "step")) _ _ (λ _. step-Kept u line n p h)
                        (λ _. simple-Kept P k u line n p h)))))
    where
      p : Parser
      p = forget_closed line p0

      h : P (forget_closed line p0)
      h = forget_closed-Kept line p0 h0

  pub line-Kept :
      (u : Unicode) (line : Text) (n : ℕ) (p : Parser)
      → (p.seen_header ≡ false → P (parse_header_line line n p))
      → P p
      → P (parse_line u line n p)
  unfolding parse_line
  line-Kept u line n p header h =
      if_elim P (is_skipped line) _ _ (λ _. h)
        (λ _.
          if_elim P (not p.seen_header) _ _ (λ y. header (not-true p.seen_header y))
            (λ _.
              if_elim P (has_prefix line (codes "#")) _ _ (λ _. k.adds n header_once p h)
                (λ _.
                  if_elim P (text_eq line (codes "}")) _ _ (λ _. close-Kept P k n p h)
                    (λ _. statement-Kept u line n _ (k.counts p h)))))

  -- The lines of a document, where the header's line keeps the property too.
  pub lines-Kept :
      ((line : Text) (n : ℕ) (p : Parser) → P p → P (parse_header_line line n p))
      → (u : Unicode) (lines : List Text) (n : ℕ) (p : Parser) → P p
      → P (parse_lines u lines n p)
  unfolding parse_lines
  lines-Kept header u [] n p h = h
  lines-Kept header u (line ∷ rest) n p h =
      lines-Kept header u rest (n + 1) _
        (line-Kept u (trim_space line) n p (λ _. header (trim_space line) n p h) h)

  pub check_header-Kept : (p : Parser) → P p → P (check_header p)
  unfolding check_header
  check_header-Kept p h =
      if_elim P (not p.seen_header) _ _ (λ _. k.adds 0 missing_header p h) (λ _. h)

  pub check_kind-Kept : (p : Parser) → P p → P (check_kind p)
  unfolding check_kind
  check_kind-Kept p h =
      if_elim P
        (not (is_empty p.expected_kind)
          && not (is_empty p.doc.kind)
          && not (text_eq p.doc.kind p.expected_kind))
        _ _ (λ _. k.adds 0 kind_mismatch p h) (λ _. h)

  pub check_name-Kept : (p : Parser) → P p → P (check_name p)
  unfolding check_name
  check_name-Kept p h =
      if_elim P
        (not (is_empty p.expected_name)
          && not (is_empty p.doc.name)
          && not (text_eq p.doc.name p.expected_name))
        _ _ (λ _. k.adds 0 name_mismatch p h) (λ _. h)

  pub check_blocks-Kept : (p : Parser) → P p → P (check_blocks p)
  unfolding check_blocks
  check_blocks-Kept p h =
      if_elim P (not (is_empty p.blocks)) _ _ (λ _. k.adds 0 unclosed_block p h) (λ _. h)

  pub finish-Kept : (p : Parser) → P p → P (finish p)
  unfolding finish
  finish-Kept p h =
      check_blocks-Kept _ (check_name-Kept _ (check_kind-Kept _ (check_header-Kept p h)))
