-- ===== src/Elyph/Effects.antt =====
-- What a line can do to the parser's state (internal/elyph/parser.go): every method is made of a few
-- changes, so a property that these keep is kept by every line.
use elbot.Base.{
  ℕ, ◌≡◌, refl, Bool, true, false, not, ◌&&◌, ◌||◌, Option, none, some, List, [], ◌∷◌, Text, codes,
  if◌then◌else◌, ◌==◌, is_empty, if_elim, opt_elim, has_prefix, has_suffix, contains_any, cut,
  index_of, pos_part, trim_space, trim_prefix, text_eq, trim_suffix,
}
use elbot.Elyph.Syntax.{Unicode, valid_step_name, parse_typed_variable, parse_assignment_parts}
use elbot.Elyph.Parser.{
  BlockKind, block_if, block_else, block_each, block_step, BlockFrame, Message, step_block_empty,
  step_block_single, reserved_variable, ternary_shape, ternary_ok, inner, is_if, if_shape,
  else_shape, else_orphan, each_shape, each_limit, output_text, call_shape, text_required,
  text_colon, invalid_token, derive_shape, assignment_shape, Parser, add, warn, open_block, is_step,
  close_block, close_frames, check_step_block, parse_io, parse_assignment, parse_derive, parse_if,
  parse_else, check_reserved_variable, check_derive_expression,
}
use elbot.Elyph.Statements.{
  parse_each, step_context, add_step, parse_output, parse_call, parse_text_slot, parse_simple,
  each_head, call_ok, count_statement,
}

-- A property of the state that each change keeps.
pub record Kept (P : Parser → Type 0) : Type 0 where
  pub adds : (n : ℕ) (e : Message) (p : Parser) → P p → P (add n e p)
  pub warns : (n : ℕ) (e : Message) (p : Parser) → P p → P (warn n e p)
  pub opens : (k : BlockKind) (p : Parser) → is_step k ≡ false → P p → P (open_block k p)
  pub steps :
      (name : Text) (n : ℕ) (p : Parser)
      → valid_step_name name ≡ true
      → step_context name p ≡ none
      → P p
      → P (add_step name n p)
  pub opens_step :
      (name : Text) (n : ℕ) (p : Parser)
      → valid_step_name name ≡ true
      → step_context name p ≡ none
      → P p
      → P (open_block block_step (add_step name n p))
  pub forgets : (c : Option BlockKind) (p : Parser) → P p → P (record p { last_closed = c })
  pub counts : (p : Parser) → P p → P (record p { blocks = count_statement p.blocks })
  pub pops :
      (frame : BlockFrame) (rest : List BlockFrame) (p : Parser)
      → p.blocks ≡ frame ∷ rest
      → P p
      → P (record p { blocks = rest })

module _ (P : Parser → Type 0) (k : Kept P) where
  frames-Kept :
      (bs : List BlockFrame) (n : ℕ) (p : Parser) → p.blocks ≡ bs → P p → P (close_frames bs n p)
  unfolding close_frames check_step_block
  frames-Kept [] n p e h = k.forgets none _ (k.adds n _ p h)
  frames-Kept (frame ∷ rest) n p e h = k.forgets (some frame.kind) _ (
      if_elim P (is_step frame.kind && frame.direct_count == 0) _ _
        (λ _. k.adds n step_block_empty _ popped)
        (λ _.
          if_elim P (is_step frame.kind && frame.direct_count == 1) _ _
            (λ _. k.adds n step_block_single _ popped) (λ _. popped)))
    where
      popped : P (record p { blocks = rest })
      popped = k.pops frame rest p e h

  pub close-Kept : (n : ℕ) (p : Parser) → P p → P (close_block n p)
  unfolding close_block
  close-Kept n p h = frames-Kept p.blocks n p refl h

  reserved-Kept : (name : Text) (n : ℕ) (p : Parser) → P p → P (check_reserved_variable name n p)
  unfolding check_reserved_variable
  reserved-Kept name n p h =
      if_elim P (text_eq name (codes "$user") || text_eq name (codes "$assistant")) _ _
        (λ _. k.adds n (reserved_variable name) p h) (λ _. h)

  derive_expression-Kept : (e : Text) (n : ℕ) (p : Parser) → P p → P (check_derive_expression e n p)
  unfolding check_derive_expression
  derive_expression-Kept e n p h =
      opt_elim P (cut b'?' e) _ _ h
        (λ a _. if_elim P (ternary_ok a.0 a.1) _ _ (λ _. h) (λ _. k.adds n ternary_shape p h))

  io-Kept :
      (u : Unicode) (line : Text) (n : ℕ) (input : Bool) (p : Parser)
      → P p
      → P (parse_io u line n input p)
  unfolding parse_io
  io-Kept u line n input p h =
      opt_elim P
        (parse_typed_variable u
          (trim_space (trim_prefix line (codes (if input then "<-" else "->")))))
        _ _ (k.adds n _ p h)
        (λ v _. if_elim P (not input && not (is_empty v.marker)) _ _ (λ _. k.adds n _ p h) (λ _. h))

  assignment-Kept :
      (u : Unicode) (line : Text) (n : ℕ) (p : Parser) → P p → P (parse_assignment u line n p)
  unfolding parse_assignment
  assignment-Kept u line n p h =
      opt_elim P (parse_assignment_parts u line) _ _ (k.adds n assignment_shape p h) (λ v _.
        if_elim P (is_empty (trim_space v.1)) _ _ (λ _. k.adds n assignment_shape p h)
          (λ _. reserved-Kept v.0.name n p h))

  derive-Kept : (u : Unicode) (line : Text) (n : ℕ) (p : Parser) → P p → P (parse_derive u line n p)
  unfolding parse_derive
  derive-Kept u line n p h =
      opt_elim P (parse_assignment_parts u (trim_space (trim_prefix line (codes "=>")))) _ _
        (k.adds n derive_shape p h)
        (λ v _.
          if_elim P (is_empty (trim_space v.1)) _ _ (λ _. k.adds n derive_shape p h)
            (λ _. derive_expression-Kept v.1 n _ (reserved-Kept v.0.name n p h)))

  pub if-Kept : (line : Text) (n : ℕ) (p : Parser) → P p → P (parse_if line n p)
  unfolding parse_if is_step
  if-Kept line n p h =
      if_elim P (not (has_suffix line (codes "{"))) _ _ (λ _. k.adds n if_shape p h)
        (λ _.
          if_elim P
            (not (has_prefix body (codes "("))
              || not (has_suffix body (codes ")"))
              || is_empty (trim_space (inner body))
              || contains_any (inner body) (codes "{}"))
            _ _ (λ _. k.opens block_if _ refl (k.adds n if_shape p h))
            (λ _. k.opens block_if p refl h))
    where
      body : Text
      body = trim_space (trim_suffix (trim_prefix line (codes "?if")) (codes "{"))

  pub else-Kept : (line : Text) (n : ℕ) (p : Parser) → P p → P (parse_else line n p)
  unfolding parse_else is_step
  else-Kept line n p h =
      if_elim P (not (text_eq (trim_space (trim_prefix line (codes "?else"))) (codes "{"))) _ _
        (λ _. k.adds n else_shape p h)
        (λ _.
          if_elim P (not (is_if p.last_closed)) _ _ (λ _. k.adds n else_orphan p h)
            (λ _. k.opens block_else p refl h))

  pub each-Kept : (u : Unicode) (line : Text) (n : ℕ) (p : Parser) → P p → P (parse_each u line n p)
  unfolding parse_each is_step
  each-Kept u line n p h =
      if_elim P (not (has_prefix line (codes "each(")) || not (has_suffix line (codes "{"))) _ _
        (λ _.
          if_elim P (has_suffix line (codes "{")) _ _
            (λ _. k.opens block_each _ refl (k.adds n each_shape p h))
            (λ _. k.adds n each_shape p h))
        (λ _.
          opt_elim P
            (each_head u (trim_space (trim_suffix (trim_prefix line (codes "each(")) (codes "{"))))
            _ _ (k.opens block_each _ refl (k.adds n each_shape p h))
            (λ limit _.
              if_elim P (pos_part limit == 0) _ _ (λ _. k.adds n each_limit p h)
                (λ _. k.opens block_each p refl h)))

  output-Kept : (line : Text) (n : ℕ) (p : Parser) → P p → P (parse_output line n p)
  unfolding parse_output
  output-Kept line n p h =
      if_elim P (not (text_eq line (codes ">")) && not (has_prefix line (codes "> "))) _ _
        (λ _. k.adds n output_text p h) (λ _. h)

  call-Kept :
      (u : Unicode) (line : Text) (n : ℕ) (prefix : Text) (p : Parser)
      → P p
      → P (parse_call u line n prefix p)
  unfolding parse_call
  call-Kept u line n prefix p h =
      opt_elim P (index_of rest (codes "(")) _ _ (k.adds n call_shape p h)
        (λ start _. if_elim P (call_ok u rest start) _ _ (λ _. h) (λ _. k.adds n call_shape p h))
    where
      rest : Text
      rest = trim_space (trim_prefix line prefix)

  text_slot-Kept :
      (line : Text) (n : ℕ) (prefix : Text) (p : Parser) → P p → P (parse_text_slot line n prefix p)
  unfolding parse_text_slot
  text_slot-Kept line n prefix p h =
      if_elim P (is_empty text) _ _ (λ _. k.adds n (text_required prefix) p h)
        (λ _.
          if_elim P (has_suffix text (codes ":") || has_suffix text (codes "：")) _ _
            (λ _. k.warns n (text_colon prefix) p h) (λ _. h))
    where
      text : Text
      text = trim_space (trim_prefix line prefix)

  pub simple-Kept :
      (u : Unicode) (line : Text) (n : ℕ) (p : Parser) → P p → P (parse_simple u line n p)
  unfolding parse_simple
  simple-Kept u line n p h =
      if_elim P (has_prefix line (codes "<-")) _ _ (λ _. io-Kept u line n true p h)
        (λ _.
          if_elim P (has_prefix line (codes "->")) _ _ (λ _. io-Kept u line n false p h)
            (λ _.
              if_elim P (has_prefix line (codes "=>")) _ _ (λ _. derive-Kept u line n p h)
                (λ _.
                  if_elim P (has_prefix line (codes "$")) _ _ (λ _. assignment-Kept u line n p h)
                    (λ _.
                      if_elim P (has_prefix line (codes ">")) _ _ (λ _. output-Kept line n p h)
                        (λ _.
                          if_elim P (has_prefix line (codes "@tool")) _ _
                            (λ _. call-Kept u line n _ p h)
                            (λ _.
                              if_elim P (has_prefix line (codes "@skill")) _ _
                                (λ _. call-Kept u line n _ p h)
                                (λ _.
                                  if_elim P (has_prefix line (codes "**")) _ _
                                    (λ _. text_slot-Kept line n _ p h)
                                    (λ _.
                                      if_elim P (has_prefix line (codes "~")) _ _
                                        (λ _. text_slot-Kept line n _ p h)
                                        (λ _. k.adds n invalid_token p h)))))))))
