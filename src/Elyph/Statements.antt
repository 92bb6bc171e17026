-- ===== src/Elyph/Statements.antt =====
-- Loops, steps, calls and texts, and the dispatch of a line (internal/elyph/parser.go).
use elbot.Base.{
  ℕ, ◌+◌, ◌-◌, Bool, true, false, not, ◌&&◌, ◌||◌, Option, none, some, List, [], ◌∷◌, ◌++◌, Text,
  codes, if◌then◌else◌, ltb, ◌==◌, text_eq, is_empty, length, take, drop, trim_space, has_prefix,
  has_suffix, trim_prefix, trim_suffix, index_of, cut, fields, contains_any, atoi, ℤ, pos_part,
}
use elbot.Elyph.Syntax.{
  Unicode, valid_name, valid_step_name, valid_variable, split_top_level, valid_call_args,
}
use elbot.Elyph.Parser.{
  block_each, block_step, BlockFrame, Message, each_shape, each_limit, step_shape, step_block_shape,
  step_single_shape, step_name, step_empty_body, step_single_body, step_nested, step_used,
  output_text, call_shape, text_required, text_colon, else_spelling, invalid_token, header_once,
  missing_header, kind_mismatch, name_mismatch, unclosed_block, ElyphStep, Parser, add, warn,
  open_block, is_step, close_block, parse_header_line, parse_io, parse_assignment, parse_derive,
  parse_if, parse_else,
}

-- The variables of `each($item in $items`.
loop_ok : Unicode → List Text → Bool
loop_ok u (item ∷ word ∷ items ∷ []) =
    valid_variable u item && text_eq word (codes "in") && valid_variable u items
loop_ok u _ = false

-- The number after `limit=`.
limit_of : Text → Option ℤ
limit_of part = elim (cut b'=' (trim_space part)) [
  | none ↦ none
  | some (key, value) ↦
      if text_eq (trim_space key) (codes "limit") then atoi (trim_space value) else none
]

-- The limit of the two parts of a loop's head, if they have the right shape.
each_limit_of : Unicode → List Text → Option ℤ
unfolding loop_ok limit_of
each_limit_of u (loop ∷ limit ∷ []) = if loop_ok u (fields loop) then limit_of limit else none
each_limit_of u _ = none

unfoldable pub each_head : Unicode → Text → Option ℤ
unfolding each_limit_of
each_head u body =
    if has_suffix body (codes ")")
    then each_limit_of u (split_top_level (trim_space (trim_suffix body (codes ")"))) b',')
    else none

unfoldable pub parse_each : Unicode → Text → ℕ → Parser → Parser
unfolding each_head open_block add
parse_each u line n p =
    if not (has_prefix line (codes "each(")) || not (has_suffix line (codes "{"))
    then (if has_suffix line (codes "{")
        then open_block block_each (add n each_shape p)
        else add n each_shape p)
    else elim (each_head u
        (trim_space (trim_suffix (trim_prefix line (codes "each(")) (codes "{")))) [
          | none ↦ open_block block_each (add n each_shape p)
          | some limit ↦ if pos_part limit == 0 then add n each_limit p else open_block block_each p
        ]

unfoldable pub has_step_frame : List BlockFrame → Bool
unfolding is_step
has_step_frame [] = false
has_step_frame (frame ∷ rest) = is_step frame.kind || has_step_frame rest

unfoldable pub has_step_name : Text → List ElyphStep → Bool
has_step_name name [] = false
has_step_name name (s ∷ rest) = text_eq s.name name || has_step_name name rest

-- rejectStepContext: the message, where the step is refused.
unfoldable pub step_context : Text → Parser → Option Message
unfolding has_step_frame has_step_name
step_context name p =
    if has_step_frame p.blocks
    then some step_nested
    else (if has_step_name name p.doc.steps then some (step_used name) else none)

unfoldable pub add_step : Text → ℕ → Parser → Parser
add_step name n p = record p {
  doc = record (p.doc) { steps = p.doc.steps ++ (record { name = name; line = n } ∷ []) };
}

-- The tests on a step's name that both forms make; `shape` is the form's message.
unfoldable pub step_name_error : Text → Message → Option Message
step_name_error name shape =
    if is_empty name || contains_any name (codes " \t")
    then some shape
    else (if not (valid_step_name name) then some step_name else none)

unfoldable pub parse_step_block : Text → ℕ → Parser → Parser
unfolding step_name_error step_context add_step open_block add
parse_step_block rest n p =
    let name = trim_space (trim_suffix rest (codes "{")) in
    elim (step_name_error name step_block_shape) [
      | some e ↦ add n e p
      | none ↦ elim (step_context name p) [
        | some e ↦ add n e p
        | none ↦ open_block block_step (add_step name n p)
      ]
    ]

-- validStepSingleBody
unfoldable pub valid_step_single_body : Text → Bool
valid_step_single_body after =
    has_prefix after (codes "$")
    || has_prefix after (codes "=>")
    || has_prefix after (codes ">")
    || has_prefix after (codes "@tool")
    || has_prefix after (codes "@skill")
    || has_prefix after (codes "**")
    || has_prefix after (codes "~")
    || has_prefix after (codes "<-")
    || has_prefix after (codes "->")

unfoldable pub parse_output : Text → ℕ → Parser → Parser
unfolding add
parse_output line n p =
    if not (text_eq line (codes ">")) && not (has_prefix line (codes "> "))
    then add n output_text p
    else p

-- A call's name and arguments: what stands before the first parenthesis, and between it and the last.
unfoldable pub call_ok : Unicode → Text → ℕ → Bool
call_ok u rest start =
    let args = trim_space (drop (start + 1) (take (length rest - 1) rest)) in
    ltb 0 start
    && has_suffix rest (codes ")")
    && valid_name (trim_space (take start rest))
    && not (contains_any args (codes "()"))
    && valid_call_args u args

unfoldable pub parse_call : Unicode → Text → ℕ → Text → Parser → Parser
unfolding call_ok add
parse_call u line n prefix p =
    let rest = trim_space (trim_prefix line prefix) in
    elim (index_of rest (codes "(")) [
      | none ↦ add n call_shape p
      | some start ↦ if call_ok u rest start then p else add n call_shape p
    ]

unfoldable pub parse_text_slot : Text → ℕ → Text → Parser → Parser
unfolding add warn
parse_text_slot line n prefix p =
    let text = trim_space (trim_prefix line prefix) in
    if is_empty text
    then add n (text_required prefix) p
    else (if has_suffix text (codes ":") || has_suffix text (codes "：")
        then warn n (text_colon prefix) p
        else p)

-- The statements that open no block and no step.
unfoldable pub parse_simple : Unicode → Text → ℕ → Parser → Parser
unfolding parse_io parse_derive parse_assignment parse_output parse_call parse_text_slot add
parse_simple u line n p =
    if has_prefix line (codes "<-")
    then parse_io u line n true p
    else if has_prefix line (codes "->")
    then parse_io u line n false p
    else if has_prefix line (codes "=>")
    then parse_derive u line n p
    else if has_prefix line (codes "$")
    then parse_assignment u line n p
    else if has_prefix line (codes ">")
    then parse_output line n p
    else if has_prefix line (codes "@tool")
    then parse_call u line n (codes "@tool") p
    else if has_prefix line (codes "@skill")
    then parse_call u line n (codes "@skill") p
    else if has_prefix line (codes "**")
    then parse_text_slot line n (codes "**") p
    else if has_prefix line (codes "~")
    then parse_text_slot line n (codes "~") p
    else add n invalid_token p

-- parseStatementContent forgets the closed block, unless the line is an ?else.
unfoldable pub forget_closed : Text → Parser → Parser
forget_closed line p =
    if has_prefix line (codes "?else") then p else record p { last_closed = none }

-- The body of a step of one line starts like a simple statement, so parseStatementContent, which
-- the source calls, takes none of its other branches.
unfoldable pub parse_step_single : Unicode → Text → Text → ℕ → Parser → Parser
unfolding step_name_error step_context add_step parse_simple forget_closed valid_step_single_body
    add
parse_step_single u name_text after_text n p =
    let name = trim_space name_text in
    let after = trim_space after_text in
    elim (step_name_error name step_single_shape) [
      | some e ↦ add n e p
      | none ↦
          if is_empty after
          then add n step_empty_body p
          else if not (valid_step_single_body after)
          then add n step_single_body p
          else elim (step_context name p) [
            | some e ↦ add n e p
            | none ↦ parse_simple u after n (forget_closed after (add_step name n p))
          ]
    ]

unfoldable pub parse_step : Unicode → Text → ℕ → Parser → Parser
unfolding parse_step_block parse_step_single add
parse_step u line n p =
    let rest = trim_space (trim_prefix line (codes "step")) in
    if has_suffix rest (codes "{") then parse_step_block rest n p else elim (cut b':' rest) [
      | none ↦ add n step_shape p
      | some (name, after) ↦
          if is_empty name then add n step_shape p else parse_step_single u name after n p
    ]

-- The branches of parseStatementContent do not overlap but for `=>` and `>`, `**` and `~`, which
-- parse_simple keeps in the order of the source.
unfoldable pub parse_statement_content : Unicode → Text → ℕ → Parser → Parser
unfolding forget_closed parse_if parse_else parse_each parse_step parse_simple add
parse_statement_content u line n p0 =
    let p = forget_closed line p0 in
    if has_prefix line (codes "?if")
    then parse_if line n p
    else if has_prefix line (codes "?else")
    then parse_else line n p
    else if has_prefix line (codes "? else") || has_prefix line (codes "else")
    then add n else_spelling p
    else if has_prefix line (codes "each")
    then parse_each u line n p
    else if has_prefix line (codes "step")
    then parse_step u line n p
    else parse_simple u line n p

unfoldable pub count_statement : List BlockFrame → List BlockFrame
count_statement [] = []
count_statement (frame ∷ rest) = record frame { direct_count = frame.direct_count + 1 } ∷ rest

unfoldable pub is_skipped : Text → Bool
is_skipped trimmed = is_empty trimmed || has_prefix trimmed (codes "//")

unfoldable pub parse_line : Unicode → Text → ℕ → Parser → Parser
unfolding is_skipped parse_header_line close_block parse_statement_content count_statement add
parse_line u trimmed n p =
    if is_skipped trimmed
    then p
    else if not p.seen_header
    then parse_header_line trimmed n p
    else if has_prefix trimmed (codes "#")
    then add n header_once p
    else if text_eq trimmed (codes "}")
    then close_block n p
    else parse_statement_content u trimmed n (record p { blocks = count_statement p.blocks })

unfoldable pub parse_lines : Unicode → List Text → ℕ → Parser → Parser
unfolding parse_line
parse_lines u [] n p = p
parse_lines u (line ∷ rest) n p = parse_lines u rest (n + 1) (parse_line u (trim_space line) n p)

-- The four tests of finish.
unfoldable pub check_header : Parser → Parser
unfolding add
check_header p = if not p.seen_header then add 0 missing_header p else p

unfoldable pub check_kind : Parser → Parser
unfolding add
check_kind p =
    if not (is_empty p.expected_kind)
      && not (is_empty p.doc.kind)
      && not (text_eq p.doc.kind p.expected_kind)
    then add 0 kind_mismatch p
    else p

unfoldable pub check_name : Parser → Parser
unfolding add
check_name p =
    if not (is_empty p.expected_name)
      && not (is_empty p.doc.name)
      && not (text_eq p.doc.name p.expected_name)
    then add 0 name_mismatch p
    else p

unfoldable pub check_blocks : Parser → Parser
unfolding add
check_blocks p = if not (is_empty p.blocks) then add 0 unclosed_block p else p

unfoldable pub finish : Parser → Parser
unfolding check_header check_kind check_name check_blocks
finish p = check_blocks (check_name (check_kind (check_header p)))
