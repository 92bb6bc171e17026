-- ===== src/Elyph/Parser.antt =====
-- The line parser of ELyph documents (internal/elyph/parser.go).
--
-- A document is its code points. A message is a constructor; where the source builds its text from
-- names, they are arguments. The blocks are a stack, the innermost first.
use elbot.Base.{
  ℕ, ◌-◌, Bool, true, false, not, ◌&&◌, ◌||◌, Option, none, some, List, [], ◌∷◌, ◌++◌, Text, codes,
  if◌then◌else◌, leb, ◌==◌, text_eq, is_empty, length, take, drop, trim_space, has_prefix,
  has_suffix, trim_prefix, trim_suffix, cut, fields, contains_any,
}
use elbot.Elyph.Syntax.{Unicode, valid_name, parse_typed_variable, parse_assignment_parts}

pub data BlockKind : Type 0 where
  block_if block_else block_each block_step : BlockKind

pub record BlockFrame : Type 0 where
  pub kind : BlockKind
  pub direct_count : ℕ

pub data Message : Type 0 where
  elyph_required first_statement header_once invalid_token input_shape output_shape : Message
  assignment_shape derive_shape ternary_shape if_shape else_shape else_orphan else_spelling :
      Message
  each_shape each_limit step_shape step_block_shape step_single_shape step_name step_empty_body :
      Message
  step_single_body step_nested output_text call_shape unexpected_close step_block_empty : Message
  step_block_single unclosed_block missing_header kind_mismatch name_mismatch : Message
  step_used reserved_variable text_required text_colon : Text → Message

pub data Severity : Type 0 where
  error warning : Severity

pub record Diagnostic : Type 0 where
  pub line : ℕ
  pub message : Message
  pub severity : Severity

pub record ElyphStep : Type 0 where
  pub name : Text
  pub line : ℕ

pub record Document : Type 0 where
  pub kind : Text
  pub name : Text
  pub steps : List ElyphStep

pub record Parser : Type 0 where
  pub expected_kind : Text
  pub expected_name : Text
  pub doc : Document
  pub diagnostics : List Diagnostic
  pub seen_header : Bool
  pub blocks : List BlockFrame
  pub last_closed : Option BlockKind

unfoldable pub add : ℕ → Message → Parser → Parser
add n message p = record p {
  diagnostics = p.diagnostics ++ (record { line = n; message = message; severity = error } ∷ []);
}

unfoldable pub warn : ℕ → Message → Parser → Parser
warn n message p = record p {
  diagnostics = p.diagnostics ++ (record { line = n; message = message; severity = warning } ∷ []);
}

unfoldable pub open_block : BlockKind → Parser → Parser
open_block kind p = record p {
  blocks = record { kind = kind; direct_count = 0 } ∷ p.blocks;
  last_closed = none;
}

unfoldable pub is_step : BlockKind → Bool
is_step block_step = true
is_step _ = false

-- What closing a block says of the number of its statements.
unfoldable pub check_step_block : BlockFrame → ℕ → Parser → Parser
unfolding add
check_step_block frame n p =
    if is_step frame.kind && frame.direct_count == 0
    then add n step_block_empty p
    else (if is_step frame.kind && frame.direct_count == 1 then add n step_block_single p else p)

unfoldable pub close_frames : List BlockFrame → ℕ → Parser → Parser
unfolding check_step_block
close_frames [] n p = record (add n unexpected_close p) { last_closed = none }
close_frames (frame ∷ rest) n p = record (check_step_block frame n (record p { blocks = rest })) {
  last_closed = some frame.kind;
}

unfoldable pub close_block : ℕ → Parser → Parser
unfolding close_frames
close_block n p = close_frames p.blocks n p

-- The words of a header: the marker #skill or #task, and the name.
unfoldable pub header_words : Text → Option (Text × Text)
unfolding valid_name
header_words line = elim (fields line) [
  | [] ↦ none
  | marker ∷ rest ↦ elim rest [
    | [] ↦ none
    | name ∷ more ↦
        if (text_eq marker (codes "#skill") || text_eq marker (codes "#task")) && valid_name name
        then some (marker, name)
        else none
  ]
]

-- What follows the two words: nothing, or a description behind a dash.
unfoldable pub valid_rest : Text → Text × Text → Bool
valid_rest line (marker, name) =
    let rest = trim_space (trim_prefix line (marker ++ (32 ∷ name))) in
    leb (length (fields line)) 2
    || has_prefix rest (codes "- ") && not (is_empty (trim_space (trim_prefix rest (codes "- "))))

unfoldable pub set_header : Text × Text → Parser → Parser
set_header (marker, name) p = record p {
  doc = record (p.doc) { kind = trim_prefix marker (codes "#"); name = name };
  seen_header = true;
}

unfoldable pub parse_header_line : Text → ℕ → Parser → Parser
unfolding header_words valid_rest set_header add
parse_header_line line n p = elim (header_words line) [
  | none ↦ add n first_statement p
  | some words ↦ if valid_rest line words then set_header words p else add n first_statement p
]

unfoldable pub check_reserved_variable : Text → ℕ → Parser → Parser
unfolding add
check_reserved_variable name n p =
    if text_eq name (codes "$user") || text_eq name (codes "$assistant")
    then add n (reserved_variable name) p
    else p

-- The three parts of a ternary, from the first question mark and the first colon after it.
unfoldable pub ternary_ok : Text → Text → Bool
ternary_ok condition rest = elim (cut b':' rest) [
  | none ↦ false
  | some (yes_part, no_part) ↦
      not (is_empty (trim_space condition))
      && not (is_empty (trim_space yes_part))
      && not (is_empty (trim_space no_part))
]

unfoldable pub check_derive_expression : Text → ℕ → Parser → Parser
unfolding ternary_ok add
check_derive_expression expr n p = elim (cut b'?' expr) [
  | none ↦ p
  | some (condition, rest) ↦ if ternary_ok condition rest then p else add n ternary_shape p
]

unfoldable pub parse_io : Unicode → Text → ℕ → Bool → Parser → Parser
unfolding parse_typed_variable add
parse_io u line n input p =
    elim (parse_typed_variable u
      (trim_space (trim_prefix line (codes (if input then "<-" else "->"))))) [
        | none ↦ add n (if input then input_shape else output_shape) p
        | some v ↦
            if not input && not (is_empty v.marker)
            then add n (if input then input_shape else output_shape) p
            else p
      ]

unfoldable pub parse_assignment : Unicode → Text → ℕ → Parser → Parser
unfolding parse_assignment_parts check_reserved_variable add
parse_assignment u line n p = elim (parse_assignment_parts u line) [
  | none ↦ add n assignment_shape p
  | some (v, rhs) ↦
      if is_empty (trim_space rhs)
      then add n assignment_shape p
      else check_reserved_variable v.name n p
]

unfoldable pub parse_derive : Unicode → Text → ℕ → Parser → Parser
unfolding parse_assignment_parts check_reserved_variable check_derive_expression add
parse_derive u line n p =
    elim (parse_assignment_parts u (trim_space (trim_prefix line (codes "=>")))) [
      | none ↦ add n derive_shape p
      | some (v, rhs) ↦
          if is_empty (trim_space rhs)
          then add n derive_shape p
          else check_derive_expression rhs n (check_reserved_variable v.name n p)
    ]

-- A text without its first and last code point.
unfoldable pub inner : Text → Text
inner body = drop 1 (take (length body - 1) body)

unfoldable pub parse_if : Text → ℕ → Parser → Parser
unfolding open_block add inner
parse_if line n p =
    let body = trim_space (trim_suffix (trim_prefix line (codes "?if")) (codes "{")) in
    if not (has_suffix line (codes "{"))
    then add n if_shape p
    else if not (has_prefix body (codes "("))
        || not (has_suffix body (codes ")"))
        || is_empty (trim_space (inner body))
        || contains_any (inner body) (codes "{}")
    then open_block block_if (add n if_shape p)
    else open_block block_if p

unfoldable pub is_if : Option BlockKind → Bool
is_if (some block_if) = true
is_if _ = false

unfoldable pub parse_else : Text → ℕ → Parser → Parser
unfolding open_block add is_if
parse_else line n p =
    if not (text_eq (trim_space (trim_prefix line (codes "?else"))) (codes "{"))
    then add n else_shape p
    else if not (is_if p.last_closed)
    then add n else_orphan p
    else open_block block_else p
