-- ===== src/Elyph/Syntax.antt =====
-- The texts that ELyph accepts inside a line (internal/elyph/parser.go, from parseAssignmentParts on).
--
-- `unicode.IsLetter` and `unicode.IsDigit` are tables of the standard library: a record of two tests
-- that every definition takes.
use elbot.Base.{
  ℕ, ◌-◌, Bool, true, false, not, ◌&&◌, ◌||◌, Option, none, some, List, [], ◌∷◌, Text, codes,
  if◌then◌else◌, leb, ◌==◌, is_empty, length, take, drop, trim_space, has_prefix, has_suffix,
  trim_prefix, cut, split,
}

pub record Unicode : Type 0 where
  pub is_letter : ℕ → Bool
  pub is_digit : ℕ → Bool

is_lower : ℕ → Bool
is_lower r = leb b'a' r && leb r b'z'

is_ascii_digit : ℕ → Bool
is_ascii_digit r = leb b'0' r && leb r b'9'

name_rest : Text → Bool
unfolding is_lower is_ascii_digit
name_rest [] = true
name_rest (r ∷ s) = (is_lower r || is_ascii_digit r || r == b'_' || r == b'-') && name_rest s

-- len(value) counts bytes; a text with a rune of several bytes is refused anyhow.
unfoldable pub valid_name : Text → Bool
unfolding name_rest
valid_name [] = false
valid_name (r ∷ s) = leb (length (r ∷ s)) 64 && is_lower r && name_rest s

unfoldable pub valid_step_name : Text → Bool
unfolding name_rest
valid_step_name [] = false
valid_step_name (r ∷ s) = leb (length (r ∷ s)) 64 && (is_lower r || is_ascii_digit r) && name_rest s

ident_rest : Unicode → Text → Bool
ident_rest u [] = true
ident_rest u (r ∷ s) = (r == b'_' || u.is_letter r || u.is_digit r) && ident_rest u s

unfoldable pub valid_ident : Unicode → Text → Bool
unfolding ident_rest
valid_ident u [] = false
valid_ident u (r ∷ s) = (r == b'_' || u.is_letter r) && ident_rest u s

unfoldable pub valid_type : Unicode → Text → Bool
unfolding valid_ident
valid_type u value = valid_ident u value

unfoldable pub valid_variable : Unicode → Text → Bool
unfolding valid_ident
valid_variable u value =
    has_prefix value (codes "$") && valid_ident u (trim_prefix value (codes "$"))

pub record VariableRef : Type 0 where
  pub name : Text
  pub typ : Text
  pub marker : Text

-- The marker at the end of a reference, and the text without it.
split_marker : Text → Text × Text
split_marker text =
    if has_suffix text (codes "!") || has_suffix text (codes "?")
    then (drop (length text - 1) text, trim_space (take (length text - 1) text))
    else ([], text)

typed : Unicode → Text → Text × Text → Option VariableRef
unfolding valid_variable valid_type
typed u marker (left, right) =
    if not (valid_variable u (trim_space left)) || not (valid_type u (trim_space right))
    then none
    else some (record { name = trim_space left; typ = trim_space right; marker = marker })

unfoldable pub parse_variable_ref : Unicode → Text → Option VariableRef
unfolding split_marker typed
parse_variable_ref u text =
    let (marker, body) = split_marker text in
    elim (cut b':' body) [
      | some parts ↦ typed u marker parts
      | none ↦
          if not (valid_variable u (trim_space body))
          then none
          else some (record { name = trim_space body; typ = []; marker = marker })
    ]

unfoldable pub parse_typed_variable : Unicode → Text → Option VariableRef
unfolding split_marker typed
parse_typed_variable u text =
    let (marker, body) = split_marker text in
    elim (cut b':' body) [ none ↦ none | some parts ↦ typed u marker parts ]

-- The reference and the right side; the marker of a reference that is accepted is empty.
unfoldable pub parse_assignment_parts : Unicode → Text → Option (VariableRef × Text)
unfolding parse_variable_ref
parse_assignment_parts u text = elim (cut b'=' text) [
  | none ↦ none
  | some (left, right) ↦ elim (parse_variable_ref u (trim_space left)) [
    | none ↦ none
    | some r ↦ if not (is_empty r.marker) then none else some (r, trim_space right)
  ]
]

valid_arg : Unicode → Text → Bool
unfolding valid_ident
valid_arg u part = elim (cut b'=' part) [
  | none ↦ false
  | some (key, value) ↦ valid_ident u (trim_space key) && not (is_empty (trim_space value))
]

valid_args : Unicode → List Text → Bool
unfolding valid_arg
valid_args u [] = true
valid_args u (part ∷ rest) =
    not (is_empty (trim_space part)) && valid_arg u (trim_space part) && valid_args u rest

-- splitTopLevel is a split at every separator.
unfoldable pub split_top_level : Text → ℕ → List Text
split_top_level text sep = split sep text

unfoldable pub valid_call_args : Unicode → Text → Bool
unfolding valid_args split_top_level
valid_call_args u args = if is_empty args then true else valid_args u (split_top_level args b',')
