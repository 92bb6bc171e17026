-- ===== src/Elyph/Examples.antt =====
-- A skill in ELyph, and what the parser makes of it.
use elbot.Base.{
  ◌≤◌, ◌≡◌, refl, ◌&&◌, ◌||◌, some, [], ◌∷◌, ◌++◌, Text, codes, leb, ◌⊎◌, trim_space, true, split,
  has_prefix, fields, trim_prefix, cut, has_suffix, trim_suffix, contains_any, index_of,
}
use elbot.Elyph.Syntax.{Unicode, valid_name, valid_step_name, valid_call_args}
use elbot.Elyph.Parser.{Document, error, unclosed_block, step_used}
use elbot.Elyph.Statements.{parse_lines}
use elbot.Elyph.Document.{
  Header, accepted, rejected, lines_of, parse_document, validate_kind, parse_header, new_parser,
}
use elbot.Elyph.Steps.{StepsDistinct, open_steps}
use elbot.Elyph.Promises.{steps_distinct, steps_unnested, accepted_header, accepted_as_expected}

-- Letters and digits of ASCII.
abbrev ascii : Unicode
ascii = record {
  is_letter = λ r. leb b'a' r && leb r b'z' || leb b'A' r && leb r b'Z';
  is_digit = λ r. leb b'0' r && leb r b'9';
}

abbrev nl : Text
nl = 10 ∷ []

abbrev demo : Text
demo =
    codes "#skill demo - A demonstration"
    ++ nl
    ++ codes "<- $topic: string!"
    ++ nl
    ++ codes "step look_up {"
    ++ nl
    ++ codes "@tool search(query=$topic)"
    ++ nl
    ++ codes "** Read what was found."
    ++ nl
    ++ codes "}"
    ++ nl
    ++ codes "step answer: > the summary"

abbrev demo_doc : Document
demo_doc = record {
  kind = codes "skill";
  name = codes "demo";
  steps =
      record { name = codes "look_up"; line = 3 } ∷ record { name = codes "answer"; line = 7 } ∷ [];
}

demo_accepted : validate_kind ascii demo (codes "skill") (codes " demo ") ≡ accepted demo_doc []
unfolding validate_kind trim_space split has_prefix fields trim_prefix cut has_suffix trim_suffix
    contains_any valid_step_name index_of valid_call_args
demo_accepted = refl

-- A skill that does not close its step is refused.
demo_unclosed :
    validate_kind ascii (codes "#skill demo" ++ nl ++ codes "step one {") (codes "skill") []
    ≡ rejected (record { line = 0; message = unclosed_block; severity = error } ∷ [])
unfolding validate_kind trim_space split has_prefix fields trim_prefix cut has_suffix trim_suffix
    contains_any valid_step_name index_of valid_call_args
demo_unclosed = refl

-- Two steps of one name.
demo_twice :
    validate_kind ascii
      (codes "#task demo" ++ nl ++ codes "step one: > a" ++ nl ++ codes "step one: > b")
      []
      []
    ≡ rejected (record { line = 3; message = step_used (codes "one"); severity = error } ∷ [])
unfolding validate_kind trim_space split has_prefix fields trim_prefix cut has_suffix trim_suffix
    contains_any valid_step_name index_of valid_call_args
demo_twice = refl

-- The keyword needs no blank behind it.
demo_glued :
    validate_kind ascii (codes "#task demo" ++ nl ++ codes "stepone: > a") [] []
    ≡ accepted
        (record {
          kind = codes "task";
          name = codes "demo";
          steps = record { name = codes "one"; line = 2 } ∷ [];
        })
        []
unfolding validate_kind trim_space split has_prefix fields trim_prefix cut has_suffix trim_suffix
    contains_any valid_step_name index_of valid_call_args
demo_glued = refl

steps_distinct_example :
    StepsDistinct (parse_document ascii demo (codes "skill") (codes "demo")).0.steps
steps_distinct_example = steps_distinct ascii demo (codes "skill") (codes "demo")

steps_unnested_example :
    open_steps
      (parse_lines ascii (lines_of demo) 1 (new_parser (codes "skill") (codes "demo"))).blocks
    ≤ 1
steps_unnested_example = steps_unnested ascii (lines_of demo) (codes "skill") (codes "demo")

accepted_header_example :
    (h : Header) × (parse_header demo ≡ some h) × (codes "skill" ≡ h.kind) × (codes "demo" ≡ h.name)
accepted_header_example =
    accepted_header ascii demo (codes "skill") (codes " demo ") demo_doc [] demo_accepted

accepted_as_expected_example :
    (valid_name (codes "demo") ≡ true)
    × ((codes "skill" ≡ codes "skill") ⊎ (codes "skill" ≡ codes "task"))
    × (codes "skill" ≡ trim_space (codes "skill"))
    × (codes "demo" ≡ trim_space (codes " demo "))
unfolding trim_space
accepted_as_expected_example =
    accepted_as_expected ascii demo (codes "skill") (codes " demo ") demo_doc [] demo_accepted refl
      refl
