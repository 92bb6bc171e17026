-- ===== src/Elyph/Document.antt =====
-- Whole documents (internal/elyph/parser.go): ParseHeader, parseDocument, validateKind.
use elbot.Base.{
  Bool, true, false, Option, none, some, List, [], ◌∷◌, ◌++◌, Text, codes, if◌then◌else◌, is_empty,
  trim_space, has_prefix, trim_prefix, split, replace_crlf,
}
use elbot.Elyph.Syntax.{Unicode}
use elbot.Elyph.Parser.{
  elyph_required, Severity, error, warning, Diagnostic, Document, Parser, header_words,
}
use elbot.Elyph.Statements.{parse_lines, finish, is_skipped}

unfoldable pub lines_of : Text → List Text
unfolding replace_crlf
lines_of raw = split 10 (replace_crlf raw)

pub record Header : Type 0 where
  pub kind : Text
  pub name : Text
  pub description : Text

unfoldable pub header_of : Text → Text × Text → Header
header_of line (marker, name) =
    let rest = trim_space (trim_prefix line (marker ++ (32 ∷ name))) in
    record {
      kind = trim_prefix marker (codes "#");
      name = name;
      description =
          if has_prefix rest (codes "- ") then trim_space (trim_prefix rest (codes "- ")) else [];
    }

-- The loop of ParseHeader, which stops at the first line that is not skipped.
unfoldable pub header_from : List Text → Option Header
unfolding is_skipped header_words header_of
header_from [] = none
header_from (line ∷ rest) =
    let more = header_from rest in
    if is_skipped (trim_space line) then more else elim (header_words (trim_space line)) [
      | none ↦ none
      | some words ↦ some (header_of (trim_space line) words)
    ]

unfoldable pub parse_header : Text → Option Header
unfolding header_from lines_of
parse_header raw = header_from (lines_of raw)

unfoldable pub new_parser : Text → Text → Parser
new_parser kind name = record {
  expected_kind = trim_space kind;
  expected_name = trim_space name;
  doc = record { kind = []; name = []; steps = [] };
  diagnostics = [];
  seen_header = false;
  blocks = [];
  last_closed = none;
}

-- The parser's state after the lines; the document and the diagnostics are its fields.
unfoldable pub parsed : Unicode → List Text → Text → Text → Parser
unfolding new_parser parse_lines finish
parsed u lines kind name = finish (parse_lines u lines 1 (new_parser kind name))

-- What a blank text gives.
unfoldable pub blank : Document × List Diagnostic
blank = (
  record { kind = []; name = []; steps = [] },
  record { line = 0; message = elyph_required; severity = error } ∷ [],
)

unfoldable pub parse_document : Unicode → Text → Text → Text → Document × List Diagnostic
unfolding parsed lines_of blank
parse_document u raw kind name =
    if is_empty (trim_space (replace_crlf raw))
    then blank
    else ((parsed u (lines_of raw) kind name).doc, (parsed u (lines_of raw) kind name).diagnostics)

unfoldable pub is_error : Severity → Bool
is_error error = true
is_error warning = false

unfoldable pub error_diagnostics : List Diagnostic → List Diagnostic
unfolding is_error
error_diagnostics [] = []
error_diagnostics (d ∷ rest) =
    let more = error_diagnostics rest in if is_error d.severity then d ∷ more else more

unfoldable pub warning_diagnostics : List Diagnostic → List Diagnostic
unfolding is_error
warning_diagnostics [] = []
warning_diagnostics (d ∷ rest) =
    let more = warning_diagnostics rest in if is_error d.severity then more else d ∷ more

pub data Validated : Type 0 where
  accepted : Document → List Diagnostic → Validated
  rejected : List Diagnostic → Validated

unfoldable pub validate_kind : Unicode → Text → Text → Text → Validated
unfolding parse_document error_diagnostics
validate_kind u raw kind name =
    let (doc, diagnostics) = parse_document u raw kind name in
    if is_empty (error_diagnostics diagnostics)
    then accepted doc diagnostics
    else rejected diagnostics

unfoldable pub validate_skill : Unicode → Text → Text → Validated
unfolding validate_kind
validate_skill u raw name = validate_kind u raw (codes "skill") name

unfoldable pub validate_task : Unicode → Text → Text → Validated
unfolding validate_kind
validate_task u raw name = validate_kind u raw (codes "task") name
