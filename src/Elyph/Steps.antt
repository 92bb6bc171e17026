-- ===== src/Elyph/Steps.antt =====
-- The steps of a document (internal/elyph/parser.go): their names, and the blocks that stand open.
use elbot.Base.{
  ℕ, ◌+◌, ◌≤◌, ◌≡◌, refl, sym, ap, subst, true, false, none, List, [], ◌∷◌, ◌++◌, Text,
  if◌then◌else◌, text_eq_iff, arith, if_elim, opt_elim,
}
use elbot.Elyph.Syntax.{valid_step_name}
use elbot.Elyph.Parser.{
  block_step, BlockFrame, ElyphStep, Parser, add, warn, open_block, is_step, header_words,
  parse_header_line, set_header, valid_rest,
}
use elbot.Elyph.Statements.{has_step_frame, has_step_name, step_context, add_step, count_statement}
use elbot.Elyph.Effects.{Kept}

-- No step of the list has this name.
abbrev pub Absent : Text → List ElyphStep → Type 0
Absent name [] = Unit
Absent name (s ∷ rest) = ¬ (s.name ≡ name) × Absent name rest

-- The steps have valid names, no two of them the same.
abbrev pub StepsDistinct : List ElyphStep → Type 0
StepsDistinct [] = Unit
StepsDistinct (s ∷ rest) = (valid_step_name s.name ≡ true) × Absent s.name rest × StepsDistinct rest

-- How many of the open blocks are steps.
abbrev pub open_steps : List BlockFrame → ℕ
open_steps [] = 0
open_steps (frame ∷ rest) = (if is_step frame.kind then 1 else 0) + open_steps rest

pub record WellStepped (p : Parser) : Type 0 where
  pub distinct : StepsDistinct p.doc.steps
  pub unnested : open_steps p.blocks ≤ 1

has_step_name-Absent :
    (name : Text) (steps : List ElyphStep) → has_step_name name steps ≡ false → Absent name steps
unfolding has_step_name
has_step_name-Absent name [] h = tt
has_step_name-Absent name (s ∷ rest) h =
    ground (arith, text_eq_iff s.name name, has_step_name-Absent name rest)

append-Absent :
    (name : Text) (s : ElyphStep) (steps : List ElyphStep)
    → Absent name steps
    → ¬ (s.name ≡ name)
    → Absent name (steps ++ (s ∷ []))
append-Absent name s [] a d = (d, tt)
append-Absent name s (t ∷ rest) a d = (a.0, append-Absent name s rest a.1 d)

append-StepsDistinct :
    (s : ElyphStep) (steps : List ElyphStep)
    → StepsDistinct steps
    → Absent s.name steps
    → valid_step_name s.name ≡ true
    → StepsDistinct (steps ++ (s ∷ []))
append-StepsDistinct s [] d a v = (v, tt, tt)
append-StepsDistinct s (t ∷ rest) d a v =
    (d.0, append-Absent t.name s rest d.1 (λ e. a.0 (sym e)), append-StepsDistinct s rest d.2 a.1 v)

open_steps-zero : (blocks : List BlockFrame) → has_step_frame blocks ≡ false → open_steps blocks ≡ 0
unfolding has_step_frame
open_steps-zero [] h = refl
open_steps-zero (frame ∷ rest) h = ground (arith, open_steps-zero rest)

open_steps-count :
    (blocks : List BlockFrame) → open_steps (count_statement blocks) ≡ open_steps blocks
unfolding count_statement
open_steps-count [] = refl
open_steps-count (frame ∷ rest) = refl

-- A step that step_context lets through has a new name, and no step stands open.
step_context-none :
    (name : Text) (p : Parser)
    → step_context name p ≡ none
    → (has_step_frame p.blocks ≡ false) × (has_step_name name p.doc.steps ≡ false)
unfolding step_context
step_context-none name p h = ground arith

add_step-WellStepped :
    (name : Text) (n : ℕ) (p : Parser)
    → valid_step_name name ≡ true
    → step_context name p ≡ none
    → WellStepped p
    → WellStepped (add_step name n p)
unfolding add_step
add_step-WellStepped name n p v free w = record {
  distinct =
      append-StepsDistinct _ p.doc.steps w.distinct
        (has_step_name-Absent name p.doc.steps (step_context-none name p free).1) v;
  unnested = w.unnested;
}

open_step-WellStepped :
    (name : Text) (n : ℕ) (p : Parser)
    → valid_step_name name ≡ true
    → step_context name p ≡ none
    → WellStepped p
    → WellStepped (open_block block_step (add_step name n p))
unfolding add_step open_block is_step
open_step-WellStepped name n p v free w = record {
  distinct =
      append-StepsDistinct _ p.doc.steps w.distinct
        (has_step_name-Absent name p.doc.steps (step_context-none name p free).1) v;
  unnested = ground (arith, open_steps-zero p.blocks (step_context-none name p free).0);
}

pops-WellStepped :
    (frame : BlockFrame) (rest : List BlockFrame) (p : Parser)
    → p.blocks ≡ frame ∷ rest
    → WellStepped p
    → WellStepped (record p { blocks = rest })
pops-WellStepped frame rest p e w = record {
  distinct = w.distinct;
  unnested = less (ap open_steps e) w.unnested;
}
  where
    less : {a : ℕ} → a ≡ open_steps (frame ∷ rest) → a ≤ 1 → open_steps rest ≤ 1
    less q h = ground arith

pub WellStepped-Kept : Kept WellStepped
unfolding add warn open_block
WellStepped-Kept = record {
  adds = λ n. λ e. λ p. λ w. record { distinct = w.distinct; unnested = w.unnested };
  warns = λ n. λ e. λ p. λ w. record { distinct = w.distinct; unnested = w.unnested };
  opens = λ k. λ p. λ plain. λ w. record { distinct = w.distinct; unnested = ground arith };
  steps = add_step-WellStepped;
  opens_step = open_step-WellStepped;
  forgets = λ c. λ p. λ w. record { distinct = w.distinct; unnested = w.unnested };
  counts = λ p.
      λ w. record { distinct = w.distinct; unnested = ground (arith, open_steps-count p.blocks) };
  pops = pops-WellStepped;
}

pub header_line-WellStepped :
    (line : Text) (n : ℕ) (p : Parser) → WellStepped p → WellStepped (parse_header_line line n p)
unfolding parse_header_line set_header add
header_line-WellStepped line n p w =
    opt_elim WellStepped (header_words line) _ _ (kept refl refl) (λ words _.
      if_elim WellStepped (valid_rest line words) _ _ (λ _. kept refl refl) (λ _. kept refl refl))
  where
    kept : {q : Parser} → q.doc.steps ≡ p.doc.steps → q.blocks ≡ p.blocks → WellStepped q
    kept d b = record {
      distinct = subst StepsDistinct (sym d) w.distinct;
      unnested = subst (λ bs. open_steps bs ≤ 1) (sym b) w.unnested;
    }
