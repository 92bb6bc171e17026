-- ===== src/Turn/Input.antt =====
-- Queued input: normalisation and merging (internal/turn/lifecycle/pending.go, manager.go).
use elbot.Base.{
  ℕ, zero, suc, ◌+◌, ◌/◌, ◌%◌, Text, Bool, false, not, ◌||◌, List, [], ◌∷◌, ◌++◌, if◌then◌else◌,
  ltb, codes, trim_space, is_empty,
}
use elbot.Llm.Segment.{MessageSegment, text_segments, append_segment_text, segments_text_only}

pub record Input : Type 0 where
  pub needs_elyph_rules : Bool
  pub content : Text
  pub platform_text : Text
  pub segments : List MessageSegment

abbrev pub no_input : Input
no_input = record { needs_elyph_rules = false; content = []; platform_text = []; segments = [] }

-- The test `Text != "" || len(Segments) > 0`.
abbrev pub has_content : Input → Bool
has_content i = not (is_empty i.content) || not (is_empty i.segments)

unfoldable pub normalize_input : Input → Input
normalize_input i =
    let t = trim_space i.content in
    let segments = (if is_empty i.segments then text_segments t else i.segments) in
    record i {
      content = if is_empty t then trim_space (segments_text_only segments) else t;
      platform_text = trim_space i.platform_text;
      segments = segments;
    }

-- `fmt.Sprintf("%d", n)`; the fuel `suc n` is more than the number of digits.
decimal_digits : ℕ → ℕ → Text → Text
decimal_digits zero n acc = acc
decimal_digits (suc fuel) n acc =
    let more = decimal_digits fuel (n / 10) ((48 + n % 10) ∷ acc) in
    if ltb n 10 then (48 + n) ∷ acc else more

unfoldable pub decimal : ℕ → Text
unfolding decimal_digits
decimal n = decimal_digits (suc n) n []

abbrev pub merge_header : Text
merge_header = codes "补充信息："

-- "\n%d. "
unfoldable pub item_label : ℕ → Text
unfolding decimal
item_label i = 10 ∷ (decimal (suc i) ++ b'.' ∷ b' ' ∷ [])

unfoldable pub keep_content : List Input → List Input
keep_content [] = []
keep_content (i ∷ rest) = if has_content i then i ∷ keep_content rest else keep_content rest

unfoldable pub keep_texts : List Text → List Text
keep_texts [] = []
keep_texts (t ∷ rest) =
    let t' = trim_space t in if is_empty t' then keep_texts rest else t' ∷ keep_texts rest

unfoldable pub numbered : ℕ → List Text → Text
numbered i [] = []
numbered i (t ∷ rest) = item_label i ++ (t ++ numbered (suc i) rest)

merge_kept_texts : List Text → Text
merge_kept_texts [] = []
merge_kept_texts (t ∷ []) = t
merge_kept_texts (t ∷ (u ∷ rest)) = merge_header ++ numbered 0 (t ∷ (u ∷ rest))

unfoldable pub merge_text_inputs : List Text → Text
unfolding merge_kept_texts
merge_text_inputs inputs = merge_kept_texts (keep_texts inputs)

-- The loop of mergeInputs over the segments, from the index `i`.
unfoldable pub merge_segments : ℕ → List MessageSegment → List Input → List MessageSegment
merge_segments i segments [] = segments
merge_segments i segments (input ∷ rest) =
    merge_segments (suc i) (append_segment_text segments (item_label i) ++ input.segments) rest

unfoldable pub any_rules : List Input → Bool
any_rules [] = false
any_rules (i ∷ rest) = i.needs_elyph_rules || any_rules rest

unfoldable pub platform_texts : List Input → List Text
platform_texts [] = []
platform_texts (i ∷ rest) = i.platform_text ∷ platform_texts rest

unfoldable pub merge_kept : List Input → Input
merge_kept [] = no_input
merge_kept (i ∷ []) = i
merge_kept (i ∷ (j ∷ rest)) =
    let segments = merge_segments 0 (text_segments merge_header) (i ∷ (j ∷ rest)) in
    record {
      needs_elyph_rules = any_rules (i ∷ (j ∷ rest));
      content = segments_text_only segments;
      platform_text = merge_text_inputs (platform_texts (i ∷ (j ∷ rest)));
      segments = segments;
    }

unfoldable pub merge_inputs : List Input → Input
merge_inputs inputs = merge_kept (keep_content inputs)
