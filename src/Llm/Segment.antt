-- ===== src/Llm/Segment.antt =====
-- Message segments and their text edits (internal/llm/message.go and segment.go).
pub mod Edits
use elbot.Base.{
  String, Text, Bool, true, false, Option, none, some, List, [], ◌∷◌, ◌++◌, if◌then◌else◌,
  trim_space, is_empty, not, ◌&&◌, ◌||◌,
}

-- Any string may stand in the source's type; the three named constants, and any other.
pub data SegmentType : Type 0 where
  text image file : SegmentType
  other : String → SegmentType

pub record MessageSegment : Type 0 where
  pub kind : SegmentType
  pub content : Text
  pub url : String
  pub media_id : String
  pub mime_type : String
  pub name : String

abbrev pub is_text_type : SegmentType → Bool
is_text_type text = true
is_text_type _ = false

abbrev pub is_image_type : SegmentType → Bool
is_image_type image = true
is_image_type _ = false

abbrev pub text_segment : Text → MessageSegment
text_segment t = record {
  kind = text;
  content = t;
  url = "";
  media_id = "";
  mime_type = "";
  name = "";
}

unfoldable pub text_segments : Text → List MessageSegment
text_segments t = if is_empty t then [] else text_segment t ∷ []

-- The loop of SetSegmentText: `inserted` says that the new text has been placed.
set_loop : Text → Bool → List MessageSegment → List MessageSegment × Bool
set_loop t inserted [] = ([], inserted)
set_loop t inserted (s ∷ rest) =
    let (out, b) = set_loop t (inserted || is_text_type s.kind && not (is_empty t)) rest in
    if not (is_text_type s.kind)
    then (s ∷ out, b)
    else if not inserted && not (is_empty t)
    then (record s { content = t } ∷ out, b)
    else (out, b)

unfoldable pub set_segment_text : List MessageSegment → Text → List MessageSegment
unfolding set_loop
set_segment_text segments t =
    let (out, inserted) = set_loop t false segments in
    if inserted then out else if is_empty t then out else text_segment t ∷ out

-- The strings.Builder of SegmentsTextOnly, before the trimming.
unfoldable pub text_content : List MessageSegment → Text
text_content [] = []
text_content (s ∷ rest) =
    if is_text_type s.kind then s.content ++ text_content rest else text_content rest

unfoldable pub segments_text_only : List MessageSegment → Text
segments_text_only segments = trim_space (text_content segments)

-- The first text segment takes the prefix; `none` when there is no text segment.
prepend_first : Text → List MessageSegment → Option (List MessageSegment)
prepend_first p [] = none
prepend_first p (s ∷ rest) =
    if is_text_type s.kind
    then some (record s { content = p ++ s.content } ∷ rest)
    else elim (prepend_first p rest) [ none ↦ none | some out ↦ some (s ∷ out) ]

unfoldable pub prepend_segment_text : List MessageSegment → Text → List MessageSegment
unfolding prepend_first
prepend_segment_text segments p =
    if is_empty p
    then segments
    else elim (prepend_first p segments) [ none ↦ text_segment p ∷ segments | some out ↦ out ]

-- The last text segment takes the suffix; `none` when there is no text segment.
place_last :
    Text
    → MessageSegment
    → List MessageSegment
    → Option (List MessageSegment)
    → Option (List MessageSegment)
place_last e s rest (some out) = some (s ∷ out)
place_last e s rest none =
    if is_text_type s.kind then some (record s { content = s.content ++ e } ∷ rest) else none

append_last : Text → List MessageSegment → Option (List MessageSegment)
unfolding place_last
append_last e [] = none
append_last e (s ∷ rest) = place_last e s rest (append_last e rest)

unfoldable pub append_segment_text : List MessageSegment → Text → List MessageSegment
unfolding append_last
append_segment_text segments e =
    if is_empty e
    then segments
    else elim (append_last e segments) [ none ↦ segments ++ text_segment e ∷ [] | some out ↦ out ]

unfoldable pub has_image_segment : List MessageSegment → Bool
has_image_segment [] = false
has_image_segment (s ∷ rest) = if is_image_type s.kind then true else has_image_segment rest

-- What the text edits must leave alone.
unfoldable pub media_segments : List MessageSegment → List MessageSegment
media_segments [] = []
media_segments (s ∷ rest) =
    if is_text_type s.kind then media_segments rest else s ∷ media_segments rest
