-- ===== src/Llm/Segment/Edits.antt =====
-- The text edits change the text and nothing else (internal/llm/segment.go).
use elbot.Base.{
  ℕ, ◌≡◌, refl, Text, true, false, Option, none, some, List, [], ◌∷◌, ◌++◌, append_assoc,
  append-nil, arith, Bool-cases, if◌then◌else◌, inl, inr,
}
use elbot.Llm.Segment.{
  MessageSegment, text_segment, is_text_type, set_loop, place_last, set_segment_text, text_content,
  prepend_first, prepend_segment_text, append_last, append_segment_text, media_segments,
}

-- What an edit that found a text segment must satisfy.
abbrev Edited : List MessageSegment → Text → Option (List MessageSegment) → Type 0
Edited segments t none = text_content segments ≡ []
Edited segments t (some out) =
    (text_content out ≡ t) × (media_segments out ≡ media_segments segments)

prepend_first-Edited :
    (p : Text) (segments : List MessageSegment)
    → Edited segments (p ++ text_content segments) (prepend_first p segments)
unfolding prepend_first text_content media_segments
prepend_first-Edited p [] = refl
prepend_first-Edited p (s ∷ rest) =
    ground (arith, prepend_first-Edited p rest, append_assoc p s.content (text_content rest))

place_last-Edited :
    (e : Text) (s : MessageSegment) (rest : List MessageSegment) (o : Option (List MessageSegment))
    → Edited rest (text_content rest ++ e) o
    → Edited (s ∷ rest) (text_content (s ∷ rest) ++ e) (place_last e s rest o)
unfolding place_last text_content media_segments
place_last-Edited e s rest (some out) h =
    ground (arith, append_assoc s.content (text_content rest) e)
place_last-Edited e s rest none h = elim (Bool-cases (is_text_type s.kind)) [
  | inl y ↦ rw y (rw y (ground (arith, append-nil s.content, append-nil (s.content ++ e))))
  | inr n ↦ rw n (rw n h)
]

append_last-Edited :
    (e : Text) (segments : List MessageSegment)
    → Edited segments (text_content segments ++ e) (append_last e segments)
unfolding append_last text_content media_segments
append_last-Edited e [] = refl
append_last-Edited e (s ∷ rest) =
    place_last-Edited e s rest (append_last e rest) (append_last-Edited e rest)

pub text_content-append :
    (xs ys : List MessageSegment) → text_content (xs ++ ys) ≡ text_content xs ++ text_content ys
unfolding text_content
text_content-append [] ys = refl
text_content-append (x ∷ xs) ys =
    ground
      (arith, text_content-append xs ys, append_assoc x.content (text_content xs) (text_content ys))

pub media_segments-append :
    (xs ys : List MessageSegment)
    → media_segments (xs ++ ys) ≡ media_segments xs ++ media_segments ys
unfolding media_segments
media_segments-append [] ys = refl
media_segments-append (x ∷ xs) ys = ground (arith, media_segments-append xs ys)

-- Prepending a text puts it in front of the text content, whatever segments there are, and
-- leaves the segments that are no text, and their order, as they were.
pub prepend_segment_text-Edits :
    (segments : List MessageSegment) (p : Text)
    → (text_content (prepend_segment_text segments p) ≡ p ++ text_content segments)
      × (media_segments (prepend_segment_text segments p) ≡ media_segments segments)
unfolding prepend_segment_text text_content media_segments
prepend_segment_text-Edits segments [] = (refl, refl)
prepend_segment_text-Edits segments (c ∷ p) =
    ground (arith, prepend_first-Edited (c ∷ p) segments, append-nil (c ∷ p))

-- Appending a text puts it behind the text content, whatever segments there are, and leaves the
-- segments that are no text, and their order, as they were.
pub append_segment_text-Edits :
    (segments : List MessageSegment) (e : Text)
    → (text_content (append_segment_text segments e) ≡ text_content segments ++ e)
      × (media_segments (append_segment_text segments e) ≡ media_segments segments)
unfolding append_segment_text text_content media_segments
append_segment_text-Edits segments [] = ground (arith, append-nil (text_content segments))
append_segment_text-Edits segments (c ∷ e) = ground (
  arith,
  append_last-Edited (c ∷ e) segments,
  append-nil (c ∷ e),
  text_content-append segments (text_segment (c ∷ e) ∷ []),
  media_segments-append segments (text_segment (c ∷ e) ∷ []),
  append-nil (media_segments segments),
)

-- Once the new text is placed, every later text segment goes.
set_loop-placed :
    (t : Text) (segments : List MessageSegment)
    → (text_content (set_loop t true segments).0 ≡ [])
      × ((set_loop t true segments).1 ≡ true)
      × (media_segments (set_loop t true segments).0 ≡ media_segments segments)
unfolding set_loop text_content media_segments
set_loop-placed t [] = ground arith
set_loop-placed t (s ∷ rest) = ground (arith, set_loop-placed t rest)

set_loop-nil :
    (segments : List MessageSegment)
    → (text_content (set_loop [] false segments).0 ≡ [])
      × ((set_loop [] false segments).1 ≡ false)
      × (media_segments (set_loop [] false segments).0 ≡ media_segments segments)
unfolding set_loop text_content media_segments
set_loop-nil [] = ground arith
set_loop-nil (s ∷ rest) = ground (arith, set_loop-nil rest)

set_loop-cons :
    (c : ℕ) (t : Text) (segments : List MessageSegment)
    → (text_content (set_loop (c ∷ t) false segments).0
        ≡ (if (set_loop (c ∷ t) false segments).1 then c ∷ t else []))
      × (media_segments (set_loop (c ∷ t) false segments).0 ≡ media_segments segments)
unfolding set_loop text_content media_segments
set_loop-cons c t [] = ground arith
set_loop-cons c t (s ∷ rest) =
    ground (arith, set_loop-cons c t rest, set_loop-placed (c ∷ t) rest, append-nil (c ∷ t))

-- Setting the text makes it the whole text content, whatever segments there are, and leaves the
-- segments that are no text, and their order, as they were.
pub set_segment_text-Edits :
    (segments : List MessageSegment) (t : Text)
    → (text_content (set_segment_text segments t) ≡ t)
      × (media_segments (set_segment_text segments t) ≡ media_segments segments)
unfolding set_segment_text text_content media_segments
set_segment_text-Edits segments [] = ground (arith, set_loop-nil segments)
set_segment_text-Edits segments (c ∷ t) =
    ground (arith, set_loop-cons c t segments, append-nil (c ∷ t))
