-- ===== src/Turn/Merge.antt =====
-- Merging queued input loses nothing (internal/turn/lifecycle/pending.go).
use elbot.Base.{ℕ, suc, ◌≡◌, refl, sym, ◌∙◌, Text, List, [], ◌∷◌, ◌++◌, append_assoc, append-nil}
use elbot.Llm.Segment.{
  MessageSegment, text_content, media_segments, append_segment_text, text_segments,
}
use elbot.Llm.Segment.Edits.{append_segment_text-Edits, text_content-append, media_segments-append}
use elbot.Turn.Input.{
  Input, keep_content, merge_inputs, merge_kept, merge_segments, item_label, merge_header,
  any_rules,
}

-- The text that the merged segments should hold: each input's text behind its number.
unfoldable pub labelled : ℕ → List Input → Text
labelled n [] = []
labelled n (i ∷ rest) = item_label n ++ (text_content i.segments ++ labelled (suc n) rest)

unfoldable pub all_media : List Input → List MessageSegment
all_media [] = []
all_media (i ∷ rest) = media_segments i.segments ++ all_media rest

merge_segments-content :
    (n : ℕ) (segments : List MessageSegment) (inputs : List Input)
    → (text_content (merge_segments n segments inputs) ≡ text_content segments ++ labelled n inputs)
      × (media_segments (merge_segments n segments inputs)
          ≡ media_segments segments ++ all_media inputs)
unfolding merge_segments labelled all_media
merge_segments-content n segments [] = (sym (append-nil _), sym (append-nil _))
merge_segments-content n segments (i ∷ rest) =
    let edited = append_segment_text segments (item_label n) in
    let ih = merge_segments-content (suc n) (edited ++ i.segments) rest in
    let e = append_segment_text-Edits segments (item_label n) in
    (
      ih.0 ∙ rw (text_content-append edited i.segments) (rw e.0 (simp append_assoc)),
      ih.1 ∙ rw (media_segments-append edited i.segments) (rw e.1 (simp append_assoc)),
    )

-- Two or more inputs with content merge into one whose segments hold the text of each, in order
-- and behind its number, all their other segments in order, and the request for the rules of any.
pub merge_inputs-content :
    (inputs rest : List Input) (i j : Input)
    → keep_content inputs ≡ i ∷ (j ∷ rest)
    → let out = merge_inputs inputs in
      (text_content out.segments ≡ merge_header ++ labelled 0 (i ∷ (j ∷ rest)))
      × (media_segments out.segments ≡ all_media (i ∷ (j ∷ rest)))
      × (out.needs_elyph_rules ≡ any_rules (i ∷ (j ∷ rest)))
unfolding merge_inputs merge_kept text_segments text_content all_media media_segments
merge_inputs-content inputs rest i j e =
    let c = merge_segments-content 0 (text_segments merge_header) (i ∷ (j ∷ rest)) in
    rw e (c.0, c.1, refl)
