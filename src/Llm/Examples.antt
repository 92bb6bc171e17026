-- ===== src/Llm/Examples.antt =====
-- Segment edits and retries on concrete inputs (internal/llm/segment.go and retry.go).
use elbot.Base.{
  ℕ, suc, zero, ◌+◌, ◌≡◌, refl, false, some, none, arith, inr, if◌then◌else◌, ◌==◌, List, [], ◌∷◌,
  codes,
}
use elbot.Llm.Retry.{Round, retryable, retry, retry_from, attempt_round}
use elbot.Llm.Retry.Deciding.{goes_on, goes_through, verdict, prev_at, retry_decides}
use elbot.Llm.Segment.{MessageSegment, image, text_segment}

abbrev picture : MessageSegment
picture = record { kind = image; content = []; url = "u"; media_id = ""; mime_type = ""; name = "" }

abbrev message : List MessageSegment
message = picture ∷ (text_segment (codes "hi") ∷ (picture ∷ []))

-- The first call fails and may be retried, the next succeed.
abbrev second_try : ℕ → Round ℕ
second_try zero = record {
  ended_before = false;
  outcome = some retryable;
  result = 10;
  ended_after = false;
  ended_waiting = false;
}
second_try (suc n) = record {
  ended_before = false;
  outcome = none;
  result = 20;
  ended_after = false;
  ended_waiting = false;
}

second_try-result : (retry 3 5 0 second_try).result ≡ 20
unfolding retry retry_from attempt_round
second_try-result = refl

retry_decides_example :
    (((retry 3 5 0 second_try).result, (retry 3 5 0 second_try).status)
      ≡ verdict (1 == 3) (prev_at 1 0 0 second_try) (second_try 1))
    × ((retry 3 5 0 second_try).calls ≡ 1 + (if (second_try 1).ended_before then 0 else 1))
unfolding goes_through goes_on
retry_decides_example = retry_decides 1 3 5 0 second_try (ground arith) refl (inr refl)
