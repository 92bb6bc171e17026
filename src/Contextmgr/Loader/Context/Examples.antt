-- ===== src/Contextmgr/Loader/Context/Examples.antt =====
-- The context of a forked session (internal/contextmgr/loader.go).
use elbot.Base.{some, none, ℕ, ◌≡◌, refl, String, List, [], ◌∷◌, if◌then◌else◌, str_eq}
use elbot.Contextmgr.Loader.{ok, err, not_found}
use elbot.Contextmgr.Loader.Context.{ContextStore, load_context, load}
use elbot.Contextmgr.Loader.Context.Spans.{after_message, found, Span}

-- A message is its ID here.
abbrev name : String → String
name m = m

abbrev own_of : String → List String
own_of id = if str_eq id "fork" then "m3" ∷ ("m4" ∷ []) else "m1" ∷ ("m2" ∷ [])

-- `fork` was forked from `main` behind its second message, and `main` has a summary up to its first.
abbrev store : ContextStore String ℕ
unfolding after_message
store = record {
  get_session = λ id.
      if str_eq id "fork"
      then ok (record { parent = "main"; fork_from = "m2" })
      else ok (record { parent = ""; fork_from = "" });
  latest_by_session = λ id. err not_found;
  latest_by_session_up_to = λ id up_to. ok 7;
  list_by_session = λ id. ok (own_of id);
  list_by_session_up_to = λ id up_to. ok (own_of id);
  list_by_session_after = λ id message. found (after_message name message (own_of id));
  list_by_session_after_up_to = λ id message up_to. found (after_message name message (own_of id));
  to_message = λ s. "m1";
}

abbrev spans : List (Span String ℕ)
spans =
    record { summary = none; own = "m3" ∷ ("m4" ∷ []) }
    ∷ (record { summary = some 7; own = "m1" ∷ ("m2" ∷ []) } ∷ [])

-- The summary of `main`, the message behind it, and those of the fork.
fork_context :
    load_context store "fork"
    ≡ ok (record { summary = some 7; messages = "m2" ∷ ("m3" ∷ ("m4" ∷ [])) })
unfolding load store
fork_context = refl
