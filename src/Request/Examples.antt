-- ===== src/Request/Examples.antt =====
-- Two requests, one started under the other's context (internal/request/manager.go).
use elbot.Base.{contains, ◌≡◌, refl, true, false, some, [], ◌∷◌, lookup}
use elbot.Request.{
  Kind, turn, tool, StartRequest, ActiveRequest, Manager, new_manager, start, new_started, register,
  get, snapshot, cancel, cancel_session, mark_session, has_err, to_cancel,
}
use elbot.Request.Cancelling.{running, cancel_inherited}

abbrev asked : Kind → StartRequest
asked kind = record { parent_id = ""; session_id = "s"; kind = kind; label = ""; timeout = 0 }

abbrev two_requests : Manager
two_requests =
    register (new_started "b" (0 ∷ []) (asked tool) 6 1)
      (register (new_started "a" [] (asked turn) 5 0) new_manager)

abbrev held_a : ActiveRequest
held_a = record {
  request = (new_started "a" [] (asked turn) 5 0).request;
  cancel = 0;
  ctx = 0 ∷ [];
}

abbrev held_b : ActiveRequest
held_b = record {
  request = (new_started "b" (0 ∷ []) (asked tool) 6 1).request;
  cancel = 1;
  ctx = 1 ∷ (0 ∷ []);
}

two_requests-started :
    (start (some "b") (0 ∷ []) (asked tool) 6 (start (some "a") [] (asked turn) 5 new_manager).0).0
    ≡ two_requests
unfolding start register new_started
two_requests-started = refl

cancel_session_both : (cancel_session "s" two_requests).1 ≡ 2
unfolding cancel_session mark_session to_cancel snapshot has_err contains register new_started
cancel_session_both = refl

cancel_inherited_example :
    ((cancel "a" two_requests).1 ≡ true) × (running (get "b" (cancel "a" two_requests).0) ≡ false)
unfolding register new_started lookup contains snapshot has_err
cancel_inherited_example = cancel_inherited "a" "b" two_requests held_a held_b refl refl refl refl
