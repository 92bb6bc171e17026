-- ===== src/Turn/Examples.antt =====
-- Runs of the turn manager on concrete inputs (internal/turn/lifecycle).
use elbot.Base.{
  ◌≡◌, ◌≢◌, ◌<◌, ◌≤◌, refl, true, false, none, some, List, [], ◌∷◌, ◌++◌, codes, lookup, insert,
  delete, weigh,
}
use elbot.Llm.Segment.{text_segment}
use elbot.Turn.Input.{Input, normalize_input}
use elbot.Turn.State.{
  State, Manager, llm, tool, await_risk_confirm, RiskDecision, RiskConfirmation, confirm,
  new_manager, remove_turn, begin_stop_turn,
}
use elbot.Turn.Attempt.{start_attempt, start_tool_phase, finish_attempt, stop_session, stop_all}
use elbot.Turn.Confirmation.{
  RiskWait, answered, stale, begin_risk_confirmation, complete, expire, cancel,
}
use elbot.Turn.Ops.{Op, apply, run}
use elbot.Turn.Channels.{held, closings, closed_once}
use elbot.Turn.Invariant.{ready, run-ready}
use elbot.Turn.Snapshot.{snapshot}
use elbot.Turn.Phases.{edge, ends}
use elbot.Turn.Frame.{names}
use elbot.Turn.Runs.{run-edge, run-stop_all, run-isolated}
use elbot.Turn.Waits.{answered_once, ended-never_answered}

abbrev hello : Input
hello = record {
  needs_elyph_rules = false;
  content = codes "hi";
  platform_text = [];
  segments = text_segment (codes "hi") ∷ [];
}

abbrev more : Input
more = record {
  needs_elyph_rules = true;
  content = codes "and";
  platform_text = [];
  segments = text_segment (codes "and") ∷ [];
}

abbrev asked : RiskConfirmation
asked = record { tool_name = "shell"; arguments = "{}"; risk = "high"; detail = "" }

abbrev yes_once : RiskDecision
yes_once = record { action = confirm; extra = ""; reason = "" }

-- A turn of session "s" that waits for a risk confirmation.
abbrev to_wait : List Op
to_wait =
    Op.start "s" hello (some 7) "a" ∷ (Op.start_tool "s" "a" ∷ (Op.begin_risk "s" asked "a" ∷ []))

abbrev waiting : Manager
waiting = run to_wait new_manager

abbrev the_wait : RiskWait
the_wait = record { session = "s"; owner = 0; response = 2 }

abbrev busy : List Op
busy = Op.start "s" hello (some 7) "a" ∷ (Op.start_tool "s" "a" ∷ (Op.append_input "s" more ∷ []))

-- The first turn is stopped and finished, which closes its channel.
closes_done :
    (run (to_wait ++ Op.stop_owner "s" ∷ (Op.finish "s" "a" ∷ [])) new_manager).closed
    ≡ 1 ∷ (3 ∷ [])
unfolding run apply start_attempt start_tool_phase begin_risk_confirmation stop_session
    begin_stop_turn finish_attempt remove_turn lookup insert delete
closes_done = refl

closed_once_example :
    (closings 1 (run to_wait new_manager).closed ≤ 1)
    × (0 < weigh (held 1) (run to_wait new_manager).turns
        → closings 1 (run to_wait new_manager).closed ≡ 0)
closed_once_example = closed_once to_wait 1

run-edge_example :
    edge
      (snapshot "s" (run to_wait new_manager)).phase
      (snapshot "s" (apply (Op.stop_owner "s") (run to_wait new_manager))).phase
    ≡ true
run-edge_example = run-edge to_wait (Op.stop_owner "s") "s"

run-stop_all_example : ends (snapshot "s" (stop_all (run to_wait new_manager))).phase ≡ true
run-stop_all_example = run-stop_all to_wait "s"

run-isolated_example : snapshot "t" (run to_wait new_manager) ≡ snapshot "t" new_manager
unfolding names
run-isolated_example = run-isolated to_wait "t" new_manager tt refl

run-ready_example :
    ready (record {
      identity = 0;
      execution = some 7;
      compact_ready = false;
      reserved = false;
      attempt = "a";
      phase = llm;
      original_input = hello;
      pending = [];
      risk_confirm = none;
      risk_response = none;
      wait_refresh = none;
      risk_done = none;
      tools = [];
      attempt_done = some 1;
    })
    ≡ true
unfolding run apply start_attempt lookup insert normalize_input
run-ready_example = run-ready (Op.start "s" hello (some 7) "a" ∷ []) "s" refl

abbrev running_turn : State
running_turn = record {
  identity = 0;
  execution = some 7;
  compact_ready = false;
  reserved = false;
  attempt = "a";
  phase = tool;
  original_input = hello;
  pending = more ∷ [];
  risk_confirm = none;
  risk_response = none;
  wait_refresh = none;
  risk_done = none;
  tools = [];
  attempt_done = some 1;
}

abbrev running : Manager
running = record { turns = ("s", running_turn) ∷ []; next = 2; closed = []; finished = [] }

abbrev waiting_turn : State
waiting_turn = record running_turn {
  phase = await_risk_confirm;
  risk_confirm = some asked;
  risk_response = some (record { channel = 2; buffer = none });
  wait_refresh = some true;
  risk_done = some 3;
}

abbrev paused : Manager
paused = record { turns = ("s", waiting_turn) ∷ []; next = 4; closed = []; finished = [] }

-- The turn asks for another confirmation behind the first.
abbrev asked_again : List Op
asked_again = Op.begin_risk "s" asked "a" ∷ []

answered_once_example :
    (complete the_wait false (run asked_again (complete the_wait false waiting).0)
      ≡ (run asked_again (complete the_wait false waiting).0, stale))
    × (cancel the_wait (run asked_again (complete the_wait false waiting).0)
        ≡ (run asked_again (complete the_wait false waiting).0, false))
    × (expire the_wait (run asked_again (complete the_wait false waiting).0)
        ≡ (run asked_again (complete the_wait false waiting).0, false))
unfolding complete lookup run apply start_attempt start_tool_phase begin_risk_confirmation insert
answered_once_example = answered_once to_wait asked_again the_wait false false refl

-- The wait is cancelled, its turn is finished, and the session waits again.
abbrev started_over : List Op
started_over = Op.finish "s" "a" ∷ to_wait

ended-never_answered_example :
    ((expire the_wait waiting).1 ≡ true
      → (complete the_wait false (run started_over (expire the_wait waiting).0)).1 ≢ answered)
    × ((cancel the_wait waiting).1 ≡ true
        → (complete the_wait false (run started_over (cancel the_wait waiting).0)).1 ≢ answered)
ended-never_answered_example = ended-never_answered to_wait started_over the_wait false
