-- ===== src/Turn/Waits.antt =====
-- The response channels of confirmations over runs (internal/turn/lifecycle/confirmation.go): which turn has
-- a channel, and that one which a wait is through with never comes back.
use elbot.Base.{
  ℕ, ◌+◌, ◌≤◌, ◌≡◌, ◌≢◌, String, Bool, true, false, not, ◌||◌, Option, none, some, List, [], ◌∷◌,
  arith, ◌==◌, if◌then◌else◌, weigh, weigh-insert, weigh-delete, weigh_opt-le-weigh, weigh_opt,
  lookup, insert, delete,
}
use elbot.Turn.State.{
  State, Manager, Response, RiskConfirmation, RiskDecision, new_manager, remove_turn,
  begin_stop_turn, finish_attempt_done, is_stopping,
}
use elbot.Turn.Input.{Input}
use elbot.Turn.Attempt.{
  start_attempt, reserve_execution, start_compact_run, complete_compact_run, start_tool_phase,
  complete_turn, finish_attempt, stop_attempt, stop_session, resume_append, begin_append,
  append_pending_input, drain_merged_input, add_tool_use, stop_each, stop_all,
}
use elbot.Turn.Confirmation.{
  RiskWait, answered, stale, begin_risk_confirmation, expire, cancel, complete, receive,
  resolve_risk_confirmation, refresh_risk_confirmation,
}
use elbot.Turn.Ops.{Op, apply, run}

abbrev channel_is : ℕ → Option Response → Bool
channel_is c none = false
channel_is c (some r) = r.channel == c

-- Whether the turn has the channel `c`; where not `all`, those that are stopping do not count.
abbrev carries : Bool → ℕ → State → ℕ
carries all c t =
    if channel_is c t.risk_response then (if all || not (is_stopping t.phase) then 1 else 0) else 0

-- At most `n` turns have the channel, and none does before it is handed out.
record Carried (all : Bool) (c n : ℕ) (m : Manager) : Type 0 where
  few : weigh (carries all c) m.turns ≤ n
  unused : m.next ≤ c → (weigh (carries all c) m.turns ≤ 0) × (1 ≤ n)

insert-carries :
    (all : Bool) (c : ℕ) (k : String) (t : State) (m : List (String × State))
    → weigh (carries all c) (insert k t m) + weigh_opt (carries all c) (lookup k m)
      ≡ weigh (carries all c) m + carries all c t
insert-carries all c = weigh-insert (carries all c)

delete-carries :
    (all : Bool) (c : ℕ) (k : String) (m : List (String × State))
    → weigh (carries all c) (delete k m) + weigh_opt (carries all c) (lookup k m)
      ≡ weigh (carries all c) m
delete-carries all c = weigh-delete (carries all c)

ruleset carried_rules = (arith, insert-carries, delete-carries)

-- What every step owes, for each channel.
module _ (all : Bool) (c n : ℕ) where
  start_attempt-Carried :
      (sid : String) (i : Input) (e : Option ℕ) (a : String) (m : Manager)
      → Carried all c n m
      → Carried all c n (start_attempt sid i e a m).0
  unfolding start_attempt remove_turn begin_stop_turn finish_attempt_done
  start_attempt-Carried sid i e a m h = grind carried_rules

  reserve_execution-Carried :
      (sid : String) (i : Input) (e : Option ℕ) (m : Manager)
      → Carried all c n m
      → Carried all c n (reserve_execution sid i e m).0
  unfolding reserve_execution remove_turn begin_stop_turn finish_attempt_done
  reserve_execution-Carried sid i e m h = grind carried_rules

  start_compact_run-Carried :
      (sid run : String) (e : Option ℕ) (m : Manager)
      → Carried all c n m
      → Carried all c n (start_compact_run sid run e m).0
  unfolding start_compact_run remove_turn begin_stop_turn finish_attempt_done
  start_compact_run-Carried sid run e m h = grind carried_rules

  complete_compact_run-Carried :
      (sid run : String) (m : Manager)
      → Carried all c n m
      → Carried all c n (complete_compact_run sid run m).0
  unfolding complete_compact_run remove_turn begin_stop_turn finish_attempt_done
  complete_compact_run-Carried sid run m h = grind carried_rules

  start_tool_phase-Carried :
      (sid a : String) (m : Manager)
      → Carried all c n m
      → Carried all c n (start_tool_phase sid a m).0
  unfolding start_tool_phase remove_turn begin_stop_turn finish_attempt_done
  start_tool_phase-Carried sid a m h = grind carried_rules

  complete_turn-Carried :
      (sid a : String) (m : Manager) → Carried all c n m → Carried all c n (complete_turn sid a m).0
  unfolding complete_turn remove_turn begin_stop_turn finish_attempt_done
  complete_turn-Carried sid a m h = grind carried_rules

  finish_attempt-Carried :
      (sid a : String) (m : Manager) → Carried all c n m → Carried all c n (finish_attempt sid a m)
  unfolding finish_attempt remove_turn begin_stop_turn finish_attempt_done
  finish_attempt-Carried sid a m h = grind carried_rules

  stop_attempt-Carried :
      (sid a : String) (m : Manager) → Carried all c n m → Carried all c n (stop_attempt sid a m)
  unfolding stop_attempt remove_turn begin_stop_turn finish_attempt_done
  stop_attempt-Carried sid a m h = grind carried_rules

  stop_session-Carried :
      (sid : String) (m : Manager) → Carried all c n m → Carried all c n (stop_session sid m)
  unfolding stop_session remove_turn begin_stop_turn finish_attempt_done
  stop_session-Carried sid m h = grind carried_rules

  resume_append-Carried :
      (sid : String) (m : Manager) → Carried all c n m → Carried all c n (resume_append sid m).0
  unfolding resume_append remove_turn begin_stop_turn finish_attempt_done
  resume_append-Carried sid m h = grind carried_rules

  begin_append-Carried :
      (sid a : String) (i : Input) (m : Manager)
      → Carried all c n m
      → Carried all c n (begin_append sid a i m).0
  unfolding begin_append remove_turn begin_stop_turn finish_attempt_done
  begin_append-Carried sid a i m h = grind carried_rules

  append_pending_input-Carried :
      (sid : String) (i : Input) (m : Manager)
      → Carried all c n m
      → Carried all c n (append_pending_input sid i m).0
  unfolding append_pending_input remove_turn begin_stop_turn finish_attempt_done
  append_pending_input-Carried sid i m h = grind carried_rules

  drain_merged_input-Carried :
      (sid a : String) (m : Manager)
      → Carried all c n m
      → Carried all c n (drain_merged_input sid a m).0
  unfolding drain_merged_input remove_turn begin_stop_turn finish_attempt_done
  drain_merged_input-Carried sid a m h = grind carried_rules

  add_tool_use-Carried :
      (sid name a : String) (m : Manager)
      → Carried all c n m
      → Carried all c n (add_tool_use sid name a m)
  unfolding add_tool_use remove_turn begin_stop_turn finish_attempt_done
  add_tool_use-Carried sid name a m h = grind carried_rules

  begin_risk_confirmation-Carried :
      (sid : String) (r : RiskConfirmation) (a : String) (m : Manager)
      → Carried all c n m
      → Carried all c n (begin_risk_confirmation sid r a m).0
  unfolding begin_risk_confirmation remove_turn begin_stop_turn finish_attempt_done
  begin_risk_confirmation-Carried sid r a m h = grind carried_rules

  expire-Carried : (w : RiskWait) (m : Manager) → Carried all c n m → Carried all c n (expire w m).0
  unfolding expire remove_turn begin_stop_turn finish_attempt_done
  expire-Carried w m h = grind carried_rules

  cancel-Carried : (w : RiskWait) (m : Manager) → Carried all c n m → Carried all c n (cancel w m).0
  unfolding cancel remove_turn begin_stop_turn finish_attempt_done
  cancel-Carried w m h = grind carried_rules

  complete-Carried :
      (w : RiskWait) (failed : Bool) (m : Manager)
      → Carried all c n m
      → Carried all c n (complete w failed m).0
  unfolding complete remove_turn begin_stop_turn finish_attempt_done
  complete-Carried w failed m h = grind carried_rules

  receive-Carried : (w : RiskWait) (m : Manager) → Carried all c n m → Carried all c n (receive w m)
  unfolding receive remove_turn begin_stop_turn finish_attempt_done
  receive-Carried w m h = grind carried_rules

  resolve_risk_confirmation-Carried :
      (sid : String) (d : RiskDecision) (m : Manager)
      → Carried all c n m
      → Carried all c n (resolve_risk_confirmation sid d m).0
  unfolding resolve_risk_confirmation remove_turn begin_stop_turn finish_attempt_done
  resolve_risk_confirmation-Carried sid d m h = grind carried_rules

  refresh_risk_confirmation-Carried :
      (sid : String) (m : Manager)
      → Carried all c n m
      → Carried all c n (refresh_risk_confirmation sid m).0
  unfolding refresh_risk_confirmation remove_turn begin_stop_turn finish_attempt_done
  refresh_risk_confirmation-Carried sid m h = grind carried_rules

  stop_each-Carried :
      (l : List (String × State)) (m : Manager)
      → Carried all c n m
      → Carried all c n (stop_each l m)
  unfolding stop_each
  stop_each-Carried [] m h = h
  stop_each-Carried ((sid, t) ∷ l) m h =
      stop_each-Carried l (stop_session sid m) (stop_session-Carried sid m h)

  apply-Carried : (op : Op) (m : Manager) → Carried all c n m → Carried all c n (apply op m)
  unfolding apply stop_all
  apply-Carried (Op.start sid i e a) m h = start_attempt-Carried sid i e a m h
  apply-Carried (Op.reserve sid i e) m h = reserve_execution-Carried sid i e m h
  apply-Carried (Op.start_compact sid run e) m h = start_compact_run-Carried sid run e m h
  apply-Carried (Op.complete_compact sid run) m h = complete_compact_run-Carried sid run m h
  apply-Carried (Op.start_tool sid a) m h = start_tool_phase-Carried sid a m h
  apply-Carried (Op.complete_attempt sid a) m h = complete_turn-Carried sid a m h
  apply-Carried (Op.finish sid a) m h = finish_attempt-Carried sid a m h
  apply-Carried (Op.stop_one sid a) m h = stop_attempt-Carried sid a m h
  apply-Carried (Op.stop_owner sid) m h = stop_session-Carried sid m h
  apply-Carried Op.stop_every m h = stop_each-Carried m.turns m h
  apply-Carried (Op.resume sid) m h = resume_append-Carried sid m h
  apply-Carried (Op.begin_input sid a i) m h = begin_append-Carried sid a i m h
  apply-Carried (Op.append_input sid i) m h = append_pending_input-Carried sid i m h
  apply-Carried (Op.drain sid a) m h = drain_merged_input-Carried sid a m h
  apply-Carried (Op.use_tool sid name a) m h = add_tool_use-Carried sid name a m h
  apply-Carried (Op.begin_risk sid r a) m h = begin_risk_confirmation-Carried sid r a m h
  apply-Carried (Op.expire_wait w) m h = expire-Carried w m h
  apply-Carried (Op.cancel_wait w) m h = cancel-Carried w m h
  apply-Carried (Op.complete_wait w failed) m h = complete-Carried w failed m h
  apply-Carried (Op.receive_decision w) m h = receive-Carried w m h
  apply-Carried (Op.resolve sid d) m h = resolve_risk_confirmation-Carried sid d m h
  apply-Carried (Op.refresh sid) m h = refresh_risk_confirmation-Carried sid m h

  run-Carried : (ops : List Op) (m : Manager) → Carried all c n m → Carried all c n (run ops m)
  unfolding run
  run-Carried [] m h = h
  run-Carried (op ∷ ops) m h = run-Carried ops (apply op m) (apply-Carried op m h)

run-new : (all : Bool) (c : ℕ) (ops : List Op) → Carried all c 1 (run ops new_manager)
run-new all c ops =
    run-Carried all c 1 ops new_manager
      (unfold weigh in record { few = omega arith; unused = λ _. (omega arith, omega arith) })

lookup-carries :
    (all : Bool) (c : ℕ) (k : String) (m : List (String × State))
    → weigh_opt (carries all c) (lookup k m) ≤ weigh (carries all c) m
lookup-carries all c = weigh_opt-le-weigh (carries all c)

complete-shut :
    (w : RiskWait) (failed : Bool) (m : Manager)
    → Carried true w.response 1 m
    → (complete w failed m).1 ≡ answered
    → Carried true w.response 0 (complete w failed m).0
unfolding complete begin_stop_turn remove_turn
complete-shut w failed m h e =
    grind (carried_rules, lookup-carries true w.response w.session m.turns, h.few, h.unused)

expire-shut :
    (w : RiskWait) (m : Manager)
    → Carried false w.response 1 m
    → (expire w m).1 ≡ true
    → Carried false w.response 0 (expire w m).0
unfolding expire begin_stop_turn remove_turn
expire-shut w m h e =
    grind (carried_rules, lookup-carries false w.response w.session m.turns, h.few, h.unused)

cancel-shut :
    (w : RiskWait) (m : Manager)
    → Carried false w.response 1 m
    → (cancel w m).1 ≡ true
    → Carried false w.response 0 (cancel w m).0
unfolding cancel begin_stop_turn remove_turn
cancel-shut w m h e =
    grind (carried_rules, lookup-carries false w.response w.session m.turns, h.few, h.unused)

Carried-unanswered :
    (w : RiskWait) (failed : Bool) (m : Manager)
    → Carried false w.response 0 m
    → (complete w failed m).1 ≢ answered
unfolding complete begin_stop_turn remove_turn
Carried-unanswered w failed m h e =
    grind (carried_rules, lookup-carries false w.response w.session m.turns, h.few, h.unused)

Carried-stale :
    (w : RiskWait) (failed : Bool) (m : Manager)
    → Carried true w.response 0 m
    → (complete w failed m ≡ (m, stale)) × (cancel w m ≡ (m, false)) × (expire w m ≡ (m, false))
unfolding complete cancel expire
Carried-stale w failed m h =
    grind (carried_rules, lookup-carries true w.response w.session m.turns, h.few)

-- A confirmation is answered at most once: after any operations, once a callback has answered it, its wait
-- is stale for every callback and changes nothing, whatever operations come in between.
pub answered_once :
    (ops later : List Op) (w : RiskWait) (failed again : Bool)
    → (complete w failed (run ops new_manager)).1 ≡ answered
    → let m' = run later (complete w failed (run ops new_manager)).0 in
      (complete w again m' ≡ (m', stale))
      × (cancel w m' ≡ (m', false))
      × (expire w m' ≡ (m', false))
answered_once ops later w failed again e = Carried-stale w again _ (
    run-Carried true w.response 0 later _
      (complete-shut w failed _ (run-new true w.response ops) e))

-- After any operations, a wait that expired or was cancelled is never answered, whatever operations come
-- in between.
pub ended-never_answered :
    (ops later : List Op) (w : RiskWait) (failed : Bool)
    → let m = run ops new_manager in
      ((expire w m).1 ≡ true → (complete w failed (run later (expire w m).0)).1 ≢ answered)
      × ((cancel w m).1 ≡ true → (complete w failed (run later (cancel w m).0)).1 ≢ answered)
ended-never_answered ops later w failed = (
  λ e.
      Carried-unanswered w failed _
        (run-Carried false w.response 0 later _ (expire-shut w _ (run-new false w.response ops) e)),
  λ e.
      Carried-unanswered w failed _
        (run-Carried false w.response 0 later _ (cancel-shut w _ (run-new false w.response ops) e)),
)
