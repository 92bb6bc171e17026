-- ===== src/Turn/Channels.antt =====
-- No channel of a turn is closed twice: a second `close` would panic
-- (internal/turn/lifecycle, the channels attemptDone and riskDone).
use elbot.Base.{
  ℕ, ◌+◌, ◌≤◌, ◌<◌, ◌≡◌, String, Bool, Option, none, some, List, [], ◌∷◌, arith, ◌==◌,
  if◌then◌else◌, weigh, weigh-insert, weigh-delete, weigh_opt, lookup, insert, delete,
}
use elbot.Turn.State.{
  State, Manager, RiskConfirmation, RiskDecision, new_manager, remove_turn, begin_stop_turn,
  finish_attempt_done,
}
use elbot.Turn.Input.{Input}
use elbot.Turn.Attempt.{
  start_attempt, reserve_execution, start_compact_run, complete_compact_run, start_tool_phase,
  complete_turn, finish_attempt, stop_attempt, stop_session, resume_append, begin_append,
  append_pending_input, drain_merged_input, add_tool_use, stop_each, stop_all,
}
use elbot.Turn.Confirmation.{
  RiskWait, begin_risk_confirmation, expire, cancel, complete, receive, resolve_risk_confirmation,
  refresh_risk_confirmation,
}
use elbot.Turn.Ops.{Op, apply, run}

abbrev pub hit : ℕ → Option ℕ → ℕ
hit c none = 0
hit c (some d) = if d == c then 1 else 0

-- How often the turn holds the channel `c` open.
abbrev pub held : ℕ → State → ℕ
held c t = hit c t.attempt_done + hit c t.risk_done

unfoldable pub closings : ℕ → List ℕ → ℕ
closings c [] = 0
closings c (d ∷ log) = (if d == c then 1 else 0) + closings c log

-- Each identity is held or closed at most once, and one that is not handed out yet is neither.
record OnceAt (c : ℕ) (m : Manager) : Type 0 where
  once : weigh (held c) m.turns + closings c m.closed ≤ 1
  unused : m.next ≤ c → weigh (held c) m.turns + closings c m.closed ≤ 0

insert-held :
    (c : ℕ) (k : String) (t : State) (m : List (String × State))
    → weigh (held c) (insert k t m) + weigh_opt (held c) (lookup k m) ≡ weigh (held c) m + held c t
insert-held c = weigh-insert (held c)

delete-held :
    (c : ℕ) (k : String) (m : List (String × State))
    → weigh (held c) (delete k m) + weigh_opt (held c) (lookup k m) ≡ weigh (held c) m
delete-held c = weigh-delete (held c)

ruleset held_rules = (arith, insert-held, delete-held)

-- What every step owes: one fact for each channel.
module _ (c : ℕ) where
  start_attempt-OnceAt :
      (sid : String) (i : Input) (e : Option ℕ) (a : String) (m : Manager)
      → OnceAt c m
      → OnceAt c (start_attempt sid i e a m).0
  unfolding start_attempt remove_turn begin_stop_turn finish_attempt_done closings
  start_attempt-OnceAt sid i e a m h = grind held_rules

  reserve_execution-OnceAt :
      (sid : String) (i : Input) (e : Option ℕ) (m : Manager)
      → OnceAt c m
      → OnceAt c (reserve_execution sid i e m).0
  unfolding reserve_execution remove_turn begin_stop_turn finish_attempt_done closings
  reserve_execution-OnceAt sid i e m h = grind held_rules

  start_compact_run-OnceAt :
      (sid run : String) (e : Option ℕ) (m : Manager)
      → OnceAt c m
      → OnceAt c (start_compact_run sid run e m).0
  unfolding start_compact_run remove_turn begin_stop_turn finish_attempt_done closings
  start_compact_run-OnceAt sid run e m h = grind held_rules

  complete_compact_run-OnceAt :
      (sid run : String) (m : Manager) → OnceAt c m → OnceAt c (complete_compact_run sid run m).0
  unfolding complete_compact_run remove_turn begin_stop_turn finish_attempt_done closings
  complete_compact_run-OnceAt sid run m h = grind held_rules

  start_tool_phase-OnceAt :
      (sid a : String) (m : Manager) → OnceAt c m → OnceAt c (start_tool_phase sid a m).0
  unfolding start_tool_phase remove_turn begin_stop_turn finish_attempt_done closings
  start_tool_phase-OnceAt sid a m h = grind held_rules

  complete_turn-OnceAt :
      (sid a : String) (m : Manager) → OnceAt c m → OnceAt c (complete_turn sid a m).0
  unfolding complete_turn remove_turn begin_stop_turn finish_attempt_done closings
  complete_turn-OnceAt sid a m h = grind held_rules

  finish_attempt-OnceAt :
      (sid a : String) (m : Manager) → OnceAt c m → OnceAt c (finish_attempt sid a m)
  unfolding finish_attempt remove_turn begin_stop_turn finish_attempt_done closings
  finish_attempt-OnceAt sid a m h = grind held_rules

  stop_attempt-OnceAt :
      (sid a : String) (m : Manager) → OnceAt c m → OnceAt c (stop_attempt sid a m)
  unfolding stop_attempt remove_turn begin_stop_turn finish_attempt_done closings
  stop_attempt-OnceAt sid a m h = grind held_rules

  stop_session-OnceAt : (sid : String) (m : Manager) → OnceAt c m → OnceAt c (stop_session sid m)
  unfolding stop_session remove_turn begin_stop_turn finish_attempt_done closings
  stop_session-OnceAt sid m h = grind held_rules

  resume_append-OnceAt :
      (sid : String) (m : Manager) → OnceAt c m → OnceAt c (resume_append sid m).0
  unfolding resume_append remove_turn begin_stop_turn finish_attempt_done closings
  resume_append-OnceAt sid m h = grind held_rules

  begin_append-OnceAt :
      (sid a : String) (i : Input) (m : Manager) → OnceAt c m → OnceAt c (begin_append sid a i m).0
  unfolding begin_append remove_turn begin_stop_turn finish_attempt_done closings
  begin_append-OnceAt sid a i m h = grind held_rules

  append_pending_input-OnceAt :
      (sid : String) (i : Input) (m : Manager)
      → OnceAt c m
      → OnceAt c (append_pending_input sid i m).0
  unfolding append_pending_input remove_turn begin_stop_turn finish_attempt_done closings
  append_pending_input-OnceAt sid i m h = grind held_rules

  drain_merged_input-OnceAt :
      (sid a : String) (m : Manager) → OnceAt c m → OnceAt c (drain_merged_input sid a m).0
  unfolding drain_merged_input remove_turn begin_stop_turn finish_attempt_done closings
  drain_merged_input-OnceAt sid a m h = grind held_rules

  add_tool_use-OnceAt :
      (sid name a : String) (m : Manager) → OnceAt c m → OnceAt c (add_tool_use sid name a m)
  unfolding add_tool_use remove_turn begin_stop_turn finish_attempt_done closings
  add_tool_use-OnceAt sid name a m h = grind held_rules

  begin_risk_confirmation-OnceAt :
      (sid : String) (r : RiskConfirmation) (a : String) (m : Manager)
      → OnceAt c m
      → OnceAt c (begin_risk_confirmation sid r a m).0
  unfolding begin_risk_confirmation remove_turn begin_stop_turn finish_attempt_done closings
  begin_risk_confirmation-OnceAt sid r a m h = grind held_rules

  expire-OnceAt : (w : RiskWait) (m : Manager) → OnceAt c m → OnceAt c (expire w m).0
  unfolding expire remove_turn begin_stop_turn finish_attempt_done closings
  expire-OnceAt w m h = grind held_rules

  cancel-OnceAt : (w : RiskWait) (m : Manager) → OnceAt c m → OnceAt c (cancel w m).0
  unfolding cancel remove_turn begin_stop_turn finish_attempt_done closings
  cancel-OnceAt w m h = grind held_rules

  complete-OnceAt :
      (w : RiskWait) (failed : Bool) (m : Manager) → OnceAt c m → OnceAt c (complete w failed m).0
  unfolding complete remove_turn begin_stop_turn finish_attempt_done closings
  complete-OnceAt w failed m h = grind held_rules

  receive-OnceAt : (w : RiskWait) (m : Manager) → OnceAt c m → OnceAt c (receive w m)
  unfolding receive remove_turn begin_stop_turn finish_attempt_done closings
  receive-OnceAt w m h = grind held_rules

  resolve_risk_confirmation-OnceAt :
      (sid : String) (d : RiskDecision) (m : Manager)
      → OnceAt c m
      → OnceAt c (resolve_risk_confirmation sid d m).0
  unfolding resolve_risk_confirmation remove_turn begin_stop_turn finish_attempt_done closings
  resolve_risk_confirmation-OnceAt sid d m h = grind held_rules

  refresh_risk_confirmation-OnceAt :
      (sid : String) (m : Manager) → OnceAt c m → OnceAt c (refresh_risk_confirmation sid m).0
  unfolding refresh_risk_confirmation remove_turn begin_stop_turn finish_attempt_done closings
  refresh_risk_confirmation-OnceAt sid m h = grind held_rules

  stop_each-OnceAt :
      (l : List (String × State)) (m : Manager) → OnceAt c m → OnceAt c (stop_each l m)
  unfolding stop_each
  stop_each-OnceAt [] m h = h
  stop_each-OnceAt ((sid, t) ∷ l) m h =
      stop_each-OnceAt l (stop_session sid m) (stop_session-OnceAt sid m h)

  apply-OnceAt : (op : Op) (m : Manager) → OnceAt c m → OnceAt c (apply op m)
  unfolding apply stop_all
  apply-OnceAt (Op.start sid i e a) m h = start_attempt-OnceAt sid i e a m h
  apply-OnceAt (Op.reserve sid i e) m h = reserve_execution-OnceAt sid i e m h
  apply-OnceAt (Op.start_compact sid run e) m h = start_compact_run-OnceAt sid run e m h
  apply-OnceAt (Op.complete_compact sid run) m h = complete_compact_run-OnceAt sid run m h
  apply-OnceAt (Op.start_tool sid a) m h = start_tool_phase-OnceAt sid a m h
  apply-OnceAt (Op.complete_attempt sid a) m h = complete_turn-OnceAt sid a m h
  apply-OnceAt (Op.finish sid a) m h = finish_attempt-OnceAt sid a m h
  apply-OnceAt (Op.stop_one sid a) m h = stop_attempt-OnceAt sid a m h
  apply-OnceAt (Op.stop_owner sid) m h = stop_session-OnceAt sid m h
  apply-OnceAt Op.stop_every m h = stop_each-OnceAt m.turns m h
  apply-OnceAt (Op.resume sid) m h = resume_append-OnceAt sid m h
  apply-OnceAt (Op.begin_input sid a i) m h = begin_append-OnceAt sid a i m h
  apply-OnceAt (Op.append_input sid i) m h = append_pending_input-OnceAt sid i m h
  apply-OnceAt (Op.drain sid a) m h = drain_merged_input-OnceAt sid a m h
  apply-OnceAt (Op.use_tool sid name a) m h = add_tool_use-OnceAt sid name a m h
  apply-OnceAt (Op.begin_risk sid r a) m h = begin_risk_confirmation-OnceAt sid r a m h
  apply-OnceAt (Op.expire_wait w) m h = expire-OnceAt w m h
  apply-OnceAt (Op.cancel_wait w) m h = cancel-OnceAt w m h
  apply-OnceAt (Op.complete_wait w failed) m h = complete-OnceAt w failed m h
  apply-OnceAt (Op.receive_decision w) m h = receive-OnceAt w m h
  apply-OnceAt (Op.resolve sid d) m h = resolve_risk_confirmation-OnceAt sid d m h
  apply-OnceAt (Op.refresh sid) m h = refresh_risk_confirmation-OnceAt sid m h

  run-OnceAt : (ops : List Op) (m : Manager) → OnceAt c m → OnceAt c (run ops m)
  unfolding run
  run-OnceAt [] m h = h
  run-OnceAt (op ∷ ops) m h = run-OnceAt ops (apply op m) (apply-OnceAt op m h)

-- Whatever operations run, in whatever order and with whatever arguments, from a new manager, each
-- channel has been closed at most once, and a channel that a turn still holds has not been closed.
pub closed_once :
    (ops : List Op) (c : ℕ)
    → (closings c (run ops new_manager).closed ≤ 1)
      × (0 < weigh (held c) (run ops new_manager).turns
          → closings c (run ops new_manager).closed ≡ 0)
unfolding closings
closed_once ops c =
    let h =
      run-OnceAt c ops new_manager
        (unfold weigh in record { once = omega arith; unused = λ _. omega arith }) in
    ground (arith, h.once)
