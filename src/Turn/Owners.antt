-- ===== src/Turn/Owners.antt =====
-- What a pending refresh, a completed turn and a stop leave behind (internal/turn/lifecycle).
use elbot.Base.{
  ℕ, ◌≡◌, String, true, false, Option, some, arith, eq_refl, lookup, Distinct, insert-Distinct,
  lookup-insert_self, lookup-delete_self, opt_eq,
}
use elbot.Turn.Input.{Input, has_content, merge_inputs}
use elbot.Turn.State.{State, Manager, idle, remove_turn, begin_stop_turn, await_risk_confirm}
use elbot.Turn.Attempt.{
  start_attempt, complete_turn, finish_attempt, stop_session, start_compact_run, can_compact,
}
use elbot.Turn.Confirmation.{RiskWait, expire, owns}
use elbot.Turn.Snapshot.{snapshot}

-- A refresh that is pending wins against the timer, once: the first expiry only takes it away, and
-- the next one ends the wait.
pub refresh_wins :
    (w : RiskWait) (m : Manager) {t : State}
    → lookup w.session m.turns ≡ some t
    → owns w t ≡ true
    → t.phase ≡ await_risk_confirm
    → t.wait_refresh ≡ some true
    → ((expire w m).1 ≡ false) × ((expire w (expire w m).0).1 ≡ true)
unfolding expire
refresh_wins w m e o p f = grind (arith, lookup-insert_self)

-- After CompleteTurn with input pending, the session is reserved for the same execution: that one
-- may start an attempt or a compaction, and no other may.
pub complete_turn_reserves :
    (m : Manager) (sid a b : String) (i : Input) (e' : Option ℕ) {t : State} {e : ℕ}
    → lookup sid m.turns ≡ some t
    → (complete_turn sid a m).2 ≡ true
    → t.execution ≡ some e
    → has_content (merge_inputs t.pending) ≡ true
    → let m' = (complete_turn sid a m).0 in
      ((start_attempt sid i e' b m').1 ≡ opt_eq (some e) e')
      × ((start_compact_run sid b e' m').1 ≡ opt_eq (some e) e')
      × (can_compact sid e' m' ≡ opt_eq (some e) e')
unfolding complete_turn start_attempt start_compact_run can_compact
complete_turn_reserves m sid a b i e' e r x c = grind (arith, lookup-insert_self)

-- Stopping a session and then finishing the attempt that it was running leaves the session idle.
pub stop-finish :
    (m : Manager) (sid : String) {t : State}
    → Distinct m.turns
    → lookup sid m.turns ≡ some t
    → (snapshot sid (finish_attempt sid t.attempt (stop_session sid m))).phase ≡ idle
unfolding stop_session finish_attempt begin_stop_turn remove_turn snapshot
stop-finish m sid {t} d e =
    grind (arith, lookup-insert_self, lookup-delete_self, insert-Distinct, eq_refl t.attempt)
