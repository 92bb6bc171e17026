-- ===== src/Turn/Confirmation.antt =====
-- Risk confirmations, and the callbacks bound to one wait (internal/turn/lifecycle/confirmation.go).
use elbot.Base.{
  ℕ, ◌+◌, String, Bool, true, false, not, ◌&&◌, ◌||◌, Option, none, some, if◌then◌else◌, str_eq,
  ◌==◌, lookup, insert,
}
use elbot.Turn.State.{
  State, Manager, Response, RiskAction, RiskDecision, RiskConfirmation, other_action, tool,
  await_risk_confirm, is_tool, is_await_risk, is_stopping, put, push, refresh_wait, begin_stop_turn,
}

-- What the three callbacks of a RiskWait capture: the session, the turn's pointer, the channel.
pub record RiskWait : Type 0 where
  pub session : String
  pub owner : ℕ
  pub response : ℕ

pub data RiskOutcome : Type 0 where
  answered canceled expired stale : RiskOutcome

unfoldable pub begin_risk_confirmation :
    String → RiskConfirmation → String → Manager → Manager × Option RiskWait
begin_risk_confirmation sid confirmation attempt m = elim (lookup sid m.turns) [
  | none ↦ (m, none)
  | some t ↦
      if str_eq t.attempt attempt && is_tool t.phase
      then (
        record m {
          turns =
              insert sid
                (record t {
                  phase = await_risk_confirm;
                  risk_confirm = some confirmation;
                  risk_response = some (record { channel = m.next; buffer = none });
                  wait_refresh = some false;
                  risk_done = some (m.next + 1);
                })
                m.turns;
          next = m.next + 2;
        },
        some (record { session = sid; owner = t.identity; response = m.next }),
      )
      else (m, none)
]

abbrev same_response : RiskWait → Option Response → Bool
same_response w none = false
same_response w (some r) = r.channel == w.response

-- `m.turns[sessionID] == turn && turn.riskResponse == response`
abbrev pub owns : RiskWait → State → Bool
owns w t = t.identity == w.owner && same_response w t.risk_response

unfoldable pub expire : RiskWait → Manager → Manager × Bool
expire w m = elim (lookup w.session m.turns) [
  | none ↦ (m, false)
  | some t ↦ if not (owns w t && is_await_risk t.phase) then (m, false) else elim t.wait_refresh [
    | some true ↦ (put w.session (record t { wait_refresh = some false }) m, false)
    | _ ↦ (begin_stop_turn w.session t m, true)
  ]
]

unfoldable pub cancel : RiskWait → Manager → Manager × Bool
cancel w m = elim (lookup w.session m.turns) [
  | none ↦ (m, false)
  | some t ↦
      if owns w t && is_await_risk t.phase
      then (begin_stop_turn w.session t m, true)
      else (m, false)
]

-- `failed` says that the request's context gave an error. The decision of the result is the argument's,
-- handed on as it is. A nil riskDone would panic; none is met, as a confirmation that waits has one.
unfoldable pub complete : RiskWait → Bool → Manager → Manager × RiskOutcome
complete w failed m = elim (lookup w.session m.turns) [
  | none ↦ (m, stale)
  | some t ↦
      if not (owns w t)
      then (m, stale)
      else if is_stopping t.phase || failed
      then (begin_stop_turn w.session t m, canceled)
      else if not (is_await_risk t.phase)
      then (m, stale)
      else (
        record m {
          turns =
              insert w.session
                (record t {
                  risk_confirm = none;
                  risk_response = none;
                  wait_refresh = none;
                  risk_done = none;
                  phase = tool;
                })
                m.turns;
          closed = push t.risk_done m.closed;
        },
        answered,
      )
]

-- What the receive of WaitRisk does to the turns: the channel of a stored turn is empty behind it. The
-- decision that it yields goes to the caller, and a channel that no stored turn has is outside.
unfoldable pub receive : RiskWait → Manager → Manager
receive w m = elim (lookup w.session m.turns) [
  | none ↦ m
  | some t ↦ elim t.risk_response [
    | none ↦ m
    | some r ↦
        if t.identity == w.owner && r.channel == w.response
        then put w.session (record t { risk_response = some (record r { buffer = none }) }) m
        else m
  ]
]

abbrev pub known_action : RiskAction → Bool
known_action (other_action a) = false
known_action _ = true

unfoldable pub resolve_risk_confirmation : String → RiskDecision → Manager → Manager × Bool
resolve_risk_confirmation sid decision m = elim (lookup sid m.turns) [
  | none ↦ (m, false)
  | some t ↦
      if not (known_action decision.action) || not (is_await_risk t.phase)
      then (m, false)
      else elim t.risk_response [
        | none ↦ (m, false)
        | some r ↦ elim r.buffer [
          | some d ↦ (m, false)
          | none ↦ (
            put sid (record t { risk_response = some (record r { buffer = some decision }) }) m,
            true,
          )
        ]
      ]
]

unfoldable pub refresh_risk_confirmation : String → Manager → Manager × Bool
refresh_risk_confirmation sid m = elim (lookup sid m.turns) [
  | none ↦ (m, false)
  | some t ↦ if is_await_risk t.phase then (put sid (refresh_wait t) m, true) else (m, false)
]

-- `none` in the second place is the nil dereference of `*turn.riskConfirm`.
unfoldable pub pending_risk_confirmation : String → Manager → Bool × Option RiskConfirmation
pending_risk_confirmation sid m = elim (lookup sid m.turns) [
  | none ↦ (false, none)
  | some t ↦ if is_await_risk t.phase then (true, t.risk_confirm) else (false, none)
]
