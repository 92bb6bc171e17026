-- ===== src/Contextmgr/Loader/Context.antt =====
-- The context of a session for the model: a summary and the messages behind it, or all messages
-- (internal/contextmgr/loader.go).
--
-- The row that the store returns for an ID has that ID. The rounds left stand for the depth.
mod Examples
pub mod Spans
use elbot.Base.{
  ℕ, zero, suc, ◌+◌, String, Bool, true, false, not, ◌&&◌, ◌||◌, Option, none, some, List, [], ◌++◌,
  if◌then◌else◌, str_eq,
}
use elbot.Contextmgr.Loader.{
  LoadError, not_found, fork_depth_exceeded, checkpoint_missing, store_failed, Result, ok, err,
  SessionRow, max_fork_depth,
}

pub record ContextStore (Message Summary : Type 0) : Type 0 where
  pub get_session : String → Result SessionRow
  pub latest_by_session : String → Result Summary
  pub latest_by_session_up_to : String → String → Result Summary
  pub list_by_session : String → Result (List Message)
  pub list_by_session_up_to : String → String → Result (List Message)
  pub list_by_session_after : String → String → Result (List Message)
  pub list_by_session_after_up_to : String → String → String → Result (List Message)
  pub to_message : Summary → String

pub record LoadedContext (Message Summary : Type 0) : Type 0 where
  pub summary : Option Summary
  pub messages : List Message

unfoldable pub or_not_found : {A : Type 0} → Result A → Result A → Result A
or_not_found (ok a) other = ok a
or_not_found (err not_found) other = other
or_not_found (err e) other = err e

unfoldable pub append_own :
    {Message : Type 0} → List Message → Result (List Message) → Result (List Message)
append_own inherited (err e) = err e
append_own inherited (ok own) = ok (inherited ++ own)

unfoldable pub with_own :
    {Message Summary : Type 0}
    → LoadedContext Message Summary
    → Result (List Message)
    → Result (LoadedContext Message Summary)
with_own out (err e) = err e
with_own out (ok own) = ok (record { summary = out.summary; messages = out.messages ++ own })

unfoldable pub is_forked : SessionRow → Bool
is_forked row = not (str_eq row.parent "") && not (str_eq row.fork_from "")

module _ {Message Summary : Type 0} (store : ContextStore Message Summary) where
  unfoldable pub list_own_messages : String → String → Result (List Message)
  list_own_messages id up_to =
      if str_eq up_to "" then store.list_by_session id else store.list_by_session_up_to id up_to

  unfoldable pub list_own_messages_after : String → String → String → Result (List Message)
  unfolding list_own_messages or_not_found
  list_own_messages_after id after up_to =
      or_not_found
        (if str_eq up_to ""
          then store.list_by_session_after id after
          else store.list_by_session_after_up_to id after up_to)
        (list_own_messages id up_to)

  unfoldable pub latest_summary : String → String → Result Summary
  latest_summary id up_to =
      if str_eq up_to "" then store.latest_by_session id else store.latest_by_session_up_to id up_to

  -- The summary that was read, with the messages behind it.
  unfoldable pub behind_summary :
      String → String → Result Summary → Result (Option (LoadedContext Message Summary))
  unfolding list_own_messages_after
  behind_summary id up_to (err not_found) = ok none
  behind_summary id up_to (err e) = err e
  behind_summary id up_to (ok s) = elim (list_own_messages_after id (store.to_message s) up_to) [
    | err e ↦ err e
    | ok messages ↦ ok (some (record { summary = some s; messages = messages }))
  ]

  unfoldable pub load_own_summary :
      String → String → Result (Option (LoadedContext Message Summary))
  unfolding behind_summary latest_summary
  load_own_summary id up_to = behind_summary id up_to (latest_summary id up_to)

  -- What is inherited from the parent, none of it where the session is not forked.
  unfoldable pub load : ℕ → String → String → Result (LoadedContext Message Summary)
  unfolding load_own_summary list_own_messages with_own is_forked
  load zero id up_to = err fork_depth_exceeded
  load (suc rounds) id up_to = elim (store.get_session id) [
    | err e ↦ err e
    | ok row ↦ elim (load_own_summary id up_to) [
      | err e ↦ err e
      | ok (some loaded) ↦ ok loaded
      | ok none ↦
          let parent = load rounds row.parent row.fork_from in
          let inherited : Result (LoadedContext Message Summary) =
            if is_forked row then parent else ok (record { summary = none; messages = [] }) in
          elim inherited [ err e ↦ err e | ok out ↦ with_own out (list_own_messages id up_to) ]
    ]
  ]

  unfoldable pub load_raw_messages : ℕ → String → String → Result (List Message)
  unfolding list_own_messages append_own is_forked
  load_raw_messages zero id up_to = err fork_depth_exceeded
  load_raw_messages (suc rounds) id up_to = elim (store.get_session id) [
    | err e ↦ err e
    | ok row ↦
        let parent = load_raw_messages rounds row.parent row.fork_from in
        let inherited : Result (List Message) = if is_forked row then parent else ok [] in
        elim inherited [ err e ↦ err e | ok out ↦ append_own out (list_own_messages id up_to) ]
  ]

  abbrev pub load_context : String → Result (LoadedContext Message Summary)
  load_context id = load (max_fork_depth + 1) id ""

  abbrev pub load_raw : String → Result (List Message)
  load_raw id = load_raw_messages (max_fork_depth + 1) id ""
