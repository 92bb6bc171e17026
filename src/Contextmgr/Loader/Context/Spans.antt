-- ===== src/Contextmgr/Loader/Context/Spans.antt =====
-- The context of a session, told from what the store holds of it and of those it was forked from
-- (internal/contextmgr/loader.go).
use elbot.Base.{
  ℕ, suc, ◌≡◌, String, true, false, Option, none, some, List, [], ◌∷◌, ◌++◌, if◌then◌else◌, str_eq,
}
use elbot.Contextmgr.Loader.{not_found, Result, ok, err, SessionRow}
use elbot.Contextmgr.Loader.Lineage.{has_parent}
use elbot.Contextmgr.Loader.Context.{
  ContextStore, LoadedContext, is_forked, load, load_raw_messages,
}

-- The messages behind the one of this ID.
unfoldable pub after_message : {A : Type 0} → (A → String) → String → List A → Option (List A)
after_message name id [] = none
after_message name id (m ∷ rest) =
    if str_eq (name m) id then some rest else after_message name id rest

abbrev pub found : {A : Type 0} → Option A → Result A
found none = err not_found
found (some a) = ok a

-- The store lists the messages of a session in their order. Behind a message that is not among them it
-- lists none, and the message that a summary reaches to is not behind the one that it was asked for up to.
pub record ContextLaws {Message Summary : Type 0} (store : ContextStore Message Summary)
    (name : Message → String) : Type 0 where
  pub after :
      (id message : String) (all : List Message)
      → store.list_by_session id ≡ ok all
      → store.list_by_session_after id message ≡ found (after_message name message all)
  pub after_up_to :
      (id up_to : String) (all : List Message) (s : Summary)
      → store.list_by_session_up_to id up_to ≡ ok all
      → store.latest_by_session_up_to id up_to ≡ ok s
      → store.list_by_session_after_up_to id (store.to_message s) up_to
        ≡ found (after_message name (store.to_message s) all)

-- What the store has of one session, up to a message or in all: its latest summary, and its messages.
pub record Span (Message Summary : Type 0) : Type 0 where
  pub summary : Option Summary
  pub own : List Message

-- A session and those that it was forked from, the session first, over at most `n` of them.
pub data Lineage {Message Summary : Type 0} (store : ContextStore Message Summary)
    : ℕ → String → String → List (Span Message Summary) → Type 0 where
  root :
      {n : ℕ} (id up_to : String) (row : SessionRow) (span : Span Message Summary)
      → store.get_session id ≡ ok row
      → has_parent row ≡ false
      → (if str_eq up_to ""
          then store.latest_by_session id
          else store.latest_by_session_up_to id up_to)
        ≡ found span.summary
      → (if str_eq up_to "" then store.list_by_session id else store.list_by_session_up_to id up_to)
        ≡ ok span.own
      → Lineage store (suc n) id up_to (span ∷ [])
  forked :
      {n : ℕ} (id up_to : String) (row : SessionRow) (span : Span Message Summary)
      (older : List (Span Message Summary))
      → store.get_session id ≡ ok row
      → has_parent row ≡ true
      → (if str_eq up_to ""
          then store.latest_by_session id
          else store.latest_by_session_up_to id up_to)
        ≡ found span.summary
      → (if str_eq up_to "" then store.list_by_session id else store.list_by_session_up_to id up_to)
        ≡ ok span.own
      → Lineage store n row.parent row.fork_from older
      → Lineage store (suc n) id up_to (span ∷ older)

abbrev or_all : {A : Type 0} → List A → Option (List A) → List A
or_all all none = all
or_all all (some rest) = rest

module _ {Message Summary : Type 0} (store : ContextStore Message Summary)
    (name : Message → String) where
  -- All messages of a lineage.
  unfoldable pub messages_of : List (Span Message Summary) → List Message
  messages_of [] = []
  messages_of (span ∷ older) = messages_of older ++ span.own

  -- The messages behind the summary of a session; all of its own where the summary reaches to another's.
  unfoldable pub behind : Summary → List Message → List Message
  unfolding after_message
  behind s own = or_all own (after_message name (store.to_message s) own)

  -- The youngest summary of a lineage, with the messages behind it.
  unfoldable pub context_of : List (Span Message Summary) → LoadedContext Message Summary
  unfolding behind
  context_of [] = record { summary = none; messages = [] }
  context_of (span ∷ older) =
      let older_context = context_of older in
      elim span.summary [
        | some s ↦ record { summary = some s; messages = behind s span.own }
        | none ↦ record {
          summary = older_context.summary;
          messages = older_context.messages ++ span.own;
        }
      ]

module _ {Message Summary : Type 0} (store : ContextStore Message Summary) (name : Message → String)
    (laws : ContextLaws store name) where
  -- What a session inherits, loaded and raw.
  abbrev context_above : ℕ → SessionRow → Result (LoadedContext Message Summary)
  context_above n row =
      if is_forked row
      then load store n row.parent row.fork_from
      else ok (record { summary = none; messages = [] })

  abbrev raw_above : ℕ → SessionRow → Result (List Message)
  raw_above n row =
      if is_forked row then load_raw_messages store n row.parent row.fork_from else ok []

  -- The loads read this lineage.
  abbrev Reads : ℕ → String → String → List (Span Message Summary) → Type 0
  Reads n id up_to spans =
      (load store n id up_to ≡ ok (context_of store name spans))
      × (load_raw_messages store n id up_to ≡ ok (messages_of store name spans))
