-- ===== src/Contextmgr/Loader.antt =====
-- Reading the history of a session and of those that it was forked from (internal/contextmgr/loader.go).
--
-- The store is a record of the calls that the loader makes (internal/storage/storage.go); a row of the
-- sessions is what the loader reads of it. The rounds left stand for the depth, which is at most 32.
-- Pages are numbered from 1 and have a size, as the callers see to. The counts of a lineage add up to an
-- int; the sum that rounds the pages up wraps.
pub mod Laws
pub mod Lineage
pub mod Pages
pub mod Context
use elbot.Base.{
  ℕ, zero, suc, ◌+◌, ◌-◌, ◌*◌, ◌/◌, ◌%◌, ◌^◌, ℤ, pos, negsuc, pos_part, String, Bool, true, false,
  List, [], ◌∷◌, ◌++◌, reverse, if◌then◌else◌, ltb, leb, ◌==◌, str_eq, length, max,
}

pub data LoadError : Type 0 where
  not_found fork_depth_exceeded : LoadError
  checkpoint_missing : String → LoadError
  store_failed : ℕ → LoadError

pub data Result (A : Type 0) : Type 0 where
  ok : A → Result A
  err : LoadError → Result A

pub record SessionRow : Type 0 where
  pub parent : String
  pub fork_from : String

pub record Store (Message : Type 0) : Type 0 where
  pub get_session : String → Result SessionRow
  pub count_conversation : String → String → Result ℕ
  pub list_conversation : String → String → ℕ → ℕ → Result (List Message)

pub record HistoryRange : Type 0 where
  pub id : String
  pub until : String
  pub count : ℕ

-- What the first loop ends with.
pub record History : Type 0 where
  pub ranges : List HistoryRange
  pub inherited_cutoff : Bool
  pub until : String

pub record MessagePage (Message : Type 0) : Type 0 where
  pub messages : List Message
  pub total_pages : ℤ

abbrev pub max_fork_depth : ℕ
max_fork_depth = 32

unfoldable pub add_range : HistoryRange → Result History → Result History
add_range r (ok h) = ok (record h { ranges = r ∷ h.ranges })
add_range r (err e) = err e

-- The count of a range failed: a cutoff that this session does not have is looked for in its parent.
unfoldable pub uncounted : String → LoadError → Result History → Result History
uncounted until not_found parent = if str_eq until "" then err not_found else parent
uncounted until e parent = err e

abbrev loop_end : String → Bool → Result History
loop_end until inherited_cutoff =
    ok (record { ranges = []; inherited_cutoff = inherited_cutoff; until = until })

-- total
unfoldable pub total_count : List HistoryRange → ℕ
total_count [] = 0
total_count (r ∷ rest) = r.count + total_count rest

abbrev negated : ℕ → ℤ
negated zero = pos 0
negated (suc n) = negsuc n

-- The number of pages; the sum wraps as an int does, and a quotient is truncated.
unfoldable pub page_count : ℕ → ℕ → ℤ
page_count total page_size =
    let sum = (total + page_size - 1) % 2 ^ 64 in
    if ltb sum (2 ^ 63) then pos (sum / page_size) else negated ((2 ^ 64 - sum) / page_size)

module _ {Message : Type 0} (store : Store Message) where
  -- The first loop, with the rounds left, from this session on.
  unfoldable pub collect : ℕ → String → String → Bool → Result History
  unfolding add_range uncounted
  collect zero id until inherited_cutoff =
      if str_eq id "" then loop_end until inherited_cutoff else err fork_depth_exceeded
  collect (suc rounds) id until inherited_cutoff =
      let here : Result History = elim (store.get_session id) [
        | err e ↦ err e
        | ok row ↦ elim (store.count_conversation id until) [
          | err e ↦ uncounted until e (collect rounds row.parent until true)
          | ok count ↦
              add_range (record { id = id; until = until; count = count })
                (let parent = collect rounds row.parent row.fork_from false in
                  if str_eq row.fork_from "" then loop_end "" false else parent)
        ]
      ] in
      if str_eq id "" then loop_end until inherited_cutoff else here

  -- The second loop, with the rows so far, newest first.
  unfoldable pub fetch : ℕ → List HistoryRange → ℕ → List Message → Result (List Message)
  fetch page_size [] offset out = ok out
  fetch page_size (span ∷ rest) offset out =
      let skipped = fetch page_size rest (offset - span.count) out in
      let read : Result (List Message) =
        elim (store.list_conversation span.id span.until (page_size - length out) offset) [
          | err e ↦ err e
          | ok rows ↦
              let more = fetch page_size rest 0 (out ++ rows) in
              if length (out ++ rows) == page_size then ok (out ++ rows) else more
        ] in
      if leb span.count offset then skipped else read

  -- What follows the first loop.
  unfoldable pub page_of : List HistoryRange → ℕ → ℕ → Result (MessagePage Message)
  unfolding total_count fetch page_count
  page_of ranges page page_size =
      let total_pages = page_count (total_count ranges) page_size in
      let rows : Result (MessagePage Message) =
        elim (fetch page_size ranges ((page - 1) * page_size) []) [
          | err e ↦ err e
          | ok rows ↦ ok (record { messages = reverse rows; total_pages = total_pages })
        ] in
      if ltb (max 1 (pos_part total_pages)) page
      then ok (record { messages = []; total_pages = total_pages })
      else rows

  unfoldable pub load_message_page : String → ℕ → ℕ → Result (MessagePage Message)
  unfolding collect page_of
  load_message_page id page page_size = elim (collect (max_fork_depth + 1) id "" false) [
    | err e ↦ err e
    | ok h ↦
        if h.inherited_cutoff
        then err (checkpoint_missing h.until)
        else page_of h.ranges page page_size
  ]
