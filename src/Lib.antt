-- ===== src/Lib.antt =====
-- Verification library for elbot, an agent and chatbot framework.
--
-- The program's core is a set of in-memory components guarded by a mutex each, and pure routines
-- on texts. A method that holds its mutex throughout is one step: a function from the state to the
-- new state and the result. What a component shares with others (channels, executions, contexts)
-- is a number that stands for the identity, with a log of what was done to it.
--
-- Base: shared names. Base/Tests has the Boolean tests, Base/Lists lists over the native numbers,
--   Base/Texts texts as code points (strings.TrimSpace, strings.ToLower), Base/Strings the rest
--   of package strings, Base/Maps Go maps as association lists, Base/Int Go's int.
-- Turn: the turn lifecycle, internal/turn/lifecycle. State has the state and the transitions that
--   end a turn, Attempt the methods of attempt.go and pending.go, Confirmation those of
--   confirmation.go with the callbacks of a RiskWait, Input the queued input, Snapshot what other
--   parts see, Ops every operation as one step and runs of them. Channels, Invariant, Frame,
--   Phases, Runs, Owners, Waits and Merge hold the proofs, Examples the concrete runs. The decision in
--   an answer is not modelled, nor the wait for it; receive is what taking it does to the stored turn.
-- Llm: message segments, internal/llm/segment.go, and Retry, internal/llm/retry.go,
--   with its proofs in Deciding.
-- Security: roles, risks and confirmations, internal/security/security.go.
-- Fileops: file text and edit batches, internal/fileops: Lines is text.go, Match is match.go, Edit
--   is edit.go (Edit/Resolve its resolution of an edit into byte ranges, Edit/Apply the check, the
--   sort and the application of a batch), Diff is diff.go (Script, Minimal and Hunks hold the proofs
--   on the edit script, on its length and on the hunks; Hunks/Apply is a patch in the unified format,
--   where a side without lines stands behind the line it names), Rollback what the manager of rollback.go
--   does under its mutex (Records and Keeping have the invariant, Runs the operations in any
--   order, Promises and Leases the results).
-- Contextmgr: the history of forked sessions, internal/contextmgr/loader.go, with the store of
--   internal/storage as a record of the calls made and its behaviour as laws. Loader is the
--   paging; Loader/Lineage tells the conversation of a session from the rows of the store, Laws and
--   Pages hold the proofs. Loader/Context is the context with summaries; its Spans tells the context
--   from what the store has of each session, and holds the proofs.
-- Hook: the block policy of plugins, internal/hook/share/match.go; Block/Listed holds the proofs.
-- Media: the locks of objects, internal/media/object/locks.go. Locks has the sections of acquire,
--   Callers the calls under way, Invariant and Promises the proofs.
-- Request: the requests in flight, internal/request/manager.go; Cancelling holds the proofs.
-- Platform: Backoff is internal/platform/share/backoff.go.
-- Session: Binding is internal/session/binding and internal/session/share/binding.go; its Handles,
--   Current and Clearing hold the proofs on the bindings, Admission those on admissions while closing.
--   Of Close it has the cleanup of the bindings, not its goroutine, its waiting and the event source.
-- Signal: Queue is internal/signal/queue.go, the queue of jobs in lanes by key. A method is one step for
--   each time it holds the mutex. Queue/View, Ready, Invariant, Steps, Sections and Stopping hold the
--   invariant and what keeps it, Runs the steps of callers and workers in any order and the states
--   they reach, Promises what the queue promises in those.
-- Command: the command lines and their registry, internal/command/parse.go and router.go; a handler's
--   work is outside. Prefixes and Registry hold the proofs.
-- Elyph: the language of skills and tasks, internal/elyph/parser.go and ast.go. Syntax has the texts
--   inside a line, Parser the state and the first statements, Statements the rest and the dispatch,
--   Document the entry points. Effects and Lines show that a property which each change of the state
--   keeps holds after any lines; Steps, Header and Accepted apply this, Promises states the results.
--   unicode.IsLetter and unicode.IsDigit are the parameter record Unicode.
--
-- Bounds and fuel. The line scan and the search for matches take one more fuel than the text has
-- bytes, and each round consumes a byte at least. A number is printed with more fuel than it has
-- digits. Go's int is ℤ or ℕ without a bound: no operation modelled here leaves 64 bits on texts
-- that fit in memory. The count of the pages, to which a page size is added, wraps as it does in Go. Durations and binding versions keep their 64 bits. Retry recurs on the attempts
-- that are left. The eviction of backups takes as much fuel as there are records. The
-- rounds of the history are the 33 that the code allows.
--
-- Not modelled: error texts (a constructor stands for each), JSON decoding, hashing, the rendering of
-- media references, logging, the contexts and timers of a queued job, reading and writing files, and
-- the parts that are input and output for the most: platforms, storage, hooks, tools and the model
-- clients.
pub mod Base
pub mod Llm
pub mod Turn
pub mod Session
pub mod Signal
pub mod Contextmgr
pub mod Hook
pub mod Media
pub mod Platform
pub mod Request
pub mod Security
pub mod Command
pub mod Elyph
pub mod Fileops
