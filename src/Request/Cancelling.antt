-- ===== src/Request/Cancelling.antt =====
-- What Cancel, CancelSession and done promise (internal/request/manager.go).
use elbot.Base.{
  contains, ℕ, ◌+◌, ◌≡◌, refl, ap, String, Bool, true, false, not, inl, inr, ◌∙◌, sym, Option, none,
  some, List, [], ◌∷◌, ◌++◌, arith, if◌then◌else◌, str_eq, lookup, insert, delete, length, Entries,
  Distinct, insert-Distinct, lookup-insert_self, lookup-insert, lookup-delete_self, Option-cases,
  Bool-cases, ==_iff,
}
use elbot.Request.{
  Request, ActiveRequest, Manager, Started, register, new_started, StartRequest, has_err, start,
  done, snapshot, get, cancel, mark_stopping, to_cancel, mark_session, cancel_session,
  session_entries, list_by_session,
}

-- A cancel function that has run once leaves its contexts ended.
has_err_mono :
    (ctx : List ℕ) (c : ℕ) (ended : List ℕ)
    → has_err ctx ended ≡ true
    → has_err ctx (c ∷ ended) ≡ true
unfolding has_err contains
has_err_mono [] c ended e = e
has_err_mono (k ∷ ctx) c ended e = ground (arith, has_err_mono ctx c ended)

cancel_absent : (id : String) (m : Manager) → lookup id m.active ≡ none → cancel id m ≡ (m, false)
unfolding cancel
cancel_absent id m n = rw (n, cancel) refl

cancel_refused :
    (id : String) (m : Manager) (a : ActiveRequest)
    → lookup id m.active ≡ some a
    → (snapshot m.ended a).stopping ≡ true
    → cancel id m ≡ (m, false)
unfolding cancel
cancel_refused id m a e y = rw (e, cancel) (rw y refl)

-- The state after a Cancel that succeeds.
cancelled : String → ActiveRequest → Manager → Manager
cancelled id a m = record m {
  active = insert id (mark_stopping a) m.active;
  ended = a.cancel ∷ m.ended;
}

cancel_done :
    (id : String) (m : Manager) (a : ActiveRequest)
    → lookup id m.active ≡ some a
    → (snapshot m.ended a).stopping ≡ false
    → cancel id m ≡ (cancelled id a m, true)
unfolding cancelled cancel insert
cancel_done id m a e z = rw (e, cancel) (rw z refl)

-- What the map holds of a started request.
entry : Started → ActiveRequest
entry s = record { request = s.request; cancel = s.cancel; ctx = s.ctx }

-- What Cancel says of a request: that it was there and running.
unfoldable pub running : Option Request → Bool
running none = false
running (some r) = not r.stopping

get-some :
    (id : String) (m : Manager) (a : ActiveRequest)
    → lookup id m.active ≡ some a
    → get id m ≡ some (snapshot m.ended a)
unfolding get snapshot
get-some id m a e = rw (e, get) refl

get-none : (id : String) (m : Manager) → lookup id m.active ≡ none → get id m ≡ none
unfolding get
get-none id m n = rw (n, get) refl

cancelled-get :
    (id : String) (m : Manager) (a : ActiveRequest)
    → get id (cancelled id a m) ≡ some (snapshot (a.cancel ∷ m.ended) (mark_stopping a))
unfolding cancelled
cancelled-get id m a =
    get-some id (cancelled id a m) (mark_stopping a)
      (lookup-insert_self id (mark_stopping a) m.active)

-- Cancel succeeds exactly for a request that is there and not stopping. Afterwards no request of
-- that ID runs, and a second Cancel is refused and changes nothing.
pub cancel_once :
    (id : String) (m : Manager)
    → ((cancel id m).1 ≡ running (get id m))
      × (running (get id (cancel id m).0) ≡ false)
      × (cancel id (cancel id m).0 ≡ ((cancel id m).0, false))
unfolding running snapshot mark_stopping cancelled
cancel_once id m = elim (Option-cases (lookup id m.active)) [
  | inl n ↦
      let c = cancel_absent id m n in
      (rw (c, get-none id m n) refl, rw (c, get-none id m n) refl, rw c c)
  | inr (a, e) ↦ elim (Bool-cases (snapshot m.ended a).stopping) [
    | inl y ↦
        let c = cancel_refused id m a e y in
        (rw (c, get-some id m a e) (ground arith), rw (c, get-some id m a e) (ground arith), rw c c)
    | inr z ↦
        let c = cancel_done id m a e z in
        (
          rw (c, get-some id m a e) (ground arith),
          rw (c, cancelled-get id m a) refl,
          rw c (
              cancel_refused id (cancelled id a m) (mark_stopping a)
                (lookup-insert_self id (mark_stopping a) m.active) refl),
        )
  ]
]

-- How many of the requests run.
unfoldable pub count_running : List Request → ℕ
count_running [] = 0
count_running (r ∷ rest) = (if r.stopping then 0 else 1) + count_running rest

count_before :
    (sid : String) (ended : List ℕ) (entries : Entries ActiveRequest)
    → length (mark_session sid ended entries).1 ≡ count_running (session_entries sid ended entries)
unfolding mark_session session_entries count_running to_cancel snapshot
count_before sid ended [] = refl
count_before sid ended ((id, a) ∷ rest) = grind (arith, count_before sid ended rest)

has_err-append :
    (ctx new ended : List ℕ) → has_err ctx ended ≡ true → has_err ctx (new ++ ended) ≡ true
has_err-append ctx [] ended e = e
has_err-append ctx (c ∷ new) ended e =
    has_err_mono ctx c (new ++ ended) (has_err-append ctx new ended e)

-- The requests of the session, after any contexts more have ended.
count_after :
    (sid : String) (ended new : List ℕ) (entries : Entries ActiveRequest)
    → count_running (session_entries sid (new ++ ended) (mark_session sid ended entries).0) ≡ 0
unfolding mark_session session_entries count_running to_cancel snapshot mark_stopping
count_after sid ended new [] = refl
count_after sid ended new ((id, a) ∷ rest) =
    grind (arith, count_after sid ended new rest, has_err-append a.ctx new ended)

-- CancelSession reports how many requests of the session ran, and none runs afterwards.
pub cancel_session_stops :
    (sid : String) (m : Manager)
    → ((cancel_session sid m).1 ≡ count_running (list_by_session sid m))
      × (count_running (list_by_session sid (cancel_session sid m).0) ≡ 0)
unfolding cancel_session list_by_session
cancel_session_stops sid m = (
  count_before sid m.ended m.active,
  count_after sid m.ended (mark_session sid m.ended m.active).1 m.active,
)

has_err-contains :
    (c : ℕ) (ctx ended : List ℕ) → contains c ctx ≡ true → has_err ctx (c ∷ ended) ≡ true
unfolding contains has_err
has_err-contains c [] ended e = ground arith
has_err-contains c (k ∷ ctx) ended e =
    ground (arith, has_err-contains c ctx ended, ==_iff k c, ==_iff c k)

inherited :
    (id j : String) (m : Manager) (a b : ActiveRequest)
    → lookup j m.active ≡ some b
    → contains a.cancel b.ctx ≡ true
    → running (get j (cancelled id a m)) ≡ false
unfolding cancelled running get snapshot mark_stopping
inherited id j m a b e c = elim (Bool-cases (str_eq id j)) [
  | inl y ↦
      rw
        (get-some j (cancelled id a m) (mark_stopping a)
          (lookup-insert id j (mark_stopping a) m.active ∙ rw y refl))
        refl
  | inr n ↦
      rw (get-some j (cancelled id a m) b (lookup-insert id j (mark_stopping a) m.active ∙ rw n e))
        (ground (arith, has_err-contains a.cancel b.ctx m.ended c))
]

-- A successful Cancel also stops every request whose context descends from that of the cancelled one.
pub cancel_inherited :
    (id j : String) (m : Manager) (a b : ActiveRequest)
    → lookup id m.active ≡ some a
    → lookup j m.active ≡ some b
    → contains a.cancel b.ctx ≡ true
    → (snapshot m.ended a).stopping ≡ false
    → ((cancel id m).1 ≡ true) × (running (get j (cancel id m).0) ≡ false)
cancel_inherited id j m a b ea eb c z =
    rw (cancel_done id m a ea z) (refl, inherited id j m a b eb c)

registered :
    (s : Started) (m : Manager)
    → get s.request.id (register s m) ≡ some (snapshot m.ended (entry s))
unfolding entry register
registered s m =
    get-some s.request.id (register s m) (entry s)
      (lookup-insert_self s.request.id (entry s) m.active)

register-Distinct : (s : Started) (m : Manager) → Distinct m.active → Distinct (register s m).active
unfolding register
register-Distinct s m d =
    insert-Distinct s.request.id (record { request = s.request; cancel = s.cancel; ctx = s.ctx })
      m.active d

done_once : (s : Started) (m : Manager) → done s (done s m) ≡ done s m
unfolding done contains
done_once s m = elim (Bool-cases (contains s.cancel m.once)) [
  | inl y ↦ rw (y, y) refl
  | inr n ↦ ground arith
]

done-get :
    (s : Started) (m : Manager)
    → Distinct m.active
    → contains s.cancel m.once ≡ false
    → get s.request.id (done s m) ≡ none
unfolding done
done-get s m d f = rw f (
    get-none s.request.id
      (record m {
        active = delete s.request.id m.active;
        ended = s.cancel ∷ m.ended;
        once = s.cancel ∷ m.once;
      })
      (lookup-delete_self s.request.id m.active d))

-- A started request runs unless its parent's context has ended; after its done it is not there, and a
-- second done changes nothing.
pub start_done :
    (id : String) (parent : List ℕ) (req : StartRequest) (now : ℕ) (m : Manager)
    → Distinct m.active
    → contains m.next_context m.once ≡ false
    → contains m.next_context m.ended ≡ false
    → (s : Started) → (start (some id) parent req now m).1 ≡ some s
    → (running (get id (start (some id) parent req now m).0) ≡ not (has_err parent m.ended))
      × (get id (done s (start (some id) parent req now m).0) ≡ none)
      × (done s (done s (start (some id) parent req now m).0)
          ≡ done s (start (some id) parent req now m).0)
unfolding start new_started snapshot entry running has_err
start_done id parent req now m d fo fe s e =
    let first = new_started id parent req now m.next_context in
    let same : first ≡ s = ap (λ o. elim o [ none ↦ first | some x ↦ x ]) e in
    (
      rw (registered first m) (ground (arith, fe)),
      rw (sym same) (done-get first (register first m) (register-Distinct first m d) fo),
      done_once s (register first m),
    )
