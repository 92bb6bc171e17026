-- ===== src/Fileops/Rollback/Leases.antt =====
-- When a lease ends (internal/fileops/rollback.go): the number of a forgotten scope is never given out
-- again.
use elbot.Base.{
  ℕ, ◌+◌, ◌<◌, ◌≡◌, refl, sym, ap, ◌∙◌, subst, Bool, false, not, Option, none, some, List, [], ◌∷◌,
  All, ◌==◌, arith, Bool-cases, inl, inr, if_elim, if_true, if_false,
}
use elbot.Fileops.Rollback.{
  RollbackRecord, RollbackManager, RollbackSession, Backup, Published, remove, remove_each, forget,
  forget_scope, files_of, session, forget_invalid, opened_scope, open_scope, replace_previous,
  find_file, insert_record, remove_found, find_scope, delete_scope, publish, valid_session,
  is_scope,
}
use elbot.Fileops.Rollback.Records.{Held}
use elbot.Fileops.Rollback.Keeping.{Sound, forget-Kept, forget_invalid-Kept}
use elbot.Fileops.Rollback.Runs.{
  Step, opened, forgot, published, rolled, Steps, here, next, fresh, session-Kept,
  commit_rollback-Kept,
}
use elbot.Fileops.Rollback.Promises.{
  added, evicting, publish_lem, same_state, reach-Good, fresh-Sound,
}

remove_found-scopes :
    (o : Option RollbackRecord) (m : RollbackManager)
    → ((remove_found o m).scopes ≡ m.scopes) × ((remove_found o m).next_scope ≡ m.next_scope)
unfolding remove_found remove
remove_found-scopes none m = (refl, refl)
remove_found-scopes (some r) m = (refl, refl)

added-scopes :
    (s : RollbackSession) (b : Backup) (m : RollbackManager)
    → ((added s b m).scopes ≡ m.scopes) × ((added s b m).next_scope ≡ m.next_scope)
unfolding insert_record replace_previous
added-scopes s b m = remove_found-scopes (find_file s.scope b.target m.files) m

-- What every operation keeps of the scopes.
module _ (P : List (ℕ × ℕ) → ℕ → Type 0)
    (drops : (b : ℕ) (l : List (ℕ × ℕ)) (n : ℕ) → P l n → P (delete_scope b l) n)
    (opens : (b : ℕ) (l : List (ℕ × ℕ)) (n : ℕ) → P l n → P ((b, n) ∷ l) (n + 1)) where
  abbrev Kept : RollbackManager → Type 0
  Kept m = P m.scopes m.next_scope

  removes :
      (r : RollbackRecord) (m : RollbackManager)
      → Held r m.records
      → Sound m
      → Kept m
      → Kept (remove r m)
  unfolding remove
  removes r m h g k = k

  published-Kept :
      (valid : ℕ → Bool) (s : RollbackSession) (b : Backup) (m m' : RollbackManager) (p : Published)
      → publish valid s b m ≡ some (m', p)
      → Sound m × Kept m
      → Sound m' × Kept m'
  published-Kept valid s b m m' p e g = elim (Bool-cases (valid_session valid s m)) [
    | inr n ↦
        subst (λ x. Sound x × Kept x)
          (same_state (sym (if_true (ap not n) _ _) ∙ sym (publish_lem valid s b m g.0) ∙ e)).0 g
    | inl y ↦
        let v = evicting s b m g.0 in
        subst (λ x. Sound x × Kept x)
          (same_state (sym (if_false (ap not y) _ _) ∙ sym (publish_lem valid s b m g.0) ∙ e)).0
          (
            v.sound,
            subst (λ l. P l v.kept.next_scope) (sym (v.same_scopes.0 ∙ (added-scopes s b m).0))
                (subst (P m.scopes) (sym (v.same_scopes.1 ∙ (added-scopes s b m).1)) g.1),
          )
  ]

  step-Kept : {m m' : RollbackManager} → Step m m' → Sound m × Kept m → Sound m' × Kept m'
  step-Kept (opened valid b) g =
      session-Kept Kept removes (λ b m. drops b m.scopes m.next_scope)
        (λ b m. opens b m.scopes m.next_scope) valid b _ g
  step-Kept (forgot b) g = forget-Kept Kept removes (λ b m. drops b m.scopes m.next_scope) b _ g
  step-Kept (published valid s b {m'} {p} e) g = published-Kept valid s b _ m' p e g
  step-Kept (rolled valid s r) g =
      commit_rollback-Kept Kept removes (λ b m. drops b m.scopes m.next_scope)
        (λ b m. opens b m.scopes m.next_scope) valid s r _ g

  run-Kept : {m m' : RollbackManager} → Steps m m' → Sound m × Kept m → Sound m' × Kept m'
  run-Kept here g = g
  run-Kept (next r s) g = step-Kept s (run-Kept r g)

-- Every scope in use has a number that was given out.
abbrev Issued : List (ℕ × ℕ) → ℕ → Type 0
Issued l n = All (λ (e : ℕ × ℕ). e.1 < n) l

delete_scope-All :
    (Q : ℕ × ℕ → Type 0) (b : ℕ) (l : List (ℕ × ℕ)) → All Q l → All Q (delete_scope b l)
unfolding delete_scope
delete_scope-All Q b [] a = tt
delete_scope-All Q b ((c, t) ∷ l) a =
    if_elim (All Q) (c == b) _ _ (λ _. delete_scope-All Q b l a.1)
      (λ _. (a.0, delete_scope-All Q b l a.1))

later : (l : List (ℕ × ℕ)) (n : ℕ) → Issued l n → Issued l (n + 1)
later [] n a = tt
later (e ∷ l) n a = (omega (arith, a.0), later l n a.1)

opens-Issued : (b : ℕ) (l : List (ℕ × ℕ)) (n : ℕ) → Issued l n → Issued ((b, n) ∷ l) (n + 1)
opens-Issued b l n a = (omega arith, later l n a)

found-Issued : (b : ℕ) (l : List (ℕ × ℕ)) (n t : ℕ) → Issued l n → find_scope b l ≡ some t → t < n
unfolding find_scope
found-Issued b [] n t a e = ground arith
found-Issued b ((c, u) ∷ l) n t a e = ground (arith, a.0, found-Issued b l n t a.1)

-- The scope of this lease has been given out, and the binding has another or none.
record Ended (s : RollbackSession) (l : List (ℕ × ℕ)) (n : ℕ) : Type 0 where
  issued : s.scope < n
  ended : is_scope s.scope (find_scope s.binding l) ≡ false

delete_scope-gone : (b : ℕ) (l : List (ℕ × ℕ)) → find_scope b (delete_scope b l) ≡ none
unfolding find_scope delete_scope
delete_scope-gone b [] = refl
delete_scope-gone b ((c, t) ∷ l) = ground (arith, delete_scope-gone b l)

delete_scope-other :
    (b c : ℕ) (l : List (ℕ × ℕ))
    → (b == c) ≡ false
    → find_scope c (delete_scope b l) ≡ find_scope c l
unfolding find_scope delete_scope
delete_scope-other b c [] e = refl
delete_scope-other b c ((d, t) ∷ l) e = ground (arith, delete_scope-other b c l e)

drops-Ended :
    (s : RollbackSession) (b : ℕ) (l : List (ℕ × ℕ)) (n : ℕ)
    → Ended s l n
    → Ended s (delete_scope b l) n
unfolding is_scope
drops-Ended s b l n g = record {
  issued = g.issued;
  ended = elim (Bool-cases (b == s.binding)) [
    | inl y ↦ ap (is_scope s.scope) (
        subst (λ c. find_scope s.binding (delete_scope c l) ≡ none) (ground (arith, y))
          (delete_scope-gone s.binding l))
    | inr k ↦ ap (is_scope s.scope) (delete_scope-other b s.binding l k) ∙ g.ended
  ];
}

opens-Ended :
    (s : RollbackSession) (b : ℕ) (l : List (ℕ × ℕ)) (n : ℕ)
    → Ended s l n
    → Ended s ((b, n) ∷ l) (n + 1)
unfolding is_scope find_scope
opens-Ended s b l n g = record {
  issued = omega (arith, g.issued);
  ended = ground (arith, g.issued, g.ended);
}

forget-gone : (b : ℕ) (m : RollbackManager) → find_scope b (forget b m).scopes ≡ none
unfolding forget forget_scope
forget-gone b m = go (find_scope b m.scopes) refl
  where
    go :
        (o : Option ℕ)
        → find_scope b m.scopes ≡ o
        → find_scope b
            (elim o as (λ _. RollbackManager) [
              | none ↦ m
              | some scope ↦ forget_scope b scope m
            ]).scopes
          ≡ none
    go none e = e
    go (some scope) e = delete_scope-gone b (remove_each (files_of scope m.files) m).scopes

-- The lease that a session returns has a scope that was given out.
open_scope-Issued :
    (b : ℕ) (m : RollbackManager)
    → Issued m.scopes m.next_scope
    → (open_scope b m).1 < (open_scope b m).0.next_scope
unfolding open_scope opened_scope
open_scope-Issued b m i = go (find_scope b m.scopes) refl
  where
    go :
        (o : Option ℕ)
        → find_scope b m.scopes ≡ o
        → (opened_scope o b m).1 < (opened_scope o b m).0.next_scope
    go none e = omega arith
    go (some scope) e = found-Issued b m.scopes m.next_scope scope i e

session-Issued :
    (valid : ℕ → Bool) (b : ℕ) (m : RollbackManager) (s : RollbackSession)
    → Sound m
    → Issued m.scopes m.next_scope
    → (session valid b m).1 ≡ some s
    → s.scope < (session valid b m).0.next_scope
unfolding session
session-Issued valid b m s g i =
    let kept : Sound (forget_invalid valid m.scopes m)
        × Issued (forget_invalid valid m.scopes m).scopes
            (forget_invalid valid m.scopes m).next_scope =
      forget_invalid-Kept (λ x. Issued x.scopes x.next_scope) (λ r x h k q. q)
        (λ b x. delete_scope-All _ b x.scopes) valid m.scopes m (g, i) in
    if_elim
      (λ (r : RollbackManager × Option RollbackSession). r.1 ≡ some s → s.scope < r.0.next_scope)
      (not (valid b)) _ _ (λ _ e. ground arith)
      (λ _ e.
        subst
          (λ (x : RollbackSession).
            x.scope < (open_scope b (forget_invalid valid m.scopes m)).0.next_scope)
          (lease_inj e) (open_scope-Issued b _ kept.1))
  where
    lease_inj : {x y : RollbackSession} → some x ≡ some y → x ≡ y
    lease_inj e = ground arith

drops-Issued : (b : ℕ) (l : List (ℕ × ℕ)) (n : ℕ) → Issued l n → Issued (delete_scope b l) n
drops-Issued b l n a = delete_scope-All (λ (e : ℕ × ℕ). e.1 < n) b l a

-- Once the binding of a lease is forgotten, no operations make the lease valid again, whatever is opened
-- for the binding later.
pub forgotten_lease :
    (max_bytes max_records : ℕ) {m m' m'' : RollbackManager} (valid later_valid : ℕ → Bool) (b : ℕ)
    (s : RollbackSession)
    → Steps (fresh max_bytes max_records) m
    → (session valid b m).1 ≡ some s
    → Steps (session valid b m).0 m'
    → Steps (forget s.binding m') m''
    → valid_session later_valid s m'' ≡ false
unfolding valid_session
forgotten_lease max_bytes max_records {m} {m'} {m''} valid later_valid b s r e r' r'' =
    let g = (reach-Good max_bytes max_records r).0 in
    let i =
      (run-Kept Issued drops-Issued opens-Issued r (fresh-Sound max_bytes max_records, tt)).1 in
    let p : Sound m' × (s.scope < m'.next_scope) =
      run-Kept (λ _ n. s.scope < n) (λ b l n h. h) (λ b l n h. omega (arith, h)) r'
        (
          (step-Kept Issued drops-Issued opens-Issued (opened valid b) (g, i)).0,
          session-Issued valid b m s g i e,
        ) in
    let q =
      step-Kept (λ _ n. s.scope < n) (λ b l n h. h) (λ b l n h. omega (arith, h)) (forgot s.binding)
        p in
    let ended =
      run-Kept (Ended s) (drops-Ended s) (opens-Ended s) r''
        (q.0, record { issued = q.1; ended = ap (is_scope s.scope) (forget-gone s.binding m') }) in
    ground (arith, ended.1.ended)
