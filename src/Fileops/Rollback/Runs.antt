-- ===== src/Fileops/Rollback/Runs.antt =====
-- The backups under any sequence of operations (internal/fileops/rollback.go).
use elbot.Base.{
  ℕ, ◌+◌, ◌≤◌, ◌≡◌, Bool, false, not, Option, none, some, List, [], ◌∷◌, length, arith, if_elim,
  opt_elim,
}
use elbot.Fileops.Rollback.{
  RollbackRecord, RollbackManager, RollbackSession, RollbackError, Backup, Published,
  new_rollback_manager, remove, forget, session, open_scope, opened_scope, over_limit,
  delete_record, find_record, find_scope, delete_scope, publish, commit_rollback, valid_session,
}
use elbot.Fileops.Rollback.Records.{Held, find_record-Held}
use elbot.Fileops.Rollback.Keeping.{Sound, remove-Sound, forget_invalid-Kept}

-- One operation; any validity of the bindings, any lease and any record may come with it.
pub data Step (m : RollbackManager) : RollbackManager → Type 0 where
  opened : (valid : ℕ → Bool) (b : ℕ) → Step m (session valid b m).0
  forgot : (b : ℕ) → Step m (forget b m)
  published :
      (valid : ℕ → Bool) (s : RollbackSession) (b : Backup) {m' : RollbackManager} {p : Published}
      → publish valid s b m ≡ some (m', p)
      → Step m m'
  rolled :
      (valid : ℕ → Bool) (s : RollbackSession) (r : RollbackRecord)
      → Step m (commit_rollback valid s r m).0

pub data Steps (m : RollbackManager) : RollbackManager → Type 0 where
  here : Steps m m
  next : {m' m'' : RollbackManager} → Steps m m' → Step m' m'' → Steps m m''

-- A manager without records, with these limits.
abbrev pub fresh : ℕ → ℕ → RollbackManager
fresh max_bytes max_records = record new_rollback_manager {
  max_bytes = max_bytes;
  max_records = max_records;
}

pub record Bounded (m : RollbackManager) : Type 0 where
  pub few_bytes : m.bytes ≤ m.max_bytes
  pub few_records : length m.records ≤ m.max_records

length-delete_record : (id : ℕ) (l : List RollbackRecord) → length (delete_record id l) ≤ length l
unfolding delete_record
length-delete_record id [] = omega arith
length-delete_record id (r ∷ l) = ground (arith, length-delete_record id l)

pub remove-Bounded :
    (r : RollbackRecord) (m : RollbackManager)
    → Held r m.records
    → Sound m
    → Bounded m
    → Bounded (remove r m)
unfolding remove
remove-Bounded r m h g b = record {
  few_bytes = omega (arith, b.few_bytes);
  few_records = omega (arith, b.few_records, length-delete_record r.id m.records);
}

pub drop-Bounded :
    (b : ℕ) (m : RollbackManager)
    → Bounded m
    → Bounded (record m { scopes = delete_scope b m.scopes })
drop-Bounded b m g = record { few_bytes = g.few_bytes; few_records = g.few_records }

pub within-Bounded : (m : RollbackManager) → over_limit m ≡ false → Bounded m
unfolding over_limit
within-Bounded m e = record { few_bytes = ground arith; few_records = ground arith }

-- What opening a session keeps.
module _ (Q : RollbackManager → Type 0)
    (removes : (r : RollbackRecord) (m : RollbackManager)
      → Held r m.records
      → Sound m
      → Q m
      → Q (remove r m))
    (drops : (b : ℕ) (m : RollbackManager)
      → Q m
      → Q (record m { scopes = delete_scope b m.scopes }))
    (opens : (b : ℕ) (m : RollbackManager)
      → Q m
      → Q (record m { scopes = (b, m.next_scope) ∷ m.scopes; next_scope = m.next_scope + 1 })) where
  open_scope-Kept :
      (b : ℕ) (m : RollbackManager)
      → Sound m × Q m
      → Sound (open_scope b m).0 × Q (open_scope b m).0
  unfolding open_scope
  open_scope-Kept b m g = go (find_scope b m.scopes)
    where
      go : (o : Option ℕ) → Sound (opened_scope o b m).0 × Q (opened_scope o b m).0
      go none = (
        record {
          mirrored = g.0.mirrored;
          ordered = g.0.ordered;
          recent = g.0.recent;
          summed = g.0.summed;
        },
        opens b m g.1,
      )
      go (some scope) = g

  pub session-Kept :
      (valid : ℕ → Bool) (b : ℕ) (m : RollbackManager)
      → Sound m × Q m
      → Sound (session valid b m).0 × Q (session valid b m).0
  unfolding session
  session-Kept valid b m g =
      if_elim (λ (r : RollbackManager × Option RollbackSession). Sound r.0 × Q r.0) (not (valid b))
        _ _ (λ _. g)
        (λ _. open_scope-Kept b _ (forget_invalid-Kept Q removes drops valid m.scopes m g))

  pub commit_rollback-Kept :
      (valid : ℕ → Bool) (s : RollbackSession) (r : RollbackRecord) (m : RollbackManager)
      → Sound m × Q m
      → Sound (commit_rollback valid s r m).0 × Q (commit_rollback valid s r m).0
  unfolding commit_rollback
  commit_rollback-Kept valid s r m g =
      if_elim (λ (x : RollbackManager × Option RollbackError). Sound x.0 × Q x.0)
        (not (valid_session valid s m)) _ _ (λ _. g)
        (λ _.
          opt_elim (λ (x : RollbackManager × Option RollbackError). Sound x.0 × Q x.0)
            (find_record r.id m.records) _ _ g
            (λ f e. (
              remove-Sound f m (find_record-Held r.id m.records f e) g.0,
              removes f m (find_record-Held r.id m.records f e) g.0 g.1,
            )))
