-- ===== src/Fileops/Rollback/Examples.antt =====
-- A session that records, evicts and forgets (internal/fileops/rollback.go).
use elbot.Base.{
  ◌⊎◌, ℕ, ◌≤◌, ◌≡◌, refl, Bool, true, false, Option, none, some, List, [], ◌∷◌, codes, Text, String,
  length,
}
use elbot.Fileops.Rollback.{
  RollbackRecord, RollbackManager, RollbackSession, Backup, Published, new_record, session, forget,
  publish, commit_rollback, valid_session, not_found,
}
use elbot.Fileops.Rollback.Records.{backed_up, Ordered}
use elbot.Fileops.Rollback.Runs.{opened, published, Steps, here, next, fresh}
use elbot.Fileops.Rollback.Promises.{rollback_invariant, publish_returns, Recorded, Ignored}
use elbot.Fileops.Rollback.Leases.{forgotten_lease}

abbrev always : ℕ → Bool
always b = true

abbrev lease : RollbackSession
lease = record { binding = 7; scope = 0 }

abbrev backup : String → Text → Backup
backup target before = record {
  path = target;
  target = target;
  created = false;
  revision_before = "r1";
  revision_after = "r2";
  before = before;
  mode = 420;
  encoding = "utf-8";
  after_size = 3;
}

-- With room for two records.
abbrev begun : RollbackManager
begun = (session always 7 (fresh 10 2)).0

abbrev kept : Option (RollbackManager × Published) → RollbackManager
kept none = begun
kept (some (m, p)) = m

abbrev once : RollbackManager
once = kept (publish always lease (backup "a" (codes "old")) begun)

abbrev twice : RollbackManager
twice = kept (publish always lease (backup "b" (codes "text")) once)

abbrev thrice : RollbackManager
thrice = kept (publish always lease (backup "c" (codes "word")) twice)

abbrev ids : List RollbackRecord → List ℕ
ids [] = []
ids (r ∷ rest) = r.id ∷ ids rest

-- The third record evicts the first.
thrice_ids : (ids thrice.records ≡ 2 ∷ (3 ∷ [])) × (thrice.bytes ≡ 8)
unfolding publish session
thrice_ids = (refl, refl)

-- A second write of a file replaces its record.
rewritten_ids : ids (kept (publish always lease (backup "a" (codes "new")) once)).records ≡ 2 ∷ []
unfolding publish session
rewritten_ids = refl

abbrev first_record : RollbackRecord
first_record = new_record (backup "a" (codes "old")) 1 0

-- A record that was evicted is not restored.
evicted_not_found : commit_rollback always lease first_record thrice ≡ (thrice, some not_found)
unfolding publish session commit_rollback new_record
evicted_not_found = refl

begun-Steps : Steps (fresh 10 2) begun
begun-Steps = next here (opened always 7)

thrice-Steps : Steps (fresh 10 2) thrice
unfolding publish session
thrice-Steps =
    next
      (next (next begun-Steps (published always lease (backup "a" (codes "old")) refl))
        (published always lease (backup "b" (codes "text")) refl))
      (published always lease (backup "c" (codes "word")) refl)

rollback_invariant_example :
    (thrice.files ≡ thrice.records)
    × Ordered thrice.records
    × (thrice.bytes ≡ backed_up thrice.records)
    × (thrice.bytes ≤ thrice.max_bytes)
    × (length thrice.records ≤ thrice.max_records)
rollback_invariant_example = rollback_invariant 10 2 thrice-Steps

publish_returns_example :
    (m' : RollbackManager) × (p : Published) × (publish always lease
        (backup "b" (codes "sixteen"))
        thrice
      ≡ some (m', p))
    × (((valid_session always lease thrice ≡ true)
          × Recorded lease (backup "b" (codes "sixteen")) thrice m' p)
        ⊎ ((valid_session always lease thrice ≡ false) × Ignored thrice m' p))
publish_returns_example =
    publish_returns 10 2 always lease (backup "b" (codes "sixteen")) thrice-Steps

-- The binding is forgotten, and opened again.
abbrev reopened : RollbackManager
reopened = (session always 7 (forget 7 once)).0

forgotten_lease_example : valid_session always lease reopened ≡ false
unfolding publish session
forgotten_lease_example =
    forgotten_lease 10 2 always always 7 lease here refl
      (next here (published always lease (backup "a" (codes "old")) {m' = once} refl))
      (next here (opened always 7))
