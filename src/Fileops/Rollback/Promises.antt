-- ===== src/Fileops/Rollback/Promises.antt =====
-- What the backups promise (internal/fileops/rollback.go): the limits hold, the newest are
-- kept and the two maps agree.
use elbot.Base.{
  true, none, ◌⊎◌, List, ◌<◌, ℕ, ◌+◌, ◌≤◌, ◌≡◌, refl, sym, ap, ◌∙◌, subst, Bool, false, not, Option,
  some, [], ◌∷◌, ◌++◌, drop, if◌then◌else◌, length, arith, Bool-cases, inl, inr, if_true, if_false,
  is_some,
}
use elbot.Fileops.Rollback.{
  RollbackRecord, remove, remove_found, find_file, over_limit, RollbackManager, RollbackSession,
  Backup, Published, new_record, evict, replace_previous, insert_record, find_record, publish,
  valid_session,
}
use elbot.Fileops.Rollback.Records.{backed_up, Ordered}
use elbot.Fileops.Rollback.Keeping.{
  exceeds, Sound, forget-Kept, replace_previous-Sound, replace_previous-free, insert_record-Sound,
  Evicted, evict-Evicted,
}
use elbot.Fileops.Rollback.Runs.{
  Step, opened, forgot, published, rolled, Steps, here, next, fresh, Bounded, remove-Bounded,
  drop-Bounded, within-Bounded, session-Kept, commit_rollback-Kept,
}

-- The state that the eviction starts from.
abbrev pub added : RollbackSession → Backup → RollbackManager → RollbackManager
added s b m = insert_record s b (replace_previous s b m)

added-Sound :
    (s : RollbackSession) (b : Backup) (m : RollbackManager) → Sound m → Sound (added s b m)
added-Sound s b m g =
    insert_record-Sound s b _ (replace_previous-free s b m g) (replace_previous-Sound s b m g)

-- The eviction after a write.
pub evicting :
    (s : RollbackSession) (b : Backup) (m : RollbackManager)
    → Sound m
    → Evicted (added s b m) 0 (evict (length (added s b m).records) (added s b m) 0)
evicting s b m g =
    evict-Evicted (length (added s b m).records) (added s b m) 0 (added-Sound s b m g) (omega arith)

-- What Publish returns.
pub published_state : (s : RollbackSession) (b : Backup) (m : RollbackManager) → Sound m → Published
published_state s b m g =
    let v = evicting s b m g in
    record {
      evicted = 0 + v.count;
      available = is_some (find_record (added s b m).next_id v.kept.records);
    }

pub publish_lem :
    (valid : ℕ → Bool) (s : RollbackSession) (b : Backup) (m : RollbackManager) (g : Sound m)
    → publish valid s b m ≡ (
        if not (valid_session valid s m)
        then some (m, record { evicted = 0; available = false })
        else some ((evicting s b m g).kept, published_state s b m g))
unfolding publish published_state
publish_lem valid s b m g = ground (arith, (evicting s b m g).returns)

pub same_state :
    {a b : RollbackManager} {x y : Published}
    → ◌≡◌ {A = Option (RollbackManager × Published)} (some (a, x)) (some (b, y))
    → (a ≡ b) × (x ≡ y)
same_state e = ground arith

abbrev pub Good : RollbackManager → Type 0
Good m = Sound m × Bounded m

published-Good :
    (valid : ℕ → Bool) (s : RollbackSession) (b : Backup) (m m' : RollbackManager) (p : Published)
    → publish valid s b m ≡ some (m', p)
    → Good m
    → Good m'
published-Good valid s b m m' p e g = elim (Bool-cases (valid_session valid s m)) [
  | inr n ↦
      subst Good
        (same_state (sym (if_true (ap not n) _ _) ∙ sym (publish_lem valid s b m g.0) ∙ e)).0 g
  | inl y ↦
      subst Good
        (same_state (sym (if_false (ap not y) _ _) ∙ sym (publish_lem valid s b m g.0) ∙ e)).0
        ((evicting s b m g.0).sound, within-Bounded _ (evicting s b m g.0).within)
]

step-Good : {m m' : RollbackManager} → Step m m' → Good m → Good m'
step-Good (opened valid b) g =
    session-Kept Bounded remove-Bounded drop-Bounded
      (λ b m h. record { few_bytes = h.few_bytes; few_records = h.few_records }) valid b _ g
step-Good (forgot b) g = forget-Kept Bounded remove-Bounded drop-Bounded b _ g
step-Good (published valid s b {m'} {p} e) g = published-Good valid s b _ m' p e g
step-Good (rolled valid s r) g =
    commit_rollback-Kept Bounded remove-Bounded drop-Bounded
      (λ b m h. record { few_bytes = h.few_bytes; few_records = h.few_records }) valid s r _ g

run-Good : {m m' : RollbackManager} → Steps m m' → Good m → Good m'
run-Good here g = g
run-Good (next r s) g = step-Good s (run-Good r g)

pub fresh-Sound : (max_bytes max_records : ℕ) → Sound (fresh max_bytes max_records)
fresh-Sound max_bytes max_records = record {
  mirrored = refl;
  ordered = tt;
  recent = tt;
  summed = refl;
}

pub reach-Good :
    (max_bytes max_records : ℕ) {m : RollbackManager}
    → Steps (fresh max_bytes max_records) m
    → Good m
reach-Good max_bytes max_records r = run-Good r (
  fresh-Sound max_bytes max_records,
  record { few_bytes = omega arith; few_records = omega arith },
)

-- After any operations on a new manager, both maps hold the same records, their IDs ascend and no two
-- stand in one place, and the bytes are counted right; neither limit is exceeded.
pub rollback_invariant :
    (max_bytes max_records : ℕ) {m : RollbackManager}
    → Steps (fresh max_bytes max_records) m
    → (m.files ≡ m.records)
      × Ordered m.records
      × (m.bytes ≡ backed_up m.records)
      × (m.bytes ≤ m.max_bytes)
      × (length m.records ≤ m.max_records)
rollback_invariant max_bytes max_records r =
    let g = reach-Good max_bytes max_records r in
    (g.0.mirrored, g.0.ordered, g.0.summed, g.1.few_bytes, g.1.few_records)

-- What a write leaves where the lease is not valid: nothing.
abbrev pub Ignored : RollbackManager → RollbackManager → Published → Type 0
Ignored m m' p = (m' ≡ m) × (p ≡ record { evicted = 0; available = false })

-- The records without the file's previous one and with the new one behind.
abbrev pub all_records : RollbackSession → Backup → RollbackManager → List RollbackRecord
all_records s b m = (replace_previous s b m).records ++ (new_record b (m.next_id + 1) s.scope ∷ [])

-- What it leaves else: all records but the oldest, as few of those as the limits ask for.
abbrev pub Recorded :
    RollbackSession → Backup → RollbackManager → RollbackManager → Published → Type 0
Recorded s b m m' p =
    let kept = drop p.evicted (all_records s b m) in
    (m'
      ≡ record m { files = kept; records = kept; next_id = m.next_id + 1; bytes = backed_up kept })
    × (p.available ≡ is_some (find_record (m.next_id + 1) kept))
    × (exceeds m kept ≡ false)
    × ((k : ℕ) → k < p.evicted → exceeds m (drop k (all_records s b m)) ≡ true)

-- What taking out the previous record leaves alone.
record Alone (m m' : RollbackManager) : Type 0 where
  scopes : m'.scopes ≡ m.scopes
  next_scope : m'.next_scope ≡ m.next_scope
  next_id : m'.next_id ≡ m.next_id
  max_bytes : m'.max_bytes ≡ m.max_bytes
  max_records : m'.max_records ≡ m.max_records

remove_found-Alone : (o : Option RollbackRecord) (m : RollbackManager) → Alone m (remove_found o m)
unfolding remove_found remove
remove_found-Alone none m = record {
  scopes = refl;
  next_scope = refl;
  next_id = refl;
  max_bytes = refl;
  max_records = refl;
}
remove_found-Alone (some r) m = record {
  scopes = refl;
  next_scope = refl;
  next_id = refl;
  max_bytes = refl;
  max_records = refl;
}

replace_previous-Alone :
    (s : RollbackSession) (b : Backup) (m : RollbackManager) → Alone m (replace_previous s b m)
unfolding replace_previous
replace_previous-Alone s b m = remove_found-Alone (find_file s.scope b.target m.files) m

added-records :
    (s : RollbackSession) (b : Backup) (m : RollbackManager)
    → (added s b m).records ≡ all_records s b m
unfolding insert_record
added-records s b m =
    ap (λ (k : ℕ). (replace_previous s b m).records ++ (new_record b (k + 1) s.scope ∷ []))
      (replace_previous-Alone s b m).next_id

-- Two managers with the same fields.
same_manager :
    (k m : RollbackManager) (l : List RollbackRecord) (n : ℕ)
    → k.scopes ≡ m.scopes
    → k.next_scope ≡ m.next_scope
    → k.files ≡ l
    → k.records ≡ l
    → k.next_id ≡ n
    → k.bytes ≡ backed_up l
    → k.max_bytes ≡ m.max_bytes
    → k.max_records ≡ m.max_records
    → k ≡ record m { files = l; records = l; next_id = n; bytes = backed_up l }
same_manager k m l n a b c d e f g h = λ i. record {
  scopes = a i;
  next_scope = b i;
  files = c i;
  records = d i;
  next_id = e i;
  bytes = f i;
  max_bytes = g i;
  max_records = h i;
}

published-Recorded :
    (s : RollbackSession) (b : Backup) (m : RollbackManager) (g : Sound m)
    → Recorded s b m (evicting s b m g).kept (published_state s b m g)
unfolding published_state insert_record over_limit
published-Recorded s b m g =
    let v = evicting s b m g in
    let a = replace_previous-Alone s b m in
    let count : v.count ≡ 0 + v.count = omega arith in
    let records : v.kept.records ≡ drop (0 + v.count) (all_records s b m) =
      v.newest
      ∙ ap (λ l. drop v.count l) (added-records s b m)
      ∙ ap (λ j. drop j (all_records s b m)) count in
    let id : v.kept.next_id ≡ m.next_id + 1 = v.same_id ∙ ap (λ k. k + 1) a.next_id in
    (
      same_manager v.kept m _ _ (v.same_scopes.0 ∙ a.scopes) (v.same_scopes.1 ∙ a.next_scope)
          (v.sound.mirrored ∙ records) records id (v.sound.summed ∙ ap backed_up records)
          (v.limits.0 ∙ a.max_bytes) (v.limits.1 ∙ a.max_records),
      ap (λ (k : ℕ). is_some (find_record (k + 1) v.kept.records)) a.next_id
          ∙ ap (λ l. is_some (find_record (m.next_id + 1) l)) records,
      ground (
        arith,
        v.within,
        v.limits.0,
        v.limits.1,
        a.max_bytes,
        a.max_records,
        v.sound.summed,
        ap backed_up records,
        ap length records,
      ),
      λ k h.
          ap (λ l. exceeds m (drop k l)) (sym (added-records s b m))
          ∙ ground (arith, v.minimal k (omega (arith, h)), a.max_bytes, a.max_records),
    )

-- After any operations, recording a backup ends and returns: with a lease that is valid, the records are
-- those without the file's previous one and with the new one behind, less the oldest, of which no more are
-- evicted than the limits ask for, and all else of the manager is as before; with another lease the
-- manager stays as it is.
pub publish_returns :
    (max_bytes max_records : ℕ) {m : RollbackManager} (valid : ℕ → Bool) (s : RollbackSession)
    (b : Backup)
    → Steps (fresh max_bytes max_records) m
    → (m' : RollbackManager) × (p : Published) × (publish valid s b m ≡ some (m', p))
      × (((valid_session valid s m ≡ true) × Recorded s b m m' p)
          ⊎ ((valid_session valid s m ≡ false) × Ignored m m' p))
publish_returns max_bytes max_records {m} valid s b r =
    let g = (reach-Good max_bytes max_records r).0 in
    elim (Bool-cases (valid_session valid s m)) [
      | inr n ↦ (
        m,
        record { evicted = 0; available = false },
        publish_lem valid s b m g ∙ if_true (ap not n) _ _,
        inr (n, (refl, refl)),
      )
      | inl y ↦ (
        (evicting s b m g).kept,
        published_state s b m g,
        publish_lem valid s b m g ∙ if_false (ap not y) _ _,
        inl (y, published-Recorded s b m g),
      )
    ]
