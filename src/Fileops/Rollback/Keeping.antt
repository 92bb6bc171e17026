-- ===== src/Fileops/Rollback/Keeping.antt =====
-- What every change of the manager keeps (internal/fileops/rollback.go).
use elbot.Base.{
  ltb, ◌||◌, ℕ, zero, suc, ◌+◌, ◌≤◌, ◌<◌, ◌≡◌, refl, sym, ap, ◌∙◌, subst, Bool, true, false, not,
  Option, none, some, List, [], ◌∷◌, ◌++◌, drop, if◌then◌else◌, ◌==◌, length, All, arith, eq_iff,
  Bool-cases, inl, inr, if_elim, opt_elim, if_true, if_false,
}
use elbot.Fileops.Rollback.{
  delete_scope, RollbackRecord, RollbackManager, RollbackSession, Backup, new_record, remove,
  remove_each, forget_scope, forget, forget_invalid, evict, over_limit, oldest, replace_previous,
  remove_found, insert_record, find_file, delete_file, delete_record, files_of, find_scope,
  stands_at,
}
use elbot.Fileops.Rollback.Records.{
  backed_up, Apart, Ordered, Held, delete_file-delete_record, delete_record-backed_up,
  All-delete_record, delete_record-Ordered, delete_record-Held, find_file-Held, find_file-none,
  delete_file-none, append-Ordered, append-All, put_file-append, oldest-first, delete_record-first,
  files_of-All, files_of-Ordered, All-map, self-Held,
}

-- The two maps hold the same records, each in one place, and the count of the bytes is right.
pub record Sound (m : RollbackManager) : Type 0 where
  pub mirrored : m.files ≡ m.records
  pub ordered : Ordered m.records
  pub recent : All (λ (r : RollbackRecord). r.id ≤ m.next_id) m.records
  pub summed : m.bytes ≡ backed_up m.records

pub remove-Sound :
    (r : RollbackRecord) (m : RollbackManager) → Held r m.records → Sound m → Sound (remove r m)
unfolding remove
remove-Sound r m h g = record {
  mirrored =
      ap (delete_file r.scope r.target) g.mirrored
      ∙ delete_file-delete_record r m.records g.ordered h;
  ordered = delete_record-Ordered r.id m.records g.ordered;
  recent = All-delete_record (λ (s : RollbackRecord). s.id ≤ m.next_id) r.id m.records g.recent;
  summed = omega (arith, g.summed, delete_record-backed_up r m.records g.ordered h);
}

-- Removing a held record and dropping a scope keep `Q`, so forgetting does, beside Sound.
module _ (Q : RollbackManager → Type 0)
    (removes : (r : RollbackRecord) (m : RollbackManager)
      → Held r m.records
      → Sound m
      → Q m
      → Q (remove r m))
    (drops : (b : ℕ) (m : RollbackManager)
      → Q m
      → Q (record m { scopes = delete_scope b m.scopes })) where
  remove_each-Kept :
      (rs : List RollbackRecord) (m : RollbackManager)
      → Ordered rs
      → All (λ (r : RollbackRecord). Held r m.records) rs
      → Sound m × Q m
      → Sound (remove_each rs m) × Q (remove_each rs m)
  unfolding remove_each remove
  remove_each-Kept [] m o h g = g
  remove_each-Kept (r ∷ rest) m o h g =
      remove_each-Kept rest (remove r m) o.1 (still rest o.0 h.1)
        (remove-Sound r m h.0 g.0, removes r m h.0 g.0 g.1)
    where
      differ : (s : RollbackRecord) → Apart r s → (s.id == r.id) ≡ false
      differ s a = ground (arith, a.newer)

      still :
          (l : List RollbackRecord)
          → All (Apart r) l
          → All (λ (s : RollbackRecord). Held s m.records) l
          → All (λ (s : RollbackRecord). Held s (delete_record r.id m.records)) l
      still [] a k = tt
      still (s ∷ l) a k = (delete_record-Held r.id s m.records k.0 (differ s a.0), still l a.1 k.1)

  forget_scope-Kept :
      (b scope : ℕ) (m : RollbackManager)
      → Sound m × Q m
      → Sound (forget_scope b scope m) × Q (forget_scope b scope m)
  unfolding forget_scope
  forget_scope-Kept b scope m g =
      let swept =
        remove_each-Kept (files_of scope m.files) m
          (files_of-Ordered scope m.files (subst Ordered (sym g.0.mirrored) g.0.ordered))
          (files_of-All (λ (r : RollbackRecord). Held r m.records) scope m.files
            (subst (All (λ (r : RollbackRecord). Held r m.records)) (sym g.0.mirrored)
              (self-Held m.records)))
          g in
      (
        record {
          mirrored = swept.0.mirrored;
          ordered = swept.0.ordered;
          recent = swept.0.recent;
          summed = swept.0.summed;
        },
        drops b _ swept.1,
      )

  pub forget-Kept :
      (b : ℕ) (m : RollbackManager) → Sound m × Q m → Sound (forget b m) × Q (forget b m)
  unfolding forget
  forget-Kept b m g =
      opt_elim (λ (n : RollbackManager). Sound n × Q n) (find_scope b m.scopes) _ _ g
        (λ scope _. forget_scope-Kept b scope m g)

  pub forget_invalid-Kept :
      (valid : ℕ → Bool) (l : List (ℕ × ℕ)) (m : RollbackManager)
      → Sound m × Q m
      → Sound (forget_invalid valid l m) × Q (forget_invalid valid l m)
  unfolding forget_invalid
  forget_invalid-Kept valid [] m g = g
  forget_invalid-Kept valid ((old, scope) ∷ rest) m g = forget_invalid-Kept valid rest _ (
      if_elim (λ (n : RollbackManager). Sound n × Q n) (not (valid old)) _ _
        (λ _. forget-Kept old m g) (λ _. g))

remove_found-Sound :
    (o : Option RollbackRecord) (m : RollbackManager)
    → ((r : RollbackRecord) → o ≡ some r → Held r m.records)
    → Sound m
    → Sound (remove_found o m)
unfolding remove_found
remove_found-Sound none m h g = g
remove_found-Sound (some r) m h g = remove-Sound r m (h r refl) g

pub replace_previous-Sound :
    (s : RollbackSession) (b : Backup) (m : RollbackManager)
    → Sound m
    → Sound (replace_previous s b m)
unfolding replace_previous
replace_previous-Sound s b m g =
    remove_found-Sound (find_file s.scope b.target m.files) m
      (λ r e. subst (Held r) g.mirrored (find_file-Held s.scope b.target m.files r e).0) g

-- No record stands in the place of the new one.
pub replace_previous-free :
    (s : RollbackSession) (b : Backup) (m : RollbackManager)
    → Sound m
    → All
        (λ (r : RollbackRecord). stands_at s.scope b.target r ≡ false)
        (replace_previous s b m).files
unfolding replace_previous remove_found remove stands_at
replace_previous-free s b m g = go (find_file s.scope b.target m.files) refl
  where
    here :
        (r x : RollbackRecord)
        → stands_at s.scope b.target r ≡ true
        → stands_at r.scope r.target x ≡ false
        → stands_at s.scope b.target x ≡ false
    here r x e f =
        ground (arith, eq_iff r.target b.target, eq_iff x.target b.target, eq_iff x.target r.target)

    go :
        (o : Option RollbackRecord)
        → find_file s.scope b.target m.files ≡ o
        → All
            (λ (r : RollbackRecord). stands_at s.scope b.target r ≡ false)
            (remove_found o m).files
    go none e = find_file-none s.scope b.target m.files e
    go (some r) e =
        All-map _ _ (delete_file r.scope r.target m.files)
          (λ x. here r x (find_file-Held s.scope b.target m.files r e).1)
          (delete_file-none r.scope r.target m.files (subst Ordered (sym g.mirrored) g.ordered))

backed_up-append :
    (l : List RollbackRecord) (r : RollbackRecord)
    → backed_up (l ++ (r ∷ [])) ≡ backed_up l + length r.before
backed_up-append [] r = omega arith
backed_up-append (s ∷ l) r = omega (arith, backed_up-append l r)

both_All :
    (P Q : RollbackRecord → Type 0) (l : List RollbackRecord)
    → All P l
    → All Q l
    → All (λ (r : RollbackRecord). P r × Q r) l
both_All P Q [] a b = tt
both_All P Q (r ∷ rest) a b = ((a.0, b.0), both_All P Q rest a.1 b.1)

pub insert_record-Sound :
    (s : RollbackSession) (b : Backup) (m : RollbackManager)
    → All (λ (r : RollbackRecord). stands_at s.scope b.target r ≡ false) m.files
    → Sound m
    → Sound (insert_record s b m)
unfolding insert_record new_record
insert_record-Sound s b m free g =
    let r = new_record b (m.next_id + 1) s.scope in
    record {
      mirrored = put_file-append m.files r free ∙ ap (λ l. l ++ (r ∷ [])) g.mirrored;
      ordered = append-Ordered m.records r g.ordered (
          both_All (λ (x : RollbackRecord). x.id < m.next_id + 1)
            (λ (x : RollbackRecord). stands_at s.scope b.target x ≡ false) m.records
            (All-map (λ (x : RollbackRecord). x.id ≤ m.next_id)
              (λ (x : RollbackRecord). x.id < m.next_id + 1) m.records (λ x h. omega (arith, h))
              g.recent)
            (subst (All (λ (x : RollbackRecord). stands_at s.scope b.target x ≡ false)) g.mirrored
              free));
      recent =
          append-All (λ (x : RollbackRecord). x.id ≤ m.next_id + 1) m.records r
            (All-map (λ (x : RollbackRecord). x.id ≤ m.next_id)
              (λ (x : RollbackRecord). x.id ≤ m.next_id + 1) m.records (λ x h. omega (arith, h))
              g.recent)
            (omega arith);
      summed = omega (arith, g.summed, backed_up-append m.records r);
    }

-- Whether these records are beyond the limits.
abbrev pub exceeds : RollbackManager → List RollbackRecord → Bool
exceeds m l = ltb m.max_bytes (backed_up l) || ltb m.max_records (length l)

-- What the eviction ends with: the limits hold, and the oldest records are gone, no more than need be.
pub record Evicted (m : RollbackManager) (n : ℕ) (o : Option (RollbackManager × ℕ)) : Type 0 where
  pub kept : RollbackManager
  pub count : ℕ
  pub returns : o ≡ some (kept, n + count)
  pub within : over_limit kept ≡ false
  pub sound : Sound kept
  pub newest : kept.records ≡ drop count m.records
  pub minimal : (k : ℕ) → k < count → exceeds m (drop k m.records) ≡ true
  pub same_id : kept.next_id ≡ m.next_id
  pub limits : (kept.max_bytes ≡ m.max_bytes) × (kept.max_records ≡ m.max_records)
  pub same_scopes : (kept.scopes ≡ m.scopes) × (kept.next_scope ≡ m.next_scope)

stops :
    (m : RollbackManager) (n : ℕ) (o : Option (RollbackManager × ℕ))
    → Sound m
    → over_limit m ≡ false
    → Evicted m n (if over_limit m then o else some (m, n))
stops m n o g e = record {
  kept = m;
  count = 0;
  returns = if_false e o (some (m, n)) ∙ ap (λ k. some (m, k)) (omega arith);
  within = e;
  sound = g;
  newest = refl;
  minimal = λ k h. absurd (omega arith);
  same_id = refl;
  limits = (refl, refl);
  same_scopes = (refl, refl);
}

empty_within : (m : RollbackManager) → Sound m → m.records ≡ [] → over_limit m ≡ false
unfolding over_limit
empty_within m g e = ground (arith, g.summed, ap backed_up e, ap length e)

over_limit-exceeds :
    (m : RollbackManager) → Sound m → over_limit m ≡ true → exceeds m m.records ≡ true
unfolding over_limit
over_limit-exceeds m g y = ground (arith, g.summed, y)

-- A round that evicts the first record, and the rounds behind it.
round-Evicted :
    (fuel : ℕ) (m : RollbackManager) (n : ℕ) (r : RollbackRecord) (rest : List RollbackRecord)
    → m.records ≡ r ∷ rest
    → Sound m
    → over_limit m ≡ true
    → Evicted (remove r m) (n + 1) (evict fuel (remove r m) (n + 1))
    → Evicted m n
        (elim (oldest m.records) [ none ↦ none | some r ↦ evict fuel (remove r m) (n + 1) ])
unfolding remove
round-Evicted fuel m n r rest e g y v = record {
  kept = v.kept;
  count = suc v.count;
  returns =
      ap pick (ap oldest e ∙ oldest-first r rest (subst Ordered e g.ordered))
      ∙ v.returns
      ∙ ap (λ k. some (v.kept, k)) (omega arith);
  within = v.within;
  sound = v.sound;
  newest =
      v.newest
      ∙ ap (λ l. drop v.count (delete_record r.id l)) e
      ∙ ap (drop v.count) (delete_record-first r rest)
      ∙ ap (drop (suc v.count)) (sym e);
  minimal = need;
  same_id = v.same_id;
  limits = v.limits;
  same_scopes = v.same_scopes;
}
  where
    need : (k : ℕ) → k < suc v.count → exceeds m (drop k m.records) ≡ true
    need zero h = over_limit-exceeds m g y
    need (suc k) h =
        ap (λ l. exceeds m (drop (suc k) l)) e
        ∙ ap (λ l. exceeds m (drop k l)) (sym (delete_record-first r rest))
        ∙ ap (λ l. exceeds m (drop k (delete_record r.id l))) (sym e)
        ∙ v.minimal k (omega (arith, h))

    pick : Option RollbackRecord → Option (RollbackManager × ℕ)
    pick none = none
    pick (some r) = evict fuel (remove r m) (n + 1)

-- As many rounds as there are records are enough.
pub evict-Evicted :
    (fuel : ℕ) (m : RollbackManager) (n : ℕ)
    → Sound m
    → length m.records ≤ fuel
    → Evicted m n (evict fuel m n)
unfolding evict remove
evict-Evicted zero m n g le = stops m n none g (empty_within m g (no_records m.records le))
  where
    no_records : (l : List RollbackRecord) → length l ≤ 0 → l ≡ []
    no_records [] h = refl
    no_records (r ∷ l) h = absurd (omega arith)
evict-Evicted (suc fuel) m n g le = elim (Bool-cases (over_limit m)) [
  | inr e ↦ stops m n _ g e
  | inl e ↦ subst (Evicted m n) (sym (if_true e _ _)) (
      rounds m.records refl
        (λ r rest q.
          evict-Evicted fuel (remove r m) (n + 1)
            (remove-Sound r m (subst (Held r) (sym q) (inl refl)) g) (shorter r rest q))
        e)
]
  where
    shorter :
        (r : RollbackRecord) (rest : List RollbackRecord)
        → m.records ≡ r ∷ rest
        → length (remove r m).records ≤ fuel
    shorter r rest q = omega (
      arith,
      le,
      ap length q,
      ap (λ l. length (delete_record r.id l)) q,
      ap length (delete_record-first r rest),
    )

    rounds :
        (l : List RollbackRecord)
        → m.records ≡ l
        → ((r : RollbackRecord) (rest : List RollbackRecord)
            → m.records ≡ r ∷ rest
            → Evicted (remove r m) (n + 1) (evict fuel (remove r m) (n + 1)))
        → over_limit m ≡ true
        → Evicted m n
            (elim (oldest m.records) [ none ↦ none | some r ↦ evict fuel (remove r m) (n + 1) ])
    rounds [] q ih e = absurd (ground (arith, empty_within m g q))
    rounds (r ∷ rest) q ih e = round-Evicted fuel m n r rest q g e (ih r rest q)
