-- ===== src/Fileops/Rollback/Records.antt =====
-- Lists of records with ascending IDs and no two in one place (internal/fileops/rollback.go).
use elbot.Base.{
  ℕ, ◌+◌, ◌<◌, ◌≡◌, refl, sym, ap, ◌∙◌, subst, String, Bool, true, false, none, some, List, [], ◌∷◌,
  ◌++◌, if◌then◌else◌, ltb, ◌==◌, length, All, arith, eq_iff, eq_refl, Bool-cases, inl, inr, ◌⊎◌,
  if_elim, if_true, if_false, ==_refl,
}
use elbot.Fileops.Rollback.{
  RollbackRecord, stands_at, find_file, delete_file, put_file, find_record, delete_record,
  oldest_from, oldest, files_of,
}

abbrev pub backed_up : List RollbackRecord → ℕ
backed_up [] = 0
backed_up (r ∷ rest) = length r.before + backed_up rest

-- The second record is newer, and has another place.
pub record Apart (r s : RollbackRecord) : Type 0 where
  pub newer : r.id < s.id
  pub elsewhere : stands_at r.scope r.target s ≡ false

abbrev pub Ordered : List RollbackRecord → Type 0
Ordered [] = Unit
Ordered (r ∷ rest) = All (Apart r) rest × Ordered rest

abbrev pub Held : RollbackRecord → List RollbackRecord → Type 0
Held r [] = ⊥
Held r (s ∷ rest) = (s ≡ r) ⊎ Held r rest

pub All-Held :
    (P : RollbackRecord → Type 0) (r : RollbackRecord) (l : List RollbackRecord)
    → All P l
    → Held r l
    → P r
All-Held P r [] a h = elim h [ ]
All-Held P r (s ∷ rest) a (inl e) = subst P e a.0
All-Held P r (s ∷ rest) a (inr h) = All-Held P r rest a.1 h

stands_at_self : (r : RollbackRecord) → stands_at r.scope r.target r ≡ true
unfolding stands_at
stands_at_self r = ground (arith, eq_refl r.target)

stands_at_sym : (r s : RollbackRecord) → stands_at r.scope r.target s ≡ stands_at s.scope s.target r
unfolding stands_at
stands_at_sym r s = ground (arith, eq_iff s.target r.target, eq_iff r.target s.target)

-- Deleting a held record by its ID and by its place is the same.
pub delete_file-delete_record :
    (r : RollbackRecord) (l : List RollbackRecord)
    → Ordered l
    → Held r l
    → delete_file r.scope r.target l ≡ delete_record r.id l
unfolding delete_file delete_record
delete_file-delete_record r [] o h = elim h [ ]
delete_file-delete_record r (s ∷ rest) o (inl e) =
    subst
      (λ (x : RollbackRecord).
        (if stands_at x.scope x.target s then rest else s ∷ delete_file x.scope x.target rest)
        ≡ (if s.id == x.id then rest else s ∷ delete_record x.id rest))
      e (ground (arith, stands_at_self s))
delete_file-delete_record r (s ∷ rest) o (inr h) =
    let a : Apart s r = All-Held (Apart s) r rest o.0 h in
    ground (arith, a.newer, a.elsewhere, stands_at_sym s r, delete_file-delete_record r rest o.1 h)

pub delete_record-backed_up :
    (r : RollbackRecord) (l : List RollbackRecord)
    → Ordered l
    → Held r l
    → backed_up (delete_record r.id l) + length r.before ≡ backed_up l
unfolding delete_record
delete_record-backed_up r [] o h = elim h [ ]
delete_record-backed_up r (s ∷ rest) o (inl e) =
    subst
      (λ (x : RollbackRecord).
        backed_up (if s.id == x.id then rest else s ∷ delete_record x.id rest) + length x.before
        ≡ length s.before + backed_up rest)
      e (ground arith)
delete_record-backed_up r (s ∷ rest) o (inr h) =
    let a : Apart s r = All-Held (Apart s) r rest o.0 h in
    ground (arith, a.newer, delete_record-backed_up r rest o.1 h)

-- What holds of all records holds of those that a deletion leaves.
pub All-delete_record :
    (P : RollbackRecord → Type 0) (id : ℕ) (l : List RollbackRecord)
    → All P l
    → All P (delete_record id l)
unfolding delete_record
All-delete_record P id [] a = tt
All-delete_record P id (s ∷ rest) a =
    if_elim (All P) (s.id == id) _ _ (λ _. a.1) (λ _. (a.0, All-delete_record P id rest a.1))

pub delete_record-Ordered :
    (id : ℕ) (l : List RollbackRecord) → Ordered l → Ordered (delete_record id l)
unfolding delete_record
delete_record-Ordered id [] o = tt
delete_record-Ordered id (s ∷ rest) o =
    if_elim Ordered (s.id == id) _ _ (λ _. o.1)
      (λ _. (All-delete_record (Apart s) id rest o.0, delete_record-Ordered id rest o.1))

clash : {a b : Bool} → a ≡ b → a ≡ true → b ≡ false → ⊥
clash p x y = ground arith

pub delete_record-Held :
    (id : ℕ) (s : RollbackRecord) (l : List RollbackRecord)
    → Held s l
    → (s.id == id) ≡ false
    → Held s (delete_record id l)
unfolding delete_record
delete_record-Held id s [] h n = elim h [ ]
delete_record-Held id s (x ∷ rest) (inl e) n =
    if_elim (Held s) (x.id == id) _ _
      (λ y. absurd (clash (ap (λ (r : RollbackRecord). r.id == id) e) y n)) (λ _. inl e)
delete_record-Held id s (x ∷ rest) (inr h) n =
    if_elim (Held s) (x.id == id) _ _ (λ _. h) (λ _. inr (delete_record-Held id s rest h n))

some_inj : {A : Type 0} {a b : A} → some a ≡ some b → a ≡ b
some_inj q = ground arith

-- A record that is found is held, and stands where it was looked for.
pub find_file-Held :
    (scope : ℕ) (target : String) (l : List RollbackRecord) (r : RollbackRecord)
    → find_file scope target l ≡ some r
    → Held r l × (stands_at scope target r ≡ true)
unfolding find_file
find_file-Held scope target [] r e = ground arith
find_file-Held scope target (s ∷ rest) r e = elim (Bool-cases (stands_at scope target s)) [
  | inl y ↦
      let same = some_inj (sym (if_true y (some s) (find_file scope target rest)) ∙ e) in
      (inl same, subst (λ x. stands_at scope target x ≡ true) same y)
  | inr n ↦
      let later =
        find_file-Held scope target rest r
          (sym (if_false n (some s) (find_file scope target rest)) ∙ e) in
      (inr later.0, later.1)
]

-- No record stands in a place where none is found.
pub find_file-none :
    (scope : ℕ) (target : String) (l : List RollbackRecord)
    → find_file scope target l ≡ none
    → All (λ (r : RollbackRecord). stands_at scope target r ≡ false) l
unfolding find_file
find_file-none scope target [] e = tt
find_file-none scope target (s ∷ rest) e = elim (Bool-cases (stands_at scope target s)) [
  | inl y ↦ absurd (ground (arith, y, e))
  | inr n ↦ (
    n,
    find_file-none scope target rest (sym (if_false n (some s) (find_file scope target rest)) ∙ e),
  )
]

elsewhere-All :
    (scope : ℕ) (target : String) (s : RollbackRecord) (l : List RollbackRecord)
    → All (Apart s) l
    → stands_at scope target s ≡ true
    → All (λ (r : RollbackRecord). stands_at scope target r ≡ false) l
unfolding stands_at
elsewhere-All scope target s [] a y = tt
elsewhere-All scope target s (r ∷ rest) a y = (
  ground (
    arith,
    a.0.elsewhere,
    y,
    eq_iff s.target target,
    eq_iff r.target s.target,
    eq_iff r.target target,
  ),
  elsewhere-All scope target s rest a.1 y,
)

-- Once the record of a place is deleted, none stands there.
pub delete_file-none :
    (scope : ℕ) (target : String) (l : List RollbackRecord)
    → Ordered l
    → All (λ (r : RollbackRecord). stands_at scope target r ≡ false) (delete_file scope target l)
unfolding delete_file
delete_file-none scope target [] o = tt
delete_file-none scope target (s ∷ rest) o =
    if_elim (All (λ (r : RollbackRecord). stands_at scope target r ≡ false))
      (stands_at scope target s) _ _ (λ y. elsewhere-All scope target s rest o.0 y)
      (λ n. (n, delete_file-none scope target rest o.1))

pub append-All :
    (P : RollbackRecord → Type 0) (l : List RollbackRecord) (r : RollbackRecord)
    → All P l
    → P r
    → All P (l ++ (r ∷ []))
append-All P [] r a p = (p, tt)
append-All P (s ∷ rest) r a p = (a.0, append-All P rest r a.1 p)

-- The new record, behind all others.
pub append-Ordered :
    (l : List RollbackRecord) (r : RollbackRecord)
    → Ordered l
    → All (λ (s : RollbackRecord). (s.id < r.id) × (stands_at r.scope r.target s ≡ false)) l
    → Ordered (l ++ (r ∷ []))
append-Ordered [] r o a = (tt, tt)
append-Ordered (s ∷ rest) r o a = (
  append-All (Apart s) rest r o.0 (record { newer = a.0.0; elsewhere = stands_at_sym s r ∙ a.0.1 }),
  append-Ordered rest r o.1 a.1,
)

pub put_file-append :
    (l : List RollbackRecord) (r : RollbackRecord)
    → All (λ (s : RollbackRecord). stands_at r.scope r.target s ≡ false) l
    → put_file r l ≡ l ++ (r ∷ [])
unfolding put_file
put_file-append [] r a = refl
put_file-append (s ∷ rest) r a = if_false a.0 _ _ ∙ ap (λ l. s ∷ l) (put_file-append rest r a.1)

not_newer : (r s : RollbackRecord) → r.id < s.id → ltb s.id r.id ≡ false
not_newer r s h = ground arith

-- The least ID is the first.
oldest_from-first :
    (r : RollbackRecord) (l : List RollbackRecord) → All (Apart r) l → oldest_from r l ≡ r
unfolding oldest_from
oldest_from-first r [] a = refl
oldest_from-first r (s ∷ rest) a =
    ap (λ x. oldest_from x rest) (if_false (not_newer r s a.0.newer) s r)
    ∙ oldest_from-first r rest a.1

pub oldest-first :
    (r : RollbackRecord) (rest : List RollbackRecord)
    → Ordered (r ∷ rest)
    → oldest (r ∷ rest) ≡ some r
unfolding oldest
oldest-first r rest o = ap some (oldest_from-first r rest o.0)

pub delete_record-first :
    (r : RollbackRecord) (rest : List RollbackRecord) → delete_record r.id (r ∷ rest) ≡ rest
unfolding delete_record
delete_record-first r rest = if_true (==_refl r.id) _ _

pub find_record-Held :
    (id : ℕ) (l : List RollbackRecord) (r : RollbackRecord) → find_record id l ≡ some r → Held r l
unfolding find_record
find_record-Held id [] r e = ground arith
find_record-Held id (s ∷ rest) r e = elim (Bool-cases (s.id == id)) [
  | inl y ↦ inl (some_inj (sym (if_true y (some s) (find_record id rest)) ∙ e))
  | inr n ↦ inr (find_record-Held id rest r (sym (if_false n (some s) (find_record id rest)) ∙ e))
]

pub files_of-All :
    (P : RollbackRecord → Type 0) (scope : ℕ) (l : List RollbackRecord)
    → All P l
    → All P (files_of scope l)
unfolding files_of
files_of-All P scope [] a = tt
files_of-All P scope (r ∷ rest) a =
    if_elim (All P) (r.scope == scope) _ _ (λ _. (a.0, files_of-All P scope rest a.1))
      (λ _. files_of-All P scope rest a.1)

pub files_of-Ordered :
    (scope : ℕ) (l : List RollbackRecord) → Ordered l → Ordered (files_of scope l)
unfolding files_of
files_of-Ordered scope [] o = tt
files_of-Ordered scope (r ∷ rest) o =
    if_elim Ordered (r.scope == scope) _ _
      (λ _. (files_of-All (Apart r) scope rest o.0, files_of-Ordered scope rest o.1))
      (λ _. files_of-Ordered scope rest o.1)

pub All-map :
    (P Q : RollbackRecord → Type 0) (l : List RollbackRecord)
    → ((r : RollbackRecord) → P r → Q r)
    → All P l
    → All Q l
All-map P Q [] f a = tt
All-map P Q (r ∷ rest) f a = (f r a.0, All-map P Q rest f a.1)

pub self-Held : (l : List RollbackRecord) → All (λ (r : RollbackRecord). Held r l) l
self-Held [] = tt
self-Held (r ∷ rest) = (
  inl refl,
  All-map (λ (s : RollbackRecord). Held s rest) (λ (s : RollbackRecord). Held s (r ∷ rest)) rest
      (λ s h. inr h) (self-Held rest),
)

-- The records of other scopes.
pub others_of : ℕ → List RollbackRecord → List RollbackRecord
others_of scope [] = []
others_of scope (r ∷ rest) =
    let more = others_of scope rest in if r.scope == scope then more else r ∷ more

-- Deleting records one by one.
pub delete_each : List RollbackRecord → List RollbackRecord → List RollbackRecord
delete_each [] l = l
delete_each (r ∷ rest) l = delete_each rest (delete_record r.id l)
