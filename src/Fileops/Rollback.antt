-- ===== src/Fileops/Rollback.antt =====
-- The backups that a rollback restores (internal/fileops/rollback.go): what the manager does while it
-- holds its mutex.
--
-- A binding and a scope are the numbers of their objects; whether a binding is valid is an argument of
-- each operation. `files` holds the entries of all scopes, a record standing under its own scope and
-- target; maps are lists. Reading and writing the files, the locks of the targets and the commit guard
-- are outside.
pub mod Records
pub mod Keeping
pub mod Runs
pub mod Promises
pub mod Leases
mod Examples
use elbot.Base.{
  ℕ, zero, suc, ◌+◌, ◌-◌, String, Bool, true, false, not, ◌&&◌, ◌||◌, Option, none, some, List, [],
  ◌∷◌, ◌++◌, Text, if◌then◌else◌, ltb, ◌==◌, str_eq, length, is_some,
}

pub record RollbackRecord : Type 0 where
  pub id : ℕ
  pub path : String
  pub target : String
  pub created : Bool
  pub revision_before : String
  pub revision_after : String
  pub scope : ℕ
  pub before : Text
  pub mode : ℕ
  pub encoding : String
  pub after_size : ℕ

pub record RollbackManager : Type 0 where
  pub scopes : List (ℕ × ℕ)
  pub next_scope : ℕ
  pub files : List RollbackRecord
  pub records : List RollbackRecord
  pub next_id : ℕ
  pub bytes : ℕ
  pub max_bytes : ℕ
  pub max_records : ℕ

pub record RollbackSession : Type 0 where
  pub binding : ℕ
  pub scope : ℕ

pub data RollbackError : Type 0 where
  expired not_found : RollbackError

abbrev pub new_rollback_manager : RollbackManager
new_rollback_manager = record {
  scopes = [];
  next_scope = 0;
  files = [];
  records = [];
  next_id = 0;
  bytes = 0;
  max_bytes = 268_435_456;
  max_records = 1024;
}

unfoldable pub find_scope : ℕ → List (ℕ × ℕ) → Option ℕ
find_scope binding [] = none
find_scope binding ((b, scope) ∷ rest) =
    if b == binding then some scope else find_scope binding rest

unfoldable pub delete_scope : ℕ → List (ℕ × ℕ) → List (ℕ × ℕ)
delete_scope binding [] = []
delete_scope binding ((b, scope) ∷ rest) =
    let kept = delete_scope binding rest in if b == binding then kept else (b, scope) ∷ kept

-- Whether a record stands in this scope's map under this target.
unfoldable pub stands_at : ℕ → String → RollbackRecord → Bool
stands_at scope target r = r.scope == scope && str_eq r.target target

unfoldable pub find_file : ℕ → String → List RollbackRecord → Option RollbackRecord
unfolding stands_at
find_file scope target [] = none
find_file scope target (r ∷ rest) =
    if stands_at scope target r then some r else find_file scope target rest

unfoldable pub delete_file : ℕ → String → List RollbackRecord → List RollbackRecord
unfolding stands_at
delete_file scope target [] = []
delete_file scope target (r ∷ rest) =
    if stands_at scope target r then rest else r ∷ delete_file scope target rest

-- scope.files[target] = record
unfoldable pub put_file : RollbackRecord → List RollbackRecord → List RollbackRecord
unfolding stands_at
put_file new [] = new ∷ []
put_file new (r ∷ rest) =
    if stands_at new.scope new.target r then new ∷ rest else r ∷ put_file new rest

unfoldable pub find_record : ℕ → List RollbackRecord → Option RollbackRecord
find_record id [] = none
find_record id (r ∷ rest) = if r.id == id then some r else find_record id rest

unfoldable pub delete_record : ℕ → List RollbackRecord → List RollbackRecord
delete_record id [] = []
delete_record id (r ∷ rest) = if r.id == id then rest else r ∷ delete_record id rest

-- removeLocked
unfoldable pub remove : RollbackRecord → RollbackManager → RollbackManager
unfolding delete_record delete_file
remove r m = record m {
  records = delete_record r.id m.records;
  files = delete_file r.scope r.target m.files;
  bytes = m.bytes - length r.before;
}

-- The files of a scope.
unfoldable pub files_of : ℕ → List RollbackRecord → List RollbackRecord
files_of scope [] = []
files_of scope (r ∷ rest) =
    let more = files_of scope rest in if r.scope == scope then r ∷ more else more

unfoldable pub remove_each : List RollbackRecord → RollbackManager → RollbackManager
unfolding remove
remove_each [] m = m
remove_each (r ∷ rest) m = remove_each rest (remove r m)

-- forgetLocked, with the scope that the binding has.
unfoldable pub forget_scope : ℕ → ℕ → RollbackManager → RollbackManager
unfolding remove_each files_of delete_scope
forget_scope binding scope m =
    let r = remove_each (files_of scope m.files) m in
    record r { scopes = delete_scope binding r.scopes }

unfoldable pub forget : ℕ → RollbackManager → RollbackManager
unfolding forget_scope find_scope
forget binding m = elim (find_scope binding m.scopes) [
  | none ↦ m
  | some scope ↦ forget_scope binding scope m
]

-- The loop of Session over the scopes that the map has at its start.
unfoldable pub forget_invalid : (ℕ → Bool) → List (ℕ × ℕ) → RollbackManager → RollbackManager
unfolding forget
forget_invalid valid [] m = m
forget_invalid valid ((old, scope) ∷ rest) m =
    forget_invalid valid rest (if not (valid old) then forget old m else m)

unfoldable pub opened_scope : Option ℕ → ℕ → RollbackManager → RollbackManager × ℕ
opened_scope (some scope) binding m = (m, scope)
opened_scope none binding m = (
  record m { scopes = (binding, m.next_scope) ∷ m.scopes; next_scope = m.next_scope + 1 },
  m.next_scope,
)

-- The scope of a binding, a new one where it has none.
unfoldable pub open_scope : ℕ → RollbackManager → RollbackManager × ℕ
unfolding find_scope opened_scope
open_scope binding m = opened_scope (find_scope binding m.scopes) binding m

-- Session; a nil binding is never valid.
unfoldable pub session : (ℕ → Bool) → ℕ → RollbackManager → RollbackManager × Option RollbackSession
unfolding forget_invalid open_scope
session valid binding m =
    let (opened, scope) = open_scope binding (forget_invalid valid m.scopes m) in
    if not (valid binding)
    then (m, none)
    else (opened, some (record { binding = binding; scope = scope }))

unfoldable pub is_scope : ℕ → Option ℕ → Bool
is_scope scope none = false
is_scope scope (some s) = s == scope

-- validLocked
unfoldable pub valid_session : (ℕ → Bool) → RollbackSession → RollbackManager → Bool
unfolding find_scope is_scope
valid_session valid s m = valid s.binding && is_scope s.scope (find_scope s.binding m.scopes)

-- The loop that looks for the record with the least ID.
unfoldable pub oldest_from : RollbackRecord → List RollbackRecord → RollbackRecord
oldest_from oldest [] = oldest
oldest_from oldest (r ∷ rest) = oldest_from (if ltb r.id oldest.id then r else oldest) rest

unfoldable pub oldest : List RollbackRecord → Option RollbackRecord
unfolding oldest_from
oldest [] = none
oldest (r ∷ rest) = some (oldest_from r rest)

unfoldable pub over_limit : RollbackManager → Bool
over_limit m = ltb m.max_bytes m.bytes || ltb m.max_records (length m.records)

-- The loop that evicts, on fuel, with the number of evicted records; `none` stands for a loop that has
-- not ended or that finds no record to evict.
unfoldable pub evict : ℕ → RollbackManager → ℕ → Option (RollbackManager × ℕ)
unfolding over_limit oldest remove
evict zero m n = if over_limit m then none else some (m, n)
evict (suc fuel) m n =
    let next : Option (RollbackManager × ℕ) = elim (oldest m.records) [
      | none ↦ none
      | some r ↦ evict fuel (remove r m) (n + 1)
    ] in
    if over_limit m then next else some (m, n)

-- What the write of a file leaves to be recorded.
pub record Backup : Type 0 where
  pub path : String
  pub target : String
  pub created : Bool
  pub revision_before : String
  pub revision_after : String
  pub before : Text
  pub mode : ℕ
  pub encoding : String
  pub after_size : ℕ

unfoldable pub new_record : Backup → ℕ → ℕ → RollbackRecord
new_record b id scope = record {
  id = id;
  path = b.path;
  target = b.target;
  created = b.created;
  revision_before = b.revision_before;
  revision_after = b.revision_after;
  scope = scope;
  before = b.before;
  mode = b.mode;
  encoding = b.encoding;
  after_size = b.after_size;
}

unfoldable pub remove_found : Option RollbackRecord → RollbackManager → RollbackManager
unfolding remove
remove_found none m = m
remove_found (some r) m = remove r m

-- The previous record of the file goes.
unfoldable pub replace_previous : RollbackSession → Backup → RollbackManager → RollbackManager
unfolding find_file remove_found
replace_previous s b m = remove_found (find_file s.scope b.target m.files) m

unfoldable pub insert_record : RollbackSession → Backup → RollbackManager → RollbackManager
unfolding put_file new_record
insert_record s b m =
    let r = new_record b (m.next_id + 1) s.scope in
    record m {
      next_id = m.next_id + 1;
      records = m.records ++ (r ∷ []);
      files = put_file r m.files;
      bytes = m.bytes + length b.before;
    }

pub record Published : Type 0 where
  pub evicted : ℕ
  pub available : Bool

-- The end of editFile, behind the write.
unfoldable pub publish :
    (ℕ → Bool) → RollbackSession → Backup → RollbackManager → Option (RollbackManager × Published)
unfolding valid_session replace_previous insert_record evict find_record
publish valid s b m =
    let added = insert_record s b (replace_previous s b m) in
    if not (valid_session valid s m)
    then some (m, record { evicted = 0; available = false })
    else elim (evict (length added.records) added 0) [
      | none ↦ none
      | some (kept, n) ↦ some (
        kept,
        record { evicted = n; available = is_some (find_record added.next_id kept.records) },
      )
    ]

-- The end of rollback: the tests of beforeCommit under the mutex, and the removal behind the write. The
-- record in the map is the caller's where it has its ID, as IDs are not used twice. An error of the context
-- or of the write is outside: it leaves the manager as it is.
unfoldable pub commit_rollback :
    (ℕ → Bool)
    → RollbackSession
    → RollbackRecord
    → RollbackManager
    → RollbackManager × Option RollbackError
unfolding valid_session find_record remove
commit_rollback valid s r m =
    if not (valid_session valid s m) then (m, some expired) else elim (find_record r.id m.records) [
      | none ↦ (m, some not_found)
      | some found ↦ (remove found m, none)
    ]
