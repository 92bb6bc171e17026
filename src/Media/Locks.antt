-- ===== src/Media/Locks.antt =====
-- The locks of media objects, one per ID (internal/media/object/locks.go).
--
-- An objectLock is a number and stands in `objects`; its channel of capacity 1 is whether the token is
-- in it. A section under the mutex of the table is one function, and so is each use of the channel.
pub mod Callers
pub mod Invariant
pub mod Promises
use elbot.Base.{
  ℕ, zero, suc, ◌+◌, ◌-◌, String, Bool, true, false, Option, none, some, if◌then◌else◌, ◌==◌,
  Entries, lookup, insert, delete, [],
}

pub record ObjectLock : Type 0 where
  pub held : Bool
  pub users : ℕ

pub record ObjectLocks : Type 0 where
  pub entries : Entries ℕ
  pub objects : ℕ → ObjectLock
  pub next : ℕ

unfoldable pub set_lock : ℕ → ObjectLock → (ℕ → ObjectLock) → ℕ → ObjectLock
set_lock a new objects b = if b == a then new else objects b

abbrev pub free_lock : ObjectLock
free_lock = record { held = false; users = 0 }

abbrev pub no_locks : ObjectLocks
no_locks = record { entries = []; objects = λ a. free_lock; next = 0 }

-- l.entries[id], made where it is nil.
unfoldable pub find_or_make : Option ℕ → String → ObjectLocks → ObjectLocks × ℕ
unfolding set_lock insert
find_or_make (some a) id l = (l, a)
find_or_make none id l = (
  record {
    entries = insert id l.next l.entries;
    objects = set_lock l.next free_lock l.objects;
    next = l.next + 1;
  },
  l.next,
)

unfoldable pub add_user : ℕ → ObjectLocks → ObjectLocks
unfolding set_lock
add_user a l = record l {
  objects = set_lock a (record (l.objects a) { users = (l.objects a).users + 1 }) l.objects;
}

-- The first section of acquire; the context is not done.
unfoldable pub enter : String → ObjectLocks → ObjectLocks × ℕ
unfolding find_or_make add_user lookup
enter id l = let (found, a) = find_or_make (lookup id l.entries) id l in (add_user a found, a)

-- entry.token <- struct{}{}, which blocks while the token is in the channel.
unfoldable pub take_token : ℕ → ObjectLocks → Option ObjectLocks
unfolding set_lock
take_token a l =
    if (l.objects a).held
    then none
    else some (record l { objects = set_lock a (record (l.objects a) { held = true }) l.objects })

-- <-entry.token
unfoldable pub free_token : ℕ → ObjectLocks → ObjectLocks
unfolding set_lock
free_token a l = record l { objects = set_lock a (record (l.objects a) { held = false }) l.objects }

-- drop
unfoldable pub drop_user : String → ℕ → ObjectLocks → ObjectLocks
unfolding set_lock delete
drop_user id a l =
    let users = (l.objects a).users - 1 in
    let fewer : ObjectLocks = record l {
      objects = set_lock a (record (l.objects a) { users = users }) l.objects;
    } in
    if users == 0 then record fewer { entries = delete id fewer.entries } else fewer
