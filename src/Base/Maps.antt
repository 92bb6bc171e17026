-- ===== src/Base/Maps.antt =====
-- Go maps as association lists with distinct keys.
use Prim.Native.Nat.{ℕ, ◌+◌, ◌≤◌}
use mathlib.Core.Logic.{inl, inr}
use Prim.Native.String.{String}
use mathlib.Core.Path.{◌≡◌, refl}
use mathlib.Core.List.{List, [], ◌∷◌}
use mathlib.Core.Option.{Option, none, some}
use native.Mathlib.Omega.{arith}
use text.Mathlib.Text.{◌==◌}
use text.Mathlib.TextEquality.{eq_iff}
use text.Mathlib.TextPositions.{eq_refl}
use elbot.Base.Tests.{if◌then◌else◌, Bool-cases}

-- The entries of a map, in the order of their insertion.
abbrev pub Entries {ℓ} : Type ℓ → Type ℓ
Entries V = List (String × V)

module _ {ℓ} {V : Type ℓ} where
  unfoldable pub lookup : String → Entries V → Option V
  lookup wanted [] = none
  lookup wanted ((key, held) ∷ rest) = if key == wanted then some held else lookup wanted rest

  -- The entry of a present key stays where it stands.
  unfoldable pub insert : String → V → Entries V → Entries V
  insert wanted new [] = (wanted, new) ∷ []
  insert wanted new ((key, held) ∷ rest) =
      if key == wanted then (key, new) ∷ rest else (key, held) ∷ insert wanted new rest

  unfoldable pub delete : String → List (String × V) → List (String × V)
  delete k [] = []
  delete k ((j, w) ∷ m) = if j == k then m else (j, w) ∷ delete k m

  -- The representation invariant: no key stands twice.
  abbrev pub Distinct : List (String × V) → Type ℓ
  Distinct [] = Unit {ℓ}
  Distinct ((k, v) ∷ m) = (lookup k m ≡ none) × Distinct m

module _ {ℓ} {V : Type ℓ} where
  pub lookup-insert :
      (new_key seen : String) (new : V) (entries : Entries V)
      → lookup seen (insert new_key new entries)
        ≡ (if new_key == seen then some new else lookup seen entries)
  unfolding insert lookup
  lookup-insert new_key seen new [] = refl
  lookup-insert new_key seen new ((key, held) ∷ rest) =
      let ih = lookup-insert new_key seen new rest in
      ground (arith, ih, eq_iff key seen, eq_iff new_key seen, eq_iff key new_key)

  pub lookup-delete :
      (k j : String) (m : List (String × V))
      → Distinct m
      → lookup j (delete k m) ≡ (if k == j then none else lookup j m)
  unfolding lookup delete
  lookup-delete k j [] d = ground arith
  lookup-delete k j ((i, w) ∷ m) d =
      ground (arith, eq_iff k j, eq_iff i k, eq_iff i j, lookup-delete k j m d.1)

  pub lookup-insert_self :
      (k : String) (v : V) (m : List (String × V)) → lookup k (insert k v m) ≡ some v
  lookup-insert_self k v m = ground (arith, lookup-insert k k v m, eq_refl k)

  pub lookup-delete_self :
      (k : String) (m : List (String × V)) → Distinct m → lookup k (delete k m) ≡ none
  lookup-delete_self k m d = ground (arith, lookup-delete k k m d, eq_refl k)

  pub insert-Distinct :
      (k : String) (v : V) (m : List (String × V)) → Distinct m → Distinct (insert k v m)
  unfolding insert lookup
  insert-Distinct k v [] d = (refl, tt)
  insert-Distinct k v ((i, w) ∷ m) d =
      ground (arith, eq_iff i k, eq_iff k i, lookup-insert k i v m, insert-Distinct k v m d.1)

  pub delete-Distinct : (k : String) (m : List (String × V)) → Distinct m → Distinct (delete k m)
  unfolding delete lookup
  delete-Distinct k [] d = tt
  delete-Distinct k ((i, w) ∷ m) d =
      ground (arith, eq_iff i k, lookup-delete k i m d.1, delete-Distinct k m d.1)

-- The sum of a measure over the values of a map.
module _ {ℓ} {V : Type ℓ} (w : V → ℕ) where
  unfoldable pub weigh : List (String × V) → ℕ
  weigh [] = 0
  weigh ((k, v) ∷ m) = w v + weigh m

  abbrev pub weigh_opt : Option V → ℕ
  weigh_opt none = 0
  weigh_opt (some v) = w v

  pub weigh-insert :
      (k : String) (v : V) (m : List (String × V))
      → weigh (insert k v m) + weigh_opt (lookup k m) ≡ weigh m + w v
  unfolding weigh insert lookup
  weigh-insert k v [] = omega arith
  weigh-insert k v ((j, u) ∷ m) = elim (Bool-cases (j == k)) [
    | inl y ↦ rw y (omega arith)
    | inr n ↦ rw n (omega (arith, weigh-insert k v m))
  ]

  pub weigh-delete :
      (k : String) (m : List (String × V)) → weigh (delete k m) + weigh_opt (lookup k m) ≡ weigh m
  unfolding weigh delete lookup
  weigh-delete k [] = omega arith
  weigh-delete k ((j, u) ∷ m) = elim (Bool-cases (j == k)) [
    | inl y ↦ rw y (omega arith)
    | inr n ↦ rw n (omega (arith, weigh-delete k m))
  ]

  pub weigh_opt-le-weigh : (k : String) (m : List (String × V)) → weigh_opt (lookup k m) ≤ weigh m
  unfolding weigh lookup
  weigh_opt-le-weigh k [] = omega arith
  weigh_opt-le-weigh k ((j, u) ∷ m) = elim (Bool-cases (j == k)) [
    | inl y ↦ rw y (omega arith)
    | inr n ↦ rw n (omega (arith, weigh_opt-le-weigh k m))
  ]
