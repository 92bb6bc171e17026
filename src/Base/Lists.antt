-- ===== src/Base/Lists.antt =====
-- Lists measured and indexed by native numbers, under the library's names.
use Prim.Native.Nat.{ℕ, zero, suc, ◌+◌, ◌-◌, ◌≤◌, min}
use mathlib.Core.Path.{◌≡◌, refl, sym, ap, ◌∙◌}
use mathlib.Core.Bool.{Bool, false, ◌||◌}
use mathlib.Core.List.{List, [], ◌∷◌, ◌++◌}
use mathlib.Core.Option.{Option, none, some}
use native.Mathlib.Nat.{zero-add, suc-add}
use native.Mathlib.Omega.{arith}
use elbot.Base.Tests.{◌==◌}

module _ {ℓ} {A : Type ℓ} where
  abbrev pub length : List A → ℕ
  length [] = 0
  length (x ∷ xs) = suc (length xs)

  abbrev pub take : ℕ → List A → List A
  take zero xs = []
  take (suc n) [] = []
  take (suc n) (x ∷ xs) = x ∷ take n xs

  abbrev pub drop : ℕ → List A → List A
  drop zero xs = xs
  drop (suc n) [] = []
  drop (suc n) (x ∷ xs) = drop n xs

  abbrev pub get_elem? : List A → ℕ → Option A
  get_elem? [] i = none
  get_elem? (x ∷ xs) zero = some x
  get_elem? (x ∷ xs) (suc i) = get_elem? xs i

  pub length-append : (xs ys : List A) → length (xs ++ ys) ≡ length xs + length ys
  length-append [] ys = omega arith
  length-append (x ∷ xs) ys = omega (arith, length-append xs ys)

module _ {ℓ} {A : Type ℓ} where
  pub length-take : (n : ℕ) (xs : List A) → length (take n xs) ≡ min n (length xs)
  length-take zero xs = omega arith
  length-take (suc n) [] = omega arith
  length-take (suc n) (x ∷ xs) = omega (arith, length-take n xs)

  pub length-drop : (n : ℕ) (xs : List A) → length (drop n xs) ≡ length xs - n
  length-drop zero xs = omega arith
  length-drop (suc n) [] = omega arith
  length-drop (suc n) (x ∷ xs) = omega (arith, length-drop n xs)

  -- Every element satisfies the predicate.
  abbrev pub All {κ} : (A → Type κ) → List A → Type κ
  All P [] = Unit
  All P (x ∷ xs) = P x × All P xs

module _ {ℓ} {A : Type ℓ} where
  pub take-take-append :
      (n k : ℕ) (t tail : List A) → n ≤ k → k ≤ length t → take n (take k t ++ tail) ≡ take n t
  take-take-append zero k t tail h l = refl
  take-take-append (suc n) zero t tail h l = elim h [ ]
  take-take-append (suc n) (suc k) [] tail h l = absurd (omega arith)
  take-take-append (suc n) (suc k) (c ∷ t) tail h l =
      ap (λ r. c ∷ r) (take-take-append n k t tail (omega arith) (omega arith))

  pub drop-take-append :
      (n k : ℕ) (t tail : List A)
      → n ≤ k
      → k ≤ length t
      → drop n (take k t ++ tail) ≡ drop n (take k t) ++ tail
  drop-take-append zero k t tail h l = refl
  drop-take-append (suc n) zero t tail h l = elim h [ ]
  drop-take-append (suc n) (suc k) [] tail h l = absurd (omega arith)
  drop-take-append (suc n) (suc k) (c ∷ t) tail h l =
      drop-take-append n k t tail (omega arith) (omega arith)

  pub take_all : (n : ℕ) (t : List A) → length t ≤ n → take n t ≡ t
  take_all zero [] h = refl
  take_all zero (c ∷ t) h = absurd (omega arith)
  take_all (suc n) [] h = refl
  take_all (suc n) (c ∷ t) h = ap (λ r. c ∷ r) (take_all n t (omega arith))

  pub drop-nil : (n : ℕ) → drop {A = A} n [] ≡ []
  drop-nil zero = refl
  drop-nil (suc n) = refl

  pub drop-drop : (n k : ℕ) (t : List A) → drop n (drop k t) ≡ drop (k + n) t
  drop-drop n zero t = rw zero-add
  drop-drop n (suc k) [] = rw (drop-nil n, drop-nil (suc k + n))
  drop-drop n (suc k) (c ∷ t) = rw suc-add (drop-drop n k t)

-- A log of numbers has one.
unfoldable pub contains : ℕ → List ℕ → Bool
contains n [] = false
contains n (k ∷ rest) = (k == n) || contains n rest

pub suc_out : (n k : ℕ) → suc n + k ≡ suc (n + k)
suc_out n k = omega arith

module _ {ℓ} {A : Type ℓ} where
  pub take-append-drop : (n : ℕ) (l : List A) → take n l ++ drop n l ≡ l
  take-append-drop zero l = refl
  take-append-drop (suc n) [] = refl
  take-append-drop (suc n) (x ∷ l) = ap (λ r. x ∷ r) (take-append-drop n l)

  pub take-nil : (n : ℕ) → take {A = A} n [] ≡ []
  take-nil zero = refl
  take-nil (suc n) = refl

  pub take-add : (n k : ℕ) (l : List A) → take (n + k) l ≡ take n l ++ take k (drop n l)
  take-add zero k l = ap (λ j. take j l) (omega arith)
  take-add (suc n) k [] = ap (λ j. take j []) (suc_out n k) ∙ sym (take-nil k)
  take-add (suc n) k (x ∷ l) =
      ap (λ j. take j (x ∷ l)) (suc_out n k) ∙ ap (λ r. x ∷ r) (take-add n k l)

  pub drop-append_past :
      (k : ℕ) (s t : List A) → length s ≤ k → drop k (s ++ t) ≡ drop (k - length s) t
  drop-append_past k [] t h = ap (λ j. drop j t) (omega arith)
  drop-append_past zero (x ∷ s) t h = absurd (omega arith)
  drop-append_past (suc k) (x ∷ s) t h =
      drop-append_past k s t (omega arith) ∙ ap (λ j. drop j t) (omega arith)

  pub drop-append_within : (k : ℕ) (s t : List A) → k ≤ length s → drop k (s ++ t) ≡ drop k s ++ t
  drop-append_within zero s t h = refl
  drop-append_within (suc k) [] t h = absurd (omega arith)
  drop-append_within (suc k) (x ∷ s) t h = drop-append_within k s t (omega arith)

  pub take-append_within : (n : ℕ) (s t : List A) → n ≤ length s → take n (s ++ t) ≡ take n s
  take-append_within zero s t h = refl
  take-append_within (suc n) [] t h = absurd (omega arith)
  take-append_within (suc n) (x ∷ s) t h = ap (λ l. x ∷ l) (take-append_within n s t (omega arith))

  pub take-append_past :
      (n : ℕ) (s t : List A) → length s ≤ n → take n (s ++ t) ≡ s ++ take (n - length s) t
  take-append_past n [] t h = ap (λ j. take j t) (omega arith)
  take-append_past zero (x ∷ s) t h = absurd (omega arith)
  take-append_past (suc n) (x ∷ s) t h =
      ap (λ l. x ∷ l) (take-append_past n s t (omega arith) ∙ ap (λ j. s ++ take j t) (omega arith))

  pub drop_all : (n : ℕ) (t : List A) → length t ≤ n → drop n t ≡ []
  drop_all n [] h = drop-nil n
  drop_all zero (x ∷ t) h = absurd (omega arith)
  drop_all (suc n) (x ∷ t) h = drop_all n t (omega arith)
