-- ===== src/Platform/Backoff.antt =====
-- The delays between two attempts to connect (internal/platform/share/backoff.go).
--
-- A time.Duration is an int64 of nanoseconds. The durations that a constructed Backoff holds are
-- positive, so they are natural numbers; a configured one is an integer. `b.cur * 2` wraps around.
use elbot.Base.{
  ℕ, suc, ◌+◌, ◌*◌, ◌^◌, ◌≤◌, ◌<◌, ◌≡◌, refl, min, Bool, true, false, ◌||◌, List, [], ◌∷◌, ℤ,
  pos_part, sym, ap, arith, if◌then◌else◌, ltb, leb, ◌==◌, zero, Bool-cases, inl, inr,
}
use native.Mathlib.Nat.{mul_assoc, mul-le-mul, mul-le-mul_right}

abbrev pub default_base : ℕ
default_base = 3000000000

abbrev pub default_max : ℕ
default_max = 10000000000

pub record Backoff : Type 0 where
  pub base : ℕ
  pub max_delay : ℕ
  pub cur : ℕ
  pub failed : Bool

-- The durations are compared as integers; `pos_part` is 0 exactly for those below 1.
unfoldable pub new_backoff : ℤ → ℤ → Backoff
new_backoff base max =
    let b = if pos_part base == 0 then default_base else pos_part base in
    let top = if pos_part max == 0 || ltb (pos_part max) b then default_max else pos_part max in
    record { base = b; max_delay = top; cur = b; failed = false }

-- What `b.cur * 2` shows to the two comparisons: a product of 2 ^ 63 and more is negative there, so
-- it is below `cur` and not above `max_delay`.
unfoldable pub doubled : ℕ → ℕ → ℕ
doubled cur top =
    let next = cur * 2 in
    if ltb next 9223372036854775808 then (if ltb top next then top else next) else top

unfoldable pub delay : Backoff → Backoff × ℕ
unfolding doubled
delay b = (record b { cur = doubled b.cur b.max_delay }, b.cur)

unfoldable pub reset : Backoff → Backoff
reset b = record b { cur = b.base; failed = false }

unfoldable pub should_warn : Backoff → Backoff × Bool
should_warn b = if b.failed then (b, false) else (record b { failed = true }, true)

-- The delays of n calls of Delay in a row.
unfoldable pub delays : ℕ → Backoff → List ℕ
unfolding delay
delays zero b = []
delays (suc n) b = (delay b).1 ∷ delays n (delay b).0

-- How often ShouldWarn says yes in n calls in a row.
unfoldable pub warnings : ℕ → Backoff → ℕ
unfolding should_warn
warnings zero b = 0
warnings (suc n) b =
    let rest = warnings n (should_warn b).0 in (if (should_warn b).1 then 1 else 0) + rest

unfoldable pub after_delays : ℕ → Backoff → Backoff
unfolding delay
after_delays zero b = b
after_delays (suc n) b = after_delays n (delay b).0

doubled-min :
    (cur top : ℕ) → cur ≤ top → top < 9223372036854775808 → doubled cur top ≡ min (cur * 2) top
unfolding doubled
doubled-min cur top h k = ground arith

pow_pos : (n : ℕ) → 1 ≤ 2 ^ n
pow_pos zero = ground arith
pow_pos (suc n) = ground (arith, pow_pos n)

warn_no : (b : Backoff) → b.failed ≡ true → should_warn b ≡ (b, false)
unfolding should_warn
warn_no b f = rw f refl

warn_yes : (b : Backoff) → b.failed ≡ false → should_warn b ≡ (record b { failed = true }, true)
unfolding should_warn
warn_yes b f = ap (λ x. if x then (b, false) else (record b { failed = true }, true)) f

silent : (n : ℕ) (b : Backoff) → b.failed ≡ true → warnings n b ≡ 0
unfolding warnings
silent zero b f = refl
silent (suc n) b f = rw (warn_no b f) (rw (silent n b f) refl)

warned : (n : ℕ) (b : Backoff) → b.failed ≡ false → warnings (suc n) b ≡ 1
unfolding warnings
warned n b f = rw (warn_yes b f) (rw (silent n (record b { failed = true }) refl) refl)

cap_step : (c top p : ℕ) → 1 ≤ p → min (min (c * 2) top * p) top ≡ min (c * (2 * p)) top
cap_step c top p h = elim (Bool-cases (leb (c * 2) top)) [
  | inl y ↦ let q : min (c * 2) top ≡ c * 2 = ground arith in rw (q, mul_assoc c 2 p) refl
  | inr n ↦
      let q : min (c * 2) top ≡ top = ground arith in
      rw (q, sym (mul_assoc c 2 p))
        (ground (
          arith,
          mul-le-mul {n₁ = top} {m₁ = 1} {n₂ = top} {m₂ = p} (ground arith) h,
          mul-le-mul_right {m = top} {n = c * 2} p (ground arith),
        ))
]

-- After n calls of Delay the next delay is the first one doubled n times and capped, whatever the 64
-- bits of the product hold, as long as the first is not above the cap.
pub after_delays_cur :
    (n : ℕ) (b : Backoff)
    → b.cur ≤ b.max_delay
    → b.max_delay < 9223372036854775808
    → (after_delays n b).cur ≡ min (b.cur * 2 ^ n) b.max_delay
unfolding after_delays delay
after_delays_cur zero b h k = ground arith
after_delays_cur (suc n) b h k =
    let step = doubled-min b.cur b.max_delay h k in
    let le : doubled b.cur b.max_delay ≤ b.max_delay = ground (arith, step) in
    let ih = after_delays_cur n (delay b).0 le k in
    let pow : 2 ^ suc n ≡ 2 * 2 ^ n = ground arith in
    rw (ih, step, pow) (cap_step b.cur b.max_delay (2 ^ n) (pow_pos n))

-- However often ShouldWarn is asked in one streak of failures, it warns once, on the first call; it
-- warns again after Reset.
pub warnings_once :
    (n k : ℕ) (b : Backoff)
    → b.failed ≡ false
    → (warnings (suc n) b ≡ 1)
      × ((should_warn b).1 ≡ true)
      × (warnings (suc k) (reset (should_warn b).0) ≡ 1)
unfolding reset
warnings_once n k b f =
    (warned n b f, rw (warn_yes b f) refl, warned k (reset (should_warn b).0) refl)
