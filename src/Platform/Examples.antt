-- ===== src/Platform/Examples.antt =====
-- The default delays (internal/platform/share/backoff.go).
use elbot.Base.{◌≡◌, refl, false, [], ◌∷◌, pos}
use elbot.Platform.Backoff.{Backoff, new_backoff, delay, delays, doubled}

abbrev defaults : Backoff
defaults = record { base = 3000000000; max_delay = 10000000000; cur = 3000000000; failed = false }

defaults-new : new_backoff (pos 0) (pos 0) ≡ defaults
unfolding new_backoff
defaults-new = refl

default_delays : delays 4 defaults ≡ 3000000000 ∷ (6000000000 ∷ (10000000000 ∷ (10000000000 ∷ [])))
unfolding delays delay doubled
default_delays = refl

-- A base above the default cap, with no cap of its own, starts above the cap that it gets.
above_cap : (new_backoff (pos 20000000000) (pos 0)).max_delay ≡ 10000000000
unfolding new_backoff
above_cap = refl
