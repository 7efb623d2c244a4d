-- ===== src/Notification/RateLimiter.antt =====
-- internal/notification/rate_limiter.go: the limit on the custom messages of a user.
use core_service.Prelude.{
  Bool, true, false, ◌||◌, none, some, List, [], ◌∷◌, ◌++◌, length, if◌then◌else◌,
}
use core_service.Prelude.Int.{ℤ, pos, ltb_ℤ, leb_ℤ, ◌-ℤ◌}
use core_service.Prelude.Maps.{Assoc, find, put}
use core_service.Text.{Text, text_eq}
use core_service.Lifecycle.Events.{Time}

-- time.Duration, in nanoseconds.
abbrev pub Duration : Type 0
Duration = ℤ

-- The field hit; the clock is the argument of `allow`.
abbrev pub RateLimiter : Type 0
RateLimiter = Assoc Text (List Time)

abbrev pub hits_of : RateLimiter → Text → List Time
hits_of r key = elim (find text_eq key r) [ none ↦ [] | some hits ↦ hits ]

-- The loop: the hits after the cutoff.
unfoldable pub kept : Time → List Time → List Time
kept cutoff [] = []
kept cutoff (t ∷ hits) = let rest = kept cutoff hits in if ltb_ℤ cutoff t then t ∷ rest else rest

-- Allow, at the instant that the clock shows.
unfoldable pub allow : RateLimiter → Text → ℤ → Duration → Time → Bool × RateLimiter
unfolding kept
allow r key limit window now =
    if leb_ℤ limit (pos 0) || leb_ℤ window (pos 0)
    then (false, r)
    else (let keep = kept (now -ℤ window) (hits_of r key) in
        if leb_ℤ limit (pos (length keep))
        then (false, put text_eq key keep r)
        else (true, put text_eq key (keep ++ (now ∷ [])) r))
