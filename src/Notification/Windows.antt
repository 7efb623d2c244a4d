-- ===== src/Notification/Windows.antt =====
-- internal/notification/rate_limiter.go: no window of time has more grants than the limit.
use core_service.Prelude.{
  ℕ, suc, ◌+◌, ◌≤◌, ◌≡◌, refl, true, false, List, [], ◌∷◌, ◌++◌, arith, length, length-append,
  Bool-cases, inl, inr, if◌then◌else◌, ◌&&◌, ◌||◌,
}
use core_service.Prelude.Int.{ℤ, pos, pos_part, ltb_ℤ, leb_ℤ, ◌-ℤ◌, ◌≤ℤ◌, -ℤ_parts}
use core_service.Prelude.Maps.{put, find, find-put}
use core_service.Text.{Text, text_eq, text_eq_iff, text_eq_self, text_eq→eq}
use core_service.Lifecycle.Events.{Time}
use core_service.Notification.RateLimiter.{Duration, RateLimiter, hits_of, kept, allow}

-- A call of Allow.
pub record Call : Type 0 where
  pub key : Text
  pub limit : ℤ
  pub now : Time

-- How many of the instants are after the cutoff.
unfoldable pub count_after : Time → List Time → ℕ
count_after cutoff [] = 0
count_after cutoff (t ∷ ts) =
    let rest = count_after cutoff ts in if ltb_ℤ cutoff t then suc rest else rest

module _ (window : Duration) where
  -- The limiter after the calls, the latest of which is the first of the list.
  unfoldable pub after : List Call → RateLimiter
  after [] = []
  after (c ∷ calls) = (allow (after calls) c.key c.limit window c.now).1

  -- The instants of the calls that were granted to the key.
  unfoldable pub grants : Text → List Call → List Time
  grants key [] = []
  grants key (c ∷ calls) =
      let rest = grants key calls in
      if text_eq c.key key && (allow (after calls) c.key c.limit window c.now).0
      then c.now ∷ rest
      else rest

-- The clock does not go back, and no call of the key has a limit above the bound.
abbrev pub InOrder : Text → ℤ → Time → List Call → Type 0
InOrder key bound at [] = Unit
InOrder key bound at (c ∷ calls) =
    (c.now ≤ℤ at) × (text_eq c.key key ≡ true → c.limit ≤ℤ bound) × InOrder key bound c.now calls

count_after-le : (c : Time) (ts : List Time) → count_after c ts ≤ length ts
unfolding count_after
count_after-le c [] = omega arith
count_after-le c (t ∷ ts) = ground (arith, count_after-le c ts)

count_after-append :
    (c : Time) (ts us : List Time) → count_after c (ts ++ us) ≡ count_after c ts + count_after c us
unfolding count_after
count_after-append c [] us = omega arith
count_after-append c (t ∷ ts) us = ground (arith, count_after-append c ts us)

count_after-kept :
    (b c : Time) (ts : List Time) → b ≤ℤ c → count_after c (kept b ts) ≡ count_after c ts
unfolding count_after kept
count_after-kept b c [] h = refl
count_after-kept b c (t ∷ ts) h = ground (arith, count_after-kept b c ts h)

length_kept-count : (b : Time) (ts : List Time) → length (kept b ts) ≡ count_after b ts
unfolding kept count_after
length_kept-count b [] = refl
length_kept-count b (t ∷ ts) = ground (arith, length_kept-count b ts)

length-kept : (b : Time) (ts : List Time) → length (kept b ts) ≤ length ts
unfolding kept
length-kept b [] = omega arith
length-kept b (t ∷ ts) = ground (arith, length-kept b ts)

-- The hits of a key answer for its grants, at the instant of the latest call and later.
Accounts : ℕ → Duration → Time → List Time → List Time → Type 0
Accounts bound window at granted hits =
    (length hits ≤ bound)
    × ((c : Time) → at -ℤ window ≤ℤ c → count_after c granted ≡ count_after c hits)

hits_of-put :
    (r : RateLimiter) (key j : Text) (hits : List Time)
    → hits_of (put text_eq key hits r) j ≡ (if text_eq key j then hits else hits_of r j)
hits_of-put r key j hits = ground (arith, find-put text_eq text_eq_iff key j hits r)

later :
    (bound : ℕ) (window : Duration) (before at : Time) (granted hits : List Time)
    → before ≤ℤ at
    → Accounts bound window before granted hits
    → Accounts bound window at granted hits
unfolding Accounts
later bound window before at granted hits h acc =
    (acc.0, λ c g. acc.1 c (ground (arith, -ℤ_parts before window, -ℤ_parts at window, h, g)))

refused-Accounts :
    (bound : ℕ) (window : Duration) (now : Time) (granted hits : List Time)
    → Accounts bound window now granted hits
    → Accounts bound window now granted (kept (now -ℤ window) hits)
unfolding Accounts
refused-Accounts bound window now granted hits acc = (
  omega (arith, acc.0, length-kept (now -ℤ window) hits),
  λ c g. rw (count_after-kept (now -ℤ window) c hits g) (acc.1 c g),
)

granted-Accounts :
    (bound : ℕ) (window : Duration) (now : Time) (granted hits : List Time)
    → suc (length hits) ≤ bound
    → Accounts bound window now granted hits
    → Accounts bound window now (now ∷ granted) (hits ++ (now ∷ []))
unfolding Accounts count_after
granted-Accounts bound window now granted hits room acc = (
  omega (arith, length-append hits (now ∷ []), room),
  λ c g. ground (arith, count_after-append c hits (now ∷ []), acc.1 c g),
)

same_key :
    (bound : ℕ) (window : Duration) (r : RateLimiter) (key : Text) (limit : ℤ) (now : Time)
    (granted : List Time)
    → pos_part limit ≤ bound
    → Accounts bound window now granted (hits_of r key)
    → Accounts bound window now
        (if (allow r key limit window now).0 then now ∷ granted else granted)
        (hits_of (allow r key limit window now).1 key)
unfolding allow
same_key bound window r key limit now granted h acc =
    let keep = kept (now -ℤ window) (hits_of r key) in
    let refused = refused-Accounts bound window now granted (hits_of r key) acc in
    elim (Bool-cases (leb_ℤ limit (pos 0) || leb_ℤ window (pos 0))) [
      | inl off ↦ rw off acc
      | inr on ↦ elim (Bool-cases (leb_ℤ limit (pos (length keep)))) [
        | inl full ↦ rw (on, full, hits_of-put r key key keep, text_eq_self key) refused
        | inr room ↦
            rw (on, room, hits_of-put r key key (keep ++ (now ∷ [])), text_eq_self key)
              (granted-Accounts bound window now granted keep (ground arith) refused)
      ]
    ]

other_key :
    (window : Duration) (r : RateLimiter) (key j : Text) (limit : ℤ) (now : Time)
    → text_eq j key ≡ false
    → hits_of (allow r j limit window now).1 key ≡ hits_of r key
unfolding allow
other_key window r key j limit now h =
    let keep = kept (now -ℤ window) (hits_of r j) in
    ground (arith, h, hits_of-put r j key keep, hits_of-put r j key (keep ++ (now ∷ [])))

grants-Accounts :
    (window : Duration) (key : Text) (bound : ℤ) (calls : List Call) (at : Time)
    → InOrder key bound at calls
    → Accounts
        (pos_part bound)
        window
        at
        (grants window key calls)
        (hits_of (after window calls) key)
unfolding grants after Accounts count_after find
grants-Accounts window key bound [] at order = (omega arith, λ c g. omega arith)
grants-Accounts window key bound (c ∷ calls) at (le, limited, order) =
    let acc = grants-Accounts window key bound calls c.now order in
    later (pos_part bound) window c.now at _ _ le (elim (Bool-cases (text_eq c.key key)) [
      | inl same ↦
          rw (text_eq→eq c.key key same, text_eq_self key)
            (same_key (pos_part bound) window (after window calls) key c.limit c.now
              (grants window key calls) (ground (arith, limited same)) acc)
      | inr other ↦
          rw (other, other_key window (after window calls) key c.key c.limit c.now other) acc
    ])

-- When the calls of Allow share a window, the clock does not go back from one to the next or to an
-- instant, and no call of a key has a limit above a bound, then the calls granted to that key in the
-- window that ends at the instant are at most the bound, and none when it is negative, whatever
-- the calls of the other keys.
pub grants-le_limit :
    (window : Duration) (key : Text) (bound : ℤ) (calls : List Call) (at : Time)
    → InOrder key bound at calls
    → count_after (at -ℤ window) (grants window key calls) ≤ pos_part bound
unfolding Accounts
grants-le_limit window key bound calls at order =
    let acc = grants-Accounts window key bound calls at order in
    let hits = hits_of (after window calls) key in
    omega (arith, acc.0, acc.1 (at -ℤ window) (omega arith), count_after-le (at -ℤ window) hits)

-- When the calls of Allow share a window and the clock does not go back from one to the next or to
-- the instant of one more call, that call is granted exactly when its limit and the window are
-- positive and fewer calls than its limit were granted to its key in the window before it (the
-- earlier calls of the key have limits up to some bound).
pub allow-room :
    (window : Duration) (key : Text) (bound : ℤ) (calls : List Call) (limit : ℤ) (now : Time)
    → InOrder key bound now calls
    → (allow (after window calls) key limit window now).0 ≡ (
        ltb_ℤ (pos 0) limit
        && (ltb_ℤ (pos 0) window
            && ltb_ℤ (pos (count_after (now -ℤ window) (grants window key calls))) limit))
unfolding allow Accounts
allow-room window key bound calls limit now order =
    let acc = grants-Accounts window key bound calls now order in
    let hits = hits_of (after window calls) key in
    ground (arith, acc.1 (now -ℤ window) (omega arith), length_kept-count (now -ℤ window) hits)
