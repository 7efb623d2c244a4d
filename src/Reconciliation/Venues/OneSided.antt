-- ===== src/Reconciliation/Venues/OneSided.antt =====
-- internal/reconciliation/service.go: a venue that only one side reports.
use core_service.Prelude.{
  inl, inr, ◌⊎◌, Bool, true, false, Option, none, some, List, [], ◌∷◌, ◌++◌, all, any, all-append,
  ◌≡◌, ◌∙◌, ◌||◌, not, arith, refl, Bool-cases,
}
use core_service.Prelude.Int.{ℤ, eqb_ℤ, eqb_ℤ_iff}
use core_service.Prelude.Maps.{
  Assoc, find, put, keys, has-put, find-absent, find-present, any-present,
}
use core_service.Float.{Float64}
use core_service.Reconciliation.Tiers.{ReconciliationThresholds}
use core_service.Reconciliation.Keys.{PositionKey}
use core_service.Reconciliation.Venues.{
  VenueWalletSnapshot, venues_from, add_venue_ids, index_venues, venue_ids, compare_venue,
  compare_venue_ids, compare_venues,
}

-- The id is among the ids.
abbrev pub has : ℤ → List ℤ → Bool
has id ids = any (λ i. eqb_ℤ i id) ids

-- A side reports the venue.
abbrev pub reports : {F : Type 0} → ℤ → List (VenueWalletSnapshot F) → Bool
reports id items = any (λ item. eqb_ℤ item.venue_id id) items

append_fails :
    {A : Type 0} (p : A → Bool) (xs ys : List A)
    → (all p xs ≡ false) ⊎ (all p ys ≡ false)
    → all p (xs ++ ys) ≡ false
append_fails p xs ys e = ground (arith, all-append p xs ys)

later_one :
    (ids : List ℤ) (p : ℤ → Bool) (id : ℤ)
    → any p (id ∷ ids) ≡ true
    → p id ≡ false
    → any p ids ≡ true
later_one ids p id h e = ground arith

module _ {F : Type 0} where
  unfoldable pub is_one_sided :
      Option (VenueWalletSnapshot F) → Option (VenueWalletSnapshot F) → Bool
  is_one_sided none none = false
  is_one_sided none (some e) = true
  is_one_sided (some l) none = true
  is_one_sided (some l) (some e) = false

any_of_nothing :
    (F : Type 0) (ids : List ℤ)
    → any
        (λ id.
          is_one_sided
            (find eqb_ℤ id (index_venues {F = F} []))
            (find eqb_ℤ id (index_venues {F = F} [])))
        ids
      ≡ false
unfolding is_one_sided index_venues find
any_of_nothing F [] = refl
any_of_nothing F (id ∷ ids) = any_of_nothing F ids

module _ {F : Type 0} ⦃fl : Float64 F⦄ where
  venue_fails :
      (range : List PositionKey → List PositionKey) (t : ReconciliationThresholds F) (id : ℤ)
      (l e : Option (VenueWalletSnapshot F))
      → is_one_sided l e ≡ true
      → (all (λ d. d.hard_pass) (compare_venue range t id l e) ≡ false)
        × (all (λ d. d.soft_pass) (compare_venue range t id l e) ≡ false)
  unfolding is_one_sided compare_venue
  venue_fails range t id none none h = ground arith
  venue_fails range t id none (some e) h = (refl, refl)
  venue_fails range t id (some l) none h = (refl, refl)
  venue_fails range t id (some l) (some e) h = ground arith

  venue_ids_fail :
      (range : List PositionKey → List PositionKey) (t : ReconciliationThresholds F) (ids : List ℤ)
      (local exchange : Assoc ℤ (VenueWalletSnapshot F))
      → any (λ id. is_one_sided (find eqb_ℤ id local) (find eqb_ℤ id exchange)) ids ≡ true
      → (all (λ d. d.hard_pass) (compare_venue_ids range t ids local exchange) ≡ false)
        × (all (λ d. d.soft_pass) (compare_venue_ids range t ids local exchange) ≡ false)
  unfolding compare_venue_ids
  venue_ids_fail range t [] local exchange h = ground arith
  venue_ids_fail range t (id ∷ ids) local exchange h =
      elim (Bool-cases (is_one_sided (find eqb_ℤ id local) (find eqb_ℤ id exchange))) [
        | inl now ↦
            let fails = venue_fails range t id (find eqb_ℤ id local) (find eqb_ℤ id exchange) now in
            (
              append_fails (λ d. d.hard_pass) (compare_venue range t id _ _)
                  (compare_venue_ids range t ids local exchange) (inl fails.0),
              append_fails (λ d. d.soft_pass) (compare_venue range t id _ _)
                  (compare_venue_ids range t ids local exchange) (inl fails.1),
            )
        | inr later ↦
            let fails = venue_ids_fail range t ids local exchange (later_one ids _ id h later) in
            (
              append_fails (λ d. d.hard_pass) (compare_venue range t id _ _)
                  (compare_venue_ids range t ids local exchange) (inr fails.0),
              append_fails (λ d. d.soft_pass) (compare_venue range t id _ _)
                  (compare_venue_ids range t ids local exchange) (inr fails.1),
            )
      ]

  ranged_venue_fails :
      (range : List PositionKey → List PositionKey) (venue_range : List ℤ → List ℤ)
      (local exchange : List (VenueWalletSnapshot F)) (t : ReconciliationThresholds F)
      → any
          (λ id.
            is_one_sided
              (find eqb_ℤ id (index_venues local))
              (find eqb_ℤ id (index_venues exchange)))
          (venue_range (venue_ids local exchange))
        ≡ true
      → (all (λ d. d.hard_pass) (compare_venues range venue_range local exchange t) ≡ false)
        × (all (λ d. d.soft_pass) (compare_venues range venue_range local exchange t) ≡ false)
  unfolding compare_venues
  ranged_venue_fails range venue_range [] [] t h =
      ground (arith, any_of_nothing F (venue_range (venue_ids {F = F} [] [])))
  ranged_venue_fails range venue_range [] (e ∷ es) t h = venue_ids_fail range t _ _ _ h
  ranged_venue_fails range venue_range (l ∷ ls) exchange t h = venue_ids_fail range t _ _ _ h

  has-venues_from :
      (id : ℤ) (items : List (VenueWalletSnapshot F)) (m : Assoc ℤ (VenueWalletSnapshot F))
      → has id (keys (venues_from items m)) ≡ (reports id items || has id (keys m))
  unfolding venues_from
  has-venues_from id [] m = refl
  has-venues_from id (item ∷ items) m = ground (
    arith,
    has-put eqb_ℤ eqb_ℤ_iff item.venue_id id item m,
    has-venues_from id items (put eqb_ℤ item.venue_id item m),
  )

  has-index_venues :
      (id : ℤ) (items : List (VenueWalletSnapshot F))
      → has id (keys (index_venues items)) ≡ reports id items
  unfolding index_venues
  has-index_venues id items = ground (arith, has-venues_from id items [])

  has-add_venue_ids :
      (id : ℤ) (items : List (VenueWalletSnapshot F)) (m : Assoc ℤ Bool)
      → has id (keys (add_venue_ids items m)) ≡ (reports id items || has id (keys m))
  unfolding add_venue_ids
  has-add_venue_ids id [] m = refl
  has-add_venue_ids id (item ∷ items) m = ground (
    arith,
    has-put eqb_ℤ eqb_ℤ_iff item.venue_id id true m,
    has-add_venue_ids id items (put eqb_ℤ item.venue_id true m),
  )

  has-venue_ids :
      (id : ℤ) (local exchange : List (VenueWalletSnapshot F))
      → has id (venue_ids local exchange) ≡ (reports id exchange || reports id local)
  unfolding venue_ids
  has-venue_ids id local exchange =
      ground (
        arith,
        has-add_venue_ids id exchange (add_venue_ids local []),
        has-add_venue_ids id local [],
      )

  -- A venue that one list reports and the other does not.
  reported-is_one_sided :
      (id : ℤ) (local exchange : List (VenueWalletSnapshot F))
      → reports id local ≡ not (reports id exchange)
      → is_one_sided (find eqb_ℤ id (index_venues local)) (find eqb_ℤ id (index_venues exchange))
        ≡ true
  unfolding is_one_sided
  reported-is_one_sided id local exchange h = elim (Bool-cases (reports id exchange)) [
    | inl there ↦
        let (e, found) =
          find-present eqb_ℤ eqb_ℤ_iff id (index_venues exchange)
            (has-index_venues id exchange ∙ there) in
        let missing =
          find-absent eqb_ℤ eqb_ℤ_iff id (index_venues local)
            (has-index_venues id local ∙ ground (arith, h, there)) in
        rw (found, missing) refl
    | inr gone ↦
        let (l, found) =
          find-present eqb_ℤ eqb_ℤ_iff id (index_venues local)
            (has-index_venues id local ∙ ground (arith, h, gone)) in
        let missing =
          find-absent eqb_ℤ eqb_ℤ_iff id (index_venues exchange)
            (has-index_venues id exchange ∙ gone) in
        rw (found, missing) refl
  ]

  -- If exactly one of the two sides reports a venue, and the map of the venues' identifiers is ranged
  -- over so that its keys are visited and no others, the venues' diffs contain one that fails hard
  -- and one that fails soft, whatever the other venues hold.
  pub one_sided_venue_fails :
      (range : List PositionKey → List PositionKey) (venue_range : List ℤ → List ℤ)
      → ((ids : List ℤ) (id : ℤ) → has id (venue_range ids) ≡ has id ids)
      → (local exchange : List (VenueWalletSnapshot F)) (t : ReconciliationThresholds F) (id : ℤ)
      → reports id local ≡ not (reports id exchange)
      → (all (λ d. d.hard_pass) (compare_venues range venue_range local exchange t) ≡ false)
        × (all (λ d. d.soft_pass) (compare_venues range venue_range local exchange t) ≡ false)
  one_sided_venue_fails range venue_range visits local exchange t id h =
      ranged_venue_fails range venue_range local exchange t (
        any-present eqb_ℤ eqb_ℤ_iff
          (λ i.
            is_one_sided (find eqb_ℤ i (index_venues local)) (find eqb_ℤ i (index_venues exchange)))
          (venue_range (venue_ids local exchange)) id (reported-is_one_sided id local exchange h)
          (visits (venue_ids local exchange) id
            ∙ (has-venue_ids id local exchange ∙ ground (arith, h))))
