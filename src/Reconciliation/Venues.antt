-- ===== src/Reconciliation/Venues.antt =====
-- internal/reconciliation/service.go: CompareVenues.
pub mod OneSided
use core_service.Prelude.{
  Bool, true, false, not, ◌&&◌, ◌||◌, Option, none, some, List, [], ◌∷◌, ◌++◌, if◌then◌else◌,
}
use core_service.Prelude.Int.{ℤ, eqb_ℤ}
use core_service.Prelude.Maps.{Assoc, find, put, keys}
use core_service.Text.{Text, codes}
use core_service.Float.{Float64, zero, one}
use core_service.Domain.Wallet.{OnlineAccountInfo}
use core_service.Reconciliation.Tiers.{hard, rule, FieldDiff, ReconciliationThresholds}
use core_service.Reconciliation.Keys.{PositionKey}
use core_service.Reconciliation.Compare.{compare, bool_to_float}

-- internal/domain/model.go
pub record VenueWalletSnapshot (F : Type 0) : Type 0 where
  pub venue_id : ℤ
  pub exchange : ℤ
  pub environment : ℤ
  pub market : ℤ
  pub snapshot : OnlineAccountInfo F

-- A snapshot that is none is the zero value, which the code leaves in place.
pub record VenueReconciliationDiff (F : Type 0) : Type 0 where
  pub venue_id : ℤ
  pub exchange : ℤ
  pub environment : ℤ
  pub market : ℤ
  pub exchange_snapshot : Option (OnlineAccountInfo F)
  pub local_snapshot : Option (OnlineAccountInfo F)
  pub field_diffs : List (FieldDiff F)
  pub advisory_diffs : List (FieldDiff F)
  pub hard_pass : Bool
  pub soft_pass : Bool

module _ {F : Type 0} where
  venues_from :
      List (VenueWalletSnapshot F)
      → Assoc ℤ (VenueWalletSnapshot F)
      → Assoc ℤ (VenueWalletSnapshot F)
  venues_from [] m = m
  venues_from (item ∷ items) m = venues_from items (put eqb_ℤ item.venue_id item m)

  unfoldable pub index_venues : List (VenueWalletSnapshot F) → Assoc ℤ (VenueWalletSnapshot F)
  unfolding venues_from
  index_venues items = venues_from items []

  add_venue_ids : List (VenueWalletSnapshot F) → Assoc ℤ Bool → Assoc ℤ Bool
  add_venue_ids [] m = m
  add_venue_ids (item ∷ items) m = add_venue_ids items (put eqb_ℤ item.venue_id true m)

  -- Each venue of either side, once.
  unfoldable pub venue_ids : List (VenueWalletSnapshot F) → List (VenueWalletSnapshot F) → List ℤ
  unfolding add_venue_ids
  venue_ids local exchange = keys (add_venue_ids exchange (add_venue_ids local []))

module _ {F : Type 0} ⦃fl : Float64 F⦄ where
  venue_missing : Bool → Bool → FieldDiff F
  unfolding bool_to_float
  venue_missing on_exchange on_local = record {
    field = codes "venue.exists";
    severity = hard;
    exchange = bool_to_float on_exchange;
    local = bool_to_float on_local;
    diff_abs = one;
    diff_ratio = zero;
    threshold = rule (codes "exact_match_required");
    passed = false;
  }

  one_sided :
      ℤ
      → VenueWalletSnapshot F
      → (exchange_snapshot local_snapshot : Option (OnlineAccountInfo F))
      → (on_exchange on_local : Bool) → VenueReconciliationDiff F
  unfolding venue_missing
  one_sided id meta exchange_snapshot local_snapshot on_exchange on_local = record {
    venue_id = id;
    exchange = meta.exchange;
    environment = meta.environment;
    market = meta.market;
    exchange_snapshot = exchange_snapshot;
    local_snapshot = local_snapshot;
    field_diffs = venue_missing on_exchange on_local ∷ [];
    advisory_diffs = [];
    hard_pass = false;
    soft_pass = false;
  }

  -- One venue; an id that neither side has does not arise from venue_ids, and adds nothing.
  unfoldable pub compare_venue :
      (List PositionKey → List PositionKey)
      → ReconciliationThresholds F
      → ℤ
      → (local exchange : Option (VenueWalletSnapshot F)) → List (VenueReconciliationDiff F)
  unfolding one_sided
  compare_venue range t id none none = []
  compare_venue range t id (some l) none = one_sided id l none (some l.snapshot) false true ∷ []
  compare_venue range t id none (some e) = one_sided id e (some e.snapshot) none true false ∷ []
  compare_venue range t id (some l) (some e) =
      let result = compare range l.snapshot e.snapshot t in
      record {
        venue_id = id;
        exchange = l.exchange;
        environment = l.environment;
        market = l.market;
        exchange_snapshot = some e.snapshot;
        local_snapshot = some l.snapshot;
        field_diffs = result.field_diffs;
        advisory_diffs = result.advisory_diffs;
        hard_pass = result.hard_pass;
        soft_pass = result.soft_pass;
      }
      ∷ []

  unfoldable pub compare_venue_ids :
      (List PositionKey → List PositionKey)
      → ReconciliationThresholds F
      → List ℤ
      → (local exchange : Assoc ℤ (VenueWalletSnapshot F)) → List (VenueReconciliationDiff F)
  compare_venue_ids range t [] local exchange = []
  compare_venue_ids range t (id ∷ ids) local exchange =
      compare_venue range t id (find eqb_ℤ id local) (find eqb_ℤ id exchange)
      ++ compare_venue_ids range t ids local exchange

  -- The orders in which the maps of positions and of venues are ranged over are parameters.
  unfoldable pub compare_venues :
      (range : List PositionKey → List PositionKey) (venue_range : List ℤ → List ℤ)
      (local exchange : List (VenueWalletSnapshot F))
      → ReconciliationThresholds F
      → List (VenueReconciliationDiff F)
  compare_venues range venue_range [] [] t = []
  compare_venues range venue_range local exchange t =
      compare_venue_ids range t (venue_range (venue_ids local exchange)) (index_venues local)
        (index_venues exchange)
