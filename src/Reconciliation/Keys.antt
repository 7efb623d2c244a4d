-- ===== src/Reconciliation/Keys.antt =====
-- internal/reconciliation/diff.go: the keys of positions and the maps they index.
pub mod Found
use core_service.Prelude.{Bool, true, ◌&&◌, ◌||◌, List, [], ◌∷◌, ◌++◌, if◌then◌else◌}
use core_service.Prelude.Maps.{Assoc, put, keys}
use core_service.Text.{Text, codes, is_empty, text_eq, to_upper, normal, equal_fold}
use core_service.Domain.Wallet.{FuturesPosition, FuturesRiskMetadata}

pub record PositionKey : Type 0 where
  pub symbol : Text
  pub side : Text

abbrev pub key_eq : PositionKey → PositionKey → Bool
key_eq a b = text_eq a.symbol b.symbol && text_eq a.side b.side

unfoldable pub label : PositionKey → Text
label k =
    if is_empty k.side || equal_fold k.side (codes "BOTH")
    then k.symbol
    else k.symbol ++ (codes "/" ++ to_upper k.side)

unfoldable pub normalize_position_side : Text → Text
normalize_position_side side = let s = normal side in if is_empty s then codes "BOTH" else s

module _ {F : Type 0} where
  unfoldable pub position_key : FuturesPosition F → PositionKey
  unfolding normalize_position_side
  position_key p = record {
    symbol = to_upper p.symbol;
    side = normalize_position_side p.position_side;
  }

  index_from :
      List (FuturesPosition F)
      → Assoc PositionKey (FuturesPosition F)
      → Assoc PositionKey (FuturesPosition F)
  index_from [] m = m
  index_from (p ∷ ps) m = index_from ps (put key_eq (position_key p) p m)

  -- A later position replaces an earlier one of its key.
  unfoldable pub index_positions : List (FuturesPosition F) → Assoc PositionKey (FuturesPosition F)
  unfolding index_from
  index_positions ps = index_from ps []

  metadata_from :
      List (FuturesRiskMetadata F)
      → Assoc Text (FuturesRiskMetadata F)
      → Assoc Text (FuturesRiskMetadata F)
  metadata_from [] m = m
  metadata_from (item ∷ items) m = metadata_from items (put text_eq (to_upper item.symbol) item m)

  -- The exchange's metadata replaces the local.
  unfoldable pub index_risk_metadata :
      List (FuturesRiskMetadata F)
      → List (FuturesRiskMetadata F)
      → Assoc Text (FuturesRiskMetadata F)
  unfolding metadata_from
  index_risk_metadata exchange_meta local_meta =
      metadata_from exchange_meta (metadata_from local_meta [])

-- The keys of both maps, each of them once.
add_keys : List PositionKey → Assoc PositionKey Bool → Assoc PositionKey Bool
add_keys [] m = m
add_keys (k ∷ ks) m = add_keys ks (put key_eq k true m)

unfoldable pub union_keys : List PositionKey → List PositionKey → List PositionKey
unfolding add_keys
union_keys ks others = keys (add_keys others (add_keys ks []))
