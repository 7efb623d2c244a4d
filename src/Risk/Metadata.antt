-- ===== src/Risk/Metadata.antt =====
-- internal/order/risk/gate.go: the symbol rules of the exchange merged into the snapshot's.
pub mod Order
use core_service.Prelude.{Bool, Option, none, some, List, [], ◌∷◌, ◌++◌, map, if◌then◌else◌}
use core_service.Text.{Text, is_empty, text_eq, normal, trim_space}
use core_service.Float.{Float64, lt, zero}
use core_service.Risk.Types.{FuturesRiskMetadata}

-- The map bySymbol, its keys in the order of their first writes.
abbrev pub BySymbol : Type 0 → Type 0
BySymbol F = List (Text × FuturesRiskMetadata F)

-- The first text that is not blank.
unfoldable pub first_non_empty_string : List Text → Text
first_non_empty_string [] = []
first_non_empty_string (s ∷ ts) = if is_empty (trim_space s) then first_non_empty_string ts else s

module _ {F : Type 0} where
  unfoldable pub find : Text → BySymbol F → Option (FuturesRiskMetadata F)
  find key [] = none
  find key ((k, item) ∷ m) = if text_eq k key then some item else find key m

  unfoldable pub put : Text → FuturesRiskMetadata F → BySymbol F → BySymbol F
  put key item [] = (key, item) ∷ []
  put key item ((k, old) ∷ m) = if text_eq k key then (key, item) ∷ m else (k, old) ∷ put key item m

  unfoldable pub index_primary : List (FuturesRiskMetadata F) → BySymbol F → BySymbol F
  unfolding put
  index_primary [] m = m
  index_primary (item ∷ items) m = index_primary items (put (normal item.symbol) item m)

module _ {F : Type 0} ⦃fl : Float64 F⦄ where
  abbrev pub no_metadata : FuturesRiskMetadata F
  no_metadata = record {
    symbol = [];
    configured_leverage = zero;
    step_size = zero;
    tick_size = zero;
    min_qty = zero;
    min_notional = zero;
  }

  abbrev pub zero_or : Option (FuturesRiskMetadata F) → FuturesRiskMetadata F
  zero_or none = no_metadata
  zero_or (some item) = item

  abbrev positive_or : F → F → F
  positive_or new old = if lt zero new then new else old

  -- A rule replaces what it states with a positive number.
  unfoldable pub merge_item : FuturesRiskMetadata F → FuturesRiskMetadata F → FuturesRiskMetadata F
  unfolding first_non_empty_string
  merge_item merged item = record merged {
    symbol = first_non_empty_string (merged.symbol ∷ item.symbol ∷ []);
    step_size = positive_or item.step_size merged.step_size;
    tick_size = positive_or item.tick_size merged.tick_size;
    min_qty = positive_or item.min_qty merged.min_qty;
    min_notional = positive_or item.min_notional merged.min_notional;
  }

  unfoldable pub merge_secondary : List (FuturesRiskMetadata F) → BySymbol F → BySymbol F
  unfolding merge_item
  merge_secondary [] m = m
  merge_secondary (item ∷ items) m =
      let key = normal item.symbol in
      merge_secondary items (put key (merge_item (zero_or (find key m)) item) m)

  -- The order in which Go ranges over the map is the parameter `range`.
  unfoldable pub merge_risk_metadata :
      (BySymbol F → BySymbol F)
      → List (FuturesRiskMetadata F)
      → List (FuturesRiskMetadata F)
      → List (FuturesRiskMetadata F)
  unfolding merge_secondary index_primary
  merge_risk_metadata range primary [] = primary
  merge_risk_metadata range primary (item ∷ items) =
      map (λ e. e.1) (range (merge_secondary (item ∷ items) (index_primary primary [])))
