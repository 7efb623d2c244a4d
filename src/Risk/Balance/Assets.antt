-- ===== src/Risk/Balance/Assets.antt =====
-- A symbol is its base asset followed by its quote asset.
use core_service.Prelude.{
  ◌≡◌, refl, sym, ◌≢◌, ◌⊎◌, inl, inr, true, List, [], ◌∷◌, ◌++◌, arith, length, ltb, Bool-cases,
}
use core_service.Text.{Text, text_eq→eq, text_eq_iff, text_eq_self, one_of, normal}
use core_service.Risk.Balance.{
  quote_assets, has_suffix, has_quote, trim_suffix, base_asset_in, quote_asset_in, base_asset,
  quote_asset,
}

trim_suffix-append : (s q : Text) → has_suffix s q ≡ true → trim_suffix s q ++ q ≡ s
unfolding has_suffix trim_suffix
trim_suffix-append [] q h = sym (text_eq→eq [] q h)
trim_suffix-append (c ∷ s) q h = ground (arith, text_eq_iff (c ∷ s) q, trim_suffix-append s q)

-- A text that another text is longer than completes it.
longer-ne-nil : (b q s : Text) → b ++ q ≡ s → ltb (length q) (length s) ≡ true → b ≢ []
longer-ne-nil [] q s e h n = ground arith
longer-ne-nil (c ∷ b) q s e h n = cc

-- What the two searches find in a list of quote assets.
abbrev IsSplit : Text → Text → Text → List Text → Type 0
IsSplit symbol base quote quotes =
    (base ++ quote ≡ symbol) × (base ≢ []) × (one_of quote quotes ≡ true)

IsSplit-in :
    (symbol : Text) (quotes : List Text)
    → ((base_asset_in symbol quotes ≡ []) × (quote_asset_in symbol quotes ≡ []))
      ⊎ IsSplit symbol (base_asset_in symbol quotes) (quote_asset_in symbol quotes) quotes
unfolding base_asset_in quote_asset_in has_quote one_of
IsSplit-in symbol [] = inl (refl, refl)
IsSplit-in symbol (quote ∷ quotes) = elim (Bool-cases (has_quote symbol quote)) [
  | inl found ↦ ground (
    arith,
    trim_suffix-append symbol quote,
    longer-ne-nil (trim_suffix symbol quote) quote symbol,
    text_eq_self quote,
  )
  | inr other ↦ ground (arith, IsSplit-in symbol quotes)
]

-- A symbol in upper case without blanks around it is its base asset followed by its quote asset,
-- the base asset is not empty and the quote asset is one of those known; or both are empty.
pub symbol_split :
    (symbol : Text)
    → ((base_asset symbol ≡ []) × (quote_asset symbol ≡ []))
      ⊎ ((base_asset symbol ++ quote_asset symbol ≡ normal symbol)
          × (base_asset symbol ≢ [])
          × (one_of (quote_asset symbol) quote_assets ≡ true))
unfolding base_asset quote_asset
symbol_split symbol = IsSplit-in (normal symbol) quote_assets
