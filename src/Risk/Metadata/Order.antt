-- ===== src/Risk/Metadata/Order.antt =====
-- internal/order/risk/gate.go: what is found under a symbol after the merge of symbol rules.
use core_service.Prelude.{
  ◌≤◌, count_if, ap, ◌≡◌, refl, sym, ◌∙◌, ◌⊎◌, inl, inr, true, Option, none, some, List, [], ◌∷◌,
  map, arith, if◌then◌else◌,
}
use mathlib.Core.List.{Permᴰ}
use core_service.Text.{Text, is_empty, text_eq, text_eq_iff, normal, trim_space, to_upper}
use core_service.Float.{Float64}
use core_service.Risk.Types.{FuturesRiskMetadata}
use core_service.Risk.Balance.{metadata_of}
use core_service.Risk.Metadata.{
  BySymbol, find, put, index_primary, no_metadata, zero_or, merge_item, merge_secondary,
  merge_risk_metadata,
}

module _ {F : Type 0} where
  -- Each entry stands under its own symbol, and no symbol has two.
  abbrev pub IsIndex : BySymbol F → Type 0
  IsIndex [] = Unit
  IsIndex ((k, item) ∷ m) = (normal item.symbol ≡ k) × (find k m ≡ none) × IsIndex m

  find-put :
      (key j : Text) (item : FuturesRiskMetadata F) (m : BySymbol F)
      → find j (put key item m) ≡ (if text_eq key j then some item else find j m)
  unfolding find put
  find-put key j item [] = refl
  find-put key j item ((k, old) ∷ m) =
      ground (arith, text_eq_iff key j, text_eq_iff k key, text_eq_iff k j, find-put key j item m)

  put-IsIndex :
      (key : Text) (item : FuturesRiskMetadata F) (m : BySymbol F)
      → normal item.symbol ≡ key
      → IsIndex m
      → IsIndex (put key item m)
  unfolding find put
  put-IsIndex key item [] e h = ground arith
  put-IsIndex key item ((k, old) ∷ m) e h = ground (
    arith,
    text_eq_iff k key,
    text_eq_iff key k,
    find-put key k item m,
    put-IsIndex key item m e h.2,
  )

  -- In an index, what the list of the entries' values has under a symbol is what the index has.
  metadata_of-find :
      (m : BySymbol F) (symbol : Text)
      → IsIndex m
      → metadata_of (map (λ e. e.1) m) symbol ≡ find symbol m
  unfolding metadata_of find
  metadata_of-find [] symbol h = refl
  metadata_of-find ((k, item) ∷ m) symbol h = ground (arith, metadata_of-find m symbol h.2)

  IsIndex-find :
      (m : BySymbol F) (key : Text) {item : FuturesRiskMetadata F}
      → IsIndex m
      → find key m ≡ some item
      → normal item.symbol ≡ key
  unfolding find
  IsIndex-find [] key {item} h e = cc
  IsIndex-find ((k, old) ∷ m) key {item} h e =
      ground (arith, text_eq_iff k key, IsIndex-find m key {item = item} h.2)

  -- An index in another order is an index, and finds the same.
  perm-find :
      {m m' : BySymbol F}
      → Permᴰ m m'
      → IsIndex m
      → IsIndex m' × ((symbol : Text) → find symbol m' ≡ find symbol m)
  unfolding find
  perm-find Permᴰ.nil h = (tt, λ symbol. refl)
  perm-find (Permᴰ.cons {a} {b} {l₁ = m} {l₂ = m'} e p) h =
      let (index, same) = perm-find p h.2 in
      (ground (arith, same b.0), λ symbol. ground (arith, same symbol))
  perm-find (Permᴰ.swap {a} {b} {a'} {b'} {l} e e') h = (
    ground (arith, text_eq_iff a.0 b.0, text_eq_iff b.0 a.0),
    λ symbol. ground (
      arith,
      text_eq_iff a.0 symbol,
      text_eq_iff b.0 symbol,
      text_eq_iff b.0 a.0,
      text_eq_iff a.0 b.0,
    ),
  )
  perm-find (Permᴰ.trans p q) h =
      let (index, same) = perm-find p h in
      let (index', same') = perm-find q index in (index', λ symbol. same' symbol ∙ same symbol)

  index_primary-IsIndex :
      (items : List (FuturesRiskMetadata F)) (m : BySymbol F)
      → IsIndex m
      → IsIndex (index_primary items m)
  unfolding index_primary
  index_primary-IsIndex [] m h = h
  index_primary-IsIndex (item ∷ items) m h =
      index_primary-IsIndex items (put (normal item.symbol) item m)
        (put-IsIndex (normal item.symbol) item m refl h)

  -- The last item of a list that names the symbol.
  abbrev pub last_metadata : List (FuturesRiskMetadata F) → Text → Option (FuturesRiskMetadata F)
  last_metadata [] symbol = none
  last_metadata (item ∷ items) symbol = elim (last_metadata items symbol) [
    | some later ↦ some later
    | none ↦ if text_eq (normal item.symbol) symbol then some item else none
  ]

  last_metadata-none :
      (items : List (FuturesRiskMetadata F)) (symbol : Text)
      → count_if (λ entry. text_eq (normal entry.symbol) symbol) items ≡ 0
      → last_metadata items symbol ≡ none
  last_metadata-none [] symbol h = refl
  last_metadata-none (item ∷ items) symbol h = ground (arith, last_metadata-none items symbol)

  -- The last entry of a symbol that has one entry is its first.
  last_metadata-once :
      (items : List (FuturesRiskMetadata F)) (symbol : Text)
      → count_if (λ entry. text_eq (normal entry.symbol) symbol) items ≤ 1
      → last_metadata items symbol ≡ metadata_of items symbol
  unfolding metadata_of
  last_metadata-once [] symbol h = refl
  last_metadata-once (item ∷ items) symbol h =
      ground (arith, last_metadata-none items symbol, last_metadata-once items symbol)

  abbrev or_else :
      Option (FuturesRiskMetadata F)
      → Option (FuturesRiskMetadata F)
      → Option (FuturesRiskMetadata F)
  or_else (some x) y = some x
  or_else none y = y

  find-index_primary :
      (items : List (FuturesRiskMetadata F)) (m : BySymbol F) (symbol : Text)
      → find symbol (index_primary items m) ≡ or_else (last_metadata items symbol) (find symbol m)
  unfolding index_primary
  find-index_primary [] m symbol = refl
  find-index_primary (item ∷ items) m symbol = ground (
    arith,
    find-put (normal item.symbol) symbol item m,
    find-index_primary items (put (normal item.symbol) item m) symbol,
  )

normal-nil : normal [] ≡ []
unfolding normal to_upper trim_space
normal-nil = refl

trim_space-nil : trim_space [] ≡ []
unfolding trim_space
trim_space-nil = refl

blank-normal : (s : Text) → is_empty (trim_space s) ≡ true → normal s ≡ []
unfolding normal to_upper
blank-normal s h = ground arith

module _ {F : Type 0} ⦃fl : Float64 F⦄ where
  merge_item-symbol :
      (merged item : FuturesRiskMetadata F)
      → (normal merged.symbol ≡ normal item.symbol) ⊎ (merged ≡ no_metadata)
      → normal (merge_item merged item).symbol ≡ normal item.symbol
  unfolding merge_item
  merge_item-symbol merged item h =
      ground
        (arith, blank-normal merged.symbol, blank-normal item.symbol, normal-nil, trim_space-nil)

  merge_secondary-IsIndex :
      (items : List (FuturesRiskMetadata F)) (m : BySymbol F)
      → IsIndex m
      → IsIndex (merge_secondary items m)
  unfolding merge_secondary
  merge_secondary-IsIndex [] m h = h
  merge_secondary-IsIndex (item ∷ items) m h =
      let key = normal item.symbol in
      merge_secondary-IsIndex items (put key (merge_item (zero_or (find key m)) item) m) (
        put-IsIndex key (merge_item (zero_or (find key m)) item) m
          (merge_item-symbol (zero_or (find key m)) item (known (find key m) refl)) h)
    where
      known :
          (o : Option (FuturesRiskMetadata F))
          → find (normal item.symbol) m ≡ o
          → (normal (zero_or o).symbol ≡ normal item.symbol) ⊎ (zero_or o ≡ no_metadata)
      known none e = inr refl
      known (some old) e = inl (IsIndex-find m (normal item.symbol) h e)

  -- The leverage that is found under a symbol, zero if nothing is.
  abbrev pub leverage_of : Option (FuturesRiskMetadata F) → F
  leverage_of o = (zero_or o).configured_leverage

  leverage-merge_secondary :
      (items : List (FuturesRiskMetadata F)) (m : BySymbol F) (symbol : Text)
      → leverage_of (find symbol (merge_secondary items m)) ≡ leverage_of (find symbol m)
  unfolding merge_secondary merge_item
  leverage-merge_secondary [] m symbol = refl
  leverage-merge_secondary (item ∷ items) m symbol =
      let key = normal item.symbol in
      let next = put key (merge_item (zero_or (find key m)) item) m in
      ground (
        arith,
        text_eq_iff key symbol,
        find-put key symbol (merge_item (zero_or (find key m)) item) m,
        leverage-merge_secondary items next symbol,
      )

  module _ (range : BySymbol F → BySymbol F) (visits : (m : BySymbol F) → Permᴰ m (range m)) where
    merge_lookup :
        (primary items : List (FuturesRiskMetadata F)) (item : FuturesRiskMetadata F)
        (symbol : Text)
        → metadata_of (merge_risk_metadata range primary (item ∷ items)) symbol
          ≡ find symbol (merge_secondary (item ∷ items) (index_primary primary []))
    unfolding merge_risk_metadata
    merge_lookup primary items item symbol =
        let m = merge_secondary (item ∷ items) (index_primary primary []) in
        let (index, same) = perm-find (visits m) (
          merge_secondary-IsIndex (item ∷ items) (index_primary primary [])
            (index_primary-IsIndex primary [] tt)) in
        metadata_of-find (range m) symbol index ∙ same symbol

    leverage_of_last :
        (primary items : List (FuturesRiskMetadata F)) (item : FuturesRiskMetadata F)
        (symbol : Text)
        → leverage_of (metadata_of (merge_risk_metadata range primary (item ∷ items)) symbol)
          ≡ leverage_of (last_metadata primary symbol)
    unfolding find
    leverage_of_last primary items item symbol = ground (
      arith,
      merge_lookup primary items item symbol,
      leverage-merge_secondary (item ∷ items) (index_primary primary []) symbol,
      find-index_primary primary [] symbol,
    )

    -- Where at most one entry of the snapshot is for a symbol, the leverage that the gate finds for
    -- the symbol is the same with the exchange's rules, however many there are, as without them, in
    -- whatever order the map is ranged over.
    pub merge_keeps_leverage :
        (primary secondary : List (FuturesRiskMetadata F)) (symbol : Text)
        → count_if (λ entry. text_eq (normal entry.symbol) symbol) primary ≤ 1
        → leverage_of (metadata_of (merge_risk_metadata range primary secondary) symbol)
          ≡ leverage_of (metadata_of primary symbol)
    unfolding merge_risk_metadata
    merge_keeps_leverage primary [] symbol once = refl
    merge_keeps_leverage primary (item ∷ items) symbol once =
        leverage_of_last primary items item symbol
        ∙ ap leverage_of (last_metadata-once primary symbol once)

  -- Two orders of map iteration give the gate the same metadata for every symbol.
  pub merge_order_irrelevant :
      (range range' : BySymbol F → BySymbol F)
      → ((m : BySymbol F) → Permᴰ m (range m))
      → ((m : BySymbol F) → Permᴰ m (range' m))
      → (primary secondary : List (FuturesRiskMetadata F)) (symbol : Text)
      → metadata_of (merge_risk_metadata range primary secondary) symbol
        ≡ metadata_of (merge_risk_metadata range' primary secondary) symbol
  unfolding merge_risk_metadata
  merge_order_irrelevant range range' visits visits' primary [] symbol = refl
  merge_order_irrelevant range range' visits visits' primary (item ∷ items) symbol =
      merge_lookup range visits primary items item symbol
      ∙ sym (merge_lookup range' visits' primary items item symbol)
