-- ===== src/Reconciliation/Keys/Found.antt =====
-- internal/reconciliation/diff.go: what the maps of positions hold, in terms of the positions.
use core_service.Prelude.{
  ◌≡◌, ◌↔◌, refl, Bool, true, ◌||◌, any, Option, none, some, List, [], ◌∷◌, arith, if◌then◌else◌,
}
use core_service.Prelude.Maps.{Assoc, find, put, keys, find-put, has-put}
use core_service.Text.{text_eq_iff}
use core_service.Domain.Wallet.{FuturesPosition}
use core_service.Reconciliation.Keys.{
  PositionKey, key_eq, position_key, index_from, index_positions, add_keys, union_keys,
}

pub key_eq_iff : (a b : PositionKey) → (key_eq a b ≡ true) ↔ (a ≡ b)
key_eq_iff a b = ground (arith, text_eq_iff a.symbol b.symbol, text_eq_iff a.side b.side)

-- The key is among the keys.
abbrev pub has : PositionKey → List PositionKey → Bool
has k ks = any (λ j. key_eq j k) ks

module _ {F : Type 0} where
  -- The last position of a list that stands under a key.
  abbrev pub last_position : PositionKey → List (FuturesPosition F) → Option (FuturesPosition F)
  last_position k [] = none
  last_position k (p ∷ ps) = elim (last_position k ps) [
    | some later ↦ some later
    | none ↦ if key_eq (position_key p) k then some p else none
  ]

  abbrev or_else :
      Option (FuturesPosition F) → Option (FuturesPosition F) → Option (FuturesPosition F)
  or_else (some x) y = some x
  or_else none y = y

  find-index_from :
      (k : PositionKey) (ps : List (FuturesPosition F)) (m : Assoc PositionKey (FuturesPosition F))
      → find key_eq k (index_from ps m) ≡ or_else (last_position k ps) (find key_eq k m)
  unfolding index_from
  find-index_from k [] m = refl
  find-index_from k (p ∷ ps) m = ground (
    arith,
    find-put key_eq key_eq_iff (position_key p) k p m,
    find-index_from k ps (put key_eq (position_key p) p m),
  )

  pub find-index_positions :
      (k : PositionKey) (ps : List (FuturesPosition F))
      → find key_eq k (index_positions ps) ≡ last_position k ps
  unfolding index_positions find
  find-index_positions k ps = ground (arith, find-index_from k ps [])

has-add_keys :
    (k : PositionKey) (ks : List PositionKey) (m : Assoc PositionKey Bool)
    → has k (keys (add_keys ks m)) ≡ (has k ks || has k (keys m))
unfolding add_keys
has-add_keys k [] m = refl
has-add_keys k (j ∷ ks) m =
    ground (arith, has-put key_eq key_eq_iff j k true m, has-add_keys k ks (put key_eq j true m))

pub has-union_keys :
    (k : PositionKey) (ks others : List PositionKey)
    → has k (union_keys ks others) ≡ (has k others || has k ks)
unfolding union_keys
has-union_keys k ks others =
    ground (arith, has-add_keys k others (add_keys ks []), has-add_keys k ks [])
