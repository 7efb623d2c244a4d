-- ===== src/Prelude/Maps.antt =====
-- Go maps as association lists, the keys in the order of their first writes. The order in which a
-- map is ranged over is a parameter of the code that does so.
use core_service.Prelude.Tests.{if◌then◌else◌, Bool-cases}
use core_service.Prelude.Lists.{all, any}
use mathlib.Core.Path.{◌≡◌, refl}
use mathlib.Core.Logic.{◌↔◌, inl, inr}
use mathlib.Core.Bool.{Bool, true, false, ◌||◌}
use mathlib.Core.Option.{Option, none, some}
use mathlib.Core.List.{List, [], ◌∷◌, map}
use native.Mathlib.Omega.{arith}

abbrev pub Assoc : Type 0 → Type 0 → Type 0
Assoc K V = List (K × V)

module _ {K V : Type 0} (eqb : K → K → Bool) where
  unfoldable pub find : K → Assoc K V → Option V
  find key [] = none
  find key ((k, v) ∷ m) = if eqb k key then some v else find key m

  unfoldable pub put : K → V → Assoc K V → Assoc K V
  put key v [] = (key, v) ∷ []
  put key v ((k, old) ∷ m) = if eqb k key then (key, v) ∷ m else (k, old) ∷ put key v m

  pub find-put :
      ((a b : K) → (eqb a b ≡ true) ↔ (a ≡ b))
      → (key j : K) (v : V) (m : Assoc K V)
      → find j (put key v m) ≡ (if eqb key j then some v else find j m)
  unfolding find put
  find-put iff key j v [] = refl
  find-put iff key j v ((k, old) ∷ m) =
      ground (arith, iff key j, iff k key, iff k j, find-put iff key j v m)

abbrev pub keys : {K V : Type 0} → Assoc K V → List K
keys m = map (λ e. e.0) m

module _ {K V : Type 0} (eqb : K → K → Bool) (iff : (a b : K) → (eqb a b ≡ true) ↔ (a ≡ b)) where
  -- A key is among the keys of a map exactly if it is found.
  pub has-put :
      (key j : K) (v : V) (m : Assoc K V)
      → any (λ k. eqb k j) (keys (put eqb key v m)) ≡ (eqb key j || any (λ k. eqb k j) (keys m))
  unfolding put
  has-put key j v [] = refl
  has-put key j v ((k, old) ∷ m) = ground (arith, iff k key, iff key j, iff k j, has-put key j v m)

  pub find-absent :
      (j : K) (m : Assoc K V) → any (λ k. eqb k j) (keys m) ≡ false → find eqb j m ≡ none
  unfolding find
  find-absent j [] h = refl
  find-absent j ((k, v) ∷ m) h = ground (arith, h, find-absent j m)

  pub find-present :
      (j : K) (m : Assoc K V)
      → any (λ k. eqb k j) (keys m) ≡ true
      → (v : V) × (find eqb j m ≡ some v)
  unfolding find
  find-present j [] h = absurd (cc)
  find-present j ((k, v) ∷ m) h = elim (Bool-cases (eqb k j)) [
    | inl here ↦ (v, rw here refl)
    | inr elsewhere ↦
        let (v', e) = find-present j m (ground (arith, h, elsewhere)) in (v', rw elsewhere e)
  ]

module _ {K : Type 0} (eqb : K → K → Bool) (iff : (a b : K) → (eqb a b ≡ true) ↔ (a ≡ b)) where
  pub all-present :
      (p : K → Bool) (ks : List K) (j : K)
      → all p ks ≡ true
      → any (λ k. eqb k j) ks ≡ true
      → p j ≡ true
  all-present p [] j h e = absurd (cc)
  all-present p (k ∷ ks) j h e = ground (arith, h, e, iff k j, all-present p ks j)

  pub all-of-present :
      (p : K → Bool) (ks : List K)
      → ((j : K) → any (λ k. eqb k j) ks ≡ true → p j ≡ true)
      → all p ks ≡ true
  all-of-present p [] h = refl
  all-of-present p (k ∷ ks) h = ground (
    arith,
    h k (ground (arith, (iff k k).1 refl)),
    all-of-present p ks λ j e. h j (ground (arith, e)),
  )

  pub any-present :
      (p : K → Bool) (ks : List K) (j : K)
      → p j ≡ true
      → any (λ k. eqb k j) ks ≡ true
      → any p ks ≡ true
  any-present p [] j h e = absurd (cc)
  any-present p (k ∷ ks) j h e = ground (arith, h, e, iff k j, any-present p ks j)
