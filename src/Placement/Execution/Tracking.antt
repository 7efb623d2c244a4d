-- ===== src/Placement/Execution/Tracking.antt =====
-- When recovery looks at an order again.
use core_service.Prelude.{
  ℕ, ◌≡◌, ◌≢◌, ◌↔◌, ◌⊎◌, refl, ap, ◌∙◌, inl, inr, true, false, some, List, any, [], ◌∷◌, arith,
  Bool-cases, if◌then◌else◌,
}
use core_service.Prelude.Int.{ℤ, ◌+ℤ◌}
use core_service.Text.{Text, codes, is_empty, text_eq_iff, normal, trim_space, to_upper, upper_byte}
use core_service.Float.{Float64}
use core_service.Lifecycle.Events.{Time, is_zero_time}
use core_service.Placement.Model.{Meta, OrderAttempt, Order}
use core_service.Placement.World.{OrderResult, FillResult}
use core_service.Placement.Execution.{
  next_check_delay, recovery_deadline, any_fee_missing, recovery_status_for_execution,
  apply_recovery_tracking, executed_order, build_persisted_execution,
}

not_empty : (s : Text) → is_empty s ≡ false → s ≢ []
not_empty [] h = λ e. cc
not_empty (c ∷ s) h = λ e. cc

is_empty→nil : (s : Text) → is_empty s ≡ true → s ≡ []
is_empty→nil [] h = refl
is_empty→nil (c ∷ s) h = cc

blank-normal : (s : Text) → is_empty (trim_space s) ≡ true → normal s ≡ []
unfolding normal to_upper
blank-normal s h = ground arith

normal-new : normal (codes "NEW") ≡ codes "NEW"
unfolding normal to_upper upper_byte trim_space
normal-new = refl

any_fee_missing-any :
    {F : Type 0} (fills : List (FillResult F))
    → any_fee_missing fills ≡ any (λ fill. fill.fee_missing) fills
any_fee_missing-any [] = refl
any_fee_missing-any (fill ∷ fills) = ground (arith, any_fee_missing-any fills)

module _ {F : Type 0} where
  -- The execution is not known to be complete.
  abbrev pub IsIncomplete : OrderResult F → Type 0
  IsIncomplete result =
      (result.fill_pending ≡ true)
      ⊎ (any_fee_missing result.fills ≡ true)
      ⊎ (normal result.status ≡ codes "PARTIALLY_FILLED")
      ⊎ (normal result.status ≡ codes "NEW")

  -- The order waits for recovery from the time on: its next check is due before its deadline.
  pub record IsTracked (now : Time) (o : Order F) : Type 0 where
    pub named : o.recovery_status ≢ []
    pub started : o.recovery_started_at ≡ some now
    pub next : o.next_check_at ≡ some (now +ℤ next_check_delay)
    pub deadline : o.recovery_deadline_at ≡ some (now +ℤ recovery_deadline)

  tracked→incomplete :
      (result : OrderResult F) → recovery_status_for_execution result ≢ [] → IsIncomplete result
  unfolding recovery_status_for_execution
  tracked→incomplete result h = ground (
    arith,
    text_eq_iff (normal result.status) (codes "PARTIALLY_FILLED"),
    text_eq_iff (normal result.status) (codes "NEW"),
  )

  incomplete→named :
      (result : OrderResult F)
      → IsIncomplete result
      → is_empty (recovery_status_for_execution result) ≡ false
  unfolding recovery_status_for_execution
  incomplete→named result h = ground (
    arith,
    text_eq_iff (normal result.status) (codes "PARTIALLY_FILLED"),
    text_eq_iff (normal result.status) (codes "NEW"),
  )

  incomplete→tracked :
      (o : Order F) (result : OrderResult F) (now : Time)
      → IsIncomplete result
      → IsTracked now (apply_recovery_tracking o result now)
  unfolding apply_recovery_tracking
  incomplete→tracked o result now h =
      let kept = incomplete→named result h in
      rw (apply_recovery_tracking, kept)
        (record {
          named = not_empty (recovery_status_for_execution result) kept;
          started = refl;
          next = refl;
          deadline = refl;
        })

  complete-untouched :
      (o : Order F) (result : OrderResult F) (now : Time)
      → is_empty (recovery_status_for_execution result) ≡ true
      → apply_recovery_tracking o result now ≡ o
  unfolding apply_recovery_tracking
  complete-untouched o result now e = rw e refl

  applied→incomplete :
      (o : Order F) (result : OrderResult F) (now : Time)
      → o.recovery_status ≡ []
      → IsTracked now (apply_recovery_tracking o result now)
      → IsIncomplete result
  applied→incomplete o result now clear t =
      elim (Bool-cases (is_empty (recovery_status_for_execution result))) [
        | inl e ↦
            absurd
              (t.named (ap (λ x. x.recovery_status) (complete-untouched o result now e) ∙ clear))
        | inr e ↦ tracked→incomplete result (not_empty (recovery_status_for_execution result) e)
      ]

module _ {F : Type 0} ⦃fl : Float64 F⦄ (meta : Meta F) (attempt : OrderAttempt F) (strategy_id : ℤ)
    (session_id : Text) (market : ℤ) (result : OrderResult F) where
  abbrev pub persisted_order : (ℕ → Text) → Time → Time → Order F
  persisted_order new_id wall at =
      (build_persisted_execution meta attempt strategy_id session_id market result new_id wall at).0

  -- The execution is not complete, by what the executor reports of its fills and by the status that
  -- is stored for the order. A status NEW counts if the executor reports one: where it reports none,
  -- the order is stored as NEW, but its execution counts as complete.
  abbrev pub IsUnfinished : Order F → Type 0
  IsUnfinished order =
      (result.fill_pending ≡ true)
      ⊎ (any (λ fill. fill.fee_missing) result.fills ≡ true)
      ⊎ (normal order.status ≡ codes "PARTIALLY_FILLED")
      ⊎ ((normal order.status ≡ codes "NEW") × (trim_space result.status ≢ []))

  persisted-status :
      (new_id : ℕ → Text) (wall at : Time)
      → (persisted_order new_id wall at).status
        ≡ (if is_empty (trim_space result.status) then codes "NEW" else result.status)
  unfolding build_persisted_execution executed_order apply_recovery_tracking
      core_service.Placement.Contract.non_empty
  persisted-status new_id wall at =
      elim (Bool-cases (is_empty (recovery_status_for_execution result))) [
        | inl e ↦ rw (apply_recovery_tracking, e) refl
        | inr e ↦ rw (apply_recovery_tracking, e) refl
      ]

  IsUnfinished-IsIncomplete :
      (order : Order F)
      → order.status ≡ (if is_empty (trim_space result.status) then codes "NEW" else result.status)
      → IsUnfinished order ↔ IsIncomplete result
  IsUnfinished-IsIncomplete order stored =
      let missing = any_fee_missing-any result.fills in
      elim (Bool-cases (is_empty (trim_space result.status))) [
        | inl blank ↦
            let named = blank-normal result.status blank in
            let none = is_empty→nil (trim_space result.status) blank in
            (
              λ h. ground (arith, stored, blank, named, none, missing, normal-new, h),
              λ h. ground (arith, stored, blank, named, none, missing, normal-new, h),
            )
        | inr given ↦
            let some_text = not_empty (trim_space result.status) given in
            (
              λ h. ground (arith, stored, given, missing, h),
              λ h. ground (arith, stored, given, missing, some_text, h),
            )
      ]

  waiting_iff :
      (new_id : ℕ → Text) (wall at : Time)
      → IsTracked (if is_zero_time at then wall else at) (persisted_order new_id wall at)
        ↔ IsIncomplete result
  unfolding build_persisted_execution executed_order
  waiting_iff new_id wall at =
      (λ t. applied→incomplete _ result _ refl t, λ h. incomplete→tracked _ result _ h)

  -- The order that is stored for an execution waits for recovery, with its first check in 5 s and
  -- its deadline in 14 days, exactly if its fills are pending, the fee of one of them is missing, or
  -- its stored status is PARTIALLY_FILLED, or NEW as the executor reported it: an order that is
  -- stored as NEW because the executor reported no status does not wait for that.
  pub IsTracked-iff :
      (new_id : ℕ → Text) (wall at : Time)
      → IsTracked (if is_zero_time at then wall else at) (persisted_order new_id wall at)
        ↔ IsUnfinished (persisted_order new_id wall at)
  IsTracked-iff new_id wall at =
      let order = persisted_order new_id wall at in
      let same = IsUnfinished-IsIncomplete order (persisted-status new_id wall at) in
      let waits = waiting_iff new_id wall at in (λ t. same.1 (waits.0 t), λ h. waits.1 (same.0 h))
