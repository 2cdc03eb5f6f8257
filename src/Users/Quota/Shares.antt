-- ===== src/Users/Quota/Shares.antt =====
-- Shares of a total, rounded down: the arithmetic of `_set_user_used_traffic`.
use hysteria2_panel.Prelude.{
  ℕ, ◌+◌, ◌*◌, ◌/◌, ◌-◌, ◌≤◌, ◌<◌, ◌≡◌, inl, inr, arith, ◌==◌, leb, Bool-cases, subst,
}
use native.Mathlib.Nat.{
  le-div_iff_mul-le, div-le_of_le-mul, div-lt_iff_lt-mul, mul-le-mul_right, le_of_mul-le-mul_right,
}
use hysteria2_panel.Users.Traffic.{shared_tx}

-- A share of at most the whole is at most the whole.
div-share-le : (a b total : ℕ) → a ≤ total → a * b / total ≤ b
div-share-le a b total h = div-le_of_le-mul total (mul-le-mul_right b h)

-- A part that is in proportion to the whole is not lost by rounding down.
le-div-share : (d tx rx : ℕ) → 0 < tx + rx → d ≤ tx → d ≤ tx * (rx + d) / (tx + rx)
le-div-share d tx rx pos h =
    (le-div_iff_mul-le pos).1 (grind (arith, mul-le-mul_right {m = d} {n = tx} rx h))

-- Nor does rounding down add to it.
share-lt : (e tx rx : ℕ) → 0 < tx + rx → tx ≤ e → tx * (rx + e) / (tx + rx) < e + 1
share-lt e tx rx pos h =
    (div-lt_iff_lt-mul pos).1 (grind (arith, mul-le-mul_right {m = tx} {n = e} rx h))

module _ (tx rx used : ℕ) where
  -- What is sent is a part of the total.
  pub shared_tx-le : shared_tx tx (tx + rx) used ≤ used
  unfolding shared_tx
  shared_tx-le = ground (arith, div-share-le tx used (tx + rx))

  -- A smaller total takes from both directions.
  pub shared_tx_shrinks :
      used < tx + rx
      → (shared_tx tx (tx + rx) used ≤ tx) × (used - shared_tx tx (tx + rx) used ≤ rx)
  unfolding shared_tx
  shared_tx_shrinks h = ground (arith, sent, received)
    where
      sent : tx * used / (tx + rx) ≤ tx
      sent =
          div-le_of_le-mul (tx + rx) (grind (arith, mul-le-mul_right {m = used} {n = tx + rx} tx))

      received : used - tx * used / (tx + rx) ≤ rx
      received = elim (Bool-cases (leb used rx)) [
        | inl small ↦ ground arith
        | inr large ↦
            let same : rx + (used - rx) ≡ used = ground arith in
            let kept : used - rx ≤ tx * used / (tx + rx) =
              subst (λ t. used - rx ≤ tx * t / (tx + rx)) same
                (le-div-share (used - rx) tx rx (omega arith) (omega arith)) in
            omega arith
      ]

  -- A larger total takes from neither.
  pub shared_tx_grows :
      tx + rx ≤ used
      → (tx ≤ shared_tx tx (tx + rx) used) × (rx ≤ used - shared_tx tx (tx + rx) used)
  unfolding shared_tx
  shared_tx_grows h = elim (Bool-cases (tx + rx == 0)) [
    | inl e ↦ ground arith
    | inr e ↦ ground (arith, sent (ground arith), received (ground arith))
  ]
    where
      sent : 0 < tx + rx → tx ≤ tx * used / (tx + rx)
      sent pos =
          (le-div_iff_mul-le pos).1 (grind (arith, mul-le-mul_right {m = tx + rx} {n = used} tx h))

      received : 0 < tx + rx → rx ≤ used - tx * used / (tx + rx)
      received pos =
          let same : rx + (used - rx) ≡ used = omega arith in
          let bound : tx * used / (tx + rx) < used - rx + 1 =
            subst (λ t. tx * t / (tx + rx) < used - rx + 1) same
              (share-lt (used - rx) tx rx pos (omega arith)) in
          omega arith

-- Shares of `n / m` in amounts whose sum is at most `m` add up to at most `n`.
pub share-le : (s sum n m : ℕ) → 0 < m → s * m ≤ sum * n → sum ≤ m → s ≤ n
share-le s sum n m pos h k =
    le_of_mul-le-mul_right {k = m} (grind (arith, mul-le-mul_right {m = sum} {n = m} n k)) pos
