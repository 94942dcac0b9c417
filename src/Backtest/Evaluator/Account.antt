-- ===== src/Backtest/Evaluator/Account.antt =====
-- What holds of the account after every fill.
use quant_system.Prelude.{
  ℕ, List, [], ◌∷◌, All, All-map, arith, Bool-cases, inl, inr, if◌then◌else◌,
}
use quant_system.Prelude.Eq.{◌==◌, nat_eq}
use quant_system.Prelude.Dict.{Dict, insert}
use quant_system.Num.{Num, Float, ◌⊕◌, ◌⊖◌, ◌⊘◌, ◌≺◌, nought, max}
use quant_system.Num.Order.{Le, le_trans, le_refl, le_of_lt, le_of_not_lt, le-max_left}
use quant_system.Core.Models.{Fill}
use quant_system.Backtest.Evaluator.{Book, opening, account_fill, account_fills, realized_after}

module _ ⦃N : Num⦄ where
  -- The peak is not below the initial equity, the present one or that of any bucket, and the
  -- maximal drawdown is not negative.
  pub record IsValid (initial : Float) (a : Book) : Type 0 where
    pub above_equity : Le a.equity a.peak
    pub above_initial : Le initial a.peak
    pub above_buckets : All (λ (e : ℕ × Float). Le e.1 a.peak) a.bucket_equity
    pub dd_above_zero : Le nought a.max_dd

  peak_grows : (peak equity : Float) → Le peak (if peak ≺ equity then equity else peak)
  peak_grows peak equity = ground (arith, le_refl peak, le_of_lt peak equity)

  peak_reaches : (peak equity : Float) → Le equity (if peak ≺ equity then equity else peak)
  peak_reaches peak equity = ground (arith, le_refl equity, le_of_not_lt equity peak)

  inserted_below :
      (k : ℕ) (e peak peak' : Float) (d : Dict ℕ Float)
      → Le peak peak'
      → Le e peak'
      → All (λ (x : ℕ × Float). Le x.1 peak) d
      → All (λ (x : ℕ × Float). Le x.1 peak') (insert k e d)
  unfolding insert
  inserted_below k e peak peak' [] up top ps = (top, tt)
  inserted_below k e peak peak' ((j, x) ∷ d) up top (p, ps) =
      let raised = All-map (λ (y : ℕ × Float) q. le_trans y.1 peak peak' q up) d ps in
      elim (Bool-cases (j == k)) [
        | inl same ↦ rw (same) (top, raised)
        | inr other ↦
            rw (other) (le_trans x peak peak' p up, inserted_below k e peak peak' d up top ps)
      ]

  deeper :
      (dd fall peak : Float) → Le nought dd → Le nought (if nought ≺ peak then max dd fall else dd)
  deeper dd fall peak h = elim (Bool-cases (nought ≺ peak)) [
    | inl up ↦ rw (up) (le_trans nought dd (max dd fall) h (le-max_left dd fall))
    | inr flat ↦ rw (flat) h
  ]

  account_fill-IsValid :
      (initial : Float) (bucket : ℕ) (f : Fill) (a : Book)
      → IsValid initial a
      → IsValid initial (account_fill initial bucket f a)
  unfolding account_fill
  account_fill-IsValid initial bucket f a v =
      let equity = initial ⊕ realized_after f a in
      let peak = if a.peak ≺ equity then equity else a.peak in
      record {
        above_equity = peak_reaches a.peak equity;
        above_initial = le_trans initial a.peak peak v.above_initial (peak_grows a.peak equity);
        above_buckets =
            inserted_below _ equity a.peak peak a.bucket_equity (peak_grows a.peak equity)
              (peak_reaches a.peak equity) v.above_buckets;
        dd_above_zero = deeper a.max_dd ((peak ⊖ equity) ⊘ peak) peak v.dd_above_zero;
      }

  account_fills-IsValid :
      (initial : Float) (bucket : ℕ) (fs : List Fill) (a : Book)
      → IsValid initial a
      → IsValid initial (account_fills initial bucket fs a)
  unfolding account_fills
  account_fills-IsValid initial bucket [] a v = v
  account_fills-IsValid initial bucket (f ∷ fs) a v =
      account_fills-IsValid initial bucket fs (account_fill initial bucket f a)
        (account_fill-IsValid initial bucket f a v)

  -- After any fills, the account's peak is not below the initial equity, the present one or that
  -- of any bucket, and its maximal drawdown is not negative.
  pub backtest_account-IsValid :
      (initial : Float) (bucket : ℕ) (fs : List Fill)
      → IsValid initial (account_fills initial bucket fs (opening initial))
  backtest_account-IsValid initial bucket fs =
      account_fills-IsValid initial bucket fs (opening initial) (record {
        above_equity = le_refl initial;
        above_initial = le_refl initial;
        above_buckets = tt;
        dd_above_zero = le_refl nought;
      })
