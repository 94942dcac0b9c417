-- ===== src/Backtest/WalkForward/Best.antt =====
-- The search over the grid of parameters.
use quant_system.Prelude.{
  ℕ, ◌≡◌, refl, subst, ◌⊎◌, inl, inr, true, List, [], ◌∷◌, All, arith, Bool-cases,
}
use quant_system.Num.{Num, Float, ◌≺◌}
use quant_system.Num.Order.{Le, le_trans, le_refl, le_of_lt, le_of_not_lt}
use quant_system.Backtest.WalkForward.{
  Metrics, Choice, improve, search, Fold, run_fold, slice, no_metrics,
}

module _ ⦃N : Num⦄ {P T : Type 0} (evaluate : List T → P → Metrics) where
  -- A choice that is the outcome of evaluating its own parameters.
  abbrev pub IsOutcome : List T → Choice evaluate → Type 0
  IsOutcome train c =
      (c.best_train_metrics ≡ evaluate train c.best_params)
      × (c.best_train_sharpe ≡ c.best_train_metrics.sharpe)

  -- No parameters of a list score higher than the choice.
  abbrev pub Beats : List T → Choice evaluate → List P → Type 0
  Beats train c = All (λ p. Le (evaluate train p).sharpe c.best_train_sharpe)

  improve_bounds :
      (train : List T) (p : P) (c : Choice evaluate)
      → let best = (improve evaluate train p c).best_train_sharpe in
        Le c.best_train_sharpe best × Le (evaluate train p).sharpe best
  unfolding improve
  improve_bounds train p c = elim (Bool-cases (c.best_train_sharpe ≺ (evaluate train p).sharpe)) [
    | inl up ↦ rw (up) (
      le_of_lt c.best_train_sharpe (evaluate train p).sharpe up,
      le_refl (evaluate train p).sharpe,
    )
    | inr not_up ↦ rw (not_up) (
      le_refl c.best_train_sharpe,
      le_of_not_lt (evaluate train p).sharpe c.best_train_sharpe not_up,
    )
  ]

  improve-IsOutcome :
      (train : List T) (p : P) (c : Choice evaluate)
      → ((c.best_train_sharpe ≺ (evaluate train p).sharpe) ≡ true) ⊎ IsOutcome train c
      → IsOutcome train (improve evaluate train p c)
  unfolding improve
  improve-IsOutcome train p c why =
      elim (Bool-cases (c.best_train_sharpe ≺ (evaluate train p).sharpe)) [
        | inl up ↦ rw (up) (refl, refl)
        | inr not_up ↦ elim why [
          | inl up ↦ absurd (ground (arith, up, not_up))
          | inr o ↦ rw (not_up) o
        ]
      ]

  search_grows :
      (train : List T) (grid : List P) (c : Choice evaluate)
      → Le c.best_train_sharpe (search evaluate train grid c).best_train_sharpe
  unfolding search
  search_grows train [] c = le_refl c.best_train_sharpe
  search_grows train (p ∷ grid) c =
      let c' = improve evaluate train p c in
      le_trans c.best_train_sharpe c'.best_train_sharpe
        (search evaluate train grid c').best_train_sharpe (improve_bounds train p c).0
        (search_grows train grid c')

  search-Beats :
      (train : List T) (grid : List P) (c : Choice evaluate)
      → Beats train (search evaluate train grid c) grid
  unfolding search
  search-Beats train [] c = tt
  search-Beats train (p ∷ grid) c =
      let c' = improve evaluate train p c in
      (
        le_trans (evaluate train p).sharpe c'.best_train_sharpe
            (search evaluate train grid c').best_train_sharpe (improve_bounds train p c).1
            (search_grows train grid c'),
        search-Beats train grid c',
      )

  search-IsOutcome :
      (train : List T) (grid : List P) (c : Choice evaluate)
      → IsOutcome train c
      → IsOutcome train (search evaluate train grid c)
  unfolding search
  search-IsOutcome train [] c o = o
  search-IsOutcome train (p ∷ grid) c o =
      search-IsOutcome train grid (improve evaluate train p c) (improve-IsOutcome train p c (inr o))

  -- When the grid is not empty and its first parameters score above minus infinity, a fold reports
  -- the metrics of its best parameters on the training trades, tests these parameters, and no
  -- parameters of the grid have a greater Sharpe ratio on the training trades.
  pub run_fold_best :
      (minus_inf : Float) (empty : P) (trades : List T) (p : P) (grid : List P) (index : ℕ)
      (f : Fold)
      → (minus_inf ≺ (evaluate (slice f.train_start f.train_end trades) p).sharpe) ≡ true
      → let train = slice f.train_start f.train_end trades in
        let r = run_fold evaluate minus_inf empty trades (p ∷ grid) index f in
        (r.train ≡ evaluate train r.best_params)
        × (r.test ≡ evaluate (slice f.test_start f.test_end trades) r.best_params)
        × All (λ q. Le (evaluate train q).sharpe r.train.sharpe) (p ∷ grid)
  unfolding run_fold search
  run_fold_best minus_inf empty trades p grid index f above =
      let train = slice f.train_start f.train_end trades in
      let c : Choice evaluate = record {
        best_train_sharpe = minus_inf;
        best_params = empty;
        best_train_metrics = no_metrics;
      } in
      let (same, score) =
        search-IsOutcome train grid (improve evaluate train p c)
          (improve-IsOutcome train p c (inl above)) in
      (
        same,
        refl,
        subst (λ s. All (λ q. Le (evaluate train q).sharpe s) (p ∷ grid)) score
            (search-Beats train (p ∷ grid) c),
      )
