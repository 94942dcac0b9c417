-- ===== src/Num/Sum.antt =====
-- Python's `sum` under exact arithmetic.
use quant_system.Prelude.{◌≡◌, sym, ap, ◌∙◌, List, [], ◌∷◌, ◌++◌}
use quant_system.Num.Floats.{Num, Float, ◌⊕◌, nought, sum_from}
use quant_system.Num.Exact.{IsExact}

module _ ⦃N : Num⦄ where
  -- The plain sum, from the right.
  abbrev pub sum : List Float → Float
  sum [] = nought
  sum (x ∷ xs) = x ⊕ sum xs

module _ ⦃N : Num⦄ (X : IsExact) where
  -- Python's sum from the left is the plain sum.
  pub sum_from-sum : (acc : Float) (xs : List Float) → sum_from acc xs ≡ acc ⊕ sum xs
  unfolding sum_from
  sum_from-sum acc [] = sym (X.add_zero acc)
  sum_from-sum acc (x ∷ xs) = sum_from-sum (acc ⊕ x) xs ∙ X.add_assoc acc x (sum xs)

  pub sum-append : (xs : List Float) (x : Float) → sum (xs ++ x ∷ []) ≡ sum xs ⊕ x
  sum-append [] x = X.add_comm x nought
  sum-append (y ∷ xs) x =
      ap (λ (t : Float). y ⊕ t) (sum-append xs x) ∙ sym (X.add_assoc y (sum xs) x)
