-- ===== src/Num/Ring/Normal.antt =====
-- Polynomials in normal form: a sorted list of signed monomials, a monomial being a sorted list
-- of places in the environment. Equal monomials of opposite sign cancel.
use quant_system.Prelude.{
  ℕ, zero, suc, ◌≡◌, Bool, true, false, not, ◌&&◌, refl, sym, ap, ◌∙◌, List, [], ◌∷◌, arith, leb,
  eqb, ltb, if◌then◌else◌, Bool-cases, inl, inr,
}
use quant_system.Num.Floats.{Num, Float, ◌⊕◌, ◌⊖◌, ◌⊗◌, neg, nought, one}
use quant_system.Num.Exact.{IsExact}
use quant_system.Num.Ring.Laws

pub data Expr : Type 0 where
  var : ℕ → Expr
  plus minus times : Expr → Expr → Expr
  minus_of : Expr → Expr
  zero_ one_ : Expr

abbrev Mono : Type 0
Mono = List ℕ

abbrev Poly : Type 0
Poly = List (Bool × Mono)

abbrev ins : ℕ → Mono → Mono
ins i [] = i ∷ []
ins i (j ∷ m) = let rest = ins i m in if leb i j then i ∷ j ∷ m else j ∷ rest

abbrev mono_mul : Mono → Mono → Mono
mono_mul [] n = n
mono_mul (i ∷ m) n = ins i (mono_mul m n)

abbrev same : Mono → Mono → Bool
same [] [] = true
same [] (j ∷ n) = false
same (i ∷ m) [] = false
same (i ∷ m) (j ∷ n) = eqb i j && same m n

abbrev before : Mono → Mono → Bool
before [] n = true
before (i ∷ m) [] = false
before (i ∷ m) (j ∷ n) = let rest = before m n in if eqb i j then rest else ltb i j

abbrev agree : Bool → Bool → Bool
agree true b = b
agree false b = not b

abbrev add_term : Bool → Mono → Poly → Poly
add_term s m [] = (s, m) ∷ []
add_term s m ((r, n) ∷ p) =
    let rest = add_term s m p in
    if same m n
    then (if agree s r then (s, m) ∷ (r, n) ∷ p else p)
    else if before m n
    then (s, m) ∷ (r, n) ∷ p
    else (r, n) ∷ rest

abbrev poly_add : Poly → Poly → Poly
poly_add [] q = q
poly_add ((s, m) ∷ p) q = add_term s m (poly_add p q)

abbrev poly_neg : Poly → Poly
poly_neg [] = []
poly_neg ((s, m) ∷ p) = (not s, m) ∷ poly_neg p

abbrev term_mul : Bool → Mono → Poly → Poly
term_mul s m [] = []
term_mul s m ((r, n) ∷ p) = add_term (agree s r) (mono_mul m n) (term_mul s m p)

abbrev poly_mul : Poly → Poly → Poly
poly_mul [] q = []
poly_mul ((s, m) ∷ p) q = poly_add (term_mul s m q) (poly_mul p q)

abbrev norm : Expr → Poly
norm (var i) = (true, i ∷ []) ∷ []
norm (plus a b) = poly_add (norm a) (norm b)
norm (minus a b) = poly_add (norm a) (poly_neg (norm b))
norm (times a b) = poly_mul (norm a) (norm b)
norm (minus_of a) = poly_neg (norm a)
norm zero_ = []
norm one_ = (true, []) ∷ []

module _ ⦃N : Num⦄ where
  abbrev at : List Float → ℕ → Float
  at [] i = nought
  at (x ∷ env) zero = x
  at (x ∷ env) (suc i) = at env i

  -- What an expression stands for.
  abbrev pub value : List Float → Expr → Float
  value env (var i) = at env i
  value env (plus a b) = value env a ⊕ value env b
  value env (minus a b) = value env a ⊖ value env b
  value env (times a b) = value env a ⊗ value env b
  value env (minus_of a) = neg (value env a)
  value env zero_ = nought
  value env one_ = one

  abbrev mono_value : List Float → Mono → Float
  mono_value env [] = one
  mono_value env (i ∷ m) = at env i ⊗ mono_value env m

  abbrev signed : Bool → Float → Float
  signed true a = a
  signed false a = neg a

  abbrev poly_value : List Float → Poly → Float
  poly_value env [] = nought
  poly_value env ((s, m) ∷ p) = signed s (mono_value env m) ⊕ poly_value env p

same_eq : (m n : Mono) → same m n ≡ true → m ≡ n
same_eq [] [] h = refl
same_eq [] (j ∷ n) h = cc
same_eq (i ∷ m) [] h = cc
same_eq (i ∷ m) (j ∷ n) h = ground (arith, same_eq m n)

module _ ⦃N : Num⦄ (X : IsExact) (env : List Float) where
  ins-value : (i : ℕ) (m : Mono) → mono_value env (ins i m) ≡ at env i ⊗ mono_value env m
  ins-value i [] = refl
  ins-value i (j ∷ m) =
      ground (arith, ins-value i m, Laws.mul_left_comm X (at env i) (at env j) (mono_value env m))

  mono_mul-value :
      (m n : Mono) → mono_value env (mono_mul m n) ≡ mono_value env m ⊗ mono_value env n
  mono_mul-value [] n = sym (X.mul_comm one (mono_value env n) ∙ X.mul_one (mono_value env n))
  mono_mul-value (i ∷ m) n =
      rw (ins-value i (mono_mul m n), mono_mul-value m n)
        (sym (X.mul_assoc (at env i) (mono_value env m) (mono_value env n)))

  opposite : (s r : Bool) (a b : Float) → agree s r ≡ false → signed s a ⊕ (signed r a ⊕ b) ≡ b
  opposite true true a b h = cc
  opposite true false a b h = Laws.add-neg_left X a b
  opposite false true a b h = Laws.neg-add_left X a b
  opposite false false a b h = cc

  add_term-value :
      (s : Bool) (m : Mono) (p : Poly)
      → poly_value env (add_term s m p) ≡ signed s (mono_value env m) ⊕ poly_value env p
  add_term-value s m [] = refl
  add_term-value s m ((r, n) ∷ p) = elim (Bool-cases (same m n)) [
    | inl e ↦ elim (Bool-cases (agree s r)) [
      | inl f ↦ rw (e, f)
      | inr f ↦
          rw (e, f, ← same_eq m n e) (sym (opposite s r (mono_value env m) (poly_value env p) f))
    ]
    | inr e ↦ elim (Bool-cases (before m n)) [
      | inl f ↦ rw (e, f)
      | inr f ↦
          rw (e, f, add_term-value s m p)
            (Laws.add_left_comm X (signed r (mono_value env n)) (signed s (mono_value env m))
              (poly_value env p))
    ]
  ]

  poly_add-value :
      (p q : Poly) → poly_value env (poly_add p q) ≡ poly_value env p ⊕ poly_value env q
  poly_add-value [] q = sym (Laws.zero_add X (poly_value env q))
  poly_add-value ((s, m) ∷ p) q =
      rw (add_term-value s m (poly_add p q), poly_add-value p q)
        (sym (X.add_assoc (signed s (mono_value env m)) (poly_value env p) (poly_value env q)))

  signed-not : (s : Bool) (a : Float) → signed (not s) a ≡ neg (signed s a)
  signed-not true a = refl
  signed-not false a = sym (Laws.neg_neg X a)

  poly_neg-value : (p : Poly) → poly_value env (poly_neg p) ≡ neg (poly_value env p)
  poly_neg-value [] = sym (Laws.neg_zero X)
  poly_neg-value ((s, m) ∷ p) =
      rw (signed-not s (mono_value env m), poly_neg-value p)
        (sym (Laws.neg_add X (signed s (mono_value env m)) (poly_value env p)))

  signed-agree : (s r : Bool) (a b : Float) → signed (agree s r) (a ⊗ b) ≡ signed s a ⊗ signed r b
  signed-agree true true a b = refl
  signed-agree true false a b = sym (Laws.mul_neg X a b)
  signed-agree false true a b = sym (Laws.neg_mul X a b)
  signed-agree false false a b = sym (
      Laws.neg_mul X a (neg b)
      ∙ ap (λ (t : Float). neg t) (Laws.mul_neg X a b)
      ∙ Laws.neg_neg X (a ⊗ b))

  term_mul-value :
      (s : Bool) (m : Mono) (p : Poly)
      → poly_value env (term_mul s m p) ≡ signed s (mono_value env m) ⊗ poly_value env p
  term_mul-value s m [] = sym (Laws.mul_zero X (signed s (mono_value env m)))
  term_mul-value s m ((r, n) ∷ p) =
      rw
        (
          add_term-value (agree s r) (mono_mul m n) (term_mul s m p),
          mono_mul-value m n,
          signed-agree s r (mono_value env m) (mono_value env n),
          term_mul-value s m p,
        )
        (sym (
          X.mul_add (signed s (mono_value env m)) (signed r (mono_value env n)) (poly_value env p)))

  poly_mul-value :
      (p q : Poly) → poly_value env (poly_mul p q) ≡ poly_value env p ⊗ poly_value env q
  poly_mul-value [] q = sym (Laws.zero_mul X (poly_value env q))
  poly_mul-value ((s, m) ∷ p) q =
      rw (poly_add-value (term_mul s m q) (poly_mul p q), term_mul-value s m q, poly_mul-value p q)
        (sym (Laws.add_mul X (signed s (mono_value env m)) (poly_value env p) (poly_value env q)))

  norm-value : (a : Expr) → poly_value env (norm a) ≡ value env a
  norm-value (var i) = X.add_zero (at env i ⊗ one) ∙ X.mul_one (at env i)
  norm-value (plus a b) = poly_add-value (norm a) (norm b) ∙ cc (norm-value a, norm-value b)
  norm-value (minus a b) =
      rw
        (
          poly_add-value (norm a) (poly_neg (norm b)),
          poly_neg-value (norm b),
          norm-value a,
          norm-value b,
        )
        (sym (X.sub_eq (value env a) (value env b)))
  norm-value (times a b) = poly_mul-value (norm a) (norm b) ∙ cc (norm-value a, norm-value b)
  norm-value (minus_of a) = poly_neg-value (norm a) ∙ cc (norm-value a)
  norm-value zero_ = refl
  norm-value one_ = X.add_zero one

  pub ring : (a b : Expr) → norm a ≡ norm b → value env a ≡ value env b
  ring a b h = sym (norm-value a) ∙ ap (poly_value env) h ∙ norm-value b
