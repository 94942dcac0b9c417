-- ===== src/Prelude/Window.antt =====
-- Python's `deque(maxlen=n)`: what it keeps of everything that was appended.
use Prim.Native.Nat.{ℕ, zero, suc, ◌-◌, ◌≤◌}
use mathlib.Core.Path.{◌≡◌, refl, ap, ◌∙◌, sym}
use mathlib.Core.Logic.{inl, inr}
use mathlib.Core.List.{List, [], ◌∷◌, ◌++◌, map}
use native.Mathlib.Omega.{arith}
use quant_system.Prelude.Tests.{leb, leb→le, if◌then◌else◌, Bool-cases}
use quant_system.Prelude.Lists.{length, length-append, All, All-append}

module _ {ℓ} {A : Type ℓ} where
  -- `xs[n:]`
  abbrev pub drop : ℕ → List A → List A
  drop zero xs = xs
  drop (suc n) [] = []
  drop (suc n) (x ∷ xs) = drop n xs

  abbrev pub tail : List A → List A
  tail [] = []
  tail (x ∷ xs) = xs

  -- `d.append(x)` on a deque of at most n items: the oldest one goes.
  unfoldable pub append_max : ℕ → A → List A → List A
  append_max n x xs = if leb n (length xs) then tail (xs ++ x ∷ []) else xs ++ x ∷ []

  -- `xs[-n:]`: the last n items, or all.
  unfoldable pub latest : ℕ → List A → List A
  latest n xs = drop (length xs - n) xs

  All-tail {κ} : (P : A → Type κ) (xs : List A) → All P xs → All P (tail xs)
  All-tail P [] ps = tt
  All-tail P (x ∷ xs) (p, ps) = ps

  pub All-append_max {κ} :
      (P : A → Type κ) (n : ℕ) (x : A) (xs : List A) → P x → All P xs → All P (append_max n x xs)
  unfolding append_max
  All-append_max P n x xs p ps = elim (Bool-cases (leb n (length xs))) [
    | inl full ↦ rw (full) (All-tail P (xs ++ x ∷ []) (All-append P xs x ps p))
    | inr room ↦ rw (room) (All-append P xs x ps p)
  ]

  drop-nil : (n : ℕ) → drop n [] ≡ []
  drop-nil zero = refl
  drop-nil (suc n) = refl

  pub latest-nil : (n : ℕ) → latest n [] ≡ []
  unfolding latest
  latest-nil n = drop-nil (0 - n)

  tail-drop : (n : ℕ) (xs : List A) → tail (drop n xs) ≡ drop (suc n) xs
  tail-drop zero [] = refl
  tail-drop zero (x ∷ xs) = refl
  tail-drop (suc n) [] = refl
  tail-drop (suc n) (x ∷ xs) = tail-drop n xs

  drop-append : (n : ℕ) (xs ys : List A) → n ≤ length xs → drop n (xs ++ ys) ≡ drop n xs ++ ys
  drop-append zero xs ys h = refl
  drop-append (suc n) [] ys h = absurd (omega (arith, h))
  drop-append (suc n) (x ∷ xs) ys h = drop-append n xs ys (omega (arith, h))

  length-drop : (n : ℕ) (xs : List A) → length (drop n xs) ≡ length xs - n
  length-drop zero xs = omega arith
  length-drop (suc n) [] = omega arith
  length-drop (suc n) (x ∷ xs) = omega (arith, length-drop n xs)

  pub length-latest : (n : ℕ) (xs : List A) → length (latest n xs) ≤ n
  unfolding latest
  length-latest n xs = omega (arith, length-drop (length xs - n) xs)

  -- Appending to the last n items leaves the last n items.
  pub append_max-latest :
      (n : ℕ) (x : A) (xs : List A)
      → append_max (suc n) x (latest (suc n) xs) ≡ latest (suc n) (xs ++ x ∷ [])
  unfolding append_max latest
  append_max-latest n x xs =
      let k = length xs - suc n in
      let ys = xs ++ x ∷ [] in
      let appended : drop k ys ≡ drop k xs ++ x ∷ [] = drop-append k xs (x ∷ []) (omega arith) in
      elim (Bool-cases (leb (suc n) (length (drop k xs)))) [
        | inl full ↦
            let one_more : suc k ≡ length ys - suc n = omega (
              arith,
              leb→le (suc n) (length (drop k xs)) full,
              length-drop k xs,
              length-append xs (x ∷ []),
            ) in
            rw full (ap tail (sym appended) ∙ tail-drop k ys ∙ ap (λ j. drop j ys) one_more)
        | inr room ↦
            let as_many : k ≡ length ys - suc n =
              ground (arith, length-drop k xs, length-append xs (x ∷ [])) in
            rw room (sym appended ∙ ap (λ j. drop j ys) as_many)
      ]

module _ {ℓ κ} {A : Type ℓ} {B : Type κ} (f : A → B) where
  pub map-append : (xs : List A) (x : A) → map f (xs ++ x ∷ []) ≡ map f xs ++ f x ∷ []
  map-append [] x = refl
  map-append (y ∷ xs) x = ap (λ r. f y ∷ r) (map-append xs x)

  map-tail : (xs : List A) → map f (tail xs) ≡ tail (map f xs)
  map-tail [] = refl
  map-tail (x ∷ xs) = refl

  pub length-map : (xs : List A) → length (map f xs) ≡ length xs
  length-map [] = refl
  length-map (x ∷ xs) = ap suc (length-map xs)

  pub append_max-map :
      (n : ℕ) (x : A) (xs : List A) → append_max n (f x) (map f xs) ≡ map f (append_max n x xs)
  unfolding append_max
  append_max-map n x xs = elim (Bool-cases (leb n (length xs))) [
    | inl full ↦
        rw (length-map xs, full) (ap tail (sym (map-append xs x)) ∙ sym (map-tail (xs ++ x ∷ [])))
    | inr room ↦ rw (length-map xs, room) (sym (map-append xs x))
  ]
