-- ===== src/Alpha/FeatureEngine/Window.antt =====
-- The running sums of the feature engine against the window that they stand for.
use mathlib.Core.List.{append-nil, append_assoc}
use quant_system.Prelude.{
  ℕ, suc, ◌≤◌, ◌≡◌, inl, inr, refl, sym, Bool, true, false, Option, none, some, List, [], ◌∷◌, ◌++◌,
  map, length, arith, eqb, String, Bool-cases,
}
use quant_system.Prelude.Window.{
  latest, latest-nil, append_max, append_max-latest, append_max-map, length-latest, length-map,
  map-append,
}
use quant_system.Num.{Num, Float, ◌⊕◌, ◌⊖◌, ◌⊗◌}
use quant_system.Num.Exact.{IsExact}
use quant_system.Num.Sum.{sum, sum-append}
use quant_system.Num.Ring.{Expr, ring}
use quant_system.Alpha.FeatureEngine.{Engine, init, take_off, evict, append_trade, on_trade}

module _ ⦃N : Num⦄ where
  pub record Tick : Type 0 where
    pub price : Float
    pub quantity : Float
    pub is_buyer_maker : Bool
    pub timestamp_ms : ℕ

  -- The engine's window is the list of trades `w`, and its sums are those of the window.
  pub record Holds (w : List Tick) (e : Engine) : Type 0 where
    pub prices : e.prices ≡ map (λ (t : Tick). t.price) w
    pub quantities : e.quantities ≡ map (λ (t : Tick). t.quantity) w
    pub sides : e.sides ≡ map (λ (t : Tick). t.is_buyer_maker) w
    pub timestamps : e.timestamps ≡ map (λ (t : Tick). t.timestamp_ms) w
    pub pv_sum : e.pv_sum ≡ sum (map (λ (t : Tick). t.price ⊗ t.quantity) w)
    pub v_sum : e.v_sum ≡ sum (map (λ (t : Tick). t.quantity) w)

  abbrev value : Tick → Float
  value t = t.price ⊗ t.quantity

  abbrev pub push : Tick → Engine → Option Engine
  push t e = on_trade t.price t.quantity t.is_buyer_maker t.timestamp_ms e

  evict_room :
      (w : List Tick) (e : Engine)
      → Holds w e
      → eqb (length w) e.window_size ≡ false
      → evict e ≡ some e
  unfolding evict
  evict_room w e h room = rw (h.prices, length-map (λ (t : Tick). t.price) w, room) refl

  evict_full :
      (t : Tick) (w : List Tick) (e : Engine)
      → Holds (t ∷ w) e
      → eqb (suc (length w)) e.window_size ≡ true
      → evict e
        ≡ some (record e { pv_sum = e.pv_sum ⊖ t.price ⊗ t.quantity; v_sum = e.v_sum ⊖ t.quantity })
  unfolding evict take_off
  evict_full t w e h full =
      rw (h.prices, h.quantities, length-map (λ (t : Tick). t.price) w, full) refl

  -- Both lists of the window after a trade.
  window_after :
      {B : Type 0} (f : Tick → B) (n : ℕ) (t : Tick) (w : List Tick) (xs : List B)
      → xs ≡ map f w
      → append_max n (f t) xs ≡ map f (append_max n t w)
  window_after f n t w xs e = rw e (append_max-map f n t w)

module _ ⦃N : Num⦄ (X : IsExact) where
  sum_room :
      (f : Tick → Float) (t : Tick) (w : List Tick) (s : Float)
      → s ≡ sum (map f w)
      → s ⊕ f t ≡ sum (map f (w ++ t ∷ []))
  sum_room f t w s e = rw (e, map-append f w t) (sym (sum-append X (map f w) (f t)))

  sum_full :
      (f : Tick → Float) (old t : Tick) (w : List Tick) (s : Float)
      → s ≡ sum (map f (old ∷ w))
      → s ⊖ f old ⊕ f t ≡ sum (map f (w ++ t ∷ []))
  sum_full f old t w s e =
      rw (e, map-append f w t, sum-append X (map f w) (f t))
        (ring X (f old ∷ sum (map f w) ∷ f t ∷ [])
          (Expr.plus (Expr.minus (Expr.plus (Expr.var 0) (Expr.var 1)) (Expr.var 0)) (Expr.var 2))
          (Expr.plus (Expr.var 1) (Expr.var 2)) refl)

  -- The trade is taken, and the window is then the one of the deques.
  abbrev After : ℕ → Tick → List Tick → Engine → Type 0
  After n t w e =
      (e' : Engine) × (push t e ≡ some e')
      × (e'.window_size ≡ suc n)
      × Holds (append_max (suc n) t w) e'

  -- What is left to show once the oldest trade is off the sums.
  appended :
      (n : ℕ) (t : Tick) (w : List Tick) (e e1 : Engine)
      → evict e ≡ some e1
      → e1.window_size ≡ suc n
      → (e1.prices ≡ map (λ (t : Tick). t.price) w)
        × (e1.quantities ≡ map (λ (t : Tick). t.quantity) w)
        × (e1.sides ≡ map (λ (t : Tick). t.is_buyer_maker) w)
        × (e1.timestamps ≡ map (λ (t : Tick). t.timestamp_ms) w)
      → e1.pv_sum ⊕ value t ≡ sum (map value (append_max (suc n) t w))
      → e1.v_sum ⊕ t.quantity ≡ sum (map (λ (t : Tick). t.quantity) (append_max (suc n) t w))
      → After n t w e
  unfolding on_trade append_trade
  appended n t w e e1 evicted size (ps, qs, ss, ts) pv v = (
    append_trade t.price t.quantity t.is_buyer_maker t.timestamp_ms e1,
    rw (evicted, on_trade) refl,
    size,
    record {
      prices = rw size (window_after (λ (t : Tick). t.price) (suc n) t w e1.prices ps);
      quantities = rw size (window_after (λ (t : Tick). t.quantity) (suc n) t w e1.quantities qs);
      sides = rw size (window_after (λ (t : Tick). t.is_buyer_maker) (suc n) t w e1.sides ss);
      timestamps =
          rw size (window_after (λ (t : Tick). t.timestamp_ms) (suc n) t w e1.timestamps ts);
      pv_sum = pv;
      v_sum = v;
    },
  )

  append_room :
      (n : ℕ) (t : Tick) (w : List Tick)
      → length w ≤ suc n
      → eqb (length w) (suc n) ≡ false
      → append_max (suc n) t w ≡ w ++ t ∷ []
  unfolding append_max
  append_room n t w h room = ground arith

  append_full :
      (n : ℕ) (old t : Tick) (w : List Tick)
      → eqb (suc (length w)) (suc n) ≡ true
      → append_max (suc n) t (old ∷ w) ≡ w ++ t ∷ []
  unfolding append_max
  append_full n old t w full = ground arith

  push_full :
      (n : ℕ) (t : Tick) (w : List Tick) (e : Engine)
      → e.window_size ≡ suc n
      → Holds w e
      → eqb (length w) (suc n) ≡ true
      → After n t w e
  push_full n t [] e size h full = absurd (ground arith)
  push_full n t (old ∷ w) e size h full =
      appended n t (old ∷ w) e
        (record e { pv_sum = e.pv_sum ⊖ old.price ⊗ old.quantity; v_sum = e.v_sum ⊖ old.quantity })
        (evict_full old w e h (rw size full)) size (h.prices, h.quantities, h.sides, h.timestamps)
        (rw (append_full n old t w full) (sum_full value old t w e.pv_sum h.pv_sum))
        (rw (append_full n old t w full)
          (sum_full (λ (t : Tick). t.quantity) old t w e.v_sum h.v_sum))

  -- One trade on a window of at most `suc n` trades.
  push-Holds :
      (n : ℕ) (t : Tick) (w : List Tick) (e : Engine)
      → e.window_size ≡ suc n
      → length w ≤ suc n
      → Holds w e
      → After n t w e
  push-Holds n t w e size short h = elim (Bool-cases (eqb (length w) (suc n))) [
    | inr room ↦
        appended n t w e e (evict_room w e h (rw size room)) size
          (h.prices, h.quantities, h.sides, h.timestamps)
          (rw (append_room n t w short room) (sum_room value t w e.pv_sum h.pv_sum))
          (rw (append_room n t w short room)
            (sum_room (λ (t : Tick). t.quantity) t w e.v_sum h.v_sum))
    | inl full ↦ push_full n t w e size h full
  ]

  unfoldable pub trades : List Tick → Option Engine → Option Engine
  trades [] e = e
  trades (t ∷ ts) none = none
  trades (t ∷ ts) (some e) = trades ts (push t e)

  trades-Holds :
      (n : ℕ) (past ts : List Tick) (e : Engine)
      → e.window_size ≡ suc n
      → Holds (latest (suc n) past) e
      → (e' : Engine) × (trades ts (some e) ≡ some e') × Holds (latest (suc n) (past ++ ts)) e'
  unfolding trades
  trades-Holds n past [] e size h = (e, refl, rw (append-nil past) h)
  trades-Holds n past (t ∷ ts) e size h =
      let (e1, pushed, size1, h1) =
        push-Holds n t (latest (suc n) past) e size (length-latest (suc n) past) h in
      let (e', ran, h') =
        trades-Holds n (past ++ t ∷ []) ts e1 size1 (rw (append_max-latest n t past) at h1) in
      (e', rw pushed ran, rw (append_assoc past (t ∷ []) ts) at h')

  -- Under exact arithmetic: a feature engine with room for at least one trade takes any trades
  -- without raising, its deques then hold the last `window_size` of them (all, if there are fewer),
  -- and the running sums that it adds to and subtracts from are the sums over these.
  pub trades_window :
      (symbol : String) (n : ℕ) (ts : List Tick)
      → (e : Engine) × (trades ts (some (init symbol (suc n))) ≡ some e)
        × Holds (latest (suc n) ts) e
  unfolding init
  trades_window symbol n ts = trades-Holds n [] ts (init symbol (suc n)) refl (
      rw latest-nil record {
        prices = refl;
        quantities = refl;
        sides = refl;
        timestamps = refl;
        pv_sum = refl;
        v_sum = refl;
      })
