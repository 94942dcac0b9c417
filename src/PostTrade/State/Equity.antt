-- ===== src/PostTrade/State/Equity.antt =====
-- A fill changes the equity of the portfolio by what it cost against the market, and its fee.
use quant_system.Prelude.{
  ◌≡◌, inl, inr, refl, sym, ap, ◌∙◌, String, true, some, [], ◌∷◌, arith, Bool-cases, Option-cases,
}
use quant_system.Prelude.Eq.{string_eq}
use quant_system.Prelude.Dict.{Dict, lookup, insert, lookup-insert}
use quant_system.Num.{Num, Float, ◌⊕◌, ◌⊖◌, ◌⊗◌}
use quant_system.Num.Exact.{IsExact}
use quant_system.Num.Ring.{Expr, ring}
use quant_system.PostTrade.Pnl.{
  Position, signed_qty, same_direction, apply_fill, unrealized_pnl, get_or_create, mark_of,
}
use quant_system.PostTrade.Pnl.Increase.{IsExactAverage}
use quant_system.PostTrade.Pnl.Mark.{apply_fill_moves_value}
use quant_system.PostTrade.Tca.{TcaResult}
use quant_system.PostTrade.State.{
  State, FillRecord, compute_equity, book_fill, record_fill, analyze, process_fill,
}
use quant_system.PostTrade.State.Worth.{over, worth, over-insert, compute_equity-eq, worth-flat}

module _ ⦃N : Num⦄ where
  -- Every position is kept under its own symbol.
  abbrev pub AllNamed : Dict String Position → Type 0
  AllNamed ps = (k : String) (p : Position) → lookup k ps ≡ some p → p.symbol ≡ k

  get_or_create-symbol :
      (k : String) (ps : Dict String Position) → AllNamed ps → (get_or_create k ps).symbol ≡ k
  unfolding get_or_create
  get_or_create-symbol k ps named = elim (Option-cases (lookup k ps)) [
    | inl e ↦ rw e
    | inr (p, e) ↦ rw e (named k p e)
  ]

  apply_fill-symbol :
      (quantity price fee : Float) (side : String) (p : Position)
      → (apply_fill quantity price fee side p).1.symbol ≡ p.symbol
  unfolding apply_fill
  apply_fill-symbol quantity price fee side p =
      elim (Bool-cases (same_direction p.quantity (signed_qty side quantity))) [
        | inl e ↦ rw e
        | inr e ↦ rw e
      ]

  apply_fill-fees :
      (quantity price fee : Float) (side : String) (p : Position)
      → (apply_fill quantity price fee side p).1.total_fees ≡ p.total_fees ⊕ fee
  unfolding apply_fill
  apply_fill-fees quantity price fee side p =
      elim (Bool-cases (same_direction p.quantity (signed_qty side quantity))) [
        | inl e ↦ rw e
        | inr e ↦ rw e
      ]

  pub book_fill-AllNamed :
      (fill : FillRecord) (st : State)
      → AllNamed st.positions
      → AllNamed (book_fill fill st).positions
  unfolding book_fill
  book_fill-AllNamed fill st named k p e =
      let old = get_or_create fill.symbol st.positions in
      ground (
        arith,
        lookup-insert fill.symbol k
            (apply_fill fill.quantity fill.fill_price fill.fee fill.side old).1 st.positions,
        named k p,
        string_eq.equals_iff fill.symbol k,
        apply_fill-symbol fill.quantity fill.fill_price fill.fee fill.side old,
        get_or_create-symbol fill.symbol st.positions named,
      )

  mark_of-eq :
      (prices : Dict String Float) (p : Position) (k : String) (mark : Float)
      → p.symbol ≡ k
      → lookup k prices ≡ some mark
      → mark_of prices p ≡ mark
  mark_of-eq prices p k mark named price = rw (named, price)

module _ ⦃N : Num⦄ (X : IsExact) where
  -- What the fill does to the worth of its position.
  worth-apply_fill :
      (fill : FillRecord) (prices : Dict String Float) (p : Position) (mark : Float)
      → p.symbol ≡ fill.symbol
      → lookup fill.symbol prices ≡ some mark
      → (same_direction p.quantity (signed_qty fill.side fill.quantity) ≡ true
          → IsExactAverage X (signed_qty fill.side fill.quantity) fill.fill_price p)
      → let r = (apply_fill fill.quantity fill.fill_price fill.fee fill.side p).1 in
        worth prices r
        ≡ worth prices p
          ⊕ (signed_qty fill.side fill.quantity ⊗ (mark ⊖ fill.fill_price) ⊖ fill.fee)
  worth-apply_fill fill prices p mark named price exact =
      let r = (apply_fill fill.quantity fill.fill_price fill.fee fill.side p).1 in
      let moved = signed_qty fill.side fill.quantity ⊗ (mark ⊖ fill.fill_price) in
      let named_r : r.symbol ≡ fill.symbol =
        apply_fill-symbol fill.quantity fill.fill_price fill.fee fill.side p ∙ named in
      rw
        (
          mark_of-eq prices r fill.symbol mark named_r price,
          mark_of-eq prices p fill.symbol mark named price,
          apply_fill-fees fill.quantity fill.fill_price fill.fee fill.side p,
          apply_fill_moves_value X mark fill.quantity fill.fill_price fill.fee fill.side p exact,
        )
        (ring X (p.realized_pnl ∷ unrealized_pnl mark p ∷ moved ∷ p.total_fees ∷ fill.fee ∷ [])
          (Expr.minus (Expr.plus (Expr.plus (Expr.var 0) (Expr.var 1)) (Expr.var 2))
            (Expr.plus (Expr.var 3) (Expr.var 4)))
          (Expr.plus (Expr.minus (Expr.plus (Expr.var 0) (Expr.var 1)) (Expr.var 3))
            (Expr.minus (Expr.var 2) (Expr.var 4)))
          refl)

  shift : (a b x d y : Float) → y ≡ x ⊕ d → a ⊕ x ≡ b ⊕ y → a ≡ b ⊕ d
  shift a b x d y e h =
      ring X (a ∷ x ∷ []) (Expr.var 0)
        (Expr.minus (Expr.plus (Expr.var 0) (Expr.var 1)) (Expr.var 1)) refl
      ∙ ap (λ (t : Float). t ⊖ x) (h ∙ ap (λ (t : Float). b ⊕ t) e)
      ∙ ring X (b ∷ x ∷ d ∷ [])
          (Expr.minus (Expr.plus (Expr.var 0) (Expr.plus (Expr.var 1) (Expr.var 2))) (Expr.var 1))
          (Expr.plus (Expr.var 0) (Expr.var 2)) refl

  book_fill_moves_equity :
      (fill : FillRecord) (st : State) (mark : Float)
      → AllNamed st.positions
      → lookup fill.symbol st.latest_prices ≡ some mark
      → let s = signed_qty fill.side fill.quantity in
        let p = get_or_create fill.symbol st.positions in
        (same_direction p.quantity s ≡ true → IsExactAverage X s fill.fill_price p)
        → compute_equity (book_fill fill st)
          ≡ compute_equity st ⊕ (s ⊗ (mark ⊖ fill.fill_price) ⊖ fill.fee)
  unfolding book_fill
  book_fill_moves_equity fill st mark named price exact =
      let p = get_or_create fill.symbol st.positions in
      let r = (apply_fill fill.quantity fill.fill_price fill.fee fill.side p).1 in
      let w = worth st.latest_prices in
      let d = signed_qty fill.side fill.quantity ⊗ (mark ⊖ fill.fill_price) ⊖ fill.fee in
      compute_equity-eq X (book_fill fill st)
      ∙ ap (λ (t : Float). st.initial_equity ⊕ t)
          (shift (over w (insert fill.symbol r st.positions)) (over w st.positions) (w p) d (w r)
            (worth-apply_fill fill st.latest_prices p mark
              (get_or_create-symbol fill.symbol st.positions named) price exact)
            (over-insert X w fill.symbol r st.positions
              (worth-flat X st.latest_prices fill.symbol)))
      ∙ sym (X.add_assoc st.initial_equity (over w st.positions) d)
      ∙ ap (λ (t : Float). t ⊕ d) (sym (compute_equity-eq X st))

  compute_equity-record_fill :
      (fill : FillRecord) (tca : TcaResult) (st : State)
      → compute_equity (record_fill fill tca st) ≡ compute_equity st
  unfolding compute_equity record_fill
  compute_equity-record_fill fill tca st = refl

  -- Under exact arithmetic, in a portfolio that keeps each position under its symbol and knows a
  -- latest price for the fill's: processing a fill changes the equity by the signed quantity times
  -- the distance of the fill's price from the latest price, less the fee, and by nothing else,
  -- whether the call raises in the cost analysis or not. (An enlarged position's average is taken
  -- to be the exact quotient.)
  pub process_fill_moves_equity :
      (fill : FillRecord) (st : State) (mark : Float)
      → AllNamed st.positions
      → lookup fill.symbol st.latest_prices ≡ some mark
      → (same_direction
              (get_or_create fill.symbol st.positions).quantity
              (signed_qty fill.side fill.quantity)
            ≡ true
          → IsExactAverage X
              (signed_qty fill.side fill.quantity)
              fill.fill_price
              (get_or_create fill.symbol st.positions))
      → compute_equity (process_fill fill st).0
        ≡ compute_equity st
          ⊕ (signed_qty fill.side fill.quantity ⊗ (mark ⊖ fill.fill_price) ⊖ fill.fee)
  unfolding process_fill
  process_fill_moves_equity fill st mark named price exact =
      let booked = book_fill_moves_equity fill st mark named price exact in
      elim (Option-cases (analyze fill (book_fill fill st))) [
        | inl e ↦ rw (e, process_fill) booked
        | inr (tca, e) ↦
            rw (e, process_fill) (compute_equity-record_fill fill tca (book_fill fill st) ∙ booked)
      ]
