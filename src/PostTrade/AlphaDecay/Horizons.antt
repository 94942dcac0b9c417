-- ===== src/PostTrade/AlphaDecay/Horizons.antt =====
-- The returns at the horizons of a tracked signal.
use quant_system.Prelude.{
  ℕ, ◌+◌, ◌≤◌, ◌≡◌, ◌≢◌, inl, inr, refl, true, false, Option, none, some, List, [], ◌∷◌, ◌&&◌, All,
  All-map, arith, leb, le→leb, Bool-cases, if◌then◌else◌,
}
use quant_system.Prelude.Eq.{◌==◌, string_eq, nat_eq}
use quant_system.Prelude.Dict.{Dict, lookup, insert, lookup-insert}
use quant_system.Num.{Num, Float, ◌⊖◌, ◌⊘◌, ◌≈◌, nought}
use quant_system.PostTrade.AlphaDecay.{TrackedSignal, all_filled, pending, fill_due, evaluate}

module _ ⦃N : Num⦄ where
  -- A horizon has a return, and a horizon is a key of the dict.
  abbrev pub HasReturn : Dict ℕ (Option Float) → ℕ → Type 0
  HasReturn d h = (r : Float) × (lookup h d ≡ some (some r))

  abbrev pub IsKey : Dict ℕ (Option Float) → ℕ → Type 0
  IsKey d h = (o : Option Float) × (lookup h d ≡ some o)

  -- The dict after one horizon of the loop.
  abbrev one : ℕ → Float → ℕ → ℕ → Dict ℕ (Option Float) → Dict ℕ (Option Float)
  one now ret start h d =
      if pending (lookup h d) && leb (start + h) now then insert h (some ret) d else d

  one_keeps :
      (now : ℕ) (ret : Float) (start h k : ℕ) (d : Dict ℕ (Option Float)) (r : Float)
      → lookup k d ≡ some (some r)
      → lookup k (one now ret start h d) ≡ some (some r)
  one_keeps now ret start h k d r e =
      ground (arith, lookup-insert h k (some ret) d, nat_eq.equals_iff h k)

  fill_due_keeps :
      (now : ℕ) (ret : Float) (start k : ℕ) (hs : List ℕ) (d : Dict ℕ (Option Float)) (r : Float)
      → lookup k d ≡ some (some r)
      → lookup k (fill_due now ret start hs d) ≡ some (some r)
  unfolding fill_due
  fill_due_keeps now ret start k [] d r e = e
  fill_due_keeps now ret start k (h ∷ hs) d r e =
      fill_due_keeps now ret start k hs (one now ret start h d) r
        (one_keeps now ret start h k d r e)

  one_gives_return :
      (now : ℕ) (ret : Float) (start h : ℕ) (d : Dict ℕ (Option Float))
      → start + h ≤ now
      → IsKey d h
      → HasReturn (one now ret start h d) h
  one_gives_return now ret start h d due (some r, e) = (r, one_keeps now ret start h h d r e)
  one_gives_return now ret start h d due (none, e) = (
    ret,
    ground (
      arith,
      e,
      le→leb (start + h) now due,
      lookup-insert h h (some ret) d,
      nat_eq.equals_iff h h,
    ),
  )

  one_keeps_IsKey :
      (now : ℕ) (ret : Float) (start h k : ℕ) (d : Dict ℕ (Option Float))
      → IsKey d k
      → IsKey (one now ret start h d) k
  one_keeps_IsKey now ret start h k d (some r, e) = (some r, one_keeps now ret start h k d r e)
  one_keeps_IsKey now ret start h k d (none, e) =
      elim (Bool-cases (pending (lookup h d) && leb (start + h) now && (h == k))) [
        | inl t ↦
            (some ret, ground (arith, e, t, lookup-insert h k (some ret) d, nat_eq.equals_iff h k))
        | inr f ↦
            (none, ground (arith, e, f, lookup-insert h k (some ret) d, nat_eq.equals_iff h k))
      ]

  fill_due_fills :
      (now : ℕ) (ret : Float) (start : ℕ) (hs : List ℕ) (d : Dict ℕ (Option Float))
      → All (λ h. start + h ≤ now) hs
      → All (IsKey d) hs
      → All (HasReturn (fill_due now ret start hs d)) hs
  unfolding fill_due
  fill_due_fills now ret start [] d due keys = tt
  fill_due_fills now ret start (h ∷ hs) d (d0, due) (k0, keys) =
      let (r, e) = one_gives_return now ret start h d d0 k0 in
      (
        (r, fill_due_keeps now ret start h hs (one now ret start h d) r e),
        fill_due_fills now ret start hs (one now ret start h d) due
            (All-map (λ k key. one_keeps_IsKey now ret start h k d key) hs keys),
      )

  all_filled_no_gap :
      (d : Dict ℕ (Option Float)) (h : ℕ) → all_filled d ≡ true → lookup h d ≢ some none
  unfolding lookup
  all_filled_no_gap [] h full e = ground (arith, e)
  all_filled_no_gap ((k, r) ∷ d) h full e = ground (arith, e, full, all_filled_no_gap d h)

  all_filled-HasReturn :
      (d : Dict ℕ (Option Float)) (h : ℕ) → all_filled d ≡ true → IsKey d h → HasReturn d h
  all_filled-HasReturn d h full (some r, e) = (r, e)
  all_filled-HasReturn d h full (none, e) = absurd (all_filled_no_gap d h full e)

  -- A signal of the traded symbol, with a mid price, has a return at each of the tracker's horizons
  -- after a trade at which all of them are due, if each is a key of its dict of returns.
  pub horizons_get_returns :
      (horizons : List ℕ) (now : ℕ) (price : Float) (sig : TrackedSignal)
      → (sig.mid_price ≈ nought) ≡ false
      → All (λ h. sig.timestamp_ms + h ≤ now) horizons
      → All (IsKey sig.horizon_returns) horizons
      → All (HasReturn (evaluate horizons sig.symbol now price sig).horizon_returns) horizons
  unfolding evaluate
  horizons_get_returns horizons now price sig priced due keys =
      elim (Bool-cases (all_filled sig.horizon_returns)) [
        | inl full ↦
            rw (full)
              (All-map (λ h key. all_filled-HasReturn sig.horizon_returns h full key) horizons keys)
        | inr gap ↦
            rw (gap, priced, (string_eq.equals_iff sig.symbol sig.symbol).1 refl)
              (fill_due_fills now ((price ⊖ sig.mid_price) ⊘ sig.mid_price) sig.timestamp_ms
                horizons sig.horizon_returns due keys)
      ]
