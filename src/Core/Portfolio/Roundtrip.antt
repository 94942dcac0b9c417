-- ===== src/Core/Portfolio/Roundtrip.antt =====
-- The round trip of a portfolio through Redis.
use quant_system.Prelude.{
  ◌≡◌, ◌≢◌, ◌↔◌, refl, sym, ap, subst, ◌∙◌, String, true, false, Option, none, some, List, [],
  nonempty, arith, Option-cases, inl, inr, if◌then◌else◌,
}
use quant_system.Prelude.Eq.{string_eq}
use quant_system.Prelude.Dict.{Dict, lookup}
use quant_system.Core.Keys.{position_key, last_part, has_colon, last_part-position_key}
use quant_system.Num.{Num, Float, ◌≈◌, nought}
use quant_system.Core.Portfolio.{
  Hash, Store, hset, PositionData, Totals, summary_fields, initial_equity, write_positions,
  sync_portfolio_to_redis, Portfolio, number_or, entry, found, collect, read_stored,
  read_portfolio_from_redis,
}
use quant_system.Core.Portfolio.Sync.{
  mentions, IsDict, Holds, HasQuantity, IsApart, entry_of, collect_entries, Entered, given,
  lookup-hset, nonempty-insert, write_positions_other, write_positions_written,
}

module _ ⦃N : Num⦄ where
  -- The figures of a portfolio are those that were written.
  abbrev pub Reports : Totals → Portfolio → Type 0
  Reports t pf =
      (pf.current_equity ≡ t.current_equity)
      × (pf.peak_equity ≡ t.peak_equity)
      × (pf.realized_pnl ≡ t.realized_pnl)
      × (pf.unrealized_pnl ≡ t.unrealized_pnl)

  -- The hash of each position of a run has a quantity in it.
  abbrev pub Readable : (Float → String) → String → Dict String Hash → Type 0
  Readable str run d =
      (s : String) (h : Hash)
      → lookup (position_key run s) d ≡ some h
      → (q : Float) × HasQuantity str h q

  read_found :
      (float : String → Option Float) (upper : String → String) (scanned : List String) (r : Store)
      (a b c e : Float) (d : Dict String Float)
      → nonempty r.summary ≡ true
      → number_or float "current_equity" initial_equity r.summary ≡ some a
      → number_or float "peak_equity" initial_equity r.summary ≡ some b
      → number_or float "realized_pnl" nought r.summary ≡ some c
      → number_or float "unrealized_pnl" nought r.summary ≡ some e
      → collect float r.positions (found scanned) [] ≡ some d
      → read_portfolio_from_redis float upper [] scanned r
        ≡ some (record {
          positions = d;
          current_equity = a;
          peak_equity = b;
          realized_pnl = c;
          unrealized_pnl = e;
        })
  unfolding read_portfolio_from_redis read_stored
  read_found float upper scanned r a b c e d there ea eb ec ee ed = rw (there, ea, eb, ec, ee, ed)

-- What Redis documents of a SCAN that matches `positions:{run_id}:*`: it returns the keys that are
-- there and begin so, and no others.
abbrev pub Scanned : String → Dict String Hash → List String → Type 0
Scanned run stored ks =
    (k : String)
    → (mentions k ks ≡ true)
      ↔ ((lookup k stored ≢ none) × ((s : String) × (k ≡ position_key run s)))

-- What follows the prefix has no colon in any of the keys.
abbrev pub ArePlain : String → List String → Type 0
ArePlain run ks = (s : String) → mentions (position_key run s) ks ≡ true → has_colon s ≡ false

plain-IsApart :
    (run : String) (stored : Dict String Hash) (ks : List String) (s : String)
    → Scanned run stored ks
    → ArePlain run ks
    → has_colon s ≡ false
    → IsApart ks (position_key run s)
plain-IsApart run stored ks s scanned plain h j m e =
    let (a, at_a) = ((scanned j).0 m).1 in
    let named_a = last_part-position_key run a (plain a (rw at_a at m)) in
    let named_s = last_part-position_key run s h in
    at_a ∙ ap (position_key run) (sym named_a ∙ ap last_part (sym at_a) ∙ e ∙ named_s)

module _ ⦃N : Num⦄ (str : Float → String) (float : String → Option Float)
    (trip : (x : Float) → float (str x) ≡ some x) where
  pub field_read :
      (key : String) (x default : Float) (kvs : List (String × String)) (h : Hash)
      → given kvs key (lookup key h) ≡ some (str x)
      → number_or float key default (hset kvs h) ≡ some x
  unfolding number_or
  field_read key x default kvs h e = ground (arith, lookup-hset kvs h key, e, trip x)

  -- A key of the SCAN, of a position from before or written now, has its quantity in a hash.
  entered :
      (run : String) (ps : Dict String PositionData) (stored : Dict String Hash) (ks : List String)
      → IsDict ps
      → Readable str run stored
      → Scanned run (write_positions str run ps stored) ks
      → Entered float (write_positions str run ps stored) ks
  entered run ps stored ks u readable scanned k m =
      let all = write_positions str run ps stored in
      let (there, (s, at_s)) = (scanned k).0 m in
      subst (λ (j : String). (o : Option Float) × (entry float all j ≡ some o)) (sym at_s)
        (elim (Option-cases (lookup s ps)) [
          | inr (p, e) ↦ (
            _,
            entry_of str float trip all (position_key run s) p.quantity
                (write_positions_written str run ps stored s p u e),
          )
          | inl e ↦ elim (Option-cases (lookup (position_key run s) stored)) [
            | inr (h, f) ↦
                let (q, has) = readable s h f in
                (
                  _,
                  entry_of str float trip all (position_key run s) q
                      (h, write_positions_other str run ps stored s e ∙ f, has),
                )
            | inl f ↦ absurd (
                there (
                  ap (λ (j : String). lookup j all) at_s
                  ∙ write_positions_other str run ps stored s e
                  ∙ f))
          ]
        ])

  read-Holds :
      (upper : String → String) (scanned : List String) (ps : Dict String PositionData) (t : Totals)
      (r : Store) (k : String) (q : Float)
      → let stored = write_positions str r.run_id ps r.positions in
        IsDict ps
        → Readable str r.run_id r.positions
        → Scanned r.run_id stored scanned
        → ArePlain r.run_id scanned
        → Holds str stored (position_key r.run_id k) q
        → (pf : Portfolio) × (read_portfolio_from_redis float upper [] scanned
              (sync_portfolio_to_redis str ps t r)
            ≡ some pf)
          × Reports t pf
          × (lookup k pf.positions ≡ (if q ≈ nought then none else some q))
  unfolding sync_portfolio_to_redis lookup
  read-Holds upper scanned ps t r k q u readable seen plain holds =
      let stored = write_positions str r.run_id ps r.positions in
      let key = position_key r.run_id k in
      let present : mentions key scanned ≡ true =
        (seen key).1 ((λ gone. ground (arith, gone, holds.1)), (k, refl)) in
      let named = last_part-position_key r.run_id k (plain k present) in
      let (d, ran, is) =
        collect_entries float stored scanned []
          (entered r.run_id ps r.positions scanned u readable seen) key _
          (entry_of str float trip stored key q holds)
          (plain-IsApart r.run_id stored scanned k seen plain (plain k present)) in
      let fields = summary_fields str t in
      (
        _,
        read_found float upper scanned (sync_portfolio_to_redis str ps t r) t.current_equity
            t.peak_equity t.realized_pnl t.unrealized_pnl d
            (nonempty-insert "total_fees" (str t.total_fees) _)
            (field_read "current_equity" t.current_equity initial_equity fields r.summary refl)
            (field_read "peak_equity" t.peak_equity initial_equity fields r.summary refl)
            (field_read "realized_pnl" t.realized_pnl nought fields r.summary refl)
            (field_read "unrealized_pnl" t.unrealized_pnl nought fields r.summary refl) ran,
        (refl, refl, refl, refl),
        ground (arith, rw named at is, present),
      )

  -- The gateway reads back what the post-trade service wrote: the equities and the profits, and
  -- for a written position its quantity, or nothing when that is zero. It asks for no symbols, the
  -- SCAN returns the keys of the run's positions, whose symbols have no colon, `float` inverts
  -- `str`, the written positions are a dict, and each hash of a position of the run that was in
  -- Redis before holds the text of a quantity.
  pub read-sync :
      (upper : String → String) (scanned : List String) (ps : Dict String PositionData) (t : Totals)
      (r : Store) (k : String) (p : PositionData)
      → IsDict ps
      → Readable str r.run_id r.positions
      → Scanned r.run_id (write_positions str r.run_id ps r.positions) scanned
      → ArePlain r.run_id scanned
      → lookup k ps ≡ some p
      → (pf : Portfolio) × (read_portfolio_from_redis float upper [] scanned
            (sync_portfolio_to_redis str ps t r)
          ≡ some pf)
        × Reports t pf
        × (lookup k pf.positions ≡ (if p.quantity ≈ nought then none else some p.quantity))
  read-sync upper scanned ps t r k p u readable seen plain e =
      read-Holds upper scanned ps t r k p.quantity u readable seen plain
        (write_positions_written str r.run_id ps r.positions k p u e)

  -- Under the same conditions, a position that was in Redis and is not among the written ones is
  -- read back with its old quantity: the sync deletes no key.
  pub stale_position_read :
      (upper : String → String) (scanned : List String) (ps : Dict String PositionData) (t : Totals)
      (r : Store) (k : String) (q : Float)
      → IsDict ps
      → Readable str r.run_id r.positions
      → Scanned r.run_id (write_positions str r.run_id ps r.positions) scanned
      → ArePlain r.run_id scanned
      → lookup k ps ≡ none
      → Holds str r.positions (position_key r.run_id k) q
      → (pf : Portfolio) × (read_portfolio_from_redis float upper [] scanned
            (sync_portfolio_to_redis str ps t r)
          ≡ some pf)
        × Reports t pf
        × (lookup k pf.positions ≡ (if q ≈ nought then none else some q))
  stale_position_read upper scanned ps t r k q u readable seen plain gone (h, e, has) =
      read-Holds upper scanned ps t r k q u readable seen plain
        (h, write_positions_other str r.run_id ps r.positions k gone ∙ e, has)
