-- ===== src/Core/Portfolio/Sync.antt =====
-- What the risk gateway reads after the post-trade service has written.
use quant_system.Prelude.{
  ◌≡◌, inl, inr, refl, ap, ◌∙◌, String, Bool, true, false, Option, none, some, List, [], ◌∷◌,
  nonempty, get_or, arith, Bool-cases, if◌then◌else◌,
}
use quant_system.Prelude.Eq.{◌==◌, string_eq}
use quant_system.Prelude.Dict.{Dict, lookup, insert, lookup-insert}
use quant_system.Core.Keys.{position_key, position_key_cancel, last_part}
use quant_system.Num.{Num, Float, ◌≈◌, nought}
use quant_system.Core.Portfolio.{
  Hash, hset, PositionData, position_fields, write_positions, number_or, entry, add, found, collect,
}

-- A text is in a list.
abbrev pub mentions : String → List String → Bool
mentions k [] = false
mentions k (j ∷ js) = if j == k then true else mentions k js

-- Each key of a dict stands in it once.
abbrev pub IsDict : {V : Type 0} → Dict String V → Type 0
IsDict [] = Unit
IsDict ((k, v) ∷ d) = (lookup k d ≡ none) × IsDict d

-- What HSET with a mapping leaves under a field.
abbrev pub given : List (String × String) → String → Option String → Option String
given [] k old = old
given ((j, v) ∷ kvs) k old = given kvs k (if j == k then some v else old)

pub lookup-hset :
    (kvs : List (String × String)) (h : Hash) (k : String)
    → lookup k (hset kvs h) ≡ given kvs k (lookup k h)
unfolding hset
lookup-hset [] h k = refl
lookup-hset ((j, v) ∷ kvs) h k = rw (lookup-hset kvs (insert j v h) k, lookup-insert j k v h)

pub nonempty-insert : (k v : String) (h : Hash) → nonempty (insert k v h) ≡ true
unfolding insert
nonempty-insert k v [] = refl
nonempty-insert k v ((j, w) ∷ h) = ground arith

-- No other key of a list is read as the same symbol.
abbrev pub IsApart : List String → String → Type 0
IsApart ks k = (j : String) → mentions j ks ≡ true → last_part j ≡ last_part k → j ≡ k

position_key_ne :
    (run j k : String) → (j == k) ≡ false → (position_key run j == position_key run k) ≡ false
position_key_ne run j k h = ground (
  arith,
  string_eq.equals_iff j k,
  string_eq.equals_iff (position_key run j) (position_key run k),
  position_key_cancel run j k,
)

module _ ⦃N : Num⦄ where
  -- The hash of a position has its quantity in it.
  abbrev pub HasQuantity : (Float → String) → Hash → Float → Type 0
  HasQuantity str h q = lookup "quantity" h ≡ some (str q)

  write-HasQuantity :
      (str : Float → String) (p : PositionData) (h : Hash)
      → HasQuantity str (hset (position_fields str p) h) p.quantity
  unfolding hset
  write-HasQuantity str p h = lookup-hset (position_fields str p) h "quantity"

  pub write_positions_other :
      (str : Float → String) (run : String) (ps : Dict String PositionData)
      (stored : Dict String Hash) (k : String)
      → lookup k ps ≡ none
      → lookup (position_key run k) (write_positions str run ps stored)
        ≡ lookup (position_key run k) stored
  unfolding write_positions lookup
  write_positions_other str run [] stored k e = refl
  write_positions_other str run ((j, p) ∷ ps) stored k e =
      let key = position_key run j in
      let fields = hset (position_fields str p) (get_or (lookup key stored) []) in
      let apart = position_key_ne run j k (ground (arith, e)) in
      write_positions_other str run ps (insert key fields stored) k (ground (arith, e))
      ∙ rw (lookup-insert key (position_key run k) fields stored, apart)

  pub write_positions_written :
      (str : Float → String) (run : String) (ps : Dict String PositionData)
      (stored : Dict String Hash) (k : String) (p : PositionData)
      → IsDict ps
      → lookup k ps ≡ some p
      → (h : Hash) × (lookup (position_key run k) (write_positions str run ps stored) ≡ some h)
        × HasQuantity str h p.quantity
  unfolding write_positions lookup
  write_positions_written str run [] stored k p u e = absurd (ground (arith, e))
  write_positions_written str run ((j, p') ∷ ps) stored k p (fresh, u) e =
      let key = position_key run j in
      let fields = hset (position_fields str p') (get_or (lookup key stored) []) in
      elim (Bool-cases (j == k)) [
        | inl same ↦
            let jk = (string_eq.equals_iff j k).0 same in
            let eq : p' ≡ p = ground (arith, rw same at e) in
            (
              fields,
              write_positions_other str run ps (insert key fields stored) k (rw jk at fresh)
                  ∙ rw (
                    ← jk,
                    lookup-insert key key fields stored,
                    (string_eq.equals_iff key key).1 refl,
                  ),
              rw (← eq) (write-HasQuantity str p' (get_or (lookup key stored) [])),
            )
        | inr other ↦
            write_positions_written str run ps (insert key fields stored) k p u (rw other at e)
      ]

  -- One symbol of the scan: the quantity of its position, when it has one.
  abbrev pub Holds : (Float → String) → Dict String Hash → String → Float → Type 0
  Holds str stored k q = (h : Hash) × (lookup k stored ≡ some h) × HasQuantity str h q

  pub entry_of :
      (str : Float → String) (float : String → Option Float)
      → ((x : Float) → float (str x) ≡ some x)
      → (stored : Dict String Hash) (k : String) (q : Float) → Holds str stored k q
      → entry float stored k ≡ some (if q ≈ nought then none else some q)
  unfolding entry number_or lookup
  entry_of str float trip stored k q ([], e, quantity) = absurd (ground (arith, quantity))
  entry_of str float trip stored k q (f ∷ h, e, quantity) = rw (e, quantity, trip q)

  -- The value that a loop over the symbols leaves under a key.
  abbrev pub after : Bool → Option Float → Option Float → Option Float
  after true (some q) old = some q
  after true none old = old
  after false o old = old

  lookup-add :
      (s k : String) (o : Option Float) (d : Dict String Float)
      → lookup k (add s o d) ≡ after (s == k) o (lookup k d)
  lookup-add s k none d = ground arith
  lookup-add s k (some q) d = ground (arith, lookup-insert s k q d)

  after_once : (m : Bool) (o old : Option Float) → after m o (after true o old) ≡ after true o old
  after_once m o old = ground arith

  abbrev pub Entered : (String → Option Float) → Dict String Hash → List String → Type 0
  Entered float stored ks =
      (k : String) → mentions k ks ≡ true → (o : Option Float) × (entry float stored k ≡ some o)

  collect_one :
      (float : String → Option Float) (stored : Dict String Hash) (s : String) (o : Option Float)
      (ks : List String) (d : Dict String Float)
      → entry float stored s ≡ some o
      → collect float stored (found (s ∷ ks)) d
        ≡ collect float stored (found ks) (add (last_part s) o d)
  unfolding collect found
  collect_one float stored s o ks d e = rw (collect, e) refl

  mentions_head : (s : String) (ks : List String) → mentions s (s ∷ ks) ≡ true
  mentions_head s ks = rw ((string_eq.equals_iff s s).1 refl)

  pub collect_entries :
      (float : String → Option Float) (stored : Dict String Hash) (ks : List String)
      (d : Dict String Float)
      → Entered float stored ks
      → (k : String) (o : Option Float) → entry float stored k ≡ some o
      → IsApart ks k
      → (d' : Dict String Float) × (collect float stored (found ks) d ≡ some d')
        × (lookup (last_part k) d' ≡ after (mentions k ks) o (lookup (last_part k) d))
  unfolding collect found
  collect_entries float stored [] d each k o e apart = (d, refl, refl)
  collect_entries float stored (s ∷ ks) d each k o e apart =
      let (os, es) = each s (mentions_head s ks) in
      let (d', ran, is) =
        collect_entries float stored ks (add (last_part s) os d) (λ j m. each j (ground (arith, m)))
          k o e (λ j m. apart j (ground (arith, m))) in
      (
        d',
        collect_one float stored s os ks d es ∙ ran,
        is
            ∙ (rw (lookup-add (last_part s) (last_part k) os d) (elim (Bool-cases (s == k)) [
              | inl same ↦
                  let sk = (string_eq.equals_iff s k).0 same in
                  let e' : entry float stored s ≡ some o = rw sk e in
                  let eq : os ≡ o = ground (arith, es, e') in
                  let named : (last_part s == last_part k) ≡ true =
                    (string_eq.equals_iff (last_part s) (last_part k)).1 (ap last_part sk) in
                  rw (same, eq, named) (after_once (mentions k ks) o (lookup (last_part k) d))
              | inr other ↦
                  let unnamed : (last_part s == last_part k) ≡ false = ground (
                    arith,
                    string_eq.equals_iff (last_part s) (last_part k),
                    string_eq.equals_iff s k,
                    apart s (mentions_head s ks),
                  ) in
                  rw (other, unnamed)
            ])),
      )
