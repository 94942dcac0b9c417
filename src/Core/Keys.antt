-- ===== src/Core/Keys.antt =====
-- lib/quant_core/redis_utils.py: the key of a position, and the part of a key that the reader of
-- lib/quant_core/portfolio_state.py takes for the symbol.
use Prim.Native.Char.{code}
use quant_system.Prelude.{
  ◌≡◌, refl, ap, sym, ◌∙◌, String, Bool, false, ◌||◌, List, [], ◌∷◌, eqb, arith, Bool-cases, inl,
  inr, if◌then◌else◌,
}

-- The concatenation of texts.
unfoldable pub append : String → String → String
append String.[] t = t
append (String.◌∷◌ c s) t = String.◌∷◌ c (append s t)

-- `positions:{run_id}:`, and `Keys.position`
unfoldable pub position_prefix : String → String
unfolding append
position_prefix run_id = append "positions:" (append run_id ":")

unfoldable pub position_key : String → String → String
unfolding append position_prefix
position_key run_id symbol = append (position_prefix run_id) symbol

-- `key.split(":")`, which is never empty: its first part and the others.
unfoldable pub split : String → String × List String
split String.[] = (String.[], [])
split (String.◌∷◌ c s) =
    let (w, ws) = split s in if eqb (code c) b':' then (String.[], w ∷ ws) else (String.◌∷◌ c w, ws)

abbrev pub last : String → List String → String
last w [] = w
last w (x ∷ xs) = last x xs

-- `key.split(":")[-1]`
unfoldable pub last_part : String → String
unfolding split
last_part key = let (w, ws) = split key in last w ws

abbrev pub has_colon : String → Bool
has_colon String.[] = false
has_colon (String.◌∷◌ c s) = eqb (code c) b':' || has_colon s

abbrev rest : String → String
rest String.[] = String.[]
rest (String.◌∷◌ c s) = s

append_cancel : (p a b : String) → append p a ≡ append p b → a ≡ b
unfolding append
append_cancel String.[] a b e = e
append_cancel (String.◌∷◌ c p) a b e = append_cancel p a b (ap rest e)

append_assoc : (p q s : String) → append (append p q) s ≡ append p (append q s)
unfolding append
append_assoc String.[] q s = refl
append_assoc (String.◌∷◌ c p) q s = ap (String.◌∷◌ c) (append_assoc p q s)

-- Two symbols of one run have two keys.
pub position_key_cancel :
    (run_id a b : String) → position_key run_id a ≡ position_key run_id b → a ≡ b
unfolding position_key
position_key_cancel run_id a b = append_cancel (position_prefix run_id) a b

split-plain : (s : String) → has_colon s ≡ false → split s ≡ (s, [])
unfolding split
split-plain String.[] h = refl
split-plain (String.◌∷◌ c s) h =
    let plain : (eqb (code c) b':' ≡ false) × (has_colon s ≡ false) = ground (arith, h) in
    rw (split-plain s plain.1, plain.0) refl

-- Once a text has a colon, what stands before it is no part of the last one.
split-append :
    (p s : String)
    → (x : String) × (xs : List String) × ((split (append p (append ":" s))).1 ≡ x ∷ xs)
      × (last x xs ≡ last_part s)
unfolding split append last_part
split-append String.[] s = (_, _, refl, refl)
split-append (String.◌∷◌ c p) s =
    let (x, xs, e, l) = split-append p s in
    elim (Bool-cases (eqb (code c) b':')) [
      | inl colon ↦ rw (colon) (_, _, refl, rw (e) l)
      | inr other ↦ rw (other) (x, xs, e, l)
    ]

last_part-append : (p s : String) → last_part (append p (append ":" s)) ≡ last_part s
unfolding last_part
last_part-append p s = let (x, xs, e, l) = split-append p s in rw (e) l

last_part-plain : (s : String) → has_colon s ≡ false → last_part s ≡ s
unfolding last_part
last_part-plain s h = rw (split-plain s h) refl

key_parts :
    (run_id s : String) → position_key run_id s ≡ append (append "positions:" run_id) (append ":" s)
unfolding position_key position_prefix
key_parts run_id s =
    ap (λ (p : String). append p s) (sym (append_assoc "positions:" run_id ":"))
    ∙ append_assoc (append "positions:" run_id) ":" s

-- The reader takes back the symbol that the key was made of, if that has no colon.
pub last_part-position_key :
    (run_id s : String) → has_colon s ≡ false → last_part (position_key run_id s) ≡ s
last_part-position_key run_id s h =
    ap last_part (key_parts run_id s)
    ∙ last_part-append (append "positions:" run_id) s
    ∙ last_part-plain s h
