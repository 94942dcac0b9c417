-- ===== src/Execution/StrategyMode/Requests.antt =====
-- The modes under requests: what a request changes, and what no request can do.
use quant_system.Prelude.{
  ◌≡◌, ◌⊎◌, inl, inr, refl, String, Bool, true, false, Option, none, some, List, [], ◌∷◌, arith,
  get_or, Bool-cases, if◌then◌else◌,
}
use quant_system.Prelude.Eq.{◌==◌, string_eq}
use quant_system.Prelude.Dict.{Dict, lookup, insert, erase, lookup-insert}
use quant_system.Execution.StrategyMode.{
  Manager, is_valid, get_mode, set_mode, remove_override, any_live, has_any_live, do_post,
}

-- All requests, one after the other, at one readiness of the exchange client.
pub record Post : Type 0 where
  pub path : String
  pub strategy_id : Option String
  pub mode : Option String

pub serve : Bool → List Post → Manager → Manager
serve ready [] m = m
serve ready (p ∷ ps) m = serve ready ps (do_post p.path p.strategy_id p.mode ready m).1

-- A mode set for a strategy is what it then trades in, and no other strategy's mode changes; any
-- other mode than paper and live is refused.
get_mode-set_mode :
    (k j mode : String) (m : Manager)
    → (is_valid mode ≡ true
        × ((m' : Manager) × (set_mode k mode m ≡ some m')
            × (get_mode j m' ≡ (if k == j then mode else get_mode j m))))
      ⊎ ((is_valid mode ≡ false) × (set_mode k mode m ≡ none))
unfolding get_mode set_mode
get_mode-set_mode k j mode m = elim (Bool-cases (is_valid mode)) [
  | inl e ↦ inl (
    e,
    (
      record m { modes = insert k mode m.modes },
      ground arith,
      ground (arith, lookup-insert k j mode m.modes),
    ),
  )
  | inr e ↦ inr (e, ground arith)
]

any_live-insert :
    (k mode : String) (d : Dict String String)
    → (mode == "live") ≡ false
    → any_live d ≡ false
    → any_live (insert k mode d) ≡ false
unfolding any_live insert
any_live-insert k mode [] h e = ground arith
any_live-insert k mode ((j, w) ∷ d) h e = ground (arith, any_live-insert k mode d h)

any_live-erase :
    (k : String) (d : Dict String String) → any_live d ≡ false → any_live (erase k d) ≡ false
unfolding any_live erase
any_live-erase k [] e = refl
any_live-erase k ((j, w) ∷ d) e = ground (arith, any_live-erase k d)

post-not_live :
    (path : String) (k mode : Option String) (m : Manager)
    → has_any_live m ≡ false
    → has_any_live (do_post path k mode false m).1 ≡ false
unfolding has_any_live do_post set_mode remove_override
post-not_live path k mode m h = ground (
  arith,
  any_live-insert (get_or k "") (get_or mode "") m.modes,
  any_live-erase (get_or k "") m.modes,
)

-- Without an exchange client, no sequence of requests to the HTTP API puts a strategy in live
-- mode.
pub no_client_no_live :
    (ps : List Post) (m : Manager)
    → has_any_live m ≡ false
    → has_any_live (serve false ps m) ≡ false
unfolding serve
no_client_no_live [] m h = h
no_client_no_live (p ∷ ps) m h =
    no_client_no_live ps (do_post p.path p.strategy_id p.mode false m).1
      (post-not_live p.path p.strategy_id p.mode m h)

any_live-lookup :
    (k mode : String) (d : Dict String String)
    → any_live d ≡ false
    → lookup k d ≡ some mode
    → (mode == "live") ≡ false
unfolding any_live lookup
any_live-lookup k mode [] h e = cc
any_live-lookup k mode ((j, w) ∷ d) h e = ground (arith, any_live-lookup k mode d)
