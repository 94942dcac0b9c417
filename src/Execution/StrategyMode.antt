-- ===== src/Execution/StrategyMode.antt =====
-- services/execution/execution_svc/strategy_mode.py: the registry of trading modes and the HTTP
-- handler over it. A request is its parsed path and query; a body is the text it would show.
pub mod Requests
use quant_system.Prelude.{
  ℕ, String, Bool, true, false, not, ◌&&◌, ◌||◌, Option, none, some, List, [], ◌∷◌, get_or,
  if◌then◌else◌,
}
use quant_system.Prelude.Eq.{◌==◌, string_eq}
use quant_system.Prelude.Dict.{Dict, lookup, insert, erase}

pub record Manager : Type 0 where
  pub default_mode : String
  pub modes : Dict String String

-- `mode in VALID_MODES`
abbrev pub is_valid : String → Bool
is_valid mode = mode == "paper" || mode == "live"

-- `get_mode`
unfoldable pub get_mode : String → Manager → String
get_mode strategy_id m = get_or (lookup strategy_id m.modes) m.default_mode

-- `set_mode`; `none` is the ValueError.
unfoldable pub set_mode : String → String → Manager → Option Manager
set_mode strategy_id mode m =
    if is_valid mode then some (record m { modes = insert strategy_id mode m.modes }) else none

-- `remove_override`
unfoldable pub remove_override : String → Manager → Manager
remove_override strategy_id m = record m { modes = erase strategy_id m.modes }

-- `"live" in self._modes.values()`
pub any_live : Dict String String → Bool
any_live [] = false
any_live ((k, mode) ∷ d) = mode == "live" || any_live d

-- `has_any_live`
unfoldable pub has_any_live : Manager → Bool
unfolding any_live
has_any_live m = if m.default_mode == "live" then true else any_live m.modes

-- What `do_GET` and `do_POST` answer.
pub data Response : Type 0 where
  modes : String → Dict String String → Bool → Response
  healthy not_found params_required id_required bad_mode client_missing : Response
  mode_set : String → String → Response
  mode_reset : String → String → Response

-- The status code that goes with it.
pub code : Response → ℕ
code not_found = 404
code params_required = 400
code id_required = 400
code bad_mode = 400
code client_missing = 400
code _ = 200

pub do_get : String → Bool → Manager → Response
do_get path live_client_ready m =
    if path == "/api/strategy-modes"
    then modes m.default_mode m.modes live_client_ready
    else if path == "/health"
    then healthy
    else not_found

-- `not x` of a query parameter: it is missing or empty.
abbrev pub missing : Option String → Bool
missing none = true
missing (some x) = x == ""

-- The body of the request to set a mode, once both parameters are there.
pub post_set : String → String → Bool → Manager → Response × Manager
post_set strategy_id mode live_client_ready m =
    if not (is_valid mode)
    then (bad_mode, m)
    else if mode == "live" && not live_client_ready
    then (client_missing, m)
    else (mode_set strategy_id mode, get_or (set_mode strategy_id mode m) m)

unfoldable pub do_post :
    String → Option String → Option String → Bool → Manager → Response × Manager
unfolding post_set
do_post path strategy_id mode live_client_ready m =
    if path == "/api/strategy-modes/set"
    then (if missing strategy_id || missing mode
        then (params_required, m)
        else post_set (get_or strategy_id "") (get_or mode "") live_client_ready m)
    else if path == "/api/strategy-modes/reset"
    then (if missing strategy_id
        then (id_required, m)
        else let m' = remove_override (get_or strategy_id "") m in
          (mode_reset (get_or strategy_id "") (get_mode (get_or strategy_id "") m'), m'))
    else (not_found, m)
