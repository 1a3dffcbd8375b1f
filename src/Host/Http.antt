-- ===== src/Host/Http.antt =====
-- cmd/demohost/main.go: `auth`, `stats`, `sessionProxy`, `authMode` and the key check of
-- `serveMain`; flags.go: `resolveKey`.
pub mod Keys
use bigfleet_demo.Common.{
  ℕ, Bool, true, false, not, ◌&&◌, ◌||◌, Option, none, some, List, [], ◌∷◌, ◌++◌, Text, codes, ltb,
  leb, eqb, if◌then◌else◌, select, text_eq, text_has_eq,
}
use mathlib.Core.List.{reverse}
use bigfleet_demo.Common.Dict.{lookup}
use bigfleet_demo.Host.State.{Host, Completion, is_running}

-- The rest of a text behind a prefix that it has.
unfoldable pub cut_prefix : Text → Text → Option Text
cut_prefix [] s = some s
cut_prefix (c ∷ p) [] = none
cut_prefix (c ∷ p) (d ∷ s) = if eqb c d then cut_prefix p s else none

-- `strings.TrimPrefix`
unfoldable pub trim_prefix : Text → Text → Text
trim_prefix p s = elim (cut_prefix p s) [ none ↦ s | some r ↦ r ]

-- The white space of `strings.TrimSpace` among the ASCII bytes.
abbrev pub is_space : ℕ → Bool
is_space c = (leb 9 c && leb c 13) || eqb c b' '

unfoldable pub trim_left : Text → Text
trim_left [] = []
trim_left (c ∷ s) = if is_space c then trim_left s else c ∷ s

-- `strings.TrimSpace`
unfoldable pub trim_space : Text → Text
unfolding trim_left
trim_space s = reverse (trim_left (reverse (trim_left s)))

abbrev pub is_empty : Text → Bool
is_empty [] = true
is_empty (c ∷ s) = false

-- `file`: what reading the key file gives, `none` where no path is set or the read fails.
unfoldable pub resolve_key : Text → Text → Option Text → Text
resolve_key inline env file =
    if not (is_empty (trim_space inline))
    then trim_space inline
    else if not (is_empty (trim_space env))
    then trim_space env
    else elim file [ none ↦ [] | some b ↦ trim_space b ]

abbrev pub bearer : Text
bearer = codes "Bearer "

-- The key that a request carries.
unfoldable pub presented_key : Text → Text → Text
presented_key demo_key authorization =
    if is_empty demo_key then trim_prefix bearer authorization else demo_key

-- Whether `auth` lets a request through; the arguments are the coordinator key and the two headers.
unfoldable pub authorized : Text → Text → Text → Bool
unfolding presented_key
authorized want demo_key authorization =
    not (is_empty want) && text_eq (presented_key demo_key authorization) want

-- The check at the start of `serveMain`: false where the daemon stops with "no key".
unfoldable pub serve_starts : Text → Bool → Bool
serve_starts key dev_no_auth = not (is_empty key && not dev_no_auth)

unfoldable pub auth_mode : Text → Bool → Text
auth_mode key dev_no_auth =
    if dev_no_auth && is_empty key then codes "DISABLED (dev)" else codes "on"

-- `GET /v1/stats?since=`
unfoldable pub stats : ℕ → Host → List Completion
stats since h = select (λ c. ltb since c.ended_at) h.completions

-- `gone` is the status 410, `still_starting` 503; `forward` names the port and the path.
pub data Proxied : Type 0 where
  gone : Proxied
  still_starting : Proxied
  forward : ℕ → Text → Proxied

-- The path behind `/s/{id}`.
unfoldable pub backend_path : Text → Text → Text
backend_path id path =
    let p = trim_prefix (codes "/s/" ++ id) path in if is_empty p then codes "/" else p

unfoldable pub session_proxy : Text → Text → Host → Proxied
session_proxy id path h = elim (lookup id h.sessions) [
  | none ↦ gone
  | some s ↦
      if is_running s.state then forward s.port_base (backend_path id path) else still_starting
]
