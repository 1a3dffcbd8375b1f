-- ===== src/Host/Client/Agreement.antt =====
-- The client against the daemon.
use bigfleet_demo.Common.{◌≡◌, refl, true, false, Option, Text, [], ◌∷◌, arith, text_eq_iff}
use bigfleet_demo.Host.Http.{resolve_key, authorized, is_empty}
use bigfleet_demo.Host.Client.{
  Subcommand, create, ls, capacity, rm, Outgoing, no_key, bad_usage, sends, request_of, client_main,
}

-- How a client's command ends against a daemon with the key `want`.
abbrev pub Agrees : Text → Subcommand → Outgoing → Type 0
Agrees want sub no_key = want ≡ []
Agrees want sub bad_usage = sub ≡ rm []
Agrees want sub (sends s) = authorized want s.demo_key [] ≡ true

accepted : (want : Text) → is_empty want ≡ false → authorized want want [] ≡ true
unfolding authorized
accepted [] h = absurd (ground (arith, h))
accepted (c ∷ w) h = (text_eq_iff (c ∷ w) (c ∷ w)).1 refl

request_of-Agrees :
    (server want : Text) (sub : Subcommand)
    → is_empty want ≡ false
    → Agrees want sub (request_of server want sub)
unfolding request_of
request_of-Agrees server want create h = accepted want h
request_of-Agrees server want ls h = accepted want h
request_of-Agrees server want capacity h = accepted want h
request_of-Agrees server want (rm []) h = refl
request_of-Agrees server want (rm (c ∷ id)) h = accepted want h

-- A client that finds the same flag, variable and key file as the daemon: its call is let through,
-- unless the daemon has no key or it is `rm` without an id, and then it makes no call.
pub client_main-Agrees :
    (server : Text) (sub : Subcommand) (inline env : Text) (file : Option Text)
    → let key = resolve_key inline env file in Agrees key sub (client_main server key sub)
unfolding client_main
client_main-Agrees server sub inline env file = on (resolve_key inline env file)
  where
    on : (key : Text) → Agrees key sub (client_main server key sub)
    on [] = refl
    on (c ∷ w) = request_of-Agrees server (c ∷ w) sub refl
