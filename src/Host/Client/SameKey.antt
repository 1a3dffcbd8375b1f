-- ===== src/Host/Client/SameKey.antt =====
-- A client and a daemon that are given the same key in different places.
use bigfleet_demo.Common.{
  ◌≡◌, ℕ, refl, sym, ◌∙◌, ap, subst, All-append, ◌≢◌, Bool, true, false, Option, some, [], ◌∷◌,
  ◌++◌, Text, All, text_eq_iff, Bool-cases, inl, inr,
}
use mathlib.Core.List.{reverse, reverse-append, reverse-reverse}
use bigfleet_demo.Host.State.{Config, new_host}
use bigfleet_demo.Host.Http.{
  is_space, trim_left, trim_space, is_empty, resolve_key, authorized, presented_key, serve_starts,
}
use bigfleet_demo.Host.Serve.{Found, Serving, Startup, no_key, build_failed, serving, serve_main}
use bigfleet_demo.Host.Client
use bigfleet_demo.Host.Client.{
  Subcommand, create, ls, capacity, rm, Outgoing, Sent, bad_usage, sends, request_of, client_main,
}

-- White space only, and none.
abbrev pub IsBlank : Text → Type 0
IsBlank s = All (λ c. is_space c ≡ true) s

abbrev pub IsSolid : Text → Type 0
IsSolid s = All (λ c. is_space c ≡ false) s

trim_left-blank : (s t : Text) → IsBlank s → trim_left (s ++ t) ≡ trim_left t
unfolding trim_left
trim_left-blank [] t a = refl
trim_left-blank (c ∷ s) t a = rw (a.0, trim_left) (trim_left-blank s t a.1)

trim_left-solid : (s t : Text) → IsSolid s → s ≢ [] → trim_left (s ++ t) ≡ s ++ t
unfolding trim_left
trim_left-solid [] t a ne = absurd (ne refl)
trim_left-solid (c ∷ s) t a ne = rw (a.0, trim_left) refl

All-reverse : (P : ℕ → Type 0) (s : Text) → All P s → All P (reverse s)
All-reverse P [] a = tt
All-reverse P (c ∷ s) a =
    subst (All P) (sym (reverse-append (c ∷ []) s))
      (All-append P (reverse s) (c ∷ []) (All-reverse P s a.1) (a.0, tt))

trim_left-all : (s : Text) → IsSolid s → trim_left s ≡ s
unfolding trim_left
trim_left-all [] a = refl
trim_left-all (c ∷ s) a = rw (a.0, trim_left) refl

-- White space around a key does not count.
trim_space-around :
    (before key after : Text)
    → IsBlank before
    → IsSolid key
    → key ≢ []
    → IsBlank after
    → trim_space (before ++ (key ++ after)) ≡ key
unfolding trim_space
trim_space-around before key after b k ne a =
    let left : trim_left (before ++ (key ++ after)) ≡ key ++ after =
      trim_left-blank before (key ++ after) b ∙ trim_left-solid key after k ne in
    let right : trim_left (reverse after ++ reverse key) ≡ reverse key =
      trim_left-blank (reverse after) (reverse key) (All-reverse (λ c. is_space c ≡ true) after a)
      ∙ trim_left-all (reverse key) (All-reverse (λ c. is_space c ≡ false) key k) in
    ap (λ t. reverse (trim_left (reverse t))) left
    ∙ ap (λ t. reverse (trim_left t)) (reverse-append key after)
    ∙ ap reverse right
    ∙ reverse-reverse key

is_empty-ne : (s : Text) → s ≢ [] → is_empty s ≡ false
is_empty-ne [] ne = absurd (ne refl)
is_empty-ne (c ∷ s) ne = refl

-- A key in the file alone, and in the flag.
resolve-file :
    (inline env key : Text) (file : Option Text) (t : Text)
    → inline ≡ []
    → env ≡ []
    → file ≡ some t
    → trim_space t ≡ key
    → resolve_key inline env file ≡ key
unfolding resolve_key trim_space trim_left
resolve-file inline env key file t i e f k = rw (i, e, f, resolve_key) k

resolve-flag :
    (inline env key : Text) (file : Option Text)
    → trim_space inline ≡ key
    → key ≢ []
    → resolve_key inline env file ≡ key
unfolding resolve_key
resolve-flag inline env key file k ne = rw (k, is_empty-ne key ne, resolve_key) refl

abbrev Serves : Text → Startup → Type 0
Serves key no_key = Unit
Serves key build_failed = Unit
Serves key (serving s) = s.host.cfg.key ≡ key

served-key :
    (flags : Config) (dev : Bool) (f : Found)
    → Serves (resolve_key flags.key f.env_key f.key_file) (serve_main flags dev f)
unfolding serve_main new_host
served-key flags dev f =
    let key = resolve_key flags.key f.env_key f.key_file in
    elim (Bool-cases (serve_starts key dev)) [
      | inr e ↦ rw (e, serve_main) tt
      | inl e ↦ elim (Bool-cases f.is_built) [
        | inr q ↦ rw (e, q, serve_main) tt
        | inl q ↦ rw (e, q, serve_main) refl
      ]
    ]

abbrev Carries : Text → Outgoing → Type 0
Carries key Client.no_key = Unit
Carries key bad_usage = Unit
Carries key (sends r) = r.demo_key ≡ key

request_of-Carries :
    (server key : Text) (sub : Subcommand) → Carries key (request_of server key sub)
unfolding request_of
request_of-Carries server key create = refl
request_of-Carries server key ls = refl
request_of-Carries server key capacity = refl
request_of-Carries server key (rm []) = tt
request_of-Carries server key (rm (c ∷ id)) = refl

client_main-Carries :
    (server key : Text) (sub : Subcommand) → Carries key (client_main server key sub)
unfolding client_main
client_main-Carries server key sub = elim (Bool-cases (is_empty key)) [
  | inl e ↦ rw (e, client_main) tt
  | inr e ↦ rw (e, client_main) (request_of-Carries server key sub)
]

-- A daemon that serves and has its key from the key file alone, and a client that has the same key
-- from its flag, each with white space around it: every call that the client makes carries the key, and
-- the daemon lets it through. The key is not empty and holds no white space.
pub same_key_opens :
    (flags : Config) (dev : Bool) (f : Found) (s : Serving) (server inline env : Text)
    (file : Option Text) (sub : Subcommand) (r : Sent) (key lead trail ahead behind : Text)
    → IsSolid key
    → key ≢ []
    → IsBlank lead
    → IsBlank trail
    → IsBlank ahead
    → IsBlank behind
    → flags.key ≡ []
    → f.env_key ≡ []
    → f.key_file ≡ some (lead ++ (key ++ trail))
    → inline ≡ ahead ++ (key ++ behind)
    → serve_main flags dev f ≡ serving s
    → client_main server (resolve_key inline env file) sub ≡ sends r
    → (r.demo_key ≡ key) × (authorized s.host.cfg.key r.demo_key [] ≡ true)
unfolding authorized presented_key
same_key_opens flags dev f s server inline env file sub r key lead trail ahead behind solid ne
      blank_lead blank_trail blank_ahead blank_behind unset no_env found given up call =
    let theirs : s.host.cfg.key ≡ key =
      subst (Serves (resolve_key flags.key f.env_key f.key_file)) up (served-key flags dev f)
      ∙ resolve-file flags.key f.env_key key f.key_file (lead ++ (key ++ trail)) unset no_env found
          (trim_space-around lead key trail blank_lead solid ne blank_trail) in
    let ours : r.demo_key ≡ key =
      subst (Carries (resolve_key inline env file)) call
        (client_main-Carries server (resolve_key inline env file) sub)
      ∙ resolve-flag inline env key file
          (ap trim_space given
            ∙ trim_space-around ahead key behind blank_ahead solid ne blank_behind)
          ne in
    (ours, rw (theirs, ours) (same key ne))
  where
    same : (key : Text) → key ≢ [] → authorized key key [] ≡ true
    same [] ne = absurd (ne refl)
    same (c ∷ w) ne = (text_eq_iff (c ∷ w) (c ∷ w)).1 refl
