-- ===== src/Host/Http/Keys.antt =====
-- Who gets past `auth`.
use bigfleet_demo.Common.{
  ◌≡◌, refl, ap, ◌∙◌, ◌↔◌, ◌⊎◌, ◌≢◌, inl, inr, true, false, some, [], ◌∷◌, ◌++◌, arith, Text, codes,
  Option-cases, text_eq_iff,
}
use bigfleet_demo.Host.Http.{cut_prefix, trim_prefix, bearer, authorized, serve_starts, auth_mode}

-- `cut_prefix` splits off exactly the prefix.
pub cut_prefix_iff : (p s r : Text) → (cut_prefix p s ≡ some r) ↔ (s ≡ p ++ r)
unfolding cut_prefix
cut_prefix_iff [] s r = ground arith
cut_prefix_iff (c ∷ p) [] r = ground arith
cut_prefix_iff (c ∷ p) (d ∷ s) r = ground (arith, cut_prefix_iff p s r)

-- A request passes only if a key is configured and the request carries it: in the header
-- `X-Demo-Key`, or, that header being empty, in `Authorization`, behind `Bearer ` or alone.
pub authorized_sound :
    (want demo_key authorization : Text)
    → authorized want demo_key authorization ≡ true
    → (want ≢ [])
      × ((demo_key ≡ want)
          ⊎ ((demo_key ≡ []) × ((authorization ≡ bearer ++ want) ⊎ (authorization ≡ want))))
unfolding authorized trim_prefix
authorized_sound [] demo_key authorization h = cc
authorized_sound (c ∷ w) (d ∷ k) authorization h =
    (λ e. cc, inl ((text_eq_iff (d ∷ k) (c ∷ w)).0 h))
authorized_sound (c ∷ w) [] authorization h =
    elim (Option-cases (cut_prefix bearer authorization)) [
      | inl e ↦
          let same = rw (e, authorized, trim_prefix) at h in
          (λ e. cc, inr (refl, inr ((text_eq_iff authorization (c ∷ w)).0 same)))
      | inr (r, e) ↦
          let same = rw (e, authorized, trim_prefix) at h in
          let split = (cut_prefix_iff bearer authorization r).0 e in
          let key : r ≡ c ∷ w = (text_eq_iff r (c ∷ w)).0 same in
          (λ e. cc, inr (refl, inl (split ∙ ap (◌++◌ bearer) key)))
    ]

-- The two ways in which a client is meant to send the key are accepted.
pub authorized_complete :
    (want authorization : Text)
    → want ≢ []
    → (authorized want want authorization ≡ true) × (authorized want [] (bearer ++ want) ≡ true)
unfolding authorized trim_prefix
authorized_complete [] authorization h = absurd (h refl)
authorized_complete (c ∷ w) authorization h = (
  (text_eq_iff (c ∷ w) (c ∷ w)).1 refl,
  rw ((cut_prefix_iff bearer (bearer ++ c ∷ w) (c ∷ w)).1 refl, authorized, trim_prefix)
      ((text_eq_iff (c ∷ w) (c ∷ w)).1 refl),
)

-- A daemon that is started with --dev-no-auth and without a key runs and says that authentication
-- is disabled, and refuses every request to the gated endpoints.
pub dev_no_auth_refuses :
    (demo_key authorization : Text)
    → (serve_starts [] true ≡ true)
      × (auth_mode [] true ≡ codes "DISABLED (dev)")
      × (authorized [] demo_key authorization ≡ false)
unfolding serve_starts auth_mode authorized
dev_no_auth_refuses demo_key authorization = (refl, refl, refl)
