-- ===== src/Host/Scripts/Shutdown.antt =====
-- What `reapAll` takes down when the daemon stops.
use bigfleet_demo.Common.{
  ℕ, ◌≡◌, refl, sym, ap, ◌∙◌, inl, inr, Bool, true, false, Option, none, some, List, [], ◌∷◌, arith,
  bit, map, Text, text_eq, text_eq_iff, text_has_eq, Bool-cases,
}
use bigfleet_demo.Common.Dict.{Dict, lookup, Unique}
use bigfleet_demo.Common.Dict.Every.{Every}
use bigfleet_demo.Host.State.{Config, Session}
use bigfleet_demo.Host.World.{Event, run, boot}
use bigfleet_demo.Host.World.Consistent.{EntryOk}
use bigfleet_demo.Host.World.Registry.{run-IsConsistent}
use bigfleet_demo.Host.Scripts.{Command, reap_command, reap_all}
use bigfleet_demo.Host.Scripts.Once.{times}

abbrev pub is_registered : Option Session → Bool
is_registered none = false
is_registered (some s) = true

module _ (cfg : Config) (id : Text) where
  abbrev downs : Dict Text Session → List Command
  downs m = map (λ (e : Text × Session). reap_command cfg e.1.id e.1.port_base) m

  times-missing :
      (m : Dict Text Session)
      → Every (EntryOk cfg) m
      → is_registered (lookup id m) ≡ false
      → times id (downs m) ≡ 0
  unfolding reap_command lookup text_eq
  times-missing [] a h = refl
  times-missing ((k, s) ∷ m) (own, a) h = elim (Bool-cases (text_eq k id)) [
    | inl e ↦ absurd (ground (arith, rw (e, lookup) at h))
    | inr e ↦ rw (own.0, e) (omega (arith, times-missing m a (rw (e, lookup) at h)))
  ]

  times-registered :
      (m : Dict Text Session)
      → Every (EntryOk cfg) m
      → Unique m
      → times id (downs m) ≡ bit (is_registered (lookup id m))
  unfolding reap_command lookup text_eq
  times-registered [] a u = refl
  times-registered ((k, s) ∷ m) (own, a) u = elim (Bool-cases (text_eq k id)) [
    | inl e ↦
        let same : k ≡ id = (text_eq_iff k id).0 e in
        let gone : is_registered (lookup id m) ≡ false =
          sym (ap (λ t. is_registered (lookup t m)) same) ∙ ap is_registered u.0 in
        rw (own.0, e, times-missing m a gone) refl
    | inr e ↦ rw (own.0, e) (omega (arith, times-registered m a u.1))
  ]

-- When the daemon stops, after any history, each session of its registry is taken down once, and
-- nothing else is.
pub reap_all_once :
    (cfg : Config) (machine_mb : ℕ) (es : List Event) (id : Text)
    → let h = (run es (boot cfg machine_mb)).host in
      times id (reap_all h) ≡ bit (is_registered (lookup id h.sessions))
unfolding reap_all
reap_all_once cfg mb es id =
    let c = run-IsConsistent cfg mb es in
    let h = (run es (boot cfg mb)).host in
    ap
      (λ (g : Config).
        times id (map (λ (e : Text × Session). reap_command g e.1.id e.1.port_base) h.sessions))
      c.same_cfg
    ∙ times-registered cfg id h.sessions c.entries c.unique
