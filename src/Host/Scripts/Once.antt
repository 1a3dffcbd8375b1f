-- ===== src/Host/Scripts/Once.antt =====
-- A sweep takes each session of an earlier daemon down once.
use bigfleet_demo.Host.State.{Config}
use bigfleet_demo.Common.{
  map, bit, codes, ◌+◌, ℕ, ◌≡◌, refl, sym, ap, ◌∙◌, inl, inr, Bool, true, false, not, ◌&&◌, Option,
  none, some, List, [], ◌∷◌, arith, Text, text_eq, text_eq_iff, text_has_eq, Bool-cases,
  Option-cases,
}
use bigfleet_demo.Common.Dict.{lookup, insert, Unique}
use bigfleet_demo.Common.Dict.Counting.{insert-Unique}
use bigfleet_demo.Host.Http.{trim_space, is_empty}
use bigfleet_demo.Host.Memory.{split, cut_suffix}
use bigfleet_demo.Host.Scripts.{
  Script, demo_up, demo_down, demo_build, Setting, text, duration, Command, reap_command,
  sweep_orphans, Ids, Entry, cluster_suffixes, add_suffixes, add_lines, add_entries, orphans,
}
use bigfleet_demo.Host.Scripts.Sweep.{is_there, is_held, is_orphan, orphans-held}

abbrev is_down : Script → Bool
is_down demo_up = false
is_down demo_down = true
is_down demo_build = false

abbrev session_of : Option Setting → Text
session_of none = []
session_of (some (text t)) = t
session_of (some (duration d)) = []

module _ (id : Text) where
  -- The command takes down the stack of the session.
  abbrev takes_down : Command → Bool
  takes_down c = is_down c.script && text_eq (session_of (lookup (codes "SESSION_ID") c.env)) id

  abbrev pub times : List Command → ℕ
  times [] = 0
  times (c ∷ cs) = bit (takes_down c) + times cs

  -- The commands of a sweep of these ids.
  abbrev downs : Config → Ids → List Command
  downs cfg ids = map (λ (k : Text × Unit {0}). reap_command cfg k.0 0) ids

  times-missing : (cfg : Config) (ids : Ids) → is_held id ids ≡ false → times (downs cfg ids) ≡ 0
  unfolding reap_command lookup text_eq
  times-missing cfg [] h = refl
  times-missing cfg ((k, u) ∷ ids) h = elim (Bool-cases (text_eq k id)) [
    | inl e ↦ absurd (ground (arith, rw (e, lookup) at h))
    | inr e ↦ rw e (omega (arith, times-missing cfg ids (rw (e, lookup) at h)))
  ]

  times-held :
      (cfg : Config) (ids : Ids) → Unique ids → times (downs cfg ids) ≡ bit (is_held id ids)
  unfolding reap_command lookup text_eq
  times-held cfg [] h = refl
  times-held cfg ((k, u) ∷ ids) h = elim (Bool-cases (text_eq k id)) [
    | inl e ↦
        let same : k ≡ id = (text_eq_iff k id).0 e in
        let gone : is_held id ids ≡ false = sym (ap (λ t. is_held t ids) same) ∙ ap is_there h.0 in
        rw (e, times-missing cfg ids gone) refl
    | inr e ↦ rw e (omega (arith, times-held cfg ids h.1))
  ]

add_suffixes-Unique :
    (sufs : List Text) (ln : Text) (ids : Ids) → Unique ids → Unique (add_suffixes sufs ln ids)
unfolding add_suffixes
add_suffixes-Unique [] ln ids u = u
add_suffixes-Unique (suf ∷ sufs) ln ids u = elim (Option-cases (cut_suffix suf ln)) [
  | inl e ↦ rw e (add_suffixes-Unique sufs ln ids u)
  | inr (k, e) ↦ rw e (add_suffixes-Unique sufs ln (insert k tt ids) (insert-Unique k tt ids u))
]

add_lines-Unique : (lns : List Text) (ids : Ids) → Unique ids → Unique (add_lines lns ids)
unfolding add_lines
add_lines-Unique [] ids u = u
add_lines-Unique (ln ∷ lns) ids u =
    add_lines-Unique lns _ (add_suffixes-Unique cluster_suffixes (trim_space ln) ids u)

add_entries-Unique : (es : List Entry) (ids : Ids) → Unique ids → Unique (add_entries es ids)
unfolding add_entries
add_entries-Unique [] ids u = u
add_entries-Unique (e ∷ es) ids u = elim (Bool-cases (e.is_dir && not (is_empty e.name))) [
  | inl b ↦ rw b (add_entries-Unique es _ (insert-Unique e.name tt ids u))
  | inr b ↦ rw b (add_entries-Unique es ids u)
]

orphans-Unique : (out : Option Text) (es : Option (List Entry)) → Unique (orphans out es)
unfolding orphans
orphans-Unique none none = tt
orphans-Unique none (some es) = add_entries-Unique es [] tt
orphans-Unique (some s) none = add_lines-Unique (split 10 (trim_space s)) [] tt
orphans-Unique (some s) (some es) =
    add_entries-Unique es _ (add_lines-Unique (split 10 (trim_space s)) [] tt)

-- A sweep takes down, once each, exactly the sessions of which a cluster is listed under one of the
-- three names of its clusters or which have a directory.
pub sweep_orphans_once :
    (cfg : Config) (id : Text) (out : Option Text) (entries : Option (List Entry))
    → times id (sweep_orphans cfg out entries) ≡ bit (is_orphan id out entries)
unfolding sweep_orphans
sweep_orphans_once cfg id out entries =
    times-held id cfg (orphans out entries) (orphans-Unique out entries)
    ∙ ap bit (orphans-held id out entries)
