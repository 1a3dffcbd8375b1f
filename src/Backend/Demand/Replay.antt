-- ===== src/Backend/Demand/Replay.antt =====
-- What the calls to the clusters come to, against the demand that was asked for: the replicas that a
-- cluster ends with are those of the last patch of each workload.
use bigfleet_demo.Common.{
  ℕ, ◌*◌, ◌≡◌, refl, sym, ap, ◌∙◌, Bool, true, false, ◌&&◌, Option, none, some, List, [], ◌∷◌, Text,
  text_eq, text_has_eq, if◌then◌else◌,
}
use bigfleet_demo.Common.Dict.{lookup}
use bigfleet_demo.Backend.Services.{namespace_of, tier_services}
use bigfleet_demo.Backend.Demand.{Demand, total_weight, replicas_of, set_tier_replicas, levels_of}
use bigfleet_demo.Backend.Demand.Levels.{level_of, level_of-set}
use bigfleet_demo.Backend.Demand.Patches.{
  DrivenTier, tier_name, same_tier, Drive, or_else, last_level, drive_all, replayed, has_service,
  or_else_assoc, or_else-none, replayed-set, batch, production, critical,
}

-- The services of a tier stand in its namespace and in no other's.
same_workloads :
    (a b : DrivenTier) (svc : Text)
    → has_service svc (tier_services (tier_name b)) ≡ true
    → (text_eq (namespace_of (tier_name a)) (namespace_of (tier_name b))
        && has_service svc (tier_services (tier_name a)))
      ≡ same_tier a b
unfolding namespace_of lookup text_eq tier_services
same_workloads batch batch svc h = h
same_workloads batch production svc h = refl
same_workloads batch critical svc h = refl
same_workloads production batch svc h = refl
same_workloads production production svc h = h
same_workloads production critical svc h = refl
same_workloads critical batch svc h = refl
same_workloads critical production svc h = refl
same_workloads critical critical svc h = h

same_name : (a b : DrivenTier) → text_eq (tier_name a) (tier_name b) ≡ same_tier a b
unfolding text_eq
same_name batch batch = refl
same_name batch production = refl
same_name batch critical = refl
same_name production batch = refl
same_name production production = refl
same_name production critical = refl
same_name critical batch = refl
same_name critical production = refl
same_name critical critical = refl

-- The replicas of a service of a tier at a level, for a budget.
abbrev pub replicas_at : ℕ → DrivenTier → Text → ℕ → ℕ
replicas_at budget t svc level =
    replicas_of (level * budget) (total_weight (tier_services (tier_name t))) svc

abbrev pub at_level : (ℕ → ℕ) → Option ℕ → Option ℕ
at_level f none = none
at_level f (some level) = some (f level)

at_level-or_else :
    (f : ℕ → ℕ) (o : Option ℕ) (b : Bool) (level : ℕ)
    → or_else (at_level f o) (if b then some (f level) else none)
      ≡ at_level f (or_else o (if b then some level else none))
at_level-or_else f (some l) b level = refl
at_level-or_else f none true level = refl
at_level-or_else f none false level = refl

-- Driving one tier, as the workloads of tier `t` see it.
driven_once :
    (budget : ℕ) (d : Drive) (s : Demand) (cl : Text) (t : DrivenTier) (svc : Text)
    → has_service svc (tier_services (tier_name t)) ≡ true
    → let s' = set_tier_replicas budget d.cluster (tier_name d.tier) d.level s in
      replayed cl (namespace_of (tier_name t)) svc s'.calls
      ≡ or_else
          (if text_eq d.cluster cl && same_tier d.tier t
            then some (replicas_at budget t svc d.level)
            else none)
          (replayed cl (namespace_of (tier_name t)) svc s.calls)
driven_once budget d s cl t svc h =
    let old = replayed cl (namespace_of (tier_name t)) svc s.calls in
    replayed-set cl (namespace_of (tier_name t)) svc budget d.level d.cluster (tier_name d.tier) s
    ∙ ap
        (λ b.
          or_else
            (if text_eq d.cluster cl && b
              then some (replicas_at budget d.tier svc d.level)
              else none)
            old)
        (same_workloads d.tier t svc h)
    ∙ ap (λ o. or_else o old) (named d.tier t (text_eq d.cluster cl))
  where
    off :
        (x y : ℕ) (c : Bool)
        → (if c && false then some x else none) ≡ (if c && false then some y else none)
    off x y true = refl
    off x y false = refl

    named :
        (a b : DrivenTier) (c : Bool)
        → (if c && same_tier a b then some (replicas_at budget a svc d.level) else none)
          ≡ (if c && same_tier a b then some (replicas_at budget b svc d.level) else none)
    named batch batch c = refl
    named batch production c = off _ _ c
    named batch critical c = off _ _ c
    named production batch c = off _ _ c
    named production production c = refl
    named production critical c = off _ _ c
    named critical batch c = off _ _ c
    named critical production c = off _ _ c
    named critical critical c = refl

replayed-drive_all :
    (budget : ℕ) (ds : List Drive) (s : Demand) (cl : Text) (t : DrivenTier) (svc : Text)
    → has_service svc (tier_services (tier_name t)) ≡ true
    → replayed cl (namespace_of (tier_name t)) svc (drive_all budget ds s).calls
      ≡ or_else
          (at_level (replicas_at budget t svc) (last_level ds cl t))
          (replayed cl (namespace_of (tier_name t)) svc s.calls)
unfolding drive_all last_level
replayed-drive_all budget [] s cl t svc h = refl
replayed-drive_all budget (d ∷ ds) s cl t svc h =
    let s' = set_tier_replicas budget d.cluster (tier_name d.tier) d.level s in
    let f = replicas_at budget t svc in
    let last = last_level ds cl t in
    let old = replayed cl (namespace_of (tier_name t)) svc s.calls in
    let here = text_eq d.cluster cl && same_tier d.tier t in
    replayed-drive_all budget ds s' cl t svc h
    ∙ ap (or_else (at_level f last)) (driven_once budget d s cl t svc h)
    ∙ sym (or_else_assoc (at_level f last) (if here then some (f d.level) else none) old)
    ∙ ap (λ o. or_else o old) (at_level-or_else f last here d.level)

level_of-drive_all :
    (budget : ℕ) (ds : List Drive) (s : Demand) (cl : Text) (t : DrivenTier)
    → level_of cl (tier_name t) (drive_all budget ds s)
      ≡ or_else (last_level ds cl t) (level_of cl (tier_name t) s)
unfolding drive_all last_level
level_of-drive_all budget [] s cl t = refl
level_of-drive_all budget (d ∷ ds) s cl t =
    let s' = set_tier_replicas budget d.cluster (tier_name d.tier) d.level s in
    let old = level_of cl (tier_name t) s in
    level_of-drive_all budget ds s' cl t
    ∙ ap (or_else (last_level ds cl t)) (
        level_of-set budget d.level d.cluster (tier_name d.tier) s cl (tier_name t)
        ∙ ap (λ b. if text_eq d.cluster cl && b then some d.level else old) (same_name d.tier t)
        ∙ chosen (text_eq d.cluster cl && same_tier d.tier t))
    ∙ sym (or_else_assoc (last_level ds cl t) _ old)
  where
    chosen :
        (b : Bool)
        → (if b then some d.level else level_of cl (tier_name t) s)
          ≡ or_else (if b then some d.level else none) (level_of cl (tier_name t) s)
    chosen true = refl
    chosen false = refl

abbrev pub new_demand : Demand
new_demand = record { ensure_done = []; demand_level = []; calls = [] }

-- Whatever tiers were driven since the start, and in whatever order: for each cluster and tier, the
-- level that is remembered is the level asked for last, and replaying the calls leaves each service of
-- the tier at the replicas of that level, and unpatched where none was asked for.
pub drive_all_refines :
    (budget : ℕ) (ds : List Drive) (cl : Text) (t : DrivenTier) (svc : Text)
    → has_service svc (tier_services (tier_name t)) ≡ true
    → let s = drive_all budget ds new_demand in
      (level_of cl (tier_name t) s ≡ last_level ds cl t)
      × (replayed cl (namespace_of (tier_name t)) svc s.calls
          ≡ at_level (replicas_at budget t svc) (level_of cl (tier_name t) s))
unfolding levels_of lookup replayed
drive_all_refines budget ds cl t svc h =
    let level = level_of-drive_all budget ds new_demand cl t ∙ or_else-none (last_level ds cl t) in
    (
      level,
      replayed-drive_all budget ds new_demand cl t svc h
          ∙ or_else-none (at_level (replicas_at budget t svc) (last_level ds cl t))
          ∙ ap (at_level (replicas_at budget t svc)) (sym level),
    )
