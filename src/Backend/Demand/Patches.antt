-- ===== src/Backend/Demand/Patches.antt =====
-- What a list of calls comes to: the replicas of the last patch of a workload, and the demand that a
-- list of drives asks for.
use bigfleet_demo.Common.{
  ℕ, ◌*◌, ◌≡◌, refl, sym, ap, ◌∙◌, inl, inr, Bool, true, false, ◌&&◌, ◌||◌, Option, none, some,
  List, [], ◌∷◌, ◌++◌, map, Text, codes, text_eq, text_eq_iff, text_has_eq, if◌then◌else◌,
  Bool-cases,
}
use bigfleet_demo.Backend.Services.{namespace_of, tier_services}
use bigfleet_demo.Backend.Demand.{
  Demand, Call, create_namespace, create_deployment, create_daemon_set, patch_replicas, call,
  ensure_tier, ensure_daemon_sets, is_ensured, ensure_deployments, total_weight, replicas_of,
  set_tier_replicas,
}

-- The tiers that the backend drives.
pub data DrivenTier : Type 0 where
  batch : DrivenTier
  production : DrivenTier
  critical : DrivenTier

abbrev pub tier_name : DrivenTier → Text
tier_name batch = codes "baseline"
tier_name production = codes "demand"
tier_name critical = codes "critical"

abbrev pub same_tier : DrivenTier → DrivenTier → Bool
same_tier batch batch = true
same_tier batch production = false
same_tier batch critical = false
same_tier production batch = false
same_tier production production = true
same_tier production critical = false
same_tier critical batch = false
same_tier critical production = false
same_tier critical critical = true

-- A tier of a cluster is driven to a level.
pub record Drive : Type 0 where
  pub cluster : Text
  pub tier : DrivenTier
  pub level : ℕ

-- What the first holds, or else the second.
abbrev pub or_else {ℓ} : {A : Type ℓ} → Option A → Option A → Option A
or_else (some a) o = some a
or_else none o = o

-- The specification: the level that was asked for last.
unfoldable pub last_level : List Drive → Text → DrivenTier → Option ℕ
last_level [] cl t = none
last_level (d ∷ ds) cl t =
    or_else (last_level ds cl t)
      (if text_eq d.cluster cl && same_tier d.tier t then some d.level else none)

unfoldable pub drive_all : ℕ → List Drive → Demand → Demand
drive_all budget [] s = s
drive_all budget (d ∷ ds) s =
    drive_all budget ds (set_tier_replicas budget d.cluster (tier_name d.tier) d.level s)

-- The replicas that a call sets, if it patches this workload.
abbrev pub patch_of : Text → Text → Text → Text × Call → Option ℕ
patch_of cl ns svc (c, patch_replicas n s k) =
    if text_eq c cl && (text_eq n ns && text_eq s svc) then some k else none
patch_of cl ns svc (c, create_namespace n) = none
patch_of cl ns svc (c, create_deployment d) = none
patch_of cl ns svc (c, create_daemon_set d) = none

-- The replicas of a workload after these calls, where one patches it.
unfoldable pub replayed : Text → Text → Text → List (Text × Call) → Option ℕ
replayed cl ns svc [] = none
replayed cl ns svc (c ∷ cs) = or_else (replayed cl ns svc cs) (patch_of cl ns svc c)

unfoldable pub has_service : Text → List Text → Bool
has_service svc [] = false
has_service svc (s ∷ svcs) = text_eq s svc || has_service svc svcs

pub or_else_assoc {ℓ} :
    {A : Type ℓ} (a b c : Option A) → or_else (or_else a b) c ≡ or_else a (or_else b c)
or_else_assoc (some a) b c = refl
or_else_assoc none b c = refl

pub or_else-none {ℓ} : {A : Type ℓ} (a : Option A) → or_else a none ≡ a
or_else-none (some a) = refl
or_else-none none = refl

-- A later patch of the same workload sets the same number.
pub merge :
    (a b m h : Bool) (y x : ℕ)
    → (m ≡ true → y ≡ x)
    → or_else (if a && (b && h) then some x else none) (if a && (b && m) then some y else none)
      ≡ (if a && (b && (m || h)) then some x else none)
merge false b m h y x e = refl
merge true false m h y x e = refl
merge true true true true y x e = refl
merge true true true false y x e = ap some (e refl)
merge true true false true y x e = refl
merge true true false false y x e = refl

module _ (cl ns svc : Text) where
  pub replayed-append :
      (xs ys : List (Text × Call))
      → replayed cl ns svc (xs ++ ys) ≡ or_else (replayed cl ns svc ys) (replayed cl ns svc xs)
  unfolding replayed
  replayed-append [] ys = sym (or_else-none (replayed cl ns svc ys))
  replayed-append (x ∷ xs) ys =
      ap (λ o. or_else o (patch_of cl ns svc x)) (replayed-append xs ys)
      ∙ or_else_assoc (replayed cl ns svc ys) (replayed cl ns svc xs) (patch_of cl ns svc x)

  -- The patches of the services of a tier.
  pub replayed-patches :
      (c n : Text) (f : Text → ℕ) (svcs : List Text)
      → replayed cl ns svc (map (λ k. (c, k)) (map (λ s. patch_replicas n s (f s)) svcs))
        ≡ (if text_eq c cl && (text_eq n ns && has_service svc svcs) then some (f svc) else none)
  unfolding replayed has_service
  replayed-patches c n f [] = elim (Bool-cases (text_eq c cl)) [
    | inl e ↦ elim (Bool-cases (text_eq n ns)) [ inl h ↦ rw (e, h) refl | inr h ↦ rw (e, h) refl ]
    | inr e ↦ rw e refl
  ]
  replayed-patches c n f (s ∷ svcs) =
      ap
        (λ o.
          or_else o (if text_eq c cl && (text_eq n ns && text_eq s svc) then some (f s) else none))
        (replayed-patches c n f svcs)
      ∙ merge (text_eq c cl) (text_eq n ns) (text_eq s svc) (has_service svc svcs) (f s) (f svc)
          (λ e. ap f ((text_eq_iff s svc).0 e))

  pub ensured-replayed :
      (c : Text) (s : Demand)
      → replayed cl ns svc (ensure_deployments c s).calls ≡ replayed cl ns svc s.calls
  unfolding ensure_deployments call replayed ensure_tier ensure_daemon_sets tier_services text_eq
  ensured-replayed c s = elim (Bool-cases (is_ensured c s)) [
    | inl e ↦ rw (e, ensure_deployments) refl
    | inr e ↦ rw (e, ensure_deployments) (replayed-append s.calls _ ∙ refl)
  ]

  -- A tier that is set patches its workloads, and no other.
  pub replayed-set :
      (budget level : ℕ) (c tier : Text) (s : Demand)
      → replayed cl ns svc (set_tier_replicas budget c tier level s).calls
        ≡ or_else
            (if text_eq c cl
                && (text_eq (namespace_of tier) ns && has_service svc (tier_services tier))
              then some (replicas_of (level * budget) (total_weight (tier_services tier)) svc)
              else none)
            (replayed cl ns svc s.calls)
  unfolding set_tier_replicas call
  replayed-set budget level c tier s =
      let svcs = tier_services tier in
      replayed-append (ensure_deployments c s).calls _
      ∙ ap (or_else _) (ensured-replayed c s)
      ∙ ap (λ o. or_else o (replayed cl ns svc s.calls))
          (replayed-patches c (namespace_of tier)
            (λ k. replicas_of (level * budget) (total_weight svcs) k) svcs)
