-- ===== src/Fakecloud/Multiplex.antt =====
-- providers/fakecloud/multiplex.go and backend.go: one backend for the three clouds, which routes
-- by the prefix of a machine's id. The provisioning dwell only waits, and is left out.
pub mod Routes
pub mod Fleet
pub mod Size
use bigfleet_demo.Common.{
  ℕ, Bool, true, false, Option, none, some, List, [], ◌∷◌, ◌++◌, Text, codes, eqb, if◌then◌else◌,
  text_has_eq,
}
use bigfleet_demo.Common.Dict.{Dict, lookup}
use bigfleet_demo.Fakecloud.Catalog.{
  Kit, Instance, Catalog, HostRef, instances, onprem_catalog, aws_catalog, gcp_catalog,
}

pub record FakeBackend (k : Kit) : Type 0 where
  pub catalog : Catalog k

-- The sizes of `Options`.
pub record Options : Type 0 where
  pub onprem_bare_metal : ℕ
  pub aws_reserved : ℕ
  pub aws_on_demand : ℕ
  pub aws_spot : ℕ
  pub gcp_on_demand : ℕ
  pub gcp_spot : ℕ

abbrev or_default : ℕ → ℕ → ℕ
or_default n d = if eqb n 0 then d else n

unfoldable pub with_defaults : Options → Options
with_defaults o = record {
  onprem_bare_metal = or_default o.onprem_bare_metal 28;
  aws_reserved = or_default o.aws_reserved 20;
  aws_on_demand = or_default o.aws_on_demand 24;
  aws_spot = or_default o.aws_spot 12;
  gcp_on_demand = or_default o.gcp_on_demand 24;
  gcp_spot = or_default o.gcp_spot 12;
}

pub record MultiplexBackend (k : Kit) : Type 0 where
  pub subs : Dict Text (FakeBackend k)
  pub order : List Text

-- `id[:strings.IndexByte(id, '-')]`, or the whole id where it has no dash.
unfoldable pub prefix_of : Text → Text
prefix_of [] = []
prefix_of (c ∷ s) = if eqb c b'-' then [] else c ∷ prefix_of s

pub data Error : Type 0 where
  invalid_machine : Text → Error

pub data Result {ℓ} (A : Type ℓ) : Type ℓ where
  ok : A → Result A
  err : Error → Result A

infixl 5 ◌>>=◌
abbrev pub ◌>>=◌ {ℓ κ} : {A : Type ℓ} {B : Type κ} → Result A → (A → Result B) → Result B
ok a >>= f = f a
err e >>= f = err e

module _ (k : Kit) where
  unfoldable pub new : Options → MultiplexBackend k
  unfolding with_defaults
  new options =
      let o = with_defaults options in
      record {
        subs =
            (codes "onprem", record { catalog = onprem_catalog k o.onprem_bare_metal })
            ∷ (
              codes "aws",
              record { catalog = aws_catalog k o.aws_reserved o.aws_on_demand o.aws_spot },
            )
            ∷ (codes "gcp", record { catalog = gcp_catalog k o.gcp_on_demand o.gcp_spot })
            ∷ [];
        order = codes "onprem" ∷ codes "aws" ∷ codes "gcp" ∷ [];
      }

  unfoldable pub describe_sub : FakeBackend k → List (Instance k)
  describe_sub b = instances k b.catalog

  -- The loop of `Describe` over the order; `none` would be the nil backend of a missing key.
  unfoldable pub describe_order : Dict Text (FakeBackend k) → List Text → Option (List (Instance k))
  describe_order subs [] = some []
  describe_order subs (cloud ∷ order) = elim (lookup cloud subs) [
    | none ↦ none
    | some b ↦ elim (describe_order subs order) [
      | none ↦ none
      | some rest ↦ some (describe_sub b ++ rest)
    ]
  ]

  unfoldable pub describe : MultiplexBackend k → Option (List (Instance k))
  describe m = describe_order m.subs m.order

  unfoldable pub route : MultiplexBackend k → Text → Result (FakeBackend k)
  route m id = elim (lookup (prefix_of id) m.subs) [
    | none ↦ err (invalid_machine id)
    | some sub ↦ ok sub
  ]

  unfoldable pub create_sub : FakeBackend k → Text → Result HostRef
  create_sub b id = ok (record { provider = b.catalog.cloud; ref = codes "host-" ++ id })

  unfoldable pub create_instance : MultiplexBackend k → Text → Result HostRef
  create_instance m id = do sub ← route m id; create_sub sub id

  -- On this substrate the other calls of a cloud do nothing.
  unfoldable pub configure_sub : FakeBackend k → Result (Unit {0})
  configure_sub b = ok tt

  unfoldable pub configure_instance : MultiplexBackend k → Text → Result (Unit {0})
  configure_instance m id = do sub ← route m id; configure_sub sub

  unfoldable pub drain_sub : FakeBackend k → Result (Unit {0})
  drain_sub b = ok tt

  unfoldable pub drain_instance : MultiplexBackend k → Text → Result (Unit {0})
  drain_instance m id = do sub ← route m id; drain_sub sub

  unfoldable pub delete_sub : FakeBackend k → Result (Unit {0})
  delete_sub b = ok tt

  unfoldable pub delete_instance : MultiplexBackend k → Text → Result (Unit {0})
  delete_instance m id = do sub ← route m id; delete_sub sub
