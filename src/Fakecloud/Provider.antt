-- ===== src/Fakecloud/Provider.antt =====
-- cmd/fakecloud-provider/main.go: the options that the flags give, the store, and how a run ends;
-- providers/fakecloud/dwell.go: the wait of a create. The gRPC server and the store are the
-- providerkit package's: what they answer is an argument.
use bigfleet_demo.Common.{
  ℕ, ◌+◌, Bool, not, Option, none, some, [], Text, codes, ltb, eqb, if◌then◌else◌,
}
use bigfleet_demo.Host.Http.{is_empty}
use bigfleet_demo.Fakecloud.Catalog.{Kit, HostRef}
use bigfleet_demo.Fakecloud.Multiplex.{
  Options, MultiplexBackend, Result, ok, err, new, create_instance,
}

pub record Flags : Type 0 where
  pub addr : Text
  pub state : Text
  pub create_dwell : ℕ
  pub onprem_baremetal : ℕ
  pub aws_reserved : ℕ
  pub aws_ondemand : ℕ
  pub aws_spot : ℕ
  pub gcp_ondemand : ℕ
  pub gcp_spot : ℕ

-- The flags where none is given.
abbrev pub default_flags : Flags
default_flags = record {
  addr = codes ":9100";
  state = [];
  create_dwell = 0;
  onprem_baremetal = 0;
  aws_reserved = 0;
  aws_ondemand = 0;
  aws_spot = 0;
  gcp_ondemand = 0;
  gcp_spot = 0;
}

-- The sizes of the options; the dwell goes to `new_dwell`.
unfoldable pub options_of : Flags → Options
options_of f = record {
  onprem_bare_metal = f.onprem_baremetal;
  aws_reserved = f.aws_reserved;
  aws_on_demand = f.aws_ondemand;
  aws_spot = f.aws_spot;
  gcp_on_demand = f.gcp_ondemand;
  gcp_spot = f.gcp_spot;
}

pub data Store : Type 0 where
  memory : Store
  file : Text → Store

-- `opens`: whether the file store can be opened.
unfoldable pub build_store : Bool → Text → Option Store
build_store opens path =
    if is_empty path then some memory else if opens then some (file path) else none

-- `newDwell(d)`: when a wait that begins at `now` ends, where the context ends at `until`, if it
-- does; `none` is the nil of a dwell of zero.
unfoldable pub new_dwell : ℕ → Option (ℕ → Option ℕ → ℕ)
new_dwell d =
    if eqb d 0
    then none
    else some (λ (now : ℕ) (until : Option ℕ). elim until [
      | none ↦ now + d
      | some end ↦ if ltb end (now + d) then (if ltb end now then now else end) else now + d
    ])

-- What the outside answers to a run: whether the store can be opened, the provider be built, the
-- address be listened on, and whether the server stops without an error.
pub record Answers : Type 0 where
  pub opens : Bool
  pub is_built : Bool
  pub is_listening : Bool
  pub is_stopped : Bool

pub data Exit : Type 0 where
  store_failed build_failed listen_failed serve_failed stopped : Exit

unfoldable pub run : Flags → Answers → Exit
run f a = elim (build_store a.opens f.state) [
  | none ↦ store_failed
  | some store ↦
      if not a.is_built
      then build_failed
      else if not a.is_listening
      then listen_failed
      else if a.is_stopped
      then stopped
      else serve_failed
]

module _ (k : Kit) where
  -- The backend that a run serves.
  unfoldable pub backend_of : Flags → MultiplexBackend k
  backend_of f = new k (options_of f)

  -- A create that begins at `now`, and when it is answered; an id of no cloud is refused at once.
  unfoldable pub create_at : Flags → ℕ → Option ℕ → Text → Result HostRef × ℕ
  create_at f now until id =
      let answer = create_instance k (backend_of f) id in
      let end : ℕ = elim (new_dwell f.create_dwell) [ none ↦ now | some wait ↦ wait now until ] in
      (answer, elim answer [ ok host ↦ end | err e ↦ now ])
