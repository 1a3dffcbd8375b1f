-- ===== src/Backend/Dashboards.antt =====
-- backend/cmd/demo-backend/main.go: `dashHandler`, the proxy in front of a dashboard, and the mounts that
-- `main` makes. What the standard library's proxy does before and after is an argument.
pub mod Paths
use bigfleet_demo.Common.{
  ℕ, ◌+◌, Bool, true, false, not, Option, none, some, List, [], ◌∷◌, ◌++◌, Text, codes, drop,
  length, if◌then◌else◌,
}
use bigfleet_demo.Host.Http.{cut_prefix, trim_prefix, trim_space, is_empty, bearer}
use bigfleet_demo.Host.Memory.{text_before, cut_suffix}

pub record DashMount : Type 0 where
  pub prefix : Text
  pub target : Text
  pub token : Text

-- A request on its way to a dashboard, as far as the handler writes it.
pub record Outgoing : Type 0 where
  pub host : Text
  pub path : Text
  pub accept_encoding : Text
  pub authorization : Text

-- The path under the prefix.
unfoldable pub dash_path : Text → Text → Text
dash_path prefix path = let p = trim_prefix prefix path in if is_empty p then codes "/" else p

-- `rp.Director` after the director of the standard library.
unfoldable pub direct : DashMount → Text → Outgoing → Outgoing
direct m host req =
    let authorization = if is_empty m.token then req.authorization else bearer ++ m.token in
    record {
      host = host;
      path = dash_path m.prefix req.path;
      accept_encoding = codes "identity";
      authorization = authorization;
    }

-- `bytes.Replace(b, old, new, 1)`
unfoldable pub replace_first : Text → Text → Text → Text
replace_first old new s = elim (text_before old s) [
  | none ↦ s
  | some before ↦ before ++ (new ++ drop (length before + length old) s)
]

unfoldable pub base_href : Text → Text
base_href prefix = codes "<head><base href=\"" ++ (prefix ++ codes "/\">")

pub record Page : Type 0 where
  pub content_type : Text
  pub content_encoding : Text
  pub content_length : ℕ
  pub body : Text

unfoldable pub is_html : Text → Bool
is_html content_type = elim (cut_prefix (codes "text/html") content_type) [
  | none ↦ false
  | some rest ↦ true
]

-- `rp.ModifyResponse` on a body that can be read.
unfoldable pub modify_response : Text → Page → Page
modify_response prefix p =
    let body = replace_first (codes "<head>") (base_href prefix) p.body in
    if is_html p.content_type
    then record {
      content_type = p.content_type;
      content_encoding = [];
      content_length = length body;
      body = body;
    }
    else p

-- A workspace of the session file, with the bearer token of its kubeconfig and the file with the
-- dashboard's token, where it can be read.
pub record Workspace : Type 0 where
  pub name : Text
  pub dashboard : Text
  pub bearer_token : Text
  pub token_file : Option Text

-- The letter of a cluster's prefix.
unfoldable pub dash_prefix : Text → Text
dash_prefix name = codes "/dash/" ++ trim_prefix (codes "cluster-") name

unfoldable pub dash_token : Workspace → Text
dash_token w =
    if not (is_empty w.bearer_token)
    then w.bearer_token
    else elim w.token_file [ none ↦ [] | some b ↦ trim_space b ]

-- The link of a cluster's card; empty where it has no dashboard.
unfoldable pub dash_url : Workspace → Text
dash_url w = if is_empty w.dashboard then [] else dash_prefix w.name ++ codes "/#/node"

unfoldable pub cluster_mounts : List Workspace → List DashMount
cluster_mounts [] = []
cluster_mounts (w ∷ ws) =
    let rest = cluster_mounts ws in
    let mount : DashMount = record {
      prefix = dash_prefix w.name;
      target = w.dashboard;
      token = dash_token w;
    } in
    if is_empty w.dashboard then rest else mount ∷ rest

-- The mounts of the server: the clusters' dashboards, then that of the fleet.
unfoldable pub dash_mounts : List Workspace → Text → List DashMount
dash_mounts ws fleet_dashboard =
    let fleet : DashMount = record {
      prefix = codes "/fleet-dash";
      target = fleet_dashboard;
      token = [];
    } in
    cluster_mounts ws ++ (if is_empty fleet_dashboard then [] else fleet ∷ [])

-- The link of the page's button.
unfoldable pub fleet_link : Text → Text
fleet_link fleet_dashboard = if is_empty fleet_dashboard then [] else codes "/fleet-dash/"
