-- ===== src/Ipc.antt =====
-- mihomotui/ipc_auth.go: who may call the daemon over its Unix socket, and what. A request is what
-- the code reads of it: the method, the path, and the credentials that connContext stored.
-- User and group databases are `Users`, and `path.Clean` is the parameter `clean`.
pub mod Roles
pub mod Sockets
use mihomo_loongnix.Prelude.{
  ℕ, String, Bool, true, false, not, ◌&&◌, ◌||◌, List, [], ◌∷◌, Option, none, some, if◌then◌else◌,
  ◌==◌, string_eq, nat_eq, contains,
}
use mihomo_loongnix.Prelude.Text.{has_prefix}

abbrev pub ipc_access_group : String
ipc_access_group = "mihomo-tui"

abbrev pub ipc_operator_group : String
ipc_operator_group = "mihomo-tui-operator"

pub data IpcRole : Type 0 where
  denied read_only operator admin : IpcRole

pub record IpcPeerCredentials : Type 0 where
  pub pid : ℕ
  pub uid : ℕ
  pub gid : ℕ

pub record IpcAuthorizer : Type 0 where
  pub runs_as_root : Bool
  pub owner_uid : ℕ
  pub access_gid : ℕ
  pub operator_gid : ℕ
  pub has_groups : Bool

-- Package os/user, and the formatting and parsing of group numbers.
pub record Users : Type 0 where
  pub lookup_group : String → Option String
  pub group_ids : ℕ → Option (List String)
  pub format_uint : ℕ → String
  pub parse_uint : String → Option ℕ

pub record Request : Type 0 where
  pub method : String
  pub path : String
  pub peer : Option IpcPeerCredentials

-- Why the middleware refuses, or what the handler answered.
pub data Answer (A : Type 0) : Type 0 where
  no_access only_status needs_root : Answer A
  served : A → Answer A

unfoldable pub lookup_ipc_group_gid : Users → String → Option ℕ
lookup_ipc_group_gid users name = elim (users.lookup_group name) [
  | none ↦ none
  | some gid ↦ users.parse_uint gid
]

-- The last clause of `newIPCAuthorizer`: both groups are needed.
abbrev pub with_groups : ℕ → Option ℕ → Option ℕ → Option IpcAuthorizer
with_groups euid none operators = none
with_groups euid (some access) none = none
with_groups euid (some access) (some operators) = some (record {
  runs_as_root = true;
  owner_uid = euid;
  access_gid = access;
  operator_gid = operators;
  has_groups = true;
})

unfoldable pub new_ipc_authorizer : Users → ℕ → Option IpcAuthorizer
new_ipc_authorizer users euid =
    if euid == 0
    then with_groups euid (lookup_ipc_group_gid users ipc_access_group)
        (lookup_ipc_group_gid users ipc_operator_group)
    else some (record {
      runs_as_root = false;
      owner_uid = euid;
      access_gid = 0;
      operator_gid = 0;
      has_groups = false;
    })

-- The credentials that a connection gets, from what the socket answers.
unfoldable pub conn_context : IpcAuthorizer → Option IpcPeerCredentials → Option IpcPeerCredentials
conn_context a none =
    if not a.runs_as_root then some (record { pid = 0; uid = a.owner_uid; gid = 0 }) else none
conn_context a (some peer) = some peer

unfoldable pub is_group_member : Users → IpcAuthorizer → IpcPeerCredentials → ℕ → Bool
is_group_member users a peer expected =
    if not a.has_groups
    then false
    else if peer.gid == expected
    then true
    else elim (users.group_ids peer.uid) [
      | none ↦ false
      | some groups ↦ contains groups (users.format_uint expected)
    ]

abbrev pub peer_role : Users → IpcAuthorizer → IpcPeerCredentials → IpcRole
peer_role users a peer =
    if peer.uid == 0 || peer.uid == a.owner_uid
    then admin
    else if not a.runs_as_root || not (is_group_member users a peer a.access_gid)
    then denied
    else if is_group_member users a peer a.operator_gid
    then operator
    else read_only

unfoldable pub role_for_request : Users → IpcAuthorizer → Request → IpcRole
role_for_request users a r = elim r.peer [ none ↦ denied | some peer ↦ peer_role users a peer ]

abbrev pub read_only_paths : List String
read_only_paths =
    "/api/v1/ping" ∷ "/api/v1/daemon/info" ∷ "/api/v1/mihomo/status" ∷ "/api/v1/mihomo/version"
    ∷ "/api/v1/mihomo/latest-version" ∷ "/api/v1/mihomo/upgrade/progress"
    ∷ "/api/v1/mihomo/versions" ∷ "/v1/status" ∷ "/v1/logging/status" ∷ "/v1/web/status" ∷ []

-- On the method and the cleaned path.
unfoldable pub is_read_only : String → String → Bool
is_read_only method path = method == "GET" && contains read_only_paths path

unfoldable pub is_root_only : String → String → Bool
is_root_only method path =
    (path == "/api/v1/config" && not (method == "GET"))
    || (has_prefix path "/api/v1/mihomo/start"
        || has_prefix path "/api/v1/mihomo/stop"
        || has_prefix path "/api/v1/mihomo/restart")
    || (has_prefix path "/api/v1/mihomo/versions" && not (method == "GET"))
    || (path == "/api/v1/mihomo/upgrade" && not (method == "GET"))
    || path == "/api/v1/daemon/shutdown"

module _ (clean : String → String) where
  unfoldable pub is_ipc_read_only_request : Request → Bool
  is_ipc_read_only_request r = is_read_only r.method (clean r.path)

  unfoldable pub is_ipc_root_only_request : Request → Bool
  is_ipc_root_only_request r = is_root_only r.method (clean r.path)

  -- The guards of the middleware, for a role.
  unfoldable pub guard : {A : Type 0} → IpcRole → Request → A → Answer A
  guard denied r answer = no_access
  guard read_only r answer = if is_ipc_read_only_request r then served answer else only_status
  guard operator r answer = if is_ipc_root_only_request r then needs_root else served answer
  guard admin r answer = served answer

  unfoldable pub middleware :
      {A : Type 0} → Users → IpcAuthorizer → (IpcRole → Request → A) → Request → Answer A
  middleware users a next r = let role = role_for_request users a r in guard role r (next role r)
