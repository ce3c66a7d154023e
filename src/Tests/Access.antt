-- ===== src/Tests/Access.antt =====
-- The theorems on the access to the daemon and to the gateway, at concrete inputs.
use mihomo_loongnix.Ipc.Roles.{
  middleware_iff, IsAllowed, user_daemon-admin_or_refused, admin_iff, guard_monotone,
}
use mihomo_loongnix.Ipc.Sockets.{
  sockets-IsPrivate, IsPrivate, configure_socket_permissions, configure_socket_directory,
}
use mihomo_loongnix.Prelude.{
  nat_eq, string_eq, [], arith, ◌∷◌, ◌==◌, refl, ◌⊎◌, ◌↔◌, false, All, some, true, if◌then◌else◌,
  String, ◌≡◌,
}
use mihomo_loongnix.Prelude.Text.{has_prefix}
use mihomo_loongnix.Ipc.{
  IpcRole, denied, read_only, operator, admin, IpcAuthorizer, IpcPeerCredentials, Users, Answer,
  served, role_for_request, is_group_member, is_ipc_read_only_request, is_ipc_root_only_request,
  is_read_only, is_root_only, guard, middleware, new_ipc_authorizer, lookup_ipc_group_gid,
}
use mihomo_loongnix.Ipc

abbrev test_users : Users
test_users = record {
  lookup_group = λ name. if name == "mihomo-tui" then some "990" else some "991";
  group_ids = λ uid. if uid == 1000 then some ("990" ∷ "991" ∷ []) else some ("990" ∷ []);
  format_uint = λ n. if n == 990 then "990" else "991";
  parse_uint = λ t. if t == "990" then some 990 else some 991;
}

abbrev root_daemon : IpcAuthorizer
root_daemon = record {
  runs_as_root = true;
  owner_uid = 0;
  access_gid = 990;
  operator_gid = 991;
  has_groups = true;
}

abbrev user_daemon : IpcAuthorizer
user_daemon = record {
  runs_as_root = false;
  owner_uid = 1000;
  access_gid = 0;
  operator_gid = 0;
  has_groups = false;
}

abbrev clean_path : String → String
clean_path p = p

-- A member of the access group asks for the status.
abbrev status_request : Ipc.Request
status_request = record {
  method = "GET";
  path = "/v1/status";
  peer = some (record { pid = 7; uid = 1001; gid = 100 });
}

abbrev admin_request : Ipc.Request
admin_request = record status_request { peer = some (record { pid = 7; uid = 0; gid = 0 }) }

abbrev show_role : IpcRole → Ipc.Request → String
show_role role r = r.path

-- A run of the role and its guards.
access : Unit {0}
unfolding role_for_request is_group_member guard middleware is_ipc_read_only_request
    is_ipc_root_only_request is_read_only is_root_only has_prefix new_ipc_authorizer
    lookup_ipc_group_gid
access = tt

status_role : role_for_request test_users root_daemon status_request ≡ read_only
unfolding access
status_role = refl

middleware_iff_example :
    (middleware clean_path test_users root_daemon show_role status_request
      ≡ served (show_role (role_for_request test_users root_daemon status_request) status_request))
    ↔ IsAllowed clean_path (role_for_request test_users root_daemon status_request) status_request
middleware_iff_example = middleware_iff clean_path test_users root_daemon show_role status_request

guard_monotone_example : guard clean_path {A = String} operator status_request "x" ≡ served "x"
unfolding access
guard_monotone_example =
    guard_monotone clean_path read_only operator status_request "x" (omega arith) refl

admin_iff_example : (role_for_request test_users root_daemon admin_request ≡ admin) ↔ (
    (peer : IpcPeerCredentials) × (admin_request.peer ≡ some peer)
    × ((peer.uid ≡ 0) ⊎ (peer.uid ≡ root_daemon.owner_uid)))
admin_iff_example = admin_iff test_users root_daemon admin_request

user_daemon-admin_or_refused_example :
    (role_for_request test_users user_daemon status_request ≡ admin)
    ⊎ (middleware clean_path test_users user_daemon show_role status_request ≡ Ipc.no_access)
user_daemon-admin_or_refused_example =
    user_daemon-admin_or_refused clean_path test_users user_daemon show_role status_request refl

sockets-IsPrivate_example :
    All (IsPrivate 990) (configure_socket_directory (λ c. true) root_daemon "/run/mihomo-tui").0
    × All
        (IsPrivate 990)
        (configure_socket_permissions (λ c. true) root_daemon "/run/mihomo-tui/s").0
sockets-IsPrivate_example =
    sockets-IsPrivate (λ c. true) root_daemon "/run/mihomo-tui" "/run/mihomo-tui/s"
