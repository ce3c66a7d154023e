-- ===== src/Ipc/Sockets.antt =====
-- The permissions that the daemon gives to its socket and the directory of it:
-- `configureSocketDirectory` and `configureSocketPermissions`, as the calls that they make.
use mihomo_loongnix.Prelude.{
  ◌≢◌, arith, refl, ◌⊎◌, false, ◌↔◌, [], true, some, not, ◌∷◌, All, if◌then◌else◌, ◌≡◌, ◌%◌, Bool,
  String, ℕ, List,
}
use mihomo_loongnix.Ipc.{
  IpcAuthorizer, Users, new_ipc_authorizer, lookup_ipc_group_gid, ipc_access_group,
  ipc_operator_group,
}

-- Modes are written in decimal: 0750 is 488, 0700 is 448, 0660 is 432, and 0600 is 384.
pub data Call : Type 0 where
  chown : String → ℕ → ℕ → Call
  chmod : String → ℕ → Call

-- The calls made, in order, and whether the function returns without an error.
abbrev pub Outcome : Type 0
Outcome = List Call × Bool

-- `answers` tells which calls the operating system carries out.
module _ (answers : Call → Bool) where
  unfoldable pub chown_and_chmod : IpcAuthorizer → String → ℕ → Outcome
  chown_and_chmod a file mode =
      if answers (chown file 0 a.access_gid)
      then (chown file 0 a.access_gid ∷ chmod file mode ∷ [], answers (chmod file mode))
      else (chown file 0 a.access_gid ∷ [], false)

  unfoldable pub configure_socket_directory : IpcAuthorizer → String → Outcome
  configure_socket_directory a dir =
      if a.runs_as_root
      then if not a.has_groups then ([], false) else chown_and_chmod a dir 488
      else (chmod dir 448 ∷ [], answers (chmod dir 448))

  unfoldable pub configure_socket_permissions : IpcAuthorizer → String → Outcome
  configure_socket_permissions a sock =
      if a.runs_as_root
      then chown_and_chmod a sock 432
      else (chmod sock 384 ∷ [], answers (chmod sock 384))

-- A call that gives nothing to users outside the owner and the group, and no ownership to
-- anyone but root and the access group.
pub IsPrivate : ℕ → Call → Type 0
IsPrivate group (chown file user gid) = (user ≡ 0) × (gid ≡ group)
IsPrivate group (chmod file mode) = mode % 8 ≡ 0

chown_and_chmod-IsPrivate :
    (answers : Call → Bool) (a : IpcAuthorizer) (file : String) (mode : ℕ)
    → mode % 8 ≡ 0
    → All (IsPrivate a.access_gid) (chown_and_chmod answers a file mode).0
unfolding chown_and_chmod IsPrivate
chown_and_chmod-IsPrivate answers a file mode h = go (answers (chown file 0 a.access_gid))
  where
    outcome : Bool → Outcome
    outcome b =
        if b
        then (chown file 0 a.access_gid ∷ chmod file mode ∷ [], answers (chmod file mode))
        else (chown file 0 a.access_gid ∷ [], false)

    go : (b : Bool) → All (IsPrivate a.access_gid) (outcome b).0
    go true = ((refl, refl), (h, tt))
    go false = ((refl, refl), tt)

-- No call that the daemon makes on its socket or on the directory of it, whatever the operating
-- system answers, gives any access to users outside the owner and the group, or gives the file to
-- another owner than root or another group than the access group.
pub sockets-IsPrivate :
    (answers : Call → Bool) (a : IpcAuthorizer) (dir sock : String)
    → All (IsPrivate a.access_gid) (configure_socket_directory answers a dir).0
      × All (IsPrivate a.access_gid) (configure_socket_permissions answers a sock).0
unfolding configure_socket_directory configure_socket_permissions IsPrivate
sockets-IsPrivate answers a dir sock = ground (
  arith,
  chown_and_chmod-IsPrivate answers a dir 488 refl,
  chown_and_chmod-IsPrivate answers a sock 432 refl,
)

new_authorizer_fields :
    (users : Users) (euid : ℕ) (a : IpcAuthorizer)
    → new_ipc_authorizer users euid ≡ some a
    → (a.owner_uid ≡ euid)
      × (((euid ≡ 0) × (a.runs_as_root ≡ true) × (a.has_groups ≡ true))
          ⊎ ((euid ≢ 0) × (a.runs_as_root ≡ false)))
unfolding new_ipc_authorizer
new_authorizer_fields users euid a h = ground (
  arith,
  lookup_ipc_group_gid users ipc_access_group,
  lookup_ipc_group_gid users ipc_operator_group,
)

-- An authorizer that the daemon made can always protect its sockets: when the operating system
-- carries out every call, configuring the directory and the socket both succeed. It runs as root
-- exactly when the daemon's user is root.
pub new_authorizer-configures :
    (users : Users) (euid : ℕ) (a : IpcAuthorizer) (dir sock : String)
    → new_ipc_authorizer users euid ≡ some a
    → ((configure_socket_directory (λ c. true) a dir).1 ≡ true)
      × ((configure_socket_permissions (λ c. true) a sock).1 ≡ true)
      × ((euid ≡ 0) ↔ (a.runs_as_root ≡ true))
unfolding configure_socket_directory configure_socket_permissions chown_and_chmod
new_authorizer-configures users euid a dir sock h =
    ground (arith, new_authorizer_fields users euid a h)
