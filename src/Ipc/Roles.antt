-- ===== src/Ipc/Roles.antt =====
-- Which role a request gets, and what the roles may do.
use mihomo_loongnix.Prelude.Text.{has_prefix}
use mihomo_loongnix.Prelude.{
  ap, inl, inr, ==→eq, All-contains, refl, sym, and-eq-true, none, subst, Option, ◌==◌, arith,
  string_eq, ◌⊎◌, some, false, true, ◌≤◌, ◌↔◌, contains, ◌≡◌, String, ℕ,
}
use mihomo_loongnix.Ipc.{
  IpcRole, denied, read_only, operator, admin, IpcAuthorizer, IpcPeerCredentials, Users, Request,
  served, no_access, role_for_request, peer_role, is_group_member, is_read_only, is_root_only,
  read_only_paths, is_ipc_read_only_request, is_ipc_root_only_request, guard, middleware,
}

-- A role as a number: each role includes the ones below it.
abbrev pub rank : IpcRole → ℕ
rank denied = 0
rank read_only = 1
rank operator = 2
rank admin = 3

unfoldable pub IsAllowed : (String → String) → IpcRole → Request → Type 0
IsAllowed clean denied r = ⊥
IsAllowed clean read_only r = (r.method ≡ "GET") × (contains read_only_paths (clean r.path) ≡ true)
IsAllowed clean operator r = is_ipc_root_only_request clean r ≡ false
IsAllowed clean admin r = Unit

-- No path on the status list is among the privileged ones.
status_path-not_privileged :
    (path : String) → contains read_only_paths path ≡ true → is_root_only "GET" path ≡ false
unfolding is_root_only has_prefix
status_path-not_privileged path h =
    All-contains (λ p. is_root_only "GET" p ≡ false) read_only_paths path
      (refl, (refl, (refl, (refl, (refl, (refl, (refl, (refl, (refl, (refl, tt)))))))))) h

pub read_only-not_root_only :
    (method path : String) → is_read_only method path ≡ true → is_root_only method path ≡ false
unfolding is_read_only
read_only-not_root_only method path h =
    let both : (method == "GET" ≡ true) × (contains read_only_paths path ≡ true) =
      and-eq-true (method == "GET") (contains read_only_paths path) h in
    subst (λ m. is_root_only m path ≡ false) (sym (==→eq method "GET" both.0))
      (status_path-not_privileged path both.1)

-- The guards let a request through exactly when its role is allowed it.
pub guard_iff :
    (clean : String → String) {A : Type 0} (role : IpcRole) (r : Request) (answer : A)
    → (guard clean role r answer ≡ served answer) ↔ IsAllowed clean role r
unfolding guard IsAllowed is_ipc_read_only_request is_read_only
guard_iff clean denied r answer = (λ h. absurd cc, λ h. absurd h)
guard_iff clean read_only r answer = ground (
  arith,
  string_eq.beq_iff r.method "GET",
  r.method == "GET",
  contains read_only_paths (clean r.path),
)
guard_iff clean operator r answer = ground (arith, is_ipc_root_only_request clean r)
guard_iff clean admin r answer = (λ h. tt, λ h. refl)

-- The middleware calls the handler exactly when the role of the request is admin, or it is
-- operator and the request is not among the privileged ones, or it is read-only and the request is
-- a GET of a path on the status list. The handler then gets that role.
pub middleware_iff :
    (clean : String → String) {A : Type 0} (users : Users) (a : IpcAuthorizer)
    (next : IpcRole → Request → A) (r : Request)
    → (middleware clean users a next r ≡ served (next (role_for_request users a r) r))
      ↔ IsAllowed clean (role_for_request users a r) r
unfolding middleware
middleware_iff clean users a next r =
    let role = role_for_request users a r in guard_iff clean role r (next role r)

IsAllowed-monotone :
    (clean : String → String) (low high : IpcRole) (r : Request)
    → rank low ≤ rank high
    → IsAllowed clean low r
    → IsAllowed clean high r
unfolding IsAllowed is_ipc_root_only_request is_read_only
IsAllowed-monotone clean denied high r h k = absurd k
IsAllowed-monotone clean low admin r h k = tt
IsAllowed-monotone clean read_only read_only r h k = k
IsAllowed-monotone clean operator operator r h k = k
IsAllowed-monotone clean read_only operator r h k =
    subst (λ m. is_root_only m (clean r.path) ≡ false) (sym k.0)
      (status_path-not_privileged (clean r.path) k.1)
IsAllowed-monotone clean read_only denied r h k = absurd (omega arith)
IsAllowed-monotone clean operator denied r h k = absurd (omega arith)
IsAllowed-monotone clean operator read_only r h k = absurd (omega arith)
IsAllowed-monotone clean admin denied r h k = absurd (omega arith)
IsAllowed-monotone clean admin read_only r h k = absurd (omega arith)
IsAllowed-monotone clean admin operator r h k = absurd (omega arith)

-- A role may do whatever a lower role may do: if the guards let a request of one role through,
-- they let the same request through for every role of at least its rank.
pub guard_monotone :
    (clean : String → String) {A : Type 0} (low high : IpcRole) (r : Request) (answer : A)
    → rank low ≤ rank high
    → guard clean low r answer ≡ served answer
    → guard clean high r answer ≡ served answer
guard_monotone clean low high r answer h k =
    (guard_iff clean high r answer).1
      (IsAllowed-monotone clean low high r h ((guard_iff clean low r answer).0 k))

peer_role-admin_iff :
    (users : Users) (a : IpcAuthorizer) (peer : IpcPeerCredentials)
    → (peer_role users a peer ≡ admin) ↔ ((peer.uid ≡ 0) ⊎ (peer.uid ≡ a.owner_uid))
peer_role-admin_iff users a peer = ground (
  arith,
  a.runs_as_root,
  is_group_member users a peer a.access_gid,
  is_group_member users a peer a.operator_gid,
)

-- A request gets the role admin exactly when its peer is known, and is root or the user that the
-- daemon runs as.
pub admin_iff :
    (users : Users) (a : IpcAuthorizer) (r : Request)
    → (role_for_request users a r ≡ admin) ↔ (
        (peer : IpcPeerCredentials) × (r.peer ≡ some peer)
        × ((peer.uid ≡ 0) ⊎ (peer.uid ≡ a.owner_uid)))
unfolding role_for_request
admin_iff users a r = go r.peer
  where
    go :
        (known : Option IpcPeerCredentials)
        → (elim known [ none ↦ denied | some peer ↦ peer_role users a peer ] ≡ admin) ↔ (
            (peer : IpcPeerCredentials) × (known ≡ some peer)
            × ((peer.uid ≡ 0) ⊎ (peer.uid ≡ a.owner_uid)))
    go none = (λ h. absurd cc, λ (peer, e, h). absurd cc)
    go (some peer) = (
      λ h. (peer, refl, (peer_role-admin_iff users a peer).0 h),
      λ (other, e, h). (peer_role-admin_iff users a peer).1 (
          subst (λ p. (p.uid ≡ 0) ⊎ (p.uid ≡ a.owner_uid))
            (sym (ap (λ o. elim o [ none ↦ peer | some p ↦ p ]) e)) h),
    )

user_daemon_role :
    (users : Users) (a : IpcAuthorizer) (r : Request)
    → a.runs_as_root ≡ false
    → (role_for_request users a r ≡ admin) ⊎ (role_for_request users a r ≡ denied)
unfolding role_for_request
user_daemon_role users a r h = go r.peer
  where
    user_peer :
        (peer : IpcPeerCredentials)
        → (peer_role users a peer ≡ admin) ⊎ (peer_role users a peer ≡ denied)
    user_peer peer = ground (
      arith,
      is_group_member users a peer a.access_gid,
      is_group_member users a peer a.operator_gid,
    )

    role : Option IpcPeerCredentials → IpcRole
    role known = elim known [ none ↦ denied | some peer ↦ peer_role users a peer ]

    go : (known : Option IpcPeerCredentials) → (role known ≡ admin) ⊎ (role known ≡ denied)
    go none = inr refl
    go (some peer) = user_peer peer

-- A daemon that does not run as root has no role between admin and none: a request that
-- does not get the role admin is refused.
pub user_daemon-admin_or_refused :
    (clean : String → String) {A : Type 0} (users : Users) (a : IpcAuthorizer)
    (next : IpcRole → Request → A) (r : Request)
    → a.runs_as_root ≡ false
    → (role_for_request users a r ≡ admin) ⊎ (middleware clean users a next r ≡ no_access)
unfolding middleware guard
user_daemon-admin_or_refused clean users a next r h = elim (user_daemon_role users a r h) [
  | inl is_admin ↦ inl is_admin
  | inr is_denied ↦ inr (ap (λ role. guard clean role r (next role r)) is_denied)
]
