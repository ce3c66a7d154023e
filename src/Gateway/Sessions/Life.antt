-- ===== src/Gateway/Sessions/Life.antt =====
-- How long a session lives, what ends it, and how many logins are tried.
use mihomo_loongnix.Prelude.{
  subst, ◌∙◌, sym, inr, arith, inl, refl, ◌==◌, ◌-◌, [], false, string_eq, ◌<◌, ◌+◌, Bool-cases,
  ◌↔◌, if◌then◌else◌, ◌≤◌, ap, none, Option, ◌∷◌, Bool, ◌≡◌, All, find_value, some, List, String, ℕ,
}
use mihomo_loongnix.Gateway.Sessions.{
  Session, Server, get_session, revoke, count_login, without, is_expired, end_session,
}

some-injective : {A : Type 0} {a b : A} → some a ≡ some b → a ≡ b
some-injective {A} {a} {b} e = ap (λ o. elim o [ none ↦ a | some x ↦ x ]) e

-- A request's cookie gives a session exactly when the table has one under it that was
-- created less than 12 hours ago and used less than 30 minutes ago; the session is then
-- that one.
pub get_session_iff :
    (now : ℕ) (cookie : Option String) (s : Server) (id : String) (v : Session)
    → ((get_session now cookie s).0 ≡ some (id, v)) ↔ (
        (cookie ≡ some id)
        × (find_value id s.sessions ≡ some v)
        × (now < v.created + 43200000000000)
        × (now < v.last + 1800000000000))
unfolding get_session is_expired
get_session_iff now none s id v = (λ h. absurd cc, λ h. absurd cc)
get_session_iff now (some key) s id v = (there, back)
  where
    either : Session → Bool → Option (String × Session) × Server
    either w b = if b then (none, end_session key s) else (some (key, w), s)

    found : Option Session → Option (String × Session) × Server
    found known = elim known [ none ↦ (none, s) | some w ↦ either w (is_expired now w) ]

    unpack :
        (known : Option Session)
        → (found known).0 ≡ some (id, v)
        → (key ≡ id) × (known ≡ some v) × (is_expired now v ≡ false)
    unpack none e = absurd cc
    unpack (some w) e = elim (Bool-cases (is_expired now w)) [
      | inl old ↦ absurd (is_none (sym (ap (λ b. (either w b).0) old) ∙ e))
      | inr young ↦
          let same : ◌≡◌ {A = String × Session} (key, w) (id, v) =
            some-injective (sym (ap (λ b. (either w b).0) young) ∙ e) in
          (
            ap (λ x. x.0) same,
            ap (λ x. some x.1) same,
            subst (λ x. is_expired now x ≡ false) (ap (λ x. x.1) same) young,
          )
    ]
      where
        is_none : ¬ (◌≡◌ {A = Option (String × Session)} none (some (id, v)))
        is_none e = cc

    there :
        (found (find_value key s.sessions)).0 ≡ some (id, v)
        → (some key ≡ some id)
          × (find_value id s.sessions ≡ some v)
          × (now < v.created + 43200000000000)
          × (now < v.last + 1800000000000)
    there e =
        let facts : (key ≡ id) × (find_value key s.sessions ≡ some v) × (is_expired now v ≡ false) =
          unpack (find_value key s.sessions) e in
        (
          ap some facts.0,
          subst (λ k. find_value k s.sessions ≡ some v) facts.0 facts.1,
          ground (arith, facts.2),
          ground (arith, facts.2),
        )

    back :
        (some key ≡ some id)
          × (find_value id s.sessions ≡ some v)
          × (now < v.created + 43200000000000)
          × (now < v.last + 1800000000000)
        → (found (find_value key s.sessions)).0 ≡ some (id, v)
    back (same, stored, young, used) =
        let k : key ≡ id = some-injective same in
        let known : find_value key s.sessions ≡ some v =
          subst (λ j. find_value j s.sessions ≡ some v) (sym k) stored in
        let live : is_expired now v ≡ false = ground (arith, young, used) in
        rw (known, live, k) refl

find_value-without :
    (id : String) (m : List (String × Session)) → find_value id (without id m) ≡ none
find_value-without id [] = refl
find_value-without id ((j, v) ∷ m) = elim (Bool-cases (id == j)) [
  | inl t ↦ rw t (find_value-without id m)
  | inr f ↦ rw (f, f) (find_value-without id m)
]

-- After a logout, the session's cookie gives no session, at any later time.
pub revoke-get_session :
    (now : ℕ) (id : String) (s : Server)
    → get_session now (some id) (revoke id s) ≡ (none, revoke id s)
unfolding get_session revoke
revoke-get_session now id s = go (find_value id s.sessions) refl
  where
    ended : Option Session → Server
    ended known = elim known [ none ↦ s | some v ↦ end_session id s ]

    got : Option Session → Server → Option (String × Session) × Server
    got known t = elim known [
      | none ↦ (none, t)
      | some v ↦ if is_expired now v then (none, end_session id t) else (some (id, v), t)
    ]

    go :
        (known : Option Session)
        → find_value id s.sessions ≡ known
        → got (find_value id (ended known).sessions) (ended known) ≡ (none, ended known)
    go none e = ap (λ o. got o s) e
    go (some v) e = ap (λ o. got o (end_session id s)) (find_value-without id s.sessions)

-- How many attempts are let through to the password check.
unfoldable pub password_checks : List ℕ → Server → ℕ
password_checks [] s = 0
password_checks (now ∷ times) s =
    let rest = password_checks times (count_login now s).1 in
    if (count_login now s).0 then rest else rest + 1

-- However many login attempts are made within one minute of the start of the
-- current window, at most 10 reach the password check, less those counted already.
pub password_checks_bound :
    (times : List ℕ) (s : Server)
    → All (λ now. now ≤ s.login_start + 60000000000) times
    → password_checks times s ≤ 10 - s.login_attempts
unfolding password_checks count_login
password_checks_bound [] s h = omega arith
password_checks_bound (now ∷ times) s h = ground (
  arith,
  h.0,
  password_checks_bound times (record s { login_attempts = s.login_attempts + 1 }) h.1,
)
