-- ===== src/Gateway/Sessions/Ended.antt =====
-- No session disappears without its channel being closed, so that its streams end.
use mathlib.Core.Bool.{false}
use mihomo_loongnix.Prelude.{
  length, find_value, leb, none, if◌then◌else◌, sym, some, subst, Option, [], not, ◌∷◌, arith, ◌++◌,
  ◌==◌, keep, true, string_eq, ◌||◌, ◌≡◌, Bool, contains, String, List, ℕ,
}
use mihomo_loongnix.Gateway.Sessions.{
  Session, Server, get_session, revoke, sweep, issue_session, refresh, close, count_login, without,
  is_expired, end_session, max_sessions,
}
use mihomo_loongnix.Gateway.Sessions.Bounds.{
  count_login-sessions, keys-touched, Op, get, sign_out, issue, touch, attempt, shut, run_op, keys,
}

abbrev is_known : Server → String → Bool
is_known s id = contains (keys s.sessions) id || contains s.ended id

contains-append :
    (xs ys : List String) (a : String)
    → (contains xs a || contains ys a) ≡ true
    → contains (xs ++ ys) a ≡ true
contains-append [] ys a h = h
contains-append (x ∷ xs) ys a h = ground (arith, a == x, contains-append xs ys a)

-- A session is kept by a test or dropped by it.
keep-split :
    (p : String × Session → Bool) (id : String) (m : List (String × Session))
    → contains (keys m) id ≡ true
    → (contains (keys (keep (λ v. not (p v)) m)) id || contains (keys (keep p m)) id) ≡ true
keep-split p id [] h = absurd cc
keep-split p id (v ∷ m) h = ground (arith, id == v.0, p v, keep-split p id m)

without-split :
    (key id : String) (m : List (String × Session))
    → contains (keys m) id ≡ true
    → (contains (keys (without key m)) id || id == key) ≡ true
without-split key id [] h = absurd cc
without-split key id (v ∷ m) h = ground (
  arith,
  string_eq.beq_iff id v.0,
  string_eq.beq_iff key v.0,
  string_eq.beq_iff id key,
  without-split key id m,
)

end_session-is_known :
    (key id : String) (s : Server)
    → contains (keys s.sessions) id ≡ true
    → is_known (end_session key s) id ≡ true
end_session-is_known key id s h = ground (arith, without-split key id s.sessions h, id == key)

sweep-is_known :
    (now : ℕ) (id : String) (s : Server)
    → contains (keys s.sessions) id ≡ true
    → is_known (sweep now s) id ≡ true
unfolding sweep
sweep-is_known now id s h =
    let old : String × Session → Bool = λ v. is_expired now v.1 in
    ground (
      arith,
      keep-split old id s.sessions h,
      contains-append (keys (keep old s.sessions)) s.ended id,
      contains (keys (keep old s.sessions)) id,
      contains s.ended id,
    )

issue-is_known :
    (now : ℕ) (key csrf id : String) (s : Server)
    → contains (keys s.sessions) id ≡ true
    → is_known (issue_session now key csrf s).1 id ≡ true
unfolding issue_session
issue-is_known now key csrf id s h = go (leb max_sessions (length swept.sessions))
  where
    swept : Server
    swept = sweep now s

    added : Bool → Option (String × Session) × Server
    added b =
        let v : Session = record { csrf = csrf; created = now; last = now } in
        if b
        then (none, swept)
        else (some (key, v), record swept { sessions = (key, v) ∷ without key swept.sessions })

    go : (b : Bool) → is_known (added b).1 id ≡ true
    go true = sweep-is_known now id s h
    go false = ground (
      arith,
      sweep-is_known now id s h,
      without-split key id swept.sessions,
      contains (keys swept.sessions) id,
      id == key,
    )

get_session-is_known :
    (now : ℕ) (cookie : Option String) (s : Server) (id : String)
    → contains (keys s.sessions) id ≡ true
    → is_known (get_session now cookie s).1 id ≡ true
unfolding get_session
get_session-is_known now none s id h = ground arith
get_session-is_known now (some key) s id h = go (find_value key s.sessions)
  where
    either : Session → Bool → Option (String × Session) × Server
    either v b = if b then (none, end_session key s) else (some (key, v), s)

    found : Option Session → Option (String × Session) × Server
    found known = elim known [ none ↦ (none, s) | some v ↦ either v (is_expired now v) ]

    same : is_known s id ≡ true
    same = ground arith

    live : (v : Session) (b : Bool) → is_known (either v b).1 id ≡ true
    live v true = end_session-is_known key id s h
    live v false = same

    go : (known : Option Session) → is_known (found known).1 id ≡ true
    go none = same
    go (some v) = live v (is_expired now v)

revoke-is_known :
    (key : String) (s : Server) (id : String)
    → contains (keys s.sessions) id ≡ true
    → is_known (revoke key s) id ≡ true
unfolding revoke
revoke-is_known key s id h = go (find_value key s.sessions)
  where
    ended : Option Session → Server
    ended known = elim known [ none ↦ s | some v ↦ end_session key s ]

    go : (known : Option Session) → is_known (ended known) id ≡ true
    go none = ground arith
    go (some v) = end_session-is_known key id s h

-- Whatever call is made on the session table, a session that it held before is still in it, or
-- its channel has been closed.
pub run_op-is_known :
    (o : Op) (s : Server) (id : String)
    → contains (keys s.sessions) id ≡ true
    → (contains (keys (run_op o s).sessions) id || contains (run_op o s).ended id) ≡ true
unfolding run_op close refresh
run_op-is_known (get now cookie) s id h = get_session-is_known now cookie s id h
run_op-is_known (sign_out key) s id h = revoke-is_known key s id h
run_op-is_known (issue now key csrf) s id h = issue-is_known now key csrf id s h
run_op-is_known (touch now key) s id h =
    let same : contains (keys (refresh now key s).sessions) id ≡ true =
      subst (λ m. contains m id ≡ true) (sym (keys-touched now key s.sessions)) h in
    ground arith
run_op-is_known (attempt now) s id h =
    let same : contains (keys (count_login now s).1.sessions) id ≡ true =
      subst (λ m. contains (keys m) id ≡ true) (sym (count_login-sessions now s)) h in
    ground arith
run_op-is_known shut s id h = contains-append (keys s.sessions) s.ended id (ground arith)
