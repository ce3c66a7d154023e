-- ===== src/Gateway/Sessions/Bounds.antt =====
-- The sessions stay few and have distinct keys, whatever is asked of them.
use mihomo_loongnix.Prelude.{
  ==_false→ne, ne→==, inr, inl, leb, find_value, true, ◌++◌, sym, some, not, subst, if◌then◌else◌,
  refl, Bool-cases, none, arith, string_eq, false, ◌==◌, [], keep, IsDistinct, ◌∷◌, Bool, All, ◌≡◌,
  map, ◌≤◌, Option, length, ℕ, String, List,
}
use mihomo_loongnix.Gateway.Sessions.{
  Session, Server, get_session, revoke, sweep, issue_session, refresh, close, count_login, without,
  touched, is_expired, end_session, max_sessions,
}

abbrev pub keys : List (String × Session) → List String
keys m = map (λ s. s.0) m

pub record IsBounded (s : Server) : Type 0 where
  pub few : length s.sessions ≤ max_sessions
  pub distinct : IsDistinct (keys s.sessions)

-- One call on the session table.
pub data Op : Type 0 where
  get : ℕ → Option String → Op
  sign_out : String → Op
  issue : ℕ → String → String → Op
  touch : ℕ → String → Op
  attempt : ℕ → Op
  shut : Op

unfoldable pub run_op : Op → Server → Server
run_op (get now cookie) s = (get_session now cookie s).1
run_op (sign_out id) s = revoke id s
run_op (issue now id csrf) s = (issue_session now id csrf s).1
run_op (touch now id) s = refresh now id s
run_op (attempt now) s = (count_login now s).1
run_op shut s = close s

unfoldable pub run_ops : List Op → Server → Server
run_ops [] s = s
run_ops (o ∷ os) s = run_ops os (run_op o s)

length-keep :
    (p : String × Session → Bool) (m : List (String × Session)) → length (keep p m) ≤ length m
length-keep p [] = omega arith
length-keep p (v ∷ m) = ground (arith, length-keep p m)

keys-keep :
    (p : String × Session → Bool) (Q : String → Type 0) (m : List (String × Session))
    → All Q (keys m)
    → All Q (keys (keep p m))
keys-keep p Q [] h = tt
keys-keep p Q (v ∷ m) h = elim (p v) as (λ b. All Q (keys (if b then v ∷ keep p m else keep p m))) [
  | true ↦ (h.0, keys-keep p Q m h.1)
  | false ↦ keys-keep p Q m h.1
]

keep-IsDistinct :
    (p : String × Session → Bool) (m : List (String × Session))
    → IsDistinct (keys m)
    → IsDistinct (keys (keep p m))
keep-IsDistinct p [] h = tt
keep-IsDistinct p (v ∷ m) h =
    elim (p v) as (λ b. IsDistinct (keys (if b then v ∷ keep p m else keep p m))) [
      | true ↦ (keys-keep p (λ j. (j == v.0) ≡ false) m h.0, keep-IsDistinct p m h.1)
      | false ↦ keep-IsDistinct p m h.1
    ]

-- Dropping entries keeps the bound.
kept-IsBounded :
    (p : String × Session → Bool) (s : Server) (ended : List String)
    → IsBounded s
    → IsBounded (record s { sessions = keep p s.sessions; ended = ended })
kept-IsBounded p s ended h = record {
  few = omega (arith, h.few, length-keep p s.sessions);
  distinct = keep-IsDistinct p s.sessions h.distinct;
}

without-absent :
    (id : String) (m : List (String × Session)) → All (λ j. (j == id) ≡ false) (keys (without id m))
without-absent id [] = tt
without-absent id (v ∷ m) = elim (Bool-cases (id == v.0)) [
  | inl t ↦
      subst (λ b. Absent (if not b then v ∷ without id m else without id m)) (sym t)
        (without-absent id m)
  | inr f ↦
      subst (λ b. Absent (if not b then v ∷ without id m else without id m)) (sym f)
        (ne→== v.0 id (λ e. ==_false→ne id v.0 f (sym e)), without-absent id m)
]
  where
    Absent : List (String × Session) → Type 0
    Absent sessions = All (λ j. (j == id) ≡ false) (keys sessions)

pub keys-touched :
    (now : ℕ) (id : String) (m : List (String × Session)) → keys (touched now id m) ≡ keys m
keys-touched now id [] = refl
keys-touched now id ((j, v) ∷ m) = elim (Bool-cases (id == j)) [
  | inl t ↦ rw t refl
  | inr f ↦ rw (f, keys-touched now id m) refl
]

length-touched :
    (now : ℕ) (id : String) (m : List (String × Session)) → length (touched now id m) ≡ length m
length-touched now id [] = refl
length-touched now id ((j, v) ∷ m) = ground (arith, id == j, length-touched now id m)

get_session-IsBounded :
    (now : ℕ) (cookie : Option String) (s : Server)
    → IsBounded s
    → IsBounded (get_session now cookie s).1
unfolding get_session
get_session-IsBounded now none s h = h
get_session-IsBounded now (some id) s h = go (find_value id s.sessions)
  where
    found : Option Session → Option (String × Session) × Server
    found known = elim known [
      | none ↦ (none, s)
      | some v ↦ if is_expired now v then (none, end_session id s) else (some (id, v), s)
    ]

    decided : Session → Bool → Option (String × Session) × Server
    decided v b = if b then (none, end_session id s) else (some (id, v), s)

    dropped : IsBounded (end_session id s)
    dropped = kept-IsBounded (λ v. not (id == v.0)) s (id ∷ s.ended) h

    either : (v : Session) (b : Bool) → IsBounded (decided v b).1
    either v true = dropped
    either v false = h

    go : (known : Option Session) → IsBounded (found known).1
    go none = h
    go (some v) = either v (is_expired now v)

revoke-IsBounded : (id : String) (s : Server) → IsBounded s → IsBounded (revoke id s)
unfolding revoke
revoke-IsBounded id s h = go (find_value id s.sessions)
  where
    ended : Option Session → Server
    ended known = elim known [ none ↦ s | some v ↦ end_session id s ]

    go : (known : Option Session) → IsBounded (ended known)
    go none = h
    go (some v) = kept-IsBounded (λ v. not (id == v.0)) s (id ∷ s.ended) h

sweep-IsBounded : (now : ℕ) (s : Server) → IsBounded s → IsBounded (sweep now s)
unfolding sweep
sweep-IsBounded now s h =
    kept-IsBounded (λ v. not (is_expired now v.1)) s
      (map (λ v. v.0) (keep (λ v. is_expired now v.1) s.sessions) ++ s.ended) h

issue_session-IsBounded :
    (now : ℕ) (id csrf : String) (s : Server)
    → IsBounded s
    → IsBounded (issue_session now id csrf s).1
unfolding issue_session
issue_session-IsBounded now id csrf s h = go (leb max_sessions (length swept.sessions)) refl
  where
    swept : Server
    swept = sweep now s

    clean : IsBounded swept
    clean = sweep-IsBounded now s h

    v : Session
    v = record { csrf = csrf; created = now; last = now }

    added : Bool → Option (String × Session) × Server
    added b =
        if b
        then (none, swept)
        else (some (id, v), record swept { sessions = (id, v) ∷ without id swept.sessions })

    go : (b : Bool) → leb max_sessions (length swept.sessions) ≡ b → IsBounded (added b).1
    go true full = clean
    go false room = record {
      few =
          ground (arith, length-keep (λ s. not (id == s.0)) swept.sessions, length swept.sessions);
      distinct = (
        without-absent id swept.sessions,
        keep-IsDistinct (λ s. not (id == s.0)) swept.sessions clean.distinct,
      );
    }

refresh-IsBounded :
    (now : ℕ) (id : String) (s : Server) → IsBounded s → IsBounded (refresh now id s)
unfolding refresh
refresh-IsBounded now id s h = record {
  few = omega (arith, h.few, length-touched now id s.sessions);
  distinct = subst IsDistinct (sym (keys-touched now id s.sessions)) h.distinct;
}

pub count_login-sessions : (now : ℕ) (s : Server) → (count_login now s).1.sessions ≡ s.sessions
unfolding count_login
count_login-sessions now s = ground arith

run_op-IsBounded : (o : Op) (s : Server) → IsBounded s → IsBounded (run_op o s)
unfolding run_op close
run_op-IsBounded (get now cookie) s h = get_session-IsBounded now cookie s h
run_op-IsBounded (sign_out id) s h = revoke-IsBounded id s h
run_op-IsBounded (issue now id csrf) s h = issue_session-IsBounded now id csrf s h
run_op-IsBounded (touch now id) s h = refresh-IsBounded now id s h
run_op-IsBounded (attempt now) s h = record {
  few = subst (λ m. length m ≤ max_sessions) (sym (count_login-sessions now s)) h.few;
  distinct = subst (λ m. IsDistinct (keys m)) (sym (count_login-sessions now s)) h.distinct;
}
run_op-IsBounded shut s h = record { few = omega arith; distinct = tt }

-- Whatever calls are made on the session table, in whatever order, it never holds more than 16
-- sessions, and no session twice, if that was so before the calls.
pub run_ops-IsBounded : (os : List Op) (s : Server) → IsBounded s → IsBounded (run_ops os s)
unfolding run_ops
run_ops-IsBounded [] s h = h
run_ops-IsBounded (o ∷ os) s h = run_ops-IsBounded os (run_op o s) (run_op-IsBounded o s h)
