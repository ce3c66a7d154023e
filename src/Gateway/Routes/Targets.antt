-- ===== src/Gateway/Routes/Targets.antt =====
-- What the gateway asks of the manager.
use mihomo_loongnix.Prelude.{
  arith, ==→eq, ◌⊎◌, refl, subst, sym, string_eq, not, ◌||◌, ◌&&◌, ◌==◌, [], ◌∷◌, none, some,
  Option, true, false, if◌then◌else◌, if-intro, Bool, String, ◌≡◌, List, IsIn,
}
use mihomo_loongnix.Prelude.Text.{is_blank, trim_prefix, has_prefix}
use mihomo_loongnix.Config.Store.{Result, ok, err}
use mihomo_loongnix.Gateway.Requests.{failure, forwarded, Call, Request, Response, Codec}
use mihomo_loongnix.Gateway.Routes.Endpoints.{
  IsEndpoint, bare, with_body, rename_profile, delete_profile, use_profile, select_proxy,
  bare_endpoints, body_endpoints,
}
use mihomo_loongnix.Gateway.Routes.{
  has_no_body, forward, forward_route, is_web_link, number, is_port, flag, is_some_bool,
  split_slash, Route, route, profile_route, group_route, nested_route, body_route, ◌^◌, checked,
  plain, is_bad_segment, kind_of,
}

abbrev IsFailure : Response → Type 0
IsFailure (failure status message) = Unit
IsFailure other = ⊥

module _ (codec : Codec) (r : Request) where
  -- A failure, or a route that is an endpoint where it is valid.
  abbrev IsManaged : Result Response Route → Type 0
  IsManaged (err e) = IsFailure e
  IsManaged (ok rt) = rt.valid ≡ true → IsEndpoint codec r.method rt.target rt.body

  checked-IsManaged :
      {A : Type 0} (target kind : String) (body : Option A) (test : A → Bool) (show : A → String)
      → ((a : A) → test a ≡ true → IsEndpoint codec r.method target (some (show a)))
      → IsManaged (checked target kind body test show)
  checked-IsManaged target kind none test show h = tt
  checked-IsManaged target kind (some b) test show h =
      if-intro IsManaged (test b) (λ t _. h b t) (λ _. tt)

  -- A fixed endpoint whose method is tested.
  plain-IsManaged :
      (method target kind : String)
      → IsIn (method, target) bare_endpoints
      → IsManaged (plain (r.method == method) target kind)
  plain-IsManaged method target kind at t =
      bare (subst (λ m. IsIn (m, target) bare_endpoints) (sym (==→eq r.method method t)) at) refl

  -- A fixed endpoint with a body.
  put-IsManaged :
      {A : Type 0} (method target kind : String) (body : Option A) (test : A → Bool)
      (show : A → String)
      → IsIn (method, target) body_endpoints
      → (r.method == method) ≡ true
      → IsManaged (checked target kind body test show)
  put-IsManaged method target kind body test show at t =
      checked-IsManaged target kind body test show λ b _.
        with_body (show b)
          (subst (λ m. IsIn (m, target) body_endpoints) (sym (==→eq r.method method t)) at) refl

  invalid-IsManaged : (target kind : String) → IsManaged (plain false target kind)
  invalid-IsManaged target kind h = absurd (ground arith)

  profile_route-IsManaged : (parts : List String) → IsManaged (profile_route codec r parts)
  unfolding profile_route
  profile_route-IsManaged [] = tt
  profile_route-IsManaged (id ∷ []) =
      if-intro IsManaged (is_bad_segment id) (λ _. tt)
        λ good.
          if-intro IsManaged (r.method == "PATCH")
            (λ m.
              checked-IsManaged ("/v1" ^ "/profiles/" ^ codec.path_escape id) "profile"
                (codec.name r.body) (λ n. not (is_blank n)) codec.show_name
                λ n t. rename_profile id n good (==→eq r.method "PATCH" m) refl (ground arith) refl)
            (λ _ t. delete_profile id good (==→eq r.method "DELETE" t) refl refl)
  profile_route-IsManaged (id ∷ action ∷ []) =
      if-intro IsManaged (is_bad_segment id) (λ _. tt)
        λ good.
          if-intro IsManaged (action == "activate" || action == "update")
            (λ k t. use_profile id action good k (==→eq r.method "POST" t) refl refl)
            (λ _. invalid-IsManaged _ "profile")
  profile_route-IsManaged (id ∷ action ∷ more ∷ rest) = tt

  group_route-IsManaged : (name : String) → IsManaged (group_route codec r name)
  unfolding group_route
  group_route-IsManaged name =
      if-intro IsManaged (r.method == "PUT" && not (name == ""))
        (λ k.
          checked-IsManaged ("/v1" ^ "/proxy-groups/" ^ codec.path_escape name) ""
            (codec.name r.body) (λ n. not (is_blank n)) codec.show_name
            λ n t.
              select_proxy name n (ground arith) (==→eq r.method "PUT" (ground arith)) refl
                (ground arith) refl)
        (λ _. invalid-IsManaged _ "")

  nested_route-IsManaged : (path : String) → IsManaged (nested_route codec r path)
  unfolding nested_route
  nested_route-IsManaged path =
      if-intro IsManaged (has_prefix path "/profiles/")
        (λ _. profile_route-IsManaged (split_slash (trim_prefix path "/profiles/")))
        λ _.
          if-intro IsManaged (has_prefix path "/proxy-groups/")
            (λ _. group_route-IsManaged (trim_prefix path "/proxy-groups/"))
            (λ _. invalid-IsManaged _ "")

  -- A property of the target of a known path.
  at_path :
      (path known : String) (m : String) (es : List (String × String))
      → (path == known) ≡ true
      → IsIn (m, "/v1" ^ known) es
      → IsIn (m, "/v1" ^ path) es
  at_path path known m es e at = subst (λ p. IsIn (m, "/v1" ^ p) es) (sym (==→eq path known e)) at

  either :
      (path a b m : String) (es : List (String × String))
      → (path == a || path == b) ≡ true
      → IsIn (m, "/v1" ^ a) es
      → IsIn (m, "/v1" ^ b) es
      → IsIn (m, "/v1" ^ path) es
  either path a b m es h x y = go (path == a) refl
    where
      go : (t : Bool) → (path == a) ≡ t → IsIn (m, "/v1" ^ path) es
      go true e = at_path path a m es e x
      go false e = at_path path b m es (ground arith) y

  body_route-IsManaged : (path : String) → IsManaged (body_route codec r path)
  unfolding body_route
  body_route-IsManaged path =
      if-intro IsManaged (path == "/tun" || path == "/logging")
        (λ e.
          if-intro IsManaged (r.method == "PUT")
            (put-IsManaged "PUT" ("/v1" ^ path) (kind_of path) (codec.enabled r.body) is_some_bool
              (λ b. codec.show_enabled (flag b))
              (either path "/tun" "/logging" "PUT" body_endpoints e (0, refl) (1, refl)))
            (λ _. invalid-IsManaged _ (kind_of path)))
        λ _.
          if-intro IsManaged (path == "/proxy-port")
            (λ e.
              if-intro IsManaged (r.method == "PUT")
                (put-IsManaged "PUT" ("/v1" ^ path) "status" (codec.port r.body) is_port
                  (λ p. codec.show_port (number p))
                  (at_path path "/proxy-port" "PUT" body_endpoints e (2, refl)))
                (λ _. invalid-IsManaged _ "status"))
            λ _.
              if-intro IsManaged (path == "/profiles")
                (λ e.
                  if-intro IsManaged (r.method == "POST")
                    (put-IsManaged "POST" ("/v1" ^ path) "profile" (codec.name_url r.body)
                      (λ b. is_web_link (codec.scheme_hostname b.1)) codec.show_name_url
                      (at_path path "/profiles" "POST" body_endpoints e (3, refl)))
                    (λ _.
                      plain-IsManaged "GET" ("/v1" ^ path) "profiles"
                        (at_path path "/profiles" "GET" bare_endpoints e (6, refl))))
                λ _.
                  if-intro IsManaged (path == "/proxy-delay")
                    (λ e.
                      if-intro IsManaged (r.method == "POST")
                        (put-IsManaged "POST" ("/v1" ^ path) "" (codec.group_name r.body)
                          (λ b. not (is_blank b.1 || is_blank b.0)) codec.show_group_name
                          (at_path path "/proxy-delay" "POST" body_endpoints e (4, refl)))
                        (λ _. invalid-IsManaged _ ""))
                    (λ _. nested_route-IsManaged path)

  route-IsManaged : IsManaged (route codec r)
  unfolding route
  route-IsManaged = go (trim_prefix r.path "/api/v1")
    where
      go :
          (path : String)
          → IsManaged (
              if path == "/status"
              then plain (r.method == "GET") ("/v1" ^ path) "status"
              else if path == "/core/start" || path == "/core/stop"
              then plain (r.method == "POST") ("/v1" ^ path) "status"
              else if path == "/proxy-groups" || path == "/rules"
              then plain (r.method == "GET") ("/v1" ^ path) ""
              else if path == "/logging/status"
              then plain (r.method == "GET") ("/v1" ^ path) "logging"
              else body_route codec r path)
      go path =
          if-intro IsManaged (path == "/status")
            (λ e.
              plain-IsManaged "GET" ("/v1" ^ path) "status"
                (at_path path "/status" "GET" bare_endpoints e (0, refl)))
            λ _.
              if-intro IsManaged (path == "/core/start" || path == "/core/stop")
                (λ e. plain-IsManaged "POST" ("/v1" ^ path) "status" (
                  either path "/core/start" "/core/stop" "POST" bare_endpoints e (1, refl)
                    (2, refl)))
                λ _.
                  if-intro IsManaged (path == "/proxy-groups" || path == "/rules")
                    (λ e. plain-IsManaged "GET" ("/v1" ^ path) "" (
                      either path "/proxy-groups" "/rules" "GET" bare_endpoints e (3, refl)
                        (4, refl)))
                    λ _.
                      if-intro IsManaged (path == "/logging/status")
                        (λ e.
                          plain-IsManaged "GET" ("/v1" ^ path) "logging"
                            (at_path path "/logging/status" "GET" bare_endpoints e (5, refl)))
                        (λ _. body_route-IsManaged path)

-- What `forward_route` passes on.
forward_route-forwarded :
    (codec : Codec) (write_busy delay_busy : Bool) (r : Request) (rt : Route) (c : Call)
    → forward_route codec write_busy delay_busy r rt ≡ forwarded c
    → (rt.valid ≡ true)
      × (r.raw_query ≡ "")
      × (c.method ≡ r.method)
      × (c.target ≡ rt.target)
      × (c.body ≡ rt.body)
      × ((r.method ≡ "GET") ⊎ (has_no_body rt.body ≡ false) ⊎ (codec.empty r.body ≡ true))
unfolding forward_route
forward_route-forwarded codec write_busy delay_busy r rt c h =
    ground (arith, string_eq.beq_iff r.method "GET", string_eq.beq_iff r.raw_query "")

-- Whatever the gateway passes on to the manager has the method of the browser's request, carries
-- no query, and is one of the endpoints: seven fixed ones without a body, five fixed ones with one,
-- a rename, deletion, activation or update of one profile with a usable identifier, or the choice
-- of a proxy in a named group.
pub forward-IsEndpoint :
    (codec : Codec) (write_busy delay_busy : Bool) (r : Request) (c : Call)
    → forward codec write_busy delay_busy r ≡ forwarded c
    → (c.method ≡ r.method) × (r.raw_query ≡ "") × IsEndpoint codec c.method c.target c.body
unfolding forward
forward-IsEndpoint codec write_busy delay_busy r c h =
    go (route codec r) (route-IsManaged codec r) h
  where
    answer : Result Response Route → Response
    answer routed = elim routed [
      | err e ↦ e
      | ok rt ↦ forward_route codec write_busy delay_busy r rt
    ]

    go :
        (routed : Result Response Route)
        → IsManaged codec r routed
        → answer routed ≡ forwarded c
        → (c.method ≡ r.method) × (r.raw_query ≡ "") × IsEndpoint codec c.method c.target c.body
    go (err e) m k = absurd (subst IsFailure k m)
    go (ok rt) m k =
        let facts : (rt.valid ≡ true)
            × (r.raw_query ≡ "")
            × (c.method ≡ r.method)
            × (c.target ≡ rt.target)
            × (c.body ≡ rt.body)
            × ((r.method ≡ "GET") ⊎ (has_no_body rt.body ≡ false) ⊎ (codec.empty r.body ≡ true)) =
          forward_route-forwarded codec write_busy delay_busy r rt c k in
        (
          facts.2,
          facts.1,
          subst (λ m. IsEndpoint codec m c.target c.body) (sym facts.2)
              (subst (λ t. IsEndpoint codec r.method t c.body) (sym facts.3)
                (subst (λ b. IsEndpoint codec r.method rt.target b) (sym facts.4) (m facts.0))),
        )
