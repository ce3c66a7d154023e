-- ===== src/Tun/Preflight.antt =====
-- The checks of mihomotui/tun_routing_linux.go that come before anything is changed: the firewall
-- backend, the default gateway, the other TUN devices, and the free table and priorities.
use mihomo_loongnix.Prelude.{
  suc, zero, ℕ, Bool, true, false, not, ◌&&◌, ◌||◌, String, List, [], ◌∷◌, Option, none, some, map,
  keep, contains, if◌then◌else◌, ◌==◌, string_eq, nat_eq, leb,
}
use mihomo_loongnix.Prelude.Lines.{split_lines, fields, contains_lower}
use mihomo_loongnix.Prelude.Text.{trim_space, has_prefix, is_blank}
use mihomo_loongnix.Config.Store.{Result, ok, err}
use mihomo_loongnix.Config.Validate.Pools.{is_empty}
use mihomo_loongnix.Tun.{Host, Tun, TunLink, TunRoute}
use mihomo_loongnix.Tun.Actions.{
  Reason, Routine, pure, raise, lift, attempt, ◌>>=◌, ◌>>◌, no_gateway, bad_json, not_root,
  no_backend, nft_missing, bad_interface, table_taken, external_tuns, pref_taken,
}
use mihomo_loongnix.Tun.Commands.{ip, run_tun_command}
use mihomo_loongnix.Tun.Policy.{shown_or_empty, tun_routing_table}
use Prim.Native.Char.{code}
use Prim.Native.String.{[], ◌∷◌}

-- The last word after each `dev` and each `via` of a line.
unfoldable pub read_route : List String → String × String → String × String
read_route (w ∷ v ∷ ws) (iface, gateway) =
    read_route (v ∷ ws) (if w == "dev" then v else iface, if w == "via" then v else gateway)
read_route _ found = found

-- The first line that names both.
unfoldable pub first_route : List String → Option (String × String)
unfolding read_route
first_route [] = none
first_route (l ∷ ls) =
    let (iface, gateway) = read_route (fields (trim_space l)) ("", "") in
    let rest = first_route ls in
    if not (iface == "") && not (gateway == "") then some (iface, gateway) else rest

unfoldable pub select_tun_firewall_backend : Bool → Bool → String → Result (List Reason) String
select_tun_firewall_backend nft_available iptables_available version =
    if nft_available
    then ok "nft"
    else if not iptables_available
    then err (no_backend ∷ [])
    else if contains_lower version "nf_tables" || contains_lower version "iptables-nft"
    then err (nft_missing ∷ [])
    else ok "iptables-legacy"

abbrev is_interface_char : ℕ → Bool
is_interface_char c =
    (leb b'a' c && leb c b'z')
    || (leb b'A' c && leb c b'Z')
    || (leb b'0' c && leb c b'9')
    || c == b'_'
    || c == b'-'
    || c == b'.'
    || c == b':'
    || c == b'@'

abbrev has_interface_chars : String → Bool
has_interface_chars [] = true
has_interface_chars (c ∷ s) = is_interface_char (code c) && has_interface_chars s

-- A text of more than 15 characters. Each character that is let through is one byte, so where the
-- bytes are counted instead, the same names pass.
abbrev is_longer : ℕ → String → Bool
is_longer n [] = false
is_longer n (c ∷ s) = elim n [ zero ↦ true | suc m ↦ is_longer m s ]

unfoldable pub validate_tun_interface_name : String → Result (List Reason) Unit
validate_tun_interface_name iface =
    if iface == "" || is_longer 15 iface || not (has_interface_chars iface)
    then err (bad_interface iface ∷ [])
    else ok tt

unfoldable pub parse_active_tun_interfaces : List TunLink → List TunRoute → List String
parse_active_tun_interfaces links routes = map TunLink.if_name (keep is_active links)
  where
    default_devices : List String
    default_devices = map TunRoute.dev (keep (λ r. r.dst == "default" && not (r.dev == "")) routes)

    is_active : TunLink → Bool
    is_active l =
        l.info_kind == "tun" && not (l.if_name == "") && contains default_devices l.if_name

unfoldable pub find_tun_rule_priority_collisions : String → List String
find_tun_rule_priority_collisions rules =
    keep (λ l. has_prefix l "100:" || has_prefix l "200:") (map trim_space (split_lines rules))

pub record TunPreflight : Type 0 where
  pub backend : String
  pub interface : String
  pub gateway : String
  pub external_tuns : List String
  pub ipv6_warning : Bool

abbrev pub decoded : {A : Type 0} → Option A → Result (List Reason) A
decoded none = err (bad_json ∷ [])
decoded (some a) = ok a

abbrev found_route : Option (String × String) → Result (List Reason) (String × String)
found_route none = err (no_gateway ∷ [])
found_route (some r) = ok r

module _ {M : Type 0} (h : Host M) where
  unfoldable pub get_default_gateway : Routine (Tun M) (String × String)
  unfolding ◌>>=◌
  get_default_gateway = do
    out ← run_tun_command h (ip ("route" ∷ "show" ∷ "default" ∷ []))
    lift (found_route (first_route (split_lines out)))

  unfoldable pub detect_tun_firewall_backend : Routine (Tun M) String
  unfolding ◌>>=◌
  detect_tun_firewall_backend =
      if h.has_nft
      then lift (select_tun_firewall_backend true false "")
      else if not h.has_iptables
      then lift (select_tun_firewall_backend false false "")
      else do
        out ← run_tun_command h (record { name = "iptables"; args = "--version" ∷ [] })
        lift (select_tun_firewall_backend false true out)

  unfoldable pub detect_external_active_tuns : Routine (Tun M) (List String)
  unfolding ◌>>=◌
  detect_external_active_tuns = do
    links ← run_tun_command h (ip ("-j" ∷ "-d" ∷ "link" ∷ "show" ∷ []))
    routes ← run_tun_command h (ip ("-j" ∷ "-4" ∷ "route" ∷ "show" ∷ "table" ∷ "all" ∷ []))
    links ← lift (decoded (h.decode_links links))
    routes ← lift (decoded (h.decode_routes routes))
    pure (parse_active_tun_interfaces links routes)

  unfoldable pub has_ipv6_default_route : Routine (Tun M) Bool
  unfolding ◌>>=◌
  has_ipv6_default_route = do
    out ← run_tun_command h (ip ("-6" ∷ "route" ∷ "show" ∷ "default" ∷ []))
    pure (not (is_blank out))

  unfoldable pub collect_tun_preflight : String → Routine (Tun M) TunPreflight
  unfolding ◌>>=◌
  collect_tun_preflight backend = do
    route ← get_default_gateway
    lift (validate_tun_interface_name route.0)
    tuns ← detect_external_active_tuns
    warning ← has_ipv6_default_route
    pure record {
      backend = backend;
      interface = route.0;
      gateway = route.1;
      external_tuns = tuns;
      ipv6_warning = warning;
    }

  unfoldable pub validate_for_apply : TunPreflight → Result (List Reason) Unit
  validate_for_apply p =
      if not (is_empty p.external_tuns)
      then err (external_tuns p.external_tuns ∷ [])
      else if not (h.euid == 0)
      then err (not_root ∷ [])
      else ok tt

  unfoldable pub validate_tun_route_slots_are_free : Routine (Tun M) Unit
  unfolding ◌>>=◌
  validate_tun_route_slots_are_free = do
    r ←
        attempt
          (run_tun_command h (ip ("-4" ∷ "route" ∷ "show" ∷ "table" ∷ tun_routing_table ∷ [])))
    out ← lift (shown_or_empty r)
    if not (is_blank out) then raise (table_taken (trim_space out) ∷ []) else do
      rules ← run_tun_command h (ip ("-4" ∷ "rule" ∷ "show" ∷ []))
      if is_empty (find_tun_rule_priority_collisions rules)
          then pure tt
          else raise (pref_taken (find_tun_rule_priority_collisions rules) ∷ [])
