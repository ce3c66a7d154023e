-- ===== src/Config/Validate/Parts.antt =====
-- The validator accepts a configuration when each of its parts does.
use mihomo_loongnix.Config.Validate.Rules.{validate_custom, validate_built_in, validate_providers}
use mihomo_loongnix.Config.Validate.Pools.{validate_pools}
use mihomo_loongnix.Config.Validate.Subscriptions.{validate_active, validate_subscriptions}
use mihomo_loongnix.Prelude.{append-eq-nil, [], ◌≡◌}
use mihomo_loongnix.Config.Validate.Scalars.{validate_scalars, validate_ports}
use mihomo_loongnix.Config.Validate.Problems.{NetLib}
use mihomo_loongnix.Config.Types.{Config}
use mihomo_loongnix.Config.Validate.{validate}

pub record Parts (net : NetLib) (c : Config) : Type 0 where
  pub ports : validate_ports c.mihomo ≡ []
  pub scalars : validate_scalars net c ≡ []
  pub subscriptions : validate_subscriptions c ≡ []
  pub active : validate_active c ≡ []
  pub pools : validate_pools c ≡ []
  pub providers : validate_providers c ≡ []
  pub built_in : validate_built_in c ≡ []
  pub custom : validate_custom c ≡ []

pub validate→Parts : (net : NetLib) (c : Config) → validate net c ≡ [] → Parts net c
unfolding validate
validate→Parts net c h =
    let (p1, h1) = append-eq-nil (validate_ports c.mihomo) _ h in
    let (p2, h2) = append-eq-nil (validate_scalars net c) _ h1 in
    let (p3, h3) = append-eq-nil (validate_subscriptions c) _ h2 in
    let (p4, h4) = append-eq-nil (validate_active c) _ h3 in
    let (p5, h5) = append-eq-nil (validate_pools c) _ h4 in
    let (p6, h6) = append-eq-nil (validate_providers c) _ h5 in
    let (p7, p8) = append-eq-nil (validate_built_in c) _ h6 in
    record {
      ports = p1;
      scalars = p2;
      subscriptions = p3;
      active = p4;
      pools = p5;
      providers = p6;
      built_in = p7;
      custom = p8;
    }

pub Parts→validate : (net : NetLib) (c : Config) → Parts net c → validate net c ≡ []
unfolding validate
Parts→validate net c k =
    cc (k.ports, k.scalars, k.subscriptions, k.active, k.pools, k.providers, k.built_in, k.custom)
