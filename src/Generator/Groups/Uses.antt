-- ===== src/Generator/Groups/Uses.antt =====
-- Which providers the groups of the generated configuration use.
use mihomo_loongnix.Prelude.{
  ℕ, ◌+◌, ◌≡◌, ◌≢◌, refl, sym, ap, subst, ◌∙◌, String, Bool, false, List, [], ◌∷◌, string_eq, All,
  map,
}
use mihomo_loongnix.Config.Types.{Config, SubscriptionMeta}
use mihomo_loongnix.Config.Store.{Result, ok, err}
use mihomo_loongnix.Pool.{active_pool_subscriptions}
use mihomo_loongnix.Generator.{GeneratorLib}
use mihomo_loongnix.Generator.Groups.{
  ProxyProviderYaml, ProxyGroupYaml, usable_subscriptions, proxy_provider, proxy_providers,
  proxy_groups, grouped, provided, build_proxy_config,
}

-- The provider is a file of the daemon, never a URL that the core fetches itself.
abbrev pub IsLocal : String × ProxyProviderYaml → Type 0
IsLocal p = (p.1.provider_type ≡ "file") × (p.1.url ≡ "")

-- Each group uses all the providers.
abbrev pub UsesAll : List (String × ProxyProviderYaml) → ProxyGroupYaml → Type 0
UsesAll ps g = g.use_providers ≡ map (λ (q : String × ProxyProviderYaml). q.0) ps

ok-inj : {E A : Type 0} {a b : A} → ◌≡◌ {A = Result E A} (ok a) (ok b) → a ≡ b
ok-inj {E} {A} {a} {b} h = ap value h
  where
    value : Result E A → A
    value (ok x) = x
    value (err e) = a

module _ (lib : GeneratorLib) (c : Config) where
  providers-IsLocal :
      (i : ℕ) (subs : List SubscriptionMeta) → All IsLocal (proxy_providers lib c false i subs)
  unfolding proxy_providers proxy_provider
  providers-IsLocal i [] = tt
  providers-IsLocal i (s ∷ ss) = ((refl, refl), providers-IsLocal (i + 1) ss)

  -- Where the pools have a subscription to use, and the configuration is built, there is a provider,
  -- every provider is a local file, and every group uses all of them.
  pub build_proxy_config-uses :
      (has_cache : SubscriptionMeta → Bool) (subs : List SubscriptionMeta)
      (ps : List (String × ProxyProviderYaml)) (gs : List ProxyGroupYaml)
      → active_pool_subscriptions has_cache c ≡ ok subs
      → build_proxy_config lib c has_cache ≡ ok (ps, gs)
      → (ps ≢ []) × All IsLocal ps × All (UsesAll ps) gs
  unfolding build_proxy_config usable_subscriptions provided grouped proxy_groups
  build_proxy_config-uses has_cache subs ps gs a b =
      go (proxy_providers lib c false 1 subs) (providers-IsLocal 1 subs)
        (sym (ap (λ r. provided lib c (usable_subscriptions c r)) a) ∙ b)
    where
      Fits : List (String × ProxyProviderYaml) × List ProxyGroupYaml → Type 0
      Fits z = (z.0 ≢ []) × All IsLocal z.0 × All (UsesAll z.0) z.1

      go :
          (qs : List (String × ProxyProviderYaml))
          → All IsLocal qs
          → grouped lib c qs ≡ ok (ps, gs)
          → Fits (ps, gs)
      go [] k e = absurd cc
      go (q ∷ qs) k e = subst Fits (ok-inj e) ((λ h. cc), k, (refl, (refl, (refl, (refl, tt)))))
