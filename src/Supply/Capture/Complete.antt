-- ===== src/Supply/Capture/Complete.antt =====
-- No chain is lost between the adapters and the global supply snapshot.
use parallel_usdp_hyperevm_i.Prelude.{
  length-map, subst, ◌≤◌, Bool, ◌≢◌, ◌⊎◌, has-unique, sort_by, any-append, All-imp, ◌++◌, arith,
  true, All, has, ℕ, ◌+◌, ◌≡◌, inl, inr, refl, String, List, [], ◌∷◌, map, length, ◌∙◌, ap, ◌==◌,
  ◌||◌, not, filter, unique,
}
use parallel_usdp_hyperevm_i.Supply.{
  is_included, ascending, SupplyTables, all_failed_ids, supply_chain_of, SupplyOptions,
  UsdpSupplyComponent,
}
use parallel_usdp_hyperevm_i.Supply.Accounted.{has-ascending}
use parallel_usdp_hyperevm_i.Supply.Component.{SupplyClient, SupplyState}
use parallel_usdp_hyperevm_i.Supply.Capture.{
  secret_urls, UsdpSupplyFailure, capture_global_usdp_supply, GlobalSupply, failure_chain,
  failures_of, components_of, ConfiguredAdapter, SupplySettings, Attempt, captured, failed,
  capture_all, configured_chain,
}
use parallel_usdp_hyperevm_i.Supply.Capture.Chains.{attempt_chain, attempts-chains}
use parallel_usdp_hyperevm_i.Multichain.{complete, coverage_status, missing_chain_ids_of}
use parallel_usdp_hyperevm_i.Multichain.Complete.{complete_lem}

-- The chains of the attempts are those of the components and of the failures.
has-attempts :
    (k : ℕ) (attempts : List Attempt)
    → has k (map attempt_chain attempts) ≡ (
        has k (map supply_chain_of (components_of attempts))
        || has k (map failure_chain (failures_of attempts)))
has-attempts k [] = refl
has-attempts k (captured component ∷ attempts) = ground (arith, has-attempts k attempts)
has-attempts k (failed failure ∷ attempts) = ground (arith, has-attempts k attempts)

length-attempts :
    (attempts : List Attempt)
    → length (components_of attempts) + length (failures_of attempts) ≡ length attempts
length-attempts [] = refl
length-attempts (captured component ∷ attempts) = omega (arith, length-attempts attempts)
length-attempts (failed failure ∷ attempts) = omega (arith, length-attempts attempts)

nothing_missing :
    (observed expected : List ℕ)
    → All (λ k. has k observed ≡ true) expected
    → missing_chain_ids_of observed expected ≡ []
nothing_missing observed [] h = refl
nothing_missing observed (k ∷ expected) h = rw (h.0) (nothing_missing observed expected h.1)

All-has_own : (ids : List ℕ) → All (λ k. has k ids ≡ true) ids
All-has_own [] = tt
All-has_own (k ∷ ids) = (ground arith, All-imp (λ j h. ground (arith, h)) ids (All-has_own ids))

-- An attempt's chain is observed: it is the chain of a component, or a failed one.
observed_lem :
    (k : ℕ) (attempts : List Attempt) (options : SupplyOptions)
    → options.components ≡ components_of attempts
    → options.failed_chain_ids ≡ map failure_chain (failures_of attempts)
    → has k (map attempt_chain attempts) ≡ true
    → has k (map supply_chain_of options.components ++ all_failed_ids options) ≡ true
observed_lem k attempts options c f h =
    let joined =
      any-append (λ y. y == k) (map supply_chain_of options.components) (all_failed_ids options) in
    let failed_part =
      has-ascending k (
        unique (
          options.failed_chain_ids
          ++ map supply_chain_of (filter (λ c. not c.metadata_verified) options.components)))
      ∙ has-unique k _
      ∙ any-append (λ y. y == k) options.failed_chain_ids _ in
    let parts = has-attempts k attempts in
    joined ∙ rw failed_part (rw (c, f) (ground (arith, parts)))

filter_le :
    (p : UsdpSupplyComponent → Bool) (cs : List UsdpSupplyComponent)
    → length (filter p cs) ≤ length cs
filter_le p [] = omega arith
filter_le p (c ∷ cs) = ground (arith, filter_le p cs)

complete_or_failed :
    (failures : List UsdpSupplyFailure) (included expected : ℕ)
    → included + length failures ≤ expected
    → (failures ≡ []) ⊎ (coverage_status included expected ≢ complete)
complete_or_failed [] included expected h = inl refl
complete_or_failed (failure ∷ failures) included expected h =
    inr (λ e. absurd (omega (arith, complete_lem included expected e)))

module _ (client : ℕ → ℕ → String → SupplyClient) (settings : SupplySettings) (as_of : ℕ)
    (adapters : List ConfiguredAdapter) (id : ℕ) (state : SupplyState) (tables : SupplyTables) where
  abbrev run : GlobalSupply
  run = capture_global_usdp_supply client settings as_of adapters id state tables

  -- A global capture of the supply reports none of its chains as missing, and it calls the supply
  -- complete only if no chain has failed.
  pub capture_global_usdp_supply-complete :
      (run.aggregate.missing_chain_ids ≡ [])
      × ((run.failures ≡ []) ⊎ (run.aggregate.coverage ≢ complete))
  unfolding capture_global_usdp_supply sort_by
  capture_global_usdp_supply-complete =
      let secrets = secret_urls adapters in
      let attempts = (capture_all client settings as_of secrets adapters state).0 in
      let same = attempts-chains client settings as_of secrets adapters state in
      let own : All (λ k. has k (map attempt_chain attempts) ≡ true)
          (map configured_chain adapters) =
        subst (λ (ids : List ℕ). All (λ k. has k (map attempt_chain attempts) ≡ true) ids) same
          (All-has_own (map attempt_chain attempts)) in
      let options : SupplyOptions = record {
        components = components_of attempts;
        expected_chain_ids = map configured_chain adapters;
        failed_chain_ids = map failure_chain (failures_of attempts);
        as_of = as_of;
        maximum_age_seconds = settings.maximum_age_seconds;
        alignment_maximum_skew_seconds = settings.alignment_maximum_skew_seconds;
      } in
      (
        ap ascending (
            nothing_missing _ (map configured_chain adapters)
              (All-imp (λ k h. observed_lem k attempts options refl refl h) _ own)),
        complete_or_failed (failures_of attempts)
            (length (filter (is_included options) (components_of attempts)))
            (length (map configured_chain adapters))
            (omega (
              arith,
              filter_le (is_included options) (components_of attempts),
              length-attempts attempts,
              length-map attempt_chain attempts,
              length-map configured_chain adapters,
              ap (λ (ids : List ℕ). length ids) same,
            )),
      )
