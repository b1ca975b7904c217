-- ===== src/Supply/Accounted.antt =====
-- Every component of a global supply snapshot is accounted for.
use parallel_usdp_hyperevm_i.Prelude.{
  ap, ℕ, ◌≡◌, refl, Bool, not, ◌&&◌, List, [], ◌∷◌, ◌++◌, Option, none, some, All, All-and, map,
  filter, has, Distinct, has-filter_own, has-unique, any-sort_by, ltb, ◌==◌, sum_of, if◌then◌else◌,
  arith, Bool-cases, inl, inr, ◌∙◌,
}
use parallel_usdp_hyperevm_i.Supply.{
  SupplyOptions, UsdpSupplyComponent, SupplyTables, SupplyComponentRow, SupplyAggregate,
  ExclusionReason, metadata_invalid, stale_or_misaligned, persist_global_snapshot,
  aggregate_usdp_supply_components, is_stale, is_included, exclusion_reason_if, supply_chain_of,
  ascending, stale_ids, supply_row,
}

-- Why a component is left out, by its own fields.
abbrev pub reason : SupplyOptions → UsdpSupplyComponent → Option ExclusionReason
reason options component =
    if not component.metadata_verified
    then some metadata_invalid
    else if is_stale options component
    then some stale_or_misaligned
    else none

abbrev pub is_counted : SupplyOptions → UsdpSupplyComponent → Bool
is_counted options component = component.metadata_verified && not (is_stale options component)

pub has-ascending : (k : ℕ) (ids : List ℕ) → has k (ascending ids) ≡ has k ids
has-ascending k ids = any-sort_by ltb (λ y. y == k) ids

module _ (options : SupplyOptions) where
  abbrev aggregate : SupplyAggregate
  aggregate = aggregate_usdp_supply_components options

  abbrev OwnTests : UsdpSupplyComponent → Type 0
  OwnTests c =
      (has c.chain_id (map supply_chain_of (filter (is_included options) options.components))
        ≡ is_included options c)
      × (has c.chain_id (stale_ids options) ≡ is_stale options c)

  own_tests : Distinct (map supply_chain_of options.components) → All OwnTests options.components
  own_tests d =
      All-and _ _ options.components
        (has-filter_own supply_chain_of (is_included options) options.components d)
        (has-filter_own supply_chain_of (is_stale options) options.components d)

  abbrev pub expected_row : ℕ → UsdpSupplyComponent → SupplyComponentRow
  expected_row id c = record {
    global_snapshot_id = id;
    row_snapshot_id = c.asset_snapshot_id;
    row_chain_id = c.chain_id;
    included = is_counted options c;
    exclusion_reason = reason options c;
  }

  row_of : ℕ → UsdpSupplyComponent → Bool → Bool → SupplyComponentRow
  row_of id c included stale = record {
    global_snapshot_id = id;
    row_snapshot_id = c.asset_snapshot_id;
    row_chain_id = c.chain_id;
    included = included;
    exclusion_reason = exclusion_reason_if included c.metadata_verified stale;
  }

  row_of_lem :
      (id : ℕ) (c : UsdpSupplyComponent)
      → row_of id c (is_counted options c) (is_stale options c) ≡ expected_row id c
  unfolding row_of
  row_of_lem id c = elim (Bool-cases c.metadata_verified) [
    | inl e ↦ elim (Bool-cases (is_stale options c)) [
      | inl s ↦ rw e (rw s refl)
      | inr s ↦ rw e (rw s refl)
    ]
    | inr e ↦ rw e refl
  ]

  row_lem :
      (id : ℕ) (c : UsdpSupplyComponent)
      → OwnTests c
      → supply_row id aggregate c ≡ expected_row id c
  unfolding aggregate_usdp_supply_components row_of
  row_lem id c h =
      let listed : has c.chain_id aggregate.included_chain_ids ≡ is_included options c =
        has-ascending c.chain_id _ ∙ h.0 in
      let counted : is_included options c ≡ is_counted options c =
        ap (λ (b : Bool). c.metadata_verified && not b) h.1 in
      let stale : has c.chain_id aggregate.stale_chain_ids ≡ is_stale options c =
        has-ascending c.chain_id _ ∙ has-unique c.chain_id (stale_ids options) ∙ h.1 in
      ap (λ (b : Bool). row_of id c b (has c.chain_id aggregate.stale_chain_ids)) (listed ∙ counted)
      ∙ ap (row_of id c (is_counted options c)) stale
      ∙ row_of_lem id c

  rows_lem :
      (id : ℕ) (cs : List UsdpSupplyComponent)
      → All OwnTests cs
      → map (supply_row id aggregate) cs ≡ map (expected_row id) cs
  rows_lem id [] h = refl
  rows_lem id (c ∷ cs) h = rw (row_lem id c h.0, rows_lem id cs h.1) refl

  total_lem :
      (cs : List UsdpSupplyComponent)
      → All OwnTests cs
      → sum_of (λ c. c.total_supply) (filter (is_included options) cs)
        ≡ sum_of (λ c. c.total_supply) (filter (is_counted options) cs)
  total_lem [] h = refl
  total_lem (c ∷ cs) h = rw (h.0.1) (ground (arith, total_lem cs h.1))

  -- With one component for each chain, the stored rows say of each component whether it counts, and
  -- if not why, by its own metadata and time alone, and the candidate total is the sum of the
  -- supplies that count.
  pub persist_global_snapshot-accounts :
      (id : ℕ) (tables : SupplyTables)
      → Distinct (map supply_chain_of options.components)
      → (let (aggregate, after) = persist_global_snapshot options id tables in
          (after.components ≡ tables.components ++ map (expected_row id) options.components)
          × (aggregate.candidate_total_supply
              ≡ sum_of (λ c. c.total_supply) (filter (is_counted options) options.components)))
  unfolding persist_global_snapshot
  persist_global_snapshot-accounts id tables d = (
    rw (rows_lem id options.components (own_tests d)) refl,
    total_lem options.components (own_tests d),
  )
