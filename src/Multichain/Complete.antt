-- ===== src/Multichain/Complete.antt =====
-- When a global snapshot is called complete.
use parallel_usdp_hyperevm_i.Prelude.{
  All-sort_by, ◌&&◌, ◌++◌, refl, ℕ, Bool, true, false, not, List, [], ◌∷◌, ◌≡◌, All, any, map,
  filter, has, Distinct, length, length-map, All-distinct_on, All-map, All-imp, All-filter,
  All-filter_self, All-sort_by, ◌&&◌, ◌++◌, refl, ◌∙◌, distinct_on-Distinct, filter-Distinct,
  has_of_length, arith, Bool-cases, inl, inr, ◌==◌,
}
use parallel_usdp_hyperevm_i.Multichain.{
  complete, SavingsAggregationComponent, LatestSavingsRow, coverage_status, latest_components,
  chain_of, included_of, stale_of, is_stale, row_before, SnapshotComponentRow, component_row,
  GlobalSavings, create_global_savings_snapshot,
}

-- The components that the query finds are of expected chains, one for each.
latest_components-expected :
    (table : List LatestSavingsRow) (expected : List ℕ)
    → All (λ c. has (chain_of c) expected ≡ true) (latest_components table expected)
latest_components-expected table expected = All-distinct_on chain_of _ [] _ (
    All-map _ (λ (row : LatestSavingsRow). row.component) _
      (All-sort_by row_before _ _
        (All-filter_self (λ (row : LatestSavingsRow). has row.component.chain_id expected) table)))

pub complete_lem : (m n : ℕ) → coverage_status m n ≡ complete → m ≡ n
complete_lem m n h = ground arith

-- A list of a component for each included chain is as long as the expected chains only if every
-- expected chain is among them.
pub covers_of_complete :
    {A : Type 0} (key : A → ℕ) (p : A → Bool) (xs : List A) (expected : List ℕ)
    → Distinct (map key xs)
    → All (λ x. has (key x) expected ≡ true) xs
    → coverage_status (length (filter p xs)) (length expected) ≡ complete
    → (chain_id : ℕ) → has chain_id expected ≡ true
    → has chain_id (map key (filter p xs)) ≡ true
covers_of_complete key p xs expected d h e chain_id k =
    has_of_length (map key (filter p xs)) expected (filter-Distinct key p xs d)
      (All-map _ key _ (All-filter _ p xs h)) (length-map key (filter p xs) ∙ complete_lem _ _ e)
      chain_id k

module _ (as_of maximum_age_seconds : ℕ) where
  abbrev stale : SavingsAggregationComponent → Bool
  stale component = is_stale as_of maximum_age_seconds component

  abbrev GoesStale : List ℕ → SavingsAggregationComponent → Type 0
  GoesStale ids component = stale component ≡ true → has component.chain_id ids ≡ true

  has-stale_cons :
      (k : ℕ) (x : SavingsAggregationComponent) (xs : List SavingsAggregationComponent)
      → has k (stale_of as_of maximum_age_seconds xs) ≡ true
      → has k (stale_of as_of maximum_age_seconds (x ∷ xs)) ≡ true
  has-stale_cons k x xs h = elim (Bool-cases (stale x)) [
    | inl e ↦ rw e (ground (arith, h))
    | inr e ↦ rw e h
  ]

  goes_stale :
      (xs : List SavingsAggregationComponent)
      → All (GoesStale (stale_of as_of maximum_age_seconds xs)) xs
  goes_stale [] = tt
  goes_stale (x ∷ xs) = (
    (λ e. rw e (ground arith)),
    All-imp (λ y h e. has-stale_cons y.chain_id x xs (h e)) xs (goes_stale xs),
  )

  fresh :
      (ids : List ℕ) (xs : List SavingsAggregationComponent)
      → All (GoesStale ids) xs
      → All (λ c. stale c ≡ false) (included_of ids xs)
  fresh ids [] h = tt
  fresh ids (x ∷ xs) h = elim (Bool-cases (has x.chain_id ids)) [
    | inl e ↦ rw e (fresh ids xs h.1)
    | inr e ↦
        rw e (elim (Bool-cases (stale x)) [ inl s ↦ cc (h.0 s) | inr s ↦ s ], fresh ids xs h.1)
  ]

  -- A component of a chain that is fresh.
  abbrev pub is_fresh_of : ℕ → SavingsAggregationComponent → Bool
  is_fresh_of chain_id component =
      component.chain_id == chain_id && not (is_stale as_of maximum_age_seconds component)

  any_fresh :
      (chain_id : ℕ) (xs : List SavingsAggregationComponent)
      → All (λ c. stale c ≡ false) xs
      → has chain_id (map chain_of xs) ≡ true
      → any (is_fresh_of chain_id) xs ≡ true
  any_fresh chain_id [] f h = cc
  any_fresh chain_id (x ∷ xs) f h = elim (Bool-cases (x.chain_id == chain_id)) [
    | inl e ↦ rw e (rw (f.0) refl)
    | inr e ↦ rw e (any_fresh chain_id xs f.1 (ground arith))
  ]

  -- A row of the global snapshot for a chain.
  abbrev pub is_row_of : ℕ → ℕ → SnapshotComponentRow → Bool
  is_row_of id chain_id row = row.global_snapshot_id == id && row.component_chain_id == chain_id

  any-stored :
      (id chain_id : ℕ) (before : List SnapshotComponentRow) (xs : List SavingsAggregationComponent)
      → has chain_id (map chain_of xs) ≡ true
      → any (is_row_of id chain_id) (before ++ map (component_row id) xs) ≡ true
  any-stored id chain_id (row ∷ before) xs h = ground (arith, any-stored id chain_id before xs h)
  any-stored id chain_id [] [] h = cc
  any-stored id chain_id [] (x ∷ xs) h = ground (arith, any-stored id chain_id [] xs)

  -- If the global savings snapshot that is stored is called complete, then it includes, for every
  -- expected chain, a component of that chain that is neither too old nor invalid, and a row of the
  -- snapshot is stored for that chain.
  pub create_global_savings_snapshot-complete :
      (table : List LatestSavingsRow) (expected : List ℕ) (id : ℕ) (stored : GlobalSavings)
      → (create_global_savings_snapshot table expected maximum_age_seconds as_of id
          stored).1.aggregate.coverage
        ≡ complete
      → (chain_id : ℕ) → has chain_id expected ≡ true
      → (let (after, snapshot) =
            create_global_savings_snapshot table expected maximum_age_seconds as_of id stored in
          (any (is_fresh_of chain_id) snapshot.aggregate.included ≡ true)
          × (any (is_row_of id chain_id) after.components ≡ true))
  unfolding create_global_savings_snapshot
  create_global_savings_snapshot-complete table expected id stored e chain_id k =
      let found = latest_components table expected in
      let ids = stale_of as_of maximum_age_seconds found in
      let covers =
        covers_of_complete chain_of (λ c. not (has c.chain_id ids)) found expected
          (distinct_on-Distinct chain_of [] _) (latest_components-expected table expected) e
          chain_id k in
      (
        any_fresh chain_id (included_of ids found) (fresh ids found (goes_stale found)) covers,
        any-stored id chain_id stored.components (included_of ids found) covers,
      )
