-- ===== src/Readiness/Published.antt =====
-- When a chain of the dashboard is shown as read in full, and when as published.
use parallel_usdp_hyperevm_i.Prelude.{
  distinct_on-Distinct, filter-Distinct, All-and, ℕ, ◌+◌, ◌-◌, ◌*◌, ◌/◌, ◌≤◌, ◌<◌, ◌≡◌, ◌↔◌, refl,
  Bool, true, false, ◌&&◌, ◌==◌, ltb, leb, List, [], ◌∷◌, Option, none, some, any, filter, All,
  All-filter, All-filter_self, All-sort_by, All-distinct_on, All-imp, All-map, not, ◌||◌, map,
  length, Distinct, sort_by, Bool-cases, inl, inr, arith, subst,
}
use native.Mathlib.Nat.{mul-div_left, div-lt_iff_lt-mul}
use parallel_usdp_hyperevm_i.Multichain.Tables.{
  same_savings_asset_refl, SavingsAsset, usdp, susdp, same_savings_asset,
}
use parallel_usdp_hyperevm_i.Readiness.{
  LifetimeDashboardRow, DashboardTables, DashboardRange, ActivityRow, PublicationStatus,
  CoverageKind, is_past, dashboard_row, read_lifetime_dashboard, lifetime_dashboard_ranges,
  activity_before, lifetime, window, lifetime_publication_status, asset_rank,
  lifetime_progress_percent, is_activity_of, latest_activity, activity_key, is_read_activity,
  published,
}

-- For a range that is not empty, the progress is at most 100 percent, and it is 100 percent exactly
-- when the checkpoint has passed the range's last block.
lifetime_progress_percent_full :
    (from_block goal_block next_block : ℕ)
    → from_block ≤ goal_block
    → (lifetime_progress_percent from_block goal_block (some next_block) ≤ 10000)
      × (lifetime_progress_percent from_block goal_block (some next_block) ≡ 10000
          ↔ goal_block < next_block)
unfolding lifetime_progress_percent
lifetime_progress_percent_full from_block goal_block next_block h =
    let total : ℕ = goal_block + 1 - from_block in
    elim (Bool-cases (leb next_block from_block)) [
      | inl e ↦ rw e (omega arith, ((λ p. cc p), λ q. ground (arith, q, e)))
      | inr e ↦ elim (Bool-cases (ltb goal_block next_block)) [
        | inl past ↦
            let full : total * 10000 / total ≡ 10000 =
              subst (λ n. n / total ≡ 10000) (omega arith)
                (mul-div_left 10000 (omega (arith, h))) in
            rw (e, past, full) (omega arith, ((λ p. ground (arith, past)), λ q. refl))
        | inr within ↦
            let least : (next_block - from_block) * 10000 / total < 10000 =
              (div-lt_iff_lt-mul {k = total} (omega (arith, h))).1 (ground (arith, e, within)) in
            rw (e, within)
              (
                omega (arith, least),
                ((λ p. omega (arith, p, least)), λ q. ground (arith, q, within)),
              )
      ]
    ]

-- The stored activity of an asset of the range's chain over exactly the range.
abbrev pub is_complete_activity : DashboardRange → SavingsAsset → ActivityRow → Bool
is_complete_activity range asset row =
    row.history_complete && same_savings_asset row.asset_id asset && is_activity_of range row

abbrev pub has_activity : DashboardRange → List ActivityRow → Bool
has_activity range table =
    any (is_complete_activity range usdp) table && any (is_complete_activity range susdp) table

abbrev pub is_published : PublicationStatus → Bool
is_published published = true
is_published _ = false

abbrev IsRead : List ActivityRow → ActivityRow → Type 0
IsRead table row = (test : ActivityRow → Bool) → test row ≡ true → any test table ≡ true

table-IsRead : (table : List ActivityRow) → All (IsRead table) table
table-IsRead [] = tt
table-IsRead (x ∷ xs) = (
  (λ test h. rw h refl),
  All-imp (λ row there test h. ground (arith, there test h)) xs (table-IsRead xs),
)

module _ (range : DashboardRange) (table : List ActivityRow) where
  abbrev IsShown : ActivityRow → Type 0
  IsShown row =
      (any (is_complete_activity range row.asset_id) table ≡ true) × (row.chain_id ≡ range.chain_id)

  row-IsShown :
      (row : ActivityRow)
      → IsRead table row
      → is_read_activity row ≡ true
      → is_activity_of range row ≡ true
      → IsShown row
  row-IsShown row there read exact = (
    there (is_complete_activity range row.asset_id)
        (ground (arith, read, exact, same_savings_asset_refl row.asset_id)),
    ground (arith, exact),
  )

  latest_activity-IsShown : All IsShown (filter (is_activity_of range) (latest_activity table))
  unfolding sort_by
  latest_activity-IsShown =
      let latest : List ActivityRow = latest_activity table in
      let keeps : (P : ActivityRow → Type 0)
          → All P (filter is_read_activity table)
          → All P latest =
        λ P h. All-distinct_on activity_key P [] _ (All-sort_by activity_before P _ h) in
      let reads : All (IsRead table) latest =
        keeps _ (All-filter (IsRead table) is_read_activity table (table-IsRead table)) in
      let complete : All (λ row. is_read_activity row ≡ true) latest =
        keeps _ (All-filter_self is_read_activity table) in
      All-imp (λ row h. row-IsShown row h.0.0 h.0.1 h.1) _
        (All-and _ _ _
          (All-filter _ (is_activity_of range) latest (All-and _ _ latest reads complete))
          (All-filter_self (is_activity_of range) latest))

  both_shown :
      (a b : SavingsAsset) (chain : ℕ)
      → (2 * chain + asset_rank b == 2 * chain + asset_rank a) ≡ false
      → any (is_complete_activity range a) table ≡ true
      → any (is_complete_activity range b) table ≡ true
      → has_activity range table ≡ true
  both_shown usdp usdp chain apart x y = ground (arith, apart)
  both_shown usdp susdp chain apart x y = rw (x, y) refl
  both_shown susdp usdp chain apart x y = rw (x, y) refl
  both_shown susdp susdp chain apart x y = ground (arith, apart)

  has_activity_of_two :
      (rows : List ActivityRow)
      → All IsShown rows
      → Distinct (map activity_key rows)
      → leb 2 (length rows) ≡ true
      → has_activity range table ≡ true
  has_activity_of_two [] shown apart h = cc h
  has_activity_of_two (x ∷ []) shown apart h = cc h
  has_activity_of_two (x ∷ y ∷ rows) (p, (q, _)) (apart, _) h =
      both_shown x.asset_id y.asset_id range.chain_id (ground (arith, apart, p.1, q.1)) p.0 q.0

status_lem :
    (next : Option ℕ) (goal assets : ℕ) (kind : CoverageKind)
    → is_published (lifetime_publication_status next goal assets kind) ≡ true
    → leb 2 assets ≡ true
unfolding lifetime_publication_status
status_lem none goal assets lifetime h = ground (arith, h)
status_lem none goal assets window h = ground (arith, h)
status_lem (some next) goal assets lifetime h = ground (arith, h)
status_lem (some next) goal assets window h = ground (arith, h)

progress_lem :
    (from_block goal_block : ℕ) (next_block : Option ℕ)
    → from_block ≤ goal_block
    → (lifetime_progress_percent from_block goal_block next_block ≤ 10000)
      × (lifetime_progress_percent from_block goal_block next_block ≡ 10000
          ↔ (is_past next_block goal_block ≡ true))
unfolding lifetime_progress_percent
progress_lem from_block goal_block none h = (omega arith, ((λ p. ground (arith, p)), λ q. cc q))
progress_lem from_block goal_block (some next_block) h =
    let (most, full) = lifetime_progress_percent_full from_block goal_block next_block h in
    (most, ((λ p. ground (arith, full.0 p)), λ q. full.1 (ground (arith, q))))

abbrev pub IsSound : DashboardTables → LifetimeDashboardRow → Type 0
IsSound tables row =
    (row.progress_percent ≤ 10000)
    × (row.progress_percent ≡ 10000 ↔ (is_past row.next_block row.range.goal_block ≡ true))
    × ((not (is_published row.publication_status) || has_activity row.range tables.activity) ≡ true)

dashboard_row-IsSound :
    (tables : DashboardTables) (range : DashboardRange)
    → range.from_block ≤ range.goal_block
    → IsSound tables (dashboard_row tables range)
dashboard_row-IsSound tables range h =
    let row : LifetimeDashboardRow = dashboard_row tables range in
    let (most, full) = progress_lem range.from_block range.goal_block row.next_block h in
    (
      most,
      full,
      elim (Bool-cases (is_published row.publication_status)) [
        | inr e ↦ rw e refl
        | inl e ↦
            rw
              (
                e,
                has_activity_of_two range tables.activity row.assets
                    (latest_activity-IsShown range tables.activity)
                    (filter-Distinct activity_key (is_activity_of range) _
                      (distinct_on-Distinct activity_key [] _))
                    (status_lem row.next_block range.goal_block row.published_assets
                      range.coverage_kind e),
              )
              refl
      ],
    )

-- Every row of the dashboard has a progress of at most 100 percent, which is 100 percent exactly if
-- the checkpoint has passed the last block of the range; and a row that is called published has,
-- for each of the two assets, a stored activity of its chain over exactly that range that is marked
-- as complete.
pub read_lifetime_dashboard-IsSound :
    (tables : DashboardTables) → All (IsSound tables) (read_lifetime_dashboard tables)
unfolding read_lifetime_dashboard
read_lifetime_dashboard-IsSound tables =
    All-map (IsSound tables) (dashboard_row tables) lifetime_dashboard_ranges (
      All-imp (dashboard_row-IsSound tables) lifetime_dashboard_ranges
        (omega arith, (omega arith, (omega arith, (omega arith, (omega arith, tt))))))
