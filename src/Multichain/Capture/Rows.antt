-- ===== src/Multichain/Capture/Rows.antt =====
-- The rows that the inserts of a capture leave in their tables.
use parallel_usdp_hyperevm_i.Prelude.{
  ℕ, ◌≡◌, refl, Bool, true, ◌&&◌, ◌==◌, List, [], ◌∷◌, ◌++◌, Option, none, some, any, any-append,
  filter, first, first-filter, first-append_none, ok, ok-injective, Bool-cases, inl, inr, arith,
  ◌∙◌, sym, subst,
}
use parallel_usdp_hyperevm_i.Prelude.Text.{
  Text, text_eq, eq_of_text_eq, to_lower_case, to_lower_case_idem,
}
use mathlib.Core.List.{append-nil, append_assoc}
use text.Mathlib.TextPositions.{eq_refl}
use parallel_usdp_hyperevm_i.Supply.Component.{BlockRow, same_block, insert_block_if}
use parallel_usdp_hyperevm_i.Multichain.Tables.{
  same_savings_asset_refl, insert_asset, same_asset_row, insert_asset_if, AssetRow,
  SavingsSnapshotRow, insert_savings, insert_savings_if, same_savings_row,
}

-- The row of the block is one whose hash is the given one, in any case.
abbrev pub is_block : ℕ → ℕ → BlockRow → Bool
is_block chain number row = row.chain_id == chain && row.number == number

abbrev pub AgreesAt : ℕ → ℕ → Text → List BlockRow → Type 0
AgreesAt chain number hash rows =
    (stored : BlockRow) × (first (filter (is_block chain number) rows) ≡ some stored)
    × (to_lower_case stored.hash ≡ to_lower_case hash)

pub insert_block_if-AgreesAt :
    (block : BlockRow) (before after : List BlockRow) (found : Option BlockRow)
    → first (filter (same_block block) before) ≡ found
    → insert_block_if block before found ≡ ok after
    → AgreesAt block.chain_id block.number block.hash after
insert_block_if-AgreesAt block before after (some existing) f h =
    elim (Bool-cases (text_eq (to_lower_case existing.hash) (to_lower_case block.hash))) [
      | inr e ↦ cc (rw e at h)
      | inl e ↦
          let same : before ≡ after = ok-injective (rw e at h) in
          (
            existing,
            subst (λ (rows : List BlockRow). first (filter (same_block block) rows) ≡ some existing)
                same f,
            eq_of_text_eq _ _ e,
          )
    ]
insert_block_if-AgreesAt block before after none f h =
    let new : BlockRow = record block {
      hash = to_lower_case block.hash;
      parent_hash = to_lower_case block.parent_hash;
    } in
    let same : before ++ new ∷ [] ≡ after = ok-injective h in
    let own : same_block block new ≡ true = ground arith in
    (
      new,
      subst (λ (rows : List BlockRow). first (filter (same_block block) rows) ≡ some new) same
          (first-append_none (same_block block) before (new ∷ []) f ∙ rw own refl),
      to_lower_case_idem block.hash,
    )

-- The rows that were there, with others after them.
abbrev pub Extends : {A : Type 0} → List A → List A → Type 0
Extends {A} before after = (added : List A) × (after ≡ before ++ added)

pub insert_block_if-Extends :
    (block : BlockRow) (before after : List BlockRow) (found : Option BlockRow)
    → insert_block_if block before found ≡ ok after
    → Extends before after
insert_block_if-Extends block before after none h = (_, sym (ok-injective h))
insert_block_if-Extends block before after (some existing) h =
    elim (Bool-cases (text_eq (to_lower_case existing.hash) (to_lower_case block.hash))) [
      | inr e ↦ cc (rw e at h)
      | inl e ↦ ([], sym (ok-injective (rw e at h)) ∙ sym (append-nil before))
    ]

pub insert_asset_if-Extends :
    (row : AssetRow) (rows : List AssetRow) (found : Option AssetRow)
    → Extends rows (insert_asset_if row rows found).1
insert_asset_if-Extends row rows none = (row ∷ [], refl)
insert_asset_if-Extends row rows (some existing) = ([], sym (append-nil rows))

pub insert_savings_if-Extends :
    (row : SavingsSnapshotRow) (rows : List SavingsSnapshotRow) (found : Option SavingsSnapshotRow)
    → Extends rows (insert_savings_if row rows found).1
insert_savings_if-Extends row rows none = (row ∷ [], refl)
insert_savings_if-Extends row rows (some existing) = ([], sym (append-nil rows))

pub Extends-trans :
    {A : Type 0} (first_rows second third : List A)
    → Extends first_rows second
    → Extends second third
    → Extends first_rows third
Extends-trans a b c (x, p) (y, q) = (x ++ y, q ∙ rw p refl ∙ append_assoc a x y)

pub any-Extends :
    {A : Type 0} (test : A → Bool) (before after : List A)
    → Extends before after
    → any test before ≡ true
    → any test after ≡ true
any-Extends test before after (added, p) h = rw (p, any-append test before added, h) refl

same_asset_row_refl : (row : AssetRow) → same_asset_row row row ≡ true
same_asset_row_refl row =
    rw
      (
        same_savings_asset_refl row.asset_id,
        eq_refl row.manifest_version,
        eq_refl row.calculation_version,
      )
      (ground arith)

abbrev pub IsAssetIn : AssetRow → ℕ × List AssetRow → Type 0
IsAssetIn row (id, rows) = any (λ other. same_asset_row row other && other.id == id) rows ≡ true

pub insert_asset-stored :
    (row : AssetRow) (rows : List AssetRow) → IsAssetIn row (insert_asset row rows)
insert_asset-stored row rows = elim (first-filter (same_asset_row row) rows) [
  | inl (nothing, _) ↦
      subst (λ (f : Option AssetRow). IsAssetIn row (insert_asset_if row rows f)) (sym nothing)
        (any-append (λ other. same_asset_row row other && other.id == row.id) rows (row ∷ [])
          ∙ ground (arith, same_asset_row_refl row))
  | inr (existing, found, same, there) ↦
      subst (λ (f : Option AssetRow). IsAssetIn row (insert_asset_if row rows f)) (sym found)
        (there (λ other. other.id == existing.id) (ground arith))
]

same_savings_row_refl : (row : SavingsSnapshotRow) → same_savings_row row row ≡ true
same_savings_row_refl row =
    rw (eq_refl row.manifest_version, eq_refl row.calculation_version) (ground arith)

abbrev pub is_snapshot_of : SavingsSnapshotRow → ℕ → SavingsSnapshotRow → Bool
is_snapshot_of row id other = same_savings_row row other && other.id == id

abbrev pub IsSnapshotIn : SavingsSnapshotRow → ℕ × List SavingsSnapshotRow → Type 0
IsSnapshotIn row (id, rows) = any (is_snapshot_of row id) rows ≡ true

pub insert_savings-stored :
    (row : SavingsSnapshotRow) (rows : List SavingsSnapshotRow)
    → IsSnapshotIn row (insert_savings row rows)
insert_savings-stored row rows = elim (first-filter (same_savings_row row) rows) [
  | inl (nothing, _) ↦
      subst (λ (f : Option SavingsSnapshotRow). IsSnapshotIn row (insert_savings_if row rows f))
        (sym nothing)
        (any-append (is_snapshot_of row row.id) rows (row ∷ [])
          ∙ ground (arith, same_savings_row_refl row))
  | inr (existing, found, same, there) ↦
      subst (λ (f : Option SavingsSnapshotRow). IsSnapshotIn row (insert_savings_if row rows f))
        (sym found) (there (λ other. other.id == existing.id) (ground arith))
]
