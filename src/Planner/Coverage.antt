-- ===== src/Planner/Coverage.antt =====
-- `mergeCoverage` against the set of blocks that ranges cover.
use parallel_usdp_hyperevm_i.Prelude.{
  ℕ, ◌+◌, ◌≤◌, ◌<◌, ◌≡◌, refl, Bool, false, ◌&&◌, ◌||◌, List, [], ◌∷◌, arith, ltb, leb, inl, inr,
  Bool-cases, any, All, sort_by, insert_by, ◌∙◌, any-sort_by, All-sort_by, All-insert_by, larger,
}
use parallel_usdp_hyperevm_i.Planner.{
  BlockRange, starts_before, merge_onto, merge_sorted, merge_coverage,
}

abbrev pub contains : ℕ → BlockRange → Bool
contains b range = leb range.from_block b && leb b range.to_block

-- The block `b` lies in one of the ranges.
abbrev pub covered : ℕ → List BlockRange → Bool
covered b ranges = any (contains b) ranges

abbrev pub IsOrdered : BlockRange → Type 0
IsOrdered range = range.from_block ≤ range.to_block

abbrev pub StartsAt : ℕ → BlockRange → Type 0
StartsAt bound range = bound ≤ range.from_block

abbrev pub IsSorted : List BlockRange → Type 0
IsSorted [] = Unit
IsSorted (range ∷ rest) = All (StartsAt range.from_block) rest × IsSorted rest

StartsAt-weaken :
    (a b : ℕ) (ranges : List BlockRange) → a ≤ b → All (StartsAt b) ranges → All (StartsAt a) ranges
StartsAt-weaken a b [] h k = tt
StartsAt-weaken a b (range ∷ rest) h k = (omega arith, StartsAt-weaken a b rest h k.1)

insert_by-IsSorted :
    (range : BlockRange) (ranges : List BlockRange)
    → IsSorted ranges
    → IsSorted (insert_by starts_before range ranges)
unfolding insert_by
insert_by-IsSorted range [] h = (tt, tt)
insert_by-IsSorted range (first ∷ rest) h = elim (Bool-cases (starts_before first range)) [
  | inl after ↦ rw after (
    All-insert_by starts_before (StartsAt first.from_block) range rest (ground arith) h.0,
    insert_by-IsSorted range rest h.1,
  )
  | inr here ↦
      rw here (
        (ground arith, StartsAt-weaken range.from_block first.from_block rest (ground arith) h.0),
        h,
      )
]

sort_by-IsSorted : (ranges : List BlockRange) → IsSorted (sort_by starts_before ranges)
unfolding sort_by
sort_by-IsSorted [] = tt
sort_by-IsSorted (range ∷ rest) =
    insert_by-IsSorted range (sort_by starts_before rest) (sort_by-IsSorted rest)

-- No range that starts behind `b` covers it.
pub not-covered_of_StartsAt :
    (b bound : ℕ) (ranges : List BlockRange)
    → All (StartsAt bound) ranges
    → b < bound
    → covered b ranges ≡ false
not-covered_of_StartsAt b bound [] h k = refl
not-covered_of_StartsAt b bound (range ∷ rest) h k =
    ground (arith, not-covered_of_StartsAt b bound rest h.1 k)

covered-merge_onto :
    (b : ℕ) (previous : BlockRange) (rest : List BlockRange)
    → IsOrdered previous
    → All (StartsAt previous.from_block) rest
    → IsSorted rest
    → All IsOrdered rest
    → covered b (merge_onto previous rest) ≡ (contains b previous || covered b rest)
unfolding merge_onto
covered-merge_onto b previous [] o s t a = refl
covered-merge_onto b previous (range ∷ rest) o s t a =
    elim (Bool-cases (ltb (previous.to_block + 1) range.from_block)) [
      | inl apart ↦
          rw (apart, merge_onto) (ground (arith, covered-merge_onto b range rest a.0 t.0 t.1 a.1))
      | inr near ↦
          rw (near, merge_onto)
            (ground (
              arith,
              covered-merge_onto b
                  (record previous { to_block = larger previous.to_block range.to_block }) rest
                  (ground arith) s.1 t.1 a.1,
            ))
    ]

merge_sorted-covered :
    (b : ℕ) (ranges : List BlockRange)
    → IsSorted ranges
    → All IsOrdered ranges
    → covered b (merge_sorted ranges) ≡ covered b ranges
unfolding merge_sorted
merge_sorted-covered b [] s o = refl
merge_sorted-covered b (range ∷ rest) s o = covered-merge_onto b range rest o.0 s.0 s.1 o.1

-- Merging ranges that are not reversed keeps the set of covered blocks.
pub covered-merge_coverage :
    (b : ℕ) (ranges : List BlockRange)
    → All IsOrdered ranges
    → covered b (merge_coverage ranges) ≡ covered b ranges
unfolding merge_coverage
covered-merge_coverage b ranges o =
    merge_sorted-covered b (sort_by starts_before ranges) (sort_by-IsSorted ranges)
      (All-sort_by starts_before IsOrdered ranges o)
    ∙ any-sort_by starts_before (contains b) ranges

-- Neighbours in a merged list are ordered and keep at least one uncovered block between them.
abbrev pub IsMerged : List BlockRange → Type 0
IsMerged [] = Unit
IsMerged (range ∷ rest) = IsOrdered range × All (StartsAt (range.to_block + 2)) rest × IsMerged rest

StartsAt-merge_onto :
    (bound : ℕ) (previous : BlockRange) (rest : List BlockRange)
    → bound ≤ previous.from_block
    → All (StartsAt bound) rest
    → All (StartsAt bound) (merge_onto previous rest)
unfolding merge_onto
StartsAt-merge_onto bound previous [] h k = (h, tt)
StartsAt-merge_onto bound previous (range ∷ rest) h k =
    elim (Bool-cases (ltb (previous.to_block + 1) range.from_block)) [
      | inl apart ↦ rw (apart, merge_onto) (h, StartsAt-merge_onto bound range rest k.0 k.1)
      | inr near ↦
          rw (near, merge_onto)
            (StartsAt-merge_onto bound
              (record previous { to_block = larger previous.to_block range.to_block }) rest h k.1)
    ]

merge_onto-IsMerged :
    (previous : BlockRange) (rest : List BlockRange)
    → IsOrdered previous
    → All (StartsAt previous.from_block) rest
    → IsSorted rest
    → All IsOrdered rest
    → IsMerged (merge_onto previous rest)
unfolding merge_onto
merge_onto-IsMerged previous [] o s t a = (o, tt, tt)
merge_onto-IsMerged previous (range ∷ rest) o s t a =
    elim (Bool-cases (ltb (previous.to_block + 1) range.from_block)) [
      | inl apart ↦
          rw (apart, merge_onto)
            (
              o,
              StartsAt-merge_onto (previous.to_block + 2) range rest (ground arith) (
                  StartsAt-weaken (previous.to_block + 2) range.from_block rest (ground arith) t.0),
              merge_onto-IsMerged range rest a.0 t.0 t.1 a.1,
            )
      | inr near ↦
          rw (near, merge_onto)
            (merge_onto-IsMerged
              (record previous { to_block = larger previous.to_block range.to_block }) rest
              (ground arith) s.1 t.1 a.1)
    ]

merge_sorted-IsMerged :
    (ranges : List BlockRange)
    → IsSorted ranges
    → All IsOrdered ranges
    → IsMerged (merge_sorted ranges)
unfolding merge_sorted
merge_sorted-IsMerged [] s o = tt
merge_sorted-IsMerged (range ∷ rest) s o = merge_onto-IsMerged range rest o.0 s.0 s.1 o.1

-- Ranges merged from ranges that are not reversed are in order, and no two of them touch or
-- overlap.
pub merge_coverage-IsMerged :
    (ranges : List BlockRange) → All IsOrdered ranges → IsMerged (merge_coverage ranges)
unfolding merge_coverage
merge_coverage-IsMerged ranges o =
    merge_sorted-IsMerged (sort_by starts_before ranges) (sort_by-IsSorted ranges)
      (All-sort_by starts_before IsOrdered ranges o)
