-- ===== src/Ingest/Store/Refines.antt =====
-- `raw_logs` as a map from the key of a log (its transaction and its index there) to the log.
use parallel_usdp_hyperevm_i.Prelude.{
  ℕ, ◌+◌, ◌≡◌, refl, true, false, List, [], ◌∷◌, ◌++◌, Option, none, some, Bool-cases, inl, inr,
  if◌then◌else◌, arith, ◌∙◌, sym, ap, subst, count, ◌≤◌, Bool,
}
use mathlib.Core.List.{append-nil, append_assoc}
use mathlib.Core.Path.{fun_ext}
use parallel_usdp_hyperevm_i.Prelude.Text.{Text, text_eq, text_eq_refl, eq_of_text_eq}
use parallel_usdp_hyperevm_i.Ingest.Store.{RawLog, RawLogRow, same_key, has_log, insert_raw_logs}

-- The abstract state.
abbrev pub LogMap : Type 0
LogMap = RawLog → Option RawLog

-- A log goes in only where its key has none.
abbrev pub put_new : RawLog → Option RawLog → RawLog → Option RawLog
put_new key none log = if same_key log key then some log else none
put_new key (some stored) log = some stored

abbrev pub put_all : LogMap → List RawLog → LogMap
put_all logs [] = logs
put_all logs (log ∷ rest) = put_all (λ key. put_new key (logs key) log) rest

-- The log of a key in the table.
abbrev pub lookup : List RawLogRow → LogMap
lookup [] key = none
lookup (row ∷ rows) key = if same_key row.raw_log key then some row.raw_log else lookup rows key

same_key_trans : (a b c : RawLog) → same_key a b ≡ true → same_key b c ≡ true → same_key a c ≡ true
same_key_trans a b c h k =
    let same : a.transaction_hash ≡ b.transaction_hash = eq_of_text_eq _ _ (ground arith) in
    let moved : text_eq a.transaction_hash c.transaction_hash
        ≡ text_eq b.transaction_hash c.transaction_hash =
      ap (λ (t : Text). text_eq t c.transaction_hash) same in
    ground (arith, moved)

-- A key that the table has is found there, also by a key that equals it.
has_log-lookup :
    (log key : RawLog) (rows : List RawLogRow)
    → has_log log rows ≡ true
    → same_key log key ≡ true
    → (found : RawLog) × (lookup rows key ≡ some found)
unfolding has_log
has_log-lookup log key [] h k = cc h
has_log-lookup log key (row ∷ rows) h k = elim (Bool-cases (same_key row.raw_log key)) [
  | inl e ↦ (row.raw_log, rw e refl)
  | inr e ↦ elim (Bool-cases (same_key row.raw_log log)) [
    | inl s ↦ cc (sym e ∙ same_key_trans row.raw_log log key s k)
    | inr s ↦ let (found, there) = has_log-lookup log key rows (rw s at h) k in (found, rw e there)
  ]
]

lookup-append :
    (key : RawLog) (rows : List RawLogRow) (row : RawLogRow)
    → lookup (rows ++ row ∷ []) key ≡ put_new key (lookup rows key) row.raw_log
lookup-append key [] row = refl
lookup-append key (other ∷ rows) row = elim (Bool-cases (same_key other.raw_log key)) [
  | inl e ↦ rw e refl
  | inr e ↦ rw e (lookup-append key rows row)
]

put_new_other :
    (key log : RawLog) (stored : Option RawLog)
    → same_key log key ≡ false
    → put_new key stored log ≡ stored
put_new_other key log none h = rw h refl
put_new_other key log (some found) h = refl

put_new_stored :
    (key log : RawLog) (rows : List RawLogRow)
    → has_log log rows ≡ true
    → put_new key (lookup rows key) log ≡ lookup rows key
put_new_stored key log rows h = elim (Bool-cases (same_key log key)) [
  | inl e ↦ let (found, there) = has_log-lookup log key rows h e in rw there refl
  | inr e ↦ put_new_other key log (lookup rows key) e
]

lookup-insert :
    (run_id : ℕ) (logs : List RawLog) (table : List RawLogRow) (next_id : ℕ)
    → lookup (insert_raw_logs run_id logs table next_id).raw_logs ≡ put_all (lookup table) logs
unfolding insert_raw_logs
lookup-insert run_id [] table next_id = refl
lookup-insert run_id (log ∷ logs) table next_id = elim (Bool-cases (has_log log table)) [
  | inl e ↦ rw e (
      lookup-insert run_id logs table (next_id + 1)
      ∙ ap (λ (m : LogMap). put_all m logs) (sym (fun_ext λ key. put_new_stored key log table e)))
  | inr e ↦
      let row : RawLogRow = record { id = next_id; run_id = run_id; raw_log = log } in
      rw e (
        lookup-insert run_id logs (table ++ row ∷ []) (next_id + 1)
        ∙ ap (λ (m : LogMap). put_all m logs) (fun_ext λ key. lookup-append key table row))
]

abbrev pub has_key : RawLog → RawLogRow → Bool
has_key key row = same_key row.raw_log key

-- The unique key of the table.
abbrev pub IsKeyed : List RawLogRow → Type 0
IsKeyed table = (key : RawLog) → count (has_key key) table ≤ 1

same_key_sym : (a b : RawLog) → same_key a b ≡ true → same_key b a ≡ true
same_key_sym a b h =
    let same : a.transaction_hash ≡ b.transaction_hash = eq_of_text_eq _ _ (ground arith) in
    let turned : text_eq b.transaction_hash a.transaction_hash ≡ true =
      subst (λ (t : Text). text_eq b.transaction_hash t ≡ true) (sym same)
        (text_eq_refl b.transaction_hash) in
    ground (arith, turned)

-- No row has the key of a log that the table has not.
count-new :
    (log key : RawLog) (table : List RawLogRow)
    → has_log log table ≡ false
    → same_key log key ≡ true
    → count (has_key key) table ≡ 0
unfolding has_log
count-new log key [] h k = refl
count-new log key (row ∷ table) h k = elim (Bool-cases (same_key row.raw_log key)) [
  | inl e ↦
      let same = same_key_trans row.raw_log key log e (same_key_sym log key k) in cc (rw same at h)
  | inr e ↦ let rest = count-new log key table (ground (arith, h)) k in rw e (omega (arith, rest))
]

count-append_one :
    (key : RawLog) (table : List RawLogRow) (row : RawLogRow)
    → count (has_key key) (table ++ row ∷ [])
      ≡ count (has_key key) table + (if has_key key row then 1 else 0)
count-append_one key [] row = ground arith
count-append_one key (other ∷ table) row = omega (arith, count-append_one key table row)

append-IsKeyed :
    (row : RawLogRow) (table : List RawLogRow)
    → has_log row.raw_log table ≡ false
    → IsKeyed table
    → IsKeyed (table ++ row ∷ [])
append-IsKeyed row table new keyed key = elim (Bool-cases (same_key row.raw_log key)) [
  | inl e ↦
      rw (count-append_one key table row, e, count-new row.raw_log key table new e) (omega arith)
  | inr e ↦ rw (count-append_one key table row, e) (omega (arith, keyed key))
]

insert_raw_logs-IsKeyed :
    (run_id : ℕ) (logs : List RawLog) (table : List RawLogRow) (next_id : ℕ)
    → IsKeyed table
    → IsKeyed (insert_raw_logs run_id logs table next_id).raw_logs
unfolding insert_raw_logs
insert_raw_logs-IsKeyed run_id [] table next_id keyed = keyed
insert_raw_logs-IsKeyed run_id (log ∷ logs) table next_id keyed =
    elim (Bool-cases (has_log log table)) [
      | inl e ↦ rw e (insert_raw_logs-IsKeyed run_id logs table (next_id + 1) keyed)
      | inr e ↦
          let row : RawLogRow = record { id = next_id; run_id = run_id; raw_log = log } in
          rw e (
            insert_raw_logs-IsKeyed run_id logs (table ++ row ∷ []) (next_id + 1)
              (append-IsKeyed row table e keyed))
    ]

-- The rows that are returned are those that were appended.
insert_raw_logs-append :
    (run_id : ℕ) (logs : List RawLog) (table : List RawLogRow) (next_id : ℕ)
    → (let after = insert_raw_logs run_id logs table next_id in
        after.raw_logs ≡ table ++ after.rows)
unfolding insert_raw_logs
insert_raw_logs-append run_id [] table next_id = sym (append-nil table)
insert_raw_logs-append run_id (log ∷ logs) table next_id = elim (Bool-cases (has_log log table)) [
  | inl e ↦ rw e (insert_raw_logs-append run_id logs table (next_id + 1))
  | inr e ↦
      let row : RawLogRow = record { id = next_id; run_id = run_id; raw_log = log } in
      rw e (
        insert_raw_logs-append run_id logs (table ++ row ∷ []) (next_id + 1)
        ∙ append_assoc table (row ∷ []) _)
]

-- For a table of raw logs in which no key (transaction and index there) stands twice, an insert of
-- logs leaves such a table. Seen as a map from the key to the log, it is the map before with the
-- logs put in one after the other, each only where its key has none; and the rows that the insert
-- returns are those that it has appended, in order, to the rows before.
pub lookup-insert_raw_logs :
    (run_id : ℕ) (logs : List RawLog) (table : List RawLogRow) (next_id : ℕ)
    → IsKeyed table
    → (let after = insert_raw_logs run_id logs table next_id in
        (lookup after.raw_logs ≡ put_all (lookup table) logs)
        × IsKeyed after.raw_logs
        × (after.raw_logs ≡ table ++ after.rows))
lookup-insert_raw_logs run_id logs table next_id keyed = (
  lookup-insert run_id logs table next_id,
  insert_raw_logs-IsKeyed run_id logs table next_id keyed,
  insert_raw_logs-append run_id logs table next_id,
)
