-- ===== src/Ingest/Store/Atomic.antt =====
-- What a committed chunk has changed.
use parallel_usdp_hyperevm_i.Prelude.{
  sym, ℕ, suc, ◌+◌, ◌≤◌, ◌≡◌, refl, true, ◌||◌, List, [], ◌∷◌, ◌++◌, Option, none, some, arith,
  length, any, Result, ok, err, inl, inr, Bool-cases, Result-cases, subst, ok-injective, any-append,
  length-append, ap,
}
use parallel_usdp_hyperevm_i.Prelude.Text.{Text}
use parallel_usdp_hyperevm_i.Planner.{BlockRange}
use parallel_usdp_hyperevm_i.Planner.Coverage.{contains, covered}
use parallel_usdp_hyperevm_i.Decoder.{Abi, Decoders}
use parallel_usdp_hyperevm_i.Decoder.Payload.{JsValue}
use parallel_usdp_hyperevm_i.Ingest.Types.{IngestionCounters, Log, StoredBlock}
use parallel_usdp_hyperevm_i.Ingest.Store.{
  RawLog, RawLogRow, Database, PersistError, insert_blocks, incoming_logs, incoming_log, cons_some,
  insert_raw_logs, has_log,
}
use parallel_usdp_hyperevm_i.Ingest.Store.Chunk.{
  PersistOutcome, same_range, add_coverage, move_checkpoint, with_anchor, store_logs, persist_chunk,
}

covered_of_same_range :
    (b : ℕ) (range : BlockRange) (table : List BlockRange)
    → any (λ row. same_range row range) table ≡ true
    → contains b range ≡ true
    → covered b table ≡ true
covered_of_same_range b range [] h k = cc
covered_of_same_range b range (row ∷ table) h k = ground (
  arith,
  λ (e : any (λ r. same_range r range) table ≡ true). covered_of_same_range b range table e k,
)

-- Recording a range adds exactly its blocks to the covered ones.
pub covered-add_coverage :
    (b : ℕ) (range : BlockRange) (table : List BlockRange)
    → covered b (add_coverage range table) ≡ (contains b range || covered b table)
unfolding add_coverage
covered-add_coverage b range table = elim (Bool-cases (any (λ row. same_range row range) table)) [
  | inl there ↦ rw there (ground (arith, covered_of_same_range b range table there))
  | inr new ↦ rw new (ground (arith, any-append (contains b) table (range ∷ [])))
]

length-insert_raw_logs :
    (run_id : ℕ) (raw_logs : List RawLog) (table : List RawLogRow) (next_id : ℕ)
    → (length (insert_raw_logs run_id raw_logs table next_id).raw_logs
        ≡ length table + length (insert_raw_logs run_id raw_logs table next_id).rows)
      × (length (insert_raw_logs run_id raw_logs table next_id).rows ≤ length raw_logs)
unfolding insert_raw_logs
length-insert_raw_logs run_id [] table next_id = (omega arith, omega arith)
length-insert_raw_logs run_id (raw_log ∷ rest) table next_id =
    let row : RawLogRow = record { id = next_id; run_id = run_id; raw_log = raw_log } in
    let skipped = length-insert_raw_logs run_id rest table (next_id + 1) in
    let added = length-insert_raw_logs run_id rest (table ++ row ∷ []) (next_id + 1) in
    let longer = length-append table (row ∷ []) in
    elim (Bool-cases (has_log raw_log table)) [
      | inl there ↦ rw (there, insert_raw_logs) (skipped.0, omega arith)
      | inr new ↦ rw (new, insert_raw_logs) (omega arith, omega arith)
    ]

length-cons_some :
    (row : Option RawLog) (rest : Result PersistError (List RawLog)) (n : ℕ)
    (incoming : List RawLog)
    → ((rows : List RawLog) → rest ≡ ok rows → length rows ≡ n)
    → cons_some row rest ≡ ok incoming
    → length incoming ≡ suc n
length-cons_some none rest n incoming ih h = cc
length-cons_some (some row) (err error) n incoming ih h = cc
length-cons_some (some row) (ok rows) n incoming ih h =
    subst (λ (l : List RawLog). length l ≡ suc n) (ok-injective h) (ap suc (ih rows refl))

length-incoming_logs :
    (decoders : Decoders) (chain_id : ℕ) (logs : List Log) (incoming : List RawLog)
    → incoming_logs decoders chain_id logs ≡ ok incoming
    → length incoming ≡ length logs
unfolding incoming_logs
length-incoming_logs decoders chain_id [] incoming h = sym (ap length (ok-injective h))
length-incoming_logs decoders chain_id (log ∷ rest) incoming h =
    length-cons_some (incoming_log decoders chain_id log) (incoming_logs decoders chain_id rest)
      (length rest) incoming (length-incoming_logs decoders chain_id rest) h

module _ (decode_event_log : Abi → Text → List Text → Option (Text × JsValue)) (decoders : Decoders)
    (known_topics : List Text) (chain_id : ℕ) (database : Database) (run_id : ℕ)
    (range : BlockRange) (logs : List Log) (blocks : List StoredBlock)
    (anchor : Option StoredBlock) where
  abbrev PersistOutcome' : Type 0
  PersistOutcome' = PersistOutcome decode_event_log decoders known_topics chain_id

  -- The parts of a chunk that was committed.
  pub record IsCommitted (counters after : IngestionCounters) (stored : Database) : Type 0 where
    pub kept_blocks : List StoredBlock
    pub no_drift : insert_blocks database.blocks (with_anchor blocks anchor) ≡ ok kept_blocks
    pub incoming : List RawLog
    pub complete : incoming_logs decoders chain_id logs ≡ ok incoming
    pub outcome :
        store_logs decode_event_log decoders known_topics chain_id database kept_blocks run_id range
          logs incoming anchor none counters
        ≡ (ok stored, after)

  store_logs_no_fault :
      (kept : List StoredBlock) (incoming : List RawLog) (fault : Option Text)
      (counters after : IngestionCounters) (stored : Database)
      → store_logs decode_event_log decoders known_topics chain_id database kept run_id range logs
          incoming anchor fault counters
        ≡ (ok stored, after)
      → store_logs decode_event_log decoders known_topics chain_id database kept run_id range logs
          incoming anchor none counters
        ≡ (ok stored, after)
  store_logs_no_fault kept incoming none counters after stored h = h
  store_logs_no_fault kept incoming (some message) counters after stored h = cc

  pub persist_chunk-IsCommitted :
      (fault : Option Text) (counters after : IngestionCounters) (stored : Database)
      → persist_chunk decode_event_log decoders known_topics chain_id database run_id range logs
          blocks anchor fault counters
        ≡ (ok stored, after)
      → IsCommitted counters after stored
  unfolding persist_chunk
  persist_chunk-IsCommitted fault counters after stored h =
      elim (Result-cases (insert_blocks database.blocks (with_anchor blocks anchor))) [
        | inr (error, drift) ↦ cc (rw (drift, persist_chunk) at h)
        | inl (kept, no_drift) ↦ elim (Result-cases (incoming_logs decoders chain_id logs)) [
          | inr (error, bad) ↦ cc (rw (no_drift, bad, persist_chunk) at h)
          | inl (incoming, complete) ↦ record {
            kept_blocks = kept;
            no_drift = no_drift;
            incoming = incoming;
            complete = complete;
            outcome =
                store_logs_no_fault kept incoming fault counters after stored
                  (rw (no_drift, complete, persist_chunk) at h);
          }
        ]
      ]

  -- A committed chunk moves the checkpoint behind its range, adds exactly the blocks of the range
  -- to the covered ones, counts each log as inserted or as a duplicate, and counts as inserted what
  -- the table of logs has grown by.
  pub persist_chunk_effect :
      (fault : Option Text) (counters after : IngestionCounters) (stored : Database)
      → persist_chunk decode_event_log decoders known_topics chain_id database run_id range logs
          blocks anchor fault counters
        ≡ (ok stored, after)
      → (stored.checkpoint ≡ some (move_checkpoint range anchor database.checkpoint))
        × ((b : ℕ) → covered b stored.coverage ≡ (contains b range || covered b database.coverage))
        × (after.raw_logs_inserted + after.duplicate_raw_logs
            ≡ counters.raw_logs_inserted + counters.duplicate_raw_logs + length logs)
        × (after.raw_logs_inserted + length database.raw_logs
            ≡ counters.raw_logs_inserted + length stored.raw_logs)
  persist_chunk_effect fault counters after stored h =
      let c = persist_chunk-IsCommitted fault counters after stored h in
      let grown = length-insert_raw_logs run_id c.incoming database.raw_logs database.next_log_id in
      let all_logs = length-incoming_logs decoders chain_id logs c.incoming c.complete in
      let same_db = ok-injective (ap (λ (o : PersistOutcome'). o.0) c.outcome) in
      let same_counters = ap (λ (o : PersistOutcome'). o.1) c.outcome in
      (
        sym (ap (λ (d : Database). d.checkpoint) same_db),
        λ b.
            subst
              (λ (d : Database).
                covered b d.coverage ≡ (contains b range || covered b database.coverage))
              same_db (covered-add_coverage b range database.coverage),
        subst
            (λ (n : IngestionCounters).
              n.raw_logs_inserted + n.duplicate_raw_logs
              ≡ counters.raw_logs_inserted + counters.duplicate_raw_logs + length logs)
            same_counters (omega arith),
        omega (
          arith,
          ap (λ (n : IngestionCounters). n.raw_logs_inserted) same_counters,
          ap (λ (d : Database). length d.raw_logs) same_db,
        ),
      )

  finish_counts :
      (fault : Option Text) (kept : List StoredBlock) (incoming : List RawLog)
      (counters : IngestionCounters)
      → (store_logs decode_event_log decoders known_topics chain_id database kept run_id range logs
          incoming anchor fault counters).1.blocks_covered
        ≡ counters.blocks_covered
  finish_counts fault kept incoming counters = refl

  -- Storing a chunk, with success or not, leaves the number of covered blocks to its caller.
  pub blocks_covered-persist_chunk :
      (fault : Option Text) (counters : IngestionCounters)
      → (persist_chunk decode_event_log decoders known_topics chain_id database run_id range logs
          blocks anchor fault counters).1.blocks_covered
        ≡ counters.blocks_covered
  unfolding persist_chunk
  blocks_covered-persist_chunk fault counters =
      elim (Result-cases (insert_blocks database.blocks (with_anchor blocks anchor))) [
        | inr (error, drift) ↦ rw (drift, persist_chunk) refl
        | inl (kept, no_drift) ↦ elim (Result-cases (incoming_logs decoders chain_id logs)) [
          | inr (error, bad) ↦ rw (no_drift, bad, persist_chunk) refl
          | inl (incoming, complete) ↦
              rw (no_drift, complete, persist_chunk) (finish_counts fault kept incoming counters)
        ]
      ]
