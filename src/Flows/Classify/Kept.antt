-- ===== src/Flows/Classify/Kept.antt =====
-- Grouping by transaction and ordering by log index neither lose nor repeat an event.
use parallel_usdp_hyperevm_i.Prelude.{
  ℕ, String, ◌+◌, ◌≡◌, refl, Bool, List, [], ◌∷◌, ◌++◌, Option, none, some, Result, ok, err,
  >>=-eq-ok, ok-injective, sum_of, sum_of-sort_by, arith, Bool-cases, inl, inr, sym, ap, length,
  map, sort_by,
}
use parallel_usdp_hyperevm_i.Prelude.Text.{Text, text_eq}
use parallel_usdp_hyperevm_i.Flows.Classify.{
  ProtocolEventInput, ClassifyError, Classified, ClassifiedEvent, Deployments, Transaction,
  classify_event, with_lower_hash, push_event, group_events, by_log_index, role_and_name,
  cons_classified, classify_all, classify_transactions, classify_protocol_transactions,
}

-- A weight that does not look at the transaction's hash.
abbrev pub IgnoresHash : (ProtocolEventInput → Classified → ℕ) → Type 0
IgnoresHash weight =
    (event : ProtocolEventInput) (said : Classified)
    → weight (with_lower_hash event) said ≡ weight event said

abbrev pub stored_weight : (ProtocolEventInput → Classified → ℕ) → ClassifiedEvent → ℕ
stored_weight weight classified_event = weight classified_event.event classified_event.said

module _ (is_address : Text → Bool) (get_address : Text → Text) (deployments : Deployments)
    (weight : ProtocolEventInput → Classified → ℕ) where
  abbrev pub weigh : ProtocolEventInput → Result ClassifyError (Option Classified) → ℕ
  weigh event (ok none) = 0
  weigh event (ok (some said)) = weight event said
  weigh event (err error) = 0

  -- The weight of an event by its own classification, 0 if it has none.
  abbrev pub own_weight : ProtocolEventInput → ℕ
  own_weight event = weigh event (classify_event is_address get_address deployments event)

  weigh-with_lower_hash :
      (event : ProtocolEventInput) (r : Result ClassifyError (Option Classified))
      → IgnoresHash weight
      → weigh (with_lower_hash event) r ≡ weigh event r
  weigh-with_lower_hash event (ok none) f = refl
  weigh-with_lower_hash event (ok (some said)) f = f event said
  weigh-with_lower_hash event (err error) f = refl

  own-with_lower_hash :
      (event : ProtocolEventInput)
      → IgnoresHash weight
      → own_weight (with_lower_hash event) ≡ own_weight event
  unfolding classify_event
  own-with_lower_hash event f =
      weigh-with_lower_hash event (classify_event is_address get_address deployments event) f

  abbrev group_weight : Transaction → ℕ
  group_weight transaction = sum_of own_weight transaction.events

  sum-append :
      (xs ys : List ProtocolEventInput)
      → sum_of own_weight (xs ++ ys) ≡ sum_of own_weight xs + sum_of own_weight ys
  sum-append [] ys = omega arith
  sum-append (x ∷ xs) ys = omega (arith, sum-append xs ys)

  sum-push_event :
      (event : ProtocolEventInput) (transactions : List Transaction)
      → sum_of group_weight (push_event event transactions)
        ≡ own_weight event + sum_of group_weight transactions
  unfolding push_event
  sum-push_event event [] = omega arith
  sum-push_event event (transaction ∷ rest) =
      elim (Bool-cases (text_eq transaction.hash event.transaction_hash)) [
        | inl e ↦ rw e (omega (arith, sum-append transaction.events (event ∷ [])))
        | inr e ↦ rw e (omega (arith, sum-push_event event rest))
      ]

  sum-group_events :
      (events : List ProtocolEventInput) (transactions : List Transaction)
      → IgnoresHash weight
      → sum_of group_weight (group_events events transactions)
        ≡ sum_of own_weight events + sum_of group_weight transactions
  unfolding group_events
  sum-group_events [] transactions f = omega arith
  sum-group_events (event ∷ events) transactions f = omega (
    arith,
    sum-group_events events (push_event (with_lower_hash event) transactions) f,
    sum-push_event (with_lower_hash event) transactions,
    own-with_lower_hash event f,
  )

  stored-cons :
      (event : ProtocolEventInput) (count : ℕ) (names : List (String × String))
      (said : Option Classified) (rest : List ClassifiedEvent)
      → sum_of (stored_weight weight) (cons_classified event count names said rest)
        ≡ weigh event (ok said) + sum_of (stored_weight weight) rest
  stored-cons event count names none rest = omega arith
  stored-cons event count names (some said) rest = refl

  sum-classify_all :
      (count : ℕ) (names : List (String × String)) (events : List ProtocolEventInput)
      (out : List ClassifiedEvent)
      → classify_all is_address get_address deployments count names events ≡ ok out
      → sum_of (stored_weight weight) out ≡ sum_of own_weight events
  unfolding classify_all
  sum-classify_all count names [] out h =
      ap (λ (o : List ClassifiedEvent). sum_of (stored_weight weight) o) (sym (ok-injective h))
  sum-classify_all count names (event ∷ events) out h =
      let (said, e, next) =
        >>=-eq-ok (classify_event is_address get_address deployments event) _ h in
      let (rest, later, last) =
        >>=-eq-ok (classify_all is_address get_address deployments count names events) _ next in
      let total =
        ap (λ (o : List ClassifiedEvent). sum_of (stored_weight weight) o) (ok-injective last) in
      let own : own_weight event ≡ weigh event (ok said) = ap (weigh event) e in
      omega (
        arith,
        total,
        stored-cons event count names said rest,
        own,
        sum-classify_all count names events rest later,
      )

  stored-append :
      (xs ys : List ClassifiedEvent)
      → sum_of (stored_weight weight) (xs ++ ys)
        ≡ sum_of (stored_weight weight) xs + sum_of (stored_weight weight) ys
  stored-append [] ys = omega arith
  stored-append (x ∷ xs) ys = omega (arith, stored-append xs ys)

  sum-classify_transactions :
      (transactions : List Transaction) (out : List ClassifiedEvent)
      → classify_transactions is_address get_address deployments transactions ≡ ok out
      → sum_of (stored_weight weight) out ≡ sum_of group_weight transactions
  unfolding classify_transactions
  sum-classify_transactions [] out h =
      ap (λ (o : List ClassifiedEvent). sum_of (stored_weight weight) o) (sym (ok-injective h))
  sum-classify_transactions (transaction ∷ transactions) out h =
      let events = sort_by by_log_index transaction.events in
      let (front, e, next) =
        >>=-eq-ok
          (classify_all is_address get_address deployments (length events)
            (map role_and_name events) events)
          _ h in
      let (rest, later, last) =
        >>=-eq-ok (classify_transactions is_address get_address deployments transactions) _ next in
      let total =
        ap (λ (o : List ClassifiedEvent). sum_of (stored_weight weight) o) (ok-injective last) in
      omega (
        arith,
        total,
        stored-append front rest,
        sum-classify_all (length events) (map role_and_name events) events front e,
        sum_of-sort_by by_log_index own_weight transaction.events,
        sum-classify_transactions transactions rest later,
      )

  -- Where the classification throws no error, the total of any weight of the classified events that
  -- does not look at the transaction's hash is the total over the given events, each with its own
  -- classification: grouping by transaction and ordering by log index neither lose nor repeat an
  -- event.
  pub classify_protocol_transactions-kept :
      (events : List ProtocolEventInput) (out : List ClassifiedEvent)
      → IgnoresHash weight
      → classify_protocol_transactions is_address get_address deployments events ≡ ok out
      → sum_of (stored_weight weight) out ≡ sum_of own_weight events
  unfolding classify_protocol_transactions
  classify_protocol_transactions-kept events out f h = omega (
    arith,
    sum-classify_transactions (group_events events []) out h,
    sum-group_events events [] f,
  )
