-- ===== src/Worker/Inbox/Applied.antt =====
-- What `process_pending_docusign_event` of app/worker.py does to contracts.
use moneybee_backend.Base.{
  ℕ, ◌≡◌, ◌⊎◌, refl, String, Bool, true, false, Option, none, some, List, [], ◌∷◌, All, put, find,
  equal, mem?, leb, Bool-cases, inl, inr, subst, sym, ap,
}
use moneybee_backend.Base.Oldest.{Picks, oldest-Picks, Listed}
use moneybee_backend.Base.Action.{Result, ok, err, ◌>>=◌, >>=-of_ok, >>=-of_err}
use moneybee_backend.Lifecycle.Status.{
  ContractStatus, ContractStatus-discrete, contract_transitions, FundingStatus,
}
use moneybee_backend.Lifecycle.Db.{Contract, Funding, Db, Problem}
use moneybee_backend.Lifecycle.Funding.{transition_funding, same_funding_status}
use moneybee_backend.Lifecycle.Funding.Frame.{transition_funding-SameTables}
use moneybee_backend.Lifecycle.Conditions.{transition_contract}
use moneybee_backend.Worker.Signing.{
  Pending, contract_row, contract_rows, system_principal, or_rolled_back,
}
use moneybee_backend.Worker.Signing.Sends.{contract_at, contract_rows-Stored}
use moneybee_backend.Worker.Inbox.{
  InboxMessage, InboxDb, InboxHost, is_due_message, next_message, counted, end_with, in_inbox,
  at_inbox, has_envelope, contract_of_envelope, funding_of_contract, save_signed_at,
  processed_message, advance_found, is_signed, after_contract_move, contract_tried, apply_status,
  read_message, process_found, process_pending_docusign_event, docusign_envelope_id,
  docusign_envelope_status, contract_status_of,
}

-- the message with the id is done with, and the contracts are these
abbrev pub Leaves : List Contract → ℕ → Result Problem (Option ℕ) × InboxDb → Type 0
Leaves contracts k (err x, s') = Unit {0}
Leaves contracts k (ok none, s') = ⊥
Leaves contracts k (ok (some j), s') = (j ≡ k) × (s'.db.contracts ≡ contracts)

advance_found-Leaves :
    (m : InboxMessage) (o : Option Funding) (s : InboxDb)
    → Leaves s.db.contracts m.id (advance_found m o s)
unfolding advance_found
advance_found-Leaves m none s = (refl, refl)
advance_found-Leaves m (some f) s =
    elim (Bool-cases (same_funding_status f.status FundingStatus.conditions_satisfied)) [
      | inr other ↦ rw other (refl, refl)
      | inl ready ↦ rw ready (
          by_result (transition_funding f FundingStatus.contract_signed system_principal none s.db)
            refl
            (transition_funding-SameTables f FundingStatus.contract_signed system_principal none
              s.db).0)
    ]
  where
    by_result :
        (r : Result Problem Funding × Db)
        → transition_funding f FundingStatus.contract_signed system_principal none s.db ≡ r
        → r.1.contracts ≡ s.db.contracts
        → Leaves s.db.contracts m.id (
            (in_inbox (transition_funding f FundingStatus.contract_signed system_principal none)
                >>= λ _. end_with (processed_message m))
              s)
    by_result (ok g, db') e same =
        subst (Leaves s.db.contracts m.id)
          (sym (
            >>=-of_ok
              (in_inbox (transition_funding f FundingStatus.contract_signed system_principal none))
              (λ _. end_with (processed_message m)) s (ap (at_inbox s) e)))
          (refl, same)
    by_result (err x, db') e same =
        subst (Leaves s.db.contracts m.id)
          (sym (
            >>=-of_err
              (in_inbox (transition_funding f FundingStatus.contract_signed system_principal none))
              (λ _. end_with (processed_message m)) s (ap (at_inbox s) e)))
          tt

after_contract_move-Leaves :
    (h : InboxHost) (m : InboxMessage) (to : ContractStatus) (p : Pending) (s : InboxDb)
    → Leaves s.db.contracts m.id (after_contract_move h m to p s)
unfolding after_contract_move
after_contract_move-Leaves h m to p s = elim (Bool-cases (is_signed to)) [
  | inl signed ↦ rw signed (
      advance_found-Leaves m (funding_of_contract p.contract s.db)
        (save_signed_at h.host.now p.delivery s))
  | inr other ↦ rw other (refl, refl)
]

-- how a move of a contract ends
abbrev Tried : Contract → ContractStatus → Db → Result Problem Contract × Db → Type 0
Tried c to db (err x, db') = db'.contracts ≡ db.contracts
Tried c to db (ok _, db') =
    (db'.contracts ≡ db.contracts)
    ⊎ ((mem? ContractStatus-discrete to (contract_transitions c.status) ≡ true)
        × (db'.contracts ≡ put (λ (x : Contract). x.id) (contract_at c to) db.contracts))

transition_contract-Tried :
    (c : Contract) (to : ContractStatus) (db : Db)
    → Tried c to db (transition_contract c to system_principal none db)
unfolding transition_contract
transition_contract-Tried c to db = elim (Bool-cases (equal ContractStatus-discrete c.status to)) [
  | inl same ↦ rw same (inl refl)
  | inr apart ↦
      elim (Bool-cases (mem? ContractStatus-discrete to (contract_transitions c.status))) [
        | inl may ↦ rw (apart, may) (inr (may, refl))
        | inr barred ↦ rw (apart, barred) refl
      ]
]

find_facts :
    {A : Type 0} (p : A → Bool) (P : A → Type 0) (a : A) (xs : List A)
    → find p xs ≡ some a
    → All P xs
    → (p a ≡ true) × P a
find_facts p P a [] h all = cc
find_facts p P a (x ∷ xs) h all = elim (Bool-cases (p x)) [
  | inl hit ↦
      let x_is_a : x ≡ a = cc (rw hit at h) in
      (subst (λ y. p y ≡ true) x_is_a hit, subst P x_is_a all.0)
  | inr miss ↦ find_facts p P a xs (rw miss at h) all.1
]

module _ (h : InboxHost) (m : InboxMessage) (s : InboxDb) where
  -- a contract with the message's envelope went along the table to the message's status
  abbrev pub Moved : List Contract → Type 0
  Moved contracts =
      (envelope_id : String) × (to : ContractStatus) × (p : Pending) × (docusign_envelope_id
          m.payload
        ≡ some envelope_id)
      × (contract_status_of (docusign_envelope_status h m.payload) ≡ some to)
      × (has_envelope envelope_id p.delivery.external_envelope_id ≡ true)
      × (contract_row p.contract.id s.db ≡ some p.contract)
      × (mem? ContractStatus-discrete to (contract_transitions p.contract.status) ≡ true)
      × (contracts ≡ put (λ (x : Contract). x.id) (contract_at p.contract to) s.db.contracts)

  abbrev pub Settles : Result Problem (Option ℕ) × InboxDb → Type 0
  Settles (err x, s') = Unit {0}
  Settles (ok none, s') = ⊥
  Settles (ok (some j), s') =
      (j ≡ m.id) × ((s'.db.contracts ≡ s.db.contracts) ⊎ Moved s'.db.contracts)

  settle_same :
      (contracts : List Contract) (out : Result Problem (Option ℕ) × InboxDb)
      → Leaves contracts m.id out
      → ((contracts ≡ s.db.contracts) ⊎ Moved contracts)
      → Settles out
  settle_same contracts (err x, s') left how = tt
  settle_same contracts (ok none, s') left how = left
  settle_same contracts (ok (some j), s') (same_id, same) how =
      (same_id, subst (λ (cs : List Contract). (cs ≡ s.db.contracts) ⊎ Moved cs) (sym same) how)

  module _ (envelope_id : String) (to : ContractStatus)
      (named : docusign_envelope_id m.payload ≡ some envelope_id)
      (asked : contract_status_of (docusign_envelope_status h m.payload) ≡ some to) where
    contract_tried-Settles :
        (p : Pending) (r : Result Problem Contract × Db)
        → has_envelope envelope_id p.delivery.external_envelope_id ≡ true
        → contract_row p.contract.id s.db ≡ some p.contract
        → Tried p.contract to s.db r
        → Settles (contract_tried h (counted h.host.now m) to p (at_inbox s r))
    contract_tried-Settles p (err x, db') holds stored same = (refl, inl same)
    contract_tried-Settles p (ok c, db') holds stored (inl same) =
        settle_same db'.contracts _
          (after_contract_move-Leaves h (counted h.host.now m) to p (record s { db = db' }))
          (inl same)
    contract_tried-Settles p (ok c, db') holds stored (inr (may, put_there)) =
        settle_same db'.contracts _
          (after_contract_move-Leaves h (counted h.host.now m) to p (record s { db = db' }))
          (inr (envelope_id, to, p, named, asked, holds, stored, may, put_there))

    apply_status-Settles :
        (o : Option Pending)
        → contract_of_envelope envelope_id s ≡ o
        → Settles (apply_status h (counted h.host.now m) envelope_id to o s)
    unfolding apply_status
    apply_status-Settles none e = elim (Bool-cases (leb 8 (counted h.host.now m).attempts)) [
      | inl last ↦ rw last (refl, inl refl)
      | inr more ↦ rw more (refl, inl refl)
    ]
    apply_status-Settles (some p) e =
        let (holds, stored) =
          find_facts (λ (q : Pending). has_envelope envelope_id q.delivery.external_envelope_id)
            (λ (q : Pending). contract_row q.contract.id s.db ≡ some q.contract) p
            (contract_rows s.db s.deliveries) e (contract_rows-Stored s.db s.deliveries) in
        contract_tried-Settles p (transition_contract p.contract to system_principal none s.db)
          holds stored (transition_contract-Tried p.contract to s.db)

  read_message-Settles :
      (o : Option String) (o' : Option ContractStatus)
      → docusign_envelope_id m.payload ≡ o
      → contract_status_of (docusign_envelope_status h m.payload) ≡ o'
      → Settles (read_message h (counted h.host.now m) o o' s)
  unfolding read_message
  read_message-Settles none o' named asked = (refl, inl refl)
  read_message-Settles (some envelope_id) none named asked = (refl, inl refl)
  read_message-Settles (some envelope_id) (some to) named asked =
      apply_status-Settles envelope_id to named asked (contract_of_envelope envelope_id s) refl

-- how a run ends
abbrev pub Applies : InboxHost → InboxDb → Result Problem (Option ℕ) × InboxDb → Type 0
Applies h s (err x, s') = s' ≡ s
Applies h s (ok none, s') =
    (s' ≡ s) × All (λ (m : InboxMessage). is_due_message h.host.now m ≡ false) s.messages
Applies h s (ok (some j), s') =
    (m : InboxMessage) × (m.id ≡ j)
    × Listed m s.messages
    × (is_due_message h.host.now m ≡ true)
    × ((s'.db.contracts ≡ s.db.contracts) ⊎ Moved h m s s'.db.contracts)

rolled_back-Applies :
    (h : InboxHost) (m : InboxMessage) (s : InboxDb) (out : Result Problem (Option ℕ) × InboxDb)
    → Listed m s.messages
    → is_due_message h.host.now m ≡ true
    → Settles h m s out
    → Applies h s (or_rolled_back s out)
rolled_back-Applies h m s (err x, s') listed due settles = refl
rolled_back-Applies h m s (ok none, s') listed due settles = elim settles [ ]
rolled_back-Applies h m s (ok (some j), s') listed due (same_id, how) =
    (m, sym same_id, listed, due, how)

process_found-Applies :
    (h : InboxHost) (s : InboxDb) (o : Option InboxMessage)
    → Picks (λ (m : InboxMessage). m.created_at) (is_due_message h.host.now) s.messages o
    → Applies h s (or_rolled_back s (process_found h o s))
process_found-Applies h s none picks = (refl, picks)
process_found-Applies h s (some m) (due, listed, _) =
    rolled_back-Applies h m s (process_found h (some m) s) listed due (
      read_message-Settles h m s (docusign_envelope_id m.payload)
        (contract_status_of (docusign_envelope_status h m.payload)) refl refl)

-- If a run raises, nothing changes. If it returns no id, no message is due and nothing changes. If
-- it returns an id, it is that of a message that was due, and the contracts are as before, or one
-- stored contract, whose envelope the payload names, went along the table of contracts to the status
-- that the payload's status stands for, and no other contract changed.
pub process_pending_docusign_event-Applies :
    (h : InboxHost) (s : InboxDb) → Applies h s (process_pending_docusign_event h s)
unfolding process_pending_docusign_event next_message
process_pending_docusign_event-Applies h s =
    process_found-Applies h s _
      (oldest-Picks (λ (m : InboxMessage). m.created_at) (is_due_message h.host.now) s.messages)
