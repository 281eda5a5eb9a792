-- ===== src/Lifecycle/Conditions/Contracts.antt =====
-- Contracts that the advance of a funding creates.
use moneybee_backend.Base.{
  ◌≡◌, refl, arith, ℕ, ◌+◌, ◌-◌, ◌≤◌, Bool, true, false, Option, none, some, List, [], ◌∷◌, ◌++◌,
  find, ◌==◌, Option-cases, Bool-cases, inl, inr, if◌then◌else◌, ap, row,
}
use moneybee_backend.Base.Action.{gets, pure, ◌>>=◌}
use moneybee_backend.Principal.{Principal}
use moneybee_backend.Lifecycle.Status.{FundingStatus, ContractStatus}
use moneybee_backend.Lifecycle.Db.{Funding, Contract, Db, Service, LenderSubmission, get_funding}
use moneybee_backend.Lifecycle.Funding.{transition_funding, same_funding_status}
use moneybee_backend.Lifecycle.Funding.Frame.{transition_funding-SameTables}
use moneybee_backend.Lifecycle.Conditions.{
  contract_of_offer, ensure_contract, satisfy, advance_funding_if_conditions_satisfied,
  advance_submissionless_funding, conditions_met, when_pending, advance_submission,
  funding_of_submission,
}

-- how many contracts an offer has
abbrev pub contracts_for : ℕ → List Contract → ℕ
contracts_for o [] = 0
contracts_for o (c ∷ cs) = (if c.offer_id == o then 1 else 0) + contracts_for o cs

-- `uq_contract_offer`: no offer has two contracts.
abbrev pub OneContract : Db → Type 0
OneContract db = (o : ℕ) → contracts_for o db.contracts ≤ 1

contracts_for-append :
    (o : ℕ) (cs ds : List Contract)
    → contracts_for o (cs ++ ds) ≡ contracts_for o cs + contracts_for o ds
contracts_for-append o [] ds = omega arith
contracts_for-append o (c ∷ cs) ds = omega (arith, contracts_for-append o cs ds)

contracts_for-none :
    (o : ℕ) (cs : List Contract)
    → find (λ (c : Contract). c.offer_id == o) cs ≡ none
    → contracts_for o cs ≡ 0
contracts_for-none o [] h = refl
contracts_for-none o (c ∷ cs) h = ground (arith, contracts_for-none o cs)

contracts_for-some :
    (o : ℕ) (cs : List Contract) (c : Contract)
    → find (λ (d : Contract). d.offer_id == o) cs ≡ some c
    → 1 ≤ contracts_for o cs
contracts_for-some o [] c h = cc
contracts_for-some o (d ∷ cs) c h = ground (arith, contracts_for-some o cs c)

new_contract : Funding → Db → Contract
new_contract f db = record {
  id = db.uuid4 db.generated;
  application_id = f.application_id;
  offer_id = f.offer_id;
  template_version = "v1";
  status = ContractStatus.draft;
}

contract_of_offer-none :
    (o : ℕ) (db : Db) → contract_of_offer o db ≡ none → contracts_for o db.contracts ≡ 0
unfolding contract_of_offer
contract_of_offer-none o db h = contracts_for-none o db.contracts h

contract_of_offer-some :
    (o : ℕ) (db : Db) (c : Contract)
    → contract_of_offer o db ≡ some c
    → 1 ≤ contracts_for o db.contracts
unfolding contract_of_offer
contract_of_offer-some o db c h = contracts_for-some o db.contracts c h

-- One more contract for the offer of the funding, if it had none.
pub contracts_for-ensure_contract :
    (f : Funding) (db : Db) (o : ℕ)
    → contracts_for o (ensure_contract f db).contracts
      ≡ contracts_for o db.contracts
        + (if f.offer_id == o then 1 - contracts_for o db.contracts else 0)
unfolding ensure_contract new_contract
contracts_for-ensure_contract f db o = elim (Option-cases (contract_of_offer f.offer_id db)) [
  | inl missing ↦
      let added : (ensure_contract f db).contracts ≡ db.contracts ++ new_contract f db ∷ [] =
        rw missing in
      rw added (
        ground (
          arith,
          contracts_for-append o db.contracts (new_contract f db ∷ []),
          contract_of_offer-none f.offer_id db missing,
        ))
  | inr (c, e) ↦
      let kept : ensure_contract f db ≡ db = rw e in
      rw kept (ground (arith, contract_of_offer-some f.offer_id db c e))
]

satisfy-OneContract :
    (f : Funding) (p : Principal) (db : Db) → OneContract db → OneContract (satisfy f p db).1
unfolding satisfy
satisfy-OneContract f p db one o = ground (
  arith,
  one o,
  ap (contracts_for o)
      (transition_funding-SameTables f FundingStatus.conditions_satisfied p none db).0,
  contracts_for-ensure_contract f
      (transition_funding f FundingStatus.conditions_satisfied p none db).1 o,
)

when_pending-OneContract :
    (found : Option Funding) (go : Funding → Service (Unit {0})) (db : Db)
    → OneContract db
    → ((f : Funding) → OneContract (go f db).1)
    → OneContract (when_pending found go db).1
when_pending-OneContract none go db one h = one
when_pending-OneContract (some f) go db one h =
    elim (Bool-cases (same_funding_status f.status FundingStatus.conditions_pending)) [
      | inl pending ↦ rw pending (h f)
      | inr gone ↦ rw gone one
    ]

if_met-OneContract :
    (met : Bool) (f : Funding) (p : Principal) (db : Db)
    → OneContract db
    → OneContract ((if met then satisfy f p else pure tt) db).1
if_met-OneContract true f p db one = satisfy-OneContract f p db one
if_met-OneContract false f p db one = one

advance_submission-OneContract :
    (submission_id : ℕ) (p : Principal) (s : Option LenderSubmission) (db : Db)
    → OneContract db
    → OneContract (advance_submission submission_id p s db).1
advance_submission-OneContract submission_id p none db one = one
advance_submission-OneContract submission_id p (some s) db one =
    when_pending-OneContract (funding_of_submission s db)
      (λ f. gets (conditions_met submission_id) >>= λ met. if met then satisfy f p else pure tt) db
      one (λ f. if_met-OneContract (conditions_met submission_id db) f p db one)

-- If no offer has two contracts, then none has two after either advance, however it ends.
pub advance-OneContract :
    (submission_id funding_id : ℕ) (p : Principal) (db : Db)
    → OneContract db
    → OneContract (advance_funding_if_conditions_satisfied submission_id p db).1
      × OneContract (advance_submissionless_funding funding_id p db).1
unfolding advance_funding_if_conditions_satisfied advance_submissionless_funding
advance-OneContract submission_id funding_id p db one = (
  advance_submission-OneContract submission_id p
      (row (λ (s : LenderSubmission). s.id) submission_id db.submissions) db one,
  when_pending-OneContract (get_funding funding_id db) (λ f. satisfy f p) db one
      (λ f. satisfy-OneContract f p db one),
)
