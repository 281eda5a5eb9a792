-- ===== src/Lifecycle/Renewal.antt =====
-- `transition_renewal_status` and `evaluate_renewal_eligibility` of app/services.py.
pub mod Coverage
use moneybee_backend.Base.{
  ℕ, ◌+◌, ◌*◌, String, Bool, true, false, not, ◌&&◌, Option, none, some, List, [], ◌∷◌, ◌++◌, equal,
  mem?, contains, filter, map, leb, if◌then◌else◌,
}
use moneybee_backend.Base.Action.{pure, raise, ◌>>=◌, ◌>>◌, modify, gets}
use moneybee_backend.Principal.{Principal}
use moneybee_backend.Lifecycle.Status.{
  FundingStatus, RenewalStatus, RenewalStatus-discrete, renewal_transitions,
}
use moneybee_backend.Lifecycle.Db.{
  Funding, RenewalOpportunity, Db, Service, invalid_renewal_status_transition, renewal_moved,
  save_renewal, add_audit,
}
use moneybee_backend.Lifecycle.Funding.{same_funding_status}

unfoldable pub transition_renewal_status :
    RenewalOpportunity → RenewalStatus → Principal → Option String → Service RenewalOpportunity
unfolding RenewalStatus-discrete renewal_transitions
transition_renewal_status renewal to_status principal reason =
    if equal RenewalStatus-discrete renewal.status to_status
    then pure renewal
    else if not (mem? RenewalStatus-discrete to_status (renewal_transitions renewal.status))
    then raise (invalid_renewal_status_transition renewal.status to_status)
    else modify (save_renewal (record renewal { status = to_status }))
      >> modify (
          add_audit (record {
            actor_id = principal.subject;
            resource_id = renewal.id;
            details = renewal_moved renewal.status to_status reason;
          }))
      >> pure (record renewal { status = to_status })

-- `timedelta(days=RENEWAL_ELIGIBILITY_DAYS)`, in seconds
abbrev pub renewal_eligibility : ℕ
renewal_eligibility = 90 * 86400

-- The query for fundings that are old enough. `funding_confirmed_at <= now - 90 days` is written as
-- a sum, since a difference of naturals stops at 0.
unfoldable pub is_eligible : ℕ → Funding → Bool
is_eligible now f =
    same_funding_status f.status FundingStatus.funded
    && elim f.funding_confirmed_at [ none ↦ false | some at ↦ leb (at + renewal_eligibility) now ]

abbrev confirmed_at : Funding → ℕ
confirmed_at f = elim f.funding_confirmed_at [ none ↦ 0 | some at ↦ at ]

unfoldable pub opportunity_for : Funding → ℕ → RenewalOpportunity
opportunity_for f id = record {
  id = id;
  original_funding_id = f.id;
  application_id = f.application_id;
  eligible_from = confirmed_at f + renewal_eligibility;
  eligibility_status = "ELIGIBLE";
  estimated_amount = f.funded_amount;
  status = RenewalStatus.pending;
}

abbrev add_renewal : Funding → Db → Db
add_renewal f db = record db {
  renewals = db.renewals ++ opportunity_for f (db.uuid4 db.generated) ∷ [];
  generated = db.generated + 1;
}

-- the loop over the eligible fundings; `existing` is read before it starts
unfoldable pub create_missing : List ℕ → List Funding → Service (List ℕ)
create_missing existing [] = pure []
create_missing existing (f ∷ fs) = if contains f.id existing then create_missing existing fs else do
  id ← gets (λ db. db.uuid4 db.generated)
  modify (add_renewal f)
  created ← create_missing existing fs
  pure (id ∷ created)

abbrev pub original_ids : Db → List ℕ
original_ids db = map (λ r. r.original_funding_id) db.renewals

-- The early `return []` on no funding is the first clause of `create_missing`. The ids of all
-- opportunities stand for those that the query restricts to the fundings at hand.
unfoldable pub evaluate_renewal_eligibility : ℕ → Service (List ℕ)
evaluate_renewal_eligibility now = gets (λ db. filter (is_eligible now) db.fundings) >>= λ fundings.
    gets original_ids >>= λ existing. create_missing existing fundings
