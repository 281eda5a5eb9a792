-- ===== src/Lifecycle/Application/Order.antt =====
-- Which statuses an application must have passed.
use moneybee_backend.Base.{
  ◌≡◌, arith, ℕ, ◌+◌, ◌≤◌, ◌<◌, Bool, true, Bool-cases, inl, inr, List, [], ◌∷◌, any, ap,
}
use moneybee_backend.Lifecycle.Status.{ApplicationStatus}
use moneybee_backend.Lifecycle.Db.{ApplicationStatusHistory}
use moneybee_backend.Lifecycle.Application.{may_move, same_status}
use moneybee_backend.Lifecycle.Application.Traces.{Chain}

-- How far an application is on the way to its money.
abbrev stage : ApplicationStatus → ℕ
stage ApplicationStatus.matched = 1
stage ApplicationStatus.submitted_to_lenders = 2
stage ApplicationStatus.underwriting = 2
stage ApplicationStatus.offers_available = 2
stage ApplicationStatus.offer_accepted = 2
stage ApplicationStatus.conditions_pending = 2
stage ApplicationStatus.conditions_complete = 2
stage ApplicationStatus.contract_ready = 3
stage ApplicationStatus.contract_sent = 4
stage ApplicationStatus.contract_signed = 5
stage ApplicationStatus.approved_for_funding = 6
stage ApplicationStatus.funds_sent = 7
stage ApplicationStatus.funded = 8
stage ApplicationStatus.closed = 9
stage _ = 0

-- A move climbs by one stage at most.
stage-may_move : (s t : ApplicationStatus) → may_move s t ≡ true → stage t ≤ stage s + 1
unfolding may_move
stage-may_move s t h = ground arith

-- A status that is alone on its stage.
abbrev IsGate : ApplicationStatus → Type 0
IsGate g = (t : ApplicationStatus) → stage t ≡ stage g → same_status t g ≡ true

-- a row of the log arrives at the status
abbrev pub passed : ApplicationStatus → List ApplicationStatusHistory → Bool
passed g = any (λ r. same_status r.to_status g)

passed-Chain :
    (g : ApplicationStatus)
    → IsGate g
    → (id : ℕ) (s : ApplicationStatus) (rows : List ApplicationStatusHistory)
      (t : ApplicationStatus)
    → Chain id s rows t
    → stage s < stage g
    → stage g ≤ stage t
    → passed g rows ≡ true
passed-Chain g alone id s [] t c lo hi = absurd (omega (arith, ap stage c))
passed-Chain g alone id s (r ∷ rows) t c lo hi = elim (Bool-cases (same_status r.to_status g)) [
  | inl here ↦ rw here
  | inr apart ↦ rw apart (
      passed-Chain g alone id r.to_status rows t c.3
        (ground (arith, stage-may_move s r.to_status c.2, alone r.to_status)) hi)
]

matched-IsGate : IsGate ApplicationStatus.matched
unfolding same_status
matched-IsGate t h = ground arith

ready-IsGate : IsGate ApplicationStatus.contract_ready
unfolding same_status
ready-IsGate t h = ground arith

sent-IsGate : IsGate ApplicationStatus.contract_sent
unfolding same_status
sent-IsGate t h = ground arith

signed-IsGate : IsGate ApplicationStatus.contract_signed
unfolding same_status
signed-IsGate t h = ground arith

approved-IsGate : IsGate ApplicationStatus.approved_for_funding
unfolding same_status
approved-IsGate t h = ground arith

funds_sent-IsGate : IsGate ApplicationStatus.funds_sent
unfolding same_status
funds_sent-IsGate t h = ground arith

-- Every log that leads an application from its start to `funded` arrives on the way at `matched`,
-- `contract_ready`, `contract_sent`, `contract_signed`, `approved_for_funding` and `funds_sent`.
pub funded_passed :
    (id : ℕ) (rows : List ApplicationStatusHistory)
    → Chain id ApplicationStatus.application_started rows ApplicationStatus.funded
    → (passed ApplicationStatus.matched rows ≡ true)
      × (passed ApplicationStatus.contract_ready rows ≡ true)
      × (passed ApplicationStatus.contract_sent rows ≡ true)
      × (passed ApplicationStatus.contract_signed rows ≡ true)
      × (passed ApplicationStatus.approved_for_funding rows ≡ true)
      × (passed ApplicationStatus.funds_sent rows ≡ true)
funded_passed id rows c =
    let gate = λ (g : ApplicationStatus) (alone : IsGate g).
      passed-Chain g alone id ApplicationStatus.application_started rows ApplicationStatus.funded
        c in
    (
      gate ApplicationStatus.matched matched-IsGate (omega arith) (omega arith),
      gate ApplicationStatus.contract_ready ready-IsGate (omega arith) (omega arith),
      gate ApplicationStatus.contract_sent sent-IsGate (omega arith) (omega arith),
      gate ApplicationStatus.contract_signed signed-IsGate (omega arith) (omega arith),
      gate ApplicationStatus.approved_for_funding approved-IsGate (omega arith) (omega arith),
      gate ApplicationStatus.funds_sent funds_sent-IsGate (omega arith) (omega arith),
    )
