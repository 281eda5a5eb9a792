-- ===== src/ContractVoid/Retry.antt =====
-- Calls of `ensure_provider_void_confirmed` of app/contract_void_service.py, repeated until one
-- returns.
use moneybee_backend.Base.{
  ℕ, String, ◌+◌, ◌≤◌, ◌≡◌, arith, true, Option, List, [], ◌∷◌, ◌++◌, inl, inr, Bool-cases,
  if◌then◌else◌,
}
use moneybee_backend.Base.Action.{Result, ok, err}
use moneybee_backend.ContractVoid.{
  VoidDb, VoidProblem, Answer, provider_error, answered, ESignAdapter, TextHost, ProviderCall,
  void_envelope, envelope_status, provider_status, record_unknown_outcome, resolve_exception,
  is_voided, is_definite, block, read_back, read_after_error, after_void, needs_void,
  ensure_provider_void_confirmed, log_call, count_attempt,
}
use moneybee_backend.ContractVoid.Outcomes.{is_blocked, record_unknown_outcome-blocked}

-- how often the provider was asked to void
abbrev pub voids : List ProviderCall → ℕ
voids [] = 0
voids (void_envelope ∷ calls) = 1 + voids calls
voids (envelope_status ∷ calls) = voids calls

voids-add :
    (calls : List ProviderCall) (call : ProviderCall)
    → voids (calls ++ call ∷ []) ≡ voids calls + voids (call ∷ [])
voids-add [] call = omega arith
voids-add (void_envelope ∷ calls) call = omega (arith, voids-add calls call)
voids-add (envelope_status ∷ calls) call = voids-add calls call

-- what is left of the one request that may be sent
abbrev pub budget : VoidDb → ℕ
budget db = if is_blocked db then 0 else 1

-- after a call: a bound on the requests to void, and an open exception if it raised
abbrev Spends : ℕ → Result VoidProblem (Unit {0}) × VoidDb → Type 0
Spends n (ok _, db') = voids db'.calls ≤ n
Spends n (err _, db') = (voids db'.calls ≤ n) × (is_blocked db' ≡ true)

module _ (host : TextHost) (n : ℕ) where
  block-Spends :
      (observed : Option String) (status : ℕ) (db : VoidDb)
      → voids db.calls ≤ n
      → Spends n (block host observed status db)
  unfolding record_unknown_outcome
  block-Spends observed status db h = (h, record_unknown_outcome-blocked host observed db)

  read_back-Spends :
      (a : Answer) (db : VoidDb) → voids db.calls ≤ n → Spends n (read_back host a db)
  unfolding resolve_exception
  read_back-Spends provider_error db h = block-Spends _ 503 db h
  read_back-Spends (answered payload) db h =
      elim (Bool-cases (is_voided (provider_status host payload))) [
        | inl says ↦ rw says h
        | inr not_yet ↦ rw not_yet (block-Spends (provider_status host payload) 409 db h)
      ]

  read_after_error-Spends :
      (a : Answer) (db : VoidDb) → voids db.calls ≤ n → Spends n (read_after_error host a db)
  unfolding resolve_exception
  read_after_error-Spends provider_error db h = block-Spends _ 503 db h
  read_after_error-Spends (answered payload) db h =
      elim (Bool-cases (is_voided (provider_status host payload))) [
        | inl says ↦ rw says h
        | inr not_yet ↦ rw not_yet (block-Spends (provider_status host payload) 503 db h)
      ]

  after_void-Spends :
      (adapter : ESignAdapter) (a : Answer) (db : VoidDb)
      → voids db.calls ≤ n
      → Spends n (after_void host adapter a db)
  after_void-Spends adapter provider_error db h =
      read_after_error-Spends adapter.reads (log_call envelope_status db)
        (omega (arith, h, voids-add db.calls envelope_status))
  after_void-Spends adapter (answered payload) db h =
      elim (Bool-cases (is_definite (provider_status host payload))) [
        | inl definite ↦ rw definite h
        | inr unclear ↦ rw unclear (block-Spends (provider_status host payload) 503 db h)
      ]

-- A call spends at most what is left, and one that raises leaves nothing.
ensure_provider_void_confirmed-Spends :
    (host : TextHost) (adapter : ESignAdapter) (db : VoidDb)
    → Spends (voids db.calls + budget db) (ensure_provider_void_confirmed host adapter db)
unfolding ensure_provider_void_confirmed
ensure_provider_void_confirmed-Spends host adapter db = elim (Bool-cases (needs_void db.contract)) [
  | inr idle ↦ rw idle (omega arith)
  | inl needed ↦ elim (Bool-cases (is_blocked db)) [
    | inl blocked ↦
        rw (needed, blocked)
          (read_back-Spends host _ adapter.reads (log_call envelope_status db)
            (omega (arith, voids-add db.calls envelope_status)))
    | inr shut ↦
        rw (needed, shut)
          (after_void-Spends host _ adapter adapter.voids
            (log_call void_envelope (count_attempt db))
            (omega (arith, voids-add db.calls void_envelope)))
  ]
]

-- the state after a call that returns, or after what follows one that raises
abbrev pub until_ok : Result VoidProblem (Unit {0}) × VoidDb → (VoidDb → VoidDb) → VoidDb
until_ok (ok _, db) again = db
until_ok (err _, db) again = again db

-- The request is made again, with what the provider answers each time, until it returns.
abbrev pub retry : TextHost → List ESignAdapter → VoidDb → VoidDb
retry host [] db = db
retry host (adapter ∷ rest) db =
    let again : VoidDb → VoidDb = λ d. retry host rest d in
    until_ok (ensure_provider_void_confirmed host adapter db) again

until_ok-voids :
    (n : ℕ) (again : VoidDb → VoidDb) (r : Result VoidProblem (Unit {0}) × VoidDb)
    → Spends n r
    → ((d : VoidDb) → voids (again d).calls ≤ voids d.calls + budget d)
    → voids (until_ok r again).calls ≤ n
until_ok-voids n again (ok _, db) h k = h
until_ok-voids n again (err _, db) (h, blocked) k =
    let more : voids (again db).calls ≤ voids db.calls + 0 = rw blocked at (k db) in
    omega (arith, h, more)

-- However often the request is repeated until it returns, and whatever the provider answers, the
-- provider is asked to void at most once more, and not at all if an exception is open.
pub retry-voids :
    (host : TextHost) (adapters : List ESignAdapter) (db : VoidDb)
    → voids (retry host adapters db).calls ≤ voids db.calls + budget db
retry-voids host [] db = omega arith
retry-voids host (adapter ∷ rest) db =
    until_ok-voids (voids db.calls + budget db) (λ d. retry host rest d)
      (ensure_provider_void_confirmed host adapter db)
      (ensure_provider_void_confirmed-Spends host adapter db) (λ d. retry-voids host rest d)
