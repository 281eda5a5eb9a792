-- ===== src/ContractVoid/Outcomes.antt =====
-- How a call of `ensure_provider_void_confirmed` of app/contract_void_service.py ends.
use moneybee_backend.Base.{
  ℕ, ◌≡◌, refl, arith, String, Bool, true, false, Option, none, some, List, [], ◌∷◌, ◌++◌, ◌==◌,
  ◌⊎◌, inl, inr, row, put, row-put_self, key-row, Bool-cases, Option-cases, ap, ◌∙◌, sym, subst,
}
use moneybee_backend.Base.Action.{Result, ok, err}
use moneybee_backend.ContractVoid.{
  OperationalException, VoidDb, VoidProblem, Answer, provider_error, answered, ESignAdapter,
  TextHost, provider_status, exception_for_contract, reopened, record_unknown_outcome, has_open,
  is_opened, resolved_exception, resolve_exception, reconcile, is_voided, is_definite, block,
  read_back, read_after_error, after_void, needs_void, ensure_provider_void_confirmed, log_call,
  envelope_status,
}

fingerprint : OperationalException → ℕ
fingerprint x = x.fingerprint

row-add :
    (k : ℕ) (xs : List OperationalException) (x : OperationalException)
    → row (λ y. y.fingerprint) k xs ≡ none
    → x.fingerprint ≡ k
    → row (λ y. y.fingerprint) k (xs ++ x ∷ []) ≡ some x
row-add k [] x h e = ground arith
row-add k (y ∷ xs) x h e = elim (Bool-cases (y.fingerprint == k)) [
  | inl here ↦ absurd (ground arith)
  | inr other ↦ rw other (row-add k xs x (rw other at h) e)
]

-- the contract's exception is open
abbrev pub is_blocked : VoidDb → Bool
is_blocked db = has_open (exception_for_contract db)

put_found :
    (k : ℕ) (xs : List OperationalException) (x y : OperationalException)
    → row (λ z. z.fingerprint) k xs ≡ some x
    → y.fingerprint ≡ x.fingerprint
    → row (λ z. z.fingerprint) k (put (λ z. z.fingerprint) y xs) ≡ some y
put_found k xs x y found same =
    let at_k = key-row (λ (z : OperationalException). z.fingerprint) k x xs found in
    let same_k : y.fingerprint ≡ k = same ∙ at_k in
    subst (λ j. row (λ z. z.fingerprint) j (put (λ z. z.fingerprint) y xs) ≡ some y) same_k
      (row-put_self (λ (z : OperationalException). z.fingerprint) y x xs
        (subst (λ j. row (λ z. z.fingerprint) j xs ≡ some x) (sym same_k) found))

pub record_unknown_outcome-blocked :
    (host : TextHost) (observed : Option String) (db : VoidDb)
    → is_blocked (record_unknown_outcome host observed db) ≡ true
unfolding record_unknown_outcome exception_for_contract
record_unknown_outcome-blocked host observed db = elim (Option-cases (exception_for_contract db)) [
  | inl missing ↦ rw missing (ap has_open (row-add db.contract.id db.exceptions _ missing refl))
  | inr (x, found) ↦
      rw found (rw (put_found db.contract.id db.exceptions x (reopened x observed) found refl) refl)
]

pub reconcile-blocked : (host : TextHost) (db : VoidDb) → is_blocked (reconcile host db) ≡ false
unfolding resolve_exception exception_for_contract
reconcile-blocked host db = elim (Option-cases (exception_for_contract db)) [
  | inl missing ↦ rw (missing, missing) refl
  | inr (x, found) ↦ elim (Bool-cases (is_opened x.status)) [
    | inl is_open ↦
        rw (found, is_open)
          (rw (put_found db.contract.id db.exceptions x (resolved_exception host x) found refl)
            refl)
    | inr shut ↦ rw (found, shut) (rw (found, shut) refl)
  ]
]

-- an answer that says that the envelope is voided
abbrev pub says_voided : TextHost → Answer → Bool
says_voided host provider_error = false
says_voided host (answered payload) = is_voided (provider_status host payload)

-- an answer to the request to void that the source takes as its confirmation
abbrev pub accepts : TextHost → Answer → Bool
accepts host provider_error = false
accepts host (answered payload) = is_definite (provider_status host payload)

-- what the provider has to have said for a call to return
abbrev pub Confirmed : TextHost → ESignAdapter → VoidDb → Type 0
Confirmed host adapter db =
    ((is_blocked db ≡ false) × (accepts host adapter.voids ≡ true))
    ⊎ (says_voided host adapter.reads ≡ true)

abbrev pub Ends : TextHost → ESignAdapter → VoidDb → Result VoidProblem (Unit {0}) × VoidDb → Type 0
Ends host adapter db (ok _, db') =
    Confirmed host adapter db
    × (is_blocked db' ≡ false)
    × (db'.contract.provider_attempt_count ≡ 0)
    × (db'.contract.provider_terminal_at ≡ none)
Ends host adapter db (err x, db') =
    (is_blocked db' ≡ true) × (db'.contract.provider_terminal_at ≡ some host.now)

module _ (host : TextHost) (adapter : ESignAdapter) (start : VoidDb) where
  block-Ends :
      (observed : Option String) (status : ℕ) (db : VoidDb)
      → Ends host adapter start (block host observed status db)
  unfolding record_unknown_outcome
  block-Ends observed status db = (record_unknown_outcome-blocked host observed db, refl)

  reconcile-Ends :
      (db : VoidDb)
      → says_voided host adapter.reads ≡ true
      → Ends host adapter start (ok tt, reconcile host db)
  unfolding resolve_exception
  reconcile-Ends db says = (inr says, reconcile-blocked host db, refl, refl)

  read_back-Ends :
      (a : Answer) (db : VoidDb) → adapter.reads ≡ a → Ends host adapter start (read_back host a db)
  read_back-Ends provider_error db same = block-Ends none 503 db
  read_back-Ends (answered payload) db same =
      elim (Bool-cases (is_voided (provider_status host payload))) [
        | inl says ↦ rw says (reconcile-Ends db (ap (says_voided host) same ∙ says))
        | inr not_yet ↦ rw not_yet (block-Ends (provider_status host payload) 409 db)
      ]

  read_after_error-Ends :
      (a : Answer) (db : VoidDb)
      → adapter.reads ≡ a
      → Ends host adapter start (read_after_error host a db)
  read_after_error-Ends provider_error db same = block-Ends none 503 db
  read_after_error-Ends (answered payload) db same =
      elim (Bool-cases (is_voided (provider_status host payload))) [
        | inl says ↦ rw says (reconcile-Ends db (ap (says_voided host) same ∙ says))
        | inr not_yet ↦ rw not_yet (block-Ends (provider_status host payload) 503 db)
      ]

  after_void-Ends :
      (a : Answer) (db : VoidDb)
      → adapter.voids ≡ a
      → is_blocked start ≡ false
      → is_blocked db ≡ false
      → Ends host adapter start (after_void host adapter a db)
  unfolding exception_for_contract
  after_void-Ends provider_error db same shut now_shut =
      read_after_error-Ends adapter.reads (log_call envelope_status db) refl
  after_void-Ends (answered payload) db same shut now_shut =
      elim (Bool-cases (is_definite (provider_status host payload))) [
        | inl definite ↦
            rw definite (inl (shut, ap (accepts host) same ∙ definite), now_shut, refl, refl)
        | inr unclear ↦ rw unclear (block-Ends (provider_status host payload) 503 db)
      ]

  -- With a sent contract that has an envelope: if the call returns, then the provider accepted
  -- the request to void, sent because no exception was open, or its read-back says voided; the
  -- attempt count is zero, the terminal mark is cleared and no exception is open. If it raises,
  -- an exception is open and the contract is marked terminal at the time of the call.
  pub ensure_provider_void_confirmed-Ends :
      needs_void start.contract ≡ true
      → Ends host adapter start (ensure_provider_void_confirmed host adapter start)
  unfolding ensure_provider_void_confirmed exception_for_contract
  ensure_provider_void_confirmed-Ends needed = elim (Bool-cases (is_blocked start)) [
    | inl blocked ↦
        rw (needed, blocked) (read_back-Ends adapter.reads (log_call envelope_status start) refl)
    | inr shut ↦ rw (needed, shut) (after_void-Ends adapter.voids _ refl shut shut)
  ]
