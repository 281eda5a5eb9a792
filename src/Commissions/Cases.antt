-- ===== src/Commissions/Cases.antt =====
-- What the part that the commission routes of app/admin_routes.py share can come to.
use moneybee_backend.Base.{
  ℕ, ◌≡◌, ◌⊎◌, refl, String, Option, none, some, key-row, Bool-cases, Option-cases, inl, inr, equal,
  subst, sym, ◌∙◌,
}
use moneybee_backend.Base.Text.{String-discrete}
use moneybee_backend.Base.Action.{Result, ok, err, ◌>>=◌, or_raise, pure, >>=-of_ok, >>=-of_err}
use moneybee_backend.Commissions.Rows.{
  Commission, CommissionDb, CommissionRoute, CommissionRecord, CommissionProblem, CommissionAction,
  Response, commission_row, load_commission, commission_not_found, payload_conflict,
}
use moneybee_backend.Commissions.Records.{record_for, idempotency_replay, with_commission}

idempotency_replay-cases :
    (route : CommissionRoute) (actor_id key request_hash : String) (db : CommissionDb)
    → (idempotency_replay route actor_id key request_hash db ≡ (err payload_conflict, db))
      ⊎ ((o : Option CommissionRecord) × (record_for actor_id route key db.records ≡ o)
          × (idempotency_replay route actor_id key request_hash db ≡ (ok o, db)))
idempotency_replay-cases route actor_id key request_hash db =
    elim (Option-cases (record_for actor_id route key db.records)) [
      | inl new ↦ inr (none, new, rw new refl)
      | inr (r, old) ↦ elim (Bool-cases (equal String-discrete r.request_hash request_hash)) [
        | inl same ↦ inr (some r, old, rw (old, same) refl)
        | inr other ↦ inl (rw (old, other) refl)
      ]
    ]

-- what the shared part of the routes can come to
pub with_commission-cases :
    (k : ℕ) (route : CommissionRoute) (actor_id key request_hash : String)
    (rest : Commission → Option CommissionRecord → CommissionAction Response) (db : CommissionDb)
    → ((x : CommissionProblem) × (with_commission k route actor_id key request_hash rest db
          ≡ (err x, db)))
      ⊎ ((c : Commission) × (commission_row k db.commissions ≡ some c)
          × ((o : Option CommissionRecord) × (record_for actor_id route key db.records ≡ o)
              × (with_commission k route actor_id key request_hash rest db ≡ rest c o db)))
unfolding with_commission
with_commission-cases k route actor_id key request_hash rest db =
    let then_record : Commission → CommissionAction Response =
      λ c. idempotency_replay route actor_id key request_hash >>= rest c in
    elim (Option-cases (commission_row k db.commissions)) [
      | inl missing ↦
          let load : load_commission k db ≡ (err commission_not_found, db) = rw missing refl in
          inl (commission_not_found, >>=-of_err (load_commission k) then_record db load)
      | inr (c, found) ↦
          let load : load_commission k db ≡ (ok c, db) = rw found refl in
          let first = >>=-of_ok (load_commission k) then_record db load in
          elim (idempotency_replay-cases route actor_id key request_hash db) [
            | inl refused ↦ inl (
              payload_conflict,
              first
                  ∙ >>=-of_err (idempotency_replay route actor_id key request_hash) (rest c) db
                      refused,
            )
            | inr (o, is_record, read) ↦ inr (
              c,
              found,
              (
                o,
                is_record,
                first
                    ∙ >>=-of_ok (idempotency_replay route actor_id key request_hash) (rest c) db
                        read,
              ),
            )
          ]
    ]

-- what a replay reads leaves the rows alone
pub looked_up_state :
    {A : Type 0} (o : Option A) (x : CommissionProblem) (f : A → Response) (db : CommissionDb)
    → ((or_raise o x >>= λ a. pure (f a)) db).1 ≡ db
looked_up_state none x f db = refl
looked_up_state (some a) x f db = refl

-- A property of the rows after a route, from the rest of it.
pub with_commission_after :
    (P : CommissionDb → Type 0) (k : ℕ) (route : CommissionRoute)
    (actor_id key request_hash : String)
    (rest : Commission → Option CommissionRecord → CommissionAction Response) (db : CommissionDb)
    → P db
    → ((c : Commission) (o : Option CommissionRecord)
        → commission_row c.id db.commissions ≡ some c
        → k ≡ c.id
        → P (rest c o db).1)
    → P (with_commission k route actor_id key request_hash rest db).1
with_commission_after P k route actor_id key request_hash rest db same after =
    elim (with_commission-cases k route actor_id key request_hash rest db) [
      | inl (x, e) ↦
          subst (λ (r : Result CommissionProblem Response × CommissionDb). P r.1) (sym e) same
      | inr (c, found, (o, is_record, e)) ↦
          let at_k = key-row (λ (x : Commission). x.id) k c db.commissions found in
          subst (λ (r : Result CommissionProblem Response × CommissionDb). P r.1) (sym e)
            (after c o (subst (λ j. commission_row j db.commissions ≡ some c) (sym at_k) found)
              (sym at_k))
    ]
