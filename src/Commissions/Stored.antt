-- ===== src/Commissions/Stored.antt =====
-- What a route of app/admin_routes.py finds when it runs again.
use moneybee_backend.Base.{
  ℕ, ◌≡◌, ◌⊎◌, refl, String, true, Option, none, some, List, [], ◌∷◌, ◌++◌, map, row, key-row, ◌==◌,
  ==_iff, equal, equal_refl, Bool-cases, Option-cases, inl, inr, subst, sym, ap, ◌∙◌,
}
use moneybee_backend.Base.Text.{String-discrete}
use moneybee_backend.Base.Action.{Result, ok, err, ◌>>=◌, or_raise, pure, >>=-of_ok}
use moneybee_backend.Commissions.Rows.{
  Commission, CommissionSplit, CommissionDb, CommissionRoute, CommissionRecord, CommissionProblem,
  CommissionAction, Response, PaymentInput, commission_row, split_row, load_commission,
}
use moneybee_backend.Commissions.Records.{
  is_record_for, record_for, idempotency_replay, with_commission,
}
use moneybee_backend.Commissions.Shares.{paid_split, pay_row, split_of}
use moneybee_backend.Commissions.Cases.{with_commission-cases}

pub record_for-add :
    (actor_id key : String) (route : CommissionRoute) (x : CommissionRecord)
    (rows : List CommissionRecord)
    → record_for actor_id route key rows ≡ none
    → is_record_for actor_id route key x ≡ true
    → record_for actor_id route key (rows ++ x ∷ []) ≡ some x
unfolding record_for
record_for-add actor_id key route x [] h hit = rw hit refl
record_for-add actor_id key route x (r ∷ rows) h hit =
    elim (Bool-cases (is_record_for actor_id route key r)) [
      | inl found ↦ cc (rw found at h)
      | inr other ↦ rw other (record_for-add actor_id key route x rows (rw other at h) hit)
    ]

-- A stored record with the hash of the request leads to the replay.
replayed :
    (k : ℕ) (route : CommissionRoute) (actor_id key request_hash : String)
    (rest : Commission → Option CommissionRecord → CommissionAction Response) (c : Commission)
    (x : CommissionRecord) (db : CommissionDb)
    → commission_row k db.commissions ≡ some c
    → record_for actor_id route key db.records ≡ some x
    → x.request_hash ≡ request_hash
    → with_commission k route actor_id key request_hash rest db ≡ rest c (some x) db
unfolding with_commission
replayed k route actor_id key request_hash rest c x db found stored same =
    let then_record : Commission → CommissionAction Response =
      λ y. idempotency_replay route actor_id key request_hash >>= rest y in
    let load : load_commission k db ≡ (ok c, db) = rw found refl in
    let hash_ok : equal String-discrete x.request_hash request_hash ≡ true =
      rw same (equal_refl String-discrete request_hash) in
    let read : idempotency_replay route actor_id key request_hash db ≡ (ok (some x), db) =
      rw (stored, hash_ok) refl in
    >>=-of_ok (load_commission k) then_record db load
    ∙ >>=-of_ok (idempotency_replay route actor_id key request_hash) (rest c) db read

-- The second run of a route finds what the first stored.
module _ (route : CommissionRoute) (actor_id key request_hash : String)
    (rest : Commission → Option CommissionRecord → CommissionAction Response) (c : Commission)
    (db : CommissionDb) where
  abbrev pub run_route : CommissionAction Response
  run_route = with_commission c.id route actor_id key request_hash rest

  -- after `db'` the rest has its answer stored
  abbrev pub Remembered : Result CommissionProblem Response × CommissionDb → Type 0
  Remembered out =
      (c' : Commission) × (commission_row c.id out.1.commissions ≡ some c')
      × ((x : CommissionRecord) × (record_for actor_id route key out.1.records ≡ some x)
          × (x.request_hash ≡ request_hash)
          × (rest c' (some x) out.1 ≡ out))

  again_same :
      (out : Result CommissionProblem Response × CommissionDb)
      → run_route db ≡ out
      → out.1 ≡ db
      → run_route (run_route db).1 ≡ run_route db
  again_same out e same = ap run_route (ap (λ r. r.1) e ∙ same)

  again_stored :
      (out : Result CommissionProblem Response × CommissionDb)
      → run_route db ≡ out
      → Remembered out
      → run_route (run_route db).1 ≡ run_route db
  again_stored out e (c', found, (x, stored, same, answer)) =
      ap run_route (ap (λ r. r.1) e)
      ∙ replayed c.id route actor_id key request_hash rest c' x out.1 found stored same
      ∙ answer
      ∙ sym e

  pub run_again :
      commission_row c.id db.commissions ≡ some c
      → ((x : CommissionRecord) → (rest c (some x) db).1 ≡ db)
      → (record_for actor_id route key db.records ≡ none
          → ((rest c none db).1 ≡ db) ⊎ Remembered (rest c none db))
      → run_route (run_route db).1 ≡ run_route db
  run_again found old new =
      elim (with_commission-cases c.id route actor_id key request_hash rest db) [
        | inl (x, e) ↦ again_same (err x, db) e refl
        | inr (d, found', (o, is_record, e)) ↦
            let d_is_c : d ≡ c = cc (sym found' ∙ found) in
            by_record o is_record (e ∙ ap (λ y. rest y o db) d_is_c) old new
      ]
    where
      by_record :
          (o : Option CommissionRecord)
          → record_for actor_id route key db.records ≡ o
          → run_route db ≡ rest c o db
          → ((x : CommissionRecord) → (rest c (some x) db).1 ≡ db)
          → (record_for actor_id route key db.records ≡ none
              → ((rest c none db).1 ≡ db) ⊎ Remembered (rest c none db))
          → run_route (run_route db).1 ≡ run_route db
      by_record (some x) is_record e old new = again_same (rest c (some x) db) e (old x)
      by_record none is_record e old new = elim (new is_record) [
        | inl same ↦ again_same (rest c none db) e same
        | inr kept ↦ again_stored (rest c none db) e kept
      ]

pub row-add_new :
    {A : Type 0} (key : A → ℕ) (k : ℕ) (a : A) (rows : List A)
    → row key k rows ≡ none
    → key a ≡ k
    → row key k (rows ++ a ∷ []) ≡ some a
row-add_new key k a [] h same = rw ((==_iff (key a) k).1 same) refl
row-add_new key k a (r ∷ rows) h same = elim (Bool-cases (key r == k)) [
  | inl here ↦ cc (rw here at h)
  | inr other ↦ rw other (row-add_new key k a rows (rw other at h) same)
]

pub looked_up :
    {A : Type 0} (o : Option A) (a : A) (x : CommissionProblem) (f : A → Response)
    (db : CommissionDb)
    → o ≡ some a
    → (or_raise o x >>= λ b. pure (f b)) db ≡ (ok (f a), db)
looked_up o a x f db e =
    ap
      (λ p.
        let v : Result CommissionProblem Response × CommissionDb =
          (or_raise p x >>= λ b. pure (f b)) db in
        v)
      e

pub row-paid :
    (id : ℕ) (payload : PaymentInput) (s : CommissionSplit) (rows : List CommissionSplit)
    → split_row id rows ≡ some s
    → split_row id (map (pay_row id payload) rows) ≡ some (paid_split payload s)
row-paid id payload s [] h = cc
row-paid id payload s (r ∷ rows) h = elim (Bool-cases (r.id == id)) [
  | inl here ↦ let r_is_s : r ≡ s = cc (rw here at h) in rw (here, here, r_is_s) refl
  | inr other ↦ rw (other, other) (row-paid id payload s rows (rw other at h))
]

pub split_of-some :
    (k id : ℕ) (s : CommissionSplit) (rows : List CommissionSplit)
    → split_of k (split_row id rows) ≡ some s
    → (split_row id rows ≡ some s) × (s.id ≡ id) × ((s.commission_id == k) ≡ true)
split_of-some k id s rows e = elim (Option-cases (split_row id rows)) [
  | inl missing ↦ cc (rw missing at e)
  | inr (u, found) ↦ elim (Bool-cases (u.commission_id == k)) [
    | inr other ↦ cc (rw (found, other) at e)
    | inl mine ↦
        let u_is_s : u ≡ s = cc (rw (found, mine) at e) in
        let at_id = key-row (λ (x : CommissionSplit). x.id) id u rows found in
        (
          found ∙ ap (λ x. some x) u_is_s,
          subst (λ (x : CommissionSplit). x.id ≡ id) u_is_s at_id,
          subst (λ (x : CommissionSplit). (x.commission_id == k) ≡ true) u_is_s mine,
        )
  ]
]
