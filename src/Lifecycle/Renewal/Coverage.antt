-- ===== src/Lifecycle/Renewal/Coverage.antt =====
-- Which renewal opportunities the periodic scan creates.
use moneybee_backend.Base.{
  ◌≡◌, refl, arith, ℕ, ◌+◌, ◌≤◌, true, false, List, [], ◌∷◌, ◌++◌, contains, contains_cong, filter,
  map, ◌==◌, Bool-cases, inl, inr, if◌then◌else◌, ◌∙◌, ap,
}
use moneybee_backend.Base.Action.{Result, ok, >>=-of_ok, >>=-pure_state, pure}
use moneybee_backend.Lifecycle.Db.{Funding, RenewalOpportunity, Db, Problem}
use moneybee_backend.Lifecycle.Renewal.{
  is_eligible, opportunity_for, add_renewal, create_missing, original_ids,
  evaluate_renewal_eligibility,
}

-- how many opportunities a funding has, and how many rows of a list have its id
abbrev pub renewals_for : ℕ → List RenewalOpportunity → ℕ
renewals_for k [] = 0
renewals_for k (r ∷ rs) = (if r.original_funding_id == k then 1 else 0) + renewals_for k rs

abbrev pub fundings_with : ℕ → List Funding → ℕ
fundings_with k [] = 0
fundings_with k (f ∷ fs) = (if f.id == k then 1 else 0) + fundings_with k fs

renewals_for-append :
    (k : ℕ) (rs ss : List RenewalOpportunity)
    → renewals_for k (rs ++ ss) ≡ renewals_for k rs + renewals_for k ss
renewals_for-append k [] ss = omega arith
renewals_for-append k (r ∷ rs) ss = omega (arith, renewals_for-append k rs ss)

contains-original_ids :
    (k : ℕ) (rs : List RenewalOpportunity)
    → contains k (map (λ (r : RenewalOpportunity). r.original_funding_id) rs)
      ≡ (if renewals_for k rs == 0 then false else true)
contains-original_ids k [] = refl
contains-original_ids k (r ∷ rs) = ground (arith, contains-original_ids k rs)

-- The loop never raises.
create_missing_returns :
    (existing : List ℕ) (fs : List Funding) (db : Db)
    → (ids : List ℕ) × (db' : Db) × (create_missing existing fs db ≡ (ok ids, db'))
unfolding create_missing
create_missing_returns existing [] db = ([], db, refl)
create_missing_returns existing (f ∷ fs) db = elim (Bool-cases (contains f.id existing)) [
  | inl known ↦ let (ids, db', e) = create_missing_returns existing fs db in (ids, db', rw known e)
  | inr new ↦
      let (ids, db', e) = create_missing_returns existing fs (add_renewal f db) in
      (
        db.uuid4 db.generated ∷ ids,
        db',
        rw new (
            >>=-of_ok (create_missing existing fs)
              (λ created. pure (db.uuid4 db.generated ∷ created)) (add_renewal f db) e),
      )
]

original-opportunity_for :
    (f : Funding) (id : ℕ) → (opportunity_for f id).original_funding_id ≡ f.id
unfolding opportunity_for
original-opportunity_for f id = refl

renewals_for-create_missing :
    (k : ℕ) (existing : List ℕ) (fs : List Funding) (db : Db)
    → renewals_for k (create_missing existing fs db).1.renewals
      ≡ renewals_for k db.renewals + (if contains k existing then 0 else fundings_with k fs)
unfolding create_missing
renewals_for-create_missing k existing [] db = ground arith
renewals_for-create_missing k existing (f ∷ fs) db = elim (Bool-cases (contains f.id existing)) [
  | inl known ↦
      rw known (
        ground (arith, contains_cong f.id k existing, renewals_for-create_missing k existing fs db))
  | inr new ↦ rw new (
      ap (λ (s : Db). renewals_for k s.renewals)
        (>>=-pure_state (create_missing existing fs) (λ created. db.uuid4 db.generated ∷ created)
          (add_renewal f db))
      ∙ ground (
        arith,
        contains_cong f.id k existing,
        renewals_for-create_missing k existing fs (add_renewal f db),
        renewals_for-append k db.renewals (opportunity_for f (db.uuid4 db.generated) ∷ []),
        original-opportunity_for f (db.uuid4 db.generated),
      ))
]

-- The scan returns, and afterwards a funding id that had opportunities has as many as before,
-- and one that had none has one for each eligible funding with that id.
pub evaluate_renewal_eligibility_covers :
    (now k : ℕ) (db : Db)
    → (ids : List ℕ) × (db' : Db) × (evaluate_renewal_eligibility now db ≡ (ok ids, db'))
      × (renewals_for k db'.renewals ≡ (
          if renewals_for k db.renewals == 0
          then fundings_with k (filter (is_eligible now) db.fundings)
          else renewals_for k db.renewals))
unfolding evaluate_renewal_eligibility
evaluate_renewal_eligibility_covers now k db =
    let fs = filter (is_eligible now) db.fundings in
    let (ids, db', e) = create_missing_returns (original_ids db) fs db in
    (
      ids,
      db',
      e,
      ground (
        arith,
        ap (λ (r : Result Problem (List ℕ) × Db). renewals_for k r.1.renewals) e,
        renewals_for-create_missing k (original_ids db) fs db,
        contains-original_ids k db.renewals,
      ),
    )

create_missing-fundings :
    (existing : List ℕ) (fs : List Funding) (db : Db)
    → (create_missing existing fs db).1.fundings ≡ db.fundings
unfolding create_missing
create_missing-fundings existing [] db = refl
create_missing-fundings existing (f ∷ fs) db = elim (Bool-cases (contains f.id existing)) [
  | inl known ↦ rw known (create_missing-fundings existing fs db)
  | inr new ↦ rw new (
      ap (λ (s : Db). s.fundings)
        (>>=-pure_state (create_missing existing fs) (λ created. db.uuid4 db.generated ∷ created)
          (add_renewal f db))
      ∙ create_missing-fundings existing fs (add_renewal f db))
]

create_missing_known :
    (existing : List ℕ) (fs : List Funding) (db : Db)
    → ((k : ℕ) → 1 ≤ fundings_with k fs → contains k existing ≡ true)
    → create_missing existing fs db ≡ (ok [], db)
unfolding create_missing
create_missing_known existing [] db h = refl
create_missing_known existing (f ∷ fs) db h =
    rw (h f.id (ground arith)) (create_missing_known existing fs db (λ k m. h k (omega arith)))

-- A second scan at the same time creates nothing and changes nothing.
pub evaluate_renewal_eligibility_again :
    (now : ℕ) (db : Db)
    → let db' = (evaluate_renewal_eligibility now db).1 in
      evaluate_renewal_eligibility now db' ≡ (ok [], db')
unfolding evaluate_renewal_eligibility
evaluate_renewal_eligibility_again now db =
    let fs = filter (is_eligible now) db.fundings in
    let db' = (create_missing (original_ids db) fs db).1 in
    rw (create_missing-fundings (original_ids db) fs db) (
      create_missing_known (original_ids db') fs db' (λ k m.
        contains-original_ids k db'.renewals
        ∙ ground (
          arith,
          m,
          renewals_for-create_missing k (original_ids db) fs db,
          contains-original_ids k db.renewals,
        )))
