-- ===== src/Commissions/Again.antt =====
-- The four routes of app/admin_routes.py, run again on what they left.
use moneybee_backend.Base.{
  ℕ, ◌≡◌, ◌⊎◌, refl, String, true, Option, none, some, [], ◌∷◌, ◌++◌, map, row-put_self, ==_refl,
  equal_refl, Bool-cases, inl, inr, if_true, subst, sym, ap, ◌∙◌,
}
use moneybee_backend.Commissions.Cents.{net_with, sum_with, at_most, at_least, fits, stored}
use moneybee_backend.Base.Int.{pos}
use moneybee_backend.Base.Text.{String-discrete}
use moneybee_backend.Commissions.Rows.{
  Commission, CommissionAdjustment, CommissionSplit, CommissionDb, CommissionRoute, Response,
  AdjustmentInput, ReceiptInput, SplitInput, PaymentInput, commission_row, adjustment_row,
  split_row, net_expected_amount, split_total, adjustments_of, receipts_of, splits_of, mark_paid_of,
  replay_unavailable, commission_not_found,
}
use moneybee_backend.Commissions.Records.{
  same_route, record_for, new_record, with_commission, new_id,
}
use moneybee_backend.Commissions.Amounts.{
  new_adjustment, store_adjustment, status_for, adjust, adjust_or_replay, received_more,
  store_receipt, receive, receive_or_replay,
}
use moneybee_backend.Commissions.Shares.{
  new_split, store_split, divide, divide_or_replay, paid_split, pay_row, store_payment, pay,
  pay_found, pay_or_replay, split_of, is_pending,
}
use moneybee_backend.Commissions.Cases.{looked_up_state}
use moneybee_backend.Commissions.Stored.{
  record_for-add, row-add_new, looked_up, row-paid, split_of-some, Remembered, run_again,
}

-- the ids that the routes give to new rows are new
abbrev pub HasNewId : CommissionDb → Type 0
HasNewId db =
    (adjustment_row (new_id db) db.adjustments ≡ none) × (split_row (new_id db) db.splits ≡ none)

module _ (actor_id key : String) (c : Commission) (db : CommissionDb)
    (found : commission_row c.id db.commissions ≡ some c) (new : HasNewId db) where
  hit :
      (stored route : CommissionRoute) (request_hash : String) (response_status target : ℕ)
      → same_route stored route ≡ true
      → record_for actor_id route key db.records ≡ none
      → record_for actor_id route key
          (db.records ++ new_record stored actor_id key request_hash response_status target ∷ [])
        ≡ some (new_record stored actor_id key request_hash response_status target)
  hit stored route request_hash response_status target same unseen =
      record_for-add actor_id key route
        (new_record stored actor_id key request_hash response_status target) db.records unseen
        (rw (equal_refl String-discrete actor_id, equal_refl String-discrete key, same) refl)

  pub adjusted_again :
      (payload : AdjustmentInput) (request_hash : String)
      → with_commission c.id
          (adjustments_of c.id)
          actor_id
          key
          request_hash
          (adjust_or_replay actor_id key request_hash payload)
          (with_commission c.id
            (adjustments_of c.id)
            actor_id
            key
            request_hash
            (adjust_or_replay actor_id key request_hash payload)
            db).1
        ≡ with_commission c.id
            (adjustments_of c.id)
            actor_id
            key
            request_hash
            (adjust_or_replay actor_id key request_hash payload)
            db
  unfolding adjust
  adjusted_again payload request_hash =
      let net = net_with (net_expected_amount db c) payload.amount in
      let up = db.rounds_up payload.amount.cents payload.amount.rest in
      let a = new_adjustment actor_id (new_id db) c.id up payload in
      let c' : Commission = record c { status = status_for c.received_amount net } in
      run_again (adjustments_of c.id) actor_id key request_hash
        (adjust_or_replay actor_id key request_hash payload) c db found
        (λ x.
          looked_up_state (adjustment_row x.target db.adjustments) replay_unavailable
            Response.adjustment db)
        (λ unseen. elim (Bool-cases (at_most net (pos 0))) [
          | inl empty ↦ inl (rw empty refl)
          | inr positive ↦ elim (Bool-cases (at_least net (pos c.received_amount))) [
            | inr short ↦ inl (rw (positive, short) refl)
            | inl covers ↦ elim (Bool-cases (at_least net (pos (split_total c.id db.splits)))) [
              | inr short ↦ inl (rw (positive, covers, short) refl)
              | inl shares ↦
                  let out = store_adjustment actor_id key request_hash c payload net db in
                  let stored : adjust actor_id key request_hash c payload db ≡ out =
                    rw (positive, covers, shares) refl in
                  inr (
                    subst
                      (Remembered (adjustments_of c.id) actor_id key request_hash
                        (adjust_or_replay actor_id key request_hash payload) c db)
                      (sym stored)
                      (
                        c',
                        row-put_self (λ (y : Commission). y.id) c' c db.commissions found,
                        (
                          new_record (adjustments_of c.id) actor_id key request_hash 201 a.id,
                          hit (adjustments_of c.id) (adjustments_of c.id) request_hash 201 a.id
                              (==_refl c.id) unseen,
                          refl,
                          looked_up (adjustment_row a.id (db.adjustments ++ a ∷ [])) a
                              replay_unavailable Response.adjustment out.1
                              (row-add_new (λ (y : CommissionAdjustment). y.id) a.id a
                                db.adjustments new.0 refl),
                        ),
                      ))
            ]
          ]
        ])

  pub received_again :
      (payload : ReceiptInput) (request_hash : String)
      → with_commission c.id
          (receipts_of c.id)
          actor_id
          key
          request_hash
          (receive_or_replay actor_id key request_hash payload)
          (with_commission c.id
            (receipts_of c.id)
            actor_id
            key
            request_hash
            (receive_or_replay actor_id key request_hash payload)
            db).1
        ≡ with_commission c.id
            (receipts_of c.id)
            actor_id
            key
            request_hash
            (receive_or_replay actor_id key request_hash payload)
            db
  unfolding receive
  received_again payload request_hash =
      let net = net_expected_amount db c in
      let total = sum_with c.received_amount payload.amount in
      let up = db.rounds_up (pos total.cents) total.rest in
      let c' = received_more up payload.amount net c in
      let here = row-put_self (λ (y : Commission). y.id) c' c db.commissions found in
      run_again (receipts_of c.id) actor_id key request_hash
        (receive_or_replay actor_id key request_hash payload) c db found
        (λ x.
          looked_up_state (commission_row c.id db.commissions) commission_not_found
            Response.commission db)
        (λ unseen. elim (Bool-cases (fits (sum_with c.received_amount payload.amount) net)) [
          | inr refused ↦ inl (rw refused refl)
          | inl may ↦
              let out = store_receipt actor_id key request_hash c payload db in
              let stored : receive actor_id key request_hash c payload db ≡ out = rw may refl in
              inr (
                subst
                  (Remembered (receipts_of c.id) actor_id key request_hash
                    (receive_or_replay actor_id key request_hash payload) c db)
                  (sym stored)
                  (
                    c',
                    here,
                    (
                      new_record (receipts_of c.id) actor_id key request_hash 200 c.id,
                      hit (receipts_of c.id) (receipts_of c.id) request_hash 200 c.id (==_refl c.id)
                          unseen,
                      refl,
                      looked_up (commission_row c.id out.1.commissions) c' commission_not_found
                          Response.commission out.1 here,
                    ),
                  ))
        ])

  pub divided_again :
      (payload : SplitInput) (request_hash : String)
      → with_commission c.id
          (splits_of c.id)
          actor_id
          key
          request_hash
          (divide_or_replay actor_id key request_hash payload)
          (with_commission c.id
            (splits_of c.id)
            actor_id
            key
            request_hash
            (divide_or_replay actor_id key request_hash payload)
            db).1
        ≡ with_commission c.id
            (splits_of c.id)
            actor_id
            key
            request_hash
            (divide_or_replay actor_id key request_hash payload)
            db
  unfolding divide
  divided_again payload request_hash =
      let net = net_expected_amount db c in
      let s = new_split (new_id db) c.id db.rounds_up payload in
      run_again (splits_of c.id) actor_id key request_hash
        (divide_or_replay actor_id key request_hash payload) c db found
        (λ x. looked_up_state (split_row x.target db.splits) replay_unavailable Response.split db)
        (λ unseen.
          elim (Bool-cases (fits (sum_with (split_total c.id db.splits) payload.amount) net)) [
            | inr refused ↦ inl (rw refused refl)
            | inl may ↦
                let out = store_split actor_id key request_hash c payload db in
                let stored : divide actor_id key request_hash c payload db ≡ out = rw may refl in
                inr (
                  subst
                    (Remembered (splits_of c.id) actor_id key request_hash
                      (divide_or_replay actor_id key request_hash payload) c db)
                    (sym stored)
                    (
                      c,
                      found,
                      (
                        new_record (splits_of c.id) actor_id key request_hash 201 s.id,
                        hit (splits_of c.id) (splits_of c.id) request_hash 201 s.id (==_refl c.id)
                            unseen,
                        refl,
                        looked_up (split_row s.id (db.splits ++ s ∷ [])) s replay_unavailable
                            Response.split out.1
                            (row-add_new (λ (y : CommissionSplit). y.id) s.id s db.splits new.1
                              refl),
                      ),
                    ))
          ])

  paid_found_again :
      (split_id : ℕ) (payload : PaymentInput) (request_hash : String) (o : Option CommissionSplit)
      → split_of c.id (split_row split_id db.splits) ≡ o
      → record_for actor_id (mark_paid_of c.id split_id) key db.records ≡ none
      → ((pay_found actor_id key request_hash c.id payload o db).1 ≡ db)
        ⊎ Remembered
            (mark_paid_of c.id split_id)
            actor_id
            key
            request_hash
            (pay_or_replay actor_id key request_hash split_id payload)
            c
            db
            (pay_found actor_id key request_hash c.id payload o db)
  paid_found_again split_id payload request_hash none e unseen = inl refl
  paid_found_again split_id payload request_hash (some s) e unseen =
      elim (Bool-cases (is_pending s.status)) [
        | inr not_pending ↦ inl (rw not_pending refl)
        | inl open_yet ↦
            let (row_s, at_id, mine) = split_of-some c.id split_id s db.splits e in
            let out = store_payment actor_id key request_hash c.id payload s db in
            let stored : pay_found actor_id key request_hash c.id payload (some s) db ≡ out =
              rw open_yet refl in
            let route_ok : same_route (mark_paid_of c.id s.id) (mark_paid_of c.id split_id) ≡ true =
              rw (at_id, ==_refl c.id, ==_refl split_id) refl in
            let row_after : split_row split_id out.1.splits ≡ some (paid_split payload s) =
              subst
                (λ i.
                  split_row split_id (map (pay_row i payload) db.splits)
                  ≡ some (paid_split payload s))
                (sym at_id) (row-paid split_id payload s db.splits row_s) in
            let back : split_of c.id (split_row split_id out.1.splits)
                ≡ some (paid_split payload s) =
              ap (split_of c.id) row_after ∙ if_true _ _ mine in
            inr (
              subst
                (Remembered (mark_paid_of c.id split_id) actor_id key request_hash
                  (pay_or_replay actor_id key request_hash split_id payload) c db)
                (sym stored)
                (
                  c,
                  found,
                  (
                    new_record (mark_paid_of c.id s.id) actor_id key request_hash 200 s.id,
                    hit (mark_paid_of c.id s.id) (mark_paid_of c.id split_id) request_hash 200 s.id
                        route_ok unseen,
                    refl,
                    looked_up (split_of c.id (split_row split_id out.1.splits))
                        (paid_split payload s) replay_unavailable Response.split out.1 back,
                  ),
                ))
      ]

  pub paid_again :
      (split_id : ℕ) (payload : PaymentInput) (request_hash : String)
      → with_commission c.id
          (mark_paid_of c.id split_id)
          actor_id
          key
          request_hash
          (pay_or_replay actor_id key request_hash split_id payload)
          (with_commission c.id
            (mark_paid_of c.id split_id)
            actor_id
            key
            request_hash
            (pay_or_replay actor_id key request_hash split_id payload)
            db).1
        ≡ with_commission c.id
            (mark_paid_of c.id split_id)
            actor_id
            key
            request_hash
            (pay_or_replay actor_id key request_hash split_id payload)
            db
  unfolding pay
  paid_again split_id payload request_hash =
      run_again (mark_paid_of c.id split_id) actor_id key request_hash
        (pay_or_replay actor_id key request_hash split_id payload) c db found
        (λ x.
          looked_up_state (split_of c.id (split_row split_id db.splits)) replay_unavailable
            Response.split db)
        (λ unseen.
          paid_found_again split_id payload request_hash
            (split_of c.id (split_row split_id db.splits)) refl unseen)
