-- ===== src/Commissions/Replays.antt =====
-- Repeated requests to the commission routes of app/admin_routes.py.
use moneybee_backend.Base.{
  ℕ, ◌≡◌, refl, String, Option, some, key-row, Bool-cases, inl, inr, subst, sym, ap,
}
use moneybee_backend.Commissions.Rows.{
  Commission, CommissionDb, CommissionRoute, CommissionRecord, CommissionAction, Response,
  PayloadHash, commission_row, adjustments_of, receipts_of, splits_of, mark_paid_of,
}
use moneybee_backend.Commissions.Records.{with_commission}
use moneybee_backend.Commissions.Amounts.{
  adjust_or_replay, create_commission_adjustment, is_zero, receive_or_replay,
  record_commission_receipt,
}
use moneybee_backend.Commissions.Shares.{
  divide_or_replay, create_commission_split, pay_or_replay, mark_commission_split_paid,
}
use moneybee_backend.Commissions.Requests.{Request, adjusts, receives, divides, pays, serve}
use moneybee_backend.Commissions.Cases.{with_commission-cases}
use moneybee_backend.Commissions.Again.{
  HasNewId, adjusted_again, received_again, divided_again, paid_again,
}

-- what a request to a missing commission does
missing_again :
    (k : ℕ) (route : CommissionRoute) (actor_id key request_hash : String)
    (rest : Commission → Option CommissionRecord → CommissionAction Response) (db : CommissionDb)
    → ((c : Commission)
        → commission_row c.id db.commissions ≡ some c
        → c.id ≡ k
        → with_commission k route actor_id key request_hash rest
            (with_commission k route actor_id key request_hash rest db).1
          ≡ with_commission k route actor_id key request_hash rest db)
    → with_commission k route actor_id key request_hash rest
        (with_commission k route actor_id key request_hash rest db).1
      ≡ with_commission k route actor_id key request_hash rest db
missing_again k route actor_id key request_hash rest db at_commission =
    elim (with_commission-cases k route actor_id key request_hash rest db) [
      | inl (x, e) ↦ ap (with_commission k route actor_id key request_hash rest) (ap (λ r. r.1) e)
      | inr (c, found, _) ↦
          let at_k = key-row (λ (y : Commission). y.id) k c db.commissions found in
          at_commission c (subst (λ j. commission_row j db.commissions ≡ some c) (sym at_k) found)
            at_k
    ]

-- With new ids for new rows: the same request by the same caller with the same key, sent again,
-- answers as the first and changes nothing more, whether the first was carried out, refused or
-- itself a replay.
pub serve_again :
    (hash : PayloadHash) (actor_id key : String) (r : Request) (db : CommissionDb)
    → HasNewId db
    → serve hash actor_id key r (serve hash actor_id key r db).1 ≡ serve hash actor_id key r db
unfolding serve create_commission_adjustment record_commission_receipt create_commission_split
    mark_commission_split_paid
serve_again hash actor_id key (adjusts k payload) db new =
    let h = hash.of_adjustment payload in
    elim (Bool-cases (is_zero payload.amount)) [
      | inl nothing ↦ rw nothing refl
      | inr something ↦ rw something (
          missing_again k (adjustments_of k) actor_id key h
            (adjust_or_replay actor_id key h payload) db
            (λ c found at_k.
              subst
                (λ j.
                  with_commission j (adjustments_of j) actor_id key h
                    (adjust_or_replay actor_id key h payload)
                    (with_commission j (adjustments_of j) actor_id key h
                      (adjust_or_replay actor_id key h payload) db).1
                  ≡ with_commission j (adjustments_of j) actor_id key h
                      (adjust_or_replay actor_id key h payload) db)
                at_k (adjusted_again actor_id key c db found new payload h)))
    ]
serve_again hash actor_id key (receives k payload) db new =
    let h = hash.of_receipt payload in
    missing_again k (receipts_of k) actor_id key h (receive_or_replay actor_id key h payload) db
      (λ c found at_k.
        subst
          (λ j.
            with_commission j (receipts_of j) actor_id key h
              (receive_or_replay actor_id key h payload)
              (with_commission j (receipts_of j) actor_id key h
                (receive_or_replay actor_id key h payload) db).1
            ≡ with_commission j (receipts_of j) actor_id key h
                (receive_or_replay actor_id key h payload) db)
          at_k (received_again actor_id key c db found new payload h))
serve_again hash actor_id key (divides k payload) db new =
    let h = hash.of_split payload in
    missing_again k (splits_of k) actor_id key h (divide_or_replay actor_id key h payload) db
      (λ c found at_k.
        subst
          (λ j.
            with_commission j (splits_of j) actor_id key h (divide_or_replay actor_id key h payload)
              (with_commission j (splits_of j) actor_id key h
                (divide_or_replay actor_id key h payload) db).1
            ≡ with_commission j (splits_of j) actor_id key h
                (divide_or_replay actor_id key h payload) db)
          at_k (divided_again actor_id key c db found new payload h))
serve_again hash actor_id key (pays k split_id payload) db new =
    let h = hash.of_payment payload in
    missing_again k (mark_paid_of k split_id) actor_id key h
      (pay_or_replay actor_id key h split_id payload) db
      (λ c found at_k.
        subst
          (λ j.
            with_commission j (mark_paid_of j split_id) actor_id key h
              (pay_or_replay actor_id key h split_id payload)
              (with_commission j (mark_paid_of j split_id) actor_id key h
                (pay_or_replay actor_id key h split_id payload) db).1
            ≡ with_commission j (mark_paid_of j split_id) actor_id key h
                (pay_or_replay actor_id key h split_id payload) db)
          at_k (paid_again actor_id key c db found new split_id payload h))
