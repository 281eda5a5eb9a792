-- ===== src/Commissions/Payouts.antt =====
-- Splits that were marked as paid, under the requests to the commission routes of app/admin_routes.py.
use moneybee_backend.Base.{
  ℕ, ◌≡◌, refl, arith, String, false, Option, none, some, List, [], ◌∷◌, ◌++◌, map, key-row, ◌==◌,
  ==_iff, Bool-cases, Option-cases, inl, inr, subst, sym, ap, ◌∙◌,
}
use moneybee_backend.Commissions.Cents.{net_with, sum_with, at_most, at_least, fits}
use moneybee_backend.Base.Int.{pos}
use moneybee_backend.Commissions.Rows.{
  Commission, CommissionSplit, CommissionDb, AdjustmentInput, ReceiptInput, SplitInput,
  PaymentInput, PayloadHash, split_row, net_expected_amount, split_total,
}
use moneybee_backend.Commissions.Records.{new_id}
use moneybee_backend.Commissions.Amounts.{adjust, receive}
use moneybee_backend.Commissions.Shares.{
  new_split, divide, pay_row, pay_found, split_of, is_pending,
}
use moneybee_backend.Commissions.Requests.{Request, serve}
use moneybee_backend.Commissions.Serving.{serve_after}
use moneybee_backend.Commissions.Refinement.{serve_all}

row-add :
    (j : ℕ) (s t : CommissionSplit) (rows : List CommissionSplit)
    → split_row j rows ≡ some s
    → split_row j (rows ++ t ∷ []) ≡ some s
row-add j s t [] h = cc
row-add j s t (r ∷ rows) h = elim (Bool-cases (r.id == j)) [
  | inl here ↦ rw here (rw here at h)
  | inr other ↦ rw other (row-add j s t rows (rw other at h))
]

row-pay :
    (j id : ℕ) (payload : PaymentInput) (rows : List CommissionSplit)
    → (j == id) ≡ false
    → split_row j (map (pay_row id payload) rows) ≡ split_row j rows
row-pay j id payload [] other = refl
row-pay j id payload (r ∷ rows) other =
    let rest = row-pay j id payload rows other in
    elim (Bool-cases (r.id == id)) [
      | inr apart ↦ rw (apart, rest) refl
      | inl hit ↦ let elsewhere : (r.id == j) ≡ false = ground arith in rw (hit, elsewhere) rest
    ]

split_of_row :
    (k id : ℕ) (t : CommissionSplit) (rows : List CommissionSplit)
    → split_of k (split_row id rows) ≡ some t
    → split_row t.id rows ≡ some t
split_of_row k id t rows e = elim (Option-cases (split_row id rows)) [
  | inl missing ↦ cc (rw missing at e)
  | inr (u, found) ↦ elim (Bool-cases (u.commission_id == k)) [
    | inr other ↦ cc (rw (found, other) at e)
    | inl mine ↦
        let u_is_t : u ≡ t = cc (rw (found, mine) at e) in
        let at_id = key-row (λ (x : CommissionSplit). x.id) id u rows found in
        subst (λ (x : CommissionSplit). split_row x.id rows ≡ some x) u_is_t
          (subst (λ i. split_row i rows ≡ some u) (sym at_id) found)
  ]
]

module _ (j : ℕ) (s : CommissionSplit) (is_paid : is_pending s.status ≡ false) where
  -- the split stands as it was
  abbrev Stands : CommissionDb → Type 0
  Stands db = split_row j db.splits ≡ some s

  adjust-Stands :
      (actor_id key request_hash : String) (payload : AdjustmentInput) (c : Commission)
      (db : CommissionDb)
      → Stands db
      → Stands (adjust actor_id key request_hash c payload db).1
  unfolding adjust
  adjust-Stands actor_id key request_hash payload c db h =
      let net = net_with (net_expected_amount db c) payload.amount in
      elim (Bool-cases (at_most net (pos 0))) [
        | inl empty ↦ rw empty h
        | inr positive ↦ elim (Bool-cases (at_least net (pos c.received_amount))) [
          | inr short ↦ rw (positive, short) h
          | inl covers ↦ elim (Bool-cases (at_least net (pos (split_total c.id db.splits)))) [
            | inr short ↦ rw (positive, covers, short) h
            | inl shares ↦ rw (positive, covers, shares) h
          ]
        ]
      ]

  receive-Stands :
      (actor_id key request_hash : String) (payload : ReceiptInput) (c : Commission)
      (db : CommissionDb)
      → Stands db
      → Stands (receive actor_id key request_hash c payload db).1
  unfolding receive
  receive-Stands actor_id key request_hash payload c db h =
      elim (Bool-cases
        (fits (sum_with c.received_amount payload.amount) (net_expected_amount db c))) [
          | inl may ↦ rw may h
          | inr refused ↦ rw refused h
        ]

  divide-Stands :
      (actor_id key request_hash : String) (payload : SplitInput) (c : Commission)
      (db : CommissionDb)
      → Stands db
      → Stands (divide actor_id key request_hash c payload db).1
  unfolding divide
  divide-Stands actor_id key request_hash payload c db h =
      elim (Bool-cases
        (fits (sum_with (split_total c.id db.splits) payload.amount) (net_expected_amount db c))) [
          | inl may ↦
              rw may (row-add j s (new_split (new_id db) c.id db.rounds_up payload) db.splits h)
          | inr refused ↦ rw refused h
        ]

  pay_found-Stands :
      (actor_id key request_hash : String) (k id : ℕ) (payload : PaymentInput)
      (o : Option CommissionSplit) (db : CommissionDb)
      → split_of k (split_row id db.splits) ≡ o
      → Stands db
      → Stands (pay_found actor_id key request_hash k payload o db).1
  pay_found-Stands actor_id key request_hash k id payload none db e h = h
  pay_found-Stands actor_id key request_hash k id payload (some t) db e h =
      elim (Bool-cases (is_pending t.status)) [
        | inr not_pending ↦ rw not_pending h
        | inl open_yet ↦ elim (Bool-cases (j == t.id)) [
          | inr apart ↦ rw open_yet (row-pay j t.id payload db.splits apart ∙ h)
          | inl same ↦
              let row_t = split_of_row k id t db.splits e in
              let t_is_s : t ≡ s =
                cc (
                  sym row_t ∙ ap (λ i. split_row i db.splits) (sym ((==_iff j t.id).0 same)) ∙ h) in
              cc (
                sym open_yet
                ∙ subst (λ (x : CommissionSplit). is_pending x.status ≡ false) (sym t_is_s) is_paid)
        ]
      ]

  serve-Stands :
      (hash : PayloadHash) (actor_id key : String) (r : Request) (db : CommissionDb)
      → Stands db
      → Stands (serve hash actor_id key r db).1
  serve-Stands hash actor_id key r db stands =
      serve_after (λ r. Stands) actor_id key db (λ r. stands)
        (λ h k payload c found its. adjust-Stands actor_id key h payload c db stands)
        (λ h k payload c found its. receive-Stands actor_id key h payload c db stands)
        (λ h k payload c found its. divide-Stands actor_id key h payload c db stands)
        (λ h k j' id payload o e. pay_found-Stands actor_id key h j' id payload o db e stands) hash
        r

  serve_all-Stands :
      (hash : PayloadHash) (requests : List (String × String × Request)) (db : CommissionDb)
      → Stands db
      → Stands (serve_all hash requests db)
  serve_all-Stands hash [] db h = h
  serve_all-Stands hash ((actor_id, key, r) ∷ rest) db h =
      serve_all-Stands hash rest (serve hash actor_id key r db).1
        (serve-Stands hash actor_id key r db h)

-- A split that is no longer pending stands as it is, with its evidence of payment, after any sequence of
-- requests to the four routes by any callers.
pub serve_all-paid :
    (hash : PayloadHash) (requests : List (String × String × Request)) (db : CommissionDb) (j : ℕ)
    (s : CommissionSplit)
    → split_row j db.splits ≡ some s
    → is_pending s.status ≡ false
    → split_row j (serve_all hash requests db).splits ≡ some s
serve_all-paid hash requests db j s stands is_paid =
    serve_all-Stands j s is_paid hash requests db stands
