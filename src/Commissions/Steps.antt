-- ===== src/Commissions/Steps.antt =====
-- The steps of the commission routes of app/admin_routes.py against the account of a commission.
use moneybee_backend.Base.{
  ℕ, ◌+◌, ◌≡◌, refl, arith, String, Bool, true, false, Option, none, some, List, [], ◌∷◌, ◌++◌, map,
  row, put, row-put_self, row-put_ne, ◌==◌, ==_iff, ==_refl, Bool-cases, inl, inr, if_true,
  if_false, subst, sym, ap, ◌∙◌,
}
use moneybee_backend.Commissions.Cents.{net_with, sum_with, at_most, at_least, fits}
use moneybee_backend.Base.Int.{ℤ, pos, ◌+ℤ◌, +ℤ_assoc}
use moneybee_backend.Commissions.Rows.{
  CommissionStatus, Commission, CommissionAdjustment, CommissionSplit, CommissionDb,
  AdjustmentInput, ReceiptInput, SplitInput, PaymentInput, commission_row, net_expected_amount,
  adjustments_total, split_total,
}
use moneybee_backend.Commissions.Records.{new_id}
use moneybee_backend.Commissions.Amounts.{
  status_for, new_adjustment, store_adjustment, adjust, received_more, store_receipt, receive,
}
use moneybee_backend.Commissions.Shares.{
  new_split, store_split, divide, pay_row, pay_found, is_pending,
}
use moneybee_backend.Commissions.Requests.{Request, adjusts, receives, divides, pays, commission_of}
use moneybee_backend.Commissions.Totals.{adjustments_total-add, split_total-add, split_total-pay}
use moneybee_backend.Commissions.Account.{
  Account, change, allows, asked, Moves, stays-Moves, account, account_found,
}

change-Moves :
    (r : Request) (j : ℕ) (up : Bool) (a : Account) (before after : Option Account)
    → commission_of r ≡ j
    → before ≡ some a
    → allows (asked r up) a ≡ true
    → after ≡ some (change (asked r up) a)
    → Moves r j before after
change-Moves r j up a before after its e may e' =
    subst (λ o. Moves r j o after) (sym e) (inr (its, up, may, e'))

pub same-Moves :
    (r : Request) (j : ℕ) (before after : Option Account) → after ≡ before → Moves r j before after
same-Moves r j before after e = subst (λ o. Moves r j before o) (sym e) (stays-Moves r j before)

-- the account of a commission whose sums and row stay
account_same :
    (j : ℕ) (rows rows' : List CommissionAdjustment) (ss ss' : List CommissionSplit)
    (o o' : Option Commission)
    → adjustments_total j rows' ≡ adjustments_total j rows
    → split_total j ss' ≡ split_total j ss
    → o' ≡ o
    → account_found j rows' ss' o' ≡ account_found j rows ss o
account_same j rows rows' ss ss' none o' net shares row = rw row refl
account_same j rows rows' ss ss' (some c) o' net shares row = rw (row, net, shares) refl

module _ (c : Commission) (db : CommissionDb)
    (found : commission_row c.id db.commissions ≡ some c) where
  abbrev pub stands : Account
  stands = record {
    net = net_expected_amount db c;
    received_amount = c.received_amount;
    shares = split_total c.id db.splits;
    status = c.status;
  }

  adjusted_to : ℤ → CommissionStatus → Account
  adjusted_to net status = record {
    net = net;
    received_amount = c.received_amount;
    shares = split_total c.id db.splits;
    status = status;
  }

  pub before : account c.id db ≡ some stands
  before = ap (account_found c.id db.adjustments db.splits) found

  -- it is enough to look at the commission itself where the others stay
  at_every :
      (r : Request) (db' : CommissionDb)
      → Moves r c.id (account c.id db) (account c.id db')
      → ((j : ℕ) → (c.id == j) ≡ false → account j db' ≡ account j db)
      → (j : ℕ) → Moves r j (account j db) (account j db')
  at_every r db' here others j = elim (Bool-cases (c.id == j)) [
    | inl same ↦ subst (λ k. Moves r k (account k db) (account k db')) ((==_iff c.id j).0 same) here
    | inr other ↦ same-Moves r j (account j db) (account j db') (others j other)
  ]

  put_here :
      (c' : Commission)
      → c'.id ≡ c.id
      → commission_row c.id (put (λ (x : Commission). x.id) c' db.commissions) ≡ some c'
  put_here c' same =
      let key : Commission → ℕ = λ x. x.id in
      subst (λ k. commission_row k (put key c' db.commissions) ≡ some c') same
        (row-put_self key c' c db.commissions
          (subst (λ k. commission_row k db.commissions ≡ some c) (sym same) found))

  put_elsewhere :
      (c' : Commission) (j : ℕ)
      → c'.id ≡ c.id
      → (c.id == j) ≡ false
      → commission_row j (put (λ (x : Commission). x.id) c' db.commissions)
        ≡ commission_row j db.commissions
  put_elsewhere c' j same other =
      row-put_ne (λ (x : Commission). x.id) c' j db.commissions (λ e. ground arith)

  -- the account after a receipt that is stored
  pub receipt_stored :
      (actor_id key request_hash : String) (payload : ReceiptInput) (k : ℕ)
      → account c.id (store_receipt actor_id key request_hash c payload db).1
        ≡ some (
            change
              (asked
                (receives k payload)
                (db.rounds_up (pos (c.received_amount + payload.amount.cents)) payload.amount.rest))
              stands)
  receipt_stored actor_id key request_hash payload k =
      let total = sum_with c.received_amount payload.amount in
      let up = db.rounds_up (pos total.cents) total.rest in
      ap (account_found c.id db.adjustments db.splits)
        (put_here (received_more up payload.amount (net_expected_amount db c) c) refl)

  pub receive-Moves :
      (actor_id key request_hash : String) (payload : ReceiptInput) (k j : ℕ)
      → k ≡ c.id
      → Moves
          (receives k payload)
          j
          (account j db)
          (account j (receive actor_id key request_hash c payload db).1)
  unfolding receive
  receive-Moves actor_id key request_hash payload k j its =
      let net = net_expected_amount db c in
      let total = sum_with c.received_amount payload.amount in
      let up = db.rounds_up (pos total.cents) total.rest in
      let c' = received_more up payload.amount net c in
      elim (Bool-cases (fits (sum_with c.received_amount payload.amount) net)) [
        | inr refused ↦ rw refused (stays-Moves (receives k payload) j (account j db))
        | inl may ↦ rw may (
            at_every (receives k payload) (store_receipt actor_id key request_hash c payload db).1
              (change-Moves (receives k payload) c.id up stands (account c.id db) _ its before may
                (receipt_stored actor_id key request_hash payload k))
              (λ i other.
                ap (account_found i db.adjustments db.splits) (put_elsewhere c' i refl other))
              j)
      ]

  -- the account after an adjustment that is stored
  pub adjustment_stored :
      (actor_id key request_hash : String) (payload : AdjustmentInput) (k : ℕ)
      → account c.id
          (store_adjustment actor_id key request_hash c payload
            (net_with (net_expected_amount db c) payload.amount)
            db).1
        ≡ some (
            change
              (asked (adjusts k payload) (db.rounds_up payload.amount.cents payload.amount.rest))
              stands)
  unfolding adjusted_to
  adjustment_stored actor_id key request_hash payload k =
      let net = net_with (net_expected_amount db c) payload.amount in
      let up = db.rounds_up payload.amount.cents payload.amount.rest in
      let a = new_adjustment actor_id (new_id db) c.id up payload in
      let c' : Commission = record c { status = status_for c.received_amount net } in
      let old = adjustments_total c.id db.adjustments in
      let sum : adjustments_total c.id (db.adjustments ++ a ∷ []) ≡ old +ℤ a.amount =
        adjustments_total-add c.id a db.adjustments
        ∙ if_true (old +ℤ a.amount) old (==_refl c.id) in
      account_same c.id (db.adjustments ++ a ∷ []) (db.adjustments ++ a ∷ []) db.splits db.splits
        (some c') _ refl refl (put_here c' refl)
      ∙ ap (λ n. some (adjusted_to n c'.status))
          (ap (λ m. pos c.expected_amount +ℤ m) sum
            ∙ sym (+ℤ_assoc (pos c.expected_amount) old a.amount))

  pub adjust-Moves :
      (actor_id key request_hash : String) (payload : AdjustmentInput) (k j : ℕ)
      → k ≡ c.id
      → Moves
          (adjusts k payload)
          j
          (account j db)
          (account j (adjust actor_id key request_hash c payload db).1)
  unfolding adjust
  adjust-Moves actor_id key request_hash payload k j its =
      let net = net_with (net_expected_amount db c) payload.amount in
      let up = db.rounds_up payload.amount.cents payload.amount.rest in
      let a = new_adjustment actor_id (new_id db) c.id up payload in
      let c' : Commission = record c { status = status_for c.received_amount net } in
      elim (Bool-cases (at_most net (pos 0))) [
        | inl empty ↦ rw empty (stays-Moves (adjusts k payload) j (account j db))
        | inr positive ↦ elim (Bool-cases (at_least net (pos c.received_amount))) [
          | inr short ↦ rw (positive, short) (stays-Moves (adjusts k payload) j (account j db))
          | inl covers ↦ elim (Bool-cases (at_least net (pos (split_total c.id db.splits)))) [
            | inr short ↦
                rw (positive, covers, short) (stays-Moves (adjusts k payload) j (account j db))
            | inl shares ↦
                rw (positive, covers, shares)
                  (at_every (adjusts k payload)
                    (store_adjustment actor_id key request_hash c payload net db).1
                    (change-Moves (adjusts k payload) c.id up stands (account c.id db) _ its before
                      (rw (positive, covers, shares) refl)
                      (adjustment_stored actor_id key request_hash payload k))
                    (λ i other.
                      account_same i db.adjustments (db.adjustments ++ a ∷ []) db.splits db.splits
                        (commission_row i db.commissions) _
                        (adjustments_total-add i a db.adjustments ∙ if_false _ _ other) refl
                        (put_elsewhere c' i refl other))
                    j)
          ]
        ]
      ]

  -- the account after a share that is stored
  pub split_stored :
      (actor_id key request_hash : String) (payload : SplitInput) (k : ℕ)
      → account c.id (store_split actor_id key request_hash c payload db).1
        ≡ some (
            change
              (asked
                (divides k payload)
                (db.rounds_up (pos payload.amount.cents) payload.amount.rest))
              stands)
  split_stored actor_id key request_hash payload k =
      let s = new_split (new_id db) c.id db.rounds_up payload in
      let old = split_total c.id db.splits in
      let sum : split_total c.id (db.splits ++ s ∷ []) ≡ old + s.amount =
        split_total-add c.id s db.splits ∙ if_true (old + s.amount) old (==_refl c.id) in
      account_same c.id db.adjustments db.adjustments (db.splits ++ s ∷ []) (db.splits ++ s ∷ [])
        (some c) _ refl refl found
      ∙ ap (λ n. some (record stands { shares = n })) sum

  pub divide-Moves :
      (actor_id key request_hash : String) (payload : SplitInput) (k j : ℕ)
      → k ≡ c.id
      → Moves
          (divides k payload)
          j
          (account j db)
          (account j (divide actor_id key request_hash c payload db).1)
  unfolding divide
  divide-Moves actor_id key request_hash payload k j its =
      let net = net_expected_amount db c in
      let s = new_split (new_id db) c.id db.rounds_up payload in
      let old = split_total c.id db.splits in
      let up = db.rounds_up (pos payload.amount.cents) payload.amount.rest in
      elim (Bool-cases (fits (sum_with old payload.amount) net)) [
        | inr refused ↦ rw refused (stays-Moves (divides k payload) j (account j db))
        | inl may ↦ rw may (
            at_every (divides k payload) (store_split actor_id key request_hash c payload db).1
              (change-Moves (divides k payload) c.id up stands (account c.id db) _ its before may
                (split_stored actor_id key request_hash payload k))
              (λ i other.
                account_same i db.adjustments db.adjustments db.splits (db.splits ++ s ∷ [])
                  (commission_row i db.commissions) _ refl
                  (split_total-add i s db.splits ∙ if_false _ _ other) refl)
              j)
      ]

pub pay_found-Moves :
    (actor_id key request_hash : String) (k j' id : ℕ) (payload : PaymentInput)
    (o : Option CommissionSplit) (db : CommissionDb) (j : ℕ)
    → Moves
        (pays k id payload)
        j
        (account j db)
        (account j (pay_found actor_id key request_hash j' payload o db).1)
pay_found-Moves actor_id key request_hash k j' id payload none db j =
    stays-Moves (pays k id payload) j (account j db)
pay_found-Moves actor_id key request_hash k j' id payload (some s) db j =
    elim (Bool-cases (is_pending s.status)) [
      | inr not_pending ↦ rw not_pending (stays-Moves (pays k id payload) j (account j db))
      | inl open_yet ↦ rw open_yet (
          same-Moves (pays k id payload) j (account j db) _ (
            account_same j db.adjustments db.adjustments db.splits
              (map (pay_row s.id payload) db.splits) (commission_row j db.commissions) _ refl
              (split_total-pay j s.id payload db.splits) refl))
    ]
