-- ===== src/Commissions/First.antt =====
-- A request to the commission routes of app/admin_routes.py that no stored record answers.
use moneybee_backend.Base.{
  ℕ, ◌≡◌, refl, String, Bool, true, false, Option, none, some, key-row, Bool-cases, Option-cases,
  inl, inr, subst, sym, ◌∙◌, not,
}
use moneybee_backend.Base.Int.{pos}
use moneybee_backend.Base.Action.{Result, ok, err, ◌>>=◌, >>=-of_ok}
use moneybee_backend.Commissions.Cents.{net_with, sum_with, at_most, at_least, fits}
use moneybee_backend.Commissions.Rows.{
  Commission, CommissionDb, CommissionRoute, CommissionRecord, CommissionProblem, CommissionAction,
  Response, PayloadHash, AdjustmentInput, ReceiptInput, SplitInput, load_commission, commission_row,
  net_expected_amount, split_total, adjustments_of, receipts_of, splits_of, mark_paid_of,
}
use moneybee_backend.Commissions.Records.{record_for, idempotency_replay, with_commission}
use moneybee_backend.Commissions.Amounts.{
  adjust, receive, is_zero, create_commission_adjustment, record_commission_receipt,
  adjust_or_replay, receive_or_replay,
}
use moneybee_backend.Commissions.Shares.{divide, divide_or_replay, create_commission_split}
use moneybee_backend.Commissions.Requests.{
  Request, adjusts, receives, divides, pays, commission_of, serve,
}
use moneybee_backend.Commissions.Account.{Account, Change, change, allows, asked, account}
use moneybee_backend.Commissions.Steps.{
  stands, before, adjustment_stored, receipt_stored, split_stored,
}

-- The answer to a request for a change of the account of the commission `k`: it is made if it is
-- allowed, and otherwise refused and the account stays.
abbrev pub Decides :
    (Bool → Change) → Account → ℕ → Result CommissionProblem Response × CommissionDb → Type 0
Decides asks a k (ok x, db') =
    (up : Bool) × (allows (asks up) a ≡ true) × (account k db' ≡ some (change (asks up) a))
Decides asks a k (err x, db') =
    ((up : Bool) → allows (asks up) a ≡ false) × (account k db' ≡ some a)

module _ (c : Commission) (db : CommissionDb)
    (found : commission_row c.id db.commissions ≡ some c) where
  receive-Decides :
      (actor_id key h : String) (payload : ReceiptInput) (k : ℕ)
      → Decides
          (asked (receives k payload))
          (stands c db found)
          c.id
          (receive actor_id key h c payload db)
  unfolding receive
  receive-Decides actor_id key h payload k =
      elim (Bool-cases
        (fits (sum_with c.received_amount payload.amount) (net_expected_amount db c))) [
          | inl may ↦ rw may (_, may, receipt_stored c db found actor_id key h payload k)
          | inr refused ↦ rw refused ((λ up. refused), before c db found)
        ]

  divide-Decides :
      (actor_id key h : String) (payload : SplitInput) (k : ℕ)
      → Decides
          (asked (divides k payload))
          (stands c db found)
          c.id
          (divide actor_id key h c payload db)
  unfolding divide
  divide-Decides actor_id key h payload k =
      elim (Bool-cases
        (fits (sum_with (split_total c.id db.splits) payload.amount) (net_expected_amount db c))) [
          | inl may ↦ rw may (_, may, split_stored c db found actor_id key h payload k)
          | inr refused ↦ rw refused ((λ up. refused), before c db found)
        ]

  adjust-Decides :
      (actor_id key h : String) (payload : AdjustmentInput) (k : ℕ)
      → Decides
          (asked (adjusts k payload))
          (stands c db found)
          c.id
          (adjust actor_id key h c payload db)
  unfolding adjust
  adjust-Decides actor_id key h payload k =
      let net = net_with (net_expected_amount db c) payload.amount in
      elim (Bool-cases (at_most net (pos 0))) [
        | inl empty ↦ rw empty ((λ up. rw empty refl), before c db found)
        | inr positive ↦ elim (Bool-cases (at_least net (pos c.received_amount))) [
          | inr short ↦ rw (positive, short) ((λ up. rw (positive, short) refl), before c db found)
          | inl covers ↦ elim (Bool-cases (at_least net (pos (split_total c.id db.splits)))) [
            | inr short ↦
                rw (positive, covers, short)
                  ((λ up. rw (positive, covers, short) refl), before c db found)
            | inl shares ↦
                rw (positive, covers, shares)
                  (
                    _,
                    rw (positive, covers, shares) refl,
                    adjustment_stored c db found actor_id key h payload k,
                  )
          ]
        ]
      ]

-- the part that the routes share, where no record is stored
with_commission_first :
    (k : ℕ) (route : CommissionRoute) (actor_id key h : String)
    (rest : Commission → Option CommissionRecord → CommissionAction Response) (db : CommissionDb)
    (c : Commission)
    → commission_row k db.commissions ≡ some c
    → record_for actor_id route key db.records ≡ none
    → with_commission k route actor_id key h rest db ≡ rest c none db
unfolding with_commission
with_commission_first k route actor_id key h rest db c found first =
    let then_record : Commission → CommissionAction Response =
      λ x. idempotency_replay route actor_id key h >>= rest x in
    >>=-of_ok (load_commission k) then_record db (rw found refl)
    ∙ >>=-of_ok (idempotency_replay route actor_id key h) (rest c) db (rw first refl)

-- An account is that of a row.
account_row :
    (k : ℕ) (db : CommissionDb) (a : Account)
    → account k db ≡ some a
    → (c : Commission) × (commission_row k db.commissions ≡ some c)
account_row k db a at = elim (Option-cases (commission_row k db.commissions)) [
  | inl missing ↦ cc (rw missing at at)
  | inr (c, found) ↦ (c, found)
]

-- from the commission that is found to the id that was asked for
first-Decides :
    (asks : Bool → Change) (a : Account) (k : ℕ) (route : CommissionRoute) (actor_id key h : String)
    (rest : Commission → Option CommissionRecord → CommissionAction Response) (db : CommissionDb)
    → record_for actor_id route key db.records ≡ none
    → account k db ≡ some a
    → ((c : Commission) (found : commission_row c.id db.commissions ≡ some c)
        → Decides asks (stands c db found) c.id (rest c none db))
    → Decides asks a k (with_commission k route actor_id key h rest db)
first-Decides asks a k route actor_id key h rest db first at decided =
    let (c, found) = account_row k db a at in
    let same_id = key-row (λ (x : Commission). x.id) k c db.commissions found in
    let found' = subst (λ j. commission_row j db.commissions ≡ some c) (sym same_id) found in
    let at' = subst (λ j. account j db ≡ some a) (sym same_id) at in
    let same_a : stands c db found' ≡ a = cc (sym (before c db found') ∙ at') in
    subst (Decides asks a k)
      (sym (with_commission_first k route actor_id key h rest db c found first))
      (subst (λ b. Decides asks b k (rest c none db)) same_a
        (subst (λ j. Decides asks (stands c db found') j (rest c none db)) same_id
          (decided c found')))

-- the route of a request
abbrev pub route_of : Request → CommissionRoute
route_of (adjusts k payload) = adjustments_of k
route_of (receives k payload) = receipts_of k
route_of (divides k payload) = splits_of k
route_of (pays k split_id payload) = mark_paid_of k split_id

-- a request for an adjustment that is not zero, a receipt or a share
abbrev pub asks_for_change : Request → Bool
asks_for_change (adjusts k payload) = not (is_zero payload.amount)
asks_for_change (receives k payload) = true
asks_for_change (divides k payload) = true
asks_for_change (pays k split_id payload) = false

-- With no stored record for the caller's key, a request for a receipt, a share or an adjustment other
-- than zero of a commission that is there is carried out exactly if the account allows it: it
-- succeeds and the account has changed as asked, or it is refused and the account stays.
pub serve-Decides :
    (hash : PayloadHash) (actor_id key : String) (r : Request) (db : CommissionDb) (a : Account)
    → record_for actor_id (route_of r) key db.records ≡ none
    → asks_for_change r ≡ true
    → account (commission_of r) db ≡ some a
    → Decides (asked r) a (commission_of r) (serve hash actor_id key r db)
unfolding serve create_commission_adjustment record_commission_receipt create_commission_split
serve-Decides hash actor_id key (adjusts k payload) db a first some_change at =
    let h = hash.of_adjustment payload in
    rw some_change (
      first-Decides (asked (adjusts k payload)) a k (adjustments_of k) actor_id key h
        (adjust_or_replay actor_id key h payload) db first at
        (λ c found. adjust-Decides c db found actor_id key h payload k))
serve-Decides hash actor_id key (receives k payload) db a first some_change at =
    let h = hash.of_receipt payload in
    first-Decides (asked (receives k payload)) a k (receipts_of k) actor_id key h
      (receive_or_replay actor_id key h payload) db first at
      (λ c found. receive-Decides c db found actor_id key h payload k)
serve-Decides hash actor_id key (divides k payload) db a first some_change at =
    let h = hash.of_split payload in
    first-Decides (asked (divides k payload)) a k (splits_of k) actor_id key h
      (divide_or_replay actor_id key h payload) db first at
      (λ c found. divide-Decides c db found actor_id key h payload k)
serve-Decides hash actor_id key (pays k split_id payload) db a first some_change at = cc
