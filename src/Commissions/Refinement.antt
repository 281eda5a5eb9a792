-- ===== src/Commissions/Refinement.antt =====
-- The commission routes of app/admin_routes.py against the account that a commission promises.
use moneybee_backend.Base.{All, ℕ, ◌≡◌, String, some, List, [], ◌∷◌, subst}
use moneybee_backend.Commissions.Rows.{CommissionDb, PayloadHash}
use moneybee_backend.Commissions.Requests.{Request, serve}
use moneybee_backend.Commissions.Serving.{serve_after}
use moneybee_backend.Commissions.Steps.{adjust-Moves, receive-Moves, divide-Moves, pay_found-Moves}
use moneybee_backend.Commissions.Whole.{rest_of, Solvent, Moves-Solvent}
use moneybee_backend.Commissions.Account.{
  Account, Moves, stays-Moves, account, Covers, Moves-Covers,
}

-- Any request to the four routes, whoever sends it, whatever the rows and the amounts are and however
-- the database rounds, leaves the account of any commission as it is, or changes it as the request
-- asks where the account allows that and the request is about this commission. A commission that is
-- not there stays away.
pub serve-Moves :
    (hash : PayloadHash) (actor_id key : String) (r : Request) (db : CommissionDb) (j : ℕ)
    → Moves r j (account j db) (account j (serve hash actor_id key r db).1)
serve-Moves hash actor_id key r db j =
    serve_after (λ q d. Moves q j (account j db) (account j d)) actor_id key db
      (λ q. stays-Moves q j (account j db))
      (λ h k payload c found its. adjust-Moves c db found actor_id key h payload k j its)
      (λ h k payload c found its. receive-Moves c db found actor_id key h payload k j its)
      (λ h k payload c found its. divide-Moves c db found actor_id key h payload k j its)
      (λ h k j' id payload o e. pay_found-Moves actor_id key h k j' id payload o db j) hash r

-- requests one after the other, each with its caller and its key
abbrev pub serve_all : PayloadHash → List (String × String × Request) → CommissionDb → CommissionDb
serve_all hash [] db = db
serve_all hash ((actor_id, key, r) ∷ rest) db = serve_all hash rest (serve hash actor_id key r db).1

-- A commission whose net amount covers what was received and what was divided is there and covered
-- after any sequence of requests by any callers, whatever the amounts are and however the database
-- rounds them.
pub serve_all-Covers :
    (hash : PayloadHash) (requests : List (String × String × Request)) (db : CommissionDb) (j : ℕ)
    (a : Account)
    → account j db ≡ some a
    → Covers a
    → (b : Account) × (account j (serve_all hash requests db) ≡ some b) × Covers b
serve_all-Covers hash [] db j a at_start covers = (a, at_start, covers)
serve_all-Covers hash ((actor_id, key, r) ∷ rest) db j a at_start covers =
    let db' = (serve hash actor_id key r db).1 in
    let (b, at_next, still) =
      Moves-Covers r j a (account j db') covers (
        subst (λ o. Moves r j o (account j db')) at_start (serve-Moves hash actor_id key r db j)) in
    serve_all-Covers hash rest db' j b at_next still

-- A solvent commission is there and solvent after any sequence of requests by any callers whose
-- amounts are whole cents: its net amount is positive and covers what was received and what was
-- divided, and its status says how much of the net amount was received.
pub serve_all-Solvent :
    (hash : PayloadHash) (requests : List (String × String × Request)) (db : CommissionDb) (j : ℕ)
    (a : Account)
    → All (λ q. rest_of q.2 ≡ 0) requests
    → account j db ≡ some a
    → Solvent a
    → (b : Account) × (account j (serve_all hash requests db) ≡ some b) × Solvent b
serve_all-Solvent hash [] db j a whole at_start solvent = (a, at_start, solvent)
serve_all-Solvent hash ((actor_id, key, r) ∷ rest) db j a whole at_start solvent =
    let db' = (serve hash actor_id key r db).1 in
    let (b, at_next, still) =
      Moves-Solvent r j a (account j db') whole.0 solvent (
        subst (λ o. Moves r j o (account j db')) at_start (serve-Moves hash actor_id key r db j)) in
    serve_all-Solvent hash rest db' j b whole.1 at_next still
