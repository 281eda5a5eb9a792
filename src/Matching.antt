-- ===== src/Matching.antt =====
-- Matching an application with the programs of lenders and who may see it: `score`, `match`,
-- `authorize_application` and `get_authorized_application` of app/services.py. Amounts are in cents.
pub mod Scores
pub mod Runs
pub mod Owners
mod Tests
use moneybee_backend.Base.{
  ℕ, ◌-◌, ◌*◌, String, Bool, true, false, not, ◌&&◌, Option, none, some, List, [], ◌∷◌, ◌++◌, map,
  filter, equal, mem?, length, ltb, ◌==◌, if◌then◌else◌,
}
use moneybee_backend.Base.Text.{String-discrete}
use moneybee_backend.Base.Action.{
  Action, Result, ok, err, pure, raise, ◌>>=◌, ◌>>◌, gets, modify, or_raise,
}
use moneybee_backend.Principal.{Principal}
use moneybee_backend.Lifecycle.Status.{ApplicationStatus}
use moneybee_backend.Lifecycle.Db.{Application, Db, Service, Problem, get_application}
use moneybee_backend.Lifecycle.Application.{transition_application}

pub record LenderProgram : Type 0 where
  pub id : ℕ
  pub lender_id : ℕ
  pub min_amount : ℕ
  pub max_amount : ℕ
  pub minimum_monthly_revenue : ℕ
  pub minimum_time_in_business_months : ℕ
  pub states : List String
  pub excluded_industries : List String
  pub active : Bool
  pub version : ℕ

pub data Reason : Type 0 where
  request_below_minimum request_above_maximum revenue_below_minimum : Reason
  time_in_business_below_minimum state_not_supported industry_excluded : Reason

pub record ApplicationMatch : Type 0 where
  pub application_id : ℕ
  pub lender_id : ℕ
  pub program_id : ℕ
  pub eligible : Bool
  pub score : ℕ
  pub reasons : List Reason
  pub program_version : ℕ

-- the session of the lifecycle services with the two tables of matching
pub record MatchDb : Type 0 where
  pub db : Db
  pub programs : List LenderProgram
  pub matches : List ApplicationMatch

pub data MatchProblem : Type 0 where
  application_not_found resource_access_denied : MatchProblem
  refused : Problem → MatchProblem

abbrev pub MatchAction : Type 0 → Type 0
MatchAction A = Action MatchDb MatchProblem A

abbrev pub reason_if : Bool → Reason → List Reason
reason_if true reason = reason ∷ []
reason_if false reason = []

abbrev pub is_empty : List String → Bool
is_empty [] = true
is_empty (_ ∷ _) = false

-- `text and test(text)`: an absent or an empty text is false
abbrev pub given : Option String → (String → Bool) → Bool
given none test = false
given (some text) test = not (equal String-discrete text "") && test text

abbrev pub state_missing : Application → LenderProgram → Bool
state_missing application program =
    given application.state
      (λ state. not (is_empty program.states) && not (mem? String-discrete state program.states))

abbrev pub industry_out : Application → LenderProgram → Bool
industry_out application program =
    given application.industry
      (λ industry. mem? String-discrete industry program.excluded_industries)

unfoldable pub score_reasons : Application → LenderProgram → List Reason
score_reasons application program =
    reason_if (ltb application.requested_amount program.min_amount) request_below_minimum
    ++ reason_if (ltb program.max_amount application.requested_amount) request_above_maximum
    ++ reason_if (ltb application.monthly_revenue program.minimum_monthly_revenue)
        revenue_below_minimum
    ++ reason_if (ltb application.time_in_business_months program.minimum_time_in_business_months)
        time_in_business_below_minimum
    ++ reason_if (state_missing application program) state_not_supported
    ++ reason_if (industry_out application program) industry_excluded

abbrev pub no_reasons : List Reason → Bool
no_reasons [] = true
no_reasons (_ ∷ _) = false

-- The subtraction stops at zero, as the source's `max` makes it.
unfoldable pub score : Application → LenderProgram → Bool × ℕ × List Reason
score application program =
    let reasons = score_reasons application program in
    (no_reasons reasons, 100 - length reasons * 20, reasons)

abbrev pub match_row : Application → LenderProgram → ApplicationMatch
match_row application program = record {
  application_id = application.id;
  lender_id = program.lender_id;
  program_id = program.id;
  eligible = (score application program).0;
  score = (score application program).1;
  reasons = (score application program).2;
  program_version = program.version;
}

-- the loop over the programs
unfoldable pub match_rows : Application → List LenderProgram → List ApplicationMatch
match_rows application [] = []
match_rows application (program ∷ rest) =
    match_row application program ∷ match_rows application rest

abbrev pub active_programs : MatchDb → List LenderProgram
active_programs db = filter (λ (p : LenderProgram). p.active) db.programs

unfoldable pub without_matches : ℕ → List ApplicationMatch → List ApplicationMatch
without_matches id rows = filter (λ (r : ApplicationMatch). not (r.application_id == id)) rows

abbrev pub replace_matches : Application → MatchDb → MatchDb
replace_matches application db = record db {
  matches =
      without_matches application.id db.matches ++ match_rows application (active_programs db);
}

abbrev pub lifted : {A : Type 0} → MatchDb → Result Problem A × Db → Result MatchProblem A × MatchDb
lifted s (ok a, db) = (ok a, record s { db = db })
lifted s (err x, db) = (err (refused x), record s { db = db })

-- a lifecycle service in the session with matches
abbrev pub in_session : {A : Type 0} → Service A → MatchAction A
in_session m s = lifted s (m s.db)

abbrev pub match_found : Application → Principal → MatchAction (List ApplicationMatch)
match_found application principal s =
    (modify (replace_matches application)
        >> in_session (
            transition_application application ApplicationStatus.matched principal
              (some "Explainable matching completed"))
        >> pure (match_rows application (active_programs s)))
      s

unfoldable pub match_application : ℕ → Principal → MatchAction (List ApplicationMatch)
match_application application_id principal = do
  found ← gets (λ s. get_application application_id s.db)
  application ← or_raise found application_not_found
  match_found application principal

abbrev pub holds : String → List String → Bool
holds permission permissions = mem? String-discrete permission permissions

-- `application.borrower_subject == principal.subject`
abbrev pub same_subject : Option String → String → Bool
same_subject none subject = false
same_subject (some s) subject = equal String-discrete s subject

abbrev pub broad : Bool → String
broad true = "application.edit"
broad false = "application.read"

abbrev pub own : Bool → String
own true = "application.edit.own"
own false = "application.read.own"

abbrev pub owned_by : Application → Principal → ℕ → Option ℕ → Bool
owned_by application principal borrower_id (some organization_id) = organization_id == borrower_id
owned_by application principal borrower_id none =
    same_subject application.borrower_subject principal.subject

abbrev pub is_owner : Application → Principal → Option ℕ → Bool
is_owner application principal none = false
is_owner application principal (some borrower_id) =
    owned_by application principal borrower_id application.borrower_organization_id

unfoldable pub authorize_application : Application → Principal → Bool → MatchAction (Unit {0})
authorize_application application principal write =
    if holds "*" principal.permissions
    then pure tt
    else if holds (broad write) principal.permissions && holds "MONEYBEE" principal.membership_types
    then pure tt
    else if holds (own write) principal.permissions
        && is_owner application principal principal.borrower_id
    then pure tt
    else raise resource_access_denied

unfoldable pub get_authorized_application : ℕ → Principal → Bool → MatchAction Application
get_authorized_application application_id principal write = do
  found ← gets (λ s. get_application application_id s.db)
  application ← or_raise found application_not_found
  authorize_application application principal write
  pure application
