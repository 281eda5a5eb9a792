-- ===== src/Matching/Tests.antt =====
-- Runs of matching, and the theorems at concrete inputs.
use moneybee_backend.Base.{◌≡◌, refl, arith, true, false, none, some, [], ◌∷◌, ◌+◌}
use moneybee_backend.Principal.{Principal}
use moneybee_backend.Lifecycle.Status.{ApplicationStatus}
use moneybee_backend.Lifecycle.Db.{Application}
use moneybee_backend.Matching.{
  LenderProgram, MatchDb, revenue_below_minimum, state_not_supported, score, score_reasons,
  match_application, get_authorized_application,
}
use moneybee_backend.Matching.Scores.{Rates, score-Rates}
use moneybee_backend.Matching.Runs.{Runs, match_application-Runs}
use moneybee_backend.Matching.Owners.{Gets, get_authorized_application-Gets}

abbrev borrower : Principal
borrower = record {
  user_id = 3;
  issuer = "moneybee";
  subject = "borrower";
  organization_ids = 40 ∷ [];
  active_organization_id = some 40;
  roles = [];
  permissions = "application.read.own" ∷ [];
  membership_types = "BORROWER" ∷ [];
  borrower_id = some 40;
  lender_id = none;
  is_active = true;
}

abbrev application : Application
application = record {
  id = 7;
  lead_id = 3;
  borrower_subject = none;
  borrower_organization_id = some 40;
  requested_amount = 5000000;
  monthly_revenue = 2000000;
  time_in_business_months = 30;
  industry = none;
  state = some "NY";
  status = ApplicationStatus.ready_for_matching;
  version = 4;
}

abbrev program : LenderProgram
program = record {
  id = 6;
  lender_id = 5;
  min_amount = 1000000;
  max_amount = 9000000;
  minimum_monthly_revenue = 2500000;
  minimum_time_in_business_months = 12;
  states = "CA" ∷ [];
  excluded_industries = [];
  active = true;
  version = 2;
}

abbrev session : MatchDb
session = record {
  db = record {
    applications = application ∷ [];
    history = [];
    fundings = [];
    contracts = [];
    submissions = [];
    offers = [];
    conditions = [];
    renewals = [];
    audit = [];
    uuid4 = λ n. 100 + n;
    generated = 0;
  };
  programs = program ∷ [];
  matches = [];
}

score_run :
    score application program ≡ (false, 60, revenue_below_minimum ∷ state_not_supported ∷ [])
unfolding score score_reasons
score_run = refl

score-Rates_example : Rates application program (score application program)
score-Rates_example = score-Rates application program

match_application-Runs_example : Runs 8 application session (match_application 7 borrower session)
match_application-Runs_example =
    match_application-Runs 8 7 borrower application session refl (omega arith)

get_authorized_application-Gets_example :
    Gets 7 borrower false session (get_authorized_application 7 borrower false session)
get_authorized_application-Gets_example = get_authorized_application-Gets 7 borrower false session
