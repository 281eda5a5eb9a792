-- ===== src/Principal.antt =====
-- The authenticated caller, `Principal` of app/auth.py. Roles are kept as names, ids as numbers.
use moneybee_backend.Base.{ℕ, String, Bool, Option, List}

pub record Principal : Type 0 where
  pub user_id : ℕ
  pub issuer : String
  pub subject : String
  pub organization_ids : List ℕ
  pub active_organization_id : Option ℕ
  pub roles : List String
  pub permissions : List String
  pub membership_types : List String
  pub borrower_id : Option ℕ
  pub lender_id : Option ℕ
  pub is_active : Bool
