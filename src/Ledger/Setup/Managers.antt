-- ===== src/Ledger/Setup/Managers.antt =====
-- Who manages the books of an organization: the two checks of the caller in
-- `close_accounting_period` of app/financial_service.py.
use moneybee_backend.Base.{
  ℕ, ◌≡◌, refl, arith, true, Option, none, some, contains, Bool-cases, ◌⊎◌, inl, inr, ap, sym,
  subst, not, ◌&&◌, ◌||◌,
}
use moneybee_backend.Base.Action.{ok}
use moneybee_backend.Principal.{Principal}
use moneybee_backend.Ledger.Records.{LedgerDb}
use moneybee_backend.Ledger.Access.{
  has_permission, require_finance_permission, organization_of, active_organization,
}

-- The caller acts for the organization, and manages its books or may do all.
abbrev pub Manages : Principal → ℕ → Type 0
Manages principal o =
    (principal.active_organization_id ≡ some o)
    × ((has_permission principal "*" ≡ true)
        ⊎ ((has_permission principal "finance.manage" ≡ true)
            × (contains o principal.organization_ids ≡ true)))

organization_of-allowed :
    (principal : Principal) (active : Option ℕ) (o : ℕ) (db : LedgerDb)
    → organization_of principal active db ≡ (ok o, db)
    → (active ≡ some o)
      × ((has_permission principal "*" || contains o principal.organization_ids) ≡ true)
organization_of-allowed principal none o db h = cc
organization_of-allowed principal (some k) o db h =
    elim (Bool-cases
      (not (has_permission principal "*") && not (contains k principal.organization_ids))) [
        | inl denied ↦ cc (rw denied at h)
        | inr granted ↦
            let same : k ≡ o = cc (rw granted at h) in
            (
              ap some same,
              subst
                  (λ x.
                    (has_permission principal "*" || contains x principal.organization_ids) ≡ true)
                  same (ground arith),
            )
      ]

require_finance_permission-allowed :
    (principal : Principal) (db : LedgerDb)
    → require_finance_permission principal "finance.manage" db ≡ (ok tt, db)
    → (has_permission principal "*" || has_permission principal "finance.manage") ≡ true
unfolding require_finance_permission
require_finance_permission-allowed principal db h =
    elim (Bool-cases
      (not (has_permission principal "*") && not (has_permission principal "finance.manage"))) [
        | inl denied ↦ cc (rw denied at h)
        | inr granted ↦ ground arith
      ]

-- the two checks of the caller let through those who manage the organization
pub checked-Manages :
    (principal : Principal) (o : ℕ) (db : LedgerDb)
    → require_finance_permission principal "finance.manage" db ≡ (ok tt, db)
    → active_organization principal db ≡ (ok o, db)
    → Manages principal o
unfolding active_organization
checked-Manages principal o db permitted organization =
    let (active, member) =
      organization_of-allowed principal principal.active_organization_id o db organization in
    let may = require_finance_permission-allowed principal db permitted in
    (
      active,
      elim (Bool-cases (has_permission principal "*")) [
        | inl all ↦ inl all
        | inr some_only ↦ inr (ground arith, ground arith)
      ],
    )

member-organization_of :
    (principal : Principal) (o : ℕ) (db : LedgerDb)
    → (has_permission principal "*" || contains o principal.organization_ids) ≡ true
    → organization_of principal (some o) db ≡ (ok o, db)
member-organization_of principal o db h = elim (Bool-cases (has_permission principal "*")) [
  | inl all ↦ rw all refl
  | inr some_only ↦
      let member : contains o principal.organization_ids ≡ true = ground arith in
      rw (some_only, member) refl
]

pub Manages-active_organization :
    (principal : Principal) (o : ℕ) (db : LedgerDb)
    → Manages principal o
    → active_organization principal db ≡ (ok o, db)
unfolding active_organization
Manages-active_organization principal o db (active, allowed) =
    subst (λ x. organization_of principal x db ≡ (ok o, db)) (sym active)
      (member-organization_of principal o db (ground arith))

pub Manages-require_finance_permission :
    (principal : Principal) (o : ℕ) (db : LedgerDb)
    → Manages principal o
    → require_finance_permission principal "finance.manage" db ≡ (ok tt, db)
unfolding require_finance_permission
Manages-require_finance_permission principal o db (active, inl all) = rw all refl
Manages-require_finance_permission principal o db (active, inr (manage, member)) =
    elim (Bool-cases (has_permission principal "*")) [
      | inl all ↦ rw all refl
      | inr some_only ↦ rw (some_only, manage) refl
    ]
