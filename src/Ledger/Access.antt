-- ===== src/Ledger/Access.antt =====
-- Who may use the ledger: `require_finance_permission`, `active_organization` and
-- `validate_idempotency_key` of app/financial_service.py.
use moneybee_backend.Base.{
  ℕ, String, Bool, not, ◌&&◌, ◌||◌, Option, none, some, contains, mem?, ltb, if◌then◌else◌,
}
use moneybee_backend.Base.Text.{String-discrete}
use moneybee_backend.Base.Action.{pure, raise}
use moneybee_backend.Principal.{Principal}
use moneybee_backend.Ledger.Records.{
  LedgerAction, Host, organization_required, organization_access_denied, permission_denied,
  invalid_idempotency_key,
}

-- `permission in principal.permissions`
unfoldable pub has_permission : Principal → String → Bool
has_permission principal permission = mem? String-discrete permission principal.permissions

unfoldable pub require_finance_permission : Principal → String → LedgerAction (Unit {0})
require_finance_permission principal permission =
    if not (has_permission principal "*") && not (has_permission principal permission)
    then raise permission_denied
    else pure tt

abbrev pub organization_of : Principal → Option ℕ → LedgerAction ℕ
organization_of principal none = raise organization_required
organization_of principal (some organization_id) =
    if not (has_permission principal "*")
      && not (contains organization_id principal.organization_ids)
    then raise organization_access_denied
    else pure organization_id

unfoldable pub active_organization : Principal → LedgerAction ℕ
active_organization principal = organization_of principal principal.active_organization_id

unfoldable pub validate_idempotency_key : Host → String → LedgerAction String
validate_idempotency_key host value =
    if ltb (host.len (host.strip value)) 8 || ltb 160 (host.len (host.strip value))
    then raise invalid_idempotency_key
    else pure (host.strip value)
