-- ===== src/Ledger/Records.antt =====
-- The rows of app/financial_models.py, the commands of app/financial_schemas.py, the session over
-- them and the problems that app/financial_service.py raises. Amounts are in cents.
use moneybee_backend.Base.{ℕ, String, Bool, Option, List, ◌++◌, [], ◌∷◌}
use moneybee_backend.Base.Action.{Action}

pub record LedgerAccount : Type 0 where
  pub id : ℕ
  pub organization_id : ℕ
  pub code : String
  pub name : String
  pub account_type : String
  pub currency : String
  pub active : Bool

-- `ck_accounting_period_status`
pub data PeriodStatus : Type 0 where
  opened closed locked : PeriodStatus

pub record AccountingPeriod : Type 0 where
  pub id : ℕ
  pub organization_id : ℕ
  pub name : String
  pub starts_at : ℕ
  pub ends_at : ℕ
  pub status : PeriodStatus
  pub closed_at : Option ℕ
  pub closed_by : Option String

-- `ck_journal_entry_status`
pub data EntryStatus : Type 0 where
  posted void : EntryStatus

pub record JournalEntry : Type 0 where
  pub id : ℕ
  pub organization_id : ℕ
  pub period_id : ℕ
  pub idempotency_key : String
  pub request_hash : String
  pub source_type : String
  pub source_id : Option String
  pub description : String
  pub currency : String
  pub effective_at : ℕ
  pub status : EntryStatus
  pub posted_at : ℕ
  pub posted_by : String

-- `ck_journal_posting_side`
pub data Side : Type 0 where
  debit credit : Side

pub record JournalPosting : Type 0 where
  pub journal_entry_id : ℕ
  pub account_id : ℕ
  pub side : Side
  pub amount : ℕ
  pub currency : String
  pub memo : Option String

pub record PostingInput : Type 0 where
  pub account_id : ℕ
  pub side : Side
  pub amount : ℕ
  pub memo : Option String

pub record JournalEntryCreate : Type 0 where
  pub source_type : String
  pub source_id : Option String
  pub description : String
  pub currency : String
  pub effective_at : ℕ
  pub postings : List PostingInput

pub record LedgerAccountCreate : Type 0 where
  pub code : String
  pub name : String
  pub account_type : String
  pub currency : String

pub record AccountingPeriodCreate : Type 0 where
  pub name : String
  pub starts_at : ℕ
  pub ends_at : ℕ

-- the audit row and the outbox row that every command adds, by what they are about
pub record LedgerEvent : Type 0 where
  pub action : String
  pub resource_id : ℕ
  pub organization_id : ℕ
  pub actor_id : String

pub record LedgerDb : Type 0 where
  pub accounts : List LedgerAccount
  pub periods : List AccountingPeriod
  pub entries : List JournalEntry
  pub postings : List JournalPosting
  pub audit : List LedgerEvent
  pub outbox : List LedgerEvent

pub data LedgerProblem : Type 0 where
  organization_required organization_access_denied permission_denied : LedgerProblem
  invalid_idempotency_key idempotency_conflict unbalanced_journal : LedgerProblem
  account_not_found account_access_denied currency_mismatch : LedgerProblem
  accounting_period_required accounting_period_closed period_not_open : LedgerProblem
  account_code_exists accounting_period_overlap accounting_period_exists : LedgerProblem
  period_missing entry_missing currency_required integrity_error : LedgerProblem

abbrev pub LedgerAction : Type 0 → Type 0
LedgerAction A = Action LedgerDb LedgerProblem A

-- What the service takes from Python and its libraries: `str.strip`, `str.upper`, `len` of a text,
-- the SHA-256 of the canonical JSON of a command, and the time of the call.
pub record Host : Type 0 where
  pub strip : String → String
  pub upper : String → String
  pub len : String → ℕ
  pub request_hash : JournalEntryCreate → String
  pub now : ℕ

abbrev pub log_event : LedgerEvent → LedgerDb → LedgerDb
log_event e db = record db { audit = db.audit ++ e ∷ []; outbox = db.outbox ++ e ∷ [] }
