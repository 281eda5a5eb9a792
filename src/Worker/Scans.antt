-- ===== src/Worker/Scans.antt =====
-- The malware scan of uploaded documents: `scan_pending_document` of app/worker.py.
pub mod Outcomes
use moneybee_backend.Base.{
  ℕ, String, Bool, true, false, not, ◌&&◌, ◌||◌, Option, none, some, List, [], ◌∷◌, ◌++◌, put, find,
  equal, leb, if◌then◌else◌,
}
use moneybee_backend.Base.Oldest.{oldest}
use moneybee_backend.Base.Text.{String-discrete}
use moneybee_backend.Worker.Items.{
  ProviderState, WorkerHost, is_null, is_ready, lease_provider_item, provider_failed,
  provider_succeeded,
}

-- the strings that `Document.status` takes
pub data DocumentStatus : Type 0 where
  quarantined reupload_required rejected clean : DocumentStatus
  other : String → DocumentStatus

pub record Document : Type 0 where
  pub id : ℕ
  pub created_at : ℕ
  pub status : DocumentStatus
  pub storage_key : String
  pub storage_version_id : Option String
  pub sha256 : String
  pub scan_provider : Option String
  pub scan_result : Option String
  pub scanned_at : Option ℕ
  pub provider : ProviderState

-- the codes of the operational exceptions about a document
pub data ScanException : Type 0 where
  document_reupload_required document_checksum_mismatch document_scan_retry_exhausted :
      ScanException

pub record ScanDb : Type 0 where
  pub documents : List Document
  pub exceptions : List (ScanException × ℕ)
  pub deleted : List String

-- the verdict of the scanner
pub record ScanResult : Type 0 where
  pub provider : String
  pub raw : String
  pub is_clean : Bool

-- What a provider gives: a value, or a `ProviderError` with its text cut at 1000 characters.
pub data Reply (A : Type 0) : Type 0 where
  value : A → Reply A
  provider_error : String → Reply A

-- What the scan takes from outside: `str.strip`, `str.lower`, the SHA-256 in hexadecimal, the
-- content of a stored version, and the scanner. A content is a text.
pub record ScanHost : Type 0 where
  pub host : WorkerHost
  pub strip : String → String
  pub lower : String → String
  pub sha256 : String → String
  pub get_private : String → String → Reply String
  pub scan : String → Reply ScanResult

abbrev pub same : String → String → Bool
same a b = equal String-discrete a b

abbrev pub save_document : Document → ScanDb → ScanDb
save_document d db = record db { documents = put (λ (x : Document). x.id) d db.documents }

abbrev pub open_scan_exception : ScanException → ℕ → ScanDb → ScanDb
open_scan_exception code k db = record db { exceptions = db.exceptions ++ (code, k) ∷ [] }

-- `(document.storage_version_id or "").strip()`
abbrev pub version_of : ScanHost → Option String → String
version_of h none = h.strip ""
version_of h (some v) = h.strip v

abbrev pub has_version : ScanHost → Document → Bool
has_version h d =
    let version_id = version_of h d.storage_version_id in
    not (same version_id "" || same (h.lower version_id) "null")

abbrev pub without_version : Document → Document
without_version d = record d {
  status = reupload_required;
  scan_provider = some "storage-versioning";
  scan_result = some "IMMUTABLE_STORAGE_VERSION_REQUIRED";
  provider = record d.provider {
    last_error = some "immutable stored-object version is missing";
    next_attempt_at = none;
    terminal_at = none;
    lease_owner = none;
    lease_expires_at = none;
  };
}

abbrev pub mismatched : ℕ → Document → Document
mismatched now d = record d {
  status = rejected;
  scan_provider = some "integrity-check";
  scan_result = some "STORED_DOCUMENT_CHECKSUM_MISMATCH";
  scanned_at = some now;
  provider = record d.provider {
    last_error = some "stored document checksum mismatch";
    terminal_at = some now;
    next_attempt_at = none;
    lease_owner = none;
    lease_expires_at = none;
  };
}

-- the handler of `ProviderError`
abbrev pub scan_failed : ScanHost → String → Document → ScanDb → ScanDb
scan_failed h error d db =
    let failed = record d { provider = provider_failed h.host d.id error d.provider } in
    let saved = save_document failed db in
    if is_null failed.provider.terminal_at
    then saved
    else open_scan_exception document_scan_retry_exhausted d.id saved

abbrev pub judged : ScanHost → ScanResult → Document → Document
judged h result d = record d {
  scan_provider = some result.provider;
  scan_result = some result.raw;
  scanned_at = some h.host.now;
  status = if result.is_clean then clean else rejected;
  provider = provider_succeeded d.provider;
}

-- the last part; the answer of `delete_private` does not matter
abbrev pub finish_scan : ScanHost → ScanResult → Document → ScanDb → ScanDb
finish_scan h result d db =
    let saved = save_document (judged h result d) db in
    if result.is_clean
    then saved
    else record saved { deleted = saved.deleted ++ d.storage_key ∷ [] }

abbrev pub after_scan : ScanHost → Reply ScanResult → Document → ScanDb → Option ℕ × ScanDb
after_scan h (provider_error error) d db = (none, scan_failed h error d db)
after_scan h (value result) d db = (some d.id, finish_scan h result d db)

-- the part after the content is there; the document's checksum is compared in lower case
abbrev pub after_content : ScanHost → Reply String → Document → ScanDb → Option ℕ × ScanDb
after_content h (provider_error error) d db = (none, scan_failed h error d db)
after_content h (value content) d db =
    if same (h.sha256 content) (h.lower d.sha256) then after_scan h (h.scan content) d db else (
      some d.id,
      open_scan_exception document_checksum_mismatch d.id
          (save_document (mismatched h.host.now d) db),
    )

-- the part after the lease
unfoldable pub scan_leased : ScanHost → Document → ScanDb → Option ℕ × ScanDb
scan_leased h d db =
    if has_version h d
    then after_content h (h.get_private d.storage_key (version_of h d.storage_version_id)) d db
    else (
      some d.id,
      open_scan_exception document_reupload_required d.id (save_document (without_version d) db),
    )

abbrev pub is_quarantined : DocumentStatus → Bool
is_quarantined quarantined = true
is_quarantined reupload_required = false
is_quarantined rejected = false
is_quarantined clean = false
is_quarantined (other _) = false

-- the condition of the query
abbrev pub is_scannable : ℕ → Document → Bool
is_scannable now d = is_quarantined d.status && is_ready now d.provider

-- `ORDER BY created_at LIMIT 1`; no row is locked by another transaction
abbrev pub oldest_document : (Document → Bool) → List Document → Option Document
oldest_document = oldest (λ (d : Document). d.created_at)

abbrev pub leased_document : ScanHost → Document → Document
leased_document h d = record d { provider = lease_provider_item h.host d.provider }

abbrev pub scan_found : ScanHost → Option Document → ScanDb → Option ℕ × ScanDb
scan_found h none db = (none, db)
scan_found h (some d) db =
    scan_leased h (leased_document h d) (save_document (leased_document h d) db)

-- `enabled` is that the scan provider is not "disabled".
unfoldable pub scan_pending_document : Bool → ScanHost → ScanDb → Option ℕ × ScanDb
scan_pending_document enabled h db =
    if enabled
    then scan_found h (oldest_document (is_scannable h.host.now) db.documents) db
    else (none, db)
