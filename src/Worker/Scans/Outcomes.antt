-- ===== src/Worker/Scans/Outcomes.antt =====
-- Which documents `scan_pending_document` of app/worker.py lets through.
use moneybee_backend.Base.{
  ℕ, ◌≡◌, ◌≢◌, ◌⊎◌, refl, arith, String, Bool, true, false, Option, none, some, List, put, row,
  IsKeyed, row-put_self, row-put_ne, Bool-cases, inl, inr, ◌==◌, ==_iff, if_true, subst, sym, ap,
  ◌∙◌,
}
use moneybee_backend.Base.Oldest.{Picks, oldest-Picks, Listed-row}
use moneybee_backend.Worker.Items.{is_null, provider_failed}
use moneybee_backend.Worker.Scans.{
  DocumentStatus, Document, ScanDb, ScanResult, Reply, value, provider_error, ScanHost, same,
  save_document, version_of, has_version, without_version, mismatched, scan_failed, judged,
  after_scan, after_content, scan_leased, is_quarantined, is_scannable, oldest_document,
  leased_document, scan_found, scan_pending_document,
}

abbrev pub is_clean_status : DocumentStatus → Bool
is_clean_status DocumentStatus.clean = true
is_clean_status _ = false

-- The document was due, its stored version has the checksum of the upload, and the scanner found it
-- clean.
abbrev pub Passed : ScanHost → Document → Type 0
Passed h d =
    (is_scannable h.host.now d ≡ true)
    × (has_version h d ≡ true)
    × ((content : String) × (h.get_private d.storage_key (version_of h d.storage_version_id)
          ≡ value content)
        × (same (h.sha256 content) (h.lower d.sha256) ≡ true)
        × ((result : ScanResult) × (h.scan content ≡ value result) × (result.is_clean ≡ true)))

abbrev pub document_row : ℕ → List Document → Option Document
document_row = row (λ (d : Document). d.id)

abbrev put_document : Document → List Document → List Document
put_document = put (λ (d : Document). d.id)

not_clean : (s : DocumentStatus) → is_quarantined s ≡ true → is_clean_status s ≡ false
not_clean DocumentStatus.quarantined h = refl
not_clean DocumentStatus.reupload_required h = cc
not_clean DocumentStatus.rejected h = cc
not_clean DocumentStatus.clean h = cc
not_clean (DocumentStatus.other s) h = cc

module _ (h : ScanHost) (x : Document) (scannable : is_scannable h.host.now x ≡ true)
    (db : ScanDb) where
  abbrev leased : Document
  leased = leased_document h x

  -- what a scan of the leased document saves
  abbrev Saves : Option ℕ × ScanDb → Type 0
  Saves r =
      (y : Document) × (y.id ≡ x.id)
      × (r.1.documents ≡ put_document y db.documents)
      × ((is_clean_status y.status ≡ false) ⊎ Passed h x)

  quarantine : is_clean_status x.status ≡ false
  quarantine = not_clean x.status (ground arith)

  scan_failed-Saves : (error : String) → Saves (none, scan_failed h error leased db)
  scan_failed-Saves error =
      let failed = record leased { provider = provider_failed h.host x.id error leased.provider } in
      elim (Bool-cases (is_null failed.provider.terminal_at)) [
        | inl again ↦ (failed, refl, rw again refl, inl quarantine)
        | inr last ↦ (failed, refl, rw last refl, inl quarantine)
      ]

  module _ (version : has_version h x ≡ true) (content : String)
      (stored : h.get_private x.storage_key (version_of h x.storage_version_id) ≡ value content)
      (checksum : same (h.sha256 content) (h.lower x.sha256) ≡ true) where
    after_scan-Saves :
        (reply : Reply ScanResult) → h.scan content ≡ reply → Saves (after_scan h reply leased db)
    after_scan-Saves (provider_error error) scanned = scan_failed-Saves error
    after_scan-Saves (value result) scanned = elim (Bool-cases result.is_clean) [
      | inl is_good ↦ (
        judged h result leased,
        refl,
        rw is_good refl,
        inr (scannable, version, (content, stored, checksum, (result, scanned, is_good))),
      )
      | inr is_bad ↦ (judged h result leased, refl, rw is_bad refl, inl (rw is_bad refl))
    ]

  after_content-Saves :
      (reply : Reply String)
      → has_version h x ≡ true
      → h.get_private x.storage_key (version_of h x.storage_version_id) ≡ reply
      → Saves (after_content h reply leased db)
  after_content-Saves (provider_error error) version stored = scan_failed-Saves error
  after_content-Saves (value content) version stored =
      elim (Bool-cases (same (h.sha256 content) (h.lower x.sha256))) [
        | inl checksum ↦
            rw checksum (after_scan-Saves version content stored checksum (h.scan content) refl)
        | inr differs ↦ rw differs (mismatched h.host.now leased, refl, refl, inl refl)
      ]

  scan_leased-Saves : Saves (scan_leased h leased db)
  unfolding scan_leased
  scan_leased-Saves = elim (Bool-cases (has_version h x)) [
    | inl version ↦ subst Saves (sym (if_true _ _ version)) (
        after_content-Saves (h.get_private x.storage_key (version_of h x.storage_version_id))
          version refl)
    | inr no_version ↦ rw no_version (without_version leased, refl, refl, inl refl)
  ]

-- the row with an id after a scan of the document `x`
after_save :
    (h : ScanHost) (x y : Document) (k : ℕ) (d d' : Document) (documents : List Document)
    → document_row x.id documents ≡ some x
    → y.id ≡ x.id
    → ((is_clean_status y.status ≡ false) ⊎ Passed h x)
    → document_row k documents ≡ some d
    → document_row k (put_document y (put_document (leased_document h x) documents)) ≡ some d'
    → is_clean_status d'.status ≡ true
    → (is_clean_status d.status ≡ true) ⊎ Passed h d
after_save h x y k d d' documents found same_id verdict before after is_clean =
    let lease = leased_document h x in
    elim (Bool-cases (k == x.id)) [
      | inl here ↦
          let at_x = (==_iff k x.id).0 here in
          let leased_row = row-put_self (λ (z : Document). z.id) lease x documents found in
          let y_row =
            row-put_self (λ (z : Document). z.id) y lease (put_document lease documents)
              (subst (λ j. document_row j (put_document lease documents) ≡ some lease) (sym same_id)
                leased_row) in
          let d'_is_y : d' ≡ y = cc (
            sym after
            ∙ ap (λ j. document_row j (put_document y (put_document lease documents)))
                (at_x ∙ sym same_id)
            ∙ y_row) in
          let x_is_d : x ≡ d =
            cc (sym found ∙ ap (λ j. document_row j documents) (sym at_x) ∙ before) in
          elim verdict [
            | inl unclean ↦
                cc
                  (sym is_clean ∙ ap (λ (z : Document). is_clean_status z.status) d'_is_y ∙ unclean)
            | inr passed ↦ inr (subst (Passed h) x_is_d passed)
          ]
      | inr other ↦
          let ne : k ≢ x.id = λ e. cc (sym other ∙ (==_iff k x.id).1 e) in
          let ne_y : k ≢ y.id = λ e. ne (e ∙ same_id) in
          let same_d : d' ≡ d = cc (
            sym after
            ∙ row-put_ne (λ (z : Document). z.id) y k (put_document lease documents) ne_y
            ∙ row-put_ne (λ (z : Document). z.id) lease k documents ne
            ∙ before) in
          inl (subst (λ (z : Document). is_clean_status z.status ≡ true) same_d is_clean)
    ]

scan_found_clean :
    (h : ScanHost) (db : ScanDb) (o : Option Document) (k : ℕ) (d d' : Document)
    → IsKeyed (λ (z : Document). z.id) db.documents
    → Picks (λ (z : Document). z.created_at) (is_scannable h.host.now) db.documents o
    → document_row k db.documents ≡ some d
    → document_row k (scan_found h o db).1.documents ≡ some d'
    → is_clean_status d'.status ≡ true
    → (is_clean_status d.status ≡ true) ⊎ Passed h d
scan_found_clean h db none k d d' keyed picks before after is_clean =
    let same_d : d' ≡ d = cc (sym after ∙ before) in
    inl (subst (λ (z : Document). is_clean_status z.status ≡ true) same_d is_clean)
scan_found_clean h db (some x) k d d' keyed (scannable, listed, first) before after is_clean =
    let (y, same_id, saved, verdict) =
      scan_leased-Saves h x scannable (save_document (leased_document h x) db) in
    after_save h x y k d d' db.documents
      (Listed-row (λ (z : Document). z.id) x db.documents keyed listed) same_id verdict before
      (ap (document_row k) (sym saved) ∙ after) is_clean

-- With unique document ids: a document that is clean after the scan was clean before it, or it was
-- quarantined and due, has a stored version whose content has the checksum of the upload, and the
-- scanner found that content clean.
pub scan_pending_document_clean :
    (enabled : Bool) (h : ScanHost) (db : ScanDb) (k : ℕ) (d d' : Document)
    → IsKeyed (λ (z : Document). z.id) db.documents
    → document_row k db.documents ≡ some d
    → document_row k (scan_pending_document enabled h db).1.documents ≡ some d'
    → is_clean_status d'.status ≡ true
    → (is_clean_status d.status ≡ true) ⊎ Passed h d
unfolding scan_pending_document
scan_pending_document_clean true h db k d d' keyed before after is_clean =
    scan_found_clean h db (oldest_document (is_scannable h.host.now) db.documents) k d d' keyed
      (oldest-Picks (λ (z : Document). z.created_at) (is_scannable h.host.now) db.documents) before
      after is_clean
scan_pending_document_clean false h db k d d' keyed before after is_clean =
    let same_d : d' ≡ d = cc (sym after ∙ before) in
    inl (subst (λ (z : Document). is_clean_status z.status ≡ true) same_d is_clean)
