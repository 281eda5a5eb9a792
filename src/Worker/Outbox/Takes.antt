-- ===== src/Worker/Outbox/Takes.antt =====
-- The row that `claim` of app/worker.py takes and the row that it saves.
use moneybee_backend.Base.{
  ℕ, ◌≡◌, refl, String, true, false, not, ◌||◌, Option, none, some, List, All, IsKeyed, leb,
}
use moneybee_backend.Base.Oldest.{Picks, oldest-Picks, Listed-row}
use moneybee_backend.Worker.Outbox.{
  OutboxEvent, OutboxDb, event_row, save_event, claimable, oldest_event, claimed, claim_found,
  claim,
}

-- The row that `claim` with an open gate takes, and the row that it saves.
abbrev pub Takes : String → ℕ → List ℕ → OutboxDb → Option ℕ × OutboxDb → Type 0
Takes worker now locked db (none, db') =
    (db' ≡ db) × All (λ (e : OutboxEvent). claimable now locked e ≡ false) db.events
Takes worker now locked db (some k, db') =
    (e : OutboxEvent) × (event_row k db.events ≡ some e)
    × (claimable now locked e ≡ true)
    × All
        (λ (f : OutboxEvent).
          (not (claimable now locked f) || leb e.created_at f.created_at) ≡ true)
        db.events
    × (db' ≡ save_event (claimed worker now e) db)

claim_found-Takes :
    (worker : String) (now : ℕ) (locked : List ℕ) (db : OutboxDb) (o : Option OutboxEvent)
    → IsKeyed (λ (x : OutboxEvent). x.id) db.events
    → Picks (λ (e : OutboxEvent). e.created_at) (claimable now locked) db.events o
    → Takes worker now locked db (claim_found worker now o db)
claim_found-Takes worker now locked db none keyed h = (refl, h)
claim_found-Takes worker now locked db (some e) keyed (passes, listed, first) =
    (e, Listed-row (λ (x : OutboxEvent). x.id) e db.events keyed listed, passes, first, refl)

-- The row that a claim saves, with unique event ids.
pub claim-Takes :
    (worker : String) (now : ℕ) (locked : List ℕ) (db : OutboxDb)
    → IsKeyed (λ (x : OutboxEvent). x.id) db.events
    → Takes worker now locked db (claim true worker now locked db)
unfolding claim
claim-Takes worker now locked db keyed =
    claim_found-Takes worker now locked db (oldest_event (claimable now locked) db.events) keyed
      (oldest-Picks (λ (e : OutboxEvent). e.created_at) (claimable now locked) db.events)
