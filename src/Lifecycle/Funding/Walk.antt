-- ===== src/Lifecycle/Funding/Walk.antt =====
-- The walk of an application along the stages of its funding.
use moneybee_backend.Base.{
  ◌≡◌, refl, arith, ℕ, suc, ◌-◌, ◌≤◌, ◌<◌, String, Bool, true, false, Option, some, List, [], ◌∷◌,
  ◌&&◌, not, length, ◌∙◌, leb, le→leb, ap, ◌==◌, if◌then◌else◌, get_or,
}
use moneybee_backend.Base.Action.{Result, ok, >>=-of_ok}
use moneybee_backend.Base.Ranges.{all_below, all_below-true}
use moneybee_backend.Principal.{Principal}
use moneybee_backend.Lifecycle.Status.{ApplicationStatus}
use moneybee_backend.Lifecycle.Db.{Application, ApplicationStatusHistory, Db, Problem}
use moneybee_backend.Lifecycle.Application.{
  may_move, same_status, moved, history_row, transition_application,
}
use moneybee_backend.Lifecycle.Application.Traces.{
  Logged, Logged-refl, Logged-trans, after_move, one_move-Logged, transition_application_moves,
  same_status-eq,
}
use moneybee_backend.Lifecycle.Funding.{lifecycle, lifecycle_index, stages_between, walk}

-- Every stage is a move of the table away from the one before.
abbrev pub is_route : ApplicationStatus → List ApplicationStatus → Bool
is_route s [] = true
is_route s (t ∷ rest) = not (same_status s t) && may_move s t && is_route t rest

abbrev pub last_of : ApplicationStatus → List ApplicationStatus → ApplicationStatus
last_of s [] = s
last_of s (t ∷ rest) = last_of t rest

abbrev stage_at : ℕ → ApplicationStatus
stage_at i = get_or lifecycle i ApplicationStatus.declined

lifecycle_index-stage_at :
    (s : ApplicationStatus) (i : ℕ) → lifecycle_index s ≡ some i → (s ≡ stage_at i) × (i < 9)
unfolding lifecycle_index
lifecycle_index-stage_at s i h = ground arith

abbrev is_open : ℕ → ℕ → Bool
is_open j i =
    if leb i j
    then is_route (stage_at i) (stages_between i j)
      && same_status (last_of (stage_at i) (stages_between i j)) (stage_at j)
      && (length (stages_between i j) == j - i)
    else true

all_open : all_below 9 (λ j. all_below 9 (is_open j)) ≡ true
unfolding all_below may_move same_status
all_open = refl

is_open-true : (i j : ℕ) → i < 9 → j < 9 → is_open j i ≡ true
is_open-true i j p q =
    all_below-true 9 (is_open j) i (all_below-true 9 (λ k. all_below 9 (is_open k)) j all_open q) p

and_parts :
    (r : Bool) (s t : ApplicationStatus) (m n : ℕ)
    → (r && same_status s t && (m == n)) ≡ true
    → (r ≡ true) × (s ≡ t) × (m ≡ n)
and_parts r s t m n h = ground (arith, same_status-eq s t)

step_parts : (b m r : Bool) → (not b && m && r) ≡ true → (b ≡ false) × (m ≡ true) × (r ≡ true)
step_parts b m r h = ground arith

-- Between two stages of the lifecycle the way is open.
pub stages-is_route :
    (s t : ApplicationStatus) (i j : ℕ)
    → lifecycle_index s ≡ some i
    → lifecycle_index t ≡ some j
    → i ≤ j
    → (is_route s (stages_between i j) ≡ true)
      × (last_of s (stages_between i j) ≡ t)
      × (length (stages_between i j) ≡ j - i)
stages-is_route s t i j p q h =
    let (es, is) = lifecycle_index-stage_at s i p in
    let (et, js) = lifecycle_index-stage_at t j q in
    rw (es, et)
      (and_parts (is_route (stage_at i) (stages_between i j))
        (last_of (stage_at i) (stages_between i j)) (stage_at j) (length (stages_between i j))
        (j - i) (rw (le→leb i j h) at (is_open-true i j is js)))

-- What a walk that arrives has done: one logged row for each stage.
abbrev pub Arrives :
    List ApplicationStatus → Application → Db → Result Problem Application × Db → Type 0
Arrives stages a db r =
    (a' : Application) × (db' : Db) × (rows : List ApplicationStatusHistory) × (r ≡ (ok a', db'))
    × (a'.status ≡ last_of a.status stages)
    × (length rows ≡ length stages)
    × Logged a db a' db' rows

-- A walk along a route arrives.
pub walk-Arrives :
    (stages : List ApplicationStatus) (a : Application) (p : Principal) (reason : Option String)
    (db : Db)
    → is_route a.status stages ≡ true
    → Arrives stages a db (walk stages a p reason db)
unfolding walk
walk-Arrives [] a p reason db h = (a, db, [], refl, refl, refl, Logged-refl a db)
walk-Arrives (t ∷ rest) a p reason db h =
    let (apart, may, on) =
      step_parts (same_status a.status t) (may_move a.status t) (is_route t rest) h in
    let (a', db', rows, e, s, n, l) =
      walk-Arrives rest (moved a t) p reason (after_move a t p reason db) on in
    (
      a',
      db',
      history_row a t p reason ∷ rows,
      >>=-of_ok (transition_application a t p reason) (λ after. walk rest after p reason) db
            (transition_application_moves a t p reason db apart may)
          ∙ e,
      s,
      ap suc n,
      Logged-trans a (moved a t) a' db (after_move a t p reason db) db'
          (history_row a t p reason ∷ []) rows (one_move-Logged a t p reason db may) l,
    )
