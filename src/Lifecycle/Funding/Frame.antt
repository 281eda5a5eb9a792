-- ===== src/Lifecycle/Funding/Frame.antt =====
-- What `transition_funding` leaves alone, however it ends.
use moneybee_backend.Base.{◌≡◌, refl, arith, String, Option, List, [], ◌∷◌, Option-cases, inl, inr}
use moneybee_backend.Principal.{Principal}
use moneybee_backend.Lifecycle.Status.{ApplicationStatus, FundingStatus}
use moneybee_backend.Lifecycle.Db.{Application, Funding, Db}
use moneybee_backend.Lifecycle.Application.{transition_application}
use moneybee_backend.Lifecycle.Funding.{
  lifecycle_index, stages_between, walk, follow_funding, transition_funding,
}

-- The tables that only other services write.
abbrev pub SameTables : Db → Db → Type 0
SameTables db db' =
    (db'.contracts ≡ db.contracts)
    × (db'.submissions ≡ db.submissions)
    × (db'.offers ≡ db.offers)
    × (db'.conditions ≡ db.conditions)
    × (db'.renewals ≡ db.renewals)
    × (db'.generated ≡ db.generated)
    × (db'.uuid4 ≡ db.uuid4)

transition_application-SameTables :
    (a : Application) (t : ApplicationStatus) (p : Principal) (reason : Option String) (db : Db)
    → SameTables db (transition_application a t p reason db).1
unfolding transition_application
transition_application-SameTables a t p reason db = ground arith

walk-SameTables :
    (stages : List ApplicationStatus) (a : Application) (p : Principal) (reason : Option String)
    (db : Db)
    → SameTables db (walk stages a p reason db).1
unfolding walk transition_application
walk-SameTables [] a p reason db = (refl, refl, refl, refl, refl, refl, refl)
walk-SameTables (t ∷ rest) a p reason db = grind (arith, walk-SameTables rest)

follow_funding-SameTables :
    (a : Application) (t : ApplicationStatus) (p : Principal) (reason : Option String) (db : Db)
    → SameTables db (follow_funding a t p reason db).1
unfolding follow_funding
follow_funding-SameTables a t p reason db = elim (Option-cases (lifecycle_index a.status)) [
  | inl off ↦ rw off (ground (arith, transition_application-SameTables a t p reason db))
  | inr (i, at) ↦ elim (Option-cases (lifecycle_index t)) [
    | inl off ↦ rw (at, off) (ground (arith, transition_application-SameTables a t p reason db))
    | inr (j, to) ↦
        rw (at, to)
          (ground (
            arith,
            transition_application-SameTables a t p reason db,
            walk-SameTables (stages_between i j) a p reason db,
          ))
  ]
]

pub transition_funding-SameTables :
    (f : Funding) (t : FundingStatus) (p : Principal) (reason : Option String) (db : Db)
    → SameTables db (transition_funding f t p reason db).1
unfolding transition_funding
transition_funding-SameTables f t p reason db = grind (arith, follow_funding-SameTables)
