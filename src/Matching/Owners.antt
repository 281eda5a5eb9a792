-- ===== src/Matching/Owners.antt =====
-- Who gets an application: `get_authorized_application` of app/services.py.
use moneybee_backend.Base.{
  ℕ, ◌≡◌, refl, arith, String, Bool, true, ◌&&◌, Option, none, some, ==_iff, equal→eq, Bool-cases,
  Option-cases, inl, inr, ◌⊎◌, ap,
}
use moneybee_backend.Base.Text.{String-discrete}
use moneybee_backend.Base.Action.{Result, ok, err}
use moneybee_backend.Principal.{Principal}
use moneybee_backend.Lifecycle.Db.{Application, get_application}
use moneybee_backend.Matching.{
  MatchDb, MatchProblem, holds, same_subject, broad, own, owned_by, is_owner, authorize_application,
  get_authorized_application,
}

-- The caller is of the application's borrower organization, or, where it has none, its subject.
abbrev pub Owns : Application → Principal → Type 0
Owns a p =
    (b : ℕ) × (p.borrower_id ≡ some b)
    × ((a.borrower_organization_id ≡ some b)
        ⊎ ((a.borrower_organization_id ≡ none) × (a.borrower_subject ≡ some p.subject)))

abbrev pub Allowed : Application → Principal → Bool → Type 0
Allowed a p write =
    (holds "*" p.permissions ≡ true)
    ⊎ ((holds (broad write) p.permissions ≡ true) × (holds "MONEYBEE" p.membership_types ≡ true))
    ⊎ ((holds (own write) p.permissions ≡ true) × Owns a p)

subject_lem :
    (s : Option String) (subject : String) → same_subject s subject ≡ true → s ≡ some subject
subject_lem none subject h = cc
subject_lem (some s) subject h = ap some (equal→eq String-discrete s subject h)

owned_lem :
    (a : Application) (p : Principal) (b : ℕ) (o : Option ℕ)
    → owned_by a p b o ≡ true
    → (o ≡ some b) ⊎ ((o ≡ none) × (a.borrower_subject ≡ some p.subject))
owned_lem a p b none h = inr (refl, subject_lem a.borrower_subject p.subject h)
owned_lem a p b (some o) h = inl (ap some ((==_iff o b).0 h))

owner_lem :
    (a : Application) (p : Principal) (borrower : Option ℕ)
    → is_owner a p borrower ≡ true
    → (b : ℕ) × (borrower ≡ some b)
      × ((a.borrower_organization_id ≡ some b)
          ⊎ ((a.borrower_organization_id ≡ none) × (a.borrower_subject ≡ some p.subject)))
owner_lem a p none h = cc
owner_lem a p (some b) h = (b, refl, owned_lem a p b a.borrower_organization_id h)

abbrev pub Gets :
    ℕ → Principal → Bool → MatchDb → Result MatchProblem Application × MatchDb → Type 0
Gets id p write s (ok a, s') = (s' ≡ s) × (get_application id s.db ≡ some a) × Allowed a p write
Gets id p write s (err _, s') = s' ≡ s

-- A call of `get_authorized_application` changes nothing, and an application that it returns is the
-- stored one with the id, to a caller that has every permission, or has the broad permission and is
-- a member of MoneyBee, or has the permission for its own and owns the application.
pub get_authorized_application-Gets :
    (id : ℕ) (p : Principal) (write : Bool) (s : MatchDb)
    → Gets id p write s (get_authorized_application id p write s)
unfolding get_authorized_application authorize_application
get_authorized_application-Gets id p write s = elim (Option-cases (get_application id s.db)) [
  | inl missing ↦ rw missing refl
  | inr (a, found) ↦ elim (Bool-cases (holds "*" p.permissions)) [
    | inl all ↦ rw (found, all) (refl, found, inl all)
    | inr some_only ↦
        elim (Bool-cases
          (holds (broad write) p.permissions && holds "MONEYBEE" p.membership_types)) [
            | inl staff ↦
                rw (found, some_only, staff) (refl, found, inr (inl (ground arith, ground arith)))
            | inr outside ↦
                elim (Bool-cases (holds (own write) p.permissions && is_owner a p p.borrower_id)) [
                  | inl owner ↦
                      rw (found, some_only, outside, owner)
                        (
                          refl,
                          found,
                          inr (inr (ground arith, owner_lem a p p.borrower_id (ground arith))),
                        )
                  | inr stranger ↦ rw (found, some_only, outside, stranger) refl
                ]
          ]
  ]
]
