-- ===== src/Matching/Runs.antt =====
-- What `match` of app/services.py leaves behind.
use moneybee_backend.Base.{
  ℕ, ◌≡◌, ◌≢◌, refl, arith, some, List, [], ◌∷◌, ◌++◌, filter, ◌==◌, ==_refl, ==_ne, Bool-cases,
  inl, inr, ap, ◌∙◌, sym, append-nil,
}
use moneybee_backend.Base.Action.{Result, ok, err, pure, ◌>>=◌}
use moneybee_backend.Principal.{Principal}
use moneybee_backend.Lifecycle.Status.{ApplicationStatus}
use moneybee_backend.Lifecycle.Db.{Application, Db, Problem, get_application}
use moneybee_backend.Lifecycle.Application.{transition_application}
use moneybee_backend.Lifecycle.Application.Traces.{Transitions, transition_application-Transitions}
use moneybee_backend.Matching.{
  LenderProgram, ApplicationMatch, MatchDb, MatchProblem, refused, match_row, match_rows,
  active_programs, without_matches, replace_matches, lifted, match_application,
}

abbrev pub matches_of : ℕ → List ApplicationMatch → List ApplicationMatch
matches_of k = filter (λ (r : ApplicationMatch). r.application_id == k)

matches_of-append :
    (k : ℕ) (xs ys : List ApplicationMatch)
    → matches_of k (xs ++ ys) ≡ matches_of k xs ++ matches_of k ys
matches_of-append k [] ys = refl
matches_of-append k (x ∷ xs) ys = elim (Bool-cases (x.application_id == k)) [
  | inl here ↦ rw here (ap (λ l. x ∷ l) (matches_of-append k xs ys))
  | inr other ↦ rw other (matches_of-append k xs ys)
]

matches_of-without :
    (k : ℕ) (rows : List ApplicationMatch) → matches_of k (without_matches k rows) ≡ []
unfolding without_matches
matches_of-without k [] = refl
matches_of-without k (r ∷ rows) = elim (Bool-cases (r.application_id == k)) [
  | inl here ↦ rw here (matches_of-without k rows)
  | inr other ↦ rw (other, other) (matches_of-without k rows)
]

matches_of-without_ne :
    (j k : ℕ) (rows : List ApplicationMatch)
    → j ≢ k
    → matches_of j (without_matches k rows) ≡ matches_of j rows
unfolding without_matches
matches_of-without_ne j k [] ne = refl
matches_of-without_ne j k (r ∷ rows) ne = elim (Bool-cases (r.application_id == k)) [
  | inl here ↦ ground (arith, matches_of-without_ne j k rows ne)
  | inr other ↦ elim (Bool-cases (r.application_id == j)) [
    | inl mine ↦ rw (other, mine) (ap (λ l. r ∷ l) (matches_of-without_ne j k rows ne))
    | inr apart ↦ rw (other, apart) (matches_of-without_ne j k rows ne)
  ]
]

matches_of-match_rows :
    (a : Application) (ps : List LenderProgram)
    → matches_of a.id (match_rows a ps) ≡ match_rows a ps
unfolding match_rows
matches_of-match_rows a [] = refl
matches_of-match_rows a (p ∷ ps) =
    rw (==_refl a.id) (ap (λ l. match_row a p ∷ l) (matches_of-match_rows a ps))

matches_of-match_rows_ne :
    (j : ℕ) (a : Application) (ps : List LenderProgram)
    → j ≢ a.id
    → matches_of j (match_rows a ps) ≡ []
unfolding match_rows
matches_of-match_rows_ne j a [] ne = refl
matches_of-match_rows_ne j a (p ∷ ps) ne =
    rw (==_ne a.id j (λ e. ne (sym e))) (matches_of-match_rows_ne j a ps ne)

-- the matches of one application, and of another one, after the rows were replaced
replaced :
    (a : Application) (s : MatchDb)
    → matches_of a.id (replace_matches a s).matches ≡ match_rows a (active_programs s)
replaced a s =
    matches_of-append a.id (without_matches a.id s.matches) (match_rows a (active_programs s))
    ∙ ap (λ l. l ++ matches_of a.id (match_rows a (active_programs s)))
        (matches_of-without a.id s.matches)
    ∙ matches_of-match_rows a (active_programs s)

kept :
    (j : ℕ) (a : Application) (s : MatchDb)
    → j ≢ a.id
    → matches_of j (replace_matches a s).matches ≡ matches_of j s.matches
kept j a s ne =
    matches_of-append j (without_matches a.id s.matches) (match_rows a (active_programs s))
    ∙ ap (λ l. matches_of j (without_matches a.id s.matches) ++ l)
        (matches_of-match_rows_ne j a (active_programs s) ne)
    ∙ append-nil _
    ∙ matches_of-without_ne j a.id s.matches ne

-- How a run for an application ends, seen from it and from another application `j`.
abbrev pub Runs :
    ℕ → Application → MatchDb → Result MatchProblem (List ApplicationMatch) × MatchDb → Type 0
Runs j a s (ok rows, s') =
    (rows ≡ match_rows a (active_programs s))
    × (matches_of a.id s'.matches ≡ rows)
    × (matches_of j s'.matches ≡ matches_of j s.matches)
    × ((a' : Application) × Transitions a ApplicationStatus.matched s.db (ok a', s'.db))
Runs j a s (err x, s') =
    (y : Problem) × (x ≡ refused y) × Transitions a ApplicationStatus.matched s.db (err y, s'.db)

run_after :
    (j : ℕ) (a : Application) (s : MatchDb) (r : Result Problem Application × Db)
    → j ≢ a.id
    → Transitions a ApplicationStatus.matched s.db r
    → Runs j a s (
        ((λ s'. lifted s' r) >>= λ _. pure (match_rows a (active_programs s)))
          (replace_matches a s))
run_after j a s (ok a', db) ne t = (refl, replaced a s, kept j a s ne, (a', t))
run_after j a s (err y, db) ne t = (y, refl, t)

-- For a stored application: if the run returns, then its result has one row for each active
-- program, these are the application's matches, those of any other application are as before,
-- and the application is at matched, as transition_application leaves it. If it raises, then
-- transition_application did.
pub match_application-Runs :
    (j id : ℕ) (principal : Principal) (a : Application) (s : MatchDb)
    → get_application id s.db ≡ some a
    → j ≢ a.id
    → Runs j a s (match_application id principal s)
unfolding match_application
match_application-Runs j id principal a s found ne = rw found (
    run_after j a s
      (transition_application a ApplicationStatus.matched principal
        (some "Explainable matching completed") s.db)
      ne
      (transition_application-Transitions a ApplicationStatus.matched principal
        (some "Explainable matching completed") s.db))
