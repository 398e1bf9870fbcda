-- ===== src/Hackathon/Outcome.antt =====
-- Postconditions of a request: `Ensures` speaks of the requests that succeed, `Returns` also states
-- that the request succeeds.
use srkrcc_main_application.Common.{◌≡◌, refl, ◌⊎◌, inl, inr, arith}
use srkrcc_main_application.Hackathon.Monad.{Error, Db, Result, ok, err, Action, ◌>>=◌}

abbrev pub Ensures : {A : Type 0} → (A → Db → Type 0) → Result (A × Db) → Type 0
Ensures P (ok (a, db)) = P a db
Ensures P (err e) = Unit

abbrev pub Returns : {A : Type 0} → (A → Db → Type 0) → Result (A × Db) → Type 0
Returns P (ok (a, db)) = P a db
Returns P (err e) = ⊥

pub Result-cases {ℓ} :
    {A : Type ℓ} (r : Result A) → ((e : Error) × (r ≡ err e)) ⊎ ((a : A) × (r ≡ ok a))
Result-cases (ok a) = inr (a, refl)
Result-cases (err e) = inl (e, refl)

-- A request in two steps succeeds only by both.
pub bind_ok :
    {A B : Type 0} (m : Action A) (f : A → Action B) (db : Db) (r : B × Db)
    → (m >>= f) db ≡ ok r
    → (a : A) × (db1 : Db) × (m db ≡ ok (a, db1)) × (f a db1 ≡ ok r)
bind_ok m f db r h = elim (Result-cases (m db)) [
  | inl (e, p) ↦ absurd (ground arith)
  | inr ((a, db1), p) ↦ (a, db1, p, ground arith)
]
