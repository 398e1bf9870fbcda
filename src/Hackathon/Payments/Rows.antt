-- ===== src/Hackathon/Payments/Rows.antt =====
-- The payment rows: each team has at most one payment, and what saving a row does to that lookup.
use srkrcc_main_application.Common.{
  ℕ, ◌≡◌, refl, false, Option, none, some, List, [], ◌∷◌, arith, ◌==◌, is_at, first, exists, update,
  if◌then◌else◌, Bool-cases, inl, inr, ==→eq,
}
use srkrcc_main_application.Common.Rows.Laws.{Distinct, update_absent, exists_of_first}
use srkrcc_main_application.Hackathon.Model.{TeamPayment}
use srkrcc_main_application.Hackathon.Payments.{payment_of}

-- `OneToOneField`: no other payment is of the same team.
abbrev pub IsAlone : Option ℕ → List TeamPayment → Type 0
IsAlone none rows = Unit
IsAlone (some team) rows = exists (λ p. is_at p.team team) rows ≡ false

abbrev pub OneToOne : List TeamPayment → Type 0
OneToOne [] = Unit
OneToOne (p ∷ ps) = IsAlone p.team ps × OneToOne ps

abbrev key : TeamPayment → ℕ
key p = p.pk

-- The payment found by its key is the payment of its team.
pub payment_of-first :
    (pk team : ℕ) (p : TeamPayment) (rows : List TeamPayment)
    → OneToOne rows
    → first (λ q. q.pk == pk) rows ≡ some p
    → p.team ≡ some team
    → payment_of rows team ≡ some p
unfolding payment_of
payment_of-first pk team p [] h e f = cc
payment_of-first pk team p (x ∷ xs) h e f =
    ground (arith, payment_of-first pk team p xs h.1, exists_of_first (λ q. is_at q.team team) xs p)

-- Saving a payment, its team unchanged, changes the lookup for that team alone.
pub payment_of-save :
    (team j : ℕ) (p r : TeamPayment) (rows : List TeamPayment)
    → Distinct key rows
    → OneToOne rows
    → first (λ q. q.pk == r.pk) rows ≡ some p
    → p.team ≡ some team
    → r.team ≡ some team
    → payment_of (update (λ q. q.pk == r.pk) (λ _. r) rows) j
      ≡ (if team == j then some r else payment_of rows j)
unfolding payment_of
payment_of-save team j p r [] d h e f g = cc
payment_of-save team j p r (x ∷ xs) d h e f g = elim (Bool-cases (x.pk == r.pk)) [
  | inl here ↦
      rw here (rw (update_absent key (λ _. r) r.pk xs (rw (← ==→eq _ _ here) d.0)) (ground arith))
  | inr there ↦ rw there (
      ground (
        arith,
        payment_of-save team j p r xs d.1 h.1,
        payment_of-first r.pk team p xs h.1,
        exists_of_first (λ q. is_at q.team team) xs p,
      ))
]

IsAlone-save :
    (r p : TeamPayment) (team : Option ℕ) (rows : List TeamPayment)
    → Distinct key rows
    → first (λ q. q.pk == r.pk) rows ≡ some p
    → r.team ≡ p.team
    → IsAlone team rows
    → IsAlone team (update (λ q. q.pk == r.pk) (λ _. r) rows)
IsAlone-save r p none rows d e f h = tt
IsAlone-save r p (some team) [] d e f h = refl
IsAlone-save r p (some team) (x ∷ xs) d e f h = elim (Bool-cases (x.pk == r.pk)) [
  | inl here ↦
      rw here (rw (update_absent key (λ _. r) r.pk xs (rw (← ==→eq _ _ here) d.0)) (ground arith))
  | inr there ↦ rw there (ground (arith, IsAlone-save r p (some team) xs d.1))
]

pub OneToOne-save :
    (r p : TeamPayment) (rows : List TeamPayment)
    → Distinct key rows
    → first (λ q. q.pk == r.pk) rows ≡ some p
    → r.team ≡ p.team
    → OneToOne rows
    → OneToOne (update (λ q. q.pk == r.pk) (λ _. r) rows)
OneToOne-save r p [] d e f h = tt
OneToOne-save r p (x ∷ xs) d e f h = elim (Bool-cases (x.pk == r.pk)) [
  | inl here ↦
      rw here (rw (update_absent key (λ _. r) r.pk xs (rw (← ==→eq _ _ here) d.0)) (ground arith))
  | inr there ↦ rw there (
    IsAlone-save r p x.team xs d.1 (ground arith) f h.0,
    OneToOne-save r p xs d.1 (ground arith) f h.1,
  )
]

-- A deleted team leaves its payment without a team.
abbrev pub release : ℕ → List TeamPayment → List TeamPayment
release team rows =
    update (λ p. is_at p.team team) (λ p. record p { team = none; screenshot = none }) rows

pub payment_of-release :
    (team j : ℕ) (rows : List TeamPayment)
    → (team == j) ≡ false
    → payment_of (release team rows) j ≡ payment_of rows j
unfolding payment_of
payment_of-release team j [] ne = refl
payment_of-release team j (x ∷ xs) ne = ground (arith, payment_of-release team j xs ne)

IsAlone-release :
    (team : ℕ) (other : Option ℕ) (rows : List TeamPayment)
    → IsAlone other rows
    → IsAlone other (release team rows)
IsAlone-release team none rows h = tt
IsAlone-release team (some j) [] h = refl
IsAlone-release team (some j) (x ∷ xs) h = ground (arith, IsAlone-release team (some j) xs)

pub OneToOne-release :
    (team : ℕ) (rows : List TeamPayment) → OneToOne rows → OneToOne (release team rows)
OneToOne-release team [] h = tt
OneToOne-release team (x ∷ xs) h = elim (Bool-cases (is_at x.team team)) [
  | inl e ↦ rw e (tt, OneToOne-release team xs h.1)
  | inr e ↦ rw e (IsAlone-release team x.team xs h.0, OneToOne-release team xs h.1)
]
