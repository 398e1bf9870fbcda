-- ===== src/Hackathon/Payments/Invariant.antt =====
-- The statuses of a team and of its payment (apps/hackathons/payments.py), and saves of both.
use srkrcc_main_application.Common.{
  ℕ, ◌≡◌, refl, Bool, true, false, not, Option, none, some, List, [], ◌∷◌, arith, ◌==◌, is_at,
  first, exists, update, delete, Bool-cases, ==→eq, inl, inr, ◌∙◌, sym,
}
use srkrcc_main_application.Common.Rows.Laws.{
  All, Distinct, All-save, All-delete, All_first, Distinct-save, Distinct-delete, Distinct-update,
  exists_of_first,
}
use srkrcc_main_application.Hackathon.Model.{
  Team, TeamPayment, PaymentStatus, TeamStatus, pay_pending, pay_verified, pay_rejected,
  pay_cancelled, pay_removed, is_unpaid, is_payment_pending, is_payment_rejected,
}
use srkrcc_main_application.Hackathon.Payments.{payment_of}
use srkrcc_main_application.Hackathon.Payments.Rows.{
  OneToOne, OneToOne-save, OneToOne-release, release, payment_of-save, payment_of-release,
}

-- Which status of a team goes with which status of its payment. A cancelled or removed payment has
-- no team.
abbrev pub agrees : PaymentStatus → TeamStatus → Bool
agrees pay_pending status = is_payment_pending status
agrees pay_rejected status = is_payment_rejected status
agrees pay_verified status = not (is_unpaid status)
agrees pay_cancelled status = false
agrees pay_removed status = false

-- A team without a payment is in neither payment status.
abbrev pub fits : Option TeamPayment → TeamStatus → Bool
fits none status = not (is_unpaid status)
fits (some p) status = agrees p.status status

abbrev pub IsSettled : List TeamPayment → Team → Type 0
IsSettled payments t = fits (payment_of payments t.pk) t.status ≡ true

pub record IsConsistent (teams : List Team) (payments : List TeamPayment) : Type 0 where
  pub team_keys : Distinct (λ t. t.pk) teams
  pub payment_keys : Distinct (λ p. p.pk) payments
  pub one_to_one : OneToOne payments
  pub settled : All (IsSettled payments) teams

abbrev pub team_key : Team → ℕ
team_key t = t.pk

abbrev pub payment_key : TeamPayment → ℕ
payment_key p = p.pk

-- Saving a team and its payment together keeps the teams settled if the two new statuses agree.
IsSettled-save :
    (p p' : TeamPayment) (t' : Team) (teams : List Team) (payments : List TeamPayment)
    → IsConsistent teams payments
    → first (λ q. q.pk == p'.pk) payments ≡ some p
    → p.team ≡ some t'.pk
    → p'.team ≡ some t'.pk
    → agrees p'.status t'.status ≡ true
    → All
        (IsSettled (update (λ q. q.pk == p'.pk) (λ _. p') payments))
        (update (λ t. t.pk == t'.pk) (λ _. t') teams)
IsSettled-save p p' t' teams payments c e f g a =
    All-save team_key (IsSettled payments) _ t' teams c.settled
      (ground (arith, payment_of-save t'.pk t'.pk p p' payments c.payment_keys c.one_to_one e f g))
      λ x ne h.
        ground (arith, payment_of-save t'.pk x.pk p p' payments c.payment_keys c.one_to_one e f g)

pub IsConsistent-save :
    (p p' : TeamPayment) (t' : Team) (teams : List Team) (payments : List TeamPayment)
    → IsConsistent teams payments
    → first (λ q. q.pk == p'.pk) payments ≡ some p
    → p.team ≡ some t'.pk
    → p'.team ≡ some t'.pk
    → agrees p'.status t'.status ≡ true
    → IsConsistent
        (update (λ t. t.pk == t'.pk) (λ _. t') teams)
        (update (λ q. q.pk == p'.pk) (λ _. p') payments)
IsConsistent-save p p' t' teams payments c e f g a = record {
  team_keys = Distinct-save team_key t' teams c.team_keys;
  payment_keys = Distinct-save payment_key p' payments c.payment_keys;
  one_to_one = OneToOne-save p' p payments c.payment_keys e (g ∙ sym f) c.one_to_one;
  settled = IsSettled-save p p' t' teams payments c e f g a;
}

-- Deleting a team, after its payment was closed, keeps the other teams settled.
IsSettled-drop :
    (p p' : TeamPayment) (team : ℕ) (teams : List Team) (payments : List TeamPayment)
    → IsConsistent teams payments
    → first (λ q. q.pk == p'.pk) payments ≡ some p
    → p.team ≡ some team
    → p'.team ≡ some team
    → All
        (IsSettled (release team (update (λ q. q.pk == p'.pk) (λ _. p') payments)))
        (delete (λ t. t.pk == team) teams)
IsSettled-drop p p' team teams payments c e f g =
    All-delete team_key (IsSettled payments) _ team teams c.settled λ x ne h. ground (
      arith,
      payment_of-save team x.pk p p' payments c.payment_keys c.one_to_one e f g,
      payment_of-release team x.pk (update (λ q. q.pk == p'.pk) (λ _. p') payments),
    )

pub IsConsistent-drop :
    (p p' : TeamPayment) (team : ℕ) (teams : List Team) (payments : List TeamPayment)
    → IsConsistent teams payments
    → first (λ q. q.pk == p'.pk) payments ≡ some p
    → p.team ≡ some team
    → p'.team ≡ some team
    → IsConsistent
        (delete (λ t. t.pk == team) teams)
        (release team (update (λ q. q.pk == p'.pk) (λ _. p') payments))
IsConsistent-drop p p' team teams payments c e f g = record {
  team_keys = Distinct-delete team_key (λ t. t.pk == team) teams c.team_keys;
  payment_keys =
      Distinct-update payment_key (λ q. is_at q.team team) _
        (update (λ q. q.pk == p'.pk) (λ _. p') payments) (λ q. refl)
        (Distinct-save payment_key p' payments c.payment_keys);
  one_to_one =
      OneToOne-release team _
        (OneToOne-save p' p payments c.payment_keys e (g ∙ sym f) c.one_to_one);
  settled = IsSettled-drop p p' team teams payments c e f g;
}

-- The payment found for a team, by its own key.
pub payment_found :
    (team : ℕ) (p : TeamPayment) (rows : List TeamPayment)
    → Distinct payment_key rows
    → payment_of rows team ≡ some p
    → (first (λ q. q.pk == p.pk) rows ≡ some p) × (p.team ≡ some team)
unfolding payment_of
payment_found team p [] d h = absurd (cc)
payment_found team p (x ∷ xs) d h = elim (Bool-cases (is_at x.team team)) [
  | inl here ↦ ground arith
  | inr there ↦
      let rest = payment_found team p xs d.1 (rw there at h) in
      elim (Bool-cases (x.pk == p.pk)) [
        | inl same ↦
            let twice : exists (λ q. q.pk == x.pk) xs ≡ true =
              rw (==→eq _ _ same) (exists_of_first (λ q. q.pk == p.pk) xs p rest.0) in
            absurd (ground (arith, d.0))
        | inr other ↦ rw other rest
      ]
]

fits_set :
    (p : Option TeamPayment) (status status' : TeamStatus)
    → is_unpaid status ≡ false
    → is_unpaid status' ≡ false
    → fits p status ≡ true
    → fits p status' ≡ true
fits_set p status status' u u' h = ground arith

-- A change of a team between statuses that no payment waits on.
pub IsConsistent-set :
    (t t' : Team) (teams : List Team) (payments : List TeamPayment)
    → IsConsistent teams payments
    → first (λ x. x.pk == t'.pk) teams ≡ some t
    → t.pk ≡ t'.pk
    → is_unpaid t.status ≡ false
    → is_unpaid t'.status ≡ false
    → IsConsistent (update (λ x. x.pk == t'.pk) (λ _. t') teams) payments
IsConsistent-set t t' teams payments c e k u u' =
    let old = All_first (IsSettled payments) (λ x. x.pk == t'.pk) teams t c.settled e in
    let unset = fits_set (payment_of payments t'.pk) t.status t'.status u u' in
    let new : IsSettled payments t' = unset (ground arith) in
    record {
      team_keys = Distinct-save team_key t' teams c.team_keys;
      payment_keys = c.payment_keys;
      one_to_one = c.one_to_one;
      settled = All-save team_key (IsSettled payments) _ t' teams c.settled new (λ x ne h. h);
    }
