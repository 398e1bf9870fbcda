-- ===== src/Hackathon/Team/Creation.antt =====
-- `TeamService.create_team` of apps/hackathons/services.py: the rows of a new team.
mod Reads
use srkrcc_main_application.Common.{
  ℕ, ◌≡◌, ap, sym, subst, ◌∙◌, refl, String, Bool, true, false, not, ◌&&◌, [], ◌∷◌, ◌⊎◌, update,
  ==_refl, Option, none, some, List, ◌==◌, arith, exists, append, str_eq, if◌then◌else◌, Python,
  inl, inr,
}
use srkrcc_main_application.Hackathon.Model.{
  flag, User, Team, TeamPayment, pay_pending, payment_pending, forming, TeamMember, leader_role,
  Answer, IdeaFile, is_pending_invite,
}
use srkrcc_main_application.Hackathon.Monad.{Db, ok, ◌>>◌}
use srkrcc_main_application.Hackathon.Outcome.{Result-cases}
use srkrcc_main_application.Hackathon.Registration.{
  RegistrationData, check_eligibility, registration_inputs,
}
use srkrcc_main_application.Hackathon.Registration.Reads.{
  check_eligibility_reads, registration_inputs_reads,
}
use srkrcc_main_application.Hackathon.Registration.Capacity.{should_waitlist_new_team}
use srkrcc_main_application.Hackathon.Team.{
  require_registration_open, require_profile_complete, create_member, cancel_invites_of,
  size_status, save_status, recompute_status,
}
use srkrcc_main_application.Hackathon.Team.Admission.{no_invites}
use srkrcc_main_application.Hackathon.Team.Problem.{
  OpenInnovation, Problem, check_problem_statement, require_problems_revealed, clean_text,
  clean_open_innovation, resolve_problem,
}
use srkrcc_main_application.Hackathon.Team.Formation.{
  NewTeam, attach, create_rows, create_new, creation_inputs, decide_seat, data_or_empty,
}
use srkrcc_main_application.Hackathon.Payments.{attach_payment, payment_key, clean_submission}
use srkrcc_main_application.Hackathon.Store.{size, has_team}
use srkrcc_main_application.Hackathon.Withdrawals.{check_can_create}
use srkrcc_main_application.Hackathon.Team.Creation.Reads.{
  is_sent, require_problems_revealed_reads, should_waitlist_new_team_reads,
  check_problem_statement_reads, clean_submission_reads, clean_text_reads,
  clean_open_innovation_reads, resolve_problem_reads, decide_seat_reads, decide_seat_sent,
  creation_inputs_reads,
}

-- The payment of a new team, which waits for its review, was added or not.
abbrev pub Submitted : Bool → ℕ → ℕ → List TeamPayment → List TeamPayment → Type 0
Submitted false team user ps ps' = ps' ≡ ps
Submitted true team user ps ps' =
    (p : TeamPayment) × (p.team ≡ some team)
    × (p.submitted_by ≡ user)
    × (p.status ≡ pay_pending)
    × (ps' ≡ append ps p)

-- What creating the team `t'` of `u` leaves.
pub record Created (u : User) (by pay : Bool) (name : String) (db : Db) (t' : Team) (db' : Db)
    : Type 0 where
  pub row : db'.teams ≡ append db.teams t'
  pub payment : Submitted (pay && not by) t'.pk u.pk db.payments db'.payments
  pub key : t'.pk ≡ db.next_pk
  pub named : t'.name ≡ name
  pub leader : t'.leader ≡ some u.pk
  pub status : t'.status ≡ (
      if pay
      then payment_pending
      else size_status db.hackathon.min_team_size (size t'.pk db'.members))
  pub joined :
      (m : TeamMember) × (m.team ≡ t'.pk)
      × (m.user ≡ u.pk)
      × (m.role ≡ leader_role)
      × (db'.members ≡ append db.members m)
  pub invites :
      exists (λ i. i.invited_user == u.pk && is_pending_invite i.status) db'.invites ≡ false

abbrev founder : ℕ → User → Option ℕ × List (String × Answer) → TeamMember
founder team u inputs = record {
  team = team;
  user = u.pk;
  role = leader_role;
  rules_accepted_at = inputs.0;
  answers = inputs.1;
}

-- The announcements change neither the team nor these rows.
Created-out :
    (u : User) (by pay : Bool) (name : String) (t' t2 : Team) (db s db' : Db)
    → Created u by pay name db t2 s
    → (t' ≡ t2)
      × (db'.members ≡ s.members)
      × (db'.invites ≡ s.invites)
      × (db'.teams ≡ s.teams)
      × (db'.payments ≡ s.payments)
    → Created u by pay name db t' db'
Created-out u by pay name t' t2 db s db' c out =
    subst (λ x. Created u by pay name db x db') (sym out.0)
      (record {
        row = out.3 ∙ c.row;
        payment = subst (Submitted (pay && not by) t2.pk u.pk db.payments) (sym out.4) c.payment;
        key = c.key;
        named = c.named;
        leader = c.leader;
        status =
            subst
              (λ ms. t2.status ≡ (
                if pay
                then payment_pending
                else size_status db.hackathon.min_team_size (size t2.pk ms)))
              (sym out.1) c.status;
        joined = (c.joined.0, c.joined.1, c.joined.2, c.joined.3, out.1 ∙ c.joined.4);
        invites =
            subst
              (λ is. exists (λ i. i.invited_user == u.pk && is_pending_invite i.status) is ≡ false)
              (sym out.2) c.invites;
      })

overwrite_last :
    (r t : Team) (ts : List Team)
    → exists (λ x. x.pk == t.pk) ts ≡ false
    → update (λ x. x.pk == t.pk) (λ _. r) (append ts t) ≡ append ts r
overwrite_last r t [] h = ground (arith, ==_refl t.pk)
overwrite_last r t (x ∷ ts) h = ground (arith, overwrite_last r t ts)

module _ (py : Python) where
  abbrev first_payment : Team → User → IdeaFile → String → Db → TeamPayment
  first_payment t u file reference db = record {
    pk = db.next_pk;
    team = some t.pk;
    submitted_by = u.pk;
    amount = db.hackathon.idea_fee_amount;
    transaction_id = reference;
    transaction_key = payment_key py reference;
    screenshot = some file.pk;
    status = pay_pending;
    reason = "";
    reviewed_by = none;
    reviewed_at = none;
  }

  attach_keeps :
      (t : Team) (u : User) (x : Option (IdeaFile × String)) (y : Unit {0}) (db db' : Db)
      → attach py t u x db ≡ ok (y, db')
      → (db'.members ≡ db.members)
        × (db'.invites ≡ db.invites)
        × (db'.hackathon ≡ db.hackathon)
        × (db'.now ≡ db.now)
        × (db'.teams ≡ db.teams)
        × Submitted (is_sent x) t.pk u.pk db.payments db'.payments
  unfolding attach attach_payment
  attach_keeps t u none y db db' h = ground arith
  attach_keeps t u (some (file, reference)) y db db' h = (
    ground arith,
    ground arith,
    ground arith,
    ground arith,
    ground arith,
    (first_payment t u file reference db, refl, refl, refl, ground arith),
  )

  create_rows_ok :
      (u : User) (name : String) (by pay queued : Bool) (p : Problem)
      (inputs : Option ℕ × List (String × Answer)) (t : Team) (db db' : Db)
      → create_rows py u name by pay queued p inputs db ≡ ok (t, db')
      → (t.pk ≡ db.next_pk)
        × (t.name ≡ name)
        × (t.leader ≡ some u.pk)
        × (t.status ≡ (if pay then payment_pending else forming))
        × (db'.members ≡ append db.members (founder db.next_pk u inputs))
        × (db'.invites ≡ db.invites)
        × (db'.hackathon ≡ db.hackathon)
        × (db'.now ≡ db.now)
        × (db'.teams ≡ append db.teams t)
        × (db'.payments ≡ db.payments)
  unfolding create_rows create_member
  create_rows_ok u name by pay queued p inputs t db db' h = ground arith

  -- The part of `create_new` after the rows were created and the payment attached.
  announced :
      (t : Team) (u : User) (pay : Bool) (db : Db)
      → (t.status ≡ (if pay then payment_pending else forming))
      → (t' : Team) (j : Bool) (db' : Db)
      → (cancel_invites_of u.pk >> recompute_status t) db ≡ ok ((t', j), db')
      → (t'.pk ≡ t.pk)
        × (t'.name ≡ t.name)
        × (t'.leader ≡ t.leader)
        × (t'.status ≡ (
            if pay
            then payment_pending
            else size_status db.hackathon.min_team_size (size t.pk db.members)))
        × (db'.members ≡ db.members)
        × (exists (λ i. i.invited_user == u.pk && is_pending_invite i.status) db'.invites ≡ false)
        × (((t' ≡ t) × (db'.teams ≡ db.teams))
            ⊎ (db'.teams ≡ update (λ x. x.pk == t.pk) (λ _. t') db.teams))
        × (db'.payments ≡ db.payments)
  unfolding cancel_invites_of recompute_status save_status
  announced t u pay db e t' j db' h = ground (arith, no_invites u.pk db.now db.invites)

  Created-of :
      (u : User) (by pay : Bool) (name : String) (inputs : Option ℕ × List (String × Answer))
      (t t2 : Team) (x : Option (IdeaFile × String)) (db s4 s5 s6 : Db)
      → exists (λ x. x.pk == db.next_pk) db.teams ≡ false
      → is_sent x ≡ (pay && not by)
      → (t.pk ≡ db.next_pk)
        × (t.name ≡ name)
        × (t.leader ≡ some u.pk)
        × (t.status ≡ (if pay then payment_pending else forming))
        × (s4.members ≡ append db.members (founder db.next_pk u inputs))
        × (s4.invites ≡ db.invites)
        × (s4.hackathon ≡ db.hackathon)
        × (s4.now ≡ db.now)
        × (s4.teams ≡ append db.teams t)
        × (s4.payments ≡ db.payments)
      → (s5.members ≡ s4.members)
        × (s5.invites ≡ s4.invites)
        × (s5.hackathon ≡ s4.hackathon)
        × (s5.now ≡ s4.now)
        × (s5.teams ≡ s4.teams)
        × Submitted (is_sent x) t.pk u.pk s4.payments s5.payments
      → (t2.pk ≡ t.pk)
        × (t2.name ≡ t.name)
        × (t2.leader ≡ t.leader)
        × (t2.status ≡ (
            if pay
            then payment_pending
            else size_status s5.hackathon.min_team_size (size t.pk s5.members)))
        × (s6.members ≡ s5.members)
        × (exists (λ i. i.invited_user == u.pk && is_pending_invite i.status) s6.invites ≡ false)
        × (((t2 ≡ t) × (s6.teams ≡ s5.teams))
            ⊎ (s6.teams ≡ update (λ x. x.pk == t.pk) (λ _. t2) s5.teams))
        × (s6.payments ≡ s5.payments)
      → Created u by pay name db t2 s6
  Created-of u by pay name inputs t t2 x db s4 s5 s6 unused sent rows kept last = record {
    row = elim (last.6) [
      | inl (same, e) ↦ e ∙ kept.4 ∙ rows.8 ∙ ap (append db.teams) (sym same)
      | inr e ↦
          e
          ∙ ap (update (λ x. x.pk == t.pk) (λ _. t2)) (kept.4 ∙ rows.8)
          ∙ overwrite_last t2 t db.teams (rw rows.0 unused)
    ];
    payment = rw (← sent) (rw last.0 (rw last.7 (rw (← rows.9) kept.5)));
    key = last.0 ∙ rows.0;
    named = last.1 ∙ rows.1;
    leader = last.2 ∙ rows.2;
    status =
        last.3
        ∙ ap
            (λ k.
              if pay then payment_pending else size_status k.min_team_size (size t.pk s5.members))
            (kept.2 ∙ rows.6)
        ∙ ap
            (λ k.
              if pay
              then payment_pending
              else size_status db.hackathon.min_team_size (size k s5.members))
            (sym last.0)
        ∙ ap
            (λ ms.
              if pay
              then payment_pending
              else size_status db.hackathon.min_team_size (size t2.pk ms))
            (sym last.4);
    joined =
        (founder db.next_pk u inputs, sym (last.0 ∙ rows.0), refl, refl, last.4 ∙ kept.0 ∙ rows.4);
    invites = last.5;
  }

  -- A new team is created only for a leader without a team, under a name that no team has in any case
  -- of its letters. It has the new key, the name and the leader, who is its member, added last, and has
  -- no pending invite left. A team to be paid for waits as PAYMENT_PENDING; the status of any other
  -- fits its size. The team is the last of the teams, and no other team changes. A payment of the leader
  -- for it, to be reviewed, is added exactly where it is to be paid for and no organizer creates it. Here
  -- no team has the next primary key yet.
  pub create_new-Created :
      (u : User) (by pay : Bool) (name : String) (new : NewTeam) (t' : Team) (db db' : Db)
      → exists (λ x. x.pk == db.next_pk) db.teams ≡ false
      → create_new py u by pay name new db ≡ ok (t', db')
      → (has_team u.pk db.members ≡ false)
        × (exists (λ t. str_eq (py.lower t.name) (py.lower name)) db.teams ≡ false)
        × Created u by pay name db t' db'
  unfolding create_new
  create_new-Created u by pay name new t' db db' unused h =
      elim (Result-cases (creation_inputs py u by new.data' db)) [
        | inl (e, p) ↦ absurd (ground arith)
        | inr ((inputs, s1), p1) ↦
            let same1 = creation_inputs_reads py u by new.data' inputs db s1 p1 in
            elim (Result-cases
              (resolve_problem py new.problem_statement new.open_innovation none db)) [
                | inl (e, p) ↦ absurd (ground (arith, same1))
                | inr ((problem, s2), p2) ↦
                    let same2 =
                      resolve_problem_reads py new.problem_statement new.open_innovation none
                        problem db s2 p2 in
                    elim (Result-cases (decide_seat py u by pay new db)) [
                      | inl (e, p) ↦ absurd (ground (arith, same1, same2))
                      | inr ((seat, s3), p3) ↦
                          let same3 = decide_seat_reads py u by pay new seat db s3 p3 in
                          elim (Result-cases
                            (create_rows py u name by pay seat.0 problem inputs db)) [
                              | inl (e, p) ↦ absurd (ground (arith, same1, same2, same3))
                              | inr ((t, s4), p4) ↦
                                  let rows =
                                    create_rows_ok u name by pay seat.0 problem inputs t db s4 p4 in
                                  elim (Result-cases (attach py t u seat.1 s4)) [
                                    | inl (e, p) ↦ absurd (ground (arith, same1, same2, same3))
                                    | inr ((y, s5), p5) ↦
                                        let kept = attach_keeps t u seat.1 y s4 s5 p5 in
                                        elim (Result-cases
                                          ((cancel_invites_of u.pk >> recompute_status t) s5)) [
                                            | inl (e, p) ↦
                                                absurd (ground (arith, same1, same2, same3))
                                            | inr (((t2, j), s6), p6) ↦
                                                let last = announced t u pay s5 rows.3 t2 j s6 p6 in
                                                let done =
                                                  Created-of u by pay name inputs t t2 seat.1 db s4
                                                    s5 s6 unused
                                                    (decide_seat_sent py u by pay new seat db s3 p3)
                                                    rows kept last in
                                                let out : (t' ≡ t2)
                                                    × (db'.members ≡ s6.members)
                                                    × (db'.invites ≡ s6.invites)
                                                    × (db'.teams ≡ s6.teams)
                                                    × (db'.payments ≡ s6.payments) =
                                                  ground (arith, same1, same2, same3) in
                                                (
                                                  ground (arith, same1),
                                                  ground (arith, same1),
                                                  Created-out u by pay name t' t2 db s6 db' done
                                                      out,
                                                )
                                          ]
                                  ]
                            ]
                    ]
              ]
      ]
