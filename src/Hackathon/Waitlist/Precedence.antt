-- ===== src/Hackathon/Waitlist/Precedence.antt =====
-- Nobody overtakes: who is placed first by `WaitlistService` of apps/hackathons/services.py.
use srkrcc_main_application.Common.{
  ℕ, ◌≤◌, ◌<◌, ◌≡◌, refl, ap, sym, subst, ◌∙◌, Bool, true, false, not, ◌&&◌, none, some, List, [],
  ◌∷◌, arith, ◌==◌, is_at, first, exists, Bool-cases, inl, inr, ◌⊎◌, ==→eq, ==_refl,
}
use srkrcc_main_application.Common.Rows.Laws.{All, Distinct}
use srkrcc_main_application.Hackathon.Model.{Team, TeamPayment, is_active}
use srkrcc_main_application.Hackathon.Monad.{Db}
use srkrcc_main_application.Hackathon.Store.{size}
use srkrcc_main_application.Hackathon.Registration.Capacity.{teams_full, participants_would_exceed}
use srkrcc_main_application.Hackathon.Waitlist.{
  is_earlier, queued_at, waitlist, place, promote_from, promote_waitlist,
}
use srkrcc_main_application.Hackathon.Waitlist.Capacity.{unqueued}
use srkrcc_main_application.Hackathon.Waitlist.Fairness.{
  is_waiting, place-Grows, place-served, promote_from-Grows, promote_from-full, promote_from-over,
  promote_from-fits, would_exceed-Grows,
}
use srkrcc_main_application.Hackathon.Waitlist.Order.{
  Among, Ordered, apart, waitlist-Ordered, waitlist-Distinct, waitlist-Among, waitlist-absent,
}

Among-waiting :
    (b : Team) (ts : List Team) → b.is_waitlisted ≡ true → Among b ts → is_waiting b.pk ts ≡ true
Among-waiting b [] h m = absurd m
Among-waiting b (t ∷ ts) h (inl e) = rw e (ground (arith, h, ==_refl b.pk))
Among-waiting b (t ∷ ts) h (inr m) = ground (arith, Among-waiting b ts h m)

unqueued-waiting :
    (team k : ℕ) (ts : List Team)
    → (team == k) ≡ false
    → is_waiting k ts ≡ true
    → is_waiting k (unqueued team ts) ≡ true
unqueued-waiting team k [] h w = w
unqueued-waiting team k (t ∷ ts) h w = ground (arith, unqueued-waiting team k ts h)

place-waiting :
    (t : Team) (k : ℕ) (db : Db)
    → (t.pk == k) ≡ false
    → is_waiting k db.teams ≡ true
    → is_waiting k (place t db).teams ≡ true
unfolding place
place-waiting t k db h w = unqueued-waiting t.pk k db.teams h w

abbrev exceeds : ℕ → Db → Bool
exceeds team db = participants_would_exceed db.hackathon db.teams db.members (size team db.members)

waits_by :
    (k : ℕ) (db db' : Db) → db ≡ db' → is_waiting k db'.teams ≡ true → is_waiting k db.teams ≡ true
waits_by k db db' e w = rw e w

tail_absent :
    (t : Team) (k : ℕ) (queue : List Team) (P : Type 0)
    → (exists (λ x. x.pk == k) (t ∷ queue) ≡ false) ⊎ P
    → (exists (λ x. x.pk == k) queue ≡ false) ⊎ P
tail_absent t k queue P (inl h) = inl (ground (arith, h))
tail_absent t k queue P (inr p) = inr p

-- A team that is not in the queue, or does not fit, keeps waiting.
stays_waiting :
    (k : ℕ) (queue : List Team) (db : Db)
    → (exists (λ x. x.pk == k) queue ≡ false) ⊎ (exceeds k db ≡ true)
    → is_waiting k db.teams ≡ true
    → is_waiting k (promote_from queue db).teams ≡ true
unfolding promote_from place
stays_waiting k [] db h w = w
stays_waiting k (t ∷ queue) db h w = elim (Bool-cases (teams_full db.hackathon db.teams)) [
  | inl full ↦ waits_by k _ db (promote_from-full t queue db full) w
  | inr free ↦ elim (Bool-cases (exceeds t.pk db)) [
    | inl over ↦
        waits_by k _ (promote_from queue db) (promote_from-over t queue db free over)
          (stays_waiting k queue db (tail_absent t k queue (exceeds k db ≡ true) h) w)
    | inr fits ↦
        let other : (t.pk == k) ≡ false = elim h [
          | inl absent ↦ ground arith
          | inr over ↦ elim (Bool-cases (t.pk == k)) [
            | inl same ↦
                absurd (ground (arith, sym (ap (λ j. exceeds j db) (==→eq t.pk k same)) ∙ fits))
            | inr y ↦ y
          ]
        ] in
        let kept : (exists (λ x. x.pk == k) queue ≡ false) ⊎ (exceeds k (place t db) ≡ true) =
          elim h [
            | inl absent ↦ inl (ground arith)
            | inr over ↦
                inr (would_exceed-Grows (size k db.members) db (place t db) (place-Grows t db) over)
          ] in
        waits_by k _ (promote_from queue (place t db)) (promote_from-fits t queue db free fits)
          (stays_waiting k queue (place t db) kept (place-waiting t k db other w))
  ]
]

placed_by :
    (k : ℕ) (db db' : Db)
    → db ≡ db'
    → is_waiting k db.teams ≡ false
    → is_waiting k db'.teams ≡ false
placed_by k db db' e p = rw (← e) p

placed_of :
    (k : ℕ) (db db' : Db)
    → db ≡ db'
    → is_waiting k db'.teams ≡ false
    → is_waiting k db.teams ≡ false
placed_of k db db' e p = rw e p

contradiction : {b : Bool} → b ≡ true → b ≡ false → ⊥
contradiction h k = ground (arith, h, k)

exceeds_mono :
    (k j : ℕ) (db : Db)
    → size k db.members ≤ size j db.members
    → exceeds k db ≡ true
    → exceeds j db ≡ true
unfolding participants_would_exceed
exceeds_mono k j db n h = ground (arith, n, h)

-- The head of an ordered queue is behind nobody in it.
never_behind :
    (payments : List TeamPayment) (t a b : Team) (queue : List Team)
    → All (λ c. is_earlier payments c t ≡ false) queue
    → Among a queue
    → t ≡ b
    → is_earlier payments a b ≡ true
    → ⊥
never_behind payments t a b [] all m eb e = m
never_behind payments t a b (x ∷ queue) all (inl ea) eb e =
    contradiction e
      (ap (λ y. is_earlier payments y b) (sym ea) ∙ ap (is_earlier payments x) (sym eb) ∙ all.0)
never_behind payments t a b (x ∷ queue) all (inr m) eb e =
    never_behind payments t a b queue all.1 m eb e

-- Of two teams in the queue the later one, no smaller than the other, is not placed alone.
precedes :
    (a b : Team) (payments : List TeamPayment) (queue : List Team) (db : Db)
    → Ordered payments queue
    → Distinct (λ t. t.pk) queue
    → Among a queue
    → Among b queue
    → is_earlier payments a b ≡ true
    → size a.pk db.members ≤ size b.pk db.members
    → is_waiting b.pk db.teams ≡ true
    → is_waiting b.pk (promote_from queue db).teams ≡ false
    → is_waiting a.pk (promote_from queue db).teams ≡ false
unfolding place
precedes a b payments [] db o u ma mb e n w p = absurd ma
precedes a b payments (t ∷ queue) db o u ma mb e n w p =
    elim (Bool-cases (teams_full db.hackathon db.teams)) [
      | inl full ↦
          absurd (contradiction (waits_by b.pk _ db (promote_from-full t queue db full) w) p)
      | inr free ↦ elim (Bool-cases (exceeds t.pk db)) [
        | inl over ↦
            let same = promote_from-over t queue db free over in
            let p' = placed_by b.pk _ (promote_from queue db) same p in
            placed_of a.pk _ (promote_from queue db) same (elim (ma) [
              | inl ea ↦
                  let large =
                    exceeds_mono a.pk b.pk db n (ap (λ x. exceeds x.pk db) (sym ea) ∙ over) in
                  absurd (contradiction (stays_waiting b.pk queue db (inr large) w) p')
              | inr ma' ↦ elim (mb) [
                | inl eb ↦ absurd (never_behind payments t a b queue o.0 ma' eb e)
                | inr mb' ↦ precedes a b payments queue db o.1 u.1 ma' mb' e n w p'
              ]
            ])
        | inr fits ↦
            let next = place t db in
            let same = promote_from-fits t queue db free fits in
            let p' = placed_by b.pk _ (promote_from queue next) same p in
            placed_of a.pk _ (promote_from queue next) same (elim (ma) [
              | inl ea ↦
                  (promote_from-Grows queue next).served a.pk
                    (subst (λ x. is_waiting x.pk next.teams ≡ false) ea (place-served t db))
              | inr ma' ↦ elim (mb) [
                | inl eb ↦ absurd (never_behind payments t a b queue o.0 ma' eb e)
                | inr mb' ↦
                    precedes a b payments queue next o.1 u.1 ma' mb' e n
                      (place-waiting t b.pk db (apart t b queue u.0 mb') w) p'
              ]
            ])
      ]
    ]

-- Since when a team waits: a team that paid, since its payment was reviewed; any other, since it was
-- created.
abbrev pub WaitsSince : List TeamPayment → Team → ℕ → Type 0
WaitsSince payments t since =
    ((p : TeamPayment) × (first (λ q. is_at q.team t.pk) payments ≡ some p)
      × (p.reviewed_at ≡ some since))
    ⊎ ((p : TeamPayment) × (first (λ q. is_at q.team t.pk) payments ≡ some p)
        × (p.reviewed_at ≡ none)
        × (t.created_at ≡ since))
    ⊎ ((first (λ q. is_at q.team t.pk) payments ≡ none) × (t.created_at ≡ since))

WaitsSince-queued :
    (payments : List TeamPayment) (t : Team) (since : ℕ)
    → WaitsSince payments t since
    → queued_at payments t ≡ since
WaitsSince-queued payments t since (inl (p, f, r)) = ground (arith, f, r)
WaitsSince-queued payments t since (inr (inl (p, f, r, c))) = ground (arith, f, r, c)
WaitsSince-queued payments t since (inr (inr (f, c))) = ground (arith, f, c)

-- Nobody overtakes on the waitlist: where a waitlisted team gets a place, it is active, and so does each
-- active waitlisted team that waits longer, or as long with the smaller primary key, and has no more
-- members. A team waits since its payment was reviewed, or since it was created where no payment of it
-- was. Here no two teams have the same primary key.
pub promote_waitlist-precedence :
    (a b : Team) (since since' : ℕ) (db : Db)
    → Distinct (λ t. t.pk) db.teams
    → Among a db.teams
    → Among b db.teams
    → a.is_waitlisted ≡ true
    → b.is_waitlisted ≡ true
    → is_active a.status ≡ true
    → WaitsSince db.payments a since
    → WaitsSince db.payments b since'
    → (since < since') ⊎ ((since ≡ since') × (a.pk < b.pk))
    → size a.pk db.members ≤ size b.pk db.members
    → is_waiting b.pk (promote_waitlist db).teams ≡ false
    → (is_active b.status ≡ true) × (is_waiting a.pk (promote_waitlist db).teams ≡ false)
unfolding promote_waitlist
promote_waitlist-precedence a b since since' db u ma mb wa wb active sa sb earlier n p =
    let waits = Among-waiting b db.teams wb mb in
    elim (Bool-cases
      (not db.hackathon.waitlist_enabled && not (exists (λ t. t.is_waitlisted) db.teams))) [
        | inl off ↦
            absurd (contradiction waits (placed_by b.pk (promote_waitlist db) db (rw off refl) p))
        | inr on ↦
            let same : promote_waitlist db ≡ promote_from (waitlist db) db = rw on refl in
            let p' = placed_by b.pk (promote_waitlist db) (promote_from (waitlist db) db) same p in
            let before : is_earlier db.payments a b ≡ true = ground (
              arith,
              WaitsSince-queued db.payments a since sa,
              WaitsSince-queued db.payments b since' sb,
              earlier,
            ) in
            elim (Bool-cases (is_active b.status)) [
              | inl y ↦ (
                y,
                placed_of a.pk (promote_waitlist db) (promote_from (waitlist db) db) same (
                    precedes a b db.payments (waitlist db) db (waitlist-Ordered db)
                      (waitlist-Distinct db u) (waitlist-Among a db (ground (arith, wa, active)) ma)
                      (waitlist-Among b db (ground (arith, wb, y)) mb) before n waits p'),
              )
              | inr away ↦ absurd (
                  contradiction
                    (stays_waiting b.pk (waitlist db) db
                      (inl (waitlist-absent b db u (ground (arith, away)) mb)) waits)
                    p')
            ]
      ]
