-- ===== src/Hackathon/Waitlist/Order.antt =====
-- The queue of `WaitlistService` of apps/hackathons/services.py: who is in it, and in which order.
use srkrcc_main_application.Common.{
  ◌≡◌, refl, ap, ◌∙◌, Bool, true, false, ◌||◌, List, [], ◌∷◌, arith, ◌==◌, exists, select,
  Bool-cases, inl, inr, ◌⊎◌,
}
use srkrcc_main_application.Common.Rows.Laws.{All, Distinct}
use srkrcc_main_application.Hackathon.Model.{Team, TeamPayment}
use srkrcc_main_application.Hackathon.Monad.{Db}
use srkrcc_main_application.Hackathon.Waitlist.{
  is_earlier, is_queued, insert_team, sort_teams, waitlist,
}

-- A row of the table.
abbrev pub Among : Team → List Team → Type 0
Among b [] = ⊥
Among b (t ∷ ts) = (t ≡ b) ⊎ Among b ts

-- No team stands behind one that queues later than it does.
abbrev pub Ordered : List TeamPayment → List Team → Type 0
Ordered payments [] = Unit
Ordered payments (a ∷ ts) = All (λ b. is_earlier payments b a ≡ false) ts × Ordered payments ts

later_trans :
    (payments : List TeamPayment) (a b c : Team)
    → is_earlier payments b a ≡ false
    → is_earlier payments c b ≡ false
    → is_earlier payments c a ≡ false
later_trans payments a b c h k = ground arith

later-All :
    (payments : List TeamPayment) (a b : Team) (ts : List Team)
    → is_earlier payments b a ≡ false
    → All (λ c. is_earlier payments c b ≡ false) ts
    → All (λ c. is_earlier payments c a ≡ false) ts
later-All payments a b [] h k = tt
later-All payments a b (c ∷ ts) h k =
    (later_trans payments a b c h k.0, later-All payments a b ts h k.1)

insert_team-All :
    (payments : List TeamPayment) (a b : Team) (ts : List Team)
    → is_earlier payments a b ≡ false
    → All (λ c. is_earlier payments c b ≡ false) ts
    → All (λ c. is_earlier payments c b ≡ false) (insert_team payments a ts)
unfolding insert_team
insert_team-All payments a b [] h k = (h, tt)
insert_team-All payments a b (c ∷ ts) h k = elim (Bool-cases (is_earlier payments a c)) [
  | inl e ↦ rw e (h, (k.0, k.1))
  | inr e ↦ rw e (k.0, insert_team-All payments a b ts h k.1)
]

insert_team-Ordered :
    (payments : List TeamPayment) (a : Team) (ts : List Team)
    → Ordered payments ts
    → Ordered payments (insert_team payments a ts)
unfolding insert_team
insert_team-Ordered payments a [] h = (tt, tt)
insert_team-Ordered payments a (b ∷ ts) h = elim (Bool-cases (is_earlier payments a b)) [
  | inl e ↦
      let behind : is_earlier payments b a ≡ false = ground arith in
      rw e ((behind, later-All payments a b ts behind h.0), h)
  | inr e ↦ rw e (insert_team-All payments a b ts e h.0, insert_team-Ordered payments a ts h.1)
]

sort_teams-Ordered :
    (payments : List TeamPayment) (ts : List Team) → Ordered payments (sort_teams payments ts)
unfolding sort_teams
sort_teams-Ordered payments [] = tt
sort_teams-Ordered payments (a ∷ ts) =
    insert_team-Ordered payments a (sort_teams payments ts) (sort_teams-Ordered payments ts)

-- A row has another key than a row behind it.
pub apart :
    (t b : Team) (ts : List Team)
    → exists (λ x. x.pk == t.pk) ts ≡ false
    → Among b ts
    → (t.pk == b.pk) ≡ false
apart t b [] h m = absurd m
apart t b (x ∷ ts) h (inl e) = rw (← e) (ground (arith, h))
apart t b (x ∷ ts) h (inr m) = apart t b ts (ground (arith, h)) m

Among-select :
    (p : Team → Bool) (b : Team) (ts : List Team) → p b ≡ true → Among b ts → Among b (select p ts)
Among-select p b [] h m = absurd m
Among-select p b (t ∷ ts) h (inl e) = rw (ap p e ∙ h) (inl e)
Among-select p b (t ∷ ts) h (inr m) = elim (Bool-cases (p t)) [
  | inl y ↦ rw y (inr (Among-select p b ts h m))
  | inr n ↦ rw n (Among-select p b ts h m)
]

Among-insert_team :
    (payments : List TeamPayment) (a b : Team) (ts : List Team)
    → Among b (a ∷ ts)
    → Among b (insert_team payments a ts)
unfolding insert_team
Among-insert_team payments a b [] m = m
Among-insert_team payments a b (t ∷ ts) m = elim (Bool-cases (is_earlier payments a t)) [
  | inl e ↦ rw e m
  | inr e ↦ rw e (elim m [
    | inl x ↦ inr (Among-insert_team payments a b ts (inl x))
    | inr (inl x) ↦ inl x
    | inr (inr x) ↦ inr (Among-insert_team payments a b ts (inr x))
  ])
]

Among-sort_teams :
    (payments : List TeamPayment) (b : Team) (ts : List Team)
    → Among b ts
    → Among b (sort_teams payments ts)
unfolding sort_teams
Among-sort_teams payments b [] m = absurd m
Among-sort_teams payments b (t ∷ ts) (inl e) =
    Among-insert_team payments t b (sort_teams payments ts) (inl e)
Among-sort_teams payments b (t ∷ ts) (inr m) =
    Among-insert_team payments t b (sort_teams payments ts) (inr (Among-sort_teams payments b ts m))

exists-insert_team :
    (payments : List TeamPayment) (p : Team → Bool) (a : Team) (ts : List Team)
    → exists p (insert_team payments a ts) ≡ exists p (a ∷ ts)
unfolding insert_team
exists-insert_team payments p a [] = refl
exists-insert_team payments p a (t ∷ ts) = elim (Bool-cases (is_earlier payments a t)) [
  | inl e ↦ rw e refl
  | inr e ↦ rw e (ground (arith, exists-insert_team payments p a ts))
]

exists-sort_teams :
    (payments : List TeamPayment) (p : Team → Bool) (ts : List Team)
    → exists p (sort_teams payments ts) ≡ exists p ts
unfolding sort_teams
exists-sort_teams payments p [] = refl
exists-sort_teams payments p (t ∷ ts) =
    exists-insert_team payments p t (sort_teams payments ts)
    ∙ ap (λ y. p t || y) (exists-sort_teams payments p ts)

none-select :
    (p q : Team → Bool) (ts : List Team) → exists p ts ≡ false → exists p (select q ts) ≡ false
none-select p q [] h = refl
none-select p q (t ∷ ts) h = ground (arith, none-select p q ts)

Distinct-select :
    (q : Team → Bool) (ts : List Team)
    → Distinct (λ t. t.pk) ts
    → Distinct (λ t. t.pk) (select q ts)
Distinct-select q [] u = tt
Distinct-select q (t ∷ ts) u = elim (Bool-cases (q t)) [
  | inl e ↦ rw e (none-select (λ x. x.pk == t.pk) q ts u.0, Distinct-select q ts u.1)
  | inr e ↦ rw e (Distinct-select q ts u.1)
]

Distinct-insert_team :
    (payments : List TeamPayment) (a : Team) (ts : List Team)
    → exists (λ x. x.pk == a.pk) ts ≡ false
    → Distinct (λ t. t.pk) ts
    → Distinct (λ t. t.pk) (insert_team payments a ts)
unfolding insert_team
Distinct-insert_team payments a [] h u = (refl, tt)
Distinct-insert_team payments a (t ∷ ts) h u = elim (Bool-cases (is_earlier payments a t)) [
  | inl e ↦ rw e (h, u)
  | inr e ↦ rw e (
    exists-insert_team payments (λ x. x.pk == t.pk) a ts ∙ ground (arith, h, u.0),
    Distinct-insert_team payments a ts (ground (arith, h)) u.1,
  )
]

Distinct-sort_teams :
    (payments : List TeamPayment) (ts : List Team)
    → Distinct (λ t. t.pk) ts
    → Distinct (λ t. t.pk) (sort_teams payments ts)
unfolding sort_teams
Distinct-sort_teams payments [] u = tt
Distinct-sort_teams payments (t ∷ ts) u =
    Distinct-insert_team payments t (sort_teams payments ts)
      (exists-sort_teams payments (λ x. x.pk == t.pk) ts ∙ u.0)
      (Distinct-sort_teams payments ts u.1)

pub waitlist-Ordered : (db : Db) → Ordered db.payments (waitlist db)
unfolding waitlist
waitlist-Ordered db = sort_teams-Ordered db.payments (select is_queued db.teams)

pub waitlist-Distinct :
    (db : Db) → Distinct (λ t. t.pk) db.teams → Distinct (λ t. t.pk) (waitlist db)
unfolding waitlist
waitlist-Distinct db u =
    Distinct-sort_teams db.payments (select is_queued db.teams)
      (Distinct-select is_queued db.teams u)

pub waitlist-Among :
    (b : Team) (db : Db) → is_queued b ≡ true → Among b db.teams → Among b (waitlist db)
unfolding waitlist
waitlist-Among b db h m =
    Among-sort_teams db.payments b (select is_queued db.teams)
      (Among-select is_queued b db.teams h m)

-- A key whose row does not queue is not in the queue.
not_selected :
    (b : Team) (ts : List Team)
    → Distinct (λ t. t.pk) ts
    → is_queued b ≡ false
    → Among b ts
    → exists (λ x. x.pk == b.pk) (select is_queued ts) ≡ false
not_selected b [] u h m = absurd m
not_selected b (t ∷ ts) u h (inl e) =
    rw (ap is_queued e ∙ h) (none-select (λ x. x.pk == b.pk) is_queued ts (rw (← e) u.0))
not_selected b (t ∷ ts) u h (inr m) =
    let rest = not_selected b ts u.1 h m in
    let other = apart t b ts u.0 m in
    elim (Bool-cases (is_queued t)) [ inl y ↦ rw y (rw other rest) | inr n ↦ rw n rest ]

pub waitlist-absent :
    (b : Team) (db : Db)
    → Distinct (λ t. t.pk) db.teams
    → is_queued b ≡ false
    → Among b db.teams
    → exists (λ x. x.pk == b.pk) (waitlist db) ≡ false
unfolding waitlist
waitlist-absent b db u h m =
    exists-sort_teams db.payments (λ x. x.pk == b.pk) (select is_queued db.teams)
    ∙ not_selected b db.teams u h m
