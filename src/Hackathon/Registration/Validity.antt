-- ===== src/Hackathon/Registration/Validity.antt =====
-- The answers that `clean_answers` of apps/hackathons/registration.py keeps.
use srkrcc_main_application.Common.{
  len, ◌≡◌, String, Bool, true, false, not, ◌&&◌, ◌||◌, none, some, List, [], ◌∷◌, arith, str_eq,
  starts_with, eq_iff, exists, leb, is_some, Bool-cases, inl, inr, Python, subst,
}
use srkrcc_main_application.Common.Rows.Laws.{All}
use srkrcc_main_application.Hackathon.Model.{
  Raw, Answer, ticked, answer, QuestionType, checkbox_question, text_question, select_question,
  number_question, url_question, Question,
}
use srkrcc_main_application.Hackathon.Monad.{Db, ok}
use srkrcc_main_application.Hackathon.Outcome.{Result-cases}
use srkrcc_main_application.Hackathon.Registration.Answers.{
  max_answer_length, look_up, assign, get, is_checkbox, check_kind, clean_answer, clean_from,
  clean_answers,
}

-- Looking a key up sees every key that was assigned, and no assignment removes one.
look_up-assign :
    (k j : String) (v : Answer) (d : List (String × Answer))
    → is_some (look_up k (assign j v d)) ≡ (str_eq j k || is_some (look_up k d))
look_up-assign k j v [] = ground arith
look_up-assign k j v ((i, w) ∷ d) =
    ground (arith, look_up-assign k j v d, eq_iff i j, eq_iff j k, eq_iff i k)

str_eq_refl : (k : String) → str_eq k k ≡ true
str_eq_refl k = ground (arith, eq_iff k k)

-- What a question owes: an entry where it is required.
abbrev pub is_answered : List (String × Answer) → Question → Bool
is_answered d q = not q.required || is_some (look_up q.key d)

module _ (py : Python) where
  -- What the kind of a question asks of a text.
  pub kind_accepts : Question → String → QuestionType → Bool
  kind_accepts q v checkbox_question = false
  kind_accepts q v text_question = true
  kind_accepts q v select_question = exists (λ o. str_eq o v) q.options
  kind_accepts q v number_question = py.is_float v
  kind_accepts q v url_question =
      starts_with (py.lower v) "http://" || starts_with (py.lower v) "https://"

  -- Whether an answer is one that `q` admits.
  pub accepts : Question → Answer → Bool
  accepts q ticked = is_checkbox q.kind
  accepts q (answer v) =
      not (str_eq v "") && leb (len v) max_answer_length && kind_accepts q v q.kind

  clean_answer-accepts :
      (q : Question) (v : Raw) (a : Answer) (db db' : Db)
      → clean_answer py q v db ≡ ok (some a, db')
      → accepts q a ≡ true
  unfolding clean_answer check_kind accepts kind_accepts
  clean_answer-accepts q v a db db' h = ground arith

  clean_answer_required :
      (q : Question) (v : Raw) (db db' : Db)
      → clean_answer py q v db ≡ ok (none, db')
      → q.required ≡ false
  unfolding clean_answer check_kind
  clean_answer_required q v db db' h = ground arith

  -- Some question of the list has the entry's key and admits its value.
  abbrev pub is_asked : List Question → String × Answer → Bool
  is_asked qs e = exists (λ q. str_eq q.key e.0 && accepts q e.1) qs

  -- An answer that `q` admits, under its key, is one that the list asks for.
  abbrev Asks : List Question → Question → Type 0
  Asks qs q =
      (a : Answer)
      → (i : String) → str_eq i q.key ≡ true
      → accepts q a ≡ true
      → is_asked qs (i, a) ≡ true

  Asks-cons : (p : Question) (all qs : List Question) → All (Asks all) qs → All (Asks (p ∷ all)) qs
  Asks-cons p all [] h = tt
  Asks-cons p all (q ∷ qs) h = ((λ a i e k. ground (arith, h.0 a i e k)), Asks-cons p all qs h.1)

  Asks-self : (qs : List Question) → All (Asks qs) qs
  Asks-self [] = tt
  Asks-self (q ∷ qs) = (
    (λ a i e k. ground (arith, eq_iff i q.key, eq_iff q.key i)),
    Asks-cons q qs qs (Asks-self qs),
  )

  assign-All :
      (P : String × Answer → Bool) (k : String) (v : Answer) (d : List (String × Answer))
      → ((i : String) → str_eq i k ≡ true → P (i, v) ≡ true)
      → All (λ e. P e ≡ true) d
      → All (λ e. P e ≡ true) (assign k v d)
  assign-All P k v [] h all = (h k (str_eq_refl k), tt)
  assign-All P k v ((i, w) ∷ d) h all = elim (Bool-cases (str_eq i k)) [
    | inl e ↦ rw e (h i e, all.1)
    | inr e ↦ rw e (all.0, assign-All P k v d h all.1)
  ]

  answered-assign :
      (k : String) (v : Answer) (d : List (String × Answer)) (q : Question)
      → is_answered d q ≡ true
      → is_answered (assign k v d) q ≡ true
  answered-assign k v d q h = ground (arith, look_up-assign q.key k v d)

  clean_from_keeps :
      (qs : List Question) (raw : List (String × Raw)) (c x : List (String × Answer)) (q : Question)
      (db db' : Db)
      → clean_from py qs raw c db ≡ ok (x, db')
      → is_answered c q ≡ true
      → is_answered x q ≡ true
  unfolding clean_from
  clean_from_keeps [] raw c x q db db' h k = ground arith
  clean_from_keeps (p ∷ qs) raw c x q db db' h k =
      elim (Result-cases (clean_answer py p (get p.key raw) db)) [
        | inl (e, r) ↦ absurd (ground arith)
        | inr ((none, d), r) ↦ clean_from_keeps qs raw c x q d db' (ground arith) k
        | inr ((some a, d), r) ↦
            clean_from_keeps qs raw (assign p.key a c) x q d db' (ground arith)
              (answered-assign p.key a c q k)
      ]

  clean_from-answered :
      (qs : List Question) (raw : List (String × Raw)) (c x : List (String × Answer)) (db db' : Db)
      → clean_from py qs raw c db ≡ ok (x, db')
      → All (λ q. is_answered x q ≡ true) qs
  unfolding clean_from
  clean_from-answered [] raw c x db db' h = tt
  clean_from-answered (p ∷ qs) raw c x db db' h =
      elim (Result-cases (clean_answer py p (get p.key raw) db)) [
        | inl (e, r) ↦ absurd (ground arith)
        | inr ((none, d), r) ↦ (
          clean_from_keeps qs raw c x p d db' (ground arith)
              (ground (arith, clean_answer_required p (get p.key raw) db d r)),
          clean_from-answered qs raw c x d db' (ground arith),
        )
        | inr ((some a, d), r) ↦ (
          clean_from_keeps qs raw (assign p.key a c) x p d db' (ground arith)
              (ground (arith, look_up-assign p.key p.key a c, str_eq_refl p.key)),
          clean_from-answered qs raw (assign p.key a c) x d db' (ground arith),
        )
      ]

  clean_from-asked :
      (all qs : List Question) (raw : List (String × Raw)) (c x : List (String × Answer))
      (db db' : Db)
      → clean_from py qs raw c db ≡ ok (x, db')
      → All (Asks all) qs
      → All (λ e. is_asked all e ≡ true) c
      → All (λ e. is_asked all e ≡ true) x
  unfolding clean_from
  clean_from-asked all [] raw c x db db' h k l = subst (All _) (ground arith) l
  clean_from-asked all (p ∷ qs) raw c x db db' h k l =
      elim (Result-cases (clean_answer py p (get p.key raw) db)) [
        | inl (e, r) ↦ absurd (ground arith)
        | inr ((none, d), r) ↦ clean_from-asked all qs raw c x d db' (ground arith) k.1 l
        | inr ((some a, d), r) ↦
            clean_from-asked all qs raw (assign p.key a c) x d db' (ground arith) k.1 (
              assign-All (is_asked all) p.key a c
                (λ i e. k.0 a i e (clean_answer-accepts p (get p.key raw) a db d r)) l)
      ]

  -- Cleaning the answers succeeds only where every required question has an entry, and keeps nothing
  -- else: each entry has the key of a question that admits its value. A ticked box answers a checkbox
  -- question; a text is not empty, has at most 1000 characters and fits the question's kind.
  pub clean_answers-IsValid :
      (qs : List Question) (raw : List (String × Raw)) (x : List (String × Answer)) (db db' : Db)
      → clean_answers py qs raw db ≡ ok (x, db')
      → All (λ q. is_answered x q ≡ true) qs × All (λ e. is_asked qs e ≡ true) x
  unfolding clean_answers
  clean_answers-IsValid qs raw x db db' h = (
    clean_from-answered qs raw [] x db db' h,
    clean_from-asked qs qs raw [] x db db' h (Asks-self qs) tt,
  )
