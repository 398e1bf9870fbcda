-- ===== src/Hackathon/Registration/Answers.antt =====
-- `registration.clean_answers`: the answers to the questions that the organizers defined.
use srkrcc_main_application.Common.{
  len, strip, ℕ, String, Bool, true, false, not, ◌&&◌, ◌||◌, Option, none, some, List, [], ◌∷◌,
  str_eq, starts_with, exists, ltb, if◌then◌else◌, Python,
}
use srkrcc_main_application.Hackathon.Model.{
  Raw, null, flag, text, other, Answer, ticked, answer, QuestionType, checkbox_question,
  text_question, select_question, number_question, url_question, Question,
}
use srkrcc_main_application.Hackathon.Monad.{
  Action, ◌>>=◌, ◌>>◌, pure, raise, raise_if, answer_required, answer_too_long, answer_invalid,
}

abbrev pub max_answer_length : ℕ
max_answer_length = 1000

-- `bool(value)`
unfoldable pub truth : Raw → Bool
truth null = false
truth (flag b) = b
truth (text s) = not (str_eq s "")
truth (other b s) = b

-- `str(value if value is not None else '')`
unfoldable pub render : Raw → String
render null = ""
render (flag true) = "True"
render (flag false) = "False"
render (text s) = s
render (other b s) = s

abbrev pub look_up {ℓ} : {V : Type ℓ} → String → List (String × V) → Option V
look_up k [] = none
look_up k ((j, v) ∷ d) = if str_eq j k then some v else look_up k d

-- `d[k] = v`
abbrev pub assign {ℓ} : {V : Type ℓ} → String → V → List (String × V) → List (String × V)
assign k v [] = (k, v) ∷ []
assign k v ((j, w) ∷ d) = if str_eq j k then (j, v) ∷ d else (j, w) ∷ assign k v d

-- `raw.get(key)`
abbrev pub get : String → List (String × Raw) → Raw
get k d = elim (look_up k d) [ none ↦ null | some v ↦ v ]

abbrev pub is_checkbox : QuestionType → Bool
is_checkbox checkbox_question = true
is_checkbox text_question = false
is_checkbox select_question = false
is_checkbox number_question = false
is_checkbox url_question = false

module _ (py : Python) where
  -- The guards on an answer that is not empty, by the question's type.
  unfoldable pub check_kind : Question → String → QuestionType → Action (Unit {0})
  check_kind q value checkbox_question = pure tt
  check_kind q value text_question = pure tt
  check_kind q value select_question =
      raise_if (not (exists (λ o. str_eq o value) q.options)) answer_invalid
  check_kind q value number_question = raise_if (not (py.is_float value)) answer_invalid
  check_kind q value url_question =
      let low = py.lower value in
      raise_if (not (starts_with low "http://" || starts_with low "https://")) answer_invalid

  -- One round of the loop: the cleaned answer to `q`, or `none` for an optional one left empty.
  unfoldable pub clean_answer : Question → Raw → Action (Option Answer)
  clean_answer q raw =
      let value = strip (render raw) in
      let box = is_checkbox q.kind in
      let empty = if box then not (truth raw) else str_eq value "" in
      if empty then if q.required then raise answer_required else pure none else do
        raise_if (not box && ltb max_answer_length (len value)) answer_too_long
        check_kind q value q.kind
        pure (some (if box then ticked else answer value))

  unfoldable pub clean_from :
      List Question → List (String × Raw) → List (String × Answer) → Action (List (String × Answer))
  clean_from [] raw cleaned = pure cleaned
  clean_from (q ∷ qs) raw cleaned = do
    result ← clean_answer q (get q.key raw)
    clean_from qs raw (elim result [ none ↦ cleaned | some a ↦ assign q.key a cleaned ])

  unfoldable pub clean_answers :
      List Question → List (String × Raw) → Action (List (String × Answer))
  clean_answers questions raw = clean_from questions raw []
