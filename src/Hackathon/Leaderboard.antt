-- ===== src/Hackathon/Leaderboard.antt =====
-- `JudgingService.leaderboard` and `idea_leaderboard` of apps/hackathons/judging.py.
pub mod Ranks
mod Tests
use srkrcc_main_application.Common.{
  ℕ, suc, String, Bool, true, false, not, ◌&&◌, ◌||◌, Option, none, some, List, [], ◌∷◌, ◌==◌, ltb,
  is_at, select, if◌then◌else◌,
}
use srkrcc_main_application.Hackathon.Model.{TeamStatus, is_out}

-- A `Submission` or an `IdeaSubmission`, with what the lists read of its team; a score is a number of
-- hundredths.
pub record Scored : Type 0 where
  pub pk : ℕ
  pub team_name : String
  pub team_status : TeamStatus
  pub is_waitlisted : Bool
  pub is_rejected : Bool  -- the status of an idea
  pub score : ℕ
  pub review_count : ℕ

abbrev pub is_listed : Scored → Bool
is_listed s = not s.is_waitlisted && not (is_out s.team_status)

-- The loop over the sorted rows: the position and the rank to come, the score and the rank before.
unfoldable pub ranks : ℕ → Option ℕ → ℕ → List Scored → List (ℕ × Scored)
ranks position previous rank [] = []
ranks position previous rank (s ∷ ss) =
    let shared = ranks (suc position) previous rank ss in
    let next = ranks (suc position) (some s.score) position ss in
    if is_at previous s.score then (rank, s) ∷ shared else (position, s) ∷ next

-- `text_lt` is the database's order of names.
module _ (text_lt : String → String → Bool) where
  -- `order_by('-score', 'team__name')`
  abbrev pub is_before : Scored → Scored → Bool
  is_before s t =
      ltb t.score s.score || (s.score == t.score && not (text_lt t.team_name s.team_name))

  abbrev pub insert_scored : Scored → List Scored → List Scored
  insert_scored s [] = s ∷ []
  insert_scored s (t ∷ ts) = if is_before s t then s ∷ t ∷ ts else t ∷ insert_scored s ts

  unfoldable pub by_score : List Scored → List Scored
  by_score [] = []
  by_score (s ∷ ss) = insert_scored s (by_score ss)

  unfoldable pub leaderboard : List Scored → List (ℕ × Scored)
  leaderboard submissions = ranks 1 none 0 (by_score (select is_listed submissions))

  unfoldable pub idea_leaderboard : List Scored → List (ℕ × Scored)
  idea_leaderboard ideas =
      ranks 1 none 0 (by_score (select (λ s. is_listed s && not s.is_rejected) ideas))
