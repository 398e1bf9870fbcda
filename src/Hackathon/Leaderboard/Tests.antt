-- ===== src/Hackathon/Leaderboard/Tests.antt =====
-- Four projects, of which two have the second best score.
use srkrcc_main_application.Common.{
  ℕ, suc, String, ◌≡◌, refl, Bool, false, not, ◌&&◌, List, [], ◌∷◌, map, select,
}
use srkrcc_main_application.Hackathon.Model.{TeamStatus, registered, withdrawn}
use srkrcc_main_application.Hackathon.Leaderboard.{
  Scored, is_listed, ranks, by_score, leaderboard, idea_leaderboard,
}
use srkrcc_main_application.Hackathon.Leaderboard.Ranks.{better, leaderboard_ranks}

abbrev project : ℕ → TeamStatus → ℕ → Scored
project pk status score = record {
  pk = pk;
  team_name = "Team";
  team_status = status;
  is_waitlisted = false;
  is_rejected = false;
  score = score;
  review_count = 2;
}

abbrev any_order : String → String → Bool
any_order s t = false

abbrev projects : List Scored
projects =
    project 1 registered 5000
    ∷ project 2 registered 9000
    ∷ project 3 withdrawn 9900
    ∷ project 4 registered 8000
    ∷ project 5 registered 8000
    ∷ []

-- The ranks 1, 2, 2 and 4.
project_ranks : map (λ r. r.0) (leaderboard any_order projects) ≡ (1 ∷ 2 ∷ 2 ∷ 4 ∷ [])
unfolding leaderboard ranks by_score
project_ranks = refl

leaderboard_ranks_example :
    (leaderboard any_order projects
      ≡ map
          (λ s. (suc (better s.score (select is_listed projects)), s))
          (by_score any_order (select is_listed projects)))
    × (idea_leaderboard any_order projects
        ≡ map
            (λ s.
              (suc (better s.score (select (λ t. is_listed t && not t.is_rejected) projects)), s))
            (by_score any_order (select (λ t. is_listed t && not t.is_rejected) projects)))
leaderboard_ranks_example = leaderboard_ranks any_order projects
