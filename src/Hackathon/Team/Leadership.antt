-- ===== src/Hackathon/Team/Leadership.antt =====
-- `TeamService.transfer_leadership` of apps/hackathons/services.py: the leaders among the rows.
use srkrcc_main_application.Common.{ℕ, ◌&&◌, List, ◌==◌, count}
use srkrcc_main_application.Hackathon.Model.{Team, TeamMember}
use srkrcc_main_application.Hackathon.Team.Members.{is_leader_row}

-- The leaders among the rows of one team.
abbrev pub leaders : ℕ → List TeamMember → ℕ
leaders team members = count (λ m. m.team == team && is_leader_row m) members
