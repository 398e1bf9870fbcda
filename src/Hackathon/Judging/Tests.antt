-- ===== src/Hackathon/Judging/Tests.antt =====
-- Two teams and a panel of three, of whom one stepped aside from the first team.
use srkrcc_main_application.Common.{
  ℕ, ◌≡◌, ◌≤◌, ◌++◌, ◌==◌, ◌&&◌, every, count, refl, true, false, List, [], ◌∷◌, arith,
}
use srkrcc_main_application.Hackathon.Judging.{
  Assignment, active, fill, fill_balanced, by_load, short,
}
use srkrcc_main_application.Hackathon.Judging.Sharing.{is_new, fill_lem, fill_covers}

abbrev stepped_aside : List Assignment
stepped_aside =
    record { entry = 1; judge = 11; recused = true }
    ∷ record { entry = 1; judge = 12; recused = false }
    ∷ []

abbrev panel : List ℕ
panel = 11 ∷ 12 ∷ 13 ∷ []

-- The second team goes to the judges who have the least to do.
shared : fill false 2 panel (1 ∷ 2 ∷ []) stepped_aside ≡ (
    record { entry = 1; judge = 11; recused = true }
    ∷ record { entry = 1; judge = 12; recused = false }
    ∷ record { entry = 1; judge = 13; recused = false }
    ∷ record { entry = 2; judge = 11; recused = false }
    ∷ record { entry = 2; judge = 12; recused = false }
    ∷ [])
unfolding fill fill_balanced by_load
shared = refl

fill_lem_example :
    (more : List Assignment) × (fill false 2 panel (1 ∷ 2 ∷ []) stepped_aside
      ≡ stepped_aside ++ more)
    × (every (is_new panel (1 ∷ 2 ∷ []) stepped_aside) more ≡ true)
    × (count (λ a. a.entry == 1 && a.judge == 13) more ≤ 1)
    × (active 1 more ≡ 1)
fill_lem_example =
    fill_lem false 2 panel (1 ∷ 2 ∷ []) stepped_aside 1 13 (refl, (refl, tt))
      (refl, (refl, (refl, tt))) refl

fill_covers_example : short 2 (1 ∷ 2 ∷ []) (fill false 2 panel (1 ∷ 2 ∷ []) []) ≡ []
fill_covers_example =
    fill_covers false 2 2 panel (1 ∷ 2 ∷ []) (refl, (refl, tt)) (omega arith) (omega arith)
