-- ===== src/Tests/Frontiers.antt =====
-- Runs of the frontier.
use burnisher.Base.{◌≡◌, refl, List, [], ◌∷◌}
use burnisher.Base.Eq.{string_eq, nat_eq}
use burnisher.Base.Result.{ok}
use burnisher.Base.Int.{ℤ, pos}
use burnisher.Base.Fixed.{fixed}
use burnisher.Base.Result.{ok}
use burnisher.Frontier.{
  all_ge, any_gt, dominates, same_point, before, insert_sorted, sorted_set, any_dominates,
  undominated, pareto_frontier,
}
use burnisher.Frontier.Maximal.{IsFrontier, pareto_frontier-IsFrontier}

-- The second point is below the first, and the last is the first again.
abbrev points : List (List ℤ)
points =
    (pos 5 ∷ pos 5 ∷ []) ∷ (pos 4 ∷ pos 5 ∷ []) ∷ (pos 1 ∷ pos 9 ∷ []) ∷ (pos 5 ∷ pos 5 ∷ []) ∷ []

frontier_of_points : pareto_frontier points ≡ ok ((pos 1 ∷ pos 9 ∷ []) ∷ (pos 5 ∷ pos 5 ∷ []) ∷ [])
unfolding pareto_frontier undominated any_dominates dominates all_ge any_gt same_point before
    insert_sorted sorted_set
frontier_of_points = refl

pareto_frontier-IsFrontier_example :
    (frontier : List (List ℤ)) × (pareto_frontier points ≡ ok frontier) × IsFrontier points frontier
pareto_frontier-IsFrontier_example =
    pareto_frontier-IsFrontier 2 points (refl, (refl, (refl, (refl, tt))))
