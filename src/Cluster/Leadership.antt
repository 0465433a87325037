-- ===== src/Cluster/Leadership.antt =====
-- The calls that follow the changes of leadership.
use go_serve.Common.{◌≡◌, refl, Bool, true, false, not, List, [], ◌∷◌}
use go_serve.Cluster.{leadership_loop}

-- Each call differs from the one before.
abbrev pub Alternates : Bool → List Bool → Type 0
Alternates previous [] = Unit {0}
Alternates previous (b ∷ bs) = (b ≡ not previous) × Alternates b bs

abbrev pub last_of : Bool → List Bool → Bool
last_of b [] = b
last_of b (c ∷ cs) = last_of c cs

-- Whatever the leadership channel delivers, also repeated values, the hooks are called alternately,
-- beginning with the one that differs from the state before, and the last call is for the last value
-- that arrived.
pub leadership_loop-Alternates :
    (previous : Bool) (received : List Bool)
    → Alternates previous (leadership_loop previous received)
      × (last_of previous (leadership_loop previous received) ≡ last_of previous received)
unfolding leadership_loop
leadership_loop-Alternates previous [] = (tt, refl)
leadership_loop-Alternates true (true ∷ rest) = leadership_loop-Alternates true rest
leadership_loop-Alternates true (false ∷ rest) =
    let (alternate, last) = leadership_loop-Alternates false rest in ((refl, alternate), last)
leadership_loop-Alternates false (true ∷ rest) =
    let (alternate, last) = leadership_loop-Alternates true rest in ((refl, alternate), last)
leadership_loop-Alternates false (false ∷ rest) = leadership_loop-Alternates false rest
