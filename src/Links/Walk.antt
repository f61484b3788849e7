-- ===== src/Links/Walk.antt =====
-- list_for_each visits the entries of a ring in order, and comes back to the head.
use so2_project.Common.{ℕ, zero, suc, ◌<◌, ◌≡◌, some, List, [], ◌∷◌, arith, Fresh, length}
use so2_project.Links.{Store, visit, list_for_each}
use so2_project.Links.Ring.{Chain, IsRing}

visit-Chain :
    (fuel : ℕ) (s : Store) (a head : ℕ) (xs : List ℕ)
    → Chain s a xs head
    → Fresh head xs
    → length xs < fuel
    → visit fuel s head (s a).next ≡ some xs
unfolding visit
visit-Chain zero s a head xs c f l = absurd (omega arith)
visit-Chain (suc fuel) s a head [] c f l = ground arith
visit-Chain (suc fuel) s a head (x ∷ xs) c f l =
    ground (arith, visit-Chain fuel s x head xs c.1 f.1)

-- list_for_each on a ring ends after one test more than the ring has entries, and visits the entries once
-- each, in order.
pub list_for_each-IsRing :
    (fuel : ℕ) {s : Store} {head : ℕ} {xs : List ℕ}
    → IsRing s head xs
    → length xs < fuel
    → list_for_each fuel s head ≡ some xs
unfolding list_for_each
list_for_each-IsRing fuel {s} {head} {xs} r l = visit-Chain fuel s head head xs r.chain r.outside l
