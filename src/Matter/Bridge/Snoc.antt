-- ===== src/Matter/Bridge/Snoc.antt =====
-- A run of the bridge with one more iteration at its end.
use mathlib.Core.Path.{ap, sym}
use pv_matter.Common.{ℕ, ◌≡◌, ◌∙◌, refl, List, [], ◌∷◌, ◌++◌, append_assoc, append-nil}
use pv_matter.Domain.Snapshot.{PvSnapshot}
use pv_matter.Matter.Bridge.{Bridge, Wake, start_bridge, iterate, iterate_all, run_bridge}
use pv_matter.Matter.Bridge.Run.{received}

iterate_all-snoc :
    (epoch : ℕ) (b : Bridge) (wakes : List Wake) (w : Wake)
    → (iterate_all epoch b (wakes ++ w ∷ [])).0 ≡ (iterate epoch (iterate_all epoch b wakes).0 w).0
unfolding iterate_all
iterate_all-snoc epoch b [] w = refl
iterate_all-snoc epoch b (v ∷ wakes) w = iterate_all-snoc epoch (iterate epoch b v).0 wakes w

pub run_bridge-snoc :
    (epoch : ℕ) (initial : PvSnapshot) (wakes : List Wake) (w : Wake)
    → (run_bridge epoch initial (wakes ++ w ∷ [])).0
      ≡ (iterate epoch (run_bridge epoch initial wakes).0 w).0
unfolding run_bridge
run_bridge-snoc epoch initial wakes w = iterate_all-snoc epoch (start_bridge initial) wakes w

pub received-snoc :
    (wakes : List Wake) (w : Wake)
    → received (wakes ++ w ∷ []) ≡ received wakes ++ (w.first ∷ w.queued)
received-snoc [] w = ap (λ us. w.first ∷ us) (append-nil w.queued)
received-snoc (v ∷ wakes) w =
    ap (λ us. v.first ∷ (v.queued ++ us)) (received-snoc wakes w)
    ∙ ap (λ us. v.first ∷ us) (sym (append_assoc v.queued (received wakes) (w.first ∷ w.queued)))
