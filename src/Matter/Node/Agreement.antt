-- ===== src/Matter/Node/Agreement.antt =====
-- The node tree and the handler chain agree, and the parts of the Solar Power endpoint.
use pv_matter.Common.{
  ℕ, ◌+◌, ◌≡◌, ◌≢◌, refl, ◌↔◌, ◌⊎◌, Bool, true, false, List, [], ◌∷◌, ◌==◌, ite, if◌then◌else◌,
  arith,
}
use pv_matter.Matter.Node.{
  ClusterId, ClusterId-discrete, ep_solar_power, ep_power_source, ep_electrical_sensor,
  ep_temperature, Endpoint, node, matches, solar_parts, Link, dm_handler,
}

abbrev pub times_in : ClusterId → List ClusterId → ℕ
times_in c [] = 0
times_in c (d ∷ clusters) = ite (ClusterId-discrete d c) 1 0 + times_in c clusters

-- How often the node declares a cluster on an endpoint, and how many links of the chain serve it.
unfoldable pub declared : ℕ → ClusterId → List Endpoint → ℕ
declared e c [] = 0
declared e c (ep ∷ endpoints) =
    (if ep.id == e then times_in c ep.clusters else 0) + declared e c endpoints

unfoldable pub served : ℕ → ClusterId → List Link → ℕ
served e c [] = 0
served e c (l ∷ links) =
    (if l.endpoint == e then ite (ClusterId-discrete l.cluster c) 1 0 else 0) + served e c links

if-add :
    (b : Bool) (x y : ℕ) → (if b then x + y else 0) ≡ (if b then x else 0) + (if b then y else 0)
if-add true x y = refl
if-add false x y = refl

if_same : (b : Bool) (n : ℕ) → (if b then n else n) ≡ n
if_same true n = refl
if_same false n = refl

other_endpoint : (i e n : ℕ) → e ≢ i → (if i == e then n else 0) ≡ 0
other_endpoint i e n h = ground arith

-- On every endpoint but the root, a cluster is declared as often as links of the chain serve it, so that
-- no declared cluster lacks a handler and no handler lacks a declaration.
pub node-dm_handler :
    (root : Endpoint) (e : ℕ) (c : ClusterId)
    → e ≢ root.id
    → declared e c (node root) ≡ served e c dm_handler
unfolding declared served node dm_handler
node-dm_handler root e c h =
    rw (other_endpoint root.id e (times_in c root.clusters) h)
      (simp (if-add, if_same) (omega arith))

-- The parts of an endpoint by the matcher: none but those of the Solar Power endpoint, whose parts are the
-- other three.
pub matches-solar_parts :
    (our_endpoint endpoint : ℕ)
    → (matches solar_parts our_endpoint endpoint ≡ true) ↔ (
        (our_endpoint ≡ ep_solar_power)
        × ((endpoint ≡ ep_power_source)
            ⊎ (endpoint ≡ ep_electrical_sensor)
            ⊎ (endpoint ≡ ep_temperature)))
unfolding matches
matches-solar_parts our_endpoint endpoint = ground arith
