-- ===== src/Ports/Bridge.antt =====
-- Which segment of a network gets a bridge.
use networking_nsx_t.Base.{
  ℕ, zero, suc, ◌≡◌, refl, String, Bool, true, not, Option, none, some, List, [], ◌∷◌, ◌++◌, all_of,
  truthy_nat,
}
use networking_nsx_t.Base.Exec.{Result, ok, raise, Exec}
use networking_nsx_t.Ports.Agent.{get_network_bridge}

abbrev pub are_empty : List (Option ℕ) → Bool
are_empty segments = all_of (λ s. not (truthy_nat s)) segments

abbrev pub bridged : ℕ → Result String → Result (Option (String × ℕ))
bridged seg_id (ok id) = ok (some (id, seg_id))
bridged seg_id (raise e) = raise e

-- The bridge of a network is asked for at its first segment that has a segmentation id other than 0,
-- and for no other: the answer is the switch of that segment with the id, or the exception of the
-- question. A network with no such segment gets the empty answer, and nothing is asked.
pub get_network_bridge-first {ℓ} :
    {W : Type ℓ} (get_switch_id : ℕ → Exec W String) (before after : List (Option ℕ)) (seg_id : ℕ)
    (r : Result String) (w w' : W)
    → are_empty before ≡ true
    → truthy_nat (some seg_id) ≡ true
    → get_switch_id seg_id w ≡ (r, w')
    → (get_network_bridge get_switch_id (before ++ some seg_id ∷ after) w ≡ (bridged seg_id r, w'))
      × (get_network_bridge get_switch_id before w ≡ (ok none, w))
unfolding get_network_bridge
get_network_bridge-first g [] after seg_id (ok id) w w' e t asked =
    (rw (get_network_bridge, t, asked), refl)
get_network_bridge-first g [] after seg_id (raise x) w w' e t asked =
    (rw (get_network_bridge, t, asked), refl)
get_network_bridge-first g (none ∷ before) after seg_id r w w' e t asked =
    get_network_bridge-first g before after seg_id r w w' e t asked
get_network_bridge-first g (some zero ∷ before) after seg_id r w w' e t asked =
    get_network_bridge-first g before after seg_id r w w' e t asked
get_network_bridge-first g (some (suc n) ∷ before) after seg_id r w w' e t asked = cc
