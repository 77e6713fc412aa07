-- ===== src/Ports/Addresses.antt =====
-- The addresses that the synchronization of a port binds, and which ports it handles.
use networking_nsx_t.Base.{
  ◌≡◌, refl, String, Bool, true, false, not, some, List, [], ◌∷◌, ◌++◌, map, ◌==◌, if◌then◌else◌,
  is_substring, keep, eq_refl, inl, inr, Bool-cases,
}
use networking_nsx_t.Ports.Facada.{Binding, bindings_of}
use networking_nsx_t.Ports.Agent.{
  PortRow, Settings, fixed_binding, address_bindings_of, allowed_pairs, is_handled, port_of,
}

abbrev pub is_single : String × String → Bool
is_single b = not (is_substring "/" b.0)

abbrev pub binding : String × String → Binding
binding b = record { ip_address = b.0; mac_address = b.1 }

bindings_of-keep : (l : List (String × String)) → bindings_of l ≡ map binding (keep is_single l)
unfolding bindings_of
bindings_of-keep [] = refl
bindings_of-keep ((ip, mac) ∷ l) = elim (Bool-cases (is_substring "/" ip)) [
  | inl slash ↦ rw (slash, bindings_of-keep l)
  | inr single ↦ rw (single, bindings_of-keep l)
]

allowed_pairs-keep : (l : List (String × String)) → allowed_pairs l ≡ keep is_single l
unfolding allowed_pairs
allowed_pairs-keep [] = refl
allowed_pairs-keep ((ip, mac) ∷ l) = elim (Bool-cases (is_substring "/" ip)) [
  | inl slash ↦ rw (slash, allowed_pairs-keep l)
  | inr single ↦ rw (single, allowed_pairs-keep l)
]

keep-append :
    (p : String × String → Bool) (xs ys : List (String × String))
    → keep p (xs ++ keep p ys) ≡ keep p (xs ++ ys)
keep-append p [] [] = refl
keep-append p [] (y ∷ ys) = elim (Bool-cases (p y)) [
  | inl good ↦ rw (good, good, keep-append p [] ys)
  | inr bad ↦ rw (bad, keep-append p [] ys)
]
keep-append p (x ∷ xs) ys = rw (keep-append p xs ys)

-- The addresses of the port, each with its MAC address
abbrev pub owned : PortRow → List String → List (String × String)
owned row addresses = map (λ ip. (ip, row.mac)) addresses

same_either_way : (b : Bool) (mac : String) → (if b then mac else mac) ≡ mac
same_either_way true mac = refl
same_either_way false mac = refl

fixed-owned :
    (row : PortRow) (addresses : List String)
    → map
        (fixed_binding row.mac)
        (map (λ ip. record { ip_address = ip; mac_address = some row.mac }) addresses)
      ≡ owned row addresses
unfolding fixed_binding
fixed-owned row [] = refl
fixed-owned row (ip ∷ addresses) = rw (same_either_way, fixed-owned row addresses)

pub bindings-port_of :
    (settings : Settings) (row : PortRow) (addresses : List String) (pairs : List (String × String))
    (groups : List String)
    → bindings_of (address_bindings_of (port_of settings row addresses pairs groups))
      ≡ map binding (keep is_single (owned row addresses ++ pairs))
unfolding address_bindings_of port_of
bindings-port_of settings row addresses pairs groups =
    rw (bindings_of-keep, fixed-owned row addresses, allowed_pairs-keep pairs, keep-append)

pub is_handled-port_of :
    (settings : Settings) (row : PortRow) (addresses : List String) (pairs : List (String × String))
    (groups : List String)
    → is_handled settings (port_of settings row addresses pairs groups)
      ≡ (settings.host == row.binding_host)
unfolding is_handled port_of
is_handled-port_of settings row addresses pairs groups =
    rw (eq_refl settings.vnic_normal, eq_refl settings.vif_type_ovs)
