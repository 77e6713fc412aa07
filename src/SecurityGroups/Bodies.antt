-- ===== src/SecurityGroups/Bodies.antt =====
-- The JSON of a firewall rule: get_firewall_rule, get_resource_reference and get_service_reference
-- of networking_nsxv3/plugins/ml2/drivers/nsxv3/agent/nsxv3_utils.py.
use text.Mathlib.Text.{starts_with}
use networking_nsx_t.Base.{
  String, Bool, true, Option, none, some, List, [], ◌∷◌, map, if◌then◌else◌,
}
use networking_nsx_t.Base.Dict.{Dict, insert}
use networking_nsx_t.Firewall.Model.{
  ResourceReference, Service, icmp_type_service, l4_port_set_service, ip_protocol_service, Action,
  FirewallRule,
}

pub record ReferenceBody : Type 0 where
  pub target_type : String
  pub target_id : String
  pub target_display_name : String
  pub is_valid : Option Bool

unfoldable pub get_resource_reference : ResourceReference → ReferenceBody
get_resource_reference o = record {
  target_type = o.target_type;
  target_id = o.target_id;
  target_display_name = o.target_display_name;
  is_valid = if o.is_valid then some true else none;
}

pub record RuleBody (Json : Type 0) : Type 0 where
  pub action : Action
  pub display_name : String
  pub direction : String
  pub ip_protocol : String
  pub sources : Option (List ReferenceBody)
  pub destinations : Option (List ReferenceBody)
  pub services : Option (List (Dict Json))
  pub applied_tos : List ReferenceBody

-- `vars` gives the attributes of an SDK object, and `text` is a JSON text.
module _ {Json : Type 0} (vars : Service → Dict Json) (text : String → Json) where
  unfoldable pub public_fields : Dict Json → Dict Json
  public_fields [] = []
  public_fields ((key, val) ∷ fields) =
      let rest = public_fields fields in if starts_with key "_" then rest else (key, val) ∷ rest

  -- The dict under the key "service"
  unfoldable pub get_service_reference : Service → Dict Json
  unfolding public_fields
  get_service_reference (icmp_type_service type code protocol) =
      insert "resource_type" (text "ICMPTypeNSService")
        (public_fields (vars (icmp_type_service type code protocol)))
  get_service_reference (l4_port_set_service protocol destination source) =
      insert "resource_type" (text "L4PortSetNSService")
        (public_fields (vars (l4_port_set_service protocol destination source)))
  get_service_reference (ip_protocol_service number) =
      public_fields (vars (ip_protocol_service number))

  abbrev pub map_option {ℓ κ} :
      {A : Type ℓ} {B : Type κ} → (A → B) → Option (List A) → Option (List B)
  map_option f none = none
  map_option f (some l) = some (map f l)

  unfoldable pub get_firewall_rule : FirewallRule → RuleBody Json
  unfolding get_resource_reference get_service_reference
  get_firewall_rule rule = record {
    action = rule.action;
    display_name = rule.display_name;
    direction = rule.direction;
    ip_protocol = rule.ip_protocol;
    sources = map_option get_resource_reference rule.sources;
    destinations = map_option get_resource_reference rule.destinations;
    services = map_option get_service_reference rule.services;
    applied_tos = map get_resource_reference rule.applied_tos;
  }
