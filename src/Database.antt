-- ===== src/Database.antt =====
-- The queries of networking_nsxv3/db/db.py, over the tables of the Neutron database. A table is the
-- list of its rows, with the columns that the queries read. A row of one column is its value.
use networking_nsx_t.Base.{
  ℕ, String, Bool, true, false, not, ◌&&◌, Option, none, some, List, [], ◌∷◌, ◌++◌, map, ◌==◌,
  nat_eq, if◌then◌else◌, keep,
}
use networking_nsx_t.Base.Exec.{
  not_found, multiple_results, type_error, Exception, Result, ok, raise, and_then,
}
use networking_nsx_t.Firewall.Model.{RuleFields}
pub mod Queries
pub mod Keys
pub mod Members
pub mod Lookups
pub mod Paging
pub mod Examples

pub record StandardAttribute : Type 0 where
  pub id : ℕ
  pub revision_number : ℕ
  pub created_at : ℕ

pub record Port : Type 0 where
  pub id : String
  pub mac_address : String
  pub admin_state_up : Bool
  pub status : String
  pub standard_attr_id : ℕ

pub record PortBinding : Type 0 where
  pub port_id : String
  pub host : String
  pub vif_details : String

pub record PortBindingLevel : Type 0 where
  pub port_id : String
  pub host : String
  pub driver : String

pub record QosPortPolicyBinding : Type 0 where
  pub port_id : String
  pub policy_id : String

pub record QosPolicy : Type 0 where
  pub id : String
  pub name : String
  pub standard_attr_id : ℕ

pub record QosBandwidthLimitRule : Type 0 where
  pub qos_policy_id : String
  pub direction : String
  pub max_kbps : ℕ
  pub max_burst_kbps : ℕ

pub record QosDscpMarkingRule : Type 0 where
  pub qos_policy_id : String
  pub dscp_mark : ℕ

pub record SecurityGroup : Type 0 where
  pub id : String
  pub standard_attr_id : ℕ

pub record TagRow : Type 0 where
  pub standard_attr_id : ℕ
  pub tag : String

pub record SecurityGroupPortBinding : Type 0 where
  pub port_id : String
  pub security_group_id : String

pub record AllowedAddressPair : Type 0 where
  pub port_id : String
  pub ip_address : String
  pub mac_address : String

pub record IpAllocation : Type 0 where
  pub port_id : String
  pub ip_address : String
  pub subnet_id : String

pub record Database : Type 0 where
  pub standard_attributes : List StandardAttribute
  pub ports : List Port
  pub port_bindings : List PortBinding
  pub port_binding_levels : List PortBindingLevel
  pub qos_port_policy_bindings : List QosPortPolicyBinding
  pub qos_policies : List QosPolicy
  pub bandwidth_limit_rules : List QosBandwidthLimitRule
  pub dscp_marking_rules : List QosDscpMarkingRule
  pub security_groups : List SecurityGroup
  pub tags : List TagRow
  pub security_group_port_bindings : List SecurityGroupPortBinding
  pub allowed_address_pairs : List AllowedAddressPair
  pub ip_allocations : List IpAllocation
  pub security_group_rules : List RuleFields

-- SQL's inner join, left outer join and `one_or_none()`
module _ {ℓ κ} {A : Type ℓ} {B : Type κ} where
  unfoldable pub join_row : A → List B → List (A × B)
  join_row a [] = []
  join_row a (b ∷ bs) = (a, b) ∷ join_row a bs

  unfoldable pub join : (A → B → Bool) → List A → List B → List (A × B)
  unfolding join_row
  join on [] bs = []
  join on (a ∷ rest) bs = join_row a (keep (on a) bs) ++ join on rest bs

  unfoldable pub outer_row : A → List B → List (A × Option B)
  outer_row a [] = (a, none) ∷ []
  outer_row a (b ∷ bs) = map (λ b'. (a, some b')) (b ∷ bs)

  unfoldable pub outer_join : (A → B → Bool) → List A → List B → List (A × Option B)
  unfolding outer_row
  outer_join on [] bs = []
  outer_join on (a ∷ rest) bs = outer_row a (keep (on a) bs) ++ outer_join on rest bs

unfoldable pub one_or_none {ℓ} : {A : Type ℓ} → List A → Result (Option A)
one_or_none [] = ok none
one_or_none (a ∷ []) = ok (some a)
one_or_none (a ∷ a' ∷ rows) = raise multiple_results

-- `len(result) != 0`
abbrev pub is_filled {ℓ} : {A : Type ℓ} → List A → Bool
is_filled [] = false
is_filled (a ∷ rows) = true

-- A row is true.
unfoldable pub _validate_one {ℓ} : {A : Type ℓ} → Option A → Result A
_validate_one none = raise not_found
_validate_one (some a) = ok a

abbrev pub one {ℓ} : {A : Type ℓ} → List A → Result A
one rows = and_then (one_or_none rows) _validate_one

-- What an RPC passes as a time
pub data DateArg : Type 0 where
  datetime : ℕ → DateArg
  basestring : String → DateArg
  other_type : DateArg

-- `datetime.strptime` with the format "%Y-%m-%dT%H:%M:%S.%f" is a parameter.
unfoldable pub _get_datetime : (String → Result ℕ) → DateArg → Result ℕ
_get_datetime strptime (datetime t) = ok t
_get_datetime strptime (basestring s) = strptime s
_get_datetime strptime other_type = raise type_error

-- The row of `get_port`
pub record PortDetails : Type 0 where
  pub id : String
  pub mac_address : String
  pub admin_state_up : Bool
  pub status : String
  pub qos_policy_id : Option String
  pub revision_number : ℕ
  pub host : String
  pub vif_details : String
