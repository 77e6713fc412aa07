-- ===== src/Qos.antt =====
-- QoS policies: update_switch_profile_qos, create_switch_profile_qos and delete_switch_profile_qos
-- of networking_nsxv3/plugins/ml2/drivers/nsxv3/agent/nsxv3_facada.py, and sync_qos of
-- nsxv3_agent.py beside it.
pub mod Rates
pub mod Put
mod Examples
use networking_nsx_t.Base.{
  ℕ, ◌+◌, ◌*◌, ◌/◌, String, Bool, true, false, Option, none, some, List, [], ◌∷◌, map, ◌++◌, ◌==◌,
  if◌then◌else◌, ◌+++◌, str,
}
use networking_nsx_t.Base.Exec.{
  Result, ok, raise, and_then, from_option, key_error, not_found, Exec, pure, throw, lift, continue,
  ◌>>=◌, ◌>>◌,
}
use networking_nsx_t.Client.Policy.{Connection, Response, rest_policy}
use networking_nsx_t.Inventory.{Tag, revision_scope}

-- A rule of a policy, as a dict: none is a key that is missing.
pub record QosRule : Type 0 where
  pub direction : Option String
  pub max_kbps : Option ℕ
  pub max_burst_kbps : Option ℕ
  pub dscp_mark : Option ℕ

pub record Shaper : Type 0 where
  pub resource_type : String
  pub enabled : Bool
  pub average_bandwidth_mbps : ℕ
  pub peak_bandwidth_mbps : ℕ
  pub burst_size_bytes : ℕ

pub record BroadcastShaper : Type 0 where
  pub enabled : Bool
  pub burst_size_bytes : ℕ
  pub peak_bandwidth_kbps : ℕ
  pub average_bandwidth_kbps : ℕ

pub record Dscp : Type 0 where
  pub mode : String
  pub priority : ℕ

-- The local variables of the loop over the rules
pub record Shaping : Type 0 where
  pub ingress : Shaper
  pub egress : Shaper
  pub broadcast : BroadcastShaper
  pub dscp : Dscp

abbrev pub idle_shaper : String → Shaper
idle_shaper type = record {
  resource_type = type;
  enabled = false;
  average_bandwidth_mbps = 0;
  peak_bandwidth_mbps = 0;
  burst_size_bytes = 0;
}

-- QOS_SPEC_SHAPER_CONFIGURATION and QOS_SPEC_DSCP
abbrev pub qos_spec_shaping : Shaping
qos_spec_shaping = record {
  ingress = idle_shaper "IngressRateShaper";
  egress = idle_shaper "EgressRateShaper";
  broadcast = record {
    enabled = false;
    burst_size_bytes = 0;
    peak_bandwidth_kbps = 0;
    average_bandwidth_kbps = 0;
  };
  dscp = record { mode = "TRUSTED"; priority = 0 };
}

-- `int(round(float(n) / 1024))`: Python 2 rounds a half up.
unfoldable pub mbps_of : ℕ → ℕ
mbps_of n = (2 * n + 1024) / 2048

abbrev pub limited : ℕ → ℕ → Shaper → Shaper
limited max_kbps max_burst_kbps shaper = record shaper {
  enabled = true;
  average_bandwidth_mbps = mbps_of max_kbps;
  peak_bandwidth_mbps = mbps_of max_kbps * 2;
  burst_size_bytes = max_burst_kbps * 128;
}

abbrev pub is_ingress : Option String → Bool
is_ingress none = false
is_ingress (some d) = d == "ingress"

-- The body of the loop. A rule of another kind is only logged.
unfoldable pub apply_rule : QosRule → Shaping → Result Shaping
apply_rule rule shaping = elim rule.max_kbps [
  | some max_kbps ↦ and_then (from_option key_error rule.max_burst_kbps) λ max_burst_kbps.
      if is_ingress rule.direction
      then ok (record shaping { ingress = limited max_kbps max_burst_kbps shaping.ingress })
      else ok (record shaping { egress = limited max_kbps max_burst_kbps shaping.egress })
  | none ↦ elim rule.dscp_mark [
    | some mark ↦ ok (record shaping { dscp = record { mode = "UNTRUSTED"; priority = mark } })
    | none ↦ ok shaping
  ]
]

unfoldable pub apply_rules : List QosRule → Shaping → Result Shaping
apply_rules [] shaping = ok shaping
apply_rules (rule ∷ rules) shaping = and_then (apply_rule rule shaping) (apply_rules rules)

pub record Profile : Type 0 where
  pub id : String
  pub display_name : String
  pub resource_type : String
  pub revision : ℕ

-- The body of the PUT request. The shapers are sent in the order ingress, egress, broadcast.
pub record QosSpec : Type 0 where
  pub shaping : Shaping
  pub tags : List Tag
  pub profile : Profile

-- `get` and `create` of the client, the connection of its retry policy and the HTTP request of
-- `_put`; `dumps` is json.dumps, of a body and of a text.
pub record QosApi {ℓ} (W : Type ℓ) : Type ℓ where
  pub base_url : String
  pub connection : Connection W
  pub get_profile : String → Exec W (Option Profile)
  pub create_profile : String → List Tag → Exec W (Unit {0})
  pub delete_profile : Profile → Exec W (Unit {0})
  pub session_put : String → String → Exec W Response
  pub dumps : QosSpec → String
  pub dumps_text : String → String

abbrev pub revision_tags : ℕ → List Tag
revision_tags n = record { scope = revision_scope; tag = str n } ∷ []

-- The rules that `sync_qos` makes of Neutron's rows, the marks first
abbrev pub mark_rule : ℕ → QosRule
mark_rule mark = record {
  direction = none;
  max_kbps = none;
  max_burst_kbps = none;
  dscp_mark = some mark;
}

abbrev pub limit_rule : String × ℕ × ℕ → QosRule
limit_rule row = record {
  direction = some row.0;
  max_kbps = some row.1;
  max_burst_kbps = some row.2;
  dscp_mark = none;
}

module _ {ℓ} {W : Type ℓ} (api : QosApi W) where
  -- `_get_url`, and `_put` with its retry policy
  unfoldable pub get_url : String → String
  get_url path = api.base_url +++ path

  unfoldable pub put : String → String → Exec W Response
  unfolding get_url rest_policy
  put path data_text =
      rest_policy api.connection (api.session_put (get_url path) (api.dumps_text data_text))

  -- No caller reads the response.
  abbrev pub put_found : ℕ → Shaping → Option Profile → Exec W (Unit {0})
  put_found revision_number shaping none = throw not_found
  put_found revision_number shaping (some qos) =
      put (api.base_url +++ "/api/v1/switching-profiles/" +++ qos.id) (
        api.dumps
          (record { shaping = shaping; tags = revision_tags revision_number; profile = qos }))
      >> pure tt

  unfoldable pub update_switch_profile_qos : String → ℕ → List QosRule → Exec W (Unit {0})
  update_switch_profile_qos policy_name revision_number rules =
      lift (apply_rules rules qos_spec_shaping) >>= λ shaping.
      api.get_profile policy_name >>= put_found revision_number shaping

  unfoldable pub create_switch_profile_qos : String → ℕ → Exec W (Unit {0})
  create_switch_profile_qos policy_name revision_number =
      api.create_profile policy_name (revision_tags revision_number)

  abbrev pub delete_found : Option Profile → Exec W (Unit {0})
  delete_found none = pure tt
  delete_found (some qos) = api.delete_profile qos

  unfoldable pub delete_switch_profile_qos : String → Exec W (Unit {0})
  delete_switch_profile_qos policy_name = api.get_profile policy_name >>= delete_found

  -- `try: create_policy(…) except Exception`: every exception is passed over.
  abbrev pub attempted : Result (Unit {0}) × W → Result (Unit {0}) × W
  attempted (r, w) = (ok tt, w)

  unfoldable pub sync_qos : String → ℕ → List ℕ → List (String × ℕ × ℕ) → Exec W (Unit {0})
  sync_qos qos_id revision dscp_rules bwls_rules =
      (λ w. attempted (create_switch_profile_qos qos_id revision w))
      >> update_switch_profile_qos qos_id revision
          (map mark_rule dscp_rules ++ map limit_rule bwls_rules)
