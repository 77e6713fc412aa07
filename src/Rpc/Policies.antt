-- ===== src/Rpc/Policies.antt =====
-- NSXv3AgentRpcClient of networking_nsxv3/api/rpc.py, the QoS driver that uses it
-- (networking_nsxv3/services/qos/drivers/nsxv3/qos.py), and the agent's handlers of its messages.
use networking_nsx_t.Base.{
  ℕ, String, Bool, true, false, Option, none, some, List, ◌==◌, if◌then◌else◌,
}
use networking_nsx_t.Base.Exec.{
  key_error, no_such_method, type_error, Exec, pure, throw, lift, from_option, ◌>>=◌,
}
use networking_nsx_t.Qos.{QosRule, QosApi, update_switch_profile_qos, create_switch_profile_qos}

-- A policy; `rules` is none where it has no such attribute.
pub record Policy : Type 0 where
  pub id : String
  pub name : String
  pub revision_number : Option ℕ
  pub rules : Option (List QosRule)

-- What `rpc.prepare` is given
pub record CallContext : Type 0 where
  pub topic : String
  pub fanout : Bool

-- The keyword arguments of a message
pub data Payload : Type 0 where
  segments : List (Option ℕ) → Payload
  policy_of : Policy → Payload

pub record Message : Type 0 where
  pub call_context : CallContext
  pub waits : Bool
  pub method : String
  pub payload : Payload

abbrev is_none : Option String → Bool
is_none none = true
is_none (some host) = false

-- What Neutron tells the driver
pub data PolicyEvent : Type 0 where
  created updated deleted precommitted : PolicyEvent

-- `topics.get_topic_name` of Neutron is a parameter.
module _ (get_topic_name : Option String → String) where
  unfoldable pub _get_call_context : Option String → CallContext
  _get_call_context host = record { topic = get_topic_name host; fanout = is_none host }

  unfoldable pub get_network_bridge_message : List (Option ℕ) → String → Message
  unfolding _get_call_context
  get_network_bridge_message network_segments host = record {
    call_context = _get_call_context (some host);
    waits = true;
    method = "get_network_bridge";
    payload = segments network_segments;
  }

  -- A cast to all agents
  unfoldable pub cast : String → Policy → Message
  unfolding _get_call_context
  cast method policy = record {
    call_context = _get_call_context none;
    waits = false;
    method = method;
    payload = policy_of policy;
  }

  -- `if hasattr(policy, "rules")`
  abbrev pub cast_with_rules : String → Policy → Option (List QosRule) → Option Message
  cast_with_rules method policy none = none
  cast_with_rules method policy (some rules) = some (cast method policy)

  unfoldable pub create_policy_message : Policy → Option Message
  unfolding cast
  create_policy_message policy = some (cast "create_policy" policy)

  unfoldable pub update_policy_message : Policy → Option Message
  unfolding cast
  update_policy_message policy = cast_with_rules "update_policy" policy policy.rules

  unfoldable pub delete_policy_message : Policy → Option Message
  unfolding cast
  delete_policy_message policy = some (cast "delete_policy" policy)

  unfoldable pub update_policy_precommit_message : Policy → Option Message
  unfolding cast
  update_policy_precommit_message policy = cast_with_rules "validate_policy" policy policy.rules

  -- NSXv3QosDriver forwards each event to the client of the agents.
  unfoldable pub forward : PolicyEvent → Policy → Option Message
  unfolding create_policy_message update_policy_message delete_policy_message
      update_policy_precommit_message
  forward created policy = create_policy_message policy
  forward updated policy = update_policy_message policy
  forward deleted policy = delete_policy_message policy
  forward precommitted policy = update_policy_precommit_message policy

-- The handlers of the agent on a policy; a key that the policy lacks is KeyError.
module _ {ℓ} {W : Type ℓ} (api : QosApi W) where
  unfoldable pub create_policy : Policy → Exec W (Unit {0})
  create_policy policy = lift (from_option key_error policy.revision_number) >>= λ revision_number.
      create_switch_profile_qos api policy.id revision_number

  unfoldable pub update_policy : Policy → Exec W (Unit {0})
  update_policy policy = lift (from_option key_error policy.revision_number) >>= λ revision_number.
      lift (from_option key_error policy.rules) >>= λ rules.
      update_switch_profile_qos api policy.id revision_number rules

  unfoldable pub delete_policy : Policy → Exec W (Unit {0})
  delete_policy policy = pure tt

  -- validate_switch_profile_qos logs the rules that are not handled.
  unfoldable pub validate_policy : Policy → Exec W (Unit {0})
  validate_policy policy = lift (from_option key_error policy.rules) >>= λ rules. pure tt

  -- The agent's endpoint, for the messages on policies
  abbrev on_policy : (Policy → Exec W (Unit {0})) → Payload → Exec W (Unit {0})
  on_policy handler (policy_of policy) = handler policy
  on_policy handler (segments network_segments) = throw type_error

  unfoldable pub receive : Message → Exec W (Unit {0})
  unfolding create_policy update_policy delete_policy validate_policy
  receive message =
      if message.method == "create_policy"
      then on_policy create_policy message.payload
      else if message.method == "update_policy"
      then on_policy update_policy message.payload
      else if message.method == "delete_policy"
      then on_policy delete_policy message.payload
      else if message.method == "validate_policy"
      then on_policy validate_policy message.payload
      else throw no_such_method

  abbrev pub receive_sent : Option Message → Exec W (Unit {0})
  receive_sent none = pure tt
  receive_sent (some message) = receive message
