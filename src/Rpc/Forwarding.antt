-- ===== src/Rpc/Forwarding.antt =====
-- A policy event of Neutron, from the driver to an agent.
use networking_nsx_t.Base.{ℕ, String, true, false, Option, none, some, List, ◌≡◌, refl}
use networking_nsx_t.Base.Exec.{ok, Exec, pure}
use networking_nsx_t.Qos.{QosRule, QosApi, update_switch_profile_qos, create_switch_profile_qos}
use networking_nsx_t.Rpc.Policies.{
  Policy, Message, PolicyEvent, created, updated, deleted, precommitted, _get_call_context, cast,
  cast_with_rules, create_policy_message, update_policy_message, delete_policy_message,
  update_policy_precommit_message, forward, create_policy, update_policy, delete_policy,
  validate_policy, receive, receive_sent,
}

-- Whether what is sent goes to all agents and is not waited for
abbrev pub IsBroadcast : Option Message → Type 0
IsBroadcast none = Unit
IsBroadcast (some message) = (message.call_context.fanout ≡ true) × (message.waits ≡ false)

sent_to_all :
    (get_topic_name : Option String → String) (method : String) (policy : Policy)
    (rules : Option (List QosRule))
    → IsBroadcast (cast_with_rules get_topic_name method policy rules)
unfolding cast _get_call_context
sent_to_all get_topic_name method policy none = tt
sent_to_all get_topic_name method policy (some rules) = (refl, refl)

module _ {ℓ} {W : Type ℓ} (api : QosApi W) where
  abbrev pub update_with : String → ℕ → Option (List QosRule) → Exec W (Unit {0})
  update_with id revision none = pure tt
  update_with id revision (some rules) = update_switch_profile_qos api id revision rules

  -- What an agent does on an event: it writes the profile of a new policy and the rules of an
  -- update, and nothing else.
  abbrev pub effect_of : PolicyEvent → Policy → ℕ → Exec W (Unit {0})
  effect_of created policy revision = create_switch_profile_qos api policy.id revision
  effect_of updated policy revision = update_with policy.id revision policy.rules
  effect_of deleted policy revision = pure tt
  effect_of precommitted policy revision = pure tt

  module _ (get_topic_name : Option String → String) (policy : Policy) (revision : ℕ)
      (given : policy.revision_number ≡ some revision) (w : W) where
    updated_effect :
        (rules : Option (List QosRule))
        → policy.rules ≡ rules
        → receive_sent api (cast_with_rules get_topic_name "update_policy" policy rules) w
          ≡ update_with policy.id revision rules w
    unfolding receive update_policy cast
    updated_effect none e = refl
    updated_effect (some rules) e = rw (given, e) refl

    precommitted_effect :
        (rules : Option (List QosRule))
        → policy.rules ≡ rules
        → receive_sent api (cast_with_rules get_topic_name "validate_policy" policy rules) w
          ≡ (ok tt, w)
    unfolding receive validate_policy cast
    precommitted_effect none e = refl
    precommitted_effect (some rules) e = rw e refl

    -- What the driver sends on an event goes to all agents, and does on an agent that gets it what
    -- the event is to do, for a policy with a revision: the update of a policy without rules and
    -- the deletion and validation of one change nothing.
    pub forward-effect_of :
        (event : PolicyEvent)
        → IsBroadcast (forward get_topic_name event policy)
          × (receive_sent api (forward get_topic_name event policy) w
              ≡ effect_of event policy revision w)
    unfolding forward create_policy_message update_policy_message delete_policy_message
        update_policy_precommit_message receive create_policy delete_policy cast _get_call_context
    forward-effect_of created = ((refl, refl), rw given refl)
    forward-effect_of updated = (
      sent_to_all get_topic_name "update_policy" policy policy.rules,
      updated_effect policy.rules refl,
    )
    forward-effect_of deleted = ((refl, refl), refl)
    forward-effect_of precommitted = (
      sent_to_all get_topic_name "validate_policy" policy policy.rules,
      precommitted_effect policy.rules refl,
    )
