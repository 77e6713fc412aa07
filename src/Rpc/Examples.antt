-- ===== src/Rpc/Examples.antt =====
-- Messages between an agent and a server.
use networking_nsx_t.Base.{
  ℕ, zero, suc, Bool, nat_eq, String, true, false, Option, some, List, [], ◌∷◌, ◌≡◌, refl,
}
use Prim.Native.Char.{code}
use networking_nsx_t.Base.Dict.{lookup}
use networking_nsx_t.Base.Exec.{
  no_messages, value_error, type_error, no_such_method, Result, ok, raise, and_then,
}
use networking_nsx_t.Client.Policy.{rest_policy, retry_loop, check_response}
use networking_nsx_t.Qos.{
  QosApi, Profile, limit_rule, update_switch_profile_qos, put, get_url, apply_rules, apply_rule,
}
use networking_nsx_t.Database.{datetime, _get_datetime}
use networking_nsx_t.Database.Queries.{get_port_addresses as select_port_addresses}
use networking_nsx_t.Database.Paging.{query_security_group_revisions}
use networking_nsx_t.Database.Examples.{db}
use networking_nsx_t.Rpc.{
  request_of, with_id, _limit, _create_after, get_security_group_revision_tuples,
  get_port_addresses,
}
use networking_nsx_t.Rpc.Server.{Server, pairs, dispatch}
use networking_nsx_t.Rpc.RoundTrip.{wire, query_of, dispatch-request_of}
use networking_nsx_t.Rpc.Policies.{Policy, updated, forward, receive_sent}
use networking_nsx_t.Rpc.Forwarding.{IsBroadcast, effect_of, forward-effect_of}

-- A text of a time is as many ones; a text with another sign is refused.
abbrev pub ones : ℕ → String
ones zero = ""
ones (suc n) = String.◌∷◌ "1" (ones n)

abbrev after_one : Bool → Result ℕ → Result ℕ
after_one true r = and_then r (λ n. ok (suc n))
after_one false r = raise value_error

abbrev pub count : String → Result ℕ
count String.[] = ok 0
count (String.◌∷◌ c s) = after_one (nat_eq (code c) 49) (count s)

pub count-ones : (n : ℕ) → count (ones n) ≡ ok n
count-ones zero = refl
count-ones (suc n) = rw (count-ones n) refl

abbrev pub server : Server
server = record { db = db; order_by = λ rows. rows; strptime = count }

dispatch-request_of_example :
    dispatch server
      (wire ones (request_of "h-1" (get_security_group_revision_tuples 2 (datetime 100))))
    ≡ query_of server "h-1" (get_security_group_revision_tuples 2 (datetime 100))
dispatch-request_of_example =
    dispatch-request_of server ones count-ones "h-1"
      (get_security_group_revision_tuples 2 (datetime 100))

-- Test: the addresses of a port, over the messages
addresses :
    dispatch server (wire ones (request_of "h-1" (get_port_addresses "p-1")))
    ≡ ok (pairs (("10.0.0.1", "s-1") ∷ []))
unfolding dispatch request_of lookup select_port_addresses
addresses = refl

-- Test: strptime refuses the default of `created_after` where it wants a fraction of a second.
default_time :
    dispatch server
      (wire ones (request_of "h-1" (get_security_group_revision_tuples _limit _create_after)))
    ≡ raise value_error
unfolding dispatch request_of lookup query_security_group_revisions _get_datetime
default_time = refl

-- Test: a message with another key, and one with another method
other_messages :
    (dispatch server (with_id "get_port" "id" "p-1") ≡ raise type_error)
    × (dispatch server (with_id "get_ports" "port_id" "p-1") ≡ raise no_such_method)
unfolding dispatch lookup
other_messages = (refl, refl)

-- An agent that keeps the profiles that it wrote
abbrev profile : Profile
profile = record {
  id = "p1";
  display_name = "q-1";
  resource_type = "QosSwitchingProfile";
  revision = 3;
}

abbrev api : QosApi (List String)
api = record {
  base_url = "https://nsx";
  connection = record {
    login = λ w. (ok tt, w);
    pause = λ w. w;
    operation_pause = λ w. w;
    retry_count = 3;
  };
  get_profile = λ name w. (ok (some profile), w);
  create_profile = λ name tags w. (ok tt, name ∷ w);
  delete_profile = λ qos w. (ok tt, w);
  session_put = λ url body w. (ok (record { status_code = 200; content = no_messages }), url ∷ w);
  dumps = λ spec. "{}";
  dumps_text = λ s. s;
}

abbrev policy : Policy
policy = record {
  id = "q-1";
  name = "gold";
  revision_number = some 4;
  rules = some (limit_rule ("egress", 2048, 8) ∷ []);
}

abbrev topic : Option String → String
topic host = "nsxv3-update"

forward-effect_of_example :
    IsBroadcast (forward topic updated policy)
    × (receive_sent api (forward topic updated policy) [] ≡ effect_of api updated policy 4 [])
forward-effect_of_example = forward-effect_of api topic policy 4 refl [] updated

-- Test: the agent sends the update.
written :
    effect_of api updated policy 4 []
    ≡ (ok tt, "https://nsxhttps://nsx/api/v1/switching-profiles/p1" ∷ [])
unfolding update_switch_profile_qos put get_url apply_rules apply_rule rest_policy retry_loop
    check_response
written = refl
