-- ===== src/Rpc/RoundTrip.antt =====
-- A call of the agent and the answer of the server to what it sends.
use networking_nsx_t.Base.{ℕ, String, [], ◌∷◌, ◌≡◌, refl}
use networking_nsx_t.Base.Dict.{Dict, lookup}
use networking_nsx_t.Base.Exec.{Result, ok}
use networking_nsx_t.Database.{DateArg, datetime, basestring, other_type, _get_datetime}
use networking_nsx_t.Database.Queries.{
  get_security_group_revision as select_security_group_revision,
  has_security_group_tag as select_security_group_tag, get_qos as select_qos,
  get_qos_bwl_rules as select_qos_bwl_rules, get_qos_dscp_rules as select_qos_dscp_rules,
  get_port as select_port, get_port_security_groups as select_port_security_groups,
  get_port_allowed_pairs as select_port_allowed_pairs, get_port_addresses as select_port_addresses,
  get_rules_for_security_groups_id as select_rules_for_security_groups_id,
  get_security_group_members_ips as select_members_ips,
  get_security_group_members_address_bindings_ips as select_members_address_bindings_ips,
}
use networking_nsx_t.Database.Paging.{
  query_port_revisions, query_qos_policy_revisions, query_security_group_revisions,
}
use networking_nsx_t.Rpc.{
  Arg, text, number, time, Request, request_of, ServerCall, get_port_revision_tuples,
  get_qos_policy_revision_tuples, get_security_group_revision, get_security_group_revision_tuples,
  has_security_group_tag, get_qos, get_qos_bwl_rules, get_qos_dscp_rules, get_port,
  get_port_security_groups, get_port_allowed_pairs, get_port_addresses,
  get_rules_for_security_groups_id, get_security_group_members_ips,
  get_security_group_members_address_bindings_ips,
}
use networking_nsx_t.Rpc.Server.{
  Server, Answer, revision_tuples, name_and_revision, flag, bandwidth_limits, dscp_marks,
  port_details, texts, pairs, rules, answer_with, dispatch,
}

-- A message has a datetime as a text.
module _ (strftime : ℕ → String) where
  abbrev pub wire_date : DateArg → DateArg
  wire_date (datetime t) = basestring (strftime t)
  wire_date (basestring s) = basestring s
  wire_date other_type = other_type

  abbrev pub wire_arg : Arg → Arg
  wire_arg (text s) = text s
  wire_arg (number n) = number n
  wire_arg (time date) = time (wire_date date)

  abbrev pub wire_kwargs : Dict Arg → Dict Arg
  wire_kwargs [] = []
  wire_kwargs ((key, arg) ∷ kwargs) = (key, wire_arg arg) ∷ wire_kwargs kwargs

  abbrev pub wire : Request → Request
  wire request = record request { kwargs = wire_kwargs request.kwargs }

-- What the agent means by a call: the query on the server's database
abbrev pub query_of : Server → String → ServerCall → Result Answer
query_of server host (get_port_revision_tuples limit created_after) =
    answer_with revision_tuples
      (query_port_revisions server.order_by server.strptime server.db host limit created_after)
query_of server host (get_qos_policy_revision_tuples limit created_after) =
    answer_with revision_tuples
      (query_qos_policy_revisions server.order_by server.strptime server.db limit created_after)
query_of server host (get_security_group_revision id) =
    answer_with name_and_revision (select_security_group_revision server.db id)
query_of server host (get_security_group_revision_tuples limit created_after) =
    answer_with revision_tuples
      (query_security_group_revisions server.order_by server.strptime server.db limit created_after)
query_of server host (has_security_group_tag id tag_name) =
    ok (flag (select_security_group_tag server.db id tag_name))
query_of server host (get_qos id) = answer_with name_and_revision (select_qos server.db id)
query_of server host (get_qos_bwl_rules id) =
    ok (bandwidth_limits (select_qos_bwl_rules server.db id))
query_of server host (get_qos_dscp_rules id) = ok (dscp_marks (select_qos_dscp_rules server.db id))
query_of server host (get_port id) = answer_with port_details (select_port server.db id)
query_of server host (get_port_security_groups id) =
    ok (texts (select_port_security_groups server.db id))
query_of server host (get_port_allowed_pairs id) =
    ok (pairs (select_port_allowed_pairs server.db id))
query_of server host (get_port_addresses id) = ok (pairs (select_port_addresses server.db id))
query_of server host (get_rules_for_security_groups_id id) =
    ok (rules (select_rules_for_security_groups_id server.db id))
query_of server host (get_security_group_members_ips id) =
    ok (texts (select_members_ips server.db id))
query_of server host (get_security_group_members_address_bindings_ips id) =
    ok (texts (select_members_address_bindings_ips server.db id))

module _ (server : Server) (strftime : ℕ → String)
    (read_back : (t : ℕ) → server.strptime (strftime t) ≡ ok t) where
  wire_date_read :
      (date : DateArg)
      → _get_datetime server.strptime (wire_date strftime date) ≡ _get_datetime server.strptime date
  unfolding _get_datetime
  wire_date_read (datetime t) = read_back t
  wire_date_read (basestring s) = refl
  wire_date_read other_type = refl

  -- The server answers each of the agent's calls with the query that the call is named after, on
  -- the arguments that were passed and the agent's host: the names of the method and of its
  -- arguments are the same on both sides, and a time that the message has as a text is read back,
  -- given that strptime reads what the serializer of messages writes.
  pub dispatch-request_of :
      (host : String) (call : ServerCall)
      → dispatch server (wire strftime (request_of host call)) ≡ query_of server host call
  unfolding dispatch request_of lookup query_port_revisions query_qos_policy_revisions
      query_security_group_revisions
  dispatch-request_of host (get_port_revision_tuples limit created_after) =
      rw (wire_date_read created_after) refl
  dispatch-request_of host (get_qos_policy_revision_tuples limit created_after) =
      rw (wire_date_read created_after) refl
  dispatch-request_of host (get_security_group_revision id) = refl
  dispatch-request_of host (get_security_group_revision_tuples limit created_after) =
      rw (wire_date_read created_after) refl
  dispatch-request_of host (has_security_group_tag id tag_name) = refl
  dispatch-request_of host (get_qos id) = refl
  dispatch-request_of host (get_qos_bwl_rules id) = refl
  dispatch-request_of host (get_qos_dscp_rules id) = refl
  dispatch-request_of host (get_port id) = refl
  dispatch-request_of host (get_port_security_groups id) = refl
  dispatch-request_of host (get_port_allowed_pairs id) = refl
  dispatch-request_of host (get_port_addresses id) = refl
  dispatch-request_of host (get_rules_for_security_groups_id id) = refl
  dispatch-request_of host (get_security_group_members_ips id) = refl
  dispatch-request_of host (get_security_group_members_address_bindings_ips id) = refl
