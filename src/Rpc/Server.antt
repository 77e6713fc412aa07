-- ===== src/Rpc/Server.antt =====
-- NSXv3ServerRpcCallback of networking_nsxv3/api/rpc.py: how the server answers a request.
use networking_nsx_t.Base.{
  ℕ, String, Bool, Option, none, some, List, [], ◌∷◌, ◌==◌, nat_eq, length, if◌then◌else◌,
}
use networking_nsx_t.Base.Dict.{Dict, lookup}
use networking_nsx_t.Base.Exec.{type_error, no_such_method, Result, ok, raise, and_then}
use networking_nsx_t.Firewall.Model.{RuleFields}
use networking_nsx_t.Revisions.{Row}
use networking_nsx_t.Database.{Database, DateArg, PortDetails}
use networking_nsx_t.Database.Queries.{
  get_security_group_revision, has_security_group_tag, get_qos, get_qos_bwl_rules,
  get_qos_dscp_rules, get_port, get_port_security_groups, get_port_allowed_pairs,
  get_port_addresses, get_rules_for_security_groups_id, get_security_group_members_ips,
  get_security_group_members_address_bindings_ips,
}
use networking_nsx_t.Database.Paging.{
  query_port_revisions, query_qos_policy_revisions, query_security_group_revisions,
}
use networking_nsx_t.Rpc.{Arg, text, number, time, Request}

pub data Answer : Type 0 where
  revision_tuples : List Row → Answer
  name_and_revision : String × ℕ → Answer
  flag : Bool → Answer
  bandwidth_limits : List (String × ℕ × ℕ) → Answer
  dscp_marks : List (String × ℕ) → Answer
  port_details : PortDetails → Answer
  texts : List String → Answer
  pairs : List (String × String) → Answer
  rules : List RuleFields → Answer

-- The server's database, how it orders rows, and strptime
pub record Server : Type 0 where
  pub db : Database
  pub order_by : List Row → List Row
  pub strptime : String → Result ℕ

-- The arguments of a method with these parameters, or TypeError where a key is missing or not one
-- of them
abbrev take_arg : Option Arg → Result (List Arg) → Result (List Arg)
take_arg none args = raise type_error
take_arg (some arg) args = and_then args (λ l. ok (arg ∷ l))

abbrev take_args : List String → Dict Arg → Result (List Arg)
take_args [] kwargs = ok []
take_args (name ∷ names) kwargs = take_arg (lookup name kwargs) (take_args names kwargs)

abbrev bind_args : List String → Dict Arg → Result (List Arg)
bind_args names kwargs =
    let args = take_args names kwargs in
    if nat_eq (length kwargs) (length names) then args else raise type_error

-- The answer, where a query has one
abbrev pub answer_with {ℓ} : {A : Type ℓ} → (A → Answer) → Result A → Result Answer
answer_with wrap r = and_then r (λ a. ok (wrap a))

-- The bodies of the methods, on arguments of the types that the queries compare with
abbrev on_id : (String → Result Answer) → List Arg → Result Answer
on_id f (text id ∷ []) = f id
on_id f _ = raise type_error

abbrev on_texts : (String → String → Result Answer) → List Arg → Result Answer
on_texts f (text id ∷ text name ∷ []) = f id name
on_texts f _ = raise type_error

abbrev on_page : (ℕ → DateArg → Result Answer) → List Arg → Result Answer
on_page f (number limit ∷ time created_after ∷ []) = f limit created_after
on_page f _ = raise type_error

abbrev on_host_page : (String → ℕ → DateArg → Result Answer) → List Arg → Result Answer
on_host_page f (text host ∷ number limit ∷ time created_after ∷ []) = f host limit created_after
on_host_page f _ = raise type_error

module _ (server : Server) where
  abbrev one_key : String → Request → (String → Result Answer) → Result Answer
  one_key key request f = and_then (bind_args (key ∷ []) request.kwargs) (on_id f)

  -- The methods of the endpoint by their names
  unfoldable pub dispatch : Request → Result Answer
  unfolding lookup
  dispatch request =
      if request.method == "get_port_revision_tuples"
      then and_then (bind_args ("host" ∷ "limit" ∷ "created_after" ∷ []) request.kwargs) (
          on_host_page (λ host limit created_after. answer_with revision_tuples (
            query_port_revisions server.order_by server.strptime server.db host limit
              created_after)))
      else if request.method == "get_qos_policy_revision_tuples"
      then and_then (bind_args ("limit" ∷ "created_after" ∷ []) request.kwargs) (
          on_page (λ limit created_after. answer_with revision_tuples (
            query_qos_policy_revisions server.order_by server.strptime server.db limit
              created_after)))
      else if request.method == "get_security_group_revision"
      then one_key "security_group_id" request
          (λ id. answer_with name_and_revision (get_security_group_revision server.db id))
      else if request.method == "get_security_group_revision_tuples"
      then and_then (bind_args ("limit" ∷ "created_after" ∷ []) request.kwargs) (
          on_page (λ limit created_after. answer_with revision_tuples (
            query_security_group_revisions server.order_by server.strptime server.db limit
              created_after)))
      else if request.method == "has_security_group_tag"
      then and_then (bind_args ("security_group_id" ∷ "tag_name" ∷ []) request.kwargs)
          (on_texts (λ id tag_name. ok (flag (has_security_group_tag server.db id tag_name))))
      else if request.method == "get_qos"
      then one_key "qos_id" request (λ id. answer_with name_and_revision (get_qos server.db id))
      else if request.method == "get_qos_bwl_rules"
      then one_key "qos_id" request (λ id. ok (bandwidth_limits (get_qos_bwl_rules server.db id)))
      else if request.method == "get_qos_dscp_rules"
      then one_key "qos_id" request (λ id. ok (dscp_marks (get_qos_dscp_rules server.db id)))
      else if request.method == "get_port"
      then one_key "port_id" request (λ id. answer_with port_details (get_port server.db id))
      else if request.method == "get_port_security_groups"
      then one_key "port_id" request (λ id. ok (texts (get_port_security_groups server.db id)))
      else if request.method == "get_port_allowed_pairs"
      then one_key "port_id" request (λ id. ok (pairs (get_port_allowed_pairs server.db id)))
      else if request.method == "get_port_addresses"
      then one_key "port_id" request (λ id. ok (pairs (get_port_addresses server.db id)))
      else if request.method == "get_rules_for_security_groups_id"
      then one_key "security_group_id" request
          (λ id. ok (rules (get_rules_for_security_groups_id server.db id)))
      else if request.method == "get_security_group_members_ips"
      then one_key "security_group_id" request
          (λ id. ok (texts (get_security_group_members_ips server.db id)))
      else if request.method == "get_security_group_members_address_bindings_ips"
      then one_key "security_group_id" request
          (λ id. ok (texts (get_security_group_members_address_bindings_ips server.db id)))
      else raise no_such_method
