-- ===== src/SecurityGroups/Sections.antt =====
-- update_security_group_rules of
-- networking_nsxv3/plugins/ml2/drivers/nsxv3/agent/nsxv3_facada.py, over the client's operations
-- that it calls.
use networking_nsx_t.Base.{
  ℕ, ◌+◌, String, Bool, true, false, not, Option, List, [], ◌∷◌, nat_eq, if◌then◌else◌, ◌+++◌, str,
}
use networking_nsx_t.Base.Exec.{attribute_error, ok, Exec, lift, from_option, ◌>>=◌, ◌>>◌}
use networking_nsx_t.Firewall.Model.{FirewallRule}
use networking_nsx_t.Inventory.{Tag, revision_scope}
use networking_nsx_t.SecurityGroups.Bodies.{RuleBody}

pub record Section : Type 0 where
  pub id : String
  pub revision : ℕ

pub record IpSet : Type 0 where
  pub id : String
  pub ip_addresses : List String
  pub tags : List Tag

-- `get`, `_post`, `_delete` and `update` of the client at the types that the method uses.
-- `post_rule` gives the status code.
pub record RulesApi {ℓ} (W : Type ℓ) (Json : Type 0) : Type ℓ where
  pub body_of : FirewallRule → RuleBody Json
  pub get_section : String → Exec W (Option Section)
  pub post_rule : String → RuleBody Json × ℕ → Exec W ℕ
  pub delete_rule : String → Exec W (Unit {0})
  pub get_ipset : String → Exec W (Option IpSet)
  pub update_ipset : IpSet → Exec W (Unit {0})

module _ {ℓ} {W : Type ℓ} {Json : Type 0} (api : RulesApi W Json) where
  abbrev pub path_of : Section → String
  path_of sec = "/api/v1/firewall/sections/" +++ sec.id +++ "/rules"

  -- The first loop; it returns `error`.
  unfoldable pub post_rules : String → List FirewallRule → ℕ → Bool → Exec W Bool
  post_rules path [] revision error w = (ok error, w)
  post_rules path (rule ∷ rules) revision error w =
      (api.post_rule path (api.body_of rule, revision) >>= λ status w'.
      (let created = post_rules path rules (revision + 1) error w' in
        let failed = post_rules path rules revision true w' in
        if nat_eq status 200 then created else failed))
        w

  unfoldable pub delete_rules : String → List String → Exec W (Unit {0})
  delete_rules path [] w = (ok tt, w)
  delete_rules path (rule_id ∷ ids) w =
      (api.delete_rule (path +++ "/" +++ rule_id) >> delete_rules path ids) w

  abbrev pub tagged : ℕ → Bool → IpSet → IpSet
  tagged revision_number error ips =
      if not error
      then record ips { tags = record { scope = revision_scope; tag = str revision_number } ∷ [] }
      else ips

  unfoldable pub update_security_group_rules :
      String → ℕ → List FirewallRule → List String → Exec W (Unit {0})
  update_security_group_rules security_group_id revision_number add_rules del_rules =
      api.get_section security_group_id >>= λ found.
      lift (from_option attribute_error found) >>= λ sec.
      post_rules (path_of sec) add_rules sec.revision false >>= λ error.
      delete_rules (path_of sec) del_rules >> api.get_ipset security_group_id >>= λ ips.
      lift (from_option attribute_error ips) >>= λ i.
      api.update_ipset (tagged revision_number error i)
