-- ===== src/Qos/Examples.antt =====
-- A policy with two limits for ingress and a mark.
use networking_nsx_t.Base.{◌≡◌, refl, true, false, none, some, List, [], ◌∷◌}
use networking_nsx_t.Base.Exec.{ok}
use networking_nsx_t.Qos.{QosRule, apply_rules, qos_spec_shaping, mark_rule, limit_rule}
use networking_nsx_t.Qos.Rates.{
  last_match, limits_of, mark_of, shaped, unshaped, apply_rules-last_match,
}

abbrev rules : List QosRule
rules = limit_rule ("ingress", 2048, 8) ∷ mark_rule 7 ∷ limit_rule ("ingress", 4096, 16) ∷ []

apply_rules-last_match_example :
    apply_rules rules qos_spec_shaping
    ≡ ok (
        shaped unshaped
          (last_match (limits_of true) rules)
          (last_match (limits_of false) rules)
          (last_match mark_of rules))
apply_rules-last_match_example = apply_rules-last_match rules refl

-- Test: the last limit counts, and egress is off.
last_limits :
    (last_match (limits_of true) rules ≡ some (4096, 16))
    × (last_match (limits_of false) rules ≡ none)
    × (last_match mark_of rules ≡ some 7)
last_limits = (refl, refl, refl)
