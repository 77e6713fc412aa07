-- ===== src/Qos/Rates.antt =====
-- Which rules of a policy take effect.
use networking_nsx_t.Base.{
  ℕ, ◌+◌, ◌*◌, ◌/◌, ◌==◌, ◌≡◌, refl, String, Bool, true, false, not, ◌||◌, arith, Option, none,
  some, List, [], ◌∷◌, if◌then◌else◌, inl, inr, Bool-cases, all_of, is_some,
}
use networking_nsx_t.Base.Exec.{ok}
use networking_nsx_t.Qos.{
  QosRule, Shaper, Dscp, Shaping, apply_rule, apply_rules, qos_spec_shaping, mbps_of,
}

-- A direction as the rule names it; a rule that names none is for egress.
abbrev pub is_inbound : Option String → Bool
is_inbound none = false
is_inbound (some d) = d == "ingress"

-- What a rule asks of a direction: its rate and burst
abbrev pub limits_of : Bool → QosRule → Option (ℕ × ℕ)
limits_of inbound rule = elim rule.max_kbps [
  | none ↦ none
  | some k ↦ elim rule.max_burst_kbps [
    | none ↦ none
    | some b ↦
        if is_inbound rule.direction
        then (if inbound then some (k, b) else none)
        else (if inbound then none else some (k, b))
  ]
]

abbrev pub mark_of : QosRule → Option ℕ
mark_of rule = elim rule.max_kbps [ none ↦ rule.dscp_mark | some k ↦ none ]

-- A limit rule has a burst.
abbrev pub is_complete : QosRule → Bool
is_complete rule = not (is_some rule.max_kbps) || is_some rule.max_burst_kbps

abbrev pub or_else {ℓ} : {A : Type ℓ} → Option A → Option A → Option A
or_else (some a) b = some a
or_else none b = b

-- The last value that a rule of the list gives
abbrev pub last_match {ℓ} : {A : Type ℓ} → (QosRule → Option A) → List QosRule → Option A
last_match f [] = none
last_match f (rule ∷ rules) = or_else (last_match f rules) (f rule)

-- A shaper that is off
abbrev pub off : String → Shaper
off type = record {
  resource_type = type;
  enabled = false;
  average_bandwidth_mbps = 0;
  peak_bandwidth_mbps = 0;
  burst_size_bytes = 0;
}

-- A rate in kbit/s to the nearest Mbit/s, a half rounded up
abbrev pub nearest_mbps : ℕ → ℕ
nearest_mbps kbps = (kbps + 512) / 1024

-- The shaper that limits to a rate in kbit/s with a burst in kbit, of 128 bytes each
abbrev pub shaper_with : Shaper → Option (ℕ × ℕ) → Shaper
shaper_with shaper none = shaper
shaper_with shaper (some l) = record {
  resource_type = shaper.resource_type;
  enabled = true;
  average_bandwidth_mbps = nearest_mbps l.0;
  peak_bandwidth_mbps = 2 * nearest_mbps l.0;
  burst_size_bytes = 128 * l.1;
}

abbrev pub dscp_with : Dscp → Option ℕ → Dscp
dscp_with dscp none = dscp
dscp_with dscp (some mark) = record { mode = "UNTRUSTED"; priority = mark }

-- Nothing is limited or marked.
abbrev pub unshaped : Shaping
unshaped = record {
  ingress = off "IngressRateShaper";
  egress = off "EgressRateShaper";
  broadcast = record {
    enabled = false;
    burst_size_bytes = 0;
    peak_bandwidth_kbps = 0;
    average_bandwidth_kbps = 0;
  };
  dscp = record { mode = "TRUSTED"; priority = 0 };
}

abbrev pub shaped : Shaping → Option (ℕ × ℕ) → Option (ℕ × ℕ) → Option ℕ → Shaping
shaped s inbound outbound mark = record {
  ingress = shaper_with s.ingress inbound;
  egress = shaper_with s.egress outbound;
  broadcast = s.broadcast;
  dscp = dscp_with s.dscp mark;
}

abbrev rule_at : Option String → Option ℕ → Option ℕ → Option ℕ → QosRule
rule_at d k b m = record { direction = d; max_kbps = k; max_burst_kbps = b; dscp_mark = m }

abbrev IsShapedBy : QosRule → Shaping → Type 0
IsShapedBy rule s =
    apply_rule rule s ≡ ok (shaped s (limits_of true rule) (limits_of false rule) (mark_of rule))

mbps_of-nearest : (kbps : ℕ) → mbps_of kbps ≡ nearest_mbps kbps
unfolding mbps_of
mbps_of-nearest kbps = omega arith

twice : (n : ℕ) → n * 2 ≡ 2 * n
twice n = omega arith

bytes_of : (n : ℕ) → n * 128 ≡ 128 * n
bytes_of n = omega arith

fields-IsShapedBy :
    (d : Option String) (k b m : Option ℕ) (s : Shaping)
    → is_complete (rule_at d k b m) ≡ true
    → IsShapedBy (rule_at d k b m) s
unfolding apply_rule
fields-IsShapedBy d none b none s h = refl
fields-IsShapedBy d none b (some m) s h = refl
fields-IsShapedBy d (some k) none m s h = cc
fields-IsShapedBy none (some k) (some b) m s h = rw (mbps_of-nearest k, twice, bytes_of b)
fields-IsShapedBy (some d) (some k) (some b) m s h = elim (Bool-cases (d == "ingress")) [
  | inl into ↦ rw (into, mbps_of-nearest k, twice, bytes_of b)
  | inr out ↦ rw (out, mbps_of-nearest k, twice, bytes_of b)
]

apply_rule-IsShapedBy : (rule : QosRule) (s : Shaping) → is_complete rule ≡ true → IsShapedBy rule s
apply_rule-IsShapedBy rule s h =
    fields-IsShapedBy rule.direction rule.max_kbps rule.max_burst_kbps rule.dscp_mark s h

shaper_with-shaper_with :
    (s : Shaper) (a b : Option (ℕ × ℕ))
    → shaper_with (shaper_with s a) b ≡ shaper_with s (or_else b a)
shaper_with-shaper_with s a none = refl
shaper_with-shaper_with s none (some l) = refl
shaper_with-shaper_with s (some k) (some l) = refl

dscp_with-dscp_with :
    (d : Dscp) (a b : Option ℕ) → dscp_with (dscp_with d a) b ≡ dscp_with d (or_else b a)
dscp_with-dscp_with d a none = refl
dscp_with-dscp_with d none (some l) = refl
dscp_with-dscp_with d (some k) (some l) = refl

apply_rules-shaped :
    (rules : List QosRule) (s : Shaping)
    → all_of is_complete rules ≡ true
    → apply_rules rules s
      ≡ ok (
          shaped s
            (last_match (limits_of true) rules)
            (last_match (limits_of false) rules)
            (last_match mark_of rules))
unfolding apply_rules
apply_rules-shaped [] s h = refl
apply_rules-shaped (rule ∷ rules) s h = rw (
  apply_rule-IsShapedBy rule s (ground arith),
  apply_rules-shaped rules _ (ground arith),
  shaper_with-shaper_with s.ingress,
  shaper_with-shaper_with s.egress,
  dscp_with-dscp_with s.dscp,
)

-- The rules of a policy, if each limit has a burst, make the shaping in which each direction has
-- the last limit for it, or is off where there is none: its average is the rate of the limit to the
-- nearest Mbit/s, its peak is twice the average, and its burst is that of the limit, in bytes. The
-- mark is that of the last marking rule, and broadcast is off.
pub apply_rules-last_match :
    (rules : List QosRule)
    → all_of is_complete rules ≡ true
    → apply_rules rules qos_spec_shaping
      ≡ ok (
          shaped unshaped
            (last_match (limits_of true) rules)
            (last_match (limits_of false) rules)
            (last_match mark_of rules))
apply_rules-last_match rules h = apply_rules-shaped rules qos_spec_shaping h
