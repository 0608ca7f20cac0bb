-- ===== src/Reliability/Policy/Rules.antt =====
-- What a policy that passes validation guarantees, and that nothing else is refused.
use tgproxy_panel.Prelude.{
  String, ◌≡◌, ◌≢◌, ◌↔◌, ◌⊎◌, inl, inr, Bool, true, false, ◌&&◌, ◌||◌, none, arith, eq_iff, ◌==◌,
  ◌!=◌, Bool-cases, ℤ, pos, ◌≤ℤ◌, nat_eq, string_eq,
}
use tgproxy_panel.Reliability.Policy.{Net, Policy, endpoint_ok, validate, outside_ℤ}

-- The rules of a policy, as the panel documents them.
pub record IsValid (net : Net) (p : Policy) : Type 0 where
  pub recovery : (p.recovery ≡ "observe") ⊎ (p.recovery ≡ "restart")
  pub threshold : (pos 2 ≤ℤ p.failure_threshold) × (p.failure_threshold ≤ℤ pos 20)
  pub cooldown : (pos 60 ≤ℤ p.cooldown_seconds) × (p.cooldown_seconds ≤ℤ pos 86400)
  pub actions : (pos 1 ≤ℤ p.max_actions_hour) × (p.max_actions_hour ≤ℤ pos 6)
  pub egress : (p.egress ≡ "unmanaged") ⊎ ((p.egress ≡ "direct") ⊎ (p.egress ≡ "socks5"))
  pub primary : endpoint_ok net p.socks_address ≡ true
  pub reserve : endpoint_ok net p.reserve_socks_address ≡ true
  pub has_primary : p.egress ≡ "socks5" → p.socks_address ≢ ""
  pub failover_reserve : p.automatic_failover ≡ true → p.reserve_socks_address ≢ ""
  pub failover_managed : p.automatic_failover ≡ true → p.egress ≢ "unmanaged"
  pub failover_differs :
      p.automatic_failover ≡ true → p.egress ≡ "socks5" → p.reserve_socks_address ≢ p.socks_address

recovery_test :
    (p : Policy)
    → ((p.recovery != "observe") && (p.recovery != "restart") ≡ false)
      ↔ ((p.recovery ≡ "observe") ⊎ (p.recovery ≡ "restart"))
recovery_test p = (
  λ h. ground (arith, eq_iff p.recovery "observe", eq_iff p.recovery "restart"),
  λ h. ground (arith, eq_iff p.recovery "observe", eq_iff p.recovery "restart"),
)

outside_ℤ-test : (lo hi n : ℤ) → (outside_ℤ lo hi n ≡ false) ↔ ((lo ≤ℤ n) × (n ≤ℤ hi))
outside_ℤ-test lo hi n = (λ h. ground arith, λ h. ground arith)

egress_test :
    (p : Policy)
    → ((p.egress != "unmanaged") && (p.egress != "direct") && (p.egress != "socks5") ≡ false)
      ↔ ((p.egress ≡ "unmanaged") ⊎ ((p.egress ≡ "direct") ⊎ (p.egress ≡ "socks5")))
egress_test p = (
  λ h.
      ground
        (arith, eq_iff p.egress "unmanaged", eq_iff p.egress "direct", eq_iff p.egress "socks5"),
  λ h.
      ground
        (arith, eq_iff p.egress "unmanaged", eq_iff p.egress "direct", eq_iff p.egress "socks5"),
)

ne_test : (s t : String) → ((s == t) ≡ false) ↔ (s ≢ t)
ne_test s t =
    (λ h e. ground (arith, eq_iff s t), λ h. ground (arith, eq_iff s t, Bool-cases (s == t)))

-- The seven tests of the validation.
record Passed (net : Net) (p : Policy) : Type 0 where
  recovery_ok : (p.recovery != "observe") && (p.recovery != "restart") ≡ false
  threshold_ok : outside_ℤ (pos 2) (pos 20) p.failure_threshold ≡ false
  cooldown_ok : outside_ℤ (pos 60) (pos 86400) p.cooldown_seconds ≡ false
  actions_ok : outside_ℤ (pos 1) (pos 6) p.max_actions_hour ≡ false
  egress_ok : (p.egress != "unmanaged") && (p.egress != "direct") && (p.egress != "socks5") ≡ false
  primary_ok : endpoint_ok net p.socks_address ≡ true
  reserve_ok : endpoint_ok net p.reserve_socks_address ≡ true
  has_primary_ok : (p.egress == "socks5") && (p.socks_address == "") ≡ false
  differs_ok :
      p.automatic_failover && (p.egress == "socks5") && (p.reserve_socks_address == p.socks_address)
      ≡ false
  managed_ok :
      p.automatic_failover && ((p.egress == "unmanaged") || (p.reserve_socks_address == "")) ≡ false

validate-Passed : (net : Net) (p : Policy) → validate net p ≡ none → Passed net p
unfolding validate
validate-Passed net p h = ground arith

Passed-validate : (net : Net) (p : Policy) → Passed net p → validate net p ≡ none
unfolding validate
Passed-validate net p t = ground arith

Passed-IsValid : (net : Net) (p : Policy) → Passed net p → IsValid net p
Passed-IsValid net p t = record {
  recovery = (recovery_test p).0 t.recovery_ok;
  threshold = (outside_ℤ-test (pos 2) (pos 20) p.failure_threshold).0 t.threshold_ok;
  cooldown = (outside_ℤ-test (pos 60) (pos 86400) p.cooldown_seconds).0 t.cooldown_ok;
  actions = (outside_ℤ-test (pos 1) (pos 6) p.max_actions_hour).0 t.actions_ok;
  egress = (egress_test p).0 t.egress_ok;
  primary = t.primary_ok;
  reserve = t.reserve_ok;
  has_primary =
      λ s e. ground (arith, t.has_primary_ok, eq_iff p.egress "socks5", eq_iff p.socks_address "");
  failover_reserve = λ a e. ground (arith, t.managed_ok, eq_iff p.reserve_socks_address "");
  failover_managed = λ a e. ground (arith, t.managed_ok, eq_iff p.egress "unmanaged");
  failover_differs = λ a s e. ground (
    arith,
    t.differs_ok,
    eq_iff p.egress "socks5",
    eq_iff p.reserve_socks_address p.socks_address,
  );
}

both_false : (a b : Bool) → (a ≡ true → b ≡ true → ⊥) → a && b ≡ false
both_false a b h = ground (arith, h)

IsValid-Passed : (net : Net) (p : Policy) → IsValid net p → Passed net p
IsValid-Passed net p v = record {
  recovery_ok = (recovery_test p).1 v.recovery;
  threshold_ok = (outside_ℤ-test (pos 2) (pos 20) p.failure_threshold).1 v.threshold;
  cooldown_ok = (outside_ℤ-test (pos 60) (pos 86400) p.cooldown_seconds).1 v.cooldown;
  actions_ok = (outside_ℤ-test (pos 1) (pos 6) p.max_actions_hour).1 v.actions;
  egress_ok = (egress_test p).1 v.egress;
  primary_ok = v.primary;
  reserve_ok = v.reserve;
  has_primary_ok =
      both_false (p.egress == "socks5") (p.socks_address == "")
        (λ a b. v.has_primary ((eq_iff p.egress "socks5").0 a) ((eq_iff p.socks_address "").0 b));
  differs_ok =
      both_false (p.automatic_failover && (p.egress == "socks5"))
        (p.reserve_socks_address == p.socks_address)
        (λ a b.
          v.failover_differs (ground arith) ((eq_iff p.egress "socks5").0 (ground arith))
            ((eq_iff p.reserve_socks_address p.socks_address).0 b));
  managed_ok =
      both_false p.automatic_failover ((p.egress == "unmanaged") || (p.reserve_socks_address == ""))
        (λ a b. elim (Bool-cases (p.egress == "unmanaged")) [
          | inl e ↦ v.failover_managed a ((eq_iff p.egress "unmanaged").0 e)
          | inr e ↦ v.failover_reserve a ((eq_iff p.reserve_socks_address "").0 (ground arith))
        ]);
}

-- A policy passes validation exactly when it obeys every rule.
pub validate_iff : (net : Net) (p : Policy) → (validate net p ≡ none) ↔ IsValid net p
validate_iff net p = (
  λ h. Passed-IsValid net p (validate-Passed net p h),
  λ v. Passed-validate net p (IsValid-Passed net p v),
)
