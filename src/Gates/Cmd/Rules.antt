-- ===== src/Gates/Cmd/Rules.antt =====
-- What CmdGate lets through: every flag among the arguments of Cmd, wherever it stands.
use docker_socket_policy.Base.{
  Text, Bool, true, false, not, Option, some, List, [], ◌∷◌, ◌≡◌, refl, ◌≢◌, ok, inl, inr, arith,
  Elem, ◌==◌, ==_iff, >>-eq-ok, ensure, ensure-eq-ok, ensure-not-eq-ok, unwrap_or, Result-cases,
  if◌then◌else◌,
}
use docker_socket_policy.Policy.{Regex, Policy, FlagRule}
use docker_socket_policy.Gates.MountSource.{contains_entry}
use docker_socket_policy.Gates.MountSource.Rules.{contains_entry-Elem, Elem-contains_entry}
use docker_socket_policy.Gates.Cmd.{
  flag_denied_by, flag_allowed_by, check_flag, check_rule, check_rules, check_value,
}

-- A flag that is not on the policy's denylist, and on its allowlist if there is one.
pub record IsAllowedFlag (policy : Policy) (flag : Text) : Type 0 where
  pub not_denied : (denied : List Text) → policy.denied_flags ≡ some denied → ¬ Elem flag denied
  pub allowlisted :
      (allowed : List Text) → policy.allowed_cli_flags ≡ some allowed → Elem flag allowed

flag_denied_by-none :
    (o : Option (List Text)) (flag : Text)
    → flag_denied_by o flag ≡ false
    → (denied : List Text) → o ≡ some denied
    → ¬ Elem flag denied
unfolding flag_denied_by
flag_denied_by-none o flag h denied e k =
    let own : contains_entry denied flag ≡ false = rw (e, flag_denied_by) at h in
    ground (arith, Elem-contains_entry denied flag k)

flag_allowed_by-some :
    (o : Option (List Text)) (flag : Text)
    → flag_allowed_by o flag ≡ true
    → (allowed : List Text) → o ≡ some allowed
    → Elem flag allowed
unfolding flag_allowed_by
flag_allowed_by-some o flag h allowed e =
    let own : contains_entry allowed flag ≡ true = rw (e, flag_allowed_by) at h in
    contains_entry-Elem allowed flag own

pub check_flag-IsAllowedFlag :
    (policy : Policy) (flag : Text) → check_flag policy flag ≡ ok tt → IsAllowedFlag policy flag
unfolding check_flag
check_flag-IsAllowedFlag policy flag h =
    let both = >>-eq-ok (ensure (not (flag_denied_by policy.denied_flags flag)) _) _ h in
    record {
      not_denied = flag_denied_by-none policy.denied_flags flag (ensure-not-eq-ok _ _ both.0);
      allowlisted = flag_allowed_by-some policy.allowed_cli_flags flag (ensure-eq-ok _ _ both.1);
    }

-- The value matches every rule of the flag.
abbrev pub Matches : Regex → List FlagRule → (flag value : Text) → Type 0
Matches re rules flag value =
    (rule : FlagRule)
    → Elem rule rules
    → rule.flag ≡ flag
    → (test : Text → Bool) × (re.compile rule.value_pattern ≡ ok test) × (test value ≡ true)

check_rule-match :
    (re : Regex) (rule : FlagRule) (flag value : Text)
    → check_rule re rule flag value ≡ ok tt
    → (test : Text → Bool) × (re.compile rule.value_pattern ≡ ok test) × (test value ≡ true)
unfolding check_rule
check_rule-match re rule flag value h = elim (Result-cases (re.compile rule.value_pattern)) [
  | inl (test, e) ↦ (test, e, ensure-eq-ok (test value) _ (rw (e, check_rule) at h))
  | inr (msg, e) ↦ let refused = rw (e, check_rule) at h in absurd cc
]

check_rules-Matches :
    (re : Regex) (rules : List FlagRule) (flag value : Text)
    → check_rules re rules flag value ≡ ok tt
    → Matches re rules flag value
unfolding check_rules
check_rules-Matches re [] flag value h other e same = elim e [ ]
check_rules-Matches re (rule ∷ rules) flag value h _ Elem.here same =
    let both = >>-eq-ok (if rule.flag == flag then check_rule re rule flag value else ok tt) _ h in
    let t : (rule.flag == flag) ≡ true = (==_iff rule.flag flag).1 same in
    check_rule-match re rule flag value (rw t at both.0)
check_rules-Matches re (rule ∷ rules) flag value h other (Elem.there e) same =
    let both = >>-eq-ok (if rule.flag == flag then check_rule re rule flag value else ok tt) _ h in
    check_rules-Matches re rules flag value both.1 other e same

pub check_value-Matches :
    (re : Regex) (policy : Policy) (flag value : Text)
    → check_value re policy flag value ≡ ok tt
    → value ≢ []
    → Matches re (unwrap_or [] policy.flag_rules) flag value
unfolding check_value
check_value-Matches re policy flag [] h some_value = absurd (some_value refl)
check_value-Matches re policy flag (c ∷ s) h some_value =
    check_rules-Matches re (unwrap_or [] policy.flag_rules) flag (c ∷ s) h
