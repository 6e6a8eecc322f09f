-- ===== src/Gates/HostConfig/Options.antt =====
-- The fields of HostConfig with a rule of their own besides the mounts and the namespaces:
-- SecurityOpt, GroupAdd, OomScoreAdj, MaskedPaths and ReadonlyPaths.
use docker_socket_policy.Base.{
  Text, true, false, Option, none, some, List, [], ◌∷◌, ◌≡◌, refl, ap, ap₂, ◌∙◌, ok, ◌⊎◌, inl, inr,
  arith, lit, Elem, All, map, ◌==◌, ==_iff, ◌||◌, >>-eq-ok, >>=-eq-ok, ok_or-eq-ok, ensure-eq-ok,
  Option-cases, ok_or, ensure, or_cases,
}
use docker_socket_policy.Json.{
  Value, null, bool, number, string, array, object, as_str, as_array, is_null, to_list,
  is_nonnegative_value,
}
use docker_socket_policy.Policy.{Policy}
use docker_socket_policy.Gates.{is_zero_value}
use docker_socket_policy.Gates.MountSource.{contains_entry}
use docker_socket_policy.Gates.MountSource.Rules.{contains_entry-Elem, as_str-eq-some}
use docker_socket_policy.Gates.HostConfig.{
  check_host_field, check_security_opt, check_security_opts, policy_security_options, same_strings,
  equals_groups, equals_forced_groups, forced_groups,
}
use docker_socket_policy.Gates.HostConfig.Fields.{no_new_privileges, host_config_any_value}

-- A text that sets no-new-privileges, or that the policy lists among its security options.
abbrev pub IsSecurityOption : Policy → Value → Type 0
IsSecurityOption policy v =
    (s : Text) × (v ≡ string s)
    × (Elem s no_new_privileges ⊎ Elem s (policy_security_options policy))

entry_cases :
    (first second : List Text) (s : Text)
    → (contains_entry first s || contains_entry second s) ≡ true
    → Elem s first ⊎ Elem s second
entry_cases first second s h =
    elim (or_cases (contains_entry first s) (contains_entry second s) h) [
      | inl t ↦ inl (contains_entry-Elem first s t)
      | inr t ↦ inr (contains_entry-Elem second s t)
    ]

check_security_opts-All :
    (policy : Policy) (service : Text) (es : List Value)
    → check_security_opts (policy_security_options policy) service es ≡ ok tt
    → All (IsSecurityOption policy) es
unfolding check_security_opts
check_security_opts-All policy service [] h = tt
check_security_opts-All policy service (e ∷ es) h =
    let (s, found, rest) = >>=-eq-ok (ok_or _ (as_str e)) _ h in
    let both =
      >>-eq-ok
        (ensure
          (contains_entry no_new_privileges s || contains_entry (policy_security_options policy) s)
          _)
        _ rest in
    (
      (
        s,
        as_str-eq-some e (ok_or-eq-ok _ (as_str e) found),
        entry_cases no_new_privileges (policy_security_options policy) s (ensure-eq-ok _ _ both.0),
      ),
      check_security_opts-All policy service es both.1,
    )

-- null, or an array of such texts.
abbrev pub IsSecurityOpt : Policy → Value → Type 0
IsSecurityOpt policy v =
    (v ≡ null) ⊎ ((es : List Value) × (as_array v ≡ some es) × All (IsSecurityOption policy) es)

check_security_opt-IsSecurityOpt :
    (policy : Policy) (v : Value) → (check_security_opt v policy ≡ ok tt) → IsSecurityOpt policy v
unfolding check_security_opt
check_security_opt-IsSecurityOpt policy null h = inl refl
check_security_opt-IsSecurityOpt policy (array a) h =
    inr (to_list a, refl, check_security_opts-All policy policy.service_name (to_list a) h)
check_security_opt-IsSecurityOpt policy (bool b) h = absurd cc
check_security_opt-IsSecurityOpt policy (number n) h = absurd cc
check_security_opt-IsSecurityOpt policy (string s) h = absurd cc
check_security_opt-IsSecurityOpt policy (object o) h = absurd cc

same_strings-eq :
    (vs : List Value) (fs : List Text) → same_strings vs fs ≡ true → vs ≡ map string fs
unfolding same_strings
same_strings-eq [] [] h = refl
same_strings-eq (string s ∷ vs) (f ∷ fs) h =
    ap₂ (λ t ws. string t ∷ ws) ((==_iff s f).0 (ground arith))
      (same_strings-eq vs fs (ground arith))
same_strings-eq [] (f ∷ fs) h = absurd cc
same_strings-eq (string s ∷ vs) [] h = absurd cc
same_strings-eq (null ∷ vs) fs h = absurd cc
same_strings-eq (bool b ∷ vs) fs h = absurd cc
same_strings-eq (number b ∷ vs) fs h = absurd cc
same_strings-eq (array b ∷ vs) fs h = absurd cc
same_strings-eq (object b ∷ vs) fs h = absurd cc

-- The policy's groups, of which there is at least one, in its order.
abbrev pub IsForcedGroups : Policy → Value → Type 0
IsForcedGroups policy v =
    (g : Text) × (gs : List Text) × (forced_groups policy ≡ some (g ∷ gs))
    × (as_array v ≡ some (map string (g ∷ gs)))

equals_groups-eq :
    (v : Value) (o : Option (List Text))
    → equals_groups v o ≡ true
    → (g : Text) × (gs : List Text) × (o ≡ some (g ∷ gs))
      × (as_array v ≡ some (map string (g ∷ gs)))
unfolding equals_groups
equals_groups-eq v none h = cc
equals_groups-eq v (some []) h = cc
equals_groups-eq v (some (g ∷ gs)) h = elim (Option-cases (as_array v)) [
  | inl e ↦ let own : false ≡ true = rw (e, equals_groups) at h in cc
  | inr (list, e) ↦
      let own : same_strings list (g ∷ gs) ≡ true = rw (e, equals_groups) at h in
      (g, gs, refl, e ∙ ap (λ l. some l) (same_strings-eq list (g ∷ gs) own))
]

is_null-eq : (v : Value) → is_null v ≡ true → v ≡ null
unfolding is_null
is_null-eq null h = refl
is_null-eq (bool b) h = absurd cc
is_null-eq (number n) h = absurd cc
is_null-eq (string s) h = absurd cc
is_null-eq (array a) h = absurd cc
is_null-eq (object o) h = absurd cc

-- What the check of the field asks of the value under each of these keys.
pub record IsOption (policy : Policy) (key : Text) (v : Value) : Type 0 where
  pub security_opt : key ≡ lit "SecurityOpt" → IsSecurityOpt policy v
  pub group_add : key ≡ lit "GroupAdd" → (is_zero_value v ≡ true) ⊎ IsForcedGroups policy v
  pub oom_score_adj : key ≡ lit "OomScoreAdj" → (v ≡ null) ⊎ (is_nonnegative_value v ≡ true)
  pub masked_paths : key ≡ lit "MaskedPaths" → v ≡ null
  pub readonly_paths : key ≡ lit "ReadonlyPaths" → v ≡ null

module _ (policy : Policy) (v : Value) where
  check_host_field-IsSecurityOpt :
      check_host_field policy (lit "SecurityOpt") v ≡ ok tt → IsSecurityOpt policy v
  unfolding check_host_field host_config_any_value contains_entry ◌==◌ lit
  check_host_field-IsSecurityOpt h = check_security_opt-IsSecurityOpt policy v h

  group_add-checked :
      check_host_field policy (lit "GroupAdd") v ≡ ok tt
      → (is_zero_value v ≡ true) ⊎ IsForcedGroups policy v
  unfolding check_host_field host_config_any_value contains_entry ◌==◌ lit equals_forced_groups
  group_add-checked h =
      elim (or_cases (is_zero_value v) (equals_forced_groups v policy) (ensure-eq-ok _ _ h)) [
        | inl t ↦ inl t
        | inr t ↦ inr (equals_groups-eq v (forced_groups policy) t)
      ]

  oom_score_adj-checked :
      check_host_field policy (lit "OomScoreAdj") v ≡ ok tt
      → (v ≡ null) ⊎ (is_nonnegative_value v ≡ true)
  unfolding check_host_field host_config_any_value contains_entry ◌==◌ lit
  oom_score_adj-checked h =
      elim (or_cases (is_null v) (is_nonnegative_value v) (ensure-eq-ok _ _ h)) [
        | inl t ↦ inl (is_null-eq v t)
        | inr t ↦ inr t
      ]

  masked_paths-checked : check_host_field policy (lit "MaskedPaths") v ≡ ok tt → v ≡ null
  unfolding check_host_field host_config_any_value contains_entry ◌==◌ lit
  masked_paths-checked h = is_null-eq v (ensure-eq-ok _ _ h)

  readonly_paths-checked : check_host_field policy (lit "ReadonlyPaths") v ≡ ok tt → v ≡ null
  unfolding check_host_field host_config_any_value contains_entry ◌==◌ lit
  readonly_paths-checked h = is_null-eq v (ensure-eq-ok _ _ h)

pub check_host_field-IsOption :
    (policy : Policy) (key : Text) (v : Value)
    → check_host_field policy key v ≡ ok tt
    → IsOption policy key v
check_host_field-IsOption policy key v h = record {
  security_opt = λ e. check_host_field-IsSecurityOpt policy v (rw e at h);
  group_add = λ e. group_add-checked policy v (rw e at h);
  oom_score_adj = λ e. oom_score_adj-checked policy v (rw e at h);
  masked_paths = λ e. masked_paths-checked policy v (rw e at h);
  readonly_paths = λ e. readonly_paths-checked policy v (rw e at h);
}
