-- ===== src/Gates/MountSource/MountRules.antt =====
-- What check_mount lets pass: the type of a mount with its source, and its other fields.
use docker_socket_policy.Base.{
  Text, refl, true, false, none, some, List, [], ◌∷◌, ◌≡◌, ◌≢◌, ok, ◌⊎◌, inl, inr, arith, lit, ◌==◌,
  ==_iff, >>-eq-ok, >>=-eq-ok, ok_or-eq-ok, ensure-eq-ok, Bool-cases, ok_or, or_cases, Elem,
  Option-cases,
}
use docker_socket_policy.Base.Map.{Map, get}
use docker_socket_policy.Json.{Value, null, bool, number, string, array, object, as_object}
use docker_socket_policy.Policy.{Policy, Volume}
use docker_socket_policy.Gates.{check_field_case, check_values, find_volume}
use docker_socket_policy.Gates.KeyRules.{check_values-get, check_field_case_sound}
use docker_socket_policy.Gates.Zero.{IsZero, is_zero_value-IsZero}
use docker_socket_policy.Gates.MountSource.{
  contains_entry, check_mount, check_mount_type, text_field, flag_field, zero_field, mount_fields,
  check_mount_field, mount_any_value, check_bind_options,
}
use docker_socket_policy.Gates.MountSource.Rules.{Declares, find_volume-Declares}
use docker_socket_policy.Gates.MountSource.BindOptions.{
  IsSpelled, HasPrivateOptions, not_in-other, check_bind_options-cases,
}

-- Absent, or a zero value.
abbrev pub IsAbsent : (key : Text) → Map Value → Type 0
IsAbsent key m = (get key m ≡ none) ⊎ ((v : Value) × (get key m ≡ some v) × IsZero v)

-- The text of a field, or no text.
abbrev pub IsText : (key : Text) → Map Value → Text → Type 0
IsText key m s = (get key m ≡ some (string s)) ⊎ (s ≡ [])

-- The fields of a mount that may hold any value, or have a rule of their own.
abbrev pub free_mount_fields : List Text
free_mount_fields =
    lit "Type"
    ∷ lit "Source"
    ∷ lit "ReadOnly"
    ∷ lit "BindOptions"
    ∷ lit "Target"
    ∷ lit "Consistency"
    ∷ lit "TmpfsOptions"
    ∷ []

-- A mount of a tmpfs without a source, or of a host path that the policy declares, read-only unless the
-- policy says otherwise; with a zero value in every other field.
pub record IsAllowedMount (policy : Policy) (mount : Map Value) : Type 0 where
  pub source :
      ((get (lit "Type") mount ≡ some (string (lit "tmpfs"))) × IsAbsent (lit "Source") mount)
      ⊎ ((get (lit "Type") mount ≡ some (string (lit "bind")))
          × (host_path : Text) × (volume : Volume) × IsText (lit "Source") mount host_path
          × Declares policy host_path volume
          × ((volume.read_write ≡ true) ⊎ (get (lit "ReadOnly") mount ≡ some (bool true))))
  pub spelled : IsSpelled mount_fields mount
  pub options :
      (v : Value)
      → get (lit "BindOptions") mount ≡ some v
      → (v ≡ null) ⊎ ((opts : Map Value) × (as_object v ≡ some opts) × HasPrivateOptions opts)
  pub others :
      (key : Text) (v : Value)
      → get key mount ≡ some v
      → contains_entry free_mount_fields key ≡ false
      → IsZero v

text_field-IsText : (key : Text) (m : Map Value) → IsText key m (text_field key m)
unfolding text_field
text_field-IsText key m = elim (Option-cases (get key m)) [
  | inl e ↦ rw (e, text_field) (inr refl)
  | inr (string s, e) ↦ rw (e, text_field) (inl refl)
  | inr (null, e) ↦ rw (e, text_field) (inr refl)
  | inr (bool b, e) ↦ rw (e, text_field) (inr refl)
  | inr (number n, e) ↦ rw (e, text_field) (inr refl)
  | inr (array a, e) ↦ rw (e, text_field) (inr refl)
  | inr (object o, e) ↦ rw (e, text_field) (inr refl)
]

text_field-get :
    (key : Text) (m : Map Value) (s : Text)
    → s ≢ []
    → text_field key m ≡ s
    → get key m ≡ some (string s)
text_field-get key m s full h = elim (text_field-IsText key m) [
  | inl e ↦ rw h at e
  | inr e ↦ absurd (full (rw h at e))
]

flag_field-get :
    (key : Text) (m : Map Value) → flag_field key m ≡ true → get key m ≡ some (bool true)
unfolding flag_field
flag_field-get key m h = elim (Option-cases (get key m)) [
  | inl e ↦ absurd (let off : false ≡ true = rw (e, flag_field) at h in cc)
  | inr (bool true, e) ↦ e
  | inr (bool false, e) ↦ absurd (let off : false ≡ true = rw (e, flag_field) at h in cc)
  | inr (null, e) ↦ absurd (let off : false ≡ true = rw (e, flag_field) at h in cc)
  | inr (string s, e) ↦ absurd (let off : false ≡ true = rw (e, flag_field) at h in cc)
  | inr (number n, e) ↦ absurd (let off : false ≡ true = rw (e, flag_field) at h in cc)
  | inr (array a, e) ↦ absurd (let off : false ≡ true = rw (e, flag_field) at h in cc)
  | inr (object o, e) ↦ absurd (let off : false ≡ true = rw (e, flag_field) at h in cc)
]

zero_field-IsAbsent : (key : Text) (m : Map Value) → zero_field key m ≡ true → IsAbsent key m
unfolding zero_field
zero_field-IsAbsent key m h = elim (Option-cases (get key m)) [
  | inl e ↦ inl e
  | inr (v, e) ↦ inr (v, e, is_zero_value-IsZero v (rw (e, zero_field) at h))
]

check_mount_type-source :
    (policy : Policy) (mount : Map Value)
    → check_mount_type policy
        (text_field (lit "Type") mount)
        (text_field (lit "Source") mount)
        mount
      ≡ ok tt
    → ((get (lit "Type") mount ≡ some (string (lit "tmpfs"))) × IsAbsent (lit "Source") mount)
      ⊎ ((get (lit "Type") mount ≡ some (string (lit "bind")))
          × (host_path : Text) × (volume : Volume) × IsText (lit "Source") mount host_path
          × Declares policy host_path volume
          × ((volume.read_write ≡ true) ⊎ (get (lit "ReadOnly") mount ≡ some (bool true))))
unfolding check_mount_type lit
check_mount_type-source policy mount h =
    let mount_type = text_field (lit "Type") mount in
    let source = text_field (lit "Source") mount in
    elim (Bool-cases (mount_type == lit "tmpfs")) [
      | inl t ↦ inl (
        text_field-get (lit "Type") mount _ (λ e. cc) ((==_iff mount_type (lit "tmpfs")).0 t),
        zero_field-IsAbsent (lit "Source") mount (ensure-eq-ok _ _ (rw (t, check_mount_type) at h)),
      )
      | inr f ↦ elim (Bool-cases (mount_type == lit "bind")) [
        | inr f' ↦ absurd (ground arith)
        | inl t ↦
            let passed = rw (f, t, check_mount_type) at h in
            let (volume, found, rest) = >>=-eq-ok (ok_or _ (find_volume source policy)) _ passed in
            inr (
              text_field-get (lit "Type") mount _ (λ e. cc) ((==_iff mount_type (lit "bind")).0 t),
              source,
              volume,
              text_field-IsText (lit "Source") mount,
              find_volume-Declares policy source volume (ok_or-eq-ok _ _ found),
              elim (or_cases volume.read_write _ (ensure-eq-ok _ _ rest)) [
                | inl write ↦ inl write
                | inr read_only ↦ inr (flag_field-get (lit "ReadOnly") mount read_only)
              ],
            )
      ]
    ]

check_mount_field-IsZero :
    (policy : Policy) (key : Text) (v : Value)
    → check_mount_field policy key v ≡ ok tt
    → contains_entry free_mount_fields key ≡ false
    → IsZero v
unfolding check_mount_field contains_entry mount_any_value
check_mount_field-IsZero policy key v h free = is_zero_value-IsZero v (
    ensure-eq-ok _ _ (
      let no = not_in-other free_mount_fields key in
      let type = no (lit "Type") free Elem.here in
      let source = no (lit "Source") free (Elem.there Elem.here) in
      let read_only = no (lit "ReadOnly") free (Elem.there (Elem.there Elem.here)) in
      let options = no (lit "BindOptions") free (Elem.there (Elem.there (Elem.there Elem.here))) in
      let rest : contains_entry mount_any_value key ≡ false = ground arith in
      rw (type, source, read_only, options, rest, check_mount_field) at h))

check_mount_field-options :
    (policy : Policy) (v : Value)
    → check_mount_field policy (lit "BindOptions") v ≡ ok tt
    → check_bind_options v policy ≡ ok tt
unfolding check_mount_field ◌==◌ lit
check_mount_field-options policy v h = h

pub check_mount-IsAllowedMount :
    (policy : Policy) (mount : Map Value)
    → check_mount mount policy ≡ ok tt
    → IsAllowedMount policy mount
unfolding check_mount
check_mount-IsAllowedMount policy mount h =
    let a = >>-eq-ok (check_field_case (lit "HostConfig.Mounts.") mount mount_fields policy) _ h in
    let b = >>-eq-ok (check_values (check_mount_field policy) mount) _ a.1 in
    let passed : (key : Text) (v : Value)
        → get key mount ≡ some v
        → check_mount_field policy key v ≡ ok tt =
      λ key v g. check_values-get (check_mount_field policy) mount key v b.0 g in
    record {
      source = check_mount_type-source policy mount b.1;
      spelled = λ key field v. check_field_case_sound _ mount mount_fields policy key field v a.0;
      options = λ v g.
          check_bind_options-cases policy v
            (check_mount_field-options policy v (passed (lit "BindOptions") v g));
      others = λ key v g. check_mount_field-IsZero policy key v (passed key v g);
    }
