-- ===== src/Gates/HostConfig/Rules.antt =====
-- What HostConfigGate lets pass, field by field.
use docker_socket_policy.Base.{
  Text, Bool, true, false, none, some, List, [], ◌∷◌, ◌≡◌, refl, sym, ◌∙◌, ok, ◌⊎◌, inl, inr, arith,
  lit, any, Elem, All, All-elem, ◌==◌, ensure-eq-ok,
}
use docker_socket_policy.Base.Map.{Map, get}
use docker_socket_policy.Json.{Value, null, bool, number, string, array, object, Body, as_object}
use docker_socket_policy.Policy.{Policy}
use docker_socket_policy.Gates.{is_zero_value}
use docker_socket_policy.Gates.Zero.{IsZero, is_zero_value-IsZero}
use docker_socket_policy.Gates.MountSource.{contains_entry}
use docker_socket_policy.Gates.MountSource.Rules.{contains_entry-Elem}
use docker_socket_policy.Gates.HostConfig.{
  check, check_host_field, check_other_field, host_config_modes, mode_ok, check_mode,
}
use docker_socket_policy.Gates.HostConfig.Fields.{host_config_any_value}
use docker_socket_policy.Gates.HostConfig.Passed.{check-field}

-- The fields with a rule of their own.
abbrev pub ruled_fields : List Text
ruled_fields =
    lit "Binds"
    ∷ lit "Mounts"
    ∷ lit "MaskedPaths"
    ∷ lit "ReadonlyPaths"
    ∷ lit "SecurityOpt"
    ∷ lit "GroupAdd"
    ∷ lit "OomScoreAdj"
    ∷ lit "PidMode"
    ∷ lit "UTSMode"
    ∷ lit "UsernsMode"
    ∷ lit "Cgroup"
    ∷ lit "IpcMode"
    ∷ lit "CgroupnsMode"
    ∷ lit "Isolation"
    ∷ []

abbrev pub is_ruled : Text → Bool
is_ruled key = any (λ t. key == t) ruled_fields

-- The free fields, which may hold any value: network mode, ports and names, limits, logging and restarts,
-- and what takes rights from the container.
abbrev pub free_fields : List Text
free_fields =
    lit "NetworkMode"
    ∷ lit "RestartPolicy"
    ∷ lit "LogConfig"
    ∷ lit "CapDrop"
    ∷ lit "ReadonlyRootfs"
    ∷ lit "Init"
    ∷ lit "AutoRemove"
    ∷ lit "ConsoleSize"
    ∷ lit "ShmSize"
    ∷ lit "PortBindings"
    ∷ lit "PublishAllPorts"
    ∷ lit "Dns"
    ∷ lit "DnsOptions"
    ∷ lit "DnsSearch"
    ∷ lit "ExtraHosts"
    ∷ lit "Tmpfs"
    ∷ lit "Ulimits"
    ∷ lit "Memory"
    ∷ lit "MemoryReservation"
    ∷ lit "MemorySwap"
    ∷ lit "MemorySwappiness"
    ∷ lit "NanoCpus"
    ∷ lit "CpuShares"
    ∷ lit "CpuPeriod"
    ∷ lit "CpuQuota"
    ∷ lit "CpusetCpus"
    ∷ lit "CpusetMems"
    ∷ lit "PidsLimit"
    ∷ lit "BlkioWeight"
    ∷ lit "ContainerIDFile"
    ∷ []

abbrev pub is_free : Text → Bool
is_free key = contains_entry free_fields key

not_free-any_value :
    (key : Text) → is_free key ≡ false → contains_entry host_config_any_value key ≡ false
unfolding host_config_any_value
not_free-any_value key f = f

not_ruled-modes : (key : Text) → is_ruled key ≡ false → host_config_modes key ≡ none
unfolding host_config_modes
not_ruled-modes key r = ground arith

check_other_field-zero :
    (policy : Policy) (key : Text) (v : Value)
    → host_config_modes key ≡ none
    → check_other_field policy key v ≡ ok tt
    → is_zero_value v ≡ true
unfolding check_other_field
check_other_field-zero policy key v e h =
    ensure-eq-ok (is_zero_value v) _ (rw (e, check_other_field) at h)

not_ruled-other :
    (policy : Policy) (key : Text) (v : Value)
    → is_ruled key ≡ false
    → contains_entry host_config_any_value key ≡ false
    → check_host_field policy key v ≡ check_other_field policy key v
unfolding check_host_field
not_ruled-other policy key v r a = ground arith

-- A HostConfig that the gate passes has null, false, 0, "", [] or {} in every field, known to the API
-- or not, that is neither one of the fields with a rule of their own nor one of the free fields.
pub check-default_deny :
    (policy : Policy) (body : Body) (o : Value) (hc : Map Value) (key : Text) (v : Value)
    → check policy body ≡ ok tt
    → get (lit "HostConfig") body ≡ some o
    → as_object o ≡ some hc
    → get key hc ≡ some v
    → is_ruled key ≡ false
    → is_free key ≡ false
    → IsZero v
check-default_deny policy body o hc key v passed found is_object g r f = is_zero_value-IsZero v (
    check_other_field-zero policy key v (not_ruled-modes key r) (
      sym (not_ruled-other policy key v r (not_free-any_value key f))
      ∙ check-field policy body o hc passed found is_object key v g))

-- The namespace fields, each with the values besides "" that leave the container its own namespace.
abbrev pub namespace_fields : List (Text × List Text)
namespace_fields =
    (lit "PidMode", [])
    ∷ (lit "UTSMode", [])
    ∷ (lit "UsernsMode", [])
    ∷ (lit "Cgroup", [])
    ∷ (lit "IpcMode", lit "private" ∷ lit "shareable" ∷ lit "none" ∷ [])
    ∷ (lit "CgroupnsMode", lit "private" ∷ [])
    ∷ (lit "Isolation", lit "default" ∷ [])
    ∷ []

-- null, "", or one of the values.
abbrev pub IsMode : List Text → Value → Type 0
IsMode modes v = (v ≡ null) ⊎ ((s : Text) × (v ≡ string s) × ((s ≡ []) ⊎ Elem s modes))

mode_ok-IsMode : (v : Value) (modes : List Text) → mode_ok v modes ≡ true → IsMode modes v
unfolding mode_ok contains_entry
mode_ok-IsMode null modes h = inl refl
mode_ok-IsMode (string []) modes h = inr ([], refl, inl refl)
mode_ok-IsMode (string (c ∷ s)) modes h =
    inr (c ∷ s, refl, inr (contains_entry-Elem modes (c ∷ s) h))
mode_ok-IsMode (bool b) modes h = absurd cc
mode_ok-IsMode (number n) modes h = absurd cc
mode_ok-IsMode (array a) modes h = absurd cc
mode_ok-IsMode (object o) modes h = absurd cc

-- A field that is checked as a mode.
abbrev ChecksMode : Policy → Text × List Text → Type 0
ChecksMode policy p = (v : Value) → check_host_field policy p.0 v ≡ ok tt → mode_ok v p.1 ≡ true

namespace_fields-ChecksMode : (policy : Policy) → All (ChecksMode policy) namespace_fields
unfolding check_host_field check_other_field check_mode host_config_modes host_config_any_value
    contains_entry ◌==◌ lit
namespace_fields-ChecksMode policy = (
  λ v. ensure-eq-ok (mode_ok v []) _,
  (
    λ v. ensure-eq-ok (mode_ok v []) _,
    (
      λ v. ensure-eq-ok (mode_ok v []) _,
      (
        λ v. ensure-eq-ok (mode_ok v []) _,
        (
          λ v. ensure-eq-ok (mode_ok v (lit "private" ∷ lit "shareable" ∷ lit "none" ∷ [])) _,
          (
            λ v. ensure-eq-ok (mode_ok v (lit "private" ∷ [])) _,
            (λ v. ensure-eq-ok (mode_ok v (lit "default" ∷ [])) _, tt),
          ),
        ),
      ),
    ),
  ),
)

-- A HostConfig that the gate passes has in a namespace field null, "", or a value that gives the
-- container a namespace of its own: no "host" and no "container:...".
pub check-IsMode :
    (policy : Policy) (body : Body) (o : Value) (hc : Map Value) (p : Text × List Text) (v : Value)
    → check policy body ≡ ok tt
    → get (lit "HostConfig") body ≡ some o
    → as_object o ≡ some hc
    → Elem p namespace_fields
    → get p.0 hc ≡ some v
    → IsMode p.1 v
check-IsMode policy body o hc p v passed found is_object e g = mode_ok-IsMode v p.1 (
    All-elem (ChecksMode policy) (namespace_fields-ChecksMode policy) e v
      (check-field policy body o hc passed found is_object p.0 v g))
