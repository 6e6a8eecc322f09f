-- ===== src/Gates/Cmd.antt =====
-- rs/src/middleware.rs: CmdGate, the flags of the command.
pub mod Rules
pub mod Bytes
pub mod Reading
pub mod Flags
use docker_socket_policy.Base.{
  Text, ℕ, Bool, true, false, not, Option, none, some, List, [], ◌∷◌, Result, ok, err, ◌>>◌, ◌>>=◌,
  ensure, ◌==◌, lit, ◌||◌, ◌&&◌, is_empty, if◌then◌else◌, unwrap_or, all, split_once, starts_with,
  length, leb, eqb, is_alnum,
}
use docker_socket_policy.Base.Map.{get}
use docker_socket_policy.Json.{Value, Body, as_str, as_array}
use docker_socket_policy.Message.{
  Message, cmd_invalid_characters, flag_denied, flag_not_allowlisted, invalid_flag_rule_regex,
  flag_value_does_not_match,
}
use docker_socket_policy.Policy.{Regex, Policy, FlagRule}
use docker_socket_policy.Gates.MountSource.{contains_entry}

unfoldable pub is_cmd_byte : ℕ → Bool
is_cmd_byte c =
    is_alnum c
    || eqb c b'.'
    || eqb c b'_'
    || eqb c b'='
    || eqb c b':'
    || eqb c b'/'
    || eqb c b','
    || eqb c b'-'

-- `charset_check`: every byte of a character outside ASCII fails the test too.
unfoldable pub charset_check : Text → Bool
charset_check s = leb (length s) 256 && all is_cmd_byte s

-- `cmd[i].as_str().unwrap_or("")`
abbrev pub argument : Value → Text
argument v = unwrap_or [] (as_str v)

unfoldable pub is_flag : Text → Bool
is_flag arg = starts_with arg (b'-' ∷ [])

-- What stands before the first `=`.
unfoldable pub flag_name : Text → Text
flag_name arg = elim (split_once arg b'=') [ none ↦ arg | some (flag, _) ↦ flag ]

unfoldable pub flag_denied_by : Option (List Text) → Text → Bool
flag_denied_by none flag = false
flag_denied_by (some denied) flag = contains_entry denied flag

unfoldable pub flag_allowed_by : Option (List Text) → Text → Bool
flag_allowed_by none flag = true
flag_allowed_by (some allowed) flag = contains_entry allowed flag

unfoldable pub check_flag : Policy → (flag : Text) → Result Message (Unit {0})
check_flag policy flag = do
  ensure (not (flag_denied_by policy.denied_flags flag)) (flag_denied flag policy.service_name)
  ensure (flag_allowed_by policy.allowed_cli_flags flag)
      (flag_not_allowlisted flag policy.service_name)

unfoldable pub check_rule : Regex → FlagRule → (flag value : Text) → Result Message (Unit {0})
check_rule re rule flag value = elim (re.compile rule.value_pattern) [
  | err e ↦ err (invalid_flag_rule_regex e)
  | ok matches ↦ ensure (matches value) (flag_value_does_not_match flag value rule.value_pattern)
]

unfoldable pub check_rules : Regex → List FlagRule → (flag value : Text) → Result Message (Unit {0})
check_rules re [] flag value = ok tt
check_rules re (rule ∷ rules) flag value = do
  (if rule.flag == flag then check_rule re rule flag value else ok tt)
  check_rules re rules flag value

unfoldable pub check_value : Regex → Policy → (flag value : Text) → Result Message (Unit {0})
check_value re policy flag value =
    if is_empty value then ok tt else check_rules re (unwrap_or [] policy.flag_rules) flag value

-- The value that follows a flag's `=`, if it has one.
unfoldable pub inline_value : Text → Option Text
inline_value arg = elim (split_once arg b'=') [ none ↦ none | some (_, value) ↦ some value ]

-- A flag with no argument behind it, or none that is its value.
unfoldable pub check_flag_alone : Regex → Policy → (arg : Text) → Result Message (Unit {0})
check_flag_alone re policy arg = do
  check_flag policy (flag_name arg)
  check_value re policy (flag_name arg) (unwrap_or [] (inline_value arg))

-- Whether the next argument is taken as the value of a flag.
unfoldable pub takes_next : (arg next : Text) → Bool
takes_next arg next = elim (inline_value arg) [ some value ↦ false | none ↦ not (is_flag next) ]

-- A flag and the argument that is its value.
unfoldable pub check_flag_with : Regex → Policy → (arg next : Text) → Result Message (Unit {0})
check_flag_with re policy arg next = do
  check_flag policy (flag_name arg)
  check_value re policy (flag_name arg) next

-- The loop over the arguments.
unfoldable pub check_args : Regex → Policy → List Value → Result Message (Unit {0})
check_args re policy [] = ok tt
check_args re policy (v ∷ []) = do
  ensure (charset_check (argument v)) (cmd_invalid_characters (argument v))
  if is_flag (argument v) then check_flag_alone re policy (argument v) else ok tt
check_args re policy (v ∷ w ∷ rest) =
    let one_on = check_args re policy (w ∷ rest) in
    let two_on = check_args re policy rest in
    do
      ensure (charset_check (argument v)) (cmd_invalid_characters (argument v))
      (if not (is_flag (argument v))
          then one_on
          else if takes_next (argument v) (argument w)
          then check_flag_with re policy (argument v) (argument w) >> two_on
          else check_flag_alone re policy (argument v) >> one_on)

unfoldable pub check : Regex → Policy → Body → Result Message (Unit {0})
check re policy body = elim (get (lit "Cmd") body) [
  | none ↦ ok tt
  | some v ↦ elim (as_array v) [ none ↦ ok tt | some cmd ↦ check_args re policy cmd ]
]
