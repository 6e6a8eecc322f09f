-- ===== src/Gates/Cmd/Flags.antt =====
-- The flags among the arguments of Cmd, and the values that they take.
use docker_socket_policy.Base.{
  Text, true, false, List, [], ◌∷◌, ◌≡◌, ◌≢◌, ok, ◌⊎◌, inl, inr, arith, >>-eq-ok, ensure,
  ensure-eq-ok, Bool-cases, Option-cases, unwrap_or, if◌then◌else◌, ◌>>◌,
}
use docker_socket_policy.Json.{Value}
use docker_socket_policy.Message.{cmd_invalid_characters}
use docker_socket_policy.Policy.{Regex, Policy}
use docker_socket_policy.Gates.Cmd.{
  charset_check, argument, is_flag, flag_name, check_flag, check_value, inline_value,
  check_flag_alone, takes_next, check_flag_with, check_args,
}
use docker_socket_policy.Gates.Cmd.Bytes.{IsPlainArgument, charset_check-IsPlainArgument}
use docker_socket_policy.Gates.Cmd.Reading.{given, IsDashed, Reads, IsDashed-is_flag, flag-Reads}
use docker_socket_policy.Gates.Cmd.Rules.{
  IsAllowedFlag, check_flag-IsAllowedFlag, Matches, check_value-Matches,
}

-- A flag that the policy allows, with its value.
pub record IsCheckedWith (re : Regex) (policy : Policy) (arg value : Text) : Type 0 where
  pub charset : IsPlainArgument arg
  pub flag : IsAllowedFlag policy (flag_name arg)
  pub matching : value ≢ [] → Matches re (unwrap_or [] policy.flag_rules) (flag_name arg) value

-- A flag of an argument list, with what stands behind it: the policy allows both the flag and its value.
pub record IsCheckedFlag (re : Regex) (policy : Policy) (arg : Text) (rest : List Value)
    : Type 0 where
  pub flag : Text
  pub value : Text
  pub reads : Reads arg rest flag value
  pub charset : IsPlainArgument arg
  pub permitted : IsAllowedFlag policy flag
  pub matching : value ≢ [] → Matches re (unwrap_or [] policy.flag_rules) flag value

-- Every argument that starts with a dash is such a flag.
abbrev pub AllFlags : Regex → Policy → List Value → Type 0
AllFlags re policy [] = Unit
AllFlags re policy (v ∷ rest) =
    (IsDashed (argument v) → IsCheckedFlag re policy (argument v) rest) × AllFlags re policy rest

module _ (re : Regex) (policy : Policy) where
  checked :
      (arg value : Text)
      → charset_check arg ≡ true
      → (check_flag policy (flag_name arg) >> check_value re policy (flag_name arg) value) ≡ ok tt
      → IsCheckedWith re policy arg value
  checked arg value c h =
      let both = >>-eq-ok (check_flag policy (flag_name arg)) _ h in
      record {
        charset = charset_check-IsPlainArgument arg c;
        flag = check_flag-IsAllowedFlag policy (flag_name arg) both.0;
        matching = check_value-Matches re policy (flag_name arg) value both.1;
      }

  read :
      (arg : Text) (rest : List Value)
      → (is_flag arg ≡ true → IsCheckedWith re policy arg (given arg rest))
      → IsDashed arg
      → IsCheckedFlag re policy arg rest
  read arg rest own dashed =
      let c = own (IsDashed-is_flag arg dashed) in
      record {
        flag = flag_name arg;
        value = given arg rest;
        reads = flag-Reads arg rest;
        charset = c.charset;
        permitted = c.flag;
        matching = c.matching;
      }

  with_next :
      (arg next : Text)
      → charset_check arg ≡ true
      → check_flag_with re policy arg next ≡ ok tt
      → IsCheckedWith re policy arg next
  unfolding check_flag_with
  with_next arg next c h = checked arg next c h

  takes_next-no_flag : (arg next : Text) → takes_next arg next ≡ true → is_flag next ≡ false
  unfolding takes_next
  takes_next-no_flag arg next h = elim (Option-cases (inline_value arg)) [
    | inl e ↦ ground arith
    | inr (value, e) ↦ absurd (ground arith)
  ]

  alone :
      (arg : Text)
      → charset_check arg ≡ true
      → (if is_flag arg then check_flag_alone re policy arg else ok tt) ≡ ok tt
      → is_flag arg ≡ true
      → IsCheckedWith re policy arg (unwrap_or [] (inline_value arg))
  unfolding check_flag_alone
  alone arg c h f = checked arg _ c (rw f at h)

  -- One turn of the loop with an argument behind the first.
  turn :
      (v w : Value) (rest : List Value)
      → check_args re policy (v ∷ w ∷ rest) ≡ ok tt
      → (is_flag (argument v) ≡ true
          → IsCheckedWith re policy (argument v) (given (argument v) (w ∷ rest)))
        × ((check_args re policy (w ∷ rest) ≡ ok tt)
            ⊎ ((is_flag (argument w) ≡ false) × (check_args re policy rest ≡ ok tt)))
  unfolding check_args
  turn v w rest h =
      let both =
        >>-eq-ok (ensure (charset_check (argument v)) (cmd_invalid_characters (argument v))) _ h in
      let c = ensure-eq-ok _ _ both.0 in
      elim (Bool-cases (is_flag (argument v))) [
        | inr f ↦ (λ t. absurd (ground arith), inl (rw f at both.1))
        | inl t ↦ elim (Bool-cases (takes_next (argument v) (argument w))) [
          | inl n ↦
              let step =
                >>-eq-ok (check_flag_with re policy (argument v) (argument w)) _
                  (rw (t, n) at both.1) in
              (
                λ _. rw n (with_next (argument v) (argument w) c step.0),
                inr (takes_next-no_flag (argument v) (argument w) n, step.1),
              )
          | inr n ↦
              let step =
                >>-eq-ok (check_flag_alone re policy (argument v)) _ (rw (t, n) at both.1) in
              (λ _. rw n (alone (argument v) c (rw t step.0) t), inl step.1)
        ]
      ]

  -- When the check of the arguments passes, every argument that starts with a dash, wherever it stands,
  -- has at most 256 bytes, all of them letters, digits or the marks . _ = : / , and -; its flag, which
  -- ends at the first =, is not on the denylist and is on the allowlist if there is one; and its value,
  -- behind the = or else the next argument that does not start with a dash, if it has one, matches each
  -- of the policy's rules for the flag.
  pub check_args-AllFlags :
      (vs : List Value) → check_args re policy vs ≡ ok tt → AllFlags re policy vs
  unfolding check_args
  check_args-AllFlags [] h = tt
  check_args-AllFlags (v ∷ []) h =
      let both =
        >>-eq-ok (ensure (charset_check (argument v)) (cmd_invalid_characters (argument v))) _ h in
      (read (argument v) [] (alone (argument v) (ensure-eq-ok _ _ both.0) both.1), tt)
  check_args-AllFlags (v ∷ w ∷ rest) h =
      let (own, later) = turn v w rest h in
      (
        read (argument v) (w ∷ rest) own,
        elim later [
          | inl all ↦ check_args-AllFlags (w ∷ rest) all
          | inr (f, all) ↦
              (read (argument w) rest (λ t. absurd (ground arith)), check_args-AllFlags rest all)
        ],
      )
