-- ===== src/Gates/Cmd/Bytes.antt =====
-- The arguments that charset_check takes.
use docker_socket_policy.Base.{
  Text, ℕ, true, List, [], ◌∷◌, ◌≡◌, ◌≤◌, inl, inr, arith, Bool-cases, or_cases, Elem, all-Elem,
  any, any-eq-true, length, eqb, eqb_iff, is_alnum, is_alpha, is_digit, is_upper, is_lower,
}
use docker_socket_policy.Gates.Cmd.{is_cmd_byte, charset_check}

abbrev pub cmd_marks : Text
cmd_marks = b'.' ∷ b'_' ∷ b'=' ∷ b':' ∷ b'/' ∷ b',' ∷ b'-' ∷ []

-- The ASCII letters and digits, and these marks.
pub data IsCmdByte (c : ℕ) : Type 0 where
  digit : b'0' ≤ c → c ≤ b'9' → IsCmdByte c
  upper : b'A' ≤ c → c ≤ b'Z' → IsCmdByte c
  lower : b'a' ≤ c → c ≤ b'z' → IsCmdByte c
  mark : Elem c cmd_marks → IsCmdByte c

-- At most 256 bytes, all of them such.
pub record IsPlainArgument (arg : Text) : Type 0 where
  pub short : length arg ≤ 256
  pub plain : (c : ℕ) → Elem c arg → IsCmdByte c

is_alnum-IsCmdByte : (c : ℕ) → is_alnum c ≡ true → IsCmdByte c
unfolding is_alnum is_alpha is_lower is_upper is_digit
is_alnum-IsCmdByte c h = elim (or_cases (is_alpha c) (is_digit c) h) [
  | inr d ↦ digit (ground arith) (ground arith)
  | inl alpha ↦ elim (or_cases (is_lower c) (is_upper c) alpha) [
    | inl l ↦ lower (ground arith) (ground arith)
    | inr u ↦ upper (ground arith) (ground arith)
  ]
]

any-eqb-Elem : (c : ℕ) (ms : List ℕ) → any (λ m. eqb c m) ms ≡ true → Elem c ms
any-eqb-Elem c ms h =
    let (m, e, same) = any-eq-true (λ m. eqb c m) ms h in rw ((eqb_iff c m).0 same) e

is_cmd_byte-IsCmdByte : (c : ℕ) → is_cmd_byte c ≡ true → IsCmdByte c
unfolding is_cmd_byte
is_cmd_byte-IsCmdByte c h = elim (Bool-cases (is_alnum c)) [
  | inl a ↦ is_alnum-IsCmdByte c a
  | inr other ↦ mark (any-eqb-Elem c cmd_marks (ground arith))
]

pub charset_check-IsPlainArgument : (arg : Text) → charset_check arg ≡ true → IsPlainArgument arg
unfolding charset_check
charset_check-IsPlainArgument arg h = record {
  short = ground arith;
  plain = λ c e. is_cmd_byte-IsCmdByte c (all-Elem is_cmd_byte (ground arith) e);
}
