-- ===== src/Policy.antt =====
-- rs/src/policy.rs: the policy of a service, and its names. Regular expressions are the `regex`
-- crate's: the parameter `Regex` is its compiler, with the matcher of a compiled pattern.
pub mod Groups
pub mod GroupRules
use docker_socket_policy.Base.{
  Text, ℕ, Bool, true, false, Option, none, some, List, [], ◌∷◌, Result, ok, err, ◌==◌, is_alnum,
  eqb, any, all, ◌||◌, ◌&&◌,
}

-- `Regex::new` with `is_match` on the result; the error is the crate's message.
pub record Regex : Type 0 where
  pub compile : Text → Result Text (Text → Bool)

-- A pattern that stands in the source, which `Regex::new(...).unwrap()` compiles. One that did not
-- compile would panic at its first use: such a text is never accepted.
unfoldable pub is_match : Regex → Text → Text → Bool
is_match re pattern s = elim (re.compile pattern) [ ok matches ↦ matches s | err e ↦ false ]

pub record ContainerConfig : Type 0 where
  pub network_mode : Option Text
  pub restart_policy : Option Text
  pub security_options : Option (List Text)
  pub user : Option Text
  pub log_driver : Option Text
  pub log_options : Option (List (Text × Text))
  pub group_add : Option (List Text)

pub record Volume : Type 0 where
  pub host_path : Text
  pub container_path : Text
  pub read_write : Bool

pub record FlagRule : Type 0 where
  pub flag : Text
  pub value_pattern : Text

pub record Policy : Type 0 where
  pub service_name : Text
  pub container_names : Option (List Text)
  pub user_id : Option Text
  pub group_id : Option Text
  pub allowed_image_prefixes : List Text
  pub image_tag_pattern : Option Text
  pub image_digest_allowed : Bool
  pub container_config : Option ContainerConfig
  pub volumes : Option (List Volume)
  pub ports : Option (List Text)
  pub env_file : Option Text
  pub allowed_cli_flags : Option (List Text)
  pub flag_rules : Option (List FlagRule)
  pub denied_flags : Option (List Text)

-- `Policy::covered_names`
unfoldable pub covered_names : Policy → List Text
covered_names p = elim p.container_names [ some names ↦ names | none ↦ p.service_name ∷ [] ]

-- `Policy::accepts_name`
unfoldable pub accepts_name : Policy → Text → Bool
accepts_name p name = elim p.container_names [
  | some names ↦ any (λ n. n == name) names
  | none ↦ true
]

unfoldable pub is_name_byte : ℕ → Bool
is_name_byte b = is_alnum b || eqb b b'_' || eqb b b'.' || eqb b b'-'

unfoldable pub valid_container_name : Text → Bool
valid_container_name [] = false
valid_container_name (b ∷ rest) = is_alnum b && all is_name_byte rest
