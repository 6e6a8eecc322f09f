-- ===== src/Message.antt =====
-- The texts of the program's errors and deny reasons, one constructor for each format string with
-- the values that it shows: policy.rs, middleware.rs, proxy.rs, handler.rs and main.rs.
use docker_socket_policy.Base.{Text, ℕ}
use docker_socket_policy.Json.{Value}

-- transport.rs: why a request was not forwarded.
pub data TransportError : Type 0 where
  socket_permission : Text → TransportError
  other : Text → TransportError

-- Why the daemon's answer names no container (handler.rs, resolve_container).
pub data ResolveFailure : Type 0 where
  bad_request : Text → ResolveFailure
  forward_failed : TransportError → ResolveFailure
  daemon_returned : ℕ → ResolveFailure
  unreadable_inspect : ResolveFailure

pub data Message : Type 0 where
  no_message : Message
  -- policy.rs, loading
  io_error : Text → Message
  yaml_error : (file reason : Text) → Message
  group_entries_must_be_strings : Message
  missing_service_name missing_allowed_image_prefixes : Message
  container_names_empty : (file : Text) → Message
  invalid_policy_container_name : (file name : Text) → Message
  invalid_group_entry root_group_entry duplicate_group_entry : (file group : Text) → Message
  same_service_name : (prev file service : Text) → Message
  invalid_prefix_entry : (dir file prefix : Text) → Message
  conflict_without_names : (a fa b fb pa pb unnamed : Text) → Message
  conflict_shared_name : (a fa b fb pa pb shared : Text) → Message
  -- policy.rs, images and selection
  invalid_image_reference : Text → Message
  prefix_has_tag_or_digest : Text → Message
  tag_or_digest_too_long : Message
  digests_not_allowed : (service : Text) → Message
  invalid_digest_format : Text → Message
  invalid_tag_pattern : (reason : Text) → Message
  tag_does_not_match : (tag pattern : Text) → Message
  image_not_allowed : Text → Message
  image_requires_name : Text → Message
  name_not_allowed_for_image : (name image : Text) → Message
  ambiguous_policy : (image name services : Text) → Message
  -- proxy.rs
  readonly_mode : (method : Text) → Message
  percent_encoded_path empty_path_segment dot_path_segment : Message
  auth_not_allowed exec_not_allowed attach_not_allowed build_not_allowed commit_not_allowed :
      Message
  rename_not_allowed update_not_allowed : Message
  endpoint_not_allowed : (method path : Text) → Message
  empty_request_body image_field_required : Message
  pull_has_body invalid_query_string : Message
  duplicate_parameter : (key : Text) → Message
  image_import_not_allowed from_image_required : Message
  tag_parameter_ambiguous : (from_image : Text) → Message
  pull_without_tag : Message
  duplicate_name_parameter invalid_container_name : Message
  -- middleware.rs
  image_not_in_prefixes : (name : Text) → Message
  binds_not_list : (service : Text) → Message
  invalid_bind volume_mount_not_whitelisted : (bind service : Text) → Message
  bind_option_not_allowed : (option host_path service : Text) → Message
  volume_mount_must_be_readonly : (host_path service : Text) → Message
  mounts_not_list mounts_entry_not_object : (service : Text) → Message
  mount_field_not_allowed : (key service : Text) → Message
  tmpfs_with_source : (service : Text) → Message
  mount_source_not_whitelisted mount_must_be_readonly : (source service : Text) → Message
  mount_type_not_allowed : (mount_type service : Text) → Message
  bind_options_not_object : (service : Text) → Message
  propagation_not_allowed : (value : Value) (service : Text) → Message
  bind_option_field_not_allowed : (key service : Text) → Message
  volume_not_whitelisted : (host_path service : Text) → Message
  field_case_not_allowed : (prefix key service field : Text) → Message
  host_config_not_object : (service : Text) → Message
  host_config_field_not_allowed : (key service : Text) → Message
  security_opt_not_list : (service : Text) → Message
  security_opt_not_allowed : (entry : Value) (service : Text) → Message
  mode_not_allowed : (key : Text) (value : Value) (service : Text) → Message
  oom_score_adj_not_allowed : (value : Value) (service : Text) → Message
  inline_env_not_allowed inline_host_config_env_not_allowed : (service env_file : Text) → Message
  cmd_invalid_characters : (arg : Text) → Message
  flag_denied flag_not_allowlisted : (flag service : Text) → Message
  invalid_flag_rule_regex : (reason : Text) → Message
  flag_value_does_not_match : (flag value pattern : Text) → Message
  endpoints_not_object : (mode : Text) → Message
  network_not_allowed : (network service mode : Text) → Message
  create_allowed : Message
  -- handler.rs
  connect_not_allowed upgrade_not_allowed body_unreadable : Message
  not_managed : (id : Text) → Message
  cannot_resolve : (id : Text) → ResolveFailure → Message
  resolved_to : Message → (name : Text) → Message
  container_resolved_to : (id name : Text) → Message
  socket_permission_denied : Message
  proxy_error : TransportError → Message
