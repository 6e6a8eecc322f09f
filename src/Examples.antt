-- ===== src/Examples.antt =====
-- Inputs for the tests: a host with two policies, its handler, and a create with its body.
pub mod Requests
pub mod Creates
pub mod Interleaved
pub mod Policies
pub mod Listening
pub mod Shutdown
use docker_socket_policy.Base.{
  Bool, true, false, Option, none, some, List, [], ◌∷◌, Result, ok, err, if◌then◌else◌, Text, lit,
  ◌==◌, text_ltb, starts_with, strip_prefix, ends_with, contains, contains_text, split, split_once,
  rfind, is_digit, is_lower, is_upper, is_alpha, is_alnum, to_lower, decimal, is_space, blank,
  trim_end, trim_start, trim_ascii, insert_sorted, sort,
}
use docker_socket_policy.Base.Map.{get, insert, keys, values}
use docker_socket_policy.Chain.{check_gate, apply_mutator, mutate_all, first_denial, execute}
use docker_socket_policy.Gates.{
  fold_key, sorted_keys, read_as, check_keys_case, check_field_case, is_zero_value, check_keys,
  check_values, find_volume,
}
use docker_socket_policy.Gates.Cmd.{
  is_cmd_byte, charset_check, is_flag, flag_name, flag_denied_by, flag_allowed_by, check_flag,
  check_rule, check_rules, check_value, inline_value, check_flag_alone, takes_next, check_flag_with,
  check_args,
}
use docker_socket_policy.Gates.Cmd
use docker_socket_policy.Gates.EnvFile.{no_env, no_host_env, check_env}
use docker_socket_policy.Gates.EnvFile
use docker_socket_policy.Gates.HostConfig.{
  host_config_modes, forced_groups, same_strings, equals_groups, equals_forced_groups,
  policy_security_options, check_security_opts, check_security_opt, mode_ok, check_mode,
  check_other_field, check_host_field, check_networking_case, check_host_config,
}
use docker_socket_policy.Gates.HostConfig
use docker_socket_policy.Gates.HostConfig.Fields.{
  host_config_fields, create_body_fields, networking_config_fields, host_config_any_value,
  no_new_privileges,
}
use docker_socket_policy.Gates.MountSource.{
  bind_modes, mount_fields, mount_any_value, bind_option_fields, bind_option_any_value,
  contains_entry, check_options, check_bind_parts, bind_options, check_bind_split, check_bind,
  check_bind_list, check_binds, propagation_ok, check_bind_option, check_bind_options,
  check_mount_field, text_field, flag_field, zero_field, check_mount_type, check_mount,
  check_mount_list, check_mounts, check_volume_keys, object_field, check_host_mounts, check_volumes,
}
use docker_socket_policy.Gates.MountSource
use docker_socket_policy.Gates.NetworkEndpoints.{
  nonempty_mode, forced_network_mode, endpoints_of, endpoints_config, detached_network_mode,
  foreign_network, check_endpoints, check_mode_endpoints,
}
use docker_socket_policy.Gates.NetworkEndpoints
use docker_socket_policy.Gates.Registry.{check_image}
use docker_socket_policy.Gates.Registry
use docker_socket_policy.Handler.{
  audit, forward, has_header, lists_upgrade, is_upgrade_request, resolved, inspected_name,
  read_inspect, inspect_request, resolve_container, body_json, refuse, outgoing, send, apply_chain,
  dispatch, handle_body, handle,
}
use docker_socket_policy.Image.{
  is_host, split_domain, is_default_registry, strip_official, full_name, domain_ok, path_ok,
  normalize_split, normalize_name, split_digest, after_slash, split_tag, parse_image_ref,
  normalize_image_prefix, byte_is, matches_prefix, matches_image_prefix, check_digest,
  check_tag_pattern, check_tag, check_image_tag,
}
use docker_socket_policy.Json.{is_zero_number, is_nonnegative, is_nonnegative_value}
use docker_socket_policy.Manager.{
  policies, get_policy, list, matching_image, get_by_image, join_comma, covering, choose,
  select_for_create, overlap, overlap_with, overlapping_prefixes, minimum, conflict_reason,
  file_name, conflict, first_conflict, conflicts_from, check_conflicts,
}
use docker_socket_policy.Manager.Load.{
  extension, is_policy_file, policy_files, insert_file, sort_files, check_names, nonempty_groups,
  check_config, normalize_prefixes, check_service, validate_policy, add_policy, read_policy,
  load_files, load_entries, manager_of,
}
use docker_socket_policy.Manager.Load
use docker_socket_policy.Mutator.{
  kept_entry, forced_endpoints, networking_object, set_endpoints, force_found, force_endpoints,
  restart_value, options_object, log_value, nonempty_list, config_fields, optional_config_fields,
  forced_host_config, host_config_value, forced_user, config_top, mutate,
}
use docker_socket_policy.Paths.{
  is_lower_hex, could_be_id, digits, from_slash, strip_version, strip_api_version, has_dot_segment,
  segments, exec_segments, is_exec_path, attach_segments, is_attach_path, container_segment,
  extract_container_name,
}
use docker_socket_policy.Policy.{
  is_match, covered_names, accepts_name, is_name_byte, valid_container_name,
}
use docker_socket_policy.Policy.Groups.{
  collect_strings, group_list, strip_dollar, is_group_byte, valid_group_body, valid_group_name,
  same_key, parse_u32, is_decimal, group_key, check_groups_from, check_group_add,
}
use docker_socket_policy.Query.{
  within, second_within, third_continues, fourth_continues, utf8_chunk, utf8_lossy_from, utf8_lossy,
  hex_digit, escaped_byte, plain_byte, unescape_bytes, query_unescape, unescape_pair, parse_part,
  parse_parts, parse_query, occurrences, parameter, strip_slash, create_name, is_unreserved,
  hex_upper, path_escape,
}
use docker_socket_policy.Router.{
  with_readonly, image_field, create_image, route_create, route_covering, route_by_name,
  pull_policies, add_tag, pull_reference, pull_image, duplicate_key, pull_parameters,
  route_image_pull, is_lifecycle, route_container, denied_endpoint, route_endpoint, route_path,
  split_target, hidden_path, route_request, route,
}
use docker_socket_policy.Router
use docker_socket_policy.Json.{Value, string, array, from_list, obj, Body}
use docker_socket_policy.Policy.{Regex, Policy, ContainerConfig, Volume}
use docker_socket_policy.Manager.{Manager}
use docker_socket_policy.Manager.Load.{File, Directory, listing}
use docker_socket_policy.Chain
use docker_socket_policy.Router.{Router}
use docker_socket_policy.Handler.{Handler, HttpRequest, World}

-- All that the tests run.
pub program : Unit {0}
unfolding get insert keys values lit ◌==◌ text_ltb starts_with strip_prefix ends_with contains
    contains_text split split_once rfind is_digit is_lower is_upper is_alpha is_alnum to_lower
    decimal is_space blank trim_end trim_start trim_ascii insert_sorted sort check_gate
    apply_mutator mutate_all first_denial execute fold_key sorted_keys read_as check_keys_case
    check_field_case is_zero_value check_keys check_values find_volume is_cmd_byte charset_check
    is_flag flag_name flag_denied_by flag_allowed_by check_flag check_rule check_rules check_value
    inline_value check_flag_alone takes_next check_flag_with check_args Cmd.check no_env no_host_env
    check_env EnvFile.check host_config_modes forced_groups same_strings equals_groups
    equals_forced_groups policy_security_options check_security_opts check_security_opt mode_ok
    check_mode check_other_field check_host_field check_networking_case check_host_config
    HostConfig.check host_config_fields create_body_fields networking_config_fields
    host_config_any_value no_new_privileges bind_modes mount_fields mount_any_value
    bind_option_fields bind_option_any_value contains_entry check_options check_bind_parts
    bind_options check_bind_split check_bind check_bind_list check_binds propagation_ok
    check_bind_option check_bind_options check_mount_field text_field flag_field zero_field
    check_mount_type check_mount check_mount_list check_mounts check_volume_keys object_field
    check_host_mounts check_volumes MountSource.check nonempty_mode forced_network_mode endpoints_of
    endpoints_config detached_network_mode foreign_network check_endpoints check_mode_endpoints
    NetworkEndpoints.check check_image Registry.check audit forward has_header lists_upgrade
    is_upgrade_request resolved inspected_name read_inspect inspect_request resolve_container
    body_json refuse outgoing send apply_chain dispatch handle_body handle is_host split_domain
    is_default_registry strip_official full_name domain_ok path_ok normalize_split normalize_name
    split_digest after_slash split_tag parse_image_ref normalize_image_prefix byte_is matches_prefix
    matches_image_prefix check_digest check_tag_pattern check_tag check_image_tag is_zero_number
    is_nonnegative is_nonnegative_value policies get_policy list matching_image get_by_image
    join_comma covering choose select_for_create overlap overlap_with overlapping_prefixes minimum
    conflict_reason file_name conflict first_conflict conflicts_from check_conflicts extension
    is_policy_file policy_files insert_file sort_files check_names nonempty_groups check_config
    normalize_prefixes check_service validate_policy add_policy read_policy load_files load_entries
    manager_of Load.new kept_entry forced_endpoints networking_object set_endpoints force_found
    force_endpoints restart_value options_object log_value nonempty_list config_fields
    optional_config_fields forced_host_config host_config_value forced_user config_top mutate
    is_lower_hex could_be_id digits from_slash strip_version strip_api_version has_dot_segment
    segments exec_segments is_exec_path attach_segments is_attach_path container_segment
    extract_container_name is_match covered_names accepts_name is_name_byte valid_container_name
    collect_strings group_list strip_dollar is_group_byte valid_group_body valid_group_name same_key
    parse_u32 is_decimal group_key check_groups_from check_group_add within second_within
    third_continues fourth_continues utf8_chunk utf8_lossy_from utf8_lossy hex_digit escaped_byte
    plain_byte unescape_bytes query_unescape unescape_pair parse_part parse_parts parse_query
    occurrences parameter strip_slash create_name is_unreserved hex_upper path_escape with_readonly
    image_field create_image route_create route_covering route_by_name pull_policies add_tag
    pull_reference pull_image duplicate_key pull_parameters route_image_pull is_lifecycle
    route_container denied_endpoint route_endpoint route_path split_target hidden_path route_request
    route Router.new
program = tt

-- An engine whose patterns match everything.
abbrev pub engine : Regex
engine = record { compile = λ p. ok (λ s. true) }

abbrev pub web_config : ContainerConfig
web_config = record {
  network_mode = some (lit "web_net");
  restart_policy = none;
  security_options = none;
  user = none;
  log_driver = none;
  log_options = none;
  group_add = none;
}

abbrev pub data_volume : Volume
data_volume = record { host_path = lit "/data"; container_path = lit "/data"; read_write = false }

abbrev pub web : Policy
web = record {
  service_name = lit "web";
  container_names = some (lit "web" ∷ []);
  user_id = none;
  group_id = none;
  allowed_image_prefixes = lit "ghcr.io/acme" ∷ [];
  image_tag_pattern = none;
  image_digest_allowed = true;
  container_config = some web_config;
  volumes = some (data_volume ∷ []);
  ports = none;
  env_file = none;
  allowed_cli_flags = none;
  flag_rules = none;
  denied_flags = some (lit "--root" ∷ []);
}

abbrev pub db : Policy
db = record web {
  service_name = lit "db";
  container_names = none;
  allowed_image_prefixes = lit "ghcr.io/data" ∷ [];
  container_config = none;
}

abbrev pub directory : Directory
directory = listing (
    ok (record { file = lit "web.yaml"; contents = ok (lit "web") })
    ∷ ok (record { file = lit "db.yml"; contents = ok (lit "db") })
    ∷ [])

abbrev pub yaml : Text → Result Text Policy
yaml text = if text == lit "web" then ok web else ok db

abbrev pub manager : Manager
manager = record { policies_by_name = (lit "db", db) ∷ (lit "web", web) ∷ [] }

abbrev pub host_config : List (Text × Value)
host_config =
    (lit "Binds", array (from_list (string (lit "/data:/data:ro") ∷ [])))
    ∷ (lit "CapAdd", array (from_list []))
    ∷ (lit "PidMode", string [])
    ∷ []

abbrev pub arguments : List Value
arguments = string (lit "serve") ∷ string (lit "--port") ∷ string (lit "80") ∷ []

abbrev pub create_body : Body
create_body =
    (lit "Cmd", array (from_list arguments))
    ∷ (lit "HostConfig", obj host_config)
    ∷ (lit "Image", string (lit "ghcr.io/acme/app:1"))
    ∷ []

abbrev pub router : Router
router = record { manager = manager; readonly = false }

abbrev pub handler : Handler
handler = record {
  re = engine;
  router = router;
  chain = Chain.new;
  from_slice = λ text. some (obj ((lit "Name", string (lit "/web")) ∷ create_body));
  to_vec = λ body. some (lit "{}");
  uri_error = λ uri. none;
  transport = λ sent req. ok (record { status = 200; headers = []; body = lit "{}" });
}

abbrev pub request : (method target : Text) → HttpRequest
request method target = record {
  method = method;
  full_uri = target;
  path = target;
  path_and_query = some target;
  headers = [];
  body = some (lit "{}");
}

abbrev pub start : World
start = record { forwarded = []; log = [] }
