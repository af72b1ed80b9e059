-- ===== src/Instance/Tests.antt =====
-- Runs of the model of src/rootcell/instance.ts, and the theorems about it at concrete inputs.
use rootcell.Prelude.{
  ℕ, ◌≤◌, ◌<◌, ◌≡◌, ◌≢◌, refl, true, [], ◌∷◌, ◌++◌, arith, none, some, Text, codes, text_eq,
  text_eq_iff, ◌^◌, split, join, before_last, ok, err, ◌⊎◌, ◌↔◌,
}
use rootcell.Prelude.Decimal.{decimal, number}
use rootcell.Instance.Error.{pool_exhausted}
use rootcell.Instance.Ipv4.{
  parse_ipv4, format_ipv4, is_private_ipv4, subnet24, parse_octets, push_octet, is_octet_text,
}
use rootcell.Instance.Ipv4.RoundTrip.{parse-format, format-parse}
use rootcell.Instance.Name.{is_instance_name, validate_instance_name, derive_vm_names, VmNames}
use rootcell.Instance.Name.Laws.{derive_vm_names_distinct}
use rootcell.Instance.Name.Selection.{
  parse_selected_instance_file, read_selected_instance, write_selected_instance,
}
use rootcell.Instance.Name.Selection.Laws.{
  parse_selected_instance_file_iff, read-write_selected_instance,
}
use rootcell.Instance.State.{
  InstanceState, NetworkEnv, validate_state, pool_from_env, allocate_state, allocate_from,
  base_state, state_from_env, state_of_network, contains, fits_schema, validate_subnet_and_hosts,
  check_hosts,
}
use rootcell.Instance.State.Validity.{validate_state_iff, network_state, IsPrivateNetwork}
use rootcell.Instance.State.Allocation.{IsFirstFree, IsExhausted}
use rootcell.Instance.State.Pool.{
  allocate_state_lem, validate-allocate_state, validate-allocate_state_iff,
}
use rootcell.Instance.Disk.{
  decoded, Dir, Disk, StateEntry, read_instance_metadata_name, state_at, write_state, read_state,
  read_entry, read_all_instance_states, assert_no_subnet_collisions, checked_states, new_state,
  create_state, ensure_instance_state, collect_names, add_name, check_names,
}
use rootcell.Instance.Disk.Collisions.{assert_no_subnet_collisions_iff, count_subnet}
use rootcell.Instance.Disk.Entries.{here, there}
use rootcell.Instance.Disk.Isolation.{ensure_instance_state_isolates}

abbrev no_env : NetworkEnv
no_env = record {
  firewall_ip = none;
  agent_ip = none;
  network_prefix = none;
  pool_start = none;
  pool_end = none;
}

-- A pool over the end of 10.0.0.0/8.
abbrev wide_env : NetworkEnv
wide_env = record no_env {
  pool_start = some (codes "10.255.255.0");
  pool_end = some (codes "172.16.0.0");
}

abbrev state_100 : InstanceState
state_100 = base_state (codes "192.168.100.0") (codes "192.168.100.10") (codes "192.168.100.11")

abbrev state_101 : InstanceState
state_101 = base_state (codes "192.168.101.0") (codes "192.168.101.10") (codes "192.168.101.11")

-- The network behind the end of 10.0.0.0/8.
abbrev state_11 : InstanceState
state_11 = base_state (codes "11.0.0.0") (codes "11.0.0.10") (codes "11.0.0.11")

abbrev work_dir : Dir
work_dir = record {
  dir = codes "work";
  metadata = some (codes "work");
  state = some (decoded state_100);
}

abbrev dev_dir : Dir
dev_dir = record { dir = codes "dev"; metadata = some (codes "dev"); state = none }

abbrev two_dirs : Disk
two_dirs = dev_dir ∷ work_dir ∷ []

pool_test : pool_from_env no_env ≡ ok (3232261120, 3232300544)
unfolding pool_from_env parse_ipv4 parse_octets push_octet is_octet_text split number
    is_private_ipv4 before_last text_eq
pool_test = refl

wide_pool_test : pool_from_env wide_env ≡ ok (184549120, 2886729728)
unfolding pool_from_env parse_ipv4 parse_octets push_octet is_octet_text split number
    is_private_ipv4 text_eq
wide_pool_test = refl

two_names_differ : codes "work" ≢ codes "dev"
unfolding text_eq
two_names_differ = λ h. absurd (ground (arith, (text_eq_iff (codes "work") (codes "dev")).1 h))

ensure_test :
    ensure_instance_state (codes "dev") no_env two_dirs
    ≡ (ok state_101, record dev_dir { state = some (decoded state_101) } ∷ work_dir ∷ [])
unfolding ensure_instance_state checked_states read_all_instance_states read_entry
    read_instance_metadata_name state_at read_state assert_no_subnet_collisions collect_names
    add_name check_names create_state new_state write_state validate_state fits_schema
    validate_subnet_and_hosts check_hosts state_from_env allocate_state allocate_from
    state_of_network contains pool_from_env parse_ipv4 parse_octets push_octet is_octet_text
    format_ipv4 decimal subnet24 split join number is_private_ipv4 before_last text_eq
    is_instance_name base_state
ensure_test = refl

read_work_dir : read_instance_metadata_name work_dir ≡ some (codes "work")
unfolding read_instance_metadata_name is_instance_name
read_work_dir = refl

work_state : state_at (codes "work") two_dirs ≡ some (decoded state_100)
unfolding state_at text_eq
work_state = refl

ensure_instance_state_isolates_example :
    (state_100.subnet ≢ state_101.subnet)
    × (state_at (codes "work") (record dev_dir { state = some (decoded state_101) } ∷ work_dir ∷ [])
        ≡ some (decoded state_100))
    × (record dev_dir { state = some (decoded state_101) } ∷ work_dir ∷ []
        ≡ write_state (codes "dev") state_101 two_dirs)
ensure_instance_state_isolates_example =
    ensure_instance_state_isolates (codes "dev") no_env two_dirs state_101
      (record dev_dir { state = some (decoded state_101) } ∷ work_dir ∷ []) (codes "work") state_100
      ensure_test two_names_differ (there dev_dir (work_dir ∷ []) (here work_dir [] read_work_dir))
      work_state

validate_state_iff_example :
    (validate_state (codes "work") state_100 ≡ ok state_100)
    ↔ ((state_100 ≡ state_100) × ((n : ℕ) × IsPrivateNetwork n × (state_100 ≡ network_state n)))
validate_state_iff_example = validate_state_iff (codes "work") state_100 state_100

allocate_state_lem_example :
    ((n : ℕ) × IsFirstFree (codes "192.168.100.0" ∷ []) 3232261120 3232300544 n
      × (allocate_state no_env (codes "192.168.100.0" ∷ []) ≡ ok (network_state n)))
    ⊎ (IsExhausted (codes "192.168.100.0" ∷ []) 3232261120 3232300544
        × (allocate_state no_env (codes "192.168.100.0" ∷ [])
            ≡ err (pool_exhausted 3232261120 3232300544)))
allocate_state_lem_example =
    allocate_state_lem no_env (codes "192.168.100.0" ∷ []) 3232261120 3232300544 pool_test

allocate_test : allocate_state no_env (codes "192.168.100.0" ∷ []) ≡ ok state_101
unfolding allocate_state allocate_from state_of_network contains pool_from_env parse_ipv4
    parse_octets push_octet is_octet_text format_ipv4 decimal split join number is_private_ipv4
    before_last text_eq base_state
allocate_test = refl

wide_allocate_test : allocate_state wide_env (codes "10.255.255.0" ∷ []) ≡ ok state_11
unfolding allocate_state allocate_from state_of_network contains pool_from_env parse_ipv4
    parse_octets push_octet is_octet_text format_ipv4 decimal split join number is_private_ipv4
    before_last text_eq base_state
wide_allocate_test = refl

validate-allocate_state_example : validate_state (codes "dev") state_101 ≡ ok state_101
validate-allocate_state_example =
    validate-allocate_state no_env (codes "192.168.100.0" ∷ []) (codes "dev") 3232261120 3232300544
      state_101 pool_test refl allocate_test

validate-allocate_state_iff_example :
    (n : ℕ) × IsFirstFree (codes "10.255.255.0" ∷ []) 184549120 2886729728 n
    × (state_11 ≡ network_state n)
    × ((validate_state (codes "dev") state_11 ≡ ok state_11) ↔ (is_private_ipv4 n ≡ true))
validate-allocate_state_iff_example =
    validate-allocate_state_iff wide_env (codes "10.255.255.0" ∷ []) (codes "dev") 184549120
      2886729728 state_11 wide_pool_test wide_allocate_test

parse-format_example : parse_ipv4 (format_ipv4 3232261130) ≡ ok 3232261130
parse-format_example = parse-format 3232261130 (omega arith)

parse_test : parse_ipv4 (codes "10.0.0.11") ≡ ok 167772171
unfolding parse_ipv4 parse_octets push_octet is_octet_text split number text_eq decimal
parse_test = refl

format-parse_example : (format_ipv4 167772171 ≡ codes "10.0.0.11") × (167772171 < 2 ^ 32)
format-parse_example = format-parse (codes "10.0.0.11") parse_test

abbrev work_entry : StateEntry
work_entry = record { name = codes "work"; state = state_100 }

assert_no_subnet_collisions_iff_example :
    (assert_no_subnet_collisions (work_entry ∷ work_entry ∷ []) ≡ ok tt)
    ↔ ((k : Text) → count_subnet k (work_entry ∷ work_entry ∷ []) ≤ 1)
assert_no_subnet_collisions_iff_example =
    assert_no_subnet_collisions_iff (work_entry ∷ work_entry ∷ [])

abbrev default_vms : VmNames
default_vms = record { agent_vm = codes "agent"; firewall_vm = codes "firewall" }

abbrev dev_vms : VmNames
dev_vms = record { agent_vm = codes "agent-dev"; firewall_vm = codes "firewall-dev" }

default_vms_test : derive_vm_names (codes "default") ≡ ok default_vms
unfolding derive_vm_names validate_instance_name is_instance_name text_eq
default_vms_test = refl

dev_vms_test : derive_vm_names (codes "dev") ≡ ok dev_vms
unfolding derive_vm_names validate_instance_name is_instance_name text_eq
dev_vms_test = refl

default_not_dev : codes "default" ≢ codes "dev"
unfolding text_eq
default_not_dev = λ h. absurd (ground (arith, (text_eq_iff (codes "default") (codes "dev")).1 h))

derive_vm_names_distinct_example :
    (default_vms.agent_vm ≢ dev_vms.agent_vm)
    × (default_vms.firewall_vm ≢ dev_vms.firewall_vm)
    × (default_vms.agent_vm ≢ dev_vms.firewall_vm)
    × (default_vms.agent_vm ≢ default_vms.firewall_vm)
derive_vm_names_distinct_example =
    derive_vm_names_distinct (codes "default") (codes "dev") default_vms dev_vms default_vms_test
      dev_vms_test default_not_dev

parse_selected_instance_file_iff_example :
    (parse_selected_instance_file (codes "dev\r\n") ≡ ok (codes "dev")) ↔ (
      (is_instance_name (codes "dev") ≡ true)
      × ((codes "dev\r\n" ≡ codes "dev")
          ⊎ (codes "dev\r\n" ≡ codes "dev" ++ codes "\n")
          ⊎ (codes "dev\r\n" ≡ codes "dev" ++ codes "\r\n")))
parse_selected_instance_file_iff_example =
    parse_selected_instance_file_iff (codes "dev\r\n") (codes "dev")

write_test : write_selected_instance (codes "dev") ≡ ok (codes "dev\n")
unfolding write_selected_instance validate_instance_name is_instance_name
write_test = refl

read-write_selected_instance_example :
    read_selected_instance (some (codes "dev\n")) ≡ ok (codes "dev")
read-write_selected_instance_example = read-write_selected_instance (codes "dev") write_test
