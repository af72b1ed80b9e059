-- ===== src/Instance/State.antt =====
-- The network of an instance: `InstanceStateSchema` of src/rootcell/types.ts, and `validateState`,
-- `validateSubnetAndHosts`, `stateFromEnv`, `poolFromEnv`, `allocateState` and `baseState` of
-- src/rootcell/instance.ts.
pub mod Allocation
pub mod Validity
pub mod Pool
use rootcell.Prelude.{
  ℕ, zero, suc, ◌+◌, ◌-◌, ◌/◌, ◌%◌, Bool, true, false, not, ◌&&◌, ◌||◌, List, [], ◌∷◌, ◌++◌, Option,
  none, some, ◌==◌, ltb, leb, if◌then◌else◌, length, or_else, Text, codes, text_eq, before_last,
  Result, ok, err, throw_if, ◌>>=◌, ◌>>◌,
}
use rootcell.Instance.Error.{
  Error, subnet_not_network, subnet_not_private, hosts_outside_subnet, wrong_host_numbers,
  ips_not_set_together, network_prefix_not_24, pool_not_network, pool_not_private, pool_reversed,
  pool_exhausted, invalid_state,
}
use rootcell.Instance.Ipv4.{parse_ipv4, format_ipv4, subnet24, is_private_ipv4}

pub record InstanceState : Type 0 where
  pub schema_version : ℕ
  pub subnet : Text
  pub network_prefix : ℕ
  pub firewall_ip : Text
  pub agent_ip : Text

-- The environment variables that the network depends on.
pub record NetworkEnv : Type 0 where
  pub firewall_ip : Option Text
  pub agent_ip : Option Text
  pub network_prefix : Option Text
  pub pool_start : Option Text
  pub pool_end : Option Text

unfoldable pub base_state : Text → Text → Text → InstanceState
base_state subnet firewall_ip agent_ip = record {
  schema_version = 1;
  subnet = subnet;
  network_prefix = 24;
  firewall_ip = firewall_ip;
  agent_ip = agent_ip;
}

-- The tests of `validateSubnetAndHosts` behind the reading of the three addresses.
unfoldable pub check_hosts : Text → ℕ → ℕ → ℕ → Result Error (Unit {0})
check_hosts name subnet firewall agent = do
  throw_if (not (subnet % 256 == 0)) (subnet_not_network name)
  throw_if (not (is_private_ipv4 subnet)) (subnet_not_private name)
  throw_if (not (subnet24 firewall == subnet) || not (subnet24 agent == subnet))
      (hosts_outside_subnet name)
  throw_if (not (firewall % 256 == 10) || not (agent % 256 == 11)) (wrong_host_numbers name)

unfoldable pub validate_subnet_and_hosts : Text → Text → Text → Text → Result Error (Unit {0})
validate_subnet_and_hosts subnet firewall_ip agent_ip name = do
  subnet_int ← parse_ipv4 subnet
  firewall_int ← parse_ipv4 firewall_ip
  agent_int ← parse_ipv4 agent_ip
  check_hosts name subnet_int firewall_int agent_int

-- `InstanceStateSchema`
unfoldable pub fits_schema : InstanceState → Bool
fits_schema state =
    state.schema_version == 1
    && (ltb 0 (length state.subnet)
        && (state.network_prefix == 24
            && (ltb 0 (length state.firewall_ip) && ltb 0 (length state.agent_ip))))

unfoldable pub validate_state : Text → InstanceState → Result Error InstanceState
validate_state name state = do
  throw_if (not (fits_schema state)) (invalid_state name)
  validate_subnet_and_hosts state.subnet state.firewall_ip state.agent_ip name
  ok state

-- `stateFromEnv` once both addresses are given.
unfoldable pub state_from_ips : Text → Text → Text → Result Error InstanceState
state_from_ips name firewall_ip agent_ip = do
  firewall_int ← parse_ipv4 firewall_ip
  validate_subnet_and_hosts (format_ipv4 (subnet24 firewall_int)) firewall_ip agent_ip name
  ok (base_state (format_ipv4 (subnet24 firewall_int)) firewall_ip agent_ip)

unfoldable pub state_from_env : Text → NetworkEnv → Result Error (Option InstanceState)
state_from_env name env = elim env.firewall_ip [
  | none ↦ elim env.agent_ip [ none ↦ ok none | some agent ↦ err ips_not_set_together ]
  | some firewall ↦ elim env.agent_ip [
    | none ↦ err ips_not_set_together
    | some agent ↦ do
      throw_if (not (text_eq (or_else env.network_prefix (codes "24")) (codes "24")))
          network_prefix_not_24
      state ← state_from_ips name firewall agent
      ok (some state)
  ]
]

unfoldable pub pool_from_env : NetworkEnv → Result Error (ℕ × ℕ)
pool_from_env env = do
  start ← parse_ipv4 (or_else env.pool_start (codes "192.168.100.0"))
  end ← parse_ipv4 (or_else env.pool_end (codes "192.168.254.0"))
  throw_if (not (start % 256 == 0) || not (end % 256 == 0)) pool_not_network
  throw_if (not (is_private_ipv4 start) || not (is_private_ipv4 end)) pool_not_private
  throw_if (ltb end start) pool_reversed
  ok (start, end)

unfoldable pub contains : List Text → Text → Bool
contains [] t = false
contains (s ∷ ss) t = text_eq s t || contains ss t

-- The state that is made of a free network.
unfoldable pub state_of_network : ℕ → InstanceState
state_of_network network =
    let subnet = format_ipv4 network in
    let prefix = before_last b'.' subnet in
    base_state subnet (prefix ++ codes ".10") (prefix ++ codes ".11")

-- The loop of `allocateState` over the networks; the fuel bounds their number.
unfoldable pub allocate_from : ℕ → ℕ → ℕ → List Text → Option InstanceState
allocate_from zero network end used = none
allocate_from (suc fuel) network end used =
    let rest = allocate_from fuel (network + 256) end used in
    if leb network end
    then (if contains used (format_ipv4 network) then rest else some (state_of_network network))
    else none

-- The number of networks from `start` to `end`, and one more for the test that ends the loop.
abbrev pub pool_fuel : ℕ → ℕ → ℕ
pool_fuel start end = (end - start) / 256 + 2

unfoldable pub allocate_state : NetworkEnv → List Text → Result Error InstanceState
allocate_state env used = do
  pool ← pool_from_env env
  elim (allocate_from (pool_fuel pool.0 pool.1) pool.0 pool.1 used) [
    | none ↦ err (pool_exhausted pool.0 pool.1)
    | some state ↦ ok state
  ]
