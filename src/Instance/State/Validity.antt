-- ===== src/Instance/State/Validity.antt =====
-- Which states are accepted: exactly those of a private /24 network, in canonical texts.
use rootcell.Prelude.{
  ℕ, ◌+◌, ◌%◌, ◌^◌, ◌<◌, ◌≡◌, ◌↔◌, sym, ap, ◌∙◌, true, arith, Text, ok, >>=-eq-ok,
}
use rootcell.Prelude.Decimal.{decimal}
use rootcell.Instance.Ipv4.{parse_ipv4, format_ipv4, subnet24, is_private_ipv4}
use rootcell.Instance.Ipv4.RoundTrip.{parse-format, format-parse}
use rootcell.Instance.Ipv4.Hosts.{format_pos, before_last-format-host}
use rootcell.Instance.State.{
  InstanceState, base_state, check_hosts, validate_subnet_and_hosts, fits_schema, validate_state,
  state_of_network,
}

-- The state of a /24 network: the firewall has host number 10 and the agent 11.
abbrev pub network_state : ℕ → InstanceState
network_state network = record {
  schema_version = 1;
  subnet = format_ipv4 network;
  network_prefix = 24;
  firewall_ip = format_ipv4 (network + 10);
  agent_ip = format_ipv4 (network + 11);
}

pub record IsPrivateNetwork (network : ℕ) : Type 0 where
  pub whole : network % 256 ≡ 0
  pub fits : network < 2 ^ 32
  pub private_space : is_private_ipv4 network ≡ true

-- `allocateState` makes the state of its network.
pub state_of_network_lem :
    (network : ℕ) → network % 256 ≡ 0 → state_of_network network ≡ network_state network
unfolding state_of_network base_state decimal
state_of_network_lem network whole =
    let ten = before_last-format-host network 10 whole (omega arith) in
    let eleven = before_last-format-host network 11 whole (omega arith) in
    λ i. record {
      schema_version = 1;
      subnet = format_ipv4 network;
      network_prefix = 24;
      firewall_ip = ten i;
      agent_ip = eleven i;
    }

check_hosts-eq-ok :
    (name : Text) (subnet firewall agent : ℕ)
    → check_hosts name subnet firewall agent ≡ ok tt
    → (subnet % 256 ≡ 0)
      × (is_private_ipv4 subnet ≡ true)
      × (firewall ≡ subnet + 10)
      × (agent ≡ subnet + 11)
unfolding check_hosts subnet24
check_hosts-eq-ok name subnet firewall agent h = ground arith

check_hosts_of_network :
    (name : Text) (n : ℕ) → IsPrivateNetwork n → check_hosts name n (n + 10) (n + 11) ≡ ok tt
unfolding check_hosts subnet24
check_hosts_of_network name n p = ground arith

validate_hosts-eq-ok :
    (subnet firewall_ip agent_ip name : Text)
    → validate_subnet_and_hosts subnet firewall_ip agent_ip name ≡ ok tt
    → (n : ℕ) × IsPrivateNetwork n
      × (subnet ≡ format_ipv4 n)
      × (firewall_ip ≡ format_ipv4 (n + 10))
      × (agent_ip ≡ format_ipv4 (n + 11))
unfolding validate_subnet_and_hosts
validate_hosts-eq-ok subnet firewall_ip agent_ip name h =
    let (n, pn, h₁) = >>=-eq-ok (parse_ipv4 subnet) _ h in
    let (f, pf, h₂) = >>=-eq-ok (parse_ipv4 firewall_ip) _ h₁ in
    let (a, pa, h₃) = >>=-eq-ok (parse_ipv4 agent_ip) _ h₂ in
    let (whole, priv, ef, ea) = check_hosts-eq-ok name n f a h₃ in
    let (sn, bn) = format-parse subnet pn in
    let (sf, bf) = format-parse firewall_ip pf in
    let (sa, ba) = format-parse agent_ip pa in
    (
      n,
      record { whole = whole; fits = bn; private_space = priv },
      sym sn,
      sym sf ∙ ap format_ipv4 ef,
      sym sa ∙ ap format_ipv4 ea,
    )

private_last_host : (n : ℕ) → IsPrivateNetwork n → n + 11 < 2 ^ 32
private_last_host n p = omega (arith, p.whole, p.fits)

validate_hosts_of_network :
    (name : Text) (n : ℕ)
    → IsPrivateNetwork n
    → validate_subnet_and_hosts (format_ipv4 n) (format_ipv4 (n + 10)) (format_ipv4 (n + 11)) name
      ≡ ok tt
unfolding validate_subnet_and_hosts
validate_hosts_of_network name n p =
    let bound = private_last_host n p in
    rw
      (
        parse-format n p.fits,
        parse-format (n + 10) (omega arith),
        parse-format (n + 11) (omega arith),
      )
      (check_hosts_of_network name n p)

fits_schema-eq_true :
    (s : InstanceState) → fits_schema s ≡ true → (s.schema_version ≡ 1) × (s.network_prefix ≡ 24)
unfolding fits_schema
fits_schema-eq_true s h = ground arith

network_state-fits_schema : (n : ℕ) → fits_schema (network_state n) ≡ true
unfolding fits_schema
network_state-fits_schema n = ground (arith, format_pos n, format_pos (n + 10), format_pos (n + 11))

validate_state-eq-ok :
    (name : Text) (state : InstanceState) {valid : InstanceState}
    → validate_state name state ≡ ok valid
    → (fits_schema state ≡ true)
      × (validate_subnet_and_hosts state.subnet state.firewall_ip state.agent_ip name ≡ ok tt)
      × (valid ≡ state)
unfolding validate_state
validate_state-eq-ok name state h = ground arith

-- A state file is accepted exactly if it describes a /24 network in private space by canonical
-- texts, with the firewall at .10 and the agent at .11; it is then returned as it is.
pub validate_state_iff :
    (name : Text) (state valid : InstanceState)
    → (validate_state name state ≡ ok valid)
      ↔ ((valid ≡ state) × ((n : ℕ) × IsPrivateNetwork n × (state ≡ network_state n)))
unfolding validate_state
validate_state_iff name state valid = (accepted, accepts)
  where
    accepted :
        validate_state name state ≡ ok valid
        → (valid ≡ state) × ((n : ℕ) × IsPrivateNetwork n × (state ≡ network_state n))
    accepted h =
        let (schema, hosts, same) = validate_state-eq-ok name state h in
        let (version, prefix) = fits_schema-eq_true state schema in
        let (n, priv, es, ef, ea) =
          validate_hosts-eq-ok state.subnet state.firewall_ip state.agent_ip name hosts in
        (
          same,
          (
            n,
            priv,
            λ i. record {
              schema_version = version i;
              subnet = es i;
              network_prefix = prefix i;
              firewall_ip = ef i;
              agent_ip = ea i;
            },
          ),
        )

    accepts :
        (valid ≡ state) × ((n : ℕ) × IsPrivateNetwork n × (state ≡ network_state n))
        → validate_state name state ≡ ok valid
    accepts (same, (n, priv, e)) =
        rw (same, e, network_state-fits_schema n, validate_hosts_of_network name n priv)
