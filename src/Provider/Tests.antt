-- ===== src/Provider/Tests.antt =====
-- The theorems about the providers at concrete inputs.
use rootcell.Prelude.{ℕ, ◌+◌, ◌≡◌, ◌≢◌, refl, Bool, not, ◌==◌, ok, err, arith, codes, ◌⊎◌}
use rootcell.Instance.Ipv4.{
  format_ipv4, parse_ipv4, parse_octets, push_octet, is_octet_text, is_private_ipv4, subnet24,
}
use rootcell.Prelude.{split, text_eq}
use rootcell.Prelude.Decimal.{number}
use rootcell.Instance.State.{
  InstanceState, base_state, validate_state, fits_schema, validate_subnet_and_hosts, check_hosts,
}
use rootcell.Instance.State.Validity.{network_state, IsPrivateNetwork}
use rootcell.Provider.Tunnels.{choose_local_port, no_local_port}
use rootcell.Provider.Tunnels.Choice.{IsFirstFreePort, HasNoFreePort, choose_local_port_lem}
use rootcell.Provider.AwsEc2.Plan.{plan}
use rootcell.Provider.AwsEc2.Router.{plan-gateway}

abbrev all_but_19432 : ℕ → Bool
all_but_19432 port = not (port == 19432)

choose_local_port_lem_example :
    ((port : ℕ) × IsFirstFreePort all_but_19432 19432 100 port
      × (choose_local_port all_but_19432 19432 100 ≡ ok port))
    ⊎ (HasNoFreePort all_but_19432 19432 100
        × (choose_local_port all_but_19432 19432 100 ≡ err (no_local_port 19432)))
choose_local_port_lem_example =
    choose_local_port_lem all_but_19432 19432 100 (omega arith) (omega arith) (omega arith)

abbrev private_state : InstanceState
private_state = base_state (codes "10.1.2.0") (codes "10.1.2.10") (codes "10.1.2.11")

private_state_test : validate_state (codes "dev") private_state ≡ ok private_state
unfolding validate_state fits_schema validate_subnet_and_hosts check_hosts parse_ipv4 parse_octets
    push_octet is_octet_text is_private_ipv4 subnet24 split number text_eq base_state
private_state_test = refl

plan-gateway_example :
    (n : ℕ) × IsPrivateNetwork n
    × (private_state ≡ network_state n)
    × ((plan private_state.firewall_ip private_state.agent_ip).agent_default_gateway_ip
        ≡ format_ipv4 (n + 1))
    × ((plan private_state.firewall_ip private_state.agent_ip).agent_default_gateway_ip
        ≢ private_state.firewall_ip)
    × ((plan private_state.firewall_ip private_state.agent_ip).agent_default_gateway_ip
        ≢ private_state.agent_ip)
plan-gateway_example = plan-gateway (codes "dev") private_state private_state private_state_test
