-- ===== src/Provider/AwsEc2/Router.antt =====
-- The router of the AWS provider is a third host of the network of an instance.
use rootcell.Prelude.{
  ℕ, ◌+◌, ◌%◌, ◌^◌, ◌<◌, ◌≡◌, ◌≢◌, ap, sym, ◌∙◌, ◌++◌, Text, codes, before_last, before_last-append,
  arith, ok,
}
use rootcell.Prelude.Decimal.{decimal}
use rootcell.Instance.Ipv4.{parse_ipv4, format_ipv4}
use rootcell.Instance.Ipv4.RoundTrip.{parse-format}
use rootcell.Instance.Ipv4.Hosts.{before_last-format-host}
use rootcell.Instance.State.{InstanceState, validate_state}
use rootcell.Instance.State.Validity.{validate_state_iff, network_state, IsPrivateNetwork}
use rootcell.Provider.AwsEc2.Plan.{plan, aws_vpc_router_ip}

router_of_network :
    (n : ℕ) → n % 256 ≡ 0 → aws_vpc_router_ip (format_ipv4 (n + 10)) ≡ format_ipv4 (n + 1)
unfolding aws_vpc_router_ip decimal
router_of_network n whole =
    let ten = before_last-format-host n 10 whole (omega arith) in
    let one = before_last-format-host n 1 whole (omega arith) in
    let same : before_last b'.' (format_ipv4 (n + 10)) ≡ before_last b'.' (format_ipv4 n) =
      ap (before_last b'.') (sym ten)
      ∙ before_last-append b'.' (before_last b'.' (format_ipv4 n)) (codes "10")
          (omega arith, (omega arith, tt)) in
    ap (λ t. t ++ codes ".1") same ∙ one

format_ipv4-ne : (a b : ℕ) → a < 2 ^ 32 → b < 2 ^ 32 → a ≢ b → format_ipv4 a ≢ format_ipv4 b
format_ipv4-ne a b fa fb ne h = ne (cc (parse-format a fa, parse-format b fb, ap parse_ipv4 h))

-- For a valid state with the network n, the default gateway of the agent is the host n + 1, which
-- is neither the firewall nor the agent.
pub plan-gateway :
    (name : Text) (state valid : InstanceState)
    → validate_state name state ≡ ok valid
    → (n : ℕ) × IsPrivateNetwork n
      × (state ≡ network_state n)
      × ((plan state.firewall_ip state.agent_ip).agent_default_gateway_ip ≡ format_ipv4 (n + 1))
      × ((plan state.firewall_ip state.agent_ip).agent_default_gateway_ip ≢ state.firewall_ip)
      × ((plan state.firewall_ip state.agent_ip).agent_default_gateway_ip ≢ state.agent_ip)
unfolding plan
plan-gateway name state valid h =
    let (_, (n, p, e)) = (validate_state_iff name state valid).0 h in
    let router = ap aws_vpc_router_ip (ap (λ s. s.firewall_ip) e) ∙ router_of_network n p.whole in
    (
      n,
      p,
      e,
      router,
      λ same.
          format_ipv4-ne (n + 1) (n + 10) (omega (arith, p.whole, p.fits))
            (omega (arith, p.whole, p.fits)) (λ q. absurd (omega arith))
            (sym router ∙ same ∙ ap (λ s. s.firewall_ip) e),
      λ same.
          format_ipv4-ne (n + 1) (n + 11) (omega (arith, p.whole, p.fits))
            (omega (arith, p.whole, p.fits)) (λ q. absurd (omega arith))
            (sym router ∙ same ∙ ap (λ s. s.agent_ip) e),
    )
