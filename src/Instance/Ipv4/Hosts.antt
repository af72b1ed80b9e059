-- ===== src/Instance/Ipv4/Hosts.antt =====
-- The texts of the hosts of a /24 network.
use mathlib.Core.List.{append_assoc}
use rootcell.Prelude.{
  ℕ, ◌+◌, ◌%◌, ◌<◌, ◌≡◌, ◌∷◌, ◌++◌, arith, Text, join, length, length-append, before_last,
  before_last-append,
}
use rootcell.Prelude.Decimal.{decimal}
use rootcell.Instance.Ipv4.{octet_at, format_ipv4}
use rootcell.Instance.Ipv4.RoundTrip.{decimal-Lacks}

-- The first three parts of an address.
network_text : ℕ → Text
network_text v =
    decimal (octet_at v 24) ++ (b'.' ∷ (decimal (octet_at v 16) ++ (b'.' ∷ decimal (octet_at v 8))))

format_parts : (v : ℕ) → format_ipv4 v ≡ network_text v ++ (b'.' ∷ decimal (octet_at v 0))
unfolding format_ipv4 network_text join
format_parts v = simp append_assoc

-- An address is no empty text.
pub format_pos : (v : ℕ) → 0 < length (format_ipv4 v)
format_pos v =
    rw (format_parts v)
      (omega (arith, length-append (network_text v) (b'.' ∷ decimal (octet_at v 0))))

before_last-format : (v : ℕ) → before_last b'.' (format_ipv4 v) ≡ network_text v
before_last-format v =
    rw (format_parts v) (before_last-append b'.' (network_text v) _ (decimal-Lacks _))

module _ (network host : ℕ) (whole : network % 256 ≡ 0) (small : host < 256) where
  host_octets :
      (octet_at (network + host) 24 ≡ octet_at network 24)
      × (octet_at (network + host) 16 ≡ octet_at network 16)
      × (octet_at (network + host) 8 ≡ octet_at network 8)
      × (octet_at (network + host) 0 ≡ host)
  host_octets = omega arith

  -- The prefix of a network's text, a dot and the number of a host form the text of the host.
  pub before_last-format-host :
      before_last b'.' (format_ipv4 network) ++ (b'.' ∷ decimal host) ≡ format_ipv4 (network + host)
  unfolding network_text
  before_last-format-host =
      let (a, b, c, d) = host_octets in
      rw (before_last-format network, format_parts (network + host), a, b, c, d)
