-- ===== src/Provider/Tunnels.antt =====
-- `chooseLocalPort` of src/rootcell/tunnels.ts. Whether a port is free is asked of the system, one
-- question for each port, and an argument here.
pub mod Choice
use rootcell.Prelude.{
  ℕ, zero, suc, ◌+◌, Bool, true, false, not, ◌||◌, Option, none, some, ◌==◌, ltb, if◌then◌else◌,
  Result, ok, err, throw_if, ◌>>=◌, ◌>>◌,
}

pub data TunnelError : Type 0 where
  invalid_preferred_port : ℕ → TunnelError
  invalid_scan_limit : ℕ → TunnelError
  no_local_port : ℕ → TunnelError

module _ (port_available : ℕ → Bool) where
  -- The loop, with `left` rounds left and the next candidate.
  unfoldable pub scan_ports : ℕ → ℕ → Option ℕ
  scan_ports zero candidate = none
  scan_ports (suc left) candidate =
      let rest = scan_ports left (candidate + 1) in
      if ltb 65535 candidate
      then none
      else if port_available candidate
      then some candidate
      else rest

  unfoldable pub choose_local_port : ℕ → ℕ → Result TunnelError ℕ
  choose_local_port preferred_port scan_limit = do
    throw_if (preferred_port == 0 || ltb 65535 preferred_port)
        (invalid_preferred_port preferred_port)
    throw_if (scan_limit == 0) (invalid_scan_limit scan_limit)
    elim (scan_ports scan_limit preferred_port) [
      | none ↦ err (no_local_port preferred_port)
      | some port ↦ ok port
    ]
