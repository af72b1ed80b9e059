-- ===== src/Instance/Error.antt =====
-- The errors that src/rootcell/instance.ts throws, one constructor for each message.
use rootcell.Prelude.{ℕ, List, Text}

pub data Error : Type 0 where
  invalid_instance_name : Text → Error
  invalid_ipv4 : Error
  subnet_not_network : Text → Error
  subnet_not_private : Text → Error
  hosts_outside_subnet : Text → Error
  wrong_host_numbers : Text → Error
  ips_not_set_together : Error
  network_prefix_not_24 : Error
  pool_not_network : Error
  pool_not_private : Error
  pool_reversed : Error
  pool_exhausted : ℕ → ℕ → Error
  subnet_of_many : Text → List Text → Error
  subnet_taken : Text → Error
  empty_content : Error
  multiple_lines : Error
  embedded_whitespace : Error
  invalid_state : Text → Error
  unreadable_state : Text → Error
