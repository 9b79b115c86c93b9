-- ===== src/Tunnel/Examples.antt =====
-- The theorems on tunnels at concrete services.
use tunnel_drill.Prelude.{true, false, arith, Returns}
use tunnel_drill.Tunnel.Data.{joined_pair}
use tunnel_drill.Tunnel.Close.{close}
use tunnel_drill.Tunnel.Close.Effect.{open_count}
use tunnel_drill.Tunnel.Close.Sides.{Closes}
use tunnel_drill.Tunnel.Close.Total.{close-Closes}
use tunnel_drill.Tunnel.Accept.{Accepted, StartErrors}

close-Closes_example : Returns (Closes "c" joined_pair) (close 3 "c" joined_pair)
unfolding open_count
close-Closes_example = close-Closes 3 "c" joined_pair (omega arith)

abbrev arrival : Accepted
arrival = record {
  aborted = false;
  error = false;
  publisher = true;
  control = true;
  socket_open = true;
  endpoint_known = true;
  tunnel_id = "n";
}

abbrev no_errors : StartErrors
no_errors = record {
  open_fails = false;
  option_fails = false;
  bind_fails = false;
  listen_fails = false;
}
