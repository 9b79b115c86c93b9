-- ===== src/Tunnel/Peek/Examples.antt =====
-- The read handler of `peek` at concrete reads.
use tunnel_drill.Prelude.{ℕ, refl, false, List, [], ◌∷◌, ◌++◌, Option, none, some, arith}
use tunnel_drill.Prelude.Dict.{lookup, insert}
use tunnel_drill.Json.{object, member, end, string}
use tunnel_drill.Tunnel.{Service, session, put}
use tunnel_drill.Tunnel.Data.{blank, unjoined, left_behind}
use tunnel_drill.Tunnel.Close.{close_pipe}
use tunnel_drill.Tunnel.Close.Effect.{open_count}
use tunnel_drill.Tunnel.Link.{connect_tunnels, link}
use tunnel_drill.Tunnel.Peek.{
  PublisherToken, publisher_to_broker_prefix, Read, received, modify, buffer_of, on_peek,
}
use tunnel_drill.Tunnel.Peek.Authentic.{Linking, IsAuthentic, on_peek-IsAuthentic}
use tunnel_drill.Tunnel.Peek.Modify.{ClosesSession}
use tunnel_drill.Tunnel.Peek.Refused.{control_gone, on_peek-refused}

abbrev token : PublisherToken
token = record { identity = "pub"; claims = object (member "tunnelId" (string "c") end) }

abbrev accept_all : List ℕ → Option PublisherToken
accept_all text = some token

-- The publisher's first bytes: the prefix, a colon and a token of one byte.
abbrev from_publisher : Read
from_publisher = record {
  error = false;
  bytes = publisher_to_broker_prefix ++ (58 ∷ 120 ∷ []);
  control = some "pub";
}

abbrev zeros : List ℕ
zeros = 0 ∷ 0 ∷ 0 ∷ 0 ∷ 0 ∷ 0 ∷ 0 ∷ 0 ∷ 0 ∷ 0 ∷ 0 ∷ 0 ∷ 0 ∷ 0 ∷ 0 ∷ 0 ∷ 0 ∷ 0 ∷ 0 ∷ 0 ∷ []

abbrev from_client : Read
from_client = record { error = false; bytes = 71 ∷ 69 ∷ []; control = some "pub" }

-- The publisher's session waits for its first bytes.
abbrev waits : Service
waits = put "p" (record blank { peek_buffer = zeros }) unjoined

joins : Linking (on_peek accept_all 3 "p" from_publisher waits)
unfolding on_peek connect_tunnels link close_pipe lookup insert
joins = refl

on_peek-IsAuthentic_example :
    IsAuthentic accept_all from_publisher
      (buffer_of (session "p" (modify (received from_publisher.bytes) "p" waits)))
unfolding lookup insert
on_peek-IsAuthentic_example = on_peek-IsAuthentic accept_all 3 "p" from_publisher waits joins

on_peek-refused_example :
    ClosesSession "p" (on_peek accept_all 2 "p" (record from_client { control = none }) left_behind)
unfolding open_count lookup
on_peek-refused_example =
    on_peek-refused accept_all 2 "p" (record from_client { control = none }) blank left_behind
      (omega arith) refl refl (control_gone refl)
