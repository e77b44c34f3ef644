-- ===== src/Router/Tests.antt =====
-- A packet of 3 bytes through lib/cpx/src/cpx.c.
use aideck_gap8_examples.Base.{
  ℕ, ◌+◌, ◌≡◌, refl, true, some, List, [], ◌∷◌, ◌++◌, take, replicate, ok, exit, arith,
}
use aideck_gap8_examples.Com.{packet_length}
use aideck_gap8_examples.Router.{Packet, Queues, queues_overrun, send_packet, rx_round}
use aideck_gap8_examples.Router.RoundTrip.{rx_round-queues_overrun, send_packet-rx_round}

abbrev message : Packet
message = record {
  route = record { destination = 3; source = 4; last_packet = true; function = 5; version = 0 };
  data_length = 3;
  payload = 7 ∷ 8 ∷ 9 ∷ replicate 1017 0;
}

abbrev queues : Queues
queues = replicate 16 100

abbrev buffer : List ℕ
buffer = replicate 1024 1

send_packet-rx_round_example :
    (image : List ℕ) × (q : Packet) × (send_packet buffer message ≡ ok image)
    × (packet_length image ≡ 5)
    × (rx_round queues message (take (2 + packet_length image) image ++ 6 ∷ []) ≡ ok (q, some 100))
    × (q.route ≡ message.route)
    × (q.data_length ≡ 3)
    × (take q.data_length q.payload ≡ take 3 message.payload)
send_packet-rx_round_example =
    send_packet-rx_round buffer (6 ∷ []) queues message message
      (record {
        destination_fits = omega arith;
        source_fits = omega arith;
        function_fits = omega arith;
        current = refl;
        short = omega arith;
        whole = omega arith;
      })
      (omega arith)

-- The same for a function that nobody has.
abbrev unknown : Packet
unknown = record message { route = record message.route { function = 40 } }

rx_round-queues_overrun_example :
    (image : List ℕ) × (send_packet buffer unknown ≡ ok image)
    × (rx_round queues message (take (2 + packet_length image) image ++ []) ≡ exit queues_overrun)
rx_round-queues_overrun_example =
    rx_round-queues_overrun buffer [] queues unknown message
      (record {
        destination_fits = omega arith;
        source_fits = omega arith;
        function_fits = omega arith;
        current = refl;
        short = omega arith;
        whole = omega arith;
      })
      (omega arith)
