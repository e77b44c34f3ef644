-- ===== src/Spi/Tests.antt =====
-- Packets of nanocockpit/lib/cpx/cpx_spi.c on concrete lengths.
use aideck_gap8_examples.Base.{
  ◌%◌, ◌*◌, ◌≤◌, ◌<◌, ◌≡◌, ◌⊎◌, refl, max, true, some, ◌++◌, ok, exit, arith,
}
use aideck_gap8_examples.Spi.{
  SendReq, ReceiveReq, header_size, send_req_init, set_tail, max_tail_length, exchange, Phase,
  started, keep, packet_too_long,
}
use aideck_gap8_examples.Spi.Bounds.{IsValid, send_req_init-IsValid, set_tail-max_tail_length}
use aideck_gap8_examples.Spi.Phases.{transfers, round_up, payload_length}
use aideck_gap8_examples.Spi.Wire.{
  exchange_lem, OneFrame, moved, WritesInside, sent_from, received_at,
}

abbrev request : SendReq
request = record {
  header_at = 64;
  header_length = 20;
  payload_head = 128;
  payload_tail = 256;
  head_length = 12;
  tail_length = 8;
}

abbrev receiver : ReceiveReq
receiver = record { header_at = 32; header_length = 0; buffer = 8192; buffer_size = 4088 }

send_req_init-IsValid_example : IsValid request
unfolding send_req_init
send_req_init-IsValid_example = send_req_init-IsValid 64 128 12 256 8 refl

set_tail-max_tail_length_example :
    (max_tail_length request % 4 ≡ 0)
    × (((8 ≤ max_tail_length request)
          × (set_tail request 512 8
              ≡ ok (record request { header_length = 20; payload_tail = 512; tail_length = 8 })))
        ⊎ ((max_tail_length request < 8) × (set_tail request 512 8 ≡ exit packet_too_long)))
set_tail-max_tail_length_example =
    set_tail-max_tail_length request 512 8 send_req_init-IsValid_example refl refl

-- The other side announces 5000 bytes, more than the buffer holds. Byte 14 is the third of the tail.
exchange_lem_example :
    (header : Phase) × (head : Phase) × (tail : Phase) × (exchange true 5000 16
        (some request)
        (some receiver)
      ≡ ok (header, head, tail))
    × OneFrame (transfers header ++ (transfers head ++ transfers tail))
    × (moved (transfers head ++ transfers tail)
        ≡ max header_size (round_up (payload_length true 5000 (some request))))
    × WritesInside receiver (transfers head ++ transfers tail)
    × (header ≡ started (record { tx = 64; rx = 32; bits = header_size * 8; cs = keep }))
    × ((20 ≤ 14) ⊎ (sent_from (transfers head ++ transfers tail) 14 ≡ some 258))
    × ((payload_length true 5000 (some request) ≤ 14)
        ⊎ (received_at (transfers head ++ transfers tail) 14 ≡ some 8206))
exchange_lem_example =
    exchange_lem true 5000 16 14 (some request) receiver refl (send_req_init-IsValid_example, refl)
      (omega arith)
