-- ===== src/Streamer/Tests.antt =====
-- A frame of 8 bytes through nanocockpit/lib/streamer.c.
use aideck_gap8_examples.Base.{◌%◌, ◌≡◌, refl, inr, true, List, [], replicate, ok, arith}
use aideck_gap8_examples.Crc32.{statics, crc_by_bit, shift_bits, shift_bit}
use aideck_gap8_examples.Streamer.Send.{Sender, Sent, send_loop}
use aideck_gap8_examples.Streamer.Receive.{Buffer, Streamer}
use aideck_gap8_examples.Streamer.Progress.{Job, Finished}
use aideck_gap8_examples.Streamer.RoundTrip.{deliver, round_trip}

-- The bytes 0 to 7 with their checksum.
abbrev job : Job
job = record {
  check = true;
  memory = λ a. a % 256;
  at = 1024;
  frame_size = 8;
  checksum = 0x88AA689F;
  id = 64;
  task = 128;
  pushed = [];
}

abbrev sender : Sender
sender = record {
  packet = replicate 12 0;
  cpx_req = record {
    payload_capacity = 12;
    payload = 4096;
    req = record {
      header_at = 4088;
      header_length = 12;
      payload_head = 4096;
      payload_tail = 0;
      head_length = 12;
      tail_length = 0;
    };
  };
}

abbrev buffer : Buffer
buffer = record {
  storage = replicate 16 7;
  storage_capacity = 16;
  type = 0;
  size = 0;
  received_size = 0;
  checksum = 0;
  done_task = 128;
}

abbrev receiver : Streamer
receiver = record { buffer_rx = 64; buffers = λ _. buffer; crc = statics; pushed = [] }

round_trip_example :
    (s' : Sender) × (sent : List Sent) × (t' : Streamer) × (send_loop
        (λ a. a % 256)
        8
        0x88AA689F
        8
        sender
        1024
        8
      ≡ ok (s', sent))
    × (deliver true receiver sent ≡ ok t')
    × Finished job t'
unfolding crc_by_bit shift_bits shift_bit
round_trip_example =
    round_trip job sender receiver
      (record {
        id_set = omega arith;
        words = refl;
        not_empty = omega arith;
        small = omega arith;
        are_bytes = omega arith;
        right_sum = inr refl;
      })
      (record {
        payload_aligned = refl;
        capacity = refl;
        packet_length = refl;
        request = record {
          head_aligned = refl;
          tail_aligned = refl;
          head_words = refl;
          tail_words = refl;
          whole = refl;
          fits = omega arith;
        };
      })
      refl (omega arith)
      (record { waits = refl; task_set = refl; pushed_before = refl; crc_ready = inr (refl, refl) })
      (omega arith) (omega arith)
