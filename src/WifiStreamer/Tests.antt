-- ===== src/WifiStreamer/Tests.antt =====
-- Runs of examples/other/wifi-img-streamer on concrete inputs.
use aideck_gap8_examples.Base.{
  occurrences, false, ◌≡◌, ok, replicate, refl, ◌⊎◌, ◌≤◌, ◌++◌, ◌∷◌, [], length, arith,
}
use aideck_gap8_examples.WifiStreamer.CpxStream.{
  Link, raw_encoding, header_bytes, init, send_header, send_buffer,
}
use aideck_gap8_examples.WifiStreamer.CpxStream.Receive.{Carried}
use aideck_gap8_examples.WifiStreamer.App.{JpegParts, send_jpeg}
use aideck_gap8_examples.WifiStreamer.App.Jpeg.{send_jpeg_lem}
use aideck_gap8_examples.WifiStreamer.CpxStream.Frame.{frame-Carried}
use aideck_gap8_examples.WifiStreamer.Pipeline.{
  pipelined, outside, starting, Pipeline, initial, outstanding_captures, begins, starts, ends,
  disconnects, woken, captured, step, wake, begin_frame, start_camera, end_frame, disconnect,
  driver_done,
}
use aideck_gap8_examples.WifiStreamer.Pipeline.Runs.{
  Enabled, can_begin, can_start, can_end, can_disconnect, can_wake, can_capture, Reach, at_start,
  then_step, held, buffer_count, buffers_exclusive, captures_counted, stopped_idle,
}
use aideck_gap8_examples.WifiStreamer.Pipeline.Returns.{captures, waits, after, wait_returns}

-- The first frame has been sent and the application waits for the next.
abbrev begun : Pipeline
begun = step pipelined (step pipelined (initial 7) begins) starts

abbrev ready : Pipeline
ready = step pipelined begun captured

abbrev sending : Pipeline
sending = step pipelined ready woken

abbrev waiting : Pipeline
waiting = step pipelined sending ends

waiting-Reach : Reach pipelined waiting
unfolding step begin_frame start_camera end_frame wake driver_done
waiting-Reach =
    then_step ends
      (then_step woken
        (then_step captured
          (then_step starts (then_step begins (at_start 7) (can_begin refl) refl) (can_start refl)
            refl)
          (can_capture refl) refl)
        (can_wake refl) refl)
      (can_end refl) refl

-- The next frame has come, the application disconnects, and the captures that are queued end.
abbrev between : Pipeline
between = step pipelined (step pipelined waiting captured) woken

abbrev discarded_all : Pipeline
discarded_all =
    step pipelined (step pipelined (step pipelined between disconnects) captured) captured

abbrev idle : Pipeline
idle = step pipelined discarded_all woken

idle-Reach : Reach pipelined idle
unfolding step begin_frame start_camera end_frame disconnect wake driver_done
idle-Reach =
    then_step woken
      (then_step captured
        (then_step captured
          (then_step disconnects
            (then_step woken (then_step captured waiting-Reach (can_capture refl) refl)
              (can_wake refl) refl)
            (can_disconnect refl) refl)
          (can_capture refl) refl)
        (can_capture refl) refl)
      (can_wake refl) refl

buffers_exclusive_example : occurrences 1 (held waiting ++ waiting.queued) ≤ 1
buffers_exclusive_example = buffers_exclusive 1 waiting-Reach

captures_counted_example :
    (outstanding_captures waiting ≡ length waiting.queued)
    × (length (held waiting ++ waiting.queued) ≤ buffer_count pipelined)
captures_counted_example = captures_counted waiting-Reach

stopped_idle_example : (idle.queued ≡ []) ⊎ (idle.point ≡ starting)
unfolding step begin_frame start_camera end_frame disconnect wake driver_done
stopped_idle_example = stopped_idle idle-Reach refl

wait_returns_example :
    Reach pipelined (captures 3 waiting)
    × Enabled (captures 3 waiting) woken
    × ((wake pipelined (captures 3 waiting)).point ≡ outside)
unfolding waits after step begin_frame start_camera end_frame wake driver_done
wait_returns_example = wait_returns 1 waiting-Reach refl

-- A frame of 3 bytes, in one packet.
abbrev link : Link
link = record {
  packet = record {
    route = record { destination = 0; source = 0; last_packet = false; function = 0; version = 0 };
    data_length = 0;
    payload = replicate 1020 0;
  };
  tx = replicate 1024 0;
  sent = [];
}

frame-Carried_example :
    (l' l'' : Link) × (send_header 324 244 3 raw_encoding (init link) ≡ ok l')
    × (send_buffer 4 (7 ∷ 8 ∷ 9 ∷ []) 3 l' ≡ ok l'')
    × Carried (0xBC ∷ 68 ∷ 1 ∷ 244 ∷ 0 ∷ 1 ∷ 0 ∷ 3 ∷ 0 ∷ 0 ∷ 0 ∷ 7 ∷ 8 ∷ 9 ∷ []) (init link) l''
unfolding header_bytes
frame-Carried_example =
    frame-Carried (7 ∷ 8 ∷ 9 ∷ []) 324 244 3 raw_encoding link refl (omega arith) (omega arith)

abbrev jpeg : JpegParts
jpeg = record {
  header = 1 ∷ 2 ∷ 0 ∷ [];
  header_size = 2;
  body = 3 ∷ [];
  body_size = 1;
  footer = 4 ∷ [];
  footer_size = 1;
}

send_jpeg_lem_example :
    (l' : Link) × (send_jpeg 324 244 jpeg (init link) ≡ ok l')
    × Carried (0xBC ∷ 68 ∷ 1 ∷ 244 ∷ 0 ∷ 1 ∷ 1 ∷ 4 ∷ 0 ∷ 0 ∷ 0 ∷ 1 ∷ 2 ∷ 3 ∷ 4 ∷ []) (init link) l'
unfolding header_bytes
send_jpeg_lem_example =
    send_jpeg_lem 324 244 jpeg link refl (omega arith) (omega arith) (omega arith) (omega arith)
