-- ===== src/WifiStreamer/Pipeline/Steps.antt =====
-- Each event of camera_pipeline.c leads from one of its situations to another.
use aideck_gap8_examples.Base.{◌≡◌, refl, true, arith}
use aideck_gap8_examples.WifiStreamer.Pipeline.{
  Mode, start_stop, pipelined, outside, in_frame, starting, Pipeline, increment,
  outstanding_captures, begin_frame, start_camera, end_frame, disconnect, wake, driver_done,
  queue_capture, schedule_capture, capture_done, begin_woken, end_woken, disconnect_woken,
}
use aideck_gap8_examples.WifiStreamer.Pipeline.Inv.{
  Shape, stopped, single_frame, single_start, first_start, single_wait, single_ready, first_frame,
  first_ready, streaming, next_wait, next_ready, discarding_two, discarding_one, discarded,
}

pub captured-Shape :
    (mode : Mode) (s : Pipeline) → s.running ≡ true → Shape mode s → Shape mode (driver_done s)
unfolding driver_done capture_done outstanding_captures queue_capture
captured-Shape mode s on (stopped p q f c) =
    stopped (ground arith) (ground arith) (ground arith) (ground arith)
captured-Shape mode s on (single_frame m p q f c) =
    single_frame m (ground arith) (ground arith) (ground arith) (ground arith)
captured-Shape mode s on (single_start m p q f c) = ground arith
captured-Shape mode s on (first_start m p q f c) = ground arith
captured-Shape mode s on (single_wait m p q f c) =
    single_ready m (ground arith) (ground arith) (ground arith) (ground arith) (ground arith)
captured-Shape mode s on (single_ready m p q r f c) =
    single_ready m (ground arith) (ground arith) (ground arith) (ground arith) (ground arith)
captured-Shape mode s on (first_frame m p q f c) =
    first_ready m (ground arith) (ground arith) (ground arith) (ground arith) (ground arith)
captured-Shape mode s on (first_ready m p q r f c) =
    first_ready m (ground arith) (ground arith) (ground arith) (ground arith) (ground arith)
captured-Shape mode s on (streaming m p a b q d f c) =
    streaming m (ground arith) b a (ground arith) (ground arith) (ground arith) (ground arith)
captured-Shape mode s on (next_wait m p a b q d f c) =
    next_ready m (ground arith) b (ground arith) (ground arith) (ground arith) (ground arith)
captured-Shape mode s on (next_ready m p a q d f c) =
    next_ready m (ground arith) a (ground arith) (ground arith) (ground arith) (ground arith)
captured-Shape mode s on (discarding_two m p a b q d f c) =
    discarding_one m (ground arith) b (ground arith) (ground arith) (ground arith)
captured-Shape mode s on (discarding_one m p a q f c) =
    discarded m (ground arith) (ground arith) (ground arith) (ground arith)
captured-Shape mode s on (discarded m p q f c) =
    discarded m (ground arith) (ground arith) (ground arith) (ground arith)

pub ticked-Shape :
    (mode : Mode) (s : Pipeline)
    → Shape mode s
    → Shape mode (record s { ticks = increment s.ticks })
ticked-Shape mode s (stopped p q f c) =
    stopped (ground arith) (ground arith) (ground arith) (ground arith)
ticked-Shape mode s (single_frame m p q f c) =
    single_frame m (ground arith) (ground arith) (ground arith) (ground arith)
ticked-Shape mode s (single_start m p q f c) =
    single_start m (ground arith) (ground arith) (ground arith) (ground arith)
ticked-Shape mode s (first_start m p q f c) =
    first_start m (ground arith) (ground arith) (ground arith) (ground arith)
ticked-Shape mode s (single_wait m p q f c) =
    single_wait m (ground arith) (ground arith) (ground arith) (ground arith)
ticked-Shape mode s (single_ready m p q r f c) =
    single_ready m (ground arith) (ground arith) (ground arith) (ground arith) (ground arith)
ticked-Shape mode s (first_frame m p q f c) =
    first_frame m (ground arith) (ground arith) (ground arith) (ground arith)
ticked-Shape mode s (first_ready m p q r f c) =
    first_ready m (ground arith) (ground arith) (ground arith) (ground arith) (ground arith)
ticked-Shape mode s (streaming m p a b q d f c) =
    streaming m (ground arith) a b (ground arith) (ground arith) (ground arith) (ground arith)
ticked-Shape mode s (next_wait m p a b q d f c) =
    next_wait m (ground arith) a b (ground arith) (ground arith) (ground arith) (ground arith)
ticked-Shape mode s (next_ready m p a q d f c) =
    next_ready m (ground arith) a (ground arith) (ground arith) (ground arith) (ground arith)
ticked-Shape mode s (discarding_two m p a b q d f c) =
    discarding_two m (ground arith) a b (ground arith) (ground arith) (ground arith) (ground arith)
ticked-Shape mode s (discarding_one m p a q f c) =
    discarding_one m (ground arith) a (ground arith) (ground arith) (ground arith)
ticked-Shape mode s (discarded m p q f c) =
    discarded m (ground arith) (ground arith) (ground arith) (ground arith)

pub begins-Shape :
    (mode : Mode) (s : Pipeline)
    → s.point ≡ outside
    → Shape mode s
    → Shape mode (begin_frame mode s)
unfolding begin_frame schedule_capture queue_capture
begins-Shape start_stop s o (stopped p q f c) =
    single_start refl (ground arith) (ground arith) (ground arith) (ground arith)
begins-Shape pipelined s o (stopped p q f c) =
    first_start refl (ground arith) (ground arith) (ground arith) (ground arith)
begins-Shape start_stop s o (streaming m p a b q d f c) = ground arith
begins-Shape pipelined s o (streaming m p a b q d f c) =
    streaming refl (ground arith) a b (ground arith) (ground arith) (ground arith) (ground arith)
begins-Shape mode s o (single_frame m p q f c) = ground arith
begins-Shape mode s o (single_wait m p q f c) = ground arith
begins-Shape mode s o (single_start m p q f c) = ground arith
begins-Shape mode s o (first_start m p q f c) = ground arith
begins-Shape mode s o (single_ready m p q r f c) = ground arith
begins-Shape mode s o (first_frame m p q f c) = ground arith
begins-Shape mode s o (first_ready m p q r f c) = ground arith
begins-Shape mode s o (next_wait m p a b q d f c) = ground arith
begins-Shape mode s o (next_ready m p a q d f c) = ground arith
begins-Shape mode s o (discarding_two m p a b q d f c) = ground arith
begins-Shape mode s o (discarding_one m p a q f c) = ground arith
begins-Shape mode s o (discarded m p q f c) = ground arith

pub starts-Shape :
    (mode : Mode) (s : Pipeline) → s.point ≡ starting → Shape mode s → Shape mode (start_camera s)
unfolding start_camera
starts-Shape mode s o (stopped p q f c) = ground arith
starts-Shape mode s o (single_frame m p q f c) = ground arith
starts-Shape mode s o (single_start m p q f c) =
    single_wait m (ground arith) (ground arith) (ground arith) (ground arith)
starts-Shape mode s o (first_start m p q f c) =
    first_frame m (ground arith) (ground arith) (ground arith) (ground arith)
starts-Shape mode s o (single_wait m p q f c) = ground arith
starts-Shape mode s o (single_ready m p q r f c) = ground arith
starts-Shape mode s o (first_frame m p q f c) = ground arith
starts-Shape mode s o (first_ready m p q r f c) = ground arith
starts-Shape mode s o (streaming m p a b q d f c) = ground arith
starts-Shape mode s o (next_wait m p a b q d f c) = ground arith
starts-Shape mode s o (next_ready m p a q d f c) = ground arith
starts-Shape mode s o (discarding_two m p a b q d f c) = ground arith
starts-Shape mode s o (discarding_one m p a q f c) = ground arith
starts-Shape mode s o (discarded m p q f c) = ground arith

pub ends-Shape :
    (mode : Mode) (s : Pipeline) → s.point ≡ in_frame → Shape mode s → Shape mode (end_frame mode s)
unfolding end_frame
ends-Shape start_stop s o (single_frame m p q f c) =
    stopped (ground arith) (ground arith) (ground arith) (ground arith)
ends-Shape pipelined s o (single_frame m p q f c) = ground arith
ends-Shape start_stop s o (streaming m p a b q d f c) = ground arith
ends-Shape pipelined s o (streaming m p a b q d f c) =
    next_wait refl (ground arith) a b (ground arith) (ground arith) (ground arith) (ground arith)
ends-Shape mode s o (stopped p q f c) = ground arith
ends-Shape mode s o (single_wait m p q f c) = ground arith
ends-Shape mode s o (single_start m p q f c) = ground arith
ends-Shape mode s o (first_start m p q f c) = ground arith
ends-Shape mode s o (single_ready m p q r f c) = ground arith
ends-Shape mode s o (first_frame m p q f c) = ground arith
ends-Shape mode s o (first_ready m p q r f c) = ground arith
ends-Shape mode s o (next_wait m p a b q d f c) = ground arith
ends-Shape mode s o (next_ready m p a q d f c) = ground arith
ends-Shape mode s o (discarding_two m p a b q d f c) = ground arith
ends-Shape mode s o (discarding_one m p a q f c) = ground arith
ends-Shape mode s o (discarded m p q f c) = ground arith

pub disconnects-Shape :
    (mode : Mode) (s : Pipeline) → s.point ≡ outside → Shape mode s → Shape mode (disconnect mode s)
unfolding disconnect
disconnects-Shape start_stop s o shape = shape
disconnects-Shape pipelined s o (stopped p q f c) =
    stopped (ground arith) (ground arith) (ground arith) (ground arith)
disconnects-Shape pipelined s o (streaming m p a b q d f c) =
    discarding_two refl (ground arith) a b (ground arith) (ground arith) (ground arith)
      (ground arith)
disconnects-Shape pipelined s o (single_frame m p q f c) = ground arith
disconnects-Shape pipelined s o (single_wait m p q f c) = ground arith
disconnects-Shape pipelined s o (single_start m p q f c) = ground arith
disconnects-Shape pipelined s o (first_start m p q f c) = ground arith
disconnects-Shape pipelined s o (single_ready m p q r f c) = ground arith
disconnects-Shape pipelined s o (first_frame m p q f c) = ground arith
disconnects-Shape pipelined s o (first_ready m p q r f c) = ground arith
disconnects-Shape pipelined s o (next_wait m p a b q d f c) = ground arith
disconnects-Shape pipelined s o (next_ready m p a q d f c) = ground arith
disconnects-Shape pipelined s o (discarding_two m p a b q d f c) = ground arith
disconnects-Shape pipelined s o (discarding_one m p a q f c) = ground arith
disconnects-Shape pipelined s o (discarded m p q f c) = ground arith

pub woken-Shape :
    (mode : Mode) (s : Pipeline) → s.done_bit ≡ true → Shape mode s → Shape mode (wake mode s)
unfolding wake begin_woken end_woken disconnect_woken schedule_capture queue_capture
woken-Shape start_stop s o (single_ready m p q r f c) =
    single_frame refl (ground arith) (ground arith) (ground arith) (ground arith)
woken-Shape pipelined s o (single_ready m p q r f c) = ground arith
woken-Shape start_stop s o (first_ready m p q r f c) = ground arith
woken-Shape pipelined s o (first_ready m p q r f c) =
    streaming refl (ground arith) 2 0 (ground arith) (ground arith) (ground arith) (ground arith)
woken-Shape mode s o (next_ready m p a q d f c) =
    streaming m (ground arith) a s.processing_buffer (ground arith) (ground arith) (ground arith)
      (ground arith)
woken-Shape mode s o (discarded m p q f c) =
    stopped (ground arith) (ground arith) (ground arith) (ground arith)
woken-Shape mode s o (stopped p q f c) = ground arith
woken-Shape mode s o (single_frame m p q f c) = ground arith
woken-Shape mode s o (single_wait m p q f c) = ground arith
woken-Shape mode s o (single_start m p q f c) = ground arith
woken-Shape mode s o (first_start m p q f c) = ground arith
woken-Shape mode s o (first_frame m p q f c) = ground arith
woken-Shape mode s o (streaming m p a b q d f c) = ground arith
woken-Shape mode s o (next_wait m p a b q d f c) = ground arith
woken-Shape mode s o (discarding_two m p a b q d f c) = ground arith
woken-Shape mode s o (discarding_one m p a q f c) = ground arith
