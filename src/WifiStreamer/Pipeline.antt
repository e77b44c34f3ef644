-- ===== src/WifiStreamer/Pipeline.antt =====
-- examples/other/wifi-img-streamer/camera_pipeline.c: capturing camera frames with one buffer, or
-- with three of which the camera fills two while the application uses the third. The driver
-- completes captures in the order in which they were queued, and FreeRTOS's event group has one
-- bit here; they are part of the state.
pub mod Inv
pub mod Steps
pub mod Runs
pub mod Returns
use aideck_gap8_examples.Base.{
  ℕ, zero, suc, ◌+◌, ◌-◌, ◌%◌, ◌^◌, ◌≡◌, Bool, true, false, List, [], ◌∷◌, ◌++◌, ◌==◌,
  if◌then◌else◌,
}

-- CAPTURE_MODE
pub data Mode : Type 0 where
  start_stop pipelined : Mode

-- Where the application is: outside of a frame, in one, in `camera_pipeline_begin_frame` before it
-- starts the camera, or in a call that waits for the bit.
pub data Point : Type 0 where
  outside in_frame starting first_wait end_wait discard_wait : Point

-- The static variables, with the captures that the driver has queued, whether the camera runs,
-- CAPTURE_DONE_BIT and the tick count.
pub record Pipeline : Type 0 where
  pub queued : List ℕ
  pub running : Bool
  pub done_bit : Bool
  pub ticks : ℕ
  pub point : Point
  pub capture_queued_at : ℕ → ℕ
  pub queue_latency : ℕ
  pub dropped_frames : ℕ
  pub ready_buffer : ℕ
  pub processing_buffer : ℕ
  pub consumer_waiting : Bool
  pub camera_streaming : Bool
  pub captures_queued : ℕ
  pub captures_completed : ℕ
  pub discarding_captures : Bool

-- The static variables before the first call.
abbrev pub initial : ℕ → Pipeline
initial ticks = record {
  queued = [];
  running = false;
  done_bit = false;
  ticks = ticks;
  point = outside;
  capture_queued_at = λ _. 0;
  queue_latency = 0;
  dropped_frames = 0;
  ready_buffer = 0;
  processing_buffer = 0;
  consumer_waiting = false;
  camera_streaming = false;
  captures_queued = 0;
  captures_completed = 0;
  discarding_captures = false;
}

abbrev pub increment : ℕ → ℕ
increment n = (n + 1) % 2 ^ 32

-- `outstanding_captures`
unfoldable pub outstanding_captures : Pipeline → ℕ
outstanding_captures s = (s.captures_queued + 2 ^ 32 - s.captures_completed) % 2 ^ 32

-- `queue_capture`
unfoldable pub queue_capture : Pipeline → ℕ → Pipeline
queue_capture s buffer_index = record s {
  capture_queued_at = λ i. if i == buffer_index then s.ticks else s.capture_queued_at i;
  queued = s.queued ++ buffer_index ∷ [];
}

-- `schedule_capture`
unfoldable pub schedule_capture : Pipeline → ℕ → Pipeline
unfolding queue_capture
schedule_capture s buffer_index =
    queue_capture (record s { captures_queued = increment s.captures_queued }) buffer_index

-- `capture_done`
unfoldable pub capture_done : Pipeline → ℕ → Pipeline
unfolding outstanding_captures queue_capture
capture_done s buffer_index =
    let completed = record s { captures_completed = increment s.captures_completed } in
    if s.discarding_captures
    then (if outstanding_captures completed == 0
        then record completed { done_bit = true }
        else completed)
    else if s.consumer_waiting
    then record completed {
      queue_latency = (s.ticks + 2 ^ 32 - s.capture_queued_at buffer_index) % 2 ^ 32;
      ready_buffer = buffer_index;
      consumer_waiting = false;
      done_bit = true;
    }
    else queue_capture (record s { dropped_frames = increment s.dropped_frames }) buffer_index

-- The driver completes the oldest capture.
unfoldable pub driver_done : Pipeline → Pipeline
unfolding capture_done
driver_done s = elim s.queued [
  | [] ↦ s
  | buffer_index ∷ rest ↦ capture_done (record s { queued = rest }) buffer_index
]

-- `camera_pipeline_begin_frame`, up to PI_CAMERA_CMD_START or to its end.
unfoldable pub begin_frame : Mode → Pipeline → Pipeline
unfolding schedule_capture
begin_frame start_stop s =
    let scheduled = schedule_capture (record s { consumer_waiting = true }) s.processing_buffer in
    record scheduled { point = starting }
begin_frame pipelined s =
    let first = schedule_capture (record s { consumer_waiting = true }) 1 in
    let second = schedule_capture first 2 in
    if s.camera_streaming then record s { point = in_frame } else record second { point = starting }

-- PI_CAMERA_CMD_START in it, up to its wait.
unfoldable pub start_camera : Pipeline → Pipeline
start_camera s = record s { running = true; point = first_wait }

-- `camera_pipeline_begin_frame` after its wait.
unfoldable pub begin_woken : Mode → Pipeline → Pipeline
unfolding schedule_capture
begin_woken start_stop s = record s {
  running = false;
  processing_buffer = s.ready_buffer;
  point = in_frame;
}
begin_woken pipelined s =
    let scheduled = schedule_capture (record s { processing_buffer = s.ready_buffer }) 0 in
    record scheduled { camera_streaming = true; point = in_frame }

-- `camera_pipeline_end_frame`, up to its wait or to its end.
unfoldable pub end_frame : Mode → Pipeline → Pipeline
end_frame start_stop s = record s { point = outside }
end_frame pipelined s = record s { consumer_waiting = true; point = end_wait }

-- `camera_pipeline_end_frame` after its wait.
unfoldable pub end_woken : Pipeline → Pipeline
unfolding schedule_capture
end_woken s =
    let scheduled = schedule_capture s s.processing_buffer in
    record scheduled { processing_buffer = s.ready_buffer; point = outside }

-- `camera_pipeline_disconnect`, up to its wait or to its end.
unfoldable pub disconnect : Mode → Pipeline → Pipeline
disconnect start_stop s = s
disconnect pipelined s =
    if s.camera_streaming
    then record s { done_bit = false; discarding_captures = true; point = discard_wait }
    else s

-- `camera_pipeline_disconnect` after its wait.
unfoldable pub disconnect_woken : Pipeline → Pipeline
disconnect_woken s = record s {
  done_bit = false;
  camera_streaming = false;
  consumer_waiting = false;
  discarding_captures = false;
  running = false;
  point = outside;
}

-- What happens: the calls of the application, the start of the camera, a wait that returns, a
-- capture that is done, and the passing of time.
pub data Event : Type 0 where
  begins starts ends disconnects woken captured ticked : Event

-- The wait clears the bit.
abbrev pub cleared : Pipeline → Pipeline
cleared s = record s { done_bit = false }

unfoldable pub wake : Mode → Pipeline → Pipeline
unfolding begin_woken end_woken disconnect_woken
wake mode s = elim s.point [
  | outside ↦ s
  | in_frame ↦ s
  | starting ↦ s
  | first_wait ↦ begin_woken mode (cleared s)
  | end_wait ↦ end_woken (cleared s)
  | discard_wait ↦ disconnect_woken (cleared s)
]

unfoldable pub step : Mode → Pipeline → Event → Pipeline
unfolding begin_frame start_camera end_frame disconnect wake driver_done
step mode s begins = begin_frame mode s
step mode s starts = start_camera s
step mode s ends = end_frame mode s
step mode s disconnects = disconnect mode s
step mode s woken = wake mode s
step mode s captured = driver_done s
step mode s ticked = record s { ticks = increment s.ticks }
