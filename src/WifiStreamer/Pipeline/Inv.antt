-- ===== src/WifiStreamer/Pipeline/Inv.antt =====
-- Who has the buffers of examples/other/wifi-img-streamer/camera_pipeline.c.
use aideck_gap8_examples.Base.{
  ℕ, ◌+◌, ◌%◌, ◌^◌, ◌<◌, ◌≡◌, ◌≢◌, refl, ◌⊎◌, Bool, true, false, [], ◌∷◌, arith,
}
use aideck_gap8_examples.WifiStreamer.Pipeline.{
  Mode, start_stop, pipelined, outside, in_frame, starting, first_wait, end_wait, discard_wait,
  Pipeline, initial,
}

-- Three buffers, each of its own.
pub record Apart (a b c : ℕ) : Type 0 where
  pub a_b : a ≢ b
  pub a_c : a ≢ c
  pub b_c : b ≢ c
  pub a_in : a < 3
  pub b_in : b < 3
  pub c_in : c < 3

-- The flags.
pub record Flags (s : Pipeline) (running waiting streaming discarding done : Bool) : Type 0 where
  pub running_is : s.running ≡ running
  pub waiting_is : s.consumer_waiting ≡ waiting
  pub streaming_is : s.camera_streaming ≡ streaming
  pub discarding_is : s.discarding_captures ≡ discarding
  pub done_is : s.done_bit ≡ done

-- The counters tell how many captures are queued.
pub record Counted (s : Pipeline) (n : ℕ) : Type 0 where
  pub queued_in : s.captures_queued < 2 ^ 32
  pub completed_in : s.captures_completed < 2 ^ 32
  pub outstanding : (s.captures_completed + n) % 2 ^ 32 ≡ s.captures_queued

-- The situations between two events.
pub data Shape : Mode → Pipeline → Type 0 where
  stopped :
      {mode : Mode} {s : Pipeline}
      → s.point ≡ outside
      → s.queued ≡ []
      → Flags s false false false false false
      → Counted s 0
      → Shape mode s
  single_frame :
      {mode : Mode} {s : Pipeline}
      → mode ≡ start_stop
      → s.point ≡ in_frame
      → s.queued ≡ []
      → Flags s false false false false false
      → Counted s 0
      → Shape mode s
  single_start :
      {mode : Mode} {s : Pipeline}
      → mode ≡ start_stop
      → s.point ≡ starting
      → s.queued ≡ s.processing_buffer ∷ []
      → Flags s false true false false false
      → Counted s 1
      → Shape mode s
  first_start :
      {mode : Mode} {s : Pipeline}
      → mode ≡ pipelined
      → s.point ≡ starting
      → s.queued ≡ 1 ∷ 2 ∷ []
      → Flags s false true false false false
      → Counted s 2
      → Shape mode s
  single_wait :
      {mode : Mode} {s : Pipeline}
      → mode ≡ start_stop
      → s.point ≡ first_wait
      → s.queued ≡ s.processing_buffer ∷ []
      → Flags s true true false false false
      → Counted s 1
      → Shape mode s
  single_ready :
      {mode : Mode} {s : Pipeline}
      → mode ≡ start_stop
      → s.point ≡ first_wait
      → s.queued ≡ []
      → s.ready_buffer ≡ s.processing_buffer
      → Flags s true false false false true
      → Counted s 0
      → Shape mode s
  first_frame :
      {mode : Mode} {s : Pipeline}
      → mode ≡ pipelined
      → s.point ≡ first_wait
      → s.queued ≡ 1 ∷ 2 ∷ []
      → Flags s true true false false false
      → Counted s 2
      → Shape mode s
  first_ready :
      {mode : Mode} {s : Pipeline}
      → mode ≡ pipelined
      → s.point ≡ first_wait
      → s.queued ≡ 2 ∷ []
      → s.ready_buffer ≡ 1
      → Flags s true false false false true
      → Counted s 1
      → Shape mode s
  streaming :
      {mode : Mode} {s : Pipeline}
      → mode ≡ pipelined
      → (s.point ≡ outside) ⊎ (s.point ≡ in_frame)
      → (a b : ℕ) → s.queued ≡ a ∷ b ∷ []
      → Apart s.processing_buffer a b
      → Flags s true false true false false
      → Counted s 2
      → Shape mode s
  next_wait :
      {mode : Mode} {s : Pipeline}
      → mode ≡ pipelined
      → s.point ≡ end_wait
      → (a b : ℕ) → s.queued ≡ a ∷ b ∷ []
      → Apart s.processing_buffer a b
      → Flags s true true true false false
      → Counted s 2
      → Shape mode s
  next_ready :
      {mode : Mode} {s : Pipeline}
      → mode ≡ pipelined
      → s.point ≡ end_wait
      → (a : ℕ) → s.queued ≡ a ∷ []
      → Apart s.processing_buffer s.ready_buffer a
      → Flags s true false true false true
      → Counted s 1
      → Shape mode s
  discarding_two :
      {mode : Mode} {s : Pipeline}
      → mode ≡ pipelined
      → s.point ≡ discard_wait
      → (a b : ℕ) → s.queued ≡ a ∷ b ∷ []
      → Apart s.processing_buffer a b
      → Flags s true false true true false
      → Counted s 2
      → Shape mode s
  discarding_one :
      {mode : Mode} {s : Pipeline}
      → mode ≡ pipelined
      → s.point ≡ discard_wait
      → (a : ℕ) → s.queued ≡ a ∷ []
      → Flags s true false true true false
      → Counted s 1
      → Shape mode s
  discarded :
      {mode : Mode} {s : Pipeline}
      → mode ≡ pipelined
      → s.point ≡ discard_wait
      → s.queued ≡ []
      → Flags s true false true true true
      → Counted s 0
      → Shape mode s

pub initial-Shape : (mode : Mode) (ticks : ℕ) → Shape mode (initial ticks)
initial-Shape mode ticks =
    stopped refl refl
      (record {
        running_is = refl;
        waiting_is = refl;
        streaming_is = refl;
        discarding_is = refl;
        done_is = refl;
      })
      (record { queued_in = omega arith; completed_in = omega arith; outstanding = refl })
