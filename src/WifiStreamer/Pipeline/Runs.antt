-- ===== src/WifiStreamer/Pipeline/Runs.antt =====
-- The runs of examples/other/wifi-img-streamer/camera_pipeline.c, and what holds in every state
-- that they reach.
use aideck_gap8_examples.Base.{
  occurrences, ℕ, ◌≤◌, ◌≡◌, ◌⊎◌, inl, inr, sym, subst, true, false, List, [], ◌∷◌, ◌++◌, length,
  if◌then◌else◌, arith,
}
use aideck_gap8_examples.WifiStreamer.Pipeline.{
  Mode, start_stop, pipelined, outside, in_frame, starting, first_wait, end_wait, discard_wait,
  Pipeline, initial, outstanding_captures, Event, begins, starts, ends, disconnects, woken,
  captured, ticked, step,
}
use aideck_gap8_examples.WifiStreamer.Pipeline.Inv.{
  Shape, stopped, single_frame, single_start, first_start, single_wait, single_ready, first_frame,
  first_ready, streaming, next_wait, next_ready, discarding_two, discarding_one, discarded,
  initial-Shape,
}
use aideck_gap8_examples.WifiStreamer.Pipeline.Steps.{
  captured-Shape, ticked-Shape, begins-Shape, starts-Shape, ends-Shape, disconnects-Shape,
  woken-Shape,
}

-- When an event can happen: the application calls the functions in the order of its main loop, a
-- wait returns when the bit is set, and a running camera completes captures.
pub data Enabled (s : Pipeline) : Event → Type 0 where
  can_begin : s.point ≡ outside → Enabled s begins
  can_start : s.point ≡ starting → Enabled s starts
  can_end : s.point ≡ in_frame → Enabled s ends
  can_disconnect : s.point ≡ outside → Enabled s disconnects
  can_wake : s.done_bit ≡ true → Enabled s woken
  can_capture : s.running ≡ true → Enabled s captured
  can_tick : Enabled s ticked

-- The states that a run reaches.
pub data Reach (mode : Mode) : Pipeline → Type 0 where
  at_start : (ticks : ℕ) → Reach mode (initial ticks)
  then_step :
      {s u : Pipeline} (e : Event) → Reach mode s → Enabled s e → u ≡ step mode s e → Reach mode u

step-Shape :
    (mode : Mode) (s : Pipeline) (e : Event)
    → Enabled s e
    → Shape mode s
    → Shape mode (step mode s e)
unfolding step
step-Shape mode s begins (can_begin o) shape = begins-Shape mode s o shape
step-Shape mode s starts (can_start o) shape = starts-Shape mode s o shape
step-Shape mode s ends (can_end o) shape = ends-Shape mode s o shape
step-Shape mode s disconnects (can_disconnect o) shape = disconnects-Shape mode s o shape
step-Shape mode s woken (can_wake o) shape = woken-Shape mode s o shape
step-Shape mode s captured (can_capture on) shape = captured-Shape mode s on shape
step-Shape mode s ticked can_tick shape = ticked-Shape mode s shape

pub reach-Shape : {mode : Mode} {s : Pipeline} → Reach mode s → Shape mode s
reach-Shape {mode} (at_start ticks) = initial-Shape mode ticks
reach-Shape {mode} (then_step {s} e reach enabled q) =
    subst (Shape mode) (sym q) (step-Shape mode s e enabled (reach-Shape reach))

-- The buffers that the application has, or has been given.
unfoldable pub held : Pipeline → List ℕ
held s = elim s.point [
  | outside ↦ if s.camera_streaming then s.processing_buffer ∷ [] else []
  | in_frame ↦ s.processing_buffer ∷ []
  | starting ↦ []
  | first_wait ↦ if s.done_bit then s.ready_buffer ∷ [] else []
  | end_wait ↦ s.processing_buffer ∷ (if s.done_bit then s.ready_buffer ∷ [] else [])
  | discard_wait ↦ []
]

-- CAPTURE_BUFFER_COUNT
unfoldable pub buffer_count : Mode → ℕ
buffer_count start_stop = 1
buffer_count pipelined = 3

shape_once :
    (mode : Mode) (s : Pipeline) (i : ℕ) → Shape mode s → occurrences i (held s ++ s.queued) ≤ 1
unfolding occurrences held
shape_once mode s i (stopped p q f c) = ground arith
shape_once mode s i (single_frame m p q f c) = ground arith
shape_once mode s i (single_wait m p q f c) = ground arith
shape_once mode s i (single_start m p q f c) = ground arith
shape_once mode s i (first_start m p q f c) = ground arith
shape_once mode s i (single_ready m p q r f c) = ground arith
shape_once mode s i (first_frame m p q f c) = ground arith
shape_once mode s i (first_ready m p q r f c) = ground arith
shape_once mode s i (streaming m p a b q d f c) = ground arith
shape_once mode s i (next_wait m p a b q d f c) = ground arith
shape_once mode s i (next_ready m p a q d f c) = ground arith
shape_once mode s i (discarding_two m p a b q d f c) = ground arith
shape_once mode s i (discarding_one m p a q f c) = ground arith
shape_once mode s i (discarded m p q f c) = ground arith

shape_counted :
    (mode : Mode) (s : Pipeline)
    → Shape mode s
    → (outstanding_captures s ≡ length s.queued) × (length (held s ++ s.queued) ≤ buffer_count mode)
unfolding outstanding_captures held buffer_count
shape_counted mode s (stopped p q f c) = (ground arith, ground arith)
shape_counted mode s (single_frame m p q f c) = (ground arith, ground arith)
shape_counted mode s (single_wait m p q f c) = (ground arith, ground arith)
shape_counted mode s (single_start m p q f c) = (ground arith, ground arith)
shape_counted mode s (first_start m p q f c) = (ground arith, ground arith)
shape_counted mode s (single_ready m p q r f c) = (ground arith, ground arith)
shape_counted mode s (first_frame m p q f c) = (ground arith, ground arith)
shape_counted mode s (first_ready m p q r f c) = (ground arith, ground arith)
shape_counted mode s (streaming m p a b q d f c) = (ground arith, ground arith)
shape_counted mode s (next_wait m p a b q d f c) = (ground arith, ground arith)
shape_counted mode s (next_ready m p a q d f c) = (ground arith, ground arith)
shape_counted mode s (discarding_two m p a b q d f c) = (ground arith, ground arith)
shape_counted mode s (discarding_one m p a q f c) = (ground arith, ground arith)
shape_counted mode s (discarded m p q f c) = (ground arith, ground arith)

shape_stopped :
    (mode : Mode) (s : Pipeline)
    → s.running ≡ false
    → Shape mode s
    → (s.queued ≡ []) ⊎ (s.point ≡ starting)
shape_stopped mode s h (stopped p q f c) = inl (ground arith)
shape_stopped mode s h (single_frame m p q f c) = inl (ground arith)
shape_stopped mode s h (single_start m p q f c) = inr p
shape_stopped mode s h (first_start m p q f c) = inr p
shape_stopped mode s h (single_wait m p q f c) = inl (ground arith)
shape_stopped mode s h (single_ready m p q r f c) = inl (ground arith)
shape_stopped mode s h (first_frame m p q f c) = inl (ground arith)
shape_stopped mode s h (first_ready m p q r f c) = inl (ground arith)
shape_stopped mode s h (streaming m p a b q d f c) = inl (ground arith)
shape_stopped mode s h (next_wait m p a b q d f c) = inl (ground arith)
shape_stopped mode s h (next_ready m p a q d f c) = inl (ground arith)
shape_stopped mode s h (discarding_two m p a b q d f c) = inl (ground arith)
shape_stopped mode s h (discarding_one m p a q f c) = inl (ground arith)
shape_stopped mode s h (discarded m p q f c) = inl (ground arith)

-- At every moment of a run, a buffer that the application has is not one that the camera fills, and
-- no buffer is queued twice.
pub buffers_exclusive :
    {mode : Mode} {s : Pipeline} (i : ℕ) → Reach mode s → occurrences i (held s ++ s.queued) ≤ 1
buffers_exclusive {mode} {s} i reach = shape_once mode s i (reach-Shape reach)

-- At every moment of a run, outstanding_captures is the number of captures that the driver has
-- queued, and these and the buffers of the application are no more than there are buffers.
pub captures_counted :
    {mode : Mode} {s : Pipeline}
    → Reach mode s
    → (outstanding_captures s ≡ length s.queued) × (length (held s ++ s.queued) ≤ buffer_count mode)
captures_counted {mode} {s} reach = shape_counted mode s (reach-Shape reach)

-- When the camera is stopped in a run, no capture is queued, except within
-- `camera_pipeline_begin_frame`, which queues captures before it starts the camera.
pub stopped_idle :
    {mode : Mode} {s : Pipeline}
    → Reach mode s
    → s.running ≡ false
    → (s.queued ≡ []) ⊎ (s.point ≡ starting)
stopped_idle {mode} {s} reach still = shape_stopped mode s still (reach-Shape reach)
