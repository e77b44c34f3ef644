-- ===== src/WifiStreamer/Pipeline/Returns.antt =====
-- The waits of examples/other/wifi-img-streamer/camera_pipeline.c return.
use aideck_gap8_examples.Base.{ℕ, zero, suc, ◌≡◌, refl, ap, ◌∙◌, Bool, true, false, arith}
use aideck_gap8_examples.WifiStreamer.Pipeline.{
  Mode, start_stop, pipelined, Point, outside, in_frame, starting, first_wait, end_wait,
  discard_wait, Pipeline, outstanding_captures, woken, captured, step, wake, driver_done,
  begin_woken, end_woken, disconnect_woken, schedule_capture, queue_capture, capture_done,
}
use aideck_gap8_examples.WifiStreamer.Pipeline.Inv.{
  Shape, stopped, single_frame, single_start, first_start, single_wait, single_ready, first_frame,
  first_ready, streaming, next_wait, next_ready, discarding_two, discarding_one, discarded,
}
use aideck_gap8_examples.WifiStreamer.Pipeline.Steps.{captured-Shape}
use aideck_gap8_examples.WifiStreamer.Pipeline.Runs.{
  Enabled, can_wake, can_capture, Reach, then_step, reach-Shape,
}

-- `n` captures that are done.
unfoldable pub captures : ℕ → Pipeline → Pipeline
captures zero s = s
captures (suc n) s = captures n (driver_done s)

-- The points at which the application waits for the bit, and where it goes on from them.
unfoldable pub waits : Point → Bool
waits outside = false
waits in_frame = false
waits starting = false
waits first_wait = true
waits end_wait = true
waits discard_wait = true

unfoldable pub after : Point → Point
after outside = outside
after in_frame = in_frame
after starting = starting
after first_wait = in_frame
after end_wait = outside
after discard_wait = outside

driver_done-point : (s : Pipeline) → (driver_done s).point ≡ s.point
unfolding driver_done capture_done outstanding_captures queue_capture
driver_done-point s = ground arith

driver_done-running : (s : Pipeline) → (driver_done s).running ≡ s.running
unfolding driver_done capture_done outstanding_captures queue_capture
driver_done-running s = ground arith

wake-point : (mode : Mode) (s : Pipeline) → (wake mode s).point ≡ after s.point
unfolding wake begin_woken end_woken disconnect_woken schedule_capture queue_capture after
wake-point start_stop s = ground arith
wake-point pipelined s = ground arith

waits-running :
    (mode : Mode) (s : Pipeline) → waits s.point ≡ true → Shape mode s → s.running ≡ true
unfolding waits
waits-running mode s w (stopped p q f c) = ground arith
waits-running mode s w (single_frame m p q f c) = ground arith
waits-running mode s w (single_wait m p q f c) = ground arith
waits-running mode s w (single_start m p q f c) = ground arith
waits-running mode s w (first_start m p q f c) = ground arith
waits-running mode s w (single_ready m p q r f c) = ground arith
waits-running mode s w (first_frame m p q f c) = ground arith
waits-running mode s w (first_ready m p q r f c) = ground arith
waits-running mode s w (streaming m p a b q d f c) = ground arith
waits-running mode s w (next_wait m p a b q d f c) = ground arith
waits-running mode s w (next_ready m p a q d f c) = ground arith
waits-running mode s w (discarding_two m p a b q d f c) = ground arith
waits-running mode s w (discarding_one m p a q f c) = ground arith
waits-running mode s w (discarded m p q f c) = ground arith

driver_done-done_bit :
    (mode : Mode) (s : Pipeline)
    → s.done_bit ≡ true
    → Shape mode s
    → (driver_done s).done_bit ≡ true
unfolding driver_done capture_done outstanding_captures queue_capture
driver_done-done_bit mode s w (stopped p q f c) = ground arith
driver_done-done_bit mode s w (single_frame m p q f c) = ground arith
driver_done-done_bit mode s w (single_wait m p q f c) = ground arith
driver_done-done_bit mode s w (single_start m p q f c) = ground arith
driver_done-done_bit mode s w (first_start m p q f c) = ground arith
driver_done-done_bit mode s w (single_ready m p q r f c) = ground arith
driver_done-done_bit mode s w (first_frame m p q f c) = ground arith
driver_done-done_bit mode s w (first_ready m p q r f c) = ground arith
driver_done-done_bit mode s w (streaming m p a b q d f c) = ground arith
driver_done-done_bit mode s w (next_wait m p a b q d f c) = ground arith
driver_done-done_bit mode s w (next_ready m p a q d f c) = ground arith
driver_done-done_bit mode s w (discarding_two m p a b q d f c) = ground arith
driver_done-done_bit mode s w (discarding_one m p a q f c) = ground arith
driver_done-done_bit mode s w (discarded m p q f c) = ground arith

two_captures :
    (mode : Mode) (s : Pipeline)
    → waits s.point ≡ true
    → Shape mode s
    → (driver_done (driver_done s)).done_bit ≡ true
unfolding waits driver_done capture_done outstanding_captures queue_capture
two_captures mode s w (stopped p q f c) = ground arith
two_captures mode s w (single_frame m p q f c) = ground arith
two_captures mode s w (single_wait m p q f c) = ground arith
two_captures mode s w (single_start m p q f c) = ground arith
two_captures mode s w (first_start m p q f c) = ground arith
two_captures mode s w (single_ready m p q r f c) = ground arith
two_captures mode s w (first_frame m p q f c) = ground arith
two_captures mode s w (first_ready m p q r f c) = ground arith
two_captures mode s w (streaming m p a b q d f c) = ground arith
two_captures mode s w (next_wait m p a b q d f c) = ground arith
two_captures mode s w (next_ready m p a q d f c) = ground arith
two_captures mode s w (discarding_two m p a b q d f c) = ground arith
two_captures mode s w (discarding_one m p a q f c) = ground arith
two_captures mode s w (discarded m p q f c) = ground arith

driver_step : (mode : Mode) (s : Pipeline) → driver_done s ≡ step mode s captured
unfolding step
driver_step mode s = refl

captures-Reach :
    {mode : Mode} (n : ℕ) (s : Pipeline)
    → s.running ≡ true
    → Reach mode s
    → Reach mode (captures n s)
unfolding captures
captures-Reach zero s on reach = reach
captures-Reach {mode} (suc n) s on reach =
    captures-Reach n (driver_done s) (driver_done-running s ∙ on)
      (then_step captured reach (can_capture on) (driver_step mode s))

captures-done_bit :
    (mode : Mode) (n : ℕ) (s : Pipeline)
    → s.running ≡ true
    → s.done_bit ≡ true
    → Shape mode s
    → (captures n s).done_bit ≡ true
unfolding captures
captures-done_bit mode zero s on done shape = done
captures-done_bit mode (suc n) s on done shape =
    captures-done_bit mode n (driver_done s) (driver_done-running s ∙ on)
      (driver_done-done_bit mode s done shape) (captured-Shape mode s on shape)

captures-point : (n : ℕ) (s : Pipeline) → (captures n s).point ≡ s.point
unfolding captures
captures-point zero s = refl
captures-point (suc n) s = captures-point n (driver_done s) ∙ driver_done-point s

-- Whenever a run waits for a frame or for the end of the captures, the camera runs, and after any
-- two or more captures, which the run allows, the bit is set, so that the wait can return, and the
-- application goes on: from the first wait into a frame, from the others outside of one.
pub wait_returns :
    {mode : Mode} {s : Pipeline} (n : ℕ)
    → Reach mode s
    → waits s.point ≡ true
    → Reach mode (captures (suc (suc n)) s)
      × Enabled (captures (suc (suc n)) s) woken
      × ((wake mode (captures (suc (suc n)) s)).point ≡ after s.point)
unfolding captures
wait_returns {mode} {s} n reach waiting =
    let shape = reach-Shape reach in
    let on = waits-running mode s waiting shape in
    let on₁ = driver_done-running s ∙ on in
    let done =
      captures-done_bit mode n (driver_done (driver_done s))
        (driver_done-running (driver_done s) ∙ on₁) (two_captures mode s waiting shape)
        (captured-Shape mode (driver_done s) on₁ (captured-Shape mode s on shape)) in
    (
      captures-Reach (suc (suc n)) s on reach,
      can_wake done,
      wake-point mode (captures (suc (suc n)) s) ∙ ap after (captures-point (suc (suc n)) s),
    )
