-- ===== src/Camera/Task/Run.antt =====
-- Runs of `camera_task` of nanocockpit/lib/camera.c.
use aideck_gap8_examples.Base.{ℕ, ◌≡◌, sym, subst, ap, ◌∙◌}
use aideck_gap8_examples.Camera.Task.{idle, Task, started, next_frame, resume, finish}
use aideck_gap8_examples.Camera.Task.Inv.{
  pictures, Shape, between, in_capture, captured, in_crop, was_cropped, started-Shape,
}
use aideck_gap8_examples.Camera.Task.Resume.{Ready, Ready-idle, resume-Shape}
use aideck_gap8_examples.Camera.Task.Finish.{finish-Shape}

module _ (camera_buffers : ℕ) where
  -- The states that a run reaches: the task goes on, or something is done on a frame.
  pub data Reach : Task → Type 0 where
    at_start : Reach started
    resumes :
        {t u : Task} → Reach t → Ready camera_buffers t → u ≡ resume camera_buffers t → Reach u
    finishes : {t u : Task} (frame : ℕ) → Reach t → u ≡ finish frame t → Reach u

  reach-Shape : (t : Task) → Reach t → Shape camera_buffers t
  reach-Shape t at_start = started-Shape camera_buffers
  reach-Shape t (resumes {t = u} r ready e) =
      subst (Shape camera_buffers) (sym e) (resume-Shape camera_buffers u ready (reach-Shape u r))
  reach-Shape t (finishes {t = u} frame r e) =
      subst (Shape camera_buffers) (sym e) (finish-Shape camera_buffers u frame (reach-Shape u r))

  -- Whenever a run of `camera_task` goes on, with any number of buffers, nothing runs on the frame
  -- that it is about to capture into, to crop or to hand on: the camera does not write to a picture
  -- that the consumer has, and the consumer gets none that is still being written.
  pub frame_free :
      (t : Task)
      → Reach t
      → Ready camera_buffers t
      → t.activity (next_frame camera_buffers t) ≡ idle
  frame_free t reach ready = Ready-idle camera_buffers t ready (reach-Shape t reach)

  shape-pictures : (t : Task) → Shape camera_buffers t → t.consumed ≡ pictures t.consume_idx
  shape-pictures t (between k p i n q) = i.consumed_are ∙ ap pictures (sym i.consume_is)
  shape-pictures t (in_capture k p i n a d q) = i.consumed_are ∙ ap pictures (sym i.consume_is)
  shape-pictures t (captured k p i n a e q) = i.consumed_are ∙ ap pictures (sym i.consume_is)
  shape-pictures t (in_crop k p i n a d e q) = i.consumed_are ∙ ap pictures (sym i.consume_is)
  shape-pictures t (was_cropped k p i n a e c q) = i.consumed_are ∙ ap pictures (sym i.consume_is)

  -- At every moment of a run of `camera_task`, the consumer has been given the first `consume_idx`
  -- pictures that the camera took, each once, in order and cropped.
  pub consumed_in_order : (t : Task) → Reach t → t.consumed ≡ pictures t.consume_idx
  consumed_in_order t reach = shape-pictures t (reach-Shape t reach)
