-- ===== src/Camera/Tests.antt =====
-- Small pictures and a short run for nanocockpit/lib/camera.c.
use aideck_gap8_examples.Base.{◌*◌, ◌≡◌, refl, inl, inr, true, [], ◌∷◌, arith}
use aideck_gap8_examples.Camera.{Config, Frame, crop_task}
use aideck_gap8_examples.Camera.Crop.{crop_task_lem}
use aideck_gap8_examples.Camera.Task.{
  idle, Task, started, capture, crop, consume, resume, next_frame, waits, finish,
}
use aideck_gap8_examples.Camera.Task.Inv.{pictures}
use aideck_gap8_examples.Camera.Task.Run.{
  Reach, at_start, resumes, finishes, frame_free, consumed_in_order,
}

-- The middle of a picture of 4 by 4 pixels.
abbrev config : Config
config = record {
  capture_width = 4;
  capture_height = 4;
  capture_bpp = 1;
  crop_top = 1;
  crop_left = 1;
  crop_width = 2;
  crop_height = 2;
}

abbrev frame : Frame
frame = record { buffer = 100; buffer_size = 16; managed = true }

crop_task_lem_example :
    (crop_task config frame (λ j. j * 3) 103 ≡ 330)
    × (crop_task config frame (λ j. j * 3) 104 ≡ 312)
crop_task_lem_example =
    crop_task_lem config frame (λ j. j * 3) 1 1 104 (omega arith) (omega arith) (omega arith)
      (inr (omega arith))

-- The first picture, with the consumer, and the capture of the second.
abbrev handed : Task
handed = resume 2 (finish 0 (resume 2 (finish 0 (resume 2 started))))

abbrev second : Task
second = finish 1 (resume 2 handed)

second-Reach : Reach 2 second
unfolding resume capture crop consume next_frame waits finish
second-Reach =
    finishes 1
      (resumes
        (resumes
          (finishes 0 (resumes (finishes 0 (resumes at_start (inl refl) refl) refl) (inr refl) refl)
            refl)
          (inr refl) refl)
        (inl refl) refl)
      refl

frame_free_example : second.activity 1 ≡ idle
unfolding resume capture crop consume next_frame waits finish
frame_free_example = frame_free 2 second second-Reach (inr refl)

consumed_in_order_example : second.consumed ≡ (0, true) ∷ []
unfolding resume capture crop consume finish pictures
consumed_in_order_example = consumed_in_order 2 second second-Reach
