-- ===== src/Camera/Task.antt =====
-- The coroutine `camera_task` of nanocockpit/lib/camera.c, cut at its waits. What runs on a frame,
-- the capture, the cropping or the consumer, sets the frame's event when it is done; the pictures
-- are numbered as they are taken, and the frame of a number is the remainder by CAMERA_BUFFERS.
-- The three indices are `int`s that are taken not to reach their bound.
pub mod Inv
pub mod Resume
pub mod Finish
pub mod Run
use aideck_gap8_examples.Base.{
  ℕ, zero, suc, ◌+◌, ◌%◌, ◌≡◌, ◌<◌, ◌≢◌, ◌⊎◌, Bool, true, false, List, [], ◌∷◌, ◌++◌, ltb, ◌==◌,
  if◌then◌else◌,
}

-- What runs on a frame.
pub data Activity : Type 0 where
  idle capturing cropping consuming : Activity

-- Which of the three waits is next.
pub data Point : Type 0 where
  before_capture await_capture await_crop : Point

-- The static variables, `done_event` of each frame, what runs on it and is in it, and the pictures
-- that the consumer was given, with whether they were cropped.
pub record Task : Type 0 where
  pub point : Point
  pub capture_idx : ℕ
  pub crop_idx : ℕ
  pub consume_idx : ℕ
  pub done : ℕ → Bool
  pub activity : ℕ → Activity
  pub taken : ℕ
  pub picture : ℕ → ℕ
  pub cropped : ℕ → Bool
  pub consumed : List (ℕ × Bool)

-- At the start of the task.
abbrev pub started : Task
started = record {
  point = before_capture;
  capture_idx = 0;
  crop_idx = 0;
  consume_idx = 0;
  done = λ b. false;
  activity = λ b. idle;
  taken = 0;
  picture = λ b. 0;
  cropped = λ b. false;
  consumed = [];
}

-- `co_event_init` of a frame's event, for what begins to run on it.
abbrev pub begin : Activity → ℕ → Task → Task
begin a frame t = record t {
  done = λ b. if b == frame then false else t.done b;
  activity = λ b. if b == frame then a else t.activity b;
}

module _ (camera_buffers : ℕ) where
  -- The first block of the loop, after its wait.
  unfoldable pub capture : Task → Task
  capture t = record (begin capturing (t.capture_idx % camera_buffers) t) {
    capture_idx = t.capture_idx + 1;
    point = await_capture;
  }

  -- The second block, after its wait.
  unfoldable pub crop : Task → Task
  crop t = record (begin cropping (t.crop_idx % camera_buffers) t) {
    crop_idx = t.crop_idx + 1;
    point = await_crop;
  }

  -- The third block, after its wait.
  unfoldable pub consume : Task → Task
  consume t =
      let frame = t.consume_idx % camera_buffers in
      record (begin consuming frame t) {
        consumed = t.consumed ++ (t.picture frame, t.cropped frame) ∷ [];
        consume_idx = t.consume_idx + 1;
        point = before_capture;
      }

  -- The frame that the next block uses.
  unfoldable pub next_frame : Task → ℕ
  next_frame t = elim t.point [
    | before_capture ↦ t.capture_idx % camera_buffers
    | await_capture ↦ t.crop_idx % camera_buffers
    | await_crop ↦ t.consume_idx % camera_buffers
  ]

  -- Whether the next block waits for the event, or runs at once.
  unfoldable pub waits : Task → Bool
  waits t = elim t.point [
    | before_capture ↦ (if ltb t.capture_idx camera_buffers then false else true)
    | await_capture ↦ true
    | await_crop ↦ true
  ]

  unfoldable pub resume : Task → Task
  unfolding capture crop consume
  resume t = elim t.point [
    | before_capture ↦ capture t
    | await_capture ↦ crop t
    | await_crop ↦ consume t
  ]

-- What runs on a frame is done.
unfoldable pub finish : ℕ → Task → Task
finish frame t =
    let ended = record t {
      done = λ b. if b == frame then true else t.done b;
      activity = λ b. if b == frame then idle else t.activity b;
    } in
    elim (t.activity frame) [
      | idle ↦ t
      | capturing ↦ record ended {
        taken = t.taken + 1;
        picture = λ b. if b == frame then t.taken else t.picture b;
        cropped = λ b. if b == frame then false else t.cropped b;
      }
      | cropping ↦ record ended { cropped = λ b. if b == frame then true else t.cropped b }
      | consuming ↦ ended
    ]
