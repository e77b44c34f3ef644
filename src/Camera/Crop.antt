-- ===== src/Camera/Crop.antt =====
-- Cropping in place in nanocockpit/lib/camera.c gives the picture's part.
use native.Mathlib.Nat.{suc-mul, add-mul}
use aideck_gap8_examples.Base.{
  ℕ, zero, suc, ◌+◌, ◌-◌, ◌*◌, ◌≤◌, ◌<◌, ◌≡◌, ◌⊎◌, inl, inr, refl, ap, ◌∙◌, arith,
}
use aideck_gap8_examples.Camera.{Config, Frame, Memory, memmove, crop_rows, crop_task}

memmove-outside :
    (dst src n : ℕ) (memory : Memory) (j : ℕ)
    → (j < dst) ⊎ (dst + n ≤ j)
    → memmove dst src n memory j ≡ memory j
unfolding memmove
memmove-outside dst src n memory j h = ground arith

memmove-inside :
    (dst src n : ℕ) (memory : Memory) (x : ℕ)
    → x < n
    → memmove dst src n memory (dst + x) ≡ memory (src + x)
unfolding memmove
memmove-inside dst src n memory x h = let e : dst + x - dst ≡ x = omega arith in ground (arith, e)

crop_rows-outside :
    (rows : ℕ) (c : Config) (src dst : ℕ) (memory : Memory) (j : ℕ)
    → (j < dst) ⊎ (dst + rows * c.crop_width ≤ j)
    → crop_rows rows c src dst memory j ≡ memory j
unfolding crop_rows
crop_rows-outside zero c src dst memory j h = refl
crop_rows-outside (suc rows) c src dst memory j h =
    crop_rows-outside rows c (src + c.capture_width) (dst + c.crop_width) _ j
      (omega (arith, suc-mul rows c.crop_width))
    ∙ memmove-outside dst (src + c.crop_left) c.crop_width memory j
        (omega (arith, suc-mul rows c.crop_width))

crop_rows-inside :
    (rows : ℕ) (c : Config) (src dst : ℕ) (memory : Memory) (r x : ℕ)
    → c.crop_left + c.crop_width ≤ c.capture_width
    → dst ≤ src
    → r < rows
    → x < c.crop_width
    → crop_rows rows c src dst memory (dst + (r * c.crop_width + x))
      ≡ memory (src + (r * c.capture_width + (c.crop_left + x)))
unfolding crop_rows
crop_rows-inside zero c src dst memory r x fits below h k = absurd (omega arith)
crop_rows-inside (suc rows) c src dst memory zero x fits below h k =
    ap (crop_rows (suc rows) c src dst memory) (omega arith)
    ∙ crop_rows-outside rows c (src + c.capture_width) (dst + c.crop_width) _ (dst + x)
        (inl (omega arith))
    ∙ memmove-inside dst (src + c.crop_left) c.crop_width memory x k
    ∙ ap memory (omega arith)
crop_rows-inside (suc rows) c src dst memory (suc r) x fits below h k =
    let next = memmove dst (src + c.crop_left) c.crop_width memory in
    ap (crop_rows rows c (src + c.capture_width) (dst + c.crop_width) next)
      (omega (arith, suc-mul r c.crop_width))
    ∙ crop_rows-inside rows c (src + c.capture_width) (dst + c.crop_width) next r x fits
        (omega arith) (omega arith) k
    ∙ memmove-outside dst (src + c.crop_left) c.crop_width memory _ (inr (omega arith))
    ∙ ap memory (omega (arith, suc-mul r c.capture_width))

-- When the part lies within the width of the picture, `camera_crop_task` leaves in the buffer, row
-- behind row, the pixels that this part of the picture had before, although it copies within one
-- buffer, and changes no byte outside of the cropped picture.
pub crop_task_lem :
    (c : Config) (f : Frame) (memory : Memory) (r x j : ℕ)
    → c.crop_left + c.crop_width ≤ c.capture_width
    → r < c.crop_height
    → x < c.crop_width
    → (j < f.buffer) ⊎ (f.buffer + c.crop_height * c.crop_width ≤ j)
    → (crop_task c f memory (f.buffer + (r * c.crop_width + x))
        ≡ memory (f.buffer + ((c.crop_top + r) * c.capture_width + (c.crop_left + x))))
      × (crop_task c f memory j ≡ memory j)
unfolding crop_task
crop_task_lem c f memory r x j fits h k outside =
    let src = f.buffer + c.crop_top * c.capture_width in
    (
      crop_rows-inside c.crop_height c src f.buffer memory r x fits (omega arith) h k
          ∙ ap memory (omega (arith, add-mul c.crop_top r c.capture_width)),
      crop_rows-outside c.crop_height c src f.buffer memory j outside,
    )
