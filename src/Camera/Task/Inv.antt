-- ===== src/Camera/Task/Inv.antt =====
-- Which frames are in use at each wait of `camera_task`.
use aideck_gap8_examples.Base.{
  ℕ, zero, suc, ◌+◌, ◌%◌, ◌≡◌, ◌≢◌, ◌<◌, ◌⊎◌, inl, refl, Bool, true, false, List, [], ◌∷◌, ◌++◌,
}
use aideck_gap8_examples.Camera.Task.{
  idle, capturing, cropping, consuming, before_capture, await_capture, await_crop, Task, started,
}

-- A frame that nobody uses, or whose picture is with the consumer since before picture `k`.
abbrev pub Quiet : Task → ℕ → ℕ → Type 0
Quiet t k b = (t.activity b ≡ idle) ⊎ ((t.activity b ≡ consuming) × (t.done b ≡ false) × (b < k))

-- The first pictures, each cropped.
unfoldable pub pictures : ℕ → List (ℕ × Bool)
pictures zero = []
pictures (suc k) = pictures k ++ (k, true) ∷ []

pub record Indices (t : Task) (captures crops consumes : ℕ) : Type 0 where
  pub capture_is : t.capture_idx ≡ captures
  pub crop_is : t.crop_idx ≡ crops
  pub consume_is : t.consume_idx ≡ consumes
  pub consumed_are : t.consumed ≡ pictures consumes

-- The situations between two steps, around picture `k`.
pub data Shape (camera_buffers : ℕ) : Task → Type 0 where
  between :
      {t : Task} (k : ℕ)
      → t.point ≡ before_capture
      → Indices t k k k
      → t.taken ≡ k
      → ((b : ℕ) → Quiet t k b)
      → Shape camera_buffers t
  in_capture :
      {t : Task} (k : ℕ)
      → t.point ≡ await_capture
      → Indices t (k + 1) k k
      → t.taken ≡ k
      → t.activity (k % camera_buffers) ≡ capturing
      → t.done (k % camera_buffers) ≡ false
      → ((b : ℕ) → b ≢ k % camera_buffers → Quiet t k b)
      → Shape camera_buffers t
  captured :
      {t : Task} (k : ℕ)
      → t.point ≡ await_capture
      → Indices t (k + 1) k k
      → t.taken ≡ k + 1
      → t.activity (k % camera_buffers) ≡ idle
      → t.picture (k % camera_buffers) ≡ k
      → ((b : ℕ) → b ≢ k % camera_buffers → Quiet t k b)
      → Shape camera_buffers t
  in_crop :
      {t : Task} (k : ℕ)
      → t.point ≡ await_crop
      → Indices t (k + 1) (k + 1) k
      → t.taken ≡ k + 1
      → t.activity (k % camera_buffers) ≡ cropping
      → t.done (k % camera_buffers) ≡ false
      → t.picture (k % camera_buffers) ≡ k
      → ((b : ℕ) → b ≢ k % camera_buffers → Quiet t k b)
      → Shape camera_buffers t
  was_cropped :
      {t : Task} (k : ℕ)
      → t.point ≡ await_crop
      → Indices t (k + 1) (k + 1) k
      → t.taken ≡ k + 1
      → t.activity (k % camera_buffers) ≡ idle
      → t.picture (k % camera_buffers) ≡ k
      → t.cropped (k % camera_buffers) ≡ true
      → ((b : ℕ) → b ≢ k % camera_buffers → Quiet t k b)
      → Shape camera_buffers t

pub started-Shape : (camera_buffers : ℕ) → Shape camera_buffers started
unfolding pictures
started-Shape camera_buffers =
    between 0 refl
      (record { capture_is = refl; crop_is = refl; consume_is = refl; consumed_are = refl }) refl
      (λ b. inl refl)
