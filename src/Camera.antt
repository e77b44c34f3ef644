-- ===== src/Camera.antt =====
-- nanocockpit/lib/camera.c: the buffers of a camera, cropping in place, and the coroutine that
-- captures, crops and hands on frames.
pub mod Crop
pub mod Task
mod Tests
use aideck_gap8_examples.Base.{
  ℕ, zero, suc, ◌+◌, ◌-◌, ◌*◌, Bool, true, false, ◌&&◌, ltb, leb, ◌==◌, ◌!=◌, if◌then◌else◌, List,
  [], ◌∷◌, ◌>>=◌, Outcome, ok, exit,
}

-- The options CAMERA_CAPTURE_ and CAMERA_CROP_
pub record Config : Type 0 where
  pub capture_width : ℕ
  pub capture_height : ℕ
  pub capture_bpp : ℕ
  pub crop_top : ℕ
  pub crop_left : ℕ
  pub crop_width : ℕ
  pub crop_height : ℕ

abbrev pub null : ℕ
null = 0

-- The fields of `frame_t` that belong to its buffer.
pub record Frame : Type 0 where
  pub buffer : ℕ
  pub buffer_size : ℕ
  pub managed : Bool

-- The assertions of camera.c
pub data Fault : Type 0 where
  size_mismatch allocation_failed count_mismatch : Fault

-- `camera_get_buffer_size`
unfoldable pub get_buffer_size : Config → ℕ
get_buffer_size c = c.capture_height * c.capture_width * c.capture_bpp

-- `camera_frame_init`
unfoldable pub frame_init : Config → ℕ → ℕ → Bool → Outcome Fault Frame
unfolding get_buffer_size
frame_init c buffer buffer_size managed =
    if buffer_size != get_buffer_size c
    then exit size_mismatch
    else if buffer == null
    then exit allocation_failed
    else ok (record { buffer = buffer; buffer_size = buffer_size; managed = managed })

-- `camera_frame_free`: the frame, and whether `pi_l2_free` is called.
unfoldable pub frame_free : Frame → Bool × Frame
frame_free f = (f.managed, record { buffer = null; buffer_size = 0; managed = false })

-- The loops of `camera_init_frames_alloc` and `camera_init_frames_external`, over the addresses that
-- are allocated or given.
unfoldable pub init_frames : Config → List ℕ → ℕ → Bool → Outcome Fault (List Frame)
unfolding frame_init
init_frames c [] buffers_size managed = ok []
init_frames c (buffer ∷ buffers) buffers_size managed = do
  f ← frame_init c buffer buffers_size managed
  rest ← init_frames c buffers buffers_size managed
  ok (f ∷ rest)

-- `camera_init_frames_external`
unfoldable pub init_frames_external : Config → ℕ → ℕ → List ℕ → ℕ → Outcome Fault (List Frame)
unfolding init_frames
init_frames_external c camera_buffers n_buffers buffers buffers_size =
    if n_buffers != camera_buffers
    then exit count_mismatch
    else init_frames c buffers buffers_size false

-- `camera_init_frames_alloc`, with what `pi_l2_malloc` returned
unfoldable pub init_frames_alloc : Config → List ℕ → Outcome Fault (List Frame)
unfolding init_frames get_buffer_size
init_frames_alloc c allocated = init_frames c allocated (get_buffer_size c) true

abbrev pub Memory : Type 0
Memory = ℕ → ℕ

-- `memmove`
unfoldable pub memmove : ℕ → ℕ → ℕ → Memory → Memory
memmove dst src n memory j =
    if leb dst j && ltb j (dst + n) then memory (src + (j - dst)) else memory j

-- The loop of `camera_crop_task`; `CO_YIELD` keeps its variables.
unfoldable pub crop_rows : ℕ → Config → ℕ → ℕ → Memory → Memory
unfolding memmove
crop_rows zero c src_buffer dst_buffer memory = memory
crop_rows (suc rows) c src_buffer dst_buffer memory =
    crop_rows rows c (src_buffer + c.capture_width) (dst_buffer + c.crop_width)
      (memmove dst_buffer (src_buffer + c.crop_left) c.crop_width memory)

-- `camera_crop_task`
unfoldable pub crop_task : Config → Frame → Memory → Memory
unfolding crop_rows
crop_task c f memory =
    crop_rows c.crop_height c (f.buffer + c.crop_top * c.capture_width) f.buffer memory
