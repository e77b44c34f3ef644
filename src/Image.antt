-- ===== src/Image.antt =====
-- examples/image_processing/simple_kernel_example/img_proc.c: filters on a camera image, on one
-- core and on the cores of the cluster. An image is a function from offsets to its chars, which
-- are unsigned on this processor and below 256. `int` offsets are taken to be small enough.
pub mod Writes
pub mod Pixel
pub mod Filters
pub mod Cores
pub mod Cluster
mod Tests
use aideck_gap8_examples.Base.{
  ℕ, zero, suc, ◌+◌, ◌-◌, ◌*◌, ◌/◌, ◌%◌, ◌^◌, min, Bool, true, false, ◌&&◌, ◌||◌, List, [], ◌∷◌,
  ltb, ◌==◌, if◌then◌else◌, ℕ_discrete,
}
use mathlib.Core.Logic.{ite}

abbrev pub Image : Type 0
Image = ℕ → ℕ

-- `output[at] = value`, where `value` is converted to `char`.
unfoldable pub store : Image → ℕ → ℕ → Image
store output at value other = ite (ℕ_discrete at other) (value % 256) (output other)

-- `for (i = start; i < start + n; i++)`
unfoldable pub rounds {ℓ} : {S : Type ℓ} → ℕ → ℕ → (ℕ → S → S) → S → S
rounds zero i body s = s
rounds (suc n) i body s = rounds n (i + 1) body (body i s)

-- The three `char` variables.
pub record Colour : Type 0 where
  pub red : ℕ
  pub green : ℕ
  pub blue : ℕ

abbrev pub colour : ℕ → ℕ → ℕ → Colour
colour red green blue = record { red = red % 256; green = green % 256; blue = blue % 256 }

-- The colour of a pixel that is not at the border, from its neighbours; their offsets have the
-- places that they have in `idxr`.
unfoldable pub interpolate : Image → ℕ → ℕ → ℕ → Colour
interpolate input width x y =
    let own = input (y * width + x) in
    let r₀ = input ((y - 1) * width + (x - 1)) in
    let r₁ = input (y * width + (x - 1)) in
    let r₂ = input ((y + 1) * width + (x - 1)) in
    let r₃ = input ((y + 1) * width + x) in
    let r₄ = input ((y + 1) * width + (x + 1)) in
    let r₅ = input (y * width + (x + 1)) in
    let r₆ = input ((y - 1) * width + (x + 1)) in
    let r₇ = input ((y - 1) * width + x) in
    if ((x % 2) == 0) && ((y % 2) == 0)
    then colour own ((r₁ + r₃ + r₅ + r₇) / 4) ((r₀ + r₂ + r₄ + r₆) / 4)
    else if ((x % 2) == 1) && ((y % 2) == 0)
    then colour ((r₁ + r₅) / 2) own ((r₃ + r₇) / 2)
    else if ((x % 2) == 0) && ((y % 2) == 1)
    then colour ((r₃ + r₇) / 2) own ((r₁ + r₅) / 2)
    else if ((x % 2) == 1) && ((y % 2) == 1)
    then colour ((r₀ + r₂ + r₄ + r₆) / 4) ((r₁ + r₃ + r₅ + r₇) / 4) own
    else colour 0 0 0

-- The test for the border.
unfoldable pub at_border : ℕ → ℕ → ℕ → ℕ → Bool
at_border width height x y = (x == 0) || (y == 0) || ((x + 1) == width) || ((y + 1) == height)

-- What is stored for a colour, at the pixel's index.
unfoldable pub store_pixel : Bool → Image → ℕ → Colour → Image
store_pixel true output idx c = store output idx ((c.red + c.green + c.blue) / 3)
store_pixel false output idx c =
    store (store (store output (idx * 3) c.red) (idx * 3 + 1) c.green) (idx * 3 + 2) c.blue

-- The body of the inner loop; the border is black.
unfoldable pub pixel : Image → ℕ → ℕ → ℕ → ℕ → Colour
pixel input width height x y =
    if at_border width height x y then colour 0 0 0 else interpolate input width x y

unfoldable pub demosaic_row : Image → ℕ → ℕ → Bool → ℕ → Image → Image
demosaic_row input width height grayscale y output =
    rounds width 0
      (λ x out. store_pixel grayscale out (y * width + x) (pixel input width height x y)) output

-- `demosaicking`
unfoldable pub demosaicking : Image → Image → ℕ → ℕ → Bool → Image
demosaicking input output width height grayscale =
    rounds height 0 (demosaic_row input width height grayscale) output

-- `inverting`
unfoldable pub inverting : Image → Image → ℕ → ℕ → Image
inverting input output width height =
    rounds height 0
      (λ y out.
        rounds width 0 (λ x out. store out (y * width + x) (255 - input (y * width + x))) out)
      output

-- `plp_example_kernel_instance_i32`
pub record Kernel : Type 0 where
  pub src_buffer : Image
  pub width : ℕ
  pub height : ℕ
  pub n_pe : ℕ
  pub grayscale : Bool

-- How much one core has to do, and the interval of one core.
unfoldable pub per_core : ℕ → ℕ → ℕ
per_core total n_pe = (total + n_pe + 2 ^ 32 - 1) % 2 ^ 32 / n_pe

unfoldable pub lower_bound : ℕ → ℕ → ℕ → ℕ
lower_bound total n_pe core_id = core_id * per_core total n_pe % 2 ^ 32

unfoldable pub upper_bound : ℕ → ℕ → ℕ → ℕ
upper_bound total n_pe core_id =
    let bound = (core_id + 1) * per_core total n_pe % 2 ^ 32 in
    if ltb total bound then total else bound

-- `cluster_demosaicking` on one core; `output` is `resBuffer`.
unfoldable pub cluster_demosaicking : Kernel → ℕ → Image → Image
cluster_demosaicking a core_id output =
    rounds (upper_bound a.height a.n_pe core_id - lower_bound a.height a.n_pe core_id)
      (lower_bound a.height a.n_pe core_id) (demosaic_row a.src_buffer a.width a.height a.grayscale)
      output

-- `cluster_inverting` on one core.
unfoldable pub cluster_inverting : Kernel → ℕ → Image → Image
cluster_inverting a core_id output =
    let total = a.width * a.height % 2 ^ 32 in
    rounds (upper_bound total a.n_pe core_id - lower_bound total a.n_pe core_id)
      (lower_bound total a.n_pe core_id) (λ idx out. store out idx (255 - a.src_buffer idx)) output
