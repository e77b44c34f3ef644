-- ===== src/Image/Pixel.antt =====
-- What img_proc.c stores for one pixel, and the reference image.
use mathlib.Core.Logic.{if_pos, if_neg}
use native.Mathlib.Nat.{mul-add-div_right, div-eq_of_lt, mod_def, mul_comm}
use aideck_gap8_examples.Base.{
  ℕ, ◌+◌, ◌-◌, ◌*◌, ◌/◌, ◌%◌, ◌<◌, ◌≡◌, refl, sym, ap, ap₂, ◌∙◌, Bool, true, false, ◌==◌,
  if◌then◌else◌, ℕ_discrete, arith,
}
use aideck_gap8_examples.Image.{Image, store, store_pixel, Colour, pixel}
use aideck_gap8_examples.Image.Writes.{Writes, Writes-join}

-- Cells that a pixel takes.
abbrev pub scale : Bool → ℕ
scale true = 1
scale false = 3

-- The image of the colours of its pixels, by their index: grey levels, or the three channels one
-- after the other.
abbrev pub reference : Bool → (ℕ → Colour) → Image
reference true px j = ((px j).red + (px j).green + (px j).blue) / 3 % 256
reference false px j =
    (if (j % 3) == 0
      then (px (j / 3)).red
      else if (j % 3) == 1
      then (px (j / 3)).green
      else (px (j / 3)).blue)
    % 256

pub store-Writes :
    (val : Image) (s : Image) (at v : ℕ)
    → val at ≡ v % 256
    → Writes val at (at + 1) s (store s at v)
unfolding store
store-Writes val s at v e = record {
  inside = λ j p q.
      let same : at ≡ j = omega arith in
      if_pos (ℕ_discrete at j) same (v % 256) (s j) ∙ sym e ∙ ap val same;
  outside = λ j p. if_neg (ℕ_discrete at j) (λ z. omega arith) (v % 256) (s j);
}

grey-Writes :
    (px : ℕ → Colour) (s : Image) (idx : ℕ)
    → Writes (reference true px) idx (idx + 1) s (store_pixel true s idx (px idx))
unfolding store_pixel
grey-Writes px s idx =
    store-Writes (reference true px) s idx (((px idx).red + (px idx).green + (px idx).blue) / 3)
      refl

colour-Writes :
    (px : ℕ → Colour) (s : Image) (idx : ℕ)
    → Writes
        (reference false px)
        (idx * 3)
        (idx * 3 + 1 + 1 + 1)
        s
        (store_pixel false s idx (px idx))
unfolding store_pixel
colour-Writes px s idx =
    let val = reference false px in
    let at = idx * 3 in
    let c = px idx in
    let s₁ = store s at c.red in
    let s₂ = store s₁ (at + 1) c.green in
    let d₀ : at / 3 ≡ idx = omega arith in
    let d₁ : (at + 1) / 3 ≡ idx = omega arith in
    let d₂ : (at + 2) / 3 ≡ idx = omega arith in
    let e : at + 2 ≡ at + 1 + 1 = omega arith in
    let red : val at ≡ c.red % 256 = ground (arith, ap (λ i. (px i).red) d₀) in
    let green : val (at + 1) ≡ c.green % 256 = ground (arith, ap (λ i. (px i).green) d₁) in
    let blue : val (at + 2) ≡ c.blue % 256 = ground (arith, ap (λ i. (px i).blue) d₂) in
    Writes-join val at (at + 1) (at + 1 + 1 + 1) s s₁ (store s₂ (at + 2) c.blue) (omega arith)
      (omega arith) (store-Writes val s at c.red red)
      (Writes-join val (at + 1) (at + 1 + 1) (at + 1 + 1 + 1) s₁ s₂ (store s₂ (at + 2) c.blue)
        (omega arith) (omega arith) (store-Writes val s₁ (at + 1) c.green green)
        (rw (← e) (store-Writes val s₂ (at + 2) c.blue blue)))

pub store_pixel-Writes :
    (grayscale : Bool) (px : ℕ → Colour) (s : Image) (idx : ℕ)
    → Writes
        (reference grayscale px)
        (idx * scale grayscale)
        ((idx + 1) * scale grayscale)
        s
        (store_pixel grayscale s idx (px idx))
store_pixel-Writes true px s idx =
    let e : idx * 1 ≡ idx = omega arith in
    let f : (idx + 1) * 1 ≡ idx + 1 = omega arith in rw (e, f) (grey-Writes px s idx)
store_pixel-Writes false px s idx =
    let f : (idx + 1) * 3 ≡ idx * 3 + 1 + 1 + 1 = omega arith in rw f (colour-Writes px s idx)

-- The colours of an image by the pixels' index.
abbrev pub colours : Image → ℕ → ℕ → ℕ → Colour
colours input width height idx = pixel input width height (idx % width) (idx / width)

pub div_at : (width x y : ℕ) → x < width → (y * width + x) / width ≡ y
div_at width x y h =
    let pos : 0 < width = omega arith in
    mul-add-div_right pos y x ∙ ap (λ d. y + d) (div-eq_of_lt h) ∙ omega arith

pub mod_at : (width x y : ℕ) → x < width → (y * width + x) % width ≡ x
mod_at width x y h =
    mod_def (y * width + x) width
    ∙ ap (λ d. y * width + x - width * d) (div_at width x y h)
    ∙ omega (arith, mul_comm width y)

pub colours_at :
    (input : Image) (width height x y : ℕ)
    → x < width
    → colours input width height (y * width + x) ≡ pixel input width height x y
colours_at input width height x y h =
    ap₂ (pixel input width height) (mod_at width x y h) (div_at width x y h)
