-- ===== src/Image/Filters.antt =====
-- The filters of img_proc.c on rows and on a whole image.
use native.Mathlib.Nat.{mul-le-mul_right, add-mul, one-mul, zero-mul, mul-one}
use aideck_gap8_examples.Base.{
  ℕ, ◌+◌, ◌-◌, ◌*◌, ◌%◌, ◌≤◌, ◌<◌, ◌≡◌, refl, sym, ap, subst, ◌∙◌, Bool, arith,
}
use aideck_gap8_examples.Image.{
  Image, rounds, store, store_pixel, pixel, demosaic_row, demosaicking, inverting,
}
use aideck_gap8_examples.Image.Writes.{Writes, rounds-Writes}
use aideck_gap8_examples.Image.Pixel.{
  scale, reference, store-Writes, store_pixel-Writes, colours, colours_at,
}

next_row : (y width : ℕ) → y * width + width ≡ (y + 1) * width
next_row y width = sym (add-mul y 1 width ∙ ap (λ d. y * width + d) (one-mul width))

-- The first cell of a row.
abbrev pub row_edge : ℕ → ℕ → ℕ → ℕ
row_edge width s y = y * width * s

pub row_edge_mono : (width s a b : ℕ) → a ≤ b → row_edge width s a ≤ row_edge width s b
row_edge_mono width s a b h = mul-le-mul_right s (mul-le-mul_right width h)

pub zero_edge : (width k : ℕ) → row_edge width k 0 ≡ 0
zero_edge width k = ap (λ d. d * k) (zero-mul width) ∙ zero-mul k

-- A loop over the pixels of a row, each of which takes `k` cells.
line-Writes :
    (val : Image) (k width y : ℕ) (body : ℕ → Image → Image) (s : Image)
    → ((x : ℕ) (t : Image)
        → x < width
        → Writes val ((y * width + x) * k) ((y * width + x + 1) * k) t (body x t))
    → Writes val (row_edge width k y) (row_edge width k (y + 1)) s (rounds width 0 body s)
line-Writes val k width y body s w =
    let first : y * width + 0 ≡ y * width = omega arith in
    subst (λ edge. Writes val (edge * k) (row_edge width k (y + 1)) s (rounds width 0 body s)) first
      (subst (λ edge. Writes val ((y * width + 0) * k) (edge * k) s (rounds width 0 body s))
        (next_row y width)
        (rounds-Writes val (λ x. (y * width + x) * k) body width 0 width s (omega arith)
          (λ a b h. mul-le-mul_right k (omega arith))
          (λ x t _ h.
            let e : y * width + x + 1 ≡ y * width + (x + 1) = omega arith in
            subst (λ edge. Writes val ((y * width + x) * k) (edge * k) t (body x t)) e (w x t h))))

-- One row of `demosaicking` writes the row's cells of the reference image.
pub row-Writes :
    (input : Image) (width height y : ℕ) (grayscale : Bool) (s : Image)
    → Writes
        (reference grayscale (colours input width height))
        (row_edge width (scale grayscale) y)
        (row_edge width (scale grayscale) (y + 1))
        s
        (demosaic_row input width height grayscale y s)
unfolding demosaic_row
row-Writes input width height y grayscale s =
    line-Writes (reference grayscale (colours input width height)) (scale grayscale) width y
      (λ x out. store_pixel grayscale out (y * width + x) (pixel input width height x y)) s
      (λ x t h.
        subst
          (λ c.
            Writes (reference grayscale (colours input width height))
              ((y * width + x) * scale grayscale) ((y * width + x + 1) * scale grayscale) t
              (store_pixel grayscale t (y * width + x) c))
          (colours_at input width height x y h)
          (store_pixel-Writes grayscale (colours input width height) t (y * width + x)))

-- Rows one after the other.
pub rows-Writes :
    (input : Image) (width height : ℕ) (grayscale : Bool) (n i end : ℕ) (s : Image)
    → i + n ≡ end
    → Writes
        (reference grayscale (colours input width height))
        (row_edge width (scale grayscale) i)
        (row_edge width (scale grayscale) end)
        s
        (rounds n i (demosaic_row input width height grayscale) s)
rows-Writes input width height grayscale n i end s e =
    rounds-Writes (reference grayscale (colours input width height))
      (row_edge width (scale grayscale)) (demosaic_row input width height grayscale) n i end s e
      (row_edge_mono width (scale grayscale))
      (λ y t h k. row-Writes input width height y grayscale t)

-- `demosaicking` writes the reference image.
pub demosaicking-Writes :
    (input output : Image) (width height : ℕ) (grayscale : Bool)
    → Writes
        (reference grayscale (colours input width height))
        0
        (row_edge width (scale grayscale) height)
        output
        (demosaicking input output width height grayscale)
unfolding demosaicking
demosaicking-Writes input output width height grayscale =
    let first : row_edge width (scale grayscale) 0 ≡ 0 = zero_edge width (scale grayscale) in
    subst
      (λ edge.
        Writes (reference grayscale (colours input width height)) edge
          (row_edge width (scale grayscale) height) output
          (rounds height 0 (demosaic_row input width height grayscale) output))
      first (rows-Writes input width height grayscale height 0 height output (omega arith))

-- The negative.
abbrev pub negative : Image → Image
negative input j = (255 - input j) % 256

-- `inverting` writes the negative.
pub inverting-Writes :
    (input output : Image) (width height : ℕ)
    → Writes (negative input) 0 (height * width) output (inverting input output width height)
unfolding inverting
inverting-Writes input output width height =
    let body = λ (y : ℕ) (out : Image).
      rounds width 0 (λ x out. store out (y * width + x) (255 - input (y * width + x))) out in
    subst
      (λ edge. Writes (negative input) edge (height * width) output (rounds height 0 body output))
      (zero_edge width 1)
      (subst
        (λ edge.
          Writes (negative input) (row_edge width 1 0) edge output (rounds height 0 body output))
        (mul-one (height * width))
        (rounds-Writes (negative input) (row_edge width 1) body height 0 height output (omega arith)
          (row_edge_mono width 1)
          (λ y t _ h.
            line-Writes (negative input) 1 width y
              (λ x out. store out (y * width + x) (255 - input (y * width + x))) t
              (λ x u k.
                let e : (y * width + x) * 1 ≡ y * width + x = omega arith in
                let f : (y * width + x + 1) * 1 ≡ y * width + x + 1 = omega arith in
                rw (e, f)
                  (store-Writes (negative input) u (y * width + x) (255 - input (y * width + x))
                    refl)))))
