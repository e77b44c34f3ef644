-- ===== src/Image/Tests.antt =====
-- Small images for img_proc.c, on two cores.
use aideck_gap8_examples.Base.{ℕ, ℕ_discrete, ◌*◌, ◌≡◌, ◌<◌, refl, false, [], ◌∷◌, arith}
use aideck_gap8_examples.Image.{
  Image, Kernel, store, rounds, interpolate, at_border, store_pixel, pixel, demosaic_row,
  demosaicking, cluster_demosaicking,
}
use aideck_gap8_examples.Image.Cores.{run_cores, Has}
use aideck_gap8_examples.Image.Cluster.{IsSchedule, cluster_demosaicking_lem}

abbrev kernel : Kernel
kernel = record { src_buffer = λ j. j * 10; width = 4; height = 3; n_pe = 2; grayscale = false }

abbrev blank : Image
blank j = 7

both_cores : IsSchedule 2 (1 ∷ 0 ∷ [])
both_cores = record { are_cores = are_cores; all_run = λ c h. omega arith }
  where
    are_cores : (c : ℕ) → Has c (1 ∷ 0 ∷ []) → c < 2
    are_cores c h = omega arith

-- The green of the pixel in the second row and column.
green_of_second : demosaicking (λ j. j * 10) blank 4 3 false 16 ≡ 50
unfolding demosaicking demosaic_row pixel at_border interpolate store_pixel store rounds ℕ_discrete
green_of_second = refl

cluster_demosaicking_lem_example :
    run_cores (cluster_demosaicking kernel) (1 ∷ 0 ∷ []) blank 16
    ≡ demosaicking (λ j. j * 10) blank 4 3 false 16
cluster_demosaicking_lem_example =
    cluster_demosaicking_lem kernel (1 ∷ 0 ∷ []) blank 16 (omega arith) (omega arith) both_cores
