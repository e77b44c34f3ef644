-- ===== src/Image/Cluster.antt =====
-- The cores of the cluster together make with img_proc.c what one core makes.
use native.Mathlib.Nat.{
  mod-eq_of_lt, lt-mul-div-succ, div-mul-le_self, lt-div-mul-add, div-lt_iff_lt-mul,
  mul-le-mul_right, mul_comm, add-mul, mul-add, mul-one, one-mul, le-div_iff_mul-le,
}
use aideck_gap8_examples.Base.{
  ℕ, zero, suc, ◌+◌, ◌-◌, ◌*◌, ◌/◌, ◌%◌, ◌^◌, ◌≤◌, ◌<◌, ◌≡◌, refl, sym, ap, subst, ◌∙◌, min, List,
  dec_lt, arith,
}
use aideck_gap8_examples.Image.{
  Image, rounds, store, Kernel, per_core, lower_bound, upper_bound, demosaic_row, demosaicking,
  inverting, cluster_demosaicking, cluster_inverting,
}
use aideck_gap8_examples.Image.Writes.{Writes, Writes-none, rounds-Writes}
use aideck_gap8_examples.Image.Pixel.{scale, reference, store-Writes, colours}
use aideck_gap8_examples.Image.Filters.{
  zero_edge, row-Writes, row_edge, row_edge_mono, demosaicking-Writes, negative, inverting-Writes,
}
use aideck_gap8_examples.Image.Cores.{run_cores, Has, run_cores-Writes, Writes-unique}

-- The part of a loop over `total` rounds that one core does.
part-Writes :
    (val : Image) (edge : ℕ → ℕ) (body : ℕ → Image → Image) (low high : ℕ) (s : Image)
    → ((a b : ℕ) → a ≤ b → edge a ≤ edge b)
    → ((k : ℕ) (t : Image) → Writes val (edge k) (edge (k + 1)) t (body k t))
    → Writes val (edge (min low high)) (edge high) s (rounds (high - low) low body s)
unfolding rounds
part-Writes val edge body low high s up w = elim (dec_lt low high) [
  | yes p ↦
      let e : min low high ≡ low = omega arith in
      rw e (rounds-Writes val edge body (high - low) low high s (omega arith) up (λ k t _ _. w k t))
  | no p ↦
      let e : high - low ≡ 0 = omega arith in
      let f : min low high ≡ high = omega arith in rw (e, f) (Writes-none val (edge high) s)
]

-- With `q` rounds for each of the cores, which is enough, each round is some core's.
per_core_lem :
    (total n_pe : ℕ)
    → 0 < n_pe
    → total + n_pe ≤ 2 ^ 32
    → (total ≤ n_pe * per_core total n_pe)
      × (n_pe * per_core total n_pe < 2 ^ 32)
      × (0 < total → 0 < per_core total n_pe)
unfolding per_core
per_core_lem total n_pe h small =
    let n = total + n_pe - 1 in
    let e : (total + n_pe + 2 ^ 32 - 1) % 2 ^ 32 ≡ n = omega arith in
    let above : n < n_pe * (n / n_pe + 1) = lt-mul-div-succ n h in
    let below : n / n_pe * n_pe ≤ n = div-mul-le_self n n_pe in
    let c = mul_comm n_pe (n / n_pe) in
    let d = mul-add n_pe (n / n_pe) 1 in
    let o = mul-one n_pe in
    (
      rw e (omega arith),
      rw e (omega arith),
      λ p. rw e ((le-div_iff_mul-le h).1 (omega (arith, one-mul n_pe))),
    )

bounds_lem :
    (total n_pe c : ℕ)
    → 0 < n_pe
    → total + n_pe ≤ 2 ^ 32
    → c < n_pe
    → (lower_bound total n_pe c ≡ c * per_core total n_pe)
      × (upper_bound total n_pe c ≡ min total (c * per_core total n_pe + per_core total n_pe))
unfolding lower_bound upper_bound
bounds_lem total n_pe c h small k =
    let q = per_core total n_pe in
    let (_, b, _) = per_core_lem total n_pe h small in
    let next : (c + 1) * q ≡ c * q + q = add-mul c 1 q ∙ ap (λ d. c * q + d) (one-mul q) in
    let fits : (c + 1) * q ≤ n_pe * q = mul-le-mul_right q (omega arith) in
    let l : c * q % 2 ^ 32 ≡ c * q = mod-eq_of_lt (omega arith) in
    let u : (c + 1) * q % 2 ^ 32 ≡ c * q + q = mod-eq_of_lt (omega arith) ∙ next in
    (l, ground (arith, u))

-- Some core has each round.
round_core :
    (total n_pe y : ℕ)
    → 0 < n_pe
    → total + n_pe ≤ 2 ^ 32
    → y < total
    → (c : ℕ) × (c < n_pe) × (lower_bound total n_pe c ≤ y) × (y < upper_bound total n_pe c)
round_core total n_pe y h small k =
    let q = per_core total n_pe in
    let (a, _, p) = per_core_lem total n_pe h small in
    let pos : 0 < q = p (omega arith) in
    let c = y / q in
    let less : c < n_pe = (div-lt_iff_lt-mul pos).1 (omega arith) in
    let (l, u) = bounds_lem total n_pe c h small less in
    let below : c * q ≤ y = div-mul-le_self y q in
    let above : y < c * q + q = lt-div-mul-add pos in (c, less, omega (arith, l), omega (arith, u))

-- The round that a cell belongs to.
round_of :
    (edge : ℕ → ℕ) (total j : ℕ)
    → edge 0 ≤ j
    → j < edge total
    → (y : ℕ) × (y < total) × (edge y ≤ j) × (j < edge (y + 1))
round_of edge zero j h k = absurd (omega arith)
round_of edge (suc n) j h k = elim (dec_lt j (edge n)) [
  | yes p ↦ let (y, a, b, c) = round_of edge n j h p in (y, omega arith, b, c)
  | no p ↦
      let e : suc n ≡ n + 1 = omega arith in (n, omega arith, omega arith, omega (arith, ap edge e))
]

-- All cores of the cluster, each at least once.
pub record IsSchedule (n_pe : ℕ) (cores : List ℕ) : Type 0 where
  pub are_cores : (c : ℕ) → Has c cores → c < n_pe
  pub all_run : (c : ℕ) → c < n_pe → Has c cores

-- A loop that is split over the cores.
split-Writes :
    (val : Image) (edge : ℕ → ℕ) (body : ℕ → Image → Image) (total n_pe : ℕ) (cores : List ℕ)
    (s : Image)
    → ((a b : ℕ) → a ≤ b → edge a ≤ edge b)
    → edge 0 ≡ 0
    → ((k : ℕ) (t : Image) → Writes val (edge k) (edge (k + 1)) t (body k t))
    → 0 < n_pe
    → total + n_pe ≤ 2 ^ 32
    → IsSchedule n_pe cores
    → Writes val 0 (edge total) s (
        run_cores
          (λ c t.
            rounds
              (upper_bound total n_pe c - lower_bound total n_pe c)
              (lower_bound total n_pe c)
              body
              t)
          cores
          s)
unfolding upper_bound
split-Writes val edge body total n_pe cores s up zeroed w h small sched =
    run_cores-Writes val
      (λ c t.
        rounds (upper_bound total n_pe c - lower_bound total n_pe c) (lower_bound total n_pe c) body
          t)
      (λ c. edge (min (lower_bound total n_pe c) (upper_bound total n_pe c)))
      (λ c. edge (upper_bound total n_pe c)) (edge total) cores s
      (λ c t _.
        part-Writes val edge body (lower_bound total n_pe c) (upper_bound total n_pe c) t up w)
      (λ c. up (upper_bound total n_pe c) total (ground arith))
      (λ j k.
        let (y, a, b, d) = round_of edge total j (omega arith) k in
        let (c, less, l, u) = round_core total n_pe y h small a in
        let first =
          up (min (lower_bound total n_pe c) (upper_bound total n_pe c)) y (omega arith) in
        let last = up (y + 1) (upper_bound total n_pe c) (omega arith) in
        (c, sched.all_run c less, omega arith, omega arith))

-- All cores of the cluster, in any order and even if some run again, make with
-- `cluster_demosaicking` the image that `demosaicking` makes on one core, for every image size
-- and number of cores up to 2^32 rows and cores together, in grey and in colour; cells behind the
-- image are left alone by both. The offsets of the pixels are taken to fit an `int`.
pub cluster_demosaicking_lem :
    (a : Kernel) (cores : List ℕ) (output : Image) (j : ℕ)
    → 0 < a.n_pe
    → a.height + a.n_pe ≤ 2 ^ 32
    → IsSchedule a.n_pe cores
    → run_cores (cluster_demosaicking a) cores output j
      ≡ demosaicking a.src_buffer output a.width a.height a.grayscale j
unfolding cluster_demosaicking
cluster_demosaicking_lem a cores output j h small sched =
    Writes-unique val (edge a.height) output _ _ j
      (split-Writes val edge (demosaic_row a.src_buffer a.width a.height a.grayscale) a.height
        a.n_pe cores output (row_edge_mono a.width (scale a.grayscale))
        (zero_edge a.width (scale a.grayscale))
        (λ y t. row-Writes a.src_buffer a.width a.height y a.grayscale t) h small sched)
      (demosaicking-Writes a.src_buffer output a.width a.height a.grayscale)
  where
    edge : ℕ → ℕ
    edge = row_edge a.width (scale a.grayscale)

    val : Image
    val = reference a.grayscale (colours a.src_buffer a.width a.height)

-- All cores of the cluster, in any order and even if some run again, make with `cluster_inverting`
-- the image that `inverting` makes on one core, for every image and number of cores of up to 2^32
-- pixels and cores together; cells behind the image are left alone by both.
cluster_inverting_lem :
    (a : Kernel) (cores : List ℕ) (output : Image) (j : ℕ)
    → 0 < a.n_pe
    → a.width * a.height + a.n_pe ≤ 2 ^ 32
    → IsSchedule a.n_pe cores
    → run_cores (cluster_inverting a) cores output j
      ≡ inverting a.src_buffer output a.width a.height j
unfolding cluster_inverting
cluster_inverting_lem a cores output j h small sched =
    let e : a.width * a.height % 2 ^ 32 ≡ a.width * a.height = mod-eq_of_lt (omega arith) in
    subst
      (λ total.
        run_cores
          (λ c t.
            rounds (upper_bound total a.n_pe c - lower_bound total a.n_pe c)
              (lower_bound total a.n_pe c) (λ idx out. store out idx (255 - a.src_buffer idx)) t)
          cores output j
        ≡ inverting a.src_buffer output a.width a.height j)
      (sym e)
      (Writes-unique (negative a.src_buffer) (a.width * a.height) output _ _ j
        (split-Writes (negative a.src_buffer) (λ k. k)
          (λ idx out. store out idx (255 - a.src_buffer idx)) (a.width * a.height) a.n_pe cores
          output (λ k l p. p) refl
          (λ k t. store-Writes (negative a.src_buffer) t k (255 - a.src_buffer k) refl) h small
          sched)
        (subst
          (λ n.
            Writes (negative a.src_buffer) 0 n output
              (inverting a.src_buffer output a.width a.height))
          (mul_comm a.height a.width) (inverting-Writes a.src_buffer output a.width a.height)))
