-- ===== src/Camera/Task/Resume.antt =====
-- What `camera_task` of nanocockpit/lib/camera.c leads to when it goes on.
use native.Mathlib.Nat.{mod-le, mod-eq_of_lt}
use aideck_gap8_examples.Base.{
  ℕ, suc, ◌+◌, ◌%◌, ◌≡◌, ◌≢◌, ◌<◌, ◌⊎◌, inl, inr, refl, sym, ap, ap₂, ◌∙◌, true, false, [], ◌∷◌,
  ◌++◌, ℕ_discrete, arith,
}
use aideck_gap8_examples.Camera.Task.{
  idle, before_capture, await_capture, await_crop, Task, capture, crop, consume, next_frame, waits,
  resume,
}
use aideck_gap8_examples.Camera.Task.Inv.{
  Quiet, pictures, Indices, Shape, between, in_capture, captured, in_crop, was_cropped,
}

module _ (camera_buffers : ℕ) where
  -- The next block runs when its wait, if it has one, finds the event done.
  abbrev pub Ready : Task → Type 0
  Ready t = (waits camera_buffers t ≡ false) ⊎ (t.done (next_frame camera_buffers t) ≡ true)

  stuck :
      (t : Task) (frame : ℕ)
      → waits camera_buffers t ≡ true
      → next_frame camera_buffers t ≡ frame
      → t.done frame ≡ false
      → Ready t
      → ⊥
  stuck t frame w n d (inl e) = ground (arith, w, e)
  stuck t frame w n d (inr e) =
      let f : t.done frame ≡ true = ap t.done (sym n) ∙ e in ground (arith, d, f)

  -- The frame of the next block.
  next-capture :
      (t : Task) (k : ℕ)
      → t.point ≡ before_capture
      → t.capture_idx ≡ k
      → next_frame camera_buffers t ≡ k % camera_buffers
  unfolding next_frame
  next-capture t k p e = rw p (ap (λ x. x % camera_buffers) e)

  next-crop :
      (t : Task) (k : ℕ)
      → t.point ≡ await_capture
      → t.crop_idx ≡ k
      → next_frame camera_buffers t ≡ k % camera_buffers
  unfolding next_frame
  next-crop t k p e = rw p (ap (λ x. x % camera_buffers) e)

  next-consume :
      (t : Task) (k : ℕ)
      → t.point ≡ await_crop
      → t.consume_idx ≡ k
      → next_frame camera_buffers t ≡ k % camera_buffers
  unfolding next_frame
  next-consume t k p e = rw p (ap (λ x. x % camera_buffers) e)

  waits-crop : (t : Task) → t.point ≡ await_capture → waits camera_buffers t ≡ true
  unfolding waits
  waits-crop t p = rw p refl

  waits-consume : (t : Task) → t.point ≡ await_crop → waits camera_buffers t ≡ true
  unfolding waits
  waits-consume t p = rw p refl

  free-capture :
      (t : Task) (k : ℕ)
      → t.point ≡ before_capture
      → t.capture_idx ≡ k
      → Ready t
      → (k < camera_buffers) ⊎ (t.done (k % camera_buffers) ≡ true)
  unfolding waits
  free-capture t k p e (inl w) = inl (ground (arith, p, e, w))
  free-capture t k p e (inr d) = inr (ap t.done (sym (next-capture t k p e)) ∙ d)

  Quiet-idle :
      (t : Task) (k : ℕ)
      → (k < camera_buffers) ⊎ (t.done (k % camera_buffers) ≡ true)
      → Quiet t k (k % camera_buffers)
      → t.activity (k % camera_buffers) ≡ idle
  Quiet-idle t k r (inl a) = a
  Quiet-idle t k (inl less) (inr (a, d, low)) = absurd (omega (arith, mod-eq_of_lt less))
  Quiet-idle t k (inr done) (inr (a, d, low)) = ground (arith, done, d)

  pub Ready-idle :
      (t : Task)
      → Ready t
      → Shape camera_buffers t
      → t.activity (next_frame camera_buffers t) ≡ idle
  Ready-idle t r (between k p i n q) =
      ap t.activity (next-capture t k p i.capture_is)
      ∙ Quiet-idle t k (free-capture t k p i.capture_is r) (q (k % camera_buffers))
  Ready-idle t r (in_capture k p i n a d q) =
      absurd (stuck t (k % camera_buffers) (waits-crop t p) (next-crop t k p i.crop_is) d r)
  Ready-idle t r (captured k p i n a e q) = ap t.activity (next-crop t k p i.crop_is) ∙ a
  Ready-idle t r (in_crop k p i n a d e q) =
      absurd
        (stuck t (k % camera_buffers) (waits-consume t p) (next-consume t k p i.consume_is) d r)
  Ready-idle t r (was_cropped k p i n a e c q) = ap t.activity (next-consume t k p i.consume_is) ∙ a

  capture-Shape :
      (t : Task) (k : ℕ)
      → Indices t k k k
      → t.taken ≡ k
      → ((b : ℕ) → Quiet t k b)
      → Shape camera_buffers (capture camera_buffers t)
  unfolding capture
  capture-Shape t k i n q = rw i.capture_is (
      in_capture k refl
        (record {
          capture_is = ground arith;
          crop_is = ground arith;
          consume_is = ground arith;
          consumed_are = i.consumed_are;
        })
        n (ground arith) (ground arith) (λ b h. let quiet = q b in ground arith))

  crop-Shape :
      (t : Task) (k : ℕ)
      → Indices t (k + 1) k k
      → t.taken ≡ k + 1
      → t.picture (k % camera_buffers) ≡ k
      → ((b : ℕ) → b ≢ k % camera_buffers → Quiet t k b)
      → Shape camera_buffers (crop camera_buffers t)
  unfolding crop
  crop-Shape t k i n e q = rw i.crop_is (
      in_crop k refl
        (record {
          capture_is = i.capture_is;
          crop_is = refl;
          consume_is = i.consume_is;
          consumed_are = i.consumed_are;
        })
        n (ground arith) (ground arith) e (λ b h. let quiet = q b h in ground arith))

  consume-Quiet :
      (t : Task) (k b : ℕ)
      → t.consume_idx ≡ k
      → (b ≢ k % camera_buffers → Quiet t k b)
      → Quiet (consume camera_buffers t) (k + 1) b
  unfolding consume
  consume-Quiet t k b e q = elim (ℕ_discrete b (k % camera_buffers)) [
    | yes same ↦
        let low = mod-le k camera_buffers in
        let f : b ≡ t.consume_idx % camera_buffers = same ∙ ap (λ x. x % camera_buffers) (sym e) in
        inr (ground (arith, f), ground (arith, f), omega arith)
    | no other ↦
        let f : b ≢ t.consume_idx % camera_buffers =
          (λ z. other (z ∙ ap (λ x. x % camera_buffers) e)) in
        let quiet = q other in ground (arith, f)
  ]

  consume-Shape :
      (t : Task) (k : ℕ)
      → Indices t (k + 1) (k + 1) k
      → t.taken ≡ k + 1
      → t.picture (k % camera_buffers) ≡ k
      → t.cropped (k % camera_buffers) ≡ true
      → ((b : ℕ) → b ≢ k % camera_buffers → Quiet t k b)
      → Shape camera_buffers (consume camera_buffers t)
  unfolding consume pictures
  consume-Shape t k i n e c q =
      let f : t.consume_idx % camera_buffers ≡ k % camera_buffers =
        ap (λ x. x % camera_buffers) i.consume_is in
      let grown : pictures (k + 1) ≡ pictures k ++ (k, true) ∷ [] =
        ap pictures {x = k + 1} {y = suc k} (omega arith) in
      between {t = consume camera_buffers t} (k + 1) refl
        (record {
          capture_is = i.capture_is;
          crop_is = i.crop_is;
          consume_is = ap (λ x. x + 1) i.consume_is;
          consumed_are =
              ap₂ (λ xs x. xs ++ x ∷ []) i.consumed_are
                (ap₂ (λ a b. (a, b)) (ap t.picture f ∙ e) (ap t.cropped f ∙ c))
              ∙ sym grown;
        })
        n (λ b. consume-Quiet t k b i.consume_is (q b))

  pub resume-Shape :
      (t : Task) → Ready t → Shape camera_buffers t → Shape camera_buffers (resume camera_buffers t)
  unfolding resume
  resume-Shape t r (between k p i n q) = rw p (capture-Shape t k i n q)
  resume-Shape t r (in_capture k p i n a d q) =
      absurd (stuck t (k % camera_buffers) (waits-crop t p) (next-crop t k p i.crop_is) d r)
  resume-Shape t r (captured k p i n a e q) = rw p (crop-Shape t k i n e q)
  resume-Shape t r (in_crop k p i n a d e q) =
      absurd
        (stuck t (k % camera_buffers) (waits-consume t p) (next-consume t k p i.consume_is) d r)
  resume-Shape t r (was_cropped k p i n a e c q) = rw p (consume-Shape t k i n e c q)
