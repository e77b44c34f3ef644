-- ===== src/Camera/Task/Finish.antt =====
-- What the end of a capture, of cropping or of a consumer leads to in nanocockpit/lib/camera.c.
use aideck_gap8_examples.Base.{
  ℕ, ◌+◌, ◌%◌, ◌≡◌, ◌≢◌, refl, sym, subst, ap, ◌∙◌, true, ℕ_discrete, arith,
}
use aideck_gap8_examples.Camera.Task.{idle, capturing, cropping, Task, finish}
use aideck_gap8_examples.Camera.Task.Inv.{
  Quiet, Indices, Shape, between, in_capture, captured, in_crop, was_cropped,
}

finish-Quiet : (t : Task) (frame k b : ℕ) → Quiet t k b → Quiet (finish frame t) k b
unfolding finish
finish-Quiet t frame k b q = elim (ℕ_discrete b frame) [
  | yes same ↦ ground (arith, ap t.activity same)
  | no other ↦ ground arith
]

finish-point : (t : Task) (frame : ℕ) → (finish frame t).point ≡ t.point
unfolding finish
finish-point t frame = ground arith

finish-Indices : (t : Task) (frame a b c : ℕ) → Indices t a b c → Indices (finish frame t) a b c
unfolding finish
finish-Indices t frame a b c i = record {
  capture_is = ground (arith, i.capture_is);
  crop_is = ground (arith, i.crop_is);
  consume_is = ground (arith, i.consume_is);
  consumed_are = ground (arith, i.consumed_are);
}

finish-taken :
    (t : Task) (frame : ℕ) → t.activity frame ≢ capturing → (finish frame t).taken ≡ t.taken
unfolding finish
finish-taken t frame n = ground arith

Quiet-taken : (t : Task) (frame k : ℕ) → Quiet t k frame → (finish frame t).taken ≡ t.taken
unfolding finish
Quiet-taken t frame k q = ground arith

-- Another frame is not touched.
finish-other :
    (t : Task) (frame b : ℕ)
    → b ≢ frame
    → ((finish frame t).activity b ≡ t.activity b)
      × ((finish frame t).done b ≡ t.done b)
      × ((finish frame t).picture b ≡ t.picture b)
      × ((finish frame t).cropped b ≡ t.cropped b)
unfolding finish
finish-other t frame b h = (ground arith, ground arith, ground arith, ground arith)

finish-capture :
    (t : Task) (b : ℕ)
    → t.activity b ≡ capturing
    → ((finish b t).activity b ≡ idle)
      × ((finish b t).picture b ≡ t.taken)
      × ((finish b t).taken ≡ t.taken + 1)
unfolding finish
finish-capture t b a = (ground arith, ground arith, ground arith)

finish-crop :
    (t : Task) (b : ℕ)
    → t.activity b ≡ cropping
    → ((finish b t).activity b ≡ idle)
      × ((finish b t).picture b ≡ t.picture b)
      × ((finish b t).taken ≡ t.taken)
      × ((finish b t).cropped b ≡ true)
unfolding finish
finish-crop t b a = (ground arith, ground arith, ground arith, ground arith)

finish-idle : (t : Task) (b : ℕ) → t.activity b ≡ idle → finish b t ≡ t
unfolding finish
finish-idle t b a = rw (finish, a) refl

module _ (camera_buffers : ℕ) where
  pub finish-Shape :
      (t : Task) (frame : ℕ) → Shape camera_buffers t → Shape camera_buffers (finish frame t)
  finish-Shape t frame (between k p i n q) =
      between k (finish-point t frame ∙ p) (finish-Indices t frame k k k i)
        (Quiet-taken t frame k (q frame) ∙ n) (λ b. finish-Quiet t frame k b (q b))
  finish-Shape t frame (in_capture k p i n a d q) = elim (ℕ_discrete (k % camera_buffers) frame) [
    | yes same ↦
        let (x, y, z) = finish-capture t frame (ap t.activity (sym same) ∙ a) in
        captured k (finish-point t frame ∙ p) (finish-Indices t frame (k + 1) k k i)
          (z ∙ ap (λ x. x + 1) n) (ap (finish frame t).activity same ∙ x)
          (ap (finish frame t).picture same ∙ y ∙ n) (λ b h. finish-Quiet t frame k b (q b h))
    | no other ↦
        let (x, y, z, w) = finish-other t frame (k % camera_buffers) other in
        in_capture k (finish-point t frame ∙ p) (finish-Indices t frame (k + 1) k k i)
          (Quiet-taken t frame k (q frame (λ e. other (sym e))) ∙ n) (x ∙ a) (y ∙ d)
          (λ b h. finish-Quiet t frame k b (q b h))
  ]
  finish-Shape t frame (captured k p i n a e q) = elim (ℕ_discrete (k % camera_buffers) frame) [
    | yes same ↦
        subst (Shape camera_buffers) (sym (finish-idle t frame (ap t.activity (sym same) ∙ a)))
          (captured k p i n a e q)
    | no other ↦
        let (x, y, z, w) = finish-other t frame (k % camera_buffers) other in
        captured k (finish-point t frame ∙ p) (finish-Indices t frame (k + 1) k k i)
          (Quiet-taken t frame k (q frame (λ e. other (sym e))) ∙ n) (x ∙ a) (z ∙ e)
          (λ b h. finish-Quiet t frame k b (q b h))
  ]
  finish-Shape t frame (in_crop k p i n a d e q) = elim (ℕ_discrete (k % camera_buffers) frame) [
    | yes same ↦
        let (x, y, z, w) = finish-crop t frame (ap t.activity (sym same) ∙ a) in
        was_cropped k (finish-point t frame ∙ p) (finish-Indices t frame (k + 1) (k + 1) k i)
          (z ∙ n) (ap (finish frame t).activity same ∙ x)
          (ap (finish frame t).picture same ∙ y ∙ ap t.picture (sym same) ∙ e)
          (ap (finish frame t).cropped same ∙ w) (λ b h. finish-Quiet t frame k b (q b h))
    | no other ↦
        let (x, y, z, w) = finish-other t frame (k % camera_buffers) other in
        in_crop k (finish-point t frame ∙ p) (finish-Indices t frame (k + 1) (k + 1) k i)
          (Quiet-taken t frame k (q frame (λ e. other (sym e))) ∙ n) (x ∙ a) (y ∙ d) (z ∙ e)
          (λ b h. finish-Quiet t frame k b (q b h))
  ]
  finish-Shape t frame (was_cropped k p i n a e c q) =
      elim (ℕ_discrete (k % camera_buffers) frame) [
        | yes same ↦
            subst (Shape camera_buffers) (sym (finish-idle t frame (ap t.activity (sym same) ∙ a)))
              (was_cropped k p i n a e c q)
        | no other ↦
            let (x, y, z, w) = finish-other t frame (k % camera_buffers) other in
            was_cropped k (finish-point t frame ∙ p) (finish-Indices t frame (k + 1) (k + 1) k i)
              (Quiet-taken t frame k (q frame (λ e. other (sym e))) ∙ n) (x ∙ a) (z ∙ e) (w ∙ c)
              (λ b h. finish-Quiet t frame k b (q b h))
      ]
