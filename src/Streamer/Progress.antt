-- ===== src/Streamer/Progress.antt =====
-- How far a frame has come that nanocockpit/lib/streamer.c receives, packet by packet.
use native.Mathlib.Nat.{add-zero}
use aideck_gap8_examples.Base.{
  bytes, write, ℕ, ◌+◌, ◌%◌, ◌^◌, ◌≤◌, ◌<◌, ◌≡◌, ◌≢◌, ◌⊎◌, inl, inr, refl, sym, subst, ap, ap₂, ◌∙◌,
  Bool, false, List, ◌∷◌, ◌++◌, length, take, ◌==◌, if◌then◌else◌, ok, ==_of_eq, ==_of_ne,
  ℕ_discrete, arith,
}
use mathlib.Core.Logic.{if_pos}
use aideck_gap8_examples.Spi.{null}
use aideck_gap8_examples.Crc32.{Statics}
use aideck_gap8_examples.Crc32.Laws.{AreBytes}
use aideck_gap8_examples.Crc32.Laws
use aideck_gap8_examples.Streamer.Packet.{type_image, buffer_data, command_of, begin_head}
use aideck_gap8_examples.Streamer.Receive.{
  Buffer, Received, complete, packet_received, Streamer, put, cpx_callback,
}
use aideck_gap8_examples.Base.{length-bytes, bytes-append, take-write, length-write}
use aideck_gap8_examples.Streamer.Steps.{
  checksum_of, complete_lem, filled, data_packet_lem, begin_packet_lem, announced,
}

-- A frame of `frame_size` bytes at `at` that is sent with a checksum, and the buffer at `id` into
-- which it is received, for a client that waits for `task`; `pushed` are the tasks pushed before.
pub record Job : Type 0 where
  pub check : Bool
  pub memory : ℕ → ℕ
  pub at : ℕ
  pub frame_size : ℕ
  pub checksum : ℕ
  pub id : ℕ
  pub task : ℕ
  pub pushed : List ℕ

module _ (x : Job) where
  open x use {check, memory, at, frame_size, checksum, id, task, pushed}

  -- The buffer has the first `r` bytes of the frame.
  pub record Partial (b : Buffer) (r : ℕ) : Type 0 where
    pub size : b.size ≡ frame_size
    pub received : b.received_size ≡ r
    pub sum : b.checksum ≡ checksum
    pub task_kept : b.done_task ≡ task
    pub so_far : take r b.storage ≡ bytes memory at r
    pub room : frame_size ≤ length b.storage

  -- The streamer waits for the rest of the buffer at `id`.
  pub record Waiting (s : Streamer) : Type 0 where
    pub waits : s.buffer_rx ≡ id
    pub task_set : (s.buffers id).done_task ≡ task
    pub pushed_before : s.pushed ≡ pushed
    pub crc_ready : Laws.IsReady s.crc

  -- The buffer has the frame, its task was pushed once, and nothing waits.
  pub record Finished (s : Streamer) : Type 0 where
    pub idle : s.buffer_rx ≡ null
    pub received : (s.buffers id).received_size ≡ frame_size
    pub whole : take frame_size (s.buffers id).storage ≡ bytes memory at frame_size
    pub task_done : (s.buffers id).done_task ≡ null
    pub pushed_once : s.pushed ≡ task ∷ pushed
    pub crc_ready : Laws.IsReady s.crc

  pub record Setting : Type 0 where
    pub id_set : id ≢ null
    pub words : frame_size % 4 ≡ 0
    pub not_empty : 0 < frame_size
    pub small : frame_size < 2 ^ 31
    pub are_bytes : AreBytes (bytes memory at frame_size)
    pub right_sum : (checksum ≡ 0) ⊎ (checksum ≡ checksum_of (bytes memory at frame_size))

  -- After a segment is copied into the waiting buffer.
  filled-so_far :
      (b : Buffer) (r m : ℕ)
      → b.received_size ≡ r
      → take r b.storage ≡ bytes memory at r
      → r + m ≤ length b.storage
      → take (r + m) (filled b (bytes memory (at + r) m)).storage ≡ bytes memory at (r + m)
  filled-so_far b r m e f h =
      ap₂ (λ o k. take (r + k) (write b.storage o segment)) e (sym (length-bytes memory (at + r) m))
      ∙ take-write b.storage r segment (omega arith)
      ∙ ap (λ t. t ++ segment) f
      ∙ sym (bytes-append memory at r m)
    where
      segment : List ℕ
      segment = bytes memory (at + r) m

  filled-Partial :
      (b : Buffer) (r m : ℕ)
      → Partial b r
      → r + m ≤ frame_size
      → Partial (filled b (bytes memory (at + r) m)) (r + m)
  filled-Partial b r m p h = record {
    size = p.size;
    received = omega (arith, p.received, length-bytes memory (at + r) m);
    sum = p.sum;
    task_kept = p.task_kept;
    so_far = filled-so_far b r m p.received p.so_far (omega arith);
    room = omega (
      arith,
      length-bytes memory (at + r) m,
      length-write b.storage b.received_size (bytes memory (at + r) m),
    );
  }

  abbrev pub settled : Streamer → Received → Streamer
  settled s r = record {
    buffer_rx = if r.done then null else s.buffer_rx;
    buffers = put s.buffers s.buffer_rx r.buffer;
    crc = r.crc;
    pushed = if r.done then (s.buffers s.buffer_rx).done_task ∷ s.pushed else s.pushed;
  }

  callback-settled :
      (s : Streamer) (packet : List ℕ) (payload_length : ℕ) (r : Received)
      → s.buffer_rx ≢ null
      → packet_received check s.crc (s.buffers s.buffer_rx) packet payload_length ≡ ok r
      → cpx_callback check s packet payload_length ≡ ok (settled s r)
  unfolding cpx_callback
  callback-settled s packet payload_length r ne e = rw (==_of_ne ne, e)

  -- Where the frame stands after `r` bytes.
  abbrev pub Progress : Streamer → ℕ → Type 0
  Progress s r =
      ((r < frame_size) × Waiting s × Partial (s.buffers id) r) ⊎ ((r ≡ frame_size) × Finished s)

  put-here : (s : Streamer) (b : Buffer) → Waiting s → put s.buffers s.buffer_rx b id ≡ b
  put-here s b w = if_pos (ℕ_discrete s.buffer_rx id) w.waits b (s.buffers id)

  settled-more :
      (s : Streamer) (b : Buffer) (r : ℕ)
      → Waiting s
      → Partial b r
      → r < frame_size
      → Progress (settled s (record { crc = s.crc; buffer = b; done = false })) r
  settled-more s b r w p h = inl (
    h,
    record {
      waits = w.waits;
      task_set = ap (λ (t : Buffer). t.done_task) (put-here s b w) ∙ p.task_kept;
      pushed_before = w.pushed_before;
      crc_ready = w.crc_ready;
    },
    subst (λ t. Partial t r) (sym (put-here s b w)) p,
  )

  settled-last :
      (s : Streamer) (b : Buffer)
      → Setting
      → Waiting s
      → Partial b frame_size
      → Progress (settled s (complete check s.crc b)) frame_size
  settled-last s b g w p =
      let (d, e, k) =
        complete_lem check s.crc b (bytes memory at frame_size) full w.crc_ready g.are_bytes sum in
      let here = put-here s (complete check s.crc b).buffer w ∙ e in
      inr (
        refl,
        record {
          idle = ap (λ (t : Bool). if t then null else s.buffer_rx) d;
          received = ap (λ (t : Buffer). t.received_size) here ∙ p.received;
          whole = ap (λ (t : Buffer). take frame_size t.storage) here ∙ p.so_far;
          task_done = ap (λ (t : Buffer). t.done_task) here;
          pushed_once =
              ap
                (λ (t : Bool). if t then (s.buffers s.buffer_rx).done_task ∷ s.pushed else s.pushed)
                d
              ∙ ap₂ ◌∷◌ (ap (λ t. (s.buffers t).done_task) w.waits ∙ w.task_set) w.pushed_before;
          crc_ready = k;
        },
      )
    where
      full : take b.size b.storage ≡ bytes memory at frame_size
      full = ap (λ n. take n b.storage) p.size ∙ p.so_far

      sum : (b.checksum ≡ 0) ⊎ (b.checksum ≡ checksum_of (bytes memory at frame_size))
      sum =
          subst (λ c. (c ≡ 0) ⊎ (c ≡ checksum_of (bytes memory at frame_size))) (sym p.sum)
            g.right_sum

  -- What comes of a segment of `m` bytes behind the first `r`.
  abbrev pub outcome_of : Statics → Buffer → ℕ → ℕ → Received
  outcome_of crc b r m =
      if (r + m) == frame_size
      then complete check crc (filled b (bytes memory (at + r) m))
      else record { crc = crc; buffer = filled b (bytes memory (at + r) m); done = false }

  -- A segment that is copied into a partial buffer brings the frame on.
  copy-Progress :
      (s : Streamer) (b : Buffer) (r m : ℕ)
      → Setting
      → Waiting s
      → Partial b r
      → r + m ≤ frame_size
      → Progress (settled s (outcome_of s.crc b r m)) (r + m)
  copy-Progress s b r m g w p h = elim (ℕ_discrete (r + m) frame_size) [
    | yes e ↦ rw (==_of_eq e) (
        subst (Progress (settled s (complete check s.crc (filled b (bytes memory (at + r) m)))))
          (sym e)
          (settled-last s (filled b (bytes memory (at + r) m)) g w
            (subst (Partial (filled b (bytes memory (at + r) m))) e (filled-Partial b r m p h))))
    | no ne ↦ rw (==_of_ne ne) (
        settled-more s (filled b (bytes memory (at + r) m)) (r + m) w (filled-Partial b r m p h)
          (omega arith))
  ]

  -- A packet of a later segment.
  pub data-Progress :
      (s : Streamer) (head : List ℕ) (r m : ℕ)
      → Setting
      → Waiting s
      → Partial (s.buffers id) r
      → length head ≡ 4
      → command_of head ≡ buffer_data
      → m < 2 ^ 16
      → r + m ≤ frame_size
      → (s' : Streamer) × (cpx_callback check s
            (head ++ bytes memory (at + r) m)
            (length head + length (bytes memory (at + r) m))
          ≡ ok s')
        × Progress s' (r + m)
  data-Progress s head r m g w p l c short h = (
    settled s outcome,
    callback-settled s (head ++ segment) (length head + length segment) outcome
        (rw w.waits g.id_set) handled,
    copy-Progress s (s.buffers id) r m g w p h,
  )
    where
      segment : List ℕ
      segment = bytes memory (at + r) m

      outcome : Received
      outcome = outcome_of s.crc (s.buffers id) r m

      same :
          ((s.buffers id).received_size + length segment == (s.buffers id).size)
          ≡ ((r + m) == frame_size)
      same = ap₂ ◌==◌ (omega (arith, p.received, length-bytes memory (at + r) m)) p.size

      handled :
          packet_received check s.crc
            (s.buffers s.buffer_rx)
            (head ++ segment)
            (length head + length segment)
          ≡ ok outcome
      handled =
          ap
            (λ t.
              packet_received check s.crc (s.buffers t) (head ++ segment)
                (length head + length segment))
            w.waits
          ∙ data_packet_lem check s.crc (s.buffers id) head segment l c
              (λ z. omega (arith, g.not_empty, p.size, z)) (omega (arith, g.small, p.size))
              (omega (arith, p.received, p.size, length-bytes memory (at + r) m))
              (omega (arith, length-bytes memory (at + r) m))
          ∙ ap
              (λ t. ok (
                if t
                then complete check s.crc (filled (s.buffers id) segment)
                else record { crc = s.crc; buffer = filled (s.buffers id) segment; done = false }))
              same

  -- The first packet.
  pub begin-Progress :
      (s : Streamer) (m : ℕ)
      → Setting
      → Waiting s
      → checksum < 2 ^ 32
      → frame_size ≤ (s.buffers id).storage_capacity
      → frame_size ≤ length (s.buffers id).storage
      → m < 2 ^ 16
      → m ≤ frame_size
      → (s' : Streamer) × (cpx_callback check s
            (begin_head type_image frame_size checksum ++ bytes memory at m)
            (length (begin_head type_image frame_size checksum) + length (bytes memory at m))
          ≡ ok s')
        × Progress s' m
  begin-Progress s m g w sum room long short h = (
    settled s (outcome_of s.crc b 0 m),
    callback-settled s (begin_head type_image frame_size checksum ++ bytes memory at m)
        (length (begin_head type_image frame_size checksum) + length (bytes memory at m))
        (outcome_of s.crc b 0 m) (rw w.waits g.id_set) handled,
    subst (Progress (settled s (outcome_of s.crc b 0 m))) zero-add
        (copy-Progress s b 0 m g w fresh (omega arith)),
  )
    where
      zero-add : 0 + m ≡ m
      zero-add = omega arith

      b : Buffer
      b = announced (s.buffers id) type_image frame_size checksum

      fresh : Partial b 0
      fresh = record {
        size = refl;
        received = refl;
        sum = refl;
        task_kept = w.task_set;
        so_far = refl;
        room = long;
      }

      same : ((0 + length (bytes memory at m)) == frame_size) ≡ ((0 + m) == frame_size)
      same = ap (λ t. (0 + t) == frame_size) (length-bytes memory at m)

      handled :
          packet_received check s.crc
            (s.buffers s.buffer_rx)
            (begin_head type_image frame_size checksum ++ bytes memory at m)
            (length (begin_head type_image frame_size checksum) + length (bytes memory at m))
          ≡ ok (outcome_of s.crc b 0 m)
      handled =
          ap
            (λ t.
              packet_received check s.crc (s.buffers t)
                (begin_head type_image frame_size checksum ++ bytes memory at m)
                (length (begin_head type_image frame_size checksum) + length (bytes memory at m)))
            w.waits
          ∙ begin_packet_lem check s.crc (s.buffers id) type_image frame_size checksum
              (bytes memory at m) g.not_empty (omega (arith, g.small)) sum room
              (omega (arith, length-bytes memory at m)) (omega (arith, length-bytes memory at m))
          ∙ ap₂
              (λ t a. ok (
                if t
                then complete check s.crc (filled b (bytes memory a m))
                else record { crc = s.crc; buffer = filled b (bytes memory a m); done = false }))
              same (sym (add-zero at))
