-- ===== src/WifiStreamer/CpxStream/Frame.antt =====
-- A frame as examples/other/wifi-img-streamer/cpx_stream.c sends it: a header, then the buffer.
use aideck_gap8_examples.Base.{
  append-nil, subst, ℕ, suc, ◌+◌, ◌-◌, ◌^◌, ◌≤◌, ◌<◌, ◌≡◌, refl, ap, ◌∙◌, List, [], ◌∷◌, ◌++◌,
  length, take, ok, arith,
}
use aideck_gap8_examples.Com.{mtu}
use aideck_gap8_examples.Router.{header_size, init_route}
use aideck_gap8_examples.WifiStreamer.CpxStream.{
  ImageHeader, header_bytes, Link, init, send_header, send_buffer,
}
use aideck_gap8_examples.WifiStreamer.CpxStream.Receive.{receive, Prepared, Carried, Carried-trans}
use aideck_gap8_examples.WifiStreamer.CpxStream.Chunks.{
  receive-image, loaded, loaded-Prepared, send_from_lem, sent_packet,
}

abbrev pub image_header : ℕ → ℕ → ℕ → ℕ → ImageHeader
image_header width height image_size image_type = record {
  magic = 0xBC;
  width = width;
  height = height;
  depth = 1;
  type = image_type;
  size = image_size;
}

pub init-Prepared :
    (l : Link) → length l.packet.payload ≡ mtu - header_size → Prepared (init l).packet
unfolding init init_route
init-Prepared l h = record {
  destination_fits = omega arith;
  source_fits = omega arith;
  function_fits = omega arith;
  current = refl;
  whole_array = h;
}

-- `cpx_stream_send_header` sends one packet.
pub send_header_lem :
    (width height image_size image_type : ℕ) (l : Link)
    → Prepared l.packet
    → (l' : Link) × (send_header width height image_size image_type l ≡ ok l')
      × Carried (header_bytes (image_header width height image_size image_type)) l l'
unfolding send_header loaded header_bytes receive
send_header_lem width height image_size image_type l f =
    let segment = header_bytes (image_header width height image_size image_type) in
    let (image, p, q) = sent_packet l segment f (omega arith) in
    (
      record l { packet = loaded l.packet segment; tx = image; sent = l.sent ++ image ∷ [] },
      q,
      record {
        images = image ∷ [];
        appended = refl;
        carried = λ queues stale rxp.
            receive-image queues l.tx stale image segment [] l.packet rxp [] f (omega arith) p
              (λ _. refl)
            ∙ ap ok (append-nil segment);
        prepared = loaded-Prepared l.packet segment f (omega arith);
      },
    )

-- `cpx_stream_send_buffer` sends the buffer.
pub send_buffer_lem :
    (buffer : List ℕ) (buffer_size : ℕ) (l : Link)
    → buffer_size ≤ length buffer
    → buffer_size + 1020 < 2 ^ 32
    → Prepared l.packet
    → (l' : Link) × (send_buffer (suc buffer_size) buffer buffer_size l ≡ ok l')
      × Carried (take buffer_size buffer) l l'
unfolding send_buffer
send_buffer_lem buffer buffer_size l fits small f =
    let (l', r, s) =
      send_from_lem (suc buffer_size) buffer buffer_size 0 l fits small (omega arith) (omega arith)
        f in
    let e : buffer_size - 0 ≡ buffer_size = omega arith in
    (l', r, subst (λ n. Carried (take n buffer) l l') e s)

-- After `cpx_stream_init`, with a packet whose data is an array of 1020 bytes, for a buffer that
-- has `image_size` bytes, fewer than 2^32 - 1020: `cpx_stream_send_header` and then
-- `cpx_stream_send_buffer` return without an overrun, and from the packets that they have sent
-- `cpx_rx_task` reads, one packet behind the other, the 11 bytes of the header and the bytes of the
-- buffer, each once and in order, whatever stood in the memory that it reads them into.
pub frame-Carried :
    (buffer : List ℕ) (width height image_size image_type : ℕ) (l : Link)
    → length l.packet.payload ≡ mtu - header_size
    → image_size ≤ length buffer
    → image_size + 1020 < 2 ^ 32
    → (l' l'' : Link) × (send_header width height image_size image_type (init l) ≡ ok l')
      × (send_buffer (suc image_size) buffer image_size l' ≡ ok l'')
      × Carried
          (header_bytes (image_header width height image_size image_type) ++ take image_size buffer)
          (init l)
          l''
frame-Carried buffer width height image_size image_type l whole fits small =
    let (l', p, f) =
      send_header_lem width height image_size image_type (init l) (init-Prepared l whole) in
    let (l'', q, g) = send_buffer_lem buffer image_size l' fits small f.prepared in
    (l', l'', p, q, Carried-trans _ _ (init l) l' l'' f g)
