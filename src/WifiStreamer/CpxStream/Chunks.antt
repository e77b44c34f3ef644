-- ===== src/WifiStreamer/CpxStream/Chunks.antt =====
-- The packets of `cpx_stream_send_buffer` carry the buffer.
use aideck_gap8_examples.Base.{
  ℕ, zero, suc, ◌+◌, ◌-◌, ◌%◌, ◌^◌, ◌≤◌, ◌<◌, ◌≡◌, refl, sym, ap, ◌∙◌, List, [], ◌∷◌, ◌++◌,
  append_assoc, append-nil, length, take-then-take, drop-then-drop, length-take, length-drop, take,
  drop, take-append_self, write, length-write, ok, arith, dec_lt,
}
use aideck_gap8_examples.Com.{mtu}
use aideck_gap8_examples.Router.{Packet, Queues, header_size, send_packet}
use aideck_gap8_examples.Router.RoundTrip.{Fitting, rx_round-image, send_packet-rx_round}
use aideck_gap8_examples.WifiStreamer.CpxStream.{
  Link, or_stop, send, chunk_size, send_chunk, send_from,
}
use aideck_gap8_examples.WifiStreamer.CpxStream.Receive.{receive, Prepared, Carried}

-- A packet with this data.
unfoldable pub loaded : Packet → List ℕ → Packet
loaded p segment = record p { payload = write p.payload 0 segment; data_length = length segment }

loaded-length :
    (p : Packet) (segment : List ℕ)
    → Prepared p
    → length segment ≤ mtu - header_size
    → length (write p.payload 0 segment) ≡ mtu - header_size
loaded-length p segment f h =
    length-write p.payload 0 segment (omega (arith, f.whole_array)) ∙ f.whole_array

pub loaded-Prepared :
    (p : Packet) (segment : List ℕ)
    → Prepared p
    → length segment ≤ mtu - header_size
    → Prepared (loaded p segment)
unfolding loaded
loaded-Prepared p segment f h = record {
  destination_fits = f.destination_fits;
  source_fits = f.source_fits;
  function_fits = f.function_fits;
  current = f.current;
  whole_array = loaded-length p segment f h;
}

loaded-Fitting :
    (p : Packet) (segment : List ℕ)
    → Prepared p
    → length segment ≤ mtu - header_size
    → Fitting (loaded p segment)
unfolding loaded
loaded-Fitting p segment f h = record {
  destination_fits = f.destination_fits;
  source_fits = f.source_fits;
  function_fits = omega (arith, f.function_fits);
  current = f.current;
  short = h;
  whole = omega (arith, loaded-length p segment f h);
}

pub sent_packet :
    (l : Link) (segment : List ℕ)
    → Prepared l.packet
    → length segment ≤ mtu - header_size
    → (image : List ℕ) × (send_packet l.tx (loaded l.packet segment) ≡ ok image)
      × (send (record l { packet = loaded l.packet segment })
          ≡ ok (record l {
            packet = loaded l.packet segment;
            tx = image;
            sent = l.sent ++ image ∷ [];
          }))
unfolding send loaded
sent_packet l segment f h =
    let (image, q, e, _, _, _, _, _) =
      send_packet-rx_round l.tx [] [] (loaded l.packet segment) l.packet
        (loaded-Fitting l.packet segment f h) f.function_fits in
    (image, e, rw e refl)

pub receive-image :
    (queues : Queues) (tx stale image segment : List ℕ) (images : List (List ℕ)) (p rxp : Packet)
    (bs : List ℕ)
    → Prepared p
    → length segment ≤ mtu - header_size
    → send_packet tx (loaded p segment) ≡ ok image
    → ((rxp : Packet) → receive queues stale rxp images ≡ ok bs)
    → receive queues stale rxp (image ∷ images) ≡ ok (segment ++ bs)
unfolding receive loaded
receive-image queues tx stale image segment images p rxp bs f h sent rest =
    let (q, o, e, same) =
      rx_round-image tx stale image queues (loaded p segment) rxp (loaded-Fitting p segment f h)
        f.function_fits sent in
    rw e (rw (rest q) (ap (λ t. ok (t ++ bs)) (same ∙ take-append_self segment _)))

chunk_size_lem :
    (buffer_size offset : ℕ)
    → offset < buffer_size
    → buffer_size + 1020 < 2 ^ 32
    → (1 ≤ chunk_size buffer_size offset)
      × (chunk_size buffer_size offset ≤ mtu - header_size)
      × (offset + chunk_size buffer_size offset ≤ buffer_size)
unfolding chunk_size
chunk_size_lem buffer_size offset h k = (ground arith, ground arith, ground arith)

-- One chunk and those behind it.
chunks_join :
    (buffer : List ℕ) (buffer_size offset n : ℕ)
    → offset + n ≤ buffer_size
    → take n (drop offset buffer) ++ take (buffer_size - (offset + n)) (drop (offset + n) buffer)
      ≡ take (buffer_size - offset) (drop offset buffer)
chunks_join buffer buffer_size offset n h =
    let e : n + (buffer_size - (offset + n)) ≡ buffer_size - offset = omega arith in
    rw (sym (drop-then-drop buffer offset n)) (
      take-then-take (drop offset buffer) n (buffer_size - (offset + n))
      ∙ ap (λ t. take t (drop offset buffer)) e)

-- After one chunk.
abbrev chunked : Link → List ℕ → List ℕ → Link
unfolding loaded
chunked l segment image = record l {
  packet = loaded l.packet segment;
  tx = image;
  sent = l.sent ++ image ∷ [];
}

chunk-length :
    (buffer : List ℕ) (buffer_size offset n : ℕ)
    → buffer_size ≤ length buffer
    → offset + n ≤ buffer_size
    → length (take n (drop offset buffer)) ≡ n
chunk-length buffer buffer_size offset n a h =
    omega (arith, length-take n (drop offset buffer), length-drop offset buffer)

send_chunk_lem :
    (buffer : List ℕ) (buffer_size offset : ℕ) (l : Link)
    → buffer_size ≤ length buffer
    → buffer_size + 1020 < 2 ^ 32
    → offset < buffer_size
    → Prepared l.packet
    → let segment = take (chunk_size buffer_size offset) (drop offset buffer) in
      (image : List ℕ) × (send_packet l.tx (loaded l.packet segment) ≡ ok image)
      × (send_chunk buffer buffer_size offset l ≡ ok (chunked l segment image))
unfolding send_chunk loaded chunked
send_chunk_lem buffer buffer_size offset l a b h f =
    let n = chunk_size buffer_size offset in
    let segment = take n (drop offset buffer) in
    let (some_bytes, fits, inside) = chunk_size_lem buffer_size offset h b in
    let e : length segment ≡ n = chunk-length buffer buffer_size offset n a inside in
    let whole : n % 2 ^ 16 ≡ length segment = omega arith in
    let (image, p, q) = sent_packet l segment f (omega arith) in (image, p, rw whole q)

send_from-chunk :
    (fuel : ℕ) (buffer : List ℕ) (buffer_size offset : ℕ) (l u : Link)
    → buffer_size + 1020 < 2 ^ 32
    → offset < buffer_size
    → send_chunk buffer buffer_size offset l ≡ ok u
    → send_from (suc fuel) buffer buffer_size offset l
      ≡ send_from fuel buffer buffer_size (offset + chunk_size buffer_size offset) u
unfolding send_from or_stop
send_from-chunk fuel buffer buffer_size offset l u b h e =
    let (_, _, inside) = chunk_size_lem buffer_size offset h b in
    let small : (offset + chunk_size buffer_size offset) % 2 ^ 32
        ≡ offset + chunk_size buffer_size offset =
      omega arith in
    ground (arith, e, small)

send_from-end :
    (fuel : ℕ) (buffer : List ℕ) (buffer_size offset : ℕ) (l : Link)
    → buffer_size ≤ offset
    → send_from (suc fuel) buffer buffer_size offset l ≡ ok l
unfolding send_from
send_from-end fuel buffer buffer_size offset l h = ground arith

pub send_from_lem :
    (fuel : ℕ) (buffer : List ℕ) (buffer_size offset : ℕ) (l : Link)
    → buffer_size ≤ length buffer
    → buffer_size + 1020 < 2 ^ 32
    → offset ≤ buffer_size
    → buffer_size - offset < fuel
    → Prepared l.packet
    → (l' : Link) × (send_from fuel buffer buffer_size offset l ≡ ok l')
      × Carried (take (buffer_size - offset) (drop offset buffer)) l l'
unfolding chunked loaded receive
send_from_lem zero buffer buffer_size offset l a b c d f = absurd (omega arith)
send_from_lem (suc fuel) buffer buffer_size offset l a b c d f = elim (dec_lt offset buffer_size) [
  | yes h ↦
      let n = chunk_size buffer_size offset in
      let segment = take n (drop offset buffer) in
      let (some_bytes, fits, inside) = chunk_size_lem buffer_size offset h b in
      let short : length segment ≤ mtu - header_size =
        omega (arith, chunk-length buffer buffer_size offset n a inside) in
      let (image, p, q) = send_chunk_lem buffer buffer_size offset l a b h f in
      let (l', r, s) =
        send_from_lem fuel buffer buffer_size (offset + n) (chunked l segment image) a b inside
          (omega arith) (loaded-Prepared l.packet segment f short) in
      (
        l',
        send_from-chunk fuel buffer buffer_size offset l (chunked l segment image) b h q ∙ r,
        record {
          images = image ∷ s.images;
          appended = s.appended ∙ append_assoc l.sent (image ∷ []) s.images;
          carried = λ queues stale rxp.
              receive-image queues l.tx stale image segment s.images l.packet rxp _ f short p
                (s.carried queues stale)
              ∙ ap ok (chunks_join buffer buffer_size offset n inside);
          prepared = s.prepared;
        },
      )
  | no h ↦
      let e : buffer_size - offset ≡ 0 = omega arith in
      (
        l,
        send_from-end fuel buffer buffer_size offset l (omega arith),
        record {
          images = [];
          appended = sym (append-nil l.sent);
          carried = λ queues stale rxp. rw e refl;
          prepared = f;
        },
      )
]
