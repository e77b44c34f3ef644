-- ===== src/WifiStreamer/CpxStream.antt =====
-- examples/other/wifi-img-streamer/cpx_stream.c: an image header and a buffer as CPX packets.
pub mod Receive
pub mod Chunks
pub mod Frame
use aideck_gap8_examples.Base.{
  ℕ, zero, suc, ◌+◌, ◌-◌, ◌/◌, ◌%◌, ◌^◌, ◌≡◌, List, [], ◌∷◌, ◌++◌, take, drop, ltb, if◌then◌else◌,
  write, Outcome, ok, exit, ◌>>=◌,
}
use aideck_gap8_examples.Cpx.Function
use aideck_gap8_examples.Cpx.Target
use aideck_gap8_examples.Com.{mtu}
use aideck_gap8_examples.Router.{Packet, Fault, header_size, init_route, send_packet}

-- `StreamerMode_t`
abbrev pub raw_encoding : ℕ
raw_encoding = 0

abbrev pub jpeg_encoding : ℕ
jpeg_encoding = 1

-- `ImageHeader_t`
pub record ImageHeader : Type 0 where
  pub magic : ℕ
  pub width : ℕ
  pub height : ℕ
  pub depth : ℕ
  pub type : ℕ
  pub size : ℕ

-- Its bytes: packed, the low byte first.
unfoldable pub header_bytes : ImageHeader → List ℕ
header_bytes h =
    (h.magic % 256)
    ∷ (h.width % 256)
    ∷ (h.width / 256 % 256)
    ∷ (h.height % 256)
    ∷ (h.height / 256 % 256)
    ∷ (h.depth % 256)
    ∷ (h.type % 256)
    ∷ (h.size % 256)
    ∷ (h.size / 2 ^ 8 % 256)
    ∷ (h.size / 2 ^ 16 % 256)
    ∷ (h.size / 2 ^ 24 % 256)
    ∷ []

-- The static packet, the buffer in which cpx.c packs it, and the buffers that it has sent.
pub record Link : Type 0 where
  pub packet : Packet
  pub tx : List ℕ
  pub sent : List (List ℕ)

-- `cpx_stream_init`
unfoldable pub init : Link → Link
unfolding init_route
init l = record l {
  packet = record l.packet { route = init_route Target.gap Target.wifi_host Function.app };
}

-- The call of `cpxSendPacketBlocking`.
unfoldable pub send : Link → Outcome Fault Link
send l = do
  image ← send_packet l.tx l.packet
  ok (record l { tx = image; sent = l.sent ++ image ∷ [] })

-- `cpx_stream_send_header`
unfoldable pub send_header : ℕ → ℕ → ℕ → ℕ → Link → Outcome Fault Link
unfolding send header_bytes
send_header width height image_size image_type l =
    let header : ImageHeader = record {
      magic = 0xBC;
      width = width;
      height = height;
      depth = 1;
      type = image_type;
      size = image_size;
    } in
    send (record l {
      packet = record l.packet {
        payload = write l.packet.payload 0 (header_bytes header);
        data_length = 11;
      };
    })

-- Why `send_buffer` may have no result.
pub data Stop : Type 0 where
  out_of_fuel : Stop
  faulty : Fault → Stop

unfoldable pub or_stop : Outcome Fault Link → Outcome Stop Link
or_stop (ok l) = ok l
or_stop (exit f) = exit (faulty f)

-- `chunk_size`
unfoldable pub chunk_size : ℕ → ℕ → ℕ
chunk_size buffer_size offset =
    let whole = mtu - header_size in
    if ltb buffer_size ((offset + whole) % 2 ^ 32) then buffer_size - offset else whole

-- A round of the loop of `cpx_stream_send_buffer`.
unfoldable pub send_chunk : List ℕ → ℕ → ℕ → Link → Outcome Fault Link
unfolding send chunk_size
send_chunk buffer buffer_size offset l =
    let n = chunk_size buffer_size offset in
    send (record l {
      packet = record l.packet {
        payload = write l.packet.payload 0 (take n (drop offset buffer));
        data_length = n % 2 ^ 16;
      };
    })

-- The loop from an offset on.
unfoldable pub send_from : ℕ → List ℕ → ℕ → ℕ → Link → Outcome Stop Link
unfolding send_chunk or_stop chunk_size
send_from zero buffer buffer_size offset l = exit out_of_fuel
send_from (suc fuel) buffer buffer_size offset l =
    if ltb offset buffer_size
    then (or_stop (send_chunk buffer buffer_size offset l) >>= λ l.
        send_from fuel buffer buffer_size ((offset + chunk_size buffer_size offset) % 2 ^ 32) l)
    else ok l

-- `cpx_stream_send_buffer`
unfoldable pub send_buffer : ℕ → List ℕ → ℕ → Link → Outcome Stop Link
unfolding send_from
send_buffer fuel buffer buffer_size l = send_from fuel buffer buffer_size 0 l
