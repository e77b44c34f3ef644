-- ===== src/WifiStreamer/App.antt =====
-- examples/other/wifi-img-streamer/wifi-img-streamer.c: the WiFi control packets, and a JPEG image
-- in its three parts.
pub mod Jpeg
use aideck_gap8_examples.Base.{
  ℕ, zero, suc, ◌+◌, ◌%◌, ◌^◌, ◌≡◌, Bool, true, false, List, [], ◌∷◌, ◌++◌, length, get_or, drop,
  ◌==◌, ◌!=◌, if◌then◌else◌, write, Outcome, ok, exit, ◌>>=◌,
}
use aideck_gap8_examples.Cpx.Function
use aideck_gap8_examples.Cpx.Header.{cpx_version}
use aideck_gap8_examples.Cpx.Target
use aideck_gap8_examples.Router.{Packet, Fault}
use aideck_gap8_examples.WifiStreamer.CpxStream.{
  Link, Stop, or_stop, jpeg_encoding, send, send_header, send_buffer,
}

-- `WiFiCTRLType`
abbrev pub set_ssid : ℕ
set_ssid = 0x10

abbrev pub wifi_connect : ℕ
wifi_connect = 0x20

abbrev pub status_wifi_connected : ℕ
status_wifi_connected = 0x31

abbrev pub status_client_connected : ℕ
status_client_connected = 0x32

-- A round of `wifi_rx_task` with the data of the packet: `wifi_client_connected` afterwards.
unfoldable pub rx_round : ℕ → List ℕ → ℕ
rx_round connected payload =
    let cmd = get_or payload 0 0 in
    if cmd == status_wifi_connected
    then connected
    else if cmd == status_client_connected
    then get_or payload 1 0
    else connected

-- `setup_wifi`, with the bytes of `ssid`; the link has `wifi_tx_packet`. The other assignment to a
-- route is to `wifi_rx_packet`.
unfoldable pub setup_wifi : List ℕ → Link → Outcome Fault Link
unfolding send
setup_wifi ssid l = do
  named ← send (record l {
    packet = record l.packet {
      route = record l.packet.route {
        destination = Target.esp32;
        function = Function.wifi_ctrl;
        version = cpx_version;
      };
      payload = write (write l.packet.payload 0 (set_ssid ∷ [])) 1 ssid;
      data_length = length ssid % 2 ^ 16;
    };
  })
  send (record named {
    packet = record named.packet {
      payload = write (write named.packet.payload 0 (wifi_connect ∷ [])) 1 (1 ∷ []);
      data_length = 2;
    };
  })

-- What the encoder gave: a header, the data of an image, a footer, and their sizes.
pub record JpegParts : Type 0 where
  pub header : List ℕ
  pub header_size : ℕ
  pub body : List ℕ
  pub body_size : ℕ
  pub footer : List ℕ
  pub footer_size : ℕ

-- `image_size`
abbrev pub jpeg_size : JpegParts → ℕ
jpeg_size j = j.header_size + j.body_size + j.footer_size

-- `send_jpeg`; the fuel of each loop is the size of its buffer and one.
unfoldable pub send_jpeg : ℕ → ℕ → JpegParts → Link → Outcome Stop Link
unfolding or_stop send_header send_buffer
send_jpeg width height j l = do
  announced ← or_stop (send_header width height (jpeg_size j % 2 ^ 32) jpeg_encoding l)
  a ← send_buffer (suc j.header_size) j.header j.header_size announced
  b ← send_buffer (suc j.body_size) j.body j.body_size a
  send_buffer (suc j.footer_size) j.footer j.footer_size b
