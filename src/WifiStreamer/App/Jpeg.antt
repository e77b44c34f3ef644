-- ===== src/WifiStreamer/App/Jpeg.antt =====
-- The packets of `send_jpeg` in examples/other/wifi-img-streamer/wifi-img-streamer.c.
use aideck_gap8_examples.Base.{
  ℕ, suc, ◌+◌, ◌-◌, ◌%◌, ◌^◌, ◌≤◌, ◌<◌, ◌≡◌, ◌++◌, length, take, ok, arith,
}
use aideck_gap8_examples.Com.{mtu}
use aideck_gap8_examples.Router.{header_size}
use aideck_gap8_examples.WifiStreamer.CpxStream.{
  header_bytes, jpeg_encoding, Link, or_stop, init, send_header, send_buffer,
}
use aideck_gap8_examples.WifiStreamer.CpxStream.Receive.{Carried, Carried-trans}
use aideck_gap8_examples.WifiStreamer.CpxStream.Frame.{
  image_header, init-Prepared, send_header_lem, send_buffer_lem,
}
use aideck_gap8_examples.WifiStreamer.App.{JpegParts, jpeg_size, send_jpeg}

send_jpeg-steps :
    (width height : ℕ) (j : JpegParts) (l l₁ l₂ l₃ l₄ : Link)
    → jpeg_size j < 2 ^ 32
    → send_header width height (jpeg_size j) jpeg_encoding l ≡ ok l₁
    → send_buffer (suc j.header_size) j.header j.header_size l₁ ≡ ok l₂
    → send_buffer (suc j.body_size) j.body j.body_size l₂ ≡ ok l₃
    → send_buffer (suc j.footer_size) j.footer j.footer_size l₃ ≡ ok l₄
    → send_jpeg width height j l ≡ ok l₄
unfolding send_jpeg or_stop
send_jpeg-steps width height j l l₁ l₂ l₃ l₄ small p q r s =
    let e : jpeg_size j % 2 ^ 32 ≡ jpeg_size j = omega arith in rw e (rw p (rw q (rw r s)))

-- After `cpx_stream_init`, when each of the three buffers has the bytes that its size says and the
-- sizes are together below 2^32 - 1020, `send_jpeg` returns without an overrun. `cpx_rx_task` reads from
-- its packets a header with the sum of the three sizes, and then that many bytes: those of the
-- image's header, its data and its footer.
pub send_jpeg_lem :
    (width height : ℕ) (j : JpegParts) (l : Link)
    → length l.packet.payload ≡ mtu - header_size
    → j.header_size ≤ length j.header
    → j.body_size ≤ length j.body
    → j.footer_size ≤ length j.footer
    → jpeg_size j + 1020 < 2 ^ 32
    → (l' : Link) × (send_jpeg width height j (init l) ≡ ok l')
      × Carried
          (header_bytes (image_header width height (jpeg_size j) jpeg_encoding)
            ++ (take j.header_size j.header
                ++ (take j.body_size j.body ++ take j.footer_size j.footer)))
          (init l)
          l'
send_jpeg_lem width height j l whole a b c small =
    let (l₁, p₁, f₁) =
      send_header_lem width height (jpeg_size j) jpeg_encoding (init l) (init-Prepared l whole) in
    let (l₂, p₂, f₂) = send_buffer_lem j.header j.header_size l₁ a (omega arith) f₁.prepared in
    let (l₃, p₃, f₃) = send_buffer_lem j.body j.body_size l₂ b (omega arith) f₂.prepared in
    let (l₄, p₄, f₄) = send_buffer_lem j.footer j.footer_size l₃ c (omega arith) f₃.prepared in
    (
      l₄,
      send_jpeg-steps width height j (init l) l₁ l₂ l₃ l₄ (omega arith) p₁ p₂ p₃ p₄,
      Carried-trans _ _ (init l) l₁ l₄ f₁
          (Carried-trans _ _ l₁ l₂ l₄ f₂ (Carried-trans _ _ l₂ l₃ l₄ f₃ f₄)),
    )
