-- ===== src/Transport/SpiHd/RoundTrip.antt =====
-- The bytes of a write as the other end of the bus takes them (slave/main/spi_hd_slave_api.c).
use esp_hosted_open.Prelude.{
  ℕ, zero, suc, ◌+◌, ◌*◌, ◌%◌, ◌^◌, ◌≡◌, refl, ◌∙◌, subst, Bool, true, false, not, ◌&&◌, Option,
  none, some, List, [], ◌∷◌, ◌++◌, arith, le→ltb_false, ◌==◌, if◌then◌else◌, length,
}
use esp_hosted_open.Transport.{
  Checksum, BufHandle, State, is_active, Header, frame, tx_header, copy_payload,
}
use esp_hosted_open.Transport.Frame.{
  blank, verify-frame, rx_flags-frame, rx_len-frame, rx_offset-frame, rx_if_type-blank,
  rx_if_num-blank, length-frame,
}
use esp_hosted_open.Transport.Queues.{Packet, Rx, deliver}
use esp_hosted_open.Transport.Throttle.FlowControl.{start_flow}
use esp_hosted_open.Transport.Uart.{no_payload}
use esp_hosted_open.Transport.Uart.Wire.{IsSendable}
use esp_hosted_open.Transport.Uart.Peer.{
  IsShort, payload_of, length-copy_payload, IsShort-IsSendable,
}
use esp_hosted_open.Transport.SpiHd.{
  SpiHd, Call, returns, hd_frame, hd_write, esp_spi_hd_write, triggered, hd_flagged,
  spi_hd_rx_round,
}

-- what a write that answers has given to the peripheral
abbrev Sends : Checksum → BufHandle → ℕ → SpiHd → SpiHd → Type 0
Sends sum b n d e =
    (e.transmitting
      ≡ d.transmitting ++ frame sum (tx_header b b.wifi_flow_ctrl_en) (payload_of b) ∷ [])
    × (length (payload_of b) ≡ b.payload_len)
    × (n ≡ b.payload_len)

unless-returns :
    (guard : Bool) (d e : SpiHd) (c : Call) (n : ℕ)
    → (if guard then returns none d else c) ≡ returns (some n) e
    → c ≡ returns (some n) e
unless-returns true d e c n x = cc
unless-returns false d e c n x = x

module _ (sum : Checksum) (depth : ℕ) (handler : Bool) where
  hd_frame-Sends :
      (accepted : Bool) (b : BufHandle) (n k : ℕ) (d e : SpiHd) (c : Option (List ℕ))
      → copy_payload b.payload b.payload_len ≡ c
      → hd_frame sum depth handler accepted b (record d { tx_tokens = k }) c ≡ returns (some n) e
      → Sends sum b n d e
  hd_frame-Sends accepted b n k d e none copied x = cc
  hd_frame-Sends false b n k d e (some payload) copied x = cc
  hd_frame-Sends true b n k d e (some payload) copied x =
      rw copied
        (ground arith, length-copy_payload b.payload b.payload_len payload copied, ground arith)

  hd_write-Sends :
      (allocated accepted : Bool) (b : BufHandle) (n k : ℕ) (d e : SpiHd)
      → hd_write sum depth handler allocated accepted b d k ≡ returns (some n) e
      → Sends sum b n d e
  hd_write-Sends allocated accepted b n zero d e x = cc
  hd_write-Sends false accepted b n (suc k) d e x = cc
  hd_write-Sends true accepted b n (suc k) d e x =
      hd_frame-Sends accepted b n k d e (copy_payload b.payload b.payload_len) refl x

  esp_spi_hd_write-Sends :
      (handle : Option State) (b : BufHandle) (allocated accepted : Bool) (n : ℕ) (d e : SpiHd)
      → esp_spi_hd_write sum depth handler handle (some b) allocated accepted d ≡ returns (some n) e
      → Sends sum b n d e
  unfolding esp_spi_hd_write
  esp_spi_hd_write-Sends none b allocated accepted n d e x = cc
  esp_spi_hd_write-Sends (some s) b allocated accepted n d e x =
      let guard = b.wifi_flow_ctrl_en == 0 && no_payload b in
      hd_write-Sends allocated accepted b n d.tx_tokens d e
        (unless-returns guard d e _ n (unless-returns (not (is_active s)) d e _ n x))

  -- the packet of a frame, in the buffer that came in
  abbrev pub hd_packet_of : Header → List ℕ → List ℕ → Packet
  hd_packet_of h payload junk = record {
    if_type = h.if_type;
    if_num = h.if_num;
    payload = blank h payload ++ junk;
    payload_len = length payload + 12;
  }

  -- the state of the receiver after a frame
  abbrev pub hd_after : Header → SpiHd → Rx → SpiHd
  hd_after h d rx =
      let flagged = hd_flagged sum depth handler h.flags d in
      record flagged {
        flow = triggered d.flow (start_flow depth (length d.rx.queues.others) d.flow);
        rx = rx;
      }

  spi_hd_rx_round-frame :
      (h : Header) (payload junk : List ℕ) (d : SpiHd) (rx : Rx)
      → IsSendable h payload
      → deliver depth
          (depth * 3)
          (hd_packet_of h payload junk)
          (hd_flagged sum depth handler h.flags d).rx
        ≡ some rx
      → spi_hd_rx_round sum depth handler (frame sum h payload ++ junk) (length payload + 12) d
        ≡ some (hd_after h d rx)
  unfolding spi_hd_rx_round
  spi_hd_rx_round-frame h payload junk d rx ok room =
      let size = length payload + 12 in
      let short = ok.short in
      let some_bytes : (size == 0) ≡ false = ground arith in
      let whole : size % 2 ^ 16 ≡ size = omega arith in
      rw
        (
          rx_flags-frame h payload junk ok.fits sum,
          rx_len-frame h payload junk ok.fits sum ∙ ok.says_length,
          rx_offset-frame h payload junk ok.fits sum ∙ ok.at_payload,
          some_bytes,
          whole,
          le→ltb_false size size (omega arith),
          verify-frame sum h payload junk size refl,
          rx_if_type-blank h payload junk ok.fits,
          rx_if_num-blank h payload junk ok.fits,
          room,
        )
        refl

  -- A write that answers with a length, of a buffer that fits, has given one frame to the peripheral.
  -- The other end, when it is given the bytes of the frame in a buffer with any bytes behind them,
  -- tells its handler of the flags, and queues a packet of the buffer's interface, with its bytes
  -- behind the header, if the queue has room.
  pub spi_hd_rx_round-esp_spi_hd_write :
      (handle : Option State) (b : BufHandle) (allocated accepted : Bool) (n : ℕ) (d e f : SpiHd)
      (junk : List ℕ) (rx : Rx)
      → esp_spi_hd_write sum depth handler handle (some b) allocated accepted d ≡ returns (some n) e
      → IsShort b
      → deliver depth
          (depth * 3)
          (hd_packet_of (tx_header b b.wifi_flow_ctrl_en) (payload_of b) junk)
          (hd_flagged sum depth handler b.flag f).rx
        ≡ some rx
      → (bytes : List ℕ) × (e.transmitting ≡ d.transmitting ++ bytes ∷ [])
        × (length bytes ≡ n + 12)
        × (spi_hd_rx_round sum depth handler (bytes ++ junk) (n + 12) f
            ≡ some (hd_after (tx_header b b.wifi_flow_ctrl_en) f rx))
  unfolding tx_header
  spi_hd_rx_round-esp_spi_hd_write handle b allocated accepted n d e f junk rx writes short room =
      let h = tx_header b b.wifi_flow_ctrl_en in
      let (given, len, answer) = esp_spi_hd_write-Sends handle b allocated accepted n d e writes in
      let size : length (payload_of b) + 12 ≡ n + 12 = omega arith in
      let took =
        spi_hd_rx_round-frame h (payload_of b) junk f rx (IsShort-IsSendable b short len) room in
      (
        frame sum h (payload_of b),
        given,
        length-frame sum h (payload_of b) ∙ size,
        subst
            (λ (k : ℕ).
              spi_hd_rx_round sum depth handler (frame sum h (payload_of b) ++ junk) k f
              ≡ some (hd_after h f rx))
            size took,
      )
