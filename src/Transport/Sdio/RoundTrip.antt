-- ===== src/Transport/Sdio/RoundTrip.antt =====
-- The bytes of a write as the other end of the bus takes them (slave/main/sdio_slave_api.c).
use esp_hosted_open.Prelude.{
  ℕ, zero, suc, ◌+◌, ◌*◌, ◌%◌, ◌^◌, ◌<◌, ◌≡◌, refl, sym, ◌∙◌, subst, Bool, true, false, not, Option,
  none, some, List, [], ◌∷◌, ◌++◌, arith, le→ltb_false, ◌==◌, if◌then◌else◌, length,
}
use esp_hosted_open.Transport.{
  Checksum, BufHandle, State, is_active, Header, frame, tx_header, copy_payload,
}
use esp_hosted_open.Transport.Frame.{
  Fits, blank, verify-frame, rx_flags-frame, rx_len-frame, rx_offset-frame, rx_if_type-blank,
  rx_if_num-blank, length-frame,
}
use esp_hosted_open.Transport.Queues.{Packet, Rx, deliver}
use esp_hosted_open.Transport.Throttle.{start_rx_data_throttling_if_needed}
use esp_hosted_open.Transport.Uart.Peer.{payload_of, length-copy_payload}
use esp_hosted_open.Transport.Sdio.{
  Sdio, Call, returns, nothing_to_send, sdio_sent, sdio_frame, sdio_write, throttled, sdio_flagged,
  sdio_rx_round,
}

-- The fields of a buffer fit into those of the header, and its frame into the 16 bits of payload_len.
pub record IsSmall (b : BufHandle) : Type 0 where
  pub type_fits : b.if_type < 16
  pub num_fits : b.if_num < 16
  pub flag_fits : b.flag < 256
  pub len_fits : b.payload_len + 12 < 2 ^ 16

-- what a write that answers has given to the peripheral
abbrev Sends : Checksum → BufHandle → ℕ → Sdio → Sdio → Type 0
Sends sum b n d e =
    (e.sending ≡ d.sending ++ frame sum (tx_header b 0) (payload_of b) ∷ [])
    × (length (payload_of b) ≡ b.payload_len)
    × (n ≡ b.payload_len)

unless-returns :
    (guard : Bool) (d e : Sdio) (c : Call) (n : ℕ)
    → (if guard then returns none d else c) ≡ returns (some n) e
    → c ≡ returns (some n) e
unless-returns true d e c n x = cc
unless-returns false d e c n x = x

module _ (sum : Checksum) (depth : ℕ) (handler : Bool) where
  sdio_sent-sending :
      (accepted : Bool) (m n k : ℕ) (bytes : List ℕ) (d e : Sdio)
      → sdio_sent sum depth handler accepted m bytes k d ≡ returns (some n) e
      → (e.sending ≡ d.sending ++ bytes ∷ []) × (n ≡ m)
  sdio_sent-sending accepted m n zero bytes d e x = cc
  sdio_sent-sending false m n (suc k) bytes d e x = cc
  sdio_sent-sending true m n (suc k) bytes d e x = (ground arith, ground arith)

  sdio_frame-Sends :
      (accepted : Bool) (b : BufHandle) (n : ℕ) (d e : Sdio) (c : Option (List ℕ))
      → copy_payload b.payload b.payload_len ≡ c
      → sdio_frame sum depth handler accepted b d c ≡ returns (some n) e
      → Sends sum b n d e
  sdio_frame-Sends accepted b n d e none copied x = cc
  sdio_frame-Sends accepted b n d e (some payload) copied x =
      let (given, answer) =
        sdio_sent-sending accepted b.payload_len n d.send_tokens (frame sum (tx_header b 0) payload)
          d e x in
      rw copied (given, length-copy_payload b.payload b.payload_len payload copied, answer)

  sdio_write-Sends :
      (handle : Option State) (b : BufHandle) (sleeping allocated accepted : Bool) (n : ℕ)
      (d e : Sdio)
      → sdio_write sum depth handler handle (some b) sleeping allocated accepted d
        ≡ returns (some n) e
      → Sends sum b n d e
  unfolding sdio_write
  sdio_write-Sends none b sleeping allocated accepted n d e x = cc
  sdio_write-Sends (some s) b sleeping allocated accepted n d e x =
      sdio_frame-Sends accepted b n d e (copy_payload b.payload b.payload_len) refl (
        unless-returns (not allocated) d e _ n (
          unless-returns (nothing_to_send b) d e _ n
            (unless-returns sleeping d e _ n (unless-returns (not (is_active s)) d e _ n x))))

  -- the packet of a frame, in the buffer that came in
  abbrev pub sdio_packet_of : Header → List ℕ → List ℕ → Packet
  sdio_packet_of h payload junk = record {
    if_type = h.if_type;
    if_num = h.if_num;
    payload = blank h payload ++ junk;
    payload_len = length payload + 12;
  }

  -- the state of the receiver after a frame
  abbrev pub sdio_after : ℕ → Sdio → Rx → Sdio
  sdio_after flags d rx =
      record (throttled sum depth handler (sdio_flagged sum depth handler flags d)
        (start_rx_data_throttling_if_needed depth (length d.rx.queues.others) d.throttle)) {
          rx = rx;
        }

  sdio_rx_round-frame :
      (h : Header) (payload junk : List ℕ) (d : Sdio) (rx : Rx)
      → Fits h
      → h.offset ≡ 12
      → h.len ≡ length payload
      → 0 < length payload
      → length payload + 12 < 2 ^ 16
      → deliver depth
          (depth * 3)
          (sdio_packet_of h payload junk)
          (sdio_flagged sum depth handler h.flags d).rx
        ≡ some rx
      → sdio_rx_round sum depth handler (frame sum h payload ++ junk) (length payload + 12) d
        ≡ some (sdio_after h.flags d rx)
  unfolding sdio_rx_round
  sdio_rx_round-frame h payload junk d rx fits at len some_bytes short room =
      let size = length payload + 12 in
      let not_empty : (length payload == 0) ≡ false = ground arith in
      let whole : size % 2 ^ 16 ≡ size = omega arith in
      rw
        (
          rx_flags-frame h payload junk fits sum,
          rx_len-frame h payload junk fits sum ∙ len,
          rx_offset-frame h payload junk fits sum ∙ at,
          not_empty,
          whole,
          le→ltb_false size size (omega arith),
          verify-frame sum h payload junk size refl,
          rx_if_type-blank h payload junk fits,
          rx_if_num-blank h payload junk fits,
          room,
        )
        refl

  -- A write that answers with a length that is not 0, of a buffer whose if_type and if_num are below 16,
  -- whose flag is below 256 and whose payload has at most 65523 bytes, has given one frame to the
  -- peripheral. The other end, when it is given the bytes of the frame in a buffer with any bytes behind
  -- them, tells its handler of the flags, and queues a packet of the buffer's interface, with its bytes
  -- behind the header, if the queue has room.
  pub sdio_rx_round-sdio_write :
      (handle : Option State) (b : BufHandle) (sleeping allocated accepted : Bool) (n : ℕ)
      (d e f : Sdio) (junk : List ℕ) (rx : Rx)
      → sdio_write sum depth handler handle (some b) sleeping allocated accepted d
        ≡ returns (some n) e
      → 0 < n
      → IsSmall b
      → deliver depth
          (depth * 3)
          (sdio_packet_of (tx_header b 0) (payload_of b) junk)
          (sdio_flagged sum depth handler b.flag f).rx
        ≡ some rx
      → (bytes : List ℕ) × (e.sending ≡ d.sending ++ bytes ∷ [])
        × (length bytes ≡ n + 12)
        × (sdio_rx_round sum depth handler (bytes ++ junk) (n + 12) f
            ≡ some (sdio_after b.flag f rx))
  unfolding tx_header
  sdio_rx_round-sdio_write handle b sleeping allocated accepted n d e f junk rx writes some_bytes
        short room =
      let h = tx_header b 0 in
      let (given, len, answer) =
        sdio_write-Sends handle b sleeping allocated accepted n d e writes in
      let size : length (payload_of b) + 12 ≡ n + 12 = omega arith in
      let room16 = short.len_fits in
      let fits : Fits h = record {
        type_fits = short.type_fits;
        num_fits = short.num_fits;
        flags_fits = short.flag_fits;
        len_fits = omega arith;
        offset_fits = omega arith;
      } in
      let took =
        sdio_rx_round-frame h (payload_of b) junk f rx fits refl (sym len) (omega arith)
          (omega arith) room in
      (
        frame sum h (payload_of b),
        given,
        length-frame sum h (payload_of b) ∙ size,
        subst
            (λ (k : ℕ).
              sdio_rx_round sum depth handler (frame sum h (payload_of b) ++ junk) k f
              ≡ some (sdio_after b.flag f rx))
            size took,
      )
