-- ===== src/Transport/Spi/RoundTrip.antt =====
-- The bytes of a write as the other end of the bus takes them (slave/main/spi_slave_api.c).
use esp_hosted_open.Prelude.{
  ℕ, ◌+◌, ◌-◌, ◌*◌, ◌%◌, ◌≤◌, ◌<◌, ◌≡◌, refl, sym, subst, ap, ◌∙◌, Bool, false, Option, some, List,
  ◌++◌, arith, le→ltb_false, ◌==◌, length, replicate,
}
use esp_hosted_open.Memory.{Memory, read, length-read}
use esp_hosted_open.Transport.{Checksum, BufHandle, State, Header, frame, tx_header, flag_events}
use esp_hosted_open.Transport.Frame.{
  Fits, blank, verify-frame, rx_flags-frame, rx_len-frame, rx_offset-frame, rx_if_type-blank,
  rx_if_num-blank,
}
use esp_hosted_open.Transport.Queues.{Packet, send, Rx, deliver}
use esp_hosted_open.Transport.Spi.{
  spi_buffer_size, dma_aligned, padded, Spi, Sizes, writes, esp_spi_write, tx_packet,
}
use esp_hosted_open.Transport.Spi.Written.{IsWritten, esp_spi_write-IsWritten}
use esp_hosted_open.Transport.Spi.Exchange.{ok, process_spi_rx}

-- the zeros behind a frame
abbrev pub zeros_behind : Checksum → Header → List ℕ → List ℕ
zeros_behind sum h payload = replicate (spi_buffer_size - length (frame sum h payload)) 0

-- the packet of a frame, in the buffer that came in
abbrev pub spi_packet_of : Checksum → Header → List ℕ → Packet
spi_packet_of sum h payload = record {
  if_type = h.if_type;
  if_num = h.if_num;
  payload = blank h payload ++ zeros_behind sum h payload;
  payload_len = length payload + 12;
}

module _ (sum : Checksum) (sizes : Sizes) (handler : Bool) where
  abbrev pub spi_flagged : Header → Rx → Rx
  spi_flagged h r = record r { events = r.events ++ flag_events handler h.flags }

  process_spi_rx-frame :
      (h : Header) (payload : List ℕ) (r rx : Rx)
      → Fits h
      → h.offset ≡ 12
      → h.len ≡ length payload
      → 0 < length payload
      → length payload + 12 ≤ 1600
      → deliver sizes.rx_size (sizes.rx_size * 3) (spi_packet_of sum h payload) (spi_flagged h r)
        ≡ some rx
      → process_spi_rx sum sizes handler (some (padded (frame sum h payload))) r ≡ ok rx
  unfolding process_spi_rx
  process_spi_rx-frame h payload r rx fits at len some_bytes short room =
      let zs = zeros_behind sum h payload in
      let size = length payload + 12 in
      let n : (length payload == 0) ≡ false = ground arith in
      rw
        (
          rx_flags-frame h payload zs fits sum,
          rx_len-frame h payload zs fits sum ∙ len,
          rx_offset-frame h payload zs fits sum ∙ at,
          n,
          le→ltb_false spi_buffer_size size short,
          verify-frame sum h payload zs size refl,
          rx_if_type-blank h payload zs fits,
          rx_if_num-blank h payload zs fits,
          room,
        )
        refl

-- a length rounded up to a multiple of four
dma_aligned_bounds :
    (n : ℕ) → (dma_aligned n % 4 ≡ 0) × (n ≤ dma_aligned n) × (dma_aligned n < n + 4)
unfolding dma_aligned
dma_aligned_bounds n = ground arith

-- the fields of a buffer that fit into the header's
pub record FieldsFit (b : BufHandle) : Type 0 where
  pub type_fits : b.if_type < 16
  pub num_fits : b.if_num < 16
  pub flag_fits : b.flag < 256

tx_header-Fits : (b : BufHandle) → FieldsFit b → b.payload_len + 12 ≤ 1600 → Fits (tx_header b 0)
unfolding tx_header
tx_header-Fits b f short = record {
  type_fits = f.type_fits;
  num_fits = f.num_fits;
  flags_fits = f.flag_fits;
  len_fits = omega arith;
  offset_fits = omega arith;
}

module _ (sum : Checksum) (sizes : Sizes) (handler : Bool) where
  -- A write that answers with a length, of a buffer whose fields fit: it has put a packet with the
  -- buffer's interface into its queue, of a length that is a multiple of four, has room for the
  -- header and no more than three bytes besides, and is no more than a transaction. The other end,
  -- given its bytes, takes them and queues a packet of the same interface, with the buffer's bytes
  -- behind the header, after it told its handler of the flags, if its queue has room.
  pub process_spi_rx-esp_spi_write :
      (handle : Option State) (b : BufHandle) (p q : Spi) (n : ℕ) (r rx : Rx) (m : Memory)
      → esp_spi_write sum sizes handle (some b) p ≡ writes n q
      → b.payload ≡ some m
      → FieldsFit b
      → deliver sizes.rx_size
          (sizes.rx_size * 3)
          (spi_packet_of sum (tx_header b 0) (read m 0 b.payload_len))
          (spi_flagged sum sizes handler (tx_header b 0) r)
        ≡ some rx
      → (x : Packet) × (send sizes.tx_size x p.tx ≡ some q.tx)
        × (x.if_type ≡ b.if_type)
        × (x.payload_len % 4 ≡ 0)
        × (n + 12 ≤ x.payload_len)
        × (x.payload_len < n + 16)
        × (x.payload_len ≤ 1600)
        × (process_spi_rx sum sizes handler (some x.payload) r ≡ ok rx)
  unfolding tx_packet tx_header
  process_spi_rx-esp_spi_write handle b p q n r rx m e has f room =
      let (m1, has1, w1) = esp_spi_write-IsWritten sum sizes handle b p q n e in
      let same : m1 ≡ m = cc in
      let w : IsWritten sum sizes b m p q n =
        subst (λ (k : Memory). IsWritten sum sizes b k p q n) same w1 in
      let bytes = read m 0 b.payload_len in
      let len = length-read m 0 b.payload_len in
      let (four, above, below) = dma_aligned_bounds (b.payload_len + 12) in
      let small = w.short in
      let some_bytes = w.not_empty in
      let says = w.answer in
      let fits = tx_header-Fits b f (omega arith) in
      let taken =
        process_spi_rx-frame sum sizes handler (tx_header b 0) bytes r rx fits refl (sym len)
          (omega arith) (omega arith) room in
      (
        tx_packet sum sizes b bytes,
        w.queued ∙ ap (λ (s : Spi). some s.tx) (sym w.state),
        refl,
        four,
        omega arith,
        omega arith,
        small,
        taken,
      )
