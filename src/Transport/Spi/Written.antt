-- ===== src/Transport/Spi/Written.antt =====
-- What a write of the SPI driver that answers with a length has done (slave/main/spi_slave_api.c).
use esp_hosted_open.Prelude.{
  ℕ, ◌+◌, ◌≤◌, ◌<◌, ◌≡◌, refl, Bool, true, false, not, Option, none, some, arith, ltb, ◌==◌, sym,
  ap, ◌∙◌, le→ltb_false, if◌then◌else◌,
}
use esp_hosted_open.Memory.{Memory, read}
use esp_hosted_open.Transport.{Checksum, BufHandle, State, is_active, header_size}
use esp_hosted_open.Transport.Queues.{Packet, Queues, send}
use esp_hosted_open.Transport.Spi.{
  Spi, Sizes, SpiWritten, writes, write_fails, tx_queued, tx_packet, write_payload, esp_spi_write,
  write_interrupted_by, throttled, spi_buffer_size, dma_aligned, set_dataready, give_tx,
}

-- the state when the packet has been put into its queue, and the line raised
abbrev pub announced_write : Checksum → Sizes → Spi → Queues → Spi
announced_write sum sizes p r = set_dataready sum sizes (record p {
  throttle = throttled sum sizes p;
  tx_buf_allocated = p.tx_buf_allocated + 1;
  tx = r;
})

-- the state after the write
abbrev pub after_write : Checksum → Sizes → Spi → Queues → Spi
after_write sum sizes p r = give_tx sum sizes (announced_write sum sizes p r)

-- A buffer with a payload that fits was written: its packet is in its queue.
pub record IsWritten (sum : Checksum) (sizes : Sizes) (b : BufHandle) (m : Memory) (p q : Spi)
    (n : ℕ) : Type 0 where
  pub after : Queues
  pub queued : send sizes.tx_size (tx_packet sum sizes b (read m 0 b.payload_len)) p.tx ≡ some after
  pub state : q ≡ after_write sum sizes p after
  pub answer : n ≡ b.payload_len
  pub not_empty : 0 < b.payload_len
  pub short : dma_aligned (b.payload_len + header_size) ≤ spi_buffer_size

unless_writes :
    (guard : Bool) (w : SpiWritten) (n : ℕ) (q : Spi)
    → (if guard then write_fails else w) ≡ writes n q
    → (guard ≡ false) × (w ≡ writes n q)
unless_writes true w n q e = cc
unless_writes false w n q e = (refl, e)

tx_queued-IsWritten :
    (sum : Checksum) (sizes : Sizes) (b : BufHandle) (m : Memory) (p q : Spi) (n : ℕ)
    → 0 < b.payload_len
    → dma_aligned (b.payload_len + header_size) ≤ spi_buffer_size
    → (c : Option Queues)
    → send sizes.tx_size (tx_packet sum sizes b (read m 0 b.payload_len)) p.tx ≡ c
    → tx_queued sum sizes
        (λ q. q)
        b.payload_len
        (record p { throttle = throttled sum sizes p; tx_buf_allocated = p.tx_buf_allocated + 1 })
        c
      ≡ writes n q
    → IsWritten sum sizes b m p q n
tx_queued-IsWritten sum sizes b m p q n some_bytes short none sends e = cc
tx_queued-IsWritten sum sizes b m p q n some_bytes short (some r) sends e = record {
  after = r;
  queued = sends;
  state = cc;
  answer = cc;
  not_empty = some_bytes;
  short = short;
}

write_payload-IsWritten :
    (sum : Checksum) (sizes : Sizes) (b : BufHandle) (payload : Option Memory) (p q : Spi) (n : ℕ)
    → write_payload sum sizes (λ q. q) b p payload ≡ writes n q
    → (m : Memory) × (payload ≡ some m) × IsWritten sum sizes b m p q n
write_payload-IsWritten sum sizes b none p q n e = cc
write_payload-IsWritten sum sizes b (some m) p q n e =
    let (full, e1) = unless_writes (b.payload_len == 0) _ n q e in
    let (fits, e2) =
      unless_writes (ltb spi_buffer_size (dma_aligned (b.payload_len + header_size))) _ n q e1 in
    (m, refl, tx_queued-IsWritten sum sizes b m p q n (ground arith) (ground arith) _ refl e2)

-- A write that answers with a length had a payload that is not empty, and put its packet into its
-- queue.
pub esp_spi_write-IsWritten :
    (sum : Checksum) (sizes : Sizes) (handle : Option State) (b : BufHandle) (p q : Spi) (n : ℕ)
    → esp_spi_write sum sizes handle (some b) p ≡ writes n q
    → (m : Memory) × (b.payload ≡ some m) × IsWritten sum sizes b m p q n
unfolding esp_spi_write write_interrupted_by
esp_spi_write-IsWritten sum sizes none b p q n e = cc
esp_spi_write-IsWritten sum sizes (some s) b p q n e =
    let (up, e1) = unless_writes (not (is_active s)) _ n q e in
    write_payload-IsWritten sum sizes b b.payload p q n e1

-- Where a write answers with a length, the same write with other tasks between its set_dataready_gpio and
-- its xSemaphoreGive does so too, and they have found the packet queued and the line raised.
pub write_interrupted_by-writes :
    (sum : Checksum) (sizes : Sizes) (between : Spi → Spi) (handle : Option State) (b : BufHandle)
    (p q : Spi) (n : ℕ)
    → esp_spi_write sum sizes handle (some b) p ≡ writes n q
    → (r : Queues) × (x : Packet) × (send sizes.tx_size x p.tx ≡ some r)
      × (q ≡ after_write sum sizes p r)
      × (write_interrupted_by sum sizes between handle (some b) p
          ≡ writes n (give_tx sum sizes (between (announced_write sum sizes p r))))
unfolding esp_spi_write write_interrupted_by
write_interrupted_by-writes sum sizes between none b p q n e = cc
write_interrupted_by-writes sum sizes between (some s) b p q n e =
    let (up, e1) = unless_writes (not (is_active s)) _ n q e in
    let (m, has, w) = write_payload-IsWritten sum sizes b b.payload p q n e1 in
    let some_bytes = w.not_empty in
    let full : (b.payload_len == 0) ≡ false = ground arith in
    let fits = le→ltb_false spi_buffer_size (dma_aligned (b.payload_len + header_size)) w.short in
    let state = give_tx sum sizes (between (announced_write sum sizes p w.after)) in
    (
      w.after,
      tx_packet sum sizes b (read m 0 b.payload_len),
      w.queued,
      w.state,
      rw up (
          ap (λ (o : Option Memory). write_payload sum sizes between b p o) has
          ∙ rw (full, fits, w.queued) (ap (λ (k : ℕ). writes k state) (sym w.answer))),
    )
