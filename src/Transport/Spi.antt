-- ===== src/Transport/Spi.antt =====
-- The SPI driver of the co-processor (slave/main/spi_slave_api.c). A transaction has a transmit
-- buffer and a receive buffer of the same size, and the host starts it. Allocations that the code
-- asserts succeed; that of a dummy buffer may fail.
pub mod Exchange
pub mod Written
pub mod Buffers
pub mod Steps
pub mod RoundTrip
pub mod Ready
use esp_hosted_open.Prelude.{
  ℕ, zero, suc, ◌+◌, ◌-◌, ◌*◌, ◌%◌, Bool, true, false, not, ◌||◌, Option, none, some, List, [], ◌∷◌,
  ◌++◌, ltb, ◌==◌, if◌then◌else◌, length, replicate,
}
use esp_hosted_open.Memory.{Memory, read}
use esp_hosted_open.Transport.{
  BufHandle, State, deinit, is_active, is_up, Checksum, Header, header_size, header_bytes, frame,
  tx_header, rx_if_type, rx_if_num, rx_flags, rx_len, rx_offset, verify, flag_events,
}
use esp_hosted_open.Transport.Queues.{
  Packet, Queues, empty, send, receive, give, Rx, deliver, fetch, Answer, fails, answer,
}
use esp_hosted_open.Transport.Throttle.{Throttle, find_wifi_tx_throttling_to_be_set}
use esp_hosted_open.Transport.Startup.{Build, priv_if, spi_tlvs, startup_header, startup_frame}

-- SPI_BUFFER_SIZE
abbrev pub spi_buffer_size : ℕ
spi_buffer_size = 1600

-- MAKE_SPI_DMA_ALIGNED where IS_SPI_DMA_ALIGNED fails
unfoldable pub dma_aligned : ℕ → ℕ
dma_aligned n = if n % 4 == 0 then n else n + 4 - n % 4

-- the rest of a zeroed buffer
abbrev pub padded : List ℕ → List ℕ
padded bs = bs ++ replicate (spi_buffer_size - length bs) 0

-- The driver's transmit queues, their semaphore and the data-ready line; the transmit buffers of
-- the transactions that wait for the host; how many buffers of each kind are allocated.
pub record Spi : Type 0 where
  pub tx : Queues
  pub tx_sem : ℕ
  pub data_ready : Bool
  pub throttle : Throttle
  pub in_flight : List (List ℕ)
  pub tx_buf_allocated : ℕ
  pub rx_buf_allocated : ℕ
  pub rx : Rx

pub data SpiWritten : Type 0 where
  null_state : SpiWritten
  write_fails : SpiWritten
  waits_for_room : Spi → SpiWritten
  writes : ℕ → Spi → SpiWritten

-- the sizes of the queues
pub record Sizes : Type 0 where
  pub tx_size : ℕ
  pub rx_size : ℕ

module _ (sum : Checksum) (sizes : Sizes) where
  abbrev pub waiting_others : Spi → ℕ
  waiting_others p = length p.rx.queues.others

  -- the throttling state after a header was made
  abbrev pub throttled : Spi → Throttle
  throttled p = (find_wifi_tx_throttling_to_be_set sizes.rx_size (waiting_others p) p.throttle).1

  -- tx_buf_handle; the throttle decision goes into wifi_flow_ctrl_en, which is not read
  unfoldable pub tx_packet : BufHandle → List ℕ → Packet
  tx_packet b payload = record {
    if_type = b.if_type;
    if_num = b.if_num;
    payload = padded (frame sum (tx_header b 0) payload);
    payload_len = dma_aligned (b.payload_len + header_size);
  }

  -- set_dataready_gpio and reset_dataready_gpio, which change the line only if it has to
  abbrev pub set_dataready : Spi → Spi
  set_dataready p = record p { data_ready = true }

  abbrev pub reset_dataready : Spi → Spi
  reset_dataready p = record p { data_ready = false }

  -- xSemaphoreGive(spi_tx_sem)
  abbrev pub give_tx : Spi → Spi
  give_tx p = record p { tx_sem = give (sizes.tx_size * 3) p.tx_sem }

  -- The last three calls of a write. `between` is what other tasks do between set_dataready_gpio and
  -- xSemaphoreGive.
  abbrev pub tx_queued : (Spi → Spi) → ℕ → Spi → Option Queues → SpiWritten
  tx_queued between n p none = waits_for_room p
  tx_queued between n p (some q) =
      writes n (give_tx (between (set_dataready (record p { tx = q }))))

  abbrev pub write_payload : (Spi → Spi) → BufHandle → Spi → Option Memory → SpiWritten
  write_payload between b p none = write_fails
  write_payload between b p (some m) =
      let packet = tx_packet b (read m 0 b.payload_len) in
      let q = record p { throttle = throttled p; tx_buf_allocated = p.tx_buf_allocated + 1 } in
      if b.payload_len == 0
      then write_fails
      else if ltb spi_buffer_size (dma_aligned (b.payload_len + header_size))
      then write_fails
      else tx_queued between b.payload_len q (send sizes.tx_size packet p.tx)

  -- handle->state is read before handle is tested
  unfoldable pub write_interrupted_by :
      (Spi → Spi) → Option State → Option BufHandle → Spi → SpiWritten
  write_interrupted_by between none buf p = null_state
  write_interrupted_by between (some s) none p = write_fails
  write_interrupted_by between (some s) (some b) p =
      if not (is_active s) then write_fails else write_payload between b p b.payload

  -- esp_spi_write, without an interruption
  unfoldable pub esp_spi_write : Option State → Option BufHandle → Spi → SpiWritten
  unfolding write_interrupted_by
  esp_spi_write handle buf p = write_interrupted_by (λ q. q) handle buf p

  -- ESP_MAX_IF and 0xF mark a dummy
  unfoldable pub dummy_header : ℕ → Header
  dummy_header throttle = record {
    if_type = 8;
    if_num = 15;
    flags = 0;
    len = 0;
    offset = 0;
    checksum = 0;
    seq_num = 0;
    throttle_cmd = throttle;
    pkt_type = 0;
  }

  -- reset_dataready_gpio and the dummy buffer
  abbrev pub dummy_buffer : Bool → Spi → Option (List ℕ) × Spi
  dummy_buffer allocated p =
      let (cmd, t) =
        find_wifi_tx_throttling_to_be_set sizes.rx_size (waiting_others p) p.throttle in
      let q = record (reset_dataready p) { tx_buf_allocated = p.tx_buf_allocated + 1 } in
      if allocated
      then (some (padded (header_bytes (dummy_header cmd))), record q { throttle = t })
      else (none, q)

  abbrev pub next_received : Bool → Spi → Option (Packet × Queues) → Option (List ℕ) × Spi
  next_received allocated p none = dummy_buffer allocated p
  next_received allocated p (some (x, q)) = (some x.payload, record p { tx = q })

  abbrev pub next_taken : Bool → Spi → ℕ → Option (List ℕ) × Spi
  next_taken allocated p zero = dummy_buffer allocated p
  next_taken allocated p (suc n) = next_received allocated (record p { tx_sem = n }) (receive p.tx)

  -- The buffer of the next transaction, a queued one or a dummy.
  unfoldable pub get_next_tx_buffer : Bool → Spi → Option (List ℕ) × Spi
  get_next_tx_buffer allocated p = next_taken allocated p p.tx_sem

  abbrev pub transaction : Option (List ℕ) × Spi → Spi
  transaction (none, p) = p
  transaction (some buf, p) = record p {
    in_flight = p.in_flight ++ buf ∷ [];
    rx_buf_allocated = p.rx_buf_allocated + 1;
  }

  unfoldable pub queue_next_transaction : Bool → Spi → Spi
  queue_next_transaction allocated p = transaction (get_next_tx_buffer allocated p)
