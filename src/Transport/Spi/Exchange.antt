-- ===== src/Transport/Spi/Exchange.antt =====
-- What becomes of a transaction that the host has ended (slave/main/spi_slave_api.c).
use esp_hosted_open.Prelude.{
  ℕ, zero, suc, ◌+◌, ◌-◌, ◌*◌, Bool, true, Option, none, some, List, [], ◌∷◌, ◌++◌, ltb, ◌==◌,
  if◌then◌else◌, length,
}
use esp_hosted_open.Transport.{
  State, is_up, Checksum, header_size, rx_if_type, rx_if_num, rx_flags, rx_len, rx_offset, verify,
  flag_events,
}
use esp_hosted_open.Transport.Queues.{
  Packet, Queues, send, give, Rx, deliver, fetch, Answer, fails, answer,
}
use esp_hosted_open.Transport.Startup.{Build, spi_tlvs, startup_frame}
use esp_hosted_open.Transport.Spi.{
  spi_buffer_size, dma_aligned, padded, Spi, Sizes, queue_next_transaction,
}

-- 0, -1, or for ever in xQueueSend
pub data Processed : Type 0 where
  ok : Rx → Processed
  invalid : Rx → Processed
  stuck : Processed

module _ (sum : Checksum) (sizes : Sizes) (handler : Bool) where
  abbrev pub rx_queued : Option Rx → Processed
  rx_queued none = stuck
  rx_queued (some rx) = ok rx

  abbrev pub rx_verified : ℕ → Rx → Option (List ℕ) → Processed
  rx_verified total rx none = invalid rx
  rx_verified total rx (some bs) = rx_queued (
      deliver sizes.rx_size (sizes.rx_size * 3)
        (record {
          if_type = rx_if_type bs;
          if_num = rx_if_num bs;
          payload = bs;
          payload_len = total;
        })
        rx)

  -- the buffer, if its handle has one
  unfoldable pub process_spi_rx : Option (List ℕ) → Rx → Processed
  process_spi_rx none r = invalid r
  process_spi_rx (some bs) r =
      let rx = record r { events = r.events ++ flag_events handler (rx_flags bs) } in
      if rx_len bs == 0
      then invalid rx
      else if ltb spi_buffer_size (rx_len bs + rx_offset bs)
      then invalid rx
      else rx_verified (rx_len bs + rx_offset bs) rx (verify sum (rx_len bs + rx_offset bs) bs)

  -- the receive buffer is freed unless its packet was queued
  abbrev pub rx_done : Spi → Processed → Option Spi
  rx_done p (ok rx) = some (record p { rx = rx })
  rx_done p (invalid rx) = some (record p { rx = rx; rx_buf_allocated = p.rx_buf_allocated - 1 })
  rx_done p stuck = none

  -- spi_buffer_tx_free of the transaction's buffer, and its receive buffer
  abbrev pub exchanged : List ℕ → Spi → Option Spi
  exchanged received p =
      rx_done (record p { tx_buf_allocated = p.tx_buf_allocated - 1 })
        (process_spi_rx (some received) p.rx)

  abbrev pub oldest_done : Bool → List ℕ → Spi → List (List ℕ) → Option Spi
  oldest_done allocated received p [] = none
  oldest_done allocated received p (buf ∷ later) =
      exchanged received
        (queue_next_transaction sum sizes allocated (record p { in_flight = later }))

  -- A round of spi_transaction_post_process_task, for the oldest transaction and the bytes that the
  -- host sent with it; `none` while there is no transaction, or no room for the packet.
  unfoldable pub post_process : Bool → List ℕ → Spi → Option Spi
  post_process allocated received p = oldest_done allocated received p p.in_flight

unfoldable pub esp_spi_read_done : Spi → Spi
esp_spi_read_done p = record p { rx_buf_allocated = p.rx_buf_allocated - 1 }

-- The reader waits for the semaphore before the state is read.
abbrev pub read_taken : State → ℕ → Rx → Answer
read_taken s zero rx = Answer.waits_for_ever
read_taken s (suc n) rx = if is_up s then answer (fetch rx) else fails (record rx { sem = n })

unfoldable pub esp_spi_read : Option State → Rx → Answer
esp_spi_read none rx = fails rx
esp_spi_read (some s) rx = read_taken s rx.sem rx

abbrev pub started : Checksum → Sizes → Bool → Spi → Option Queues → Option Spi
started sum sizes allocated p none = none
started sum sizes allocated p (some q) = some (
    queue_next_transaction sum sizes allocated (record p {
      tx = q;
      tx_sem = give (sizes.tx_size * 3) p.tx_sem;
      data_ready = true;
      tx_buf_allocated = p.tx_buf_allocated + 1;
    }))

abbrev pub startup_packet : Checksum → List ℕ → Packet
startup_packet sum tlvs = record {
  if_type = 0;
  if_num = 0;
  payload = padded (startup_frame sum tlvs);
  payload_len = dma_aligned (length tlvs + 2 + header_size);
}

-- `none` where it waits for ever for room
unfoldable pub generate_startup_event : Checksum → Sizes → Bool → Build → ℕ → Spi → Option Spi
generate_startup_event sum sizes allocated b cap p =
    started sum sizes allocated p (send sizes.tx_size (startup_packet sum (spi_tlvs b cap)) p.tx)
