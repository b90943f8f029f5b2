-- ===== src/Transport/SpiHd.antt =====
-- The SPI half-duplex driver of the co-processor (slave/main/spi_hd_slave_api.c). The answers of
-- the peripheral's library and the allocation of a transmit buffer are the environment's; the other
-- allocations succeed.
pub mod Tokens
pub mod Counter
pub mod RoundTrip
use esp_hosted_open.Prelude.{
  ℕ, zero, suc, ◌+◌, ◌-◌, ◌*◌, ◌/◌, ◌%◌, ◌^◌, Bool, true, false, not, ◌&&◌, ◌||◌, Option, none,
  some, List, [], ◌∷◌, ◌++◌, ltb, ◌==◌, if◌then◌else◌, length, replicate,
}
use esp_hosted_open.Transport.{
  BufHandle, State, is_active, BusEvent, Checksum, header_size, frame, copy_payload, tx_header,
  rx_if_type, rx_if_num, rx_flags, rx_len, rx_offset, verify, flag_events,
}
use esp_hosted_open.Transport.Queues.{Packet, Rx, deliver, fetch, Answer, fails, answer}
use esp_hosted_open.Transport.Throttle.FlowControl.{Flow, start_flow, stop_flow, trigger}
use esp_hosted_open.Transport.Startup.{Build, spi_hd_tlvs, startup_frame}
use esp_hosted_open.Transport.Uart.{no_payload}

-- tx_tokens is the count of mempool_tx_sem, transmitting the transactions that the peripheral has,
-- buffers the transmit buffers that are allocated, and reloaded the receive transactions that went
-- back to it. The two registers are those that the host reads.
pub record SpiHd : Type 0 where
  pub tx_tokens : ℕ
  pub transmitting : List (List ℕ)
  pub buffers : ℕ
  pub reloaded : ℕ
  pub tx_ready_buf_size : ℕ
  pub rx_ready_buf_num : ℕ
  pub tx_buf_len_reg : ℕ
  pub rx_buf_len_reg : ℕ
  pub data_ready : Bool
  pub flow : Flow
  pub rx : Rx

-- MAKE_SPI_HD_DMA_ALIGNED where IS_SPI_HD_DMA_ALIGNED fails
unfoldable pub hd_aligned : ℕ → ℕ
hd_aligned n = if n % 4 == 0 then n else n + 4 - n % 4

-- a call that answers with a length or ESP_FAIL (none), waits for ever, or reads through null
pub data Call : Type 0 where
  returns : Option ℕ → SpiHd → Call
  waits_for_token : Call
  null_read : Call

-- the callbacks of the peripheral: rx_ready_buf_num++ and the count of bytes to read
unfoldable pub cb_rx_ready : SpiHd → SpiHd
cb_rx_ready d =
    let n = (d.rx_ready_buf_num + 1) % 2 ^ 32 in
    record d { rx_ready_buf_num = n; rx_buf_len_reg = n }

-- SPI_HD_TX_BUF_LEN_MASK are the lower 24 bits, SPI_HD_INT_MASK the two above
unfoldable pub tx_ready_after : ℕ → ℕ → ℕ
tx_ready_after size len = (size % 2 ^ 24 + len) % 2 ^ 24 + 2 ^ 24 * (size / 2 ^ 24 % 4)

unfoldable pub cb_tx_ready : ℕ → SpiHd → SpiHd
cb_tx_ready len d =
    let size = tx_ready_after d.tx_ready_buf_size len in
    record d { tx_ready_buf_size = size; tx_buf_len_reg = size; data_ready = true }

unfoldable pub cb_cmd9_recv : SpiHd → SpiHd
cb_cmd9_recv d = record d { tx_ready_buf_size = d.tx_ready_buf_size % 2 ^ 24; data_ready = false }

-- start_rx_data_throttling_if_needed and stop_rx_data_throttling_if_needed with TRIGGER_FLOW_CTRL
abbrev pub triggered : Flow → Flow → Flow
triggered f g = if ltb f.setting g.setting then trigger g else g

-- the peripheral's answer to spi_slave_hd_queue_trans of a frame
abbrev pub hd_queued : Bool → ℕ → List ℕ → SpiHd → Call
hd_queued true n bytes d =
    returns (some n)
      (record d { transmitting = d.transmitting ++ bytes ∷ []; buffers = d.buffers + 1 })
hd_queued false n bytes d = returns none d

module _ (sum : Checksum) (depth : ℕ) (handler : Bool) where
  abbrev pub hd_frame : Bool → BufHandle → SpiHd → Option (List ℕ) → Call
  hd_frame accepted b d none = null_read
  hd_frame accepted b d (some payload) =
      hd_queued accepted b.payload_len (frame sum (tx_header b b.wifi_flow_ctrl_en) payload) d

  abbrev pub hd_write : Bool → Bool → BufHandle → SpiHd → ℕ → Call
  hd_write allocated accepted b d zero = waits_for_token
  hd_write allocated accepted b d (suc n) =
      if allocated
      then hd_frame accepted b (record d { tx_tokens = n }) (copy_payload b.payload b.payload_len)
      else returns none (record d { tx_tokens = n })

  unfoldable pub esp_spi_hd_write : Option State → Option BufHandle → Bool → Bool → SpiHd → Call
  esp_spi_hd_write none buf allocated accepted d = returns none d
  esp_spi_hd_write (some s) none allocated accepted d = returns none d
  esp_spi_hd_write (some s) (some b) allocated accepted d =
      if not (is_active s)
      then returns none d
      else if b.wifi_flow_ctrl_en == 0 && no_payload b
      then returns none d
      else hd_write allocated accepted b d d.tx_tokens

  abbrev pub hd_started : Bool → List ℕ → SpiHd → ℕ → Call
  hd_started accepted bytes d zero = waits_for_token
  hd_started accepted bytes d (suc n) =
      hd_queued accepted (length bytes) bytes (record d { tx_tokens = n })

  -- the INIT event, with MAKE_SPI_HD_DMA_ALIGNED zeros behind it
  abbrev pub startup_bytes : Build → ℕ → ℕ → List ℕ
  unfolding hd_aligned
  startup_bytes b cap ext_cap =
      let bytes = startup_frame sum (spi_hd_tlvs b cap ext_cap) in
      bytes ++ replicate (hd_aligned (length bytes) - length bytes) 0

  -- Its result is not a length, and is not read
  unfoldable pub generate_startup_event : Bool → Build → ℕ → ℕ → SpiHd → Call
  generate_startup_event accepted b cap ext_cap d =
      hd_started accepted (startup_bytes b cap ext_cap) d d.tx_tokens

  abbrev pub tx_done_of : List (List ℕ) → SpiHd → SpiHd
  tx_done_of [] d = d
  tx_done_of (bytes ∷ later) d = record d {
    transmitting = later;
    buffers = d.buffers - 1;
    tx_tokens = if ltb d.tx_tokens depth then suc d.tx_tokens else d.tx_tokens;
  }

  -- A round of spi_hd_tx_done_task, for the oldest transaction
  unfoldable pub spi_hd_tx_done : SpiHd → SpiHd
  spi_hd_tx_done d = tx_done_of d.transmitting d

  -- spi_hd_read_done, where the peripheral takes the transaction back
  abbrev pub read_done : SpiHd → SpiHd
  read_done d = record d { reloaded = d.reloaded + 1 }

  abbrev pub hd_delivered : SpiHd → Option Rx → Option SpiHd
  hd_delivered d none = none
  hd_delivered d (some rx) = some (record d { rx = rx })

  abbrev pub hd_verified : ℕ → SpiHd → Option (List ℕ) → Option SpiHd
  hd_verified read_len d none = some (read_done d)
  hd_verified read_len d (some bs) =
      hd_delivered
        (record d { flow = triggered d.flow (start_flow depth (length d.rx.queues.others) d.flow) })
        (deliver depth (depth * 3)
          (record {
            if_type = rx_if_type bs;
            if_num = rx_if_num bs;
            payload = bs;
            payload_len = read_len;
          })
          d.rx)

  -- the handler's calls, and the count that starts anew when the host has woken up
  abbrev pub hd_flagged : ℕ → SpiHd → SpiHd
  hd_flagged flags d = record d {
    rx = record d.rx { events = d.rx.events ++ flag_events handler flags };
    tx_ready_buf_size =
        if not (flags / 4 % 2 == 1) && (flags / 8 % 2 == 1) then 0 else d.tx_ready_buf_size;
  }

  -- A round of spi_hd_rx_task: the bytes of the transaction's buffer, and its trans_len. `none` where
  -- the task waits for ever for room.
  unfoldable pub spi_hd_rx_round : List ℕ → ℕ → SpiHd → Option SpiHd
  spi_hd_rx_round bs trans_len d =
      let read_len = trans_len % 2 ^ 16 in
      let flagged = hd_flagged (rx_flags bs) d in
      if trans_len == 0
      then some (read_done d)
      else if ltb read_len (rx_len bs + rx_offset bs)
      then some (read_done flagged)
      else hd_verified read_len flagged (verify sum (rx_len bs + rx_offset bs) bs)

  abbrev pub hd_answer : SpiHd → Answer → Answer × Flow
  hd_answer d (Answer.packet n p rx) =
      (Answer.packet n p rx, triggered d.flow (stop_flow depth (length rx.queues.others) d.flow))
  hd_answer d a = (a, d.flow)

  unfoldable pub esp_spi_hd_read : Option State → Bool → SpiHd → Answer × Flow
  esp_spi_hd_read none buffer d = (fails d.rx, d.flow)
  esp_spi_hd_read (some s) buffer d =
      if not (is_active s) || not buffer
      then (fails d.rx, d.flow)
      else hd_answer d (answer (fetch d.rx))
