-- ===== src/Transport/Sdio.antt =====
-- The SDIO driver of the co-processor (slave/main/sdio_slave_api.c, without SIMPLIFIED_SDIO_SLAVE).
-- The answers of the peripheral's library, is_host_power_saving and the allocation of a write are
-- the environment's; the INIT event's allocation succeeds.
pub mod Tokens
pub mod RoundTrip
pub mod Reset
use esp_hosted_open.Prelude.{
  ℕ, zero, suc, ◌+◌, ◌-◌, ◌*◌, ◌%◌, ◌^◌, Bool, true, false, not, ◌&&◌, ◌||◌, Option, none, some,
  List, [], ◌∷◌, ◌++◌, ltb, ◌==◌, if◌then◌else◌, length,
}
use esp_hosted_open.Transport.{
  BufHandle, State, is_active, is_up, Checksum, frame, copy_payload, tx_header, rx_if_type,
  rx_if_num, rx_flags, rx_len, rx_offset, verify, flag_events,
}
use esp_hosted_open.Transport.Queues.{Packet, Rx, deliver, fetch, Answer, fails, answer}
use esp_hosted_open.Transport.Throttle.{
  Throttle, HostInt, start_rx_data_throttling_if_needed, stop_rx_data_throttling_if_needed,
}
use esp_hosted_open.Transport.Startup.{Build, sdio_tlvs, startup_frame}

-- send_tokens is the count of sdio_send_queue_sem, sending the frames that the peripheral has,
-- buffers the transmit buffers that are allocated, reloaded the receive buffers that went back to it.
pub record Sdio : Type 0 where
  pub send_tokens : ℕ
  pub sending : List (List ℕ)
  pub buffers : ℕ
  pub reloaded : ℕ
  pub throttle : Throttle
  pub ints : List HostInt
  pub rx : Rx

-- a call that answers with a length or ESP_FAIL (none), waits for ever, or reads through null
pub data Call : Type 0 where
  returns : Option ℕ → Sdio → Call
  waits_for_token : Call
  null_read : Call

-- no payload at all: no length, no pointer and no flag
abbrev pub nothing_to_send : BufHandle → Bool
nothing_to_send b =
    b.payload_len == 0 && (elim b.payload [ none ↦ true | some m ↦ false ] && (b.flag == 0))

module _ (sum : Checksum) (depth : ℕ) (handler : Bool) where
  -- sdio_slave_send_queue, and the error path of a write, which gives the semaphore back
  abbrev pub sdio_sent : Bool → ℕ → List ℕ → ℕ → Sdio → Call
  sdio_sent accepted n bytes zero d = waits_for_token
  sdio_sent true n bytes (suc k) d =
      returns (some n)
        (record d { send_tokens = k; sending = d.sending ++ bytes ∷ []; buffers = d.buffers + 1 })
  sdio_sent false n bytes (suc k) d = returns none d

  abbrev pub sdio_frame : Bool → BufHandle → Sdio → Option (List ℕ) → Call
  sdio_frame accepted b d none = null_read
  sdio_frame accepted b d (some payload) =
      sdio_sent accepted b.payload_len (frame sum (tx_header b 0) payload) d.send_tokens d

  unfoldable pub sdio_write : Option State → Option BufHandle → Bool → Bool → Bool → Sdio → Call
  sdio_write none buf sleeping allocated accepted d = returns none d
  sdio_write (some s) none sleeping allocated accepted d = returns none d
  sdio_write (some s) (some b) sleeping allocated accepted d =
      if not (is_active s)
      then returns none d
      else if sleeping
      then returns none d
      else if nothing_to_send b
      then returns none d
      else if not allocated
      then returns none d
      else sdio_frame accepted b d (copy_payload b.payload b.payload_len)

  -- the error path of the INIT event frees its buffer only
  abbrev pub sdio_started : Bool → List ℕ → ℕ → Sdio → Call
  sdio_started accepted bytes zero d = waits_for_token
  sdio_started true bytes (suc k) d =
      returns (some (length bytes))
        (record d { send_tokens = k; sending = d.sending ++ bytes ∷ []; buffers = d.buffers + 1 })
  sdio_started false bytes (suc k) d = returns none (record d { send_tokens = k })

  unfoldable pub generate_startup_event : Bool → Build → ℕ → Sdio → Call
  generate_startup_event accepted b cap d =
      sdio_started accepted (startup_frame sum (sdio_tlvs b cap)) d.send_tokens d

  abbrev pub tx_done_of : List (List ℕ) → Sdio → Sdio
  tx_done_of [] d = d
  tx_done_of (bytes ∷ later) d = record d {
    sending = later;
    buffers = d.buffers - 1;
    send_tokens = if ltb d.send_tokens depth then suc d.send_tokens else d.send_tokens;
  }

  -- A round of sdio_tx_done_task, for the oldest frame
  unfoldable pub sdio_tx_done : Sdio → Sdio
  sdio_tx_done d = tx_done_of d.sending d

  -- sdio_slave_recv_load_buf
  abbrev pub read_done : Sdio → Sdio
  read_done d = record d { reloaded = d.reloaded + 1 }

  abbrev pub throttled : Sdio → Throttle × List HostInt → Sdio
  throttled d (t, ints) = record d { throttle = t; ints = d.ints ++ ints }

  abbrev pub sdio_delivered : Sdio → Option Rx → Option Sdio
  sdio_delivered d none = none
  sdio_delivered d (some rx) = some (record d { rx = rx })

  abbrev pub sdio_verified : ℕ → Sdio → Option (List ℕ) → Option Sdio
  sdio_verified read_len d none = some (read_done d)
  sdio_verified read_len d (some bs) =
      sdio_delivered
        (throttled d
          (start_rx_data_throttling_if_needed depth (length d.rx.queues.others) d.throttle))
        (deliver depth (depth * 3)
          (record {
            if_type = rx_if_type bs;
            if_num = rx_if_num bs;
            payload = bs;
            payload_len = read_len;
          })
          d.rx)

  abbrev pub sdio_flagged : ℕ → Sdio → Sdio
  sdio_flagged flags d = record d {
    rx = record d.rx { events = d.rx.events ++ flag_events handler flags };
  }

  -- A round of sdio_rx_task in a state that is not DEINIT: the bytes of the buffer, and sdio_read_len.
  -- `none` where the task waits for ever for room.
  unfoldable pub sdio_rx_round : List ℕ → ℕ → Sdio → Option Sdio
  sdio_rx_round bs sdio_read_len d =
      let read_len = sdio_read_len % 2 ^ 16 in
      let flagged = sdio_flagged (rx_flags bs) d in
      if rx_len bs == 0
      then some (read_done flagged)
      else if ltb read_len (rx_len bs + rx_offset bs)
      then some (read_done flagged)
      else sdio_verified read_len flagged (verify sum (rx_len bs + rx_offset bs) bs)

  abbrev pub sdio_answer : Sdio → Answer → Answer × Sdio
  sdio_answer d (Answer.packet n p rx) = (
    Answer.packet n p rx,
    throttled (record d { rx = rx })
        (stop_rx_data_throttling_if_needed depth (length rx.queues.others) d.throttle),
  )
  sdio_answer d a = (a, d)

  unfoldable pub sdio_read : Option State → Bool → Sdio → Answer × Sdio
  sdio_read none buffer d = (fails d.rx, d)
  sdio_read (some s) buffer d =
      if not (is_up s) || not buffer then (fails d.rx, d) else sdio_answer d (answer (fetch d.rx))
