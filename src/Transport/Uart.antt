-- ===== src/Transport/Uart.antt =====
-- The UART driver of the co-processor (slave/main/uart_slave_api.c). USE_DATA_THROTTLING is 0
-- there, and an allocation that fails in the receive task is a failed assertion.
pub mod Wire
pub mod Peer
pub mod Lost
use esp_hosted_open.Prelude.{
  ℕ, zero, suc, ◌+◌, ◌*◌, ◌≤◌, ◌≡◌, Bool, true, false, not, ◌&&◌, ◌||◌, Option, none, some, List,
  [], ◌∷◌, ◌++◌, ltb, leb, ◌==◌, if◌then◌else◌, length, take, drop,
}
use esp_hosted_open.Transport.{
  BufHandle, State, is_active, BusEvent, open_data_path, close_data_path, Checksum, header_size,
  frame, copy_payload, tx_header, rx_if_type, rx_if_num, rx_flags, rx_len, rx_offset,
  clear_checksum, verify, flag_events, Written, refused, sent, null_read,
}
use esp_hosted_open.Transport.Queues.{
  Packet, Queues, empty, Rx, deliver, fetch, Answer, fails, answer,
}

-- BUFFER_SIZE, that is ESP_TRANSPORT_UART_MAX_BUF_SIZE
abbrev pub buffer_size : ℕ
buffer_size = 1600

-- uart_read_bytes and the bytes that wait in the driver: as long as there are enough of them, a read
-- answers with the next ones and takes them away. `none` is the answer -1.
pub record Driver : Type 1 where
  pub S : Type 0
  pub uart_read_bytes : S → ℕ → Option (List ℕ) × S
  pub waiting : S → List ℕ
  pub reads :
      (s : S) (n : ℕ) → n ≤ length (waiting s) → (uart_read_bytes s n).0 ≡ some (take n (waiting s))
  pub consumes :
      (s : S) (n : ℕ)
      → n ≤ length (waiting s)
      → waiting (uart_read_bytes s n).1 ≡ drop n (waiting s)

pub record UartRx : Type 0 where
  pub scratch : List ℕ
  pub rx : Rx

abbrev same_length : ℕ → ℕ → Option ℕ → Option ℕ
same_length total n none = none
same_length total n (some k) = if k == total then some n else none

-- !payload_len || !payload
abbrev pub no_payload : BufHandle → Bool
no_payload b = elim b.payload [ none ↦ true | some m ↦ b.payload_len == 0 ]

module _ (sum : Checksum) where
  abbrev pub send_frame : (List ℕ → Option ℕ) → BufHandle → Option (List ℕ) → Written
  send_frame tx b none = null_read
  send_frame tx b (some payload) =
      let bytes = frame sum (tx_header b b.wifi_flow_ctrl_en) payload in
      sent bytes (same_length (b.payload_len + header_size) b.payload_len (tx bytes))

  -- The allocation's success and uart_write_bytes are the environment's. A packet for flow control
  -- needs no payload.
  unfoldable pub h_uart_write :
      Option State → Option BufHandle → Bool → (List ℕ → Option ℕ) → Written
  h_uart_write none b allocated tx = refused
  h_uart_write (some s) none allocated tx = refused
  h_uart_write (some s) (some b) allocated tx =
      if not (is_active s)
      then refused
      else if b.wifi_flow_ctrl_en == 0 && no_payload b
      then refused
      else if not allocated
      then refused
      else send_frame tx b (copy_payload b.payload b.payload_len)

-- the bytes that a read puts into the scratch buffer from an index on; -1 leaves it as it is
abbrev pub store : List ℕ → ℕ → Option (List ℕ) → List ℕ
store scratch i none = scratch
store scratch i (some bs) = take i scratch ++ (bs ++ drop (i + length bs) scratch)

-- bytes_read < sizeof(...): the comparison is unsigned, so the answer -1 is not less
abbrev pub header_short : Option (List ℕ) → Bool
header_short none = false
header_short (some bs) = ltb (length bs) header_size

-- bytes_read < len: both are promoted to int
abbrev pub payload_short : ℕ → Option (List ℕ) → Bool
payload_short len none = true
payload_short len (some bs) = ltb (length bs) len

module _ (sum : Checksum) (depth : ℕ) (handler : Bool) (driver : Driver) where
  open driver use {S, uart_read_bytes}

  -- A round of the task's loop comes to the next one, or waits for ever for room in a queue.
  abbrev pub Round : Type 0
  Round = Option (UartRx × S)

  abbrev pub queued : List ℕ → S → Option Rx → Round
  queued scratch s none = none
  queued scratch s (some rx) = some (record { scratch = scratch; rx = rx }, s)

  -- the checksum, the copy of total_len bytes and the queue
  abbrev pub checked : ℕ → UartRx → S → Option (List ℕ) → Round
  checked total_len u s none = some (record u { scratch = clear_checksum u.scratch }, s)
  checked total_len u s (some bs) = queued bs s (
      deliver depth (depth * 3)
        (record {
          if_type = rx_if_type bs;
          if_num = rx_if_num bs;
          payload = take total_len bs;
          payload_len = total_len;
        })
        u.rx)

  unfoldable pub process_frame : ℕ → UartRx → S → Round
  process_frame total_len u s =
      let rx = record u.rx { events = u.rx.events ++ flag_events handler (rx_flags u.scratch) } in
      checked total_len (record u { rx = rx }) s (verify sum total_len u.scratch)

  abbrev pub payload_read : ℕ → UartRx → Option (List ℕ) × S → Round
  payload_read len u (bs, s) =
      let v : UartRx = record u { scratch = store u.scratch header_size bs } in
      if payload_short len bs then some (v, s) else process_frame (len + header_size) v s

  unfoldable pub process_header : UartRx → S → Round
  process_header u s =
      let len = rx_len u.scratch in
      if not (rx_offset u.scratch == header_size)
      then some (u, s)
      else if ltb buffer_size (len + header_size)
      then some (u, s)
      else if len == 0
      then process_frame (len + header_size) u s
      else payload_read len u (uart_read_bytes s len)

  abbrev pub header_read : UartRx → Option (List ℕ) × S → Round
  header_read u (bs, s) =
      let v : UartRx = record u { scratch = store u.scratch 0 bs } in
      if header_short bs then some (v, s) else process_header v s

  unfoldable pub uart_rx_round : UartRx → S → Round
  uart_rx_round u s = header_read u (uart_read_bytes s header_size)

  abbrev pub rounds_after : (UartRx → S → Round) → Round → Round
  rounds_after more none = none
  rounds_after more (some (u, s)) = more u s

  -- n rounds of the loop
  unfoldable pub uart_rx_rounds : ℕ → UartRx → S → Round
  uart_rx_rounds zero u s = some (u, s)
  uart_rx_rounds (suc n) u s = rounds_after (uart_rx_rounds n) (uart_rx_round u s)

-- the start of the task: the data path opens, and the scratch buffer is what malloc gives
unfoldable pub uart_rx_start : Bool → List ℕ → Rx → UartRx
uart_rx_start handler scratch rx = record {
  scratch = scratch;
  rx = record rx { events = rx.events ++ (if handler then open_data_path ∷ [] else []) };
}

unfoldable pub h_uart_read : Option State → Bool → Rx → Answer
h_uart_read none buffer rx = fails rx
h_uart_read (some s) buffer rx =
    if not (is_active s) || not buffer then fails rx else answer (fetch rx)
