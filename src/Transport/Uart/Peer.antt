-- ===== src/Transport/Uart/Peer.antt =====
-- The packets that the receive task queues for the buffers that the driver's write was given, as
-- the two ends of the UART are of one format (slave/main/uart_slave_api.c).
use esp_hosted_open.Prelude.{
  ℕ, zero, suc, ◌+◌, ◌*◌, ◌≤◌, ◌<◌, ◌≡◌, refl, sym, ap, ◌∙◌, Bool, true, false, Option, none, some,
  List, [], ◌∷◌, ◌++◌, map, arith, ◌==◌, ◌&&◌, if◌then◌else◌, length, append_assoc,
}
use esp_hosted_open.Memory.{Memory, length-read}
use esp_hosted_open.Transport.{
  Checksum, BufHandle, active, refused, frame, copy_payload, tx_header, Written, sent,
}
use esp_hosted_open.Transport.Frame.{blank}
use esp_hosted_open.Transport.Queues.{Packet, Queues, empty, total, send, give, Rx, deliver}
use esp_hosted_open.Transport.Queues.Order.{
  HasRoom, by_class, send_all, drain, behind, send_all-behind, send_all-inv, send_all-nil,
  drain-behind,
}
use esp_hosted_open.Transport.Uart.{
  Driver, UartRx, h_uart_write, send_frame, no_payload, uart_rx_round, uart_rx_rounds,
}
use esp_hosted_open.Transport.Uart.Wire.{packet_of, flagged, IsSendable, round-frame}

-- the bytes on the wire for writes that answered, in their order
pub data Writes (sum : Checksum) : List BufHandle → List ℕ → Type 0 where
  done : Writes sum [] []
  more :
      {b : BufHandle} {bs : List BufHandle} {bytes later : List ℕ} (tx : List ℕ → Option ℕ)
      → (n : ℕ) → h_uart_write sum (some active) (some b) true tx ≡ sent bytes (some n)
      → Writes sum bs later
      → Writes sum (b ∷ bs) (bytes ++ later)

-- the fields of a buffer fit into the header's, and the frame into the receiver's buffer
pub record IsShort (b : BufHandle) : Type 0 where
  pub type_fits : b.if_type < 16
  pub num_fits : b.if_num < 16
  pub flag_fits : b.flag < 256
  pub len_fits : b.payload_len + 12 ≤ 1600

abbrev pub AllShort : List BufHandle → Type 0
AllShort [] = Unit
AllShort (b ∷ bs) = IsShort b × AllShort bs

abbrev pub bytes_or_none : Option (List ℕ) → List ℕ
bytes_or_none none = []
bytes_or_none (some bs) = bs

abbrev pub payload_of : BufHandle → List ℕ
payload_of b = bytes_or_none (copy_payload b.payload b.payload_len)

-- the packet that a receiver has for a buffer
abbrev pub packet_for : BufHandle → Packet
packet_for b = packet_of (tx_header b b.wifi_flow_ctrl_en) (payload_of b)

-- what is copied has the buffer's length
pub length-copy_payload :
    (p : Option Memory) (n : ℕ) (bs : List ℕ) → copy_payload p n ≡ some bs → length bs ≡ n
unfolding copy_payload
length-copy_payload none zero bs e = ground arith
length-copy_payload none (suc n) bs e = cc
length-copy_payload (some m) n bs e = ground (arith, length-read m 0 n)

abbrev Sends : Checksum → BufHandle → List ℕ → Option (List ℕ) → Type 0
Sends sum b bytes c =
    (payload : List ℕ) × (c ≡ some payload)
    × (bytes ≡ frame sum (tx_header b b.wifi_flow_ctrl_en) payload)

send_frame-sent :
    (sum : Checksum) (b : BufHandle) (tx : List ℕ → Option ℕ) (bytes : List ℕ) (a : Option ℕ)
    (c : Option (List ℕ))
    → send_frame sum tx b c ≡ sent bytes a
    → Sends sum b bytes c
send_frame-sent sum b tx bytes a none e = cc
send_frame-sent sum b tx bytes a (some payload) e = (payload, refl, cc)

unless-sent :
    (guard : Bool) (w : Written) (bytes : List ℕ) (a : Option ℕ)
    → (if guard then refused else w) ≡ sent bytes a
    → w ≡ sent bytes a
unless-sent true w bytes a e = cc
unless-sent false w bytes a e = e

h_uart_write-sent :
    (sum : Checksum) (b : BufHandle) (tx : List ℕ → Option ℕ) (bytes : List ℕ) (a : Option ℕ)
    → h_uart_write sum (some active) (some b) true tx ≡ sent bytes a
    → (bytes ≡ frame sum (tx_header b b.wifi_flow_ctrl_en) (payload_of b))
      × (length (payload_of b) ≡ b.payload_len)
unfolding h_uart_write
h_uart_write-sent sum b tx bytes a e =
    let guard = b.wifi_flow_ctrl_en == 0 && no_payload b in
    let copy = copy_payload b.payload b.payload_len in
    let w = send_frame sum tx b copy in
    let (payload, c, f) = send_frame-sent sum b tx bytes a copy (unless-sent guard w bytes a e) in
    rw c (f, length-copy_payload b.payload b.payload_len payload c)

pub IsShort-IsSendable :
    (b : BufHandle)
    → IsShort b
    → (length (payload_of b) ≡ b.payload_len)
    → IsSendable (tx_header b b.wifi_flow_ctrl_en) (payload_of b)
unfolding tx_header
IsShort-IsSendable b short n =
    let len = short.len_fits in
    record {
      fits = record {
        type_fits = short.type_fits;
        num_fits = short.num_fits;
        flags_fits = short.flag_fits;
        len_fits = omega arith;
        offset_fits = omega arith;
      };
      at_payload = refl;
      says_length = sym n;
      short = omega arith;
    }

module _ (sum : Checksum) (depth : ℕ) (handler : Bool) (driver : Driver) where
  open driver use {S, waiting}

  -- A buffer whose bytes wait in the driver comes out as its packet, if its queue has room.
  round-write :
      (b : BufHandle) (bytes rest scratch : List ℕ) (r : Rx) (s : S) (q : Queues)
      → IsShort b
      → (bytes ≡ frame sum (tx_header b b.wifi_flow_ctrl_en) (payload_of b))
      → (length (payload_of b) ≡ b.payload_len)
      → waiting s ≡ bytes ++ rest
      → send depth (packet_for b) r.queues ≡ some q
      → (t : S) × (u : UartRx) × (uart_rx_round sum depth handler driver
            (record { scratch = scratch; rx = r })
            s
          ≡ some (u, t))
        × (waiting t ≡ rest)
        × (u.rx.queues ≡ q)
  unfolding deliver
  round-write b bytes rest scratch r s q short f n w room =
      let h = tx_header b b.wifi_flow_ctrl_en in
      let sendable = IsShort-IsSendable b short n in
      let rx : Rx = record (flagged sum depth handler driver h r) {
        queues = q;
        sem = give (depth * 3) r.sem;
      } in
      let (t, left, went, over) =
        round-frame sum depth handler driver h (payload_of b) rest scratch r s rx sendable
          (w ∙ ap (λ x. x ++ rest) f) (rw room refl) in
      (t, record { scratch = blank h (payload_of b) ++ left; rx = rx }, went, over, refl)

  -- the state after the rounds for some buffers
  abbrev Received : List BufHandle → UartRx → S → List ℕ → Queues → Type 0
  Received bs u s rest q =
      (t : S) × (v : UartRx) × (uart_rx_rounds sum depth handler driver (length bs) u s
        ≡ some (v, t))
      × (waiting t ≡ rest)
      × (v.rx.queues ≡ q)

  rounds-writes :
      {bs : List BufHandle} {bytes : List ℕ} (written : Writes sum bs bytes) (rest : List ℕ)
      (u : UartRx) (s : S) (q : Queues)
      → AllShort bs
      → waiting s ≡ bytes ++ rest
      → send_all depth (map packet_for bs) u.rx.queues ≡ some q
      → Received bs u s rest q
  unfolding uart_rx_rounds
  rounds-writes done rest u s q short w e = (s, u, refl, w, send_all-nil depth u.rx.queues q e)
  rounds-writes (more {b} {bs} {bytes} {later} tx n sends others) rest u s q (short, shorts) w e =
      let (q1, room, next) =
        send_all-inv depth (packet_for b) (map packet_for bs) u.rx.queues q e in
      let (f, len) = h_uart_write-sent sum b tx bytes (some n) sends in
      let (t, v, went, left, queues) =
        round-write b bytes (later ++ rest) u.scratch u.rx s q1 short f len
          (w ∙ append_assoc bytes later rest) room in
      let (t2, v2, all, over, last) =
        rounds-writes others rest v t q shorts left
          (ap (send_all depth (map packet_for bs)) queues ∙ next) in
      (t2, v2, rw went all, over, last)

  -- Buffers of at most 1588 bytes, whose fields fit into the header, that the UART driver wrote, one after
  -- the other, each with an answer that is its length and not ESP_FAIL: a receive task on the other end that has their bytes waiting, with more behind
  -- them, and empty queues with room for their packets, comes in as many rounds to where the bytes
  -- behind wait; a reader then takes the packets of the buffers, each once, the serial ones first and
  -- those of Bluetooth next, and within a class in the order of the writes.
  pub uart_rx_rounds-Writes :
      {bs : List BufHandle} {bytes : List ℕ} (written : Writes sum bs bytes) (rest : List ℕ)
      (u : UartRx) (s : S)
      → AllShort bs
      → waiting s ≡ bytes ++ rest
      → u.rx.queues ≡ empty
      → HasRoom depth empty (map packet_for bs)
      → (t : S) × (v : UartRx) × (uart_rx_rounds sum depth handler driver (length bs) u s
          ≡ some (v, t))
        × (waiting t ≡ rest)
        × (drain (total v.rx.queues) v.rx.queues ≡ by_class (map packet_for bs))
  uart_rx_rounds-Writes {bs} written rest u s short w fresh room =
      let ps = map packet_for bs in
      let (t, v, went, over, queues) =
        rounds-writes written rest u s (behind empty ps) short w
          (ap (send_all depth ps) fresh ∙ send_all-behind depth ps empty room) in
      (t, v, went, over, ap (λ (q : Queues). drain (total q) q) queues ∙ drain-behind ps)
