-- ===== src/Tests/Buses.antt =====
-- The bus drivers at concrete inputs: the UART and SPI.
use esp_hosted_open.Prelude.{
  ℕ, ◌+◌, ◌%◌, ◌≤◌, ◌<◌, ◌≡◌, refl, true, false, none, some, List, [], ◌∷◌, ◌++◌, arith, length,
  take, drop,
}
use esp_hosted_open.Transport.{
  BufHandle, Header, Checksum, active, header_bytes, frame, tx_header, checksum_of, copy_payload,
  sent, power_save_on, flag_events,
}
use esp_hosted_open.Transport.Frame.{stamped}
use esp_hosted_open.Transport.Queues.{
  Packet, Queues, empty, total, send, receive, Rx, deliver, give, append_packet, class_of,
}
use esp_hosted_open.Transport.Queues.Order.{by_class, drain}
use esp_hosted_open.Transport.Queues.Count.{
  Step, Reach, queue, release, here, next, at_start, Reach-receive,
}
use esp_hosted_open.Transport.Uart.{Driver, UartRx, h_uart_write, uart_rx_rounds}
use esp_hosted_open.Transport.Uart.Wire.{packet_of}
use esp_hosted_open.Transport.Uart.Peer.{done, more, packet_for, uart_rx_rounds-Writes}
use esp_hosted_open.Transport.Uart.Lost.{uart_rx_rounds-too_long}
use esp_hosted_open.Transport.Throttle.{Throttle}
use esp_hosted_open.Transport.Spi.{
  Spi, Sizes, esp_spi_write, write_interrupted_by, writes, tx_packet, dma_aligned,
  queue_next_transaction,
}
use esp_hosted_open.Transport.Spi.Written.{after_write}
use esp_hosted_open.Transport.Spi.Exchange.{process_spi_rx, ok}
use esp_hosted_open.Transport.Spi.Steps.{SpiStep, SpiReach, spi_at_start, SpiReach-allocated}
use esp_hosted_open.Transport.Spi.RoundTrip.{spi_packet_of, process_spi_rx-esp_spi_write}
use esp_hosted_open.Transport.Spi.Ready.{task_turn, write_interrupted, IsAnnounced, spi-IsAnnounced}

abbrev byte_sum : List ℕ → ℕ
byte_sum [] = 0
byte_sum (b ∷ bs) = b + byte_sum bs

abbrev summed : Checksum
summed = some byte_sum

-- a driver that has its bytes in a list
take_here : (s : List ℕ) (n : ℕ) → n ≤ length s → some (take n s) ≡ some (take n s)
take_here s n h = refl

drop_here : (s : List ℕ) (n : ℕ) → n ≤ length s → drop n s ≡ drop n s
drop_here s n h = refl

abbrev list_driver : Driver
list_driver = record {
  S = List ℕ;
  uart_read_bytes = λ s n. (some (take n s), drop n s);
  waiting = λ s. s;
  reads = take_here;
  consumes = drop_here;
}

abbrev note : BufHandle
note = record {
  if_type = 3;
  if_num = 1;
  payload = some (λ i. 7);
  flag = 4;
  payload_len = 2;
  seq_num = 9;
  wifi_flow_ctrl_en = 0;
}

abbrev no_packets : Rx
no_packets = record { queues = empty; sem = 0; events = [] }

abbrev fresh : UartRx
fresh = record { scratch = []; rx = no_packets }

abbrev note_bytes : List ℕ
note_bytes = 19 ∷ 4 ∷ 2 ∷ 0 ∷ 12 ∷ 0 ∷ 60 ∷ 0 ∷ 9 ∷ 0 ∷ 0 ∷ 0 ∷ 7 ∷ 7 ∷ []

note_written :
    h_uart_write summed (some active) (some note) true (λ bs. some (length bs))
    ≡ sent note_bytes (some 2)
unfolding h_uart_write frame header_bytes checksum_of copy_payload tx_header
note_written = refl

uart_rx_rounds-Writes_example :
    (t : List ℕ) × (v : UartRx) × (uart_rx_rounds summed 4 true list_driver 1 fresh
        (note_bytes ++ 5 ∷ [])
      ≡ some (v, t))
    × (t ≡ 5 ∷ [])
    × (drain (total v.rx.queues) v.rx.queues ≡ by_class (packet_for note ∷ []))
unfolding class_of tx_header
uart_rx_rounds-Writes_example =
    uart_rx_rounds-Writes summed 4 true list_driver
      (more {b = note} {bs = []} (λ bs. some (length bs)) 2 note_written done) (5 ∷ []) fresh
      (note_bytes ++ 5 ∷ []) (omega arith) refl refl (omega arith)

abbrev serial_packet : Packet
serial_packet = record { if_type = 3; if_num = 0; payload = []; payload_len = 12 }

abbrev one_serial : Queues
one_serial = record { serial = serial_packet ∷ []; bt = []; others = [] }

one_taken : Reach 2 6 at_start (record { queues = one_serial; sem = 0; sent = 0; taken = 1 })
unfolding send append_packet class_of give
one_taken =
    next (next (next here (queue serial_packet one_serial refl refl)) (release refl))
      (Step.take 0 refl refl)

Reach-receive_example : (p : Packet) × (q : Queues) × (receive one_serial ≡ some (p, q))
Reach-receive_example = Reach-receive 2 one_taken refl

-- a header that says 2000 bytes, and a frame in its payload
abbrev too_long : Header
too_long = record {
  if_type = 1;
  if_num = 0;
  flags = 0;
  len = 2000;
  offset = 12;
  checksum = 0;
  seq_num = 0;
  throttle_cmd = 0;
  pkt_type = 0;
}

abbrev inner : Header
inner = record {
  if_type = 3;
  if_num = 0;
  flags = 0;
  len = 1;
  offset = 12;
  checksum = 0;
  seq_num = 0;
  throttle_cmd = 0;
  pkt_type = 0;
}

abbrev inner_received : Rx
inner_received = record {
  queues = record { serial = packet_of inner (8 ∷ []) ∷ []; bt = []; others = [] };
  sem = 1;
  events = [];
}

uart_rx_rounds-too_long_example :
    (t : List ℕ) × (u : UartRx) × (uart_rx_rounds none 4 false list_driver 2 fresh
        (stamped too_long 0 ++ (frame none inner (8 ∷ []) ++ []))
      ≡ some (u, t))
    × (u.rx ≡ inner_received)
    × (t ≡ [])
unfolding deliver send append_packet class_of give flag_events
uart_rx_rounds-too_long_example =
    uart_rx_rounds-too_long none 4 false list_driver too_long 0 inner (8 ∷ []) [] [] no_packets
      (stamped too_long 0 ++ (frame none inner (8 ∷ []) ++ [])) inner_received (omega arith) refl
      (omega arith) (omega arith) refl refl

abbrev throttle_off : Throttle
throttle_off = record { high = 80; low = 60; current = 0 }

abbrev spi_idle : Spi
spi_idle = spi_at_start throttle_off

abbrev sizes : Sizes
sizes = record { tx_size = 2; rx_size = 3 }

abbrev note_queued : Queues
note_queued = record {
  serial = tx_packet summed sizes note (7 ∷ 7 ∷ []) ∷ [];
  bt = [];
  others = [];
}

abbrev note_in : Spi
note_in = after_write summed sizes spi_idle note_queued

note_sent : esp_spi_write summed sizes (some active) (some note) spi_idle ≡ writes 2 note_in
unfolding esp_spi_write write_interrupted_by send append_packet class_of give tx_packet dma_aligned
note_sent = refl

SpiReach-allocated_example :
    (note_in.tx_buf_allocated ≡ total note_in.tx + length note_in.in_flight)
    × (note_in.rx_buf_allocated ≡ length note_in.in_flight + total note_in.rx.queues + 0)
SpiReach-allocated_example =
    SpiReach-allocated summed sizes true throttle_off
      (SpiReach.next {q = spi_idle} SpiReach.here (SpiStep.write active note 2 note_sent))

abbrev note_received : Rx
note_received = record {
  queues = record {
    serial = spi_packet_of summed (tx_header note 0) (7 ∷ 7 ∷ []) ∷ [];
    bt = [];
    others = [];
  };
  sem = 1;
  events = power_save_on ∷ [];
}

process_spi_rx-esp_spi_write_example :
    (x : Packet) × (send 2 x empty ≡ some note_queued)
    × (x.if_type ≡ 3)
    × (x.payload_len % 4 ≡ 0)
    × (2 + 12 ≤ x.payload_len)
    × (x.payload_len < 2 + 16)
    × (x.payload_len ≤ 1600)
    × (process_spi_rx summed sizes true (some x.payload) no_packets ≡ ok note_received)
unfolding deliver send append_packet class_of give flag_events tx_header
process_spi_rx-esp_spi_write_example =
    process_spi_rx-esp_spi_write summed sizes true (some active) note spi_idle note_in 2 no_packets
      note_received (λ i. 7) note_sent refl (omega arith) refl

write_interrupted_example :
    (note_in.data_ready ≡ true)
    × ((i : Spi) × (write_interrupted_by summed sizes
            (task_turn summed sizes)
            (some active)
            (some note)
            spi_idle
          ≡ writes 2 i)
        × (i.tx ≡ note_in.tx)
        × (i.tx_sem ≡ note_in.tx_sem)
        × (0 < total i.tx)
        × (i.data_ready ≡ false))
write_interrupted_example =
    write_interrupted summed sizes (some active) note spi_idle note_in 2 refl note_sent

idle-IsAnnounced : IsAnnounced sizes spi_idle
idle-IsAnnounced = record {
  counted = refl;
  fits = omega arith;
  announced = λ (h : 0 < 0). absurd (omega arith);
}

spi-IsAnnounced_example :
    IsAnnounced sizes note_in × IsAnnounced sizes (queue_next_transaction summed sizes true note_in)
spi-IsAnnounced_example =
    spi-IsAnnounced summed sizes (some active) note spi_idle note_in 2 idle-IsAnnounced
      (omega arith) note_sent
