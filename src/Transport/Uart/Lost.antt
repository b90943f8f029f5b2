-- ===== src/Transport/Uart/Lost.antt =====
-- Where the receive task loses its place in the stream (slave/main/uart_slave_api.c).
use esp_hosted_open.Prelude.{
  ℕ, ◌+◌, ◌*◌, ◌<◌, ◌≡◌, refl, ◌∙◌, Bool, some, List, [], ◌++◌, lt→ltb, drop,
}
use esp_hosted_open.Transport.{Header, Checksum, header_bytes, frame}
use esp_hosted_open.Transport.Frame.{
  Fits, blank, stamped, length-stamped, rx_len-stamped, rx_offset-stamped,
}
use esp_hosted_open.Transport.Queues.{Rx, deliver}
use esp_hosted_open.Transport.Uart.{
  Driver, UartRx, process_header, uart_rx_round, uart_rx_rounds, buffer_size,
}
use esp_hosted_open.Transport.Uart.Wire.{
  packet_of, flagged, IsSendable, round-frame, read-next, with_header,
}

module _ (sum : Checksum) (depth : ℕ) (handler : Bool) (driver : Driver) where
  open driver use {S, uart_read_bytes, waiting}

  process_header-too_long :
      (h : Header) (c : ℕ) (junk : List ℕ) (r : Rx) (s : S)
      → Fits h
      → h.offset ≡ 12
      → 1600 < h.len + 12
      → process_header sum depth handler driver (with_header sum depth handler driver h c junk r) s
        ≡ some (with_header sum depth handler driver h c junk r, s)
  unfolding process_header
  process_header-too_long h c junk r s fits at long =
      rw
        (
          rx_len-stamped h c junk fits,
          rx_offset-stamped h c junk fits ∙ at,
          lt→ltb buffer_size (h.len + 12) long,
        )
        refl

  round-too_long :
      (h : Header) (c : ℕ) (more scratch : List ℕ) (r : Rx) (s : S)
      → Fits h
      → h.offset ≡ 12
      → 1600 < h.len + 12
      → waiting s ≡ stamped h c ++ more
      → (uart_rx_round sum depth handler driver (record { scratch = scratch; rx = r }) s
          ≡ some (
            with_header sum depth handler driver h c (drop 12 scratch) r,
            (uart_read_bytes s 12).1,
          ))
        × (waiting (uart_read_bytes s 12).1 ≡ more)
  unfolding uart_rx_round header_bytes
  round-too_long h c more scratch r s fits at long w =
      let (e, after) =
        read-next sum depth handler driver s 12 (stamped h c) more w (length-stamped h c []) in
      (
        rw e
            (process_header-too_long h c (drop 12 scratch) r (uart_read_bytes s 12).1 fits at long),
        after,
      )

  -- A header of a frame that is too long is dropped alone, and what follows it is read as a header: if
  -- its payload begins with the bytes of a frame, the task, that has room for it, queues a packet for
  -- it two rounds later, and goes on with the bytes behind.
  pub uart_rx_rounds-too_long :
      (h : Header) (c : ℕ) (inner : Header) (payload rest scratch : List ℕ) (r : Rx) (s : S)
      (rx : Rx)
      → Fits h
      → h.offset ≡ 12
      → 1600 < h.len + 12
      → IsSendable inner payload
      → waiting s ≡ stamped h c ++ (frame sum inner payload ++ rest)
      → deliver depth
          (depth * 3)
          (packet_of inner payload)
          (flagged sum depth handler driver inner r)
        ≡ some rx
      → (t : S) × (u : UartRx) × (uart_rx_rounds sum depth handler driver 2
            (record { scratch = scratch; rx = r })
            s
          ≡ some (u, t))
        × (u.rx ≡ rx)
        × (waiting t ≡ rest)
  unfolding uart_rx_rounds
  uart_rx_rounds-too_long h c inner payload rest scratch r s rx fits at long ok w room =
      let (dropped, after) =
        round-too_long h c (frame sum inner payload ++ rest) scratch r s fits at long w in
      let (t, left, went, over) =
        round-frame sum depth handler driver inner payload rest (stamped h c ++ drop 12 scratch) r
          (uart_read_bytes s 12).1 rx ok after room in
      (
        t,
        record { scratch = blank inner payload ++ left; rx = rx },
        rw (dropped, went) refl,
        refl,
        over,
      )
