-- ===== src/Transport/Uart/Wire.antt =====
-- What the receive task makes of the bytes that the UART driver's write sends.
use esp_hosted_open.Prelude.{
  ℕ, ◌+◌, ◌*◌, ◌≤◌, ◌≡◌, refl, ap, ◌∙◌, Bool, false, some, List, [], ◌∷◌, ◌++◌, arith, le→ltb_false,
  ◌==◌, length, take, drop, take-append, drop-append, length-append,
}
use esp_hosted_open.Transport.{Header, Checksum, header_bytes, frame, checksum_of, flag_events}
use esp_hosted_open.Transport.Frame.{
  Fits, stamped, length-stamped, rx_len-stamped, rx_offset-stamped, blank, length-blank,
  verify-frame, frame-stamped, rx_flags-frame, rx_if_type-blank, rx_if_num-blank,
}
use esp_hosted_open.Transport.Queues.{Packet, Rx, deliver}
use esp_hosted_open.Transport.Uart.{
  Driver, UartRx, store, process_frame, process_header, uart_rx_round,
}

-- the packet that the task queues for a frame
abbrev pub packet_of : Header → List ℕ → Packet
packet_of h payload = record {
  if_type = h.if_type;
  if_num = h.if_num;
  payload = stamped h 0 ++ payload;
  payload_len = length payload + 12;
}

-- a frame of the UART: its fields fit, it is no longer than the buffer, and says its length
pub record IsSendable (h : Header) (payload : List ℕ) : Type 0 where
  pub fits : Fits h
  pub at_payload : h.offset ≡ 12
  pub says_length : h.len ≡ length payload
  pub short : length payload + 12 ≤ 1600

module _ (sum : Checksum) (depth : ℕ) (handler : Bool) (driver : Driver) where
  open driver use {S, uart_read_bytes, waiting, reads, consumes}

  -- the receive side after a frame's flags, before it is queued
  abbrev pub flagged : Header → Rx → Rx
  flagged h rx = record rx { events = rx.events ++ flag_events handler h.flags }

  process_frame-frame :
      (h : Header) (payload junk : List ℕ) (r : Rx) (s : S) (rx : Rx)
      → IsSendable h payload
      → deliver depth (depth * 3) (packet_of h payload) (flagged h r) ≡ some rx
      → process_frame sum depth handler driver
          (length payload + 12)
          (record { scratch = frame sum h payload ++ junk; rx = r })
          s
        ≡ some (record { scratch = blank h payload ++ junk; rx = rx }, s)
  unfolding process_frame
  process_frame-frame h payload junk r s rx ok room =
      let size = length payload + 12 in
      rw
        (
          rx_flags-frame h payload junk ok.fits sum,
          verify-frame sum h payload junk size refl,
          rx_if_type-blank h payload junk ok.fits,
          rx_if_num-blank h payload junk ok.fits,
          take-append size (blank h payload) junk (length-blank h payload),
          room,
        )
        refl

  pub read-next :
      (s : S) (n : ℕ) (xs ys : List ℕ)
      → waiting s ≡ xs ++ ys
      → length xs ≡ n
      → ((uart_read_bytes s n).0 ≡ some xs) × (waiting (uart_read_bytes s n).1 ≡ ys)
  read-next s n xs ys w e =
      let enough : n ≤ length (waiting s) = omega (arith, ap length w, length-append xs ys) in
      (
        reads s n enough ∙ ap some (ap (take n) w ∙ take-append n xs ys e),
        consumes s n enough ∙ (ap (drop n) w ∙ drop-append n xs ys e),
      )

  -- the reads of a frame's header, and of its payload
  module _ (h : Header) (c : ℕ) (junk : List ℕ) (r : Rx) where
    abbrev pub with_header : UartRx
    with_header = record { scratch = stamped h c ++ junk; rx = r }

    process_header-empty :
        (s : S) (payload : List ℕ)
        → IsSendable h payload
        → length payload ≡ 0
        → process_header sum depth handler driver with_header s
          ≡ process_frame sum depth handler driver 12 with_header s
    unfolding process_header
    process_header-empty s payload ok e =
        rw
          (
            rx_len-stamped h c junk ok.fits ∙ (ok.says_length ∙ e),
            rx_offset-stamped h c junk ok.fits ∙ ok.at_payload,
          )
          refl

    process_header-full :
        (s : S) (x : ℕ) (xs : List ℕ)
        → IsSendable h (x ∷ xs)
        → (uart_read_bytes s (length (x ∷ xs))).0 ≡ some (x ∷ xs)
        → process_header sum depth handler driver with_header s
          ≡ process_frame sum depth handler driver
              (length (x ∷ xs) + 12)
              (record { scratch = store (stamped h c ++ junk) 12 (some (x ∷ xs)); rx = r })
              (uart_read_bytes s (length (x ∷ xs))).1
    unfolding process_header
    process_header-full s x xs ok e =
        let some_bytes : (length (x ∷ xs) == 0) ≡ false = ground arith in
        rw
          (
            rx_len-stamped h c junk ok.fits ∙ ok.says_length,
            rx_offset-stamped h c junk ok.fits ∙ ok.at_payload,
            some_bytes,
            le→ltb_false 1600 (length (x ∷ xs) + 12) ok.short,
            e,
            le→ltb_false (length (x ∷ xs)) (length (x ∷ xs)) (omega arith),
          )
          refl

  -- the reads of a frame: its header, and its payload if it has one
  process_header-frame :
      (h : Header) (payload rest junk : List ℕ) (r : Rx) (s : S) (rx : Rx)
      → IsSendable h payload
      → waiting s ≡ payload ++ rest
      → deliver depth (depth * 3) (packet_of h payload) (flagged h r) ≡ some rx
      → (t : S) × (left : List ℕ) × (process_header sum depth handler driver
            (with_header h (checksum_of sum (blank h payload)) junk r)
            s
          ≡ some (record { scratch = blank h payload ++ left; rx = rx }, t))
        × (waiting t ≡ rest)
  unfolding header_bytes frame
  process_header-frame h [] rest junk r s rx ok w room = (
    s,
    junk,
    process_header-empty h (checksum_of sum (blank h [])) junk r s [] ok refl
        ∙ process_frame-frame h [] junk r s rx ok room,
    w,
  )
  process_header-frame h (x ∷ xs) rest junk r s rx ok w room =
      let (e, after) = read-next s (length (x ∷ xs)) (x ∷ xs) rest w refl in
      (
        (uart_read_bytes s (length (x ∷ xs))).1,
        drop (12 + length (x ∷ xs)) (stamped h (checksum_of sum (blank h (x ∷ xs))) ++ junk),
        process_header-full h (checksum_of sum (blank h (x ∷ xs))) junk r s x xs ok e
            ∙ process_frame-frame h (x ∷ xs) _ r (uart_read_bytes s (length (x ∷ xs))).1 rx ok room,
        after,
      )

  -- A frame that waits in the driver is read whole, and its packet is queued.
  pub round-frame :
      (h : Header) (payload rest scratch : List ℕ) (r : Rx) (s : S) (rx : Rx)
      → IsSendable h payload
      → waiting s ≡ frame sum h payload ++ rest
      → deliver depth (depth * 3) (packet_of h payload) (flagged h r) ≡ some rx
      → (t : S) × (left : List ℕ) × (uart_rx_round sum depth handler driver
            (record { scratch = scratch; rx = r })
            s
          ≡ some (record { scratch = blank h payload ++ left; rx = rx }, t))
        × (waiting t ≡ rest)
  unfolding uart_rx_round header_bytes
  round-frame h payload rest scratch r s rx ok w room =
      let hb = stamped h (checksum_of sum (blank h payload)) in
      let whole : frame sum h payload ++ rest ≡ hb ++ (payload ++ rest) =
        frame-stamped sum h payload rest in
      let (e, after) =
        read-next s 12 hb (payload ++ rest) (w ∙ whole)
          (length-stamped h (checksum_of sum (blank h payload)) []) in
      let (t, left, done, empty) =
        process_header-frame h payload rest (drop 12 scratch) r (uart_read_bytes s 12).1 rx ok after
          room in
      (t, left, rw e done, empty)
