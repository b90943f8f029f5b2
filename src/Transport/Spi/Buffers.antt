-- ===== src/Transport/Spi/Buffers.antt =====
-- Every buffer that the SPI driver allocates is in a queue, in a transaction, or with a reader
-- (slave/main/spi_slave_api.c, rx_buf_allocated and tx_buf_allocated).
use esp_hosted_open.Prelude.{
  ℕ, zero, suc, ◌+◌, ◌-◌, ◌*◌, ◌≡◌, refl, ap, ◌∙◌, subst, sym, Bool, true, false, Option, none,
  some, List, [], ◌∷◌, arith, ltb, ◌==◌, if◌then◌else◌, length, length-append, Option-cases, inl,
  inr,
}
use esp_hosted_open.Memory.{read}
use esp_hosted_open.Transport.{Checksum, BufHandle, State, rx_len, rx_offset, verify}
use esp_hosted_open.Transport.Queues.{Packet, total, send, receive, give, Rx, deliver}
use esp_hosted_open.Transport.Queues.Count.{total-send, total-receive}
use esp_hosted_open.Transport.Startup.{Build, spi_tlvs}
use esp_hosted_open.Transport.Spi.{
  Spi, Sizes, writes, esp_spi_write, get_next_tx_buffer, next_taken, queue_next_transaction,
  transaction, dummy_buffer, tx_packet, spi_buffer_size,
}
use esp_hosted_open.Transport.Spi.Written.{esp_spi_write-IsWritten, after_write}
use esp_hosted_open.Transport.Spi.Exchange.{
  Processed, ok, invalid, stuck, process_spi_rx, rx_done, oldest_done, post_process, rx_queued,
  rx_verified, started, startup_packet, generate_startup_event,
}

-- in_hand buffers are with the task, and held ones with readers that have not called
-- esp_spi_read_done yet.
pub record IsAccounted (in_hand held : ℕ) (p : Spi) : Type 0 where
  pub tx_counted : p.tx_buf_allocated ≡ total p.tx + length p.in_flight + in_hand
  pub rx_counted : p.rx_buf_allocated ≡ length p.in_flight + total p.rx.queues + held

total-deliver :
    (depth max : ℕ) (x : Packet) (r rx : Rx)
    → deliver depth max x r ≡ some rx
    → total rx.queues ≡ suc (total r.queues)
unfolding deliver
total-deliver depth max x r rx e = elim (Option-cases (send depth x r.queues)) [
  | inl full ↦ absurd (ground arith)
  | inr (q, room) ↦ ground (arith, total-send depth x r.queues q room)
]

module _ (sum : Checksum) (sizes : Sizes) where
  pub esp_spi_write-IsAccounted :
      (handle : Option State) (b : BufHandle) (p q : Spi) (n held : ℕ)
      → IsAccounted 0 held p
      → esp_spi_write sum sizes handle (some b) p ≡ writes n q
      → IsAccounted 0 held q
  esp_spi_write-IsAccounted handle b p q n held h e =
      let (m, has, w) = esp_spi_write-IsWritten sum sizes handle b p q n e in
      let x = tx_packet sum sizes b (read m 0 b.payload_len) in
      let more = total-send sizes.tx_size x p.tx w.after w.queued in
      let counted : IsAccounted 0 held (after_write sum sizes p w.after) =
        omega (arith, h.tx_counted, h.rx_counted) in
      subst (IsAccounted 0 held) (sym w.state) counted

  -- a buffer of the next transaction comes out of the task's hand
  transaction-IsAccounted :
      (p : Spi) (buf : List ℕ) (in_hand held : ℕ)
      → p.tx_buf_allocated ≡ total p.tx + length p.in_flight + suc in_hand
      → p.rx_buf_allocated ≡ length p.in_flight + total p.rx.queues + held
      → IsAccounted in_hand held (transaction sum sizes (some buf, p))
  transaction-IsAccounted p buf in_hand held a b =
      let more = length-append p.in_flight (buf ∷ []) in
      record { tx_counted = omega arith; rx_counted = omega arith }

  next_taken-IsAccounted :
      (p : Spi) (n in_hand held : ℕ)
      → IsAccounted in_hand held p
      → IsAccounted in_hand held (transaction sum sizes (next_taken sum sizes true p n))
  next_taken-IsAccounted p zero in_hand held h =
      transaction-IsAccounted (dummy_buffer sum sizes true p).1 _ in_hand held (omega arith)
        (omega arith)
  next_taken-IsAccounted p (suc n) in_hand held h = elim (Option-cases (receive p.tx)) [
    | inl e ↦ rw e (
        transaction-IsAccounted (dummy_buffer sum sizes true (record p { tx_sem = n })).1 _ in_hand
          held (omega arith) (omega arith))
    | inr ((x, r), e) ↦
        let less = total-receive p.tx r x e in
        rw e (
          transaction-IsAccounted (record p { tx_sem = n; tx = r }) x.payload in_hand held
            (omega arith) (omega arith))
  ]

  pub queue_next_transaction-IsAccounted :
      (p : Spi) (in_hand held : ℕ)
      → IsAccounted in_hand held p
      → IsAccounted in_hand held (queue_next_transaction sum sizes true p)
  unfolding queue_next_transaction get_next_tx_buffer
  queue_next_transaction-IsAccounted p in_hand held h =
      next_taken-IsAccounted p p.tx_sem in_hand held h

  started-IsAccounted :
      (p q : Spi) (x : Packet) (held : ℕ)
      → IsAccounted 0 held p
      → started sum sizes true p (send sizes.tx_size x p.tx) ≡ some q
      → IsAccounted 0 held q
  started-IsAccounted p q x held h e = elim (Option-cases (send sizes.tx_size x p.tx)) [
    | inl full ↦ absurd (ground arith)
    | inr (r, room) ↦
        let more = total-send sizes.tx_size x p.tx r room in
        let ready : Spi = record p {
          tx = r;
          tx_sem = give (sizes.tx_size * 3) p.tx_sem;
          data_ready = true;
          tx_buf_allocated = p.tx_buf_allocated + 1;
        } in
        let counted : IsAccounted 0 held ready = omega arith in
        let same : queue_next_transaction sum sizes true ready ≡ q = ground arith in
        subst (IsAccounted 0 held) same (queue_next_transaction-IsAccounted ready 0 held counted)
  ]

  pub generate_startup_event-IsAccounted :
      (b : Build) (cap held : ℕ) (p q : Spi)
      → IsAccounted 0 held p
      → generate_startup_event sum sizes true b cap p ≡ some q
      → IsAccounted 0 held q
  unfolding generate_startup_event
  generate_startup_event-IsAccounted b cap held p q h e =
      started-IsAccounted p q (startup_packet sum (spi_tlvs b cap)) held h e

-- a packet that is queued keeps its buffer, and the buffer of an invalid one is not kept
abbrev Keeps : Rx → Processed → Type 0
Keeps r (ok rx) = total rx.queues ≡ suc (total r.queues)
Keeps r (invalid rx) = total rx.queues ≡ total r.queues
Keeps r stuck = Unit

if-Keeps :
    (guard : Bool) (r : Rx) (a b : Processed)
    → Keeps r a
    → Keeps r b
    → Keeps r (if guard then a else b)
if-Keeps true r a b x y = x
if-Keeps false r a b x y = y

module _ (sum : Checksum) (sizes : Sizes) (handler : Bool) where
  rx_queued-Keeps :
      (r rx : Rx) (x : Packet)
      → total rx.queues ≡ total r.queues
      → Keeps r (rx_queued sum sizes handler (deliver sizes.rx_size (sizes.rx_size * 3) x rx))
  rx_queued-Keeps r rx x same =
      elim (Option-cases (deliver sizes.rx_size (sizes.rx_size * 3) x rx)) [
        | inl full ↦ rw full tt
        | inr (later, e) ↦
            rw e (total-deliver sizes.rx_size (sizes.rx_size * 3) x rx later e ∙ ap suc same)
      ]

  rx_verified-Keeps :
      (n : ℕ) (r rx : Rx) (c : Option (List ℕ))
      → total rx.queues ≡ total r.queues
      → Keeps r (rx_verified sum sizes handler n rx c)
  rx_verified-Keeps n r rx none same = same
  rx_verified-Keeps n r rx (some bs) same = rx_queued-Keeps r rx _ same

  process_spi_rx-Keeps :
      (bs : Option (List ℕ)) (r : Rx) → Keeps r (process_spi_rx sum sizes handler bs r)
  unfolding process_spi_rx
  process_spi_rx-Keeps none r = refl
  process_spi_rx-Keeps (some bs) r = if-Keeps (rx_len bs == 0) r _ _ refl (
      if-Keeps (ltb spi_buffer_size (rx_len bs + rx_offset bs)) r _ _ refl (
        rx_verified-Keeps (rx_len bs + rx_offset bs) r _ (verify sum (rx_len bs + rx_offset bs) bs)
          refl))

  rx_done-IsAccounted :
      (p q : Spi) (held : ℕ) (c : Processed)
      → IsAccounted 0 (suc held) p
      → Keeps p.rx c
      → rx_done sum sizes handler p c ≡ some q
      → IsAccounted 0 held q
  rx_done-IsAccounted p q held (ok rx) h k e = ground arith
  rx_done-IsAccounted p q held (invalid rx) h k e = ground arith
  rx_done-IsAccounted p q held stuck h k e = cc

  oldest_done-IsAccounted :
      (received : List ℕ) (p q : Spi) (held : ℕ) (bufs : List (List ℕ))
      → p.in_flight ≡ bufs
      → IsAccounted 0 held p
      → oldest_done sum sizes handler true received p bufs ≡ some q
      → IsAccounted 0 held q
  oldest_done-IsAccounted received p q held [] same h e = cc
  oldest_done-IsAccounted received p q held (buf ∷ later) same h e =
      let one = ap length same in
      let out : Spi = record p { in_flight = later } in
      let counted : IsAccounted 1 (suc held) out = omega arith in
      let next = queue_next_transaction sum sizes true out in
      let c = queue_next_transaction-IsAccounted sum sizes out 1 (suc held) counted in
      let freed : Spi = record next { tx_buf_allocated = next.tx_buf_allocated - 1 } in
      let fits : IsAccounted 0 (suc held) freed = omega (arith, c.tx_counted, c.rx_counted) in
      rx_done-IsAccounted freed q held (process_spi_rx sum sizes handler (some received) next.rx)
        fits (process_spi_rx-Keeps (some received) next.rx) e

  pub post_process-IsAccounted :
      (received : List ℕ) (p q : Spi) (held : ℕ)
      → IsAccounted 0 held p
      → post_process sum sizes handler true received p ≡ some q
      → IsAccounted 0 held q
  unfolding post_process
  post_process-IsAccounted received p q held h e =
      oldest_done-IsAccounted received p q held p.in_flight refl h e
