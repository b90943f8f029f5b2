-- ===== src/Transport/Spi/Ready.antt =====
-- The data-ready line, by which the host learns of packets (slave/main/spi_slave_api.c).
use esp_hosted_open.Prelude.{
  ℕ, zero, suc, ◌*◌, ◌≤◌, ◌<◌, ◌≡◌, refl, sym, subst, true, false, Option, some, arith,
  Option-cases, inl, inr,
}
use esp_hosted_open.Memory.{read}
use esp_hosted_open.Transport.{Checksum, BufHandle, State}
use esp_hosted_open.Transport.Queues.{total, receive, give}
use esp_hosted_open.Transport.Queues.Count.{total-send, total-receive, receive-none}
use esp_hosted_open.Transport.Spi.{
  Spi, Sizes, writes, tx_packet, esp_spi_write, write_interrupted_by, get_next_tx_buffer,
  next_taken, queue_next_transaction, transaction, give_tx,
}
use esp_hosted_open.Transport.Spi.Written.{
  esp_spi_write-IsWritten, announced_write, after_write, write_interrupted_by-writes,
}

-- The semaphore counts the packets that wait, there is room for the count, and the line says so.
pub record IsAnnounced (sizes : Sizes) (p : Spi) : Type 0 where
  pub counted : p.tx_sem ≡ total p.tx
  pub fits : total p.tx ≤ sizes.tx_size * 3
  pub announced : 0 < total p.tx → p.data_ready ≡ true

module _ (sum : Checksum) (sizes : Sizes) where
  -- what the SPI task does when it chooses the next transaction
  abbrev pub task_turn : Spi → Spi
  unfolding get_next_tx_buffer
  task_turn p = (get_next_tx_buffer sum sizes true p).1

  -- A write that answers with a length, while spi_tx_sem is 0, leaves the data-ready line high. The same
  -- write, when the SPI task chooses the next transaction between its set_dataready_gpio and its
  -- xSemaphoreGive, answers the same and leaves the same packets in the queues and the same count in the
  -- semaphore; but the line is low while at least that packet waits.
  pub write_interrupted :
      (handle : Option State) (b : BufHandle) (p w : Spi) (n : ℕ)
      → p.tx_sem ≡ 0
      → esp_spi_write sum sizes handle (some b) p ≡ writes n w
      → (w.data_ready ≡ true)
        × ((i : Spi) × (write_interrupted_by sum sizes task_turn handle (some b) p ≡ writes n i)
            × (i.tx ≡ w.tx)
            × (i.tx_sem ≡ w.tx_sem)
            × (0 < total i.tx)
            × (i.data_ready ≡ false))
  unfolding get_next_tx_buffer
  write_interrupted handle b p w n idle e =
      let (r, x, queued, state, answers) =
        write_interrupted_by-writes sum sizes task_turn handle b p w n e in
      let turn = give_tx sum sizes (task_turn (announced_write sum sizes p r)) in
      let waiting = total-send sizes.tx_size x p.tx r queued in
      (
        rw state refl,
        (
          turn,
          answers,
          rw (state, idle) refl,
          rw (state, idle) refl,
          rw idle (omega arith),
          rw idle refl,
        ),
      )

  write-IsAnnounced :
      (handle : Option State) (b : BufHandle) (p q : Spi) (n : ℕ)
      → IsAnnounced sizes p
      → total p.tx < sizes.tx_size * 3
      → esp_spi_write sum sizes handle (some b) p ≡ writes n q
      → IsAnnounced sizes q
  unfolding give
  write-IsAnnounced handle b p q n h room e =
      let (m, has, w) = esp_spi_write-IsWritten sum sizes handle b p q n e in
      let x = tx_packet sum sizes b (read m 0 b.payload_len) in
      let more = total-send sizes.tx_size x p.tx w.after w.queued in
      let known = h.counted in
      let announced : IsAnnounced sizes (after_write sum sizes p w.after) = record {
        counted = ground arith;
        fits = omega arith;
        announced = λ (some_wait : 0 < total w.after). refl;
      } in
      subst (IsAnnounced sizes) (sym w.state) announced

  next_taken-IsAnnounced :
      (p : Spi) (n : ℕ)
      → p.tx_sem ≡ n
      → IsAnnounced sizes p
      → IsAnnounced sizes (transaction sum sizes (next_taken sum sizes true p n))
  next_taken-IsAnnounced p zero e h =
      let known = h.counted in
      record {
        counted = known;
        fits = h.fits;
        announced = λ (some_wait : 0 < total p.tx). absurd (omega arith);
      }
  next_taken-IsAnnounced p (suc n) e h = elim (Option-cases (receive p.tx)) [
    | inl empty ↦ absurd (omega (arith, h.counted, receive-none p.tx empty))
    | inr ((x, r), got) ↦
        let less = total-receive p.tx r x got in
        let known = h.counted in
        let left : IsAnnounced sizes
            (transaction sum sizes (some x.payload, record p { tx_sem = n; tx = r })) =
          record {
            counted = omega arith;
            fits = omega (arith, h.fits);
            announced = λ (some_wait : 0 < total r). h.announced (omega arith);
          } in
        rw got left
  ]

  -- The line is high whenever packets wait, and the semaphore counts them: a write that is not
  -- interrupted keeps this, as long as the semaphore's maximum is not reached, and so does the
  -- choice of the next transaction after it.
  pub spi-IsAnnounced :
      (handle : Option State) (b : BufHandle) (p q : Spi) (n : ℕ)
      → IsAnnounced sizes p
      → total p.tx < sizes.tx_size * 3
      → esp_spi_write sum sizes handle (some b) p ≡ writes n q
      → IsAnnounced sizes q × IsAnnounced sizes (queue_next_transaction sum sizes true q)
  unfolding queue_next_transaction get_next_tx_buffer
  spi-IsAnnounced handle b p q n h room e =
      let after = write-IsAnnounced handle b p q n h room e in
      (after, next_taken-IsAnnounced q q.tx_sem refl after)
