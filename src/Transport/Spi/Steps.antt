-- ===== src/Transport/Spi/Steps.antt =====
-- Any run of the SPI driver's operations (slave/main/spi_slave_api.c).
use esp_hosted_open.Prelude.{
  ℕ, zero, suc, ◌+◌, ◌≡◌, Bool, true, false, some, List, [], arith, length, Option-cases, inl, inr,
}
use esp_hosted_open.Transport.{Checksum, BufHandle, State, deinit, active}
use esp_hosted_open.Transport.Queues.{
  Packet, empty, total, receive, Rx, fetch, fetch_after, answer, Answer,
}
use esp_hosted_open.Transport.Queues.Count.{total-receive}
use esp_hosted_open.Transport.Throttle.{Throttle}
use esp_hosted_open.Transport.Startup.{Build}
use esp_hosted_open.Transport.Spi.{Spi, Sizes, writes, esp_spi_write}
use esp_hosted_open.Transport.Spi.Exchange.{
  post_process, read_taken, esp_spi_read, esp_spi_read_done, generate_startup_event,
}
use esp_hosted_open.Transport.Spi.Buffers.{
  IsAccounted, esp_spi_write-IsAccounted, generate_startup_event-IsAccounted,
  post_process-IsAccounted,
}

-- A step of the driver and of its readers, who hold so many buffers; the allocations succeed.
pub data SpiStep (sum : Checksum) (sizes : Sizes) (handler : Bool) (held : ℕ) (p : Spi)
    : ℕ → Spi → Type 0 where
  init_event :
      (b : Build) (cap : ℕ) {q : Spi}
      → generate_startup_event sum sizes true b cap p ≡ some q
      → SpiStep sum sizes handler held p held q
  write :
      (s : State) (b : BufHandle) (n : ℕ) {q : Spi}
      → esp_spi_write sum sizes (some s) (some b) p ≡ writes n q
      → SpiStep sum sizes handler held p held q
  exchange :
      (received : List ℕ) {q : Spi}
      → post_process sum sizes handler true received p ≡ some q
      → SpiStep sum sizes handler held p held q
  fetch_packet :
      (s : State) (n : ℕ) (x : Packet) (rx : Rx)
      → esp_spi_read (some s) p.rx ≡ Answer.packet n x rx
      → SpiStep sum sizes handler held p (suc held) (record p { rx = rx })
  free : {h : ℕ} → held ≡ suc h → SpiStep sum sizes handler held p h (esp_spi_read_done p)

pub data SpiReach (sum : Checksum) (sizes : Sizes) (handler : Bool) (p : Spi)
    : ℕ → Spi → Type 0 where
  here : SpiReach sum sizes handler p 0 p
  next :
      {m n : ℕ} {q r : Spi}
      → SpiReach sum sizes handler p m q
      → SpiStep sum sizes handler m q n r
      → SpiReach sum sizes handler p n r

answer-total :
    (rx r : Rx) (n m : ℕ) (x : Packet)
    → answer (fetch_after m rx) ≡ Answer.packet n x r
    → total rx.queues ≡ suc (total r.queues)
answer-total rx r n zero x e = cc
answer-total rx r n (suc m) x e = elim (Option-cases (receive rx.queues)) [
  | inl none_left ↦ absurd (ground arith)
  | inr ((y, q), got) ↦ ground (arith, total-receive rx.queues q y got)
]

read_taken-total :
    (s : State) (rx r : Rx) (n m : ℕ) (x : Packet)
    → read_taken s m rx ≡ Answer.packet n x r
    → total rx.queues ≡ suc (total r.queues)
unfolding fetch
read_taken-total s rx r n zero x e = cc
read_taken-total deinit rx r n (suc m) x e = cc
read_taken-total State.deactive rx r n (suc m) x e = answer-total rx r n rx.sem x e
read_taken-total active rx r n (suc m) x e = answer-total rx r n rx.sem x e

SpiStep-IsAccounted :
    {sum : Checksum} {sizes : Sizes} {handler : Bool} {m n : ℕ} {p q : Spi}
    → SpiStep sum sizes handler m p n q
    → IsAccounted 0 m p
    → IsAccounted 0 n q
unfolding esp_spi_read esp_spi_read_done
SpiStep-IsAccounted {sum} {sizes} {handler} {m} {n} {p} {q} (init_event b cap e) h =
    generate_startup_event-IsAccounted sum sizes b cap m p q h e
SpiStep-IsAccounted {sum} {sizes} {handler} {m} {n} {p} {q} (write s b k e) h =
    esp_spi_write-IsAccounted sum sizes (some s) b p q k m h e
SpiStep-IsAccounted {sum} {sizes} {handler} {m} {n} {p} {q} (exchange received e) h =
    post_process-IsAccounted sum sizes handler received p q m h e
SpiStep-IsAccounted {sum} {sizes} {handler} {m} {n} {p} {q} (fetch_packet s k x rx e) h =
    let less = read_taken-total s p.rx rx k p.rx.sem x e in
    omega (arith, h.tx_counted, h.rx_counted)
SpiStep-IsAccounted {sum} {sizes} {handler} {m} {n} {p} {q} (free e) h =
    omega (arith, h.tx_counted, h.rx_counted)

SpiReach-IsAccounted :
    {sum : Checksum} {sizes : Sizes} {handler : Bool} {p : Spi} {n : ℕ} {q : Spi}
    → IsAccounted 0 0 p
    → SpiReach sum sizes handler p n q
    → IsAccounted 0 n q
SpiReach-IsAccounted h here = h
SpiReach-IsAccounted h (next r st) = SpiStep-IsAccounted st (SpiReach-IsAccounted h r)

abbrev pub spi_at_start : Throttle → Spi
spi_at_start t = record {
  tx = empty;
  tx_sem = 0;
  data_ready = false;
  throttle = t;
  in_flight = [];
  tx_buf_allocated = 0;
  rx_buf_allocated = 0;
  rx = record { queues = empty; sem = 0; events = [] };
}

-- However INIT events, writes, exchanges with the host and readers follow one another from the
-- start, while every allocation succeeds: the transmit buffers that are allocated are those in the
-- transmit queues and those of the transactions, and the receive buffers are those of the
-- transactions, those in the receive queues, and those that readers still hold. None is lost, and
-- none is freed twice.
pub SpiReach-allocated :
    (sum : Checksum) (sizes : Sizes) (handler : Bool) (t : Throttle) {held : ℕ} {p : Spi}
    → SpiReach sum sizes handler (spi_at_start t) held p
    → (p.tx_buf_allocated ≡ total p.tx + length p.in_flight)
      × (p.rx_buf_allocated ≡ length p.in_flight + total p.rx.queues + held)
SpiReach-allocated sum sizes handler t reached =
    let h = SpiReach-IsAccounted (omega arith) reached in
    (omega (arith, h.tx_counted), h.rx_counted)
