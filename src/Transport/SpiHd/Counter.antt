-- ===== src/Transport/SpiHd/Counter.antt =====
-- The count of bytes to read, which wraps at 24 bits (slave/main/spi_hd_slave_api.c,
-- tx_ready_buf_size).
use esp_hosted_open.Prelude.{ℕ, ◌+◌, ◌-◌, ◌/◌, ◌%◌, ◌^◌, ◌<◌, ◌≡◌, refl, ◌∙◌, List, [], ◌∷◌, arith}
use esp_hosted_open.Transport.SpiHd.{SpiHd, tx_ready_after, cb_tx_ready}

-- the callbacks for transactions of such lengths
abbrev pub cb_tx_ready_all : List ℕ → SpiHd → SpiHd
cb_tx_ready_all [] d = d
cb_tx_ready_all (n ∷ ns) d = cb_tx_ready_all ns (cb_tx_ready n d)

abbrev pub bytes_of : List ℕ → ℕ
bytes_of [] = 0
bytes_of (n ∷ ns) = n + bytes_of ns

counts :
    (ns : List ℕ) (d : SpiHd)
    → (cb_tx_ready_all ns d).tx_ready_buf_size % 2 ^ 24
      ≡ (d.tx_ready_buf_size + bytes_of ns) % 2 ^ 24
unfolding cb_tx_ready tx_ready_after
counts [] d = omega arith
counts (n ∷ ns) d = let size = d.tx_ready_buf_size in counts ns (cb_tx_ready n d) ∙ omega arith

flags_stay :
    (ns : List ℕ) (d : SpiHd)
    → d.tx_ready_buf_size < 2 ^ 26
    → (cb_tx_ready_all ns d).tx_ready_buf_size / 2 ^ 24 ≡ d.tx_ready_buf_size / 2 ^ 24
unfolding cb_tx_ready tx_ready_after
flags_stay [] d h = refl
flags_stay (n ∷ ns) d h =
    let size = d.tx_ready_buf_size in flags_stay ns (cb_tx_ready n d) (omega arith) ∙ omega arith

in_register :
    (ns : List ℕ) (d : SpiHd)
    → d.tx_buf_len_reg ≡ d.tx_ready_buf_size
    → (cb_tx_ready_all ns d).tx_buf_len_reg ≡ (cb_tx_ready_all ns d).tx_ready_buf_size
unfolding cb_tx_ready
in_register [] d e = e
in_register (n ∷ ns) d e = in_register ns (cb_tx_ready n d) refl

-- The host reads the register, takes the difference to the count that it read before, at 24 bits, and
-- finds the bytes of the transactions loaded since, if they are fewer than 2^24, also where the count
-- has wrapped. The two interrupt bits above the count stay as they were.
pub cb_tx_ready-pending :
    (ns : List ℕ) (d : SpiHd)
    → d.tx_buf_len_reg ≡ d.tx_ready_buf_size
    → d.tx_ready_buf_size < 2 ^ 26
    → bytes_of ns < 2 ^ 24
    → (((cb_tx_ready_all ns d).tx_buf_len_reg % 2 ^ 24 + 2 ^ 24 - d.tx_buf_len_reg % 2 ^ 24)
          % 2 ^ 24
        ≡ bytes_of ns)
      × ((cb_tx_ready_all ns d).tx_buf_len_reg / 2 ^ 24 ≡ d.tx_buf_len_reg / 2 ^ 24)
cb_tx_ready-pending ns d e h short =
    let count = counts ns d in
    let flags = flags_stay ns d h in let reg = in_register ns d e in (omega arith, omega arith)
