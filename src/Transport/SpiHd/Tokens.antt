-- ===== src/Transport/SpiHd/Tokens.antt =====
-- Where the tokens of the transmit semaphore are (slave/main/spi_hd_slave_api.c, mempool_tx_sem).
use esp_hosted_open.Prelude.{
  ℕ, zero, suc, ◌+◌, ◌≡◌, refl, ap, Bool, true, false, not, ◌&&◌, Option, none, some, List, [], ◌∷◌,
  arith, ◌==◌, if◌then◌else◌, length, length-append,
}
use esp_hosted_open.Transport.{
  BufHandle, State, deinit, deactive, active, is_active, Checksum, copy_payload,
}
use esp_hosted_open.Transport.Startup.{Build}
use esp_hosted_open.Transport.Uart.{no_payload}
use esp_hosted_open.Transport.SpiHd.{
  SpiHd, Call, returns, waits_for_token, null_read, hd_queued, hd_frame, hd_write, esp_spi_hd_write,
  hd_started, startup_bytes, generate_startup_event, tx_done_of, spi_hd_tx_done,
}

-- Every token is with the semaphore, with a transaction of the peripheral, or lost; the transmit
-- buffers are those of the transactions.
pub record HasTokens (depth lost : ℕ) (d : SpiHd) : Type 0 where
  pub tokens : d.tx_tokens + length d.transmitting + lost ≡ depth
  pub buffered : d.buffers ≡ length d.transmitting

-- A call that fails after it took a token loses it, and every other keeps the count; one that waits has no
-- token left. The flag tells whether the call is one that takes a token.
abbrev pub Keeps : Bool → ℕ → ℕ → SpiHd → Call → Type 0
Keeps takes depth lost d (returns (some n) e) = (takes ≡ true) × HasTokens depth lost e
Keeps takes depth lost d (returns none e) = HasTokens depth (if takes then suc lost else lost) e
Keeps takes depth lost d waits_for_token = (takes ≡ true) × (d.tx_tokens ≡ 0)
Keeps takes depth lost d null_read = takes ≡ true

-- A write takes a token if the driver is active and there is a payload, or the packet is for flow control.
abbrev pub takes_token : Option State → Option BufHandle → Bool
takes_token none buf = false
takes_token (some s) none = false
takes_token (some s) (some b) = is_active s && not (b.wifi_flow_ctrl_en == 0 && no_payload b)

-- the guard of a write, in front of the rest of it
guard-Keeps :
    (guard : Bool) (depth lost : ℕ) (d : SpiHd) (b : Call)
    → HasTokens depth lost d
    → Keeps true depth lost d b
    → Keeps (not guard) depth lost d (if guard then returns none d else b)
guard-Keeps true depth lost d b h y = h
guard-Keeps false depth lost d b h y = y

hd_queued-Keeps :
    (accepted : Bool) (depth lost n m : ℕ) (bytes : List ℕ) (d : SpiHd)
    → HasTokens depth lost d
    → d.tx_tokens ≡ suc n
    → Keeps true depth lost d (hd_queued accepted m bytes (record d { tx_tokens = n }))
hd_queued-Keeps true depth lost n m bytes d h e =
    let more = length-append d.transmitting (bytes ∷ []) in
    (refl, record { tokens = omega (arith, h.tokens); buffered = omega (arith, h.buffered) })
hd_queued-Keeps false depth lost n m bytes d h e = record {
  tokens = omega (arith, h.tokens);
  buffered = h.buffered;
}

module _ (sum : Checksum) (depth : ℕ) (handler : Bool) where
  hd_frame-Keeps :
      (accepted : Bool) (b : BufHandle) (lost n : ℕ) (d : SpiHd) (c : Option (List ℕ))
      → HasTokens depth lost d
      → d.tx_tokens ≡ suc n
      → Keeps true depth lost d
          (hd_frame sum depth handler accepted b (record d { tx_tokens = n }) c)
  hd_frame-Keeps accepted b lost n d none h e = refl
  hd_frame-Keeps accepted b lost n d (some payload) h e =
      hd_queued-Keeps accepted depth lost n b.payload_len _ d h e

  hd_write-Keeps :
      (allocated accepted : Bool) (b : BufHandle) (lost n : ℕ) (d : SpiHd)
      → HasTokens depth lost d
      → d.tx_tokens ≡ n
      → Keeps true depth lost d (hd_write sum depth handler allocated accepted b d n)
  hd_write-Keeps allocated accepted b lost zero d h e = (refl, e)
  hd_write-Keeps true accepted b lost (suc n) d h e =
      hd_frame-Keeps accepted b lost n d (copy_payload b.payload b.payload_len) h e
  hd_write-Keeps false accepted b lost (suc n) d h e = record {
    tokens = omega (arith, h.tokens);
    buffered = h.buffered;
  }

  esp_spi_hd_write-Keeps :
      (handle : Option State) (buf : Option BufHandle) (allocated accepted : Bool) (lost : ℕ)
      (d : SpiHd)
      → HasTokens depth lost d
      → Keeps
          (takes_token handle buf)
          depth
          lost
          d
          (esp_spi_hd_write sum depth handler handle buf allocated accepted d)
  unfolding esp_spi_hd_write
  esp_spi_hd_write-Keeps none buf allocated accepted lost d h = h
  esp_spi_hd_write-Keeps (some s) none allocated accepted lost d h = h
  esp_spi_hd_write-Keeps (some deinit) (some b) allocated accepted lost d h = h
  esp_spi_hd_write-Keeps (some deactive) (some b) allocated accepted lost d h = h
  esp_spi_hd_write-Keeps (some active) (some b) allocated accepted lost d h =
      guard-Keeps (b.wifi_flow_ctrl_en == 0 && no_payload b) depth lost d _ h
        (hd_write-Keeps allocated accepted b lost d.tx_tokens d h refl)

  hd_started-Keeps :
      (accepted : Bool) (bytes : List ℕ) (lost n : ℕ) (d : SpiHd)
      → HasTokens depth lost d
      → d.tx_tokens ≡ n
      → Keeps true depth lost d (hd_started sum depth handler accepted bytes d n)
  hd_started-Keeps accepted bytes lost zero d h e = (refl, e)
  hd_started-Keeps accepted bytes lost (suc n) d h e =
      hd_queued-Keeps accepted depth lost n _ bytes d h e

  tx_done_of-HasTokens :
      (lost : ℕ) (d : SpiHd) (ts : List (List ℕ))
      → d.transmitting ≡ ts
      → HasTokens depth lost d
      → HasTokens depth lost (tx_done_of sum depth handler ts d)
  tx_done_of-HasTokens lost d [] e h = h
  tx_done_of-HasTokens lost d (bytes ∷ later) e h =
      let n = ap length e in
      record { tokens = ground (arith, h.tokens); buffered = omega (arith, h.buffered) }

  -- With each token of the transmit semaphore in the semaphore, with a transaction, or lost: every write
  -- that is not refused for its driver or its arguments takes a token, and so does the INIT event. When
  -- such a call then fails, for want of memory or of the peripheral's queue, one more token is lost; when
  -- it answers with a length the count stays, and when it waits there was no token. A refused write
  -- changes no count. When a transaction is done its token comes back, and its buffer is freed.
  pub tokens-Keeps :
      (handle : Option State) (buf : Option BufHandle) (allocated accepted : Bool) (build : Build)
      (cap ext_cap lost : ℕ) (d : SpiHd)
      → HasTokens depth lost d
      → Keeps
          (takes_token handle buf)
          depth
          lost
          d
          (esp_spi_hd_write sum depth handler handle buf allocated accepted d)
        × Keeps true depth lost d
            (generate_startup_event sum depth handler accepted build cap ext_cap d)
        × HasTokens depth lost (spi_hd_tx_done sum depth handler d)
  unfolding generate_startup_event spi_hd_tx_done
  tokens-Keeps handle buf allocated accepted build cap ext_cap lost d h = (
    esp_spi_hd_write-Keeps handle buf allocated accepted lost d h,
    hd_started-Keeps accepted (startup_bytes sum depth handler build cap ext_cap) lost d.tx_tokens d
        h refl,
    tx_done_of-HasTokens lost d d.transmitting refl h,
  )
