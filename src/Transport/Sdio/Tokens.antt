-- ===== src/Transport/Sdio/Tokens.antt =====
-- Where the tokens of the send semaphore are (slave/main/sdio_slave_api.c, sdio_send_queue_sem).
use esp_hosted_open.Prelude.{
  ℕ, zero, suc, ◌+◌, ◌≡◌, refl, ap, Bool, true, false, not, Option, none, some, List, [], ◌∷◌, ◌++◌,
  arith, if◌then◌else◌, length, length-append,
}
use esp_hosted_open.Transport.{
  BufHandle, State, is_active, Checksum, frame, tx_header, copy_payload,
}
use esp_hosted_open.Transport.Startup.{Build, sdio_tlvs, startup_frame}
use esp_hosted_open.Transport.Sdio.{
  Sdio, Call, returns, waits_for_token, null_read, nothing_to_send, sdio_sent, sdio_frame,
  sdio_write, sdio_started, generate_startup_event, tx_done_of, sdio_tx_done,
}

-- Every token is with the semaphore, with a frame of the peripheral, or lost; the transmit buffers are
-- those of the frames.
pub record HasTokens (depth lost : ℕ) (d : Sdio) : Type 0 where
  pub tokens : d.send_tokens + length d.sending + lost ≡ depth
  pub buffered : d.buffers ≡ length d.sending

-- the count after a call that answered, or failed with so many tokens lost more
abbrev pub Keeps : ℕ → ℕ → ℕ → Sdio → Call → Type 0
Keeps depth lost more d (returns (some n) e) = HasTokens depth lost e
Keeps depth lost more d (returns none e) = HasTokens depth (lost + more) e
Keeps depth lost more d waits_for_token = d.send_tokens ≡ 0
Keeps depth lost more d null_read = Unit

if-Keeps :
    (guard : Bool) (depth lost more : ℕ) (d : Sdio) (a b : Call)
    → Keeps depth lost more d a
    → Keeps depth lost more d b
    → Keeps depth lost more d (if guard then a else b)
if-Keeps true depth lost more d a b x y = x
if-Keeps false depth lost more d a b x y = y

-- a frame that is handed over with a token
sent-HasTokens :
    (depth lost k : ℕ) (bytes : List ℕ) (d : Sdio)
    → HasTokens depth lost d
    → d.send_tokens ≡ suc k
    → HasTokens depth lost
        (record d { send_tokens = k; sending = d.sending ++ bytes ∷ []; buffers = d.buffers + 1 })
sent-HasTokens depth lost k bytes d h e =
    let more = length-append d.sending (bytes ∷ []) in
    record { tokens = omega (arith, h.tokens); buffered = omega (arith, h.buffered) }

-- a call that has done nothing
same-Keeps :
    (depth lost : ℕ) (d : Sdio) → HasTokens depth lost d → Keeps depth lost 0 d (returns none d)
same-Keeps depth lost d h = record { tokens = omega (arith, h.tokens); buffered = h.buffered }

module _ (sum : Checksum) (depth : ℕ) (handler : Bool) where
  sdio_sent-Keeps :
      (accepted : Bool) (lost n k : ℕ) (bytes : List ℕ) (d : Sdio)
      → HasTokens depth lost d
      → d.send_tokens ≡ k
      → Keeps depth lost 0 d (sdio_sent sum depth handler accepted n bytes k d)
  sdio_sent-Keeps accepted lost n zero bytes d h e = e
  sdio_sent-Keeps true lost n (suc k) bytes d h e = sent-HasTokens depth lost k bytes d h e
  sdio_sent-Keeps false lost n (suc k) bytes d h e = same-Keeps depth lost d h

  sdio_frame-Keeps :
      (accepted : Bool) (b : BufHandle) (lost : ℕ) (d : Sdio) (c : Option (List ℕ))
      → HasTokens depth lost d
      → Keeps depth lost 0 d (sdio_frame sum depth handler accepted b d c)
  sdio_frame-Keeps accepted b lost d none h = tt
  sdio_frame-Keeps accepted b lost d (some payload) h =
      sdio_sent-Keeps accepted lost b.payload_len d.send_tokens (frame sum (tx_header b 0) payload)
        d h refl

  sdio_write-Keeps :
      (handle : Option State) (buf : Option BufHandle) (sleeping allocated accepted : Bool)
      (lost : ℕ) (d : Sdio)
      → HasTokens depth lost d
      → Keeps depth lost 0 d (sdio_write sum depth handler handle buf sleeping allocated accepted d)
  unfolding sdio_write
  sdio_write-Keeps none buf sleeping allocated accepted lost d h = same-Keeps depth lost d h
  sdio_write-Keeps (some s) none sleeping allocated accepted lost d h = same-Keeps depth lost d h
  sdio_write-Keeps (some s) (some b) sleeping allocated accepted lost d h =
      let same = same-Keeps depth lost d h in
      if-Keeps (not (is_active s)) depth lost 0 d _ _ same (
        if-Keeps sleeping depth lost 0 d _ _ same (
          if-Keeps (nothing_to_send b) depth lost 0 d _ _ same (
            if-Keeps (not allocated) depth lost 0 d _ _ same
              (sdio_frame-Keeps accepted b lost d (copy_payload b.payload b.payload_len) h))))

  sdio_started-Keeps :
      (accepted : Bool) (lost k : ℕ) (bytes : List ℕ) (d : Sdio)
      → HasTokens depth lost d
      → d.send_tokens ≡ k
      → Keeps depth lost 1 d (sdio_started sum depth handler accepted bytes k d)
  sdio_started-Keeps accepted lost zero bytes d h e = e
  sdio_started-Keeps true lost (suc k) bytes d h e = sent-HasTokens depth lost k bytes d h e
  sdio_started-Keeps false lost (suc k) bytes d h e = record {
    tokens = omega (arith, h.tokens);
    buffered = h.buffered;
  }

  tx_done_of-HasTokens :
      (lost : ℕ) (d : Sdio) (ts : List (List ℕ))
      → d.sending ≡ ts
      → HasTokens depth lost d
      → HasTokens depth lost (tx_done_of sum depth handler ts d)
  tx_done_of-HasTokens lost d [] e h = h
  tx_done_of-HasTokens lost d (bytes ∷ later) e h =
      let n = ap length e in
      record { tokens = ground (arith, h.tokens); buffered = omega (arith, h.buffered) }

  -- With each token of the send semaphore in the semaphore, with a frame, or lost: a write keeps the
  -- count, whether it answers or fails, and waits only when no token is left; an INIT event that the
  -- peripheral refuses loses one token; when a frame is done its token comes back, and its buffer is
  -- freed.
  pub sdio-Keeps :
      (handle : Option State) (buf : Option BufHandle) (sleeping allocated accepted : Bool)
      (build : Build) (cap lost : ℕ) (d : Sdio)
      → HasTokens depth lost d
      → Keeps depth lost 0 d (sdio_write sum depth handler handle buf sleeping allocated accepted d)
        × Keeps depth lost 1 d (generate_startup_event sum depth handler accepted build cap d)
        × HasTokens depth lost (sdio_tx_done sum depth handler d)
  unfolding generate_startup_event sdio_tx_done
  sdio-Keeps handle buf sleeping allocated accepted build cap lost d h = (
    sdio_write-Keeps handle buf sleeping allocated accepted lost d h,
    sdio_started-Keeps accepted lost d.send_tokens (startup_frame sum (sdio_tlvs build cap)) d h
        refl,
    tx_done_of-HasTokens lost d d.sending refl h,
  )
