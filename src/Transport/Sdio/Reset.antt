-- ===== src/Transport/Sdio/Reset.antt =====
-- The states of the SDIO driver (slave/main/sdio_slave_api.c, with H_PS_UNLOAD_BUS_WHILE_PS). The
-- answers of the peripheral's library are the environment's.
use esp_hosted_open.Prelude.{
  ℕ, zero, suc, ◌+◌, ◌-◌, ◌≤◌, ◌<◌, ◌≡◌, refl, Bool, true, false, not, Option, none, some, List, [],
  ◌∷◌, arith, if◌then◌else◌, length, ltb,
}
use esp_hosted_open.Transport.{Checksum, BufHandle, State, deinit, deactive, active, is_up}
use esp_hosted_open.Transport.Queues.{empty}
use esp_hosted_open.Transport.Sdio.{Sdio, returns, sdio_write}

-- if_handle_g.state, hosted_constructs_created, and the driver's buffers, queues and semaphores
pub record SdioDriver : Type 0 where
  pub state : State
  pub constructs_created : Bool
  pub io : Sdio

-- sdio_send_queue_sem is created full, sdio_rx_sem and the receive queues empty.
abbrev pub created : ℕ → SdioDriver → SdioDriver
created depth v = if v.constructs_created then v else record v {
  io = record v.io { send_tokens = depth; rx = record v.io.rx { queues = empty; sem = 0 } };
}

-- sdio_slave_initialize, the loading of the receive buffers, and sdio_slave_start; NULL is `none`. The
-- semaphores and queues are created unless a call has come to its end before. The asserted creations
-- succeed.
unfoldable pub sdio_init : ℕ → Bool → Bool → Bool → SdioDriver → Option State × SdioDriver
sdio_init depth initialized loaded started v =
    if is_up v.state
    then (some v.state, v)
    else if not initialized
    then (none, created depth v)
    else if not loaded
    then (none, created depth v)
    else if not started
    then (none, created depth v)
    else (some active, record (created depth v) { state = active; constructs_created = true })

-- sdio_slave_reset and sdio_slave_start, each with its answer ESP_OK or not
unfoldable pub sdio_reset : Bool → Bool → SdioDriver → Bool × SdioDriver
sdio_reset reset started v =
    if is_up v.state
    then (true, record v { state = deactive })
    else if not reset
    then (false, v)
    else if not started
    then (false, v)
    else (true, record v { state = active })

-- sdio_slave_send_get_finished at deinitialisation: it timed out, has no buffer, or has one
pub data Finished : Type 0 where
  timed_out : Finished
  nothing_left : Finished
  finished : Finished

-- the semaphore is given, and the buffer freed
abbrev pub reclaim : ℕ → Sdio → Sdio
reclaim depth d = record d {
  send_tokens = if ltb d.send_tokens depth then suc d.send_tokens else d.send_tokens;
  buffers = d.buffers - 1;
}

-- so many rounds of the clean-up, with the answers in their order
unfoldable pub reclaim_loop : ℕ → ℕ → List Finished → Sdio → Sdio
reclaim_loop depth zero fs d = d
reclaim_loop depth (suc n) [] d = d
reclaim_loop depth (suc n) (timed_out ∷ fs) d = reclaim_loop depth n fs d
reclaim_loop depth (suc n) (nothing_left ∷ fs) d = d
reclaim_loop depth (suc n) (finished ∷ fs) d = reclaim_loop depth n fs (reclaim depth d)

-- The tasks are deleted, and what the peripheral had is gone; three rounds of clean-up. The semaphores and
-- queues stay.
unfoldable pub sdio_deinit : ℕ → List Finished → SdioDriver → SdioDriver
sdio_deinit depth fs v =
    if is_up v.state
    then record v { state = deinit; io = record (reclaim_loop depth 3 fs v.io) { sending = [] } }
    else v

reclaim_loop-tokens :
    (depth n : ℕ) (fs : List Finished) (d : Sdio)
    → (d.send_tokens ≤ (reclaim_loop depth n fs d).send_tokens)
      × ((reclaim_loop depth n fs d).send_tokens ≤ d.send_tokens + n)
unfolding reclaim_loop
reclaim_loop-tokens depth zero fs d = omega arith
reclaim_loop-tokens depth (suc n) [] d = omega arith
reclaim_loop-tokens depth (suc n) (timed_out ∷ fs) d =
    let (above, below) = reclaim_loop-tokens depth n fs d in omega arith
reclaim_loop-tokens depth (suc n) (nothing_left ∷ fs) d = omega arith
reclaim_loop-tokens depth (suc n) (finished ∷ fs) d =
    let (above, below) = reclaim_loop-tokens depth n fs (reclaim depth d) in ground arith

-- A driver that has been initialised once, is up and has lost no token so far, is unloaded while the
-- peripheral has more than three frames, and then initialised again. It is active, and has no frame with
-- the peripheral; but, whatever the clean-up finds, its semaphore has fewer tokens than its queue has
-- places: as many are missing, at least, as there were frames past the third.
pub sdio_deinit-tokens :
    (depth : ℕ) (fs : List Finished) (v : SdioDriver)
    → is_up v.state ≡ true
    → v.constructs_created ≡ true
    → v.io.send_tokens + length v.io.sending ≡ depth
    → 3 < length v.io.sending
    → ((sdio_init depth true true true (sdio_deinit depth fs v)).0 ≡ some active)
      × ((sdio_init depth true true true (sdio_deinit depth fs v)).1.state ≡ active)
      × ((sdio_init depth true true true (sdio_deinit depth fs v)).1.io.sending ≡ [])
      × ((sdio_init depth true true true (sdio_deinit depth fs v)).1.io.send_tokens
            + (length v.io.sending - 3)
          ≤ depth)
unfolding sdio_deinit sdio_init
sdio_deinit-tokens depth fs v up made h many =
    rw (up, made) (refl, refl, refl, omega (arith, reclaim_loop-tokens depth 3 fs v.io))

-- A driver that was reset while it was up refuses every write, and sdio_init leaves it so, whatever
-- the peripheral would answer.
pub sdio_reset-stays_down :
    (v : SdioDriver) (sum : Checksum) (depth : ℕ) (handler : Bool) (d : Sdio) (b : BufHandle)
    (sleeping allocated accepted initialized loaded started reset : Bool)
    → is_up v.state ≡ true
    → (sdio_init depth initialized loaded started (sdio_reset reset started v).1
        ≡ (some deactive, record v { state = deactive }))
      × (sdio_write sum depth handler
            (some (sdio_reset reset started v).1.state)
            (some b)
            sleeping
            allocated
            accepted
            d
          ≡ returns none d)
unfolding sdio_init sdio_reset sdio_write
sdio_reset-stays_down v sum depth handler d b sl al ac i l st r up = rw up (refl, refl)
