-- ===== src/Transport/Throttle.antt =====
-- How a driver tells the host to hold back data while the queue of other packets is long: by
-- throttle_cmd in the headers of SPI (slave/main/spi_slave_api.c), by an interrupt of SDIO
-- (sdio_slave_api.c), and by a packet of its own for SPI half duplex (spi_hd_slave_api.c).
pub mod Runs
pub mod FlowControl
use esp_hosted_open.Prelude.{
  ℕ, suc, ◌+◌, ◌*◌, ◌/◌, ◌%◌, ◌≤◌, ◌<◌, ◌≡◌, refl, Bool, true, false, List, [], ◌∷◌, ◌++◌, arith,
  ltb, ◌==◌, if◌then◌else◌, not,
}

-- slv_cfg_g and slv_state_g
pub record Throttle : Type 0 where
  pub high : ℕ
  pub low : ℕ
  pub current : ℕ

-- (uint8_t)(queue_load*100/SIZE), for the messages that wait in a queue of a size
unfoldable pub load_percent : ℕ → ℕ → ℕ
load_percent size waiting = waiting * 100 / size % 256

abbrev pub raise : ℕ → Throttle → Throttle
raise load t = if ltb t.high load then record t { current = 1 } else t

abbrev pub lower : ℕ → Throttle → Throttle
lower load t = if ltb load t.low then record t { current = 0 } else t

-- the throttle_cmd of the next header, and the state after it
unfoldable pub find_wifi_tx_throttling_to_be_set : ℕ → ℕ → Throttle → ℕ × Throttle
find_wifi_tx_throttling_to_be_set size waiting t =
    let after = lower (load_percent size waiting) (raise (load_percent size waiting) t) in
    if t.high == 0 then (0, t) else (after.current, after)

-- HOST_INT_START_THROTTLE and HOST_INT_STOP_THROTTLE
pub data HostInt : Type 0 where
  start_throttle : HostInt
  stop_throttle : HostInt

unfoldable pub start_rx_data_throttling_if_needed : ℕ → ℕ → Throttle → Throttle × List HostInt
start_rx_data_throttling_if_needed size waiting t =
    if ltb 0 t.high
    then if not (t.current == 0)
      then (t, [])
      else if ltb t.high (load_percent size waiting)
      then (record t { current = 1 }, start_throttle ∷ [])
      else (t, [])
    else (t, [])

unfoldable pub stop_rx_data_throttling_if_needed : ℕ → ℕ → Throttle → Throttle × List HostInt
stop_rx_data_throttling_if_needed size waiting t =
    if not (t.current == 0)
    then if ltb (load_percent size waiting) t.low
      then (record t { current = 0 }, stop_throttle ∷ [])
      else (t, [])
    else (t, [])
