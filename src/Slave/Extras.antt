-- ===== src/Slave/Extras.antt =====
-- Raw transmission, promiscuous reception, CSI, FTM, protocol and MAC requests
-- (slave/components/phy_rpc_overlay/phy_rpc_extras.c), framed by `Handle` like those of `Phy`.
use esp_hosted_open.Prelude.{
  ℕ, ◌+◌, Bool, true, false, ◌&&◌, not, List, ltb, ◌==◌, if◌then◌else◌, length, take, drop,
}
use esp_hosted_open.Bytes.{byte_at, u16_at, u32_at}
use esp_hosted_open.Status.{esp_ok, esp_err_invalid_size}
use esp_hosted_open.Slave.{
  Chip, Action, Slave, simple, ask, run, with_status, wifi_80211_tx, wifi_set_promiscuous,
  wifi_set_promiscuous_rx_cb, wifi_set_promiscuous_filter, wifi_set_protocol, wifi_set_mac,
  wifi_set_csi_rx_cb, wifi_set_csi, wifi_ftm_initiate_session, event_handler_register, queue_create,
  task_create,
}

-- `n` bytes of a packed struct from offset `i`
abbrev pub slice : List ℕ → ℕ → ℕ → List ℕ
slice req i n = take n (drop i req)

-- x != 0, of a byte
abbrev pub is_set : ℕ → Bool
is_set b = not (b == 0)

-- WIFI_IF_STA is 0 and WIFI_IF_AP 1; any value but 1 means STA.
abbrev pub interface_of : ℕ → ℕ
interface_of b = if b == 1 then 1 else 0

module _ (chip : Chip) where
  -- The struct takes ten bytes: op_id, wifi_if, en_seq_nr, two reserved, frame_len.
  unfoldable pub on_tx_80211 : Action
  unfolding u16_at
  on_tx_80211 req s =
      let n = u16_at req 8 in
      if ltb (length req) (10 + n)
      then (simple esp_err_invalid_size, s)
      else with_status (
          ask chip
            (wifi_80211_tx (interface_of (byte_at req 4)) (slice req 10 n) (is_set (byte_at req 5)))
            s)

  -- The receive queue, its task and the callback are set up once; s_raw_q stays NULL if
  -- xQueueCreate fails.
  abbrev pub start_raw : Slave → Slave
  start_raw s =
      let (q, s') = ask chip queue_create s in
      run chip wifi_set_promiscuous_rx_cb (run chip task_create (record s' { raw_q = is_set q }))

  unfoldable pub on_set_promisc : Action
  on_set_promisc req s =
      let on = is_set (byte_at req 4) in
      with_status
        (ask chip (wifi_set_promiscuous on) (if on && not (s.raw_q) then start_raw s else s))

  unfoldable pub on_set_promisc_filter : Action
  unfolding u32_at
  on_set_promisc_filter req s =
      with_status (ask chip (wifi_set_promiscuous_filter (u32_at req 4)) s)

  unfoldable pub on_set_protocol : Action
  on_set_protocol req s =
      with_status (ask chip (wifi_set_protocol (interface_of (byte_at req 5)) (byte_at req 4)) s)

  unfoldable pub on_set_mac : Action
  on_set_mac req s =
      with_status (ask chip (wifi_set_mac (interface_of (byte_at req 4)) (slice req 5 6)) s)

  unfoldable pub on_set_csi_enable : Action
  on_set_csi_enable req s =
      if is_set (byte_at req 4)
      then (let (err, s') = ask chip wifi_set_csi_rx_cb s in
          with_status (if err == esp_ok then ask chip (wifi_set_csi true) s' else (err, s')))
      else with_status (ask chip (wifi_set_csi false) s)

  abbrev pub start_ftm : Slave → Slave
  start_ftm s = record (run chip event_handler_register s) { ftm_handler = true }

  unfoldable pub on_ftm_initiate : Action
  on_ftm_initiate req s = with_status (
      ask chip
        (wifi_ftm_initiate_session (slice req 4 6) (byte_at req 10) (byte_at req 11)
          (byte_at req 12))
        (if s.ftm_handler then s else start_ftm s))

  -- It only logs the mask.
  unfoldable pub on_set_event_mask : Action
  on_set_event_mask req s = (simple esp_ok, s)
