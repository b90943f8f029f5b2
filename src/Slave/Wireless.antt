-- ===== src/Slave/Wireless.antt =====
-- ESP-NOW and 802.15.4 requests (slave/components/phy_rpc_overlay/phy_rpc_wireless.c), framed by
-- `Handle` like those of `Phy`.
use esp_hosted_open.Prelude.{ℕ, ◌+◌, ◌∷◌, ltb, ◌==◌, ◌||◌, not, if◌then◌else◌, length}
use esp_hosted_open.Bytes.{u8, byte_at, u16_at}
use esp_hosted_open.Status.{
  esp_ok, esp_err_invalid_arg, esp_err_invalid_size, esp_err_not_supported,
}
use esp_hosted_open.Slave.{
  Sym, Chip, Action, Slave, simple, ask, run, with_status, weak, esp_now_init, esp_now_deinit,
  esp_now_register_recv_cb, esp_now_register_send_cb, esp_now_set_pmk, esp_now_add_peer,
  esp_now_del_peer, esp_now_send, ieee802154_transmit, esp_ieee802154_enable,
  esp_ieee802154_disable, esp_ieee802154_set_channel, esp_ieee802154_set_panid,
  esp_ieee802154_set_promiscuous, esp_ieee802154_transmit,
}
use esp_hosted_open.Slave.Phy.{flag}
use esp_hosted_open.Slave.Extras.{slice, is_set, interface_of}

module _ (chip : Chip) where
  unfoldable pub on_espnow_init : Action
  on_espnow_init req s =
      let (err, s') = ask chip esp_now_init s in
      (
        simple err,
        if err == esp_ok
            then run chip esp_now_register_send_cb (run chip esp_now_register_recv_cb s')
            else s',
      )

  unfoldable pub on_espnow_deinit : Action
  on_espnow_deinit req s = with_status (ask chip esp_now_deinit s)

  unfoldable pub on_espnow_set_pmk : Action
  on_espnow_set_pmk req s = with_status (ask chip (esp_now_set_pmk (slice req 4 16)) s)

  unfoldable pub on_espnow_add_peer : Action
  on_espnow_add_peer req s = with_status (
      ask chip
        (esp_now_add_peer (slice req 4 6) (slice req 10 16) (byte_at req 26)
          (interface_of (byte_at req 27)) (is_set (byte_at req 28)))
        s)

  unfoldable pub on_espnow_del_peer : Action
  on_espnow_del_peer req s = with_status (ask chip (esp_now_del_peer (slice req 4 6)) s)

  -- The struct takes twelve bytes: op_id, peer_mac, data_len.
  unfoldable pub on_espnow_send : Action
  unfolding u16_at
  on_espnow_send req s =
      let n = u16_at req 10 in
      if ltb (length req) (12 + n)
      then (simple esp_err_invalid_size, s)
      else with_status (ask chip (esp_now_send (slice req 4 6) (slice req 12 n)) s)

  -- A weak function that returns a status; NOT_SUPPORTED where it is NULL.
  abbrev pub ask_weak : Sym → ℕ → Slave → ℕ × Slave
  ask_weak f arg s = if chip.present f then ask chip (weak f arg) s else (esp_err_not_supported, s)

  unfoldable pub on_i154_enable : Action
  on_i154_enable req s = with_status (
      if is_set (byte_at req 4)
      then ask_weak esp_ieee802154_enable 0 s
      else ask_weak esp_ieee802154_disable 0 s)

  unfoldable pub on_i154_set_chan : Action
  on_i154_set_chan req s =
      let c = byte_at req 4 in
      if not (chip.present esp_ieee802154_set_channel)
      then (simple esp_err_not_supported, s)
      else if ltb c 11 || ltb 26 c
      then (simple esp_err_invalid_arg, s)
      else with_status (ask chip (weak esp_ieee802154_set_channel c) s)

  unfoldable pub on_i154_set_panid : Action
  unfolding u16_at
  on_i154_set_panid req s = with_status (ask_weak esp_ieee802154_set_panid (u16_at req 4) s)

  unfoldable pub on_i154_set_promisc : Action
  on_i154_set_promisc req s =
      with_status (ask_weak esp_ieee802154_set_promiscuous (flag (byte_at req 4)) s)

  -- The struct takes eight bytes: op_id, cca, one reserved, frame_len. The radio wants the length in
  -- front of the frame.
  unfoldable pub on_i154_tx_raw : Action
  unfolding u16_at
  on_i154_tx_raw req s =
      let n = u16_at req 6 in
      if ltb (length req) (8 + n)
      then (simple esp_err_invalid_size, s)
      else if not (chip.present esp_ieee802154_transmit)
      then (simple esp_err_not_supported, s)
      else if ltb 127 n
      then (simple esp_err_invalid_size, s)
      else with_status
          (ask chip (ieee802154_transmit (u8 n ∷ slice req 8 n) (is_set (byte_at req 4))) s)
