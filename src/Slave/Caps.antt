-- ===== src/Slave/Caps.antt =====
-- The capability bitmap: GET_CAPS (slave/components/phy_rpc_overlay/phy_rpc_handlers.c) and the two
-- fill_caps functions that it calls (phy_rpc_extras.c, phy_rpc_wireless.c).
use esp_hosted_open.Prelude.{
  ℕ, ◌/◌, ◌%◌, ◌^◌, Bool, true, ◌&&◌, ◌||◌, List, [], ◌∷◌, bit_and, bit_or, ltb, if◌then◌else◌,
  replicate, set, map,
}
use esp_hosted_open.Bytes.{u8, byte_at}
use esp_hosted_open.Status.{esp_ok}
use esp_hosted_open.Proto.Ids.{
  Call, req_id, set_channel, set_phy_11p, set_tx_power, set_country_perm, get_info, get_caps,
  set_rx_gain, set_agc_max_gain, reset_rx_gain_tbl, set_cca, get_cca_counters, reset_cca_count,
  set_low_rate, set_bandwidth, get_phy_rssi, set_freq, set_band, set_chan_filt, set_chan14_mic,
  set_rate, set_most_tpw, get_most_tpw, get_noise_floor, get_temperature, set_csi_dump,
  set_loopback, set_bt_tx_gain, set_bt_filter, tx_80211, set_promisc, set_promisc_filter,
  set_protocol, set_mac, set_csi_enable, ftm_initiate, set_event_mask, espnow_init, espnow_deinit,
  espnow_add_peer, espnow_del_peer, espnow_send, espnow_set_pmk, ieee154_enable, ieee154_set_chan,
  ieee154_set_panid, ieee154_set_promisc, ieee154_tx_raw,
}
use esp_hosted_open.Slave.{
  Chip, Action, with_body, esp_ieee802154_enable, phy_agc_max_gain_set, phy_band_change,
  phy_band_sel, phy_bb_bss_cbw40, phy_bt_filter_reg, phy_bt_set_tx_gain_new, phy_bt_tx_gain_set,
  phy_chan14_mic_cfg_new, phy_chan_filt_set, phy_csidump_force_lltf_cfg, phy_disable_cca,
  phy_disable_low_rate, phy_force_rx_gain, phy_get_cca_cnt, phy_get_most_tpw, phy_get_noise_floor,
  phy_get_rssi, phy_get_sigrssi, phy_set_cca_cnt, phy_set_freq, phy_set_loopback_gain,
  phy_set_most_tpw, phy_set_rate, phy_set_rx_gain_table, phy_xpd_tsens,
}

abbrev pub caps_bytes : ℕ
caps_bytes = 16

-- MARK(req_id, present): caps[low / 8] |= 1u << (low % 8), with low = req_id & 0xFF.
unfoldable pub mark : ℕ → Bool → List ℕ → List ℕ
mark id present caps =
    let low = bit_and id 0xFF in
    if ltb low 128 && present
    then set caps (low / 8) (u8 (bit_or (byte_at caps (low / 8)) (2 ^ (low % 8))))
    else caps

-- A sequence of MARKs, in order.
unfoldable pub mark_all : List (Call × Bool) → List ℕ → List ℕ
unfolding mark req_id
mark_all [] caps = caps
mark_all ((c, present) ∷ cs) caps = mark_all cs (mark (req_id c) present caps)

abbrev pub all_present : List Call → List (Call × Bool)
all_present = map (λ c. (c, true))

module _ (chip : Chip) where
  abbrev pub phy_marks : List (Call × Bool)
  phy_marks =
      (set_channel, true)
      ∷ (set_phy_11p, true)
      ∷ (set_tx_power, true)
      ∷ (set_country_perm, true)
      ∷ (get_info, true)
      ∷ (get_caps, true)
      ∷ (set_rx_gain, chip.present phy_force_rx_gain)
      ∷ (set_agc_max_gain, chip.present phy_agc_max_gain_set)
      ∷ (reset_rx_gain_tbl, chip.present phy_set_rx_gain_table)
      ∷ (set_cca, chip.present phy_disable_cca)
      ∷ (get_cca_counters, chip.present phy_get_cca_cnt)
      ∷ (reset_cca_count, chip.present phy_set_cca_cnt)
      ∷ (set_low_rate, chip.present phy_disable_low_rate)
      ∷ (set_bandwidth, chip.present phy_bb_bss_cbw40)
      ∷ (get_phy_rssi, chip.present phy_get_sigrssi || chip.present phy_get_rssi)
      ∷ (set_freq, chip.present phy_set_freq)
      ∷ (set_band, chip.present phy_band_change || chip.present phy_band_sel)
      ∷ (set_chan_filt, chip.present phy_chan_filt_set)
      ∷ (set_chan14_mic, chip.present phy_chan14_mic_cfg_new)
      ∷ (set_rate, chip.present phy_set_rate)
      ∷ (set_most_tpw, chip.present phy_set_most_tpw)
      ∷ (get_most_tpw, chip.present phy_get_most_tpw)
      ∷ (get_noise_floor, chip.present phy_get_noise_floor)
      ∷ (get_temperature, chip.present phy_xpd_tsens)
      ∷ (set_csi_dump, chip.present phy_csidump_force_lltf_cfg)
      ∷ (set_loopback, chip.present phy_set_loopback_gain)
      ∷ (set_bt_tx_gain, chip.present phy_bt_set_tx_gain_new || chip.present phy_bt_tx_gain_set)
      ∷ (set_bt_filter, chip.present phy_bt_filter_reg)
      ∷ []

  abbrev pub extras_marks : List (Call × Bool)
  extras_marks = all_present (
      tx_80211 ∷ set_promisc ∷ set_promisc_filter ∷ set_protocol ∷ set_mac ∷ set_csi_enable
      ∷ ftm_initiate ∷ set_event_mask ∷ [])

  abbrev pub espnow_marks : List (Call × Bool)
  espnow_marks = all_present (
      espnow_init ∷ espnow_deinit ∷ espnow_add_peer ∷ espnow_del_peer ∷ espnow_send ∷ espnow_set_pmk
      ∷ [])

  abbrev pub i154_marks : List (Call × Bool)
  i154_marks = all_present (
      ieee154_enable ∷ ieee154_set_chan ∷ ieee154_set_panid ∷ ieee154_set_promisc ∷ ieee154_tx_raw
      ∷ [])

  unfoldable pub phy_rpc_extras_fill_caps : List ℕ → List ℕ
  unfolding mark_all
  phy_rpc_extras_fill_caps caps = mark_all extras_marks caps

  unfoldable pub phy_rpc_wireless_fill_caps : List ℕ → List ℕ
  unfolding mark_all
  phy_rpc_wireless_fill_caps caps =
      let caps' = mark_all espnow_marks caps in
      if chip.present esp_ieee802154_enable then mark_all i154_marks caps' else caps'

  unfoldable pub collect_caps : List ℕ
  unfolding mark_all phy_rpc_extras_fill_caps phy_rpc_wireless_fill_caps
  collect_caps =
      phy_rpc_wireless_fill_caps
        (phy_rpc_extras_fill_caps (mark_all phy_marks (replicate caps_bytes 0)))

  unfoldable pub on_get_caps : Action
  unfolding collect_caps
  on_get_caps req s = (with_body esp_ok collect_caps, s)
