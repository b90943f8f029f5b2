-- ===== src/Link/Caps/Served.antt =====
-- What the handlers of slave/components/phy_rpc_overlay need of a chip, next to what the capability
-- bitmap looks at.
use esp_hosted_open.Prelude.{Bool, true, false, ◌&&◌, ◌||◌, if◌then◌else◌}
use esp_hosted_open.Proto.Ids
use esp_hosted_open.Proto.Ids.{Call}
use esp_hosted_open.Slave.{
  Chip, Sym, phy_enable_cca, phy_enable_low_rate, esp_ieee802154_disable,
  esp_ieee802154_set_channel, esp_ieee802154_set_panid, esp_ieee802154_set_promiscuous,
  esp_ieee802154_transmit, esp_ieee802154_enable, phy_agc_max_gain_set, phy_band_change,
  phy_band_sel, phy_bb_bss_cbw40, phy_bt_filter_reg, phy_bt_set_tx_gain_new, phy_bt_tx_gain_set,
  phy_chan14_mic_cfg_new, phy_chan_filt_set, phy_csidump_force_lltf_cfg, phy_disable_cca,
  phy_disable_low_rate, phy_force_rx_gain, phy_get_cca_cnt, phy_get_most_tpw, phy_get_noise_floor,
  phy_get_rssi, phy_get_sigrssi, phy_set_cca_cnt, phy_set_freq, phy_set_loopback_gain,
  phy_set_most_tpw, phy_set_rate, phy_set_rx_gain_table, phy_xpd_tsens,
}

-- Whether a chip can serve a request in all its forms: the symbols that its handler, and those functions
-- of ESP-IDF that are linked in any case, need. The reserved BT_* requests have no handler.
abbrev pub is_served : Chip → Call → Bool
is_served chip Ids.set_channel = true
is_served chip Ids.set_freq = chip.present phy_set_freq
is_served chip Ids.set_band = chip.present phy_band_change || chip.present phy_band_sel
is_served chip Ids.set_bandwidth = chip.present phy_bb_bss_cbw40
is_served chip Ids.set_chan_filt = chip.present phy_chan_filt_set
is_served chip Ids.set_country_perm = true
is_served chip Ids.set_chan14_mic = chip.present phy_chan14_mic_cfg_new
is_served chip Ids.set_phy_11p = true
is_served chip Ids.set_rate = chip.present phy_set_rate
is_served chip Ids.set_low_rate =
    chip.present phy_disable_low_rate && chip.present phy_enable_low_rate
is_served chip Ids.set_tx_power = true
is_served chip Ids.set_most_tpw = chip.present phy_set_most_tpw
is_served chip Ids.get_most_tpw = chip.present phy_get_most_tpw
is_served chip Ids.set_rx_gain = chip.present phy_force_rx_gain
is_served chip Ids.set_agc_max_gain = chip.present phy_agc_max_gain_set
is_served chip Ids.reset_rx_gain_tbl = chip.present phy_set_rx_gain_table
is_served chip Ids.set_cca = chip.present phy_disable_cca && chip.present phy_enable_cca
is_served chip Ids.get_cca_counters = chip.present phy_get_cca_cnt
is_served chip Ids.reset_cca_count = chip.present phy_set_cca_cnt
is_served chip Ids.get_phy_rssi = chip.present phy_get_sigrssi || chip.present phy_get_rssi
is_served chip Ids.get_noise_floor = chip.present phy_get_noise_floor
is_served chip Ids.get_temperature = chip.present phy_xpd_tsens
is_served chip Ids.set_csi_dump = chip.present phy_csidump_force_lltf_cfg
is_served chip Ids.set_loopback = chip.present phy_set_loopback_gain
is_served chip Ids.set_bt_tx_gain =
    chip.present phy_bt_set_tx_gain_new || chip.present phy_bt_tx_gain_set
is_served chip Ids.set_bt_filter = chip.present phy_bt_filter_reg
is_served chip Ids.get_info = true
is_served chip Ids.get_caps = true
is_served chip Ids.tx_80211 = true
is_served chip Ids.set_promisc = true
is_served chip Ids.set_promisc_filter = true
is_served chip Ids.set_protocol = true
is_served chip Ids.set_mac = true
is_served chip Ids.set_csi_enable = true
is_served chip Ids.ftm_initiate = true
is_served chip Ids.espnow_init = true
is_served chip Ids.espnow_deinit = true
is_served chip Ids.espnow_add_peer = true
is_served chip Ids.espnow_del_peer = true
is_served chip Ids.espnow_send = true
is_served chip Ids.espnow_set_pmk = true
is_served chip Ids.ieee154_enable =
    chip.present esp_ieee802154_enable && chip.present esp_ieee802154_disable
is_served chip Ids.ieee154_set_chan = chip.present esp_ieee802154_set_channel
is_served chip Ids.ieee154_set_panid = chip.present esp_ieee802154_set_panid
is_served chip Ids.ieee154_set_promisc = chip.present esp_ieee802154_set_promiscuous
is_served chip Ids.ieee154_tx_raw = chip.present esp_ieee802154_transmit
is_served chip Ids.set_event_mask = true
is_served chip _ = false

-- the seven requests of which the bitmap looks at another symbol, or at one of two
abbrev pub is_partly_checked : Call → Bool
is_partly_checked Ids.set_cca = true
is_partly_checked Ids.set_low_rate = true
is_partly_checked Ids.ieee154_enable = true
is_partly_checked Ids.ieee154_set_chan = true
is_partly_checked Ids.ieee154_set_panid = true
is_partly_checked Ids.ieee154_set_promisc = true
is_partly_checked Ids.ieee154_tx_raw = true
is_partly_checked _ = false

-- the symbol that decides for those seven
abbrev pub checked_symbol : Call → Sym
checked_symbol Ids.set_cca = phy_disable_cca
checked_symbol Ids.set_low_rate = phy_disable_low_rate
checked_symbol _ = esp_ieee802154_enable

-- what a bit should say, but for those seven
abbrev pub advertised : Chip → Call → Bool
advertised chip c =
    if is_partly_checked c then chip.present (checked_symbol c) else is_served chip c
