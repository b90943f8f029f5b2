-- ===== src/Slave/Handle.antt =====
-- The handlers as the overlay registers them (the tables at the end of phy_rpc_handlers.c,
-- phy_rpc_extras.c and phy_rpc_wireless.c under slave/components/phy_rpc_overlay): for each request the
-- size of its struct, the response id and the action, and the three registration loops.
pub mod Reply
pub mod Table
use esp_hosted_open.Prelude.{ℕ, Option, none, some, List, [], ◌∷◌, ◌++◌, map}
use esp_hosted_open.Proto.Ids.{
  Call, req_id, resp_id, set_channel, set_phy_11p, set_tx_power, set_rx_gain, set_agc_max_gain,
  set_cca, get_cca_counters, reset_cca_count, set_low_rate, set_bandwidth, get_phy_rssi,
  set_country_perm, get_info, set_freq, set_band, set_chan_filt, set_chan14_mic, set_rate,
  set_most_tpw, get_most_tpw, reset_rx_gain_tbl, get_noise_floor, get_temperature, set_csi_dump,
  set_loopback, set_bt_tx_gain, set_bt_filter, get_caps, tx_80211, set_promisc, set_promisc_filter,
  set_protocol, set_mac, set_csi_enable, ftm_initiate, set_event_mask, espnow_init, espnow_deinit,
  espnow_set_pmk, espnow_add_peer, espnow_del_peer, espnow_send, ieee154_enable, ieee154_set_chan,
  ieee154_set_panid, ieee154_set_promisc, ieee154_tx_raw,
}
use esp_hosted_open.Registry.{Registry, register_all}
use esp_hosted_open.Slave.{Chip, Slave, Action, Handler}
use esp_hosted_open.Slave.Send.{serve}
use esp_hosted_open.Slave.Caps.{on_get_caps}
use esp_hosted_open.Slave.Phy.{
  on_set_channel, on_set_phy_11p, on_set_tx_power, on_set_rx_gain, on_set_agc_max_gain, on_set_cca,
  on_get_cca_counters, on_reset_cca_counters, on_set_low_rate, on_set_bandwidth, on_get_phy_rssi,
  on_set_country_permissive, on_get_info, on_set_freq, on_set_band, on_set_chan_filt,
  on_set_chan14_mic, on_set_rate, on_set_most_tpw, on_get_most_tpw, on_reset_rx_gain_table,
  on_get_noise_floor, on_get_temperature, on_set_csi_dump, on_set_loopback, on_set_bt_tx_gain,
  on_set_bt_filter,
}
use esp_hosted_open.Slave.Extras.{
  on_tx_80211, on_set_promisc, on_set_promisc_filter, on_set_protocol, on_set_mac,
  on_set_csi_enable, on_ftm_initiate, on_set_event_mask,
}
use esp_hosted_open.Slave.Wireless.{
  on_espnow_init, on_espnow_deinit, on_espnow_set_pmk, on_espnow_add_peer, on_espnow_del_peer,
  on_espnow_send, on_i154_enable, on_i154_set_chan, on_i154_set_panid, on_i154_set_promisc,
  on_i154_tx_raw,
}

-- the table of phy_rpc_handlers_register, in its order
abbrev pub handlers_calls : List Call
handlers_calls =
    set_channel ∷ set_phy_11p ∷ set_tx_power ∷ set_rx_gain ∷ set_agc_max_gain ∷ set_cca
    ∷ get_cca_counters ∷ reset_cca_count ∷ set_low_rate ∷ set_bandwidth ∷ get_phy_rssi
    ∷ set_country_perm ∷ get_info ∷ set_freq ∷ set_band ∷ set_chan_filt ∷ set_chan14_mic ∷ set_rate
    ∷ set_most_tpw ∷ get_most_tpw ∷ reset_rx_gain_tbl ∷ get_noise_floor ∷ get_temperature
    ∷ set_csi_dump ∷ set_loopback ∷ set_bt_tx_gain ∷ set_bt_filter ∷ get_caps ∷ []

-- the table of phy_rpc_extras_register, in its order
abbrev pub extras_calls : List Call
extras_calls =
    tx_80211 ∷ set_promisc ∷ set_promisc_filter ∷ set_protocol ∷ set_mac ∷ set_csi_enable
    ∷ ftm_initiate ∷ set_event_mask ∷ []

-- the table of phy_rpc_wireless_register, in its order
abbrev pub wireless_calls : List Call
wireless_calls =
    espnow_init ∷ espnow_deinit ∷ espnow_set_pmk ∷ espnow_add_peer ∷ espnow_del_peer ∷ espnow_send
    ∷ ieee154_enable ∷ ieee154_set_chan ∷ ieee154_set_panid ∷ ieee154_set_promisc ∷ ieee154_tx_raw
    ∷ []

-- the size of the packed struct that UNPACK_REQ or the handler checks for
unfoldable pub request_size : Call → ℕ
request_size set_channel = 5
request_size set_phy_11p = 5
request_size set_tx_power = 5
request_size set_rx_gain = 5
request_size set_agc_max_gain = 5
request_size set_cca = 5
request_size set_low_rate = 5
request_size set_bandwidth = 5
request_size set_freq = 8
request_size set_band = 5
request_size set_chan_filt = 8
request_size set_chan14_mic = 5
request_size set_rate = 5
request_size set_most_tpw = 5
request_size set_csi_dump = 5
request_size set_loopback = 5
request_size set_bt_tx_gain = 5
request_size set_bt_filter = 8
request_size tx_80211 = 10
request_size set_promisc = 5
request_size set_promisc_filter = 8
request_size set_protocol = 8
request_size set_mac = 12
request_size set_csi_enable = 5
request_size ftm_initiate = 16
request_size set_event_mask = 12
request_size espnow_set_pmk = 20
request_size espnow_add_peer = 30
request_size espnow_del_peer = 10
request_size espnow_send = 12
request_size ieee154_enable = 5
request_size ieee154_set_chan = 5
request_size ieee154_set_panid = 6
request_size ieee154_set_promisc = 5
request_size ieee154_tx_raw = 8
request_size _ = 4

module _ (chip : Chip) where
  -- the handler of each request that has one; `none` for the reserved BT_* requests
  unfoldable pub action : Call → Option Action
  action set_channel = some (on_set_channel chip)
  action set_phy_11p = some (on_set_phy_11p chip)
  action set_tx_power = some (on_set_tx_power chip)
  action set_rx_gain = some (on_set_rx_gain chip)
  action set_agc_max_gain = some (on_set_agc_max_gain chip)
  action set_cca = some (on_set_cca chip)
  action get_cca_counters = some (on_get_cca_counters chip)
  action reset_cca_count = some (on_reset_cca_counters chip)
  action set_low_rate = some (on_set_low_rate chip)
  action set_bandwidth = some (on_set_bandwidth chip)
  action get_phy_rssi = some (on_get_phy_rssi chip)
  action set_country_perm = some (on_set_country_permissive chip)
  action get_info = some (on_get_info chip)
  action set_freq = some (on_set_freq chip)
  action set_band = some (on_set_band chip)
  action set_chan_filt = some (on_set_chan_filt chip)
  action set_chan14_mic = some (on_set_chan14_mic chip)
  action set_rate = some (on_set_rate chip)
  action set_most_tpw = some (on_set_most_tpw chip)
  action get_most_tpw = some (on_get_most_tpw chip)
  action reset_rx_gain_tbl = some (on_reset_rx_gain_table chip)
  action get_noise_floor = some (on_get_noise_floor chip)
  action get_temperature = some (on_get_temperature chip)
  action set_csi_dump = some (on_set_csi_dump chip)
  action set_loopback = some (on_set_loopback chip)
  action set_bt_tx_gain = some (on_set_bt_tx_gain chip)
  action set_bt_filter = some (on_set_bt_filter chip)
  action get_caps = some (on_get_caps chip)
  action tx_80211 = some (on_tx_80211 chip)
  action set_promisc = some (on_set_promisc chip)
  action set_promisc_filter = some (on_set_promisc_filter chip)
  action set_protocol = some (on_set_protocol chip)
  action set_mac = some (on_set_mac chip)
  action set_csi_enable = some (on_set_csi_enable chip)
  action ftm_initiate = some (on_ftm_initiate chip)
  action set_event_mask = some (on_set_event_mask chip)
  action espnow_init = some (on_espnow_init chip)
  action espnow_deinit = some (on_espnow_deinit chip)
  action espnow_set_pmk = some (on_espnow_set_pmk chip)
  action espnow_add_peer = some (on_espnow_add_peer chip)
  action espnow_del_peer = some (on_espnow_del_peer chip)
  action espnow_send = some (on_espnow_send chip)
  action ieee154_enable = some (on_i154_enable chip)
  action ieee154_set_chan = some (on_i154_set_chan chip)
  action ieee154_set_panid = some (on_i154_set_panid chip)
  action ieee154_set_promisc = some (on_i154_set_promisc chip)
  action ieee154_tx_raw = some (on_i154_tx_raw chip)
  action _ = none

  abbrev pub serve_if : Option Action → Call → Handler
  serve_if none c req s = s
  serve_if (some a) c req s = serve chip (request_size c) (resp_id c) a req s

  -- The function that the overlay registers for a request: its struct's size and its response id around
  -- the action.
  unfoldable pub handle : Call → Handler
  unfolding serve action request_size
  handle c req s = serve_if (action c) c req s

  abbrev pub table_of : List Call → List (ℕ × Handler)
  table_of cs = map (λ c. (req_id c, handle c)) cs

  -- phy_rpc_handlers_register, phy_rpc_extras_register, phy_rpc_wireless_register: the statuses, and the
  -- table after each
  unfoldable pub handlers_register : Registry Handler → List ℕ × Registry Handler
  unfolding register_all
  handlers_register r = register_all (table_of handlers_calls) r

  unfoldable pub extras_register : Registry Handler → List ℕ × Registry Handler
  unfolding register_all
  extras_register r = register_all (table_of extras_calls) r

  unfoldable pub wireless_register : Registry Handler → List ℕ × Registry Handler
  unfolding register_all
  wireless_register r = register_all (table_of wireless_calls) r

  -- the three, in the order of app_main
  unfoldable pub register_overlay : Registry Handler → List ℕ × Registry Handler
  unfolding handlers_register extras_register wireless_register
  register_overlay r =
      let (a, r1) = handlers_register r in
      let (b, r2) = extras_register r1 in let (c, r3) = wireless_register r2 in (a ++ (b ++ c), r3)
