-- ===== src/Proto/Distinct.antt =====
-- The ids of messages are all different (esp_hosted_open/include/phy_rpc_proto.h): both sides dispatch on
-- the id alone.
use esp_hosted_open.Prelude.{
  ℕ, ◌≡◌, refl, sym, ap, ◌∙◌, Option, none, some, List, [], ◌∷◌, ◌++◌, map, ◌==◌, if◌then◌else◌,
}
use esp_hosted_open.Proto.Ids
use esp_hosted_open.Proto.Ids.{Call, Evt, req_id, resp_id, evt_id}

-- A message's kind and what it is about.
pub data Msg : Type 0 where
  request : Call → Msg
  response : Call → Msg
  event : Evt → Msg

abbrev pub id_of : Msg → ℕ
id_of (request c) = req_id c
id_of (response c) = resp_id c
id_of (event e) = evt_id e

abbrev calls : List Call
calls =
    Ids.set_channel ∷ Ids.set_freq ∷ Ids.set_band ∷ Ids.set_bandwidth ∷ Ids.set_chan_filt
    ∷ Ids.set_country_perm ∷ Ids.set_chan14_mic ∷ Ids.set_phy_11p ∷ Ids.set_rate ∷ Ids.set_low_rate
    ∷ Ids.set_tx_power ∷ Ids.set_most_tpw ∷ Ids.get_most_tpw ∷ Ids.set_rx_gain
    ∷ Ids.set_agc_max_gain ∷ Ids.reset_rx_gain_tbl ∷ Ids.set_cca ∷ Ids.get_cca_counters
    ∷ Ids.reset_cca_count ∷ Ids.get_phy_rssi ∷ Ids.get_noise_floor ∷ Ids.get_temperature
    ∷ Ids.set_csi_dump ∷ Ids.set_loopback ∷ Ids.set_bt_tx_gain ∷ Ids.set_bt_filter ∷ Ids.get_info
    ∷ Ids.get_caps ∷ Ids.tx_80211 ∷ Ids.set_promisc ∷ Ids.set_promisc_filter ∷ Ids.set_protocol
    ∷ Ids.set_mac ∷ Ids.set_csi_enable ∷ Ids.ftm_initiate ∷ Ids.espnow_init ∷ Ids.espnow_deinit
    ∷ Ids.espnow_add_peer ∷ Ids.espnow_del_peer ∷ Ids.espnow_send ∷ Ids.espnow_set_pmk
    ∷ Ids.ieee154_enable ∷ Ids.ieee154_set_chan ∷ Ids.ieee154_set_panid ∷ Ids.ieee154_set_promisc
    ∷ Ids.ieee154_tx_raw ∷ Ids.set_event_mask ∷ Ids.bt_set_preamble ∷ Ids.bt_set_address
    ∷ Ids.bt_set_crc_mode ∷ Ids.bt_burst_tx ∷ []

abbrev events : List Evt
events =
    Ids.ocb_frame ∷ Ids.phy_state ∷ Ids.raw_frame ∷ Ids.csi ∷ Ids.ftm_report ∷ Ids.espnow_rx
    ∷ Ids.espnow_tx_status ∷ Ids.ieee154_rx ∷ []

abbrev messages : List Msg
messages = map request calls ++ (map response calls ++ map event events)

abbrev decode_in : List Msg → ℕ → Option Msg
decode_in [] n = none
decode_in (m ∷ ms) n = if id_of m == n then some m else decode_in ms n

decode-id_of : (m : Msg) → decode_in messages (id_of m) ≡ some m
unfolding req_id resp_id evt_id
decode-id_of (request Ids.set_channel) = refl
decode-id_of (request Ids.set_freq) = refl
decode-id_of (request Ids.set_band) = refl
decode-id_of (request Ids.set_bandwidth) = refl
decode-id_of (request Ids.set_chan_filt) = refl
decode-id_of (request Ids.set_country_perm) = refl
decode-id_of (request Ids.set_chan14_mic) = refl
decode-id_of (request Ids.set_phy_11p) = refl
decode-id_of (request Ids.set_rate) = refl
decode-id_of (request Ids.set_low_rate) = refl
decode-id_of (request Ids.set_tx_power) = refl
decode-id_of (request Ids.set_most_tpw) = refl
decode-id_of (request Ids.get_most_tpw) = refl
decode-id_of (request Ids.set_rx_gain) = refl
decode-id_of (request Ids.set_agc_max_gain) = refl
decode-id_of (request Ids.reset_rx_gain_tbl) = refl
decode-id_of (request Ids.set_cca) = refl
decode-id_of (request Ids.get_cca_counters) = refl
decode-id_of (request Ids.reset_cca_count) = refl
decode-id_of (request Ids.get_phy_rssi) = refl
decode-id_of (request Ids.get_noise_floor) = refl
decode-id_of (request Ids.get_temperature) = refl
decode-id_of (request Ids.set_csi_dump) = refl
decode-id_of (request Ids.set_loopback) = refl
decode-id_of (request Ids.set_bt_tx_gain) = refl
decode-id_of (request Ids.set_bt_filter) = refl
decode-id_of (request Ids.get_info) = refl
decode-id_of (request Ids.get_caps) = refl
decode-id_of (request Ids.tx_80211) = refl
decode-id_of (request Ids.set_promisc) = refl
decode-id_of (request Ids.set_promisc_filter) = refl
decode-id_of (request Ids.set_protocol) = refl
decode-id_of (request Ids.set_mac) = refl
decode-id_of (request Ids.set_csi_enable) = refl
decode-id_of (request Ids.ftm_initiate) = refl
decode-id_of (request Ids.espnow_init) = refl
decode-id_of (request Ids.espnow_deinit) = refl
decode-id_of (request Ids.espnow_add_peer) = refl
decode-id_of (request Ids.espnow_del_peer) = refl
decode-id_of (request Ids.espnow_send) = refl
decode-id_of (request Ids.espnow_set_pmk) = refl
decode-id_of (request Ids.ieee154_enable) = refl
decode-id_of (request Ids.ieee154_set_chan) = refl
decode-id_of (request Ids.ieee154_set_panid) = refl
decode-id_of (request Ids.ieee154_set_promisc) = refl
decode-id_of (request Ids.ieee154_tx_raw) = refl
decode-id_of (request Ids.set_event_mask) = refl
decode-id_of (request Ids.bt_set_preamble) = refl
decode-id_of (request Ids.bt_set_address) = refl
decode-id_of (request Ids.bt_set_crc_mode) = refl
decode-id_of (request Ids.bt_burst_tx) = refl
decode-id_of (response Ids.set_channel) = refl
decode-id_of (response Ids.set_freq) = refl
decode-id_of (response Ids.set_band) = refl
decode-id_of (response Ids.set_bandwidth) = refl
decode-id_of (response Ids.set_chan_filt) = refl
decode-id_of (response Ids.set_country_perm) = refl
decode-id_of (response Ids.set_chan14_mic) = refl
decode-id_of (response Ids.set_phy_11p) = refl
decode-id_of (response Ids.set_rate) = refl
decode-id_of (response Ids.set_low_rate) = refl
decode-id_of (response Ids.set_tx_power) = refl
decode-id_of (response Ids.set_most_tpw) = refl
decode-id_of (response Ids.get_most_tpw) = refl
decode-id_of (response Ids.set_rx_gain) = refl
decode-id_of (response Ids.set_agc_max_gain) = refl
decode-id_of (response Ids.reset_rx_gain_tbl) = refl
decode-id_of (response Ids.set_cca) = refl
decode-id_of (response Ids.get_cca_counters) = refl
decode-id_of (response Ids.reset_cca_count) = refl
decode-id_of (response Ids.get_phy_rssi) = refl
decode-id_of (response Ids.get_noise_floor) = refl
decode-id_of (response Ids.get_temperature) = refl
decode-id_of (response Ids.set_csi_dump) = refl
decode-id_of (response Ids.set_loopback) = refl
decode-id_of (response Ids.set_bt_tx_gain) = refl
decode-id_of (response Ids.set_bt_filter) = refl
decode-id_of (response Ids.get_info) = refl
decode-id_of (response Ids.get_caps) = refl
decode-id_of (response Ids.tx_80211) = refl
decode-id_of (response Ids.set_promisc) = refl
decode-id_of (response Ids.set_promisc_filter) = refl
decode-id_of (response Ids.set_protocol) = refl
decode-id_of (response Ids.set_mac) = refl
decode-id_of (response Ids.set_csi_enable) = refl
decode-id_of (response Ids.ftm_initiate) = refl
decode-id_of (response Ids.espnow_init) = refl
decode-id_of (response Ids.espnow_deinit) = refl
decode-id_of (response Ids.espnow_add_peer) = refl
decode-id_of (response Ids.espnow_del_peer) = refl
decode-id_of (response Ids.espnow_send) = refl
decode-id_of (response Ids.espnow_set_pmk) = refl
decode-id_of (response Ids.ieee154_enable) = refl
decode-id_of (response Ids.ieee154_set_chan) = refl
decode-id_of (response Ids.ieee154_set_panid) = refl
decode-id_of (response Ids.ieee154_set_promisc) = refl
decode-id_of (response Ids.ieee154_tx_raw) = refl
decode-id_of (response Ids.set_event_mask) = refl
decode-id_of (response Ids.bt_set_preamble) = refl
decode-id_of (response Ids.bt_set_address) = refl
decode-id_of (response Ids.bt_set_crc_mode) = refl
decode-id_of (response Ids.bt_burst_tx) = refl
decode-id_of (event Ids.ocb_frame) = refl
decode-id_of (event Ids.phy_state) = refl
decode-id_of (event Ids.raw_frame) = refl
decode-id_of (event Ids.csi) = refl
decode-id_of (event Ids.ftm_report) = refl
decode-id_of (event Ids.espnow_rx) = refl
decode-id_of (event Ids.espnow_tx_status) = refl
decode-id_of (event Ids.ieee154_rx) = refl

-- No two messages share an id: not two requests, two responses or two events, nor messages of different
-- kinds.
pub id_of_injective : (m n : Msg) → id_of m ≡ id_of n → m ≡ n
id_of_injective m n e =
    let same : some m ≡ some n =
      sym (decode-id_of m) ∙ ap (decode_in messages) e ∙ decode-id_of n in
    cc same
