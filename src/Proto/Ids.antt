-- ===== src/Proto/Ids.antt =====
-- Message ids of the wire protocol (esp_hosted_open/include/phy_rpc_proto.h): one constructor for each
-- PHY_RPC_REQ_* / PHY_RPC_RESP_* pair and for each PHY_RPC_EVT_*, in the header's order.
use esp_hosted_open.Prelude.{ℕ, bit_or}

pub data Call : Type 0 where
  set_channel set_freq set_band set_bandwidth set_chan_filt set_country_perm set_chan14_mic : Call
  set_phy_11p set_rate set_low_rate set_tx_power set_most_tpw get_most_tpw set_rx_gain : Call
  set_agc_max_gain reset_rx_gain_tbl set_cca get_cca_counters reset_cca_count get_phy_rssi : Call
  get_noise_floor get_temperature set_csi_dump set_loopback set_bt_tx_gain set_bt_filter : Call
  get_info get_caps tx_80211 set_promisc set_promisc_filter set_protocol set_mac : Call
  set_csi_enable ftm_initiate espnow_init espnow_deinit espnow_add_peer espnow_del_peer : Call
  espnow_send espnow_set_pmk ieee154_enable ieee154_set_chan ieee154_set_panid : Call
  ieee154_set_promisc ieee154_tx_raw set_event_mask bt_set_preamble bt_set_address : Call
  bt_set_crc_mode bt_burst_tx : Call

pub data Evt : Type 0 where
  ocb_frame phy_state raw_frame csi ftm_report espnow_rx espnow_tx_status ieee154_rx : Evt

abbrev pub msg_base : ℕ
msg_base = 0xC1750000

-- PHY_RPC_MSG_REQ(n), PHY_RPC_MSG_RESP(n), PHY_RPC_MSG_EVT(n)
unfoldable pub msg_req : ℕ → ℕ
msg_req n = bit_or msg_base n

unfoldable pub msg_resp : ℕ → ℕ
msg_resp n = bit_or (bit_or msg_base 0x8000) n

unfoldable pub msg_evt : ℕ → ℕ
msg_evt n = bit_or (bit_or msg_base 0xF000) n

unfoldable pub req_id : Call → ℕ
unfolding msg_req
req_id set_channel = msg_req 0x001
req_id set_freq = msg_req 0x010
req_id set_band = msg_req 0x011
req_id set_bandwidth = msg_req 0x00A
req_id set_chan_filt = msg_req 0x012
req_id set_country_perm = msg_req 0x00C
req_id set_chan14_mic = msg_req 0x013
req_id set_phy_11p = msg_req 0x002
req_id set_rate = msg_req 0x014
req_id set_low_rate = msg_req 0x009
req_id set_tx_power = msg_req 0x003
req_id set_most_tpw = msg_req 0x015
req_id get_most_tpw = msg_req 0x016
req_id set_rx_gain = msg_req 0x004
req_id set_agc_max_gain = msg_req 0x005
req_id reset_rx_gain_tbl = msg_req 0x017
req_id set_cca = msg_req 0x006
req_id get_cca_counters = msg_req 0x007
req_id reset_cca_count = msg_req 0x008
req_id get_phy_rssi = msg_req 0x00B
req_id get_noise_floor = msg_req 0x018
req_id get_temperature = msg_req 0x019
req_id set_csi_dump = msg_req 0x01A
req_id set_loopback = msg_req 0x01B
req_id set_bt_tx_gain = msg_req 0x01C
req_id set_bt_filter = msg_req 0x01D
req_id get_info = msg_req 0x00D
req_id get_caps = msg_req 0x01E
req_id tx_80211 = msg_req 0x020
req_id set_promisc = msg_req 0x021
req_id set_promisc_filter = msg_req 0x022
req_id set_protocol = msg_req 0x023
req_id set_mac = msg_req 0x024
req_id set_csi_enable = msg_req 0x025
req_id ftm_initiate = msg_req 0x026
req_id espnow_init = msg_req 0x030
req_id espnow_deinit = msg_req 0x031
req_id espnow_add_peer = msg_req 0x032
req_id espnow_del_peer = msg_req 0x033
req_id espnow_send = msg_req 0x034
req_id espnow_set_pmk = msg_req 0x035
req_id ieee154_enable = msg_req 0x040
req_id ieee154_set_chan = msg_req 0x041
req_id ieee154_set_panid = msg_req 0x042
req_id ieee154_set_promisc = msg_req 0x043
req_id ieee154_tx_raw = msg_req 0x044
req_id set_event_mask = msg_req 0x027
req_id bt_set_preamble = msg_req 0x050
req_id bt_set_address = msg_req 0x051
req_id bt_set_crc_mode = msg_req 0x052
req_id bt_burst_tx = msg_req 0x053

unfoldable pub resp_id : Call → ℕ
unfolding msg_resp
resp_id set_channel = msg_resp 0x001
resp_id set_freq = msg_resp 0x010
resp_id set_band = msg_resp 0x011
resp_id set_bandwidth = msg_resp 0x00A
resp_id set_chan_filt = msg_resp 0x012
resp_id set_country_perm = msg_resp 0x00C
resp_id set_chan14_mic = msg_resp 0x013
resp_id set_phy_11p = msg_resp 0x002
resp_id set_rate = msg_resp 0x014
resp_id set_low_rate = msg_resp 0x009
resp_id set_tx_power = msg_resp 0x003
resp_id set_most_tpw = msg_resp 0x015
resp_id get_most_tpw = msg_resp 0x016
resp_id set_rx_gain = msg_resp 0x004
resp_id set_agc_max_gain = msg_resp 0x005
resp_id reset_rx_gain_tbl = msg_resp 0x017
resp_id set_cca = msg_resp 0x006
resp_id get_cca_counters = msg_resp 0x007
resp_id reset_cca_count = msg_resp 0x008
resp_id get_phy_rssi = msg_resp 0x00B
resp_id get_noise_floor = msg_resp 0x018
resp_id get_temperature = msg_resp 0x019
resp_id set_csi_dump = msg_resp 0x01A
resp_id set_loopback = msg_resp 0x01B
resp_id set_bt_tx_gain = msg_resp 0x01C
resp_id set_bt_filter = msg_resp 0x01D
resp_id get_info = msg_resp 0x00D
resp_id get_caps = msg_resp 0x01E
resp_id tx_80211 = msg_resp 0x020
resp_id set_promisc = msg_resp 0x021
resp_id set_promisc_filter = msg_resp 0x022
resp_id set_protocol = msg_resp 0x023
resp_id set_mac = msg_resp 0x024
resp_id set_csi_enable = msg_resp 0x025
resp_id ftm_initiate = msg_resp 0x026
resp_id espnow_init = msg_resp 0x030
resp_id espnow_deinit = msg_resp 0x031
resp_id espnow_add_peer = msg_resp 0x032
resp_id espnow_del_peer = msg_resp 0x033
resp_id espnow_send = msg_resp 0x034
resp_id espnow_set_pmk = msg_resp 0x035
resp_id ieee154_enable = msg_resp 0x040
resp_id ieee154_set_chan = msg_resp 0x041
resp_id ieee154_set_panid = msg_resp 0x042
resp_id ieee154_set_promisc = msg_resp 0x043
resp_id ieee154_tx_raw = msg_resp 0x044
resp_id set_event_mask = msg_resp 0x027
resp_id bt_set_preamble = msg_resp 0x050
resp_id bt_set_address = msg_resp 0x051
resp_id bt_set_crc_mode = msg_resp 0x052
resp_id bt_burst_tx = msg_resp 0x053

unfoldable pub evt_id : Evt → ℕ
unfolding msg_evt
evt_id ocb_frame = msg_evt 0x001
evt_id phy_state = msg_evt 0x002
evt_id raw_frame = msg_evt 0x003
evt_id csi = msg_evt 0x004
evt_id ftm_report = msg_evt 0x005
evt_id espnow_rx = msg_evt 0x006
evt_id espnow_tx_status = msg_evt 0x007
evt_id ieee154_rx = msg_evt 0x008
