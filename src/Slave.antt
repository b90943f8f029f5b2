-- ===== src/Slave.antt =====
-- The co-processor's RPC overlay (slave/components/phy_rpc_overlay): the state it keeps, and what it
-- needs of libphy.a, ESP-IDF and the heap, which are not part of the repository and enter as a `Chip`.
pub mod Send
pub mod Events
pub mod Phy
pub mod Power
pub mod Boot
pub mod Extras
pub mod Wireless
pub mod Handle
pub mod Caps
use esp_hosted_open.Prelude.{ℕ, Bool, true, List, [], ◌∷◌, if◌then◌else◌, ◌≡◌}
use esp_hosted_open.Bytes.{u32}
use esp_hosted_open.Status.{esp_ok, esp_err_not_supported}

-- The symbols declared __attribute__((weak)): on a chip without one its address is NULL.
pub data Sym : Type 0 where
  phy_force_rx_gain phy_rx_gain_force phy_disable_agc phy_enable_agc phy_agc_max_gain_set : Sym
  phy_disable_cca phy_enable_cca phy_set_cca_cnt phy_get_cca_cnt phy_get_rssi : Sym
  phy_get_sigrssi phy_disable_low_rate phy_enable_low_rate phy_bb_bss_cbw40 phy_set_freq : Sym
  phy_band_change phy_band_sel phy_chan_filt_set phy_chan14_mic_cfg_new phy_set_rate : Sym
  phy_set_most_tpw phy_get_most_tpw phy_set_rx_gain_table phy_get_noise_floor : Sym
  phy_xpd_tsens phy_csidump_force_lltf_cfg phy_set_loopback_gain phy_bt_set_tx_gain_new : Sym
  phy_bt_tx_gain_set phy_bt_filter_reg esp_ieee802154_enable esp_ieee802154_disable : Sym
  esp_ieee802154_set_channel esp_ieee802154_set_panid esp_ieee802154_set_promiscuous : Sym
  esp_ieee802154_transmit : Sym

-- A call that leaves the overlay, with its arguments. `weak f a` calls a weak symbol with one number
-- (0 if it takes none); the constant arguments of the others are left out.
pub data Api : Type 0 where
  weak : Sym → ℕ → Api
  phy_11p_set : ℕ → Api
  phy_change_channel : ℕ → Api
  wifi_set_country : Api
  wifi_set_channel : ℕ → Api
  wifi_set_ps_none : Api
  wifi_set_max_tx_power : ℕ → Api
  wifi_80211_tx : ℕ → List ℕ → Bool → Api
  wifi_set_promiscuous : Bool → Api
  wifi_set_promiscuous_rx_cb : Api
  wifi_set_promiscuous_filter : ℕ → Api
  wifi_set_protocol : ℕ → ℕ → Api
  wifi_set_mac : ℕ → List ℕ → Api
  wifi_set_csi_rx_cb : Api
  wifi_set_csi : Bool → Api
  wifi_ftm_initiate_session : List ℕ → ℕ → ℕ → ℕ → Api
  event_handler_register : Api
  queue_create : Api
  task_create : Api
  esp_now_init esp_now_deinit : Api
  esp_now_register_recv_cb esp_now_register_send_cb : Api
  esp_now_set_pmk : List ℕ → Api
  esp_now_add_peer : List ℕ → List ℕ → ℕ → ℕ → Bool → Api
  esp_now_del_peer : List ℕ → Api
  esp_now_send : List ℕ → List ℕ → Api
  ieee802154_transmit : List ℕ → Bool → Api

-- What the chip and ESP-IDF answer. An answer may depend on all calls made before, latest first;
-- `alloc` tells whether a malloc of that many bytes succeeds.
pub record Chip : Type 0 where
  pub present : Sym → Bool
  pub reply : List Api → Api → ℕ
  pub alloc : List Api → ℕ → Bool

-- s_state of phy_rpc_handlers.c. Each field is a byte; tx_power_dbm is an int8_t as its bit pattern.
pub record PhyState : Type 0 where
  pub channel : ℕ
  pub tx_power_dbm : ℕ
  pub phy_11p_armed : ℕ
  pub cca_enabled : ℕ
  pub low_rate_enabled : ℕ
  pub agc_max_gain : ℕ

-- `raw_q` tells whether s_raw_q has been created, `ftm_handler` is s_ftm_handler_registered. `log`
-- holds the calls made and `sent` the event buffers handed to the RPC layer, both latest first.
pub record Slave : Type 0 where
  pub state : PhyState
  pub raw_q : Bool
  pub ftm_handler : Bool
  pub log : List Api
  pub sent : List (List ℕ)

abbrev pub initial_state : PhyState
initial_state = record {
  channel = 180;
  tx_power_dbm = 20;
  phy_11p_armed = 1;
  cca_enabled = 1;
  low_rate_enabled = 0;
  agc_max_gain = 255;
}

-- A handler's action ends in one of two ways of answering.
pub data Answer : Type 0 where
  simple : ℕ → Answer
  with_body : ℕ → List ℕ → Answer

-- What a handler does between unpacking its request and answering.
abbrev pub Action : Type 0
Action = List ℕ → Slave → Answer × Slave

-- A handler, as it is registered: the request's bytes, then the state before and after.
abbrev pub Handler : Type 0
Handler = List ℕ → Slave → Slave

-- Every malloc succeeds.
abbrev pub HasMemory : Chip → Type 0
HasMemory chip = (calls : List Api) (n : ℕ) → chip.alloc calls n ≡ true

-- The status of an external call, sent by send_simple_resp.
abbrev pub with_status : ℕ × Slave → Answer × Slave
with_status (st, s) = (simple st, s)

module _ (chip : Chip) where
  -- A call whose 32-bit result is used, and one whose result is not.
  abbrev pub ask : Api → Slave → ℕ × Slave
  ask a s = (u32 (chip.reply s.log a), record s { log = a ∷ s.log })

  abbrev pub run : Api → Slave → Slave
  run a s = record s { log = a ∷ s.log }

  -- if (sym) sym(arg);
  abbrev pub run_if : Sym → ℕ → Slave → Slave
  run_if f arg s = if chip.present f then run (weak f arg) s else s

  -- HOOK_OPT(sym, sym(arg)), from st = ESP_OK
  abbrev pub hook_opt : Sym → ℕ → Slave → ℕ × Slave
  hook_opt f arg s =
      if chip.present f then (esp_ok, run (weak f arg) s) else (esp_err_not_supported, s)
