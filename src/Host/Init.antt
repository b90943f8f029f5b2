-- ===== src/Host/Init.antt =====
-- esp_hosted_open_init and esp_hosted_open_deinit (esp_hosted_open/src/phy_rpc.c). The registry of
-- callbacks on the host is the upstream library's and enters as a `HostRegistry`.
pub mod Bindings
pub mod Bound
use esp_hosted_open.Prelude.{
  ℕ, ◌≡◌, Bool, true, false, not, Option, none, some, List, [], ◌∷◌, ◌++◌, map, ◌==◌, if◌then◌else◌,
}
use esp_hosted_open.Status.{esp_ok, esp_err_no_mem, esp_err_invalid_state}
use esp_hosted_open.Proto.Ids
use esp_hosted_open.Proto.Ids.{Call, Evt, resp_id, evt_id}
use esp_hosted_open.Host.Inflight.{Host, Slot}

-- The callbacks that the layer registers: on_response, or the function of an event.
pub data HostCallback : Type 0 where
  on_response : HostCallback
  on_event : Evt → HostCallback

-- esp_hosted_register_custom_callback on the host, and what it binds to an id. A registration that
-- fails binds nothing; NULL removes a binding.
pub record HostRegistry (R : Type 0) : Type 0 where
  pub register : ℕ → Option HostCallback → R → ℕ × R
  pub lookup : ℕ → R → Option HostCallback
  pub lookup-register :
      (id j : ℕ) (cb : Option HostCallback) (r : R)
      → lookup j (register id cb r).1 ≡ (
          if (register id cb r).0 == esp_ok
          then (if id == j then cb else lookup j r)
          else lookup j r)

-- resp_ids of esp_hosted_open_init, in its order
abbrev pub resp_calls : List Call
resp_calls =
    Ids.set_channel ∷ Ids.set_phy_11p ∷ Ids.set_tx_power ∷ Ids.set_rx_gain ∷ Ids.set_agc_max_gain
    ∷ Ids.set_cca ∷ Ids.get_cca_counters ∷ Ids.reset_cca_count ∷ Ids.set_low_rate
    ∷ Ids.set_bandwidth ∷ Ids.get_phy_rssi ∷ Ids.set_country_perm ∷ Ids.get_info ∷ Ids.set_freq
    ∷ Ids.set_band ∷ Ids.set_chan_filt ∷ Ids.set_chan14_mic ∷ Ids.set_rate ∷ Ids.set_most_tpw
    ∷ Ids.get_most_tpw ∷ Ids.reset_rx_gain_tbl ∷ Ids.get_noise_floor ∷ Ids.get_temperature
    ∷ Ids.set_csi_dump ∷ Ids.set_loopback ∷ Ids.set_bt_tx_gain ∷ Ids.set_bt_filter ∷ Ids.get_caps
    ∷ Ids.tx_80211 ∷ Ids.set_promisc ∷ Ids.set_promisc_filter ∷ Ids.set_protocol ∷ Ids.set_mac
    ∷ Ids.set_csi_enable ∷ Ids.ftm_initiate ∷ Ids.espnow_init ∷ Ids.espnow_deinit
    ∷ Ids.espnow_add_peer ∷ Ids.espnow_del_peer ∷ Ids.espnow_send ∷ Ids.espnow_set_pmk
    ∷ Ids.ieee154_enable ∷ Ids.ieee154_set_chan ∷ Ids.ieee154_set_panid ∷ Ids.ieee154_set_promisc
    ∷ Ids.ieee154_tx_raw ∷ Ids.set_event_mask ∷ []

-- the events that it registers, in its order
abbrev pub event_list : List Evt
event_list =
    Ids.ocb_frame ∷ Ids.raw_frame ∷ Ids.csi ∷ Ids.ftm_report ∷ Ids.espnow_rx ∷ Ids.espnow_tx_status
    ∷ Ids.ieee154_rx ∷ []

-- the responses in all_ids of esp_hosted_open_deinit, in its order
abbrev pub deinit_calls : List Call
deinit_calls =
    Ids.set_channel ∷ Ids.set_phy_11p ∷ Ids.set_tx_power ∷ Ids.set_rx_gain ∷ Ids.set_agc_max_gain
    ∷ Ids.set_cca ∷ Ids.get_cca_counters ∷ Ids.reset_cca_count ∷ Ids.set_low_rate
    ∷ Ids.set_bandwidth ∷ Ids.get_phy_rssi ∷ Ids.set_country_perm ∷ Ids.get_info ∷ Ids.set_freq
    ∷ Ids.set_band ∷ Ids.set_chan_filt ∷ Ids.set_chan14_mic ∷ Ids.set_rate ∷ Ids.set_most_tpw
    ∷ Ids.get_most_tpw ∷ Ids.reset_rx_gain_tbl ∷ Ids.get_noise_floor ∷ Ids.get_temperature
    ∷ Ids.set_csi_dump ∷ Ids.set_loopback ∷ Ids.set_bt_tx_gain ∷ Ids.set_bt_filter ∷ Ids.get_caps
    ∷ []

abbrev pub response_bindings : List (ℕ × Option HostCallback)
response_bindings = map (λ c. (resp_id c, some on_response)) resp_calls

abbrev pub event_bindings : List (ℕ × Option HostCallback)
event_bindings = map (λ e. (evt_id e, some (on_event e))) event_list

abbrev pub removals : List (ℕ × Option HostCallback)
removals = map (λ c. (resp_id c, none)) deinit_calls ++ ((evt_id Ids.ocb_frame, none) ∷ [])

-- What init comes to: a status, or the abort of ESP_ERROR_CHECK.
pub data Ended : Type 0 where
  returned : ℕ → Ended
  aborted : Ended

module _ {R : Type 0} (reg : HostRegistry R) where
  -- The registrations up to the first that fails, and its status.
  unfoldable pub register_until : List (ℕ × Option HostCallback) → R → ℕ × R
  register_until [] r = (esp_ok, r)
  register_until ((id, cb) ∷ bs) r =
      let (st, r') = reg.register id cb r in
      let rest = register_until bs r' in if st == esp_ok then rest else (st, r')

  -- The registrations, whatever their statuses.
  unfoldable pub register_each : List (ℕ × Option HostCallback) → R → R
  register_each [] r = r
  register_each ((id, cb) ∷ bs) r = register_each bs (reg.register id cb r).1

  unfoldable pub register_events : R → Ended × R
  unfolding register_until evt_id
  register_events r =
      let (st, r') = register_until event_bindings r in
      ((if st == esp_ok then returned esp_ok else aborted), r')

  unfoldable pub register_bindings : R → Ended × R
  unfolding register_until register_events resp_id
  register_bindings r =
      let (st, r') = register_until response_bindings r in
      if st == esp_ok then register_events r' else (returned st, r')

  -- The semaphores are new, so they hold no token.
  abbrev pub with_mutex : Host → Host
  with_mutex h = record h {
    ready = true;
    slots = map (λ (s : Slot). record s { done = false }) h.slots;
  }

  -- `created` is the answer of xSemaphoreCreateMutex.
  unfoldable pub init : Bool → Host × R → Ended × (Host × R)
  unfolding register_bindings
  init created (h, r) =
      if h.ready
      then (returned esp_err_invalid_state, (h, r))
      else if not created
      then (returned esp_err_no_mem, (h, r))
      else (let (e, r') = register_bindings r in (e, (with_mutex h, r')))

  unfoldable pub deinit : Host × R → ℕ × (Host × R)
  unfolding register_each resp_id evt_id
  deinit (h, r) = (esp_ok, (record h { ready = false }, register_each removals r))
