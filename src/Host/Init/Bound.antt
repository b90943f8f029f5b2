-- ===== src/Host/Init/Bound.antt =====
-- The requests and events of esp_hosted_open/include/phy_rpc_proto.h against what
-- esp_hosted_open_init binds (esp_hosted_open/src/phy_rpc.c).
use esp_hosted_open.Prelude.{◌≡◌, refl, ◌∙◌, Bool, true, false, Option, some, ◌++◌, if◌then◌else◌}
use esp_hosted_open.Status.{esp_ok}
use esp_hosted_open.Proto.Ids
use esp_hosted_open.Proto.Ids.{Call, Evt, resp_id, evt_id}
use esp_hosted_open.Host.Inflight.{Host}
use esp_hosted_open.Host.Init.{
  HostCallback, on_response, on_event, HostRegistry, response_bindings, event_bindings, returned,
  with_mutex, init,
}
use esp_hosted_open.Host.Init.Bindings.{last_binding, init_bindings}

-- the reserved BT_* requests, which the host has no call for
abbrev pub is_reserved : Call → Bool
is_reserved Ids.bt_set_preamble = true
is_reserved Ids.bt_set_address = true
is_reserved Ids.bt_set_crc_mode = true
is_reserved Ids.bt_burst_tx = true
is_reserved _ = false

-- the event PHY_STATE, which the host has no function for
abbrev pub is_silent : Evt → Bool
is_silent Ids.phy_state = true
is_silent _ = false

binding_of_call :
    (c : Call) (d : Option HostCallback)
    → last_binding (resp_id c) (response_bindings ++ event_bindings) d
      ≡ (if is_reserved c then d else some on_response)
unfolding resp_id evt_id
binding_of_call Ids.set_channel d = refl
binding_of_call Ids.set_freq d = refl
binding_of_call Ids.set_band d = refl
binding_of_call Ids.set_bandwidth d = refl
binding_of_call Ids.set_chan_filt d = refl
binding_of_call Ids.set_country_perm d = refl
binding_of_call Ids.set_chan14_mic d = refl
binding_of_call Ids.set_phy_11p d = refl
binding_of_call Ids.set_rate d = refl
binding_of_call Ids.set_low_rate d = refl
binding_of_call Ids.set_tx_power d = refl
binding_of_call Ids.set_most_tpw d = refl
binding_of_call Ids.get_most_tpw d = refl
binding_of_call Ids.set_rx_gain d = refl
binding_of_call Ids.set_agc_max_gain d = refl
binding_of_call Ids.reset_rx_gain_tbl d = refl
binding_of_call Ids.set_cca d = refl
binding_of_call Ids.get_cca_counters d = refl
binding_of_call Ids.reset_cca_count d = refl
binding_of_call Ids.get_phy_rssi d = refl
binding_of_call Ids.get_noise_floor d = refl
binding_of_call Ids.get_temperature d = refl
binding_of_call Ids.set_csi_dump d = refl
binding_of_call Ids.set_loopback d = refl
binding_of_call Ids.set_bt_tx_gain d = refl
binding_of_call Ids.set_bt_filter d = refl
binding_of_call Ids.get_info d = refl
binding_of_call Ids.get_caps d = refl
binding_of_call Ids.tx_80211 d = refl
binding_of_call Ids.set_promisc d = refl
binding_of_call Ids.set_promisc_filter d = refl
binding_of_call Ids.set_protocol d = refl
binding_of_call Ids.set_mac d = refl
binding_of_call Ids.set_csi_enable d = refl
binding_of_call Ids.ftm_initiate d = refl
binding_of_call Ids.espnow_init d = refl
binding_of_call Ids.espnow_deinit d = refl
binding_of_call Ids.espnow_add_peer d = refl
binding_of_call Ids.espnow_del_peer d = refl
binding_of_call Ids.espnow_send d = refl
binding_of_call Ids.espnow_set_pmk d = refl
binding_of_call Ids.ieee154_enable d = refl
binding_of_call Ids.ieee154_set_chan d = refl
binding_of_call Ids.ieee154_set_panid d = refl
binding_of_call Ids.ieee154_set_promisc d = refl
binding_of_call Ids.ieee154_tx_raw d = refl
binding_of_call Ids.set_event_mask d = refl
binding_of_call Ids.bt_set_preamble d = refl
binding_of_call Ids.bt_set_address d = refl
binding_of_call Ids.bt_set_crc_mode d = refl
binding_of_call Ids.bt_burst_tx d = refl

binding_of_event :
    (v : Evt) (d : Option HostCallback)
    → last_binding (evt_id v) (response_bindings ++ event_bindings) d
      ≡ (if is_silent v then d else some (on_event v))
unfolding resp_id evt_id
binding_of_event Ids.ocb_frame d = refl
binding_of_event Ids.phy_state d = refl
binding_of_event Ids.raw_frame d = refl
binding_of_event Ids.csi d = refl
binding_of_event Ids.ftm_report d = refl
binding_of_event Ids.espnow_rx d = refl
binding_of_event Ids.espnow_tx_status d = refl
binding_of_event Ids.ieee154_rx d = refl

module _ {R : Type 0} (reg : HostRegistry R) where
  -- A successful esp_hosted_open_init starts from a layer that is down, and leaves it up with no token in
  -- any slot. The response id of every request of the protocol is bound to on_response, but for the four
  -- reserved BT_* requests, whose binding stays as it was, and the id of every event but PHY_STATE to the
  -- event's own function.
  pub init-all_bound :
      (created : Bool) (h : Host) (r : R) (c : Call) (v : Evt)
      → (init reg created (h, r)).0 ≡ returned esp_ok
      → (h.ready ≡ false)
        × ((init reg created (h, r)).1.0 ≡ with_mutex reg h)
        × (reg.lookup (resp_id c) (init reg created (h, r)).1.1
            ≡ (if is_reserved c then reg.lookup (resp_id c) r else some on_response))
        × (reg.lookup (evt_id v) (init reg created (h, r)).1.1
            ≡ (if is_silent v then reg.lookup (evt_id v) r else some (on_event v)))
  init-all_bound created h r c v e =
      let (down, up, call) = init_bindings reg created h r (resp_id c) e in
      (
        down,
        up,
        call ∙ binding_of_call c (reg.lookup (resp_id c) r),
        (init_bindings reg created h r (evt_id v) e).2
            ∙ binding_of_event v (reg.lookup (evt_id v) r),
      )
