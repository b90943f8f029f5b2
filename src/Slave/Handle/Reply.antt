-- ===== src/Slave/Handle/Reply.antt =====
-- Every request is answered once, or dropped if it is too short (phy_rpc_overlay's handlers together with
-- esp_hosted_send_custom_data of slave/main/slave_control.c).
use esp_hosted_open.Prelude.{
  ℕ, ◌≤◌, ◌<◌, ◌≡◌, refl, ◌≢◌, Bool, Option, none, some, List, [], ◌∷◌, arith, length, bit_and,
  bit_or, ◌/◌, ◌%◌, ◌^◌, length-set, replicate, ◌∙◌, le→ltb_false, lt→ltb, Option-cases, inl, inr,
}
use mathlib.Core.Path.{subst}
use esp_hosted_open.Bytes.{u8, byte_at, u32_at}
use esp_hosted_open.Status.{esp_ok}
use esp_hosted_open.Proto.Ids.{
  Call, req_id, resp_id, set_channel, set_phy_11p, set_tx_power, set_rx_gain, set_agc_max_gain,
  set_cca, get_cca_counters, reset_cca_count, set_low_rate, set_bandwidth, get_phy_rssi,
  set_country_perm, get_info, set_freq, set_band, set_chan_filt, set_chan14_mic, set_rate,
  set_most_tpw, get_most_tpw, reset_rx_gain_tbl, get_noise_floor, get_temperature, set_csi_dump,
  set_loopback, set_bt_tx_gain, set_bt_filter, get_caps, tx_80211, set_promisc, set_promisc_filter,
  set_protocol, set_mac, set_csi_enable, ftm_initiate, set_event_mask, espnow_init, espnow_deinit,
  espnow_set_pmk, espnow_add_peer, espnow_del_peer, espnow_send, ieee154_enable, ieee154_set_chan,
  ieee154_set_panid, ieee154_set_promisc, ieee154_tx_raw,
}
use esp_hosted_open.Slave.{Chip, Slave, Answer, simple, with_body, Action, HasMemory}
use esp_hosted_open.Slave.Send.{
  send_custom_data, send_simple_resp, send_resp_with_body, serve, answer, reply_bytes,
  send_simple_resp-sent, send_resp_with_body-sent,
}
use esp_hosted_open.Slave.Handle.{action, request_size, handle}
use esp_hosted_open.Slave.Phy.{
  on_set_channel, on_set_phy_11p, on_set_tx_power, on_set_rx_gain, on_set_agc_max_gain, on_set_cca,
  on_get_cca_counters, on_reset_cca_counters, on_set_low_rate, on_set_bandwidth, on_get_phy_rssi,
  on_set_country_permissive, on_get_info, on_set_freq, on_set_band, on_set_chan_filt,
  on_set_chan14_mic, on_set_rate, on_set_most_tpw, on_get_most_tpw, on_reset_rx_gain_table,
  on_get_noise_floor, on_get_temperature, on_set_csi_dump, on_set_loopback, on_set_bt_tx_gain,
  on_set_bt_filter,
}
use esp_hosted_open.Slave.Extras.{
  on_tx_80211, on_set_promisc, on_set_promisc_filter, on_set_protocol, on_set_mac,
  on_set_csi_enable, on_ftm_initiate, on_set_event_mask,
}
use esp_hosted_open.Slave.Wireless.{
  on_espnow_init, on_espnow_deinit, on_espnow_set_pmk, on_espnow_add_peer, on_espnow_del_peer,
  on_espnow_send, on_i154_enable, on_i154_set_chan, on_i154_set_panid, on_i154_set_promisc,
  on_i154_tx_raw,
}
use esp_hosted_open.Slave.Caps.{
  on_get_caps, mark, mark_all, collect_caps, caps_bytes, phy_marks, extras_marks, espnow_marks,
  i154_marks, phy_rpc_extras_fill_caps, phy_rpc_wireless_fill_caps,
}

abbrev pub body_of : Answer → List ℕ
body_of (simple st) = []
body_of (with_body st body) = body

abbrev pub status_of : Answer → ℕ
status_of (simple st) = st
status_of (with_body st body) = st

-- An action sends nothing itself, its answer fits, and it leaves the reported state alone unless its
-- status is ESP_OK.
abbrev IsQuiet : Slave → Answer × Slave → Type 0
IsQuiet s (a, s') =
    (s'.sent ≡ s.sent) × (length (body_of a) ≤ 8158) × (status_of a ≢ esp_ok → s'.state ≡ s.state)

abbrev QuietIf : Option Action → List ℕ → Slave → Type 0
QuietIf none req s = Unit
QuietIf (some a) req s = IsQuiet s (a req s)

length-mark : (id : ℕ) (p : Bool) (caps : List ℕ) → length (mark id p caps) ≡ length caps
unfolding mark
length-mark id p caps = ground (
  arith,
  length-set caps (bit_and id 0xFF / 8)
      (u8 (bit_or (byte_at caps (bit_and id 0xFF / 8)) (2 ^ (bit_and id 0xFF % 8)))),
)

length-mark_all :
    (cs : List (Call × Bool)) (caps : List ℕ) → length (mark_all cs caps) ≡ length caps
unfolding mark_all
length-mark_all [] caps = refl
length-mark_all ((c, p) ∷ cs) caps =
    length-mark_all cs (mark (req_id c) p caps) ∙ length-mark (req_id c) p caps

module _ (chip : Chip) where
  pub length-collect_caps : length (collect_caps chip) ≡ 16
  unfolding collect_caps phy_rpc_wireless_fill_caps phy_rpc_extras_fill_caps
  length-collect_caps = ground (
    arith,
    length-mark_all (phy_marks chip) (replicate caps_bytes 0),
    length-mark_all (extras_marks chip) (mark_all (phy_marks chip) (replicate caps_bytes 0)),
    length-mark_all (espnow_marks chip)
        (mark_all (extras_marks chip) (mark_all (phy_marks chip) (replicate caps_bytes 0))),
    length-mark_all (i154_marks chip) (
        mark_all (espnow_marks chip)
          (mark_all (extras_marks chip) (mark_all (phy_marks chip) (replicate caps_bytes 0)))),
  )

  action-IsQuiet : (c : Call) (req : List ℕ) (s : Slave) → QuietIf (action chip c) req s
  unfolding action on_set_channel on_set_phy_11p on_set_tx_power on_set_rx_gain on_set_agc_max_gain
      on_set_cca on_get_cca_counters on_reset_cca_counters on_set_low_rate on_set_bandwidth
      on_get_phy_rssi on_set_country_permissive on_get_info on_set_freq on_set_band on_set_chan_filt
      on_set_chan14_mic on_set_rate on_set_most_tpw on_get_most_tpw on_reset_rx_gain_table
      on_get_noise_floor on_get_temperature on_set_csi_dump on_set_loopback on_set_bt_tx_gain
      on_set_bt_filter on_get_caps on_tx_80211 on_set_promisc on_set_promisc_filter on_set_protocol
      on_set_mac on_set_csi_enable on_ftm_initiate on_set_event_mask on_espnow_init on_espnow_deinit
      on_espnow_set_pmk on_espnow_add_peer on_espnow_del_peer on_espnow_send on_i154_enable
      on_i154_set_chan on_i154_set_panid on_i154_set_promisc on_i154_tx_raw
  action-IsQuiet set_channel req s = ground arith
  action-IsQuiet set_phy_11p req s = ground arith
  action-IsQuiet set_tx_power req s = ground arith
  action-IsQuiet set_rx_gain req s = ground arith
  action-IsQuiet set_agc_max_gain req s = ground arith
  action-IsQuiet set_cca req s = ground arith
  action-IsQuiet get_cca_counters req s = ground arith
  action-IsQuiet reset_cca_count req s = ground arith
  action-IsQuiet set_low_rate req s = ground arith
  action-IsQuiet set_bandwidth req s = ground arith
  action-IsQuiet get_phy_rssi req s = ground arith
  action-IsQuiet set_country_perm req s = ground arith
  action-IsQuiet get_info req s = ground arith
  action-IsQuiet set_freq req s = ground arith
  action-IsQuiet set_band req s = ground arith
  action-IsQuiet set_chan_filt req s = ground arith
  action-IsQuiet set_chan14_mic req s = ground arith
  action-IsQuiet set_rate req s = ground arith
  action-IsQuiet set_most_tpw req s = ground arith
  action-IsQuiet get_most_tpw req s = ground arith
  action-IsQuiet reset_rx_gain_tbl req s = ground arith
  action-IsQuiet get_noise_floor req s = ground arith
  action-IsQuiet get_temperature req s = ground arith
  action-IsQuiet set_csi_dump req s = ground arith
  action-IsQuiet set_loopback req s = ground arith
  action-IsQuiet set_bt_tx_gain req s = ground arith
  action-IsQuiet set_bt_filter req s = ground arith
  action-IsQuiet get_caps req s = (refl, omega (arith, length-collect_caps), λ n. refl)
  action-IsQuiet tx_80211 req s = ground arith
  action-IsQuiet set_promisc req s = ground arith
  action-IsQuiet set_promisc_filter req s = ground arith
  action-IsQuiet set_protocol req s = ground arith
  action-IsQuiet set_mac req s = ground arith
  action-IsQuiet set_csi_enable req s = ground arith
  action-IsQuiet ftm_initiate req s = ground arith
  action-IsQuiet set_event_mask req s = ground arith
  action-IsQuiet espnow_init req s = ground arith
  action-IsQuiet espnow_deinit req s = ground arith
  action-IsQuiet espnow_set_pmk req s = ground arith
  action-IsQuiet espnow_add_peer req s = ground arith
  action-IsQuiet espnow_del_peer req s = ground arith
  action-IsQuiet espnow_send req s = ground arith
  action-IsQuiet ieee154_enable req s = ground arith
  action-IsQuiet ieee154_set_chan req s = ground arith
  action-IsQuiet ieee154_set_panid req s = ground arith
  action-IsQuiet ieee154_set_promisc req s = ground arith
  action-IsQuiet ieee154_tx_raw req s = ground arith
  action-IsQuiet _ req s = tt

  answer-sent :
      (id op : ℕ) (r : Answer × Slave)
      → HasMemory chip
      → length (body_of r.0) ≤ 8158
      → answer chip id op r
        ≡ record (r.1) { sent = reply_bytes id op (status_of r.0) (body_of r.0) ∷ r.1.sent }
  answer-sent id op (simple st, s) m h = send_simple_resp-sent chip id op st s m
  answer-sent id op (with_body st body, s) m h = send_resp_with_body-sent chip id op st body s m h

  quiet :
      (c : Call) (a : Action) (req : List ℕ) (s : Slave)
      → action chip c ≡ some a
      → IsQuiet s (a req s)
  quiet c a req s e = subst (λ o. QuietIf o req s) e (action-IsQuiet c req s)

  -- A request at least as long as its struct gets exactly one answer, provided memory: it carries the
  -- response id that belongs to the request, the request's op_id, and the status and the body that
  -- the handler's action comes to. The state that GET_INFO reports changes only if the status is
  -- ESP_OK.
  pub handle_reply :
      (c : Call) (a : Action) (req : List ℕ) (s : Slave)
      → HasMemory chip
      → action chip c ≡ some a
      → request_size c ≤ length req
      → ((handle chip c req s).sent
          ≡ reply_bytes (resp_id c) (u32_at req 0) (status_of (a req s).0) (body_of (a req s).0)
            ∷ s.sent)
        × (status_of (a req s).0 ≢ esp_ok → (handle chip c req s).state ≡ s.state)
  unfolding handle serve
  handle_reply c a req s m e h =
      let (same, fits, kept) = quiet c a req s e in
      rw (e, le→ltb_false (length req) (request_size c) h)
        (
          rw (answer-sent (resp_id c) (u32_at req 0) (a req s) m fits, same),
          λ ne. rw (answer-sent (resp_id c) (u32_at req 0) (a req s) m fits) (kept ne),
        )

  -- A request shorter than its struct changes nothing and is not answered, whatever the request.
  pub handle_short :
      (c : Call) (req : List ℕ) (s : Slave) → length req < request_size c → handle chip c req s ≡ s
  unfolding handle serve
  handle_short c req s h = elim (Option-cases (action chip c)) [
    | inl n ↦ rw n
    | inr (a, e) ↦ rw (e, lt→ltb (length req) (request_size c) h)
  ]

  send-log :
      (id op st : ℕ) (body : List ℕ) (s : Slave)
      → ((send_simple_resp chip id op st s).log ≡ s.log)
        × ((send_resp_with_body chip id op st body s).log ≡ s.log)
  unfolding send_simple_resp send_resp_with_body send_custom_data
  send-log id op st body s = (ground arith, ground arith)

  answer-log : (id op : ℕ) (r : Answer × Slave) → (answer chip id op r).log ≡ r.1.log
  answer-log id op (simple st, s) = (send-log id op st [] s).0
  answer-log id op (with_body st body, s) = (send-log id op st body s).1

  -- The calls that a handler makes, answered or not, are those of its action.
  pub handle-log :
      (c : Call) (a : Action) (req : List ℕ) (s : Slave)
      → action chip c ≡ some a
      → request_size c ≤ length req
      → (handle chip c req s).log ≡ (a req s).1.log
  unfolding handle serve
  handle-log c a req s e h =
      rw (e, le→ltb_false (length req) (request_size c) h)
        (answer-log (resp_id c) (u32_at req 0) (a req s))
