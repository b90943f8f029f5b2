-- ===== src/Slave/Phy.antt =====
-- The PHY-control requests (slave/components/phy_rpc_overlay/phy_rpc_handlers.c). For each handler, what
-- it does between unpacking the request and sending the answer; `Handle` puts the frame around it.
use esp_hosted_open.Prelude.{
  ℕ, ◌*◌, Bool, ◌&&◌, ◌||◌, not, List, [], ◌∷◌, ◌++◌, ltb, leb, ◌==◌, if◌then◌else◌, replicate,
}
use esp_hosted_open.Bytes.{u8, le32, byte_at, u32_at}
use esp_hosted_open.Status.{esp_ok, esp_err_invalid_arg, esp_err_not_supported}
use esp_hosted_open.Slave.{
  Sym, Chip, Action, Slave, Answer, simple, with_body, ask, run, run_if, hook_opt, with_status,
  weak, phy_11p_set, phy_change_channel, wifi_set_country, wifi_set_channel, wifi_set_max_tx_power,
  phy_force_rx_gain, phy_rx_gain_force, phy_disable_agc, phy_enable_agc, phy_agc_max_gain_set,
  phy_disable_cca, phy_enable_cca, phy_set_cca_cnt, phy_get_cca_cnt, phy_get_rssi, phy_get_sigrssi,
  phy_disable_low_rate, phy_enable_low_rate, phy_bb_bss_cbw40, phy_set_freq, phy_band_change,
  phy_band_sel, phy_chan_filt_set, phy_chan14_mic_cfg_new, phy_set_rate, phy_set_most_tpw,
  phy_get_most_tpw, phy_set_rx_gain_table, phy_get_noise_floor, phy_xpd_tsens,
  phy_csidump_force_lltf_cfg, phy_set_loopback_gain, phy_bt_set_tx_gain_new, phy_bt_tx_gain_set,
  phy_bt_filter_reg,
}

-- r->enable ? 1 : 0
abbrev pub flag : ℕ → ℕ
flag b = if b == 0 then 0 else 1

-- An int8_t as a bit pattern: whether it is negative.
abbrev pub is_negative8 : ℕ → Bool
is_negative8 q = leb 128 q

-- int8_t q = r->dbm * 4; if (q < 8) q = 8; if (q > 84) q = 84;
unfoldable pub power_quarters : ℕ → ℕ
power_quarters dbm =
    let q = u8 (dbm * 4) in
    let q' : ℕ = if is_negative8 q || ltb q 8 then 8 else q in
    if not (is_negative8 q') && ltb 84 q' then 84 else q'

abbrev pub fw_version : List ℕ
fw_version =
    101
    ∷ 115
    ∷ 112
    ∷ 45
    ∷ 104
    ∷ 111
    ∷ 115
    ∷ 116
    ∷ 101
    ∷ 100
    ∷ 45
    ∷ 111
    ∷ 112
    ∷ 101
    ∷ 110
    ∷ 32
    ∷ 115
    ∷ 108
    ∷ 97
    ∷ 118
    ∷ 101
    ∷ 32
    ∷ 48
    ∷ 46
    ∷ 49
    ∷ replicate 7 0

module _ (chip : Chip) where
  -- int8_t v = (int8_t)f(); sent with ESP_OK, or NOT_SUPPORTED alone if f is NULL
  abbrev pub read_byte : Sym → Slave → Answer × Slave
  read_byte f s =
      if chip.present f
      then (let (v, s') = ask chip (weak f 0) s in (with_body esp_ok (u8 v ∷ []), s'))
      else (simple esp_err_not_supported, s)

  -- the first of two symbols that the chip has
  abbrev pub either_of : Sym → Sym → ℕ → Slave → ℕ × Slave
  either_of f g arg s =
      if chip.present f then (esp_ok, run chip (weak f arg) s) else hook_opt chip g arg s

  unfoldable pub on_set_channel : Action
  on_set_channel req s =
      let (err, s') = ask chip (wifi_set_channel 140) (run chip wifi_set_country s) in
      let c = byte_at req 4 in
      (
        simple err,
        if err == esp_ok
            then (let s'' = run chip (phy_change_channel c) s' in
                record s'' { state = record (s''.state) { channel = c } })
            else s',
      )

  unfoldable pub on_set_phy_11p : Action
  on_set_phy_11p req s =
      let s' = run chip (phy_11p_set (flag (byte_at req 4))) s in
      (
        simple esp_ok,
        record s' { state = record (s'.state) { phy_11p_armed = flag (byte_at req 4) } },
      )

  unfoldable pub on_set_tx_power : Action
  unfolding power_quarters
  on_set_tx_power req s =
      let dbm = byte_at req 4 in
      let (err, s') = ask chip (wifi_set_max_tx_power (power_quarters dbm)) s in
      (
        simple err,
        if err == esp_ok
            then record s' { state = record (s'.state) { tx_power_dbm = dbm } }
            else s',
      )

  unfoldable pub on_set_rx_gain : Action
  on_set_rx_gain req s =
      let gain = byte_at req 4 in
      if gain == 0xFF
      then (simple esp_ok, run_if chip phy_rx_gain_force 0 (run_if chip phy_enable_agc 0 s))
      else with_status (
          hook_opt chip phy_force_rx_gain gain
            (run_if chip phy_rx_gain_force 1 (run_if chip phy_disable_agc 0 s)))

  unfoldable pub on_set_agc_max_gain : Action
  on_set_agc_max_gain req s =
      let gain = byte_at req 4 in
      if chip.present phy_agc_max_gain_set
      then (let s' = run chip (weak phy_agc_max_gain_set gain) s in
          (simple esp_ok, record s' { state = record (s'.state) { agc_max_gain = gain } }))
      else (simple esp_err_not_supported, s)

  unfoldable pub on_set_cca : Action
  on_set_cca req s =
      let on = byte_at req 4 in
      let (st, s') =
        if on == 0 then hook_opt chip phy_disable_cca 0 s else hook_opt chip phy_enable_cca 0 s in
      (
        simple st,
        if st == esp_ok
            then record s' { state = record (s'.state) { cca_enabled = flag on } }
            else s',
      )

  unfoldable pub on_get_cca_counters : Action
  unfolding le32
  on_get_cca_counters req s =
      if chip.present phy_get_cca_cnt
      then (let (busy, s') = ask chip (weak phy_get_cca_cnt 0) s in
          (with_body esp_ok (le32 busy ++ le32 0), s'))
      else (simple esp_err_not_supported, s)

  unfoldable pub on_reset_cca_counters : Action
  on_reset_cca_counters req s = with_status (hook_opt chip phy_set_cca_cnt 0 s)

  unfoldable pub on_set_low_rate : Action
  on_set_low_rate req s =
      let on = byte_at req 4 in
      let (st, s') =
        if on == 0
        then hook_opt chip phy_disable_low_rate 0 s
        else hook_opt chip phy_enable_low_rate 0 s in
      (
        simple st,
        if st == esp_ok
            then record s' { state = record (s'.state) { low_rate_enabled = flag on } }
            else s',
      )

  unfoldable pub on_set_bandwidth : Action
  on_set_bandwidth req s =
      let bw = byte_at req 4 in
      if not (chip.present phy_bb_bss_cbw40)
      then (simple esp_err_not_supported, s)
      else if bw == 40
      then (simple esp_ok, run chip (weak phy_bb_bss_cbw40 1) s)
      else if bw == 20
      then (simple esp_ok, run chip (weak phy_bb_bss_cbw40 0) s)
      else (simple esp_err_invalid_arg, s)

  -- INT8_MIN stands for "no symbol", and is answered with NOT_SUPPORTED also when it was read.
  abbrev pub rssi_answer : ℕ × Slave → Answer × Slave
  rssi_answer (rssi, s) =
      (with_body (if rssi == 128 then esp_err_not_supported else esp_ok) (rssi ∷ []), s)

  abbrev pub ask_byte : Sym → Slave → ℕ × Slave
  ask_byte f s = let (v, s') = ask chip (weak f 0) s in (u8 v, s')

  unfoldable pub on_get_phy_rssi : Action
  on_get_phy_rssi req s = rssi_answer (
      if chip.present phy_get_sigrssi
      then ask_byte phy_get_sigrssi s
      else if chip.present phy_get_rssi
      then ask_byte phy_get_rssi s
      else (128, s))

  unfoldable pub on_set_country_permissive : Action
  on_set_country_permissive req s = with_status (ask chip wifi_set_country s)

  unfoldable pub on_get_info : Action
  on_get_info req s =
      let t = s.state in
      (
        with_body esp_ok (
            t.channel ∷ t.tx_power_dbm ∷ t.phy_11p_armed ∷ t.cca_enabled ∷ t.low_rate_enabled
            ∷ t.agc_max_gain ∷ 0 ∷ 0 ∷ fw_version),
        s,
      )

  unfoldable pub on_set_freq : Action
  unfolding u32_at
  on_set_freq req s = with_status (hook_opt chip phy_set_freq (u32_at req 4) s)

  unfoldable pub on_set_band : Action
  on_set_band req s = with_status (either_of phy_band_change phy_band_sel (byte_at req 4) s)

  unfoldable pub on_set_chan_filt : Action
  unfolding u32_at
  on_set_chan_filt req s = with_status (hook_opt chip phy_chan_filt_set (u32_at req 4) s)

  unfoldable pub on_set_chan14_mic : Action
  on_set_chan14_mic req s = with_status (hook_opt chip phy_chan14_mic_cfg_new (byte_at req 4) s)

  unfoldable pub on_set_rate : Action
  on_set_rate req s = with_status (hook_opt chip phy_set_rate (byte_at req 4) s)

  unfoldable pub on_set_most_tpw : Action
  on_set_most_tpw req s = with_status (hook_opt chip phy_set_most_tpw (byte_at req 4) s)

  unfoldable pub on_get_most_tpw : Action
  on_get_most_tpw req s = read_byte phy_get_most_tpw s

  unfoldable pub on_reset_rx_gain_table : Action
  on_reset_rx_gain_table req s = with_status (hook_opt chip phy_set_rx_gain_table 0 s)

  unfoldable pub on_get_noise_floor : Action
  on_get_noise_floor req s = read_byte phy_get_noise_floor s

  unfoldable pub on_get_temperature : Action
  on_get_temperature req s = read_byte phy_xpd_tsens s

  unfoldable pub on_set_csi_dump : Action
  on_set_csi_dump req s = with_status (hook_opt chip phy_csidump_force_lltf_cfg (byte_at req 4) s)

  unfoldable pub on_set_loopback : Action
  on_set_loopback req s = with_status (hook_opt chip phy_set_loopback_gain (byte_at req 4) s)

  unfoldable pub on_set_bt_tx_gain : Action
  on_set_bt_tx_gain req s =
      with_status (either_of phy_bt_set_tx_gain_new phy_bt_tx_gain_set (byte_at req 4) s)

  unfoldable pub on_set_bt_filter : Action
  unfolding u32_at
  on_set_bt_filter req s = with_status (hook_opt chip phy_bt_filter_reg (u32_at req 4) s)
