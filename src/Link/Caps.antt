-- ===== src/Link/Caps.antt =====
-- The capability bitmap end to end: what GET_CAPS sends (on_get_caps of
-- slave/components/phy_rpc_overlay/phy_rpc_handlers.c with its two fill_caps functions) is what
-- esp_hosted_open_has_capability (esp_hosted_open/src/phy_rpc.c) reads.
mod Bits
mod Served
use esp_hosted_open.Prelude.{
  ℕ, zero, suc, ◌/◌, ◌%◌, ◌^◌, ◌<◌, ◌≡◌, refl, ap, sym, ==_iff, ◌∙◌, Bool, true, false, ◌&&◌, ◌||◌,
  not, List, [], ◌∷◌, arith, bit_and, bit_or, ◌==◌, lt→ltb, if◌then◌else◌, length, set, length-set,
  replicate, Bool-cases, inl, inr,
}
use esp_hosted_open.Bytes.{u8, byte_at}
use esp_hosted_open.Proto.Ids
use esp_hosted_open.Proto.Ids.{Call, req_id}
use esp_hosted_open.Slave.{
  Chip, Sym, phy_enable_cca, phy_enable_low_rate, esp_ieee802154_disable,
  esp_ieee802154_set_channel, esp_ieee802154_set_panid, esp_ieee802154_set_promiscuous,
  esp_ieee802154_transmit, esp_ieee802154_enable, phy_agc_max_gain_set, phy_band_change,
  phy_band_sel, phy_bb_bss_cbw40, phy_bt_filter_reg, phy_bt_set_tx_gain_new, phy_bt_tx_gain_set,
  phy_chan14_mic_cfg_new, phy_chan_filt_set, phy_csidump_force_lltf_cfg, phy_disable_cca,
  phy_disable_low_rate, phy_force_rx_gain, phy_get_cca_cnt, phy_get_most_tpw, phy_get_noise_floor,
  phy_get_rssi, phy_get_sigrssi, phy_set_cca_cnt, phy_set_freq, phy_set_loopback_gain,
  phy_set_most_tpw, phy_set_rate, phy_set_rx_gain_table, phy_xpd_tsens,
}
use esp_hosted_open.Slave.Caps.{
  mark, mark_all, phy_marks, extras_marks, espnow_marks, i154_marks, phy_rpc_extras_fill_caps,
  phy_rpc_wireless_fill_caps, collect_caps,
}
use esp_hosted_open.Host.Api.{has_capability, is_set}
use esp_hosted_open.Link.Caps.Served.{is_served, is_partly_checked, checked_symbol, advertised}
use esp_hosted_open.Link.Caps.Bits.{
  all_below, all_below-lt, IsBitmap, bit_at, marked, marked-IsBitmap, bit_at-marked,
}

abbrev low_of : Call → ℕ
low_of c = bit_and (req_id c) 0xFF

low-lt : (c : Call) → low_of c < 128
unfolding req_id
low-lt Ids.set_channel = omega arith
low-lt Ids.set_freq = omega arith
low-lt Ids.set_band = omega arith
low-lt Ids.set_bandwidth = omega arith
low-lt Ids.set_chan_filt = omega arith
low-lt Ids.set_country_perm = omega arith
low-lt Ids.set_chan14_mic = omega arith
low-lt Ids.set_phy_11p = omega arith
low-lt Ids.set_rate = omega arith
low-lt Ids.set_low_rate = omega arith
low-lt Ids.set_tx_power = omega arith
low-lt Ids.set_most_tpw = omega arith
low-lt Ids.get_most_tpw = omega arith
low-lt Ids.set_rx_gain = omega arith
low-lt Ids.set_agc_max_gain = omega arith
low-lt Ids.reset_rx_gain_tbl = omega arith
low-lt Ids.set_cca = omega arith
low-lt Ids.get_cca_counters = omega arith
low-lt Ids.reset_cca_count = omega arith
low-lt Ids.get_phy_rssi = omega arith
low-lt Ids.get_noise_floor = omega arith
low-lt Ids.get_temperature = omega arith
low-lt Ids.set_csi_dump = omega arith
low-lt Ids.set_loopback = omega arith
low-lt Ids.set_bt_tx_gain = omega arith
low-lt Ids.set_bt_filter = omega arith
low-lt Ids.get_info = omega arith
low-lt Ids.get_caps = omega arith
low-lt Ids.tx_80211 = omega arith
low-lt Ids.set_promisc = omega arith
low-lt Ids.set_promisc_filter = omega arith
low-lt Ids.set_protocol = omega arith
low-lt Ids.set_mac = omega arith
low-lt Ids.set_csi_enable = omega arith
low-lt Ids.ftm_initiate = omega arith
low-lt Ids.espnow_init = omega arith
low-lt Ids.espnow_deinit = omega arith
low-lt Ids.espnow_add_peer = omega arith
low-lt Ids.espnow_del_peer = omega arith
low-lt Ids.espnow_send = omega arith
low-lt Ids.espnow_set_pmk = omega arith
low-lt Ids.ieee154_enable = omega arith
low-lt Ids.ieee154_set_chan = omega arith
low-lt Ids.ieee154_set_panid = omega arith
low-lt Ids.ieee154_set_promisc = omega arith
low-lt Ids.ieee154_tx_raw = omega arith
low-lt Ids.set_event_mask = omega arith
low-lt Ids.bt_set_preamble = omega arith
low-lt Ids.bt_set_address = omega arith
low-lt Ids.bt_set_crc_mode = omega arith
low-lt Ids.bt_burst_tx = omega arith

-- whether a sequence of MARKs sets bit i
abbrev marks : ℕ → List (Call × Bool) → Bool
marks i [] = false
marks i ((c, p) ∷ cs) = ((i == low_of c) && p) || marks i cs

mark-IsBitmap :
    (c : Call) (p : Bool) (caps : List ℕ) → IsBitmap caps → IsBitmap (mark (req_id c) p caps)
unfolding mark
mark-IsBitmap c true caps m =
    rw (lt→ltb (low_of c) 128 (low-lt c)) (marked-IsBitmap caps m (low_of c) (low-lt c))
mark-IsBitmap c false caps m = rw (lt→ltb (low_of c) 128 (low-lt c)) m

bit_at-mark :
    (i : ℕ) (c : Call) (p : Bool) (caps : List ℕ)
    → IsBitmap caps
    → i < 128
    → bit_at i (mark (req_id c) p caps) ≡ (((i == low_of c) && p) || bit_at i caps)
unfolding mark
bit_at-mark i c true caps m h =
    rw (lt→ltb (low_of c) 128 (low-lt c))
      (bit_at-marked caps m i (low_of c) h (low-lt c) ∙ ground arith)
bit_at-mark i c false caps m h = rw (lt→ltb (low_of c) 128 (low-lt c)) (ground arith)

mark_all-IsBitmap :
    (cs : List (Call × Bool)) (caps : List ℕ) → IsBitmap caps → IsBitmap (mark_all cs caps)
unfolding mark_all
mark_all-IsBitmap [] caps m = m
mark_all-IsBitmap ((c, p) ∷ cs) caps m =
    mark_all-IsBitmap cs (mark (req_id c) p caps) (mark-IsBitmap c p caps m)

or_swap : (a b c : Bool) → ((a || b) || c) ≡ ((b || (a || c)))
or_swap a b c = ground arith

bit_at-mark_all :
    (i : ℕ) (cs : List (Call × Bool)) (caps : List ℕ)
    → IsBitmap caps
    → i < 128
    → bit_at i (mark_all cs caps) ≡ (bit_at i caps || marks i cs)
unfolding mark_all
bit_at-mark_all i [] caps m h = ground arith
bit_at-mark_all i ((c, p) ∷ cs) caps m h =
    bit_at-mark_all i cs (mark (req_id c) p caps) (mark-IsBitmap c p caps m) h
    ∙ ap (λ b. b || marks i cs) (bit_at-mark i c p caps m h)
    ∙ or_swap ((i == low_of c) && p) (bit_at i caps) (marks i cs)

abbrev blank : List ℕ
blank = replicate 16 0

blank-bytes : (n k : ℕ) → byte_at (replicate n 0) k < 256
blank-bytes zero k = omega arith
blank-bytes (suc n) zero = omega arith
blank-bytes (suc n) (suc k) = blank-bytes n k

blank-IsBitmap : IsBitmap blank
blank-IsBitmap = record { sixteen = refl; bytes = blank-bytes 16 }

blank_ok : all_below 128 (λ i. not (bit_at i blank)) ≡ true
blank_ok = refl

blank_bit : (i : ℕ) → i < 128 → bit_at i blank ≡ false
blank_bit i h = ground (arith, all_below-lt 128 (λ k. not (bit_at k blank)) i blank_ok h)

or_false : (a : Bool) → a ≡ (a || false)
or_false a = ground arith

module _ (chip : Chip) where
  advertised_lem :
      (c : Call)
      → (((marks (low_of c) (phy_marks chip) || marks (low_of c) (extras_marks chip))
            || marks (low_of c) (espnow_marks chip))
          || (chip.present esp_ieee802154_enable && marks (low_of c) (i154_marks chip)))
        ≡ advertised chip c
  unfolding req_id
  advertised_lem Ids.set_channel = ground arith
  advertised_lem Ids.set_freq = ground arith
  advertised_lem Ids.set_band = ground arith
  advertised_lem Ids.set_bandwidth = ground arith
  advertised_lem Ids.set_chan_filt = ground arith
  advertised_lem Ids.set_country_perm = ground arith
  advertised_lem Ids.set_chan14_mic = ground arith
  advertised_lem Ids.set_phy_11p = ground arith
  advertised_lem Ids.set_rate = ground arith
  advertised_lem Ids.set_low_rate = ground arith
  advertised_lem Ids.set_tx_power = ground arith
  advertised_lem Ids.set_most_tpw = ground arith
  advertised_lem Ids.get_most_tpw = ground arith
  advertised_lem Ids.set_rx_gain = ground arith
  advertised_lem Ids.set_agc_max_gain = ground arith
  advertised_lem Ids.reset_rx_gain_tbl = ground arith
  advertised_lem Ids.set_cca = ground arith
  advertised_lem Ids.get_cca_counters = ground arith
  advertised_lem Ids.reset_cca_count = ground arith
  advertised_lem Ids.get_phy_rssi = ground arith
  advertised_lem Ids.get_noise_floor = ground arith
  advertised_lem Ids.get_temperature = ground arith
  advertised_lem Ids.set_csi_dump = ground arith
  advertised_lem Ids.set_loopback = ground arith
  advertised_lem Ids.set_bt_tx_gain = ground arith
  advertised_lem Ids.set_bt_filter = ground arith
  advertised_lem Ids.get_info = ground arith
  advertised_lem Ids.get_caps = ground arith
  advertised_lem Ids.tx_80211 = ground arith
  advertised_lem Ids.set_promisc = ground arith
  advertised_lem Ids.set_promisc_filter = ground arith
  advertised_lem Ids.set_protocol = ground arith
  advertised_lem Ids.set_mac = ground arith
  advertised_lem Ids.set_csi_enable = ground arith
  advertised_lem Ids.ftm_initiate = ground arith
  advertised_lem Ids.espnow_init = ground arith
  advertised_lem Ids.espnow_deinit = ground arith
  advertised_lem Ids.espnow_add_peer = ground arith
  advertised_lem Ids.espnow_del_peer = ground arith
  advertised_lem Ids.espnow_send = ground arith
  advertised_lem Ids.espnow_set_pmk = ground arith
  advertised_lem Ids.ieee154_enable = ground arith
  advertised_lem Ids.ieee154_set_chan = ground arith
  advertised_lem Ids.ieee154_set_panid = ground arith
  advertised_lem Ids.ieee154_set_promisc = ground arith
  advertised_lem Ids.ieee154_tx_raw = ground arith
  advertised_lem Ids.set_event_mask = ground arith
  advertised_lem Ids.bt_set_preamble = ground arith
  advertised_lem Ids.bt_set_address = ground arith
  advertised_lem Ids.bt_set_crc_mode = ground arith
  advertised_lem Ids.bt_burst_tx = ground arith

  wireless_bits :
      (i : ℕ) (caps : List ℕ)
      → IsBitmap caps
      → i < 128
      → bit_at i (phy_rpc_wireless_fill_caps chip caps) ≡ (
          (bit_at i caps || marks i (espnow_marks chip))
          || (chip.present esp_ieee802154_enable && marks i (i154_marks chip)))
  unfolding phy_rpc_wireless_fill_caps
  wireless_bits i caps m h = elim (Bool-cases (chip.present esp_ieee802154_enable)) [
    | inl y ↦ rw y (
        bit_at-mark_all i (i154_marks chip) (mark_all (espnow_marks chip) caps)
          (mark_all-IsBitmap (espnow_marks chip) caps m) h
        ∙ ap (λ b. b || marks i (i154_marks chip)) (bit_at-mark_all i (espnow_marks chip) caps m h))
    | inr n ↦ rw n (bit_at-mark_all i (espnow_marks chip) caps m h ∙ or_false _)
  ]

  collected_bits :
      (i : ℕ)
      → i < 128
      → bit_at i (collect_caps chip) ≡ (
          ((marks i (phy_marks chip) || marks i (extras_marks chip)) || marks i (espnow_marks chip))
          || (chip.present esp_ieee802154_enable && marks i (i154_marks chip)))
  unfolding collect_caps phy_rpc_extras_fill_caps
  collected_bits i h =
      let phy = mark_all-IsBitmap (phy_marks chip) blank blank-IsBitmap in
      let extras = mark_all-IsBitmap (extras_marks chip) (mark_all (phy_marks chip) blank) phy in
      wireless_bits i (mark_all (extras_marks chip) (mark_all (phy_marks chip) blank)) extras h
      ∙ ap
          (λ b.
            (b || marks i (espnow_marks chip))
            || (chip.present esp_ieee802154_enable && marks i (i154_marks chip)))
          (bit_at-mark_all i (extras_marks chip) (mark_all (phy_marks chip) blank) phy h
            ∙ ap (λ b. b || marks i (extras_marks chip))
                (bit_at-mark_all i (phy_marks chip) blank blank-IsBitmap h
                  ∙ ap (λ b. b || marks i (phy_marks chip)) (blank_bit i h)))

  -- For every request but seven, esp_hosted_open_has_capability on the sixteen bytes that GET_CAPS
  -- answers with is true exactly if its handler is linked with all the symbols that it needs, and never
  -- for the reserved requests. For SET_CCA and SET_LOW_RATE it says only whether the symbol that
  -- disables is linked, and for the five requests of 802.15.4 only whether esp_ieee802154_enable is. No
  -- bit of one request disturbs that of another.
  pub has_capability-collect_caps :
      (c : Call)
      → has_capability (req_id c) (collect_caps chip)
        ≡ (if is_partly_checked c then chip.present (checked_symbol c) else is_served chip c)
  unfolding has_capability
  has_capability-collect_caps c =
      ground (arith, low-lt c, collected_bits (low_of c) (low-lt c), advertised_lem c)
