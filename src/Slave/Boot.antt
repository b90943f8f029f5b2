-- ===== src/Slave/Boot.antt =====
-- What the co-processor does to its radio at boot and whenever Wi-Fi comes up
-- (slave/components/phy_rpc_overlay/phy_rpc_overlay.c).
use esp_hosted_open.Prelude.{ℕ, ◌≡◌, ◌≢◌, Bool, true, ◌∷◌, arith, ◌==◌, if◌then◌else◌}
use esp_hosted_open.Bytes.{u8, u32}
use esp_hosted_open.Status.{esp_ok}
use esp_hosted_open.Slave.{
  Chip, Slave, ask, run, phy_11p_set, phy_change_channel, wifi_set_country, wifi_set_channel,
  wifi_set_ps_none,
}

module _ (chip : Chip) where
  -- The bootstrap channel and the tuning, once the country is set and 11p armed.
  unfoldable pub tune : ℕ → Slave → ℕ × Slave
  tune channel s =
      let (err, s') = ask chip (wifi_set_channel 140) s in
      if err == esp_ok
      then (esp_ok, run chip wifi_set_ps_none (run chip (phy_change_channel channel) s'))
      else (err, s')

  unfoldable pub slave_phy_apply : ℕ → Slave → ℕ × Slave
  unfolding tune
  slave_phy_apply channel s =
      let (err, s') = ask chip wifi_set_country s in
      if err == esp_ok then tune channel (run chip (phy_11p_set 1) s') else (err, s')

  -- on_wifi_event. `ready` tells whether the event is WIFI_EVENT_WIFI_READY.
  unfoldable pub on_wifi_event : ℕ → Bool → Slave → Slave
  unfolding slave_phy_apply
  on_wifi_event configured ready s = if ready then (slave_phy_apply (u8 configured) s).1 else s

  -- At every WIFI_READY event the radio is set up again: if the driver accepts the country and the
  -- bootstrap channel, 11p is armed after the country and before the channels, and the radio is
  -- tuned last but for power saving; if it refuses the country nothing else is called, and if it
  -- refuses the channel the radio is not tuned.
  pub on_wifi_event_lem :
      (configured : ℕ) (s : Slave)
      → (u32 (chip.reply s.log wifi_set_country) ≢ esp_ok
          → (on_wifi_event configured true s).log ≡ wifi_set_country ∷ s.log)
        × (u32 (chip.reply s.log wifi_set_country) ≡ esp_ok
            → u32 (chip.reply (phy_11p_set 1 ∷ wifi_set_country ∷ s.log) (wifi_set_channel 140))
              ≢ esp_ok
            → (on_wifi_event configured true s).log
              ≡ wifi_set_channel 140 ∷ phy_11p_set 1 ∷ wifi_set_country ∷ s.log)
        × (u32 (chip.reply s.log wifi_set_country) ≡ esp_ok
            → u32 (chip.reply (phy_11p_set 1 ∷ wifi_set_country ∷ s.log) (wifi_set_channel 140))
              ≡ esp_ok
            → (on_wifi_event configured true s).log
              ≡ wifi_set_ps_none
                ∷ phy_change_channel (u8 configured)
                ∷ wifi_set_channel 140
                ∷ phy_11p_set 1
                ∷ wifi_set_country
                ∷ s.log)
  unfolding on_wifi_event slave_phy_apply tune
  on_wifi_event_lem configured s = (λ a. ground arith, λ a b. ground arith, λ a b. ground arith)
