-- ===== src/Link/Addresses.antt =====
-- Requests that carry an address or a key, from the host's call to the co-processor's driver.
use esp_hosted_open.Prelude.{
  ℕ, ◌≡◌, refl, ◌∙◌, Bool, true, false, Option, some, List, [], ◌∷◌, ◌++◌, arith, length, take,
  if◌then◌else◌,
}
use esp_hosted_open.Bytes.{u8, le32}
use esp_hosted_open.Proto.Ids
use esp_hosted_open.Slave.{
  Chip, Slave, wifi_set_mac, wifi_ftm_initiate_session, esp_now_add_peer, event_handler_register,
}
use esp_hosted_open.Slave.Extras.{on_set_mac, on_ftm_initiate, interface_of}
use esp_hosted_open.Slave.Wireless.{on_espnow_add_peer}
use esp_hosted_open.Slave.Handle.{handle, action, request_size}
use esp_hosted_open.Host.Api.{set_mac, ftm_initiate, espnow_add_peer, lmk_or_zeros, bool_byte}
use esp_hosted_open.Link.{request_of}
use esp_hosted_open.Link.Frames.{handled}

module _ (chip : Chip) (s : Slave) (op : ℕ) where
  -- The six bytes of an address that esp_hosted_open_set_mac is given are what the co-processor sets, on
  -- the AP interface for 1 (modulo 256) and on STA for every other number.
  pub set_mac_exact :
      (wifi_if : ℕ) (m : List ℕ)
      → length m ≡ 6
      → (handle chip Ids.set_mac (le32 op ++ request_of (set_mac wifi_if (some m))) s).log
        ≡ wifi_set_mac (interface_of (u8 wifi_if)) m ∷ s.log
  unfolding action request_size set_mac on_set_mac le32
  set_mac_exact wifi_if (a ∷ b ∷ c ∷ d ∷ e ∷ f ∷ []) six =
      handled chip s op Ids.set_mac (on_set_mac chip)
        (le32 op ++ request_of (set_mac wifi_if (some (a ∷ b ∷ c ∷ d ∷ e ∷ f ∷ [])))) refl
        (omega arith)
  set_mac_exact wifi_if m six = absurd (omega arith)

  -- esp_hosted_open_ftm_initiate starts a session with the peer, the count, the period and the channel
  -- that it is given, each number modulo 256; before the first session the co-processor subscribes
  -- to the reports.
  pub ftm_initiate_exact :
      (m : List ℕ) (frames period channel : ℕ)
      → length m ≡ 6
      → (handle chip Ids.ftm_initiate
          (le32 op ++ request_of (ftm_initiate (some m) frames period channel))
          s).log
        ≡ wifi_ftm_initiate_session m (u8 frames) (u8 period) (u8 channel)
          ∷ (if s.ftm_handler then s.log else event_handler_register ∷ s.log)
  unfolding action request_size ftm_initiate on_ftm_initiate le32
  ftm_initiate_exact (a ∷ b ∷ c ∷ d ∷ e ∷ f ∷ []) frames period channel six =
      handled chip s op Ids.ftm_initiate (on_ftm_initiate chip)
        (le32 op
          ++ request_of (ftm_initiate (some (a ∷ b ∷ c ∷ d ∷ e ∷ f ∷ [])) frames period channel))
        refl (omega arith)
      ∙ ground arith
  ftm_initiate_exact m frames period channel six = absurd (omega arith)

  add_peer-body :
      (m k : List ℕ) (channel wifi_if : ℕ) (encrypt : Bool)
      → length m ≡ 6
      → length k ≡ 16
      → (handle chip Ids.espnow_add_peer
          (le32 op ++ (take 6 m ++ (k ++ (u8 channel ∷ u8 wifi_if ∷ bool_byte encrypt ∷ 0 ∷ []))))
          s).log
        ≡ esp_now_add_peer m k (u8 channel) (interface_of (u8 wifi_if)) encrypt ∷ s.log
  unfolding action request_size on_espnow_add_peer le32
  add_peer-body (a ∷ b ∷ c ∷ d ∷ e ∷ f ∷ [])
        (k0 ∷ k1 ∷ k2 ∷ k3 ∷ k4 ∷ k5 ∷ k6 ∷ k7 ∷ k8 ∷ k9 ∷ k10 ∷ k11 ∷ k12 ∷ k13 ∷ k14 ∷ k15 ∷ [])
        channel wifi_if encrypt six key =
      handled chip s op Ids.espnow_add_peer (on_espnow_add_peer chip)
        (le32 op
          ++ ((a ∷ b ∷ c ∷ d ∷ e ∷ f ∷ [])
              ++ ((k0 ∷ k1 ∷ k2 ∷ k3 ∷ k4 ∷ k5 ∷ k6 ∷ k7 ∷ k8 ∷ k9 ∷ k10 ∷ k11 ∷ k12 ∷ k13 ∷ k14
                    ∷ k15 ∷ [])
                  ++ (u8 channel ∷ u8 wifi_if ∷ bool_byte encrypt ∷ 0 ∷ []))))
        refl (omega arith)
      ∙ flag_read encrypt
    where
      flag_read :
          (en : Bool)
          → (on_espnow_add_peer chip
              (le32 op
                ++ ((a ∷ b ∷ c ∷ d ∷ e ∷ f ∷ [])
                    ++ ((k0 ∷ k1 ∷ k2 ∷ k3 ∷ k4 ∷ k5 ∷ k6 ∷ k7 ∷ k8 ∷ k9 ∷ k10 ∷ k11 ∷ k12 ∷ k13
                          ∷ k14 ∷ k15 ∷ [])
                        ++ (u8 channel ∷ u8 wifi_if ∷ bool_byte en ∷ 0 ∷ []))))
              s).1.log
            ≡ esp_now_add_peer
                (a ∷ b ∷ c ∷ d ∷ e ∷ f ∷ [])
                (k0 ∷ k1 ∷ k2 ∷ k3 ∷ k4 ∷ k5 ∷ k6 ∷ k7 ∷ k8 ∷ k9 ∷ k10 ∷ k11 ∷ k12 ∷ k13 ∷ k14 ∷ k15
                  ∷ [])
                (u8 channel)
                (interface_of (u8 wifi_if))
                en
              ∷ s.log
      flag_read true = refl
      flag_read false = refl
  add_peer-body (a ∷ b ∷ c ∷ d ∷ e ∷ f ∷ []) k channel wifi_if encrypt six key =
      absurd (omega arith)
  add_peer-body m k channel wifi_if encrypt six key = absurd (omega arith)

  -- esp_hosted_open_espnow_add_peer adds the peer with the key that it is given, sixteen zeros for NULL,
  -- the channel, the interface and the choice of encryption.
  pub espnow_add_peer_exact :
      (m : List ℕ) (lmk : Option (List ℕ)) (channel wifi_if : ℕ) (encrypt : Bool)
      → length m ≡ 6
      → length (lmk_or_zeros lmk) ≡ 16
      → (handle chip Ids.espnow_add_peer
          (le32 op ++ request_of (espnow_add_peer (some m) lmk channel wifi_if encrypt))
          s).log
        ≡ esp_now_add_peer m (lmk_or_zeros lmk) (u8 channel) (interface_of (u8 wifi_if)) encrypt
          ∷ s.log
  unfolding espnow_add_peer
  espnow_add_peer_exact m lmk channel wifi_if encrypt six key =
      add_peer-body m (lmk_or_zeros lmk) channel wifi_if encrypt six key
