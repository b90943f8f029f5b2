-- ===== src/Link/Frames.antt =====
-- Frames and addresses from the host's call to the co-processor's driver.
use esp_hosted_open.Prelude.{
  ℕ, ◌+◌, ◌*◌, ◌/◌, ◌%◌, ◌<◌, ◌≤◌, ◌≡◌, ◌≢◌, refl, ap, ◌∙◌, Bool, true, some, List, [], ◌∷◌, ◌++◌,
  arith, length, take, take-all, length-append,
}
use esp_hosted_open.Bytes.{u8, le16, le32, byte_at, length-le16, length-le32}
use esp_hosted_open.Proto.Ids
use esp_hosted_open.Slave.{
  Action, Chip, Slave, wifi_80211_tx, esp_now_send, ieee802154_transmit, esp_ieee802154_transmit,
}
use esp_hosted_open.Slave.Extras.{on_tx_80211, interface_of}
use esp_hosted_open.Slave.Wireless.{on_espnow_send, on_i154_tx_raw}
use esp_hosted_open.Slave.Handle.{action, request_size, handle}
use esp_hosted_open.Slave.Handle.Reply.{handle-log}
use esp_hosted_open.Host.Api.{Checked, sized, tx_80211, espnow_send, ieee154_tx_raw, bool_byte}
use esp_hosted_open.Link.{request_of}

sized-ok :
    (limit : ℕ) (bs : List ℕ) (k : Checked)
    → 1 ≤ length bs
    → length bs ≤ limit
    → sized limit bs true k ≡ k
sized-ok limit bs k lo hi = ground arith

pub u16_parts : (n : ℕ) → n < 65536 → n % 256 + 256 * (n / 256 % 256) ≡ n
u16_parts n h = omega arith

take_head : (bs : List ℕ) (b : ℕ) → take (length (b ∷ bs)) (0 ∷ 0 ∷ b ∷ bs) ≡ b ∷ bs → b ≡ 0
take_head bs b e = ground (arith, ap (λ l. byte_at l 0) e)

module _ (chip : Chip) (s : Slave) (op : ℕ) where
  tx_80211-action :
      (wifi_if : ℕ) (bs : List ℕ) (en : Bool)
      → length bs ≤ 1500
      → (on_tx_80211 chip
          (le32 op ++ (u8 wifi_if ∷ bool_byte en ∷ 0 ∷ 0 ∷ (le16 (length bs) ++ (0 ∷ 0 ∷ bs))))
          s).1.log
        ≡ wifi_80211_tx (interface_of (u8 wifi_if)) (take (length bs) (0 ∷ 0 ∷ bs)) en ∷ s.log
  unfolding on_tx_80211 le16 le32
  tx_80211-action wifi_if bs true h = rw (u16_parts (length bs) (omega arith)) (ground arith)
  tx_80211-action wifi_if bs _ h = rw (u16_parts (length bs) (omega arith)) (ground arith)

  pub handled :
      (c : Ids.Call) (a : Action) (req : List ℕ)
      → action chip c ≡ some a
      → request_size c ≤ length req
      → (handle chip c req s).log ≡ (a req s).1.log
  handled c a req e h = handle-log chip c a req s e h

  -- the request that esp_hosted_open_tx_80211 sends
  tx_80211-request :
      (wifi_if : ℕ) (bs : List ℕ) (en : Bool)
      → 1 ≤ length bs
      → length bs ≤ 1500
      → request_of (tx_80211 true wifi_if (some bs) en)
        ≡ u8 wifi_if ∷ bool_byte en ∷ 0 ∷ 0 ∷ (le16 (length bs) ++ (0 ∷ 0 ∷ bs))
  unfolding tx_80211
  tx_80211-request wifi_if bs en lo hi = ap request_of (sized-ok 1500 bs _ lo hi)

  -- A frame of 1 to 1500 bytes given to esp_hosted_open_tx_80211 is not what the co-processor injects:
  -- esp_wifi_80211_tx is called with two zero bytes and then the frame without its last two bytes,
  -- which is another frame whenever the first byte is not 0. (The host puts eight bytes in front of
  -- the frame, and phy_rpc_req_tx_80211_t has six between its header and the frame.)
  pub tx_80211_shifted :
      (wifi_if b : ℕ) (bs : List ℕ) (en : Bool)
      → length (b ∷ bs) ≤ 1500
      → ((handle chip Ids.tx_80211
            (le32 op ++ request_of (tx_80211 true wifi_if (some (b ∷ bs)) en))
            s).log
          ≡ wifi_80211_tx (interface_of (u8 wifi_if)) (take (length (b ∷ bs)) (0 ∷ 0 ∷ b ∷ bs)) en
            ∷ s.log)
        × (b ≢ 0 → take (length (b ∷ bs)) (0 ∷ 0 ∷ b ∷ bs) ≢ b ∷ bs)
  unfolding action request_size le32 le16
  tx_80211_shifted wifi_if b bs en h = (
    rw (tx_80211-request wifi_if (b ∷ bs) en (omega arith) h) (
        handled Ids.tx_80211 (on_tx_80211 chip)
          (le32 op
            ++ (u8 wifi_if ∷ bool_byte en ∷ 0 ∷ 0 ∷ (le16 (length (b ∷ bs)) ++ (0 ∷ 0 ∷ b ∷ bs))))
          refl (omega arith)
        ∙ tx_80211-action wifi_if (b ∷ bs) en h),
    λ ne e. ne (take_head bs b e),
  )

  espnow_send-action :
      (m bs : List ℕ)
      → length m ≡ 6
      → length bs ≤ 250
      → (on_espnow_send chip (le32 op ++ (m ++ (le16 (length bs) ++ bs))) s).1.log
        ≡ esp_now_send m bs ∷ s.log
  unfolding on_espnow_send le16 le32
  espnow_send-action (a ∷ b ∷ c ∷ d ∷ e ∷ f ∷ []) bs h hi =
      rw (u16_parts (length bs) (omega arith)) (ground (arith, take-all (length bs) bs))
  espnow_send-action m bs h hi = absurd (omega arith)

  espnow_send-request :
      (m bs : List ℕ)
      → 1 ≤ length bs
      → length bs ≤ 250
      → request_of (espnow_send true (some m) (some bs)) ≡ take 6 m ++ (le16 (length bs) ++ bs)
  unfolding espnow_send
  espnow_send-request m bs lo hi = ap request_of (sized-ok 250 bs _ lo hi)

  -- A payload of 1 to 250 bytes that esp_hosted_open_espnow_send is given for a peer reaches the
  -- co-processor's esp_now_send as it is, with the peer's six bytes.
  pub espnow_send_exact :
      (m bs : List ℕ)
      → length m ≡ 6
      → 1 ≤ length bs
      → length bs ≤ 250
      → (handle chip Ids.espnow_send
          (le32 op ++ request_of (espnow_send true (some m) (some bs)))
          s).log
        ≡ esp_now_send m bs ∷ s.log
  unfolding action request_size
  espnow_send_exact m bs six lo hi =
      rw (espnow_send-request m bs lo hi, take-all 6 m (omega arith))
        (handled Ids.espnow_send (on_espnow_send chip) (le32 op ++ (m ++ (le16 (length bs) ++ bs)))
            refl
            (rw
              (
                length-append (le32 op) (m ++ (le16 (length bs) ++ bs)),
                length-append m (le16 (length bs) ++ bs),
                length-append (le16 (length bs)) bs,
                length-le32 op,
                length-le16 (length bs),
              )
              (omega arith))
          ∙ espnow_send-action m bs six hi)

  ieee154_tx_raw-action :
      (bs : List ℕ) (cca : Bool)
      → length bs ≤ 127
      → chip.present esp_ieee802154_transmit ≡ true
      → (on_i154_tx_raw chip (le32 op ++ (bool_byte cca ∷ 0 ∷ (le16 (length bs) ++ bs))) s).1.log
        ≡ ieee802154_transmit (u8 (length bs) ∷ bs) cca ∷ s.log
  unfolding on_i154_tx_raw le16 le32
  ieee154_tx_raw-action bs true hi p =
      rw (u16_parts (length bs) (omega arith)) (ground (arith, take-all (length bs) bs))
  ieee154_tx_raw-action bs _ hi p =
      rw (u16_parts (length bs) (omega arith)) (ground (arith, take-all (length bs) bs))

  ieee154_tx_raw-request :
      (bs : List ℕ) (cca : Bool)
      → 1 ≤ length bs
      → length bs ≤ 127
      → request_of (ieee154_tx_raw true (some bs) cca)
        ≡ bool_byte cca ∷ 0 ∷ (le16 (length bs) ++ bs)
  unfolding ieee154_tx_raw
  ieee154_tx_raw-request bs cca lo hi = ap request_of (sized-ok 127 bs _ lo hi)

  -- A frame of 1 to 127 bytes that esp_hosted_open_ieee154_tx_raw is given is transmitted as it is by a
  -- co-processor that has the radio, behind its length, with the caller's choice of CCA.
  pub ieee154_tx_raw_exact :
      (bs : List ℕ) (cca : Bool)
      → 1 ≤ length bs
      → length bs ≤ 127
      → chip.present esp_ieee802154_transmit ≡ true
      → (handle chip Ids.ieee154_tx_raw
          (le32 op ++ request_of (ieee154_tx_raw true (some bs) cca))
          s).log
        ≡ ieee802154_transmit (length bs ∷ bs) cca ∷ s.log
  unfolding action request_size le32 le16
  ieee154_tx_raw_exact bs cca lo hi p = rw (ieee154_tx_raw-request bs cca lo hi) (
      handled Ids.ieee154_tx_raw (on_i154_tx_raw chip)
        (le32 op ++ (bool_byte cca ∷ 0 ∷ (le16 (length bs) ++ bs))) refl (omega arith)
      ∙ ieee154_tx_raw-action bs cca hi p
      ∙ ap (λ n. ieee802154_transmit (n ∷ bs) cca ∷ s.log) (omega arith))
