-- ===== src/Link/Wireless.antt =====
-- ESP-NOW and 802.15.4 receptions from the co-processor's driver callbacks (phy_rpc_wireless.c) to the
-- host's registered callbacks (esp_hosted_open/src/phy_rpc.c).
use esp_hosted_open.Prelude.{
  ℕ, ◌+◌, ◌≤◌, ◌≡◌, Option, some, List, [], ◌∷◌, ◌++◌, arith, length, take-all,
}
use esp_hosted_open.Bytes.{u8, le16, le32, u16_at, u32_at}
use esp_hosted_open.Proto.Ids.{evt_id, espnow_rx, ieee154_rx}
use esp_hosted_open.Slave.{Chip, Slave, HasMemory}
use esp_hosted_open.Slave.Events.{
  rssi_or_zero, channel_or_zero, RxCtrl, espnow_bytes, i154_bytes, espnow_rx_cb, receive_done,
}
use esp_hosted_open.Host.Events
use esp_hosted_open.Host.Events.{
  Callbacks, Delivery, RawMeta, CsiMeta, FtmResult, EspnowMeta, I154Meta, checked, with_callback,
  on_event_raw, on_event_csi, on_event_ftm, on_event_espnow_rx, on_event_ieee154_rx,
}
use esp_hosted_open.Link.Frames.{u16_parts}
use esp_hosted_open.Link.Events.{checked-long, send_event-sent}

length-espnow_bytes :
    (src dst : List ℕ) (rx : Option RxCtrl) (payload : List ℕ)
    → length src ≡ 6
    → length dst ≡ 6
    → length (espnow_bytes src dst rx payload) ≡ 16 + length payload
unfolding espnow_bytes le16
length-espnow_bytes (a ∷ b ∷ c ∷ d ∷ e ∷ f ∷ []) (g ∷ h ∷ i ∷ j ∷ k ∷ l ∷ []) rx payload p q =
    omega arith
length-espnow_bytes (a ∷ b ∷ c ∷ d ∷ e ∷ f ∷ []) dst rx payload p q = absurd (omega arith)
length-espnow_bytes src dst rx payload p q = absurd (omega arith)

espnow_bytes-event :
    (src dst : List ℕ) (rx : Option RxCtrl) (payload : List ℕ) (cbs : Callbacks) (cb ctx : ℕ)
    → length src ≡ 6
    → length dst ≡ 6
    → length payload ≤ 250
    → cbs.espnow_rx ≡ (some cb, ctx)
    → on_event_espnow_rx (espnow_bytes src dst rx payload) cbs
      ≡ some (
          Events.espnow_payload cb ctx payload (record {
            src_mac = src;
            dst_mac = dst;
            rssi_dbm = u8 (rssi_or_zero rx);
            channel = u8 (channel_or_zero rx);
          }))
unfolding on_event_espnow_rx espnow_bytes le16 u16_at
espnow_bytes-event (a ∷ b ∷ c ∷ d ∷ e ∷ f ∷ []) (g ∷ h ∷ i ∷ j ∷ k ∷ l ∷ []) rx payload cbs cb ctx p
      q hi r =
    rw (
      u16_parts (length payload) (omega arith),
      r,
      checked-long 16 (length payload)
          (espnow_bytes (a ∷ b ∷ c ∷ d ∷ e ∷ f ∷ []) (g ∷ h ∷ i ∷ j ∷ k ∷ l ∷ []) rx payload) _
          (omega arith),
      take-all (length payload) payload (omega arith),
    )
espnow_bytes-event (a ∷ b ∷ c ∷ d ∷ e ∷ f ∷ []) dst rx payload cbs cb ctx p q hi r =
    absurd (omega arith)
espnow_bytes-event src dst rx payload cbs cb ctx p q hi r = absurd (omega arith)

-- With memory and a host callback, an ESP-NOW payload of 1 to 250 bytes that the co-processor receives
-- leaves as one event, and the host's callback gets the payload, both addresses and, if the driver
-- gave them, the signal strength and the channel.
pub espnow_rx_delivered :
    (chip : Chip) (s : Slave) (src dst : List ℕ) (rx : Option RxCtrl) (payload : List ℕ)
    (cbs : Callbacks) (cb ctx : ℕ)
    → HasMemory chip
    → length src ≡ 6
    → length dst ≡ 6
    → 1 ≤ length payload
    → length payload ≤ 250
    → cbs.espnow_rx ≡ (some cb, ctx)
    → (espnow_rx_cb chip src dst rx payload s
        ≡ record s { sent = (le32 (evt_id espnow_rx) ++ espnow_bytes src dst rx payload) ∷ s.sent })
      × (on_event_espnow_rx (espnow_bytes src dst rx payload) cbs
          ≡ some (
              Events.espnow_payload cb ctx payload (record {
                src_mac = src;
                dst_mac = dst;
                rssi_dbm = u8 (rssi_or_zero rx);
                channel = u8 (channel_or_zero rx);
              })))
unfolding espnow_rx_cb
espnow_rx_delivered chip s src dst rx payload cbs cb ctx m p q lo hi r = (
  ground (
    arith,
    send_event-sent chip (evt_id espnow_rx) (espnow_bytes src dst rx payload) s m
        (rw (length-espnow_bytes src dst rx payload p q) (omega arith))
        (rw (length-espnow_bytes src dst rx payload p q) (omega arith)),
  ),
  espnow_bytes-event src dst rx payload cbs cb ctx p q hi r,
)

i154_bytes-event :
    (frame : List ℕ) (cbs : Callbacks) (cb ctx : ℕ)
    → length frame ≤ 127
    → cbs.ieee154_rx ≡ (some cb, ctx)
    → on_event_ieee154_rx (i154_bytes frame) cbs
      ≡ some (
          Events.i154_frame cb ctx frame
            (record { rssi_dbm = 0; lqi = 0; channel = 0; timestamp_us = 0 }))
unfolding on_event_ieee154_rx i154_bytes le16 u16_at u32_at
i154_bytes-event frame cbs cb ctx hi r = rw (
  u16_parts (length frame) (omega arith),
  r,
  checked-long 12 (length frame) (i154_bytes frame) _ (omega arith),
  take-all (length frame) frame (omega arith),
)

-- With memory and a host callback, a received 802.15.4 frame of 2 to 127 bytes behind its length byte
-- leaves as one event, and the host's callback gets the frame with signal strength, link quality,
-- channel and time all 0.
pub i154_frame_delivered :
    (chip : Chip) (s : Slave) (frame : List ℕ) (cbs : Callbacks) (cb ctx : ℕ)
    → HasMemory chip
    → 2 ≤ length frame
    → length frame ≤ 127
    → cbs.ieee154_rx ≡ (some cb, ctx)
    → (receive_done chip (some (length frame ∷ frame)) s
        ≡ record s { sent = (le32 (evt_id ieee154_rx) ++ i154_bytes frame) ∷ s.sent })
      × (on_event_ieee154_rx (i154_bytes frame) cbs
          ≡ some (
              Events.i154_frame cb ctx frame
                (record { rssi_dbm = 0; lqi = 0; channel = 0; timestamp_us = 0 })))
unfolding receive_done i154_bytes le16
i154_frame_delivered chip s frame cbs cb ctx m lo hi r = (
  rw (take-all (length frame) frame (omega arith)) (
      ground (
        arith,
        send_event-sent chip (evt_id ieee154_rx) (i154_bytes frame) s m (omega arith) (omega arith),
      )),
  i154_bytes-event frame cbs cb ctx hi r,
)
