-- ===== src/Slave/Events.antt =====
-- What the co-processor tells the host unasked: the driver callbacks of
-- slave/components/phy_rpc_overlay/phy_rpc_extras.c and phy_rpc_wireless.c. What the drivers pass to them
-- is a record of the fields that they read; a signed byte is its bit pattern.
use esp_hosted_open.Prelude.{
  ℕ, ◌+◌, Bool, true, false, ◌&&◌, ◌||◌, not, Option, none, some, List, [], ◌∷◌, ◌++◌, bit_and, ltb,
  ◌==◌, if◌then◌else◌, length, take, drop,
}
use esp_hosted_open.Bytes.{u8, le16, le32, byte_at}
use esp_hosted_open.Proto.Ids.{
  evt_id, raw_frame, csi, ftm_report, espnow_rx, espnow_tx_status, ieee154_rx,
}
use esp_hosted_open.Slave.{Chip, Slave}
use esp_hosted_open.Slave.Send.{send_custom_data, send_bytes}

-- wifi_promiscuous_pkt_type_t
pub data PktType : Type 0 where
  pkt_mgmt pkt_ctrl pkt_data pkt_misc : PktType

abbrev pub is_misc : PktType → Bool
is_misc pkt_misc = true
is_misc _ = false

abbrev pub is_data : PktType → Bool
is_data pkt_data = true
is_data _ = false

-- The fields of wifi_pkt_rx_ctrl_t that are read.
pub record RxCtrl : Type 0 where
  pub rssi : ℕ
  pub channel : ℕ
  pub rate : ℕ
  pub timestamp : ℕ

-- raw_evt_t, with its frame
pub record RawEvt : Type 0 where
  pub rx : RxCtrl
  pub is_qos : ℕ
  pub frame : List ℕ

-- wifi_event_ftm_report_t
pub record FtmReport : Type 0 where
  pub peer_mac : List ℕ
  pub status : ℕ
  pub rtt_raw : ℕ
  pub rtt_est : ℕ
  pub dist_est : ℕ

abbrev pub qos_bit : PktType → List ℕ → ℕ
qos_bit type payload = if is_data type && not (bit_and (byte_at payload 0) 0x80 == 0) then 1 else 0

-- the packed event structs
unfoldable pub raw_bytes : RawEvt → List ℕ
unfolding le16 le32
raw_bytes e =
    u8 (e.rx.rssi)
    ∷ u8 (e.rx.channel)
    ∷ u8 (e.rx.rate)
    ∷ u8 (e.is_qos)
    ∷ (le16 (length e.frame) ++ (0 ∷ 0 ∷ (le32 (e.rx.timestamp) ++ e.frame)))

unfoldable pub csi_bytes : RxCtrl → List ℕ → List ℕ → List ℕ
unfolding le16 le32
csi_bytes rx mac buf =
    u8 (rx.rssi)
    ∷ u8 (rx.channel)
    ∷ (take 6 mac ++ (le16 (length buf) ++ (0 ∷ 0 ∷ (le32 (rx.timestamp) ++ buf))))

unfoldable pub ftm_bytes : FtmReport → List ℕ
unfolding le32
ftm_bytes r =
    take 6 r.peer_mac
    ++ (u8 (r.status) ∷ 0 ∷ (le32 (r.rtt_raw) ++ (le32 (r.rtt_est) ++ le32 (r.dist_est))))

-- The control block of an ESP-NOW frame may be missing.
abbrev pub rssi_or_zero : Option RxCtrl → ℕ
rssi_or_zero none = 0
rssi_or_zero (some rx) = rx.rssi

abbrev pub channel_or_zero : Option RxCtrl → ℕ
channel_or_zero none = 0
channel_or_zero (some rx) = rx.channel

unfoldable pub espnow_bytes : List ℕ → List ℕ → Option RxCtrl → List ℕ → List ℕ
unfolding le16
espnow_bytes src dst rx payload =
    take 6 src
    ++ (take 6 dst
        ++ (u8 (rssi_or_zero rx) ∷ u8 (channel_or_zero rx) ∷ (le16 (length payload) ++ payload)))

unfoldable pub i154_bytes : List ℕ → List ℕ
unfolding le16
i154_bytes frame = 0 ∷ 0 ∷ 0 ∷ 0 ∷ (le16 (length frame) ++ (0 ∷ 0 ∷ 0 ∷ 0 ∷ 0 ∷ 0 ∷ frame))

module _ (chip : Chip) where
  -- promisc_cb: the entry that it queues, if any. `fits` tells whether xQueueSendFromISR takes it.
  unfoldable pub promisc_cb : Bool → PktType → RxCtrl → List ℕ → Slave → Option RawEvt
  promisc_cb fits type rx payload s =
      if not s.raw_q || is_misc type || ltb 1600 (length payload)
      then none
      else if chip.alloc s.log (12 + length payload) && fits
      then some (record { rx = rx; is_qos = qos_bit type payload; frame = payload })
      else none

  -- An event in a buffer of its own: nothing is sent without memory for it.
  abbrev pub send_event : ℕ → List ℕ → Slave → Slave
  send_event id bs s = if chip.alloc s.log (length bs) then send_bytes chip id bs s else s

  -- One round of raw_forward_task, with the entry that it received.
  unfoldable pub raw_forward : RawEvt → Slave → Slave
  unfolding raw_bytes send_custom_data
  raw_forward e s = send_event (evt_id raw_frame) (raw_bytes e) s

  -- csi_cb. `buf` is none for a NULL info or a NULL buffer.
  unfoldable pub csi_cb : RxCtrl → List ℕ → Option (List ℕ) → Slave → Slave
  unfolding csi_bytes send_custom_data
  csi_cb rx mac none s = s
  csi_cb rx mac (some buf) s =
      if length buf == 0 then s else send_event (evt_id csi) (csi_bytes rx mac buf) s

  -- on_ftm_event, for the event that it is registered for
  unfoldable pub on_ftm_event : FtmReport → Slave → Slave
  unfolding ftm_bytes send_custom_data
  on_ftm_event r s = send_bytes chip (evt_id ftm_report) (ftm_bytes r) s

  -- espnow_rx_cb, for a length that is not negative
  unfoldable pub espnow_rx_cb : List ℕ → List ℕ → Option RxCtrl → List ℕ → Slave → Slave
  unfolding espnow_bytes send_custom_data
  espnow_rx_cb src dst rx payload s =
      if (length payload == 0) || ltb 250 (length payload)
      then s
      else send_event (evt_id espnow_rx) (espnow_bytes src dst rx payload) s

  abbrev pub mac_or_zeros : Option (List ℕ) → List ℕ
  mac_or_zeros none = 0 ∷ 0 ∷ 0 ∷ 0 ∷ 0 ∷ 0 ∷ []
  mac_or_zeros (some m) = take 6 m

  -- espnow_tx_cb. `mac` is none for a NULL info or address.
  unfoldable pub espnow_tx_cb : Option (List ℕ) → Bool → Slave → Slave
  unfolding send_custom_data
  espnow_tx_cb mac success s =
      send_bytes chip (evt_id espnow_tx_status)
        (mac_or_zeros mac ++ ((if success then 0 else 1) ∷ 0 ∷ [])) s

  -- esp_ieee802154_receive_done: the frame starts with its length byte.
  unfoldable pub receive_done : Option (List ℕ) → Slave → Slave
  unfolding i154_bytes send_custom_data
  receive_done none s = s
  receive_done (some frame) s =
      let n = byte_at frame 0 in
      if ltb n 2 || ltb 127 n
      then s
      else send_event (evt_id ieee154_rx) (i154_bytes (take n (drop 1 frame))) s
