-- ===== src/Link/Events.antt =====
-- Frames, CSI and FTM reports from the co-processor's driver callbacks (phy_rpc_extras.c) to the host's
-- registered callbacks (esp_hosted_open/src/phy_rpc.c).
use esp_hosted_open.Prelude.{
  ℕ, ◌+◌, ◌*◌, ◌/◌, ◌%◌, ◌<◌, ◌≤◌, ◌≡◌, refl, ap, ◌∙◌, true, false, not, Option, some, List, [],
  ◌∷◌, ◌++◌, arith, length, ◌==◌, le→ltb_false, take-all,
}
use esp_hosted_open.Bytes.{u8, u32, le16, le32, u16_at, u32_at}
use esp_hosted_open.Proto.Ids.{evt_id, raw_frame, csi, ftm_report}
use esp_hosted_open.Slave.{Chip, Slave, HasMemory}
use esp_hosted_open.Slave.Send.{send_bytes-sent}
use esp_hosted_open.Slave.Events.{
  PktType, RxCtrl, RawEvt, FtmReport, is_misc, qos_bit, raw_bytes, csi_bytes, ftm_bytes, promisc_cb,
  send_event, raw_forward, csi_cb, on_ftm_event,
}
use esp_hosted_open.Host.Events
use esp_hosted_open.Host.Events.{
  Callbacks, Delivery, RawMeta, CsiMeta, FtmResult, EspnowMeta, I154Meta, checked, with_callback,
  on_event_raw, on_event_csi, on_event_ftm, on_event_espnow_rx, on_event_ieee154_rx,
}
use esp_hosted_open.Link.Frames.{u16_parts}

u32_parts :
    (n : ℕ)
    → n % 256 + 256 * (n / 256 % 256) + 65536 * (n / 65536 % 256) + 16777216 * (n / 16777216 % 256)
      ≡ u32 n
u32_parts n = omega arith

pub checked-long :
    (size tail : ℕ) (bs : List ℕ) (d : Option Delivery)
    → size + tail ≤ length bs
    → checked size tail bs d ≡ d
checked-long size tail bs d h = ground arith

length-raw_bytes : (e : RawEvt) → length (raw_bytes e) ≡ 12 + length e.frame
unfolding raw_bytes le16 le32
length-raw_bytes e = omega arith

raw_bytes-event :
    (e : RawEvt) (cbs : Callbacks) (cb ctx : ℕ)
    → length e.frame ≤ 1600
    → cbs.raw ≡ (some cb, ctx)
    → on_event_raw (raw_bytes e) cbs
      ≡ some (
          Events.raw_frame cb ctx e.frame (record {
            rssi_dbm = u8 (e.rx.rssi);
            channel = u8 (e.rx.channel);
            rate = u8 (e.rx.rate);
            is_qos = not (u8 (e.is_qos) == 0);
            timestamp_us = u32 (e.rx.timestamp);
          }))
unfolding on_event_raw raw_bytes le16 le32 u16_at u32_at
raw_bytes-event e cbs cb ctx h r = rw (
  u16_parts (length e.frame) (omega arith),
  u32_parts e.rx.timestamp,
  r,
  checked-long 12 (length e.frame) (raw_bytes e) _ (rw (length-raw_bytes e) (omega arith)),
  take-all (length e.frame) e.frame (omega arith),
)

pub send_event-sent :
    (chip : Chip) (id : ℕ) (bs : List ℕ) (s : Slave)
    → HasMemory chip
    → 1 ≤ length bs
    → length bs ≤ 8166
    → send_event chip id bs s ≡ record s { sent = (le32 id ++ bs) ∷ s.sent }
send_event-sent chip id bs s m lo hi =
    rw (m s.log (length bs)) (send_bytes-sent chip id bs s m lo hi)

-- With memory, room in the queue and a host callback: a frame of at most 1600 bytes that the driver
-- hands to promisc_cb, once promiscuous mode was set up, is queued; the task that takes it from
-- the queue in any later state sends one event; and the host's callback gets the frame's bytes and
-- the fields, cut to the widths of the event's struct.
pub raw_frame_delivered :
    (chip : Chip) (s t : Slave) (type : PktType) (rx : RxCtrl) (payload : List ℕ) (cbs : Callbacks)
    (cb ctx : ℕ)
    → HasMemory chip
    → s.raw_q ≡ true
    → is_misc type ≡ false
    → length payload ≤ 1600
    → cbs.raw ≡ (some cb, ctx)
    → (e : RawEvt) × (promisc_cb chip true type rx payload s ≡ some e)
      × (raw_forward chip e t
          ≡ record t { sent = (le32 (evt_id raw_frame) ++ raw_bytes e) ∷ t.sent })
      × (on_event_raw (raw_bytes e) cbs
          ≡ some (
              Events.raw_frame cb ctx payload (record {
                rssi_dbm = u8 (rx.rssi);
                channel = u8 (rx.channel);
                rate = u8 (rx.rate);
                is_qos = not (qos_bit type payload == 0);
                timestamp_us = u32 (rx.timestamp);
              })))
unfolding promisc_cb raw_forward
raw_frame_delivered chip s t type rx payload cbs cb ctx m q k h r =
    let e : RawEvt = record { rx = rx; is_qos = qos_bit type payload; frame = payload } in
    (
      e,
      rw (q, k, le→ltb_false 1600 (length payload) h, m s.log (12 + length payload)) refl,
      send_event-sent chip (evt_id raw_frame) (raw_bytes e) t m
          (rw (length-raw_bytes e) (omega arith)) (rw (length-raw_bytes e) (omega arith)),
      raw_bytes-event e cbs cb ctx h r
          ∙ ap
              (λ b. some (
                Events.raw_frame cb ctx payload (record {
                  rssi_dbm = u8 (rx.rssi);
                  channel = u8 (rx.channel);
                  rate = u8 (rx.rate);
                  is_qos = not (b == 0);
                  timestamp_us = u32 (rx.timestamp);
                })))
              small,
    )
  where
    small : u8 (qos_bit type payload) ≡ qos_bit type payload
    small = ground arith

ftm_bytes-event :
    (mac : List ℕ) (st raw est dist : ℕ) (cbs : Callbacks) (cb ctx : ℕ)
    → length mac ≡ 6
    → cbs.ftm ≡ (some cb, ctx)
    → on_event_ftm
        (ftm_bytes
          (record { peer_mac = mac; status = st; rtt_raw = raw; rtt_est = est; dist_est = dist }))
        cbs
      ≡ some (
          Events.ftm_result cb ctx (record {
            peer_mac = mac;
            status = u8 st;
            rtt_raw_ps = u32 raw;
            rtt_est_ps = u32 est;
            dist_est_cm = u32 dist;
          }))
unfolding on_event_ftm ftm_bytes le32 u32_at
ftm_bytes-event (a ∷ b ∷ c ∷ d ∷ e ∷ f ∷ []) st raw est dist cbs cb ctx six r =
    rw (r, u32_parts raw, u32_parts est, u32_parts dist)
ftm_bytes-event mac st raw est dist cbs cb ctx six r = absurd (omega arith)

length-ftm_bytes :
    (mac : List ℕ) (st raw est dist : ℕ)
    → length mac ≡ 6
    → length (
        ftm_bytes
          (record { peer_mac = mac; status = st; rtt_raw = raw; rtt_est = est; dist_est = dist }))
      ≡ 20
unfolding ftm_bytes le32
length-ftm_bytes (a ∷ b ∷ c ∷ d ∷ e ∷ f ∷ []) st raw est dist six = refl
length-ftm_bytes mac st raw est dist six = absurd (omega arith)

-- With memory and a host callback, an FTM report of the driver leaves as one event, and the host's
-- callback gets the peer, the status and the three measurements, cut to 32 bits.
pub ftm_report_delivered :
    (chip : Chip) (s : Slave) (e : FtmReport) (cbs : Callbacks) (cb ctx : ℕ)
    → HasMemory chip
    → length e.peer_mac ≡ 6
    → cbs.ftm ≡ (some cb, ctx)
    → (on_ftm_event chip e s
        ≡ record s { sent = (le32 (evt_id ftm_report) ++ ftm_bytes e) ∷ s.sent })
      × (on_event_ftm (ftm_bytes e) cbs
          ≡ some (
              Events.ftm_result cb ctx (record {
                peer_mac = e.peer_mac;
                status = u8 (e.status);
                rtt_raw_ps = u32 (e.rtt_raw);
                rtt_est_ps = u32 (e.rtt_est);
                dist_est_cm = u32 (e.dist_est);
              })))
unfolding on_ftm_event
ftm_report_delivered chip s e cbs cb ctx m six r =
    let n = length-ftm_bytes e.peer_mac e.status e.rtt_raw e.rtt_est e.dist_est six in
    (
      send_bytes-sent chip (evt_id ftm_report) (ftm_bytes e) s m (rw n (omega arith))
          (rw n (omega arith)),
      ftm_bytes-event e.peer_mac e.status e.rtt_raw e.rtt_est e.dist_est cbs cb ctx six r,
    )

csi_bytes-event :
    (rx : RxCtrl) (mac buf : List ℕ) (cbs : Callbacks) (cb ctx : ℕ)
    → length mac ≡ 6
    → length buf < 65536
    → cbs.csi ≡ (some cb, ctx)
    → on_event_csi (csi_bytes rx mac buf) cbs
      ≡ some (
          Events.csi_matrix cb ctx buf (record {
            rssi_dbm = u8 (rx.rssi);
            channel = u8 (rx.channel);
            src_mac = mac;
            timestamp_us = u32 (rx.timestamp);
          }))
unfolding on_event_csi csi_bytes le16 le32 u16_at u32_at
csi_bytes-event rx (a ∷ b ∷ c ∷ d ∷ e ∷ f ∷ []) buf cbs cb ctx six hi r = rw (
  u16_parts (length buf) hi,
  u32_parts rx.timestamp,
  r,
  checked-long 16 (length buf) (csi_bytes rx (a ∷ b ∷ c ∷ d ∷ e ∷ f ∷ []) buf) _ (omega arith),
  take-all (length buf) buf (omega arith),
)
csi_bytes-event rx mac buf cbs cb ctx six hi r = absurd (omega arith)

length-csi_bytes :
    (rx : RxCtrl) (mac buf : List ℕ)
    → length mac ≡ 6
    → length (csi_bytes rx mac buf) ≡ 16 + length buf
unfolding csi_bytes le16 le32
length-csi_bytes rx (a ∷ b ∷ c ∷ d ∷ e ∷ f ∷ []) buf six = omega arith
length-csi_bytes rx mac buf six = absurd (omega arith)

-- With memory and a host callback, a CSI matrix of 1 to 8150 bytes leaves as one event, and the host's
-- callback gets the matrix, the sender and the fields.
pub csi_delivered :
    (chip : Chip) (s : Slave) (rx : RxCtrl) (mac buf : List ℕ) (cbs : Callbacks) (cb ctx : ℕ)
    → HasMemory chip
    → length mac ≡ 6
    → 1 ≤ length buf
    → length buf ≤ 8150
    → cbs.csi ≡ (some cb, ctx)
    → (csi_cb chip rx mac (some buf) s
        ≡ record s { sent = (le32 (evt_id csi) ++ csi_bytes rx mac buf) ∷ s.sent })
      × (on_event_csi (csi_bytes rx mac buf) cbs
          ≡ some (
              Events.csi_matrix cb ctx buf (record {
                rssi_dbm = u8 (rx.rssi);
                channel = u8 (rx.channel);
                src_mac = mac;
                timestamp_us = u32 (rx.timestamp);
              })))
unfolding csi_cb
csi_delivered chip s rx mac buf cbs cb ctx m six lo hi r =
    let n = length-csi_bytes rx mac buf six in
    (
      ground (
        arith,
        send_event-sent chip (evt_id csi) (csi_bytes rx mac buf) s m (rw n (omega arith))
            (rw n (omega arith)),
      ),
      csi_bytes-event rx mac buf cbs cb ctx six (omega arith) r,
    )
