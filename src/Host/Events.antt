-- ===== src/Host/Events.antt =====
-- The host's event callbacks (on_event_* and esp_hosted_open_register_*_cb of
-- esp_hosted_open/src/phy_rpc.c): what each makes of an event's bytes.
use esp_hosted_open.Prelude.{
  ℕ, ◌+◌, Bool, ◌||◌, Option, none, some, List, ltb, ◌==◌, if◌then◌else◌, length, take, drop,
}
use esp_hosted_open.Bytes.{byte_at, u16_at, u32_at}
use esp_hosted_open.Status.{esp_ok}
use esp_hosted_open.Host.Api.{is_set}

-- A static callback pointer, `none` for NULL, and its context pointer.
abbrev pub Callback : Type 0
Callback = Option ℕ × ℕ

pub record Callbacks : Type 0 where
  pub ocb : Callback
  pub raw : Callback
  pub csi : Callback
  pub ftm : Callback
  pub espnow_rx : Callback
  pub espnow_tx : Callback
  pub ieee154_rx : Callback

-- esp_hosted_open_rx_meta_t
pub record OcbMeta : Type 0 where
  pub rssi_dbm : ℕ
  pub channel : ℕ
  pub timestamp_us : ℕ
  pub src_mac : List ℕ

-- esp_hosted_open_raw_meta_t
pub record RawMeta : Type 0 where
  pub rssi_dbm : ℕ
  pub channel : ℕ
  pub rate : ℕ
  pub is_qos : Bool
  pub timestamp_us : ℕ

-- the arguments of a CSI callback after the matrix
pub record CsiMeta : Type 0 where
  pub rssi_dbm : ℕ
  pub channel : ℕ
  pub src_mac : List ℕ
  pub timestamp_us : ℕ

-- esp_hosted_open_ftm_report_t
pub record FtmResult : Type 0 where
  pub peer_mac : List ℕ
  pub status : ℕ
  pub rtt_raw_ps : ℕ
  pub rtt_est_ps : ℕ
  pub dist_est_cm : ℕ

-- esp_hosted_open_espnow_meta_t
pub record EspnowMeta : Type 0 where
  pub src_mac : List ℕ
  pub dst_mac : List ℕ
  pub rssi_dbm : ℕ
  pub channel : ℕ

-- esp_hosted_open_ieee154_meta_t
pub record I154Meta : Type 0 where
  pub rssi_dbm : ℕ
  pub lqi : ℕ
  pub channel : ℕ
  pub timestamp_us : ℕ

-- A call of a registered callback: the callback, its context, and the arguments.
pub data Delivery : Type 0 where
  ocb_frame : ℕ → ℕ → List ℕ → OcbMeta → Delivery
  raw_frame : ℕ → ℕ → List ℕ → RawMeta → Delivery
  csi_matrix : ℕ → ℕ → List ℕ → CsiMeta → Delivery
  ftm_result : ℕ → ℕ → FtmResult → Delivery
  espnow_payload : ℕ → ℕ → List ℕ → EspnowMeta → Delivery
  espnow_sent : ℕ → ℕ → List ℕ → Bool → Delivery
  i154_frame : ℕ → ℕ → List ℕ → I154Meta → Delivery

abbrev pub with_callback : Callback → (ℕ → ℕ → Delivery) → Option Delivery
with_callback (none, ctx) k = none
with_callback (some cb, ctx) k = some (k cb ctx)

-- An event of a header of `size` bytes and `tail` more; a shorter one is dropped.
abbrev pub checked : ℕ → ℕ → List ℕ → Option Delivery → Option Delivery
checked size tail bs d = if ltb (length bs) size || ltb (length bs) (size + tail) then none else d

abbrev pub six_at : List ℕ → ℕ → List ℕ
six_at bs i = take 6 (drop i bs)

unfoldable pub on_event_ocb : List ℕ → Callbacks → Option Delivery
unfolding u16_at u32_at
on_event_ocb bs cbs =
    let n = u16_at bs 8 in
    checked 14 n bs (
      with_callback (cbs.ocb) λ cb ctx. ocb_frame cb ctx (take n (drop 14 bs)) (record {
        rssi_dbm = byte_at bs 0;
        channel = byte_at bs 1;
        timestamp_us = u32_at bs 10;
        src_mac = six_at bs 2;
      }))

unfoldable pub on_event_raw : List ℕ → Callbacks → Option Delivery
unfolding u16_at u32_at
on_event_raw bs cbs =
    let n = u16_at bs 4 in
    checked 12 n bs (
      with_callback (cbs.raw) λ cb ctx. raw_frame cb ctx (take n (drop 12 bs)) (record {
        rssi_dbm = byte_at bs 0;
        channel = byte_at bs 1;
        rate = byte_at bs 2;
        is_qos = is_set (byte_at bs 3);
        timestamp_us = u32_at bs 8;
      }))

unfoldable pub on_event_csi : List ℕ → Callbacks → Option Delivery
unfolding u16_at u32_at
on_event_csi bs cbs =
    let n = u16_at bs 8 in
    checked 16 n bs (
      with_callback (cbs.csi) λ cb ctx. csi_matrix cb ctx (take n (drop 16 bs)) (record {
        rssi_dbm = byte_at bs 0;
        channel = byte_at bs 1;
        src_mac = six_at bs 2;
        timestamp_us = u32_at bs 12;
      }))

unfoldable pub on_event_ftm : List ℕ → Callbacks → Option Delivery
unfolding u32_at
on_event_ftm bs cbs = checked 20 0 bs (
    with_callback (cbs.ftm) λ cb ctx. ftm_result cb ctx (record {
      peer_mac = six_at bs 0;
      status = byte_at bs 6;
      rtt_raw_ps = u32_at bs 8;
      rtt_est_ps = u32_at bs 12;
      dist_est_cm = u32_at bs 16;
    }))

unfoldable pub on_event_espnow_rx : List ℕ → Callbacks → Option Delivery
unfolding u16_at
on_event_espnow_rx bs cbs =
    let n = u16_at bs 14 in
    checked 16 n bs (
      with_callback (cbs.espnow_rx) λ cb ctx. espnow_payload cb ctx (take n (drop 16 bs)) (record {
        src_mac = six_at bs 0;
        dst_mac = six_at bs 6;
        rssi_dbm = byte_at bs 12;
        channel = byte_at bs 13;
      }))

unfoldable pub on_event_espnow_tx : List ℕ → Callbacks → Option Delivery
on_event_espnow_tx bs cbs =
    checked 8 0 bs
      (with_callback (cbs.espnow_tx) λ cb ctx. espnow_sent cb ctx (six_at bs 0) (byte_at bs 6 == 0))

unfoldable pub on_event_ieee154_rx : List ℕ → Callbacks → Option Delivery
unfolding u16_at u32_at
on_event_ieee154_rx bs cbs =
    let n = u16_at bs 4 in
    checked 12 n bs (
      with_callback (cbs.ieee154_rx) λ cb ctx. i154_frame cb ctx (take n (drop 12 bs)) (record {
        rssi_dbm = byte_at bs 0;
        lqi = byte_at bs 1;
        channel = byte_at bs 2;
        timestamp_us = u32_at bs 8;
      }))

-- esp_hosted_open_register_*_cb
abbrev pub register_ocb_rx_cb : Option ℕ → ℕ → Callbacks → ℕ × Callbacks
register_ocb_rx_cb cb ctx cbs = (esp_ok, record cbs { ocb = (cb, ctx) })

abbrev pub register_raw_rx_cb : Option ℕ → ℕ → Callbacks → ℕ × Callbacks
register_raw_rx_cb cb ctx cbs = (esp_ok, record cbs { raw = (cb, ctx) })

abbrev pub register_csi_cb : Option ℕ → ℕ → Callbacks → ℕ × Callbacks
register_csi_cb cb ctx cbs = (esp_ok, record cbs { csi = (cb, ctx) })

abbrev pub register_ftm_cb : Option ℕ → ℕ → Callbacks → ℕ × Callbacks
register_ftm_cb cb ctx cbs = (esp_ok, record cbs { ftm = (cb, ctx) })

abbrev pub register_espnow_rx_cb : Option ℕ → ℕ → Callbacks → ℕ × Callbacks
register_espnow_rx_cb cb ctx cbs = (esp_ok, record cbs { espnow_rx = (cb, ctx) })

abbrev pub register_espnow_tx_cb : Option ℕ → ℕ → Callbacks → ℕ × Callbacks
register_espnow_tx_cb cb ctx cbs = (esp_ok, record cbs { espnow_tx = (cb, ctx) })

abbrev pub register_ieee154_rx_cb : Option ℕ → ℕ → Callbacks → ℕ × Callbacks
register_ieee154_rx_cb cb ctx cbs = (esp_ok, record cbs { ieee154_rx = (cb, ctx) })
