-- ===== src/Host/Api.antt =====
-- The functions of the host's API (esp_hosted_open/src/phy_rpc.c, from "per-call wrappers" on): for each,
-- the request that it hands to do_call, its checks and what it writes through its pointers.
use esp_hosted_open.Prelude.{
  ℕ, ◌/◌, ◌%◌, ◌^◌, Bool, true, false, not, ◌||◌, Option, none, some, List, [], ◌∷◌, ◌++◌, bit_and,
  ltb, leb, ◌==◌, if◌then◌else◌, length, take, drop, set, replicate,
}
use esp_hosted_open.Bytes.{u8, le16, le32, le64, byte_at, u32_at}
use esp_hosted_open.Status.{esp_ok, esp_err_no_mem, esp_err_invalid_arg}
use esp_hosted_open.Proto.Ids
use esp_hosted_open.Proto.Ids.{Call, req_id, resp_id}
use esp_hosted_open.Host.Inflight.{Host, Rpc, World, Outcome, do_call}

-- A call with a body and an output buffer.
abbrev pub rpc : Call → List ℕ → Option (List ℕ) → ℕ → Rpc
rpc c body out cap = record {
  req_msg_id = req_id c;
  resp_msg_id = resp_id c;
  req_body = body;
  resp_body = out;
  resp_body_cap = cap;
}

-- The API functions with no output, as the request that each makes. A `bool` is 1 or 0 on the wire.
abbrev pub plain : Call → List ℕ → Rpc
plain c body = rpc c body none 0

-- ONE_BYTE_REQ
abbrev pub one_byte : Call → ℕ → Rpc
one_byte c v = plain c (u8 v ∷ [])

abbrev pub bool_byte : Bool → ℕ
bool_byte true = 1
bool_byte false = 0

abbrev pub one_bool : Call → Bool → Rpc
one_bool c b = one_byte c (bool_byte b)

unfoldable pub set_channel : ℕ → Rpc
set_channel v = one_byte Ids.set_channel v

unfoldable pub set_phy_11p : Bool → Rpc
set_phy_11p b = one_bool Ids.set_phy_11p b

unfoldable pub set_tx_power : ℕ → Rpc
set_tx_power dbm = one_byte Ids.set_tx_power dbm

unfoldable pub set_rx_gain : ℕ → Rpc
set_rx_gain v = one_byte Ids.set_rx_gain v

unfoldable pub set_agc_max_gain : ℕ → Rpc
set_agc_max_gain v = one_byte Ids.set_agc_max_gain v

unfoldable pub set_cca : Bool → Rpc
set_cca b = one_bool Ids.set_cca b

unfoldable pub set_low_rate : Bool → Rpc
set_low_rate b = one_bool Ids.set_low_rate b

unfoldable pub set_bandwidth : ℕ → Rpc
set_bandwidth v = one_byte Ids.set_bandwidth v

unfoldable pub reset_cca_counters : Rpc
reset_cca_counters = plain Ids.reset_cca_count []

unfoldable pub set_country_permissive : Rpc
set_country_permissive = plain Ids.set_country_perm []

unfoldable pub set_freq : ℕ → Rpc
unfolding le32
set_freq mhz = plain Ids.set_freq (le32 mhz)

unfoldable pub set_band : ℕ → Rpc
set_band v = one_byte Ids.set_band v

unfoldable pub set_chan_filt : ℕ → Rpc
unfolding le32
set_chan_filt mask = plain Ids.set_chan_filt (le32 mask)

unfoldable pub set_chan14_micro : Bool → Rpc
set_chan14_micro b = one_bool Ids.set_chan14_mic b

unfoldable pub set_rate : ℕ → Rpc
set_rate v = one_byte Ids.set_rate v

unfoldable pub set_most_tpw : ℕ → Rpc
set_most_tpw v = one_byte Ids.set_most_tpw v

unfoldable pub reset_rx_gain_table : Rpc
reset_rx_gain_table = plain Ids.reset_rx_gain_tbl []

unfoldable pub set_csi_dump : Bool → Rpc
set_csi_dump b = one_bool Ids.set_csi_dump b

unfoldable pub set_loopback : ℕ → Rpc
set_loopback v = one_byte Ids.set_loopback v

unfoldable pub set_bt_tx_gain : ℕ → Rpc
set_bt_tx_gain v = one_byte Ids.set_bt_tx_gain v

unfoldable pub set_bt_filter : ℕ → Rpc
unfolding le32
set_bt_filter v = plain Ids.set_bt_filter (le32 v)

unfoldable pub set_promisc : Bool → Rpc
set_promisc b = one_bool Ids.set_promisc b

unfoldable pub set_promisc_filter : ℕ → Rpc
unfolding le32
set_promisc_filter mask = plain Ids.set_promisc_filter (le32 mask)

-- The arguments come in the other order than on the wire.
unfoldable pub set_protocol : ℕ → ℕ → Rpc
set_protocol wifi_if mask = plain Ids.set_protocol (u8 mask ∷ u8 wifi_if ∷ 0 ∷ 0 ∷ [])

unfoldable pub set_csi_enable : Bool → Rpc
set_csi_enable b = one_bool Ids.set_csi_enable b

unfoldable pub espnow_init : Rpc
espnow_init = plain Ids.espnow_init []

unfoldable pub espnow_deinit : Rpc
espnow_deinit = plain Ids.espnow_deinit []

unfoldable pub ieee154_enable : Bool → Rpc
ieee154_enable b = one_bool Ids.ieee154_enable b

unfoldable pub ieee154_set_channel : ℕ → Rpc
ieee154_set_channel v = one_byte Ids.ieee154_set_chan v

unfoldable pub ieee154_set_pan_id : ℕ → Rpc
unfolding le16
ieee154_set_pan_id v = plain Ids.ieee154_set_panid (le16 v)

unfoldable pub ieee154_set_promiscuous : Bool → Rpc
ieee154_set_promiscuous b = one_bool Ids.ieee154_set_promisc b

unfoldable pub set_event_mask : ℕ → Rpc
unfolding le64
set_event_mask mask = plain Ids.set_event_mask (le64 mask)

-- The functions that check pointers or lengths first: an error, or the request. A pointer is the bytes
-- behind it, `none` for NULL; `heap` tells whether the function's own mallocs succeed.
pub data Checked : Type 0 where
  refuse : ℕ → Checked
  send : Rpc → Checked

abbrev pub non_null : Option (List ℕ) → (List ℕ → Checked) → Checked
non_null none k = refuse esp_err_invalid_arg
non_null (some bs) k = k bs

-- a buffer of 1 to `limit` bytes
abbrev pub sized : ℕ → List ℕ → Bool → Checked → Checked
sized limit bs heap k =
    if (length bs == 0) || ltb limit (length bs)
    then refuse esp_err_invalid_arg
    else if heap
    then k
    else refuse esp_err_no_mem

unfoldable pub tx_80211 : Bool → ℕ → Option (List ℕ) → Bool → Checked
unfolding le16
tx_80211 heap wifi_if frame en_seq_nr = non_null frame λ bs. sized 1500 bs heap (
    send (
      plain Ids.tx_80211
        (u8 wifi_if ∷ bool_byte en_seq_nr ∷ 0 ∷ 0 ∷ (le16 (length bs) ++ (0 ∷ 0 ∷ bs)))))

unfoldable pub set_mac : ℕ → Option (List ℕ) → Checked
set_mac wifi_if mac =
    non_null mac λ m. send (plain Ids.set_mac (u8 wifi_if ∷ (take 6 m ++ (0 ∷ []))))

unfoldable pub ftm_initiate : Option (List ℕ) → ℕ → ℕ → ℕ → Checked
ftm_initiate peer_mac frames period channel = non_null peer_mac λ m.
    send
      (plain Ids.ftm_initiate (take 6 m ++ (u8 frames ∷ u8 period ∷ u8 channel ∷ 0 ∷ 0 ∷ 0 ∷ [])))

unfoldable pub espnow_set_pmk : Option (List ℕ) → Checked
espnow_set_pmk pmk = non_null pmk λ k. send (plain Ids.espnow_set_pmk (take 16 k))

abbrev pub lmk_or_zeros : Option (List ℕ) → List ℕ
lmk_or_zeros none = replicate 16 0
lmk_or_zeros (some k) = take 16 k

unfoldable pub espnow_add_peer : Option (List ℕ) → Option (List ℕ) → ℕ → ℕ → Bool → Checked
espnow_add_peer peer_mac lmk channel wifi_if encrypt = non_null peer_mac λ m. send (
    plain Ids.espnow_add_peer
      (take 6 m ++ (lmk_or_zeros lmk ++ (u8 channel ∷ u8 wifi_if ∷ bool_byte encrypt ∷ 0 ∷ []))))

unfoldable pub espnow_del_peer : Option (List ℕ) → Checked
espnow_del_peer peer_mac = non_null peer_mac λ m. send (plain Ids.espnow_del_peer (take 6 m))

unfoldable pub espnow_send : Bool → Option (List ℕ) → Option (List ℕ) → Checked
unfolding le16
espnow_send heap peer_mac payload = non_null peer_mac λ m.
    non_null payload
      λ bs. sized 250 bs heap (send (plain Ids.espnow_send (take 6 m ++ (le16 (length bs) ++ bs))))

unfoldable pub ieee154_tx_raw : Bool → Option (List ℕ) → Bool → Checked
unfolding le16
ieee154_tx_raw heap frame cca = non_null frame λ bs.
    sized 127 bs heap
      (send (plain Ids.ieee154_tx_raw (bool_byte cca ∷ 0 ∷ (le16 (length bs) ++ bs))))

-- What such a function returns.
unfoldable pub run_checked : World → Checked → Host → ℕ × Host
unfolding do_call
run_checked w (refuse st) h = (st, h)
run_checked w (send r) h = let (o, h') = do_call w r h in (o.result, h')

-- The getters: a status, and what is written through the pointer, `none` if nothing is. Of an output
-- buffer on the stack that is not initialised, `junk` is the contents.
abbrev pub written : Outcome → List ℕ
written o = elim (o.body) [ none ↦ [] | some bs ↦ bs ]

abbrev pub when_ok {ℓ} : {A : Type ℓ} → (List ℕ → A) → Outcome × Host → (ℕ × Option A) × Host
when_ok f (o, h) =
    if o.result == esp_ok then ((esp_ok, some (f (written o))), h) else ((o.result, none), h)

-- get_phy_rssi, get_most_tpw, get_noise_floor and get_temperature, by their request: int8_t v = 0.
unfoldable pub get_byte : Call → World → Host → (ℕ × Option ℕ) × Host
unfolding do_call
get_byte c w h = when_ok (λ bs. byte_at bs 0) (do_call w (rpc c [] (some (0 ∷ [])) 1) h)

unfoldable pub get_cca_counters : List ℕ → World → Host → (ℕ × Option (ℕ × ℕ)) × Host
unfolding do_call u32_at
get_cca_counters junk w h =
    when_ok (λ bs. (u32_at bs 0, u32_at bs 4))
      (do_call w (rpc Ids.get_cca_counters [] (some junk) 8) h)

-- esp_hosted_open_info_t
pub record Info : Type 0 where
  pub channel : ℕ
  pub tx_power_dbm : ℕ
  pub phy_11p_armed : Bool
  pub cca_enabled : Bool
  pub low_rate_enabled : Bool
  pub agc_max_gain : ℕ
  pub fw_version : List ℕ

abbrev pub is_set : ℕ → Bool
is_set b = not (b == 0)

unfoldable pub read_info : List ℕ → Info
read_info bs = record {
  channel = byte_at bs 0;
  tx_power_dbm = byte_at bs 1;
  phy_11p_armed = is_set (byte_at bs 2);
  cca_enabled = is_set (byte_at bs 3);
  low_rate_enabled = is_set (byte_at bs 4);
  agc_max_gain = byte_at bs 5;
  fw_version = set (take 32 (drop 8 bs)) 31 0;
}

-- `out` is NULL or not.
unfoldable pub get_info : Bool → List ℕ → World → Host → (ℕ × Option Info) × Host
unfolding do_call read_info
get_info out junk w h =
    if out
    then when_ok read_info (do_call w (rpc Ids.get_info [] (some junk) 40) h)
    else ((esp_err_invalid_arg, none), h)

-- The status, and the sixteen bytes of `caps`, which are cleared first. `out` is NULL or not.
unfoldable pub get_caps : Bool → World → Host → (ℕ × List ℕ) × Host
unfolding do_call
get_caps out w h =
    if out
    then (let (o, h') = do_call w (rpc Ids.get_caps [] (some (replicate 16 0)) 16) h in
        ((o.result, written o), h'))
    else ((esp_err_invalid_arg, []), h)

unfoldable pub has_capability : ℕ → List ℕ → Bool
has_capability request_msg_id caps =
    let low = bit_and request_msg_id 0xFF in
    if leb 128 low then false else is_set (bit_and (byte_at caps (low / 8)) (2 ^ (low % 8)))
