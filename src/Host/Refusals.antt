-- ===== src/Host/Refusals.antt =====
-- The argument checks of the API functions that send a frame (esp_hosted_open/src/phy_rpc.c).
use esp_hosted_open.Prelude.{ℕ, ◌<◌, ◌≡◌, ◌⊎◌, inl, inr, ap, Bool, some, List, arith, length}
use esp_hosted_open.Status.{esp_err_invalid_arg}
use esp_hosted_open.Host.Inflight.{Host, World}
use esp_hosted_open.Host.Api.{
  Checked, refuse, sized, tx_80211, espnow_send, ieee154_tx_raw, run_checked,
}

-- an empty buffer, or one that is longer than the limit
abbrev pub IsBadLength : ℕ → List ℕ → Type 0
IsBadLength limit bs = (length bs ≡ 0) ⊎ (limit < length bs)

sized-refused :
    (limit : ℕ) (bs : List ℕ) (heap : Bool) (k : Checked)
    → IsBadLength limit bs
    → sized limit bs heap k ≡ refuse esp_err_invalid_arg
sized-refused limit bs heap k (inl e) = ground arith
sized-refused limit bs heap k (inr h) = ground arith

-- A raw frame that is empty or longer than 1500 bytes, an ESP-NOW payload that is empty or longer than
-- 250 and an 802.15.4 frame that is empty or longer than 127 are refused with ESP_ERR_INVALID_ARG,
-- whatever memory and transport do: no slot is taken, no op_id is used and nothing is sent.
pub run_checked-refused :
    (w : World) (h : Host) (heap flag : Bool) (wifi_if : ℕ) (mac raw payload frame : List ℕ)
    → IsBadLength 1500 raw
    → IsBadLength 250 payload
    → IsBadLength 127 frame
    → (run_checked w (tx_80211 heap wifi_if (some raw) flag) h ≡ (esp_err_invalid_arg, h))
      × (run_checked w (espnow_send heap (some mac) (some payload)) h ≡ (esp_err_invalid_arg, h))
      × (run_checked w (ieee154_tx_raw heap (some frame) flag) h ≡ (esp_err_invalid_arg, h))
unfolding run_checked tx_80211 espnow_send ieee154_tx_raw
run_checked-refused w h heap flag wifi_if mac raw payload frame a b c = (
  ap (λ k. run_checked w k h) (sized-refused 1500 raw heap _ a),
  ap (λ k. run_checked w k h) (sized-refused 250 payload heap _ b),
  ap (λ k. run_checked w k h) (sized-refused 127 frame heap _ c),
)
