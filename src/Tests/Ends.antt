-- ===== src/Tests/Ends.antt =====
-- Whole calls, capabilities and addresses at concrete inputs.
use esp_hosted_open.Prelude.{◌≡◌, refl, true, some, [], ◌∷◌, ◌++◌, arith}
use esp_hosted_open.Bytes.{le32}
use esp_hosted_open.Status.{esp_ok}
use esp_hosted_open.Proto.Ids
use esp_hosted_open.Proto.Ids.{req_id, resp_id}
use esp_hosted_open.Slave.{Chip, HasMemory, phy_force_rx_gain}
use esp_hosted_open.Slave.Phy.{on_get_phy_rssi}
use esp_hosted_open.Slave.Caps.{collect_caps}
use esp_hosted_open.Slave.Handle.{handle, action, request_size}
use esp_hosted_open.Host.Inflight.{Rpc, World, do_call}
use esp_hosted_open.Host.Inflight.Reach.{IsSound, initial_host, empty_slot}
use esp_hosted_open.Host.Api.{rpc, has_capability}
use esp_hosted_open.Link.{wire}
use esp_hosted_open.Link.Calls.{answer_bytes, do_call-handle}
use esp_hosted_open.Link.Caps.{has_capability-collect_caps}
use esp_hosted_open.Tests.Requests.{full_chip, booted}

-- a chip that answers -70 to every call
abbrev quiet_chip : Chip
quiet_chip = record { present = λ f. true; reply = λ log a. 186; alloc = λ log n. true }

quiet_chip-HasMemory : HasMemory quiet_chip
quiet_chip-HasMemory log n = refl

abbrev get_rssi : Rpc
get_rssi = rpc Ids.get_phy_rssi [] (some (0 ∷ [])) 1

abbrev transport : World
transport = record {
  alloc = true;
  send = λ id bs. esp_ok;
  early = (resp_id Ids.get_phy_rssi, answer_bytes 1 0 (186 ∷ [])) ∷ [];
  late = [];
}

initial-IsSound : IsSound initial_host
initial-IsSound = record { four = refl; distinct = ground arith; below = ground arith }

do_call-handle_example :
    ((handle quiet_chip Ids.get_phy_rssi (wire 1 get_rssi) booted).sent
      ≡ (le32 (resp_id Ids.get_phy_rssi) ++ answer_bytes 1 0 (186 ∷ [])) ∷ [])
    × ((do_call transport get_rssi initial_host).0
        ≡ record { result = esp_ok; body = some (186 ∷ []); body_len = some 1 })
unfolding action request_size on_get_phy_rssi le32
do_call-handle_example =
    do_call-handle quiet_chip booted Ids.get_phy_rssi (on_get_phy_rssi quiet_chip) transport
      get_rssi initial_host empty_slot [] [] quiet_chip-HasMemory refl (omega arith) refl refl
      initial-IsSound (omega arith) refl refl refl refl refl tt tt tt

has_capability-collect_caps_example :
    has_capability (req_id Ids.set_rx_gain) (collect_caps full_chip)
    ≡ full_chip.present phy_force_rx_gain
has_capability-collect_caps_example = has_capability-collect_caps full_chip Ids.set_rx_gain
