-- ===== src/Router/Receive.antt =====
-- wlan_sta_rx_callback (slave/main/esp_hosted_coprocessor.c), in a build with
-- CONFIG_ESP_HOSTED_NETWORK_SPLIT_ENABLED: a frame of the station goes where the router says.
pub mod Released
use esp_hosted_open.Memory.{Memory}
use esp_hosted_open.Prelude.{
  ℕ, Bool, true, false, ◌||◌, not, Option, none, some, List, [], ◌∷◌, if◌then◌else◌,
}
use esp_hosted_open.Router.Route.{
  Bridge, slave_lwip, host_lwip, both_lwip, invalid, Build, Router, Now, filter_and_route_packet,
}
use esp_hosted_open.Sleep.Wakeup.{Sent}

-- What is done with the frame: eb is freed; esp_netif_receive takes it over; process_tx_pkt gets it, and
-- frees it behind its write; or process_tx_pkt gets a copy.
pub data Effect : Type 0 where
  freed_eb netif_received : Effect
  sent_eb sent_copy : Sent → Effect

-- How the call ends: it returns, its assertion of memory fails, or process_tx_pkt still waits for the host.
pub data Received : Type 0 where
  done : List Effect → Received
  aborted waiting : Received

abbrev pub when_sent : Option Sent → (Sent → List Effect) → Received
when_sent none k = waiting
when_sent (some x) k = done (k x)

-- the part for the co-processor's network stack
abbrev pub to_netif : Bool → Effect
to_netif has_netif = if has_netif then netif_received else freed_eb

-- The switch. `sent` is what process_tx_pkt comes to for the frame; the other arguments are datapath,
-- slave_sta_netif, and whether the malloc of a copy succeeds.
unfoldable pub deliver : Bool → Bool → Bool → Option Sent → Bridge → Received
deliver datapath has_netif can_alloc sent host_lwip =
    if not datapath then done (freed_eb ∷ []) else when_sent sent (λ x. sent_eb x ∷ [])
deliver datapath has_netif can_alloc sent slave_lwip = done (to_netif has_netif ∷ [])
deliver datapath has_netif can_alloc sent both_lwip =
    if not can_alloc then aborted else when_sent sent (λ x. to_netif has_netif ∷ sent_copy x ∷ [])
deliver datapath has_netif can_alloc sent invalid = done (freed_eb ∷ [])

unfoldable pub wlan_sta_rx_callback :
    Build
    → Now
    → Bool
    → Bool
    → Bool
    → Bool
    → Bool
    → Option Sent
    → Memory
    → Router
    → Received × Router
unfolding deliver filter_and_route_packet
wlan_sta_rx_callback build now has_buffer has_eb datapath has_netif can_alloc sent m r =
    let (bridge, r') = filter_and_route_packet build now m r in
    if not has_buffer || not has_eb
    then (done (if has_eb then freed_eb ∷ [] else []), r)
    else (deliver datapath has_netif can_alloc sent bridge, r')
