-- ===== src/Router/Receive/Released.antt =====
-- Who frees a received frame, and which frames a sleeping host gets (slave/main/esp_hosted_coprocessor.c).
use esp_hosted_open.Memory.{Memory}
use esp_hosted_open.Prelude.{ℕ, ◌+◌, ◌≡◌, refl, Bool, true, false, Option, List, [], ◌∷◌, arith}
use esp_hosted_open.Sleep.Wakeup.{Sent}
use esp_hosted_open.Router.Route.{
  Bridge, slave_lwip, host_lwip, both_lwip, invalid, Build, Router, Now, filter_and_route_packet,
}
use esp_hosted_open.Router.Route.Sleeping.{IsPlain, is_reserved, asleep_host}
use esp_hosted_open.Router.Receive.{
  Effect, freed_eb, netif_received, sent_eb, sent_copy, done, deliver, wlan_sta_rx_callback,
}

-- how often eb is freed, by the callback or by the one that took it over
abbrev pub releases : List Effect → ℕ
releases [] = 0
releases (freed_eb ∷ es) = 1 + releases es
releases (netif_received ∷ es) = 1 + releases es
releases (sent_eb x ∷ es) = 1 + releases es
releases (sent_copy x ∷ es) = releases es

-- whether the frame itself, and not a copy, went to the host
abbrev pub is_sent : List Effect → Bool
is_sent [] = false
is_sent (freed_eb ∷ es) = is_sent es
is_sent (netif_received ∷ es) = is_sent es
is_sent (sent_eb x ∷ es) = true
is_sent (sent_copy x ∷ es) = is_sent es

deliver-releases :
    (datapath has_netif can_alloc : Bool) (sent : Option Sent) (bridge : Bridge) (es : List Effect)
    → deliver datapath has_netif can_alloc sent bridge ≡ done es
    → (releases es ≡ 1) × (is_sent es ≡ true → bridge ≡ host_lwip)
unfolding deliver
deliver-releases datapath has_netif can_alloc sent host_lwip es e = (ground arith, λ s. refl)
deliver-releases datapath has_netif can_alloc sent slave_lwip es e =
    (ground arith, λ s. ground arith)
deliver-releases datapath has_netif can_alloc sent both_lwip es e =
    (ground arith, λ s. ground arith)
deliver-releases datapath has_netif can_alloc sent invalid es e = (ground arith, λ s. ground arith)

-- When the callback returns for a frame with its eb, eb has been freed or handed over exactly once,
-- wherever the frame went.
pub wlan_sta_rx_callback-releases :
    (build : Build) (now : Now) (datapath has_netif can_alloc : Bool) (sent : Option Sent)
    (m : Memory) (r : Router) (es : List Effect)
    → (wlan_sta_rx_callback build now true true datapath has_netif can_alloc sent m r).0 ≡ done es
    → releases es ≡ 1
unfolding wlan_sta_rx_callback
wlan_sta_rx_callback-releases build now datapath has_netif can_alloc sent m r es e =
    (deliver-releases datapath has_netif can_alloc sent (filter_and_route_packet build now m r).0 es
      e).0

-- While the host sleeps, with unclassified packets kept on the co-processor, a received frame is given
-- to process_tx_pkt for the host alone only if it is on a port that is reserved for the host; an MQTT
-- message that is to wake the host up is none.
pub wlan_sta_rx_callback_asleep :
    (build : Build) (now : Now) (datapath has_netif can_alloc : Bool) (sent : Option Sent)
    (m : Memory) (r : Router) (es : List Effect)
    → IsPlain build now m
    → now.power_saving ≡ true
    → (wlan_sta_rx_callback build now true true datapath has_netif can_alloc sent m r).0 ≡ done es
    → is_sent es ≡ true
    → is_reserved m r.allowed ≡ true
unfolding wlan_sta_rx_callback
wlan_sta_rx_callback_asleep build now datapath has_netif can_alloc sent m r es plain p e s =
    let (one, host) =
      deliver-releases datapath has_netif can_alloc sent (filter_and_route_packet build now m r).0
        es e in
    asleep_host build now m r plain p (host s)
