-- ===== src/Tests/Routing.antt =====
-- The router at concrete inputs.
use esp_hosted_open.Memory.{Memory}
use esp_hosted_open.Prelude.{
  ℕ, ◌+◌, ◌%◌, not, ltb, ◌<◌, ◌≡◌, ◌≢◌, ◌⊎◌, refl, true, false, some, [], ◌∷◌, get_or, arith,
}
use esp_hosted_open.Router.Ports.{Allowed, PortList, is_port_allowed, parse_ports}
use esp_hosted_open.Router.Ports.Parse.{csv, parse_ports-csv}
use esp_hosted_open.Router.Sockets.{Cache}
use esp_hosted_open.Router.Route.{
  slave_lwip, Build, Router, Now, be16_at, ip_payload, dhcp_client_port, route_sleeping_tcp,
  host_mqtt_wakeup_triggered, filter_and_route_packet,
}
use esp_hosted_open.Router.Route.Sleeping.{is_reserved, dropped}
use esp_hosted_open.Router.Receive.{sent_eb, wlan_sta_rx_callback}
use esp_hosted_open.Router.Receive.Released.{
  releases, wlan_sta_rx_callback-releases, wlan_sta_rx_callback_asleep,
}
use esp_hosted_open.Sleep.Wakeup.{written}

-- "80,50000"
parse_ports-csv_example :
    parse_ports 10 (csv (56 ∷ 48 ∷ []) ((53 ∷ 48 ∷ 48 ∷ 48 ∷ 48 ∷ []) ∷ [])) ≡ 80 ∷ 5000 ∷ []
parse_ports-csv_example =
    parse_ports-csv 10 (56 ∷ 48 ∷ []) ((53 ∷ 48 ∷ 48 ∷ 48 ∷ 48 ∷ []) ∷ [])
      (refl, (refl, (refl, tt)), (refl, (refl, (refl, (refl, (refl, (refl, tt))))), tt))

abbrev no_ports : PortList
no_ports = record { ports = []; initialized = false }

abbrev unset : Allowed
unset = record { tcp_src = no_ports; tcp_dst = no_ports; udp_src = no_ports; udp_dst = no_ports }

abbrev unused : Cache
unused = record { last_check_time = 0; last_result = false; last_port = 0 }

abbrev asleep : Now
asleep = record {
  tcp = record { time_us = 0; listening = [] };
  udp = record { time_us = 0; listening = [] };
  power_saving = true;
}

-- ports from 50000 on are the host's
abbrev build : Build
build = record {
  default_bridge = slave_lwip;
  is_remote_tcp = λ p. not (ltb p 50000);
  is_local_tcp = λ p. ltb p 50000;
  is_remote_udp = λ p. not (ltb p 50000);
  is_local_udp = λ p. ltb p 50000;
  tcph_flags = λ h. h % 64;
}

-- an IPv4 packet without options of TCP, from port 80 to 51200
abbrev packet : Memory
packet i =
    get_or
      (0 ∷ 1 ∷ 2 ∷ 3 ∷ 4 ∷ 5 ∷ 0 ∷ 1 ∷ 2 ∷ 3 ∷ 4 ∷ 5 ∷ 8 ∷ 0 ∷ 69 ∷ 0 ∷ 0 ∷ 40 ∷ 0 ∷ 0 ∷ 0 ∷ 0 ∷ 64
        ∷ 6 ∷ 0 ∷ 0 ∷ 10 ∷ 0 ∷ 0 ∷ 1 ∷ 10 ∷ 0 ∷ 0 ∷ 2 ∷ 0 ∷ 80 ∷ 200 ∷ 0 ∷ [])
      i 0
    % 256

abbrev reserving : Router
reserving = record {
  allowed = record unset { tcp_src = record { ports = 80 ∷ []; initialized = true } };
  tcp_cache = unused;
  udp_cache = unused;
}

abbrev plain : Router
plain = record { allowed = unset; tcp_cache = unused; udp_cache = unused }

packet_byte : (i : ℕ) → packet i < 256
packet_byte i = omega arith

wlan_sta_rx_callback_asleep_example : is_reserved packet reserving.allowed ≡ true
unfolding wlan_sta_rx_callback filter_and_route_packet is_port_allowed
wlan_sta_rx_callback_asleep_example =
    wlan_sta_rx_callback_asleep build asleep true true true (some (written true)) packet reserving
      (sent_eb (written true) ∷ []) (packet_byte, (λ h. omega arith), refl) refl refl refl

wlan_sta_rx_callback-releases_example : releases (sent_eb (written true) ∷ []) ≡ 1
unfolding wlan_sta_rx_callback filter_and_route_packet is_port_allowed
wlan_sta_rx_callback-releases_example =
    wlan_sta_rx_callback-releases build asleep true true true (some (written true)) packet reserving
      (sent_eb (written true) ∷ []) refl

dropped_example :
    (true ≡ true)
    × (is_reserved packet unset ≡ false)
    × (((packet 23 ≡ 6) × (build.is_remote_tcp (be16_at packet (ip_payload packet + 2)) ≡ true))
        ⊎ ((packet 23 ≡ 17)
            × (build.is_remote_udp (be16_at packet (ip_payload packet + 2)) ≡ true)
            × (be16_at packet (ip_payload packet + 2) ≢ dhcp_client_port)))
unfolding filter_and_route_packet is_port_allowed route_sleeping_tcp host_mqtt_wakeup_triggered
dropped_example = dropped build asleep packet plain (ground arith) refl
