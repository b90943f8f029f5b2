-- ===== src/Router/Route.antt =====
-- nw_split_filter_and_route_packet (slave/main/nw_split_router.c). The frame is the memory from
-- frame_data on, since the code never looks at its length; the headers in it have their standard layout.
pub mod Sleeping
use esp_hosted_open.Memory.{Memory}
use esp_hosted_open.Prelude.{
  ℕ, zero, suc, ◌+◌, ◌*◌, ◌/◌, ◌%◌, Bool, true, false, ◌&&◌, ◌||◌, not, List, [], ◌∷◌, leb, ltb,
  ◌==◌, if◌then◌else◌, length,
}
use esp_hosted_open.Router.Ports.{Allowed, is_port_allowed}
use esp_hosted_open.Router.Sockets.{Cache, Moment, is_local_port_open}

-- hosted_l2_bridge
pub data Bridge : Type 0 where
  slave_lwip host_lwip both_lwip invalid : Bridge

-- What the build and lwIP provide: the default bridge, the port ranges of the two stacks, and
-- TCPH_FLAGS of a header, which lwIP reads from its two bytes of header length and flags.
pub record Build : Type 0 where
  pub default_bridge : Bridge
  pub is_remote_tcp : ℕ → Bool
  pub is_local_tcp : ℕ → Bool
  pub is_remote_udp : ℕ → Bool
  pub is_local_udp : ℕ → Bool
  pub tcph_flags : ℕ → ℕ

pub record Router : Type 0 where
  pub allowed : Allowed
  pub tcp_cache : Cache
  pub udp_cache : Cache

-- The surroundings of a call: lwIP's listeners for each protocol, the time, and whether the host
-- sleeps, which does not change during the call.
pub record Now : Type 0 where
  pub tcp : Moment
  pub udp : Moment
  pub power_saving : Bool

-- a 16-bit field in network order
abbrev pub be16_at : Memory → ℕ → ℕ
be16_at m i = 256 * m i + m (i + 1)

-- memcmp of the bytes at an offset
abbrev pub starts_with : Memory → ℕ → List ℕ → Bool
starts_with m i [] = true
starts_with m i (c ∷ cs) = m i == c && starts_with m (i + 1) cs

-- "wakeup-host"
abbrev pub wakeup_string : List ℕ
wakeup_string = 119 ∷ 97 ∷ 107 ∷ 101 ∷ 117 ∷ 112 ∷ 45 ∷ 104 ∷ 111 ∷ 115 ∷ 116 ∷ []

-- host_mqtt_wakeup_triggered
unfoldable pub host_mqtt_wakeup_triggered : Memory → ℕ → ℕ → Bool
host_mqtt_wakeup_triggered m payload len =
    leb (length wakeup_string) len && starts_with m payload wakeup_string

abbrev pub mqtt_port : ℕ
mqtt_port = 1883

abbrev pub iperf_port : ℕ
iperf_port = 5001

abbrev pub dhcp_client_port : ℕ
dhcp_client_port = 68

-- IPH_HL(iphdr) * 4 behind the Ethernet header
abbrev pub ip_payload : Memory → ℕ
ip_payload m = 14 + m 14 % 16 * 4

module _ (build : Build) (now : Now) (m : Memory) where
  -- the TCP packet that only a sleeping host makes special
  unfoldable pub route_sleeping_tcp : ℕ → ℕ → Bridge
  unfolding host_mqtt_wakeup_triggered
  route_sleeping_tcp tcp src =
      if src == mqtt_port
      then (if host_mqtt_wakeup_triggered m
            (tcp + build.tcph_flags (be16_at m (tcp + 12)) / 4096 * 4) (be16_at m (tcp + 14))
          then host_lwip
          else invalid)
      else invalid

  -- behind the test of the iperf port
  unfoldable pub route_tcp_range : ℕ → ℕ → ℕ → Bridge
  unfolding route_sleeping_tcp
  route_tcp_range tcp src dst =
      if build.is_remote_tcp dst
      then (if now.power_saving then route_sleeping_tcp tcp src else host_lwip)
      else if build.is_local_tcp dst
      then slave_lwip
      else build.default_bridge

  unfoldable pub route_tcp : ℕ → Router → Bridge × Router
  unfolding route_tcp_range is_local_port_open is_port_allowed
  route_tcp tcp r =
      let src = be16_at m tcp in
      let dst = be16_at m (tcp + 2) in
      if is_port_allowed src r.allowed.tcp_src.ports || is_port_allowed dst r.allowed.tcp_dst.ports
      then (host_lwip, r)
      else if dst == iperf_port
      then (let (open_here, c) = is_local_port_open now.tcp dst r.tcp_cache in
          let r' : Router = record r { tcp_cache = c } in
          (
            if open_here
                then slave_lwip
                else if not now.power_saving
                then host_lwip
                else route_tcp_range tcp src dst,
            r',
          ))
      else (route_tcp_range tcp src dst, r)

  unfoldable pub route_udp_range : ℕ → Bridge
  route_udp_range dst =
      if dst == dhcp_client_port
      then both_lwip
      else if build.is_remote_udp dst
      then (if now.power_saving then invalid else host_lwip)
      else if build.is_local_udp dst
      then slave_lwip
      else build.default_bridge

  unfoldable pub route_udp : ℕ → Router → Bridge × Router
  unfolding route_udp_range is_local_port_open is_port_allowed
  route_udp udp r =
      let src = be16_at m udp in
      let dst = be16_at m (udp + 2) in
      if is_port_allowed src r.allowed.udp_src.ports || is_port_allowed dst r.allowed.udp_dst.ports
      then (host_lwip, r)
      else if dst == iperf_port
      then (let (open_here, c) = is_local_port_open now.udp dst r.udp_cache in
          let r' : Router = record r { udp_cache = c } in
          (
            if open_here
                then slave_lwip
                else if not now.power_saving
                then host_lwip
                else route_udp_range dst,
            r',
          ))
      else (route_udp_range dst, r)

  -- Echo requests stay here; echo replies go to both, or stay here while the host sleeps.
  unfoldable pub route_icmp : ℕ → Bridge
  route_icmp icmp =
      if m icmp == 8
      then slave_lwip
      else if m icmp == 0
      then (if now.power_saving then slave_lwip else both_lwip)
      else build.default_bridge

  unfoldable pub route_arp : Bridge
  route_arp =
      if be16_at m 20 == 1 then slave_lwip else if now.power_saving then slave_lwip else both_lwip

  unfoldable pub filter_and_route_packet : Router → Bridge × Router
  unfolding route_tcp route_udp route_icmp route_arp
  filter_and_route_packet r =
      if m 0 % 2 == 1
      then (slave_lwip, r)
      else if be16_at m 12 == 0x0800
      then (if m 23 == 6
          then route_tcp (ip_payload m) r
          else if m 23 == 17
          then route_udp (ip_payload m) r
          else if m 23 == 1
          then (route_icmp (ip_payload m), r)
          else (build.default_bridge, r))
      else if be16_at m 12 == 0x0806
      then (route_arp, r)
      else (build.default_bridge, r)
