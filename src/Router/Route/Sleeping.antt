-- ===== src/Router/Route/Sleeping.antt =====
-- What the router does with packets while the host sleeps.
use esp_hosted_open.Memory.{Memory}
use esp_hosted_open.Prelude.{
  ℕ, ◌+◌, ◌*◌, ◌/◌, ◌%◌, ◌<◌, ◌≡◌, ◌≢◌, refl, Bool, true, false, ◌&&◌, ◌||◌, arith, ◌==◌, ◌⊎◌, inl,
  inr, if◌then◌else◌,
}
use esp_hosted_open.Router.Ports.{Allowed, is_port_allowed}
use esp_hosted_open.Router.Route.{
  Bridge, slave_lwip, host_lwip, invalid, Build, Router, Now, be16_at, ip_payload,
  route_sleeping_tcp, route_tcp_range, route_tcp, route_udp_range, route_udp, route_icmp, route_arp,
  filter_and_route_packet, dhcp_client_port,
}

-- a TCP or UDP packet of a port that is reserved for the host
abbrev pub is_reserved : Memory → Allowed → Bool
is_reserved m a =
    be16_at m 12 == 0x0800
    && (m 23 == 6
          && (is_port_allowed (be16_at m (ip_payload m)) a.tcp_src.ports
              || is_port_allowed (be16_at m (ip_payload m + 2)) a.tcp_dst.ports)
        || m 23 == 17
          && (is_port_allowed (be16_at m (ip_payload m)) a.udp_src.ports
              || is_port_allowed (be16_at m (ip_payload m + 2)) a.udp_dst.ports))

module _ (build : Build) (now : Now) (m : Memory) where
  -- TCPH_FLAGS is an uint8_t, so the length of the header comes out as 0, and the text is looked for in
  -- the source port, whose first byte is 7.
  sleeping_tcp :
      (tcp src : ℕ)
      → m tcp < 256
      → m (tcp + 1) < 256
      → build.tcph_flags (be16_at m (tcp + 12)) < 256
      → src ≡ be16_at m tcp
      → route_sleeping_tcp build now m tcp src ≡ invalid
  unfolding route_sleeping_tcp
  sleeping_tcp tcp src a b f e =
      let at_header : tcp + build.tcph_flags (be16_at m (tcp + 12)) / 4096 * 4 ≡ tcp =
        omega arith in
      rw at_header (ground arith)

  -- All that the proofs below need of the frame and the build: memory holds bytes, TCPH_FLAGS is an
  -- uint8_t, and unclassified packets stay on the co-processor.
  abbrev pub IsPlain : Type 0
  IsPlain =
      ((i : ℕ) → m i < 256)
      × ((h : ℕ) → build.tcph_flags h < 256)
      × (build.default_bridge ≡ slave_lwip)

  sleeping_tcp_range :
      (tcp dst : ℕ)
      → IsPlain
      → now.power_saving ≡ true
      → route_tcp_range build now m tcp (be16_at m tcp) dst ≢ host_lwip
  unfolding route_tcp_range
  sleeping_tcp_range tcp dst (bytes, flags, d) p =
      ground (arith, sleeping_tcp tcp (be16_at m tcp) (bytes tcp) (bytes (tcp + 1)) (flags _) refl)

  sleeping_udp_range :
      (dst : ℕ) → IsPlain → now.power_saving ≡ true → route_udp_range build now m dst ≢ host_lwip
  unfolding route_udp_range
  sleeping_udp_range dst (bytes, flags, d) p = ground arith

  sleeping_route_tcp :
      (tcp : ℕ) (r : Router)
      → IsPlain
      → now.power_saving ≡ true
      → (route_tcp build now m tcp r).0 ≡ host_lwip
      → (is_port_allowed (be16_at m tcp) r.allowed.tcp_src.ports
          || is_port_allowed (be16_at m (tcp + 2)) r.allowed.tcp_dst.ports)
        ≡ true
  unfolding route_tcp
  sleeping_route_tcp tcp r plain p e =
      ground (arith, sleeping_tcp_range tcp (be16_at m (tcp + 2)) plain p)

  sleeping_route_udp :
      (udp : ℕ) (r : Router)
      → IsPlain
      → now.power_saving ≡ true
      → (route_udp build now m udp r).0 ≡ host_lwip
      → (is_port_allowed (be16_at m udp) r.allowed.udp_src.ports
          || is_port_allowed (be16_at m (udp + 2)) r.allowed.udp_dst.ports)
        ≡ true
  unfolding route_udp
  sleeping_route_udp udp r plain p e =
      ground (arith, sleeping_udp_range (be16_at m (udp + 2)) plain p)

  -- While the host sleeps, a packet is sent to it alone only on a port that is reserved for it: no other
  -- one, not even the MQTT message that is to wake it up.
  pub asleep_host :
      (r : Router)
      → IsPlain
      → now.power_saving ≡ true
      → (filter_and_route_packet build now m r).0 ≡ host_lwip
      → is_reserved m r.allowed ≡ true
  unfolding filter_and_route_packet route_icmp route_arp
  asleep_host r plain p e = ground (
    arith,
    sleeping_route_tcp (ip_payload m) r plain p,
    sleeping_route_udp (ip_payload m) r plain p,
  )

  dropped_tcp :
      (tcp : ℕ) (r : Router)
      → build.default_bridge ≢ invalid
      → (route_tcp build now m tcp r).0 ≡ invalid
      → (now.power_saving ≡ true)
        × ((is_port_allowed (be16_at m tcp) r.allowed.tcp_src.ports
              || is_port_allowed (be16_at m (tcp + 2)) r.allowed.tcp_dst.ports)
            ≡ false)
        × (build.is_remote_tcp (be16_at m (tcp + 2)) ≡ true)
  unfolding route_tcp route_tcp_range
  dropped_tcp tcp r d e = (ground arith, ground arith, ground arith)

  dropped_udp :
      (udp : ℕ) (r : Router)
      → build.default_bridge ≢ invalid
      → (route_udp build now m udp r).0 ≡ invalid
      → (now.power_saving ≡ true)
        × ((is_port_allowed (be16_at m udp) r.allowed.udp_src.ports
              || is_port_allowed (be16_at m (udp + 2)) r.allowed.udp_dst.ports)
            ≡ false)
        × (build.is_remote_udp (be16_at m (udp + 2)) ≡ true)
        × (be16_at m (udp + 2) ≢ dhcp_client_port)
  unfolding route_udp route_udp_range
  dropped_udp udp r d e = (ground arith, ground arith, ground arith, ground arith)

  kept_icmp : (icmp : ℕ) → build.default_bridge ≢ invalid → route_icmp build now m icmp ≢ invalid
  unfolding route_icmp
  kept_icmp icmp d = ground arith

  kept_arp : route_arp build now m ≢ invalid
  unfolding route_arp
  kept_arp = ground arith

  dropped_frame :
      (multicast ip arp : Bool) (a b c d : Bridge × Router)
      → a.0 ≢ invalid
      → c.0 ≢ invalid
      → d.0 ≢ invalid
      → (if multicast then a else if ip then b else if arp then c else d).0 ≡ invalid
      → (ip ≡ true) × (b.0 ≡ invalid)
  dropped_frame true ip arp a b c d x y z e = absurd (x e)
  dropped_frame false true arp a b c d x y z e = (refl, e)
  dropped_frame false false true a b c d x y z e = absurd (y e)
  dropped_frame false false false a b c d x y z e = absurd (z e)

  -- Which of the protocols a dropped IPv4 packet has.
  dropped_ip :
      (r : Router)
      → build.default_bridge ≢ invalid
      → (if m 23 == 6
          then route_tcp build now m (ip_payload m) r
          else if m 23 == 17
          then route_udp build now m (ip_payload m) r
          else if m 23 == 1
          then (route_icmp build now m (ip_payload m), r)
          else (build.default_bridge, r)).0
        ≡ invalid
      → ((m 23 ≡ 6) × ((route_tcp build now m (ip_payload m) r).0 ≡ invalid))
        ⊎ ((m 23 ≡ 17) × ((route_udp build now m (ip_payload m) r).0 ≡ invalid))
  dropped_ip r d e = let icmp = kept_icmp (ip_payload m) d in ground arith

  -- Only the TCP and UDP branches drop packets.
  dropped_protocol :
      (r : Router)
      → build.default_bridge ≢ invalid
      → (filter_and_route_packet build now m r).0 ≡ invalid
      → ((be16_at m 12 == 0x0800) ≡ true)
        × (((m 23 ≡ 6) × ((route_tcp build now m (ip_payload m) r).0 ≡ invalid))
            ⊎ ((m 23 ≡ 17) × ((route_udp build now m (ip_payload m) r).0 ≡ invalid)))
  unfolding filter_and_route_packet
  dropped_protocol r d e =
      let (ip, dropped) =
        dropped_frame (m 0 % 2 == 1) (be16_at m 12 == 0x0800) (be16_at m 12 == 0x0806)
          (slave_lwip, r) _ (route_arp build now m, r) (build.default_bridge, r) (ground arith)
          kept_arp d e in
      (ip, dropped_ip r d dropped)

  -- A packet is dropped only while the host sleeps, and then only one for a port of the host's range: a
  -- TCP packet, or a UDP packet other than to the DHCP client.
  pub dropped :
      (r : Router)
      → build.default_bridge ≢ invalid
      → (filter_and_route_packet build now m r).0 ≡ invalid
      → (now.power_saving ≡ true)
        × (is_reserved m r.allowed ≡ false)
        × (((m 23 ≡ 6) × (build.is_remote_tcp (be16_at m (ip_payload m + 2)) ≡ true))
            ⊎ ((m 23 ≡ 17)
                × (build.is_remote_udp (be16_at m (ip_payload m + 2)) ≡ true)
                × (be16_at m (ip_payload m + 2) ≢ dhcp_client_port)))
  dropped r d e =
      let (ip, which) = dropped_protocol r d e in
      elim which [
        | inl (y, t) ↦
            let (a, b, c) = dropped_tcp (ip_payload m) r d t in (a, ground arith, inl (y, c))
        | inr (y, u) ↦
            let (a, b, c, f) = dropped_udp (ip_payload m) r d u in (a, ground arith, inr (y, c, f))
      ]
