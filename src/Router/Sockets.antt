-- ===== src/Router/Sockets.antt =====
-- Whether a local port is open, with the cache in front of lwIP's lists (is_local_tcp_port_open and
-- is_local_udp_port_open of slave/main/nw_split_router.c). What the lists hold enters as a list of ports.
pub mod Stale
use esp_hosted_open.Prelude.{
  ℕ, ◌+◌, ◌-◌, ◌/◌, ◌%◌, ◌^◌, Bool, false, ◌&&◌, ◌||◌, List, [], ◌∷◌, ltb, ◌==◌, if◌then◌else◌,
}

-- tcp_cache, and udp_cache
pub record Cache : Type 0 where
  pub last_check_time : ℕ
  pub last_result : Bool
  pub last_port : ℕ

-- The moment of a call: esp_timer_get_time in microseconds, and the ports that lwIP listens on.
pub record Moment : Type 0 where
  pub time_us : ℕ
  pub listening : List ℕ

abbrev pub listens : ℕ → List ℕ → Bool
listens port [] = false
listens port (p ∷ ps) = p == port || listens port ps

-- current_time - last_check_time, in uint64_t
abbrev pub elapsed : ℕ → ℕ → ℕ
elapsed now last = (now + 2 ^ 64 - last) % 2 ^ 64

unfoldable pub is_local_port_open : Moment → ℕ → Cache → Bool × Cache
is_local_port_open m port c =
    let now = m.time_us / 1024 in
    if (c.last_port == port) && ltb (elapsed now c.last_check_time) 1000
    then (c.last_result, record c { last_check_time = now })
    else (
      listens port m.listening,
      record { last_check_time = now; last_result = listens port m.listening; last_port = port },
    )
