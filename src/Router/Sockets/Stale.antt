-- ===== src/Router/Sockets/Stale.antt =====
-- How long the cache of a port answers, against lwIP's lists.
use esp_hosted_open.Prelude.{
  ℕ, ◌+◌, ◌/◌, ◌^◌, ◌<◌, ◌≤◌, ◌≡◌, ◌≢◌, refl, Bool, List, [], ◌∷◌, arith, length, replicate, ap,
  suc,
}
use esp_hosted_open.Router.Sockets.{Cache, Moment, listens, is_local_port_open}

-- the answers to a sequence of calls for one port, and the cache after it
abbrev pub answers : ℕ → List Moment → Cache → List Bool
answers port [] c = []
answers port (m ∷ ms) c =
    (is_local_port_open m port c).0 ∷ answers port ms (is_local_port_open m port c).1

-- Moments in order, each less than 1000 ticks of 1024 microseconds after the one before.
abbrev pub IsBusy : ℕ → List Moment → Type 0
IsBusy last [] = Unit
IsBusy last (m ∷ ms) =
    (last ≤ m.time_us / 1024)
    × (m.time_us / 1024 < last + 1000)
    × (m.time_us / 1024 < 2 ^ 64)
    × IsBusy (m.time_us / 1024) ms

hit :
    (m : Moment) (port : ℕ) (c : Cache)
    → c.last_port ≡ port
    → c.last_check_time ≤ m.time_us / 1024
    → m.time_us / 1024 < c.last_check_time + 1000
    → m.time_us / 1024 < 2 ^ 64
    → is_local_port_open m port c ≡ (c.last_result, record c { last_check_time = m.time_us / 1024 })
unfolding is_local_port_open
hit m port c p lo hi small = ground arith

miss :
    (m : Moment) (port : ℕ) (c : Cache)
    → c.last_port ≢ port
    → is_local_port_open m port c ≡ (
      listens port m.listening,
      record {
        last_check_time = m.time_us / 1024;
        last_result = listens port m.listening;
        last_port = port;
      },
    )
unfolding is_local_port_open
miss m port c other = ground arith

busy_answers :
    (port : ℕ) (ms : List Moment) (c : Cache)
    → c.last_port ≡ port
    → IsBusy c.last_check_time ms
    → answers port ms c ≡ replicate (length ms) c.last_result
busy_answers port [] c p b = refl
busy_answers port (m ∷ ms) c p (lo, hi, small, b) = rw (hit m port c p lo hi small) (
    ap (λ l. c.last_result ∷ l)
      (busy_answers port ms (record c { last_check_time = m.time_us / 1024 }) p b))

-- The first answer for a port that is not in the cache is what lwIP's list says; and as long as each
-- further call for the port comes within 1000 ticks of the call before, every answer is that first
-- one, however long it goes on and whatever is opened or closed meanwhile.
pub is_local_port_open_busy :
    (port : ℕ) (m : Moment) (ms : List Moment) (c : Cache)
    → c.last_port ≢ port
    → IsBusy (m.time_us / 1024) ms
    → answers port (m ∷ ms) c ≡ replicate (suc (length ms)) (listens port m.listening)
is_local_port_open_busy port m ms c other b =
    let asked : Cache = record {
      last_check_time = m.time_us / 1024;
      last_result = listens port m.listening;
      last_port = port;
    } in
    rw (miss m port c other)
      (ap (λ l. listens port m.listening ∷ l) (busy_answers port ms asked refl b))

-- A call that comes 1000 ticks or more after the last one for the port, or after one for another port,
-- answers what lwIP's list says, and remembers it.
pub is_local_port_open_fresh :
    (m : Moment) (port : ℕ) (c : Cache)
    → (c.last_port ≡ port → c.last_check_time + 1000 ≤ m.time_us / 1024)
    → m.time_us / 1024 < 2 ^ 64
    → is_local_port_open m port c ≡ (
      listens port m.listening,
      record {
        last_check_time = m.time_us / 1024;
        last_result = listens port m.listening;
        last_port = port;
      },
    )
unfolding is_local_port_open
is_local_port_open_fresh m port c old small = ground (arith, old)
