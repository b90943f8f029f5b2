-- ===== src/Router/Ports.antt =====
-- The host's static ports: the lists that nw_split_config_host_static_port_fwd_rules parses
-- (slave/main/nw_split_router.c), and the searches in them.
pub mod Parse
use esp_hosted_open.Prelude.{
  ℕ, ◌+◌, ◌-◌, ◌*◌, ◌%◌, Bool, true, false, ◌&&◌, ◌||◌, not, Option, none, some, List, [], ◌∷◌,
  ◌++◌, ltb, leb, ◌==◌, if◌then◌else◌, length, take,
}

-- MAX_ALLOWED_TCP_SRC_PORTS and the other three
abbrev pub max_ports : ℕ
max_ports = 10

-- sizeof(port_buf)
abbrev pub port_buf_size : ℕ
port_buf_size = 6

-- The variables of the parsing loop: port_buf up to port_buf_idx, and the ports stored so far.
pub record Scan : Type 0 where
  pub port_buf : List ℕ
  pub ports : List ℕ

abbrev pub is_digit : ℕ → Bool
is_digit c = leb 48 c && leb c 57

-- atoi, of a text of digits
abbrev pub atoi_from : ℕ → List ℕ → ℕ
atoi_from n [] = n
atoi_from n (c ∷ cs) = atoi_from (10 * n + (c - 48)) cs

-- a digit into port_buf, and the step back when the buffer is full
abbrev pub store_digit : ℕ → List ℕ → List ℕ
store_digit c buf =
    let stored = buf ++ (c ∷ []) in
    if leb (port_buf_size - 1) (length stored) then take (port_buf_size - 2) stored else stored

abbrev pub is_empty : List ℕ → Bool
is_empty [] = true
is_empty (x ∷ xs) = false

-- port_buf into the array, as a uint16_t
abbrev pub store_port : Scan → Scan
store_port s =
    if is_empty s.port_buf
    then s
    else record { port_buf = []; ports = s.ports ++ (atoi_from 0 s.port_buf % 65536 ∷ []) }

-- One round of the loop.
unfoldable pub scan_char : ℕ → Scan → Scan
scan_char c s =
    if is_digit c
    then record s { port_buf = store_digit c s.port_buf }
    else if c == 44
    then store_port s
    else s

unfoldable pub scan_ports : ℕ → List ℕ → Scan → Scan
unfolding scan_char
scan_ports max [] s = s
scan_ports max (c ∷ cs) s =
    let rest = scan_ports max cs (scan_char c s) in if ltb (length s.ports) max then rest else s

-- What the loop and the last port behind it leave in the array.
unfoldable pub parse_ports : ℕ → List ℕ → List ℕ
unfolding scan_ports
parse_ports max text =
    (store_port (scan_ports max text (record { port_buf = []; ports = [] }))).ports

-- A list of ports, and its `initialized` flag.
pub record PortList : Type 0 where
  pub ports : List ℕ
  pub initialized : Bool

-- init_allowed_ports, for one of the four kinds. A string is its bytes, `none` for NULL.
unfoldable pub init_allowed_ports : Option (List ℕ) → PortList → PortList
unfolding parse_ports
init_allowed_ports none l = if l.initialized then l else record l { ports = [] }
init_allowed_ports (some text) l =
    if l.initialized
    then l
    else if is_empty text
    then record l { ports = [] }
    else record { ports = parse_ports max_ports text; initialized = true }

-- The four lists.
pub record Allowed : Type 0 where
  pub tcp_src : PortList
  pub tcp_dst : PortList
  pub udp_src : PortList
  pub udp_dst : PortList

-- The test in front of each call: a string that is there and not empty.
abbrev pub init_if_given : Option (List ℕ) → PortList → PortList
init_if_given none l = l
init_if_given (some text) l = if is_empty text then l else init_allowed_ports (some text) l

unfoldable pub init_allowed_tcp_ports : Option (List ℕ) → Option (List ℕ) → Allowed → Allowed
unfolding init_allowed_ports
init_allowed_tcp_ports src dst a = record a {
  tcp_src = init_if_given src a.tcp_src;
  tcp_dst = init_if_given dst a.tcp_dst;
}

unfoldable pub init_allowed_udp_ports : Option (List ℕ) → Option (List ℕ) → Allowed → Allowed
unfolding init_allowed_ports
init_allowed_udp_ports src dst a = record a {
  udp_src = init_if_given src a.udp_src;
  udp_dst = init_if_given dst a.udp_dst;
}

-- nw_split_config_host_static_port_fwd_rules; it always returns 0.
unfoldable pub config_host_static_port_fwd_rules :
    Option (List ℕ) → Option (List ℕ) → Option (List ℕ) → Option (List ℕ) → Allowed → Allowed
unfolding init_allowed_tcp_ports init_allowed_udp_ports
config_host_static_port_fwd_rules tcp_src tcp_dst udp_src udp_dst a =
    init_allowed_udp_ports udp_src udp_dst (init_allowed_tcp_ports tcp_src tcp_dst a)

-- is_tcp_src_port_allowed and the other three
unfoldable pub is_port_allowed : ℕ → List ℕ → Bool
is_port_allowed port [] = false
is_port_allowed port (p ∷ ps) = port == p || is_port_allowed port ps
