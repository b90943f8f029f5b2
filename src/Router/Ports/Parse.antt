-- ===== src/Router/Ports/Parse.antt =====
-- What the parser of the host's static ports makes of a text (slave/main/nw_split_router.c).
use esp_hosted_open.Prelude.{
  ℕ, zero, suc, ◌+◌, ◌%◌, ◌≤◌, ◌<◌, ◌≡◌, refl, sym, ap, ◌∙◌, true, false, Option, none, some, List,
  [], ◌∷◌, ◌++◌, map, append-nil, append_assoc, arith, leb, ltb, ◌==◌, lt→ltb, le→ltb_false,
  Bool-cases, inl, inr, if◌then◌else◌, length, take, length-append, length-take, take-all,
}
use esp_hosted_open.Router.Ports.{
  Scan, is_digit, atoi_from, store_digit, is_empty, store_port, scan_char, scan_ports, parse_ports,
  max_ports, PortList, Allowed, init_allowed_ports, init_if_given,
  config_host_static_port_fwd_rules,
}

-- ports stored, and the one that is in the buffer
abbrev pub used : Scan → ℕ
used s = length s.ports + (if is_empty s.port_buf then 0 else 1)

store_used-lem :
    (buf ps : List ℕ)
    → used (store_port (record { port_buf = buf; ports = ps }))
      ≤ used (record { port_buf = buf; ports = ps })
store_used-lem [] ps = omega arith
store_used-lem (c ∷ cs) ps = omega (arith, length-append ps (atoi_from 0 (c ∷ cs) % 65536 ∷ []))

used_bound :
    (buf ps : List ℕ) (max : ℕ)
    → length ps < max
    → used (record { port_buf = buf; ports = ps }) ≤ max
used_bound [] ps max room = omega arith
used_bound (c ∷ cs) ps max room = omega arith

used-scan_char :
    (c : ℕ) (s : Scan) (max : ℕ) → length s.ports < max → used s ≤ max → used (scan_char c s) ≤ max
unfolding scan_char
used-scan_char c s max room fits =
    let a = used_bound (store_digit c s.port_buf) s.ports max room in
    let b = store_used-lem s.port_buf s.ports in
    elim (Bool-cases (is_digit c)) [
      | inl y ↦ rw y a
      | inr n ↦ elim (Bool-cases (c == 44)) [
        | inl y ↦ rw (n, y) (omega arith)
        | inr m ↦ rw (n, m) fits
      ]
    ]

used-scan_ports :
    (max : ℕ) (text : List ℕ) (s : Scan) → used s ≤ max → used (scan_ports max text s) ≤ max
unfolding scan_ports
used-scan_ports max [] s fits = fits
used-scan_ports max (c ∷ cs) s fits = elim (Bool-cases (ltb (length s.ports) max)) [
  | inl y ↦
      rw y (used-scan_ports max cs (scan_char c s) (used-scan_char c s max (ground arith) fits))
  | inr n ↦ rw n fits
]

length-parse_ports : (max : ℕ) (text : List ℕ) → length (parse_ports max text) ≤ max
unfolding parse_ports
length-parse_ports max text =
    let start : Scan = record { port_buf = []; ports = [] } in
    let end = scan_ports max text start in
    let a = used-scan_ports max text start (omega arith) in
    let b = store_used-lem end.port_buf end.ports in omega arith

abbrev pub AreFilled : Allowed → Type 0
AreFilled a =
    (length a.tcp_src.ports ≤ max_ports)
    × (length a.tcp_dst.ports ≤ max_ports)
    × (length a.udp_src.ports ≤ max_ports)
    × (length a.udp_dst.ports ≤ max_ports)

length-init_if_given :
    (text : Option (List ℕ)) (l : PortList)
    → length l.ports ≤ max_ports
    → length (init_if_given text l).ports ≤ max_ports
unfolding init_allowed_ports
length-init_if_given none l fits = fits
length-init_if_given (some text) l fits =
    let a = length-parse_ports max_ports text in
    elim (Bool-cases (is_empty text)) [
      | inl y ↦ rw y fits
      | inr n ↦ elim (Bool-cases l.initialized) [ inl y ↦ rw (n, y) fits | inr m ↦ rw (n, m) a ]
    ]

-- Whatever the four strings are, no list of static ports outgrows its array of ten.
pub config_host_static_port_fwd_rules-AreFilled :
    (tcp_src tcp_dst udp_src udp_dst : Option (List ℕ)) (a : Allowed)
    → AreFilled a
    → AreFilled (config_host_static_port_fwd_rules tcp_src tcp_dst udp_src udp_dst a)
unfolding config_host_static_port_fwd_rules
config_host_static_port_fwd_rules-AreFilled tcp_src tcp_dst udp_src udp_dst a (x, y, z, w) = (
  length-init_if_given tcp_src a.tcp_src x,
  length-init_if_given tcp_dst a.tcp_dst y,
  length-init_if_given udp_src a.udp_src z,
  length-init_if_given udp_dst a.udp_dst w,
)

-- ports in decimal, with commas between them
abbrev pub csv : List ℕ → List (List ℕ) → List ℕ
csv t [] = t
csv t (u ∷ us) = t ++ (44 ∷ csv u us)

abbrev pub IsDigits : List ℕ → Type 0
IsDigits [] = Unit
IsDigits (c ∷ cs) = (is_digit c ≡ true) × IsDigits cs

abbrev pub ArePorts : List (List ℕ) → Type 0
ArePorts [] = Unit
ArePorts (t ∷ ts) = (is_empty t ≡ false) × IsDigits t × ArePorts ts

-- The port that a text of digits leaves: only its first four digits count.
abbrev pub first_four : List ℕ → ℕ
first_four t = atoi_from 0 (take 4 t) % 65536

take-nil : (n : ℕ) → take {A = ℕ} n [] ≡ []
take-nil zero = refl
take-nil (suc n) = refl

take-take-append :
    (n : ℕ) (xs : List ℕ) (c : ℕ) (ys : List ℕ)
    → take n (take n (xs ++ (c ∷ [])) ++ ys) ≡ take n (xs ++ (c ∷ ys))
take-take-append zero xs c ys = refl
take-take-append (suc n) [] c ys = rw (take-nil n) refl
take-take-append (suc n) (x ∷ xs) c ys = ap (λ l. x ∷ l) (take-take-append n xs c ys)

store_digit_lem : (c : ℕ) (buf : List ℕ) → store_digit c buf ≡ take 4 (buf ++ (c ∷ []))
store_digit_lem c buf = elim (Bool-cases (leb 5 (length (buf ++ (c ∷ []))))) [
  | inl y ↦ rw y refl
  | inr n ↦ rw n (sym (take-all 4 _ (ground arith)))
]

scan_ports-digits :
    (max : ℕ) (t rest : List ℕ) (s : Scan)
    → IsDigits t
    → length s.ports < max
    → length s.port_buf ≤ 4
    → scan_ports max (t ++ rest) s
      ≡ scan_ports max rest (record s { port_buf = take 4 (s.port_buf ++ t) })
unfolding scan_ports scan_char
scan_ports-digits max [] rest s d room fits =
    rw (append-nil s.port_buf, take-all 4 s.port_buf fits) refl
scan_ports-digits max (c ∷ cs) rest s (d, ds) room fits =
    let more : Scan = record s { port_buf = store_digit c s.port_buf } in
    let fits' : length (store_digit c s.port_buf) ≤ 4 =
      rw (store_digit_lem c s.port_buf, length-take 4 (s.port_buf ++ (c ∷ []))) (omega arith) in
    rw (lt→ltb (length s.ports) max room, d)
      (scan_ports-digits max cs rest more ds room fits'
        ∙ ap (λ b. scan_ports max rest (record s { port_buf = b }))
            (ap (λ b. take 4 (b ++ cs)) (store_digit_lem c s.port_buf)
              ∙ take-take-append 4 s.port_buf c cs))

-- a port's text from an empty buffer to the comma or the end
store_port-first_four :
    (t ps : List ℕ)
    → is_empty t ≡ false
    → store_port (record { port_buf = take 4 t; ports = ps })
      ≡ record { port_buf = []; ports = ps ++ (first_four t ∷ []) }
store_port-first_four [] ps e = absurd (ground arith)
store_port-first_four (c ∷ cs) ps e = refl

full :
    (max : ℕ) (text ps : List ℕ)
    → max ≤ length ps
    → scan_ports max text (record { port_buf = []; ports = ps })
      ≡ record { port_buf = []; ports = ps }
unfolding scan_ports
full max [] ps f = refl
full max (c ∷ cs) ps f = rw (le→ltb_false (length ps) max f) refl

scan_ports-comma :
    (max : ℕ) (t rest ps : List ℕ)
    → is_empty t ≡ false
    → length ps < max
    → scan_ports max (44 ∷ rest) (record { port_buf = take 4 t; ports = ps })
      ≡ scan_ports max rest (record { port_buf = []; ports = ps ++ (first_four t ∷ []) })
unfolding scan_ports scan_char
scan_ports-comma max t rest ps filled room =
    rw (lt→ltb (length ps) max room)
      (ap (λ s. scan_ports max rest s) (store_port-first_four t ps filled))

-- with `room` ports still to store
scan_ports-csv :
    (room max : ℕ) (t : List ℕ) (ts : List (List ℕ)) (ps : List ℕ)
    → ArePorts (t ∷ ts)
    → length ps + room ≡ max
    → (store_port (scan_ports max (csv t ts) (record { port_buf = []; ports = ps }))).ports
      ≡ ps ++ take room (map first_four (t ∷ ts))
unfolding scan_ports
scan_ports-csv zero max t ts ps p e =
    rw (full max (csv t ts) ps (omega arith)) (sym (append-nil ps))
scan_ports-csv (suc room) max t [] ps (filled, digits, _) e =
    let start : Scan = record { port_buf = []; ports = ps } in
    ap (λ x. (store_port (scan_ports max x start)).ports) (sym (append-nil t))
    ∙ ap (λ s. (store_port s).ports)
        (scan_ports-digits max t [] start digits (omega arith) (omega arith))
    ∙ rw (take-nil room) (ap (λ s. s.ports) (store_port-first_four t ps filled))
scan_ports-csv (suc room) max t (u ∷ us) ps (filled, digits, more) e =
    let start : Scan = record { port_buf = []; ports = ps } in
    let next =
      scan_ports-csv room max u us (ps ++ (first_four t ∷ [])) more
        (omega (arith, length-append ps (first_four t ∷ []))) in
    ap (λ s. (store_port s).ports)
      (scan_ports-digits max t (44 ∷ csv u us) start digits (omega arith) (omega arith)
        ∙ scan_ports-comma max t (csv u us) ps filled (omega arith))
    ∙ next
    ∙ append_assoc ps (first_four t ∷ []) (take room (map first_four (u ∷ us)))

-- A text of ports in decimal with commas between them becomes the first `max` of these ports, each cut
-- to its first four digits: so a port of five digits is never the one that was meant.
pub parse_ports-csv :
    (max : ℕ) (t : List ℕ) (ts : List (List ℕ))
    → ArePorts (t ∷ ts)
    → parse_ports max (csv t ts) ≡ take max (map first_four (t ∷ ts))
unfolding parse_ports
parse_ports-csv max t ts p = scan_ports-csv max max t ts [] p (omega arith)
