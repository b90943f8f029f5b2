-- ===== src/Bus.antt =====
-- Serial messages on the bus, in fragments, the host's configuration and the bus events
-- (slave/main/esp_hosted_coprocessor.c).
pub mod Reassembly
pub mod Reconfig
use esp_hosted_open.Prelude.{
  ℕ, zero, suc, ◌+◌, ◌-◌, ◌%◌, Bool, true, false, not, Option, none, some, List, [], ◌∷◌, ◌++◌, leb,
  ltb, ◌==◌, if◌then◌else◌, length, take, drop, min,
}

-- A packet of ESP_SERIAL_IF: its seq_num, its payload, and MORE_FRAGMENT of its flags.
pub record Fragment : Type 0 where
  pub seq_num : ℕ
  pub payload : List ℕ
  pub more_fragment : Bool

-- sizeof(r.data)
abbrev pub rx_size : ℕ
rx_size = 8192

-- r, with the first r.len bytes of its data, and the messages handed to protocomm_pserial_data_ready
pub record Rx : Type 0 where
  pub valid : Bool
  pub cur_seq_no : ℕ
  pub bytes : List ℕ
  pub messages : List (List ℕ)

-- parse_protobuf_req, behind r.valid = 1
abbrev pub complete : Rx → Rx
complete r = record r { valid = true; messages = r.messages ++ (r.bytes ∷ []) }

-- a fragment of the message that is being received, cut to rem_buff_size
abbrev pub store_fragment : ℕ → Fragment → Rx → Rx
store_fragment rem_buff_size f r =
    let stored : Rx = record r {
      bytes = r.bytes ++ take (min (length f.payload) rem_buff_size) f.payload;
    } in
    if f.more_fragment then stored else complete stored

-- behind the loop that waits for r.valid to be 0
abbrev pub receive_fragment : ℕ → Fragment → Rx → Rx
receive_fragment rem_buff_size f r =
    let r : Rx = record r {
      cur_seq_no = if length r.bytes == 0 then f.seq_num else r.cur_seq_no;
    } in
    if f.seq_num == r.cur_seq_no then store_fragment rem_buff_size f r else complete r

-- process_serial_rx_pkt. It waits while a message is not read yet: `none`.
unfoldable pub process_serial_rx_pkt : Fragment → Rx → Option Rx
process_serial_rx_pkt f r =
    if r.valid then none else some (receive_fragment (rx_size - length r.bytes) f r)

-- How a call that had to wait goes on: rem_buff_size is that of the time it was called.
unfoldable pub process_serial_rx_pkt_resumed : Rx → Fragment → Rx → Option Rx
process_serial_rx_pkt_resumed called f r =
    if r.valid then none else some (receive_fragment (rx_size - length called.bytes) f r)

abbrev pub if_taken : Option Rx → (Rx → Option Rx) → Option Rx
if_taken none k = none
if_taken (some r) k = k r

unfoldable pub process_all : List Fragment → Rx → Option Rx
process_all [] r = some r
process_all (f ∷ fs) r = if_taken (process_serial_rx_pkt f r) (process_all fs)

-- serial_read_data: the bytes that it copies, and the length that it returns
unfoldable pub serial_read_data : ℕ → Rx → List ℕ × ℕ × Rx
serial_read_data len r =
    let n = min len (length r.bytes) in
    if r.valid
    then (take n r.bytes, n, record r { valid = false; bytes = []; cur_seq_no = 0 })
    else ([], n, r)

-- ETH_DATA_LEN
abbrev pub eth_data_len : ℕ
eth_data_len = 1500

-- The loop of serial_write_data, from the last seq_num on: the fragments that it gives to
-- send_to_host_queue, which in this build always returns ESP_OK.
unfoldable pub serial_write_data : ℕ → ℕ → List ℕ → List Fragment
serial_write_data zero seq_num bytes = []
serial_write_data (suc fuel) seq_num bytes =
    let seq = (seq_num + 1) % 65536 in
    let rest = serial_write_data fuel seq (drop eth_data_len bytes) in
    if ltb eth_data_len (length bytes)
    then record { seq_num = seq; payload = take eth_data_len bytes; more_fragment = true } ∷ rest
    else record { seq_num = seq; payload = bytes; more_fragment = false } ∷ []
