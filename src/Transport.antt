-- ===== src/Transport.antt =====
-- The frames that the four bus drivers of the co-processor share (slave/main/sdio_slave_api.c,
-- spi_slave_api.c, spi_hd_slave_api.c, uart_slave_api.c): the 12 bytes of struct
-- esp_payload_header and the payload. The checksum is compute_checksum of the bus library, a
-- parameter; `none` is a build without checksums.
pub mod Frame
pub mod Queues
pub mod Throttle
pub mod Startup
pub mod Uart
pub mod Spi
pub mod SpiHd
pub mod Sdio
use esp_hosted_open.Prelude.{
  ℕ, zero, suc, ◌+◌, ◌*◌, ◌/◌, ◌%◌, ◌^◌, Bool, true, false, Option, none, some, List, [], ◌∷◌, ◌++◌,
  ◌==◌, if◌then◌else◌, take, drop,
}
use esp_hosted_open.Memory.{Memory, read}
use esp_hosted_open.Bytes.{byte_at, u16_at}

pub record Header : Type 0 where
  pub if_type : ℕ
  pub if_num : ℕ
  pub flags : ℕ
  pub len : ℕ
  pub offset : ℕ
  pub checksum : ℕ
  pub seq_num : ℕ
  pub throttle_cmd : ℕ
  pub pkt_type : ℕ

abbrev pub header_size : ℕ
header_size = 12

-- interface_buffer_handle_t, as far as the drivers read it
pub record BufHandle : Type 0 where
  pub if_type : ℕ
  pub if_num : ℕ
  pub payload : Option Memory
  pub flag : ℕ
  pub payload_len : ℕ
  pub seq_num : ℕ
  pub wifi_flow_ctrl_en : ℕ

-- INTERFACE_STATE; the order of the constructors is that of the comparisons
pub data State : Type 0 where
  deinit : State
  deactive : State
  active : State

abbrev pub is_active : State → Bool
is_active active = true
is_active s = false

abbrev pub is_up : State → Bool
is_up deinit = false
is_up s = true

-- the calls of context.event_handler
pub data BusEvent : Type 0 where
  power_save_on : BusEvent
  power_save_off : BusEvent
  open_data_path : BusEvent
  close_data_path : BusEvent

abbrev pub Checksum : Type 0
Checksum = Option (List ℕ → ℕ)

-- Integers of the packed struct are little-endian, and its first byte has two fields of four bits.
unfoldable pub header_bytes : Header → List ℕ
header_bytes h =
    (h.if_type % 16 + 16 * (h.if_num % 16))
    ∷ h.flags % 256
    ∷ h.len % 256
    ∷ h.len / 256 % 256
    ∷ h.offset % 256
    ∷ h.offset / 256 % 256
    ∷ h.checksum % 256
    ∷ h.checksum / 256 % 256
    ∷ h.seq_num % 256
    ∷ h.seq_num / 256 % 256
    ∷ h.throttle_cmd % 4
    ∷ h.pkt_type % 256
    ∷ []

unfoldable pub checksum_of : Checksum → List ℕ → ℕ
checksum_of none bs = 0
checksum_of (some f) bs = f bs % 2 ^ 16

-- the checksum is computed while its own field is 0
unfoldable pub frame : Checksum → Header → List ℕ → List ℕ
unfolding header_bytes
frame sum h payload =
    let blank = header_bytes (record h { checksum = 0 }) ++ payload in
    header_bytes (record h { checksum = checksum_of sum blank }) ++ payload

-- memcpy of the payload; `none` is a read through a null pointer.
unfoldable pub copy_payload : Option Memory → ℕ → Option (List ℕ)
copy_payload none zero = some []
copy_payload none (suc n) = none
copy_payload (some m) n = some (read m 0 n)

-- the header that the drivers fill in from a buffer
unfoldable pub tx_header : BufHandle → ℕ → Header
tx_header b throttle = record {
  if_type = b.if_type;
  if_num = b.if_num;
  flags = b.flag;
  len = b.payload_len;
  offset = header_size;
  checksum = 0;
  seq_num = b.seq_num;
  throttle_cmd = throttle;
  pkt_type = 0;
}

-- header->field of received bytes
unfoldable pub rx_if_type : List ℕ → ℕ
rx_if_type bs = byte_at bs 0 % 16

unfoldable pub rx_if_num : List ℕ → ℕ
rx_if_num bs = byte_at bs 0 / 16 % 16

unfoldable pub rx_flags : List ℕ → ℕ
rx_flags bs = byte_at bs 1

unfoldable pub rx_len : List ℕ → ℕ
unfolding u16_at
rx_len bs = u16_at bs 2

unfoldable pub rx_offset : List ℕ → ℕ
unfolding u16_at
rx_offset bs = u16_at bs 4

unfoldable pub rx_checksum : List ℕ → ℕ
unfolding u16_at
rx_checksum bs = u16_at bs 6

-- header->checksum = 0
unfoldable pub clear_checksum : List ℕ → List ℕ
clear_checksum bs = take 6 bs ++ 0 ∷ 0 ∷ drop 8 bs

-- The bytes as the driver leaves them in its buffer, `none` where the checksum over the first n of
-- them differs from the header's.
unfoldable pub verify : Checksum → ℕ → List ℕ → Option (List ℕ)
unfolding clear_checksum rx_checksum
verify none n bs = some bs
verify (some f) n bs =
    if f (take n (clear_checksum bs)) % 2 ^ 16 == rx_checksum bs
    then some (clear_checksum bs)
    else none

-- FLAG_POWER_SAVE_STARTED and FLAG_POWER_SAVE_STOPPED, of a driver with or without a handler
unfoldable pub flag_events : Bool → ℕ → List BusEvent
flag_events false flags = []
flag_events true flags =
    if flags / 4 % 2 == 1
    then power_save_on ∷ []
    else if flags / 8 % 2 == 1
    then power_save_off ∷ []
    else []

-- What a driver's write does: it fails before it sends anything, sends bytes with an answer that is
-- a length or ESP_FAIL (none), waits for ever, or reads through a null pointer.
pub data Written : Type 0 where
  refused : Written
  sent : List ℕ → Option ℕ → Written
  null_read : Written
