-- ===== src/Transport/Startup.antt =====
-- The INIT event by which the co-processor introduces itself on the bus: generate_startup_event of
-- the four drivers (slave/main/spi_slave_api.c, sdio_slave_api.c, spi_hd_slave_api.c,
-- uart_slave_api.c). The configuration's constants are parameters.
pub mod Walk
use esp_hosted_open.Prelude.{ℕ, ◌+◌, ◌%◌, List, [], ◌∷◌, ◌++◌, length}
use esp_hosted_open.Bytes.{le32}
use esp_hosted_open.Transport.{Header, Checksum, header_size, frame}

-- ESP_PRIV_TAG_TYPE
abbrev pub capability : ℕ
capability = 0x11

abbrev pub firmware_chip_id : ℕ
firmware_chip_id = 0x12

abbrev pub test_raw_tp : ℕ
test_raw_tp = 0x13

abbrev pub rx_q_size : ℕ
rx_q_size = 0x14

abbrev pub tx_q_size : ℕ
tx_q_size = 0x15

abbrev pub cap_ext : ℕ
cap_ext = 0x16

abbrev pub firmware_version : ℕ
firmware_version = 0x17

abbrev pub trans_sdio_mode : ℕ
trans_sdio_mode = 0x18

-- what the build and debug_get_raw_tp_conf give
pub record Build : Type 0 where
  pub chip_id : ℕ
  pub raw_tp_cap : ℕ
  pub rx_size : ℕ
  pub tx_size : ℕ
  pub sdio_mode : ℕ
  pub fw_version : ℕ

-- *pos = tag; LENGTH_1_BYTE; value
abbrev pub one_byte : ℕ → ℕ → List ℕ
one_byte tag value = tag ∷ 1 ∷ value % 256 ∷ []

-- LENGTH_4_BYTE and a little-endian value
abbrev pub four_bytes : ℕ → ℕ → List ℕ
unfolding le32
four_bytes tag value = tag ∷ 4 ∷ le32 value

unfoldable pub spi_tlvs : Build → ℕ → List ℕ
unfolding four_bytes
spi_tlvs b cap =
    one_byte firmware_chip_id b.chip_id
    ++ (one_byte capability cap
        ++ (one_byte test_raw_tp b.raw_tp_cap
            ++ (one_byte rx_q_size b.rx_size
                ++ (one_byte tx_q_size b.tx_size ++ four_bytes firmware_version b.fw_version))))

unfoldable pub sdio_tlvs : Build → ℕ → List ℕ
unfolding four_bytes
sdio_tlvs b cap =
    one_byte firmware_chip_id b.chip_id
    ++ (one_byte trans_sdio_mode b.sdio_mode
        ++ (one_byte capability cap
            ++ (one_byte test_raw_tp b.raw_tp_cap
                ++ (one_byte tx_q_size b.tx_size
                    ++ (one_byte rx_q_size b.rx_size
                        ++ four_bytes firmware_version b.fw_version)))))

unfoldable pub spi_hd_tlvs : Build → ℕ → ℕ → List ℕ
unfolding four_bytes
spi_hd_tlvs b cap ext_cap =
    one_byte firmware_chip_id b.chip_id
    ++ (one_byte capability cap
        ++ (four_bytes cap_ext ext_cap
            ++ (one_byte test_raw_tp b.raw_tp_cap
                ++ (one_byte rx_q_size b.rx_size
                    ++ (one_byte tx_q_size b.tx_size
                        ++ four_bytes firmware_version b.fw_version)))))

unfoldable pub uart_tlvs : Build → ℕ → ℕ → List ℕ
unfolding four_bytes
uart_tlvs b cap ext_cap =
    one_byte firmware_chip_id b.chip_id
    ++ (one_byte capability cap
        ++ (four_bytes cap_ext ext_cap
            ++ (one_byte test_raw_tp b.raw_tp_cap
                ++ (one_byte rx_q_size b.rx_size
                    ++ (one_byte tx_q_size b.tx_size
                        ++ four_bytes firmware_version b.fw_version)))))

-- ESP_PRIV_IF, ESP_PACKET_TYPE_EVENT and ESP_PRIV_EVENT_INIT
abbrev pub priv_if : ℕ
priv_if = 5

abbrev pub packet_type_event : ℕ
packet_type_event = 0x33

abbrev pub event_init : ℕ
event_init = 0x22

-- len counts the event's type and length too
unfoldable pub startup_header : List ℕ → Header
startup_header tlvs = record {
  if_type = priv_if;
  if_num = 0;
  flags = 0;
  len = length tlvs + 2;
  offset = header_size;
  checksum = 0;
  seq_num = 0;
  throttle_cmd = 0;
  pkt_type = packet_type_event;
}

unfoldable pub startup_frame : Checksum → List ℕ → List ℕ
unfolding startup_header
startup_frame sum tlvs = frame sum (startup_header tlvs) (event_init ∷ length tlvs % 256 ∷ tlvs)
