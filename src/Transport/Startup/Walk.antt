-- ===== src/Transport/Startup/Walk.antt =====
-- What a host finds in the drivers' INIT events.
use esp_hosted_open.Prelude.{
  ℕ, zero, suc, ◌+◌, ◌%◌, ◌<◌, ◌≡◌, refl, ap, ◌∙◌, sym, true, ◌&&◌, Option, none, some, List, [],
  ◌∷◌, ◌++◌, arith, ◌==◌, if◌then◌else◌, length, take, drop, append-nil,
}
use esp_hosted_open.Bytes.{le32, byte_at}
use esp_hosted_open.Transport.{Header, Checksum, frame, rx_if_type, rx_len, verify, header_bytes}
use esp_hosted_open.Transport.Frame.{Fits, blank, verify-frame, rx_len-frame}
use esp_hosted_open.Transport.Startup.{
  capability, firmware_chip_id, test_raw_tp, rx_q_size, tx_q_size, cap_ext, firmware_version,
  trans_sdio_mode, Build, spi_tlvs, sdio_tlvs, spi_hd_tlvs, uart_tlvs, priv_if, packet_type_event,
  event_init, startup_header, startup_frame,
}

abbrev pub Elements : Type 0
Elements = List (ℕ × List ℕ)

-- the elements of bytes, each a tag, a length and so many bytes; `none` where they do not end with
-- an element, or there is no fuel for them
abbrev pub and_element : ℕ × List ℕ → Option Elements → Option Elements
and_element e none = none
and_element e (some es) = some (e ∷ es)

unfoldable pub walk : ℕ → List ℕ → Option Elements
walk zero bs = none
walk (suc n) [] = some []
walk (suc n) (tag ∷ []) = none
walk (suc n) (tag ∷ len ∷ bs) = and_element (tag, take len bs) (walk n (drop len bs))

-- A host's reading of an INIT event: a frame for the private interface whose checksum is right, with
-- the packet type of an event, the event's type, and its length.
abbrev pub event_of : List ℕ → Option Elements
event_of [] = none
event_of (type ∷ []) = none
event_of (type ∷ len ∷ bs) = if type == event_init && (len == length bs) then walk 16 bs else none

abbrev pub checked_event : Option (List ℕ) → Option Elements
checked_event none = none
checked_event (some bs) =
    if rx_if_type bs == priv_if && (byte_at bs 11 == packet_type_event)
    then event_of (drop 12 bs)
    else none

unfoldable pub host_view : Checksum → List ℕ → Option Elements
host_view sum bs = checked_event (verify sum (rx_len bs + 12) bs)

startup_header-Fits : (tlvs : List ℕ) → length tlvs < 256 → Fits (startup_header tlvs)
unfolding startup_header
startup_header-Fits tlvs h = omega arith

verify-startup :
    (sum : Checksum) (h : Header) (payload : List ℕ)
    → Fits h
    → h.len ≡ length payload
    → verify sum (rx_len (frame sum h payload) + 12) (frame sum h payload) ≡ some (blank h payload)
verify-startup sum h payload fits e =
    let n : rx_len (frame sum h payload ++ []) ≡ h.len = rx_len-frame h payload [] fits sum in
    let whole = append-nil (frame sum h payload) in
    let len : rx_len (frame sum h payload) + 12 ≡ length payload + 12 =
      ap (λ (bs : List ℕ). rx_len bs + 12) (sym whole) ∙ ap (λ (k : ℕ). k + 12) (n ∙ e) in
    ap (verify sum (rx_len (frame sum h payload) + 12)) (sym whole)
    ∙ (verify-frame sum h payload [] (rx_len (frame sum h payload) + 12) len
        ∙ ap some (append-nil (blank h payload)))

blank-event :
    (tlvs : List ℕ)
    → length tlvs < 256
    → checked_event (some (blank (startup_header tlvs) (event_init ∷ length tlvs % 256 ∷ tlvs)))
      ≡ walk 16 tlvs
unfolding startup_header header_bytes rx_if_type
blank-event tlvs short =
    let len : (length tlvs % 256 == length tlvs) ≡ true = ground arith in rw len refl

host_view-startup_frame :
    (sum : Checksum) (tlvs : List ℕ)
    → length tlvs < 256
    → host_view sum (startup_frame sum tlvs) ≡ walk 16 tlvs
unfolding host_view startup_frame
host_view-startup_frame sum tlvs short =
    let payload = event_init ∷ length tlvs % 256 ∷ tlvs in
    let fits = startup_header-Fits tlvs short in
    ap checked_event (verify-startup sum (startup_header tlvs) payload fits (omega arith))
    ∙ blank-event tlvs short

-- the elements that SPI and SDIO tell, and those of SPI half duplex and the UART
abbrev pub spi_elements : Build → ℕ → Elements
unfolding le32
spi_elements b cap =
    (firmware_chip_id, b.chip_id % 256 ∷ [])
    ∷ (capability, cap % 256 ∷ [])
    ∷ (test_raw_tp, b.raw_tp_cap % 256 ∷ [])
    ∷ (rx_q_size, b.rx_size % 256 ∷ [])
    ∷ (tx_q_size, b.tx_size % 256 ∷ [])
    ∷ (firmware_version, le32 b.fw_version)
    ∷ []

abbrev pub sdio_elements : Build → ℕ → Elements
unfolding le32
sdio_elements b cap =
    (firmware_chip_id, b.chip_id % 256 ∷ [])
    ∷ (trans_sdio_mode, b.sdio_mode % 256 ∷ [])
    ∷ (capability, cap % 256 ∷ [])
    ∷ (test_raw_tp, b.raw_tp_cap % 256 ∷ [])
    ∷ (tx_q_size, b.tx_size % 256 ∷ [])
    ∷ (rx_q_size, b.rx_size % 256 ∷ [])
    ∷ (firmware_version, le32 b.fw_version)
    ∷ []

abbrev pub wide_elements : Build → ℕ → ℕ → Elements
unfolding le32
wide_elements b cap ext_cap =
    (firmware_chip_id, b.chip_id % 256 ∷ [])
    ∷ (capability, cap % 256 ∷ [])
    ∷ (cap_ext, le32 ext_cap)
    ∷ (test_raw_tp, b.raw_tp_cap % 256 ∷ [])
    ∷ (rx_q_size, b.rx_size % 256 ∷ [])
    ∷ (tx_q_size, b.tx_size % 256 ∷ [])
    ∷ (firmware_version, le32 b.fw_version)
    ∷ []

-- With any checksum or none, a host that checks the frame of an INIT event and takes its elements
-- apart finds what the driver put there, no more and no less: SPI and SDIO tell the chip, the
-- capabilities, the test mode, the queue sizes and the firmware's version, SDIO its mode too; SPI
-- half duplex and the UART tell the 32 bits of extended capabilities besides.
pub host_view-startup :
    (sum : Checksum) (b : Build) (cap ext_cap : ℕ)
    → (host_view sum (startup_frame sum (spi_tlvs b cap)) ≡ some (spi_elements b cap))
      × (host_view sum (startup_frame sum (sdio_tlvs b cap)) ≡ some (sdio_elements b cap))
      × (host_view sum (startup_frame sum (spi_hd_tlvs b cap ext_cap))
          ≡ some (wide_elements b cap ext_cap))
      × (host_view sum (startup_frame sum (uart_tlvs b cap ext_cap))
          ≡ some (wide_elements b cap ext_cap))
unfolding walk spi_tlvs sdio_tlvs spi_hd_tlvs uart_tlvs le32
host_view-startup sum b cap ext_cap = (
  host_view-startup_frame sum (spi_tlvs b cap) (omega arith),
  host_view-startup_frame sum (sdio_tlvs b cap) (omega arith),
  host_view-startup_frame sum (spi_hd_tlvs b cap ext_cap) (omega arith),
  host_view-startup_frame sum (uart_tlvs b cap ext_cap) (omega arith),
)
