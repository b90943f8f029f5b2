-- ===== src/Sleep/Wakeup/Packets.antt =====
-- Packets for a host that sleeps: process_tx_pkt (slave/main/esp_hosted_coprocessor.c) with the wake-up
-- (slave/main/host_power_save.c).
use mathlib.Core.Option
use esp_hosted_open.Prelude.{ℕ, ◌≡◌, ap, ◌∙◌, true, false, Option, some, List, arith}
use esp_hosted_open.Status.{esp_fail}
use esp_hosted_open.Sleep.{Sleep, Buffer, is_host_wakeup_needed, is_host_power_saving}
use esp_hosted_open.Sleep.Wakeup.{
  Round, wakeup_host, written, write_if_awake, process_tx_pkt, port_max_delay,
}

asleep_packet :
    (init : Sleep → Sleep) (start_us : ℕ) (rounds : List Round) (b : Buffer) (s : Sleep)
    → is_host_power_saving s ≡ true
    → is_host_wakeup_needed b ≡ true
    → s.driver.has_context ≡ true
    → process_tx_pkt true true init start_us rounds b s
      ≡ Option.map write_if_awake (wakeup_host init port_max_delay start_us rounds s)
unfolding process_tx_pkt
asleep_packet init start_us rounds b s saving needed context = ground arith

wakeup_host_down :
    (init : Sleep → Sleep) (timeout_ms start_us : ℕ) (rounds : List Round) (s : Sleep)
    → is_host_power_saving s ≡ true
    → s.hps_config.enable ≡ true
    → s.driver.has_handle ≡ true
    → s.driver.has_context ≡ true
    → s.driver.is_up ≡ false
    → (init s).driver.has_handle ≡ false
    → wakeup_host init timeout_ms start_us rounds s ≡ some (esp_fail, init s)
unfolding wakeup_host
wakeup_host_down init timeout_ms start_us rounds s saving on handle context down none_left =
    ground arith

-- If the driver's init gives no handle, wakeup_host returns ESP_FAIL, which process_tx_pkt takes for an
-- awake host: it writes the packet with a handle of NULL.
pub process_tx_pkt_null :
    (init : Sleep → Sleep) (start_us : ℕ) (rounds : List Round) (b : Buffer) (s : Sleep)
    → is_host_power_saving s ≡ true
    → is_host_wakeup_needed b ≡ true
    → s.hps_config.enable ≡ true
    → s.driver.has_handle ≡ true
    → s.driver.has_context ≡ true
    → s.driver.is_up ≡ false
    → (init s).driver.has_handle ≡ false
    → process_tx_pkt true true init start_us rounds b s ≡ some (written false)
unfolding process_tx_pkt
process_tx_pkt_null init start_us rounds b s saving needed on handle context down none_left =
    asleep_packet init start_us rounds b s saving needed context
    ∙ ap (λ o. Option.map write_if_awake o)
        (wakeup_host_down init port_max_delay start_us rounds s saving on handle context down
          none_left)
    ∙ ap (λ h. some (written h)) none_left
