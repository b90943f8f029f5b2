-- ===== src/Sleep/Wakeup.antt =====
-- Waking the host up: trigger_host_wakeup, wakeup_host_mandate and wakeup_host
-- (slave/main/host_power_save.c).
pub mod Ends
pub mod Packets
use esp_hosted_open.Prelude.{
  ℕ, suc, ◌+◌, ◌-◌, ◌/◌, ◌%◌, ◌^◌, Bool, true, false, ◌&&◌, ◌||◌, not, Option, none, some, List, [],
  ◌∷◌, ltb, ◌==◌, if◌then◌else◌,
}
use mathlib.Core.Option
use esp_hosted_open.Status.{esp_ok, esp_fail}
use esp_hosted_open.Sleep.{Sleep, Buffer, is_host_wakeup_needed, is_host_power_saving}

-- What the surroundings answer in one round of the loop: esp_timer_create, esp_timer_start_once,
-- whether wakeup_sem gives its token within 100 ms, and esp_timer_get_time behind that.
pub record Round : Type 0 where
  pub created : ℕ
  pub started : ℕ
  pub token : Bool
  pub time_us : ℕ

-- GET_CURR_TIME_IN_MS, which divides the microseconds by 100
abbrev pub get_curr_time_in_ms : ℕ → ℕ
get_curr_time_in_ms us = us / 100

-- The loop's outcome: wakeup_success, how often the GPIO was set, and whether the timer is left over
-- for the clean-up behind the loop.
pub record Triggered : Type 0 where
  pub wakeup_success : Bool
  pub rounds : ℕ
  pub timer_live : Bool

abbrev pub one_more : Option Triggered → Option Triggered
one_more none = none
one_more (some t) = some (record t { rounds = suc t.rounds })

-- `none` when the list of rounds is too short. `has_sem` is wakeup_sem, `timer` whether the timer is
-- there already, and the difference of the times is that of uint64_t.
unfoldable pub trigger_host_wakeup : Bool → ℕ → ℕ → Bool → List Round → Option Triggered
trigger_host_wakeup has_sem timeout_ms start_time timer [] = none
trigger_host_wakeup has_sem timeout_ms start_time timer (r ∷ rs) =
    let rest = one_more (trigger_host_wakeup has_sem timeout_ms start_time true rs) in
    if not timer && not (r.created == esp_ok)
    then some (record { wakeup_success = false; rounds = 1; timer_live = false })
    else if not (r.started == esp_ok)
    then some (record { wakeup_success = false; rounds = 1; timer_live = false })
    else if has_sem && r.token
    then some (record { wakeup_success = true; rounds = 1; timer_live = true })
    else if ltb timeout_ms ((get_curr_time_in_ms r.time_us + 2 ^ 64 - start_time) % 2 ^ 64)
    then some (record { wakeup_success = false; rounds = 1; timer_live = true })
    else rest

abbrev pub has_sem : Sleep → Bool
has_sem s = elim s.wakeup_sem [ none ↦ false | some token ↦ true ]

abbrev pub as_int : Bool → ℕ
as_int true = 1
as_int false = 0

abbrev pub success_of : Option Triggered → Option ℕ
success_of none = none
success_of (some t) = some (as_int t.wakeup_success)

-- wakeup_host_mandate: `gpio` is what configure_host_wakeup_gpio comes to, and `start_us` the time.
unfoldable pub wakeup_host_mandate : ℕ → ℕ → ℕ → List Round → Sleep → Option ℕ
unfolding trigger_host_wakeup
wakeup_host_mandate gpio timeout_ms start_us rounds s =
    if not (gpio == esp_ok)
    then some gpio
    else success_of
        (trigger_host_wakeup (has_sem s) timeout_ms (get_curr_time_in_ms start_us) false rounds)

-- wakeup_host, with the state after the driver's init, where alerts can have come in meanwhile.
unfoldable pub wakeup_host : (Sleep → Sleep) → ℕ → ℕ → List Round → Sleep → Option (ℕ × Sleep)
unfolding trigger_host_wakeup
wakeup_host init timeout_ms start_us rounds s =
    let trigger = λ (s' : Sleep).
      success_of
        (trigger_host_wakeup (has_sem s') timeout_ms (get_curr_time_in_ms start_us) false rounds) in
    let s' = init s in
    if not (is_host_power_saving s)
    then some (1, s)
    else if not s.hps_config.enable
    then some (1, s)
    else if not s.driver.has_handle || not s.driver.has_context
    then some (0, s)
    else if s.driver.is_up
    then Option.map (λ n. (n, s)) (trigger s)
    else if not s'.driver.has_handle
    then some (esp_fail, s')
    else if is_host_power_saving s'
    then Option.map (λ n. (n, s')) (trigger s')
    else some (1, s')

-- process_tx_pkt (slave/main/esp_hosted_coprocessor.c): whether the packet is given to the driver's
-- write, and with which handle; the buffer is freed on every path.
pub data Sent : Type 0 where
  no_datapath dropped no_write : Sent
  written : Bool → Sent

abbrev pub port_max_delay : ℕ
port_max_delay = 0xFFFFFFFF

-- behind the wake-up: what host_awake is, and the state of the driver
abbrev pub write_if_awake : ℕ × Sleep → Sent
write_if_awake (host_awake, s) = if host_awake == 0 then dropped else written s.driver.has_handle

unfoldable pub process_tx_pkt :
    Bool → Bool → (Sleep → Sleep) → ℕ → List Round → Buffer → Sleep → Option Sent
unfolding wakeup_host is_host_wakeup_needed
process_tx_pkt datapath has_write init start_us rounds b s =
    if not datapath
    then some no_datapath
    else if not (s.driver.has_context && has_write)
    then some no_write
    else if is_host_power_saving s && is_host_wakeup_needed b
    then Option.map write_if_awake (wakeup_host init port_max_delay start_us rounds s)
    else some (write_if_awake (1, s))
