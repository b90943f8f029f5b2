-- ===== src/Tests/Asleep.antt =====
-- The host's power save at concrete inputs.
use esp_hosted_open.Prelude.{ℕ, ◌≡◌, ◌≢◌, refl, true, false, none, some, [], ◌∷◌, arith}
use esp_hosted_open.Status.{esp_ok}
use esp_hosted_open.Sleep.{
  no_callbacks, Config, Driver, set_level, deinit_driver, Sleep, Buffer, esp_sta_if,
  host_power_save_init, esp_power_save_on, alert_on, bring_down, host_power_save_alert,
}
use esp_hosted_open.Sleep.Synced.{
  Step, step_init, step_alert, here, then_step, IsSynced, Reach-IsSynced,
}
use esp_hosted_open.Sleep.Wakeup.{Round, get_curr_time_in_ms, trigger_host_wakeup}
use esp_hosted_open.Sleep.Wakeup.Ends.{
  late_here, late_there, trigger_host_wakeup_ends, trigger_host_wakeup_answered,
}

abbrev config : Config
config = record {
  enable = true;
  host_wakeup_gpio = some 4;
  host_wakeup_level = true;
  callbacks = no_callbacks;
}

abbrev off : Config
off = record {
  enable = false;
  host_wakeup_gpio = some 4;
  host_wakeup_level = true;
  callbacks = no_callbacks;
}

abbrev driver : Driver
driver = record { has_handle = true; is_up = true; has_context = true; has_deinit = true }

abbrev driver_down : Driver
driver_down = record { has_handle = true; is_up = false; has_context = true; has_deinit = true }

abbrev booted : Sleep
booted = record {
  hps_config = off;
  power_save_on = false;
  wakeup_sem = none;
  driver = driver;
  effects = [];
}

abbrev ready : Sleep
ready = record {
  hps_config = config;
  power_save_on = false;
  wakeup_sem = some true;
  driver = driver;
  effects = set_level (some 4) false ∷ [];
}

-- after the alert that the host sleeps, which brings the driver down
abbrev asleep : Sleep
asleep = record {
  hps_config = config;
  power_save_on = true;
  wakeup_sem = some false;
  driver = driver_down;
  effects = set_level (some 4) false ∷ deinit_driver ∷ [];
}

abbrev take_down : Driver → Driver
take_down d = driver_down

init-Step : Step config take_down booted ready
unfolding host_power_save_init
init-Step = step_init (some config) esp_ok booted ready refl

alert-Step : Step config take_down ready asleep
unfolding host_power_save_alert alert_on bring_down
alert-Step = step_alert esp_power_save_on ready asleep refl

Reach-IsSynced_example : IsSynced asleep
Reach-IsSynced_example =
    Reach-IsSynced config take_down booted asleep (refl, refl)
      (then_step ready asleep (then_step booted ready here init-Step) alert-Step)

abbrev silent : ℕ → Round
silent us = record { created = esp_ok; started = esp_ok; token = false; time_us = us }

-- a timeout of 5000 ms is over after 0.6 seconds
trigger_host_wakeup_ends_example :
    trigger_host_wakeup true 5000
      (get_curr_time_in_ms 0)
      false
      (silent 200000 ∷ silent 400000 ∷ silent 600000 ∷ [])
    ≢ none
trigger_host_wakeup_ends_example =
    trigger_host_wakeup_ends true 5000 0 false (silent 200000 ∷ silent 400000 ∷ silent 600000 ∷ [])
      (late_there (silent 200000) _
        (late_there (silent 400000) _ (late_here (silent 600000) [] (omega arith) (omega arith))))

abbrev answering : Round
answering = record { created = esp_ok; started = esp_ok; token = true; time_us = 400000 }

trigger_host_wakeup_answered_example :
    trigger_host_wakeup true 5000 (get_curr_time_in_ms 0) false (silent 200000 ∷ answering ∷ [])
    ≡ some (record { wakeup_success = true; rounds = 2; timer_live = true })
trigger_host_wakeup_answered_example =
    trigger_host_wakeup_answered 5000 0 false (silent 200000 ∷ []) answering []
      ((refl, refl, refl, omega arith, omega arith, omega arith), tt) refl refl refl

abbrev data_packet : Buffer
data_packet = record { if_type = esp_sta_if; has_payload = true; wifi_flow_ctrl_en = false }

abbrev asleep_up : Sleep
asleep_up = record asleep { driver = driver }
