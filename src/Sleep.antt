-- ===== src/Sleep.antt =====
-- The host's power save on the co-processor (slave/main/host_power_save.c), built with
-- CONFIG_ESP_HOSTED_HOST_POWER_SAVE_ENABLED and CONFIG_ESP_HOSTED_HOST_DEEP_SLEEP_ALLOWED.
pub mod Wakeup
pub mod Synced
use esp_hosted_open.Prelude.{
  ℕ, Bool, true, false, ◌||◌, not, Option, none, some, List, [], ◌∷◌, ◌++◌, ◌==◌, if◌then◌else◌,
}
use esp_hosted_open.Status.{esp_ok}

-- if_type of a buffer
pub data IfType : Type 0 where
  esp_sta_if esp_ap_if esp_serial_if esp_hci_if esp_priv_if esp_test_if other_if : IfType

-- What is_host_wakeup_needed reads of a buffer. Its wifi_flow_ctrl_en counts only in the builds for
-- SPI and UART, so it stands for false in the others.
pub record Buffer : Type 0 where
  pub if_type : IfType
  pub has_payload : Bool
  pub wifi_flow_ctrl_en : Bool

unfoldable pub is_host_wakeup_needed : Buffer → Bool
is_host_wakeup_needed b =
    if b.wifi_flow_ctrl_en
    then true
    else if not b.has_payload
    then false
    else elim b.if_type [ other_if ↦ false | _ ↦ true ]

-- the four callbacks, none where NULL
pub record Callbacks : Type 0 where
  pub on_prepare : Option ℕ
  pub on_ready : Option ℕ
  pub off_prepare : Option ℕ
  pub off_ready : Option ℕ

abbrev pub no_callbacks : Callbacks
no_callbacks = record { on_prepare = none; on_ready = none; off_prepare = none; off_ready = none }

-- host_power_save_config_t; a pin of -1 is none.
pub record Config : Type 0 where
  pub enable : Bool
  pub host_wakeup_gpio : Option ℕ
  pub host_wakeup_level : Bool
  pub callbacks : Callbacks

-- if_handle and if_context: whether they are there, whether the state is DEACTIVE or above, and whether
-- the context has a deinit.
pub record Driver : Type 0 where
  pub has_handle : Bool
  pub is_up : Bool
  pub has_context : Bool
  pub has_deinit : Bool

-- What the module does to its surroundings.
pub data Effect : Type 0 where
  callback : ℕ → Effect
  set_level : Option ℕ → Bool → Effect
  deinit_driver init_driver : Effect

-- hps_config, power_save_on, wakeup_sem (NULL, or whether its token is there), the driver, and the
-- effects so far
pub record Sleep : Type 0 where
  pub hps_config : Config
  pub power_save_on : Bool
  pub wakeup_sem : Option Bool
  pub driver : Driver
  pub effects : List Effect

-- How a call ends: it returns, dereferences NULL or fails an assertion, or waits for good.
pub data Ending (A : Type 0) : Type 0 where
  returned : A → Ending A
  aborted : Ending A
  blocked : Ending A

abbrev pub note : Effect → Sleep → Sleep
note e s = record s { effects = s.effects ++ (e ∷ []) }

abbrev pub call : Option ℕ → Sleep → Sleep
call none s = s
call (some f) s = note (callback f) s

abbrev pub reset_host_wakeup_gpio : Sleep → Sleep
reset_host_wakeup_gpio s =
    note (set_level s.hps_config.host_wakeup_gpio (not s.hps_config.host_wakeup_level)) s

-- the semaphore: created with its token if it is NULL
abbrev pub create_sem : Option Bool → Option Bool
create_sem none = some true
create_sem (some token) = some token

-- host_power_save_init, from the default configuration of the build where config is NULL;
-- `gpio` is what configure_host_wakeup_gpio comes to.
unfoldable pub host_power_save_init : Config → ℕ → Option Config → Sleep → Ending (ℕ × Sleep)
host_power_save_init default gpio config s =
    let s : Sleep = record s { hps_config = elim config [ none ↦ default | some c ↦ c ] } in
    if not s.hps_config.enable then returned (esp_ok, s) else elim s.hps_config.host_wakeup_gpio [
      | none ↦ aborted
      | some pin ↦
          if not (gpio == esp_ok)
          then returned (gpio, s)
          else returned
              (esp_ok, record (reset_host_wakeup_gpio s) { wakeup_sem = create_sem s.wakeup_sem })
    ]

abbrev pub clear_callbacks : Sleep → Sleep
clear_callbacks s = record s { hps_config = record s.hps_config { callbacks = no_callbacks } }

-- host_power_save_deinit: it takes the token and gives it back before it deletes the semaphore.
unfoldable pub host_power_save_deinit : Sleep → Ending (ℕ × Sleep)
host_power_save_deinit s = elim s.wakeup_sem [
  | none ↦ returned (0, clear_callbacks s)
  | some token ↦
      if token then returned (0, clear_callbacks (record s { wakeup_sem = none })) else blocked
]

-- host_power_save_set_callbacks; -1 as 32 bits for NULL
unfoldable pub host_power_save_set_callbacks : Option Callbacks → Sleep → ℕ × Sleep
host_power_save_set_callbacks none s = (0xFFFFFFFF, s)
host_power_save_set_callbacks (some cs) s =
    (0, record s { hps_config = record s.hps_config { callbacks = cs } })

pub data PsEvent : Type 0 where
  esp_power_save_on esp_power_save_off esp_open_data_path other_event : PsEvent

-- a take without waiting, and a give
abbrev pub take_sem : Option Bool → Option Bool
take_sem none = none
take_sem (some token) = some false

abbrev pub give_sem : Option Bool → Option Bool
give_sem none = none
give_sem (some token) = some true

-- The transport goes down. `down` is the driver after its deinit.
unfoldable pub bring_down : (Driver → Driver) → Sleep → Ending Sleep
bring_down down s =
    if not s.driver.has_handle
    then aborted
    else if not s.driver.is_up
    then returned s
    else if not s.driver.has_context
    then aborted
    else if not s.driver.has_deinit
    then returned s
    else returned (record (note deinit_driver s) { driver = down s.driver })

unfoldable pub alert_on : (Driver → Driver) → Sleep → Ending Sleep
unfolding bring_down
alert_on down s =
    let s1 = call s.hps_config.callbacks.on_prepare s in
    let s2 : Sleep = record s1 { wakeup_sem = take_sem s1.wakeup_sem; power_save_on = true } in
    elim (bring_down down s2) [
      | returned s3 ↦ returned (call s3.hps_config.callbacks.on_ready s3)
      | aborted ↦ aborted
      | blocked ↦ blocked
    ]

-- Its first log line reads if_handle->state.
unfoldable pub alert_off : Sleep → Ending Sleep
alert_off s =
    let s1 = call s.hps_config.callbacks.off_prepare s in
    let s2 : Sleep = record s1 { wakeup_sem = give_sem s1.wakeup_sem; power_save_on = false } in
    if not s.driver.has_handle
    then aborted
    else returned (call s2.hps_config.callbacks.off_ready s2)

-- host_power_save_alert; it always returns 0.
unfoldable pub host_power_save_alert : (Driver → Driver) → PsEvent → Sleep → Ending Sleep
unfolding alert_on alert_off
host_power_save_alert down evt s = if not s.hps_config.enable then returned s else elim evt [
  | esp_power_save_on ↦ alert_on down s
  | esp_power_save_off ↦ alert_off s
  | esp_open_data_path ↦ alert_off s
  | other_event ↦ returned s
]

-- is_host_power_saving
abbrev pub is_host_power_saving : Sleep → Bool
is_host_power_saving s = s.power_save_on
