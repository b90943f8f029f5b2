-- ===== src/Control/Heartbeat.antt =====
-- The heartbeat (slave/main/slave_control.c): its timer, and the request that configures it. What
-- FreeRTOS answers is a parameter.
pub mod Configure
use esp_hosted_open.Prelude.{
  ℕ, ◌+◌, ◌*◌, Bool, true, false, ◌||◌, not, Option, none, some, ltb, ◌==◌, if◌then◌else◌,
}
use esp_hosted_open.Status.{esp_ok, esp_fail, esp_err_invalid_arg}

-- a timer of FreeRTOS: its period in seconds, and whether it runs
pub record Timer : Type 0 where
  pub period : ℕ
  pub is_active : Bool

-- handle_heartbeat_task and hb_num, and the events of the heartbeat that were sent
pub record Heartbeat : Type 0 where
  pub timer : Option Timer
  pub hb_num : ℕ
  pub sent : ℕ

-- heartbeat_timer_cb
unfoldable pub heartbeat_timer_cb : Heartbeat → Heartbeat
heartbeat_timer_cb h = record h { hb_num = h.hb_num + 1; sent = h.sent + 1 }

-- A timer that does not run stays behind the handle.
unfoldable pub stop_heartbeat : Heartbeat → Heartbeat
stop_heartbeat h = record h {
  hb_num = 0;
  timer = elim h.timer [ none ↦ none | some t ↦ if t.is_active then none else some t ];
}

-- `created` is whether xTimerCreate gives a timer, `pd_pass` whether xTimerStart starts it.
unfoldable pub start_heartbeat : Bool → Bool → ℕ → Heartbeat → ℕ × Heartbeat
start_heartbeat created pd_pass duration h =
    if not created
    then (esp_fail, record h { timer = none })
    else if not pd_pass
    then (esp_fail, record h { timer = some (record { period = duration; is_active = false }) })
    else (esp_ok, record h { timer = some (record { period = duration; is_active = true }) })

-- MAX_HEARTBEAT_INTERVAL; the least is 1
abbrev pub max_heartbeat_interval : ℕ
max_heartbeat_interval = 24 * 60 * 60

-- A negative duration, which the range refuses, is none.
unfoldable pub configure_heartbeat : Bool → Bool → Bool → Option ℕ → Heartbeat → ℕ × Heartbeat
unfolding stop_heartbeat start_heartbeat
configure_heartbeat created pd_pass enable hb_duration h =
    if not enable then (esp_ok, stop_heartbeat h) else elim hb_duration [
      | none ↦ (esp_err_invalid_arg, h)
      | some d ↦
          if ltb d 1 || ltb max_heartbeat_interval d
          then (esp_err_invalid_arg, h)
          else start_heartbeat created pd_pass d (stop_heartbeat h)
    ]
