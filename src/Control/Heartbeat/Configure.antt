-- ===== src/Control/Heartbeat/Configure.antt =====
-- What a configuration of the heartbeat leads to (slave/main/slave_control.c).
use esp_hosted_open.Prelude.{
  ℕ, ◌≤◌, ◌≡◌, refl, Bool, true, false, not, ◌&&◌, ◌||◌, Option, none, some, arith, ltb,
  if◌then◌else◌,
}
use esp_hosted_open.Status.{esp_ok, esp_fail}
use esp_hosted_open.Control.Heartbeat.{
  Heartbeat, stop_heartbeat, start_heartbeat, max_heartbeat_interval, configure_heartbeat,
}

-- whether a timer sends the heartbeat, and how often
abbrev pub beats : Heartbeat → Option ℕ
beats h = elim h.timer [ none ↦ none | some t ↦ if t.is_active then some t.period else none ]

beats-stop : (h : Heartbeat) → beats (stop_heartbeat h) ≡ none
unfolding stop_heartbeat
beats-stop h = ground arith

started :
    (created pd_pass : Bool) (d : ℕ) (h : Heartbeat)
    → h.hb_num ≡ 0
    → ((start_heartbeat created pd_pass d h).1.hb_num ≡ 0)
      × (beats (start_heartbeat created pd_pass d h).1
          ≡ (if created && pd_pass then some d else none))
      × ((start_heartbeat created pd_pass d h).0
          ≡ (if created && pd_pass then esp_ok else esp_fail))
unfolding start_heartbeat
started false pd_pass d h z = (z, refl, refl)
started true false d h z = (z, refl, refl)
started true true d h z = (z, refl, refl)

-- A configuration with a duration in the range, or one that disables the heartbeat, resets the count;
-- the heartbeat then comes with the asked period exactly if it was to be enabled and FreeRTOS made and
-- started the timer, which is also when the enabling request has the status ESP_OK, and else it has stopped.
pub configure_heartbeat_in_range :
    (created pd_pass enable : Bool) (d : ℕ) (h : Heartbeat)
    → 1 ≤ d
    → d ≤ max_heartbeat_interval
    → ((configure_heartbeat created pd_pass enable (some d) h).1.hb_num ≡ 0)
      × (beats (configure_heartbeat created pd_pass enable (some d) h).1
          ≡ (if enable && created && pd_pass then some d else none))
      × ((configure_heartbeat created pd_pass enable (some d) h).0
          ≡ (if not enable || created && pd_pass then esp_ok else esp_fail))
unfolding configure_heartbeat
configure_heartbeat_in_range created pd_pass false d h low high = (refl, beats-stop h, refl)
configure_heartbeat_in_range created pd_pass true d h low high =
    let in_range : (ltb d 1 || ltb max_heartbeat_interval d) ≡ false = ground arith in
    rw in_range (started created pd_pass d (stop_heartbeat h) refl)
