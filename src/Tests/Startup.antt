-- ===== src/Tests/Startup.antt =====
-- Starting and stopping both sides at concrete inputs.
use esp_hosted_open.Prelude.{ℕ, ◌≡◌, refl, true, false, Option, none, some, ◌==◌, if◌then◌else◌}
use esp_hosted_open.Status.{esp_ok}
use esp_hosted_open.Proto.Ids
use esp_hosted_open.Proto.Ids.{Call, Evt, resp_id, evt_id}
use esp_hosted_open.Host.Inflight.{Host}
use esp_hosted_open.Host.Inflight.Reach.{initial_host}
use esp_hosted_open.Host.Init.{
  HostCallback, on_response, on_event, HostRegistry, with_mutex, init, register_bindings,
  register_until, register_events,
}
use esp_hosted_open.Host.Init.Bound.{init-all_bound}

-- a registry that never fills up
abbrev Bindings : Type 0
Bindings = ℕ → Option HostCallback

abbrev registry : HostRegistry Bindings
registry = record {
  register = λ id cb r. (esp_ok, λ j. if id == j then cb else r j);
  lookup = λ j r. r j;
  lookup-register = λ id j cb r. refl;
}

abbrev unbound : Bindings
unbound j = none

abbrev down : Host
down = record initial_host { ready = false }

init-all_bound_example :
    (down.ready ≡ false)
    × ((init registry true (down, unbound)).1.0 ≡ with_mutex registry down)
    × ((init registry true (down, unbound)).1.1 (resp_id Ids.get_caps) ≡ some on_response)
    × ((init registry true (down, unbound)).1.1 (evt_id Ids.csi) ≡ some (on_event Ids.csi))
unfolding init register_bindings register_until register_events
init-all_bound_example = init-all_bound registry true down unbound Ids.get_caps Ids.csi refl
