-- ===== src/Tests/Callbacks.antt =====
-- The callback table (slave/main/slave_control.c) at concrete inputs; the callbacks are numbers.
use esp_hosted_open.Prelude.{ℕ, ◌≡◌, refl, true, none, some, [], ◌∷◌, arith}
use esp_hosted_open.Proto.Ids.{req_id, get_caps}
use esp_hosted_open.Registry.{
  Registry, register_custom_callback, lock_and_register, register_locked, update_existing,
  fill_empty, add_new, find_callback, handle_custom_rpc_request, fresh, no_id,
}
use esp_hosted_open.Registry.Laws.{IsRegistry, bound, handle-register}
use esp_hosted_open.Registry.Capacity.{outcomes}
use esp_hosted_open.Slave.Handle.{register_overlay}
use esp_hosted_open.Slave.Handle.Table.{register_overlay_lem}
use esp_hosted_open.Tests.Requests.{full_chip}

-- a table of two entries with one callback
abbrev one_callback : Registry ℕ
one_callback = record {
  mutex = true;
  entries =
      record { msg_id = 7; callback = some 70; local_context = 700 }
      ∷ record { msg_id = no_id; callback = none; local_context = 0 }
      ∷ [];
}

one_callback-IsRegistry : IsRegistry one_callback
unfolding find_callback
one_callback-IsRegistry = record { table = ground arith; unlocked = λ h j. cc }

handle-register_example :
    IsRegistry (register_custom_callback true true 8 (some 80) 800 one_callback).1
    × ((handle_custom_rpc_request true 8
          (register_custom_callback true true 8 (some 80) 800 one_callback).1).1
        ≡ bound 8 (some 80) 800 8 (handle_custom_rpc_request true 8 one_callback).1)
unfolding register_custom_callback lock_and_register register_locked update_existing add_new
    fill_empty
handle-register_example =
    handle-register true true 8 8 (some 80) 800 one_callback one_callback-IsRegistry refl

-- With the sixteen entries that the firmware is configured for, GET_CAPS has no handler.
register_overlay_example :
    ((register_overlay full_chip (fresh 16)).0 ≡ outcomes 16 47)
    × (find_callback (req_id get_caps) (register_overlay full_chip (fresh 16)).1.entries ≡ none)
unfolding req_id
register_overlay_example = register_overlay_lem full_chip 16 (req_id get_caps) (ground arith)
