-- ===== src/Control/Ota/Early.antt =====
-- Activations and chunks that come at the wrong time (slave/main/slave_control.c).
use esp_hosted_open.Prelude.{
  ℕ, ◌≡◌, ◌≢◌, refl, Bool, true, false, ◌||◌, not, List, ◌∷◌, arith, ltb, ◌==◌, length,
}
use esp_hosted_open.Status.{esp_ok}
use esp_hosted_open.Control.Ota.{
  OtaStatus, ota_completed, ota_not_started, ota_in_progress, ota_failed, ota_activated, wrote, Ota,
  answered, success, req_ota_write_handler, is_completed, req_ota_activate_handler,
}

not_completed : (status : OtaStatus) → status ≢ ota_completed → is_completed status ≡ false
not_completed ota_completed n = absurd (n refl)
not_completed ota_not_started n = refl
not_completed ota_in_progress n = refl
not_completed ota_failed n = refl
not_completed ota_activated n = refl

-- An activation that comes before the update is complete, after one that failed, or a second time, is
-- answered with SUCCESS, and does nothing.
pub req_ota_activate_handler_early :
    (ret : ℕ) (timer pd_pass : Bool) (o : Ota)
    → o.ota_status ≢ ota_completed
    → req_ota_activate_handler true true ret timer pd_pass o ≡ (answered success, o)
unfolding req_ota_activate_handler
req_ota_activate_handler_early ret timer pd_pass o early =
    rw (not_completed o.ota_status early) refl

-- A first chunk that is too small, or not valid, is not written; but the chunk that comes next is,
-- whatever it holds.
pub req_ota_write_handler_twice :
    (header_size : ℕ) (validity : List ℕ → ℕ) (first second : List ℕ) (ret : ℕ) (o : Ota)
    → o.first_ota_write ≡ true
    → (ltb (length first) header_size || not (validity first == esp_ok)) ≡ true
    → ((req_ota_write_handler true true header_size validity first ret o).1.effects ≡ o.effects)
      × (req_ota_write_handler true true header_size validity second esp_ok
            (req_ota_write_handler true true header_size validity first ret o).1
          ≡ (
            answered success,
            record o { first_ota_write = false; effects = wrote o.handle second ∷ o.effects },
          ))
unfolding req_ota_write_handler
req_ota_write_handler_twice header_size validity first second ret o is_first refused =
    let after : (req_ota_write_handler true true header_size validity first ret o).1
        ≡ record o { first_ota_write = false } =
      ground arith in
    (ground arith, rw after refl)
