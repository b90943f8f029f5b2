-- ===== src/Control/Ota.antt =====
-- The firmware update (slave/main/slave_control.c), in a build with H_OTA_CHECK_IMAGE_VALIDITY. What
-- ESP-IDF and FreeRTOS answer is a parameter of each handler.
pub mod Boot
pub mod Early
use esp_hosted_open.Prelude.{
  ℕ, Bool, true, false, not, Option, none, some, List, [], ◌∷◌, ltb, ◌==◌, if◌then◌else◌, length,
}
use esp_hosted_open.Status.{esp_ok, esp_fail, esp_err_no_mem, esp_err_invalid_size}

pub data OtaStatus : Type 0 where
  ota_not_started ota_in_progress ota_completed ota_failed ota_activated : OtaStatus

-- What has been done, the latest first: what esp_ota_get_next_update_partition has put into
-- update_partition, and esp_ota_begin on a partition, esp_ota_write, esp_ota_end and
-- esp_ota_set_boot_partition, each where it succeeded.
pub data Effect : Type 0 where
  selected : Option ℕ → Effect
  begun : ℕ → Effect
  wrote : ℕ → List ℕ → Effect
  ended : ℕ → Effect
  boot_set : Option ℕ → Effect

-- the file's variables
pub record Ota : Type 0 where
  pub update_partition : Option ℕ
  pub handle : ℕ
  pub ota_status : OtaStatus
  pub first_ota_write : Bool
  pub effects : List Effect

-- What a handler returns: a status without an answer, or ESP_OK with the answer's resp.
pub data Reply : Type 0 where
  failed : ℕ → Reply
  answered : ℕ → Reply

-- the start of every handler: the pointers, and the allocation of the answer
abbrev pub with_resp : {A : Type 0} → Bool → Bool → A → Reply × A → Reply × A
with_resp has_args can_alloc a body =
    if not has_args
    then (failed esp_fail, a)
    else if not can_alloc
    then (failed esp_err_no_mem, a)
    else body

abbrev pub success : ℕ
success = 0

-- behind esp_ota_get_next_update_partition; `ret` and `handle` are what esp_ota_begin gives.
abbrev pub begin_on : ℕ → ℕ → ℕ → Ota → Reply × Ota
begin_on part ret handle o =
    let o : Ota = record o {
      update_partition = some part;
      effects = selected (some part) ∷ o.effects;
    } in
    if not (ret == esp_ok) then (answered ret, o) else (
      answered success,
      record o {
        handle = handle;
        ota_status = ota_in_progress;
        first_ota_write = true;
        effects = begun part ∷ o.effects;
      },
    )

unfoldable pub req_ota_begin_handler : Bool → Bool → Option ℕ → ℕ → ℕ → Ota → Reply × Ota
req_ota_begin_handler has_args can_alloc next ret handle o =
    with_resp has_args can_alloc o (elim next [
      | none ↦ (
        answered 0xFFFFFFFF,
        record o { update_partition = none; effects = selected none ∷ o.effects },
      )
      | some part ↦ begin_on part ret handle o
    ])

-- esp_ota_write, which gives `ret`
abbrev pub write_data : List ℕ → ℕ → Ota → Reply × Ota
write_data bytes ret o =
    if not (ret == esp_ok)
    then (answered ret, o)
    else (answered success, record o { effects = wrote o.handle bytes ∷ o.effects })

-- `header_size` is OTA_IMAGE_HEADER_SIZE, of three structs of ESP-IDF, and `validity` what
-- esp_ota_check_image_validity says of a first chunk.
unfoldable pub req_ota_write_handler :
    Bool → Bool → ℕ → (List ℕ → ℕ) → List ℕ → ℕ → Ota → Reply × Ota
req_ota_write_handler has_args can_alloc header_size validity bytes ret o =
    let started : Ota = record o { first_ota_write = false } in
    with_resp has_args can_alloc o (
      if not o.first_ota_write
      then write_data bytes ret o
      else if ltb (length bytes) header_size
      then (answered esp_err_invalid_size, started)
      else if not (validity bytes == esp_ok)
      then (answered (validity bytes), started)
      else write_data bytes ret started)

-- `ret` is what esp_ota_end gives.
unfoldable pub req_ota_end_handler : Bool → Bool → ℕ → Ota → Reply × Ota
req_ota_end_handler has_args can_alloc ret o = with_resp has_args can_alloc o (
    if not (ret == esp_ok) then (answered ret, record o { ota_status = ota_failed }) else (
      answered success,
      record o { ota_status = ota_completed; effects = ended o.handle ∷ o.effects },
    ))

abbrev pub is_completed : OtaStatus → Bool
is_completed ota_completed = true
is_completed ota_not_started = false
is_completed ota_in_progress = false
is_completed ota_failed = false
is_completed ota_activated = false

-- behind the switch: `ret` is what esp_ota_set_boot_partition gives, `timer` whether xTimerCreate gives
-- a timer, and `pd_pass` whether xTimerStart starts it.
abbrev pub activate : ℕ → Bool → Bool → Ota → Reply × Ota
activate ret timer pd_pass o =
    let o' : Ota = record o {
      ota_status = ota_activated;
      effects = boot_set o.update_partition ∷ o.effects;
    } in
    if not (ret == esp_ok)
    then (answered ret, o)
    else if not timer
    then (answered 0xFFFFFFFF, o')
    else if not pd_pass
    then (answered 0xFFFFFFFE, o')
    else (answered success, o')

-- In the other states `ret` is still ESP_OK when it becomes the answer.
unfoldable pub req_ota_activate_handler : Bool → Bool → ℕ → Bool → Bool → Ota → Reply × Ota
req_ota_activate_handler has_args can_alloc ret timer pd_pass o =
    with_resp has_args can_alloc o
      (if is_completed o.ota_status then activate ret timer pd_pass o else (answered esp_ok, o))
