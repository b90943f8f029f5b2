-- ===== src/Tests/Requests.antt =====
-- Requests to the co-processor at concrete inputs.
use esp_hosted_open.Prelude.{ℕ, ◌≡◌, refl, true, [], ◌∷◌, arith, ◌≢◌}
use esp_hosted_open.Bytes.{u32_at}
use esp_hosted_open.Proto.Ids
use esp_hosted_open.Proto.Ids.{resp_id}
use esp_hosted_open.Status.{esp_ok}
use esp_hosted_open.Slave.{Chip, Slave, HasMemory, initial_state}
use esp_hosted_open.Slave.Send.{reply_bytes}
use esp_hosted_open.Slave.Phy.{on_set_channel}
use esp_hosted_open.Slave.Handle.{handle, action, request_size}
use esp_hosted_open.Slave.Handle.Reply.{handle_reply}

-- a chip with every symbol, on which every call answers 0
abbrev pub full_chip : Chip
full_chip = record { present = λ f. true; reply = λ log a. 0; alloc = λ log n. true }

abbrev pub booted : Slave
booted = record { state = initial_state; raw_q = true; ftm_handler = true; log = []; sent = [] }

pub full_chip-HasMemory : HasMemory full_chip
full_chip-HasMemory log n = refl

-- SET_CHANNEL 178 under op_id 5
handle_reply_example :
    ((handle full_chip Ids.set_channel (5 ∷ 0 ∷ 0 ∷ 0 ∷ 178 ∷ []) booted).sent
      ≡ reply_bytes (resp_id Ids.set_channel) (u32_at (5 ∷ 0 ∷ 0 ∷ 0 ∷ 178 ∷ []) 0) 0 [] ∷ [])
    × (0 ≢ esp_ok
        → (handle full_chip Ids.set_channel (5 ∷ 0 ∷ 0 ∷ 0 ∷ 178 ∷ []) booted).state
          ≡ initial_state)
unfolding action request_size on_set_channel
handle_reply_example =
    handle_reply full_chip Ids.set_channel (on_set_channel full_chip) (5 ∷ 0 ∷ 0 ∷ 0 ∷ 178 ∷ [])
      booted full_chip-HasMemory refl (omega arith)

abbrev first : ℕ
first = 1
