-- ===== src/Tests/Updates.antt =====
-- The firmware update, the dispatcher and the heartbeat at concrete inputs.
use esp_hosted_open.Prelude.{
  ℕ, ◌+◌, get_or, ◌≡◌, inl, refl, true, false, none, some, [], ◌∷◌, arith,
}
use esp_hosted_open.Status.{esp_ok}
use esp_hosted_open.Control.Ota.{
  Ota, ota_not_started, req_ota_begin_handler, req_ota_end_handler, req_ota_activate_handler,
}
use esp_hosted_open.Control.Ota.Boot.{
  step_begin, step_end, step_activate, here, then_step, IsSafe, Reach-IsSafe,
}
use esp_hosted_open.Control.Dispatch.{Rpc, Entry, Protobuf, data_transfer_handler}
use esp_hosted_open.Control.Dispatch.Answer.{IsAnswer, data_transfer_handler-IsAnswer}

abbrev idle : Ota
idle = record {
  update_partition = none;
  handle = 0;
  ota_status = ota_not_started;
  first_ota_write = false;
  effects = [];
}

abbrev started : Ota
started = (req_ota_begin_handler true true (some 1) esp_ok 7 idle).1

abbrev finished : Ota
finished = (req_ota_end_handler true true esp_ok started).1

abbrev switched : Ota
switched = (req_ota_activate_handler true true esp_ok true true finished).1

Reach-IsSafe_example : IsSafe switched
Reach-IsSafe_example =
    Reach-IsSafe idle switched
      (record {
        ordered = tt;
        ready = λ e. absurd (ground arith);
        chosen = refl;
        written = inl refl;
      })
      (then_step finished switched
        (then_step started finished
          (then_step idle started here (step_begin true true (some 1) esp_ok 7 idle))
          (step_end true true esp_ok started))
        (step_activate true true esp_ok true true finished))

-- three numbers for a message
abbrev numbers : Protobuf ℕ
numbers = record {
  req_base = 256;
  req_max = 400;
  resp_base = 512;
  no_payload = 0;
  unpack = λ bytes. some (record {
    msg_id = get_or bytes 0 0;
    uid = get_or bytes 1 0;
    payload_case = 0;
    payload = get_or bytes 2 0;
  });
  pack = λ r. r.msg_id ∷ r.uid ∷ r.payload ∷ [];
}

-- it answers the payload plus 1, and counts
abbrev counting : Entry ℕ ℕ
counting = record {
  req_num = 300;
  command_handler = λ req resp s. (esp_ok, record resp { payload = req.payload + 1 }, s + 1);
}

abbrev request : Rpc ℕ
request = record { msg_id = 300; uid = 9; payload_case = 0; payload = 5 }

data_transfer_handler-IsAnswer_example :
    (resp : Rpc ℕ) × (s' : ℕ) × (data_transfer_handler numbers
        (counting ∷ [])
        true
        true
        (some (300 ∷ 9 ∷ 5 ∷ []))
        0
      ≡ (esp_ok, some (resp.msg_id ∷ resp.uid ∷ resp.payload ∷ []), s'))
    × IsAnswer numbers (counting ∷ []) request 0 (resp, s')
data_transfer_handler-IsAnswer_example =
    data_transfer_handler-IsAnswer numbers (counting ∷ []) (300 ∷ 9 ∷ 5 ∷ []) request 0
      ((λ req resp s. (refl, refl)), tt) refl (λ r. refl)
