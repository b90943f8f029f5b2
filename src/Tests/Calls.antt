-- ===== src/Tests/Calls.antt =====
-- Calls in flight at concrete inputs.
use esp_hosted_open.Prelude.{ℕ, ◌≡◌, refl, true, some, [], ◌∷◌, arith, get_elem?}
use mathlib.Core.Option
use esp_hosted_open.Bytes.{u32, u32_at}
use esp_hosted_open.Status.{esp_ok}
use esp_hosted_open.Host.Inflight.{
  Slot, Host, Message, Rpc, World, matches, on_response, reserve, reserved, update_slot, do_call,
}
use esp_hosted_open.Host.Inflight.Slots.{receive}
use esp_hosted_open.Host.Inflight.Reach.{
  IsSound, Reach, start, next, reserve_step, initial_host, empty_slot, response_exact,
}
use esp_hosted_open.Host.Inflight.Calls.{call_spec, do_call-eq-spec}
use esp_hosted_open.Host.Inflight.Answers.{do_call-answered}

-- a call with a one-byte output, as get_phy_rssi makes it
abbrev rssi_call : Rpc
rssi_call = record {
  req_msg_id = 100;
  resp_msg_id = 200;
  req_body = [];
  resp_body = some (0 ∷ []);
  resp_body_cap = 1;
}

-- the response to op_id 1: ESP_OK and the byte 186
abbrev rssi_response : Message
rssi_response = (200, 1 ∷ 0 ∷ 0 ∷ 0 ∷ 0 ∷ 0 ∷ 0 ∷ 0 ∷ 186 ∷ [])

-- the same for op_id 9
abbrev other_response : Message
other_response = (200, 9 ∷ 0 ∷ 0 ∷ 0 ∷ 0 ∷ 0 ∷ 0 ∷ 0 ∷ 186 ∷ [])

abbrev answering : World
answering = record {
  alloc = true;
  send = λ id bs. esp_ok;
  early = other_response ∷ rssi_response ∷ [];
  late = [];
}

-- the first slot's semaphore still holds a token
abbrev tokened_host : Host
tokened_host = record {
  ready = true;
  slots = record empty_slot { done = true } ∷ empty_slot ∷ empty_slot ∷ empty_slot ∷ [];
  next_op_id = 1;
}

initial-IsSound : IsSound initial_host
initial-IsSound = record { four = refl; distinct = ground arith; below = ground arith }

tokened-IsSound : IsSound tokened_host
tokened-IsSound = record { four = refl; distinct = ground arith; below = ground arith }

do_call-eq-spec_example :
    (do_call answering rssi_call initial_host).0 ≡ call_spec answering rssi_call initial_host
do_call-eq-spec_example =
    do_call-eq-spec answering rssi_call initial_host initial-IsSound (omega arith)

do_call-answered_example :
    (do_call answering rssi_call initial_host).0
    ≡ record { result = esp_ok; body = some (186 ∷ []); body_len = some 1 }
unfolding u32_at
do_call-answered_example =
    do_call-answered answering rssi_call initial_host empty_slot (other_response ∷ []) []
      rssi_response initial-IsSound (omega arith) refl refl refl refl refl (omega arith) refl refl
      (refl, tt) tt tt

-- the host with the call reserved
abbrev waiting_host : Host
waiting_host = record {
  ready = true;
  slots =
      update_slot 0 (reserved 1 rssi_call) (empty_slot ∷ empty_slot ∷ empty_slot ∷ empty_slot ∷ []);
  next_op_id = u32 2;
}

waiting_Reach : Reach initial_host waiting_host
unfolding reserve
waiting_Reach = next start (reserve_step rssi_call 0 (omega arith) refl refl)

response_exact_example :
    ((i j : ℕ) (s t : Slot)
      → get_elem? waiting_host.slots i ≡ some s
      → get_elem? waiting_host.slots j ≡ some t
      → matches rssi_response s ≡ true
      → matches rssi_response t ≡ true
      → i ≡ j)
    × ((i : ℕ)
        → get_elem? (on_response rssi_response waiting_host).slots i
          ≡ Option.map (receive rssi_response) (get_elem? waiting_host.slots i))
response_exact_example = response_exact waiting_host rssi_response waiting_Reach (omega arith)
