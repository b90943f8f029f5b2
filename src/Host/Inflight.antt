-- ===== src/Host/Inflight.antt =====
-- The table of calls in flight (s_inflight, on_response and do_call of esp_hosted_open/src/phy_rpc.c).
-- Each critical section under s_inflight_mutex is one step. What a caller does after its semaphore wait
-- is not under the mutex, so responses may arrive between its wait and its last writes.
pub mod Slots
pub mod Reach
pub mod Calls
pub mod Answers
use esp_hosted_open.Prelude.{
  ℕ, zero, suc, ◌+◌, ◌-◌, Bool, true, false, ◌&&◌, not, Option, none, some, List, [], ◌∷◌, ◌++◌,
  ltb, ◌==◌, if◌then◌else◌, length, get_elem?, set, take, drop, min, replicate,
}
use mathlib.Core.Option
use esp_hosted_open.Bytes.{u32, le32, u32_at}
use esp_hosted_open.Status.{
  esp_ok, esp_fail, esp_err_no_mem, esp_err_invalid_state, esp_err_timeout,
}

-- One entry of s_inflight. `done` tells whether its binary semaphore holds a token; `out_buf` is the
-- caller's memory behind the pointer, `none` for NULL.
pub record Slot : Type 0 where
  pub done : Bool
  pub op_id : ℕ
  pub want_resp_id : ℕ
  pub out_buf : Option (List ℕ)
  pub out_cap : ℕ
  pub out_len : ℕ
  pub status : ℕ
  pub in_use : Bool

-- `ready` tells whether s_inflight_mutex exists.
pub record Host : Type 0 where
  pub ready : Bool
  pub slots : List Slot
  pub next_op_id : ℕ

abbrev pub max_inflight : ℕ
max_inflight = 4

-- A message from the co-processor: its id and its bytes.
abbrev pub Message : Type 0
Message = ℕ × List ℕ

-- The arguments of do_call.
pub record Rpc : Type 0 where
  pub req_msg_id : ℕ
  pub resp_msg_id : ℕ
  pub req_body : List ℕ
  pub resp_body : Option (List ℕ)
  pub resp_body_cap : ℕ

abbrev pub matches : Message → Slot → Bool
matches (msg_id, bytes) s = s.in_use && (s.op_id == u32_at bytes 0) && (s.want_resp_id == msg_id)

-- memcpy(out_buf, src, n), of the first `n` bytes of `src`
abbrev pub copy_into : ℕ → List ℕ → List ℕ → List ℕ
copy_into n src old = take n src ++ drop n old

abbrev pub copy_len : List ℕ → ℕ → ℕ
copy_len bytes cap = if ltb cap (length bytes - 8) then cap else length bytes - 8

-- The copy of on_response into a slot whose status is set.
abbrev pub fill_out : Option (List ℕ) → List ℕ → Slot → Slot
fill_out none bytes s = s
fill_out (some old) bytes s =
    if ltb 8 (length bytes)
    then record s {
      out_buf = some (copy_into (copy_len bytes s.out_cap) (drop 8 bytes) old);
      out_len = copy_len bytes s.out_cap;
    }
    else s

-- What on_response does to the slot that it found, its semaphore included.
unfoldable pub fill : List ℕ → Slot → Slot
unfolding u32_at
fill bytes s = fill_out (s.out_buf) bytes (record s { status = u32_at bytes 4; done = true })

-- The search of on_response, and the update of the first slot that matches.
unfoldable pub deliver_to : Message → List Slot → List Slot
unfolding fill u32_at
deliver_to m [] = []
deliver_to m (s ∷ ss) =
    let rest = deliver_to m ss in if matches m s then fill (m.1) s ∷ ss else s ∷ rest

-- on_response, with the mutex there. A message shorter than its header is dropped.
unfoldable pub on_response : Message → Host → Host
unfolding deliver_to
on_response m h = if ltb (length m.1) 8 then h else record h { slots = deliver_to m (h.slots) }

unfoldable pub on_responses : List Message → Host → Host
unfolding on_response
on_responses [] h = h
on_responses (m ∷ ms) h = on_responses ms (on_response m h)

abbrev pub reserved : ℕ → Rpc → Slot → Slot
reserved op r s = record s {
  op_id = op;
  want_resp_id = r.resp_msg_id;
  out_buf = r.resp_body;
  out_cap = r.resp_body_cap;
  out_len = 0;
  status = esp_fail;
  in_use = true;
}

-- The reservation of do_call: the first slot not in use, and its number.
unfoldable pub reserve : ℕ → Rpc → List Slot → Option (ℕ × List Slot)
reserve op r [] = none
reserve op r (s ∷ ss) =
    let rest = reserve op r ss in
    if s.in_use
    then Option.map (λ (p : ℕ × List Slot). (suc p.0, s ∷ p.1)) rest
    else some (0, reserved op r s ∷ ss)

abbrev pub update_slot : ℕ → (Slot → Slot) → List Slot → List Slot
update_slot i f [] = []
update_slot zero f (s ∷ ss) = f s ∷ ss
update_slot (suc i) f (s ∷ ss) = s ∷ update_slot i f ss

abbrev pub with_slot : ℕ → (Slot → Slot) → Host → Host
with_slot i f h = record h { slots = update_slot i f h.slots }

-- s_inflight[slot].in_use = false
abbrev pub release : ℕ → Host → Host
release i = with_slot i (λ s. record s { in_use = false })

-- What the caller gets: the status, and for the output its memory and *resp_body_len, if written.
pub record Outcome : Type 0 where
  pub result : ℕ
  pub body : Option (List ℕ)
  pub body_len : Option ℕ

-- What happens around one call: whether malloc succeeds, the status of esp_hosted_send_custom_data for
-- an id and its bytes, the messages handled before the caller's wait ends, and those handled after
-- the wait and before the caller frees its slot.
pub record World : Type 0 where
  pub alloc : Bool
  pub send : ℕ → List ℕ → ℕ
  pub early : List Message
  pub late : List Message

abbrev pub failed : ℕ → Rpc → Outcome
failed st r = record { result = st; body = r.resp_body; body_len = none }

abbrev pub token : Option Slot → Bool
token none = false
token (some s) = s.done

abbrev pub outcome_of : Rpc → Option Slot → Outcome
outcome_of r none = failed esp_fail r
outcome_of r (some s) = record { result = s.status; body = s.out_buf; body_len = some (s.out_len) }

abbrev pub body_after : Rpc → Option Slot → Option (List ℕ)
body_after r none = r.resp_body
body_after r (some s) = s.out_buf

-- From the wait to the return. With a token the wait takes it; without one it times out.
unfoldable pub finish_call : World → Rpc → ℕ → Host → Outcome × Host
unfolding on_responses
finish_call w r i h =
    let h1 = on_responses (w.early) h in
    if token (get_elem? (h1.slots) i)
    then (let h2 = on_responses (w.late) (with_slot i (λ s. record s { done = false }) h1) in
        (outcome_of r (get_elem? (h2.slots) i), release i h2))
    else (let h2 = on_responses (w.late) h1 in
        (
          record {
            result = esp_err_timeout;
            body = body_after r (get_elem? (h2.slots) i);
            body_len = none;
          },
          release i h2,
        ))

-- Sending the request, once a slot is reserved; the slot is freed if it cannot be sent.
unfoldable pub send_call : World → Rpc → ℕ → ℕ → Host → Outcome × Host
unfolding finish_call le32
send_call w r op i h =
    let err = w.send r.req_msg_id (le32 op ++ r.req_body) in
    if err == esp_ok then finish_call w r i h else (failed err r, release i h)

-- What follows the reservation.
unfoldable pub start_call : World → Rpc → Host → Option (ℕ × List Slot) → Outcome × Host
unfolding send_call
start_call w r h none = (failed esp_err_no_mem r, h)
start_call w r h (some (i, ss)) =
    send_call w r h.next_op_id i (record h { slots = ss; next_op_id = u32 (h.next_op_id + 1) })

unfoldable pub do_call : World → Rpc → Host → Outcome × Host
unfolding start_call reserve
do_call w r h =
    if not h.ready
    then (failed esp_err_invalid_state r, h)
    else if not w.alloc
    then (failed esp_err_no_mem r, h)
    else start_call w r h (reserve h.next_op_id r h.slots)
