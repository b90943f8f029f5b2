-- ===== src/Host/Inflight/Calls.antt =====
-- One call among others (do_call): its outcome depends on its own slot and the messages alone.
use esp_hosted_open.Prelude.{
  ℕ, zero, suc, ◌+◌, ◌^◌, ◌<◌, ◌≡◌, refl, ap, ◌∙◌, true, false, not, ◌⊎◌, Option, none, some, List,
  [], ◌∷◌, ◌++◌, arith, ltb, ◌==◌, if◌then◌else◌, length, get_elem?, Bool-cases, inl, inr,
}
use mathlib.Core.Option
use esp_hosted_open.Bytes.{u32, le32}
use esp_hosted_open.Status.{esp_ok, esp_err_no_mem, esp_err_invalid_state, esp_err_timeout}
use esp_hosted_open.Host.Inflight.{
  Slot, Host, Message, Rpc, World, Outcome, on_response, on_responses, reserve, reserved,
  update_slot, with_slot, failed, outcome_of, finish_call, send_call, start_call, do_call,
}
use esp_hosted_open.Host.Inflight.Slots.{receive, deliver_to-eq-map, get-map}
use esp_hosted_open.Host.Inflight.Reach.{
  IsSound, on_response-IsSound, with_slot-IsSound, reserved-IsSound,
}

-- what one slot makes of a message, and of several
abbrev pub hear : Message → Slot → Slot
hear m s = if ltb (length m.1) 8 then s else receive m s

abbrev pub hears : List Message → Slot → Slot
hears [] s = s
hears (m ∷ ms) s = hears ms (hear m s)

abbrev pub unready : Slot → Slot
unready s = record s { done = false }

-- The wait and the return, seen from the call's slot.
abbrev pub slot_outcome : World → Rpc → Slot → Outcome
slot_outcome w r s =
    let s1 = hears w.early s in
    if s1.done
    then outcome_of r (some (hears w.late (unready s1)))
    else record { result = esp_err_timeout; body = (hears w.late s1).out_buf; body_len = none }

hear_short : (m : Message) (o : Option Slot) → ltb (length m.1) 8 ≡ true → o ≡ Option.map (hear m) o
hear_short m none h = refl
hear_short m (some s) h = rw h

hear_long :
    (m : Message) (o : Option Slot)
    → ltb (length m.1) 8 ≡ false
    → Option.map (receive m) o ≡ Option.map (hear m) o
hear_long m none h = refl
hear_long m (some s) h = rw h

on_response-get :
    (m : Message) (h : Host) (i : ℕ)
    → IsSound h
    → get_elem? (on_response m h).slots i ≡ Option.map (hear m) (get_elem? h.slots i)
unfolding on_response
on_response-get m h i sound = elim (Bool-cases (ltb (length m.1) 8)) [
  | inl short ↦ rw short (hear_short m (get_elem? h.slots i) short)
  | inr long ↦
      rw (long, deliver_to-eq-map m h.slots sound.distinct)
        (get-map (receive m) h.slots i ∙ hear_long m (get_elem? h.slots i) long)
]

on_responses-IsSound : (ms : List Message) (h : Host) → IsSound h → IsSound (on_responses ms h)
unfolding on_responses
on_responses-IsSound [] h s = s
on_responses-IsSound (m ∷ ms) h s =
    on_responses-IsSound ms (on_response m h) (on_response-IsSound h s m)

on_responses-get :
    (ms : List Message) (h : Host) (i : ℕ) (s : Slot)
    → IsSound h
    → get_elem? h.slots i ≡ some s
    → get_elem? (on_responses ms h).slots i ≡ some (hears ms s)
unfolding on_responses
on_responses-get [] h i s sound p = p
on_responses-get (m ∷ ms) h i s sound p =
    on_responses-get ms (on_response m h) i (hear m s) (on_response-IsSound h sound m)
      (on_response-get m h i sound ∙ ap (Option.map (hear m)) p)

get-update_slot :
    (f : Slot → Slot) (ss : List Slot) (i : ℕ) (s : Slot)
    → get_elem? ss i ≡ some s
    → get_elem? (update_slot i f ss) i ≡ some (f s)
get-update_slot f [] i s p = absurd (cc p)
get-update_slot f (t ∷ ss) zero s p = ap (Option.map f) p
get-update_slot f (t ∷ ss) (suc i) s p = get-update_slot f ss i s p

finish_call-outcome :
    (w : World) (r : Rpc) (i : ℕ) (h : Host) (s : Slot)
    → IsSound h
    → get_elem? h.slots i ≡ some s
    → (finish_call w r i h).0 ≡ slot_outcome w r s
unfolding finish_call
finish_call-outcome w r i h s sound p = elim (Bool-cases ((hears w.early s).done)) [
  | inl y ↦ ground (arith, here, after_take)
  | inr n ↦ ground (arith, here, after_timeout)
]
  where
    sound1 : IsSound (on_responses w.early h)
    sound1 = on_responses-IsSound w.early h sound

    here : get_elem? (on_responses w.early h).slots i ≡ some (hears w.early s)
    here = on_responses-get w.early h i s sound p

    after_take :
        get_elem?
          (on_responses w.late
            (with_slot i (λ t. record t { done = false }) (on_responses w.early h))).slots
          i
        ≡ some (hears w.late (unready (hears w.early s)))
    after_take =
        on_responses-get w.late (with_slot i unready (on_responses w.early h)) i
          (unready (hears w.early s))
          (with_slot-IsSound (on_responses w.early h) sound1 i unready (λ t. refl) (λ t u. u))
          (get-update_slot unready (on_responses w.early h).slots i (hears w.early s) here)

    after_timeout :
        get_elem? (on_responses w.late (on_responses w.early h)).slots i
        ≡ some (hears w.late (hears w.early s))
    after_timeout = on_responses-get w.late (on_responses w.early h) i (hears w.early s) sound1 here

-- the slot that a reservation takes
abbrev pub first_free : List Slot → Option Slot
first_free [] = none
first_free (s ∷ ss) = if s.in_use then first_free ss else some s

free_cases :
    (op : ℕ) (r : Rpc) (ss : List Slot)
    → ((reserve op r ss ≡ none) × (first_free ss ≡ none))
      ⊎ ((i : ℕ) × (s : Slot) × (get_elem? ss i ≡ some s)
          × (first_free ss ≡ some s)
          × (s.in_use ≡ false)
          × (reserve op r ss ≡ some (i, update_slot i (reserved op r) ss)))
unfolding reserve
free_cases op r [] = inl (refl, refl)
free_cases op r (s ∷ ss) = elim (Bool-cases s.in_use) [
  | inr free ↦ inr (0, s, refl, ground arith, free, ground arith)
  | inl busy ↦ elim (free_cases op r ss) [
    | inl (q, n) ↦ inl (ground arith, ground arith)
    | inr (i, t, p, n, f, q) ↦ inr (suc i, t, p, ground arith, f, ground arith)
  ]
]

-- what a call comes to once it has a slot, or has found none
abbrev pub with_free_slot : World → Rpc → ℕ → Option Slot → Outcome
with_free_slot w r op none = failed esp_err_no_mem r
with_free_slot w r op (some s) =
    if w.send r.req_msg_id (le32 op ++ r.req_body) == esp_ok
    then slot_outcome w r (reserved op r s)
    else failed (w.send r.req_msg_id (le32 op ++ r.req_body)) r

-- What do_call returns, on every path: it depends on the host only through its being ready, the op_id
-- that comes next and the first free slot.
abbrev pub call_spec : World → Rpc → Host → Outcome
call_spec w r h =
    if not h.ready
    then failed esp_err_invalid_state r
    else if not w.alloc
    then failed esp_err_no_mem r
    else with_free_slot w r h.next_op_id (first_free h.slots)

send_call-outcome :
    (w : World) (r : Rpc) (op i : ℕ) (h : Host) (s : Slot)
    → IsSound h
    → get_elem? h.slots i ≡ some s
    → (send_call w r op i h).0 ≡ (
        if w.send r.req_msg_id (le32 op ++ r.req_body) == esp_ok
        then slot_outcome w r s
        else failed (w.send r.req_msg_id (le32 op ++ r.req_body)) r)
unfolding send_call
send_call-outcome w r op i h s sound p = ground (arith, finish_call-outcome w r i h s sound p)

start_call-outcome :
    (w : World) (r : Rpc) (h : Host)
    → IsSound h
    → h.next_op_id + 1 < 2 ^ 32
    → (start_call w r h (reserve h.next_op_id r h.slots)).0
      ≡ with_free_slot w r h.next_op_id (first_free h.slots)
unfolding start_call
start_call-outcome w r h sound small = elim (free_cases h.next_op_id r h.slots) [
  | inl (q, n) ↦ rw (q, n)
  | inr (i, s, p, n, f, q) ↦
      rw (q, n)
        (send_call-outcome w r h.next_op_id i
          (record h {
            slots = update_slot i (reserved h.next_op_id r) h.slots;
            next_op_id = u32 (h.next_op_id + 1);
          })
          (reserved h.next_op_id r s) (reserved-IsSound h sound r i small)
          (get-update_slot (reserved h.next_op_id r) h.slots i s p))
]

-- Over a sound table whose counter does not wrap, do_call, with the responses of any calls arriving
-- around it, returns what call_spec says: errors in the order of the code, else what the call's own
-- slot makes of the messages that arrive before and after its wait.
pub do_call-eq-spec :
    (w : World) (r : Rpc) (h : Host)
    → IsSound h
    → h.next_op_id + 1 < 2 ^ 32
    → (do_call w r h).0 ≡ call_spec w r h
unfolding do_call
do_call-eq-spec w r h sound small = ground (arith, start_call-outcome w r h sound small)
