-- ===== src/Host/Inflight/Reach.antt =====
-- What holds of the table of calls in flight between any two critical sections, whichever threads
-- call and whatever responses arrive.
use esp_hosted_open.Prelude.{
  ℕ, zero, suc, ◌+◌, ◌^◌, ◌<◌, ◌≡◌, refl, sym, ap, ◌∙◌, ◌≢◌, true, false, Option, none, some, List,
  [], ◌∷◌, arith, ltb, length, get_elem?, Bool-cases, replicate, inl, inr, ◌≤◌, le→ltb_false,
}
use mathlib.Core.Path.{subst}
use mathlib.Core.Option
use esp_hosted_open.Bytes.{u32}
use esp_hosted_open.Host.Inflight.{
  Slot, Host, Message, Rpc, matches, deliver_to, on_response, reserve, reserved, update_slot,
  with_slot, release, max_inflight,
}
use esp_hosted_open.Host.Inflight.Slots.{
  IsFresh, IsDistinct, AllBelow, receive, deliver_to-eq-map, receive-IsDistinct, receive-AllBelow,
  length-map-receive, update-IsDistinct, update-AllBelow, length-update_slot, get-map,
}

pub record IsSound (h : Host) : Type 0 where
  pub four : length h.slots ≡ max_inflight
  pub distinct : IsDistinct h.slots
  pub below : AllBelow h.next_op_id h.slots

-- One critical section of a thread, or one write that a caller makes outside the mutex. The counter of
-- op_ids has not wrapped yet when a call is reserved.
pub data Step (h h' : Host) : Type 0 where
  reserve_step :
      (r : Rpc) (i : ℕ)
      → h.next_op_id + 1 < 2 ^ 32
      → reserve h.next_op_id r h.slots ≡ some (i, update_slot i (reserved h.next_op_id r) h.slots)
      → h' ≡ record h {
        slots = update_slot i (reserved h.next_op_id r) h.slots;
        next_op_id = u32 (h.next_op_id + 1);
      }
      → Step h h'
  response_step : (m : Message) → h' ≡ on_response m h → Step h h'
  take_step : (i : ℕ) → h' ≡ with_slot i (λ s. record s { done = false }) h → Step h h'
  release_step : (i : ℕ) → h' ≡ release i h → Step h h'

pub data Reach (h : Host) : Host → Type 0 where
  start : Reach h h
  next : {h' h'' : Host} → Reach h h' → Step h' h'' → Reach h h''

AllBelow-IsFresh : (n : ℕ) (ss : List Slot) → AllBelow n ss → IsFresh n ss
AllBelow-IsFresh n [] h = tt
AllBelow-IsFresh n (s ∷ ss) h = ((λ u e. omega (arith, h.0 u)), AllBelow-IsFresh n ss h.1)

AllBelow-suc : (n : ℕ) (ss : List Slot) → AllBelow n ss → AllBelow (n + 1) ss
AllBelow-suc n [] h = tt
AllBelow-suc n (s ∷ ss) h = ((λ u. omega (arith, h.0 u)), AllBelow-suc n ss h.1)

module _ (op : ℕ) (r : Rpc) where
  reserved-IsFresh :
      (k i : ℕ) (ss : List Slot)
      → k ≢ op
      → IsFresh k ss
      → IsFresh k (update_slot i (reserved op r) ss)
  reserved-IsFresh k i [] ne h = tt
  reserved-IsFresh k zero (s ∷ ss) ne h = ((λ u e. ne (sym e)), h.1)
  reserved-IsFresh k (suc i) (s ∷ ss) ne h = (h.0, reserved-IsFresh k i ss ne h.1)

  reserved-IsDistinct :
      (i : ℕ) (ss : List Slot)
      → IsFresh op ss
      → IsDistinct ss
      → IsDistinct (update_slot i (reserved op r) ss)
  reserved-IsDistinct i [] f h = tt
  reserved-IsDistinct zero (s ∷ ss) f h = ((λ u. f.1), h.1)
  reserved-IsDistinct (suc i) (s ∷ ss) f h =
      ((λ u. reserved-IsFresh s.op_id i ss (f.0 u) (h.0 u)), reserved-IsDistinct i ss f.1 h.1)

  reserved-AllBelow :
      (n i : ℕ) (ss : List Slot)
      → op < n
      → AllBelow n ss
      → AllBelow n (update_slot i (reserved op r) ss)
  reserved-AllBelow n i [] lt h = tt
  reserved-AllBelow n zero (s ∷ ss) lt h = ((λ u. lt), h.1)
  reserved-AllBelow n (suc i) (s ∷ ss) lt h = (h.0, reserved-AllBelow n i ss lt h.1)

module _ (h : Host) (sound : IsSound h) where
  open sound use {four, distinct, below}

  pub reserved-IsSound :
      (r : Rpc) (i : ℕ)
      → h.next_op_id + 1 < 2 ^ 32
      → IsSound (record h {
        slots = update_slot i (reserved h.next_op_id r) h.slots;
        next_op_id = u32 (h.next_op_id + 1);
      })
  reserved-IsSound r i small = record {
    four = length-update_slot i (reserved h.next_op_id r) h.slots ∙ four;
    distinct =
        reserved-IsDistinct h.next_op_id r i h.slots (AllBelow-IsFresh h.next_op_id h.slots below)
          distinct;
    below =
        subst (λ n. AllBelow n (update_slot i (reserved h.next_op_id r) h.slots)) (omega arith)
          (reserved-AllBelow h.next_op_id r (h.next_op_id + 1) i h.slots (omega arith)
            (AllBelow-suc h.next_op_id h.slots below));
  }

  pub deliver-IsSound : (m : Message) → IsSound (record h { slots = deliver_to m h.slots })
  deliver-IsSound m = rw (deliver_to-eq-map m h.slots distinct) (record {
    four = length-map-receive m h.slots ∙ four;
    distinct = receive-IsDistinct m h.slots distinct;
    below = receive-AllBelow m h.next_op_id h.slots below;
  })

  pub on_response-IsSound : (m : Message) → IsSound (on_response m h)
  unfolding on_response
  on_response-IsSound m = elim (Bool-cases (ltb (length m.1) 8)) [
    | inl short ↦ rw short sound
    | inr long ↦ rw long (deliver-IsSound m)
  ]

  pub with_slot-IsSound :
      (i : ℕ) (f : Slot → Slot)
      → ((s : Slot) → (f s).op_id ≡ s.op_id)
      → ((s : Slot) → (f s).in_use ≡ true → s.in_use ≡ true)
      → IsSound (with_slot i f h)
  with_slot-IsSound i f same frees = record {
    four = length-update_slot i f h.slots ∙ four;
    distinct = update-IsDistinct f same i h.slots frees distinct;
    below = update-AllBelow f same h.next_op_id i h.slots frees below;
  }

  Step-IsSound : (h' : Host) → Step h h' → IsSound h'
  Step-IsSound h' (reserve_step r i small q e) = rw e (reserved-IsSound r i small)
  Step-IsSound h' (response_step m e) = rw e (on_response-IsSound m)
  Step-IsSound h' (take_step i e) = rw e (with_slot-IsSound i _ (λ s. refl) (λ s u. u))
  Step-IsSound h' (release_step i e) = rw e (with_slot-IsSound i _ (λ s. refl) (λ s u. cc))

pub Reach-IsSound : {h h' : Host} → IsSound h → Reach h h' → IsSound h'
Reach-IsSound s start = s
Reach-IsSound s (next {h'} {h''} r st) = Step-IsSound h' (Reach-IsSound s r) h'' st

abbrev pub empty_slot : Slot
empty_slot = record {
  done = false;
  op_id = 0;
  want_resp_id = 0;
  out_buf = none;
  out_cap = 0;
  out_len = 0;
  status = 0;
  in_use = false;
}

-- The static table, once esp_hosted_open_init has made its semaphores.
abbrev pub initial_host : Host
initial_host = record { ready = true; slots = replicate max_inflight empty_slot; next_op_id = 1 }

initial-IsSound : IsSound initial_host
initial-IsSound = ground arith

fresh_get :
    (op : ℕ) (ss : List Slot) (i : ℕ) (s : Slot)
    → IsFresh op ss
    → get_elem? ss i ≡ some s
    → s.in_use ≡ true
    → s.op_id ≢ op
fresh_get op [] i s f p u = cc
fresh_get op (t ∷ ss) zero s f p u = ground (arith, f.0)
fresh_get op (t ∷ ss) (suc i) s f p u = fresh_get op ss i s f.1 p u

abbrev FreshFor : List Slot → Option Slot → Type 0
FreshFor ss none = Unit
FreshFor ss (some s) = s.in_use ≡ true → IsFresh s.op_id ss

head_fresh :
    (ss : List Slot) (a s : Slot) → FreshFor ss (some a) → some a ≡ some s → FreshFor ss (some s)
head_fresh ss a s d p = subst (FreshFor ss) p d

distinct_ids :
    (ss : List Slot) (i j : ℕ) (s t : Slot)
    → IsDistinct ss
    → get_elem? ss i ≡ some s
    → get_elem? ss j ≡ some t
    → s.in_use ≡ true
    → t.in_use ≡ true
    → s.op_id ≡ t.op_id
    → i ≡ j
distinct_ids [] i j s t d p q u v e = absurd (cc p)
distinct_ids (a ∷ ss) zero zero s t d p q u v e = refl
distinct_ids (a ∷ ss) zero (suc j) s t d p q u v e =
    absurd (fresh_get s.op_id ss j t (head_fresh ss a s d.0 p u) q v (sym e))
distinct_ids (a ∷ ss) (suc i) zero s t d p q u v e =
    absurd (fresh_get t.op_id ss i s (head_fresh ss a t d.0 q v) p u e)
distinct_ids (a ∷ ss) (suc i) (suc j) s t d p q u v e =
    ap suc (distinct_ids ss i j s t d.1 p q u v e)

-- In every state that calls, responses, waits and releases reach from the initial table, as long as the
-- counter of op_ids has not wrapped, a response matches one slot at most, and on_response does to
-- each slot what that slot alone calls for: it fills the slot that matches and leaves every other as
-- it was.
pub response_exact :
    (h : Host) (m : Message)
    → Reach initial_host h
    → 8 ≤ length m.1
    → ((i j : ℕ) (s t : Slot)
        → get_elem? h.slots i ≡ some s
        → get_elem? h.slots j ≡ some t
        → matches m s ≡ true
        → matches m t ≡ true
        → i ≡ j)
      × ((i : ℕ)
          → get_elem? (on_response m h).slots i ≡ Option.map (receive m) (get_elem? h.slots i))
unfolding on_response
response_exact h m r long =
    let sound = Reach-IsSound initial-IsSound r in
    (
      (λ i j s t p q u v.
          distinct_ids h.slots i j s t sound.distinct p q (ground arith) (ground arith)
            (ground arith)),
      (λ i.
          rw (le→ltb_false (length m.1) 8 long, deliver_to-eq-map m h.slots sound.distinct)
            (get-map (receive m) h.slots i)),
    )
