-- ===== src/Host/Inflight/Answers.antt =====
-- What one call returns (do_call of esp_hosted_open/src/phy_rpc.c): with its response, without it, and with a
-- token left over from an earlier call.
use esp_hosted_open.Prelude.{
  ℕ, ◌+◌, ◌^◌, ◌<◌, ◌≤◌, ◌≡◌, refl, ap, ◌∙◌, true, false, ◌&&◌, ◌⊎◌, Option, none, some, List, [],
  ◌∷◌, ◌++◌, arith, ltb, ◌==◌, if◌then◌else◌, length, Bool-cases, drop,
}
use esp_hosted_open.Bytes.{u32_at, le32}
use esp_hosted_open.Status.{esp_ok, esp_fail, esp_err_timeout}
use esp_hosted_open.Host.Inflight.{
  Slot, Host, Message, Rpc, World, Outcome, fill, copy_into, copy_len, reserved, outcome_of,
  do_call,
}
use esp_hosted_open.Host.Inflight.Slots.{fill_keeps}
use esp_hosted_open.Host.Inflight.Reach.{IsSound}
use esp_hosted_open.Host.Inflight.Calls.{hear, hears, unready, first_free, do_call-eq-spec}

-- A message that is not for the call `op` that waits for `id`.
abbrev pub IsOther : ℕ → ℕ → Message → Type 0
IsOther op id m = ((op == u32_at m.1 0) && (id == m.0)) ≡ false

abbrev pub AllOther : ℕ → ℕ → List Message → Type 0
AllOther op id [] = Unit
AllOther op id (m ∷ ms) = IsOther op id m × AllOther op id ms

hears-other : (ms : List Message) (s : Slot) → AllOther s.op_id s.want_resp_id ms → hears ms s ≡ s
hears-other [] s a = refl
hears-other (m ∷ ms) s a = same ∙ hears-other ms s a.1
  where
    same : hears ms (hear m s) ≡ hears ms s
    same = ap (hears ms) (ground arith)

hears-append : (ms ns : List Message) (s : Slot) → hears (ms ++ ns) s ≡ hears ns (hears ms s)
hears-append [] ns s = refl
hears-append (m ∷ ms) ns s = hears-append ms ns (hear m s)

-- What the response `bytes` gives its caller: the status, and as much of its body as fits.
abbrev pub copied : Rpc → List ℕ → Option (List ℕ) → Option (List ℕ) × ℕ
copied r bytes none = (none, 0)
copied r bytes (some old) =
    if ltb 8 (length bytes)
    then (
      some (copy_into (copy_len bytes r.resp_body_cap) (drop 8 bytes) old),
      copy_len bytes r.resp_body_cap,
    )
    else (some old, 0)

abbrev pub answered : Rpc → List ℕ → Outcome
answered r bytes = record {
  result = u32_at bytes 4;
  body = (copied r bytes r.resp_body).0;
  body_len = some ((copied r bytes r.resp_body).1);
}

-- What a slot has heard once its response is among the messages.
hears_answer :
    (s : Slot) (pre post : List Message) (m : Message)
    → s.in_use ≡ true
    → 8 ≤ length m.1
    → m.0 ≡ s.want_resp_id
    → u32_at m.1 0 ≡ s.op_id
    → AllOther s.op_id s.want_resp_id pre
    → AllOther s.op_id s.want_resp_id post
    → hears (pre ++ (m ∷ post)) s ≡ fill m.1 s
hears_answer s pre post m used long id op a b =
    hears-append pre (m ∷ post) s
    ∙ ap (hears (m ∷ post)) (hears-other pre s a)
    ∙ ap (hears post) (heard (Bool-cases (ltb (length m.1) 8)))
    ∙ hears-other post (fill m.1 s) (others b)
  where
    heard : (ltb (length m.1) 8 ≡ true) ⊎ (ltb (length m.1) 8 ≡ false) → hear m s ≡ fill m.1 s
    heard d = ground arith

    others :
        AllOther s.op_id s.want_resp_id post
        → AllOther (fill m.1 s).op_id (fill m.1 s).want_resp_id post
    others b' = rw ((fill_keeps m.1 s).1, (fill_keeps m.1 s).2) b'

outcome_of-fill :
    (r : Rpc) (op : ℕ) (s : Slot) (bytes : List ℕ)
    → outcome_of r (some (unready (fill bytes (reserved op r s)))) ≡ answered r bytes
unfolding fill
outcome_of-fill r op s bytes = filled r.resp_body refl
  where
    filled :
        (o : Option (List ℕ))
        → r.resp_body ≡ o
        → outcome_of r (some (unready (fill bytes (reserved op r s)))) ≡ answered r bytes
    filled none e = ground arith
    filled (some old) e = ground arith

fill_done : (bytes : List ℕ) (s : Slot) → (fill bytes s).done ≡ true
unfolding fill
fill_done bytes s = ground arith

-- A call that can be sent, whose response arrives before its wait ends, returns the status of the
-- response, and its body cut to the caller's capacity; all other messages may be for other calls or
-- for none.
pub do_call-answered :
    (w : World) (r : Rpc) (h : Host) (s : Slot) (pre post : List Message) (m : Message)
    → IsSound h
    → h.next_op_id + 1 < 2 ^ 32
    → h.ready ≡ true
    → w.alloc ≡ true
    → first_free h.slots ≡ some s
    → w.send r.req_msg_id (le32 h.next_op_id ++ r.req_body) ≡ esp_ok
    → w.early ≡ pre ++ (m ∷ post)
    → 8 ≤ length m.1
    → m.0 ≡ r.resp_msg_id
    → u32_at m.1 0 ≡ h.next_op_id
    → AllOther h.next_op_id r.resp_msg_id pre
    → AllOther h.next_op_id r.resp_msg_id post
    → AllOther h.next_op_id r.resp_msg_id w.late
    → (do_call w r h).0 ≡ answered r m.1
do_call-answered w r h s pre post m sound small ready alloc free sent e long id op a b c =
    do_call-eq-spec w r h sound small
    ∙ ground (
      arith,
      heard,
      fill_done m.1 (reserved h.next_op_id r s),
      later,
      outcome_of-fill r h.next_op_id s m.1,
    )
  where
    heard : hears w.early (reserved h.next_op_id r s) ≡ fill m.1 (reserved h.next_op_id r s)
    heard = rw e (hears_answer (reserved h.next_op_id r s) pre post m refl long id op a b)

    kept :
        ((fill m.1 (reserved h.next_op_id r s)).in_use ≡ true)
        × ((fill m.1 (reserved h.next_op_id r s)).op_id ≡ h.next_op_id)
        × ((fill m.1 (reserved h.next_op_id r s)).want_resp_id ≡ r.resp_msg_id)
    kept = fill_keeps m.1 (reserved h.next_op_id r s)

    later :
        hears w.late (unready (fill m.1 (reserved h.next_op_id r s)))
        ≡ unready (fill m.1 (reserved h.next_op_id r s))
    later =
        hears-other w.late (unready (fill m.1 (reserved h.next_op_id r s))) (rw (kept.1, kept.2) c)

-- A call none of whose messages arrives, over a slot with no old token, times out with ESP_ERR_TIMEOUT
-- and leaves the caller's memory alone.
pub do_call_timeout :
    (w : World) (r : Rpc) (h : Host) (s : Slot)
    → IsSound h
    → h.next_op_id + 1 < 2 ^ 32
    → h.ready ≡ true
    → w.alloc ≡ true
    → first_free h.slots ≡ some s
    → s.done ≡ false
    → w.send r.req_msg_id (le32 h.next_op_id ++ r.req_body) ≡ esp_ok
    → AllOther h.next_op_id r.resp_msg_id w.early
    → AllOther h.next_op_id r.resp_msg_id w.late
    → (do_call w r h).0 ≡ record { result = esp_err_timeout; body = r.resp_body; body_len = none }
do_call_timeout w r h s sound small ready alloc free quiet sent a b =
    do_call-eq-spec w r h sound small
    ∙ ground (
      arith,
      hears-other w.early (reserved h.next_op_id r s) a,
      hears-other w.late (reserved h.next_op_id r s) b,
    )

-- A call that takes a free slot whose semaphore still holds a token, and to which no response arrives,
-- returns ESP_FAIL (with an output length of 0) instead of ESP_ERR_TIMEOUT.
pub stale_token :
    (w : World) (r : Rpc) (h : Host) (s : Slot)
    → IsSound h
    → h.next_op_id + 1 < 2 ^ 32
    → h.ready ≡ true
    → w.alloc ≡ true
    → first_free h.slots ≡ some s
    → s.done ≡ true
    → w.send r.req_msg_id (le32 h.next_op_id ++ r.req_body) ≡ esp_ok
    → AllOther h.next_op_id r.resp_msg_id w.early
    → AllOther h.next_op_id r.resp_msg_id w.late
    → (do_call w r h).0 ≡ record { result = esp_fail; body = r.resp_body; body_len = some 0 }
stale_token w r h s sound small ready alloc free stale sent a b =
    do_call-eq-spec w r h sound small
    ∙ ground (
      arith,
      hears-other w.early (reserved h.next_op_id r s) a,
      hears-other w.late (unready (reserved h.next_op_id r s)) b,
    )
