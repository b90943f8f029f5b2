-- ===== src/Link/Calls.antt =====
-- A whole call: the host's do_call and the co-processor's handler, over a transport that carries the
-- request and its answer.
use esp_hosted_open.Prelude.{
  ℕ, ◌+◌, ◌-◌, lt→ltb, ◌≤◌, ◌<◌, ◌^◌, ◌≡◌, refl, sym, ap, ◌∙◌, true, Option, none, some, List, [],
  ◌∷◌, ◌++◌, arith, length, ltb, if◌then◌else◌,
}
use esp_hosted_open.Bytes.{u32, le32, u32_at, u32_at-le32}
use esp_hosted_open.Status.{esp_ok}
use esp_hosted_open.Proto.Ids.{Call, req_id, resp_id}
use esp_hosted_open.Slave.{Chip, Slave, Action, HasMemory}
use esp_hosted_open.Slave.Send.{reply_bytes}
use esp_hosted_open.Slave.Handle.{handle, action, request_size}
use esp_hosted_open.Slave.Handle.Reply.{status_of, body_of, handle_reply}
use esp_hosted_open.Host.Inflight.{Slot, Host, Message, Rpc, World, Outcome, do_call, copy_into}
use esp_hosted_open.Host.Inflight.Reach.{IsSound}
use esp_hosted_open.Host.Inflight.Calls.{first_free}
use esp_hosted_open.Host.Inflight.Answers.{AllOther, answered, copied, do_call-answered}
use esp_hosted_open.Link.{wire}

-- the data of a reply, after the response id
abbrev pub answer_bytes : ℕ → ℕ → List ℕ → List ℕ
answer_bytes op st body = le32 op ++ (le32 st ++ body)

-- what a call returns for a status and a body: the status, and as much of the body as fits
abbrev pub copy_of : Rpc → List ℕ → Option (List ℕ) → Option (List ℕ) × ℕ
copy_of r body none = (none, 0)
copy_of r [] (some old) = (some old, 0)
copy_of r (b ∷ bs) (some old) =
    let n : ℕ =
      if ltb r.resp_body_cap (length (b ∷ bs)) then r.resp_body_cap else length (b ∷ bs) in
    (some (copy_into n (b ∷ bs) old), n)

abbrev pub returns : Rpc → ℕ → List ℕ → Outcome
returns r st body = record {
  result = u32 st;
  body = (copy_of r body r.resp_body).0;
  body_len = some ((copy_of r body r.resp_body).1);
}

copied-copy_of :
    (r : Rpc) (op st : ℕ) (body : List ℕ) (o : Option (List ℕ))
    → copied r (answer_bytes op st body) o ≡ copy_of r body o
unfolding le32
copied-copy_of r op st body none = refl
copied-copy_of r op st [] (some old) = refl
copied-copy_of r op st (b ∷ bs) (some old) =
    rw (lt→ltb 8 (length (answer_bytes op st (b ∷ bs))) (omega arith), rest)
  where
    rest : length (answer_bytes op st (b ∷ bs)) - 8 ≡ length (b ∷ bs)
    rest = omega arith

status_read : (op st : ℕ) (body : List ℕ) → u32_at (answer_bytes op st body) 4 ≡ u32 st
unfolding u32_at le32
status_read op st body = omega arith

answered-returns :
    (r : Rpc) (op st : ℕ) (body : List ℕ) → answered r (answer_bytes op st body) ≡ returns r st body
answered-returns r op st body = rw (status_read op st body, copied-copy_of r op st body r.resp_body)

eight : (op st : ℕ) (body : List ℕ) → 8 ≤ length (answer_bytes op st body)
unfolding le32
eight op st body = omega arith

-- A request of do_call, handled by the co-processor with memory, is answered once, and if that answer
-- arrives before the wait ends, among responses to other calls, do_call returns what the handler's
-- action came to: its status, and as much of its body as fits the caller's buffer. It takes a sound
-- host table with a free slot and a counter that does not wrap, and a transport that takes the
-- request.
pub do_call-handle :
    (chip : Chip) (s : Slave) (c : Call) (a : Action) (w : World) (r : Rpc) (h : Host) (slot : Slot)
    (pre post : List Message)
    → HasMemory chip
    → action chip c ≡ some a
    → request_size c ≤ length (wire h.next_op_id r)
    → r.req_msg_id ≡ req_id c
    → r.resp_msg_id ≡ resp_id c
    → IsSound h
    → h.next_op_id + 1 < 2 ^ 32
    → h.ready ≡ true
    → w.alloc ≡ true
    → first_free h.slots ≡ some slot
    → w.send (req_id c) (wire h.next_op_id r) ≡ esp_ok
    → w.early
      ≡ pre
        ++ ((
          resp_id c,
          answer_bytes h.next_op_id
              (status_of (a (wire h.next_op_id r) s).0)
              (body_of (a (wire h.next_op_id r) s).0),
        )
            ∷ post)
    → AllOther h.next_op_id (resp_id c) pre
    → AllOther h.next_op_id (resp_id c) post
    → AllOther h.next_op_id (resp_id c) w.late
    → ((handle chip c (wire h.next_op_id r) s).sent
        ≡ (le32 (resp_id c)
            ++ answer_bytes h.next_op_id
                (status_of (a (wire h.next_op_id r) s).0)
                (body_of (a (wire h.next_op_id r) s).0))
          ∷ s.sent)
      × ((do_call w r h).0
          ≡ returns r
              (status_of (a (wire h.next_op_id r) s).0)
              (body_of (a (wire h.next_op_id r) s).0))
do_call-handle chip s c a w r h slot pre post m e size p q sound small ready alloc free sent early
      others after late =
    let op = h.next_op_id in
    let st = status_of (a (wire op r) s).0 in
    let body = body_of (a (wire op r) s).0 in
    (
      (handle_reply chip c a (wire op r) s m e size).0
          ∙ ap (λ n. reply_bytes (resp_id c) n st body ∷ s.sent)
              (u32_at-le32 op r.req_body (omega arith)),
      do_call-answered w r h slot pre post (resp_id c, answer_bytes op st body) sound small ready
            alloc free (rw p sent) early (eight op st body) (sym q)
            (u32_at-le32 op (le32 st ++ body) (omega arith)) (rw q others) (rw q after) (rw q late)
          ∙ answered-returns r op st body,
    )
