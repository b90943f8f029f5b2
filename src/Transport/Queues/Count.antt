-- ===== src/Transport/Queues/Count.antt =====
-- The semaphore counts the packets in the queues, however the receive task and a reader interleave.
use esp_hosted_open.Prelude.{
  ℕ, suc, ◌+◌, ◌*◌, ◌≤◌, ◌<◌, ◌≡◌, refl, none, some, List, [], ◌∷◌, arith, length, length-append,
}
use esp_hosted_open.Transport.Queues.{
  Class, q_serial, q_bt, q_others, class_of, Packet, Queues, empty, total, append_packet, send,
  send_to, receive, receive_from, give,
}

-- A task is between xQueueSend and xSemaphoreGive (sent), or between xSemaphoreTake and
-- xQueueReceive (taken), or it is not.
pub record Shared : Type 0 where
  pub queues : Queues
  pub sem : ℕ
  pub sent : ℕ
  pub taken : ℕ

-- one step of the receive task (queue, then release) or of the reader (take, then pick_up)
pub data Step (depth max : ℕ) (s : Shared) : Shared → Type 0 where
  queue :
      (p : Packet) (q : Queues)
      → s.sent ≡ 0
      → send depth p s.queues ≡ some q
      → Step depth max s (record s { queues = q; sent = 1 })
  release : s.sent ≡ 1 → Step depth max s (record s { sem = give max s.sem; sent = 0 })
  take : (n : ℕ) → s.taken ≡ 0 → s.sem ≡ suc n → Step depth max s (record s { sem = n; taken = 1 })
  pick_up :
      (p : Packet) (q : Queues)
      → s.taken ≡ 1
      → receive s.queues ≡ some (p, q)
      → Step depth max s (record s { queues = q; taken = 0 })

pub data Reach (depth max : ℕ) (s : Shared) : Shared → Type 0 where
  here : Reach depth max s s
  next : {t u : Shared} → Reach depth max s t → Step depth max t u → Reach depth max s u

-- Every packet is counted once, by the semaphore or by a task between its two calls.
pub record IsCounted (depth : ℕ) (s : Shared) : Type 0 where
  pub counted : s.sem + s.sent + s.taken ≡ total s.queues
  pub serial_fits : length s.queues.serial ≤ depth
  pub bt_fits : length s.queues.bt ≤ depth
  pub others_fits : length s.queues.others ≤ depth

pub total-send_to :
    (c : Class) (depth : ℕ) (p : Packet) (q r : Queues)
    → send_to c depth p q ≡ some r
    → total r ≡ suc (total q)
unfolding append_packet
total-send_to q_serial depth p q r e = ground (arith, length-append q.serial (p ∷ []))
total-send_to q_bt depth p q r e = ground (arith, length-append q.bt (p ∷ []))
total-send_to q_others depth p q r e = ground (arith, length-append q.others (p ∷ []))

pub total-send :
    (depth : ℕ) (p : Packet) (q r : Queues) → send depth p q ≡ some r → total r ≡ suc (total q)
unfolding send
total-send depth p q r e = total-send_to (class_of p.if_type) depth p q r e

abbrev Grows : ℕ → Queues → Queues → Type 0
Grows depth q r =
    (total r ≡ suc (total q))
    × (length r.serial ≤ depth)
    × (length r.bt ≤ depth)
    × (length r.others ≤ depth)

send_to-Grows :
    (c : Class) (depth : ℕ) (p : Packet) (q r : Queues)
    → (length q.serial ≤ depth)
    → (length q.bt ≤ depth)
    → (length q.others ≤ depth)
    → send_to c depth p q ≡ some r
    → Grows depth q r
unfolding append_packet
send_to-Grows q_serial depth p q r a b d e = ground (arith, length-append q.serial (p ∷ []))
send_to-Grows q_bt depth p q r a b d e = ground (arith, length-append q.bt (p ∷ []))
send_to-Grows q_others depth p q r a b d e = ground (arith, length-append q.others (p ∷ []))

abbrev Shrinks : ℕ → Queues → Queues → Type 0
Shrinks depth q r =
    (total q ≡ suc (total r))
    × (length r.serial ≤ length q.serial)
    × (length r.bt ≤ length q.bt)
    × (length r.others ≤ length q.others)

receive_from-Shrinks :
    (depth : ℕ) (xs ys zs : List Packet) (p : Packet) (r : Queues)
    → receive_from xs ys zs ≡ some (p, r)
    → Shrinks depth (record { serial = xs; bt = ys; others = zs }) r
receive_from-Shrinks depth (x ∷ xs) ys zs p r e = ground arith
receive_from-Shrinks depth [] (y ∷ ys) zs p r e = ground arith
receive_from-Shrinks depth [] [] (z ∷ zs) p r e = ground arith
receive_from-Shrinks depth [] [] [] p r e = cc

module _ (depth : ℕ) where
  Step-IsCounted :
      {s t : Shared} → Step depth (depth * 3) s t → IsCounted depth s → IsCounted depth t
  unfolding send receive give
  Step-IsCounted {s} (queue p q idle e) h =
      let (more, a, b, c) =
        send_to-Grows (class_of p.if_type) depth p s.queues q h.serial_fits h.bt_fits h.others_fits
          e in
      record {
        counted = omega (arith, h.counted, more, idle);
        serial_fits = a;
        bt_fits = b;
        others_fits = c;
      }
  Step-IsCounted {s} (release one) h = record {
    counted = ground (arith, h.counted, h.serial_fits, h.bt_fits, h.others_fits);
    serial_fits = h.serial_fits;
    bt_fits = h.bt_fits;
    others_fits = h.others_fits;
  }
  Step-IsCounted {s} (take n idle e) h = record {
    counted = omega (arith, h.counted);
    serial_fits = h.serial_fits;
    bt_fits = h.bt_fits;
    others_fits = h.others_fits;
  }
  Step-IsCounted {s} (pick_up p q one e) h =
      let (less, a, b, c) =
        receive_from-Shrinks depth s.queues.serial s.queues.bt s.queues.others p q e in
      record {
        counted = omega (arith, h.counted, less);
        serial_fits = omega (arith, h.serial_fits);
        bt_fits = omega (arith, h.bt_fits);
        others_fits = omega (arith, h.others_fits);
      }

  Reach-IsCounted :
      {s t : Shared} → IsCounted depth s → Reach depth (depth * 3) s t → IsCounted depth t
  Reach-IsCounted h here = h
  Reach-IsCounted h (next r st) = Step-IsCounted st (Reach-IsCounted h r)

pub total-receive : (q r : Queues) (p : Packet) → receive q ≡ some (p, r) → total q ≡ suc (total r)
unfolding receive
total-receive q r p e = (receive_from-Shrinks 0 q.serial q.bt q.others p r e).0

receive_from-none :
    (xs ys zs : List Packet) → receive_from xs ys zs ≡ none → length xs + length ys + length zs ≡ 0
receive_from-none (x ∷ xs) ys zs e = cc
receive_from-none [] (y ∷ ys) zs e = cc
receive_from-none [] [] (z ∷ zs) e = cc
receive_from-none [] [] [] e = omega arith

pub receive-none : (q : Queues) → receive q ≡ none → total q ≡ 0
unfolding receive
receive-none q e = receive_from-none q.serial q.bt q.others e

pub receive_from-some :
    (xs ys zs : List Packet)
    → 0 < length xs + length ys + length zs
    → (p : Packet) × (q : Queues) × (receive_from xs ys zs ≡ some (p, q))
receive_from-some (x ∷ xs) ys zs h = (x, record { serial = xs; bt = ys; others = zs }, refl)
receive_from-some [] (y ∷ ys) zs h = (y, record { serial = []; bt = ys; others = zs }, refl)
receive_from-some [] [] (z ∷ zs) h = (z, record { serial = []; bt = []; others = zs }, refl)
receive_from-some [] [] [] h = absurd (omega arith)

-- no packets, and no task between its calls
abbrev pub at_start : Shared
at_start = record { queues = empty; sem = 0; sent = 0; taken = 0 }

-- With a semaphore that counts to three times the depth of a queue, however the receive task and a
-- reader have interleaved from the start, a reader that has taken the semaphore finds a packet.
pub Reach-receive :
    (depth : ℕ) {t : Shared}
    → Reach depth (depth * 3) at_start t
    → t.taken ≡ 1
    → (p : Packet) × (q : Queues) × (receive t.queues ≡ some (p, q))
unfolding receive
Reach-receive depth {t} reached took =
    let h = Reach-IsCounted depth (omega arith) reached in
    receive_from-some t.queues.serial t.queues.bt t.queues.others (omega (arith, h.counted))
