-- ===== src/Transport/Queues/Order.antt =====
-- In which order the packets leave the queues.
use esp_hosted_open.Prelude.{
  ℕ, zero, suc, ◌+◌, ◌≤◌, ◌≡◌, refl, ap, ◌∙◌, inl, inr, Bool, true, false, Option, none, some, List,
  [], ◌∷◌, ◌++◌, arith, Option-cases, inl, inr, lt→ltb, length, append-nil, append_assoc,
  length-append,
}
use esp_hosted_open.Transport.Queues.{
  Class, q_serial, q_bt, q_others, class_of, Packet, Queues, empty, total, append_packet, send,
  send_to, receive,
}

abbrev same : Class → Class → Bool
same q_serial q_serial = true
same q_bt q_bt = true
same q_others q_others = true
same c d = false

abbrev only : Bool → Packet → List Packet
only true p = p ∷ []
only false p = []

-- the packets of one class, in their order
abbrev pub pick : Class → List Packet → List Packet
pick c [] = []
pick c (p ∷ ps) = (only (same (class_of p.if_type) c) p) ++ pick c ps

-- the packets with the serial ones first and Bluetooth's next
abbrev pub by_class : List Packet → List Packet
by_class ps = pick q_serial ps ++ (pick q_bt ps ++ pick q_others ps)

-- packets that come in one after the other, the last one at the end of the list
unfoldable pub send_all : ℕ → List Packet → Queues → Option Queues
unfolding send
send_all depth [] q = some q
send_all depth (p ∷ ps) q = elim (send depth p q) [ none ↦ none | some r ↦ send_all depth ps r ]

-- a reader that takes as many packets as there are, at most
unfoldable pub drain : ℕ → Queues → List Packet
drain zero q = []
drain (suc n) q = elim (receive q) [ none ↦ [] | some (p, r) ↦ p ∷ drain n r ]

-- the queues with more packets behind those of each class
abbrev pub behind : Queues → List Packet → Queues
behind q ps = record {
  serial = q.serial ++ pick q_serial ps;
  bt = q.bt ++ pick q_bt ps;
  others = q.others ++ pick q_others ps;
}

-- each queue has room for the packets of its class
abbrev pub HasRoom : ℕ → Queues → List Packet → Type 0
HasRoom depth q ps =
    (length q.serial + length (pick q_serial ps) ≤ depth)
    × (length q.bt + length (pick q_bt ps) ≤ depth)
    × (length q.others + length (pick q_others ps) ≤ depth)

-- one packet in the queue of its class
abbrev put : Class → Packet → Queues → Queues
put q_serial p q = record q { serial = q.serial ++ p ∷ [] }
put q_bt p q = record q { bt = q.bt ++ p ∷ [] }
put q_others p q = record q { others = q.others ++ p ∷ [] }

module _ (depth : ℕ) (p : Packet) (ps : List Packet) (q : Queues) where
  abbrev RoomFor : Class → Type 0
  RoomFor c =
      (length q.serial + length (only (same c q_serial) p ++ pick q_serial ps) ≤ depth)
      × (length q.bt + length (only (same c q_bt) p ++ pick q_bt ps) ≤ depth)
      × (length q.others + length (only (same c q_others) p ++ pick q_others ps) ≤ depth)

  send_to-put : (c : Class) → RoomFor c → send_to c depth p q ≡ some (put c p q)
  unfolding append_packet
  send_to-put q_serial room = rw (lt→ltb (length q.serial) depth (omega arith)) refl
  send_to-put q_bt room = rw (lt→ltb (length q.bt) depth (omega arith)) refl
  send_to-put q_others room = rw (lt→ltb (length q.others) depth (omega arith)) refl

  put-HasRoom : (c : Class) → RoomFor c → HasRoom depth (put c p q) ps
  put-HasRoom q_serial room = omega (arith, length-append q.serial (p ∷ []))
  put-HasRoom q_bt room = omega (arith, length-append q.bt (p ∷ []))
  put-HasRoom q_others room = omega (arith, length-append q.others (p ∷ []))

  behind-put :
      (c : Class)
      → behind (put c p q) ps ≡ record {
        serial = q.serial ++ (only (same c q_serial) p ++ pick q_serial ps);
        bt = q.bt ++ (only (same c q_bt) p ++ pick q_bt ps);
        others = q.others ++ (only (same c q_others) p ++ pick q_others ps);
      }
  behind-put q_serial = simp append_assoc
  behind-put q_bt = simp append_assoc
  behind-put q_others = simp append_assoc

pub send_all-behind :
    (depth : ℕ) (ps : List Packet) (q : Queues)
    → HasRoom depth q ps
    → send_all depth ps q ≡ some (behind q ps)
unfolding send_all send
send_all-behind depth [] q room = simp append-nil
send_all-behind depth (p ∷ ps) q room =
    let c = class_of p.if_type in
    rw (send_to-put depth p ps q c room, send_all, send)
      (send_all-behind depth ps (put c p q) (put-HasRoom depth p ps q c room)
        ∙ ap some (behind-put depth p ps q c))

pub send_all-nil : (depth : ℕ) (q z : Queues) → send_all depth [] q ≡ some z → q ≡ z
unfolding send_all
send_all-nil depth q z e = cc

-- the first packet of several that were queued, and the others
pub send_all-inv :
    (depth : ℕ) (p : Packet) (ps : List Packet) (q z : Queues)
    → send_all depth (p ∷ ps) q ≡ some z
    → (r : Queues) × (send depth p q ≡ some r) × (send_all depth ps r ≡ some z)
unfolding send_all
send_all-inv depth p ps q z e = elim (Option-cases (send depth p q)) [
  | inl full ↦ absurd (ground arith)
  | inr (r, room) ↦ (r, room, ground arith)
]

drain-all :
    (n : ℕ) (xs ys zs : List Packet)
    → length xs + length ys + length zs ≤ n
    → drain n (record { serial = xs; bt = ys; others = zs }) ≡ xs ++ (ys ++ zs)
unfolding drain receive
drain-all zero [] [] [] h = refl
drain-all zero [] [] (z ∷ zs) h = absurd (omega arith)
drain-all zero [] (y ∷ ys) zs h = absurd (omega arith)
drain-all zero (x ∷ xs) ys zs h = absurd (omega arith)
drain-all (suc n) [] [] [] h = refl
drain-all (suc n) [] [] (z ∷ zs) h = ap (λ r. z ∷ r) (drain-all n [] [] zs (omega arith))
drain-all (suc n) [] (y ∷ ys) zs h = ap (λ r. y ∷ r) (drain-all n [] ys zs (omega arith))
drain-all (suc n) (x ∷ xs) ys zs h = ap (λ r. x ∷ r) (drain-all n xs ys zs (omega arith))

-- The packets of queues, and more that they have room for, leave them each once, the serial ones
-- first and those of Bluetooth next, and within a class in the order in which they came.
pub drain-behind :
    (ps : List Packet) → drain (total (behind empty ps)) (behind empty ps) ≡ by_class ps
drain-behind ps =
    drain-all (total (behind empty ps)) (pick q_serial ps) (pick q_bt ps) (pick q_others ps)
      (omega arith)
