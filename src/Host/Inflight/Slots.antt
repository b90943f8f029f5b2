-- ===== src/Host/Inflight/Slots.antt =====
-- The table of calls in flight: ids in use are distinct, so a response reaches one call at most.
use esp_hosted_open.Prelude.{
  ℕ, zero, suc, ◌<◌, ◌≡◌, refl, sym, ap, ◌∙◌, ◌≢◌, ◌⊎◌, inl, inr, true, false, none, some, List, [],
  ◌∷◌, map, arith, if◌then◌else◌, length, get_elem?, Bool-cases,
}
use mathlib.Core.Path.{subst}
use mathlib.Core.Option
use esp_hosted_open.Bytes.{u32_at}
use esp_hosted_open.Host.Inflight.{
  Slot, Message, Rpc, matches, fill, deliver_to, reserve, reserved, update_slot,
}

-- No call in flight has this op_id.
abbrev pub IsFresh : ℕ → List Slot → Type 0
IsFresh op [] = Unit
IsFresh op (s ∷ ss) = (s.in_use ≡ true → s.op_id ≢ op) × IsFresh op ss

abbrev pub IsDistinct : List Slot → Type 0
IsDistinct [] = Unit
IsDistinct (s ∷ ss) = (s.in_use ≡ true → IsFresh s.op_id ss) × IsDistinct ss

-- Every call in flight has an op_id below `n`.
abbrev pub AllBelow : ℕ → List Slot → Type 0
AllBelow n [] = Unit
AllBelow n (s ∷ ss) = (s.in_use ≡ true → s.op_id < n) × AllBelow n ss

-- What a response does to a slot if it may match any number of them.
abbrev pub receive : Message → Slot → Slot
receive m s = if matches m s then fill (m.1) s else s

pub fill_keeps :
    (bytes : List ℕ) (s : Slot)
    → ((fill bytes s).in_use ≡ s.in_use)
      × ((fill bytes s).op_id ≡ s.op_id)
      × ((fill bytes s).want_resp_id ≡ s.want_resp_id)
unfolding fill
fill_keeps bytes s = ground arith

pub receive_keeps :
    (m : Message) (s : Slot) → ((receive m s).in_use ≡ s.in_use) × ((receive m s).op_id ≡ s.op_id)
receive_keeps m s = ground (arith, fill_keeps (m.1) s)

receive_fresh :
    (m : Message) (ss : List Slot) → IsFresh (u32_at (m.1) 0) ss → map (receive m) ss ≡ ss
receive_fresh m [] h = refl
receive_fresh m (s ∷ ss) h = rw (receive_fresh m ss h.1) (ap (λ t. t ∷ ss) (ground arith))

-- Where the ids in use are distinct, the loop of on_response, which stops at the first slot that
-- matches, does the same as handing the response to every slot that matches.
pub deliver_to-eq-map :
    (m : Message) (ss : List Slot) → IsDistinct ss → deliver_to m ss ≡ map (receive m) ss
unfolding deliver_to
deliver_to-eq-map m [] d = refl
deliver_to-eq-map m (s ∷ ss) d = elim (Bool-cases (matches m s)) [
  | inl y ↦ rw y (
      ap (λ t. fill (m.1) s ∷ t)
        (sym (receive_fresh m ss (subst (λ o. IsFresh o ss) (ground arith) (d.0 (ground arith))))))
  | inr n ↦ rw (n, deliver_to-eq-map m ss d.1)
]

pub get-map :
    (f : Slot → Slot) (ss : List Slot) (i : ℕ)
    → get_elem? (map f ss) i ≡ Option.map f (get_elem? ss i)
get-map f [] i = refl
get-map f (s ∷ ss) zero = refl
get-map f (s ∷ ss) (suc i) = get-map f ss i

-- the invariant kept by a change of one slot that keeps ids and does not take the slot into use
module _ (f : Slot → Slot) (same : (s : Slot) → (f s).op_id ≡ s.op_id) where
  abbrev FreesOnly : Type 0
  FreesOnly = (s : Slot) → (f s).in_use ≡ true → s.in_use ≡ true

  update-IsFresh :
      (op i : ℕ) (ss : List Slot) → FreesOnly → IsFresh op ss → IsFresh op (update_slot i f ss)
  update-IsFresh op i [] k h = tt
  update-IsFresh op zero (s ∷ ss) k h = ((λ u e. h.0 (k s u) (sym (same s) ∙ e)), h.1)
  update-IsFresh op (suc i) (s ∷ ss) k h = (h.0, update-IsFresh op i ss k h.1)

  pub update-IsDistinct :
      (i : ℕ) (ss : List Slot) → FreesOnly → IsDistinct ss → IsDistinct (update_slot i f ss)
  update-IsDistinct i [] k h = tt
  update-IsDistinct zero (s ∷ ss) k h =
      ((λ u. subst (λ o. IsFresh o ss) (sym (same s)) (h.0 (k s u))), h.1)
  update-IsDistinct (suc i) (s ∷ ss) k h =
      ((λ u. update-IsFresh s.op_id i ss k (h.0 u)), update-IsDistinct i ss k h.1)

  pub update-AllBelow :
      (n i : ℕ) (ss : List Slot) → FreesOnly → AllBelow n ss → AllBelow n (update_slot i f ss)
  update-AllBelow n i [] k h = tt
  update-AllBelow n zero (s ∷ ss) k h =
      ((λ u. subst (λ o. o < n) (sym (same s)) (h.0 (k s u))), h.1)
  update-AllBelow n (suc i) (s ∷ ss) k h = (h.0, update-AllBelow n i ss k h.1)

pub length-update_slot :
    (i : ℕ) (f : Slot → Slot) (ss : List Slot) → length (update_slot i f ss) ≡ length ss
length-update_slot i f [] = refl
length-update_slot zero f (s ∷ ss) = refl
length-update_slot (suc i) f (s ∷ ss) = ap suc (length-update_slot i f ss)

-- a response keeps it too
receive-IsFresh :
    (m : Message) (op : ℕ) (ss : List Slot) → IsFresh op ss → IsFresh op (map (receive m) ss)
receive-IsFresh m op [] h = tt
receive-IsFresh m op (s ∷ ss) h = (
  (λ u e. h.0 (sym (receive_keeps m s).0 ∙ u) (sym (receive_keeps m s).1 ∙ e)),
  receive-IsFresh m op ss h.1,
)

pub receive-IsDistinct :
    (m : Message) (ss : List Slot) → IsDistinct ss → IsDistinct (map (receive m) ss)
receive-IsDistinct m [] h = tt
receive-IsDistinct m (s ∷ ss) h = (
  (λ u.
      subst (λ o. IsFresh o (map (receive m) ss)) (sym (receive_keeps m s).1)
        (receive-IsFresh m s.op_id ss (h.0 (sym (receive_keeps m s).0 ∙ u)))),
  receive-IsDistinct m ss h.1,
)

pub receive-AllBelow :
    (m : Message) (n : ℕ) (ss : List Slot) → AllBelow n ss → AllBelow n (map (receive m) ss)
receive-AllBelow m n [] h = tt
receive-AllBelow m n (s ∷ ss) h = (
  (λ u. subst (λ o. o < n) (sym (receive_keeps m s).1) (h.0 (sym (receive_keeps m s).0 ∙ u))),
  receive-AllBelow m n ss h.1,
)

pub length-map-receive : (m : Message) (ss : List Slot) → length (map (receive m) ss) ≡ length ss
length-map-receive m [] = refl
length-map-receive m (s ∷ ss) = ap suc (length-map-receive m ss)

-- The reservation takes the first free slot and touches no other; without one there is none.
pub reserve_cases :
    (op : ℕ) (r : Rpc) (ss : List Slot)
    → ((reserve op r ss ≡ none) × ((i : ℕ) (s : Slot) → get_elem? ss i ≡ some s → s.in_use ≡ true))
      ⊎ ((i : ℕ) × (s : Slot) × (get_elem? ss i ≡ some s)
          × (s.in_use ≡ false)
          × (reserve op r ss ≡ some (i, update_slot i (reserved op r) ss)))
unfolding reserve
reserve_cases op r [] = inl (refl, λ i s q. cc)
reserve_cases op r (s ∷ ss) = elim (Bool-cases s.in_use) [
  | inr free ↦ inr (0, s, refl, free, ground arith)
  | inl busy ↦ elim (reserve_cases op r ss) [
    | inl (q, all) ↦ inl (ground arith, go all busy)
    | inr (i, t, p, f, q) ↦ inr (suc i, t, p, f, ground arith)
  ]
]
  where
    go :
        ((i : ℕ) (t : Slot) → get_elem? ss i ≡ some t → t.in_use ≡ true)
        → s.in_use ≡ true
        → (i : ℕ) (t : Slot) → get_elem? (s ∷ ss) i ≡ some t
        → t.in_use ≡ true
    go all busy zero t q = ground arith
    go all busy (suc i) t q = all i t q
