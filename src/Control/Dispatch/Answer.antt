-- ===== src/Control/Dispatch/Answer.antt =====
-- Which requests are answered, and how (slave/main/slave_control.c).
use esp_hosted_open.Prelude.{
  ℕ, ◌≡◌, ◌≢◌, ◌≤◌, ◌<◌, leb, ◌⊎◌, inl, inr, refl, ap, subst, true, false, none, some, List, [],
  ◌∷◌, arith, ◌==◌, length, Bool-cases, Option-cases,
}
use esp_hosted_open.Status.{esp_ok}
use esp_hosted_open.Control.Dispatch.{
  Rpc, Entry, Protobuf, lookup_req_handler, is_out_of_range, esp_rpc_command_dispatcher, resp_id_of,
  fresh_resp, data_transfer_handler,
}

-- A handler leaves the ids of the response alone.
abbrev pub KeepsIds : {P S : Type 0} → Entry P S → Type 0
KeepsIds {P = P} {S = S} e =
    (req resp : Rpc P) (s : S)
    → ((e.command_handler req resp s).1.msg_id ≡ resp.msg_id)
      × ((e.command_handler req resp s).1.uid ≡ resp.uid)

abbrev pub KeepIds : {P S : Type 0} → List (Entry P S) → Type 0
KeepIds [] = Unit
KeepIds (e ∷ es) = KeepsIds e × KeepIds es

some_injective : {A : Type 0} (a b : A) → some a ≡ some b → a ≡ b
some_injective a b e = ap (λ o. elim o [ none ↦ a | some x ↦ x ]) e

lookup-KeepsIds :
    {P S : Type 0} (id : ℕ) (es : List (Entry P S)) (e : Entry P S)
    → KeepIds es
    → lookup_req_handler id es ≡ some e
    → KeepsIds e
unfolding lookup_req_handler
lookup-KeepsIds id [] e keep found = absurd (ground arith)
lookup-KeepsIds id (e' ∷ es) e (keep, more) found = elim (Bool-cases (e'.req_num == id)) [
  | inl y ↦ subst KeepsIds (some_injective e' e (rw y at found)) keep
  | inr n ↦ lookup-KeepsIds id es e more (rw n at found)
]

-- the first entry of a table for an id
abbrev pub IsEntry : {P S : Type 0} → ℕ → List (Entry P S) → Entry P S → Type 0
IsEntry id [] e = ⊥
IsEntry id (x ∷ xs) e = ((x.req_num ≡ id) × (x ≡ e)) ⊎ ((x.req_num ≢ id) × IsEntry id xs e)

abbrev pub HasNone : {P S : Type 0} → ℕ → List (Entry P S) → Type 0
HasNone id [] = Unit
HasNone id (x ∷ xs) = (x.req_num ≢ id) × HasNone id xs

lookup-IsEntry :
    {P S : Type 0} (id : ℕ) (es : List (Entry P S)) (e : Entry P S)
    → lookup_req_handler id es ≡ some e
    → IsEntry id es e
unfolding lookup_req_handler
lookup-IsEntry id [] e found = absurd (ground arith)
lookup-IsEntry id (x ∷ xs) e found = elim (Bool-cases (x.req_num == id)) [
  | inl y ↦ inl (ground arith, some_injective x e (rw y at found))
  | inr n ↦ inr (ground arith, lookup-IsEntry id xs e (rw n at found))
]

lookup-HasNone :
    {P S : Type 0} (id : ℕ) (es : List (Entry P S))
    → lookup_req_handler id es ≡ none
    → HasNone id es
unfolding lookup_req_handler
lookup-HasNone id [] missing = tt
lookup-HasNone id (x ∷ xs) missing = elim (Bool-cases (x.req_num == id)) [
  | inl y ↦ absurd (ground (arith, rw y at missing))
  | inr n ↦ (ground arith, lookup-HasNone id xs (rw n at missing))
]

module _ {P S : Type 0} (pb : Protobuf P) (req_table : List (Entry P S)) where
  -- The id is in the range, the table has an entry for it, and the response and the state are what the
  -- entry's handler made of the fresh response; its id belongs to the request.
  abbrev pub IsServed : Rpc P → S → Rpc P → S → Type 0
  IsServed req s resp s' =
      (pb.req_base < req.msg_id)
      × (req.msg_id < pb.req_max)
      × ((e : Entry P S) × IsEntry req.msg_id req_table e
          × (resp ≡ (e.command_handler req (fresh_resp pb req_table req) s).1)
          × (s' ≡ (e.command_handler req (fresh_resp pb req_table req) s).2))
      × (resp.msg_id ≡ resp_id_of pb req_table req.msg_id)

  -- The id is out of the range, or the table has no entry for it: the response is the fresh one with the
  -- id Resp_Base, and the state is as it was.
  abbrev pub IsUnsupported : Rpc P → S → Rpc P → S → Type 0
  IsUnsupported req s resp s' =
      ((req.msg_id ≤ pb.req_base) ⊎ ((pb.req_max ≤ req.msg_id) ⊎ HasNone req.msg_id req_table))
      × (resp ≡ record (fresh_resp pb req_table req) { msg_id = pb.resp_base })
      × (s' ≡ s)

  abbrev pub IsAnswer : Rpc P → S → Rpc P × S → Type 0
  IsAnswer req s (resp, s') =
      (resp.uid ≡ req.uid) × (IsServed req s resp s' ⊎ IsUnsupported req s resp s')

  out_of_range :
      (id : ℕ)
      → is_out_of_range pb req_table id ≡ true
      → (id ≤ pb.req_base) ⊎ ((pb.req_max ≤ id) ⊎ HasNone id req_table)
  out_of_range id y = elim (Bool-cases (leb id pb.req_base)) [
    | inl below ↦ inl (ground arith)
    | inr above ↦ inr (inl (ground arith))
  ]

  dispatcher-IsAnswer :
      (req : Rpc P) (s : S)
      → KeepIds req_table
      → IsAnswer req s (esp_rpc_command_dispatcher pb req_table req (fresh_resp pb req_table req) s)
  unfolding esp_rpc_command_dispatcher
  dispatcher-IsAnswer req s keep = elim (Bool-cases (is_out_of_range pb req_table req.msg_id)) [
    | inl y ↦ rw y (refl, inr (out_of_range req.msg_id y, refl, refl))
    | inr n ↦ elim (Option-cases (lookup_req_handler req.msg_id req_table)) [
      | inl missing ↦
          rw (n, missing)
            (refl, inr (inr (inr (lookup-HasNone req.msg_id req_table missing)), refl, refl))
      | inr (e, found) ↦
          let (id, uid) =
            lookup-KeepsIds req.msg_id req_table e keep found req (fresh_resp pb req_table req) s in
          let first = lookup-IsEntry req.msg_id req_table e found in
          rw (n, found) (uid, inl (ground arith, ground arith, (e, first, refl, refl), id))
    ]
  ]

  -- With memory, an encoding that is never empty, and handlers that leave the id and the uid of their
  -- response alone, every request that can be decoded gets an answer with its uid. If its id lies
  -- strictly between Req_Base and Req_Max and the table has an entry for it, the answer and the new
  -- state are what the first such entry's handler makes of the fresh response, under the id that belongs
  -- to the request. Otherwise the answer is the fresh response with Resp_Base, and nothing is done.
  pub data_transfer_handler-IsAnswer :
      (bytes : List ℕ) (req : Rpc P) (s : S)
      → KeepIds req_table
      → pb.unpack bytes ≡ some req
      → ((r : Rpc P) → (length (pb.pack r) == 0) ≡ false)
      → (resp : Rpc P) × (s' : S) × (data_transfer_handler pb req_table true true (some bytes) s
          ≡ (esp_ok, some (pb.pack resp), s'))
        × IsAnswer req s (resp, s')
  unfolding data_transfer_handler
  data_transfer_handler-IsAnswer bytes req s keep decoded filled =
      let done = esp_rpc_command_dispatcher pb req_table req (fresh_resp pb req_table req) s in
      (done.0, done.1, rw (decoded, filled done.0) refl, dispatcher-IsAnswer req s keep)
