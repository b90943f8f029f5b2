-- ===== src/Control/Dispatch.antt =====
-- The dispatcher of the RPC requests (slave/main/slave_control.c): lookup_req_handler,
-- esp_rpc_command_dispatcher and data_transfer_handler. The handlers and the encoding of protobuf are
-- parameters, as are the generated ids.
pub mod Answer
use esp_hosted_open.Prelude.{
  ℕ, ◌+◌, ◌-◌, ◌%◌, ◌^◌, Bool, true, false, ◌||◌, not, Option, none, some, List, [], ◌∷◌, leb, ◌==◌,
  if◌then◌else◌, length,
}
use esp_hosted_open.Status.{esp_ok, esp_fail, esp_err_no_mem}

-- Rpc, with what is in its payload
pub record Rpc (P : Type 0) : Type 0 where
  pub msg_id : ℕ
  pub uid : ℕ
  pub payload_case : ℕ
  pub payload : P

-- esp_rpc_req_t: an id, and a handler, which fills the response and changes the state
pub record Entry (P S : Type 0) : Type 0 where
  pub req_num : ℕ
  pub command_handler : Rpc P → Rpc P → S → ℕ × Rpc P × S

-- RPC_ID__Req_Base, RPC_ID__Req_Max and RPC_ID__Resp_Base, which are generated, and protobuf: the payload
-- of rpc__init, rpc__unpack and rpc__pack
pub record Protobuf (P : Type 0) : Type 0 where
  pub req_base : ℕ
  pub req_max : ℕ
  pub resp_base : ℕ
  pub no_payload : P
  pub unpack : List ℕ → Option (Rpc P)
  pub pack : Rpc P → List ℕ

unfoldable pub lookup_req_handler : {P S : Type 0} → ℕ → List (Entry P S) → Option (Entry P S)
lookup_req_handler req_id [] = none
lookup_req_handler req_id (e ∷ es) =
    let rest = lookup_req_handler req_id es in if e.req_num == req_id then some e else rest

module _ {P S : Type 0} (pb : Protobuf P) (req_table : List (Entry P S)) where
  -- the range of the ids
  abbrev pub is_out_of_range : ℕ → Bool
  is_out_of_range id = leb id pb.req_base || leb pb.req_max id

  -- It returns ESP_OK on each of these paths; only a NULL makes it fail.
  unfoldable pub esp_rpc_command_dispatcher : Rpc P → Rpc P → S → Rpc P × S
  unfolding lookup_req_handler
  esp_rpc_command_dispatcher req resp s =
      let unsupported : Rpc P = record resp { msg_id = pb.resp_base } in
      if is_out_of_range req.msg_id
      then (unsupported, s)
      else elim (lookup_req_handler req.msg_id req_table) [
        | none ↦ (unsupported, s)
        | some e ↦ let (ret, resp', s') = e.command_handler req resp s in (resp', s')
      ]

  -- the response before its handler; the id is computed in 32 bits
  abbrev pub resp_id_of : ℕ → ℕ
  resp_id_of id = (id + 2 ^ 32 - pb.req_base + pb.resp_base) % 2 ^ 32

  abbrev pub fresh_resp : Rpc P → Rpc P
  fresh_resp req = record {
    msg_id = resp_id_of req.msg_id;
    uid = req.uid;
    payload_case = resp_id_of req.msg_id;
    payload = pb.no_payload;
  }

  -- `none` for NULL. `can_alloc` and `can_alloc_out` are the answers of calloc.
  unfoldable pub data_transfer_handler : Bool → Bool → Option (List ℕ) → S → ℕ × Option (List ℕ) × S
  unfolding esp_rpc_command_dispatcher
  data_transfer_handler can_alloc can_alloc_out inbuf s =
      if not can_alloc then (esp_fail, none, s) else elim inbuf [
        | none ↦ (esp_fail, none, s)
        | some bytes ↦ elim (pb.unpack bytes) [
          | none ↦ (esp_fail, none, s)
          | some req ↦
              let (resp, s') = esp_rpc_command_dispatcher req (fresh_resp req) s in
              let out = pb.pack resp in
              if length out == 0
              then (esp_fail, none, s')
              else if not can_alloc_out
              then (esp_err_no_mem, none, s')
              else (esp_ok, some out, s')
        ]
      ]
