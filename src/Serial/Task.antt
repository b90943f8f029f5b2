-- ===== src/Serial/Task.antt =====
-- The handlers of requests and events, and the task that calls them in the order of its queue
-- (slave/main/protocomm_pserial.c). protocomm_req_handle, xmit and recv are the upstream library's, and
-- calloc and the queue are FreeRTOS's: they are parameters, with a state of their own.
pub mod Service
use esp_hosted_open.Memory.{Memory, read}
use esp_hosted_open.Prelude.{
  ℕ, ◌+◌, ◌%◌, Bool, true, false, ◌&&◌, ◌||◌, not, Option, none, some, List, [], ◌∷◌, ◌++◌, leb,
  ltb, ◌==◌, if◌then◌else◌, length,
}
use esp_hosted_open.Status.{esp_ok, esp_fail, esp_err_no_mem, esp_err_invalid_arg}
use esp_hosted_open.Serial.{
  Cursor, Parts, no_parts, c_string, Parsed, refused, parsed, starved, parse_loop, compose_tlv,
}

-- "RPCRsp" and "RPCEvt"
abbrev pub rpc_ep_name_rsp : List ℕ
rpc_ep_name_rsp = 82 ∷ 80 ∷ 67 ∷ 82 ∷ 115 ∷ 112 ∷ []

abbrev pub rpc_ep_name_evt : List ℕ
rpc_ep_name_evt = 82 ∷ 80 ∷ 67 ∷ 69 ∷ 118 ∷ 116 ∷ []

-- What a handler calls: the endpoint's handler with its name, the session or message id and the data,
-- which gives a status and the answer; the transmission of a message; and whether calloc succeeds.
pub record Services (W : Type 0) : Type 0 where
  pub req_handle : List ℕ → ℕ → List ℕ → W → ℕ × List ℕ × W
  pub xmit : List ℕ → W → ℕ × W
  pub can_alloc : W → Bool

-- serial_arg_t, with the bytes that data points to
pub record SerialArg : Type 0 where
  pub len : ℕ
  pub bytes : Memory
  pub msg_id : ℕ

abbrev pub is_nil : List ℕ → Bool
is_nil [] = true
is_nil (x ∷ xs) = false

-- the next round, unless there was no fuel
abbrev pub and_then : {W : Type 0} → Option W → (W → Option W) → Option W
and_then none k = none
and_then (some w) k = k w

-- What the loop's outcome leads to, given what is done with its variables.
abbrev pub after_loop : {W : Type 0} → Parsed → (Parts → ℕ × W) → W → Option (ℕ × W)
after_loop refused serve w = some (esp_fail, w)
after_loop (parsed p) serve w = some (serve p)
after_loop starved serve w = none

module _ {W : Type 0} (s : Services W) where
  -- what both handlers do with an answer: compose_tlv, and the transmission
  unfoldable pub answer : List ℕ → ℕ × List ℕ × W → ℕ × W
  unfolding compose_tlv
  answer name (ret, out, w) =
      let (sent, w') = s.xmit (compose_tlv name out) w in
      if not (ret == esp_ok)
      then (esp_fail, w)
      else if not (s.can_alloc w)
      then (esp_fail, w)
      else if not (sent == esp_ok)
      then (esp_fail, w')
      else (esp_ok, w')

  -- behind the loop
  unfoldable pub serve_parts : Memory → Parts → W → ℕ × W
  unfolding answer
  serve_parts m p w = elim p.data_ptr [
    | none ↦ (esp_fail, w)
    | some i ↦
        if p.data_len == 0 || is_nil (c_string p.epname)
        then (esp_fail, w)
        else answer rpc_ep_name_rsp (s.req_handle (c_string p.epname) 0 (read m i p.data_len) w)
  ]

  -- `none` when the fuel does not suffice
  unfoldable pub rpc_req_handler : ℕ → Memory → ℕ → W → Option (ℕ × W)
  unfolding serve_parts parse_loop
  rpc_req_handler fuel m in_len w =
      after_loop (parse_loop fuel m (record { buf = 0; total_len = in_len }) no_parts)
        (λ p. serve_parts m p w) w

  unfoldable pub rpc_evt_handler : Memory → ℕ → ℕ → W → ℕ × W
  unfolding answer
  rpc_evt_handler m in_len msg_id w =
      answer rpc_ep_name_evt (s.req_handle rpc_ep_name_evt msg_id (read m 0 in_len) w)

  -- One round of pserial_task. recv gives the length of what it leaves in its buffer.
  unfoldable pub pserial_round : ℕ → ℕ → ℕ → (Memory → ℕ → Memory × ℕ) → SerialArg → W → Option W
  unfolding rpc_req_handler rpc_evt_handler
  pserial_round event_base event_max fuel recv arg w =
      let (m, len) = recv arg.bytes arg.len in
      if ltb event_base arg.msg_id && ltb arg.msg_id event_max
      then some (rpc_evt_handler arg.bytes arg.len arg.msg_id w).1
      else if len == 0
      then some w
      else elim (rpc_req_handler fuel m len w) [ none ↦ none | some (ret, w') ↦ some w' ]

  -- pserial_task on the messages of its queue
  unfoldable pub pserial_task :
      ℕ → ℕ → ℕ → (Memory → ℕ → Memory × ℕ) → List SerialArg → W → Option W
  pserial_task event_base event_max fuel recv [] w = some w
  pserial_task event_base event_max fuel recv (arg ∷ args) w =
      and_then (pserial_round event_base event_max fuel recv arg w)
        (pserial_task event_base event_max fuel recv args)

-- pc->priv: NULL, or the configuration with its queue
abbrev pub Pserial : Type 0
Pserial = Option (List SerialArg)

-- protocomm_pserial_data_ready. `can_alloc` is malloc's answer and `queued` that of xQueueSend, which
-- waits for room without a limit.
unfoldable pub data_ready : Bool → Bool → SerialArg → Pserial → ℕ × Pserial
data_ready can_alloc queued arg none = (esp_fail, none)
data_ready can_alloc queued arg (some q) =
    if not (arg.len == 0) && not can_alloc
    then (esp_fail, some q)
    else if not queued
    then (esp_fail, some q)
    else (esp_ok, some (q ++ (arg ∷ [])))

-- protocomm_pserial_start, on a protocomm_t that may be NULL, and protocomm_pserial_stop
unfoldable pub start : Bool → Option Pserial → ℕ × Option Pserial
start can_alloc none = (esp_err_invalid_arg, none)
start can_alloc (some pc) =
    if not can_alloc then (esp_err_no_mem, some pc) else (esp_ok, some (some []))

unfoldable pub stop : Pserial → ℕ × Pserial
stop none = (esp_ok, none)
stop (some q) = (esp_ok, none)
