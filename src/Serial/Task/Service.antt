-- ===== src/Serial/Task/Service.antt =====
-- Messages from the queue to the answer (slave/main/protocomm_pserial.c).
use esp_hosted_open.Memory.{Memory, read, Holds}
use esp_hosted_open.Prelude.{
  ℕ, suc, ◌+◌, ◌^◌, ◌<◌, ◌≡◌, ◌≢◌, refl, sym, ap, ◌∙◌, Bool, false, Option, none, some, List, [],
  ◌∷◌, ◌++◌, arith, ◌==◌, length,
}
use esp_hosted_open.Status.{esp_ok}
use esp_hosted_open.Serial.{
  Parts, no_parts, c_string, Parsed, refused, parsed, starved, compose_tlv,
}
use esp_hosted_open.Serial.Framing.{Framed, IsDone, parse_loop-IsDone}
use esp_hosted_open.Serial.Framing.RoundTrip.{
  IsString, name_parts, data_parts, parse_loop-compose_tlv,
}
use esp_hosted_open.Serial.Task.{
  rpc_ep_name_rsp, and_then, after_loop, Services, SerialArg, is_nil, answer, serve_parts,
  rpc_req_handler, pserial_round, pserial_task, data_ready,
}

and_then_assoc :
    {W : Type 0} (o : Option W) (f g : W → Option W)
    → and_then (and_then o f) g ≡ and_then o (λ w. and_then (f w) g)
and_then_assoc none f g = refl
and_then_assoc (some w) f g = refl

and_then-some : {W : Type 0} (o : Option W) → and_then o some ≡ o
and_then-some none = refl
and_then-some (some w) = refl

and_then_cong :
    {W : Type 0} (o : Option W) (f g : W → Option W)
    → ((w : W) → f w ≡ g w)
    → and_then o f ≡ and_then o g
and_then_cong none f g e = refl
and_then_cong (some w) f g e = e w

after_loop-IsDone :
    {W : Type 0} (end : ℕ) (outcome : Parsed) (serve : Parts → ℕ × W) (w : W)
    → IsDone end outcome
    → after_loop outcome serve w ≢ none
after_loop-IsDone end refused serve w d e = absurd (ground arith)
after_loop-IsDone end (parsed p) serve w d e = absurd (ground arith)
after_loop-IsDone end starved serve w d e = absurd d

data_ready_queue :
    (can_alloc queued : Bool) (arg : SerialArg) (q q' : List SerialArg)
    → data_ready can_alloc queued arg (some q) ≡ (esp_ok, some q')
    → q' ≡ q ++ (arg ∷ [])
unfolding data_ready
data_ready_queue can_alloc queued arg q q' e = ground arith

module _ {W : Type 0} (s : Services W) where
  serve_parts_lem :
      (m : Memory) (p : Parts) (i : ℕ) (name bytes : List ℕ) (w : W)
      → p.data_ptr ≡ some i
      → c_string p.epname ≡ name
      → read m i p.data_len ≡ bytes
      → is_nil name ≡ false
      → (p.data_len == 0) ≡ false
      → serve_parts s m p w ≡ answer s rpc_ep_name_rsp (s.req_handle name 0 bytes w)
  unfolding serve_parts
  serve_parts_lem m p i name bytes w ptr ep data_is named some_data =
      rw (ptr, ep, some_data, named, data_is) refl

  -- A request in the form that compose_tlv gives it, with a name and data, reaches the endpoint's handler
  -- exactly once, with that name, session 0 and that data; what the handler gives is sent as "RPCRsp".
  pub rpc_req_handler-compose_tlv :
      (fuel : ℕ) (m : Memory) (name bytes : List ℕ) (w : W)
      → IsString name
      → is_nil name ≡ false
      → length name < 15
      → is_nil bytes ≡ false
      → length bytes < 2 ^ 16
      → Holds m 0 (compose_tlv name bytes)
      → rpc_req_handler s (suc (suc (suc fuel))) m (length (compose_tlv name bytes)) w
        ≡ some (answer s rpc_ep_name_rsp (s.req_handle name 0 bytes w))
  unfolding rpc_req_handler
  rpc_req_handler-compose_tlv fuel m name [] w str named short some_data small held =
      absurd (ground arith)
  rpc_req_handler-compose_tlv fuel m name (b ∷ bs) w str named short some_data small held =
      let (loop, ep, data_is) = parse_loop-compose_tlv fuel m name (b ∷ bs) str short small held in
      let filled : (length (b ∷ bs) == 0) ≡ false = ground arith in
      rw (rpc_req_handler, loop)
        (ap some (
          serve_parts_lem m
            (data_parts (6 + length name) (length (b ∷ bs)) (name_parts name no_parts))
            (6 + length name) name (b ∷ bs) w refl ep data_is named filled))

  -- A request of whole elements is always answered, within as many rounds of the loop as it has bytes.
  pub rpc_req_handler-Framed :
      (fuel : ℕ) (m : Memory) (in_len : ℕ) (w : W)
      → Framed m 0 in_len
      → in_len < 2 ^ 31
      → in_len < fuel
      → rpc_req_handler s fuel m in_len w ≢ none
  unfolding rpc_req_handler
  rpc_req_handler-Framed fuel m in_len w f small enough =
      let done =
        parse_loop-IsDone fuel m 0 in_len in_len no_parts f (omega arith) (omega arith) enough tt in
      after_loop-IsDone in_len _ (λ p. serve_parts s m p w) w done

  module _ (event_base event_max fuel : ℕ) (recv : Memory → ℕ → Memory × ℕ) where
    pserial_task-append :
        (args more : List SerialArg) (w : W)
        → pserial_task s event_base event_max fuel recv (args ++ more) w
          ≡ and_then
              (pserial_task s event_base event_max fuel recv args w)
              (pserial_task s event_base event_max fuel recv more)
    unfolding pserial_task
    pserial_task-append [] more w = refl
    pserial_task-append (arg ∷ args) more w =
        let round = pserial_round s event_base event_max fuel recv arg w in
        let next = pserial_task s event_base event_max fuel recv in
        and_then_cong round _ _ (pserial_task-append args more)
        ∙ sym (and_then_assoc round (next args) (next more))

    pserial_task_single :
        (arg : SerialArg) (w : W)
        → pserial_task s event_base event_max fuel recv (arg ∷ []) w
          ≡ pserial_round s event_base event_max fuel recv arg w
    unfolding pserial_task
    pserial_task_single arg w = and_then-some (pserial_round s event_base event_max fuel recv arg w)

    -- A message that data_ready accepts is served after those that were queued before it, each once and
    -- in the order they came in.
    pub pserial_task-data_ready :
        (can_alloc queued : Bool) (arg : SerialArg) (q q' : List SerialArg) (w : W)
        → data_ready can_alloc queued arg (some q) ≡ (esp_ok, some q')
        → pserial_task s event_base event_max fuel recv q' w
          ≡ and_then
              (pserial_task s event_base event_max fuel recv q w)
              (pserial_round s event_base event_max fuel recv arg)
    pserial_task-data_ready can_alloc queued arg q q' w e =
        let after : q' ≡ q ++ (arg ∷ []) = data_ready_queue can_alloc queued arg q q' e in
        rw (after, pserial_task-append q (arg ∷ []) w)
          (and_then_cong (pserial_task s event_base event_max fuel recv q w) _ _
            (pserial_task_single arg))
