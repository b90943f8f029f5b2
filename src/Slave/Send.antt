-- ===== src/Slave/Send.antt =====
-- From a handler to the RPC layer: esp_hosted_send_custom_data (slave/main/slave_control.c), and the
-- two response helpers of slave/components/phy_rpc_overlay/phy_rpc_handlers.c on top of it.
use esp_hosted_open.Prelude.{
  ℕ, ◌+◌, ◌≤◌, ◌≡◌, Bool, true, false, ◌&&◌, ◌||◌, not, Option, none, some, List, [], ◌∷◌, ◌++◌,
  arith, ltb, ◌==◌, if◌then◌else◌, length, take, take-all,
}
use esp_hosted_open.Bytes.{le32, u32_at}
use esp_hosted_open.Status.{esp_ok, esp_err_no_mem, esp_err_invalid_arg, esp_err_invalid_size}
use esp_hosted_open.Slave.{Chip, Slave, Answer, simple, with_body, HasMemory}

-- the largest payload
abbrev pub max_payload : ℕ
max_payload = 8166

abbrev pub is_null : Option (List ℕ) → Bool
is_null none = true
is_null (some bs) = false

abbrev pub bytes_of : ℕ → Option (List ℕ) → List ℕ
bytes_of len none = []
bytes_of len (some bs) = take len bs

-- The event that carries an answer to the host: response id, op_id, status, body.
abbrev pub reply_bytes : ℕ → ℕ → ℕ → List ℕ → List ℕ
reply_bytes resp_id op st body = le32 resp_id ++ (le32 op ++ (le32 st ++ body))

module _ (chip : Chip) where
  -- esp_hosted_send_custom_data: a pointer with its length; what it sends is the id in four bytes, then
  -- the data.
  unfoldable pub send_custom_data : ℕ → Option (List ℕ) → ℕ → Slave → ℕ × Slave
  send_custom_data id p len s =
      if (is_null p && not (len == 0)) || (not (is_null p) && (len == 0))
      then (esp_err_invalid_arg, s)
      else if ltb max_payload len
      then (esp_err_invalid_size, s)
      else if chip.alloc s.log (4 + len)
      then (esp_ok, record s { sent = (le32 id ++ bytes_of len p) ∷ s.sent })
      else (esp_err_no_mem, s)

  abbrev pub send_bytes : ℕ → List ℕ → Slave → Slave
  send_bytes id bs s = (send_custom_data id (some bs) (length bs) s).1

  unfoldable pub send_simple_resp : ℕ → ℕ → ℕ → Slave → Slave
  unfolding send_custom_data
  send_simple_resp resp_id op status s = send_bytes resp_id (le32 op ++ le32 status) s

  unfoldable pub send_resp_with_body : ℕ → ℕ → ℕ → List ℕ → Slave → Slave
  unfolding send_custom_data send_simple_resp
  send_resp_with_body resp_id op status body s =
      if chip.alloc s.log (8 + length body)
      then send_bytes resp_id (le32 op ++ (le32 status ++ body)) s
      else send_simple_resp resp_id op esp_err_no_mem s

  -- The frame of every handler: a request shorter than its struct is dropped (UNPACK_REQ), otherwise
  -- the action runs and its answer is sent under the request's op_id.
  abbrev pub answer : ℕ → ℕ → Answer × Slave → Slave
  answer resp_id op (simple st, s) = send_simple_resp resp_id op st s
  answer resp_id op (with_body st body, s) = send_resp_with_body resp_id op st body s

  unfoldable pub serve : ℕ → ℕ → (List ℕ → Slave → Answer × Slave) → List ℕ → Slave → Slave
  serve size resp_id act req s =
      if ltb (length req) size then s else answer resp_id (u32_at req 0) (act req s)

  -- With memory a nonempty payload of at most 8166 bytes goes out.
  pub send_bytes-sent :
      (id : ℕ) (bs : List ℕ) (s : Slave)
      → HasMemory chip
      → 1 ≤ length bs
      → length bs ≤ max_payload
      → send_bytes id bs s ≡ record s { sent = (le32 id ++ bs) ∷ s.sent }
  unfolding send_custom_data
  send_bytes-sent id [] s m lo hi = absurd (omega arith)
  send_bytes-sent id (b ∷ bs) s m lo hi =
      ground (arith, m s.log (4 + length (b ∷ bs)), take-all (length bs) bs)

  pub send_simple_resp-sent :
      (id op st : ℕ) (s : Slave)
      → HasMemory chip
      → send_simple_resp id op st s ≡ record s { sent = reply_bytes id op st [] ∷ s.sent }
  unfolding send_simple_resp le32
  send_simple_resp-sent id op st s m =
      send_bytes-sent id (le32 op ++ le32 st) s m (omega arith) (omega arith)

  pub send_resp_with_body-sent :
      (id op st : ℕ) (body : List ℕ) (s : Slave)
      → HasMemory chip
      → length body ≤ 8158
      → send_resp_with_body id op st body s ≡ record s { sent = reply_bytes id op st body ∷ s.sent }
  unfolding send_resp_with_body le32
  send_resp_with_body-sent id op st body s m hi =
      rw (m s.log (8 + length body))
        (send_bytes-sent id (le32 op ++ (le32 st ++ body)) s m (omega arith) (omega arith))
