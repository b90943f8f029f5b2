-- ===== src/Serial.antt =====
-- The framing of serial messages and the task that serves them (slave/main/protocomm_pserial.c). A
-- message is the memory from its first byte on: the code is given the length and has to keep to it.
pub mod Framing
pub mod Task
use esp_hosted_open.Memory.{Memory, read}
use esp_hosted_open.Prelude.{
  ℕ, zero, suc, ◌+◌, ◌-◌, ◌*◌, ◌/◌, ◌%◌, ◌^◌, Bool, true, false, ◌&&◌, ◌||◌, not, Option, none,
  some, List, [], ◌∷◌, ◌++◌, leb, ltb, ◌==◌, if◌then◌else◌, length, drop, replicate,
}

-- buf and total_len, a size_t of 32 bits
pub record Cursor : Type 0 where
  pub buf : ℕ
  pub total_len : ℕ

-- what parse_tlv leaves in *type, *len and *ptr
pub record Tlv : Type 0 where
  pub type : ℕ
  pub len : ℕ
  pub ptr : ℕ

unfoldable pub parse_tlv : Memory → Cursor → Option (Tlv × Cursor)
parse_tlv m c =
    let len = m (c.buf + 1) + 256 * m (c.buf + 2) in
    if c.total_len == 0
    then none
    else some (
      record { type = m c.buf; len = len; ptr = c.buf + 3 },
      record { buf = c.buf + 3 + len; total_len = (c.total_len + 2 ^ 32 - (len + 3)) % 2 ^ 32 },
    )

-- EPNAME_MAX
abbrev pub epname_max : ℕ
epname_max = 16

-- epname, with its 16 bytes, data and data_len
pub record Parts : Type 0 where
  pub epname : List ℕ
  pub data_ptr : Option ℕ
  pub data_len : ℕ

abbrev pub no_parts : Parts
no_parts = record { epname = replicate epname_max 0; data_ptr = none; data_len = 0 }

-- the string in a buffer, up to its first 0
abbrev pub c_string : List ℕ → List ℕ
c_string [] = []
c_string (c ∷ cs) = if c == 0 then [] else c ∷ c_string cs

-- memcpy(epname, ptr, len), and the assignments to data and data_len
abbrev pub store_epname : Memory → Tlv → Parts → Parts
store_epname m t p = record p { epname = read m t.ptr t.len ++ drop t.len p.epname }

abbrev pub store_data : Tlv → Parts → Parts
store_data t p = record p { data_ptr = some t.ptr; data_len = t.len }

-- What the loop comes to: an early return of ESP_FAIL, its variables behind it, or no fuel.
pub data Parsed : Type 0 where
  refused : Parsed
  parsed : Parts → Parsed
  starved : Parsed

-- the switch: what it stores, and what it returns, given what the further rounds return
abbrev pub store_tlv : Memory → Tlv → Parts → Parts
store_tlv m t p = if t.type == 1 then store_epname m t p else store_data t p

abbrev pub switch_type : Tlv → Parsed → Parsed
switch_type t rest =
    if t.type == 1
    then (if leb (epname_max - 1) t.len then refused else rest)
    else if t.type == 2
    then rest
    else refused

unfoldable pub parse_loop : ℕ → Memory → Cursor → Parts → Parsed
unfolding parse_tlv
parse_loop zero m c p = starved
parse_loop (suc fuel) m c p = elim (parse_tlv m c) [
  | none ↦ parsed p
  | some (t, next) ↦ switch_type t (parse_loop fuel m next (store_tlv m t p))
]

-- compose_tlv, where calloc succeeds. The two names it is called with are short, so that its uint16_t
-- `len` does not wrap.
unfoldable pub compose_tlv : List ℕ → List ℕ → List ℕ
compose_tlv epname out =
    (1 ∷ length epname % 256 ∷ length epname / 256 % 256 ∷ epname)
    ++ (2 ∷ length out % 256 ∷ length out / 256 % 256 ∷ out)
