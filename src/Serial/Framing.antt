-- ===== src/Serial/Framing.antt =====
-- The parsing loop of serial messages: where it ends, what it reads, and what a composed message gives
-- back (slave/main/protocomm_pserial.c).
pub mod RoundTrip
use esp_hosted_open.Memory.{Memory, read}
use esp_hosted_open.Prelude.{
  ℕ, zero, suc, ◌+◌, ◌-◌, ◌*◌, ◌/◌, ◌%◌, ◌^◌, ◌≤◌, ◌<◌, ◌≡◌, ◌≢◌, refl, sym, ap, ◌∙◌, Bool, true,
  false, ◌&&◌, Option, none, some, List, [], ◌∷◌, ◌++◌, arith, leb, ltb, ◌==◌, Bool-cases, inl, inr,
  if◌then◌else◌, length, drop, replicate,
}
use esp_hosted_open.Serial.{
  Cursor, Tlv, parse_tlv, epname_max, Parts, no_parts, c_string, store_tlv, switch_type, Parsed,
  refused, parsed, starved, parse_loop, compose_tlv,
}

-- the length field of the element at an offset
abbrev pub len_at : Memory → ℕ → ℕ
len_at m i = m (i + 1) + 256 * m (i + 2)

-- `total` bytes from an offset on that are whole elements
pub data Framed (m : Memory) : ℕ → ℕ → Type 0 where
  framed_end : (i : ℕ) → Framed m i 0
  framed_tlv :
      (i total rest : ℕ)
      → Framed m (i + 3 + len_at m i) rest
      → total ≡ len_at m i + 3 + rest
      → Framed m i total

-- data lies before an offset
abbrev pub EndsBefore : ℕ → Parts → Type 0
EndsBefore end p = elim p.data_ptr [ none ↦ Unit | some i ↦ i + p.data_len ≤ end ]

-- an outcome that is not `starved`, with data before an offset
abbrev pub IsDone : ℕ → Parsed → Type 0
IsDone end refused = Unit
IsDone end (parsed p) = EndsBefore end p
IsDone end starved = ⊥

abbrev pub tlv_at : Memory → ℕ → Tlv
tlv_at m i = record { type = m i; len = len_at m i; ptr = i + 3 }

-- one round on an element that is within the message
parse_loop_round :
    (fuel : ℕ) (m : Memory) (i total rest : ℕ) (p : Parts)
    → total ≡ len_at m i + 3 + rest
    → total < 2 ^ 32
    → parse_loop (suc fuel) m (record { buf = i; total_len = total }) p
      ≡ switch_type (tlv_at m i) (
          parse_loop fuel m
            (record { buf = i + 3 + len_at m i; total_len = rest })
            (store_tlv m (tlv_at m i) p))
unfolding parse_loop
parse_loop_round fuel m i total rest p e small =
    let wrapped : (total + 2 ^ 32 - (len_at m i + 3)) % 2 ^ 32 ≡ rest = omega arith in
    let more : (total == 0) ≡ false = ground arith in rw (more, parse_loop, wrapped) refl

switch_type-IsDone :
    (end : ℕ) (t : Tlv) (rest : Parsed) → IsDone end rest → IsDone end (switch_type t rest)
switch_type-IsDone end t rest done = elim (Bool-cases (t.type == 1)) [
  | inl y ↦ elim (Bool-cases (leb (epname_max - 1) t.len)) [
    | inl z ↦ rw (y, z) tt
    | inr n ↦ rw (y, n) done
  ]
  | inr n ↦ elim (Bool-cases (t.type == 2)) [ inl y ↦ rw (n, y) done | inr k ↦ rw (n, k) tt ]
]

store_tlv-EndsBefore :
    (end : ℕ) (m : Memory) (i : ℕ) (p : Parts)
    → i + 3 + len_at m i ≤ end
    → EndsBefore end p
    → EndsBefore end (store_tlv m (tlv_at m i) p)
store_tlv-EndsBefore end m i p fits before = elim (Bool-cases (m i == 1)) [
  | inl y ↦ rw y before
  | inr n ↦ rw n fits
]

-- A message of whole elements is parsed within as many rounds as it has bytes, and the data that
-- the loop finds lies in the message.
pub parse_loop-IsDone :
    (fuel : ℕ) (m : Memory) (i total end : ℕ) (p : Parts)
    → Framed m i total
    → i + total ≡ end
    → total < 2 ^ 32
    → total < fuel
    → EndsBefore end p
    → IsDone end (parse_loop fuel m (record { buf = i; total_len = total }) p)
unfolding parse_loop
parse_loop-IsDone zero m i total end p f e small enough before = absurd (ground arith)
parse_loop-IsDone (suc fuel) m i total end p (framed_end i') e small enough before = before
parse_loop-IsDone (suc fuel) m i total end p (framed_tlv i' total' rest f whole) e small enough
      before =
    rw (parse_loop_round fuel m i total rest p whole small) (
      switch_type-IsDone end (tlv_at m i) _ (
        parse_loop-IsDone fuel m (i + 3 + len_at m i) rest end (store_tlv m (tlv_at m i) p) f
          (omega arith) (omega arith) (omega arith)
          (store_tlv-EndsBefore end m i p (omega arith) before)))
