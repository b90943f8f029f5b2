-- ===== src/Serial/Framing/RoundTrip.antt =====
-- A composed message read back by the parsing loop (slave/main/protocomm_pserial.c).
use esp_hosted_open.Memory.{Memory, read, Holds, Holds-append, read-Holds}
use esp_hosted_open.Prelude.{
  ℕ, zero, suc, ◌+◌, ◌/◌, ◌%◌, ◌^◌, ◌<◌, ◌≡◌, ◌≢◌, refl, ap, ◌∙◌, false, some, List, [], ◌∷◌, ◌++◌,
  append-nil, arith, leb, ◌==◌, length, drop, replicate, length-append, subst,
}
use esp_hosted_open.Serial.{Parts, no_parts, c_string, parsed, parse_loop, compose_tlv}
use esp_hosted_open.Serial.Framing.{len_at, parse_loop_round}

-- a string without the byte 0
abbrev pub IsString : List ℕ → Type 0
IsString [] = Unit
IsString (c ∷ cs) = (c ≢ 0) × IsString cs

c_string-zeros : (n : ℕ) → c_string (replicate n 0) ≡ []
c_string-zeros zero = refl
c_string-zeros (suc n) = refl

c_string-drop : (k n : ℕ) → c_string (drop k (replicate n 0)) ≡ []
c_string-drop zero n = c_string-zeros n
c_string-drop (suc k) zero = refl
c_string-drop (suc k) (suc n) = c_string-drop k n

c_string-append :
    (name rest : List ℕ) → IsString name → c_string (name ++ rest) ≡ name ++ c_string rest
c_string-append [] rest s = refl
c_string-append (c ∷ cs) rest (x, s) =
    let e : (c == 0) ≡ false = ground arith in rw (e, c_string-append cs rest s) refl

-- the variables of the loop after a name and data
abbrev pub name_parts : List ℕ → Parts → Parts
name_parts name p = record p { epname = name ++ drop (length name) p.epname }

abbrev pub data_parts : ℕ → ℕ → Parts → Parts
data_parts i n p = record p { data_ptr = some i; data_len = n }

name_round :
    (fuel : ℕ) (m : Memory) (i rest : ℕ) (name : List ℕ) (p : Parts)
    → m i ≡ 1
    → len_at m i ≡ length name
    → Holds m (i + 3) name
    → length name < 15
    → rest < 2 ^ 31
    → parse_loop (suc fuel) m (record { buf = i; total_len = length name + 3 + rest }) p
      ≡ parse_loop fuel m
          (record { buf = i + 3 + length name; total_len = rest })
          (name_parts name p)
name_round fuel m i rest name p type len h short small =
    let fits : leb 15 (length name) ≡ false = ground arith in
    parse_loop_round fuel m i (length name + 3 + rest) rest p (omega arith) (omega arith)
    ∙ rw (type, len, fits, read-Holds m (i + 3) name h) refl

data_round :
    (fuel : ℕ) (m : Memory) (i rest n : ℕ) (p : Parts)
    → m i ≡ 2
    → len_at m i ≡ n
    → n < 2 ^ 16
    → rest < 2 ^ 31
    → parse_loop (suc fuel) m (record { buf = i; total_len = n + 3 + rest }) p
      ≡ parse_loop fuel m (record { buf = i + 3 + n; total_len = rest }) (data_parts (i + 3) n p)
data_round fuel m i rest n p type len small more =
    parse_loop_round fuel m i (n + 3 + rest) rest p (omega arith) (omega arith)
    ∙ rw (type, len) refl

last_round :
    (fuel : ℕ) (m : Memory) (i : ℕ) (p : Parts)
    → parse_loop (suc fuel) m (record { buf = i; total_len = 0 }) p ≡ parsed p
unfolding parse_loop
last_round fuel m i p = refl

length-compose_tlv :
    (name bs : List ℕ) → length (compose_tlv name bs) ≡ length name + 3 + (length bs + 3 + 0)
unfolding compose_tlv
length-compose_tlv name bs =
    let whole = length-append name (2 ∷ length bs % 256 ∷ length bs / 256 % 256 ∷ bs) in omega arith

-- where the fields of a composed message are
compose_tlv_fields :
    (m : Memory) (name bs : List ℕ)
    → length name < 15
    → length bs < 2 ^ 16
    → Holds m 0 (compose_tlv name bs)
    → (m 0 ≡ 1)
      × (len_at m 0 ≡ length name)
      × Holds m 3 name
      × (m (3 + length name) ≡ 2)
      × (len_at m (3 + length name) ≡ length bs)
      × Holds m (3 + length name + 3) bs
unfolding compose_tlv
compose_tlv_fields m name bs short small (e0, (e1, (e2, h))) =
    let (hn, (f0, (f1, (f2, hd)))) = Holds-append m 3 name _ h in
    let second : m (3 + length name + 2) ≡ length bs / 256 % 256 =
      subst (λ j. m j ≡ length bs / 256 % 256) (omega arith) f2 in
    (e0, omega arith, hn, f0, omega arith, subst (λ j. Holds m j bs) (omega arith) hd)

-- A composed message of a name of less than 15 characters and of data of less than 64 KiB is parsed to
-- that name and that data: the loop ends in its third round, the string in epname is the name, and the
-- bytes that data and data_len delimit are the data.
pub parse_loop-compose_tlv :
    (fuel : ℕ) (m : Memory) (name data_bytes : List ℕ)
    → IsString name
    → length name < 15
    → length data_bytes < 2 ^ 16
    → Holds m 0 (compose_tlv name data_bytes)
    → (parse_loop
          (suc (suc (suc fuel)))
          m
          (record { buf = 0; total_len = length (compose_tlv name data_bytes) })
          no_parts
        ≡ parsed (data_parts (6 + length name) (length data_bytes) (name_parts name no_parts)))
      × (c_string (name_parts name no_parts).epname ≡ name)
      × (read m (6 + length name) (length data_bytes) ≡ data_bytes)
parse_loop-compose_tlv fuel m name bs str short small held =
    let (type, len, hn, type', len', hd) = compose_tlv_fields m name bs short small held in
    let whole : length (compose_tlv name bs) ≡ length name + 3 + (length bs + 3 + 0) =
      length-compose_tlv name bs in
    let at_data : 6 + length name ≡ 3 + length name + 3 = omega arith in
    (
      rw (whole, at_data)
          (name_round (suc (suc fuel)) m 0 (length bs + 3 + 0) name no_parts type len hn short
              (omega arith)
            ∙ data_round (suc fuel) m (3 + length name) 0 (length bs) (name_parts name no_parts)
                type' len' small (omega arith)
            ∙ last_round fuel m (3 + length name + 3 + length bs) _),
      c_string-append name _ str
          ∙ ap (λ l. name ++ l) (c_string-drop (length name) 16)
          ∙ append-nil name,
      rw at_data (read-Holds m (3 + length name + 3) bs hd),
    )
