-- ===== src/Bus/Reassembly.antt =====
-- Fragments put together again, and messages cut up (slave/main/esp_hosted_coprocessor.c).
use esp_hosted_open.Prelude.{
  ℕ, zero, suc, ◌+◌, ◌-◌, ◌*◌, ◌%◌, ◌≤◌, ◌<◌, ◌≡◌, ◌≢◌, refl, ap, ◌∙◌, Bool, true, false, none,
  some, List, [], ◌∷◌, ◌++◌, append-nil, append_assoc, arith, ltb, ◌==◌, Bool-cases, inl, inr,
  if◌then◌else◌, length, take, drop, min, take-all, length-append, ==_refl, take-drop, ltb→lt,
  length-drop, length-take,
}
use esp_hosted_open.Bus.{
  Fragment, Rx, rx_size, complete, process_serial_rx_pkt, process_serial_rx_pkt_resumed,
  process_all, serial_read_data, eth_data_len, serial_write_data,
}

abbrev pub payloads : List Fragment → List ℕ
payloads [] = []
payloads (f ∷ fs) = f.payload ++ payloads fs

-- the same fragments, all with one sequence number, as the receiver wants them
abbrev pub with_seq : ℕ → List Fragment → List Fragment
with_seq seq [] = []
with_seq seq (f ∷ fs) = record f { seq_num = seq } ∷ with_seq seq fs

-- MORE_FRAGMENT is set on all fragments but the last.
abbrev pub AreMarked : List Fragment → Type 0
AreMarked [] = ⊥
AreMarked (f ∷ []) = f.more_fragment ≡ false
AreMarked (f ∷ g ∷ fs) = (f.more_fragment ≡ true) × AreMarked (g ∷ fs)

abbrev pub open_message : ℕ → List ℕ → List (List ℕ) → Rx
open_message seq bytes ms = record { valid = false; cur_seq_no = seq; bytes = bytes; messages = ms }

abbrev pub current : Fragment → ℕ → List ℕ → ℕ
current f old bytes = if length bytes == 0 then f.seq_num else old

current_lem :
    (f : Fragment) (old : ℕ) (bytes : List ℕ)
    → (length bytes ≢ 0 → old ≡ f.seq_num)
    → current f old bytes ≡ f.seq_num
current_lem f old bytes same = elim (Bool-cases (length bytes == 0)) [
  | inl y ↦ rw y refl
  | inr n ↦ rw n (same (ground arith))
]

one_fragment :
    (f : Fragment) (old : ℕ) (bytes : List ℕ) (ms : List (List ℕ))
    → (length bytes ≢ 0 → old ≡ f.seq_num)
    → length bytes + length f.payload ≤ rx_size
    → process_serial_rx_pkt f (open_message old bytes ms)
      ≡ some (
          if f.more_fragment
          then open_message f.seq_num (bytes ++ f.payload) ms
          else complete (open_message f.seq_num (bytes ++ f.payload) ms))
unfolding process_serial_rx_pkt
one_fragment f old bytes ms same room =
    let all = take-all (min (length f.payload) (rx_size - length bytes)) f.payload (omega arith) in
    rw (current_lem f old bytes same, ==_refl f.seq_num, all) refl

-- Fragments of one sequence number, all but the last with MORE_FRAGMENT, come out as one message of
-- their payloads, in order, if it has at most 8192 bytes.
pub process_all-with_seq :
    (seq : ℕ) (fs : List Fragment) (old : ℕ) (bytes : List ℕ) (ms : List (List ℕ))
    → AreMarked fs
    → (length bytes ≢ 0 → old ≡ seq)
    → length bytes + length (payloads fs) ≤ rx_size
    → process_all (with_seq seq fs) (open_message old bytes ms)
      ≡ some (complete (open_message seq (bytes ++ payloads fs) ms))
unfolding process_all
process_all-with_seq seq [] old bytes ms marked same room = absurd marked
process_all-with_seq seq (f ∷ []) old bytes ms last same room =
    let room' : length bytes + length f.payload ≤ rx_size =
      omega (arith, length-append f.payload []) in
    rw
      (
        one_fragment (record f { seq_num = seq }) old bytes ms same room',
        last,
        append-nil f.payload,
      )
      refl
process_all-with_seq seq (f ∷ g ∷ fs) old bytes ms (more, marked) same room =
    let all = length-append f.payload (payloads (g ∷ fs)) in
    let room' : length bytes + length f.payload ≤ rx_size = omega arith in
    let rest : length (bytes ++ f.payload) + length (payloads (g ∷ fs)) ≤ rx_size =
      omega (arith, length-append bytes f.payload) in
    rw (one_fragment (record f { seq_num = seq }) old bytes ms same room', more)
      (process_all-with_seq seq (g ∷ fs) seq (bytes ++ f.payload) ms marked (λ n. refl) rest
        ∙ ap (λ b. some (complete (open_message seq b ms)))
            (append_assoc bytes f.payload (payloads (g ∷ fs))))

-- enough fuel for the loop of serial_write_data
abbrev pub IsEnough : ℕ → List ℕ → Type 0
IsEnough fuel bytes = length bytes < fuel * eth_data_len

cons-AreMarked :
    (f : Fragment) (fs : List Fragment) → f.more_fragment ≡ true → AreMarked fs → AreMarked (f ∷ fs)
cons-AreMarked f [] more marked = absurd marked
cons-AreMarked f (g ∷ fs) more marked = (more, marked)

rest-IsEnough :
    (fuel : ℕ) (bytes : List ℕ)
    → IsEnough (suc fuel) bytes
    → ltb eth_data_len (length bytes) ≡ true
    → IsEnough fuel (drop eth_data_len bytes)
rest-IsEnough fuel bytes enough y = omega (arith, length-drop eth_data_len bytes, ltb→lt _ _ y)

pub serial_write_data-AreMarked :
    (fuel seq_num : ℕ) (bytes : List ℕ)
    → IsEnough fuel bytes
    → AreMarked (serial_write_data fuel seq_num bytes)
unfolding serial_write_data
serial_write_data-AreMarked zero seq_num bytes enough = absurd (ground arith)
serial_write_data-AreMarked (suc fuel) seq_num bytes enough =
    elim (Bool-cases (ltb eth_data_len (length bytes))) [
      | inl y ↦
          let more = rest-IsEnough fuel bytes enough y in
          let first : Fragment = record {
            seq_num = (seq_num + 1) % 65536;
            payload = take eth_data_len bytes;
            more_fragment = true;
          } in
          rw y (
            cons-AreMarked first _ refl
              (serial_write_data-AreMarked fuel _ (drop eth_data_len bytes) more))
      | inr n ↦ rw n refl
    ]

pub serial_write_data-payloads :
    (fuel seq_num : ℕ) (bytes : List ℕ)
    → IsEnough fuel bytes
    → payloads (serial_write_data fuel seq_num bytes) ≡ bytes
unfolding serial_write_data
serial_write_data-payloads zero seq_num bytes enough = absurd (ground arith)
serial_write_data-payloads (suc fuel) seq_num bytes enough =
    elim (Bool-cases (ltb eth_data_len (length bytes))) [
      | inl y ↦
          let more = rest-IsEnough fuel bytes enough y in
          rw
            (
              y,
              serial_write_data-payloads fuel ((seq_num + 1) % 65536) (drop eth_data_len bytes)
                  more,
            )
            (take-drop eth_data_len bytes)
      | inr n ↦ rw n (append-nil bytes)
    ]

-- A message of at most 8192 bytes that serial_write_data cuts up is put together again and read back
-- exactly, with more fuel than it has fragments of 1500 bytes, if all its fragments are given one
-- sequence number: with the numbers of their own the receiver would not take them as one message.
pub serial_read_data-serial_write_data :
    (fuel seq_num seq old : ℕ) (bytes : List ℕ) (ms : List (List ℕ)) (len : ℕ)
    → IsEnough fuel bytes
    → length bytes ≤ rx_size
    → length bytes ≤ len
    → process_all (with_seq seq (serial_write_data fuel seq_num bytes)) (open_message old [] ms)
        ≡ some (complete (open_message seq bytes ms))
      × (serial_read_data len (complete (open_message seq bytes ms))
          ≡ (bytes, length bytes, open_message 0 [] (ms ++ (bytes ∷ []))))
unfolding serial_read_data
serial_read_data-serial_write_data fuel seq_num seq old bytes ms len enough fits wanted =
    let all = serial_write_data-payloads fuel seq_num bytes enough in
    let n : min len (length bytes) ≡ length bytes = omega arith in
    (
      process_all-with_seq seq (serial_write_data fuel seq_num bytes) old [] ms
            (serial_write_data-AreMarked fuel seq_num bytes enough) (λ n. absurd (n refl))
            (rw all (omega arith))
          ∙ rw all refl,
      rw (n, take-all (length bytes) bytes (omega arith)) refl,
    )

-- No fragment makes the message outgrow its buffer of 8192 bytes, whatever its length.
pub process_serial_rx_pkt-bytes :
    (f : Fragment) (r r' : Rx)
    → length r.bytes ≤ rx_size
    → process_serial_rx_pkt f r ≡ some r'
    → length r'.bytes ≤ rx_size
unfolding process_serial_rx_pkt
process_serial_rx_pkt-bytes f r r' fits e =
    let n = min (length f.payload) (rx_size - length r.bytes) in
    ground (arith, length-append r.bytes (take n f.payload), length-take n f.payload)

stored-bytes : (more : Bool) (x : Rx) → (if more then x else complete x).bytes ≡ x.bytes
stored-bytes true x = refl
stored-bytes false x = refl

-- A fragment that comes while a message waits to be read, and for which the two together are longer than
-- 8192 bytes, is cut when the message has been read and its call goes on, though the buffer is then empty:
-- what is stored has as many bytes as the read message had left room for.
pub process_serial_rx_pkt_resumed-cut :
    (f : Fragment) (called : Rx) (len : ℕ)
    → called.valid ≡ true
    → length called.bytes ≤ rx_size
    → rx_size < length called.bytes + length f.payload
    → (process_serial_rx_pkt f called ≡ none)
      × ((r : Rx) × (process_serial_rx_pkt_resumed called f (serial_read_data len called).2
            ≡ some r)
          × (length r.bytes + length called.bytes ≡ rx_size)
          × (length r.bytes < length f.payload))
unfolding process_serial_rx_pkt process_serial_rx_pkt_resumed serial_read_data
process_serial_rx_pkt_resumed-cut f called len waits fits long =
    let room = rx_size - length called.bytes in
    let kept = take (min (length f.payload) room) f.payload in
    let n = length-take (min (length f.payload) room) f.payload in
    let x : Rx = record called { valid = false; cur_seq_no = f.seq_num; bytes = kept } in
    let same = stored-bytes f.more_fragment x in
    (
      rw waits refl,
      (
        if f.more_fragment then x else complete x,
        rw (waits, ==_refl f.seq_num) refl,
        rw same (omega (arith, n)),
        rw same (omega (arith, n)),
      ),
    )
