-- ===== src/DataPath/Serial.antt =====
-- A serial message through recv_task (slave/main/esp_hosted_coprocessor.c).
use esp_hosted_open.Memory.{Memory, read, Holds, Holds-append, read-Holds}
use esp_hosted_open.Prelude.{
  ℕ, ◌+◌, ◌%◌, ◌^◌, ◌≤◌, ◌<◌, ◌≡◌, refl, ap, ◌∙◌, Bool, true, false, Option, none, some, List, [],
  ◌∷◌, ◌++◌, arith, ◌==◌, if◌then◌else◌, length, length-append,
}
use esp_hosted_open.Bytes.{u16_at}
use esp_hosted_open.Bus.{
  Fragment, rx_size, complete, process_serial_rx_pkt, process_all, if_taken, serial_write_data,
}
use esp_hosted_open.Bus as Bus
use esp_hosted_open.Bus.Reassembly.{
  payloads, with_seq, open_message, IsEnough, serial_write_data-payloads, process_all-with_seq,
  serial_write_data-AreMarked,
}
use esp_hosted_open.Transport.{Header, header_bytes}
use esp_hosted_open.Transport.Frame.{
  Fits, stamped, blank, rx_flags-stamped, rx_len-stamped, rx_offset-stamped,
}
use esp_hosted_open.DataPath.{
  DataPath, Build, Arrival, fragment_of, fragment_at, forward, process_rx_pkt, recv_task, recv_all,
}

-- the header that a driver makes for a fragment
abbrev pub serial_header : ℕ → Fragment → Header
serial_header seq f = record {
  if_type = 3;
  if_num = 0;
  flags = if f.more_fragment then 1 else 0;
  len = length f.payload;
  offset = 12;
  checksum = 0;
  seq_num = seq;
  throttle_cmd = 0;
  pkt_type = 0;
}

-- A packet of ESP_SERIAL_IF whose buffer holds a fragment's frame, with the checksum field 0.
pub record Carries (seq : ℕ) (f : Fragment) (a : Arrival) : Type 0 where
  pub is_serial : a.if_type ≡ 3
  pub holds : Holds a.buffer 0 (blank (serial_header seq f) f.payload)

abbrev pub CarriesAll : ℕ → List Fragment → List Arrival → Type 0
CarriesAll seq [] [] = Unit
CarriesAll seq [] (a ∷ later) = ⊥
CarriesAll seq (f ∷ fs) [] = ⊥
CarriesAll seq (f ∷ fs) (a ∷ later) = Carries seq f a × CarriesAll seq fs later

serial_header-Fits :
    (seq : ℕ) (f : Fragment) → length f.payload ≤ rx_size → Fits (serial_header seq f)
serial_header-Fits seq f short = record {
  type_fits = omega arith;
  num_fits = omega arith;
  flags_fits = ground arith;
  len_fits = omega arith;
  offset_fits = omega arith;
}

seq_num-stamped :
    (h : Header) (rest : List ℕ) → h.seq_num < 2 ^ 16 → u16_at (stamped h 0 ++ rest) 8 ≡ h.seq_num
unfolding header_bytes u16_at
seq_num-stamped h rest fits = omega arith

flags_bit : (more : Bool) → ((if more then 1 else 0) % 2 == 1) ≡ more
flags_bit true = refl
flags_bit false = refl

-- what process_serial_rx_pkt reads in the buffer
fragment_at-Holds :
    (seq : ℕ) (f : Fragment) (m : Memory)
    → Holds m 0 (blank (serial_header seq f) f.payload)
    → length f.payload ≤ rx_size
    → seq < 2 ^ 16
    → fragment_at m ≡ record f { seq_num = seq }
unfolding fragment_at header_bytes
fragment_at-Holds seq f m holds short small =
    let h = serial_header seq f in
    let fits = serial_header-Fits seq f short in
    let (front, behind) = Holds-append m 0 (stamped h 0 ++ []) f.payload holds in
    let header : read m 0 12 ≡ stamped h 0 ++ [] = read-Holds m 0 (stamped h 0 ++ []) front in
    ap (λ (bs : List ℕ). fragment_of bs m) header
    ∙ rw
        (
          rx_len-stamped h 0 [] fits,
          rx_offset-stamped h 0 [] fits,
          rx_flags-stamped h 0 [] fits,
          seq_num-stamped h [] small,
          read-Holds m 12 f.payload behind,
          flags_bit f.more_fragment,
        )
        refl

-- a serial packet is one call of process_serial_rx_pkt
process_rx_pkt-serial :
    (b : Build) (fuel : ℕ) (a : Arrival) (f : Fragment) (d : DataPath) (r : Bus.Rx)
    → a.if_type ≡ 3
    → fragment_at a.buffer ≡ f
    → process_serial_rx_pkt f d.serial ≡ some r
    → d.datapath ≡ true
    → recv_task b fuel false (some a) d ≡ some (record d { serial = r; freed = d.freed + 1 })
unfolding recv_task process_rx_pkt forward
process_rx_pkt-serial b fuel a f d r serial carried took up = rw (up, serial, carried, took) refl

-- what if_taken has taken
taken :
    (o : Option Bus.Rx) (k : Bus.Rx → Option Bus.Rx) (r : Bus.Rx)
    → if_taken o k ≡ some r
    → (x : Bus.Rx) × (o ≡ some x) × (k x ≡ some r)
taken none k r e = cc
taken (some x) k r e = (x, refl, e)

recv_all-process_all :
    (b : Build) (fuel seq : ℕ) (fs : List Fragment) (ps : List Arrival) (d : DataPath) (r : Bus.Rx)
    → CarriesAll seq fs ps
    → length (payloads fs) ≤ rx_size
    → seq < 2 ^ 16
    → d.datapath ≡ true
    → process_all (with_seq seq fs) d.serial ≡ some r
    → recv_all b fuel ps d ≡ some (record d { serial = r; freed = d.freed + length ps })
unfolding recv_all process_all
recv_all-process_all b fuel seq [] [] d r carried short small up e =
    let same : d.serial ≡ r = cc in
    ap (λ (x : Bus.Rx). some (record d { serial = x })) same
    ∙ ap (λ (k : ℕ). some (record d { serial = r; freed = k })) (omega arith)
recv_all-process_all b fuel seq [] (a ∷ later) d r carried short small up e = absurd carried
recv_all-process_all b fuel seq (f ∷ fs) [] d r carried short small up e = absurd carried
recv_all-process_all b fuel seq (f ∷ fs) (a ∷ later) d r (first, others) short small up e =
    let n = length-append f.payload (payloads fs) in
    let room : length (payloads fs) ≤ rx_size = omega arith in
    let short_here : length f.payload ≤ rx_size = omega arith in
    let (x, took, more) = taken _ (process_all (with_seq seq fs)) r e in
    let carried = fragment_at-Holds seq f a.buffer first.holds short_here small in
    let step = process_rx_pkt-serial b fuel a _ d x first.is_serial carried took up in
    let rest =
      recv_all-process_all b fuel seq fs later (record d { serial = x; freed = d.freed + 1 }) r
        others room small up more in
    rw step (rest ∙ ap (λ (k : ℕ). some (record d { serial = r; freed = k })) (omega arith))

-- A message of at most 8192 bytes that serial_write_data cuts up comes out of recv_task as the same
-- message, when the bus brings its fragments one after the other in buffers of the driver's form, under
-- one sequence number, the data path is open, the host does not sleep and no message is waiting to be
-- read. Every buffer goes back to the driver, and the rest of the state stays as it is.
pub recv_all-serial_write_data :
    (b : Build) (fuel fuel2 seq_num seq old : ℕ) (bytes : List ℕ) (ms : List (List ℕ))
    (ps : List Arrival) (d : DataPath)
    → IsEnough fuel2 bytes
    → length bytes ≤ rx_size
    → seq < 2 ^ 16
    → d.datapath ≡ true
    → d.serial ≡ open_message old [] ms
    → CarriesAll seq (serial_write_data fuel2 seq_num bytes) ps
    → recv_all b fuel ps d
      ≡ some
          (record d { serial = complete (open_message seq bytes ms); freed = d.freed + length ps })
recv_all-serial_write_data b fuel fuel2 seq_num seq old bytes ms ps d enough short small up ready
      carried =
    let fs = serial_write_data fuel2 seq_num bytes in
    let all = serial_write_data-payloads fuel2 seq_num bytes enough in
    let fits : length (payloads fs) ≤ rx_size = rw all short in
    recv_all-process_all b fuel seq fs ps d _ carried fits small up (
      ap (process_all (with_seq seq fs)) ready
      ∙ process_all-with_seq seq fs old [] ms
          (serial_write_data-AreMarked fuel2 seq_num bytes enough) (λ n. absurd (n refl))
          (omega arith)
      ∙ rw all refl)
