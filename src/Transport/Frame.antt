-- ===== src/Transport/Frame.antt =====
-- What a receiver reads in the bytes of a frame, with more bytes behind them.
use esp_hosted_open.Prelude.{
  ℕ, ◌+◌, ◌%◌, ◌^◌, ◌<◌, ◌≡◌, refl, sym, ◌∙◌, none, some, List, ◌++◌, arith, ==_refl, length,
  take-append, drop,
}
use esp_hosted_open.Transport.{
  Header, Checksum, header_bytes, frame, checksum_of, rx_if_type, rx_if_num, rx_flags, rx_len,
  rx_offset, rx_checksum, clear_checksum, verify,
}

-- the fields of a header that fit into theirs
pub record Fits (h : Header) : Type 0 where
  pub type_fits : h.if_type < 16
  pub num_fits : h.if_num < 16
  pub flags_fits : h.flags < 256
  pub len_fits : h.len < 2 ^ 16
  pub offset_fits : h.offset < 2 ^ 16

pub length-frame :
    (sum : Checksum) (h : Header) (payload : List ℕ)
    → length (frame sum h payload) ≡ length payload + 12
unfolding frame
length-frame sum h payload = omega arith

-- the header with a checksum filled in
abbrev pub stamped : Header → ℕ → List ℕ
stamped h c = header_bytes (record h { checksum = c })

module _ (h : Header) (c : ℕ) (rest : List ℕ) where
  pub length-stamped : length (stamped h c) ≡ 12
  unfolding header_bytes
  length-stamped = refl

  module _ (fits : Fits h) where
    pub rx_if_type-stamped : rx_if_type (stamped h c ++ rest) ≡ h.if_type
    unfolding header_bytes rx_if_type
    rx_if_type-stamped = omega (arith, fits.type_fits)

    pub rx_if_num-stamped : rx_if_num (stamped h c ++ rest) ≡ h.if_num
    unfolding header_bytes rx_if_num
    rx_if_num-stamped = omega (arith, fits.type_fits, fits.num_fits)

    pub rx_flags-stamped : rx_flags (stamped h c ++ rest) ≡ h.flags
    unfolding header_bytes rx_flags
    rx_flags-stamped = omega (arith, fits.flags_fits)

    pub rx_len-stamped : rx_len (stamped h c ++ rest) ≡ h.len
    unfolding header_bytes rx_len
    rx_len-stamped = omega (arith, fits.len_fits)

    pub rx_offset-stamped : rx_offset (stamped h c ++ rest) ≡ h.offset
    unfolding header_bytes rx_offset
    rx_offset-stamped = omega (arith, fits.offset_fits)

-- a frame whose checksum field is 0
abbrev pub blank : Header → List ℕ → List ℕ
blank h payload = stamped h 0 ++ payload

rx_checksum-frame :
    (f : List ℕ → ℕ) (h : Header) (payload rest : List ℕ)
    → rx_checksum (frame (some f) h payload ++ rest) ≡ f (blank h payload) % 2 ^ 16
unfolding frame rx_checksum checksum_of
rx_checksum-frame f h payload rest = let n = f (blank h payload) in omega arith

clear_checksum-frame :
    (sum : Checksum) (h : Header) (payload rest : List ℕ)
    → clear_checksum (frame sum h payload ++ rest) ≡ blank h payload ++ rest
unfolding frame clear_checksum header_bytes
clear_checksum-frame sum h payload rest = refl

pub length-blank : (h : Header) (payload : List ℕ) → length (blank h payload) ≡ length payload + 12
unfolding header_bytes
length-blank h payload = omega arith

pub frame-stamped :
    (sum : Checksum) (h : Header) (payload rest : List ℕ)
    → frame sum h payload ++ rest
      ≡ stamped h (checksum_of sum (blank h payload)) ++ (payload ++ rest)
unfolding frame header_bytes
frame-stamped sum h payload rest = refl

-- A frame passes the check of its own bytes, and is left with the checksum field 0.
pub verify-frame :
    (sum : Checksum) (h : Header) (payload rest : List ℕ) (n : ℕ)
    → n ≡ length payload + 12
    → verify sum n (frame sum h payload ++ rest) ≡ some (blank h payload ++ rest)
unfolding verify frame checksum_of
verify-frame none h payload rest n e = refl
verify-frame (some f) h payload rest n e =
    let own = take-append n (blank h payload) rest (length-blank h payload ∙ sym e) in
    rw
      (
        clear_checksum-frame (some f) h payload rest,
        own,
        rx_checksum-frame f h payload rest,
        ==_refl,
      )
      refl

-- The payload is what stands behind the header.
pub drop-blank : (h : Header) (payload : List ℕ) → drop 12 (blank h payload) ≡ payload
unfolding header_bytes
drop-blank h payload = refl

module _ (h : Header) (payload rest : List ℕ) (fits : Fits h) where
  pub rx_flags-frame : (sum : Checksum) → rx_flags (frame sum h payload ++ rest) ≡ h.flags
  unfolding frame header_bytes
  rx_flags-frame sum = rx_flags-stamped h (checksum_of sum (blank h payload)) (payload ++ rest) fits

  pub rx_if_type-blank : rx_if_type (blank h payload ++ rest) ≡ h.if_type
  unfolding header_bytes
  rx_if_type-blank = rx_if_type-stamped h 0 (payload ++ rest) fits

  pub rx_if_num-blank : rx_if_num (blank h payload ++ rest) ≡ h.if_num
  unfolding header_bytes
  rx_if_num-blank = rx_if_num-stamped h 0 (payload ++ rest) fits

  pub rx_len-frame : (sum : Checksum) → rx_len (frame sum h payload ++ rest) ≡ h.len
  unfolding frame header_bytes
  rx_len-frame sum = rx_len-stamped h (checksum_of sum (blank h payload)) (payload ++ rest) fits

  pub rx_offset-frame : (sum : Checksum) → rx_offset (frame sum h payload ++ rest) ≡ h.offset
  unfolding frame header_bytes
  rx_offset-frame sum =
      rx_offset-stamped h (checksum_of sum (blank h payload)) (payload ++ rest) fits
