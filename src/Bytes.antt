-- ===== src/Bytes.antt =====
-- Little-endian integers in byte lists, as both sides read and write them through packed structs
-- (esp_hosted_open/include/phy_rpc_proto.h). A byte is a number below 256.
use esp_hosted_open.Prelude.{
  ℕ, ◌+◌, ◌*◌, ◌/◌, ◌%◌, ◌^◌, ◌<◌, ◌≡◌, refl, List, [], ◌∷◌, ◌++◌, arith, get_or, length,
}

abbrev pub u8 : ℕ → ℕ
u8 n = n % 256

abbrev pub u32 : ℕ → ℕ
u32 n = n % 2 ^ 32

unfoldable pub le16 : ℕ → List ℕ
le16 n = n % 256 ∷ n / 256 % 256 ∷ []

unfoldable pub le32 : ℕ → List ℕ
le32 n = n % 256 ∷ n / 256 % 256 ∷ n / 65536 % 256 ∷ n / 16777216 % 256 ∷ []

unfoldable pub le64 : ℕ → List ℕ
unfolding le32
le64 n = le32 n ++ le32 (n / 2 ^ 32)

-- A read past the end gives 0; every reader of the model checks the length first.
abbrev pub byte_at : List ℕ → ℕ → ℕ
byte_at bs i = get_or bs i 0

unfoldable pub u16_at : List ℕ → ℕ → ℕ
u16_at bs i = byte_at bs i + 256 * byte_at bs (i + 1)

unfoldable pub u32_at : List ℕ → ℕ → ℕ
u32_at bs i =
    byte_at bs i
    + 256 * byte_at bs (i + 1)
    + 65536 * byte_at bs (i + 2)
    + 16777216 * byte_at bs (i + 3)

unfoldable pub u64_at : List ℕ → ℕ → ℕ
unfolding u32_at
u64_at bs i = u32_at bs i + 2 ^ 32 * u32_at bs (i + 4)

pub u16_at-le16 : (n : ℕ) (rest : List ℕ) → n < 2 ^ 16 → u16_at (le16 n ++ rest) 0 ≡ n
unfolding u16_at le16
u16_at-le16 n rest h = omega arith

pub u32_at-le32 : (n : ℕ) (rest : List ℕ) → n < 2 ^ 32 → u32_at (le32 n ++ rest) 0 ≡ n
unfolding u32_at le32
u32_at-le32 n rest h = omega arith

pub u32_at-le32_mod : (n : ℕ) (rest : List ℕ) → u32_at (le32 n ++ rest) 0 ≡ n % 2 ^ 32
unfolding u32_at le32
u32_at-le32_mod n rest = omega arith

pub u32_at-le32_4 :
    (m n : ℕ) (rest : List ℕ) → n < 2 ^ 32 → u32_at (le32 m ++ (le32 n ++ rest)) 4 ≡ n
unfolding u32_at le32
u32_at-le32_4 m n rest h = omega arith

pub length-le16 : (n : ℕ) → length (le16 n) ≡ 2
unfolding le16
length-le16 n = refl

pub length-le32 : (n : ℕ) → length (le32 n) ≡ 4
unfolding le32
length-le32 n = refl
