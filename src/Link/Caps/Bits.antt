-- ===== src/Link/Caps/Bits.antt =====
-- Single bits of the capability bitmap, as MARK (slave/components/phy_rpc_overlay) sets them and
-- esp_hosted_open_has_capability reads them.
use esp_hosted_open.Prelude.{
  ℕ, zero, suc, ◌/◌, ◌%◌, ◌^◌, ◌<◌, ◌≡◌, refl, ap, sym, ==_iff, ◌∙◌, Bool, true, false, ◌&&◌, ◌||◌,
  not, List, [], ◌∷◌, arith, bit_and, bit_or, ◌==◌, if◌then◌else◌, length, set, length-set,
  Bool-cases, inl, inr,
}
use esp_hosted_open.Bytes.{u8, byte_at}
use esp_hosted_open.Host.Api.{is_set}

abbrev pub all_below : ℕ → (ℕ → Bool) → Bool
all_below zero f = true
all_below (suc n) f = f n && all_below n f

pub all_below-lt : (n : ℕ) (f : ℕ → Bool) (k : ℕ) → all_below n f ≡ true → k < n → f k ≡ true
all_below-lt zero f k e h = absurd (omega arith)
all_below-lt (suc n) f k e h = elim (Bool-cases (k == n)) [
  | inl y ↦ rw (same y) (ground arith)
  | inr m ↦ all_below-lt n f k (ground arith) (ground arith)
]
  where
    same : (k == n) ≡ true → k ≡ n
    same y = ground arith

abbrev agree : Bool → Bool → Bool
agree true b = b
agree false b = not b

agree_eq : (a b : Bool) → agree a b ≡ true → a ≡ b
agree_eq a b h = ground arith

abbrev bit_ok : ℕ → ℕ → ℕ → Bool
bit_ok b i j =
    agree (is_set (bit_and (u8 (bit_or b (2 ^ j))) (2 ^ i)))
      ((i == j) || is_set (bit_and b (2 ^ i)))

bits_ok : all_below 256 (λ b. all_below 8 (λ i. all_below 8 (λ j. bit_ok b i j))) ≡ true
bits_ok = refl

-- Setting bit j of a byte leaves the other bits.
bit_set :
    (b i j : ℕ)
    → b < 256
    → i < 8
    → j < 8
    → is_set (bit_and (u8 (bit_or b (2 ^ j))) (2 ^ i)) ≡ ((i == j) || is_set (bit_and b (2 ^ i)))
bit_set b i j hb hi hj = agree_eq _ _ (
    all_below-lt 8 (λ j'. bit_ok b i j') j
      (all_below-lt 8 (λ i'. all_below 8 (λ j'. bit_ok b i' j')) i
        (all_below-lt 256 (λ b'. all_below 8 (λ i'. all_below 8 (λ j'. bit_ok b' i' j'))) b bits_ok
          hb)
        hi)
      hj)

byte_at-set :
    (bs : List ℕ) (k k' v : ℕ)
    → k' < length bs
    → byte_at (set bs k' v) k ≡ (if k == k' then v else byte_at bs k)
byte_at-set [] k k' v h = absurd (omega arith)
byte_at-set (b ∷ bs) zero zero v h = refl
byte_at-set (b ∷ bs) zero (suc k') v h = ground arith
byte_at-set (b ∷ bs) (suc k) zero v h = ground arith
byte_at-set (b ∷ bs) (suc k) (suc k') v h = byte_at-set bs k k' v (omega arith) ∙ ground arith

-- sixteen bytes
pub record IsBitmap (caps : List ℕ) : Type 0 where
  pub sixteen : length caps ≡ 16
  pub bytes : (k : ℕ) → byte_at caps k < 256

abbrev pub bit_at : ℕ → List ℕ → Bool
bit_at low caps = is_set (bit_and (byte_at caps (low / 8)) (2 ^ (low % 8)))

module _ (caps : List ℕ) (map16 : IsBitmap caps) where
  abbrev pub marked : ℕ → List ℕ
  marked low = set caps (low / 8) (u8 (bit_or (byte_at caps (low / 8)) (2 ^ (low % 8))))

  pub marked-IsBitmap : (low : ℕ) → low < 128 → IsBitmap (marked low)
  marked-IsBitmap low h = record {
    sixteen = length-set caps (low / 8) _ ∙ map16.sixteen;
    bytes = λ k. ground (
      arith,
      map16.bytes k,
      map16.sixteen,
      byte_at-set caps k (low / 8) (u8 (bit_or (byte_at caps (low / 8)) (2 ^ (low % 8))))
          (omega (arith, map16.sixteen)),
    );
  }

  pub bit_at-marked :
      (i j : ℕ) → i < 128 → j < 128 → bit_at i (marked j) ≡ ((i == j) || bit_at i caps)
  bit_at-marked i j hi hj = elim (Bool-cases (i / 8 == j / 8)) [
    | inl y ↦
        rw (stored, y)
          (bit_set (byte_at caps (j / 8)) (i % 8) (j % 8) (map16.bytes (j / 8)) (omega arith)
              (omega arith)
            ∙ rw (same_byte y) (ap (λ b. b || bit_at i caps) (same_bit y)))
    | inr n ↦ rw (stored, n) (rw (other n) refl)
  ]
    where
      stored : byte_at (marked j) (i / 8) ≡ (
          if i / 8 == j / 8
          then u8 (bit_or (byte_at caps (j / 8)) (2 ^ (j % 8)))
          else byte_at caps (i / 8))
      stored = byte_at-set caps (i / 8) (j / 8) _ (omega (arith, map16.sixteen))

      same_byte : (i / 8 == j / 8) ≡ true → j / 8 ≡ i / 8
      same_byte y = sym ((==_iff (i / 8) (j / 8)).0 y)

      same_bit : (i / 8 == j / 8) ≡ true → (i % 8 == j % 8) ≡ (i == j)
      same_bit y = ground arith

      other : (i / 8 == j / 8) ≡ false → (i == j) ≡ false
      other n = ground arith
