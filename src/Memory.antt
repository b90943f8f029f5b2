-- ===== src/Memory.antt =====
-- Memory that the C code reads through a pointer, from that pointer on: the code is given a length, if
-- any, and has to keep to it, so the model lets it read on behind.
use esp_hosted_open.Prelude.{
  ℕ, zero, suc, ◌+◌, ◌≡◌, refl, ap, subst, List, [], ◌∷◌, ◌++◌, arith, length,
}

abbrev pub Memory : Type 0
Memory = ℕ → ℕ

-- n bytes from an offset on
abbrev pub read : Memory → ℕ → ℕ → List ℕ
read m i zero = []
read m i (suc n) = m i ∷ read m (i + 1) n

-- memory that holds the bytes of a list from an offset on
abbrev pub Holds : Memory → ℕ → List ℕ → Type 0
Holds m i [] = Unit
Holds m i (x ∷ xs) = (m i ≡ x) × Holds m (i + 1) xs

pub Holds-append :
    (m : Memory) (i : ℕ) (xs ys : List ℕ)
    → Holds m i (xs ++ ys)
    → Holds m i xs × Holds m (i + length xs) ys
Holds-append m i [] ys h = (tt, subst (λ j. Holds m j ys) (omega arith) h)
Holds-append m i (x ∷ xs) ys (e, h) =
    let (a, b) = Holds-append m (i + 1) xs ys h in
    ((e, a), subst (λ j. Holds m j ys) (omega arith) b)

pub read-Holds : (m : Memory) (i : ℕ) (xs : List ℕ) → Holds m i xs → read m i (length xs) ≡ xs
read-Holds m i [] h = refl
read-Holds m i (x ∷ xs) (e, h) = rw (e, read-Holds m (i + 1) xs h) refl

pub length-read : (m : Memory) (i n : ℕ) → length (read m i n) ≡ n
length-read m i zero = refl
length-read m i (suc n) = ap suc (length-read m (i + 1) n)
