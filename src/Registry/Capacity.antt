-- ===== src/Registry/Capacity.antt =====
-- How many callbacks the table can take: a new id needs an empty entry, and uses one.
use esp_hosted_open.Prelude.{
  ℕ, zero, suc, ◌-◌, ◌≡◌, refl, ◌≢◌, ◌⊎◌, inl, inr, true, Option, none, some, List, [], ◌∷◌, arith,
  ◌==◌, if◌then◌else◌, Bool-cases, length, replicate, ap, sym, ◌∙◌, min, ◌++◌, take,
}
use mathlib.Core.Path.{subst}
use esp_hosted_open.Status.{esp_ok, esp_err_no_mem}
use esp_hosted_open.Registry.{
  Entry, Registry, no_id, is_null, update_existing, fill_empty, add_new, register_locked,
  lock_and_register, register_custom_callback, register_all, find_callback,
}
use esp_hosted_open.Registry.Laws.{Absent, Absent-fill_empty, find-fill_empty}

-- the statuses of `n` new registrations in a table with `k` empty entries
abbrev pub outcomes : ℕ → ℕ → List ℕ
outcomes k n = replicate (min k n) esp_ok ++ replicate (n - k) esp_err_no_mem

outcomes_none : (k : ℕ) → outcomes k 0 ≡ []
outcomes_none k = let a : min k 0 ≡ 0 = omega arith in let b : 0 - k ≡ 0 = omega arith in rw (a, b)

outcomes_full : (n : ℕ) → outcomes 0 (suc n) ≡ esp_err_no_mem ∷ outcomes 0 n
outcomes_full n =
    let a : min 0 (suc n) ≡ 0 = omega arith in
    let b : min 0 n ≡ 0 = omega arith in
    let c : suc n - 0 ≡ suc n = omega arith in let d : n - 0 ≡ n = omega arith in rw (a, b, c, d)

outcomes_free : (k n : ℕ) → outcomes (suc k) (suc n) ≡ esp_ok ∷ outcomes k n
outcomes_free k n =
    let a : min (suc k) (suc n) ≡ suc (min k n) = omega arith in
    let b : suc n - suc k ≡ n - k = omega arith in rw (a, b)

take-nil {ℓ} : (A : Type ℓ) (n : ℕ) → take {A = A} n [] ≡ []
take-nil A zero = refl
take-nil A (suc n) = refl

module _ {H : Type 0} where
  -- the entries with no callback
  abbrev pub room : List (Entry H) → ℕ
  room [] = 0
  room (e ∷ es) = if is_null e.callback then suc (room es) else room es

  update-Absent :
      (id : ℕ) (cb : Option H) (ctx : ℕ) (es : List (Entry H))
      → Absent id es
      → update_existing id cb ctx es ≡ none
  unfolding update_existing
  update-Absent id cb ctx [] a = refl
  update-Absent id cb ctx (e ∷ es) a = ground (arith, update-Absent id cb ctx es a.1)

  -- Whether the second loop finds an entry, and what is left after it.
  fill-room :
      (id : ℕ) (h : H) (ctx : ℕ) (es : List (Entry H))
      → ((room es ≡ 0) × (fill_empty id h ctx es ≡ none))
        ⊎ ((r : List (Entry H)) × (fill_empty id h ctx es ≡ some r) × (room es ≡ suc (room r)))
  unfolding fill_empty
  fill-room id h ctx [] = inl (refl, refl)
  fill-room id h ctx (e ∷ es) = elim (Bool-cases (is_null e.callback)) [
    | inl y ↦ inr (
      record { msg_id = id; callback = some h; local_context = ctx } ∷ es,
      ground arith,
      ground arith,
    )
    | inr n ↦ elim (fill-room id h ctx es) [
      | inl (z, q) ↦ inl (ground arith, ground arith)
      | inr (r, q, m) ↦ inr (e ∷ r, ground arith, ground arith)
    ]
  ]

  -- a list of registrations with real ids, all different
  abbrev pub NotIn : ℕ → List (ℕ × H) → Type 0
  NotIn j [] = Unit
  NotIn j ((id, h) ∷ hs) = (j ≢ id) × NotIn j hs

  abbrev pub AllNew : List (ℕ × H) → List (Entry H) → Type 0
  AllNew [] es = Unit
  AllNew ((id, h) ∷ hs) es = (id ≢ no_id) × Absent id es × NotIn id hs × AllNew hs es

  -- what a lookup finds in a list of registrations, `d` if they do not name the id
  abbrev pub assoc_or : ℕ → List (ℕ × H) → Option (H × ℕ) → Option (H × ℕ)
  assoc_or j [] d = d
  assoc_or j ((id, h) ∷ hs) d = if id == j then some (h, 0) else assoc_or j hs d

  AllNew-fill :
      (hs : List (ℕ × H)) (id : ℕ) (h : H) (ctx : ℕ) (es r : List (Entry H))
      → NotIn id hs
      → AllNew hs es
      → fill_empty id h ctx es ≡ some r
      → AllNew hs r
  AllNew-fill [] id h ctx es r n a q = tt
  AllNew-fill ((k, c) ∷ hs) id h ctx es r n a q = (
    a.0,
    Absent-fill_empty k id h ctx es r (λ e. n.0 (sym e)) a.1 q,
    a.2,
    AllNew-fill hs id h ctx es r n.1 a.3 q,
  )

  assoc_or-NotIn :
      (j n : ℕ) (hs : List (ℕ × H)) (d : Option (H × ℕ)) → NotIn j hs → assoc_or j (take n hs) d ≡ d
  assoc_or-NotIn j zero hs d a = refl
  assoc_or-NotIn j (suc n) [] d a = refl
  assoc_or-NotIn j (suc n) ((id, h) ∷ hs) d a = ground (arith, assoc_or-NotIn j n hs d a.1)

  -- One registration of a new id: it takes an empty entry, or fails and changes nothing.
  register_new :
      (id : ℕ) (h : H) (r : Registry H)
      → id ≢ no_id
      → Absent id r.entries
      → ((room r.entries ≡ 0)
          × (register_custom_callback true true id (some h) 0 r
              ≡ (esp_err_no_mem, record { mutex = true; entries = r.entries })))
        ⊎ ((es : List (Entry H)) × (fill_empty id h 0 r.entries ≡ some es)
            × (room r.entries ≡ suc (room es))
            × (register_custom_callback true true id (some h) 0 r
                ≡ (esp_ok, record { mutex = true; entries = es })))
  unfolding register_custom_callback lock_and_register register_locked add_new
  register_new id h r hi a = elim (fill-room id h 0 r.entries) [
    | inl (z, q) ↦ inl (z, ground (arith, update-Absent id (some h) 0 r.entries a))
    | inr (es, q, m) ↦ inr (es, q, m, ground (arith, update-Absent id (some h) 0 r.entries a))
  ]

  -- Of a list of new ids, registered in order, the first as many as the table has empty entries are
  -- accepted, and each later one is refused with ESP_ERR_NO_MEM.
  pub register_all_statuses :
      (hs : List (ℕ × H)) (r : Registry H)
      → AllNew hs r.entries
      → (register_all hs r).0 ≡ outcomes (room r.entries) (length hs)
  unfolding register_all
  register_all_statuses [] r a = sym (outcomes_none (room r.entries))
  register_all_statuses ((id, h) ∷ hs) r a = elim (register_new id h r a.0 a.1) [
    | inl (z, q) ↦
        rw (q, z, outcomes_full (length hs))
          (ap (λ t. esp_err_no_mem ∷ t)
            (register_all_statuses hs (record { mutex = true; entries = r.entries }) a.3
              ∙ ap (λ k. outcomes k (length hs)) z))
    | inr (es, p, m, q) ↦
        rw (q, m, outcomes_free (room es) (length hs))
          (ap (λ t. esp_ok ∷ t)
            (register_all_statuses hs (record { mutex = true; entries = es })
              (AllNew-fill hs id h 0 r.entries es a.2 a.3 p)))
  ]

  -- The loop leaves bound, beside what the table bound before, exactly the first as many of its ids
  -- as the table had empty entries.
  pub register_all_lookup :
      (hs : List (ℕ × H)) (r : Registry H) (j : ℕ)
      → j ≢ no_id
      → AllNew hs r.entries
      → find_callback j (register_all hs r).1.entries
        ≡ assoc_or j (take (room r.entries) hs) (find_callback j r.entries)
  unfolding register_all
  register_all_lookup [] r j hj a = rw (take-nil (ℕ × H) (room r.entries))
  register_all_lookup ((id, h) ∷ hs) r j hj a = elim (register_new id h r a.0 a.1) [
    | inl (z, q) ↦
        rw (q, register_all_lookup hs (record { mutex = true; entries = r.entries }) j hj a.3, z)
          refl
    | inr (es, p, m, q) ↦
        rw
          (
            q,
            register_all_lookup hs (record { mutex = true; entries = es }) j hj
                (AllNew-fill hs id h 0 r.entries es a.2 a.3 p),
            m,
            find-fill_empty id j h 0 r.entries es a.0 hj a.1 p,
          )
          (bind es)
  ]
    where
      bind :
          (es : List (Entry H))
          → assoc_or j
              (take (room es) hs)
              (if id == j then some (h, 0) else find_callback j r.entries)
            ≡ (if id == j
                then some (h, 0)
                else assoc_or j (take (room es) hs) (find_callback j r.entries))
      bind es = elim (Bool-cases (id == j)) [
        | inl y ↦ rw y (
            assoc_or-NotIn j (room es) hs (some (h, 0))
              (subst (λ k. NotIn k hs) (ground arith) a.2))
        | inr n ↦ rw n
      ]
