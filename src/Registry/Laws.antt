-- ===== src/Registry/Laws.antt =====
-- The callback table as a finite map from message ids to callbacks: what a registration changes,
-- and that it keeps the table well formed.
use esp_hosted_open.Prelude.{
  ℕ, Bool, true, false, Option, none, some, List, [], ◌∷◌, ◌≡◌, refl, sym, ◌∙◌, ◌≢◌, ◌⊎◌, inl, inr,
  arith, ◌==◌, if◌then◌else◌, Bool-cases, Option-cases,
}
use mathlib.Core.Option
use mathlib.Core.Path.{subst}
use esp_hosted_open.Status.{esp_ok}
use esp_hosted_open.Registry.{
  Entry, Registry, no_id, is_null, overwrite, update_existing, fill_empty, add_new, register_locked,
  lock_and_register, register_custom_callback, find_callback, handle_custom_rpc_request,
}

module _ {H : Type 0} where
  -- An entry is empty, with the marker id, or has a callback and a real id.
  abbrev pub IsEntry : Entry H → Type 0
  IsEntry e =
      (is_null e.callback ≡ true → e.msg_id ≡ no_id)
      × (is_null e.callback ≡ false → e.msg_id ≢ no_id)

  abbrev pub Absent : ℕ → List (Entry H) → Type 0
  Absent id [] = Unit
  Absent id (e ∷ es) = (e.msg_id ≢ id) × Absent id es

  -- Every entry is as above, and no two used entries share an id.
  abbrev pub IsTable : List (Entry H) → Type 0
  IsTable [] = Unit
  IsTable (e ∷ es) = IsEntry e × (e.msg_id ≢ no_id → Absent e.msg_id es) × IsTable es

  -- what a lookup of `j` finds once `id` is bound to `cb`
  abbrev pub bound : ℕ → Option H → ℕ → ℕ → Option (H × ℕ) → Option (H × ℕ)
  bound id cb ctx j old = if id == j then Option.map (λ h. (h, ctx)) cb else old

  pub find-Absent : (id : ℕ) (es : List (Entry H)) → Absent id es → find_callback id es ≡ none
  unfolding find_callback
  find-Absent id [] a = refl
  find-Absent id (e ∷ es) a = ground (arith, find-Absent id es a.1)

  pub update_existing-Absent :
      (id : ℕ) (cb : Option H) (ctx : ℕ) (es : List (Entry H))
      → update_existing id cb ctx es ≡ none
      → Absent id es
  unfolding update_existing
  update_existing-Absent id cb ctx [] h = tt
  update_existing-Absent id cb ctx (e ∷ es) h = elim (Option-cases (update_existing id cb ctx es)) [
    | inl n ↦ (ground arith, update_existing-Absent id cb ctx es n)
    | inr (r, q) ↦ absurd (ground arith)
  ]

  find-update_existing :
      (id j : ℕ) (cb : Option H) (ctx : ℕ) (es es' : List (Entry H))
      → id ≢ no_id
      → j ≢ no_id
      → IsTable es
      → update_existing id cb ctx es ≡ some es'
      → find_callback j es' ≡ bound id cb ctx j (find_callback j es)
  unfolding update_existing find_callback
  find-update_existing id j cb ctx [] es' hi hj w h = cc
  find-update_existing id j none ctx (e ∷ es) es' hi hj w h =
      elim (Option-cases (update_existing id none ctx es)) [
        | inl n ↦ ground (arith, find-Absent id es)
        | inr (r, q) ↦
            ground (arith, find-Absent id es, find-update_existing id j none ctx es r hi hj w.2 q)
      ]
  find-update_existing id j (some c) ctx (e ∷ es) es' hi hj w h =
      elim (Option-cases (update_existing id (some c) ctx es)) [
        | inl n ↦ ground (arith, find-Absent id es)
        | inr (r, q) ↦
            ground
              (arith, find-Absent id es, find-update_existing id j (some c) ctx es r hi hj w.2 q)
      ]

  pub find-fill_empty :
      (id j : ℕ) (h : H) (ctx : ℕ) (es es' : List (Entry H))
      → id ≢ no_id
      → j ≢ no_id
      → Absent id es
      → fill_empty id h ctx es ≡ some es'
      → find_callback j es' ≡ bound id (some h) ctx j (find_callback j es)
  unfolding fill_empty find_callback
  find-fill_empty id j h ctx [] es' hi hj a q = cc
  find-fill_empty id j h ctx (e ∷ es) es' hi hj a q = elim (Option-cases (fill_empty id h ctx es)) [
    | inl n ↦ ground (arith, find-Absent id es)
    | inr (r, p) ↦ ground (arith, find-Absent id es, find-fill_empty id j h ctx es r hi hj a.1 p)
  ]

  -- A successful update rewrites the head or goes on in the tail.
  update_existing_cases :
      (id : ℕ) (cb : Option H) (ctx : ℕ) (e : Entry H) (es es' : List (Entry H))
      → update_existing id cb ctx (e ∷ es) ≡ some es'
      → ((e.msg_id ≡ id) × (es' ≡ overwrite id cb ctx ∷ es))
        ⊎ ((r : List (Entry H)) × (e.msg_id ≢ id)
            × (update_existing id cb ctx es ≡ some r)
            × (es' ≡ e ∷ r))
  unfolding update_existing
  update_existing_cases id cb ctx e es es' h = elim (Bool-cases (e.msg_id == id)) [
    | inl y ↦ inl (ground arith, ground arith)
    | inr n ↦ elim (Option-cases (update_existing id cb ctx es)) [
      | inl q ↦ absurd (ground arith)
      | inr (r, q) ↦ inr (r, ground arith, q, ground arith)
    ]
  ]

  fill_empty_cases :
      (id : ℕ) (h : H) (ctx : ℕ) (e : Entry H) (es es' : List (Entry H))
      → fill_empty id h ctx (e ∷ es) ≡ some es'
      → ((is_null e.callback ≡ true) × (es' ≡ overwrite id (some h) ctx ∷ es))
        ⊎ ((r : List (Entry H)) × (is_null e.callback ≡ false)
            × (fill_empty id h ctx es ≡ some r)
            × (es' ≡ e ∷ r))
  unfolding fill_empty
  fill_empty_cases id h ctx e es es' q = elim (Bool-cases (is_null e.callback)) [
    | inl y ↦ inl (y, ground arith)
    | inr n ↦ elim (Option-cases (fill_empty id h ctx es)) [
      | inl p ↦ absurd (ground arith)
      | inr (r, p) ↦ inr (r, n, p, ground arith)
    ]
  ]

  overwrite-IsEntry :
      (id : ℕ) (cb : Option H) (ctx : ℕ) → id ≢ no_id → IsEntry (overwrite id cb ctx)
  overwrite-IsEntry id none ctx hi = (λ _. refl, λ q. cc)
  overwrite-IsEntry id (some c) ctx hi = (λ q. cc, λ _. hi)

  overwrite_id :
      (k id : ℕ) (cb : Option H) (ctx : ℕ) → k ≢ id → k ≢ no_id → (overwrite id cb ctx).msg_id ≢ k
  overwrite_id k id none ctx hk hn = ground arith
  overwrite_id k id (some c) ctx hk hn = ground arith

  Absent-update_existing :
      (k id : ℕ) (cb : Option H) (ctx : ℕ) (es es' : List (Entry H))
      → k ≢ id
      → k ≢ no_id
      → Absent k es
      → update_existing id cb ctx es ≡ some es'
      → Absent k es'
  Absent-update_existing k id cb ctx [] es' hk hn a h = absurd (unfold update_existing in cc)
  Absent-update_existing k id cb ctx (e ∷ es) es' hk hn a h =
      elim (update_existing_cases id cb ctx e es es' h) [
        | inl (y, q) ↦ rw q (overwrite_id k id cb ctx hk hn, a.1)
        | inr (r, n, p, q) ↦ rw q (a.0, Absent-update_existing k id cb ctx es r hk hn a.1 p)
      ]

  pub Absent-fill_empty :
      (k id : ℕ) (h : H) (ctx : ℕ) (es es' : List (Entry H))
      → k ≢ id
      → Absent k es
      → fill_empty id h ctx es ≡ some es'
      → Absent k es'
  Absent-fill_empty k id h ctx [] es' hk a q = absurd (unfold fill_empty in cc)
  Absent-fill_empty k id h ctx (e ∷ es) es' hk a q = elim (fill_empty_cases id h ctx e es es' q) [
    | inl (y, p) ↦ rw p (λ t. hk (sym t), a.1)
    | inr (r, n, p, t) ↦ rw t (a.0, Absent-fill_empty k id h ctx es r hk a.1 p)
  ]

  IsTable-update_existing :
      (id : ℕ) (cb : Option H) (ctx : ℕ) (es es' : List (Entry H))
      → id ≢ no_id
      → IsTable es
      → update_existing id cb ctx es ≡ some es'
      → IsTable es'
  IsTable-update_existing id cb ctx [] es' hi w h = absurd (unfold update_existing in cc)
  IsTable-update_existing id cb ctx (e ∷ es) es' hi w h =
      elim (update_existing_cases id cb ctx e es es' h) [
        | inl (y, q) ↦ rw q (overwrite-IsEntry id cb ctx hi, keep cb y, w.2)
        | inr (r, n, p, q) ↦ rw q (
          w.0,
          (λ m. Absent-update_existing e.msg_id id cb ctx es r n m (w.1 m) p),
          IsTable-update_existing id cb ctx es r hi w.2 p,
        )
      ]
    where
      keep :
          (cb' : Option H)
          → e.msg_id ≡ id
          → (overwrite id cb' ctx).msg_id ≢ no_id
          → Absent (overwrite id cb' ctx).msg_id es
      keep none y m = absurd (m refl)
      keep (some c) y m = subst (λ k. Absent k es) y (w.1 (λ t. hi (sym y ∙ t)))

  pub IsTable-fill_empty :
      (id : ℕ) (h : H) (ctx : ℕ) (es es' : List (Entry H))
      → id ≢ no_id
      → Absent id es
      → IsTable es
      → fill_empty id h ctx es ≡ some es'
      → IsTable es'
  IsTable-fill_empty id h ctx [] es' hi a w q = absurd (unfold fill_empty in cc)
  IsTable-fill_empty id h ctx (e ∷ es) es' hi a w q = elim (fill_empty_cases id h ctx e es es' q) [
    | inl (y, p) ↦ rw p (overwrite-IsEntry id (some h) ctx hi, (λ _. a.1), w.2)
    | inr (r, n, p, t) ↦ rw t (
      w.0,
      (λ m. Absent-fill_empty e.msg_id id h ctx es r a.0 (w.1 m) p),
      IsTable-fill_empty id h ctx es r hi a.1 w.2 p,
    )
  ]

  -- What a successful pass of both loops gives, for the three ways through them.
  register_locked_lem :
      (id j : ℕ) (cb : Option H) (ctx : ℕ) (es : List (Entry H))
      → id ≢ no_id
      → j ≢ no_id
      → IsTable es
      → (register_locked id cb ctx es).0 ≡ esp_ok
      → IsTable (register_locked id cb ctx es).1
        × (find_callback j (register_locked id cb ctx es).1
            ≡ bound id cb ctx j (find_callback j es))
  unfolding register_locked add_new
  register_locked_lem id j cb ctx es hi hj w h =
      elim (Option-cases (update_existing id cb ctx es)) [
        | inr (r, q) ↦
            rw (q, register_locked)
              (
                IsTable-update_existing id cb ctx es r hi w q,
                find-update_existing id j cb ctx es r hi hj w q,
              )
        | inl n ↦
            rw (n, register_locked)
              (added cb (update_existing-Absent id cb ctx es n) (rw (n, register_locked) at h))
      ]
    where
      added :
          (cb' : Option H)
          → Absent id es
          → (add_new id cb' ctx es).0 ≡ esp_ok
          → IsTable (add_new id cb' ctx es).1
            × (find_callback j (add_new id cb' ctx es).1 ≡ bound id cb' ctx j (find_callback j es))
      added none a p = absurd (cc p)
      added (some c) a p = elim (Option-cases (fill_empty id c ctx es)) [
        | inl m ↦ absurd (ground arith)
        | inr (r, m) ↦
            rw (m, add_new)
              (IsTable-fill_empty id c ctx es r hi a w m, find-fill_empty id j c ctx es r hi hj a m)
      ]

  -- The table is well formed, and nothing is bound before the mutex exists.
  pub record IsRegistry (r : Registry H) : Type 0 where
    pub table : IsTable r.entries
    pub unlocked : r.mutex ≡ false → (j : ℕ) → find_callback j r.entries ≡ none

  -- what a registration that returns ESP_OK has done
  register-ok :
      (created taken : Bool) (id : ℕ) (cb : Option H) (ctx : ℕ) (r : Registry H)
      → (register_custom_callback created taken id cb ctx r).0 ≡ esp_ok
      → (id ≢ no_id)
        × ((register_locked id cb ctx r.entries).0 ≡ esp_ok)
        × ((register_custom_callback created taken id cb ctx r).1
            ≡ record { mutex = true; entries = (register_locked id cb ctx r.entries).1 })
  unfolding register_custom_callback lock_and_register
  register-ok created taken id cb ctx r h = (ground arith, ground arith, ground arith)

  handled :
      (j : ℕ) (r : Registry H)
      → (handle_custom_rpc_request true j r).1
        ≡ (if j == no_id then none else if r.mutex then find_callback j r.entries else none)
  unfolding handle_custom_rpc_request
  handled j r = ground arith

  -- Once esp_hosted_register_custom_callback returns ESP_OK on a well-formed table, the table is well
  -- formed, and handle_custom_rpc_request, given the mutex, runs for the id that was registered the
  -- new callback with its context (nothing, if the callback was NULL), and for every other id what
  -- it ran before.
  pub handle-register :
      (created taken : Bool) (id j : ℕ) (cb : Option H) (ctx : ℕ) (r : Registry H)
      → IsRegistry r
      → (register_custom_callback created taken id cb ctx r).0 ≡ esp_ok
      → IsRegistry (register_custom_callback created taken id cb ctx r).1
        × ((handle_custom_rpc_request true j
              (register_custom_callback created taken id cb ctx r).1).1
            ≡ bound id cb ctx j (handle_custom_rpc_request true j r).1)
  handle-register created taken id j cb ctx r w h =
      rw (done.2, handled, handled)
        (
          record {
            table = (register_locked_lem id id cb ctx r.entries done.0 done.0 w.table done.1).0;
            unlocked = λ q. cc;
          },
          elim (Bool-cases (j == no_id)) [
            | inl y ↦ ground (arith, done)
            | inr n ↦ ground (
              arith,
              register_locked_lem id j cb ctx r.entries done.0 (ground arith) w.table done.1,
              old,
            )
          ],
        )
    where
      old : (if r.mutex then find_callback j r.entries else none) ≡ find_callback j r.entries
      old = elim (Bool-cases r.mutex) [
        | inl m ↦ ground arith
        | inr m ↦ ground (arith, w.unlocked m j)
      ]

      done :
          (id ≢ no_id)
          × ((register_locked id cb ctx r.entries).0 ≡ esp_ok)
          × ((register_custom_callback created taken id cb ctx r).1
              ≡ record { mutex = true; entries = (register_locked id cb ctx r.entries).1 })
      done = register-ok created taken id cb ctx r h
