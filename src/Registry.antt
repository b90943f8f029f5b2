-- ===== src/Registry.antt =====
-- The co-processor's table of custom-message callbacks (slave/main/slave_control.c): registration,
-- deregistration and dispatch. `H` stands for the callbacks, `ctx` for their context pointers.
-- Every critical section is one atomic step, since the table's mutex guards it.
pub mod Laws
pub mod Capacity
use esp_hosted_open.Prelude.{
  ℕ, Bool, true, false, ◌&&◌, ◌||◌, Option, none, some, List, [], ◌∷◌, ◌==◌, if◌then◌else◌,
  replicate,
}
use mathlib.Core.Option
use esp_hosted_open.Status.{
  esp_ok, esp_fail, esp_err_no_mem, esp_err_invalid_arg, esp_err_not_found,
}

-- (uint32_t)-1, which marks an empty entry
abbrev pub no_id : ℕ
no_id = 0xFFFFFFFF

module _ (H : Type 0) where
  pub record Entry : Type 0 where
    pub msg_id : ℕ
    pub callback : Option H
    pub local_context : ℕ

  -- `mutex` tells whether custom_callbacks_mutex has been created.
  pub record Registry : Type 0 where
    pub mutex : Bool
    pub entries : List Entry

module _ {H : Type 0} where
  abbrev pub empty_entry : Entry H
  empty_entry = record { msg_id = no_id; callback = none; local_context = 0 }

  -- the static initialiser, for CONFIG_ESP_HOSTED_MAX_CUSTOM_MSG_HANDLERS = n
  abbrev pub fresh : ℕ → Registry H
  fresh n = record { mutex = false; entries = replicate n empty_entry }

  abbrev pub is_null : Option H → Bool
  is_null none = true
  is_null (some h) = false

  -- what the first loop writes into an entry with the id: NULL clears it
  abbrev pub overwrite : ℕ → Option H → ℕ → Entry H
  overwrite id none ctx = empty_entry
  overwrite id (some h) ctx = record { msg_id = id; callback = some h; local_context = ctx }

  -- The first loop of esp_hosted_register_custom_callback; `none` if no entry has the id.
  unfoldable pub update_existing : ℕ → Option H → ℕ → List (Entry H) → Option (List (Entry H))
  update_existing id cb ctx [] = none
  update_existing id cb ctx (e ∷ es) =
      let rest = update_existing id cb ctx es in
      if e.msg_id == id then some (overwrite id cb ctx ∷ es) else Option.map (λ r. e ∷ r) rest

  -- The second loop; `none` if every entry has a callback.
  unfoldable pub fill_empty : ℕ → H → ℕ → List (Entry H) → Option (List (Entry H))
  fill_empty id h ctx [] = none
  fill_empty id h ctx (e ∷ es) =
      let rest = fill_empty id h ctx es in
      if is_null e.callback
      then some (record { msg_id = id; callback = some h; local_context = ctx } ∷ es)
      else Option.map (λ r. e ∷ r) rest

  -- What follows the first loop.
  unfoldable pub add_new : ℕ → Option H → ℕ → List (Entry H) → ℕ × List (Entry H)
  unfolding fill_empty
  add_new id none ctx es = (esp_err_not_found, es)
  add_new id (some h) ctx es = elim (fill_empty id h ctx es) [
    | some es' ↦ (esp_ok, es')
    | none ↦ (esp_err_no_mem, es)
  ]

  -- Both loops, under the mutex.
  unfoldable pub register_locked : ℕ → Option H → ℕ → List (Entry H) → ℕ × List (Entry H)
  unfolding update_existing add_new
  register_locked id cb ctx es = elim (update_existing id cb ctx es) [
    | some es' ↦ (esp_ok, es')
    | none ↦ add_new id cb ctx es
  ]

  -- Taking the mutex, the loops, giving it back.
  unfoldable pub lock_and_register : Bool → ℕ → Option H → ℕ → Registry H → ℕ × Registry H
  unfolding register_locked
  lock_and_register taken id cb ctx r =
      if taken
      then (let (st, es) = register_locked id cb ctx r.entries in (st, record r { entries = es }))
      else (esp_fail, r)

  -- esp_hosted_register_custom_callback. `created` and `taken` are the answers of
  -- xSemaphoreCreateMutex and xSemaphoreTake.
  unfoldable pub register_custom_callback :
      Bool → Bool → ℕ → Option H → ℕ → Registry H → ℕ × Registry H
  unfolding lock_and_register
  register_custom_callback created taken id cb ctx r =
      if id == no_id
      then (esp_err_invalid_arg, r)
      else if r.mutex || created
      then lock_and_register taken id cb ctx (record r { mutex = true })
      else (esp_err_no_mem, r)

  -- The search of handle_custom_rpc_request: the first entry with the id and a callback.
  unfoldable pub find_callback : ℕ → List (Entry H) → Option (H × ℕ)
  find_callback id [] = none
  find_callback id (e ∷ es) =
      let rest = find_callback id es in
      elim (e.callback) [
        | none ↦ rest
        | some h ↦ if e.msg_id == id then some (h, e.local_context) else rest
      ]

  abbrev pub found_status : Option (H × ℕ) → ℕ
  found_status (some c) = esp_ok
  found_status none = esp_err_not_found

  -- handle_custom_rpc_request: its status, and the callback it runs with its context, if any.
  unfoldable pub handle_custom_rpc_request : Bool → ℕ → Registry H → ℕ × Option (H × ℕ)
  unfolding find_callback
  handle_custom_rpc_request taken id r =
      if id == no_id
      then (esp_err_invalid_arg, none)
      else (let cb = if r.mutex && taken then find_callback id r.entries else none in
          (found_status cb, cb))

  -- The loop with which a component registers its table of callbacks, their context NULL: every
  -- status is only logged, so the loop goes on. The mutex is created and taken without fault.
  unfoldable pub register_all : List (ℕ × H) → Registry H → List ℕ × Registry H
  unfolding register_custom_callback
  register_all [] r = ([], r)
  register_all ((id, h) ∷ hs) r =
      let (st, r') = register_custom_callback true true id (some h) 0 r in
      let (sts, r'') = register_all hs r' in (st ∷ sts, r'')
