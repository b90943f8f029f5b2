-- ===== src/Control/Ota/Boot.antt =====
-- When the next boot is switched to the new image (slave/main/slave_control.c).
use esp_hosted_open.Prelude.{
  ℕ, ◌≡◌, ◌⊎◌, inl, inr, refl, Bool, true, false, not, Option, none, some, List, [], ◌∷◌, arith,
  ltb, ◌==◌, if◌then◌else◌, length,
}
use esp_hosted_open.Status.{esp_ok}
use esp_hosted_open.Control.Ota.{
  ota_in_progress, Effect, selected, begun, wrote, ended, boot_set, Ota, Reply, with_resp,
  req_ota_begin_handler, write_data, req_ota_write_handler, req_ota_end_handler, is_completed,
  activate, ota_activated, req_ota_activate_handler,
}

-- A request to one of the four handlers, with whatever the surroundings answer.
pub data Step : Ota → Ota → Type 0 where
  step_begin :
      (has_args can_alloc : Bool) (next : Option ℕ) (ret handle : ℕ) (o : Ota)
      → Step o (req_ota_begin_handler has_args can_alloc next ret handle o).1
  step_write :
      (has_args can_alloc : Bool) (header_size : ℕ) (validity : List ℕ → ℕ) (bytes : List ℕ)
      (ret : ℕ) (o : Ota)
      → Step o (req_ota_write_handler has_args can_alloc header_size validity bytes ret o).1
  step_end :
      (has_args can_alloc : Bool) (ret : ℕ) (o : Ota)
      → Step o (req_ota_end_handler has_args can_alloc ret o).1
  step_activate :
      (has_args can_alloc : Bool) (ret : ℕ) (timer pd_pass : Bool) (o : Ota)
      → Step o (req_ota_activate_handler has_args can_alloc ret timer pd_pass o).1

pub data Reach (start : Ota) : Ota → Type 0 where
  here : Reach start start
  then_step : (o o' : Ota) → Reach start o → Step o o' → Reach start o'

-- Of all but the writes and the choices of a partition, the latest was a successful esp_ota_end.
abbrev pub is_ended : List Effect → Bool
is_ended [] = false
is_ended (selected q ∷ es) = is_ended es
is_ended (begun p ∷ es) = false
is_ended (wrote h bs ∷ es) = is_ended es
is_ended (ended h ∷ es) = true
is_ended (boot_set p ∷ es) = false

-- the partition that the latest begin has chosen, whether or not it then failed
abbrev pub last_selected : List Effect → Option ℕ
last_selected [] = none
last_selected (selected q ∷ es) = q
last_selected (begun p ∷ es) = last_selected es
last_selected (wrote h bs ∷ es) = last_selected es
last_selected (ended h ∷ es) = last_selected es
last_selected (boot_set p ∷ es) = last_selected es

-- the partition of the latest begin that succeeded
abbrev pub last_begun : List Effect → Option ℕ
last_begun [] = none
last_begun (selected q ∷ es) = last_begun es
last_begun (begun p ∷ es) = some p
last_begun (wrote h bs ∷ es) = last_begun es
last_begun (ended h ∷ es) = last_begun es
last_begun (boot_set p ∷ es) = last_begun es

-- There was a begin, and the latest one failed.
abbrev pub is_begin_failed : List Effect → Bool
is_begin_failed [] = false
is_begin_failed (selected q ∷ es) = true
is_begin_failed (begun p ∷ es) = false
is_begin_failed (wrote h bs ∷ es) = is_begin_failed es
is_begin_failed (ended h ∷ es) = is_begin_failed es
is_begin_failed (boot_set p ∷ es) = is_begin_failed es

-- A switch to a partition comes after a successful esp_ota_end. It is to the partition of the update that
-- was ended, unless a begin has failed since that one began; then it is to the partition that the
-- failed begin has chosen.
pub record IsSwitch (p : Option ℕ) (es : List Effect) : Type 0 where
  pub complete : is_ended es ≡ true
  pub chosen : p ≡ last_selected es
  pub written : (p ≡ last_begun es) ⊎ (is_begin_failed es ≡ true)

abbrev pub IsOrdered : List Effect → Type 0
IsOrdered [] = Unit
IsOrdered (selected q ∷ es) = IsOrdered es
IsOrdered (begun p ∷ es) = IsOrdered es
IsOrdered (wrote h bs ∷ es) = IsOrdered es
IsOrdered (ended h ∷ es) = IsOrdered es
IsOrdered (boot_set p ∷ es) = IsSwitch p es × IsOrdered es

pub record IsSafe (o : Ota) : Type 0 where
  pub ordered : IsOrdered o.effects
  pub ready : is_completed o.ota_status ≡ true → is_ended o.effects ≡ true
  pub chosen : o.update_partition ≡ last_selected o.effects
  pub written : (o.update_partition ≡ last_begun o.effects) ⊎ (is_begin_failed o.effects ≡ true)

-- a handler's outcome without and with its answer
with_resp-IsSafe :
    (has_args can_alloc : Bool) (o : Ota) (body : Reply × Ota)
    → IsSafe o
    → IsSafe body.1
    → IsSafe (with_resp has_args can_alloc o body).1
with_resp-IsSafe false can_alloc o body s t = s
with_resp-IsSafe true false o body s t = s
with_resp-IsSafe true true o body s t = t

if-IsSafe : (b : Bool) (x y : Reply × Ota) → IsSafe x.1 → IsSafe y.1 → IsSafe (if b then x else y).1
if-IsSafe true x y s t = s
if-IsSafe false x y s t = t

if-IsSafe_when :
    (b : Bool) (x y : Reply × Ota)
    → (b ≡ true → IsSafe x.1)
    → IsSafe y.1
    → IsSafe (if b then x else y).1
if-IsSafe_when true x y s t = s refl
if-IsSafe_when false x y s t = t

chosen-IsSafe :
    (q : Option ℕ) (o : Ota)
    → IsSafe o
    → IsSafe (record o { update_partition = q; effects = selected q ∷ o.effects })
chosen-IsSafe q o s = record {
  ordered = s.ordered;
  ready = s.ready;
  chosen = refl;
  written = inr refl;
}

begin-IsSafe :
    (has_args can_alloc : Bool) (next : Option ℕ) (ret handle : ℕ) (o : Ota)
    → IsSafe o
    → IsSafe (req_ota_begin_handler has_args can_alloc next ret handle o).1
unfolding req_ota_begin_handler
begin-IsSafe has_args can_alloc none ret handle o s =
    with_resp-IsSafe has_args can_alloc o _ s (chosen-IsSafe none o s)
begin-IsSafe has_args can_alloc (some part) ret handle o s =
    let es = selected (some part) ∷ o.effects in
    let o' : Ota = record {
      update_partition = some part;
      handle = handle;
      ota_status = ota_in_progress;
      first_ota_write = true;
      effects = begun part ∷ es;
    } in
    let t : IsSafe o' = record {
      ordered = s.ordered;
      ready = λ e. absurd (ground arith);
      chosen = refl;
      written = inl refl;
    } in
    with_resp-IsSafe has_args can_alloc o _ s
      (if-IsSafe (not (ret == esp_ok)) _ _ (chosen-IsSafe (some part) o s) t)

write_data-IsSafe :
    (bytes : List ℕ) (ret : ℕ) (o : Ota) → IsSafe o → IsSafe (write_data bytes ret o).1
write_data-IsSafe bytes ret o s =
    if-IsSafe (not (ret == esp_ok)) _ _ s
      (record { ordered = s.ordered; ready = s.ready; chosen = s.chosen; written = s.written })

started-IsSafe : (o : Ota) → IsSafe o → IsSafe (record o { first_ota_write = false })
started-IsSafe o s = record {
  ordered = s.ordered;
  ready = s.ready;
  chosen = s.chosen;
  written = s.written;
}

write-IsSafe :
    (has_args can_alloc : Bool) (header_size : ℕ) (validity : List ℕ → ℕ) (bytes : List ℕ) (ret : ℕ)
    (o : Ota)
    → IsSafe o
    → IsSafe (req_ota_write_handler has_args can_alloc header_size validity bytes ret o).1
unfolding req_ota_write_handler
write-IsSafe has_args can_alloc header_size validity bytes ret o s =
    let started : Ota = record o { first_ota_write = false } in
    let t = started-IsSafe o s in
    with_resp-IsSafe has_args can_alloc o _ s (
      if-IsSafe (not o.first_ota_write) _ _ (write_data-IsSafe bytes ret o s) (
        if-IsSafe (ltb (length bytes) header_size) _ _ t (
          if-IsSafe (not (validity bytes == esp_ok)) _ _ t
            (write_data-IsSafe bytes ret started t))))

end-IsSafe :
    (has_args can_alloc : Bool) (ret : ℕ) (o : Ota)
    → IsSafe o
    → IsSafe (req_ota_end_handler has_args can_alloc ret o).1
unfolding req_ota_end_handler
end-IsSafe has_args can_alloc ret o s = with_resp-IsSafe has_args can_alloc o _ s (
    if-IsSafe (not (ret == esp_ok)) _ _
      (record {
        ordered = s.ordered;
        ready = λ e. absurd (ground arith);
        chosen = s.chosen;
        written = s.written;
      })
      (record { ordered = s.ordered; ready = λ e. refl; chosen = s.chosen; written = s.written }))

activated-IsSafe :
    (ret : ℕ) (timer pd_pass : Bool) (o : Ota)
    → IsSafe o
    → is_ended o.effects ≡ true
    → IsSafe (activate ret timer pd_pass o).1
activated-IsSafe ret timer pd_pass o s e =
    let o' : Ota = record o {
      ota_status = ota_activated;
      effects = boot_set o.update_partition ∷ o.effects;
    } in
    let t : IsSafe o' = record {
      ordered = (record { complete = e; chosen = s.chosen; written = s.written }, s.ordered);
      ready = λ f. absurd (ground arith);
      chosen = s.chosen;
      written = s.written;
    } in
    if-IsSafe (not (ret == esp_ok)) _ _ s
      (if-IsSafe (not timer) _ _ t (if-IsSafe (not pd_pass) _ _ t t))

activate-IsSafe :
    (has_args can_alloc : Bool) (ret : ℕ) (timer pd_pass : Bool) (o : Ota)
    → IsSafe o
    → IsSafe (req_ota_activate_handler has_args can_alloc ret timer pd_pass o).1
unfolding req_ota_activate_handler
activate-IsSafe has_args can_alloc ret timer pd_pass o s =
    with_resp-IsSafe has_args can_alloc o _ s (
      if-IsSafe_when (is_completed o.ota_status) _ _
        (λ y. activated-IsSafe ret timer pd_pass o s (s.ready y)) s)

-- Whatever requests come in whatever order, and whatever ESP-IDF answers, from a state on in which this
-- holds: the boot partition is only ever set after a successful esp_ota_end, with no other successful
-- begin and no other switch in between. It is set to the partition of the latest successful begin,
-- unless a begin has failed since; then it is set to the partition that the failed begin has chosen.
pub Reach-IsSafe : (start o : Ota) → IsSafe start → Reach start o → IsSafe o
Reach-IsSafe start o s here = s
Reach-IsSafe start o s (then_step o1 o2 r (step_begin a c next ret handle o3)) =
    begin-IsSafe a c next ret handle _ (Reach-IsSafe start _ s r)
Reach-IsSafe start o s (then_step o1 o2 r (step_write a c size validity bytes ret o3)) =
    write-IsSafe a c size validity bytes ret _ (Reach-IsSafe start _ s r)
Reach-IsSafe start o s (then_step o1 o2 r (step_end a c ret o3)) =
    end-IsSafe a c ret _ (Reach-IsSafe start _ s r)
Reach-IsSafe start o s (then_step o1 o2 r (step_activate a c ret timer pd_pass o3)) =
    activate-IsSafe a c ret timer pd_pass _ (Reach-IsSafe start _ s r)
