-- ===== src/Sleep/Synced.antt =====
-- The semaphore of the host's wake-up and the flag of its sleep (slave/main/host_power_save.c), over
-- any sequence of calls.
use esp_hosted_open.Prelude.{
  ℕ, ◌⊎◌, ◌≡◌, refl, sym, ap, ◌∙◌, subst, Bool, true, false, not, Option, none, some, arith,
  if◌then◌else◌, inl, inr,
}
use esp_hosted_open.Status.{esp_ok}
use esp_hosted_open.Sleep.{
  Callbacks, Config, Driver, Sleep, Ending, returned, aborted, blocked, call, create_sem, take_sem,
  give_sem, host_power_save_init, host_power_save_set_callbacks, PsEvent, esp_power_save_on,
  esp_power_save_off, esp_open_data_path, other_event, bring_down, alert_on, alert_off,
  host_power_save_alert,
}

-- A call that returns. An initialisation counts where the GPIO was configured.
pub data Step (default : Config) (down : Driver → Driver) : Sleep → Sleep → Type 0 where
  step_init :
      (config : Option Config) (ret : ℕ) (s s' : Sleep)
      → host_power_save_init default esp_ok config s ≡ returned (ret, s')
      → Step default down s s'
  step_set_callbacks :
      (cs : Option Callbacks) (s : Sleep)
      → Step default down s (host_power_save_set_callbacks cs s).1
  step_alert :
      (evt : PsEvent) (s s' : Sleep)
      → host_power_save_alert down evt s ≡ returned s'
      → Step default down s s'

pub data Reach (default : Config) (down : Driver → Driver) (start : Sleep) : Sleep → Type 0 where
  here : Reach default down start start
  then_step :
      (s s' : Sleep)
      → Reach default down start s
      → Step default down s s'
      → Reach default down start s'

-- The token is there exactly while the host is awake; without a semaphore, the host is awake and the
-- module off.
abbrev pub Agrees : Option Bool → Bool → Bool → Type 0
Agrees none on enable = (on ≡ false) × (enable ≡ false)
Agrees (some token) on enable = token ≡ not on

abbrev pub IsSynced : Sleep → Type 0
IsSynced s = Agrees s.wakeup_sem s.power_save_on s.hps_config.enable

-- the part of the state that this is about
abbrev Core : Type 0
Core = Option Bool × Bool × Bool

abbrev core : Sleep → Core
core s = (s.wakeup_sem, s.power_save_on, s.hps_config.enable)

abbrev CoreSynced : Core → Type 0
CoreSynced (sem, on, enable) = Agrees sem on enable

core-call : (f : Option ℕ) (s : Sleep) → core (call f s) ≡ core s
core-call none s = refl
core-call (some f) s = refl

core-bring_down :
    (down : Driver → Driver) (s s' : Sleep) → bring_down down s ≡ returned s' → core s' ≡ core s
unfolding bring_down
core-bring_down down s s' e = ground arith

returned_injective : {A : Type 0} (s s' : A) → returned s ≡ returned s' → s ≡ s'
returned_injective s s' e = ap (λ x. elim x [ returned y ↦ y | aborted ↦ s | blocked ↦ s ]) e

returned_else :
    {A : Type 0} (b : Bool) (s s' : A) → (if b then aborted else returned s) ≡ returned s' → s ≡ s'
returned_else true s s' e = absurd (ground arith)
returned_else false s s' e = returned_injective s s' e

unless_enabled :
    {A : Type 0} (b : Bool) (x z : A) (y : Ending A)
    → (if not b then returned x else y) ≡ returned z
    → ((b ≡ false) × (x ≡ z)) ⊎ ((b ≡ true) × (y ≡ returned z))
unless_enabled false x z y e = inl (refl, returned_injective x z e)
unless_enabled true x z y e = inr (refl, e)

with_pin :
    {A : Type 0} (gpio : Option ℕ) (x z : A)
    → elim gpio [ none ↦ aborted | some pin ↦ returned x ] ≡ returned z
    → x ≡ z
with_pin none x z e = absurd (ground arith)
with_pin (some pin) x z e = returned_injective x z e

-- behind bring_down
core-on_ready :
    (c : Core) (e : Ending Sleep) (s' : Sleep)
    → ((s : Sleep) → e ≡ returned s → core s ≡ c)
    → elim e [
      | returned s3 ↦ returned (call s3.hps_config.callbacks.on_ready s3)
      | aborted ↦ aborted
      | blocked ↦ blocked
    ]
      ≡ returned s'
    → core s' ≡ c
core-on_ready c (returned s) s' p e =
    ap core (sym (returned_injective _ s' e))
    ∙ core-call s.hps_config.callbacks.on_ready s
    ∙ p s refl
core-on_ready c aborted s' p e = absurd (ground arith)
core-on_ready c blocked s' p e = absurd (ground arith)

-- the state in the middle of the two alerts
abbrev asleep : Sleep → Sleep
asleep s = record s { wakeup_sem = take_sem s.wakeup_sem; power_save_on = true }

abbrev awake : Sleep → Sleep
awake s = record s { wakeup_sem = give_sem s.wakeup_sem; power_save_on = false }

core-alert_on :
    (down : Driver → Driver) (s s' : Sleep)
    → alert_on down s ≡ returned s'
    → core s' ≡ (take_sem s.wakeup_sem, true, s.hps_config.enable)
unfolding alert_on
core-alert_on down s s' e =
    let prepared = core-call s.hps_config.callbacks.on_prepare s in
    core-on_ready _ _ s'
      (λ s1 q.
        core-bring_down down (asleep (call s.hps_config.callbacks.on_prepare s)) s1 q
        ∙ ap (λ c. (take_sem c.0, true, c.2)) prepared)
      e

core-alert_off :
    (s s' : Sleep)
    → alert_off s ≡ returned s'
    → core s' ≡ (give_sem s.wakeup_sem, false, s.hps_config.enable)
unfolding alert_off
core-alert_off s s' e =
    let prepared = core-call s.hps_config.callbacks.off_prepare s in
    let s2 = awake (call s.hps_config.callbacks.off_prepare s) in
    ap core (sym (returned_else (not s.driver.has_handle) _ s' e))
    ∙ core-call s2.hps_config.callbacks.off_ready s2
    ∙ ap (λ c. (give_sem c.0, false, c.2)) prepared

Agrees-take_sem :
    (sem : Option Bool) (on enable : Bool)
    → enable ≡ true
    → Agrees sem on enable
    → Agrees (take_sem sem) true enable
Agrees-take_sem none on enable e (a, b) = absurd (ground arith)
Agrees-take_sem (some token) on enable e a = refl

Agrees-give_sem :
    (sem : Option Bool) (on enable : Bool)
    → enable ≡ true
    → Agrees sem on enable
    → Agrees (give_sem sem) false enable
Agrees-give_sem none on enable e (a, b) = absurd (ground arith)
Agrees-give_sem (some token) on enable e a = refl

Agrees-create_sem :
    (sem : Option Bool) (on enable enable' : Bool)
    → Agrees sem on enable
    → Agrees (create_sem sem) on enable'
Agrees-create_sem none on enable enable' (a, b) = rw a refl
Agrees-create_sem (some token) on enable enable' a = a

disabled-Agrees :
    (sem : Option Bool) (on enable : Bool) → Agrees sem on enable → Agrees sem on false
disabled-Agrees none on enable (a, b) = (a, refl)
disabled-Agrees (some token) on enable a = a

-- an event while the module is on
alert_enabled :
    (down : Driver → Driver) (evt : PsEvent) (s s' : Sleep)
    → s.hps_config.enable ≡ true
    → IsSynced s
    → elim evt [
      | esp_power_save_on ↦ alert_on down s
      | esp_power_save_off ↦ alert_off s
      | esp_open_data_path ↦ alert_off s
      | other_event ↦ returned s
    ]
      ≡ returned s'
    → IsSynced s'
alert_enabled down esp_power_save_on s s' y synced e =
    subst CoreSynced (sym (core-alert_on down s s' e))
      (Agrees-take_sem s.wakeup_sem s.power_save_on _ y synced)
alert_enabled down esp_power_save_off s s' y synced e =
    subst CoreSynced (sym (core-alert_off s s' e))
      (Agrees-give_sem s.wakeup_sem s.power_save_on _ y synced)
alert_enabled down esp_open_data_path s s' y synced e =
    subst CoreSynced (sym (core-alert_off s s' e))
      (Agrees-give_sem s.wakeup_sem s.power_save_on _ y synced)
alert_enabled down other_event s s' y synced e = subst IsSynced (returned_injective s s' e) synced

alert-IsSynced :
    (down : Driver → Driver) (evt : PsEvent) (s s' : Sleep)
    → IsSynced s
    → host_power_save_alert down evt s ≡ returned s'
    → IsSynced s'
unfolding host_power_save_alert
alert-IsSynced down evt s s' synced e = elim (unless_enabled s.hps_config.enable s s' _ e) [
  | inl (n, same) ↦ subst IsSynced same synced
  | inr (y, e') ↦ alert_enabled down evt s s' y synced e'
]

chosen-IsSynced :
    (default c : Config) (ret : ℕ) (s s' : Sleep)
    → IsSynced s
    → host_power_save_init default esp_ok (some c) s ≡ returned (ret, s')
    → IsSynced s'
unfolding host_power_save_init
chosen-IsSynced default c ret s s' synced e = elim (unless_enabled c.enable _ (ret, s') _ e) [
  | inl (off, same) ↦ subst IsSynced (ap (λ p. p.1) same) (
      subst (Agrees s.wakeup_sem s.power_save_on) (sym off)
        (disabled-Agrees s.wakeup_sem s.power_save_on _ synced))
  | inr (on, e') ↦
      subst IsSynced (ap (λ p. p.1) (with_pin c.host_wakeup_gpio _ _ e'))
        (Agrees-create_sem s.wakeup_sem s.power_save_on _ c.enable synced)
]

init-IsSynced :
    (default : Config) (config : Option Config) (ret : ℕ) (s s' : Sleep)
    → IsSynced s
    → host_power_save_init default esp_ok config s ≡ returned (ret, s')
    → IsSynced s'
unfolding host_power_save_init
init-IsSynced default none ret s s' synced e = chosen-IsSynced default default ret s s' synced e
init-IsSynced default (some c) ret s s' synced e = chosen-IsSynced default c ret s s' synced e

set_callbacks-IsSynced :
    (cs : Option Callbacks) (s : Sleep)
    → IsSynced s
    → IsSynced (host_power_save_set_callbacks cs s).1
unfolding host_power_save_set_callbacks
set_callbacks-IsSynced none s synced = synced
set_callbacks-IsSynced (some cs) s synced = synced

-- Whatever sequence of initialisations with a working GPIO, changes of the callbacks and alerts has been
-- made, without a deinitialisation: the token is there exactly while the host is awake.
pub Reach-IsSynced :
    (default : Config) (down : Driver → Driver) (start s : Sleep)
    → IsSynced start
    → Reach default down start s
    → IsSynced s
Reach-IsSynced default down start s synced here = synced
Reach-IsSynced default down start s synced (then_step s1 s2 r (step_init config ret s3 s4 e)) =
    init-IsSynced default config ret _ _ (Reach-IsSynced default down start _ synced r) e
Reach-IsSynced default down start s synced (then_step s1 s2 r (step_set_callbacks cs s3)) =
    set_callbacks-IsSynced cs _ (Reach-IsSynced default down start _ synced r)
Reach-IsSynced default down start s synced (then_step s1 s2 r (step_alert evt s3 s4 e)) =
    alert-IsSynced down evt _ _ (Reach-IsSynced default down start _ synced r) e
