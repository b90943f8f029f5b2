-- ===== src/Sleep/Wakeup/Ends.antt =====
-- The loop that wakes the host up ends, and when (slave/main/host_power_save.c).
use esp_hosted_open.Prelude.{
  ℕ, suc, ◌+◌, ◌-◌, ◌*◌, ◌/◌, ◌%◌, ◌^◌, ◌≤◌, ◌<◌, ◌≡◌, ◌≢◌, refl, ◌∙◌, Bool, true, false, ◌&&◌, not,
  Option, none, some, List, [], ◌∷◌, arith, ltb, ◌==◌, Bool-cases, inl, inr, lt→ltb, le→ltb_false,
  ◌++◌, length,
}
use esp_hosted_open.Status.{esp_ok}
use esp_hosted_open.Sleep.Wakeup.{
  Round, get_curr_time_in_ms, Triggered, one_more, trigger_host_wakeup,
}

-- Some round ends 100 * (timeout + 1) microseconds or more after the start.
pub data HasLate (timeout_ms start_us : ℕ) : List Round → Type 0 where
  late_here :
      (r : Round) (rs : List Round)
      → start_us + 100 * (timeout_ms + 1) ≤ r.time_us
      → r.time_us < 2 ^ 64
      → HasLate timeout_ms start_us (r ∷ rs)
  late_there :
      (r : Round) (rs : List Round)
      → HasLate timeout_ms start_us rs
      → HasLate timeout_ms start_us (r ∷ rs)

one_more-some : (o : Option Triggered) → o ≢ none → one_more o ≢ none
one_more-some none n e = n refl
one_more-some (some t) n e = absurd (ground arith)

-- The loop ends, at the latest with the first round that is over 100 * (timeout_ms + 1) microseconds
-- after the start: a tenth of a millisecond for each millisecond of timeout_ms.
pub trigger_host_wakeup_ends :
    (has_sem : Bool) (timeout_ms start_us : ℕ) (timer : Bool) (rs : List Round)
    → HasLate timeout_ms start_us rs
    → trigger_host_wakeup has_sem timeout_ms (get_curr_time_in_ms start_us) timer rs ≢ none
unfolding trigger_host_wakeup
trigger_host_wakeup_ends has_sem timeout_ms start_us timer rs (late_here r rs' late small) e =
    let passed : ltb timeout_ms
          ((get_curr_time_in_ms r.time_us + 2 ^ 64 - get_curr_time_in_ms start_us) % 2 ^ 64)
        ≡ true =
      lt→ltb _ _ (omega arith) in
    absurd (ground arith)
trigger_host_wakeup_ends has_sem timeout_ms start_us timer rs (late_there r rs' late) e =
    let rest =
      one_more-some _ (trigger_host_wakeup_ends has_sem timeout_ms start_us true rs' late) in
    absurd (ground arith)

-- A round in which the timer works, the token does not come and the time is not up.
abbrev pub IsQuiet : Bool → ℕ → ℕ → Round → Type 0
IsQuiet has_sem timeout_ms start_us r =
    (r.created ≡ esp_ok)
    × (r.started ≡ esp_ok)
    × ((has_sem && r.token) ≡ false)
    × (start_us ≤ r.time_us)
    × (r.time_us < 2 ^ 64)
    × (r.time_us / 100 ≤ start_us / 100 + timeout_ms)

abbrev pub AreQuiet : Bool → ℕ → ℕ → List Round → Type 0
AreQuiet has_sem timeout_ms start_us [] = Unit
AreQuiet has_sem timeout_ms start_us (r ∷ rs) =
    IsQuiet has_sem timeout_ms start_us r × AreQuiet has_sem timeout_ms start_us rs

quiet_round :
    (has_sem : Bool) (timeout_ms start_us : ℕ) (timer : Bool) (r : Round) (rs : List Round)
    → IsQuiet has_sem timeout_ms start_us r
    → trigger_host_wakeup has_sem timeout_ms (get_curr_time_in_ms start_us) timer (r ∷ rs)
      ≡ one_more (trigger_host_wakeup has_sem timeout_ms (get_curr_time_in_ms start_us) true rs)
unfolding trigger_host_wakeup
quiet_round has_sem timeout_ms start_us timer r rs (created, started, token, after, small, early) =
    let in_time : ltb timeout_ms
          ((get_curr_time_in_ms r.time_us + 2 ^ 64 - get_curr_time_in_ms start_us) % 2 ^ 64)
        ≡ false =
      le→ltb_false _ _ (omega arith) in
    let runs : (r.started == esp_ok) ≡ true = rw started refl in
    let made : (not timer && not (r.created == esp_ok)) ≡ false = ground arith in
    rw (made, runs, token, in_time) refl

answered_round :
    (timeout_ms start_us : ℕ) (timer : Bool) (r : Round) (rs : List Round)
    → r.created ≡ esp_ok
    → r.started ≡ esp_ok
    → r.token ≡ true
    → trigger_host_wakeup true timeout_ms (get_curr_time_in_ms start_us) timer (r ∷ rs)
      ≡ some (record { wakeup_success = true; rounds = 1; timer_live = true })
unfolding trigger_host_wakeup
answered_round timeout_ms start_us timer r rs created started token =
    let runs : (r.started == esp_ok) ≡ true = rw started refl in
    let made : (not timer && not (r.created == esp_ok)) ≡ false = ground arith in
    rw (made, runs, token) refl

-- Where the timer works and no round before is late, the loop ends with success in the round in which
-- the token comes, with its timer left to be cleaned up.
pub trigger_host_wakeup_answered :
    (timeout_ms start_us : ℕ) (timer : Bool) (quiet : List Round) (r : Round) (rs : List Round)
    → AreQuiet true timeout_ms start_us quiet
    → r.created ≡ esp_ok
    → r.started ≡ esp_ok
    → r.token ≡ true
    → trigger_host_wakeup true timeout_ms (get_curr_time_in_ms start_us) timer (quiet ++ (r ∷ rs))
      ≡ some (record { wakeup_success = true; rounds = suc (length quiet); timer_live = true })
trigger_host_wakeup_answered timeout_ms start_us timer [] r rs q created started token =
    answered_round timeout_ms start_us timer r rs created started token
trigger_host_wakeup_answered timeout_ms start_us timer (q ∷ qs) r rs (first, more) created started
      token =
    quiet_round true timeout_ms start_us timer q (qs ++ (r ∷ rs)) first
    ∙ rw (trigger_host_wakeup_answered timeout_ms start_us true qs r rs more created started token)
        refl

-- Success is reported only where some round got the token of a semaphore that is there.
pub data HasToken : List Round → Type 0 where
  token_here : (r : Round) (rs : List Round) → r.token ≡ true → HasToken (r ∷ rs)
  token_there : (r : Round) (rs : List Round) → HasToken rs → HasToken (r ∷ rs)

abbrev pub succeeded : Option Triggered → Bool
succeeded none = false
succeeded (some t) = t.wakeup_success

succeeded-one_more : (o : Option Triggered) → succeeded (one_more o) ≡ succeeded o
succeeded-one_more none = refl
succeeded-one_more (some t) = refl

pub trigger_host_wakeup-HasToken :
    (has_sem : Bool) (timeout_ms start : ℕ) (timer : Bool) (rs : List Round)
    → succeeded (trigger_host_wakeup has_sem timeout_ms start timer rs) ≡ true
    → (has_sem ≡ true) × HasToken rs
unfolding trigger_host_wakeup
trigger_host_wakeup-HasToken has_sem timeout_ms start timer [] e = absurd (ground arith)
trigger_host_wakeup-HasToken has_sem timeout_ms start timer (r ∷ rs) e =
    elim (Bool-cases (has_sem && r.token)) [
      | inl y ↦ (ground arith, token_here r rs (ground arith))
      | inr n ↦
          let rest = succeeded-one_more (trigger_host_wakeup has_sem timeout_ms start true rs) in
          let later : succeeded (trigger_host_wakeup has_sem timeout_ms start true rs) ≡ true =
            ground arith in
          let (sem, token) = trigger_host_wakeup-HasToken has_sem timeout_ms start true rs later in
          (sem, token_there r rs token)
    ]
