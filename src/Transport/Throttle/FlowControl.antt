-- ===== src/Transport/Throttle/FlowControl.antt =====
-- Flow control by packets (slave/main/spi_hd_slave_api.c): the driver sets wifi_flow_ctrl and gives a
-- binary semaphore, and flow_ctrl_task takes it and sends what it reads then.
use esp_hosted_open.Prelude.{
  ℕ, suc, ◌-◌, ◌≤◌, ◌<◌, ◌≡◌, refl, ◌⊎◌, inl, inr, Bool, true, false, not, List, [], ◌∷◌, ◌++◌,
  arith, ltb, ◌==◌, if◌then◌else◌,
}
use esp_hosted_open.Transport.Throttle.{Throttle, load_percent}

-- H_FLOW_CTRL_ON is 1 and H_FLOW_CTRL_OFF is 2. setting counts the calls, of the receive task and of
-- readers, that are between their assignments and xSemaphoreGive; woken holds while the task is
-- between xSemaphoreTake and its read.
pub record Flow : Type 0 where
  pub throttle : Throttle
  pub wifi_flow_ctrl : ℕ
  pub sem : Bool
  pub setting : ℕ
  pub woken : Bool
  pub sent : List ℕ

-- current_throttling and wifi_flow_ctrl are set, and the semaphore is still to be given
abbrev set_flow : ℕ → Flow → Flow
set_flow n f = record f {
  throttle = record f.throttle { current = n };
  wifi_flow_ctrl = n;
  setting = suc f.setting;
}

unfoldable pub start_flow : ℕ → ℕ → Flow → Flow
start_flow size waiting f =
    if ltb 0 f.throttle.high
    then if not (f.throttle.current == 0)
      then f
      else if ltb f.throttle.high (load_percent size waiting)
      then set_flow 1 f
      else f
    else f

unfoldable pub stop_flow : ℕ → ℕ → Flow → Flow
stop_flow size waiting f =
    if not (f.throttle.current == 0)
    then if ltb (load_percent size waiting) f.throttle.low then set_flow 0 f else f
    else f

-- xSemaphoreGive of TRIGGER_FLOW_CTRL, with the task's semaphore created
unfoldable pub trigger : Flow → Flow
trigger f = record f { sem = true; setting = f.setting - 1 }

-- the packet that flow_ctrl_task hands to send_to_host_queue
unfoldable pub flow_ctrl_packet : ℕ → ℕ
flow_ctrl_packet n = if n == 0 then 2 else 1

unfoldable pub flow_ctrl_send : Flow → Flow
flow_ctrl_send f = record f {
  woken = false;
  sent = f.sent ++ flow_ctrl_packet f.wifi_flow_ctrl ∷ [];
}

pub data FlowStep (size : ℕ) (f : Flow) : Flow → Type 0 where
  start : (n : ℕ) → FlowStep size f (start_flow size n f)
  stop : (n : ℕ) → FlowStep size f (stop_flow size n f)
  give : 0 < f.setting → FlowStep size f (trigger f)
  wake : f.sem ≡ true → f.woken ≡ false → FlowStep size f (record f { sem = false; woken = true })
  send : f.woken ≡ true → FlowStep size f (flow_ctrl_send f)

pub data FlowReach (size : ℕ) (f : Flow) : Flow → Type 0 where
  here : FlowReach size f f
  next : {g h : Flow} → FlowReach size f g → FlowStep size g h → FlowReach size f h

-- the last packet, and off before there is one
abbrev pub last_sent : List ℕ → ℕ
last_sent [] = 2
last_sent (n ∷ []) = n
last_sent (n ∷ m ∷ ns) = last_sent (m ∷ ns)

last_sent-append : (ns : List ℕ) (n : ℕ) → last_sent (ns ++ n ∷ []) ≡ n
last_sent-append [] n = refl
last_sent-append (m ∷ []) n = refl
last_sent-append (m ∷ k ∷ ns) n = last_sent-append (k ∷ ns) n

pub record IsInStep (f : Flow) : Type 0 where
  pub agrees : f.wifi_flow_ctrl ≡ f.throttle.current
  pub binary : f.throttle.current ≤ 1
  pub settled :
      (f.sem ≡ true)
      ⊎ ((0 < f.setting)
          ⊎ ((f.woken ≡ true) ⊎ (last_sent f.sent ≡ flow_ctrl_packet f.wifi_flow_ctrl)))

FlowStep-IsInStep : {size : ℕ} {f g : Flow} → FlowStep size f g → IsInStep f → IsInStep g
unfolding start_flow stop_flow trigger flow_ctrl_send
FlowStep-IsInStep {size} {f} (start n) h = ground arith
FlowStep-IsInStep {size} {f} (stop n) h = ground arith
FlowStep-IsInStep {size} {f} (give s) h = record {
  agrees = h.agrees;
  binary = h.binary;
  settled = inl refl;
}
FlowStep-IsInStep {size} {f} (wake s w) h = record {
  agrees = h.agrees;
  binary = h.binary;
  settled = inr (inr (inl refl));
}
FlowStep-IsInStep {size} {f} (send w) h = record {
  agrees = h.agrees;
  binary = h.binary;
  settled = inr (inr (inr (last_sent-append f.sent (flow_ctrl_packet f.wifi_flow_ctrl))));
}

FlowReach-IsInStep : {size : ℕ} {f g : Flow} → IsInStep f → FlowReach size f g → IsInStep g
FlowReach-IsInStep h here = h
FlowReach-IsInStep h (next r st) = FlowStep-IsInStep st (FlowReach-IsInStep h r)

-- no throttling, and nothing sent
abbrev pub flow_start : Throttle → Flow
flow_start t = record {
  throttle = record t { current = 0 };
  wifi_flow_ctrl = 0;
  sem = false;
  setting = 0;
  woken = false;
  sent = [];
}

flow_start-IsInStep : (t : Throttle) → IsInStep (flow_start t)
unfolding flow_ctrl_packet
flow_start-IsInStep t = record {
  agrees = refl;
  binary = omega arith;
  settled = inr (inr (inr refl));
}

-- However receive task, readers and flow_ctrl_task interleave from a start without throttling, with
-- the two assignments of a call as one step: whenever no call is before its xSemaphoreGive, the
-- semaphore is not given and the task is not awake, the last packet that was sent, or off if none
-- was, says what the driver's throttling state is.
pub FlowReach-last_sent :
    (size : ℕ) (t : Throttle) {f : Flow}
    → FlowReach size (flow_start t) f
    → f.sem ≡ false
    → f.setting ≡ 0
    → f.woken ≡ false
    → last_sent f.sent ≡ flow_ctrl_packet f.throttle.current
unfolding flow_ctrl_packet
FlowReach-last_sent size t {f} reached a b c =
    let h = FlowReach-IsInStep (flow_start-IsInStep t) reached in
    ground (arith, h.settled, h.agrees)
