-- ===== src/Transport/Throttle/Runs.antt =====
-- Throttling over a run of a driver (slave/main/sdio_slave_api.c, spi_slave_api.c).
use esp_hosted_open.Prelude.{
  ℕ, zero, suc, ◌≤◌, ◌≡◌, refl, ap, ◌∙◌, Option, none, some, List, [], ◌∷◌, ◌++◌, arith,
}
use esp_hosted_open.Transport.Throttle.{
  Throttle, HostInt, start_throttle, stop_throttle, start_rx_data_throttling_if_needed,
  stop_rx_data_throttling_if_needed,
}

-- a packet that is queued, or one that is read, with so many packets waiting
pub data Move : Type 0 where
  queued : ℕ → Move
  taken : ℕ → Move

unfoldable pub move : ℕ → Move → Throttle → Throttle × List HostInt
move size (queued n) t = start_rx_data_throttling_if_needed size n t
move size (taken n) t = stop_rx_data_throttling_if_needed size n t

unfoldable pub run : ℕ → List Move → Throttle → Throttle × List HostInt
unfolding move
run size [] t = (t, [])
run size (m ∷ ms) t =
    let (t1, ints) = move size m t in let (t2, more) = run size ms t1 in (t2, ints ++ more)

-- What the host makes of the interrupts: `none` where it is told to start what it has started, or
-- to stop what it has not.
abbrev pub heed : ℕ → List HostInt → Option ℕ
heed n [] = some n
heed zero (start_throttle ∷ is) = heed 1 is
heed zero (stop_throttle ∷ is) = none
heed (suc n) (start_throttle ∷ is) = none
heed (suc n) (stop_throttle ∷ is) = heed 0 is

and_heed : Option ℕ → List HostInt → Option ℕ
and_heed none is = none
and_heed (some n) is = heed n is

heed-append : (n : ℕ) (is js : List HostInt) → heed n (is ++ js) ≡ and_heed (heed n is) js
unfolding and_heed
heed-append n [] js = refl
heed-append zero (start_throttle ∷ is) js = heed-append 1 is js
heed-append zero (stop_throttle ∷ is) js = refl
heed-append (suc n) (start_throttle ∷ is) js = refl
heed-append (suc n) (stop_throttle ∷ is) js = heed-append 0 is js

heed-move :
    (size : ℕ) (m : Move) (t : Throttle)
    → t.current ≤ 1
    → heed t.current (move size m t).1 ≡ some (move size m t).0.current
unfolding move start_rx_data_throttling_if_needed stop_rx_data_throttling_if_needed
heed-move size (queued n) t c = ground arith
heed-move size (taken n) t c = ground arith

move-current : (size : ℕ) (m : Move) (t : Throttle) → t.current ≤ 1 → (move size m t).0.current ≤ 1
unfolding move start_rx_data_throttling_if_needed stop_rx_data_throttling_if_needed
move-current size (queued n) t c = ground arith
move-current size (taken n) t c = ground arith

-- From a throttling state that is 0 or 1, the interrupts of any run, with any numbers of waiting
-- packets, start and stop in turn, and leave the host in the state that the driver ends in.
pub heed-run :
    (size : ℕ) (ms : List Move) (t : Throttle)
    → t.current ≤ 1
    → heed t.current (run size ms t).1 ≡ some (run size ms t).0.current
unfolding run and_heed
heed-run size [] t c = refl
heed-run size (m ∷ ms) t c =
    heed-append t.current (move size m t).1 (run size ms (move size m t).0).1
    ∙ (ap (λ (o : Option ℕ). and_heed o (run size ms (move size m t).0).1) (heed-move size m t c)
        ∙ heed-run size ms (move size m t).0 (move-current size m t c))
