-- ===== src/Host/Init/Bindings.antt =====
-- What is bound after esp_hosted_open_init, and what stays bound after esp_hosted_open_deinit.
use mathlib.Core.Path.{subst}
use esp_hosted_open.Prelude.{
  ℕ, ==_iff, ◌≡◌, ◌≢◌, refl, ap, sym, ◌∙◌, Bool, true, false, not, Option, none, some, List, [],
  ◌∷◌, ◌++◌, arith, ◌==◌, ◌&&◌, if◌then◌else◌, Bool-cases, inl, inr,
}
use esp_hosted_open.Status.{esp_ok, esp_err_invalid_state}
use esp_hosted_open.Proto.Ids
use esp_hosted_open.Proto.Ids.{Call, Evt, resp_id, evt_id}
use esp_hosted_open.Host.Inflight.{Host}
use esp_hosted_open.Host.Init.{
  HostCallback, on_response, on_event, HostRegistry, response_bindings, event_bindings, removals,
  Ended, returned, aborted, register_until, register_each, register_events, register_bindings,
  with_mutex, init, deinit,
}

-- The last binding of an id in a list, `d` if there is none.
abbrev pub last_binding :
    ℕ → List (ℕ × Option HostCallback) → Option HostCallback → Option HostCallback
last_binding j [] d = d
last_binding j ((id, cb) ∷ bs) d = last_binding j bs (if id == j then cb else d)

last_binding-append :
    (j : ℕ) (hs bs : List (ℕ × Option HostCallback)) (d : Option HostCallback)
    → last_binding j (hs ++ bs) d ≡ last_binding j bs (last_binding j hs d)
last_binding-append j [] bs d = refl
last_binding-append j ((id, cb) ∷ hs) bs d = last_binding-append j hs bs (if id == j then cb else d)

not_aborted : aborted ≢ returned esp_ok
not_aborted e = cc

-- no binding of the list is for the id
abbrev AllMissed : ℕ → List (ℕ × Option HostCallback) → Type 0
AllMissed j [] = Unit
AllMissed j ((id, cb) ∷ bs) = (id ≢ j) × AllMissed j bs

-- the requests of phy_rpc_extras.c and phy_rpc_wireless.c
abbrev pub is_left_call : Call → Bool
is_left_call Ids.tx_80211 = true
is_left_call Ids.set_promisc = true
is_left_call Ids.set_promisc_filter = true
is_left_call Ids.set_protocol = true
is_left_call Ids.set_mac = true
is_left_call Ids.set_csi_enable = true
is_left_call Ids.ftm_initiate = true
is_left_call Ids.set_event_mask = true
is_left_call Ids.espnow_init = true
is_left_call Ids.espnow_deinit = true
is_left_call Ids.espnow_set_pmk = true
is_left_call Ids.espnow_add_peer = true
is_left_call Ids.espnow_del_peer = true
is_left_call Ids.espnow_send = true
is_left_call Ids.ieee154_enable = true
is_left_call Ids.ieee154_set_chan = true
is_left_call Ids.ieee154_set_panid = true
is_left_call Ids.ieee154_set_promisc = true
is_left_call Ids.ieee154_tx_raw = true
is_left_call _ = false

abbrev pub is_left_event : Evt → Bool
is_left_event Ids.ocb_frame = false
is_left_event Ids.phy_state = false
is_left_event _ = true

abbrev missed : ℕ → List (ℕ × Option HostCallback) → Bool
missed j [] = true
missed j ((id, cb) ∷ bs) = not (id == j) && missed j bs

missed-AllMissed :
    (j : ℕ) (bs : List (ℕ × Option HostCallback)) → missed j bs ≡ true → AllMissed j bs
missed-AllMissed j [] e = tt
missed-AllMissed j ((id, cb) ∷ bs) e = (ground arith, missed-AllMissed j bs (ground arith))

left_call :
    (c : Call) (d : Option HostCallback)
    → is_left_call c ≡ true
    → (missed (resp_id c) removals ≡ true)
      × (last_binding (resp_id c) (response_bindings ++ event_bindings) d ≡ some on_response)
unfolding resp_id evt_id
left_call Ids.tx_80211 d l = (refl, refl)
left_call Ids.set_promisc d l = (refl, refl)
left_call Ids.set_promisc_filter d l = (refl, refl)
left_call Ids.set_protocol d l = (refl, refl)
left_call Ids.set_mac d l = (refl, refl)
left_call Ids.set_csi_enable d l = (refl, refl)
left_call Ids.ftm_initiate d l = (refl, refl)
left_call Ids.espnow_init d l = (refl, refl)
left_call Ids.espnow_deinit d l = (refl, refl)
left_call Ids.espnow_add_peer d l = (refl, refl)
left_call Ids.espnow_del_peer d l = (refl, refl)
left_call Ids.espnow_send d l = (refl, refl)
left_call Ids.espnow_set_pmk d l = (refl, refl)
left_call Ids.ieee154_enable d l = (refl, refl)
left_call Ids.ieee154_set_chan d l = (refl, refl)
left_call Ids.ieee154_set_panid d l = (refl, refl)
left_call Ids.ieee154_set_promisc d l = (refl, refl)
left_call Ids.ieee154_tx_raw d l = (refl, refl)
left_call Ids.set_event_mask d l = (refl, refl)
left_call _ d l = absurd (cc l)

left_event :
    (v : Evt) (d : Option HostCallback)
    → is_left_event v ≡ true
    → (missed (evt_id v) removals ≡ true)
      × (last_binding (evt_id v) (response_bindings ++ event_bindings) d ≡ some (on_event v))
unfolding resp_id evt_id
left_event Ids.raw_frame d l = (refl, refl)
left_event Ids.csi d l = (refl, refl)
left_event Ids.ftm_report d l = (refl, refl)
left_event Ids.espnow_rx d l = (refl, refl)
left_event Ids.espnow_tx_status d l = (refl, refl)
left_event Ids.ieee154_rx d l = (refl, refl)
left_event _ d l = absurd (cc l)

module _ {R : Type 0} (reg : HostRegistry R) where
  lookup-register_until :
      (bs : List (ℕ × Option HostCallback)) (r : R) (j : ℕ)
      → (register_until reg bs r).0 ≡ esp_ok
      → reg.lookup j (register_until reg bs r).1 ≡ last_binding j bs (reg.lookup j r)
  unfolding register_until
  lookup-register_until [] r j e = refl
  lookup-register_until ((id, cb) ∷ bs) r j e =
      elim (Bool-cases ((reg.register id cb r).0 == esp_ok)) [
        | inl y ↦ ground (
          arith,
          reg.lookup-register id j cb r,
          lookup-register_until bs (reg.register id cb r).1 j,
        )
        | inr n ↦ absurd (ground arith)
      ]

  lookup-events :
      (r : R) (j : ℕ)
      → (register_events reg r).0 ≡ returned esp_ok
      → reg.lookup j (register_events reg r).1 ≡ last_binding j event_bindings (reg.lookup j r)
  unfolding register_events
  lookup-events r j e = elim (Bool-cases ((register_until reg event_bindings r).0 == esp_ok)) [
    | inl y ↦
        lookup-register_until event_bindings r j
          ((==_iff (register_until reg event_bindings r).0 esp_ok).0 y)
    | inr n ↦
        absurd (
          not_aborted (subst (λ b. (if b then returned esp_ok else aborted) ≡ returned esp_ok) n e))
  ]

  lookup-bindings :
      (r : R) (j : ℕ)
      → (register_bindings reg r).0 ≡ returned esp_ok
      → reg.lookup j (register_bindings reg r).1
        ≡ last_binding j event_bindings (last_binding j response_bindings (reg.lookup j r))
  unfolding register_bindings
  lookup-bindings r j e = elim (Bool-cases ((register_until reg response_bindings r).0 == esp_ok)) [
    | inl y ↦ rw y (
        lookup-events (register_until reg response_bindings r).1 j (
          subst
            (λ b.
              (if b then register_events reg (register_until reg response_bindings r).1 else (
                returned (register_until reg response_bindings r).0,
                (register_until reg response_bindings r).1,
              )).0
              ≡ returned esp_ok)
            y e)
        ∙ ap (last_binding j event_bindings) (
            lookup-register_until response_bindings r j
              ((==_iff (register_until reg response_bindings r).0 esp_ok).0 y)))
    | inr n ↦ absurd (ground arith)
  ]

  -- a successful esp_hosted_open_init, on every id
  pub init_bindings :
      (created : Bool) (h : Host) (r : R) (j : ℕ)
      → (init reg created (h, r)).0 ≡ returned esp_ok
      → (h.ready ≡ false)
        × ((init reg created (h, r)).1.0 ≡ with_mutex reg h)
        × (reg.lookup j (init reg created (h, r)).1.1
            ≡ last_binding j (response_bindings ++ event_bindings) (reg.lookup j r))
  unfolding init register_bindings register_events
  init_bindings created h r j e = elim (Bool-cases h.ready) [
    | inl y ↦ absurd (ground arith)
    | inr n ↦ elim (Bool-cases created) [
      | inr m ↦ absurd (ground arith)
      | inl c ↦ (
        n,
        rw (n, c) refl,
        rw (n, c, last_binding-append j response_bindings event_bindings (reg.lookup j r))
            (lookup-bindings r j (ended c n)),
      )
    ]
  ]
    where
      start :
          created ≡ true
          → h.ready ≡ false
          → (init reg created (h, r)).0 ≡ (register_bindings reg r).0
      start c n = rw (n, c) refl

      ended : created ≡ true → h.ready ≡ false → (register_bindings reg r).0 ≡ returned esp_ok
      ended c n = sym (start c n) ∙ e

  lookup-register_each :
      (bs : List (ℕ × Option HostCallback)) (r : R) (j : ℕ)
      → AllMissed j bs
      → reg.lookup j (register_each reg bs r) ≡ reg.lookup j r
  unfolding register_each
  lookup-register_each [] r j a = refl
  lookup-register_each ((id, cb) ∷ bs) r j a =
      lookup-register_each bs (reg.register id cb r).1 j a.1
      ∙ reg.lookup-register id j cb r
      ∙ ground (arith, a.0)

  -- Once esp_hosted_open_init has returned ESP_OK, esp_hosted_open_deinit takes the layer down, yet
  -- leaves on_response bound to the responses of every phy_rpc_extras, ESP-NOW and 802.15.4 request,
  -- and the event functions other than that of OCB_FRAME bound to their events.
  pub deinit_leaves :
      (created : Bool) (h : Host) (r : R)
      → (init reg created (h, r)).0 ≡ returned esp_ok
      → ((deinit reg (init reg created (h, r)).1).1.0.ready ≡ false)
        × ((c : Call)
            → is_left_call c ≡ true
            → reg.lookup (resp_id c) (deinit reg (init reg created (h, r)).1).1.1
              ≡ some on_response)
        × ((v : Evt)
            → is_left_event v ≡ true
            → reg.lookup (evt_id v) (deinit reg (init reg created (h, r)).1).1.1
              ≡ some (on_event v))
  unfolding deinit
  deinit_leaves created h r e = (
    refl,
    λ c l.
        lookup-register_each removals (init reg created (h, r)).1.1 (resp_id c)
          (missed-AllMissed (resp_id c) removals (left_call c none l).0)
        ∙ (init_bindings created h r (resp_id c) e).2
        ∙ (left_call c (reg.lookup (resp_id c) r) l).1,
    λ v l.
        lookup-register_each removals (init reg created (h, r)).1.1 (evt_id v)
          (missed-AllMissed (evt_id v) removals (left_event v none l).0)
        ∙ (init_bindings created h r (evt_id v) e).2
        ∙ (left_event v (reg.lookup (evt_id v) r) l).1,
  )

  init_up :
      (again : Bool) (h : Host) (r : R)
      → h.ready ≡ true
      → init reg again (h, r) ≡ (returned esp_err_invalid_state, (h, r))
  unfolding init
  init_up again h r y = rw y refl

  ready_after : (h : Host) (r : R) → (init reg true (h, r)).1.0.ready ≡ true
  unfolding init
  ready_after h r = ready_if h.ready refl
    where
      ready_if : (b : Bool) → h.ready ≡ b → (init reg true (h, r)).1.0.ready ≡ true
      ready_if true y = ap (λ (p : Ended × (Host × R)). p.1.0.ready) (init_up true h r y) ∙ y
      ready_if false n = rw n refl

  -- Once esp_hosted_open_init has got its mutex, whatever it then returned, a second call returns
  -- ESP_ERR_INVALID_STATE and changes nothing: a failed registration is final until
  -- esp_hosted_open_deinit.
  pub init_again :
      (again : Bool) (h : Host) (r : R)
      → init reg again (init reg true (h, r)).1
        ≡ (returned esp_err_invalid_state, (init reg true (h, r)).1)
  init_again again h r =
      init_up again (init reg true (h, r)).1.0 (init reg true (h, r)).1.1 (ready_after h r)
