-- ===== src/Slave/Handle/Table.antt =====
-- Which handlers of the overlay the co-processor's callback table takes: the loops of
-- phy_rpc_handlers_register, phy_rpc_extras_register and phy_rpc_wireless_register against
-- CONFIG_ESP_HOSTED_MAX_CUSTOM_MSG_HANDLERS entries.
use esp_hosted_open.Prelude.{
  ℕ, zero, suc, ◌≡◌, ◌≢◌, refl, ap, ◌∙◌, Bool, true, ◌&&◌, not, none, some, List, [], ◌∷◌, ◌++◌,
  arith, ◌==◌, take, replicate,
}
use esp_hosted_open.Proto.Ids.{Call, req_id}
use esp_hosted_open.Registry.{
  Registry, no_id, empty_entry, fresh, register_all, register_custom_callback, find_callback,
}
use esp_hosted_open.Registry.Laws.{Absent}
use esp_hosted_open.Registry.Capacity.{
  outcomes, room, NotIn, AllNew, assoc_or, register_all_statuses, register_all_lookup,
}
use esp_hosted_open.Slave.{Chip, Handler}
use esp_hosted_open.Slave.Handle.{
  handlers_calls, extras_calls, wireless_calls, table_of, handlers_register, extras_register,
  wireless_register, register_overlay,
}

abbrev not_in : ℕ → List ℕ → Bool
not_in j [] = true
not_in j (i ∷ is) = not (j == i) && not_in j is

abbrev distinct : List ℕ → Bool
distinct [] = true
distinct (i ∷ is) = not (i == no_id) && (not_in i is && distinct is)

-- the handlers in the order of their registration
abbrev pub all_calls : List Call
all_calls = handlers_calls ++ (extras_calls ++ wireless_calls)

Absent-fresh : (H : Type 0) (id n : ℕ) → id ≢ no_id → Absent id (replicate n (empty_entry {H = H}))
Absent-fresh H id zero ne = tt
Absent-fresh H id (suc n) ne = (ground (arith, ne), Absent-fresh H id n ne)

room-fresh : (H : Type 0) (n : ℕ) → room (replicate n (empty_entry {H = H})) ≡ n
room-fresh H zero = refl
room-fresh H (suc n) = ap suc (room-fresh H n)

find-fresh : (H : Type 0) (j n : ℕ) → find_callback j (replicate n (empty_entry {H = H})) ≡ none
unfolding find_callback
find-fresh H j zero = refl
find-fresh H j (suc n) = find-fresh H j n

module _ {H : Type 0} where
  abbrev ids : List (ℕ × H) → List ℕ
  ids [] = []
  ids ((id, h) ∷ hs) = id ∷ ids hs

  not_in-NotIn : (j : ℕ) (hs : List (ℕ × H)) → not_in j (ids hs) ≡ true → NotIn j hs
  not_in-NotIn j [] e = tt
  not_in-NotIn j ((id, h) ∷ hs) e = (ground arith, not_in-NotIn j hs (ground arith))

  distinct-AllNew :
      (hs : List (ℕ × H)) (n : ℕ) → distinct (ids hs) ≡ true → AllNew hs (replicate n empty_entry)
  distinct-AllNew [] n e = tt
  distinct-AllNew ((id, h) ∷ hs) n e =
      let ne : id ≢ no_id = ground arith in
      (
        ne,
        Absent-fresh H id n ne,
        not_in-NotIn id hs (ground arith),
        distinct-AllNew hs n (ground arith),
      )

  register_all-append :
      (hs ks : List (ℕ × H)) (r : Registry H)
      → register_all (hs ++ ks) r ≡ (
        (register_all hs r).0 ++ (register_all ks (register_all hs r).1).0,
        (register_all ks (register_all hs r).1).1,
      )
  unfolding register_all
  register_all-append [] ks r = refl
  register_all-append ((id, h) ∷ hs) ks r =
      rw (register_all-append hs ks (register_custom_callback true true id (some h) 0 r).1)

module _ (chip : Chip) where
  overlay-AllNew : (n : ℕ) → AllNew (table_of chip all_calls) (replicate n empty_entry)
  unfolding req_id
  overlay-AllNew n = distinct-AllNew (table_of chip all_calls) n refl

  register_overlay-all :
      (r : Registry Handler) → register_overlay chip r ≡ register_all (table_of chip all_calls) r
  unfolding register_overlay handlers_register extras_register wireless_register
  register_overlay-all r = rw (
      register_all-append (table_of chip handlers_calls)
        (table_of chip (extras_calls ++ wireless_calls)) r)

  -- With n entries in the callback table, the co-processor accepts the first n of the overlay's 47
  -- handlers (all, if n is at least 47), in the order of their registration, and refuses the others
  -- with ESP_ERR_NO_MEM; afterwards exactly the accepted ids have a handler, each its own.
  pub register_overlay_lem :
      (n j : ℕ)
      → j ≢ no_id
      → ((register_overlay chip (fresh n)).0 ≡ outcomes n 47)
        × (find_callback j (register_overlay chip (fresh n)).1.entries
            ≡ assoc_or j (take n (table_of chip all_calls)) none)
  register_overlay_lem n j ne =
      let a = overlay-AllNew n in
      (
        ap (λ (p : List ℕ × Registry Handler). p.0) (register_overlay-all (fresh n))
            ∙ register_all_statuses (table_of chip all_calls) (fresh n) a
            ∙ ap (λ k. outcomes k 47) (room-fresh Handler n),
        ap (λ (p : List ℕ × Registry Handler). find_callback j p.1.entries)
              (register_overlay-all (fresh n))
            ∙ register_all_lookup (table_of chip all_calls) (fresh n) j ne a
            ∙ rw (room-fresh Handler n, find-fresh Handler j n),
      )
