-- ===== src/Inventory/Races.antt =====
-- A cancellation that comes twice, and one that comes before the creation it cancels.
use micro_go_lab.Base.{
  ℕ, ◌≡◌, refl, sym, ◌∙◌, ◌⊎◌, inl, inr, none, some, List, [], ◌∷◌, find, update_where, arith,
  find-append_none,
}
use micro_go_lab.Errors.{Result, ok, err}
use micro_go_lab.Event.{OrderCreatedData, OrderCancelledData}
use micro_go_lab.Event.Json.{Object}
use micro_go_lab.Event.Codec.{unmarshal_created, unmarshal_cancelled}
use micro_go_lab.Outbox.{Ambient}
use micro_go_lab.Inventory.{Db, Reservation, reserved, released, Service, IsService, is_active}
use micro_go_lab.Inventory.Keys.{of_order, active_of, set_released}
use micro_go_lab.Inventory.Repository.{release}
use micro_go_lab.Inventory.Effects.{Releases, reservation, release-Releases}
use micro_go_lab.Inventory.Consumer.{
  handle_order_created, handle_order_cancelled, released_or_absent,
}
use micro_go_lab.Inventory.Outcomes.{Outcome, handle_order_created-Outcome}

find-released :
    (i : ℕ) (rs : List Reservation) (res : Reservation)
    → find (of_order i) rs ≡ some res
    → res.status ≡ reserved
    → find (of_order i) (update_where (active_of i) set_released rs) ≡ some (set_released res)
unfolding find update_where is_active
find-released i [] res f act = cc
find-released i (r ∷ rs) res f act = ground (arith, find-released i rs res)

released_again :
    (i n : ℕ) (res : Reservation) (s s' : Db)
    → find (of_order i) s.reservations ≡ some res
    → res.status ≡ released
    → Releases i s (ok (n, s'))
    → (n ≡ 0) × (s' ≡ s)
released_again i n res s s' f st (r, g, inl (z, _, same)) = (z, same)
released_again i n res s s' f st (r, g, inr (_, act, _)) =
    let one : some res ≡ some r = sym f ∙ g in absurd (cc)

-- A reservation is released once: a second Release of the order, over any connection, affects
-- nothing and changes nothing if it returns.
pub release_twice :
    (sc again : Service) (law : IsService sc) (law' : IsService again) (i n : ℕ) (s s' s'' : Db)
    → release sc i s ≡ ok (1, s')
    → release again i s' ≡ ok (n, s'')
    → (n ≡ 0) × (s'' ≡ s')
release_twice sc again law law' i n s s' s'' e e' =
    go (rw e at (release-Releases sc law i s)) (rw e' at (release-Releases again law' i s'))
  where
    go : Releases i s (ok (1, s')) → Releases i s' (ok (n, s'')) → (n ≡ 0) × (s'' ≡ s')
    go (res, f, inl (z, _, _)) h = absurd (omega arith)
    go (res, f, inr (_, act, same)) h =
        released_again i n (set_released res) s' s''
          (rw same (find-released i s.reservations res f act)) refl h

-- An order.cancelled message that is handled while its order has no reservation changes nothing.
cancelled_before :
    (sc : Service) (law : IsService sc) (a : Ambient) (body : Object) (c : OrderCancelledData)
    (s s' : Db)
    → unmarshal_cancelled body ≡ ok c
    → find (of_order c.order_id) s.reservations ≡ none
    → handle_order_cancelled sc a body s ≡ ok (tt, s')
    → s' ≡ s
unfolding handle_order_cancelled
cancelled_before sc law a body c s s' e f h =
    go (release sc c.order_id s) (release-Releases sc law c.order_id s)
      (rw (e, handle_order_cancelled) at h)
  where
    go :
        (r : Result (ℕ × Db))
        → Releases c.order_id s r
        → released_or_absent sc a s r ≡ ok (tt, s')
        → s' ≡ s
    go (ok (n, t)) (res, g, _) h = absurd (cc)
    go (err x) g h = ground arith

pub find_here : (r : Reservation) → find (of_order r.order_id) (r ∷ []) ≡ some r
unfolding find
find_here r = ground arith

-- If both handlers return, an order.cancelled message that comes while its order has no
-- reservation changes nothing, and the order.created message that comes later takes the stock and
-- leaves an active reservation of the cancelled order, or finds the stock short and leaves the
-- stock as it was.
pub created_after_cancelled :
    (sc : Service) (law : IsService sc) (a : Ambient) (cancel create : Object)
    (c : OrderCancelledData) (d : OrderCreatedData) (s s' s'' : Db)
    → unmarshal_cancelled cancel ≡ ok c
    → unmarshal_created create ≡ ok d
    → c.order_id ≡ d.order_id
    → find (of_order c.order_id) s.reservations ≡ none
    → handle_order_cancelled sc a cancel s ≡ ok (tt, s')
    → handle_order_created sc a create s' ≡ ok (tt, s'')
    → (s' ≡ s)
      × (((id : ℕ) × (find (of_order d.order_id) s''.reservations
              ≡ some (reservation id d.order_id d.sku d.quantity)))
          ⊎ ((s''.products ≡ s.products) × (s''.reservations ≡ s.reservations)))
created_after_cancelled sc law a cancel create c d s s' s'' ec ed same f hc hd =
    let kept : s' ≡ s = cancelled_before sc law a cancel c s s' ec f hc in
    (kept, rw kept at (go (rw hd at (handle_order_created-Outcome sc law a create d s' ed))))
  where
    go :
        Outcome a d s' (ok (tt, s''))
        → ((id : ℕ) × (find (of_order d.order_id) s''.reservations
              ≡ some (reservation id d.order_id d.sku d.quantity)))
          ⊎ ((s''.products ≡ s'.products) × (s''.reservations ≡ s'.reservations))
    go (inl (id, k, _, fresh, e)) = inl (
      id,
      rw e (
          find-append_none (of_order d.order_id) s'.reservations
            (reservation id d.order_id d.sku d.quantity ∷ []) fresh
          ∙ find_here (reservation id d.order_id d.sku d.quantity)),
    )
    go (inr (k, e)) = inr (rw e, rw e)
