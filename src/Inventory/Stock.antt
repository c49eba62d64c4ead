-- ===== src/Inventory/Stock.antt =====
-- What a list of reservations holds of a stock, and how the writes of Reserve and Release move it.
-- Lemmas about the rows alone, with no engine.
use micro_go_lab.Base.{
  ℕ, ◌≡◌, ◌≢◌, refl, sym, ap, ◌∙◌, inl, inr, true, false, ◌&&◌, none, some, String, List, [], ◌∷◌,
  ◌++◌, ℤ, pos, ◌+ℤ◌, sub-add, add-swap, +ℤ_comm, +ℤ_assoc, ==_iff, leb_ℤ, int_laws, str_eq, eq_iff,
  if◌then◌else◌, find, update_where, All, Bool-cases, arith,
}
use micro_go_lab.Inventory.Keys.{
  DistinctSkus, DistinctOrders, stocked, decrement, of_order, active_of, set_released, increment,
}
use micro_go_lab.Inventory.{Product, Reservation, reserved, is_active}

-- The quantity of a stock that active reservations hold.
unfoldable pub held : String → List Reservation → ℤ
held x [] = pos 0
held x (r ∷ rs) =
    if is_active r.status && str_eq x r.sku then r.quantity +ℤ held x rs else held x rs

-- available = total - SUM(active reservations), as model/product.go has it.
abbrev pub IsBalanced : List Reservation → Product → Type 0
IsBalanced rs p = p.available +ℤ held p.sku rs ≡ p.total

held-append :
    (x : String) (rs : List Reservation) (r : Reservation)
    → r.status ≡ reserved
    → held x (rs ++ r ∷ []) ≡ (if str_eq x r.sku then held x rs +ℤ r.quantity else held x rs)
unfolding held is_active
held-append x [] r act = grind int_laws
held-append x (q ∷ rs) r act = grind (int_laws, held-append x rs r act)

module _ (sku : String) (qty : ℤ) (r : Reservation) where
  abbrev Takes : Type 0
  Takes = (r.status ≡ reserved) × (r.sku ≡ sku) × (r.quantity ≡ qty)

  IsBalanced-taken :
      (p : Product) (rs : List Reservation)
      → Takes
      → str_eq p.sku sku ≡ true
      → IsBalanced rs p
      → IsBalanced (rs ++ r ∷ []) (decrement qty p)
  IsBalanced-taken p rs (act, s, q) e b =
      let h : held p.sku (rs ++ r ∷ []) ≡ held p.sku rs +ℤ r.quantity =
        held-append p.sku rs r act ∙ rw (s, e) refl in
      rw (h, q) (sub-add p.available qty (held p.sku rs) ∙ b)

  IsBalanced-other :
      (p : Product) (rs : List Reservation)
      → Takes
      → str_eq p.sku sku ≡ false
      → IsBalanced rs p
      → IsBalanced (rs ++ r ∷ []) p
  IsBalanced-other p rs (act, s, q) e b =
      let h : held p.sku (rs ++ r ∷ []) ≡ held p.sku rs =
        held-append p.sku rs r act ∙ rw (s, e) refl in
      rw h b

  -- Products of other stocks are left alone, and nothing more is held of them.
  others-IsBalanced :
      (ps : List Product) (rs : List Reservation)
      → Takes
      → find (λ q. str_eq q.sku sku) ps ≡ none
      → All (IsBalanced rs) ps
      → All (IsBalanced (rs ++ r ∷ [])) (update_where (stocked sku qty) (decrement qty) ps)
        × (find (stocked sku qty) ps ≡ none)
  unfolding find update_where
  others-IsBalanced [] rs t none_left b = (tt, refl)
  others-IsBalanced (p ∷ ps) rs t none_left b = elim (Bool-cases (str_eq p.sku sku)) [
    | inl mine ↦ absurd (ground arith)
    | inr e ↦
        let (rest, same) = others-IsBalanced ps rs t (ground arith) b.1 in
        rw e ((IsBalanced-other p rs t e b.0, rest), same)
  ]

  pub reserve-IsBalanced :
      (ps : List Product) (rs : List Reservation)
      → Takes
      → DistinctSkus ps
      → All (IsBalanced rs) ps
      → find (stocked sku qty) ps ≢ none
      → All (IsBalanced (rs ++ r ∷ [])) (update_where (stocked sku qty) (decrement qty) ps)
  unfolding find update_where
  reserve-IsBalanced [] rs t d b f = tt
  reserve-IsBalanced (p ∷ ps) rs t d b f = elim (Bool-cases (str_eq p.sku sku)) [
    | inl mine ↦
        let here : p.sku ≡ sku = (eq_iff p.sku sku).0 mine in
        let (rest, same) = others-IsBalanced ps rs t (rw here at d.0) b.1 in
        elim (Bool-cases (leb_ℤ qty p.available)) [
          | inl enough ↦ rw (mine, enough) (IsBalanced-taken p rs t mine b.0, rest)
          | inr short ↦ absurd (ground arith)
        ]
    | inr e ↦
        rw e (IsBalanced-other p rs t e b.0, reserve-IsBalanced ps rs t d.1 b.1 (ground arith))
  ]

no_order-release :
    (i : ℕ) (rs : List Reservation)
    → find (of_order i) rs ≡ none
    → update_where (active_of i) set_released rs ≡ rs
unfolding find update_where
no_order-release i [] e = refl
no_order-release i (r ∷ rs) e = ground (arith, no_order-release i rs)

held-release :
    (x : String) (i : ℕ) (rs : List Reservation) (res : Reservation)
    → DistinctOrders rs
    → find (of_order i) rs ≡ some res
    → res.status ≡ reserved
    → held x rs ≡ (
        if str_eq x res.sku
        then held x (update_where (active_of i) set_released rs) +ℤ res.quantity
        else held x (update_where (active_of i) set_released rs))
unfolding find update_where held is_active
held-release x i [] res d e act = cc
held-release x i (r ∷ rs) res d e act = elim (Bool-cases (of_order i r)) [
  | inl mine ↦
      let here : r.order_id ≡ i = (==_iff r.order_id i).0 mine in
      let same : update_where (active_of i) set_released rs ≡ rs =
        no_order-release i rs (rw here at d.0) in
      ground (arith, same, +ℤ_comm r.quantity (held x rs))
  | inr e' ↦ ground (
    arith,
    held-release x i rs res d.1,
    +ℤ_assoc r.quantity (held x (update_where (active_of i) set_released rs)) res.quantity,
  )
]

-- A released quantity goes back to the products of its stock.
pub release-IsBalanced :
    (i : ℕ) (ps : List Product) (rs : List Reservation) (res : Reservation)
    → DistinctOrders rs
    → find (of_order i) rs ≡ some res
    → res.status ≡ reserved
    → All (IsBalanced rs) ps
    → All
        (IsBalanced (update_where (active_of i) set_released rs))
        (update_where (λ p. str_eq p.sku res.sku) (increment res.quantity) ps)
unfolding update_where
release-IsBalanced i [] rs res d e act b = tt
release-IsBalanced i (p ∷ ps) rs res d e act b =
    let h = held-release p.sku i rs res d e act in
    let rs' = update_where (active_of i) set_released rs in
    let rest = release-IsBalanced i ps rs res d e act b.1 in
    elim (Bool-cases (str_eq p.sku res.sku)) [
      | inl mine ↦ rw mine (
        add-swap p.available res.quantity (held p.sku rs')
            ∙ ap (◌+ℤ◌ p.available) (sym (rw mine at h))
            ∙ b.0,
        rest,
      )
      | inr another ↦ rw another (ap (◌+ℤ◌ p.available) (sym (rw another at h)) ∙ b.0, rest)
    ]
