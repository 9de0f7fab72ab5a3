-- ===== src/SaleAdmin/Resize.antt =====
-- The counter of a sale against its row when the total changes.
use flux_kart.Prelude.{
  ℕ, ◌+◌, ◌-◌, ◌≤◌, ◌≡◌, refl, ap, ◌∙◌, sym, true, false, none, some, List, arith, ◌==◌, leb, ltb,
  ◌||◌, if◌then◌else◌, first, update_where, Bool-cases, Option-cases, inl, inr,
}
use mathlib.Core.Path.{subst}
use flux_kart.Prelude.Int.{ℤ, pos, negsuc, ◌+ℤ◌, ◌-ℤ◌, ltb_ℤ, pos_part, neg_part, int_laws}
use flux_kart.Redis.{KeyStore, ExpiringStore, SortedSets}
use flux_kart.Inventory.{Hold, Stock, or_zero}
use flux_kart.Db.{Outcome-cases, Sale, InventoryRow, Database, done}
use flux_kart.Db.Inventory.{
  available, for_sale, get_inventory, update_inventory, IsStocked, first-IsStocked,
  first-update_where, update_inventory-IsStocked,
}
use flux_kart.Db.Sales.{SaleData, with_data, is_sale, get_sale_by_id, admin_update_sale, with_total}
use flux_kart.SaleAdmin.{
  Answer, success, bad_request_400, not_found_404, server_error_500, Shop, is_completed, try_move,
  edit_sale, adjust_inventory,
}

balance :
    (v a : ℤ) (t t' r q : ℕ)
    → pos t' ≡ pos t +ℤ a
    → r + q ≤ t
    → r + q ≤ t'
    → v +ℤ a +ℤ pos (t - r - q) ≡ v +ℤ pos (t' - r - q)
unfolding ◌+ℤ◌
balance v a t t' r q e h h' = ground arith

nonnegative : (a : ℤ) → ltb_ℤ a (pos 0) ≡ false → pos (pos_part a) ≡ a
nonnegative a h = ground arith

pos-sub : (t t' : ℕ) → pos t' ≡ pos t +ℤ (pos t' -ℤ pos t)
pos-sub t t' = omega int_laws

add-zero : (v : ℤ) → v +ℤ pos 0 ≡ v
add-zero v = omega int_laws

moved :
    (v a : ℤ)
    → (if ltb 0 (pos_part a) then v +ℤ pos (pos_part a) else v -ℤ pos (neg_part a)) ≡ v +ℤ a
unfolding ◌+ℤ◌ ◌-ℤ◌
moved v (pos n) = ground arith
moved v (negsuc n) = ground arith

no_change : (v : ℤ) (t t' : ℕ) → (t' == t) ≡ true → v ≡ v +ℤ (pos t' -ℤ pos t)
unfolding ◌+ℤ◌ ◌-ℤ◌
no_change v t t' h = ground arith

row_of_sale :
    (s : ℕ) (sale : Sale) (i : InventoryRow) (db : Database)
    → get_sale_by_id s db ≡ some (sale, i)
    → get_inventory s db ≡ some i
unfolding get_sale_by_id
row_of_sale s sale i db e = elim (Option-cases (get_inventory s db)) [
  | inl missing ↦ absurd (ground (arith, missing, Option-cases (first (is_sale s) db.sales)))
  | inr (x, there) ↦ ground (arith, there, Option-cases (first (is_sale s) db.sales))
]

module _ (C : KeyStore ℕ ℤ) (H : ExpiringStore ℕ Hold) (Q : SortedSets ℕ ℕ) where
  try_move-counter :
      (s : ℕ) (a : ℤ) (st : Stock C H)
      → or_zero (C.get (try_move C H Q true s a st).0 s) ≡ or_zero (C.get st.0 s) +ℤ a
  unfolding try_move
  try_move-counter s a (c, h) =
      let v = or_zero (C.get c s) in
      let v' = if ltb 0 (pos_part a) then v +ℤ pos (pos_part a) else v -ℤ pos (neg_part a) in
      ap or_zero (C.get-set_self c s v') ∙ moved v a

  try_move_unless :
      (s t t' : ℕ) (st : Stock C H)
      → or_zero (C.get (if t' == t then st else try_move C H Q true s (pos t' -ℤ pos t) st).0 s)
        ≡ or_zero (C.get st.0 s) +ℤ (pos t' -ℤ pos t)
  try_move_unless s t t' st = elim (Bool-cases (t' == t)) [
    | inl same ↦ rw same (no_change (or_zero (C.get st.0 s)) t t' same)
    | inr other ↦ rw other (try_move-counter s (pos t' -ℤ pos t) st)
  ]

  abbrev pub units_of : ℕ → Database → ℕ
  units_of s db = elim (get_inventory s db) [ none ↦ 0 | some i ↦ available i ]

  -- The counter moves by as many units as the row has more.
  abbrev pub Balanced : ℕ → Shop C H Q → Shop C H Q → Type 0
  Balanced s w w' =
      or_zero (C.get w'.stock.0 s) +ℤ pos (units_of s w.db)
      ≡ or_zero (C.get w.stock.0 s) +ℤ pos (units_of s w'.db)

  -- The row of the sale gets the total `t'`, by `a` more, and the counter `a` units.
  move-Balanced :
      (s t' : ℕ) (a : ℤ) (i : InventoryRow) (w : Shop C H Q) (sales : List Sale) (db' : Database)
      (st' : Stock C H)
      → IsStocked w.db.inventory
      → get_inventory s w.db ≡ some i
      → pos t' ≡ pos i.total_quantity +ℤ a
      → update_inventory s (with_total t') (record w.db { sales = sales }) ≡ done db'
      → or_zero (C.get st'.0 s) ≡ or_zero (C.get w.stock.0 s) +ℤ a
      → Balanced s w (record w { db = db'; stock = st' })
  move-Balanced s t' a i w sales db' st' h e sum written counter =
      let stocked =
        update_inventory-IsStocked s (with_total t') (record w.db { sales = sales }) db' written in
      let rows : db'.inventory ≡ update_where (for_sale s) (with_total t') w.db.inventory =
        unfold update_inventory in ground (arith, written) in
      let e' : get_inventory s db' ≡ some (with_total t' i) =
        ap (first (for_sale s)) rows
        ∙ first-update_where s (with_total t') i w.db.inventory (λ j. refl) e in
      let low = first-IsStocked s i w.db.inventory h e in
      let low' = first-IsStocked s (with_total t' i) db'.inventory stocked e' in
      let before : units_of s w.db ≡ available i = ground (arith, e) in
      let after : units_of s db' ≡ available (with_total t' i) = ground (arith, e') in
      ap (λ n. or_zero (C.get st'.0 s) +ℤ pos n) before
      ∙ ap (λ v. v +ℤ pos (available i)) counter
      ∙ balance (or_zero (C.get w.stock.0 s)) a i.total_quantity t' i.reserved_quantity
          i.sold_quantity sum low low'
      ∙ ap (λ n. or_zero (C.get w.stock.0 s) +ℤ pos n) (sym after)

  ends_as :
      (s : ℕ) (w : Shop C H Q) (x y : Answer × Shop C H Q)
      → x ≡ y
      → Balanced s w y.1
      → Balanced s w x.1
  ends_as s w x y e m = subst (λ z. Balanced s w z.1) (sym e) m

  adjusted-Balanced :
      (s : ℕ) (a : ℤ) (w : Shop C H Q)
      → IsStocked w.db.inventory
      → Balanced s w (adjust_inventory C H Q true s a w).1
  unfolding adjust_inventory
  adjusted-Balanced s a w h = elim (Option-cases (get_sale_by_id s w.db)) [
    | inl missing ↦
        ends_as s w (adjust_inventory C H Q true s a w) (not_found_404, w) (ground (arith, missing))
          refl
    | inr ((sale, i), there) ↦
        let new_total = pos i.total_quantity +ℤ a in
        elim (Bool-cases (ltb_ℤ new_total (pos 0))) [
          | inl below ↦
              ends_as s w (adjust_inventory C H Q true s a w) (bad_request_400, w)
                (ground (arith, there, below)) refl
          | inr enough ↦
              elim (Outcome-cases (update_inventory s (with_total (pos_part new_total)) w.db)) [
                | inl refused ↦
                    ends_as s w (adjust_inventory C H Q true s a w) (server_error_500, w)
                      (ground (arith, there, enough, refused)) refl
                | inr (db, written) ↦
                    let st' = try_move C H Q true s a w.stock in
                    ends_as s w (adjust_inventory C H Q true s a w)
                      (success, record w { db = db; stock = st' })
                      (ground (arith, there, enough, written))
                      (move-Balanced s (pos_part new_total) a i w w.db.sales db st' h
                        (row_of_sale s sale i w.db there) (nonnegative new_total enough) written
                        (try_move-counter s a w.stock))
              ]
        ]
  ]

  edited-Balanced :
      (s : ℕ) (d : SaleData) (w : Shop C H Q)
      → IsStocked w.db.inventory
      → Balanced s w (edit_sale C H Q true s d w).1
  unfolding edit_sale admin_update_sale
  edited-Balanced s d w h = elim (Option-cases (get_sale_by_id s w.db)) [
    | inl missing ↦
        ends_as s w (edit_sale C H Q true s d w) (not_found_404, w) (ground (arith, missing)) refl
    | inr ((sale, i), there) ↦
        elim (Bool-cases (is_completed sale.status || leb d.original_price d.sale_price)) [
          | inl refused ↦
              ends_as s w (edit_sale C H Q true s d w) (bad_request_400, w)
                (ground (arith, there, refused)) refl
          | inr open_ ↦ elim (Outcome-cases (admin_update_sale s d w.db)) [
            | inl refused ↦
                ends_as s w (edit_sale C H Q true s d w) (server_error_500, w)
                  (ground (arith, there, open_, refused)) refl
            | inr (db, written) ↦
                let a = pos d.total_quantity -ℤ pos i.total_quantity in
                let st' =
                  if d.total_quantity == i.total_quantity
                  then w.stock
                  else try_move C H Q true s a w.stock in
                ends_as s w (edit_sale C H Q true s d w)
                  (success, record w { db = db; stock = st' })
                  (ground (arith, there, open_, written))
                  (move-Balanced s d.total_quantity a i w
                    (update_where (is_sale s) (with_data d) w.db.sales) db st' h
                    (row_of_sale s sale i w.db there) (pos-sub i.total_quantity d.total_quantity)
                    written (try_move_unless s i.total_quantity d.total_quantity w.stock))
          ]
        ]
  ]

  -- Where the rows of the inventory pass their CHECK and Redis can be reached, an edit of a sale and an
  -- adjustment of its inventory, whatever they answer, move the counter of the sale by exactly the
  -- number of units by which the available ones of its row change.
  pub resize-Balanced :
      (s : ℕ) (d : SaleData) (a : ℤ) (w : Shop C H Q)
      → IsStocked w.db.inventory
      → Balanced s w (edit_sale C H Q true s d w).1
        × Balanced s w (adjust_inventory C H Q true s a w).1
  resize-Balanced s d a w h = (edited-Balanced s d w h, adjusted-Balanced s a w h)
