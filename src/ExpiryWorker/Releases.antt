-- ===== src/ExpiryWorker/Releases.antt =====
-- What the expiry of reservations does to paid orders.
use flux_kart.Prelude.{ℕ, ◌-◌, ◌≡◌, ap, ◌∙◌, Bool, true, false, [], ◌∷◌, arith}
use flux_kart.Db.{Reservation, Order, InventoryRow, Database, done, is_paid}
use flux_kart.Db.Inventory.{update_inventory, quantities_valid}
use flux_kart.ExpiryWorker.{
  overdue, fetch_batch, order_by_expiry, among, expire_row, expire_transaction, drop_groups,
}

fetch_one :
    (now : ℕ) (locked : ℕ → Bool) (r : Reservation)
    → overdue now r ≡ true
    → locked r.id ≡ false
    → fetch_batch now locked (r ∷ []) ≡ r ∷ []
unfolding fetch_batch order_by_expiry
fetch_one now locked r late free = ground arith

expire_one :
    (r : Reservation) (o : Order) (i : InventoryRow) (db : Database)
    → db.reservations ≡ r ∷ []
    → db.orders ≡ o ∷ []
    → db.inventory ≡ i ∷ []
    → is_paid o.status ≡ true
    → o.reservation_id ≡ r.id
    → i.sale_id ≡ r.sale_id
    → quantities_valid i ≡ true
    → expire_transaction (r ∷ []) db
      ≡ done (record db {
        reservations = expire_row r ∷ [];
        inventory = record i { reserved_quantity = i.reserved_quantity - r.quantity } ∷ [];
      })
unfolding expire_transaction drop_groups update_inventory among
expire_one r o i db er eo ei paid its_order its_sale valid = ground arith

-- A paid reservation is not left alone: once its time to live is over it is expired like an unpaid
-- one, and its units, which the payment has moved to the sold ones, are taken off the reserved ones
-- a second time. The order stays paid.
pub paid_reservation_expires :
    (now : ℕ) (locked : ℕ → Bool) (r : Reservation) (o : Order) (i : InventoryRow) (db : Database)
    → db.reservations ≡ r ∷ []
    → db.orders ≡ o ∷ []
    → db.inventory ≡ i ∷ []
    → overdue now r ≡ true
    → locked r.id ≡ false
    → is_paid o.status ≡ true
    → o.reservation_id ≡ r.id
    → i.sale_id ≡ r.sale_id
    → quantities_valid i ≡ true
    → expire_transaction (fetch_batch now locked db.reservations) db
      ≡ done (record db {
        reservations = expire_row r ∷ [];
        inventory = record i { reserved_quantity = i.reserved_quantity - r.quantity } ∷ [];
      })
paid_reservation_expires now locked r o i db er eo ei late free paid its_order its_sale valid =
    ap (λ rows. expire_transaction (fetch_batch now locked rows) db) er
    ∙ ap (λ batch. expire_transaction batch db) (fetch_one now locked r late free)
    ∙ expire_one r o i db er eo ei paid its_order its_sale valid
