-- ===== src/Db.antt =====
-- The PostgreSQL tables of backend/alembic/versions, with the status values of
-- backend/app/models/schemas.py. A table is the list of its rows in the order of insertion. Ids and
-- keys are only compared, so they are numbers; a time is in milliseconds; an amount of money is in
-- cents. Columns that no modelled statement reads (names, descriptions, update times) are left out.
pub mod Inventory
pub mod Reservations
pub mod Orders
pub mod Outbox
pub mod Sales
pub mod Users
use flux_kart.Prelude.{ℕ, Bool, true, false, Option, List, ◌≡◌, refl, ◌⊎◌, inl, inr}

pub data SaleStatus : Type 0 where
  scheduled active paused completed : SaleStatus

pub data ReservationStatus : Type 0 where
  pending confirmed expired cancelled : ReservationStatus

pub data OrderStatus : Type 0 where
  pending paid failed refunded : OrderStatus

pub record Sale : Type 0 where
  pub id : ℕ
  pub sale_price : ℕ
  pub original_price : ℕ
  pub total_quantity : ℕ
  pub starts_at : ℕ
  pub ends_at : ℕ
  pub status : SaleStatus

-- CHECK keeps all three at 0 or more, and `reserved + sold` at most `total`.
pub record InventoryRow : Type 0 where
  pub sale_id : ℕ
  pub total_quantity : ℕ
  pub reserved_quantity : ℕ
  pub sold_quantity : ℕ

pub record Reservation : Type 0 where
  pub id : ℕ
  pub user_id : ℕ
  pub sale_id : ℕ
  pub quantity : ℕ
  pub status : ReservationStatus
  pub idempotency_key : ℕ
  pub expires_at : ℕ

pub record Order : Type 0 where
  pub id : ℕ
  pub user_id : ℕ
  pub sale_id : ℕ
  pub reservation_id : ℕ
  pub quantity : ℕ
  pub unit_price : ℕ
  pub total_price : ℕ
  pub status : OrderStatus

-- The payload of a "reservation.created" event.
pub record Payload : Type 0 where
  pub reservation_id : ℕ
  pub user_id : ℕ
  pub sale_id : ℕ
  pub quantity : ℕ
  pub unit_price : ℕ

pub record OutboxEvent : Type 0 where
  pub id : ℕ
  pub aggregate_id : ℕ
  pub payload : Payload
  pub published : Bool
  pub retry_count : ℕ

pub record Database : Type 0 where
  pub sales : List Sale
  pub inventory : List InventoryRow
  pub reservations : List Reservation
  pub orders : List Order
  pub outbox_events : List OutboxEvent

-- What a statement or a transaction gives: an exception leaves the tables as they were.
pub data Outcome {ℓ} (A : Type ℓ) : Type ℓ where
  done : A → Outcome A
  raised : Outcome A

pub Outcome-cases {ℓ} : {A : Type ℓ} (o : Outcome A) → (o ≡ raised) ⊎ ((a : A) × (o ≡ done a))
Outcome-cases raised = inl refl
Outcome-cases (done a) = inr (a, refl)

abbrev pub is_active_sale : SaleStatus → Bool
is_active_sale SaleStatus.active = true
is_active_sale _ = false

-- status IN ('pending', 'confirmed')
abbrev pub is_active : ReservationStatus → Bool
is_active ReservationStatus.pending = true
is_active ReservationStatus.confirmed = true
is_active _ = false

abbrev pub is_pending : ReservationStatus → Bool
is_pending ReservationStatus.pending = true
is_pending _ = false

abbrev pub is_paid : OrderStatus → Bool
is_paid OrderStatus.paid = true
is_paid _ = false
