-- ===== src/Bodies.antt =====
-- The bodies of requests that backend/app/models/schemas.py and backend/app/routers/admin.py describe,
-- with the conditions that pydantic checks before a handler runs: a body that fails them is answered
-- 422. A text is the list of its code points, and an amount is in whole cents: `SaleCreate` demands
-- that, while a finer amount, which the bodies of admin.py let in and PostgreSQL rounds, is left out.
-- `EmailStr`, which is not the repository's, is a parameter.
pub mod Prices
use flux_kart.Prelude.{ℕ, Bool, true, false, Option, none, some, List, ltb, leb, ◌&&◌, length}
use flux_kart.Prelude.Int.{ℤ}
use flux_kart.Db.Sales.{SaleData}

abbrev pub length_between : ℕ → ℕ → List ℕ → Bool
length_between low high text = leb low (length text) && leb (length text) high

-- `SaleCreate`, and with it `SaleCreateRequest` and `SaleEditRequest`, which have its fields.
pub record SaleCreate : Type 0 where
  pub title : List ℕ
  pub product_name : List ℕ
  pub sale : SaleData

-- The fields alone: what `SaleCreateRequest` and `SaleEditRequest` demand.
unfoldable pub fields_valid : SaleCreate → Bool
fields_valid body =
    length_between 3 255 body.title
    && length_between 2 255 body.product_name
    && ltb 0 body.sale.original_price
    && ltb 0 body.sale.sale_price
    && ltb 0 body.sale.total_quantity

-- `sale_below_original` and `ends_after_starts`, the validators of `SaleCreate`.
unfoldable pub sale_below_original : SaleData → Bool
sale_below_original d = ltb d.sale_price d.original_price

unfoldable pub ends_after_starts : SaleData → Bool
ends_after_starts d = ltb d.starts_at d.ends_at

unfoldable pub sale_create_valid : SaleCreate → Bool
unfolding fields_valid sale_below_original ends_after_starts
sale_create_valid body =
    fields_valid body && sale_below_original body.sale && ends_after_starts body.sale

pub record ReservationRequest : Type 0 where
  pub sale_id : ℕ
  pub quantity : ℕ
  pub idempotency_key : List ℕ

unfoldable pub reservation_request_valid : ReservationRequest → Bool
reservation_request_valid body =
    leb 1 body.quantity && leb body.quantity 10 && length_between 16 255 body.idempotency_key

-- `QuantityModifyRequest`
unfoldable pub new_quantity_valid : ℕ → Bool
new_quantity_valid new_quantity = ltb 0 new_quantity && leb new_quantity 10

-- `InventoryAdjustRequest`; an adjustment may be any number.
unfoldable pub adjust_request_valid : ℤ → List ℕ → Bool
adjust_request_valid adjustment reason = leb 5 (length reason)

pub record UserCreate : Type 0 where
  pub email : List ℕ
  pub password : List ℕ
  pub full_name : List ℕ

unfoldable pub user_create_valid : (List ℕ → Bool) → UserCreate → Bool
user_create_valid email_str body =
    email_str body.email && leb 8 (length body.password) && length_between 2 255 body.full_name
