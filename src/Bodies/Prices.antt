-- ===== src/Bodies/Prices.antt =====
-- The prices of sales over the statements that write them.
mod Ends
pub mod Calls
use flux_kart.Prelude.{
  ℕ, ◌<◌, ◌≡◌, refl, sym, ap, Bool, true, false, Option, none, some, List, [], ◌∷◌, ◌++◌, ◌⊎◌, inl,
  inr, arith, ◌==◌, leb, ltb, not, ◌&&◌, ◌||◌, if◌then◌else◌, select, update_where, Bool-cases,
  Option-cases,
}
use mathlib.Core.Path.{subst}
use flux_kart.Prelude.Int.{ℤ, pos, ◌+ℤ◌, ltb_ℤ, pos_part}
use flux_kart.Redis.{KeyStore, ExpiringStore, SortedSets}
use flux_kart.Inventory.{Hold}
use flux_kart.Db.{
  Sale, SaleStatus, InventoryRow, Database, Outcome, done, raised, Outcome-cases, is_active_sale,
}
use flux_kart.Db.Inventory.{update_inventory}
use flux_kart.Db.Sales.{
  SaleData, get_sale_by_id, update_sale_status, create_sale, admin_update_sale, admin_delete_sale,
  with_total, with_data, is_sale,
}
use flux_kart.SaleAdmin.{
  Answer, Shop, is_completed, is_paused, is_scheduled, admin_create_sale, edit_sale, delete_sale,
  activate_sale, pause_sale, resume_sale, complete_sale, adjust_inventory,
}
use flux_kart.SaleAdmin.Lifecycle.Calls.{
  AdminCall, create_call, edit_call, delete_call, complete_call, pause_call, resume_call,
  activate_call, adjust_call, handle,
}
use flux_kart.SalesRouter.{post_sale, patch_sale_status}
use flux_kart.Bodies.{SaleCreate, sale_create_valid, sale_below_original}

-- Every sale costs less than its original price.
abbrev pub IsReduced : List Sale → Type 0
IsReduced [] = Unit
IsReduced (s ∷ sales) = (s.sale_price < s.original_price) × IsReduced sales

IsReduced-append : (xs ys : List Sale) → IsReduced xs → IsReduced ys → IsReduced (xs ++ ys)
IsReduced-append [] ys h h' = h'
IsReduced-append (x ∷ xs) ys h h' = (h.0, IsReduced-append xs ys h.1 h')

IsReduced-select :
    (p : Sale → Bool) (sales : List Sale) → IsReduced sales → IsReduced (select p sales)
IsReduced-select p [] h = tt
IsReduced-select p (s ∷ sales) h = elim (Bool-cases (p s)) [
  | inl kept ↦ simp kept (h.0, IsReduced-select p sales h.1)
  | inr gone ↦ simp gone (IsReduced-select p sales h.1)
]

IsReduced-update :
    (p : Sale → Bool) (f : Sale → Sale) (sales : List Sale)
    → ((s : Sale) → s.sale_price < s.original_price → (f s).sale_price < (f s).original_price)
    → IsReduced sales
    → IsReduced (update_where p f sales)
IsReduced-update p f [] keeps h = tt
IsReduced-update p f (s ∷ sales) keeps h = (
  elim (Bool-cases (p s)) [ inl hit ↦ simp hit (keeps s h.0) | inr miss ↦ simp miss h.0 ],
  IsReduced-update p f sales keeps h.1,
)

pub update_sale_status-IsReduced :
    (k : ℕ) (t : SaleStatus) (db : Database)
    → IsReduced db.sales
    → IsReduced (update_sale_status k t db).sales
unfolding update_sale_status
update_sale_status-IsReduced k t db h =
    IsReduced-update (is_sale k) (λ s. record s { status = t }) db.sales (λ s e. e) h

pub create_sale-IsReduced :
    (id : ℕ) (d : SaleData) (db db' : Database)
    → d.sale_price < d.original_price
    → create_sale id d db ≡ done db'
    → IsReduced db.sales
    → IsReduced db'.sales
unfolding create_sale
create_sale-IsReduced id d db db' low e h =
    let s : Sale = record {
      id = id;
      sale_price = d.sale_price;
      original_price = d.original_price;
      total_quantity = d.total_quantity;
      starts_at = d.starts_at;
      ends_at = d.ends_at;
      status = SaleStatus.scheduled;
    } in
    let same : db.sales ++ s ∷ [] ≡ db'.sales = ground arith in
    subst IsReduced same (IsReduced-append db.sales (s ∷ []) h (low, tt))

pub admin_update_sale-IsReduced :
    (k : ℕ) (d : SaleData) (db db' : Database)
    → d.sale_price < d.original_price
    → admin_update_sale k d db ≡ done db'
    → IsReduced db.sales
    → IsReduced db'.sales
unfolding admin_update_sale update_inventory
admin_update_sale-IsReduced k d db db' low e h =
    let same : update_where (is_sale k) (with_data d) db.sales ≡ db'.sales = ground arith in
    subst IsReduced same (IsReduced-update (is_sale k) (with_data d) db.sales (λ s _. low) h)

pub admin_delete_sale-IsReduced :
    (k : ℕ) (db : Database) → IsReduced db.sales → IsReduced (admin_delete_sale k db).1.sales
unfolding admin_delete_sale
admin_delete_sale-IsReduced k db h = IsReduced-select (λ s. not (is_sale k s)) db.sales h
