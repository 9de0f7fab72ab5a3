-- ===== src/ExpiryWorker/Activation.antt =====
-- `activate_scheduled_sales`, which the loop of the expiry worker runs first.
pub mod Seeds
use flux_kart.Prelude.{
  ℕ, Bool, false, none, some, List, [], ◌∷◌, leb, if◌then◌else◌, length, select, update_where,
}
use flux_kart.Prelude.Int.{ℤ, pos}
use flux_kart.Redis.{KeyStore}
use flux_kart.Db.{SaleStatus, Sale, Database}
use flux_kart.Db.Inventory.{available, get_inventory}

-- status = 'scheduled' AND starts_at <= NOW()
abbrev pub is_due : ℕ → Sale → Bool
is_due now s = elim s.status [ SaleStatus.scheduled ↦ leb s.starts_at now | _ ↦ false ]

module _ (C : KeyStore ℕ ℤ) where
  -- The loop over the rows of RETURNING; `reachable` says for which sales the call of Redis comes
  -- through.
  unfoldable pub seed_counters : (ℕ → Bool) → Database → List Sale → C.Db → C.Db
  seed_counters reachable db [] c = c
  seed_counters reachable db (s ∷ sales) c =
      seed_counters reachable db sales (elim (get_inventory s.id db) [
        | none ↦ c
        | some i ↦ if reachable s.id then C.set c s.id (pos (available i)) else c
      ])

  unfoldable pub activate_scheduled_sales : ℕ → (ℕ → Bool) → Database → C.Db → ℕ × Database × C.Db
  activate_scheduled_sales now reachable db c =
      let due = select (is_due now) db.sales in
      (
        length due,
        record db {
          sales = update_where (is_due now) (λ s. record s { status = SaleStatus.active }) db.sales;
        },
        seed_counters reachable db due c,
      )
