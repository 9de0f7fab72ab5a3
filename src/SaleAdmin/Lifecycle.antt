-- ===== src/SaleAdmin/Lifecycle.antt =====
-- The status of a sale over the calls of the administrator.
pub mod Changes
pub mod Edits
pub mod Calls
use flux_kart.Prelude.{
  ℕ, ◌≡◌, refl, ap, ◌∙◌, sym, Bool, true, false, Option, none, some, List, [], ◌∷◌, ◌++◌, arith,
  ◌==◌, ltb, leb, not, ◌&&◌, ◌||◌, if◌then◌else◌, first, select, update_where, count_where,
  Bool-cases, Option-cases, inl, inr,
}
use mathlib.Core.Path.{subst}
use flux_kart.Prelude.Int.{ℤ, pos, ◌+ℤ◌, ltb_ℤ, pos_part}
use flux_kart.Redis.{KeyStore, ExpiringStore, SortedSets}
use flux_kart.Inventory.{Hold}
use flux_kart.Db.{SaleStatus, Sale, InventoryRow, Database, done, raised, is_active_sale}
use flux_kart.Db.Inventory.{get_inventory, update_inventory}
use flux_kart.Db.Sales.{
  SaleData, with_data, is_sale, get_sale_by_id, update_sale_status, create_sale, admin_update_sale,
  admin_delete_sale, with_total,
}
use flux_kart.SaleAdmin.{is_scheduled, is_paused}

abbrev pub status_of : ℕ → List Sale → Option SaleStatus
status_of k [] = none
status_of k (s ∷ sales) =
    let rest = status_of k sales in if is_sale k s then some s.status else rest

-- The lifecycle: from `none` where there is no such sale.
pub data Moves : Option SaleStatus → Option SaleStatus → Type 0 where
  stays : (o : Option SaleStatus) → Moves o o
  created : (t : SaleStatus) → (is_scheduled t || is_active_sale t) ≡ true → Moves none (some t)
  activates : Moves (some SaleStatus.scheduled) (some SaleStatus.active)
  pauses : Moves (some SaleStatus.active) (some SaleStatus.paused)
  resumes : Moves (some SaleStatus.paused) (some SaleStatus.active)
  completes : (t : SaleStatus) → Moves (some t) (some SaleStatus.completed)
  deletes : (t : SaleStatus) → is_active_sale t ≡ false → Moves (some t) none

status_of-first :
    (k : ℕ) (s : Sale) (sales : List Sale)
    → first (is_sale k) sales ≡ some s
    → status_of k sales ≡ some s.status
status_of-first k s [] e = absurd (ground arith)
status_of-first k s (x ∷ sales) e = ground (arith, status_of-first k s sales)

status_of-get_sale_by_id :
    (k : ℕ) (s : Sale) (i : InventoryRow) (db : Database)
    → get_sale_by_id k db ≡ some (s, i)
    → status_of k db.sales ≡ some s.status
unfolding get_sale_by_id
status_of-get_sale_by_id k s i db e = elim (Option-cases (first (is_sale k) db.sales)) [
  | inl missing ↦ absurd (ground (arith, missing))
  | inr (x, there) ↦ ground (arith, there, status_of-first k x db.sales there)
]

status_of-other :
    (k s : ℕ) (t : SaleStatus) (sales : List Sale)
    → (k == s) ≡ false
    → status_of k (update_where (is_sale s) (λ x. record x { status = t }) sales)
      ≡ status_of k sales
status_of-other k s t [] h = refl
status_of-other k s t (x ∷ sales) h = ground (arith, status_of-other k s t sales h)

status_of-same :
    (s : ℕ) (t old : SaleStatus) (sales : List Sale)
    → status_of s sales ≡ some old
    → status_of s (update_where (is_sale s) (λ x. record x { status = t }) sales) ≡ some t
status_of-same s t old [] h = absurd (ground arith)
status_of-same s t old (x ∷ sales) h = ground (arith, status_of-same s t old sales)

status_of-with_data :
    (k s : ℕ) (d : SaleData) (sales : List Sale)
    → status_of k (update_where (is_sale s) (with_data d) sales) ≡ status_of k sales
status_of-with_data k s d [] = refl
status_of-with_data k s d (x ∷ sales) = ground (arith, status_of-with_data k s d sales)

status_of-gone :
    (s : ℕ) (sales : List Sale) → status_of s (select (λ x. not (is_sale s x)) sales) ≡ none
status_of-gone s [] = refl
status_of-gone s (x ∷ sales) = ground (arith, status_of-gone s sales)

status_of-kept :
    (k s : ℕ) (sales : List Sale)
    → (k == s) ≡ false
    → status_of k (select (λ x. not (is_sale s x)) sales) ≡ status_of k sales
status_of-kept k s [] h = refl
status_of-kept k s (x ∷ sales) h = ground (arith, status_of-kept k s sales h)

status_of-absent :
    (k : ℕ) (sales : List Sale) → count_where (is_sale k) sales ≡ 0 → status_of k sales ≡ none
status_of-absent k [] h = refl
status_of-absent k (x ∷ sales) h = ground (arith, status_of-absent k sales)

status_of-append :
    (k : ℕ) (x : Sale) (sales : List Sale)
    → status_of k sales ≡ none
    → status_of k (sales ++ x ∷ []) ≡ (if is_sale k x then some x.status else none)
status_of-append k x [] h = refl
status_of-append k x (y ∷ sales) h = ground (arith, status_of-append k x sales)

status_of-append_other :
    (k : ℕ) (x : Sale) (sales : List Sale)
    → is_sale k x ≡ false
    → status_of k (sales ++ x ∷ []) ≡ status_of k sales
status_of-append_other k x [] h = ground (arith, h)
status_of-append_other k x (y ∷ sales) h = ground (arith, status_of-append_other k x sales h)

same_number : (k s : ℕ) → (k == s) ≡ true → k ≡ s
same_number k s h = ground arith

Moves-path : (a b b' : Option SaleStatus) → b ≡ b' → Moves a b' → Moves a b
Moves-path a b b' e m = subst (λ x. Moves a x) (sym e) m

-- A sale that is found is set to the status `t`.
set-Moves :
    (k s : ℕ) (t old : SaleStatus) (db : Database)
    → status_of s db.sales ≡ some old
    → Moves (some old) (some t)
    → Moves (status_of k db.sales) (status_of k (update_sale_status s t db).sales)
unfolding update_sale_status
set-Moves k s t old db h m = elim (Bool-cases (k == s)) [
  | inl same ↦ let e = same_number k s same in rw (e, h, status_of-same s t old db.sales h) m
  | inr other ↦
      Moves-path (status_of k db.sales) _ _ (status_of-other k s t db.sales other)
        (stays (status_of k db.sales))
]

pauses-active : (t : SaleStatus) → is_active_sale t ≡ true → Moves (some t) (some SaleStatus.paused)
pauses-active SaleStatus.active h = pauses
pauses-active SaleStatus.scheduled h = absurd (ground arith)
pauses-active SaleStatus.paused h = absurd (ground arith)
pauses-active SaleStatus.completed h = absurd (ground arith)

resumes-paused : (t : SaleStatus) → is_paused t ≡ true → Moves (some t) (some SaleStatus.active)
resumes-paused SaleStatus.paused h = resumes
resumes-paused SaleStatus.scheduled h = absurd (ground arith)
resumes-paused SaleStatus.active h = absurd (ground arith)
resumes-paused SaleStatus.completed h = absurd (ground arith)

activates-scheduled :
    (t : SaleStatus) → is_scheduled t ≡ true → Moves (some t) (some SaleStatus.active)
activates-scheduled SaleStatus.scheduled h = activates
activates-scheduled SaleStatus.active h = absurd (ground arith)
activates-scheduled SaleStatus.paused h = absurd (ground arith)
activates-scheduled SaleStatus.completed h = absurd (ground arith)

delete-Moves :
    (k s : ℕ) (old : SaleStatus) (sales : List Sale)
    → status_of s sales ≡ some old
    → is_active_sale old ≡ false
    → Moves (status_of k sales) (status_of k (select (λ x. not (is_sale s x)) sales))
delete-Moves k s old sales h idle = elim (Bool-cases (k == s)) [
  | inl same ↦ rw (same_number k s same, h, status_of-gone s sales) (deletes old idle)
  | inr other ↦
      Moves-path (status_of k sales) (status_of k (select (λ x. not (is_sale s x)) sales))
        (status_of k sales) (status_of-kept k s sales other) (stays (status_of k sales))
]

-- A new row, whose status is set at once.
append-Moves :
    (k id : ℕ) (t : SaleStatus) (x : Sale) (sales : List Sale)
    → (is_scheduled t || is_active_sale t) ≡ true
    → x.id ≡ id
    → count_where (is_sale id) sales ≡ 0
    → Moves
        (status_of k sales)
        (status_of k (update_where (is_sale id) (λ y. record y { status = t }) (sales ++ x ∷ [])))
append-Moves k id t x sales h e fresh = elim (Bool-cases (k == id)) [
  | inl same ↦
      let gone = status_of-absent id sales fresh in
      let now_there : status_of id (sales ++ x ∷ []) ≡ some x.status =
        status_of-append id x sales gone ∙ ground (arith, e) in
      rw (same_number k id same, gone, status_of-same id t x.status (sales ++ x ∷ []) now_there)
        (created t h)
  | inr other ↦
      Moves-path (status_of k sales)
        (status_of k (update_where (is_sale id) (λ y. record y { status = t }) (sales ++ x ∷ [])))
        (status_of k sales)
        (status_of-other k id t (sales ++ x ∷ []) other
          ∙ status_of-append_other k x sales (ground (arith, e, other)))
        (stays (status_of k sales))
]
