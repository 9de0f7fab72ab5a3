-- ===== src/Admission.antt =====
-- backend/app/workers/admission_worker.py with backend/app/db/queries/preregistrations.py: batches of
-- admissions for a sale. The table is in the order of insertion, which is the order of registered_at.
pub mod Order
pub mod Batches
use flux_kart.Prelude.{
  ℕ, zero, suc, ◌+◌, ◌*◌, Bool, true, false, Option, none, some, List, [], ◌∷◌, ◌++◌, ◌==◌, ltb,
  leb, ◌&&◌, not, if◌then◌else◌, length, take, select, first, update_where, count_where,
}
use flux_kart.Redis.{ExpiringStore}
use flux_kart.Db.{Outcome, done, raised}

abbrev pub batch_size : ℕ
batch_size = 50

abbrev pub admission_token_ttl : ℕ
admission_token_ttl = 60

pub data PreregistrationStatus : Type 0 where
  waiting admitted : PreregistrationStatus

pub record Preregistration : Type 0 where
  pub user_id : ℕ
  pub sale_id : ℕ
  pub status : PreregistrationStatus

abbrev pub is_waiting : PreregistrationStatus → Bool
is_waiting waiting = true
is_waiting admitted = false

abbrev pub of_user : ℕ → ℕ → Preregistration → Bool
of_user user_id sale_id p = p.user_id == user_id && p.sale_id == sale_id

abbrev pub waits_for : ℕ → Preregistration → Bool
waits_for sale_id p = p.sale_id == sale_id && is_waiting p.status

-- INSERT: a second registration of the user for the sale violates uq_preregistration.
unfoldable pub create_preregistration :
    ℕ → ℕ → List Preregistration → Outcome (Preregistration × List Preregistration)
create_preregistration user_id sale_id rows =
    let p : Preregistration = record { user_id = user_id; sale_id = sale_id; status = waiting } in
    if ltb 0 (count_where (of_user user_id sale_id) rows) then raised else done (p, rows ++ p ∷ [])

unfoldable pub get_preregistration : ℕ → ℕ → List Preregistration → Option Preregistration
get_preregistration user_id sale_id rows = first (of_user user_id sale_id) rows

unfoldable pub get_preregistrations_for_sale : ℕ → ℕ → List Preregistration → List Preregistration
get_preregistrations_for_sale sale_id limit rows = take limit (select (waits_for sale_id) rows)

abbrev pub admit_row : Preregistration → Preregistration
admit_row p = record p { status = admitted }

unfoldable pub mark_admitted : ℕ → ℕ → List Preregistration → List Preregistration
mark_admitted user_id sale_id rows = update_where (of_user user_id sale_id) admit_row rows

unfoldable pub get_preregistration_count : ℕ → List Preregistration → ℕ
get_preregistration_count sale_id rows = count_where (λ p. p.sale_id == sale_id) rows

-- The call of a batch that raises, if one does: the SELECT, or for the user at a place of the batch,
-- counted from 0, the SET of the token or the UPDATE of the row.
pub data Interruption : Type 0 where
  no_fault at_select : Interruption
  at_token at_row : ℕ → Interruption

-- Whether a batch of so many users gets through.
abbrev pub gets_through : Interruption → ℕ → Bool
gets_through no_fault n = true
gets_through at_select n = false
gets_through (at_token k) n = leb n k
gets_through (at_row k) n = leb n k

module _ (A : ExpiringStore (ℕ × ℕ) ℕ) where
  -- The `for` loop of `admit_batch`: the token in Redis, then the row. An exception leaves it.
  unfoldable pub admit_users :
      Interruption
      → ℕ
      → ℕ
      → List Preregistration
      → List Preregistration
      → A.Db
      → List Preregistration × A.Db
  unfolding mark_admitted
  admit_users fault now sale_id [] rows tokens = (rows, tokens)
  admit_users no_fault now sale_id (p ∷ batch) rows tokens =
      admit_users no_fault now sale_id batch (mark_admitted p.user_id sale_id rows)
        (A.set tokens (sale_id, p.user_id) 1 (now + admission_token_ttl * 1000))
  admit_users at_select now sale_id (p ∷ batch) rows tokens = (rows, tokens)
  admit_users (at_token zero) now sale_id (p ∷ batch) rows tokens = (rows, tokens)
  admit_users (at_token (suc k)) now sale_id (p ∷ batch) rows tokens =
      admit_users (at_token k) now sale_id batch (mark_admitted p.user_id sale_id rows)
        (A.set tokens (sale_id, p.user_id) 1 (now + admission_token_ttl * 1000))
  admit_users (at_row zero) now sale_id (p ∷ batch) rows tokens =
      (rows, A.set tokens (sale_id, p.user_id) 1 (now + admission_token_ttl * 1000))
  admit_users (at_row (suc k)) now sale_id (p ∷ batch) rows tokens =
      admit_users (at_row k) now sale_id batch (mark_admitted p.user_id sale_id rows)
        (A.set tokens (sale_id, p.user_id) 1 (now + admission_token_ttl * 1000))

  -- With the number of users admitted, or the exception.
  unfoldable pub admit_batch :
      Interruption → ℕ → ℕ → List Preregistration → A.Db → Outcome ℕ × List Preregistration × A.Db
  admit_batch fault now sale_id rows tokens =
      let batch = get_preregistrations_for_sale sale_id batch_size rows in
      let (rows', tokens') = admit_users fault now sale_id batch rows tokens in
      (if gets_through fault (length batch) then done (length batch) else raised, rows', tokens')

  -- The rounds of `run_admission_worker`, at the times that it wakes up, after a pause that depends on
  -- the outcome of the round before: a time after the end of the sale stops it, and an exception does
  -- not.
  unfoldable pub run_admission_worker :
      List (ℕ × Interruption) → ℕ → ℕ → List Preregistration → A.Db → List Preregistration × A.Db
  run_admission_worker [] sale_id ends_at rows tokens = (rows, tokens)
  run_admission_worker ((now, fault) ∷ later) sale_id ends_at rows tokens =
      let (outcome, rows', tokens') = admit_batch fault now sale_id rows tokens in
      if ltb ends_at now
      then (rows, tokens)
      else run_admission_worker later sale_id ends_at rows' tokens'
