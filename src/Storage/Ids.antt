-- ===== src/Storage/Ids.antt =====
-- Page and record identifiers, and records: komfydb/storage/page_id.cc, record_id.cc, record.cc.
use komfy_db.Base.{ℕ, Bool, true, false, ◌&&◌, ◌==◌, ◌≡◌, ◌↔◌, refl, sym, ==_iff, ==_refl, arith}
use komfy_db.Base.Int.{ℤ, eqb_ℤ}
use komfy_db.Base.Status.{StatusOr, ok, ◌>>=◌}
use komfy_db.Common.Tuple.{Tuple, tuple_eq}

pub record PageId : Type 0 where
  pub table_id : ℕ
  pub page_no : ℕ

-- `PageId::operator==`
abbrev pub page_eq : PageId → PageId → Bool
page_eq a b = (a.table_id == b.table_id) && (a.page_no == b.page_no)

-- It decides equality.
pub page_eq_iff : (a b : PageId) → (page_eq a b ≡ true) ↔ (a ≡ b)
page_eq_iff a b = (same, λ e. rw (sym e, ==_refl a.table_id, ==_refl a.page_no) refl)
  where
    same : page_eq a b ≡ true → a ≡ b
    same h =
        let (t, n) = both (a.table_id == b.table_id) (a.page_no == b.page_no) h in
        λ i. record {
          table_id = (==_iff a.table_id b.table_id).0 t i;
          page_no = (==_iff a.page_no b.page_no).0 n i;
        }
      where
        both : (x y : Bool) → (x && y) ≡ true → (x ≡ true) × (y ≡ true)
        both true y e = (refl, e)
        both false y e = ground arith

pub record RecordId : Type 0 where
  pub pid : PageId
  pub tuple_no : ℤ

-- `RecordId::operator==`
unfoldable pub rid_eq : RecordId → RecordId → Bool
rid_eq a b = eqb_ℤ a.tuple_no b.tuple_no && page_eq a.pid b.pid

pub record Record : Type 0 where
  pub tuple : Tuple
  pub rid : RecordId

-- `Record::operator==`
unfoldable pub record_eq : Record → Record → StatusOr Bool
unfolding rid_eq
record_eq a b = do same ← tuple_eq a.tuple b.tuple; ok (same && rid_eq b.rid a.rid)
