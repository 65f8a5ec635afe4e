-- ===== src/Storage/Header.antt =====
-- The slot bitmap of a page: `TuplePresent`, `MarkOccupied` and `MarkFree` of
-- komfydb/storage/heap_page.cc.
pub mod Bits
use Prim.Native.Nat.{bit_and, bit_or}
use komfy_db.Base.{ℕ, ◌-◌, ◌/◌, ◌%◌, ◌^◌, Bool, true, false, not, ◌==◌, Bytes, get_elem?, set}
use komfy_db.Base.Int.{ℤ, pos, negsuc}
use komfy_db.Base.Status.{StatusOr, ok, err, ◌>>=◌, or_err, invalid_argument}

-- `b & (1 << k)`, as a bool.
abbrev pub test_bit : ℕ → ℕ → Bool
test_bit b k = not (bit_and b (2 ^ k) == 0)

unfoldable pub tuple_present : Bytes → ℤ → StatusOr Bool
tuple_present header (negsuc i) = err invalid_argument
tuple_present header (pos i) = do
  b ← or_err (get_elem? header (i / 8)) invalid_argument
  ok (test_bit b (i % 8))

unfoldable pub mark_occupied : Bytes → ℤ → StatusOr Bytes
mark_occupied header (negsuc i) = err invalid_argument
mark_occupied header (pos i) = do
  b ← or_err (get_elem? header (i / 8)) invalid_argument
  ok (set header (i / 8) (bit_or b (2 ^ (i % 8))))

-- On a byte, `~(1 << k)` is `255 - (1 << k)`.
unfoldable pub mark_free : Bytes → ℤ → StatusOr Bytes
mark_free header (negsuc i) = err invalid_argument
mark_free header (pos i) = do
  b ← or_err (get_elem? header (i / 8)) invalid_argument
  ok (set header (i / 8) (bit_and b (255 - 2 ^ (i % 8))))
