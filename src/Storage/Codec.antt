-- ===== src/Storage/Codec.antt =====
-- Fields as bytes on a page: `load32_le`, `ParseInt`, `ParseString`, `DumpInt` and `DumpString` of
-- komfydb/storage/heap_page.cc.
pub mod RoundTrip
use komfy_db.Base.{
  ℕ, ◌+◌, ◌-◌, ◌*◌, ◌/◌, ◌%◌, ◌^◌, List, [], ◌∷◌, ◌++◌, if◌then◌else◌, leb, ltb, ◌==◌, Bytes,
  length, drop, take, replicate, Option, none, some,
}
use komfy_db.Base.Int.{ℤ, pos, negsuc}
use komfy_db.Base.Status.{StatusOr, ok, fault, ◌>>=◌, or_fault}
use komfy_db.Common.Field.{Field, int_field, string_field, FieldType, int, string, str_len, int_len}

-- `load32_le`; the four shifted bytes share no bit, so their `|` is their sum. Fewer than four
-- bytes are a read out of bounds.
unfoldable pub load32_le : Bytes → StatusOr ℕ
load32_le (v0 ∷ v1 ∷ v2 ∷ v3 ∷ rest) = ok (v0 + v1 * 2 ^ 8 + v2 * 2 ^ 16 + v3 * 2 ^ 24)
load32_le _ = fault

-- `ntohl` and `htonl` on a little-endian machine.
unfoldable pub swap32 : ℕ → ℕ
swap32 w =
    w % 2 ^ 8 * 2 ^ 24
    + w / 2 ^ 8 % 2 ^ 8 * 2 ^ 16
    + w / 2 ^ 16 % 2 ^ 8 * 2 ^ 8
    + w / 2 ^ 24 % 2 ^ 8

-- A `uint32_t` as an `int`, and back.
abbrev pub signed32 : ℕ → ℤ
signed32 w = if leb (2 ^ 31) w then negsuc (2 ^ 32 - 1 - w) else pos w

abbrev pub unsigned32 : ℤ → ℕ
unsigned32 (pos n) = n % 2 ^ 32
unsigned32 (negsuc n) = 2 ^ 32 - 1 - n % 2 ^ 32

-- `ParseInt(uint8_t*)`, at an index of the data.
unfoldable pub parse_int : Bytes → ℕ → StatusOr ℤ
unfolding load32_le swap32
parse_int all idx = do w ← load32_le (drop idx all); ok (signed32 (swap32 w))

-- The bytes in memory up to the first NUL; `none` if there is none.
unfoldable pub c_string : Bytes → Option Bytes
c_string [] = none
c_string (c ∷ s) =
    let rest = c_string s in
    if c == 0 then some [] else elim rest [ none ↦ none | some t ↦ some (c ∷ t) ]

-- `s.substr(0, n)`: a negative `n` is a huge `size_t`.
abbrev pub substr : ℤ → Bytes → Bytes
substr (pos n) s = take n s
substr (negsuc n) s = s

-- `ParseString`: the value. The index moves by four and by `STR_LEN`.
unfoldable pub parse_string : Bytes → ℕ → StatusOr Bytes
unfolding parse_int c_string
parse_string all idx = do
  string_len ← parse_int all idx
  s ← or_fault (c_string (drop (idx + 4) all))
  ok (substr string_len s)

-- The field of the given type at an index, and the index after it.
unfoldable pub parse_field : FieldType → Bytes → ℕ → StatusOr (Field × ℕ)
unfolding parse_string
parse_field int all idx = do v ← parse_int all idx; ok (int_field v, idx + int_len)
parse_field string all idx = do s ← parse_string all idx; ok (string_field s, idx + 4 + str_len)

-- `DumpInt`: the bytes in memory of the swapped word.
unfoldable pub dump_int : ℤ → Bytes
unfolding swap32
dump_int v =
    let w = swap32 (unsigned32 v) in
    w % 2 ^ 8 ∷ w / 2 ^ 8 % 2 ^ 8 ∷ w / 2 ^ 16 % 2 ^ 8 ∷ w / 2 ^ 24 % 2 ^ 8 ∷ []

-- `DumpString`: a negative padding is a huge count, and `insert` throws.
unfoldable pub dump_string : Bytes → StatusOr Bytes
unfolding dump_int
dump_string s =
    if leb (length s) str_len
    then ok (dump_int (pos (length s)) ++ (s ++ replicate (str_len - length s) 0))
    else fault

-- The switch of `GetPageData`: the field is cast to the column's type.
unfoldable pub dump_field : FieldType → Field → StatusOr Bytes
unfolding dump_string
dump_field int (int_field v) = ok (dump_int v)
dump_field string (string_field s) = dump_string s
dump_field int (string_field s) = fault
dump_field string (int_field v) = fault
