-- ===== src/Storage/Codec/RoundTrip.antt =====
-- Dumping and parsing fields (komfydb/storage/heap_page.cc).
use komfy_db.Base.{
  ℕ, zero, suc, ◌+◌, ◌-◌, ◌*◌, ◌/◌, ◌%◌, ◌^◌, ◌≤◌, ◌<◌, ◌≡◌, refl, sym, ap, ◌∙◌, ◌≢◌, ◌⊎◌, inl, inr,
  true, [], ◌∷◌, ◌++◌, Bytes, length, length-append, length-replicate, drop, replicate, some, arith,
  drop-append, drop-drop, take-append,
}
use mathlib.Core.List.{append_assoc}
use komfy_db.Base.Int.{ℤ, pos, negsuc, is_int}
use komfy_db.Base.Status.{ok, ok-injective}
use komfy_db.Common.Field.{Field, int_field, string_field, FieldType, int, string, get_len, str_len}
use komfy_db.Storage.Codec.{
  load32_le, swap32, signed32, unsigned32, parse_int, c_string, parse_string, parse_field, dump_int,
  dump_string, dump_field,
}

swap32_bytes :
    (a b c d : ℕ)
    → a < 256
    → b < 256
    → c < 256
    → d < 256
    → swap32 (a + b * 2 ^ 8 + c * 2 ^ 16 + d * 2 ^ 24) ≡ d + c * 2 ^ 8 + b * 2 ^ 16 + a * 2 ^ 24
unfolding swap32
swap32_bytes a b c d ha hb hc hd = omega arith

swap32_join :
    (w : ℕ)
    → w < 2 ^ 32
    → w % 2 ^ 8
        + w / 2 ^ 8 % 2 ^ 8 * 2 ^ 8
        + w / 2 ^ 16 % 2 ^ 8 * 2 ^ 16
        + w / 2 ^ 24 % 2 ^ 8 * 2 ^ 24
      ≡ w
swap32_join w h = omega arith

swap32-lt : (w : ℕ) → swap32 w < 2 ^ 32
unfolding swap32
swap32-lt w = omega arith

swap32_twice : (w : ℕ) → w < 2 ^ 32 → swap32 (swap32 w) ≡ w
unfolding swap32
swap32_twice w h = omega arith

signed32-unsigned32 : (v : ℤ) → is_int v ≡ true → signed32 (unsigned32 v) ≡ v
signed32-unsigned32 (pos n) h = ground arith
signed32-unsigned32 (negsuc n) h = ground arith

unsigned32-lt : (v : ℤ) → unsigned32 v < 2 ^ 32
unsigned32-lt (pos n) = omega arith
unsigned32-lt (negsuc n) = omega arith

-- An `int` written where the data is read is read back.
parse_int-dump_int :
    (all rest : Bytes) (idx : ℕ) (v : ℤ)
    → is_int v ≡ true
    → drop idx all ≡ dump_int v ++ rest
    → parse_int all idx ≡ ok v
unfolding parse_int load32_le dump_int
parse_int-dump_int all rest idx v h at = rw at (
    ap ok (
      ap signed32
        (ap swap32 (swap32_join _ (swap32-lt (unsigned32 v))) ∙ swap32_twice _ (unsigned32-lt v))
      ∙ signed32-unsigned32 v h))

-- No NUL inside.
abbrev pub HasNoNul : Bytes → Type 0
HasNoNul [] = Unit
HasNoNul (c ∷ s) = (c ≢ 0) × HasNoNul s

-- A NUL somewhere.
abbrev pub HasNul : Bytes → Type 0
HasNul s = (t : Bytes) × (c_string s ≡ some t)

c_string-append :
    (s r t : Bytes) → HasNoNul s → c_string r ≡ some t → c_string (s ++ r) ≡ some (s ++ t)
unfolding c_string
c_string-append [] r t h e = e
c_string-append (c ∷ s) r t h e = ground (arith, c_string-append s r t h.1)

pub HasNul-append : (s r : Bytes) → HasNul r → HasNul (s ++ r)
unfolding c_string
HasNul-append [] r h = h
HasNul-append (c ∷ s) r h = grow c (HasNul-append s r h)
  where
    grow : (c : ℕ) → HasNul (s ++ r) → HasNul (c ∷ (s ++ r))
    grow zero (t, e) = ([], refl)
    grow (suc c) (t, e) = (suc c ∷ t, ground arith)

pub HasNul-replicate : (n : ℕ) (r : Bytes) → 0 < n → HasNul (replicate n 0 ++ r)
unfolding c_string
HasNul-replicate zero r h = elim h [ ]
HasNul-replicate (suc n) r h = ([], refl)

-- What can be stored in a column: a value of its type, an `int` in range, a string of at most `max`
-- bytes with no NUL.
abbrev pub IsStorable : ℕ → FieldType → Field → Type 0
IsStorable max int (int_field v) = is_int v ≡ true
IsStorable max string (string_field s) = (length s ≤ max) × HasNoNul s
IsStorable max int (string_field s) = ⊥
IsStorable max string (int_field v) = ⊥

-- The last string on a page ends before the end of the data.
abbrev pub Room : ℕ → Bytes → Type 0
Room max rest = (max < 128) ⊎ HasNul rest

HasNul-padding :
    (max n : ℕ) (rest : Bytes)
    → n ≤ max
    → Room max rest
    → HasNul (replicate (str_len - n) 0 ++ rest)
HasNul-padding max n rest h (inl short) = HasNul-replicate (str_len - n) rest (omega arith)
HasNul-padding max n rest h (inr nul) = HasNul-append (replicate (str_len - n) 0) rest nul

-- the bytes that `dump_string` gives for a string that fits
abbrev string_bytes : Bytes → Bytes
string_bytes s = dump_int (pos (length s)) ++ (s ++ replicate (str_len - length s) 0)

length-dump_int : (v : ℤ) → length (dump_int v) ≡ 4
unfolding dump_int
length-dump_int v = refl

dump_string-bytes : (s : Bytes) → length s ≤ 128 → dump_string s ≡ ok (string_bytes s)
unfolding dump_string
dump_string-bytes s h = ground arith

length-string_bytes : (s : Bytes) → length s ≤ 128 → length (string_bytes s) ≡ 132
length-string_bytes s h = omega (
  arith,
  length-append (dump_int (pos (length s))) (s ++ replicate (str_len - length s) 0),
  length-append s (replicate (str_len - length s) 0),
  length-replicate {0} {A = ℕ} (str_len - length s) 0,
  length-dump_int (pos (length s)),
)

parse_string-dump :
    (max : ℕ) (all rest : Bytes) (idx : ℕ) (s : Bytes)
    → length s ≤ max
    → max ≤ 128
    → HasNoNul s
    → Room max rest
    → drop idx all ≡ string_bytes s ++ rest
    → parse_string all idx ≡ ok s
unfolding parse_string
parse_string-dump max all rest idx s fits small clean room at =
    let pad : Bytes = replicate (str_len - length s) 0 in
    let (t, found) = HasNul-padding max (length s) rest fits room in
    let at4 : drop (idx + 4) all ≡ s ++ (pad ++ rest) =
      drop-drop idx 4 all
      ∙ ap (drop 4) at
      ∙ ap (drop 4) (append_assoc (dump_int (pos (length s))) (s ++ pad) rest)
      ∙ drop-append (dump_int (pos (length s))) ((s ++ pad) ++ rest) 4 (sym (length-dump_int _))
      ∙ append_assoc s pad rest in
    rw
      (
        parse_int-dump_int all ((s ++ pad) ++ rest) idx (pos (length s)) (ground arith)
            (at ∙ append_assoc (dump_int (pos (length s))) (s ++ pad) rest),
        at4,
        c_string-append s (pad ++ rest) t clean found,
      )
      (ap ok (take-append s t))

-- A storable field is dumped to as many bytes as its type takes.
pub dump_field-ok :
    (max : ℕ) (t : FieldType) (f : Field)
    → IsStorable max t f
    → max ≤ 128
    → (b : Bytes) × (dump_field t f ≡ ok b) × (length b ≡ get_len t)
unfolding dump_field get_len
dump_field-ok max int (int_field v) h small = (dump_int v, refl, length-dump_int v)
dump_field-ok max string (string_field s) h small =
    (string_bytes s, dump_string-bytes s (omega arith), length-string_bytes s (omega arith))
dump_field-ok max int (string_field s) h small = absurd h
dump_field-ok max string (int_field v) h small = absurd h

pub parse_field-dump_field :
    (max : ℕ) (t : FieldType) (f : Field) (all b rest : Bytes) (idx : ℕ)
    → IsStorable max t f
    → max ≤ 128
    → Room max rest
    → dump_field t f ≡ ok b
    → drop idx all ≡ b ++ rest
    → parse_field t all idx ≡ ok (f, idx + get_len t)
unfolding parse_field dump_field get_len
parse_field-dump_field max int (int_field v) all b rest idx h small room e at =
    rw (parse_int-dump_int all rest idx v h (at ∙ ap (λ c. c ++ rest) (sym (ok-injective e))))
parse_field-dump_field max string (string_field s) all b rest idx h small room e at =
    rw
      (parse_string-dump max all rest idx s h.0 small h.1 room (
        at
        ∙ ap (λ c. c ++ rest)
            (sym (
              ok-injective {a = string_bytes s} {b = b}
                (sym (dump_string-bytes s (omega arith)) ∙ e)))))
      (ap (λ n. ok (string_field s, n)) (omega arith))
parse_field-dump_field max int (string_field s) all b rest idx h small room e at = absurd h
parse_field-dump_field max string (int_field v) all b rest idx h small room e at = absurd h
