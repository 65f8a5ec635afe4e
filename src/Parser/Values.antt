-- ===== src/Parser/Values.antt =====
-- What INSERT and CREATE TABLE hand on fits the tables: komfydb/parser.cc.
use mathlib.Core.Path.{subst}
use komfy_db.Base.{ℕ, ◌==◌, ◌≡◌, ◌≤◌, List, [], ◌∷◌, some, length, arith}
use komfy_db.Base.Int.{to_int-is_int}
use komfy_db.Base.Status.{ok, guard, invalid_argument, >>=-eq-ok, ok-injective}
use komfy_db.Common.Field.{Field, FieldType, int, string}
use komfy_db.Common.Tuple.{Tuple}
use komfy_db.Common.TupleDesc.{TdItem, TupleDesc}
use komfy_db.Parser.Syntax.{Expr, Exprs, literal_int, literal_string}
use komfy_db.Parser.Statement.{value_field, value_fields, size, get_tuple}
use komfy_db.Storage.Codec.RoundTrip.{IsStorable, HasNoNul}
use komfy_db.Storage.HeapPage.Slots.{Fits}

-- The texts among the values have at most `max` bytes, and no byte 0, as a `char*` has none.
abbrev pub ShortText : ℕ → Expr → Type 0
ShortText max (literal_string s) = (length s ≤ max) × HasNoNul s
ShortText max value = Unit

abbrev pub ShortTexts : ℕ → Exprs → Type 0
ShortTexts max Exprs.nil = Unit
ShortTexts max (Exprs.cons value values) = ShortText max value × ShortTexts max values

value_field-IsStorable :
    (max : ℕ) (t : FieldType) (value : Expr) (f : Field)
    → ShortText max value
    → value_field t value ≡ ok f
    → IsStorable max t f
unfolding value_field
value_field-IsStorable max int (literal_int v) f h e =
    subst (IsStorable max int) (ok-injective e) (to_int-is_int v)
value_field-IsStorable max string (literal_string s) f h e =
    subst (IsStorable max string) (ok-injective e) h
value_field-IsStorable max int Expr.null f h e = absurd (ground arith)
value_field-IsStorable max string Expr.null f h e = absurd (ground arith)
value_field-IsStorable max int value f h e = absurd (ground arith)
value_field-IsStorable max string value f h e = absurd (ground arith)

value_fields-Fits :
    (max : ℕ) (items : List TdItem) (values : Exprs) (t : Tuple)
    → ShortTexts max values
    → size values ≡ length items
    → value_fields items values ≡ ok t
    → Fits max items t
unfolding value_fields size
value_fields-Fits max [] values t h n e = subst (Fits max []) (ok-injective e) tt
value_fields-Fits max (item ∷ items) Exprs.nil t h n e = absurd (omega arith)
value_fields-Fits max (item ∷ items) (Exprs.cons value values) t h n e =
    let (f, ef, e') = >>=-eq-ok (value_field item.field_type value) _ e in
    let (rest, er, e'') = >>=-eq-ok (value_fields items values) (λ rest. ok (some f ∷ rest)) e' in
    subst (Fits max (item ∷ items)) (ok-injective e'') (
      value_field-IsStorable max item.field_type value f h.0 ef,
      value_fields-Fits max items values rest h.1 (omega arith) er,
    )

-- A tuple that an INSERT makes of values fits the schema of the table, where the texts have at most `max`
-- bytes: it has a value of the right type in each column, and a page can hold it.
pub get_tuple-Fits :
    (max : ℕ) (values : Exprs) (td : TupleDesc) (t : Tuple)
    → ShortTexts max values
    → get_tuple values td ≡ ok t
    → Fits max td.items t
unfolding get_tuple
get_tuple-Fits max values td t h e =
    let (u, checked, e') =
      >>=-eq-ok (guard (size values == length td.items) invalid_argument)
        (λ u. value_fields td.items values) e in
    value_fields-Fits max td.items values t h (ground (arith)) e'
