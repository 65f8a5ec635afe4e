-- ===== src/Common/Op.antt =====
-- Comparison operators: komfydb/execution/op.h and op.cc.

use komfy_db.Base.{List, [], ◌∷◌, if◌then◌else◌, Bytes, codes, bytes_eq}
use komfy_db.Base.Status.{StatusOr, ok, err, invalid_argument}

-- `Op::Value`
pub data Op : Type 0 where
  equals greater_than less_than less_than_or_eq greater_than_or_eq like not_equals : Op

-- `Op::Flip`: change `<` to `>`, `<=` to `>=` and so on.
unfoldable pub flip : Op → Op
flip greater_than = less_than
flip greater_than_or_eq = less_than_or_eq
flip less_than = greater_than
flip less_than_or_eq = greater_than_or_eq
flip equals = equals
flip not_equals = not_equals
flip like = like

-- The table `str_to_op`.
abbrev pub str_to_op_table : List (Bytes × Op)
str_to_op_table =
    (codes "=", equals)
    ∷ (codes "==", equals)
    ∷ (codes ">", greater_than)
    ∷ (codes ">=", greater_than_or_eq)
    ∷ (codes "<", less_than)
    ∷ (codes "<=", less_than_or_eq)
    ∷ (codes "LIKE", like)
    ∷ (codes "~", like)
    ∷ (codes "!=", not_equals)
    ∷ (codes "<>", not_equals)
    ∷ []

unfoldable pub find_op : Bytes → List (Bytes × Op) → StatusOr Op
find_op op [] = err invalid_argument
find_op op ((key, v) ∷ rest) = if bytes_eq key op then ok v else find_op op rest

-- `Op::StrToOp`
unfoldable pub str_to_op : Bytes → StatusOr Op
unfolding find_op bytes_eq
str_to_op op = find_op op str_to_op_table

-- `Op::operator std::string`
unfoldable pub op_to_str : Op → Bytes
op_to_str equals = codes "="
op_to_str greater_than = codes ">"
op_to_str less_than = codes "<"
op_to_str less_than_or_eq = codes "<="
op_to_str greater_than_or_eq = codes ">="
op_to_str like = codes "~"
op_to_str not_equals = codes "!="
