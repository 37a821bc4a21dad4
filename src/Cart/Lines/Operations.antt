-- ===== src/Cart/Lines/Operations.antt =====
-- The line operations as one type of request.
use vp_parts.Base.{ℕ, ◌≤◌, Bool, none, some}
use vp_parts.Cart.Tables.{
  Carts, Identity, CartLineInput, CartLinePatch, Result, max_cart_line_quantity,
}
use vp_parts.Cart.Lines.{add_line, update_line, remove_line, set_all_selected, clear}

-- One request's change of a cart's lines.
pub data CartOp : Type 0 where
  adds : CartLineInput → CartOp
  updates : Identity → CartLinePatch → CartOp
  removes : Identity → CartOp
  selects : Bool → CartOp
  clears : CartOp

unfoldable pub apply_op : ℕ → ℕ → CartOp → Carts → Result Carts
apply_op k now (adds line) = add_line k now line
apply_op k now (updates i patch) = update_line k now i patch
apply_op k now (removes i) = remove_line k now i
apply_op k now (selects b) = set_all_selected k now b
apply_op k now clears = clear k now

-- The request's schema: a quantity that is sent lies between one and the maximum of a line.
abbrev pub IsAdmitted : CartOp → Type 0
IsAdmitted (adds line) = (1 ≤ line.quantity) × (line.quantity ≤ max_cart_line_quantity)
IsAdmitted (updates i patch) = elim patch.quantity [
  | none ↦ Unit {0}
  | some q ↦ (1 ≤ q) × (q ≤ max_cart_line_quantity)
]
IsAdmitted (removes i) = Unit {0}
IsAdmitted (selects b) = Unit {0}
IsAdmitted clears = Unit {0}
