-- ===== src/Cart/Lines/Invariant.antt =====
-- Every line operation keeps the carts valid.
use vp_parts.Base.{ℕ, refl, inl, inr, not, arith, Option-cases, All-update_where}
use vp_parts.Cart.Tables.{CartItem, Carts, Identity, CartLinePatch, in_cart, is_line}
use vp_parts.Cart.Lines.{
  add_line, update_line, remove_line, set_all_selected, clear, patched, adding, patching, removing,
  selecting, emptying, selected,
}
use vp_parts.Cart.Lines.Valid.{
  Keeps, IsQuantity, IsValid, mutate-IsValid, updated-IsValid, kept-IsValid,
}
use vp_parts.Cart.Lines.Adding.{adding-IsValid}
use vp_parts.Cart.Lines.Operations.{
  CartOp, adds, updates, removes, selects, clears, apply_op, IsAdmitted,
}

patched-IsQuantity :
    (patch : CartLinePatch) (i : Identity) (x : CartItem)
    → IsAdmitted (updates i patch)
    → IsQuantity x
    → IsQuantity (patched patch x)
patched-IsQuantity patch i x h q = elim (Option-cases patch.quantity) [
  | inl e ↦ ground arith
  | inr (n, e) ↦ ground arith
]

-- Every line operation that goes through leaves valid carts valid: no cart over its lines, no
-- article twice in one, every quantity between one and the maximum. The operation's quantity, where
-- it sends one, is one that the request's schema admits.
pub apply_op-IsValid :
    (k now : ℕ) (op : CartOp) (s : Carts)
    → IsAdmitted op
    → IsValid s
    → Keeps IsValid (apply_op k now op s)
unfolding apply_op add_line update_line remove_line set_all_selected clear
apply_op-IsValid k now (adds line) s h v =
    mutate-IsValid k now (adding k now line) s (adding-IsValid k now line s h.0 h.1 v)
apply_op-IsValid k now (updates i patch) s h v =
    let after =
      updated-IsValid s v (is_line k i) (patched patch) (λ c x. refl) (λ c j x. refl)
        (All-update_where IsQuantity (is_line k i) (patched patch) s.items
          (λ x q _. patched-IsQuantity patch i x h q) v.quantities) in
    mutate-IsValid k now (patching k i patch) s (ground (arith, after))
apply_op-IsValid k now (removes i) s h v =
    mutate-IsValid k now (removing k i) s (kept-IsValid s (λ x. not (is_line k i x)) v)
apply_op-IsValid k now (selects b) s h v = mutate-IsValid k now (selecting k b) s (
    updated-IsValid s v (in_cart k) (selected b) (λ c x. refl) (λ c i x. refl)
      (All-update_where IsQuantity (in_cart k) (selected b) s.items (λ x q _. q) v.quantities))
apply_op-IsValid k now clears s h v =
    mutate-IsValid k now (emptying k) s (kept-IsValid s (λ x. not (in_cart k x)) v)
