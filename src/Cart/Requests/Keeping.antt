-- ===== src/Cart/Requests/Keeping.antt =====
-- The requests on a cart's lines keep the tables valid, in every answer.
use vp_parts.Base.{ℕ, inl, inr, Bool, Option, none, Bool-cases, Option-cases, not, ◌||◌}
use vp_parts.Cart.Tables.{
  Carts, Identity, CartLineInput, CartLinePatch, Result, ok, err, create_for_guest,
  create_for_customer,
}
use vp_parts.Cart.Lines.Valid.{Keeps, IsValid}
use vp_parts.Cart.Lines.Operations.{
  CartOp, adds, updates, removes, selects, clears, apply_op, IsAdmitted,
}
use vp_parts.Cart.Lines.Invariant.{apply_op-IsValid}
use vp_parts.Cart.Requests.{
  CartRequester, CartOwner, customer, guest, answer_of, owned_cart, create_cart, resolve_owner,
  request_add, request_update, request_remove, request_select_all, request_clear, holds_line,
  is_empty_patch, on_owned_cart,
}

answer_of-IsValid :
    (s : Carts) (minted : Option ℕ) (r : Result Carts)
    → IsValid s
    → Keeps IsValid r
    → IsValid (answer_of s minted r).tables
answer_of-IsValid s minted (ok s') v kept = kept
answer_of-IsValid s minted (err e) v kept = v

create_cart-IsValid :
    (owner : CartOwner) (id drawn_token now : ℕ) (s : Carts)
    → IsValid s
    → IsValid (create_cart owner id drawn_token now s).0
unfolding create_cart create_for_customer create_for_guest
create_cart-IsValid (customer c) id drawn_token now s v = record {
  room = v.room;
  unique = v.unique;
  quantities = v.quantities;
}
create_cart-IsValid (guest t) id drawn_token now s v = record {
  room = v.room;
  unique = v.unique;
  quantities = v.quantities;
}

module _ (find_customer : ℕ → Option ℕ) (requester : CartRequester) (now : ℕ) (read s : Carts)
    (v : IsValid s) where
  request_add-IsValid :
      (id drawn_token : ℕ) (line : CartLineInput)
      → IsAdmitted (adds line)
      → IsValid (request_add find_customer requester now read s id drawn_token line).tables
  unfolding request_add apply_op
  request_add-IsValid id drawn_token line h =
      elim (Option-cases (owned_cart find_customer requester now read s)) [
        | inl e ↦
            let owner = resolve_owner find_customer requester in
            let made = create_cart-IsValid owner id drawn_token now s v in
            rw (e, request_add)
              (answer_of-IsValid (create_cart owner id drawn_token now s).0
                (create_cart owner id drawn_token now s).1 _ made
                (apply_op-IsValid id now (adds line) _ h made))
        | inr (cart, e) ↦
            rw (e, request_add)
              (answer_of-IsValid s none _ v (apply_op-IsValid cart.id now (adds line) s h v))
      ]

  on_owned_cart-IsValid :
      (op : CartOp)
      → IsAdmitted op
      → IsValid (on_owned_cart find_customer requester now read s (λ id. apply_op id now op)).tables
  on_owned_cart-IsValid op h = elim (Option-cases (owned_cart find_customer requester now read s)) [
    | inl e ↦ rw (e, on_owned_cart) v
    | inr (cart, e) ↦
        rw (e, on_owned_cart) (answer_of-IsValid s none _ v (apply_op-IsValid cart.id now op s h v))
  ]

  request_update-IsValid :
      (i : Identity) (patch : CartLinePatch)
      → IsAdmitted (updates i patch)
      → IsValid (request_update find_customer requester now read s i patch).tables
  unfolding request_update apply_op
  request_update-IsValid i patch h =
      elim (Option-cases (owned_cart find_customer requester now read s)) [
        | inl e ↦ rw (e, request_update) v
        | inr (cart, e) ↦
            rw (e, request_update)
              (elim (Bool-cases (not (holds_line cart i read) || is_empty_patch patch)) [
                | inl on ↦ rw on v
                | inr off ↦ rw off (
                    answer_of-IsValid s none _ v
                      (apply_op-IsValid cart.id now (updates i patch) s h v))
              ])
      ]

-- A request on a cart's lines that finds valid tables leaves valid tables: no cart over its lines,
-- no article twice in one, every quantity between one and the maximum. This holds when the request
-- is refused, when it makes the cart, and when other requests came between its read and its write.
-- The quantities that are sent are ones that the request's schema admits.
pub requests_keep_valid :
    (find_customer : ℕ → Option ℕ) (requester : CartRequester) (now : ℕ) (read s : Carts)
    (id drawn_token : ℕ) (line : CartLineInput) (i : Identity) (patch : CartLinePatch) (b : Bool)
    → IsValid s
    → IsAdmitted (adds line)
    → IsAdmitted (updates i patch)
    → IsValid (request_add find_customer requester now read s id drawn_token line).tables
      × IsValid (request_update find_customer requester now read s i patch).tables
      × IsValid (request_remove find_customer requester now read s i).tables
      × IsValid (request_select_all find_customer requester now read s b).tables
      × IsValid (request_clear find_customer requester now read s).tables
unfolding request_remove request_select_all request_clear apply_op
requests_keep_valid find_customer requester now read s id drawn_token line i patch b v h h' = (
  request_add-IsValid find_customer requester now read s v id drawn_token line h,
  request_update-IsValid find_customer requester now read s v i patch h',
  on_owned_cart-IsValid find_customer requester now read s v (removes i) tt,
  on_owned_cart-IsValid find_customer requester now read s v (selects b) tt,
  on_owned_cart-IsValid find_customer requester now read s v clears tt,
)
