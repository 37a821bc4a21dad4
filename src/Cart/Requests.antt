-- ===== src/Cart/Requests.antt =====
-- The requests on a cart's lines, apps/api/src/cart/cart.service.ts. The customer of an account, the
-- line's shipping profile and what the platform draws for a new cart are arguments. `read` are the
-- tables when the cart was looked up, `s` those that the write finds. A request that is refused may
-- have made a cart, so that an answer has the tables in either case; the cart that the client sees
-- is read from them.
use vp_parts.Base.{
  ℕ, Bool, not, ◌&&◌, ◌||◌, Option, none, some, if◌then◌else◌, is_some_of, is_none, any_row,
}
use vp_parts.Cart.Tables.{
  Cart, Carts, Identity, CartLineInput, CartLinePatch, CartError, Result, ok, err, version_conflict,
  cart_closed, capacity_conflict, item_not_found, record_not_found, find_active_by_token,
  find_active_by_customer, find_by_id, items_of, create_for_guest, create_for_customer, is_line,
}
use vp_parts.Cart.Lines.{add_line, update_line, remove_line, set_all_selected, clear}
pub mod Keeping

pub record CartRequester : Type 0 where
  pub clerk_id : Option ℕ
  pub token : Option ℕ

pub data CartOwner : Type 0 where
  customer : ℕ → CartOwner
  guest : Option ℕ → CartOwner

-- The errors that the client sees; `other_error` is one that is thrown on as it is.
pub data CartRefusal : Type 0 where
  cart_full line_not_found cart_stale other_error : CartRefusal

pub record CartAnswer : Type 0 where
  pub tables : Carts
  pub refusal : Option CartRefusal
  pub minted_token : Option ℕ

unfoldable pub to_refusal : CartError → CartRefusal
to_refusal capacity_conflict = cart_full
to_refusal item_not_found = line_not_found
to_refusal cart_closed = cart_stale
to_refusal version_conflict = cart_stale
to_refusal record_not_found = other_error

-- The answer of one write on tables: where it fails, they are as they were.
abbrev pub answer_of : Carts → Option ℕ → Result Carts → CartAnswer
answer_of s minted (ok s') = record { tables = s'; refusal = none; minted_token = minted }
answer_of s minted (err e) = record {
  tables = s;
  refusal = some (to_refusal e);
  minted_token = none;
}

abbrev pub unchanged_answer : Carts → Option CartRefusal → CartAnswer
unchanged_answer s refusal = record { tables = s; refusal = refusal; minted_token = none }

unfoldable pub resolve_owner : (ℕ → Option ℕ) → CartRequester → CartOwner
resolve_owner find_customer requester = elim requester.clerk_id [
  | none ↦ guest requester.token
  | some clerk_id ↦ elim (find_customer clerk_id) [
    | none ↦ guest requester.token
    | some customer_id ↦ customer customer_id
  ]
]

unfoldable pub find_cart : CartOwner → Carts → Option Cart
unfolding find_active_by_customer find_active_by_token
find_cart (customer customer_id) s = find_active_by_customer customer_id s
find_cart (guest none) s = none
find_cart (guest (some token)) s = find_active_by_token token s

abbrev pub holds_line : Cart → Identity → Carts → Bool
holds_line cart i s = any_row (is_line cart.id i) (items_of cart.id s)

abbrev pub is_empty_patch : CartLinePatch → Bool
is_empty_patch patch = is_none patch.quantity && is_none patch.is_selected

-- A cart made for its owner, with the token that the browser is told.
unfoldable pub create_cart : CartOwner → ℕ → ℕ → ℕ → Carts → Carts × Option ℕ
unfolding create_for_customer create_for_guest
create_cart (customer customer_id) id drawn_token now s =
    (create_for_customer id customer_id now s, none)
create_cart (guest token) id drawn_token now s =
    (create_for_guest id drawn_token now s, some drawn_token)

module _ (find_customer : ℕ → Option ℕ) (requester : CartRequester) (now : ℕ) (read s : Carts) where
  abbrev pub owned_cart : Option Cart
  owned_cart = find_cart (resolve_owner find_customer requester) read

  unfoldable pub request_add : ℕ → ℕ → CartLineInput → CartAnswer
  unfolding resolve_owner find_cart create_cart
  request_add id drawn_token line = elim owned_cart [
    | some cart ↦ answer_of s none (add_line cart.id now line s)
    | none ↦
        let (created, minted) =
          create_cart (resolve_owner find_customer requester) id drawn_token now s in
        answer_of created minted (add_line id now line created)
  ]

  unfoldable pub request_update : Identity → CartLinePatch → CartAnswer
  request_update i patch = elim owned_cart [
    | none ↦ unchanged_answer s (some line_not_found)
    | some cart ↦
        if not (holds_line cart i read) || is_empty_patch patch
        then unchanged_answer s (some line_not_found)
        else answer_of s none (update_line cart.id now i patch s)
  ]

  -- A request on the cart, if there is one.
  abbrev pub on_owned_cart : (ℕ → Carts → Result Carts) → CartAnswer
  on_owned_cart change = elim owned_cart [
    | none ↦ unchanged_answer s none
    | some cart ↦ answer_of s none (change cart.id s)
  ]

  unfoldable pub request_remove : Identity → CartAnswer
  request_remove i = on_owned_cart (λ id. remove_line id now i)

  unfoldable pub request_select_all : Bool → CartAnswer
  request_select_all b = on_owned_cart (λ id. set_all_selected id now b)

  unfoldable pub request_clear : CartAnswer
  request_clear = on_owned_cart (λ id. clear id now)

-- A customer's cart by its id, in any status, unless it is not theirs.
unfoldable pub find_owned_cart : ℕ → ℕ → Carts → Option Cart
unfolding find_by_id
find_owned_cart customer_id cart_id s = elim (find_by_id cart_id s) [
  | none ↦ none
  | some cart ↦ if is_some_of cart.customer_id customer_id then some cart else none
]

unfoldable pub find_guest_cart : ℕ → ℕ → Carts → Option Cart
unfolding find_by_id
find_guest_cart token cart_id s = elim (find_by_id cart_id s) [
  | none ↦ none
  | some cart ↦
      if is_some_of cart.token token || is_some_of cart.released_token token
      then some cart
      else none
]
