-- ===== src/Orders/Examples.antt =====
-- A cart that is ordered from once and again.
use vp_parts.Base.{◌≡◌, refl, true, false, none, some, [], ◌∷◌}
use vp_parts.Cart.Tables.{
  Cart, active, CartItem, Result, ok, err, lock_cart, find_by_id, guest_expiry, new_cart,
}
use vp_parts.Cart.Lifecycle.{close_for_order}
use vp_parts.Orders.{
  cash_on_delivery, OrderContact, NewOrder, Shop, Drawn, OrderReference, OrderPlacement, replayed,
  place, place_open, create_order, to_order_data, announce, find_reference,
}
use vp_parts.Outbox.{append}
use vp_parts.Orders.Placement.{place_twice}
use vp_parts.Orders.Service.Answers.{IsAnswered, place_from_cart_answers}
use vp_parts.Orders.Service.{
  CartForOrder, PlaceOrderRequest, PricedOrderLine, PricedOrder, PlacedOrder, Placing, answers,
  throws, Orderer, customer_orderer, place_from_cart, to_new_order, settle, replay, admit,
}

abbrev a_cart : Cart
a_cart = record {
  id = 1;
  token = none;
  released_token = none;
  customer_id = some 5;
  status = active;
  version = 3;
  merged_into_id = none;
  order_id = none;
  expires_at = 1000;
}

abbrev brakes : CartItem
brakes = record {
  cart_id = 1;
  brand_id = 30;
  article_number = 31;
  quantity = 2;
  is_selected = true;
  added_at = 10;
  catalog = record {
    brand_name = 40;
    brand_logo_url = none;
    description = 41;
    thumbnail_url = none;
    added_at_price_inc_vat = some 1200;
  };
  shipping = record {
    weight_grams = some 900;
    package_length_cm = none;
    package_width_cm = none;
    package_height_cm = none;
    is_shipping_estimated = true;
  };
}

abbrev a_shop : Shop
a_shop = record {
  cart_tables = record {
    carts = a_cart ∷ [];
    items = brakes ∷ record brakes { article_number = 32; is_selected = false } ∷ [];
  };
  orders = [];
  status_history = [];
  outbox = [];
  card_payments = [];
  deliveries = [];
  next_reference = 17;
}

abbrev a_contact : OrderContact
a_contact = record { first_name = 50; last_name = 51; phone = 52; email = none }

abbrev a_line : PricedOrderLine
a_line = record {
  brand_id = 30;
  article_number = 31;
  brand_name = 40;
  description = 41;
  thumbnail_url = none;
  quantity = 2;
  unit_price = 1200;
}

abbrev the_prices : PricedOrder
the_prices = record {
  lines = a_line ∷ [];
  delivery = record {
    method = 1;
    carrier = some 1;
    destination = some 60;
    expected_delivery_date = none;
    parcel_weight_grams = some 900;
    delivery_price = 600;
    cash_on_delivery_fee = 0;
  };
  money = record {
    goods_total = 2400;
    delivery_price = 600;
    cash_on_delivery_fee = 0;
    total = 3000;
    net_amount = 2500;
    vat_amount = 500;
  };
}

abbrev read_cart : CartForOrder
read_cart = record { id = 1; version = 3; status = active; order_id = none }

abbrev a_request : PlaceOrderRequest
a_request = record {
  cart_version = 3;
  expected_total_cents = 3000;
  payment_method = cash_on_delivery;
}

abbrev an_order : NewOrder
unfolding to_new_order customer_orderer
an_order = to_new_order read_cart a_request (customer_orderer 5 a_contact a_request) the_prices

abbrev first_drawn : Drawn
first_drawn = record { order_id = 100; event_id = 200; cart_id = 2; now = 500 }

abbrev later_drawn : Drawn
later_drawn = record { order_id = 101; event_id = 201; cart_id = 3; now = 600 }

abbrev shop_of : Result (OrderPlacement × Shop) → Shop
shop_of (ok (p, s)) = s
shop_of (err e) = a_shop

abbrev the_answer : OrderReference
the_answer = record { id = 100; order_reference = 17 }

place_twice_example :
    place
      (record an_order { cart_version = 9 })
      later_drawn
      (shop_of (place an_order first_drawn a_shop))
    ≡ ok (replayed the_answer, shop_of (place an_order first_drawn a_shop))
unfolding place lock_cart place_open create_order to_order_data announce append close_for_order
    new_cart guest_expiry find_by_id find_reference an_order
place_twice_example =
    place_twice an_order (record an_order { cart_version = 9 }) first_drawn later_drawn a_shop
      (shop_of (place an_order first_drawn a_shop)) a_cart the_answer (refl, refl, refl, refl) refl
      refl

abbrev the_orderer : Orderer
unfolding customer_orderer
the_orderer = customer_orderer 5 a_contact a_request

abbrev answer_of : Placing (PlacedOrder × Shop) → PlacedOrder × Shop
answer_of (answers r) = r
answer_of (throws e) = (record { order = the_answer; is_replay = true }, a_shop)

abbrev the_placing : PlacedOrder × Shop
unfolding place_from_cart the_orderer
the_placing = answer_of (
    place_from_cart (some read_cart) a_request the_orderer true (answers the_prices) first_drawn
      a_shop a_shop)

place_from_cart_answers_example :
    IsAnswered read_cart a_request the_orderer true
      (answers the_prices)
      first_drawn
      a_shop
      a_shop
      the_placing.0
      the_placing.1
unfolding place_from_cart the_placing the_orderer customer_orderer replay admit to_new_order settle
    place lock_cart place_open create_order to_order_data announce append close_for_order new_cart
    guest_expiry
place_from_cart_answers_example =
    place_from_cart_answers read_cart a_request the_orderer true (answers the_prices) first_drawn
      a_shop a_shop the_placing.1 the_placing.0 refl
