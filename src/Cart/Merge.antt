-- ===== src/Cart/Merge.antt =====
-- Uniting two carts: apps/api/src/cart/cart-merge.ts. The key `brandId:articleNumber` is the pair, which
-- it determines and which determines it, since a brand id is digits. `addedAt` is compared as the
-- instant that its ISO text names. A `Map` is its entries in insertion order.
pub mod Index
pub mod Reference
pub mod Totals
pub mod Union
use vp_parts.Base.{
  ℕ, zero, suc, ◌+◌, min, Bool, ◌&&◌, ◌||◌, Option, none, some, List, [], ◌∷◌, ◌++◌, ltb, leb, ◌==◌,
  if◌then◌else◌, length, sort_by,
}
use vp_parts.Cart.Shipping.{ResolvedShippingProfile}
use vp_parts.Cart.Tables.{Identity, Catalog, max_cart_lines, max_cart_line_quantity}

-- `StoredCartLine`
pub record StoredLine : Type 0 where
  pub identity : Identity
  pub quantity : ℕ
  pub is_selected : Bool
  pub added_at : ℕ
  pub catalog : Catalog
  pub shipping_profile : ResolvedShippingProfile

pub record CartMergeResult : Type 0 where
  pub lines : List StoredLine
  pub dropped : List Identity

abbrev pub same_key : Identity → Identity → Bool
same_key a b = (a.brand_id == b.brand_id) && (a.article_number == b.article_number)

-- `Map.get` and `Map.set`
abbrev pub index_of : Identity → List (Identity × ℕ) → Option ℕ
index_of k [] = none
index_of k ((j, i) ∷ entries) = if same_key j k then some i else index_of k entries

abbrev pub set_index : Identity → ℕ → List (Identity × ℕ) → List (Identity × ℕ)
set_index k v [] = (k, v) ∷ []
set_index k v ((j, i) ∷ entries) =
    if same_key j k then (j, v) ∷ entries else (j, i) ∷ set_index k v entries

-- `lines[index] = f(lines[index])`
abbrev pub modify_at : ℕ → (StoredLine → StoredLine) → List StoredLine → List StoredLine
modify_at i f [] = []
modify_at zero f (x ∷ xs) = f x ∷ xs
modify_at (suc i) f (x ∷ xs) = x ∷ modify_at i f xs

pub raise_by : StoredLine → StoredLine → StoredLine
raise_by existing incoming =
    record (if leb existing.added_at incoming.added_at then existing else incoming) {
      quantity = min max_cart_line_quantity (existing.quantity + incoming.quantity);
      is_selected = existing.is_selected || incoming.is_selected;
    }

pub oldest_first : List StoredLine → List StoredLine
oldest_first = sort_by (λ a b. ltb a.added_at b.added_at)

pub record MergeState : Type 0 where
  pub lines : List StoredLine
  pub index_by_key : List (Identity × ℕ)
  pub dropped : List Identity

-- One round of the loop.
pub merge_line : MergeState → StoredLine → MergeState
unfolding raise_by
merge_line s line = elim (index_of line.identity s.index_by_key) [
  | some i ↦ record s { lines = modify_at i (λ held. raise_by held line) s.lines }
  | none ↦
      if leb max_cart_lines (length s.lines)
      then record s { dropped = s.dropped ++ line.identity ∷ [] }
      else record s {
        lines = s.lines ++ line ∷ [];
        index_by_key = set_index line.identity (length s.lines) s.index_by_key;
      }
]

pub merge_lines : MergeState → List StoredLine → MergeState
merge_lines s [] = s
merge_lines s (line ∷ lines) = merge_lines (merge_line s line) lines

-- `new Map(lines.map((line, index) => [lineKey(line), index]))`
pub build_index : ℕ → List StoredLine → List (Identity × ℕ) → List (Identity × ℕ)
build_index n [] entries = entries
build_index n (line ∷ lines) entries = build_index (n + 1) lines (set_index line.identity n entries)

pub merge_cart_lines : List StoredLine → List StoredLine → CartMergeResult
unfolding merge_lines merge_line build_index oldest_first
merge_cart_lines existing incoming =
    let start : MergeState = record {
      lines = existing;
      index_by_key = build_index 0 existing [];
      dropped = [];
    } in
    let s = merge_lines start (oldest_first incoming) in
    record { lines = s.lines; dropped = s.dropped }
