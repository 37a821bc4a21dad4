-- ===== src/Cart/Merge/Reference.antt =====
-- The merge with the index left out, and that the index changes nothing.
use vp_parts.Base.{
  ℕ, ◌+◌, ◌≡◌, refl, sym, ap, ◌∙◌, subst, inl, inr, true, false, none, some, List, [], ◌∷◌, ◌++◌,
  arith, leb, if◌then◌else◌, Bool-cases, Option-cases, length, update_where, any_row,
}
use vp_parts.Cart.Tables.{Identity, max_cart_lines}
use vp_parts.Cart.Merge.{
  StoredLine, CartMergeResult, MergeState, same_key, index_of, set_index, modify_at, raise_by,
  oldest_first, merge_line, merge_lines, build_index, merge_cart_lines,
}
use vp_parts.Cart.Merge.Index.{
  has_key, UniqueKeys, position, Indexes, index_of-set_index, position-append, position-update,
  any_row-position, modify_at-position, UniqueKeys-update, UniqueKeys-append,
}

-- The rule: a line already there is raised, another is appended if there is room for it.
abbrev pub merge_line_by_key : CartMergeResult → StoredLine → CartMergeResult
merge_line_by_key r line =
    if any_row (has_key line.identity) r.lines
    then record r {
      lines = update_where (has_key line.identity) (λ held. raise_by held line) r.lines;
    }
    else if leb max_cart_lines (length r.lines)
    then record r { dropped = r.dropped ++ line.identity ∷ [] }
    else record r { lines = r.lines ++ line ∷ [] }

abbrev pub merge_by_key : CartMergeResult → List StoredLine → CartMergeResult
merge_by_key r [] = r
merge_by_key r (line ∷ lines) = merge_by_key (merge_line_by_key r line) lines

pub raise_by-identity :
    (k : Identity) (line held : StoredLine)
    → line.identity ≡ k
    → has_key k held ≡ true
    → (raise_by held line).identity ≡ held.identity
unfolding raise_by
raise_by-identity k line held e h = ground arith

abbrev view : MergeState → CartMergeResult
view s = record { lines = s.lines; dropped = s.dropped }

abbrev IsIndexed : MergeState → Type 0
IsIndexed s = UniqueKeys s.lines × Indexes s.index_by_key s.lines

-- One round does what the rule says, and the index is right again.
abbrev Follows : MergeState → StoredLine → MergeState → Type 0
Follows s line after = (view after ≡ merge_line_by_key (view s) line) × IsIndexed after

raised_at-Follows :
    (s : MergeState) (line : StoredLine) (i : ℕ)
    → IsIndexed s
    → position line.identity s.lines ≡ some i
    → Follows s line (record s { lines = modify_at i (λ held. raise_by held line) s.lines })
raised_at-Follows s line i (u, ix) found =
    let k = line.identity in
    let raise = λ (held : StoredLine). raise_by held line in
    let keeps : (x : StoredLine) → has_key k x ≡ true → (raise x).identity ≡ x.identity =
      λ x h. raise_by-identity k line x refl h in
    rw (modify_at-position k raise s.lines i u found) (
      ground (arith, any_row-position k s.lines, found),
      (
        UniqueKeys-update (has_key k) raise s.lines keeps u,
        λ j. ix j ∙ sym (position-update j (has_key k) raise s.lines keeps),
      ),
    )

appended-Follows :
    (s : MergeState) (line : StoredLine)
    → IsIndexed s
    → position line.identity s.lines ≡ none
    → leb max_cart_lines (length s.lines) ≡ false
    → Follows s line (record s {
      lines = s.lines ++ line ∷ [];
      index_by_key = set_index line.identity (length s.lines) s.index_by_key;
    })
appended-Follows s line (u, ix) absent room =
    let missing : any_row (has_key line.identity) s.lines ≡ false =
      ground (arith, any_row-position line.identity s.lines, absent) in
    (ground arith, (UniqueKeys-append s.lines line missing u, λ j. entry j))
  where
    entry :
        (j : Identity)
        → index_of j (set_index line.identity (length s.lines) s.index_by_key)
          ≡ position j (s.lines ++ line ∷ [])
    entry j = elim (Bool-cases (same_key line.identity j)) [
      | inl this ↦
          let same : line.identity ≡ j = ground arith in
          let nowhere : position j s.lines ≡ none = rw (← same) absent in
          ground (
            arith,
            index_of-set_index j line.identity (length s.lines) s.index_by_key,
            position-append j s.lines line,
            nowhere,
          )
      | inr other ↦ ground (
        arith,
        index_of-set_index j line.identity (length s.lines) s.index_by_key,
        position-append j s.lines line,
        ix j,
      )
    ]

merge_line-Follows :
    (s : MergeState) (line : StoredLine) → IsIndexed s → Follows s line (merge_line s line)
unfolding merge_line
merge_line-Follows s line h = elim (Option-cases (position line.identity s.lines)) [
  | inr (i, found) ↦
      let eq : merge_line s line
          ≡ record s { lines = modify_at i (λ held. raise_by held line) s.lines } =
        ground (arith, h.1 line.identity, found) in
      subst (Follows s line) (sym eq) (raised_at-Follows s line i h found)
  | inl absent ↦ elim (Bool-cases (leb max_cart_lines (length s.lines))) [
    | inl full ↦
        let eq : merge_line s line ≡ record s { dropped = s.dropped ++ line.identity ∷ [] } =
          ground (arith, h.1 line.identity, absent, full) in
        subst (Follows s line) (sym eq)
          (ground (arith, any_row-position line.identity s.lines, absent, full), h)
    | inr room ↦
        let eq : merge_line s line ≡ record s {
          lines = s.lines ++ line ∷ [];
          index_by_key = set_index line.identity (length s.lines) s.index_by_key;
        } =
          ground (arith, h.1 line.identity, absent, room) in
        subst (Follows s line) (sym eq) (appended-Follows s line h absent room)
  ]
]

merge_lines-by_key :
    (s : MergeState) (lines : List StoredLine)
    → IsIndexed s
    → view (merge_lines s lines) ≡ merge_by_key (view s) lines
unfolding merge_lines
merge_lines-by_key s [] h = refl
merge_lines-by_key s (line ∷ lines) h =
    let step = merge_line-Follows s line h in
    merge_lines-by_key (merge_line s line) lines step.1 ∙ ap (λ r. merge_by_key r lines) step.0

build_index-position :
    (k : Identity) (n : ℕ) (lines : List StoredLine) (entries : List (Identity × ℕ))
    → UniqueKeys lines
    → index_of k (build_index n lines entries)
      ≡ (elim (position k lines) [ some i ↦ some (n + i) | none ↦ index_of k entries ])
unfolding build_index
build_index-position k n [] entries u = refl
build_index-position k n (line ∷ lines) entries u =
    let rest = build_index-position k (n + 1) lines (set_index line.identity n entries) u.1 in
    let first = index_of-set_index k line.identity n entries in
    elim (Bool-cases (has_key k line)) [
      | inl this ↦
          let same : line.identity ≡ k = ground arith in
          let once : any_row (has_key k) lines ≡ false =
            subst (λ j. any_row (has_key j) lines ≡ false) same u.0 in
          ground (arith, rest, first, any_row-position k lines, once)
      | inr other ↦ ground (arith, rest, first)
    ]

build_index-Indexes :
    (k : Identity) (lines : List StoredLine)
    → UniqueKeys lines
    → index_of k (build_index 0 lines []) ≡ position k lines
build_index-Indexes k lines u = ground (arith, build_index-position k 0 lines [] u)

-- The merge with its index of positions is the merge by key: in the order of the incoming lines,
-- oldest first, a line whose article is there raises that line, any other is appended if the cart
-- has room, and is reported as dropped if not. The existing cart holds no article twice.
pub merge_cart_lines-eq-merge_by_key :
    (existing incoming : List StoredLine)
    → UniqueKeys existing
    → merge_cart_lines existing incoming
      ≡ merge_by_key (record { lines = existing; dropped = [] }) (oldest_first incoming)
unfolding merge_cart_lines
merge_cart_lines-eq-merge_by_key existing incoming u =
    merge_lines-by_key
      (record { lines = existing; index_by_key = build_index 0 existing []; dropped = [] })
      (oldest_first incoming) (u, λ k. build_index-Indexes k existing u)
