-- ===== src/Listing/Depth.antt =====
-- How deep the trees of homelink/service/daemon.py are.
use homelink.Common.{
  ℕ, zero, suc, ◌≤◌, max, ◌≡◌, refl, inl, inr, Bool, true, false, List, [], ◌∷◌, map, arith,
  Bool-cases,
}
use homelink.Common.Exc.{Result, ok, raise, permission_denied, Result-cases, after-eq-ok}
use homelink.Common.Json.{Value, Fields, Items, arr, obj, entry, done, stop, item_then, to_items}
use homelink.Common.Text.{Text}
use homelink.Listing.{Walk, is_os_error, collect, each_of, grow, bare, with_children, build_tree}

-- The number of lists inside of lists in a value.
mutual
  pub levels : Value → ℕ
  levels (arr items) = suc (item_levels items)
  levels (obj fields) = field_levels fields
  levels _ = 0

  pub item_levels : Items → ℕ
  item_levels stop = 0
  item_levels (item_then v items) = max (levels v) (item_levels items)

  pub field_levels : Fields → ℕ
  field_levels done = 0
  field_levels (entry k v fields) = max (levels v) (field_levels fields)

-- A call that returns a value of at most `n` levels, or raises.
abbrev Shallow : ℕ → Result Value → Type 0
Shallow n r = (v : Value) → r ≡ ok v → levels v ≤ n

collect-levels :
    (n : ℕ) (f : Text → Result Value) (paths : List Text) (children : List Value)
    → ((p : Text) → Shallow n (f p))
    → collect (map f paths) ≡ ok children
    → item_levels (to_items children) ≤ n
unfolding collect item_levels levels
collect-levels n f [] children shallow returned =
    let same : children ≡ [] = cc in rw same (omega arith)
collect-levels n f (p ∷ paths) children shallow returned = elim (Result-cases (f p)) [
  | inl (v, q) ↦
      let (rest, collected, made) =
        after-eq-ok (λ rest. ok (v ∷ rest)) (collect (map f paths)) (rw (q, collect) at returned) in
      let same : children ≡ v ∷ rest = cc in
      let first = shallow p v q in
      let others = collect-levels n f paths rest shallow collected in
      rw same (omega (arith, first, others))
  | inr (e, q) ↦ elim (Bool-cases (is_os_error e)) [
    | inl skipped ↦ collect-levels n f paths children shallow (rw (q, collect, skipped) at returned)
    | inr fatal ↦ cc (rw (q, collect, fatal) at returned)
  ]
]

each_of-levels :
    (n : ℕ) (f : Text → Result Value) (paths : Result (List Text)) (children : List Value)
    → ((p : Text) → Shallow n (f p))
    → each_of f paths ≡ ok children
    → item_levels (to_items children) ≤ n
unfolding each_of item_levels
each_of-levels n f (ok paths) children shallow returned =
    collect-levels n f paths children shallow returned
each_of-levels n f (raise permission_denied) children shallow returned =
    let same : children ≡ [] = cc in rw same (omega arith)
each_of-levels n f (raise _) children shallow returned = cc

module _ (w : Walk) where
  bare-levels : (p : Text) (is_dir : Bool) → levels (bare w p is_dir) ≡ 0
  unfolding levels
  bare-levels p true = refl
  bare-levels p false = refl

  with_children-levels :
      (p : Text) (children : List Value)
      → levels (with_children w p children) ≡ suc (item_levels (to_items children))
  unfolding levels
  with_children-levels p children = omega arith

  grow-levels :
      (n : ℕ) (p : Text) (below : Result (List Value)) (is_dir : Bool)
      → ((children : List Value) → below ≡ ok children → item_levels (to_items children) ≤ n)
      → Shallow (suc n) (grow w p below is_dir)
  unfolding grow
  grow-levels n p below true few v returned =
      let (children, listed, made) =
        after-eq-ok (λ children. ok (with_children w p children)) below returned in
      let same : v ≡ with_children w p children = cc in
      let at_most = few children listed in
      rw (same, with_children-levels p children) (omega (arith, at_most))
  grow-levels n p below false few v returned =
      let same : v ≡ bare w p false = cc in rw (same, bare-levels p false) (omega arith)

  -- A tree has at most as many levels of children as `max_depth` allows, though the directories
  -- may go round in a loop.
  pub build_tree-levels : (n : ℕ) (p : Text) (v : Value) → build_tree w n p ≡ ok v → levels v ≤ n
  unfolding build_tree
  build_tree-levels zero p v returned =
      let (is_dir, asked, made) = after-eq-ok (λ d. ok (bare w p d)) (w.is_dir p) returned in
      let same : v ≡ bare w p is_dir = cc in rw (same, bare-levels p is_dir) (omega arith)
  build_tree-levels (suc n) p v returned =
      let below = each_of (build_tree w n) (w.iterdir p) in
      let (is_dir, asked, made) = after-eq-ok (grow w p below) (w.is_dir p) returned in
      grow-levels n p below is_dir
        (λ children listed.
          each_of-levels n (build_tree w n) (w.iterdir p) children (λ q u. build_tree-levels n q u)
            listed)
        v made
