-- ===== src/Ha/Registry.antt =====
-- The registry of ssl_ha.c as a finite map from identifier and subcode to node.
use in_free_time.Base.{
  ℕ, ◌+◌, ◌%◌, ◌^◌, ◌≤◌, ◌<◌, ◌≡◌, ◌≢◌, refl, ◌∙◌, Bool, true, false, ◌&&◌, Option, none, some, [],
  ◌∷◌, length, ltb, ◌==◌, if◌then◌else◌, max, Bool-cases, inl, inr, arith,
}
use in_free_time.Ha.{
  Node, Slots, Registration, find_from, free_slot, new_node, put_slot, max_ssl_ha_funcs,
  register_ssl_ha_funcs,
}

abbrev pub same_key : ℕ → ℕ → Node → Bool
same_key p s node = p == node.preproc_id && s == node.subcode

-- The registry as a map
abbrev pub lookup : ℕ → ℕ → Slots → Option Node
lookup p s [] = none
lookup p s (none ∷ slots) = lookup p s slots
lookup p s (some node ∷ slots) = if same_key p s node then some node else lookup p s slots

-- No two nodes have the same key.
abbrev pub Distinct : Slots → Type 0
Distinct [] = Unit
Distinct (none ∷ slots) = Distinct slots
Distinct (some node ∷ slots) = (lookup node.preproc_id node.subcode slots ≡ none) × Distinct slots

-- Each node has its place as its `id`, and a single bit for it as its mask.
abbrev pub Placed : ℕ → Slots → Type 0
Placed i [] = Unit
Placed i (none ∷ slots) = Placed (i + 1) slots
Placed i (some node ∷ slots) =
    (node.id ≡ i) × (node.mask ≡ 2 ^ node.id % 2 ^ 16) × Placed (i + 1) slots

pub record IsRegistry (slots : Slots) : Type 0 where
  pub bounded : length slots ≤ max_ssl_ha_funcs
  pub distinct : Distinct slots
  pub placed : Placed 0 slots

if-none :
    {A : Type 0} (b : Bool) (x : A) {y : Option A}
    → (if b then some x else y) ≡ none
    → (b ≡ false) × (y ≡ none)
if-none true x h = absurd (cc h)
if-none false x h = (refl, h)

find_from-lookup :
    (i p s : ℕ) (slots : Slots) → find_from i p s slots ≡ none → lookup p s slots ≡ none
unfolding find_from
find_from-lookup i p s [] h = refl
find_from-lookup i p s (none ∷ slots) h = find_from-lookup (i + 1) p s slots h
find_from-lookup i p s (some node ∷ slots) h =
    let (e, rest) = if-none (same_key p s node) (i, node) h in
    rw e (find_from-lookup (i + 1) p s slots rest)

-- A node that is put into a free slot
module _ (p s : ℕ) (node : Node) (is_p : node.preproc_id ≡ p) (is_s : node.subcode ≡ s) where
  lookup-put_slot :
      (p' s' : ℕ) (slots : Slots)
      → lookup p s slots ≡ none
      → lookup p' s' (put_slot slots (free_slot slots) node)
        ≡ (if p' == p && s' == s then some node else lookup p' s' slots)
  unfolding put_slot free_slot
  lookup-put_slot p' s' [] h = rw is_p (rw is_s refl)
  lookup-put_slot p' s' (none ∷ slots) h = rw is_p (rw is_s refl)
  lookup-put_slot p' s' (some other ∷ slots) h =
      let (unlike, rest) = if-none (same_key p s other) other h in
      elim (Bool-cases (same_key p' s' other)) [
        | inl e ↦
            let apart : (p' == p && s' == s) ≡ false = ground (arith, unlike, e) in
            rw e (rw apart refl)
        | inr e ↦ rw e (lookup-put_slot p' s' slots rest)
      ]

  Distinct-put_slot :
      (slots : Slots)
      → lookup p s slots ≡ none
      → Distinct slots
      → Distinct (put_slot slots (free_slot slots) node)
  unfolding put_slot free_slot
  Distinct-put_slot [] h d = (refl, tt)
  Distinct-put_slot (none ∷ slots) h d = (rw is_p (rw is_s h), d)
  Distinct-put_slot (some other ∷ slots) h (alone, d) =
      let (unlike, rest) = if-none (same_key p s other) other h in
      let apart : (other.preproc_id == p && other.subcode == s) ≡ false = ground (arith, unlike) in
      (
        lookup-put_slot other.preproc_id other.subcode slots rest ∙ rw apart alone,
        Distinct-put_slot slots rest d,
      )

Placed-put_slot :
    (i : ℕ) (node : Node) (slots : Slots)
    → node.id ≡ i + free_slot slots
    → node.mask ≡ 2 ^ node.id % 2 ^ 16
    → Placed i slots
    → Placed i (put_slot slots (free_slot slots) node)
unfolding put_slot free_slot
Placed-put_slot i node [] h m placed = (omega (arith, h), m, tt)
Placed-put_slot i node (none ∷ slots) h m placed = (omega (arith, h), m, placed)
Placed-put_slot i node (some other ∷ slots) h m (e, m', placed) =
    (e, m', Placed-put_slot (i + 1) node slots (omega (arith, h)) m placed)

length-put_slot :
    (node : Node) (slots : Slots)
    → (free_slot slots ≤ length slots)
      × (length (put_slot slots (free_slot slots) node) ≤ max (length slots) (free_slot slots + 1))
unfolding put_slot free_slot
length-put_slot node [] = (omega arith, omega arith)
length-put_slot node (none ∷ slots) = (omega arith, omega arith)
length-put_slot node (some other ∷ slots) =
    let (below, most) = length-put_slot node slots in
    (omega (arith, below), omega (arith, below, most))

-- An acceptable registration, to slots that do not know its key and are not all taken, gives a free
-- index below eight; the registry is one again, knows the new node by its key and all else as
-- before.
pub register-refines :
    (r : Registration) (slots : Slots) (p s : ℕ)
    → IsRegistry slots
    → r.produces ≡ true
    → r.consumes ≡ true
    → r.preproc_id < 256
    → find_from 0 r.preproc_id r.subcode slots ≡ none
    → free_slot slots ≢ max_ssl_ha_funcs
    → (slots' : Slots) × (register_ssl_ha_funcs true r slots ≡ some (free_slot slots, slots'))
      × (free_slot slots < max_ssl_ha_funcs)
      × IsRegistry slots'
      × (lookup p s slots' ≡ (
          if p == r.preproc_id && s == r.subcode
          then some (new_node (free_slot slots) r)
          else lookup p s slots))
unfolding register_ssl_ha_funcs new_node
register-refines r slots p s registry produces consumes small unknown left =
    let idx = free_slot slots in
    let node = new_node idx r in
    let narrow : node.preproc_id ≡ r.preproc_id = omega (arith, small) in
    let free = find_from-lookup 0 r.preproc_id r.subcode slots unknown in
    let (below, most) = length-put_slot node slots in
    let some_left : (idx == max_ssl_ha_funcs) ≡ false = ground (arith, left) in
    let in_range : ltb 255 r.preproc_id ≡ false = ground (arith, small) in
    (
      put_slot slots idx node,
      rw produces (rw consumes (rw in_range (rw unknown (rw some_left refl)))),
      omega (arith, below, registry.bounded, left),
      record {
        bounded = omega (arith, below, most, registry.bounded, left);
        distinct =
            Distinct-put_slot r.preproc_id r.subcode node narrow refl slots free registry.distinct;
        placed = Placed-put_slot 0 node slots (omega arith) refl registry.placed;
      },
      lookup-put_slot r.preproc_id r.subcode node narrow refl p s slots free,
    )
