-- ===== src/Ha/Unregister.antt =====
-- `UnregisterSSLHAFuncs`: a registry forgets one key.
use in_free_time.Base.{
  ℕ, ◌+◌, ◌≤◌, ◌≡◌, refl, sym, ◌∙◌, Bool, true, false, ◌&&◌, Option, none, some, [], ◌∷◌, length,
  ◌==◌, if◌then◌else◌, if-elim, Bool-cases, inl, inr, arith,
}
use in_free_time.Ha.{Node, Slots, answers, unregister_ssl_ha_funcs}
use in_free_time.Ha.Registry.{same_key, lookup, Distinct, Placed, IsRegistry}

if-nothing : (b : Bool) → ◌≡◌ {A = Option Node} none (if b then none else none)
if-nothing true = refl
if-nothing false = refl

-- A slot that is emptied, and one that stays, before other slots
module _ (p s p' s' : ℕ) (node : Node) where
  lookup-emptied :
      (slots : Slots)
      → same_key p s node ≡ true
      → lookup node.preproc_id node.subcode slots ≡ none
      → lookup p' s' slots ≡ (if p' == p && s' == s then none else lookup p' s' (some node ∷ slots))
  lookup-emptied slots e alone = elim (Bool-cases (same_key p' s' node)) [
    | inl e' ↦
        let at_p : p' ≡ node.preproc_id = ground (arith, e') in
        let at_s : s' ≡ node.subcode = ground (arith, e') in
        let same : (p' == p && s' == s) ≡ true = ground (arith, e, e') in
        rw same (rw at_p (rw at_s alone))
    | inr e' ↦
        let apart : (p' == p && s' == s) ≡ false = ground (arith, e, e') in rw apart (rw e' refl)
  ]

  lookup-stays :
      (slots slots' : Slots)
      → same_key p s node ≡ false
      → lookup p' s' slots' ≡ (if p' == p && s' == s then none else lookup p' s' slots)
      → lookup p' s' (some node ∷ slots')
        ≡ (if p' == p && s' == s then none else lookup p' s' (some node ∷ slots))
  lookup-stays slots slots' e rest = elim (Bool-cases (same_key p' s' node)) [
    | inl e' ↦
        let apart : (p' == p && s' == s) ≡ false = ground (arith, e, e') in rw e' (rw apart refl)
    | inr e' ↦ rw e' rest
  ]

lookup-unregister :
    (p s p' s' : ℕ) (slots : Slots)
    → Distinct slots
    → lookup p' s' (unregister_ssl_ha_funcs p s slots)
      ≡ (if p' == p && s' == s then none else lookup p' s' slots)
unfolding unregister_ssl_ha_funcs answers
lookup-unregister p s p' s' [] d = if-nothing (p' == p && s' == s)
lookup-unregister p s p' s' (none ∷ []) d = if-nothing (p' == p && s' == s)
lookup-unregister p s p' s' (some node ∷ []) (alone, d) = elim (Bool-cases (same_key p s node)) [
  | inl e ↦ rw e (lookup-emptied p s p' s' node [] e alone)
  | inr e ↦ rw e (lookup-stays p s p' s' node [] [] e (if-nothing (p' == p && s' == s)))
]
lookup-unregister p s p' s' (none ∷ next ∷ slots) d = lookup-unregister p s p' s' (next ∷ slots) d
lookup-unregister p s p' s' (some node ∷ next ∷ slots) (alone, d) =
    let rest = lookup-unregister p s p' s' (next ∷ slots) d in
    elim (Bool-cases (same_key p s node)) [
      | inl e ↦ rw e (lookup-emptied p s p' s' node (next ∷ slots) e alone)
      | inr e ↦ rw e (
          lookup-stays p s p' s' node (next ∷ slots) (unregister_ssl_ha_funcs p s (next ∷ slots)) e
            rest)
    ]

Distinct-unregister :
    (p s : ℕ) (slots : Slots) → Distinct slots → Distinct (unregister_ssl_ha_funcs p s slots)
unfolding unregister_ssl_ha_funcs answers
Distinct-unregister p s [] d = tt
Distinct-unregister p s (none ∷ []) d = tt
Distinct-unregister p s (some node ∷ []) d = if-elim Distinct (same_key p s node) (λ _. tt) λ _. d
Distinct-unregister p s (none ∷ next ∷ slots) d = Distinct-unregister p s (next ∷ slots) d
Distinct-unregister p s (some node ∷ next ∷ slots) (alone, d) =
    let kept = lookup-unregister p s node.preproc_id node.subcode (next ∷ slots) d in
    let rest = Distinct-unregister p s (next ∷ slots) d in
    if-elim Distinct (same_key p s node) (λ _. d)
      λ e. (kept ∙ rw alone (sym (if-nothing (node.preproc_id == p && node.subcode == s))), rest)

Placed-unregister :
    (i p s : ℕ) (slots : Slots) → Placed i slots → Placed i (unregister_ssl_ha_funcs p s slots)
unfolding unregister_ssl_ha_funcs answers
Placed-unregister i p s [] placed = tt
Placed-unregister i p s (none ∷ []) placed = tt
Placed-unregister i p s (some node ∷ []) placed =
    if-elim (Placed i) (same_key p s node) (λ _. tt) λ _. placed
Placed-unregister i p s (none ∷ next ∷ slots) placed =
    Placed-unregister (i + 1) p s (next ∷ slots) placed
Placed-unregister i p s (some node ∷ next ∷ slots) (e, m, placed) =
    let rest = Placed-unregister (i + 1) p s (next ∷ slots) placed in
    if-elim (Placed i) (same_key p s node) (λ _. placed) λ _. (e, m, rest)

length-unregister :
    (p s : ℕ) (slots : Slots) → length (unregister_ssl_ha_funcs p s slots) ≤ length slots
unfolding unregister_ssl_ha_funcs
length-unregister p s [] = omega arith
length-unregister p s (slot ∷ []) = elim (Bool-cases (answers p s slot)) [
  | inl e ↦ rw e (omega arith)
  | inr e ↦ rw e (omega arith)
]
length-unregister p s (slot ∷ next ∷ slots) =
    let rest = length-unregister p s (next ∷ slots) in
    elim (Bool-cases (answers p s slot)) [
      | inl e ↦ rw e (omega arith)
      | inr e ↦ rw e (omega (arith, rest))
    ]

-- Unregistering leaves a registry that no longer knows the key, and knows all else as before.
pub unregister-refines :
    (p s p' s' : ℕ) (slots : Slots)
    → IsRegistry slots
    → IsRegistry (unregister_ssl_ha_funcs p s slots)
      × (lookup p' s' (unregister_ssl_ha_funcs p s slots)
          ≡ (if p' == p && s' == s then none else lookup p' s' slots))
unregister-refines p s p' s' slots registry = (
  record {
    bounded = omega (arith, length-unregister p s slots, registry.bounded);
    distinct = Distinct-unregister p s slots registry.distinct;
    placed = Placed-unregister 0 p s slots registry.placed;
  },
  lookup-unregister p s p' s' slots registry.distinct,
)
