-- ===== src/Hooks/Table.antt =====
-- The list of hooks of src/iyelld/hooks.c: what a deletion takes out, and the handlers of errors.
use iyell.Base.{
  ℕ, Bool, false, fault, null_pointer, List, [], ◌∷◌, ◌++◌, ◌≡◌, ◌⊎◌, inl, inr, refl, ◌==◌,
  Bool-cases, All, ap, ==_iff,
}
use iyell.Hooks.{Hook, hooks_delete, hooks_generic_error, starts_with}

-- No node of the list has the address.
abbrev pub Lacks : ℕ → List Hook → Type 0
Lacks a hs = All (λ h. (h.address == a) ≡ false) hs

-- The first node of the address is taken out.
pub record Unlinks (first : List Hook) (trash : ℕ) (rest : List Hook) : Type 0 where
  pub before : List Hook
  pub node : Hook
  pub after : List Hook
  pub whole : first ≡ before ++ (node ∷ after)
  pub address : node.address ≡ trash
  pub earlier : Lacks trash before
  pub left : rest ≡ before ++ after

Unlinks-cons :
    (h : Hook) {first : List Hook} {trash : ℕ} {rest : List Hook}
    → (h.address == trash) ≡ false
    → Unlinks first trash rest
    → Unlinks (h ∷ first) trash (h ∷ rest)
Unlinks-cons h e u = record {
  before = h ∷ u.before;
  node = u.node;
  after = u.after;
  whole = ap (◌∷◌ h) u.whole;
  address = u.address;
  earlier = (e, u.earlier);
  left = ap (◌∷◌ h) u.left;
}

-- `hooks_delete` answers 1 and leaves the list if no node has the address; otherwise it answers 0
-- and takes out the first such node, the others in their order.
pub hooks_delete-Unlinks :
    (first : List Hook) (trash : ℕ)
    → ((hooks_delete first trash ≡ (1, first)) × Lacks trash first)
      ⊎ ((rest : List Hook) × (hooks_delete first trash ≡ (0, rest)) × Unlinks first trash rest)
unfolding hooks_delete
hooks_delete-Unlinks [] trash = inl (refl, tt)
hooks_delete-Unlinks (h ∷ first) trash = elim (Bool-cases (h.address == trash)) [
  | inl e ↦ inr (
    first,
    rw e,
    record {
      before = [];
      node = h;
      after = first;
      whole = refl;
      address = (==_iff _ _).0 e;
      earlier = tt;
      left = refl;
    },
  )
  | inr e ↦ elim (hooks_delete-Unlinks first trash) [
    | inl (r, l) ↦ inl (rw (e, r), (e, l))
    | inr (rest, r, u) ↦ inr (h ∷ rest, rw (e, r), Unlinks-cons h e u)
  ]
]

-- An error on a hook that has no writing end and is no pipe, as `hooks_cmd_oneshot` makes them,
-- goes to the handler for pipes, which reads the null pointer.
pub hooks_generic_error-oneshot :
    (z : Bool) (h : Hook) (ghook : List Hook)
    → h.has_write ≡ false
    → starts_with b'|' h.path ≡ false
    → hooks_generic_error z h ghook ≡ fault null_pointer
unfolding hooks_generic_error
hooks_generic_error-oneshot z h ghook w p = rw (p, w)
