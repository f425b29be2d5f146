-- ===== src/Timer/Order.antt =====
-- The order of the heap: what `cmp` decides, and that `push` keeps the list ordered.
use Prim.Native.Nat.{Ordering}
use sipr.Common.{
  ℕ, ◌<◌, ◌≡◌, ◌≢◌, ◌⊎◌, inl, inr, refl, sym, Bool, List, [], ◌∷◌, arith, All, All-mono, All-filter,
  filter, if◌then◌else◌, Bool-cases,
}
use sipr.Timer.{Entry, cmp, push}

module _ {ℓ} {E : Type ℓ} where
  -- `a` fires before `b`: an earlier deadline, or the same one and armed earlier.
  abbrev pub Before : Entry E → Entry E → Type 0
  Before a b = (a.deadline < b.deadline) ⊎ ((a.deadline ≡ b.deadline) × (a.id < b.id))

  abbrev pub Sorted : List (Entry E) → Type 0
  Sorted [] = Unit {0}
  Sorted (e ∷ es) = All (Before e) es × Sorted es

  -- No entry of the list has the id.
  abbrev pub Absent : ℕ → List (Entry E) → Type 0
  Absent i = All (λ e. e.id ≢ i)

  abbrev pub Distinct : List (Entry E) → Type 0
  Distinct [] = Unit {0}
  Distinct (e ∷ es) = Absent e.id es × Distinct es

  pub Before-trans : (a b c : Entry E) → Before a b → Before b c → Before a c
  Before-trans a b c h k = omega arith

  pub cmp_cases :
      (a b : Entry E)
      → b.id ≢ a.id
      → ((cmp a b ≡ Ordering.gt) × Before a b) ⊎ ((cmp a b ≡ Ordering.lt) × Before b a)
  unfolding cmp
  cmp_cases a b h = ground arith

  pub Before-cmp : (a b : Entry E) → Before a b → cmp a b ≡ Ordering.gt
  unfolding cmp
  Before-cmp a b h = ground arith

  -- Where `push` puts an entry with a fresh id.
  pub push_cases :
      (e x : Entry E) (xs : List (Entry E))
      → x.id ≢ e.id
      → (Before e x × (push e (x ∷ xs) ≡ e ∷ x ∷ xs))
        ⊎ (Before x e × (push e (x ∷ xs) ≡ x ∷ push e xs))
  unfolding push
  push_cases e x xs h = elim (cmp_cases e x h) [
    | inl (c, b) ↦ inl (b, rw (c, push))
    | inr (c, b) ↦ inr (b, rw (c, push))
  ]

  pub push_front : (e : Entry E) (xs : List (Entry E)) → All (Before e) xs → push e xs ≡ e ∷ xs
  unfolding push
  push_front e [] h = refl
  push_front e (x ∷ xs) h = rw (Before-cmp e x h.0, push)

  pub All-push {κ} :
      (P : Entry E → Type κ) (e : Entry E) (xs : List (Entry E))
      → Absent e.id xs
      → P e
      → All P xs
      → All P (push e xs)
  All-push P e [] f h hs = unfold push in (h, tt)
  All-push P e (x ∷ xs) f h hs = elim (push_cases e x xs f.0) [
    | inl (_, c) ↦ rw c (h, hs)
    | inr (_, c) ↦ rw c (hs.0, All-push P e xs f.1 h hs.1)
  ]

  pub push-Sorted :
      (e : Entry E) (xs : List (Entry E)) → Absent e.id xs → Sorted xs → Sorted (push e xs)
  push-Sorted e [] f s = unfold push in (tt, tt)
  push-Sorted e (x ∷ xs) f s = elim (push_cases e x xs f.0) [
    | inl (b, c) ↦ rw c ((b, All-mono (λ y. Before-trans e x y b) xs s.0), s)
    | inr (b, c) ↦ rw c (All-push (Before x) e xs f.1 b s.0, push-Sorted e xs f.1 s.1)
  ]

  pub push-Distinct :
      (e : Entry E) (xs : List (Entry E)) → Absent e.id xs → Distinct xs → Distinct (push e xs)
  push-Distinct e [] f d = unfold push in (tt, tt)
  push-Distinct e (x ∷ xs) f d = elim (push_cases e x xs f.0) [
    | inl (_, c) ↦ rw c (f, d)
    | inr (_, c) ↦
        rw c
          (All-push (λ y. y.id ≢ x.id) e xs f.1 (λ p. f.0 (sym p)) d.0, push-Distinct e xs f.1 d.1)
  ]

  -- Leaving entries out commutes with `push`.
  pub filter-push :
      (p : Entry E → Bool) (e : Entry E) (xs : List (Entry E))
      → Absent e.id xs
      → Sorted xs
      → filter p (push e xs) ≡ (if p e then push e (filter p xs) else filter p xs)
  filter-push p e [] f s = unfold push in refl
  filter-push p e (x ∷ xs) f s = elim (push_cases e x xs f.0) [
    | inl (b, c) ↦
        let first : All (Before e) (x ∷ xs) = (b, All-mono (λ y. Before-trans e x y b) xs s.0) in
        rw (c, push_front e (filter p (x ∷ xs)) (All-filter (Before e) p (x ∷ xs) first))
    | inr (b, c) ↦ ground (arith, c, filter-push p e xs f.1 s.1, push_cases e x (filter p xs) f.0)
  ]

  pub filter-Sorted : (p : Entry E → Bool) (es : List (Entry E)) → Sorted es → Sorted (filter p es)
  filter-Sorted p [] s = tt
  filter-Sorted p (e ∷ es) s = elim (Bool-cases (p e)) [
    | inl h ↦ rw h (All-filter (Before e) p es s.0, filter-Sorted p es s.1)
    | inr h ↦ rw h (filter-Sorted p es s.1)
  ]

  pub filter-Distinct :
      (p : Entry E → Bool) (es : List (Entry E)) → Distinct es → Distinct (filter p es)
  filter-Distinct p [] d = tt
  filter-Distinct p (e ∷ es) d = elim (Bool-cases (p e)) [
    | inl h ↦ rw h (All-filter (λ x. x.id ≢ e.id) p es d.0, filter-Distinct p es d.1)
    | inr h ↦ rw h (filter-Distinct p es d.1)
  ]

  pub push-Absent :
      (i : ℕ) (e : Entry E) (es : List (Entry E)) → e.id ≢ i → Absent i es → Absent i (push e es)
  unfolding push
  push-Absent i e [] h a = (h, tt)
  push-Absent i e (x ∷ es) h a = ground (arith, push-Absent i e es h a.1)
