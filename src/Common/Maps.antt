-- ===== src/Common/Maps.antt =====
-- Maps and sets with decidable keys, as association lists without repeated keys. The order of a
-- `HashMap` is not specified; the order of the list stands for the one that a run happens to have.
use mathlib.Core.Path.{◌≡◌, refl, sym, subst, ap}
use mathlib.Core.Logic.{ite, if_pos, if_neg, ◌≢◌, ◌↔◌, inl, inr}
use mathlib.Core.Bool.{Bool, true, false}
use mathlib.Core.List.{List, [], ◌∷◌, ◌++◌}
use mathlib.Core.Option.{Option, none, some}
use native.Mathlib.Omega.{arith}
use nvme_disk_mon.Common.Lists.{All}
use nvme_disk_mon.Common.Tests.{if◌then◌else◌, Bool-cases, is_some}

-- The types that serve as keys: `Eq` and `Hash` of the source.
pub record Key {ℓ} (K : Type ℓ) : Type ℓ where
  pub same : Discrete K

-- `a == b`
abbrev pub eqb {ℓ} : {K : Type ℓ} ⦃k : Key K⦄ → K → K → Bool
eqb ⦃k⦄ a b = elim (k.same a b) [ yes _ ↦ true | no _ ↦ false ]

module _ {ℓ} {K V : Type ℓ} ⦃k : Key K⦄ where
  -- `map.get(key)`
  unfoldable pub get : List (K × V) → K → Option V
  get [] a = none
  get ((b, v) ∷ m) a = ite (k.same a b) (some v) (get m a)

  -- `map.insert(key, value)`
  unfoldable pub insert : List (K × V) → K → V → List (K × V)
  insert [] a v = (a, v) ∷ []
  insert ((b, w) ∷ m) a v = ite (k.same a b) ((a, v) ∷ m) ((b, w) ∷ insert m a v)

  -- `map.entry(key).or_insert(value)`
  unfoldable pub or_insert : List (K × V) → K → V → List (K × V)
  or_insert [] a v = (a, v) ∷ []
  or_insert ((b, w) ∷ m) a v = ite (k.same a b) ((b, w) ∷ m) ((b, w) ∷ or_insert m a v)

  pub get-insert :
      (m : List (K × V)) (a b : K) (v : V)
      → get (insert m a v) b ≡ ite (k.same b a) (some v) (get m b)
  unfolding get insert
  get-insert [] a b v = refl
  get-insert ((c, w) ∷ m) a b v = ground (arith, get-insert m a b v)

  pub get-or_insert :
      (m : List (K × V)) (a b : K) (v : V)
      → get (or_insert m a v) b
        ≡ ite (k.same b a) (elim (get m b) [ none ↦ some v | some w ↦ some w ]) (get m b)
  unfolding get or_insert
  get-or_insert [] a b v = refl
  get-or_insert ((c, w) ∷ m) a b v = ground (arith, get-or_insert m a b v)

module _ {ℓ} {K : Type ℓ} ⦃k : Key K⦄ where
  -- `set.contains(key)`
  unfoldable pub contains : List K → K → Bool
  contains [] a = false
  contains (b ∷ s) a = ite (k.same a b) true (contains s a)

  -- `set.insert(key)`
  unfoldable pub insert_set : List K → K → List K
  insert_set s a = if contains s a then s else a ∷ s

  pub contains-insert_set_self : (s : List K) (a : K) → contains (insert_set s a) a ≡ true
  unfolding contains insert_set
  contains-insert_set_self s a = elim (Bool-cases (contains s a)) [
    | inl e ↦ rw e e
    | inr e ↦ rw (e, if_pos (k.same a a) refl)
  ]

  pub contains-insert_set_ne :
      (s : List K) (a b : K) → b ≢ a → contains (insert_set s a) b ≡ contains s b
  unfolding contains insert_set
  contains-insert_set_ne s a b h = elim (Bool-cases (contains s a)) [
    | inl e ↦ rw e
    | inr e ↦ rw (e, if_neg (k.same b a) h)
  ]

  pub contains-insert_set :
      (s : List K) (a b : K)
      → contains (insert_set s a) b ≡ elim (k.same b a) [ yes _ ↦ true | no _ ↦ contains s b ]
  contains-insert_set s a b = go (k.same b a)
    where
      go :
          (d : Dec (b ≡ a))
          → contains (insert_set s a) b ≡ elim d [ yes _ ↦ true | no _ ↦ contains s b ]
      go (yes p) =
          subst (λ x. contains (insert_set s a) x ≡ true) (sym p) (contains-insert_set_self s a)
      go (no p) = contains-insert_set_ne s a b p

-- No key stands twice.
abbrev pub Distinct {ℓ} : {K : Type ℓ} ⦃k : Key K⦄ → List K → Type 0
Distinct [] = Unit
Distinct (a ∷ s) = (contains s a ≡ false) × Distinct s

-- None of the second list stands in the first.
abbrev pub Apart {ℓ} : {K : Type ℓ} ⦃k : Key K⦄ → List K → List K → Type 0
Apart seen [] = Unit
Apart seen (a ∷ s) = (contains seen a ≡ false) × Apart seen s

module _ {K : Type 0} ⦃k : Key K⦄ where
  pub Apart-cons :
      (seen : List K) (a : K) (s : List K)
      → Apart (a ∷ seen) s ↔ (Apart seen s × (contains s a ≡ false))
  unfolding contains
  Apart-cons seen a [] = (λ _. (tt, refl), λ _. tt)
  Apart-cons seen a (b ∷ s) =
      let ih = Apart-cons seen a s in (λ h. ground (arith, ih.0 h.1), λ h. ground (arith, ih.1))

  pub Apart-nil : (s : List K) → Apart [] s
  unfolding contains
  Apart-nil [] = tt
  Apart-nil (a ∷ s) = (refl, Apart-nil s)

module _ {K V : Type 0} ⦃k : Key K⦄ where
  -- `map.keys()`
  abbrev pub keys : List (K × V) → List K
  keys [] = []
  keys ((a, v) ∷ m) = a ∷ keys m

  pub contains-keys-insert :
      (m : List (K × V)) (a b : K) (v : V)
      → contains (keys (insert m a v)) b ≡ ite (k.same b a) true (contains (keys m) b)
  unfolding contains insert
  contains-keys-insert [] a b v = refl
  contains-keys-insert ((c, w) ∷ m) a b v = ground (arith, contains-keys-insert m a b v)

  pub Distinct-insert :
      (m : List (K × V)) (a : K) (v : V) → Distinct (keys m) → Distinct (keys (insert m a v))
  unfolding contains insert
  Distinct-insert [] a v h = (refl, tt)
  Distinct-insert ((c, w) ∷ m) a v h =
      ground (arith, Distinct-insert m a v h.1, contains-keys-insert m a c v)

module _ {K : Type 0} ⦃k : Key K⦄ where
  pub contains-append_last :
      (s : List K) (a b : K) → contains (s ++ a ∷ []) b ≡ ite (k.same b a) true (contains s b)
  unfolding contains
  contains-append_last [] a b = refl
  contains-append_last (c ∷ s) a b = ground (arith, contains-append_last s a b)

  pub Distinct-append_last :
      (s : List K) (a : K) → Distinct s → contains s a ≡ false → Distinct (s ++ a ∷ [])
  unfolding contains
  Distinct-append_last [] a d n = (refl, tt)
  Distinct-append_last (c ∷ s) a d n =
      ground (arith, Distinct-append_last s a d.1, contains-append_last s a c)

  pub Apart-append_last :
      (s : List K) (a : K) (t : List K) → Apart s t → contains t a ≡ false → Apart (s ++ a ∷ []) t
  unfolding contains
  Apart-append_last s a [] h n = tt
  Apart-append_last s a (b ∷ t) h n =
      ground (arith, Apart-append_last s a t h.1, contains-append_last s a b)

pub All-keys-insert {ℓ} :
    {K V : Type 0} ⦃k : Key K⦄ (P : K → Type ℓ) (m : List (K × V)) (a : K) (v : V)
    → All P (keys m)
    → P a
    → All P (keys (insert m a v))
unfolding insert
All-keys-insert P [] a v h p = (p, tt)
All-keys-insert ⦃k⦄ P ((b, w) ∷ m) a v h p = elim (k.same a b) [
  | yes e ↦ rw (if_pos (k.same a b) e) (p, h.1)
  | no e ↦ rw (if_neg (k.same a b) e) (h.0, All-keys-insert P m a v h.1 p)
]

module _ {K V : Type 0} ⦃k : Key K⦄ where
  -- A new key goes to the end.
  pub insert-fresh :
      (m : List (K × V)) (a : K) (v : V)
      → contains (keys m) a ≡ false
      → insert m a v ≡ m ++ (a, v) ∷ []
  unfolding insert contains
  insert-fresh [] a v n = refl
  insert-fresh ((b, w) ∷ m) a v n = ground (arith, insert-fresh m a v)

  pub keys-append_last :
      (m : List (K × V)) (a : K) (v : V) → keys (m ++ (a, v) ∷ []) ≡ keys m ++ a ∷ []
  keys-append_last [] a v = refl
  keys-append_last ((b, w) ∷ m) a v = ap (◌∷◌ b) (keys-append_last m a v)

  pub contains-keys : (m : List (K × V)) (a : K) → contains (keys m) a ≡ is_some (get m a)
  unfolding contains get
  contains-keys [] a = refl
  contains-keys ((b, v) ∷ m) a = ground (arith, contains-keys m a)

module _ {K V : Type 0} ⦃k : Key K⦄ where
  pub Apart-keys-insert :
      (m : List (K × V)) (a : K) (v : V) (s : List K)
      → Apart (keys (insert m a v)) s ↔ (Apart (keys m) s × (contains s a ≡ false))
  unfolding contains
  Apart-keys-insert m a v [] = (λ _. (tt, refl), λ _. tt)
  Apart-keys-insert m a v (b ∷ s) =
      let ih = Apart-keys-insert m a v s in
      let seen = contains-keys-insert m a b v in
      (λ h. ground (arith, ih.0 h.1, seen), λ h. ground (arith, ih.1, seen))
