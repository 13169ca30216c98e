-- ===== src/Map.antt =====
-- `std::collections::HashMap` as an association list with a key at most once. A Rust map is
-- iterated in no fixed order, so nothing that the callers state may depend on the list's.
use devicelane.Shared.{
  subst, inl, inr, Bool-cases, All-retain, retain, suc, ◌≤◌, ◌≡◌, ◌≢◌, refl, Bool, Option, none,
  some, List, [], ◌∷◌, map, arith, Eq, ◌==◌, if◌then◌else◌, is_some, ◌⊎◌, any, false, length, All,
}

abbrev pub Map {ℓ} : Type ℓ → Type ℓ → Type ℓ
Map K V = List (K × V)

module _ {ℓ} {K V : Type ℓ} ⦃e : Eq K⦄ where
  unfoldable pub get : K → Map K V → Option V
  get k [] = none
  get k ((j, v) ∷ m) = if j == k then some v else get k m

  -- Writes in place where the key is there.
  unfoldable pub insert : K → V → Map K V → Map K V
  insert k v [] = (k, v) ∷ []
  insert k v ((j, w) ∷ m) = if j == k then (k, v) ∷ m else (j, w) ∷ insert k v m

  unfoldable pub remove : K → Map K V → Map K V
  remove k [] = []
  remove k ((j, w) ∷ m) = if j == k then remove k m else (j, w) ∷ remove k m

  abbrev pub contains_key : K → Map K V → Bool
  contains_key k m = is_some (get k m)

  -- No entry has the key.
  abbrev pub Fresh : K → Map K V → Type ℓ
  Fresh k m = All (λ p. k ≢ p.0) m

  -- The keys differ.
  abbrev pub IsMap : Map K V → Type ℓ
  IsMap [] = Unit
  IsMap (p ∷ m) = Fresh p.0 m × IsMap m

abbrev pub values {ℓ} : {K V : Type ℓ} → Map K V → List V
values m = map (λ p. p.1) m

module _ {ℓ} {K V : Type ℓ} ⦃e : Eq K⦄ where
  pub get-insert :
      (k j : K) (v : V) (m : Map K V) → get j (insert k v m) ≡ (if k == j then some v else get j m)
  unfolding get insert
  get-insert k j v [] = refl
  get-insert k j v ((i, w) ∷ m) = ground (arith, get-insert k j v m)

  pub get-remove : (k j : K) (m : Map K V) → get j (remove k m) ≡ (if k == j then none else get j m)
  unfolding get remove
  get-remove k j [] = ground arith
  get-remove k j ((i, w) ∷ m) = ground (arith, get-remove k j m)

  pub get-Fresh : (k : K) (m : Map K V) → Fresh k m → get k m ≡ none
  unfolding get
  get-Fresh k [] f = refl
  get-Fresh k ((i, w) ∷ m) f = ground (arith, get-Fresh k m f.1)

  pub Fresh-get : (k : K) (m : Map K V) → get k m ≡ none → Fresh k m
  unfolding get
  Fresh-get k [] h = tt
  Fresh-get k ((i, w) ∷ m) h = ground (arith, Fresh-get k m)

  Fresh-insert : (i k : K) (v : V) (m : Map K V) → i ≢ k → Fresh i m → Fresh i (insert k v m)
  unfolding insert
  Fresh-insert i k v [] n f = (n, tt)
  Fresh-insert i k v ((j, w) ∷ m) n f = ground (arith, Fresh-insert i k v m n f.1)

  pub Fresh-remove : (i k : K) (m : Map K V) → Fresh i m → Fresh i (remove k m)
  unfolding remove
  Fresh-remove i k [] f = tt
  Fresh-remove i k ((j, w) ∷ m) f = ground (arith, Fresh-remove i k m f.1)

  pub insert-IsMap : (k : K) (v : V) (m : Map K V) → IsMap m → IsMap (insert k v m)
  unfolding insert
  insert-IsMap k v [] u = (tt, tt)
  insert-IsMap k v ((j, w) ∷ m) u = ground (arith, insert-IsMap k v m u.1, Fresh-insert j k v m)

  pub remove-IsMap : (k : K) (m : Map K V) → IsMap m → IsMap (remove k m)
  unfolding remove
  remove-IsMap k [] u = tt
  remove-IsMap k ((j, w) ∷ m) u = ground (arith, remove-IsMap k m u.1, Fresh-remove j k m u.0)

  pub length-insert :
      (k : K) (v : V) (m : Map K V)
      → length (insert k v m) ≡ (if is_some (get k m) then length m else suc (length m))
  unfolding insert get
  length-insert k v [] = refl
  length-insert k v ((j, w) ∷ m) = ground (arith, length-insert k v m)

  pub length-remove-le : (k : K) (m : Map K V) → length (remove k m) ≤ length m
  unfolding remove
  length-remove-le k [] = omega arith
  length-remove-le k ((j, w) ∷ m) = ground (arith, length-remove-le k m)

  pub get-retain :
      (p : V → Bool) (k : K) (m : Map K V)
      → IsMap m
      → get k (retain (λ e. p e.1) m)
        ≡ elim (get k m) [ none ↦ none | some v ↦ if p v then some v else none ]
  unfolding get
  get-retain p k [] u = refl
  get-retain p k ((j, w) ∷ m) u =
      ground (arith, get-retain p k m u.1, get-Fresh j m u.0, get-Fresh k m)

  pub retain-IsMap : (p : K × V → Bool) (m : Map K V) → IsMap m → IsMap (retain p m)
  retain-IsMap p [] u = tt
  retain-IsMap p ((j, w) ∷ m) u =
      ground (arith, retain-IsMap p m u.1, All-retain (λ e. j ≢ e.0) p m u.0)

  module _ {κ} (P : V → Type κ) where
    pub All-insert :
        (k : K) (v : V) (m : Map K V) → All (λ e. P e.1) m → P v → All (λ e. P e.1) (insert k v m)
    unfolding insert
    All-insert k v [] h p = (p, tt)
    All-insert k v ((j, w) ∷ m) h p = elim (Bool-cases (j == k)) [
      | inl same ↦ rw (same, insert) (p, h.1)
      | inr other ↦ rw (other, insert) (h.0, All-insert k v m h.1 p)
    ]

    pub All-get : (k : K) (v : V) (m : Map K V) → All (λ e. P e.1) m → get k m ≡ some v → P v
    unfolding get
    All-get k v [] h g = absurd (cc)
    All-get k v ((j, w) ∷ m) h g = elim (Bool-cases (j == k)) [
      | inl same ↦ subst P (ground (arith, same)) h.0
      | inr other ↦ All-get k v m h.1 (ground (arith, other))
    ]

-- Whether what is looked up is what was written.
pub get-insert_cases {ℓ} :
    {K V : Type ℓ} ⦃e : Eq K⦄ (k j : K) (v w : V) (m : Map K V)
    → get j (insert k v m) ≡ some w
    → ((k ≡ j) × (v ≡ w)) ⊎ ((k ≢ j) × (get j m ≡ some w))
get-insert_cases ⦃e⦄ k j v w m h = elim (e.dec k j) [
  | yes same ↦ inl (same, ground (arith, h, same, get-insert k j v m))
  | no other ↦ inr (other, ground (arith, h, other, get-insert k j v m))
]

-- Writing under a new key keeps what is there.
pub get-insert_new {ℓ} :
    {K V : Type ℓ} ⦃e : Eq K⦄ (k j : K) (v w : V) (m : Map K V)
    → get k m ≡ none
    → get j m ≡ some w
    → get j (insert k v m) ≡ some w
get-insert_new ⦃e⦄ k j v w m new there = elim (e.dec k j) [
  | yes same ↦ absurd (cc (same, new, there))
  | no apart ↦ ground (arith, apart, there, get-insert k j v m)
]

-- Writing what is there changes nothing.
pub insert-get {ℓ} :
    {K V : Type ℓ} ⦃e : Eq K⦄ (k : K) (v : V) (m : Map K V) → get k m ≡ some v → insert k v m ≡ m
unfolding get insert
insert-get k v [] h = cc
insert-get k v ((j, w) ∷ m) h = ground (arith, h, insert-get k v m)

-- What no value of the map satisfies, none that is looked up does.
pub get-any {ℓ} :
    {K V : Type ℓ} ⦃e : Eq K⦄ (p : V → Bool) (k : K) (v : V) (m : Map K V)
    → get k m ≡ some v
    → any p (values m) ≡ false
    → p v ≡ false
unfolding get
get-any p k v [] h none_do = absurd (cc h)
get-any p k v ((i, w) ∷ m) h none_do = ground (arith, h, none_do, get-any p k v m)

pub ruleset map_laws = (get-insert, get-remove)
