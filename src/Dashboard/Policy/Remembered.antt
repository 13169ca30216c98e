-- ===== src/Dashboard/Policy/Remembered.antt =====
-- The rules that remember decisions (src/dashboard/policy.rs).
use devicelane.Shared.{
  ℕ, suc, ◌≡◌, refl, sym, ◌∙◌, ap, inl, inr, Bool-cases, true, false, ◌||◌, List, [], ◌∷◌, String,
  string_eq, option_string_eq, bool_eq, nat_eq, ◌==◌, ltb, leb, length, all, contains, ok, reject,
  >>-ok, arith,
}
use devicelane.Dashboard.Model.{PolicyEffect, ResourceClass, resource_eq, max_collection_items}
use devicelane.Dashboard.Policy.Request.{
  AccessRequest, Codec, validate_request, has_duplicate, invalid_request,
}
use devicelane.Dashboard.Policy.Evaluation.{same_resources, rule_matches}
use devicelane.Shared.{reject-ok}
use devicelane.Dashboard.Policy.Approval.{
  rank, insert_sorted, sort_unstable, dedup_after, dedup, canonical_resources, exact_rule,
}

-- Sorting keeps the length and the members.
length-insert_sorted :
    (r : ResourceClass) (rs : List ResourceClass) → length (insert_sorted r rs) ≡ suc (length rs)
unfolding insert_sorted
length-insert_sorted r [] = refl
length-insert_sorted r (x ∷ xs) = ground (arith, length-insert_sorted r xs)

length-sort_unstable : (rs : List ResourceClass) → length (sort_unstable rs) ≡ length rs
unfolding sort_unstable
length-sort_unstable [] = refl
length-sort_unstable (r ∷ rs) =
    length-insert_sorted r (sort_unstable rs) ∙ ap suc (length-sort_unstable rs)

contains-insert_sorted :
    (r a : ResourceClass) (rs : List ResourceClass)
    → contains (insert_sorted r rs) a ≡ contains (r ∷ rs) a
unfolding insert_sorted
contains-insert_sorted r a [] = refl
contains-insert_sorted r a (x ∷ xs) = elim (Bool-cases (leb (rank r) (rank x))) [
  | inl first ↦ rw first refl
  | inr later ↦ rw (later, contains-insert_sorted r a xs) (ground arith)
]

contains-sort_unstable :
    (rs : List ResourceClass) (a : ResourceClass) → contains (sort_unstable rs) a ≡ contains rs a
unfolding sort_unstable
contains-sort_unstable [] a = refl
contains-sort_unstable (r ∷ rs) a =
    contains-insert_sorted r a (sort_unstable rs)
    ∙ ap (λ b. r == a || b) (contains-sort_unstable rs a)

has_duplicate-insert_sorted :
    (r : ResourceClass) (rs : List ResourceClass)
    → contains rs r ≡ false
    → has_duplicate rs ≡ false
    → has_duplicate (insert_sorted r rs) ≡ false
unfolding insert_sorted
has_duplicate-insert_sorted r [] h k = refl
has_duplicate-insert_sorted r (x ∷ xs) h k = elim (Bool-cases (leb (rank r) (rank x))) [
  | inl first ↦ rw (first, h) k
  | inr later ↦
      let rest : has_duplicate (insert_sorted r xs) ≡ false =
        has_duplicate-insert_sorted r xs (ground (arith, h)) (ground (arith, k)) in
      rw (later, contains-insert_sorted r x xs) (ground (arith, h, k, rest))
]

has_duplicate-sort_unstable :
    (rs : List ResourceClass) → has_duplicate rs ≡ false → has_duplicate (sort_unstable rs) ≡ false
unfolding sort_unstable
has_duplicate-sort_unstable [] h = refl
has_duplicate-sort_unstable (r ∷ rs) h =
    has_duplicate-insert_sorted r (sort_unstable rs)
      (contains-sort_unstable rs r ∙ ground (arith, h))
      (has_duplicate-sort_unstable rs (ground (arith, h)))

-- Without duplicates nothing is removed.
dedup_after_id :
    (r : ResourceClass) (rs : List ResourceClass)
    → has_duplicate (r ∷ rs) ≡ false
    → dedup_after r rs ≡ rs
unfolding dedup_after
dedup_after_id r [] h = refl
dedup_after_id r (x ∷ xs) h = ground (arith, h, dedup_after_id x xs)

dedup_id : (rs : List ResourceClass) → has_duplicate rs ≡ false → dedup rs ≡ rs
unfolding dedup
dedup_id [] h = refl
dedup_id (r ∷ rs) h = ap (◌∷◌ r) (dedup_after_id r rs h)

all-contains :
    (xs ys : List ResourceClass)
    → ((a : ResourceClass) → contains xs a ≡ true → contains ys a ≡ true)
    → all (λ a. contains ys a) xs ≡ true
all-contains [] ys h = refl
all-contains (x ∷ xs) ys h =
    let first : contains ys x ≡ true = h x (ground arith) in
    let rest : all (λ a. contains ys a) xs ≡ true =
      all-contains xs ys (λ a k. h a (ground (arith, k))) in
    ground (arith, first, rest)

-- The resources of a rule are those of its request.
same_resources-canonical_resources :
    (rs : List ResourceClass)
    → has_duplicate rs ≡ false
    → same_resources (canonical_resources rs) rs ≡ true
unfolding same_resources canonical_resources
same_resources-canonical_resources rs h =
    let same : dedup (sort_unstable rs) ≡ sort_unstable rs =
      dedup_id (sort_unstable rs) (has_duplicate-sort_unstable rs h) in
    let members : all (λ a. contains rs a) (sort_unstable rs) ≡ true =
      all-contains (sort_unstable rs) rs (λ a k. sym (contains-sort_unstable rs a) ∙ k) in
    let size = length-sort_unstable rs in rw same (ground (arith, members, size))

validate_request-distinct :
    (c : Codec) (request : AccessRequest)
    → validate_request c request ≡ ok tt
    → has_duplicate request.resources ≡ false
unfolding validate_request
validate_request-distinct c request h =
    let (_, more) =
      >>-ok (reject (ltb max_collection_items (length request.resources)) invalid_request) _ tt h in
    let (distinct, _) =
      >>-ok (reject (has_duplicate request.resources) invalid_request) _ tt more in
    reject-ok _ _ distinct

-- The rule of a decision matches its request at every time.
pub rule_matches-exact_rule :
    (c : Codec) (request : AccessRequest) (effect : PolicyEffect) (revision : ℕ) (id : String)
    (now_ms : ℕ)
    → validate_request c request ≡ ok tt
    → rule_matches (exact_rule request effect revision id) request now_ms ≡ true
unfolding rule_matches exact_rule
rule_matches-exact_rule c request effect revision id now_ms valid =
    let same =
      same_resources-canonical_resources request.resources
        (validate_request-distinct c request valid) in
    ground (arith, same)
