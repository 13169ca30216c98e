-- ===== src/Dashboard/Policy/Order.antt =====
-- The order in which rules take precedence (`select_rule` of src/dashboard/policy.rs).
use devicelane.Shared.{
  ℕ, ◌≡◌, ◌≢◌, refl, sym, subst, inl, inr, Bool, Bool-cases, true, false, ◌⊎◌, none, some, List, [],
  ◌∷◌, nat_eq, ◌==◌, ltb, ◌&&◌, ◌||◌, retain, codes, leb_codes, leb_codes_total, leb_codes_trans,
  leb_codes_antisym, codes-injective, In, In-nil, In-cases, In-retain, retain-In, arith,
}
use devicelane.Dashboard.Model.{PolicyEffect}
use devicelane.Dashboard.Policy.Rule.{PolicyRule, effect_eq}
use devicelane.Dashboard.Policy.Evaluation.{specificity, key_le, max_from, max_rule, select_rule}

-- The lexicographic order of two numbers and a last test.
abbrev lex : ℕ → ℕ → ℕ → ℕ → Bool → Bool
lex s t r q last = ltb s t || (s == t && (ltb r q || (r == q && last)))

lex_total :
    (s t r q : ℕ) (x y : Bool)
    → (x ≡ false → y ≡ true)
    → lex s t r q x ≡ false
    → lex t s q r y ≡ true
lex_total s t r q x y last h = ground (arith, h, last)

lex_trans :
    (s t u r q p : ℕ) (x y z : Bool)
    → (x ≡ true → y ≡ true → z ≡ true)
    → lex s t r q x ≡ true
    → lex t u q p y ≡ true
    → lex s u r p z ≡ true
lex_trans s t u r q p x y z last h k = ground (arith, h, k, last)

lex_antisym :
    (s t r q : ℕ) (x y : Bool)
    → lex s t r q x ≡ true
    → lex t s q r y ≡ true
    → (x ≡ true) × (y ≡ true)
lex_antisym s t r q x y h k = (ground (arith, h, k), ground (arith, h, k))

key_le_total : (a b : PolicyRule) → key_le a b ≡ false → key_le b a ≡ true
unfolding key_le
key_le_total a b h =
    lex_total (specificity a) (specificity b) a.revision b.revision
      (leb_codes (codes a.id) (codes b.id)) (leb_codes (codes b.id) (codes a.id))
      (leb_codes_total (codes a.id) (codes b.id)) h

key_le_trans : (a b c : PolicyRule) → key_le a b ≡ true → key_le b c ≡ true → key_le a c ≡ true
unfolding key_le
key_le_trans a b c h k =
    lex_trans (specificity a) (specificity b) (specificity c) a.revision b.revision c.revision
      (leb_codes (codes a.id) (codes b.id)) (leb_codes (codes b.id) (codes c.id))
      (leb_codes (codes a.id) (codes c.id)) (leb_codes_trans (codes a.id) (codes b.id) (codes c.id))
      h k

-- Two rules that precede each other have one id.
pub key_le_antisym : (a b : PolicyRule) → key_le a b ≡ true → key_le b a ≡ true → a.id ≡ b.id
unfolding key_le
key_le_antisym a b h k =
    let (x, y) =
      lex_antisym (specificity a) (specificity b) a.revision b.revision
        (leb_codes (codes a.id) (codes b.id)) (leb_codes (codes b.id) (codes a.id)) h k in
    codes-injective a.id b.id (leb_codes_antisym (codes a.id) (codes b.id) x y)

key_le_refl : (a : PolicyRule) → key_le a a ≡ true
key_le_refl a = elim (Bool-cases (key_le a a)) [ inl h ↦ h | inr h ↦ key_le_total a a h ]

-- The rule is among the rules, and none of them has a greater key.
pub record IsTop (r : PolicyRule) (rules : List PolicyRule) : Type 0 where
  pub member : In r rules
  pub top : (x : PolicyRule) → In x rules → key_le x r ≡ true

max_from-IsTop : (best : PolicyRule) (rs : List PolicyRule) → IsTop (max_from best rs) (best ∷ rs)
unfolding max_from
max_from-IsTop best [] = record {
  member = In.here refl;
  top = λ x h. elim (In-cases x best [] h) [
    | inl same ↦ subst (λ y. key_le y best ≡ true) same (key_le_refl best)
    | inr never ↦ absurd (In-nil x never)
  ];
}
max_from-IsTop best (r ∷ rs) = elim (Bool-cases (key_le best r)) [
  | inl less ↦
      let rest = max_from-IsTop r rs in
      rw less (record {
        member = In.there rest.member;
        top = λ x h. elim (In-cases x best (r ∷ rs) h) [
          | inl same ↦
              subst (λ y. key_le y (max_from r rs) ≡ true) same
                (key_le_trans best r (max_from r rs) less (rest.top r (In.here refl)))
          | inr later ↦ rest.top x later
        ];
      })
  | inr more ↦
      let rest = max_from-IsTop best rs in
      rw more (record {
        member = elim (In-cases (max_from best rs) best rs rest.member) [
          | inl same ↦ In.here same
          | inr later ↦ In.there (In.there later)
        ];
        top = λ x h. elim (In-cases x best (r ∷ rs) h) [
          | inl same ↦ rest.top x (In.here same)
          | inr later ↦ elim (In-cases x r rs later) [
            | inl same ↦
                subst (λ y. key_le y (max_from best rs) ≡ true) same
                  (key_le_trans r best (max_from best rs) (key_le_total best r more)
                    (rest.top best (In.here refl)))
            | inr last ↦ rest.top x (In.there last)
          ]
        ];
      })
]

-- The rule has the effect, and takes precedence over all others that do.
pub record IsSelected (effect : PolicyEffect) (r : PolicyRule) (rules : List PolicyRule)
    : Type 0 where
  pub member : In r rules
  pub has_effect : r.effect ≡ effect
  pub top : (x : PolicyRule) → In x rules → x.effect ≡ effect → key_le x r ≡ true

abbrev pub Without : PolicyEffect → List PolicyRule → Type 0
Without effect rules = (x : PolicyRule) → In x rules → x.effect ≢ effect

pub select_rule-cases :
    (rules : List PolicyRule) (effect : PolicyEffect)
    → ((select_rule rules effect ≡ none) × Without effect rules)
      ⊎ ((r : PolicyRule) × (select_rule rules effect ≡ some r) × IsSelected effect r rules)
unfolding select_rule max_rule
select_rule-cases rules effect = from (retain (λ rule. rule.effect == effect) rules) refl
  where
    from :
        (chosen : List PolicyRule)
        → retain (λ rule. rule.effect == effect) rules ≡ chosen
        → ((max_rule chosen ≡ none) × Without effect rules)
          ⊎ ((r : PolicyRule) × (max_rule chosen ≡ some r) × IsSelected effect r rules)
    from [] at =
        inl (
          refl,
          λ x h has. In-nil x (subst (In x) at (In-retain _ x rules h (ground (arith, has)))),
        )
    from (r ∷ rs) at =
        let top = max_from-IsTop r rs in
        let (member, has) = retain-In _ _ rules (subst (In (max_from r rs)) (sym at) top.member) in
        inr (
          max_from r rs,
          refl,
          record {
            member = member;
            has_effect = ground (arith, has);
            top = λ x h same.
                top.top x (subst (In x) at (In-retain _ x rules h (ground (arith, same))));
          },
        )

-- The selected rule's id is settled by the members alone.
pub IsSelected-unique :
    (effect : PolicyEffect) (r q : PolicyRule) (rules others : List PolicyRule)
    → ((x : PolicyRule) → In x rules → In x others)
    → ((x : PolicyRule) → In x others → In x rules)
    → IsSelected effect r rules
    → IsSelected effect q others
    → r.id ≡ q.id
IsSelected-unique effect r q rules others into back h k =
    key_le_antisym r q (k.top r (into r h.member) h.has_effect)
      (h.top q (back q k.member) k.has_effect)
