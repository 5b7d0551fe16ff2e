-- ===== src/Knowledge/Support.antt =====
-- What an answer says that the retrieved facts must back (src/kb/retriever.py): its numbers and its
-- promise words.
use autonomous_sales_agent.Prelude.{
  String, Bool, true, false, not, ◌&&◌, ◌||◌, ◌≡◌, refl, List, [], ◌∷◌, all, any, keep, member,
  ◌==◌, eq_iff, arith, Bool-cases, inl, inr,
}
use autonomous_sales_agent.Float.{Floating}
use autonomous_sales_agent.Knowledge.{
  Texts, Fact, is_claim, is_empty, terms_of, number_backed, term_backed, grounded,
}

-- membership by the Boolean test, against `all`, `any` and `keep`
pub member-all :
    (p : String → Bool) (t : String) (xs : List String)
    → all p xs ≡ true
    → member t xs ≡ true
    → p t ≡ true
member-all p t [] h m = absurd (ground (arith, m))
member-all p t (x ∷ xs) h m = elim (Bool-cases (t == x)) [
  | inl e ↦ ground (arith, (eq_iff t x).0 e)
  | inr e ↦ ground (arith, member-all p t xs)
]

pub all-member :
    (p : String → Bool) (xs : List String)
    → ((t : String) → member t xs ≡ true → p t ≡ true)
    → all p xs ≡ true
all-member p [] h = refl
all-member p (x ∷ xs) h =
    let here : member x (x ∷ xs) ≡ true = ground (arith, (eq_iff x x).1 refl) in
    let there : (t : String) → member t xs ≡ true → p t ≡ true = λ t m. h t (ground (arith, m)) in
    ground (arith, h x here, all-member p xs there)

pub member-any :
    (p : String → Bool) (t : String) (xs : List String)
    → any p xs ≡ false
    → member t xs ≡ true
    → p t ≡ false
member-any p t [] h m = absurd (ground (arith, m))
member-any p t (x ∷ xs) h m = elim (Bool-cases (t == x)) [
  | inl e ↦ ground (arith, (eq_iff t x).0 e)
  | inr e ↦ ground (arith, member-any p t xs)
]

pub member-keep :
    (p : String → Bool) (t : String) (xs : List String)
    → member t xs ≡ true
    → p t ≡ true
    → member t (keep p xs) ≡ true
member-keep p t [] m h = absurd (ground (arith, m))
member-keep p t (x ∷ xs) m h = elim (Bool-cases (t == x)) [
  | inl e ↦ ground (arith, (eq_iff t x).0 e, (eq_iff t t).1 refl)
  | inr e ↦ ground (arith, member-keep p t xs)
]

pub keep-member :
    (p : String → Bool) (t : String) (xs : List String)
    → member t (keep p xs) ≡ true
    → member t xs ≡ true
keep-member p t [] m = m
keep-member p t (x ∷ xs) m = ground (arith, keep-member p t xs)

pub member-is_empty : (t : String) (xs : List String) → member t xs ≡ true → is_empty xs ≡ false
member-is_empty t [] m = absurd (ground (arith, m))
member-is_empty t (x ∷ xs) m = refl

-- where nothing is kept, nothing passes the test
pub keep-none :
    (p : String → Bool) (t : String) (xs : List String)
    → is_empty (keep p xs) ≡ true
    → member t xs ≡ true
    → p t ≡ false
keep-none p t xs h m = elim (Bool-cases (p t)) [
  | inl y ↦ absurd (ground (arith, member-is_empty t (keep p xs) (member-keep p t xs m y)))
  | inr n ↦ n
]

pub keep-is_empty :
    (p : String → Bool) (xs : List String)
    → is_empty (keep (λ x. not (p x)) xs) ≡ true
    → all p xs ≡ true
keep-is_empty p [] h = refl
keep-is_empty p (x ∷ xs) h = ground (arith, keep-is_empty p xs)

module _ {F : Type 0} ⦃texts : Texts⦄ where
  -- every number of the text, and every promise word that is no stopword, is in the facts
  abbrev pub backed : List (Fact F) → String → Bool
  backed facts text =
      all (number_backed facts) (texts.numbers text)
      && all (λ t. not (is_claim t) || term_backed facts t) (terms_of text)

  module _ ⦃fl : Floating F⦄ (facts : List (Fact F)) (text : String) where
    -- the report names every unsupported promise word
    pub grounded-names :
        (t : String)
        → member t (terms_of text) ≡ true
        → is_claim t ≡ true
        → term_backed facts t ≡ false
        → member t (grounded text facts).unsupported_terms ≡ true
    unfolding grounded
    grounded-names t m c u =
        let raw =
          member-keep (λ t'. not (term_backed facts t')) t (terms_of text) m (ground (arith, u)) in
        let claims =
          member-keep is_claim t (keep (λ t'. not (term_backed facts t')) (terms_of text)) raw c in
        ground (arith, raw, claims)

    no_promise :
        (t : String)
        → (grounded text facts).grounded ≡ true
        → member t (terms_of text) ≡ true
        → is_claim t ≡ true
        → term_backed facts t ≡ true
    unfolding grounded
    no_promise t h m c = elim (Bool-cases (term_backed facts t)) [
      | inl y ↦ y
      | inr n ↦
          let raw =
            member-keep (λ t'. not (term_backed facts t')) t (terms_of text) m
              (ground (arith, n)) in
          let none_kept = keep-none is_claim t _ (ground (arith, h)) raw in
          absurd (ground (arith, none_kept, c))
    ]

    grounded-numbers :
        (grounded text facts).grounded ≡ true
        → all (number_backed facts) (texts.numbers text) ≡ true
    unfolding grounded
    grounded-numbers h =
        keep-is_empty (number_backed facts) (texts.numbers text) (ground (arith, h))

    pub grounded-backed : (grounded text facts).grounded ≡ true → backed facts text ≡ true
    grounded-backed h =
        let claims : all (λ t. not (is_claim t) || term_backed facts t) (terms_of text) ≡ true =
          all-member _ (terms_of text) (λ t m. elim (Bool-cases (is_claim t)) [
            | inl y ↦ ground (arith, no_promise t h m y)
            | inr n ↦ ground (arith, n)
          ]) in
        ground (arith, grounded-numbers h, claims)
