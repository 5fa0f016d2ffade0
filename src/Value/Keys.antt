-- ===== src/Value/Keys.antt =====
-- Dicts with distinct keys: what `get` finds after `put` and after a filter.
use thot_secure.Prelude.{
  String, Bool, false, Option, none, some, List, [], ◌∷◌, ◌≡◌, ◌≢◌, ◌⊎◌, str_eq, eq_iff, eq_refl,
  arith, if◌then◌else◌, refl, keep, Bool-cases, inl, inr, sym, ◌∙◌, ap,
}
use thot_secure.Value.{get, put}

-- o, unless its content fails the test
abbrev pub filtered {ℓ} : {V : Type ℓ} → (V → Bool) → Option V → Option V
filtered p none = none
filtered p (some v) = if p v then some v else none

module _ {ℓ} {V : Type ℓ} where
  -- No key stands twice.
  abbrev pub Distinct : List (String × V) → Type ℓ
  Distinct [] = Unit
  Distinct ((k, v) ∷ d) = (get k d ≡ none) × Distinct d

  pub get-put : (k : String) (v : V) (d : List (String × V)) → get k (put k v d) ≡ some v
  unfolding get put
  get-put k v [] = rw (eq_refl k) refl
  get-put k v ((j, w) ∷ d) = ground (arith, get-put k v d)

  pub get-put_other :
      (j k : String) (v : V) (d : List (String × V)) → j ≢ k → get j (put k v d) ≡ get j d
  unfolding get put
  get-put_other j k v [] n = ground (arith, eq_iff k j)
  get-put_other j k v ((i, w) ∷ d) n =
      ground (arith, get-put_other j k v d n, eq_iff i j, eq_iff i k)

  pub get-put_cases :
      (j k : String) (v : V) (d : List (String × V))
      → ((k ≡ j) × (get j (put k v d) ≡ some v))
        ⊎ ((j ≢ k) × (str_eq k j ≡ false) × (get j (put k v d) ≡ get j d))
  get-put_cases j k v d = elim (Bool-cases (str_eq k j)) [
    | inl e ↦
        let q = (eq_iff k j).0 e in
        inl (q, ap (λ (x : String). get x (put k v d)) (sym q) ∙ get-put k v d)
    | inr e ↦ let n : j ≢ k = λ q. ground (arith, eq_iff k j) in inr (n, e, get-put_other j k v d n)
  ]

  pub put-Distinct :
      (k : String) (v : V) (d : List (String × V)) → Distinct d → Distinct (put k v d)
  unfolding get put
  put-Distinct k v [] h = (refl, tt)
  put-Distinct k v ((j, w) ∷ d) (h, r) = elim (Bool-cases (str_eq j k)) [
    | inl e ↦ rw e (h, r)
    | inr e ↦
        rw e (get-put_other j k v d (λ q. ground (arith, eq_iff j k)) ∙ h, put-Distinct k v d r)
  ]

  pub get-keep-none :
      (p : String × V → Bool) (k : String) (d : List (String × V))
      → get k d ≡ none
      → get k (keep p d) ≡ none
  unfolding get
  get-keep-none p k [] h = refl
  get-keep-none p k ((j, w) ∷ d) h = ground (arith, get-keep-none p k d)

  pub keep-Distinct :
      (p : String × V → Bool) (d : List (String × V)) → Distinct d → Distinct (keep p d)
  keep-Distinct p [] h = tt
  keep-Distinct p ((j, w) ∷ d) (h, r) = elim (Bool-cases (p (j, w))) [
    | inl e ↦ rw e (get-keep-none p j d h, keep-Distinct p d r)
    | inr e ↦ rw e (keep-Distinct p d r)
  ]

  -- In a dict of distinct keys, a filter hides a key or leaves its value.
  pub get-keep :
      (p : V → Bool) (k : String) (d : List (String × V))
      → Distinct d
      → get k (keep (λ (e : String × V). p e.1) d) ≡ filtered p (get k d)
  unfolding get
  get-keep p k [] h = refl
  get-keep p k ((j, w) ∷ d) (h, r) = elim (Bool-cases (p w)) [
    | inl e ↦ rw e (elim (Bool-cases (str_eq j k)) [
      | inl f ↦ rw (f, e) refl
      | inr f ↦ rw f (get-keep p k d r)
    ])
    | inr e ↦ rw e (elim (Bool-cases (str_eq j k)) [
      | inl f ↦
          rw (f, e)
            (get-keep p k d r
              ∙ ap (filtered p) (ap (λ (x : String). get x d) (sym ((eq_iff j k).0 f)) ∙ h))
      | inr f ↦ rw f (get-keep p k d r)
    ])
  ]
