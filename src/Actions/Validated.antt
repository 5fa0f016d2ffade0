-- ===== src/Actions/Validated.antt =====
-- What `validate_params` guarantees of the parameters that reach a playbook.
use thot_secure.Prelude.{
  ℕ, ◌*◌, String, true, false, Option, none, some, List, [], ◌∷◌, ◌≡◌, refl, sym, ap, inl, inr, ◌⊎◌,
  Option-cases, Bool-cases, all, ◌||◌, arith,
}
use mathlib.Core.Path.{subst}
use thot_secure.Value.{Value, Dict, boolean, int, str, get, is_in, truthy}
use thot_secure.Platform.{Platform, str_of}
use thot_secure.Net.{is_valid_ip, is_valid_cidr}
use thot_secure.Actions.Params.{
  ParamType, string_type, integer_type, boolean_type, duration_type, ip_type, other_type,
  PlaybookParam, Specs, present, Taken, bound, unbound, invalid, below, above, safe_int,
  check_integer, is_nil, check_text, check_value, take_value, take_all, names, validate_params,
}

module _ (py : Platform) where
  -- The number that a value reads as, within the bounds.
  abbrev pub FitsNumber : PlaybookParam → Value → Value → Type 0
  FitsNumber p source v =
      (n : ℕ) × (safe_int py source ≡ some n)
      × (v ≡ int n)
      × (below (n * 100) p.minimum ≡ false)
      × (above (n * 100) p.maximum ≡ false)

  -- The text of a value, one of the choices if there are any.
  abbrev pub FitsText : PlaybookParam → Value → Value → Type 0
  FitsText p source v =
      (v ≡ str (str_of py source))
      × ((p.choices ≡ []) ⊎ (is_in (str_of py source) p.choices ≡ true))

  -- What becomes of a value, by the type of the parameter.
  abbrev pub Fits : PlaybookParam → ParamType → Value → Value → Type 0
  Fits p integer_type source v = FitsNumber p source v
  Fits p duration_type source v = FitsNumber p source v
  Fits p boolean_type source v = v ≡ boolean (truthy source)
  Fits p ip_type source v =
      (v ≡ str (str_of py source))
      × ((is_valid_ip py (str_of py source) || is_valid_cidr py (str_of py source)) ≡ true)
  Fits p string_type source v = FitsText p source v
  Fits p other_type source v = FitsText p source v

  -- The value that a parameter takes: the one that is given, or else its default.
  abbrev pub source_of : PlaybookParam → Option Value → Option Value
  source_of p (some v) = some v
  source_of p none = present p.default

  -- The parameters of a playbook, in its order: each made from the given value or its default, and
  -- one that has neither is left out and not required.
  pub data Accepted (provided : Dict) : Specs → Dict → Type 0 where
    no_param : Accepted provided [] []
    given :
        {k : String} {p : PlaybookParam} {ps : Specs} {source v : Value} {d : Dict}
        → source_of p (present (get k provided)) ≡ some source
        → Fits p p.kind source v
        → Accepted provided ps d
        → Accepted provided ((k, p) ∷ ps) ((k, v) ∷ d)
    left_out :
        {k : String} {p : PlaybookParam} {ps : Specs} {d : Dict}
        → source_of p (present (get k provided)) ≡ none
        → p.required ≡ false
        → Accepted provided ps d
        → Accepted provided ((k, p) ∷ ps) d

  taken_value : Value → Taken → Value
  taken_value v (bound x) = x
  taken_value v unbound = v
  taken_value v invalid = v

  bound-injective : (x y : Value) → bound x ≡ bound y → x ≡ y
  unfolding taken_value
  bound-injective x y h = ap (taken_value x) h

  check_integer-Fits :
      (p : PlaybookParam) (source : Value) (o : Option ℕ) (v : Value)
      → safe_int py source ≡ o
      → check_integer py p o ≡ bound v
      → FitsNumber p source v
  unfolding check_integer
  check_integer-Fits p source none v e h = cc
  check_integer-Fits p source (some n) v e h = (n, e, ground arith, ground arith, ground arith)

  no_choice : (cs : List String) → is_nil py cs ≡ true → cs ≡ []
  no_choice [] h = refl
  no_choice (c ∷ cs) h = cc

  check_text-Fits :
      (p : PlaybookParam) (source v : Value)
      → check_text py p (str_of py source) ≡ bound v
      → FitsText p source v
  unfolding check_text
  check_text-Fits p source v h = (
    ground arith,
    elim (Bool-cases (is_nil py p.choices)) [
      | inl e ↦ inl (no_choice p.choices e)
      | inr e ↦ inr (ground arith)
    ],
  )

  check_value-Fits :
      (p : PlaybookParam) (k : ParamType) (v x : Value)
      → check_value py p k v ≡ bound x
      → Fits p k v x
  unfolding check_value
  check_value-Fits p integer_type v x h = check_integer-Fits p v (safe_int py v) x refl h
  check_value-Fits p duration_type v x h = check_integer-Fits p v (safe_int py v) x refl h
  check_value-Fits p boolean_type v x h = sym (bound-injective _ x h)
  check_value-Fits p ip_type v x h = (ground arith, ground arith)
  check_value-Fits p string_type v x h = check_text-Fits p v x h
  check_value-Fits p other_type v x h = check_text-Fits p v x h

  check_value-bound :
      (p : PlaybookParam) (k : ParamType) (v : Value) → check_value py p k v ≡ unbound → ⊥
  unfolding check_value check_integer check_text
  check_value-bound p integer_type v h = ground arith
  check_value-bound p duration_type v h = ground arith
  check_value-bound p boolean_type v h = cc
  check_value-bound p ip_type v h = ground arith
  check_value-bound p string_type v h = ground arith
  check_value-bound p other_type v h = ground arith

  take_value-Fits :
      (p : PlaybookParam) (o : Option Value) (x : Value)
      → take_value py p o ≡ bound x
      → (source : Value) × (source_of p o ≡ some source) × Fits p p.kind source x
  unfolding take_value
  take_value-Fits p (some v) x h = (v, refl, check_value-Fits p p.kind v x h)
  take_value-Fits p none x h = elim (Option-cases (present p.default)) [
    | inl e ↦ ground arith
    | inr (v, e) ↦ (v, e, check_value-Fits p p.kind v x (rw (e, take_value) at h))
  ]

  take_value-optional :
      (p : PlaybookParam) (o : Option Value)
      → take_value py p o ≡ unbound
      → (source_of p o ≡ none) × (p.required ≡ false)
  unfolding take_value
  take_value-optional p (some v) h = absurd (check_value-bound p p.kind v h)
  take_value-optional p none h = elim (Option-cases (present p.default)) [
    | inl e ↦ (e, ground arith)
    | inr (v, e) ↦ absurd (check_value-bound p p.kind v (rw (e, take_value) at h))
  ]

  Taken-cases : (t : Taken) → ((v : Value) × (t ≡ bound v)) ⊎ ((t ≡ unbound) ⊎ (t ≡ invalid))
  Taken-cases (bound v) = inl (v, refl)
  Taken-cases unbound = inr (inl refl)
  Taken-cases invalid = inr (inr refl)

  take_all-Accepted :
      (ps : Specs) (provided d : Dict) → take_all py ps provided ≡ some d → Accepted provided ps d
  unfolding take_all
  take_all-Accepted [] provided [] h = no_param
  take_all-Accepted [] provided (x ∷ d) h = cc
  take_all-Accepted ((k, p) ∷ ps) provided d h =
      elim (Taken-cases (take_value py p (present (get k provided)))) [
        | inl (v, e) ↦ elim (Option-cases (take_all py ps provided)) [
          | inl f ↦ ground arith
          | inr (rest, f) ↦
              let (source, from, fits) = take_value-Fits p _ v e in
              subst (Accepted provided ((k, p) ∷ ps)) (ground arith)
                (given {k = k} from fits (take_all-Accepted ps provided rest f))
        ]
        | inr (inl e) ↦
            let (missing, optional) = take_value-optional p _ e in
            left_out missing optional (take_all-Accepted ps provided d (ground arith))
        | inr (inr e) ↦ ground arith
      ]

  -- If `validate_params` accepts, then every given name is declared, and its result holds the
  -- declared parameters in their order, each made from the value that is given or else from its
  -- default, where None counts as absent: for an integer or a duration the number that it reads as,
  -- within the bounds; for a boolean its truth; for an `ip` its text, a valid address or range; for
  -- every other type its text, one of the choices if there are any. A parameter is missing only if
  -- it has neither value nor default and is not required.
  pub validate_params-Accepted :
      (ps : Specs) (provided d : Dict)
      → validate_params py ps provided ≡ some d
      → (all (λ k. is_in k (names py ps)) (names py provided) ≡ true) × Accepted provided ps d
  unfolding validate_params
  validate_params-Accepted ps provided d h =
      (ground arith, take_all-Accepted ps provided d (ground arith))
