-- ===== src/DiGen/Names/Fresh.antt =====
-- The names that are assigned.
use alya.Prelude.{
  ℕ, zero, suc, ◌+◌, ◌≤◌, ◌<◌, List, [], ◌∷◌, ◌++◌, some, none, String, true, false, not, ◌≡◌, ◌≢◌,
  refl, sym, ap, ◌∙◌, ltb, arith, length, select, str_eq, str_eq_iff, str_append, map, Bool-cases,
  Option-cases, inl, inr,
}
use mathlib.Core.Path.{subst}
use alya.DiGen.Resolve.{has}
use alya.DiGen.Names.{
  first_free, or_value, unique_local_name, assign_names, make_param_name, make_variable_name,
  build_input_var_names, build_provider_var_names,
}
use alya.DiGen.Model.{TypeRef, ProviderNode}

without : String → List String → List String
without k = select (λ x. not (str_eq x k))

length-without_le : (k : String) (l : List String) → length (without k l) ≤ length l
unfolding without
length-without_le k [] = omega arith
length-without_le k (x ∷ xs) = ground (arith, length-without_le k xs)

length-without_lt :
    (k : String) (l : List String) → has k l ≡ true → length (without k l) < length l
unfolding without
length-without_lt k [] h = cc
length-without_lt k (x ∷ xs) h = elim (Bool-cases (str_eq x k)) [
  | inl e ↦ let le = length-without_le k xs in ground arith
  | inr e ↦ let lt = length-without_lt k xs (ground arith) in ground arith
]

has-without : (j k : String) (l : List String) → j ≢ k → has j l ≡ true → has j (without k l) ≡ true
unfolding without
has-without j k [] ne h = cc
has-without j k (x ∷ xs) ne h = elim (Bool-cases (str_eq x j)) [
  | inl e ↦ elim (Bool-cases (str_eq x k)) [
    | inl q ↦ absurd (ne (sym ((str_eq_iff x j).0 e) ∙ (str_eq_iff x k).0 q))
    | inr q ↦ ground arith
  ]
  | inr e ↦
      let rest = has-without j k xs ne (ground arith) in
      elim (Bool-cases (str_eq x k)) [ inl q ↦ ground arith | inr q ↦ ground arith ]
]

-- So many different names in use are at most as many as the names in use.
pigeon :
    (f : ℕ → String)
    → ((i j : ℕ) → f i ≡ f j → i ≡ j)
    → (n i : ℕ) (used : List String) → ((j : ℕ) → i ≤ j → j < i + n → has (f j) used ≡ true)
    → n ≤ length used
pigeon f inj zero i used h = omega arith
pigeon f inj (suc n) i used h =
    let here = h i (omega arith) (omega arith) in
    let fewer = length-without_lt (f i) used here in
    let rest : n ≤ length (without (f i) used) =
      pigeon f inj n (i + 1) (without (f i) used) λ j ge lt.
        has-without (f j) (f i) used (λ e. let same = inj j i e in omega arith)
          (h j (omega arith) (omega arith)) in
    omega arith

map-first :
    {A : Type 0} (f : A → String × String) (key : A → String) (xs : List A)
    → ((x : A) → (f x).0 ≡ key x)
    → map (λ (y : String × String). y.0) (map f xs) ≡ map key xs
map-first f key [] h = refl
map-first f key (x ∷ xs) h = ground (arith, h x, map-first f key xs h)

-- Each name is none of those in use, nor of those assigned before it.
abbrev pub NoClash : List (String × String) → List String → Type 0
NoClash [] used = Unit {0}
NoClash ((key, name) ∷ rest) used = (has name used ≡ false) × NoClash rest (name ∷ used)

module _ (numbered : String → ℕ → String)
    (numbered-injective : (s : String) (i j : ℕ) → numbered s i ≡ numbered s j → i ≡ j) where
  none_free :
      (n i : ℕ) (c : String) (used : List String)
      → first_free numbered n i c used ≡ none
      → (j : ℕ) → i ≤ j
      → j < i + n
      → has (numbered c j) used ≡ true
  unfolding first_free
  none_free zero i c used h j ge lt = absurd (omega arith)
  none_free (suc n) i c used h j ge lt = elim (Bool-cases (has (numbered c i) used)) [
    | inr free ↦ absurd (ground arith)
    | inl taken ↦ elim (Bool-cases (ltb i j)) [
      | inl later ↦ none_free n (i + 1) c used (ground arith) j (ground arith) (omega arith)
      | inr here ↦
          let same : i ≡ j = ground arith in subst (λ k. has (numbered c k) used ≡ true) same taken
    ]
  ]

  found_free :
      (n i : ℕ) (c name : String) (used : List String)
      → first_free numbered n i c used ≡ some name
      → has name used ≡ false
  unfolding first_free
  found_free zero i c name used h = cc
  found_free (suc n) i c name used h = elim (Bool-cases (has (numbered c i) used)) [
    | inl taken ↦ found_free n (i + 1) c name used (ground arith)
    | inr free ↦
        let same : numbered c i ≡ name = ground arith in subst (λ s. has s used ≡ false) same free
  ]

  -- The loop that counts up finds a name.
  first_free_lem :
      (c : String) (used : List String)
      → (name : String) × (first_free numbered (suc (length used)) 2 c used ≡ some name)
        × (has name used ≡ false)
  first_free_lem c used = elim (Option-cases (first_free numbered (suc (length used)) 2 c used)) [
    | inl e ↦
        let all = none_free (suc (length used)) 2 c used e in
        let few = pigeon (numbered c) (numbered-injective c) (suc (length used)) 2 used all in
        absurd (omega arith)
    | inr (name, e) ↦ (name, e, found_free (suc (length used)) 2 c name used e)
  ]

  unique_local_name_lem :
      (base : String) (used : List String)
      → (name : String) × (unique_local_name numbered base used ≡ some name)
        × (has name used ≡ false)
  unfolding unique_local_name
  unique_local_name_lem base used =
      let c = or_value base in
      elim (Bool-cases (has c used)) [
        | inr free ↦ (c, ground arith, free)
        | inl taken ↦ elim (Bool-cases (has (str_append c "Value") used)) [
          | inr free ↦ (str_append c "Value", ground arith, free)
          | inl also ↦
              let (name, e, free) = first_free_lem (str_append c "Value") used in
              (name, ground arith, free)
        ]
      ]

  -- The assignment ends, with one name for each key, in order.
  assign_names-NoClash :
      (wanted : List (String × String)) (used : List String)
      → (names : List (String × String)) × (used' : List String) × (assign_names numbered wanted
            used
          ≡ some (names, used'))
        × (map (λ (x : String × String). x.0) names ≡ map (λ (x : String × String). x.0) wanted)
        × NoClash names used
  unfolding assign_names
  assign_names-NoClash [] used = ([], used, refl, refl, tt)
  assign_names-NoClash ((key, base) ∷ rest) used =
      let (name, e, free) = unique_local_name_lem base used in
      let (names, used', run, keys, clash) = assign_names-NoClash rest (name ∷ used) in
      ((key, name) ∷ names, used', ground arith, ap (λ l. key ∷ l) keys, (free, clash))

  -- For any inputs, providers and reserved names, the local names are found: one for each input and
  -- one for each provider, in order; none is reserved, and no two of them are the same, be they of
  -- inputs or of providers. Numbering a name gives different names for different numbers.
  pub build_var_names-NoClash :
      (lower_camel : String → String) (inputs : List TypeRef) (nodes : List ProviderNode)
      (reserved : List String)
      → (ins : List (String × String)) × (used : List String) × (outs : List (String × String))
        × (used' : List String) × (build_input_var_names numbered lower_camel inputs reserved
            ≡ some (ins, used))
        × (build_provider_var_names numbered lower_camel nodes reserved ins ≡ some (outs, used'))
        × (map (λ (x : String × String). x.0) ins ≡ map (λ (t : TypeRef). t.type_key) inputs)
        × (map (λ (x : String × String). x.0) outs
            ≡ map (λ (n : ProviderNode). n.ref.result.type_key) nodes)
        × NoClash ins reserved
        × NoClash outs (map (λ (x : String × String). x.1) ins ++ reserved)
  build_var_names-NoClash lower_camel inputs nodes reserved =
      let (ins, used, run, keys, clash) =
        assign_names-NoClash
          (map (λ (t : TypeRef). (t.type_key, make_param_name numbered lower_camel t.type_value))
            inputs)
          reserved in
      let (outs, used', run', keys', clash') =
        assign_names-NoClash
          (map
            (λ (n : ProviderNode). (
              n.ref.result.type_key,
              make_variable_name numbered lower_camel n.ref.result.type_value,
            ))
            nodes)
          (map (λ (x : String × String). x.1) ins ++ reserved) in
      (
        ins,
        used,
        outs,
        used',
        run,
        run',
        keys ∙ map-first _ (λ (t : TypeRef). t.type_key) inputs (λ t. refl),
        keys' ∙ map-first _ (λ (n : ProviderNode). n.ref.result.type_key) nodes (λ n. refl),
        clash,
        clash',
      )
