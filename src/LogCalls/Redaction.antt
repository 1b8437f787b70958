-- ===== src/LogCalls/Redaction.antt =====
-- What `_redact_args` shows: of the positional arguments that bind exactly those are redacted whose
-- parameter is named.
use pydecorators.Prelude.{
  ℕ, zero, suc, ◌+◌, ◌-◌, ◌≤◌, ◌≡◌, refl, Bool, true, false, ◌&&◌, ◌||◌, Option, none, some, List,
  [], ◌∷◌, map, String, leb, nat_beq, length, arith, if◌then◌else◌, Bool-cases, inl, inr, ap, sym,
  ◌∙◌, subst,
}
use pydecorators.Prelude.Dict.{Dict}
use pydecorators.LogCalls.{
  Parameter, ParameterKind, positional_only, positional_or_keyword, var_positional, keyword_only,
  var_keyword, is_positional, is_var_positional, Shown, shown, redacted, is_in, redact_at,
  redact_loop, redact_bound, redact_args, redact_kwargs, bind_partial,
}

-- The value at a position.
abbrev pub at : {A : Type 0} → ℕ → List A → Option A
at i [] = none
at zero (x ∷ xs) = some x
at (suc i) (x ∷ xs) = at i xs

-- The names of the positional parameters, in order: the one at a position names the argument there.
abbrev pub positional_names : List Parameter → List String
positional_names [] = []
positional_names (p ∷ ps) =
    let rest = positional_names ps in if is_positional p.kind then p.name ∷ rest else rest

-- The name at a position is one of those to redact.
abbrev pub hides : List String → List String → ℕ → Bool
hides names [] i = false
hides names (n ∷ ns) zero = is_in n names
hides names (n ∷ ns) (suc i) = hides names ns i

-- No positional parameter stands behind a variadic one, which Python's grammar sees to.
abbrev pub IsOrdered : List Parameter → Type 0
IsOrdered [] = Unit
IsOrdered (p ∷ ps) = (is_var_positional p.kind ≡ true → positional_names ps ≡ []) × IsOrdered ps

-- What a position is named by, from one parameter on.
hides_from :
    (names : List String) (n : String) (ns : List String) (i j d : ℕ)
    → j - i ≡ d
    → (leb i j && hides names (n ∷ ns) d)
      ≡ ((leb (i + 1) j && hides names ns (j - (i + 1))) || (nat_beq i j && is_in n names))
hides_from names n ns i j zero h = ground (arith, h)
hides_from names n ns i j (suc d) h =
    let next : j - (i + 1) ≡ d = omega (arith, h) in rw next (ground (arith, h))

not_variadic : (k : ParameterKind) → is_var_positional k ≡ true → is_positional k ≡ false
not_variadic var_positional h = refl
not_variadic positional_only h = absurd (cc h)
not_variadic positional_or_keyword h = absurd (cc h)
not_variadic keyword_only h = refl
not_variadic var_keyword h = refl

nothing_hidden : (ns : List String) (j : ℕ) → hides [] ns j ≡ false
nothing_hidden [] j = refl
nothing_hidden (n ∷ ns) zero = refl
nothing_hidden (n ∷ ns) (suc j) = nothing_hidden ns j

module _ {V : Type 0} where
  abbrev pub hidden_if : Bool → Option (Shown V) → Option (Shown V)
  hidden_if b none = none
  hidden_if b (some v) = some (if b then redacted else v)

  hidden_if-false : (o : Option (Shown V)) → hidden_if false o ≡ o
  hidden_if-false none = refl
  hidden_if-false (some v) = refl

  at-redact_at :
      (i j : ℕ) (vs : List (Shown V)) → at j (redact_at i vs) ≡ hidden_if (nat_beq i j) (at j vs)
  at-redact_at i j [] = refl
  at-redact_at zero zero (v ∷ vs) = ground arith
  at-redact_at zero (suc j) (v ∷ vs) = ground (arith, hidden_if-false (at j vs))
  at-redact_at (suc i) zero (v ∷ vs) = ground arith
  at-redact_at (suc i) (suc j) (v ∷ vs) = ground (arith, at-redact_at i j vs)

  length-redact_at : (i : ℕ) (vs : List (Shown V)) → length (redact_at i vs) ≡ length vs
  length-redact_at i [] = refl
  length-redact_at zero (v ∷ vs) = refl
  length-redact_at (suc i) (v ∷ vs) = ground (arith, length-redact_at i vs)

  at_beyond : (j : ℕ) (vs : List (Shown V)) → length vs ≤ j → at j vs ≡ none
  at_beyond j [] h = refl
  at_beyond zero (v ∷ vs) h = ground arith
  at_beyond (suc j) (v ∷ vs) h = at_beyond j vs (omega arith)

  beyond_hidden :
      (b : Bool) (i j : ℕ) (vs : List (Shown V))
      → leb (length vs) i ≡ true
      → at j vs ≡ hidden_if (leb i j && b) (at j vs)
  beyond_hidden b i j vs done = elim (Bool-cases (leb i j)) [
    | inl there ↦ rw (at_beyond j vs (ground (arith, done, there))) refl
    | inr before ↦ rw before (sym (hidden_if-false (at j vs)))
  ]

  nothing_named :
      (names : List String) (extra : ℕ) (ps : List Parameter) (i : ℕ) (vs : List (Shown V))
      → positional_names ps ≡ []
      → redact_loop names extra ps i vs ≡ vs
  nothing_named names extra [] i vs h = refl
  nothing_named names extra (p ∷ ps) i vs h =
      ground (arith, nothing_named names extra ps (i + extra) vs, nothing_named names extra ps i vs)

  hidden_twice :
      (b c : Bool) (o : Option (Shown V)) → hidden_if b (hidden_if c o) ≡ hidden_if (b || c) o
  hidden_twice true c none = refl
  hidden_twice false c none = refl
  hidden_twice true c (some v) = refl
  hidden_twice false c (some v) = refl

  at-redacted_one :
      (b : Bool) (i j : ℕ) (vs : List (Shown V))
      → at j (if b then redact_at i vs else vs) ≡ hidden_if (nat_beq i j && b) (at j vs)
  at-redacted_one true i j vs = ground (arith, at-redact_at i j vs)
  at-redacted_one false i j vs = ground (arith, hidden_if-false (at j vs))

  at-redact_loop :
      (names : List String) (extra : ℕ) (ps : List Parameter) (i j : ℕ) (vs : List (Shown V))
      → IsOrdered ps
      → at j (redact_loop names extra ps i vs)
        ≡ hidden_if (leb i j && hides names (positional_names ps) (j - i)) (at j vs)
  at-redact_loop names extra [] i j vs h = ground (arith, hidden_if-false (at j vs))
  at-redact_loop names extra (p ∷ ps) i j vs h = elim (Bool-cases (is_var_positional p.kind)) [
    | inl variadic ↦
        rw
          (
            variadic,
            not_variadic p.kind variadic,
            h.0 variadic,
            nothing_named names extra ps (i + extra) vs (h.0 variadic),
          )
          (ground (arith, hidden_if-false (at j vs)))
    | inr other ↦ elim (Bool-cases (is_positional p.kind)) [
      | inr keyword ↦ rw (other, keyword) (at-redact_loop names extra ps i j vs h.1)
      | inl positional ↦ elim (Bool-cases (leb (length vs) i)) [
        | inl done ↦ rw (other, positional, done) (beyond_hidden _ i j vs done)
        | inr goes_on ↦
            rw (other, positional, goes_on)
              (at-redact_loop names extra ps (i + 1) j _ h.1
                ∙ ap (hidden_if _) (at-redacted_one (is_in p.name names) i j vs)
                ∙ hidden_twice _ _ (at j vs)
                ∙ ap (λ b. hidden_if b (at j vs))
                    (sym (hides_from names p.name (positional_names ps) i j (j - i) refl)))
      ]
    ]
  ]

  abbrev shown_option : Option V → Option (Shown V)
  shown_option none = none
  shown_option (some v) = some (shown v)

  -- Where the arguments bind, the value at a position is redacted exactly if the positional parameter
  -- there is named, and is else the argument.
  pub at-redact_args :
      (args : List V) (kwarg_names names : List String) (signature : List Parameter) (extra j : ℕ)
      → IsOrdered signature
      → bind_partial signature (length args) kwarg_names ≡ some extra
      → at j (redact_args args kwarg_names names signature)
        ≡ hidden_if (hides names (positional_names signature) j) (at j (map shown args))
  unfolding redact_args
  at-redact_args args kwarg_names [] signature extra j ordered binds =
      rw (nothing_hidden (positional_names signature) j)
        (sym (hidden_if-false (at j (map shown args))))
  at-redact_args [] kwarg_names (n ∷ names) signature extra j ordered binds = refl
  at-redact_args (a ∷ args) kwarg_names (n ∷ names) signature extra j ordered binds =
      rw (binds, redact_bound)
        (at-redact_loop (n ∷ names) extra signature 0 j (map shown (a ∷ args)) ordered
          ∙ ap (λ b. hidden_if b (at j (map shown (a ∷ args)))) (ground arith))

  -- Two lists of arguments that agree except where a redacted parameter names the position.
  abbrev pub AgreeUnless : (hidden : ℕ → Bool) → List V → List V → Type 0
  AgreeUnless hidden args args' =
      (length args ≡ length args') × ((j : ℕ) → hidden j ≡ false → at j args ≡ at j args')

  same_values : (xs ys : List (Shown V)) → ((j : ℕ) → at j xs ≡ at j ys) → xs ≡ ys
  same_values [] [] h = refl
  same_values [] (y ∷ ys) h = absurd (cc (h 0))
  same_values (x ∷ xs) [] h = absurd (cc (h 0))
  same_values (x ∷ xs) (y ∷ ys) h = cc (h 0, same_values xs ys (λ j. h (suc j)))

  at-map : (j : ℕ) (vs : List V) → at j (map shown vs) ≡ shown_option (at j vs)
  at-map j [] = refl
  at-map zero (v ∷ vs) = refl
  at-map (suc j) (v ∷ vs) = at-map j vs

  same_hidden :
      (j : ℕ) (vs ws : List V)
      → length vs ≡ length ws
      → hidden_if true (at j (map shown vs)) ≡ hidden_if true (at j (map shown ws))
  same_hidden j [] [] h = refl
  same_hidden j [] (w ∷ ws) h = absurd (omega (arith, h))
  same_hidden j (v ∷ vs) [] h = absurd (omega (arith, h))
  same_hidden zero (v ∷ vs) (w ∷ ws) h = refl
  same_hidden (suc j) (v ∷ vs) (w ∷ ws) h = same_hidden j vs ws (omega (arith, h))

  same_at :
      (hidden : ℕ → Bool) (args args' : List V) (j : ℕ)
      → AgreeUnless hidden args args'
      → hidden_if (hidden j) (at j (map shown args)) ≡ hidden_if (hidden j) (at j (map shown args'))
  same_at hidden args args' j agree = elim (Bool-cases (hidden j)) [
    | inl secret ↦ rw secret (same_hidden j args args' agree.0)
    | inr plain ↦ rw plain (
        ap (hidden_if false)
          (at-map j args ∙ ap shown_option (agree.1 j plain) ∙ sym (at-map j args')))
  ]

  -- Arguments that bind and agree except where they are redacted are shown alike.
  pub redact_args-agree :
      (args args' : List V) (kwarg_names names : List String) (signature : List Parameter)
      (extra : ℕ)
      → IsOrdered signature
      → bind_partial signature (length args) kwarg_names ≡ some extra
      → AgreeUnless (hides names (positional_names signature)) args args'
      → redact_args args kwarg_names names signature ≡ redact_args args' kwarg_names names signature
  redact_args-agree args args' kwarg_names names signature extra ordered binds agree =
      let binds' : bind_partial signature (length args') kwarg_names ≡ some extra =
        subst (λ n. bind_partial signature n kwarg_names ≡ some extra) agree.0 binds in
      same_values _ _ (λ j.
        at-redact_args args kwarg_names names signature extra j ordered binds
        ∙ same_at (hides names (positional_names signature)) args args' j agree
        ∙ sym (at-redact_args args' kwarg_names names signature extra j ordered binds'))

  -- Arguments by name that agree except where they are redacted.
  abbrev pub AgreeByName : List String → Dict String V → Dict String V → Type 0
  AgreeByName names [] [] = Unit
  AgreeByName names ((n, v) ∷ d) ((m, w) ∷ d') =
      (n ≡ m) × (is_in n names ≡ false → v ≡ w) × AgreeByName names d d'
  AgreeByName names _ _ = ⊥

  same_name :
      (n m : String) (b : Bool) (v w : V)
      → n ≡ m
      → (b ≡ false → v ≡ w)
      → ◌≡◌ {A = String × Shown V}
          (n, (if b then redacted else shown v))
          (m, (if b then redacted else shown w))
  same_name n m true v w same h = cc same
  same_name n m false v w same h = cc (same, h refl)

  pub redact_kwargs-agree :
      (names : List String) (d d' : Dict String V)
      → AgreeByName names d d'
      → (redact_kwargs d names ≡ redact_kwargs d' names) × (map (λ e. e.0) d ≡ map (λ e. e.0) d')
  redact_kwargs-agree names [] [] h = (refl, refl)
  redact_kwargs-agree names [] (e ∷ d') h = absurd h
  redact_kwargs-agree names (e ∷ d) [] h = absurd h
  redact_kwargs-agree names ((n, v) ∷ d) ((m, w) ∷ d') h =
      let rest = redact_kwargs-agree names d d' h.2 in
      let same_hidden_name = ap (λ x. is_in x names) h.0 in
      (cc (same_name n m (is_in n names) v w h.0 h.1, same_hidden_name, rest.0), cc (h.0, rest.1))
