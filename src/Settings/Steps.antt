-- ===== src/Settings/Steps.antt =====
-- The setters and getters of the registry, step by step: what each does on every result of the
-- calls that it makes.
use ndisapi.Base.{
  ℕ, ◌+◌, ◌-◌, ◌≡◌, ◌∙◌, refl, ap, Bool, true, false, Option, none, some, arith, if◌then◌else◌,
}
use ndisapi.Settings.{
  ValueName, Registry, State, path, close, set_with, get_with, set_setting, get_setting,
}

-- What a getter makes of a value.
abbrev pub or_zero : Option ℕ → ℕ
or_zero none = 0
or_zero (some v) = v

module _ {S Key : Type 0} (reg : Registry S Key) where
  pub get_with_lem :
      (k : Key) (n : ValueName) (st : State S)
      → (get_with reg k n st).0 ≡ or_zero (reg.query_value st.sys k n)
  unfolding get_with
  get_with_lem k n st = go (reg.query_value st.sys k n)
    where
      go :
          (o : Option ℕ)
          → (elim o as (λ _. ℕ × State S) [
            | none ↦ (0, close reg k st)
            | some v ↦ (v, close reg k st)
          ]).0
            ≡ or_zero o
      go none = refl
      go (some v) = refl

  -- The steps that follow the two calls, once their results are known.
  unfoldable pub with_set : Key → ValueName → ℕ → State S → Bool × S → Bool × State S
  with_set k n v st (true, s) = (true, close reg k (record st { sys = s }))
  with_set k n v st (false, s) = (false, close reg k (record st { sys = s }))

  pub set_with_lem :
      (k : Key) (n : ValueName) (v : ℕ) (st : State S)
      → set_with reg k n v st ≡ with_set k n v st (reg.set_value st.sys k n v)
  unfolding set_with with_set
  set_with_lem k n v st = go (reg.set_value st.sys k n v)
    where
      go :
          (p : Bool × S)
          → (if p.0
              then (true, close reg k (record st { sys = p.1 }))
              else (false, close reg k (record st { sys = p.1 })))
            ≡ with_set k n v st p
      go (true, s) = refl
      go (false, s) = refl

  unfoldable pub opened : S → State S → State S
  opened s st = record { sys = s; open_keys = st.open_keys + 1 }

  -- What a setter and a getter do on each result of RegCreateKey.
  pub set_created :
      (n : ValueName) (v : ℕ) (st : State S) (k : Key) (s : S)
      → reg.create_key st.sys (path reg) ≡ (some k, s)
      → set_setting reg n v st ≡ set_with reg k n v (opened s st)
  unfolding set_setting opened
  set_created n v st k s e =
      ap
        (λ p. elim p.0 as (λ _. Bool × State S) [
          | none ↦ (false, record st { sys = p.1 })
          | some k' ↦ set_with reg k' n v (record { sys = p.1; open_keys = st.open_keys + 1 })
        ])
        e

  pub set_refused :
      (n : ValueName) (v : ℕ) (st : State S) (s : S)
      → reg.create_key st.sys (path reg) ≡ (none, s)
      → set_setting reg n v st ≡ (false, record st { sys = s })
  unfolding set_setting
  set_refused n v st s e =
      ap
        (λ p. elim p.0 as (λ _. Bool × State S) [
          | none ↦ (false, record st { sys = p.1 })
          | some k' ↦ set_with reg k' n v (record { sys = p.1; open_keys = st.open_keys + 1 })
        ])
        e

  pub get_created :
      (n : ValueName) (st : State S) (k : Key) (s : S)
      → reg.create_key st.sys (path reg) ≡ (some k, s)
      → get_setting reg n st ≡ get_with reg k n (opened s st)
  unfolding get_setting opened
  get_created n st k s e =
      ap
        (λ p. elim p.0 as (λ _. ℕ × State S) [
          | none ↦ (0, record st { sys = p.1 })
          | some k' ↦ get_with reg k' n (record { sys = p.1; open_keys = st.open_keys + 1 })
        ])
        e

  get_refused :
      (n : ValueName) (st : State S) (s : S)
      → reg.create_key st.sys (path reg) ≡ (none, s)
      → get_setting reg n st ≡ (0, record st { sys = s })
  unfolding get_setting
  get_refused n st s e =
      ap
        (λ p. elim p.0 as (λ _. ℕ × State S) [
          | none ↦ (0, record st { sys = p.1 })
          | some k' ↦ get_with reg k' n (record { sys = p.1; open_keys = st.open_keys + 1 })
        ])
        e

  get_with-keys :
      (k : Key) (n : ValueName) (st : State S)
      → (get_with reg k n st).1.open_keys ≡ st.open_keys - 1
  unfolding get_with close
  get_with-keys k n st = go (reg.query_value st.sys k n)
    where
      go :
          (o : Option ℕ)
          → (elim o as (λ _. ℕ × State S) [
            | none ↦ (0, close reg k st)
            | some v ↦ (v, close reg k st)
          ]).1.open_keys
            ≡ st.open_keys - 1
      go none = refl
      go (some v) = refl

  with_set-keys :
      (k : Key) (n : ValueName) (v : ℕ) (st : State S) (p : Bool × S)
      → (with_set k n v st p).1.open_keys ≡ st.open_keys - 1
  unfolding with_set close
  with_set-keys k n v st (true, s) = refl
  with_set-keys k n v st (false, s) = refl

  -- Whatever the registry answers, a setter and a getter leave as many keys open as there were.
  pub settings-balanced :
      (n : ValueName) (v : ℕ) (st : State S)
      → ((set_setting reg n v st).1.open_keys ≡ st.open_keys)
        × ((get_setting reg n st).1.open_keys ≡ st.open_keys)
  unfolding opened
  settings-balanced n v st = go _ _ refl
    where
      go :
          (o : Option Key) (s : S)
          → reg.create_key st.sys (path reg) ≡ (o, s)
          → ((set_setting reg n v st).1.open_keys ≡ st.open_keys)
            × ((get_setting reg n st).1.open_keys ≡ st.open_keys)
      go none s e = (
        ap (λ p. p.1.open_keys) (set_refused n v st s e),
        ap (λ p. p.1.open_keys) (get_refused n st s e),
      )
      go (some k) s e =
          let back : st.open_keys + 1 - 1 ≡ st.open_keys = omega arith in
          (
            ap (λ p. p.1.open_keys) (set_created n v st k s e ∙ set_with_lem k n v (opened s st))
                ∙ with_set-keys k n v (opened s st) (reg.set_value s k n v)
                ∙ back,
            ap (λ p. p.1.open_keys) (get_created n st k s e)
                ∙ get_with-keys k n (opened s st)
                ∙ back,
          )
