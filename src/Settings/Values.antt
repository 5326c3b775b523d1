-- ===== src/Settings/Values.antt =====
-- The settings as a store of values, which the registry is taken to be.
use ndisapi.Base.{ℕ, ◌≡◌, ◌≢◌, ◌∙◌, refl, sym, ap, Bool, true, false, Option, none, some}
use ndisapi.Settings.Steps.{
  or_zero, get_with_lem, with_set, set_with_lem, opened, set_created, set_refused, get_created,
}
use ndisapi.Settings.{KeyPath, ValueName, Registry, State, path, close, set_setting, get_setting}

-- What the registry documents, by what it holds under a path and a name: an open key stands for its
-- path; only a successful RegSetValueEx changes a value, and only the one it names.
pub record IsRegistry {S Key : Type 0} (reg : Registry S Key)
    (value : S → KeyPath → ValueName → Option ℕ) (path_of : Key → KeyPath) : Type 0 where
  pub created :
      (s s' : S) (p : KeyPath) (k : Key) → reg.create_key s p ≡ (some k, s') → path_of k ≡ p
  pub create_keeps :
      (s s' : S) (p : KeyPath) (o : Option Key)
      → reg.create_key s p ≡ (o, s')
      → (q : KeyPath) (n : ValueName) → value s' q n ≡ value s q n
  pub queried : (s : S) (k : Key) (n : ValueName) → reg.query_value s k n ≡ value s (path_of k) n
  pub stored :
      (s s' : S) (k : Key) (n : ValueName) (v : ℕ)
      → reg.set_value s k n v ≡ (true, s')
      → value s' (path_of k) n ≡ some v
  pub set_keeps :
      (s s' : S) (k : Key) (n : ValueName) (v : ℕ) (ok : Bool)
      → reg.set_value s k n v ≡ (ok, s')
      → (q : KeyPath) (m : ValueName) → m ≢ n
      → value s' q m ≡ value s q m
  pub close_keeps :
      (s : S) (k : Key) (q : KeyPath) (n : ValueName) → value (reg.close_key s k) q n ≡ value s q n

module _ {S Key : Type 0} (reg : Registry S Key) (value : S → KeyPath → ValueName → Option ℕ)
    (path_of : Key → KeyPath) (laws : IsRegistry reg value path_of) where
  get_setting_lem :
      (n : ValueName) (st : State S) (k : Key) (s : S)
      → reg.create_key st.sys (path reg) ≡ (some k, s)
      → (get_setting reg n st).0 ≡ or_zero (value st.sys (path reg) n)
  unfolding opened
  get_setting_lem n st k s e =
      ap (λ p. p.0) (get_created reg n st k s e)
      ∙ get_with_lem reg k n (opened reg s st)
      ∙ ap or_zero (
          laws.queried s k n
          ∙ ap (λ q. value s q n) (laws.created st.sys s (path reg) k e)
          ∙ laws.create_keeps st.sys s (path reg) (some k) e (path reg) n)

  -- A setter that succeeds leaves its value in the store, and closes the key that it opened.
  set_with-stored :
      (n : ValueName) (v : ℕ) (st : State S) (k : Key) (p : Bool × S)
      → reg.set_value st.sys k n v ≡ p
      → (with_set reg k n v st p).0 ≡ true
      → value (with_set reg k n v st p).1.sys (path_of k) n ≡ some v
  unfolding with_set close
  set_with-stored n v st k (true, s) e ok =
      laws.close_keeps s k (path_of k) n ∙ laws.stored st.sys s k n v e
  set_with-stored n v st k (false, s) e ok = cc

  set_with-kept :
      (n : ValueName) (v : ℕ) (st : State S) (k : Key) (p : Bool × S)
      → reg.set_value st.sys k n v ≡ p
      → (q : KeyPath) (m : ValueName) → m ≢ n
      → value (with_set reg k n v st p).1.sys q m ≡ value st.sys q m
  unfolding with_set close
  set_with-kept n v st k (true, s) e q m ne =
      laws.close_keeps s k q m ∙ laws.set_keeps st.sys s k n v true e q m ne
  set_with-kept n v st k (false, s) e q m ne =
      laws.close_keeps s k q m ∙ laws.set_keeps st.sys s k n v false e q m ne

  -- With a registry that keeps its promises: where a setter succeeds and the key opens again, the
  -- getter of the same setting gives the value that was set.
  pub get_setting-set_setting :
      (n : ValueName) (v : ℕ) (st : State S) (k : Key) (s : S)
      → (set_setting reg n v st).0 ≡ true
      → reg.create_key (set_setting reg n v st).1.sys (path reg) ≡ (some k, s)
      → (get_setting reg n (set_setting reg n v st).1).0 ≡ v
  get_setting-set_setting n v st k s ok again = go _ _ refl
    where
      go :
          (o : Option Key) (s1 : S)
          → reg.create_key st.sys (path reg) ≡ (o, s1)
          → (get_setting reg n (set_setting reg n v st).1).0 ≡ v
      go none s1 e = cc (ap (λ p. p.0) (set_refused reg n v st s1 e))
      go (some k1) s1 e =
          let same = set_created reg n v st k1 s1 e ∙ set_with_lem reg k1 n v (opened reg s1 st) in
          let held =
            set_with-stored n v (opened reg s1 st) k1 _ refl (sym (ap (λ p. p.0) same) ∙ ok) in
          get_setting_lem n (set_setting reg n v st).1 k s again
          ∙ ap (λ p. or_zero (value p.1.sys (path reg) n)) same
          ∙ ap
              (λ q. or_zero (
                value
                  (with_set reg k1 n v (opened reg s1 st)
                    (reg.set_value (opened reg s1 st).sys k1 n v)).1.sys
                  q n))
              (sym (laws.created st.sys s1 (path reg) k1 e))
          ∙ ap or_zero held

  set_setting-kept :
      (n : ValueName) (v : ℕ) (st : State S) (q : KeyPath) (m : ValueName)
      → m ≢ n
      → value (set_setting reg n v st).1.sys q m ≡ value st.sys q m
  unfolding opened
  set_setting-kept n v st q m ne = go _ _ refl
    where
      go :
          (o : Option Key) (s1 : S)
          → reg.create_key st.sys (path reg) ≡ (o, s1)
          → value (set_setting reg n v st).1.sys q m ≡ value st.sys q m
      go none s1 e =
          ap (λ p. value p.1.sys q m) (set_refused reg n v st s1 e)
          ∙ laws.create_keeps st.sys s1 (path reg) none e q m
      go (some k1) s1 e =
          ap (λ p. value p.1.sys q m)
            (set_created reg n v st k1 s1 e ∙ set_with_lem reg k1 n v (opened reg s1 st))
          ∙ set_with-kept n v (opened reg s1 st) k1 (reg.set_value s1 k1 n v) refl q m ne
          ∙ laws.create_keeps st.sys s1 (path reg) (some k1) e q m

  -- With a registry that keeps its promises: a setter, whether it succeeds or not, does not change
  -- what the getter of another setting gives, as long as the key opens before and after.
  pub get_setting-set_other :
      (n m : ValueName) (v : ℕ) (st : State S) (k0 k : Key) (s0 s : S)
      → m ≢ n
      → reg.create_key st.sys (path reg) ≡ (some k0, s0)
      → reg.create_key (set_setting reg n v st).1.sys (path reg) ≡ (some k, s)
      → (get_setting reg m (set_setting reg n v st).1).0 ≡ (get_setting reg m st).0
  get_setting-set_other n m v st k0 k s0 s ne before again =
      get_setting_lem m (set_setting reg n v st).1 k s again
      ∙ ap or_zero (set_setting-kept n v st (path reg) m ne)
      ∙ sym (get_setting_lem m st k0 s0 before)
