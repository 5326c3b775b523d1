-- ===== src/Settings/Tests.antt =====
-- A registry of two keys, and the theorems on it.
use ndisapi.Base.{
  ℕ, ◌≡◌, ◌≢◌, ◌∙◌, refl, sym, ap, arith, Bool, true, false, Option, none, some, if◌then◌else◌,
}
use ndisapi.Settings.{
  KeyPath, ValueName, Registry, State, set_setting, get_setting, winnt_reg_param, win9x_reg_param,
  mtu_decrement, startup_mode, pool_size, set_with, close,
}
use ndisapi.Settings.Steps.{settings-balanced}
use ndisapi.Settings.Values.{IsRegistry, get_setting-set_setting, get_setting-set_other}

-- The values under each path.
abbrev Store : Type 0
Store = KeyPath → ValueName → Option ℕ

abbrev same_path : KeyPath → KeyPath → Bool
same_path winnt_reg_param winnt_reg_param = true
same_path win9x_reg_param win9x_reg_param = true
same_path _ _ = false

abbrev same_name : ValueName → ValueName → Bool
same_name mtu_decrement mtu_decrement = true
same_name startup_mode startup_mode = true
same_name pool_size pool_size = true
same_name _ _ = false

abbrev write : Store → KeyPath → ValueName → ℕ → Store
write s p n v q m = if same_path p q then (if same_name n m then some v else s q m) else s q m

-- A key is its path.
abbrev registry : Registry Store KeyPath
registry = record {
  is_windows_nt_platform = true;
  create_key = λ s p. (some p, s);
  set_value = λ s k n v. (true, write s k n v);
  query_value = λ s k n. s k n;
  close_key = λ s k. s;
}

write_self : (s : Store) (p : KeyPath) (n : ValueName) (v : ℕ) → write s p n v p n ≡ some v
write_self s winnt_reg_param mtu_decrement v = refl
write_self s winnt_reg_param startup_mode v = refl
write_self s winnt_reg_param pool_size v = refl
write_self s win9x_reg_param mtu_decrement v = refl
write_self s win9x_reg_param startup_mode v = refl
write_self s win9x_reg_param pool_size v = refl

same_name-ne : (n m : ValueName) → m ≢ n → same_name n m ≡ false
same_name-ne mtu_decrement mtu_decrement ne = absurd (ne refl)
same_name-ne mtu_decrement startup_mode ne = refl
same_name-ne mtu_decrement pool_size ne = refl
same_name-ne startup_mode mtu_decrement ne = refl
same_name-ne startup_mode startup_mode ne = absurd (ne refl)
same_name-ne startup_mode pool_size ne = refl
same_name-ne pool_size mtu_decrement ne = refl
same_name-ne pool_size startup_mode ne = refl
same_name-ne pool_size pool_size ne = absurd (ne refl)

write_other :
    (s : Store) (p q : KeyPath) (n m : ValueName) (v : ℕ) → m ≢ n → write s p n v q m ≡ s q m
write_other s p q n m v ne = rw (same_name-ne n m ne) (go (same_path p q))
  where
    go : (b : Bool) → (if b then s q m else s q m) ≡ s q m
    go true = refl
    go false = refl

registry-IsRegistry : IsRegistry registry (λ s. s) (λ k. k)
registry-IsRegistry = record {
  created = λ s s' p k e. sym (ap (λ x. elim x.0 as (λ _. KeyPath) [ none ↦ p | some k' ↦ k' ]) e);
  create_keeps = λ s s' p o e q n. ap (λ x. x.1 q n) (sym e);
  queried = λ s k n. refl;
  stored = λ s s' k n v e. ap (λ x. x.1 k n) (sym e) ∙ write_self s k n v;
  set_keeps = λ s s' k n v ok e q m ne. ap (λ x. x.1 q m) (sym e) ∙ write_other s k q n m v ne;
  close_keeps = λ s k q n. refl;
}

abbrev start : State Store
start = record { sys = λ p n. none; open_keys = 0 }

get_setting-set_setting_example :
    (get_setting registry pool_size (set_setting registry pool_size 7 start).1).0 ≡ 7
unfolding set_setting set_with close
get_setting-set_setting_example =
    get_setting-set_setting registry (λ s. s) (λ k. k) registry-IsRegistry pool_size 7 start
      winnt_reg_param _ refl refl

settings-balanced_example :
    ((set_setting registry startup_mode 1 start).1.open_keys ≡ 0)
    × ((get_setting registry startup_mode start).1.open_keys ≡ 0)
settings-balanced_example = settings-balanced registry startup_mode 1 start

name_code : ValueName → ℕ
name_code mtu_decrement = 0
name_code startup_mode = 1
name_code pool_size = 2

not_pool_size : mtu_decrement ≢ pool_size
unfolding name_code
not_pool_size e = absurd (omega (arith, ap name_code e))

get_setting-set_other_example :
    (get_setting registry mtu_decrement (set_setting registry pool_size 7 start).1).0
    ≡ (get_setting registry mtu_decrement start).0
unfolding set_setting set_with close
get_setting-set_other_example =
    get_setting-set_other registry (λ s. s) (λ k. k) registry-IsRegistry pool_size mtu_decrement 7
      start winnt_reg_param winnt_reg_param _ _ (λ e. not_pool_size e) refl refl
