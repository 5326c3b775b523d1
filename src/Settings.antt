-- ===== src/Settings.antt =====
-- The settings that CNdisApi keeps in the registry for the driver: SetMTUDecrement,
-- GetMTUDecrement, SetAdaptersStartupMode, GetAdaptersStartupMode, SetPoolSize and GetPoolSize of
-- ndisapi/ndisapi.cpp. The six methods are two texts, up to the name of the value.
pub mod Steps
pub mod Values
mod Tests
use ndisapi.Base.{ℕ, ◌+◌, ◌-◌, Bool, true, false, Option, none, some, if◌then◌else◌}

-- WINNT_REG_PARAM and WIN9X_REG_PARAM, under HKEY_LOCAL_MACHINE
pub data KeyPath : Type 0 where
  winnt_reg_param win9x_reg_param : KeyPath

-- TEXT("MTUDecrement"), TEXT("StartupMode"), TEXT("PoolSize")
pub data ValueName : Type 0 where
  mtu_decrement startup_mode pool_size : ValueName

-- The registry of the system, and IsWindowsNTPlatform.
pub record Registry (S Key : Type 0) : Type 0 where
  pub is_windows_nt_platform : Bool
  -- RegCreateKey: the key, if the call succeeds
  pub create_key : S → KeyPath → Option Key × S
  -- RegSetValueEx of a DWORD: whether it succeeds
  pub set_value : S → Key → ValueName → ℕ → Bool × S
  -- RegQueryValueEx of a DWORD: the value, if the call succeeds
  pub query_value : S → Key → ValueName → Option ℕ
  pub close_key : S → Key → S

-- The system, and the keys that the process holds open.
pub record State (S : Type 0) : Type 0 where
  pub sys : S
  pub open_keys : ℕ

module _ {S Key : Type 0} (reg : Registry S Key) where
  abbrev pub path : KeyPath
  path = if reg.is_windows_nt_platform then winnt_reg_param else win9x_reg_param

  -- RegCloseKey
  pub close : Key → State S → State S
  close k st = record { sys = reg.close_key st.sys k; open_keys = st.open_keys - 1 }

  -- What a setter does with the key, once it is open.
  pub set_with : Key → ValueName → ℕ → State S → Bool × State S
  unfolding close
  set_with k name v st =
      let (ok, s) = reg.set_value st.sys k name v in
      if ok
      then (true, close k (record st { sys = s }))
      else (false, close k (record st { sys = s }))

  -- The branches for Windows NT and Windows 9x differ in the path of the key.
  pub set_setting : ValueName → ℕ → State S → Bool × State S
  unfolding set_with
  set_setting name v st =
      let (key, s) = reg.create_key st.sys path in
      elim key [
        | none ↦ (false, record st { sys = s })
        | some k ↦ set_with k name v (record { sys = s; open_keys = st.open_keys + 1 })
      ]

  -- What a getter does with the key.
  pub get_with : Key → ValueName → State S → ℕ × State S
  unfolding close
  get_with k name st = elim (reg.query_value st.sys k name) [
    | none ↦ (0, close k st)
    | some v ↦ (v, close k st)
  ]

  pub get_setting : ValueName → State S → ℕ × State S
  unfolding get_with
  get_setting name st =
      let (key, s) = reg.create_key st.sys path in
      elim key [
        | none ↦ (0, record st { sys = s })
        | some k ↦ get_with k name (record { sys = s; open_keys = st.open_keys + 1 })
      ]

  pub set_mtu_decrement : ℕ → State S → Bool × State S
  unfolding set_setting
  set_mtu_decrement v st = set_setting mtu_decrement v st

  pub get_mtu_decrement : State S → ℕ × State S
  unfolding get_setting
  get_mtu_decrement st = get_setting mtu_decrement st

  pub set_adapters_startup_mode : ℕ → State S → Bool × State S
  unfolding set_setting
  set_adapters_startup_mode v st = set_setting startup_mode v st

  pub get_adapters_startup_mode : State S → ℕ × State S
  unfolding get_setting
  get_adapters_startup_mode st = get_setting startup_mode st

  pub set_pool_size : ℕ → State S → Bool × State S
  unfolding set_setting
  set_pool_size v st = set_setting pool_size v st

  pub get_pool_size : State S → ℕ × State S
  unfolding get_setting
  get_pool_size st = get_setting pool_size st
