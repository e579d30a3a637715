-- ===== src/WindowsProxy.antt =====
-- The proxy settings of Windows: src/platform/windows_proxy.cpp. What the registry returns is the parameter
-- `RegistryCalls`.
use cppbox.Prelude.{ℕ, ◌+◌, ◌-◌, arith, ◌≡◌, Bool, true, false, List, ◌∷◌, ◌++◌, if◌then◌else◌}
use cppbox.Address.{port_text}

-- Whether each call succeeds.
pub record RegistryCalls : Type 0 where
  pub open_key : Bool
  pub write_dword : Bool
  pub write_string : Bool

-- The values `ProxyEnable` and `ProxyServer`, how many keys are open, and how often the settings were refreshed.
pub record ProxySettings : Type 0 where
  pub proxy_enable : ℕ
  pub proxy_server : List ℕ
  pub open_keys : ℕ
  pub refreshed : ℕ

-- The two values are written in this order, and the second only where the first has been.
module _ (calls : RegistryCalls) where
  abbrev pub set_dword_value : ℕ → ProxySettings → ProxySettings × Bool
  set_dword_value value s =
      if calls.write_dword then (record s { proxy_enable = value }, true) else (s, false)

  abbrev pub set_string_value : List ℕ → ProxySettings → ProxySettings × Bool
  set_string_value value s =
      if calls.write_string then (record s { proxy_server = value }, true) else (s, false)

  abbrev pub set_both : List ℕ → ProxySettings × Bool → ProxySettings × Bool
  set_both server (s, false) = (s, false)
  set_both server (s, true) = set_string_value server s

  abbrev pub open_key : ProxySettings → ProxySettings
  open_key s = record s { open_keys = s.open_keys + 1 }

  -- `RegCloseKey`, and `refreshProxySettings` where all has been written.
  abbrev pub close_key : ProxySettings × Bool → ProxySettings × Bool
  close_key (s, done) = (
    record s {
      open_keys = s.open_keys - 1;
      refreshed = if done then s.refreshed + 1 else s.refreshed;
    },
    done,
  )

  unfoldable pub set_windows_proxy : List ℕ → ℕ → ProxySettings → ProxySettings × Bool
  set_windows_proxy host port s =
      if calls.open_key
      then close_key (set_both (host ++ (b':' ∷ port_text port)) (set_dword_value 1 (open_key s)))
      else (s, false)

  unfoldable pub unset_windows_proxy : ProxySettings → ProxySettings × Bool
  unset_windows_proxy s =
      if calls.open_key then close_key (set_dword_value 0 (open_key s)) else (s, false)

  -- Where it returns true the proxy is in force and the settings are refreshed. Otherwise nothing is refreshed, and
  -- at most `ProxyEnable` has changed. No key stays open.
  set_windows_proxy-cases :
      (host : List ℕ) (port : ℕ) (s : ProxySettings)
      → let (s', done) = set_windows_proxy host port s in
        (s'.open_keys ≡ s.open_keys)
        × (done ≡ true
            → (s'.proxy_enable ≡ 1)
              × (s'.proxy_server ≡ host ++ (b':' ∷ port_text port))
              × (s'.refreshed ≡ s.refreshed + 1))
        × (done ≡ false → (s'.proxy_server ≡ s.proxy_server) × (s'.refreshed ≡ s.refreshed))
  unfolding set_windows_proxy
  set_windows_proxy-cases host port s = ground arith

-- What `main` sets and takes back when it stops: after both have succeeded no proxy is in force.
unset_windows_proxy-set_windows_proxy :
    (calls later : RegistryCalls) (host : List ℕ) (port : ℕ) (s : ProxySettings)
    → let s' = (set_windows_proxy calls host port s).0 in
      (unset_windows_proxy later s').1 ≡ true → (unset_windows_proxy later s').0.proxy_enable ≡ 0
unfolding set_windows_proxy unset_windows_proxy
unset_windows_proxy-set_windows_proxy calls later host port s h = ground arith
