-- ===== src/Tls/Roots.antt =====
-- The root certificates of the system: `system_root_store` and `load_system_root_certificates` of
-- src/core/tls.cpp, as they are built for Windows. What Windows and OpenSSL return is the parameter `RootCalls`.
use cppbox.Prelude.{
  arith, ℕ, ◌≡◌, Bool, true, false, Option, none, some, List, [], ◌∷◌, if◌then◌else◌, Result, ok,
  err, runtime_error,
}

-- A certificate that has been decoded is a number. `added` is what a store holds behind `X509_STORE_add_cert`.
pub record RootCalls : Type 0 where
  pub new_store : Bool
  pub open_system_store : Bool
  pub encoded : List (List ℕ)
  pub decode : List ℕ → Option ℕ
  pub added : List ℕ → ℕ → List ℕ
  pub up_ref : Bool

-- The two statics: whether the body of `call_once` has returned, and the store.
pub record Roots : Type 0 where
  pub once : Bool
  pub store : Option (List ℕ)

abbrev pub no_roots : Roots
no_roots = record { once = false; store = none }

module _ (calls : RootCalls) where
  -- The loop over the certificates of Windows; one that cannot be decoded is left out.
  unfoldable pub add_certificates : List (List ℕ) → List ℕ → List ℕ
  add_certificates [] store = store
  add_certificates (bytes ∷ encoded) store = add_certificates encoded (elim (calls.decode bytes) [
    | none ↦ store
    | some certificate ↦ calls.added store certificate
  ])

  -- The body of `call_once`, which runs again after it has thrown.
  unfoldable pub fill_store : Result (Option (List ℕ)) × Roots
  fill_store =
      if calls.new_store
      then (if calls.open_system_store
          then (let store = some (add_certificates calls.encoded []) in
              (ok store, record { once = true; store = store }))
          else (err (runtime_error "failed to open Windows ROOT certificate store"), no_roots))
      else (err (runtime_error "failed to create OpenSSL certificate store"), no_roots)

  unfoldable pub system_root_store : Roots → Result (Option (List ℕ)) × Roots
  system_root_store s = if s.once then (ok s.store, s) else fill_store

  abbrev pub retain : Result (Option (List ℕ)) × Roots → Result (Option (List ℕ)) × Roots
  retain (ok store, s) =
      if calls.up_ref
      then (ok store, s)
      else (err (runtime_error "failed to retain OpenSSL certificate store"), s)
  retain (r, s) = (r, s)

  -- The store that the context is given.
  unfoldable pub load_system_root_certificates : Roots → Result (Option (List ℕ)) × Roots
  load_system_root_certificates s = retain (system_root_store s)

-- Once the store is there it is never filled again: whatever the calls return later, each context is given that store.
load_system_root_certificates-once :
    (calls later : RootCalls) (s left : Roots) (store : Option (List ℕ))
    → load_system_root_certificates calls s ≡ (ok store, left)
    → system_root_store later left ≡ (ok store, left)
unfolding load_system_root_certificates system_root_store fill_store
load_system_root_certificates-once calls later s left store e = ground arith
