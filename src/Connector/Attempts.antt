-- ===== src/Connector/Attempts.antt =====
-- The attempts of `Connector::connect` of src/transport/connector.cpp, one after another.
use cppbox.Prelude.{
  ℕ, ◌+◌, ◌≡◌, refl, sym, subst, ap, ◌⊎◌, inl, inr, true, false, Bool-cases, Option, none, some,
  Option-cases, List, [], ◌∷◌, ◌++◌, is_empty, if◌then◌else◌, Result, ok, ok_injective, err,
  runtime_error, runtime_error_about, Error, ◌>>=◌, >>=-eq-ok, length, arith, ◌∙◌,
}
use cppbox.Address.{
  AddressText, Host, ipv4_address, ipv6_address, domain_name, Destination, is_ip, asio_address,
  domain_value,
}
use cppbox.DnsMessage.{type_a, type_aaaa}
use cppbox.DnsServer.{DnsItemConfig, DnsServer, resolve, finish, caught, lookup}
use cppbox.Connector.{
  SocketCalls, bind_socket_to_interface, try_addresses, resolve_destination, connect_tcp,
}

module _ (calls : SocketCalls) (index port : ℕ) where
  -- The attempt of that number fails with the error `ec`, of `open` or of `async_connect`.
  abbrev pub FailsWith : ℕ → Host → List ℕ → Type 0
  FailsWith n address ec =
      (calls.open_error n address ≡ some ec)
      ⊎ ((calls.open_error n address ≡ none)
          × (bind_socket_to_interface calls n address index ≡ true)
          × (calls.connect_error n address port ≡ some ec))

  abbrev pub Fails : ℕ → Host → Type 0
  Fails n address = (ec : List ℕ) × FailsWith n address ec

  abbrev pub Reaches : ℕ → Host → Type 0
  Reaches n address =
      (calls.open_error n address ≡ none)
      × (bind_socket_to_interface calls n address index ≡ true)
      × (calls.connect_error n address port ≡ none)

  abbrev pub AllFail : ℕ → List Host → Type 0
  AllFail n [] = Unit
  AllFail n (address ∷ rest) = Fails n address × AllFail (n + 1) rest

  -- Every attempt fails, and `ec` is the error of the last one: `last_ec` where there is none.
  abbrev pub AllFailWith : ℕ → List ℕ → List Host → List ℕ → Type 0
  AllFailWith n last_ec [] ec = ec ≡ last_ec
  AllFailWith n last_ec (address ∷ rest) ec =
      (new_ec : List ℕ) × FailsWith n address new_ec × AllFailWith (n + 1) new_ec rest ec

  abbrev pub Refuses : ℕ → Host → Type 0
  Refuses n address =
      (calls.open_error n address ≡ none) × (bind_socket_to_interface calls n address index ≡ false)

  -- How the attempt of that number ends the loop.
  abbrev pub Ends : Host → Result Host → ℕ → Type 0
  Ends address result n =
      (Reaches n address × (result ≡ ok address))
      ⊎ (Refuses n address
          × (result ≡ err (runtime_error "failed to bind outbound socket to interface")))

  -- Some address is the first that does not fail: it is reached, or the interface is refused.
  -- Otherwise all fail.
  abbrev pub Outcome : ℕ → List Host → Result Host → Type 0
  Outcome n addresses result =
      (before : List Host) × (address : Host) × (after : List Host) × (addresses
        ≡ before ++ address ∷ after)
      × AllFail n before
      × Ends address result (n + length before)

  abbrev pub AllFailed : ℕ → List ℕ → List Host → Result Host → Type 0
  AllFailed n last_ec addresses result =
      (ec : List ℕ) × AllFailWith n last_ec addresses ec
      × (result ≡ err (runtime_error_about "connect failed: " ec))

  try_addresses-fail :
      (n : ℕ) (last_ec : List ℕ) (address : Host) (rest : List Host)
      → (ec : List ℕ) → FailsWith n address ec
      → try_addresses calls index port n last_ec (address ∷ rest)
        ≡ try_addresses calls index port (n + 1) ec rest
  unfolding try_addresses
  try_addresses-fail n last_ec address rest ec (inl o) = rw (try_addresses, o) refl
  try_addresses-fail n last_ec address rest ec (inr (o, b, c)) = rw (try_addresses, o, b, c) refl

  attempt-cases :
      (n : ℕ) (address : Host) → Fails n address ⊎ (Reaches n address ⊎ Refuses n address)
  attempt-cases n address = elim (Option-cases (calls.open_error n address)) [
    | inr (ec, fail) ↦ inl (ec, inl fail)
    | inl o ↦ elim (Bool-cases (bind_socket_to_interface calls n address index)) [
      | inr b ↦ inr (inr (o, b))
      | inl b ↦ elim (Option-cases (calls.connect_error n address port)) [
        | inr (ec, fail) ↦ inl (ec, inr (o, b, fail))
        | inl c ↦ inr (inl (o, b, c))
      ]
    ]
  ]

  later-Outcome :
      (n : ℕ) (first : Host) (rest : List Host) (result : Result Host)
      → Fails n first
      → Outcome (n + 1) rest result
      → Outcome n (first ∷ rest) result
  later-Outcome n first rest result fail (before, address, after, split, fails, last) =
      let w : n + 1 + length before ≡ n + length (first ∷ before) = omega arith in
      (
        first ∷ before,
        address,
        after,
        ap (◌∷◌ first) split,
        (fail, fails),
        subst (Ends address result) w last,
      )

  try_addresses-cases :
      (addresses : List Host) (n : ℕ) (last_ec : List ℕ)
      → Outcome n addresses (try_addresses calls index port n last_ec addresses)
        ⊎ AllFailed n last_ec addresses (try_addresses calls index port n last_ec addresses)
  unfolding try_addresses
  try_addresses-cases [] n last_ec = inr (last_ec, refl, refl)
  try_addresses-cases (first ∷ rest) n last_ec = elim (attempt-cases n first) [
    | inl (ec, fail) ↦
        let e = try_addresses-fail n last_ec first rest ec fail in
        elim (try_addresses-cases rest (n + 1) ec) [
          | inl found ↦
              inl (
                later-Outcome n first rest _ (ec, fail)
                  (subst (Outcome (n + 1) rest) (sym e) found))
          | inr (ec', fails, e') ↦ inr (ec', (ec, fail, fails), e ∙ e')
        ]
    | inr (inl (o, b, c)) ↦ inl (
      [],
      first,
      rest,
      refl,
      tt,
      subst (Ends first _) here (inl ((o, b, c), rw (try_addresses, o, b, c) refl)),
    )
    | inr (inr (o, b)) ↦ inl (
      [],
      first,
      rest,
      refl,
      tt,
      subst (Ends first _) here (inr ((o, b), rw (try_addresses, o, b) refl)),
    )
  ]
    where
      here : n ≡ n + 0
      here = omega arith

module _ (t : AddressText) (exchange : DnsItemConfig → List ℕ → Result (List ℕ))
    (s : DnsServer) where
  -- `resolve` throws rather than return no address.
  finish-nonempty :
      (domain : List ℕ) (output addresses : List Host) (last_error : Option Error)
      → finish t exchange domain output last_error ≡ ok addresses
      → is_empty addresses ≡ false
  finish-nonempty domain [] addresses none e = cc
  finish-nonempty domain [] addresses (some error) e = cc
  finish-nonempty domain (a ∷ output) addresses last_error e = rw (← ok_injective e) refl

  resolve-nonempty :
      (domain : List ℕ) (addresses : List Host)
      → resolve t exchange s domain ≡ ok addresses
      → is_empty addresses ≡ false
  unfolding resolve
  resolve-nonempty domain addresses e =
      let (four, _, e1) =
        >>=-eq-ok (caught t exchange (lookup t exchange s domain type_a) [] none) _ e in
      let (six, _, e2) =
        >>=-eq-ok (caught t exchange (lookup t exchange s domain type_aaaa) four.0 four.1) _ e1 in
      finish-nonempty domain six.0 addresses six.1 e2

  resolve_destination-nonempty :
      (destination : Destination) (addresses : List Host)
      → resolve_destination t exchange s destination ≡ ok addresses
      → is_empty addresses ≡ false
  unfolding resolve_destination asio_address domain_value
  resolve_destination-nonempty destination addresses e = go destination.host e
    where
      go :
          (host : Host)
          → (if is_ip host
              then (asio_address host >>= λ address. ok (address ∷ []))
              else (domain_value host >>= resolve t exchange s))
            ≡ ok addresses
          → is_empty addresses ≡ false
      go (ipv4_address a) e = rw (← ok_injective e) refl
      go (ipv6_address a) e = rw (← ok_injective e) refl
      go (domain_name d) e = resolve-nonempty d addresses e

  -- On the addresses that a destination resolves to, `connect` tries one after another and ends in one of
  -- two ways. Some address is the first whose attempt does not fail: then the socket is connected to
  -- it, or the interface is refused and that is thrown, whatever addresses follow. Or every attempt
  -- fails, and the error of the last one is thrown. It never throws that no endpoint was resolved.
  pub connect_tcp-cases :
      (calls : SocketCalls) (index : ℕ) (destination : Destination) (addresses : List Host)
      → resolve_destination t exchange s destination ≡ ok addresses
      → Outcome calls index destination.port 0 addresses
          (connect_tcp t exchange s calls index destination)
        ⊎ AllFailed calls index destination.port 0 [] addresses
            (connect_tcp t exchange s calls index destination)
  unfolding connect_tcp
  connect_tcp-cases calls index destination addresses e =
      subst
        (λ result.
          Outcome calls index destination.port 0 addresses result
          ⊎ AllFailed calls index destination.port 0 [] addresses result)
        (sym tried) (try_addresses-cases calls index destination.port addresses 0 [])
    where
      tried :
          connect_tcp t exchange s calls index destination
          ≡ try_addresses calls index destination.port 0 [] addresses
      tried = rw (connect_tcp, e, ◌>>=◌, resolve_destination-nonempty destination addresses e) refl
