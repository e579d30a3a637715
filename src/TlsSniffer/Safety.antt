-- ===== src/TlsSniffer/Safety.antt =====
-- `sniff_tls_sni` of src/protocol/tls_sniffer.cpp returns on every buffer: it never reads outside of
-- the buffer, nothing throws, and its loops end.
use cppbox.Prelude.{
  ℕ, zero, suc, ◌+◌, ◌*◌, ◌<◌, ◌≤◌, ◌≡◌, refl, Bool, true, false, Bool-cases, Option, none, some,
  List, length, take, drop, le→leb, All, arith, ltb, ◌==◌, ok, err, stuck, inl, inr,
}
use cppbox.Utils.{IsByte}
use cppbox.Utils.Bytes.{get_elem-IsByte, read_be16_lem}
use cppbox.TlsSniffer.{
  Search, ◌>>=◌, ◌>>◌, need, byte_at, be16_at, bytes_at, has_bytes, be24, name_loop, server_names,
  extension_body, extension_loop, read_headers, skip_field8, skip_field16, sniff_tls_sni,
}

-- The search returns, and what it hands on has the property P.
abbrev pub Post : {A : Type 0} → (A → Type 0) → Search A → Type 0
Post P (ok none) = Unit {0}
Post P (ok (some a)) = P a
Post P (err e) = ⊥
Post P stuck = ⊥

bind-Post :
    {A B : Type 0} (P : A → Type 0) (Q : B → Type 0) (m : Search A) (f : A → Search B)
    → Post P m
    → ((a : A) → P a → Post Q (f a))
    → Post Q (m >>= f)
bind-Post P Q (ok none) f h k = tt
bind-Post P Q (ok (some a)) f h k = k a h
bind-Post P Q (err e) f h k = absurd h
bind-Post P Q stuck f h k = absurd h

need-Post :
    {B : Type 0} (Q : B → Type 0) (b : Bool) (k : Search B)
    → (b ≡ true → Post Q k)
    → Post Q (need b >> k)
need-Post Q true k h = h refl
need-Post Q false k h = tt

has_bytes-le :
    (data_ : List ℕ) (pos size : ℕ) → has_bytes data_ pos size ≡ true → pos + size ≤ length data_
has_bytes-le data_ pos size h = ground arith

need_ok : (b : Bool) → Post (λ _. Unit {0}) (need b)
need_ok true = tt
need_ok false = tt

next-Post :
    {B : Type 0} (name : Option B) (k : Search B)
    → Post (λ _. Unit {0}) k
    → Post (λ _. Unit {0}) (elim name as (λ _. Search B) [ some text ↦ ok (some text) | none ↦ k ])
next-Post none k h = h
next-Post (some text) k h = tt

Post→ok : {A : Type 0} (m : Search A) → Post (λ _. Unit {0}) m → (o : Option A) × (m ≡ ok o)
Post→ok (ok o) h = (o, refl)
Post→ok (err e) h = absurd h
Post→ok stuck h = absurd h

module _ (data_ : List ℕ) (bytes : All IsByte data_) where
  -- The bytes that `has_bytes` has tested can be read.
  byte-Post :
      {B : Type 0} (Q : B → Type 0) (i : ℕ) (k : ℕ → Search B)
      → i < length data_
      → ((b : ℕ) → b < 256 → Post Q (k b))
      → Post Q (byte_at data_ i >>= k)
  byte-Post Q i k h f = let (b, e, p) = get_elem-IsByte data_ i bytes h in rw (e, ◌>>=◌) (f b p)

  be16-Post :
      {B : Type 0} (Q : B → Type 0) (i : ℕ) (k : ℕ → Search B)
      → i + 2 ≤ length data_
      → ((v : ℕ) → Post Q (k v))
      → Post Q (be16_at data_ i >>= k)
  be16-Post Q i k h f =
      let (hi, lo, _, _, p, q, e) = read_be16_lem data_ i bytes h in
      rw (e, ◌>>=◌) (f (hi * 256 + lo))

  bytes_at-Post :
      {B : Type 0} (Q : B → Type 0) (pos size : ℕ) (k : List ℕ → Search B)
      → pos + size ≤ length data_
      → ((name : List ℕ) → Post Q (k name))
      → Post Q (bytes_at data_ pos size >>= k)
  bytes_at-Post Q pos size k h f =
      rw (le→leb (pos + size) (length data_) h, ◌>>=◌) (f (take size (drop pos data_)))

  -- `name_pos` grows in every round, and stays in the buffer.
  name_loop-Post :
      (fuel name_pos name_end : ℕ)
      → length data_ < name_pos + fuel
      → name_pos ≤ length data_
      → Post (λ _. Unit {0}) (name_loop fuel data_ name_pos name_end)
  unfolding name_loop
  name_loop-Post zero p n h k = absurd (omega arith)
  name_loop-Post (suc fuel) p n h k = elim (Bool-cases (ltb p n)) [
    | inl e ↦
        rw (e, name_loop)
          (need-Post _ (has_bytes data_ p 3) _ λ room.
            byte-Post _ p _ (omega (arith, has_bytes-le data_ p 3 room)) λ name_type _.
              be16-Post _ (p + 1) _ (omega (arith, has_bytes-le data_ p 3 room)) λ name_len.
                need-Post _ (has_bytes data_ (p + 3) name_len) _ λ inside.
                  elim (Bool-cases (name_type == 0)) [
                    | inl host ↦ rw host (
                        bytes_at-Post _ (p + 3) name_len _
                          (has_bytes-le data_ (p + 3) name_len inside) λ name. tt)
                    | inr other ↦ rw other (
                        name_loop-Post fuel (p + 3 + name_len) n (omega arith)
                          (has_bytes-le data_ (p + 3) name_len inside))
                  ])
    | inr e ↦ rw (e, name_loop) tt
  ]

  server_names-Post : (pos : ℕ) → Post (λ _. Unit {0}) (server_names data_ pos)
  unfolding server_names
  server_names-Post pos = need-Post _ (has_bytes data_ pos 2) _ λ room.
      be16-Post _ pos _ (has_bytes-le data_ pos 2 room) λ len.
        need-Post _ (has_bytes data_ (pos + 2) len) _ λ inside.
          name_loop-Post (suc (length data_)) (pos + 2) (pos + 2 + len) (omega arith)
            (omega (arith, has_bytes-le data_ pos 2 room))

  extension_body-Post : (type pos : ℕ) → Post (λ _. Unit {0}) (extension_body type data_ pos)
  unfolding extension_body
  extension_body-Post type pos = elim (Bool-cases (type == 0)) [
    | inl e ↦ rw (e, extension_body) (server_names-Post pos)
    | inr e ↦ rw (e, extension_body) tt
  ]

  extension_loop-Post :
      (fuel pos end : ℕ)
      → length data_ < pos + fuel
      → pos ≤ length data_
      → Post (λ _. Unit {0}) (extension_loop fuel data_ pos end)
  unfolding extension_loop
  extension_loop-Post zero p n h k = absurd (omega arith)
  extension_loop-Post (suc fuel) p n h k = elim (Bool-cases (ltb p n)) [
    | inl e ↦
        rw (e, extension_loop)
          (need-Post _ (has_bytes data_ p 4) _ λ room.
            be16-Post _ p _ (omega (arith, has_bytes-le data_ p 4 room)) λ type.
              be16-Post _ (p + 2) _ (omega (arith, has_bytes-le data_ p 4 room)) λ len.
                need-Post _ (has_bytes data_ (p + 4) len) _ λ inside.
                  bind-Post (λ _. Unit {0}) _ (extension_body type data_ (p + 4)) _
                    (extension_body-Post type (p + 4))
                    λ name _. next-Post name _ (
                      extension_loop-Post fuel (p + 4 + len) n (omega arith)
                        (has_bytes-le data_ (p + 4) len inside)))
    | inr e ↦ rw (e, extension_loop) tt
  ]

  read_headers-Post : Post (λ _. Unit {0}) (read_headers data_)
  unfolding read_headers
  read_headers-Post = need-Post _ (has_bytes data_ 0 5) _ λ h5.
      byte-Post _ 0 _ (omega (arith, has_bytes-le data_ 0 5 h5)) λ content_type _.
        need-Post _ (content_type == 0x16) _ λ _.
          be16-Post _ 3 _ (omega (arith, has_bytes-le data_ 0 5 h5)) λ record_len.
            need-Post _ (has_bytes data_ 5 record_len) _ λ _.
              need-Post _ (has_bytes data_ 5 4) _ λ h9.
                let le = has_bytes-le data_ 5 4 h9 in
                byte-Post _ 5 _ (omega arith) λ handshake_type _.
                  need-Post _ (handshake_type == 1) _ λ _. byte-Post _ 6 _ (omega arith) λ b0 _.
                    byte-Post _ 7 _ (omega arith)
                      λ b1 _. byte-Post _ 8 _ (omega arith) λ b2 _. need_last b0 b1 b2
    where
      need_last : (b0 b1 b2 : ℕ) → Post (λ _. Unit {0}) (need (has_bytes data_ 9 (be24 b0 b1 b2)))
      need_last b0 b1 b2 = need_ok (has_bytes data_ 9 (be24 b0 b1 b2))

  skip_field8-Post : (pos : ℕ) → Post (λ p. p ≤ length data_) (skip_field8 data_ pos)
  unfolding skip_field8
  skip_field8-Post pos =
      need-Post (λ p. p ≤ length data_) (has_bytes data_ pos 1) _
        λ room.
          byte-Post (λ p. p ≤ length data_) pos _ (omega (arith, has_bytes-le data_ pos 1 room))
            λ len _.
              need-Post (λ p. p ≤ length data_) (has_bytes data_ (pos + 1) len) _
                λ inside. has_bytes-le data_ (pos + 1) len inside

  skip_field16-Post : (pos : ℕ) → Post (λ p. pos + 2 ≤ length data_) (skip_field16 data_ pos)
  unfolding skip_field16
  skip_field16-Post pos =
      need-Post (λ p. pos + 2 ≤ length data_) (has_bytes data_ pos 2) _
        λ room.
          be16-Post (λ p. pos + 2 ≤ length data_) pos _ (has_bytes-le data_ pos 2 room)
            λ len.
              need-Post (λ p. pos + 2 ≤ length data_) (has_bytes data_ (pos + 2) len) _
                λ inside. has_bytes-le data_ pos 2 room

  sniff_tls_sni-Post : Post (λ _. Unit {0}) (sniff_tls_sni data_)
  unfolding sniff_tls_sni
  sniff_tls_sni-Post =
      bind-Post (λ _. Unit {0}) _ (read_headers data_) _ read_headers-Post
        λ _ _. need-Post _ (has_bytes data_ 9 34) _ λ _.
          bind-Post _ _ (skip_field8 data_ 43) _ (skip_field8-Post 43) λ p1 _.
            bind-Post _ _ (skip_field16 data_ p1) _ (skip_field16-Post p1) λ p2 _.
              bind-Post _ _ (skip_field8 data_ p2) _ (skip_field8-Post p2) λ p3 _.
                bind-Post _ _ (skip_field16 data_ p3) _ (skip_field16-Post p3)
                  λ end le. extension_loop-Post (suc (length data_)) (p3 + 2) end (omega arith) le

  -- On every buffer `sniff_tls_sni` returns, with a name or without: no read is out of bounds,
  -- nothing throws, and both loops end.
  pub sniff_tls_sni-total : (o : Option (List ℕ)) × (sniff_tls_sni data_ ≡ ok o)
  sniff_tls_sni-total = Post→ok (sniff_tls_sni data_) sniff_tls_sni-Post
