-- ===== src/TunInbound/Datagrams.antt =====
-- The datagrams that the TUN inbound writes back to a flow: `write_udp_response` of src/inbound/tun_inbound.cpp.
use cppbox.Prelude.{
  zero, suc, ℕ, ◌+◌, ◌%◌, ◌<◌, ◌≤◌, ◌≡◌, refl, sym, ap, ◌∙◌, ◌⊎◌, inl, inr, some, List, [], ◌∷◌,
  ◌++◌, All, All-append, arith, length, length-append, length-take, get_elem?, take, replicate,
  Result, ok, ◌>>=◌,
}
use cppbox.Prelude.Slices.{get_elem?-take, get_elem?-append_right, All-take}
use cppbox.Utils.{IsByte, store, read_be16_at, write_be16_at}
use cppbox.TunNat.{TunFlowKey}
use cppbox.TunInbound.{load_u32, store_u32, udp_response}
use cppbox.TunInbound.Fields.{Keeps, HasFields, load_u32-Keeps, read_be16_at-Keeps}
use cppbox.TunInbound.Total.{Ensures}
use cppbox.TunInbound.Replies.{IsFlow}
use cppbox.TunInbound.Buffers.{
  IsBuffer, store-ok, write_be16_at-ok, store_u32-ok, replicate-IsBuffer, get_elem?_end,
}

-- The headers of a packet with `n` bytes of data, from the far end of the flow to its near end.
abbrev pub IsHeaded : ℕ → TunFlowKey → List ℕ → Type 0
IsHeaded n session p =
    (get_elem? p 0 ≡ some 69)
    × (get_elem? p 9 ≡ some 17)
    × (read_be16_at p 2 ≡ ok (28 + n))
    × HasFields p 20 session.dst_ip session.src_ip session.dst_port session.src_port
    × (read_be16_at p 24 ≡ ok (8 + n))

-- A change at the other offsets.
pub IsHeaded-Keeps :
    (n : ℕ) (session : TunFlowKey) (a b : ℕ) (p q : List ℕ)
    → ((10 ≤ a) × (b ≤ 12)) ⊎ (26 ≤ a)
    → Keeps a b p q
    → IsHeaded n session p
    → IsHeaded n session q
IsHeaded-Keeps n session a b p q away k
      (version, protocol, total, (src, dst, src_port, dst_port), size) =
    (
      k 0 (ground arith) ∙ version,
      k 9 (ground arith) ∙ protocol,
      read_be16_at-Keeps a b 2 p q k (ground arith) ∙ total,
      (
        load_u32-Keeps a b 12 p q k (ground arith) ∙ src,
        load_u32-Keeps a b 16 p q k (ground arith) ∙ dst,
        read_be16_at-Keeps a b 20 p q k (ground arith) ∙ src_port,
        read_be16_at-Keeps a b 22 p q k (ground arith) ∙ dst_port,
      ),
      read_be16_at-Keeps a b 24 p q k (ground arith) ∙ size,
    )

Ensures-of :
    (Q : List ℕ → Type 0) (m : Result (List ℕ)) → (q : List ℕ) × (m ≡ ok q) × Q q → Ensures Q m
Ensures-of Q m (q, e, h) = rw e h

abbrev Stored : ℕ → List ℕ → ℕ → ℕ → List ℕ → Type 0
Stored n p i v q = IsBuffer n q × Keeps i (i + 1) p q × (get_elem? q i ≡ some v)

abbrev Stored16 : ℕ → List ℕ → ℕ → ℕ → List ℕ → Type 0
Stored16 n p i v q = IsBuffer n q × Keeps i (i + 2) p q × (read_be16_at q i ≡ ok v)

abbrev Stored32 : ℕ → List ℕ → ℕ → ℕ → List ℕ → Type 0
Stored32 n p i v q = IsBuffer n q × Keeps i (i + 4) p q × (load_u32 q i ≡ ok v)

module _ (R : List ℕ → Type 0) (n : ℕ) (p : List ℕ) (i v : ℕ) (next : List ℕ → Result (List ℕ))
    (b : IsBuffer n p) where
  then-store :
      i < n
      → v < 256
      → ((q : List ℕ) → Stored n p i v q → Ensures R (next q))
      → Ensures R (store p i v >>= next)
  then-store h small rest =
      let (q, e, b', k, g) = store-ok n p i v b h small in rw (e, ◌>>=◌) (rest q (b', k, g))

  then-be16 :
      i + 2 ≤ n
      → v < 65536
      → ((q : List ℕ) → Stored16 n p i v q → Ensures R (next q))
      → Ensures R (write_be16_at p i v >>= next)
  then-be16 h small rest =
      let (q, e, b', k, g) = write_be16_at-ok n p i v b h small in rw (e, ◌>>=◌) (rest q (b', k, g))

  then-u32 :
      i + 4 ≤ n
      → v < 4294967296
      → ((q : List ℕ) → Stored32 n p i v q → Ensures R (next q))
      → Ensures R (store_u32 p i v >>= next)
  then-u32 h small rest =
      let (q, e, b', k, g) = store_u32-ok n p i v b h small in rw (e, ◌>>=◌) (rest q (b', k, g))

-- A packet of that length with those headers and that data.
abbrev pub Carries : TunFlowKey → List ℕ → List ℕ → Type 0
Carries session data_ p =
    IsBuffer (28 + length data_) p
    × IsHeaded (length data_) session p
    × ((j : ℕ) → get_elem? p (28 + j) ≡ get_elem? data_ j)

get_elem?-append_left :
    (xs ys : List ℕ) (j : ℕ) → j < length xs → get_elem? (xs ++ ys) j ≡ get_elem? xs j
get_elem?-append_left [] ys j h = absurd (omega arith)
get_elem?-append_left (x ∷ xs) ys zero h = refl
get_elem?-append_left (x ∷ xs) ys (suc j) h = get_elem?-append_left xs ys j (omega arith)

module _ (session : TunFlowKey) (data_ : List ℕ) (flow : IsFlow session) (bytes : All IsByte data_)
    (room : 28 + length data_ ≤ 65535) where
  abbrev n : ℕ
  n = 28 + length data_

  same :
      (p : List ℕ)
      → IsBuffer n p
      → length (take 28 p) ≡ 28
      → length (take 28 p ++ data_) ≡ n
      → Keeps 28 n p (take 28 p ++ data_)
  same p b front size j (inl below) =
      get_elem?-append_left (take 28 p) data_ j (omega (arith, front)) ∙ get_elem?-take 28 j p below
  same p b front size j (inr above) =
      get_elem?_end (take 28 p ++ data_) j (omega (arith, size))
      ∙ sym (get_elem?_end p j (omega (arith, b.0)))

  -- The data behind a header.
  with_data :
      (p : List ℕ)
      → IsBuffer n p
      → IsHeaded (length data_) session p
      → Carries session data_ (take 28 p ++ data_)
  with_data p b h =
      let front : length (take 28 p) ≡ 28 = omega (arith, length-take 28 p, b.0) in
      let size : length (take 28 p ++ data_) ≡ n =
        omega (arith, length-append (take 28 p) data_, front) in
      (
        (size, All-append IsByte (take 28 p) data_ (All-take IsByte 28 p b.1) bytes),
        IsHeaded-Keeps (length data_) session 28 n p (take 28 p ++ data_) (inr (omega arith))
            (same p b front size) h,
        (λ j. get_elem?-append_right (take 28 p) data_ j (28 + j) (omega (arith, front))),
      )

  -- The packet ahead of the checksums.
  pub udp_response-Carries : Ensures (Carries session data_) (udp_response session data_)
  unfolding udp_response
  udp_response-Carries =
      then-store (Carries session data_) n (replicate n 0) 0 69 _ (replicate-IsBuffer n)
        (omega arith) (omega arith)
        λ p1 (b1, _, g1).
          then-store (Carries session data_) n p1 8 64 _ b1 (omega arith) (omega arith)
            λ p2 (b2, k2, _).
              then-store (Carries session data_) n p2 9 17 _ b2 (omega arith) (omega arith)
                λ p3 (b3, k3, g3).
                  then-be16 (Carries session data_) n p3 2 ((28 + length data_) % 65536) _ b3
                    (omega arith) (omega arith)
                    λ p4 (b4, k4, g4).
                      then-be16 (Carries session data_) n p4 6 16384 _ b4 (omega arith)
                        (omega arith)
                        λ p5 (b5, k5, _).
                          then-u32 (Carries session data_) n p5 12 session.dst_ip _ b5 (omega arith)
                            flow.1
                            λ p6 (b6, k6, g6).
                              then-u32 (Carries session data_) n p6 16 session.src_ip _ b6
                                (omega arith) flow.0
                                λ p7 (b7, k7, g7).
                                  then-be16 (Carries session data_) n p7 20 session.dst_port _ b7
                                    (omega arith) flow.3
                                    λ p8 (b8, k8, g8).
                                      then-be16 (Carries session data_) n p8 22 session.src_port _
                                        b8 (omega arith) flow.2
                                        λ p9 (b9, k9, g9).
                                          then-be16 (Carries session data_) n p9 24
                                            ((8 + length data_) % 65536) _ b9 (omega arith)
                                            (omega arith)
                                            λ p10 (b10, k10, g10).
                                              let late : Keeps 20 26 p7 p10 = λ j out.
                                                k10 j (ground arith)
                                                ∙ k9 j (ground arith)
                                                ∙ k8 j (ground arith) in
                                              let addressed : Keeps 12 26 p5 p10 = λ j out.
                                                late j (ground arith)
                                                ∙ k7 j (ground arith)
                                                ∙ k6 j (ground arith) in
                                              with_data p10 b10 (
                                                addressed 0 (inl (omega arith))
                                                    ∙ k5 0 (inl (omega arith))
                                                    ∙ k4 0 (inl (omega arith))
                                                    ∙ k3 0 (inl (omega arith))
                                                    ∙ k2 0 (inl (omega arith))
                                                    ∙ g1,
                                                addressed 9 (inl (omega arith))
                                                    ∙ k5 9 (inr (omega arith))
                                                    ∙ k4 9 (inr (omega arith))
                                                    ∙ g3,
                                                read_be16_at-Keeps 12 26 2 p5 p10 addressed
                                                      (inl (omega arith))
                                                    ∙ read_be16_at-Keeps 6 8 2 p4 p5 k5
                                                        (inl (omega arith))
                                                    ∙ g4
                                                    ∙ ap ok (omega arith),
                                                (
                                                  load_u32-Keeps 20 26 12 p7 p10 late
                                                        (inl (omega arith))
                                                      ∙ load_u32-Keeps 16 20 12 p6 p7 k7
                                                          (inl (omega arith))
                                                      ∙ g6,
                                                  load_u32-Keeps 20 26 16 p7 p10 late
                                                        (inl (omega arith))
                                                      ∙ g7,
                                                  read_be16_at-Keeps 24 26 20 p9 p10 k10
                                                        (inl (omega arith))
                                                      ∙ read_be16_at-Keeps 22 24 20 p8 p9 k9
                                                          (inl (omega arith))
                                                      ∙ g8,
                                                  read_be16_at-Keeps 24 26 22 p9 p10 k10
                                                        (inl (omega arith))
                                                      ∙ g9,
                                                ),
                                                g10 ∙ ap ok (omega arith),
                                              )
