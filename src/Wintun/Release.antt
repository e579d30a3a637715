-- ===== src/Wintun/Release.antt =====
-- What is opened is released: the life of `WintunApi` in `TunInbound`.
mod Tests
use cppbox.Prelude.{
  ℕ, ◌≡◌, ◌≢◌, refl, arith, Bool, true, false, Bool-cases, inl, inr, ◌&&◌, not, List, [], ◌∷◌, ◌++◌,
  ◌==◌, if◌then◌else◌, Result, ok, err, ◌>>=◌,
}
use cppbox.Wintun.{
  Symbol, create_adapter, close_adapter, start_session_fn, end_session, get_read_wait_event,
  receive_packet, release_receive_packet, allocate_send_packet, send_packet, get_adapter_luid,
  DllCalls, WintunApi, DllCall, ends, closes, frees, all_found, load, open_adapter, start_session,
  then_session, then_open, bring_up, destroy, new_api,
}

-- Every handle is released once, the last one first.
abbrev pub released : WintunApi → List DllCall
released s =
    (if s.session == 0 then [] else ends s.session ∷ [])
    ++ (if s.adapter == 0 then [] else closes s.adapter ∷ [])
    ++ (if s.dll == 0 then [] else frees s.dll ∷ [])

-- The pointers that the handles call for.
abbrev IsLoaded : WintunApi → Type 0
IsLoaded s = (f : Symbol) → s.functions f ≡ true

all_found-at : (has : Symbol → Bool) → all_found has ≡ true → (f : Symbol) → has f ≡ true
unfolding all_found
all_found-at has h create_adapter = ground arith
all_found-at has h f = ground arith

destroy-loaded : (s : WintunApi) → IsLoaded s → destroy s ≡ ok (released s)
unfolding destroy
destroy-loaded s h = ground (arith, h end_session, h close_adapter)

destroy-unused : (s : WintunApi) → s.session ≡ 0 → s.adapter ≡ 0 → destroy s ≡ ok (released s)
unfolding destroy
destroy-unused s h k = ground arith

-- The end of a run, and what it leaves.
abbrev pub IsReleased : Result (WintunApi × Bool) → Type 0
IsReleased r =
    (s : WintunApi) × (up : Bool) × (r ≡ ok (s, up))
    × (destroy s ≡ ok (released s))
    × (up ≡ true → (s.dll ≢ 0) × (s.adapter ≢ 0) × (s.session ≢ 0) × IsLoaded s)

never : {A : Type 0} → false ≡ true → A
never e = absurd (let impossible : ⊥ = cc in impossible)

ne_zero : (n : ℕ) → not (n == 0) ≡ true → n ≢ 0
ne_zero n h e = ground arith

ne_zero_of : (n : ℕ) → (n == 0) ≡ false → n ≢ 0
ne_zero_of n h e = ground arith

module _ (calls : DllCalls) where
  start_session-IsReleased :
      (s : WintunApi)
      → IsLoaded s
      → s.dll ≢ 0
      → s.adapter ≢ 0
      → IsReleased (start_session calls 8388608 s)
  unfolding start_session
  start_session-IsReleased s h d a =
      let handle = calls.started s.adapter 8388608 in
      (
        record s { session = handle },
        not (handle == 0),
        rw (h start_session_fn) refl,
        destroy-loaded (record s { session = handle }) h,
        λ e. (d, a, ne_zero handle e, h),
      )

  open_adapter-IsReleased :
      (s : WintunApi)
      → IsLoaded s
      → s.dll ≢ 0
      → s.session ≡ 0
      → IsReleased (open_adapter calls s >>= then_session calls)
  unfolding open_adapter
  open_adapter-IsReleased s h d unused = elim (Bool-cases (calls.created == 0)) [
    | inl failed ↦ (
      record s { adapter = calls.created },
      false,
      rw (h create_adapter, failed) refl,
      destroy-loaded (record s { adapter = calls.created }) h,
      λ e. never e,
    )
    | inr opened ↦
        let r =
          start_session-IsReleased (record s { adapter = calls.created }) h d
            (ne_zero_of calls.created opened) in
        rw (h create_adapter, opened) r
  ]

-- Whatever Windows and the library return, `start` calls through no null pointer; when it has stopped at the first
-- call that failed or has gone through, the destructor calls through none either, and releases
-- every handle that there is, once each: the session, then the adapter, then the library. When the calls have all
-- succeeded, there are all three, and all ten functions.
pub bring_up-IsReleased : (calls : DllCalls) → IsReleased (bring_up calls)
unfolding bring_up load
bring_up-IsReleased calls = elim (Bool-cases (calls.load_library == 0)) [
  | inl none_loaded ↦ (
    record new_api { dll = calls.load_library },
    false,
    rw none_loaded refl,
    destroy-unused (record new_api { dll = calls.load_library }) refl refl,
    λ e. never e,
  )
  | inr loaded ↦
      let s : WintunApi = record new_api {
        dll = calls.load_library;
        functions = calls.has_address;
      } in
      elim (Bool-cases (all_found calls.has_address)) [
        | inl found ↦
            let r =
              open_adapter-IsReleased calls s (all_found-at calls.has_address found)
                (ne_zero_of calls.load_library loaded) refl in
            rw (loaded, found) r
        | inr missing ↦
            (s, false, rw (loaded, missing) refl, destroy-unused s refl refl, λ e. never e)
      ]
]
