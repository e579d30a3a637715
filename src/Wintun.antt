-- ===== src/Wintun.antt =====
-- The Wintun library behind `WintunApi`: src/inbound/tun_wintun.cpp and src/inbound/tun_wintun.hpp. What Windows and the
-- library return is the parameter `DllCalls`. A handle is a number, and 0 is no handle. A call through a null
-- pointer, which C++ leaves undefined, is the error `out_of_bounds`.
pub mod Release
use cppbox.Prelude.{
  ℕ, Bool, true, false, ◌&&◌, ◌||◌, not, List, [], ◌∷◌, ◌++◌, length, take, ◌==◌, if◌then◌else◌,
  Result, ok, err, out_of_bounds, ◌>>=◌, ◌>>◌,
}

-- The functions that `load` looks up.
pub data Symbol : Type 0 where
  create_adapter close_adapter start_session_fn end_session get_read_wait_event : Symbol
  receive_packet release_receive_packet allocate_send_packet send_packet get_adapter_luid : Symbol

pub record DllCalls : Type 0 where
  pub load_library : ℕ
  pub has_address : Symbol → Bool
  pub created : ℕ
  pub started : ℕ → ℕ → ℕ
  -- The packet that is received, and its bytes.
  pub received : ℕ → ℕ × List ℕ
  pub allocated : ℕ → ℕ → ℕ
  pub wait_event : ℕ → ℕ
  pub luid_of : ℕ → ℕ

-- `functions` are the pointers that are not null.
pub record WintunApi : Type 0 where
  pub dll : ℕ
  pub adapter : ℕ
  pub session : ℕ
  pub functions : Symbol → Bool

abbrev pub new_api : WintunApi
new_api = record { dll = 0; adapter = 0; session = 0; functions = λ f. false }

-- A call that changes something in the library.
pub data DllCall : Type 0 where
  ends : ℕ → DllCall
  closes : ℕ → DllCall
  frees : ℕ → DllCall
  releases : ℕ → ℕ → DllCall
  sends : ℕ → ℕ → List ℕ → DllCall

abbrev pub through : WintunApi → Symbol → Result (Unit {0})
through s f = if s.functions f then ok tt else err out_of_bounds

-- The destructor: the calls that it makes, in their order.
abbrev pub end_when : WintunApi → Result (List DllCall)
end_when s = if s.session == 0 then ok [] else through s end_session >> ok (ends s.session ∷ [])

abbrev pub close_when : WintunApi → Result (List DllCall)
close_when s =
    if s.adapter == 0 then ok [] else through s close_adapter >> ok (closes s.adapter ∷ [])

unfoldable pub destroy : WintunApi → Result (List DllCall)
destroy s = do
  ended ← end_when s
  closed ← close_when s
  ok (ended ++ closed ++ (if s.dll == 0 then [] else frees s.dll ∷ []))

unfoldable pub all_found : (Symbol → Bool) → Bool
all_found has =
    has create_adapter
    && has close_adapter
    && has start_session_fn
    && has end_session
    && has get_read_wait_event
    && has receive_packet
    && has release_receive_packet
    && has allocate_send_packet
    && has send_packet
    && has get_adapter_luid

module _ (calls : DllCalls) where
  unfoldable pub load : WintunApi → WintunApi × Bool
  load s = if calls.load_library == 0 then (record s { dll = calls.load_library }, false) else (
    record s { dll = calls.load_library; functions = calls.has_address },
    all_found calls.has_address,
  )

  unfoldable pub open_adapter : WintunApi → Result (WintunApi × Bool)
  open_adapter s =
      through s create_adapter
      >> ok (record s { adapter = calls.created }, not (calls.created == 0))

  unfoldable pub start_session : ℕ → WintunApi → Result (WintunApi × Bool)
  start_session capacity s =
      through s start_session_fn
      >> (let session = calls.started s.adapter capacity in
          ok (record s { session = session }, not (session == 0)))

  -- A packet is its address, which is 0 if there is none, and its bytes.
  unfoldable pub receive : WintunApi → Result (ℕ × List ℕ)
  receive s = through s receive_packet >> ok (calls.received s.session)

  unfoldable pub release : WintunApi → ℕ × List ℕ → Result (List DllCall)
  release s (packet, bytes) =
      if packet == 0
      then ok []
      else through s release_receive_packet >> ok (releases s.session packet ∷ [])

  -- Whether the packet was sent. What is sent are the first `size` bytes at `bytes`.
  unfoldable pub write : WintunApi → List ℕ → ℕ → Result (List DllCall × Bool)
  write s bytes size =
      through s allocate_send_packet
      >> (let packet = calls.allocated s.session size in
          if packet == 0
          then ok ([], false)
          else through s send_packet >> ok (sends s.session packet (take size bytes) ∷ [], true))

  unfoldable pub read_wait_event : WintunApi → Result ℕ
  read_wait_event s = through s get_read_wait_event >> ok (calls.wait_event s.session)

  -- The LUID, where there is one.
  unfoldable pub adapter_luid : WintunApi → ℕ × Bool
  adapter_luid s =
      if s.adapter == 0 || not (s.functions get_adapter_luid)
      then (0, false)
      else (calls.luid_of s.adapter, true)

  -- The calls of `TunInbound::start`, up to the first that fails.
  abbrev pub then_session : WintunApi × Bool → Result (WintunApi × Bool)
  then_session (s, false) = ok (s, false)
  then_session (s, true) = start_session 8388608 s

  abbrev pub then_open : WintunApi × Bool → Result (WintunApi × Bool)
  then_open (s, false) = ok (s, false)
  then_open (s, true) = open_adapter s >>= then_session

  unfoldable pub bring_up : Result (WintunApi × Bool)
  bring_up = then_open (load new_api)
