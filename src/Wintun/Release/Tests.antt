-- ===== src/Wintun/Release/Tests.antt =====
-- A concrete life of WintunApi.
use cppbox.Prelude.{◌≡◌, refl, true, [], ◌∷◌, ok}
use cppbox.Wintun.{
  DllCalls, WintunApi, ends, closes, frees, load, open_adapter, start_session, all_found, bring_up,
  destroy,
}
use cppbox.Wintun.Release.{IsReleased, bring_up-IsReleased}

abbrev dll : DllCalls
dll = record {
  load_library = 7;
  has_address = λ f. true;
  created = 8;
  started = λ adapter capacity. 9;
  received = λ session. (0, []);
  allocated = λ session size. 0;
  wait_event = λ session. 1;
  luid_of = λ adapter. 2;
}

abbrev running : WintunApi
running = record { dll = 7; adapter = 8; session = 9; functions = λ f. true }

destroy-running : destroy running ≡ ok (ends 9 ∷ closes 8 ∷ frees 7 ∷ [])
unfolding destroy
destroy-running = refl

bring_up-dll : bring_up dll ≡ ok (running, true)
unfolding bring_up load all_found open_adapter start_session
bring_up-dll = refl

bring_up-IsReleased_example : IsReleased (bring_up dll)
bring_up-IsReleased_example = bring_up-IsReleased dll
