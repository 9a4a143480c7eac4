-- ===== src/Hook/Cooldown.antt =====
-- The cooldown of download requests (CryptoLoader/dllmain.cpp).
use reborn_launcher.Base.{
  ℕ, ◌+◌, ◌-◌, ◌%◌, ◌^◌, ◌<◌, ◌≡◌, not, ◌&&◌, Text, text_eq_refl, ◌==◌, ltb, leb, arith,
}
use reborn_launcher.Hook.{Hook, should_request_now, note_request, put_at}

elapsed : (t d : ℕ) → t < 2 ^ 32 → d < 2 ^ 32 → ((t + d) % 2 ^ 32 + 2 ^ 32 - t) % 2 ^ 32 ≡ d
elapsed t d small less = omega arith

waited : (t d : ℕ) → 0 < t → not (not (t == 0) && ltb d 3000) ≡ leb 3000 d
waited t d some_tick = ground arith

-- After a request at a tick other than 0, the next for the same file is allowed `d` milliseconds
-- later, with the tick taken modulo 2 ^ 32, exactly where `d` is at least 3000; for any `d` below
-- 2 ^ 32.
pub should_request_now-note_request :
    (key : Text) (t d : ℕ) (hook : Hook)
    → 0 < t
    → t < 2 ^ 32
    → d < 2 ^ 32
    → should_request_now key ((t + d) % 2 ^ 32) (note_request key t hook) ≡ leb 3000 d
unfolding should_request_now note_request put_at
should_request_now-note_request key t d hook some_tick small less =
    let passed = elapsed t d small less in rw (text_eq_refl key, passed) (waited t d some_tick)
