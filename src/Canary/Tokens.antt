-- ===== src/Canary/Tokens.antt =====
-- What `get_token` leaves behind.
use dbirth.Base.{String, ℕ, ◌≡◌, refl, Bool, true, false, Option, none, some, arith}
use dbirth.Base.Result.{Result, ok, err}
use dbirth.Canary.Session.{
  Answer, fails, answers, SessionManager, SessionError, Exchange, TokenIsTrue, Settled, keep_token,
  ensure_held, acquire, is_true, posting, get_session_token, held, after_ensure, ensure_token,
  maybe_keep_alive, get_token,
}

abbrev Ensured : Result SessionError (Unit {0}) × SessionManager → Type 0
Ensured (ok _, m) = TokenIsTrue m.token
Ensured (err _, m) = m.token ≡ none

keep_ensures :
    (b : Bool) (token : String) (now : ℕ) (m : SessionManager)
    → is_true token ≡ b
    → m.token ≡ none
    → Ensured (keep_token b token now m)
keep_ensures true token now m e h = e
keep_ensures false token now m e h = h

acquire_ensures :
    (answer : Answer) (now : ℕ) (m : SessionManager)
    → m.token ≡ none
    → Ensured (acquire answer now m)
acquire_ensures fails now m h = h
acquire_ensures (answers none) now m h = h
acquire_ensures (answers (some token)) now m h = keep_ensures (is_true token) token now m refl h

ensure_ensures :
    (token : Option String) (answer : Answer) (now : ℕ) (m : SessionManager)
    → m.token ≡ token
    → TokenIsTrue m.token
    → Ensured (ensure_held token answer now m)
ensure_ensures none answer now m e h = acquire_ensures answer now (posting get_session_token m) e
ensure_ensures (some token) answer now m e h = h

kept_alive :
    (jitter : ℕ) (succeeds : Bool) (now : ℕ) (m : SessionManager)
    → TokenIsTrue m.token
    → TokenIsTrue (maybe_keep_alive jitter succeeds now m).token
unfolding maybe_keep_alive
kept_alive jitter succeeds now m h = ground arith

held_settles :
    (token : Option String) (m : SessionManager)
    → m.token ≡ token
    → TokenIsTrue token
    → Settled (held token m)
held_settles none m e h = e
held_settles (some token) m e h = (e, h)

after_settles :
    (x : Exchange) (r : Result SessionError (Unit {0}) × SessionManager)
    → Ensured r
    → Settled (after_ensure x r)
after_settles x (err e, m) h = h
after_settles x (ok u, m) h =
    let m' = maybe_keep_alive x.jitter x.keepalive_succeeds x.now m in
    held_settles m'.token m' refl (kept_alive x.jitter x.keepalive_succeeds x.now m h)

-- A `get_token` that returns gives the token that the manager now holds, which is not empty; one
-- that raises, because the server fails, has no token for it or refuses the keep-alive, leaves none
-- held, so that the next call asks for a new one.
pub get_token-Settled :
    (x : Exchange) (m : SessionManager) → TokenIsTrue m.token → Settled (get_token x m)
unfolding get_token ensure_token
get_token-Settled x m h =
    after_settles x (ensure_token x.answer x.acquired_at m)
      (ensure_ensures m.token x.answer x.acquired_at m refl h)
