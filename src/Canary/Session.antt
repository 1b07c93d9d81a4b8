-- ===== src/Canary/Session.antt =====
-- `SAFSessionManager`. Every method that touches the token holds the lock, so a method is one step.
-- What the server answers is an argument; what is sent to it is kept as a list. Times are in ticks.
use text.Mathlib.Text.{◌==◌ as str_eq}
use dbirth.Base.{
  ℕ, ◌+◌, max, ◌≡◌, String, Bool, true, false, not, Option, none, some, List, [], ◌∷◌, ◌++◌,
  if◌then◌else◌, ltb, ◌||◌, select,
}
use dbirth.Base.Result.{Result, ok, err}

-- What is posted: `/getSessionToken`, `/keepAlive` and `/revokeSessionToken`, with the token.
pub data Post : Type 0 where
  get_session_token : Post
  keep_alive revoke_session_token : String → Post

-- The answer to `/getSessionToken`: the request fails, or it brings a token or none.
pub data Answer : Type 0 where
  fails : Answer
  answers : Option String → Answer

pub data SessionError : Type 0 where
  request_failed token_missing not_acquired : SessionError

pub record SessionManager : Type 0 where
  pub historians : List String
  pub session_timeout_ms : ℕ
  pub keepalive_idle_seconds : ℕ
  pub keepalive_jitter_seconds : ℕ
  pub token : Option String
  pub last_activity : ℕ
  pub last_keepalive : ℕ
  pub posts : List Post

-- A string is true unless it is empty.
abbrev pub is_true : String → Bool
is_true s = not (str_eq s "")

-- The constructor, at the clock's time; none is the `ValueError` of a missing URL or API token.
unfoldable pub open_session : String → String → List String → ℕ → ℕ → ℕ → ℕ → Option SessionManager
open_session base_url api_token historians timeout_ms idle jitter now =
    if not (is_true base_url) || not (is_true api_token)
    then none
    else some (record {
      historians = select is_true historians;
      session_timeout_ms = max 1000 timeout_ms;
      keepalive_idle_seconds = max 1 idle;
      keepalive_jitter_seconds = jitter;
      token = none;
      last_activity = now;
      last_keepalive = now;
      posts = [];
    })

abbrev pub posting : Post → SessionManager → SessionManager
posting post m = record m { posts = m.posts ++ post ∷ [] }

-- `if not token: raise`, and then the token is kept
abbrev pub keep_token :
    Bool → String → ℕ → SessionManager → Result SessionError (Unit {0}) × SessionManager
keep_token false token now m = (err token_missing, m)
keep_token true token now m =
    (ok tt, record m { token = some token; last_activity = now; last_keepalive = now })

abbrev pub acquire : Answer → ℕ → SessionManager → Result SessionError (Unit {0}) × SessionManager
acquire fails now m = (err request_failed, m)
acquire (answers none) now m = (err token_missing, m)
acquire (answers (some token)) now m = keep_token (is_true token) token now m

abbrev pub ensure_held :
    Option String → Answer → ℕ → SessionManager → Result SessionError (Unit {0}) × SessionManager
ensure_held (some token) answer now m = (ok tt, m)
ensure_held none answer now m = acquire answer now (posting get_session_token m)

-- `_ensure_token_locked`
unfoldable pub ensure_token :
    Answer → ℕ → SessionManager → Result SessionError (Unit {0}) × SessionManager
ensure_token answer now m = ensure_held m.token answer now m

-- `_maybe_keep_alive_locked`, with the drawn jitter and whether the request succeeds
unfoldable pub maybe_keep_alive : ℕ → Bool → ℕ → SessionManager → SessionManager
maybe_keep_alive jitter succeeds now m = elim m.token [
  | none ↦ m
  | some token ↦
      let idle = m.keepalive_idle_seconds in
      let m' = posting (keep_alive token) m in
      if ltb now (m.last_activity + idle)
      then m
      else if ltb now (m.last_activity + (idle + jitter))
      then m
      else if succeeds
      then record m' { last_keepalive = now; last_activity = now }
      else record m' { token = none }
]

-- What the world does during one `get_token`.
pub record Exchange : Type 0 where
  pub answer : Answer
  pub acquired_at : ℕ
  pub jitter : ℕ
  pub keepalive_succeeds : Bool
  pub now : ℕ

-- `if not self._token: raise`
abbrev pub held : Option String → SessionManager → Result SessionError String × SessionManager
held none m = (err not_acquired, m)
held (some token) m = (ok token, m)

abbrev pub after_ensure :
    Exchange
    → Result SessionError (Unit {0}) × SessionManager
    → Result SessionError String × SessionManager
after_ensure x (err e, m) = (err e, m)
after_ensure x (ok _, m) =
    let m' = maybe_keep_alive x.jitter x.keepalive_succeeds x.now m in held m'.token m'

unfoldable pub get_token : Exchange → SessionManager → Result SessionError String × SessionManager
get_token x m = after_ensure x (ensure_token x.answer x.acquired_at m)

unfoldable pub mark_activity : ℕ → SessionManager → SessionManager
mark_activity now m = record m { last_activity = now }

unfoldable pub invalidate : SessionManager → SessionManager
invalidate m = record m { token = none }

-- `revoke`; what the request comes to is not looked at
unfoldable pub revoke : SessionManager → SessionManager
revoke m = elim m.token [
  | none ↦ record m { token = none }
  | some token ↦ posting (revoke_session_token token) (record m { token = none })
]

-- A token that is held is not empty.
abbrev pub TokenIsTrue : Option String → Type 0
TokenIsTrue none = Unit
TokenIsTrue (some token) = is_true token ≡ true

abbrev pub is_held : Option String → Bool
is_held none = false
is_held (some _) = true

-- How a `get_token` ended: with the token that is held, or with none held.
abbrev pub Settled : Result SessionError String × SessionManager → Type 0
Settled (ok token, m) = (m.token ≡ some token) × (is_true token ≡ true)
Settled (err _, m) = m.token ≡ none
