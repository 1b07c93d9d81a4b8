-- ===== src/Birth/Runtime.antt =====
-- `ServiceRuntime`: how the parts are started and stopped, and how a diff of the listener reaches the
-- Canary client. What it calls on the other parts is kept in a list; whether a call raises is an
-- argument.
pub mod Plan
pub mod Shutdown
pub mod Diffs
mod Tests
use text.Mathlib.Text.{◌==◌ as str_eq}
use dbirth.Base.{
  String, Bool, true, false, ◌&&◌, ◌||◌, not, Option, none, some, List, [], ◌∷◌, ◌++◌,
  if◌then◌else◌,
}
use dbirth.Base.Strings.{is_empty}
use dbirth.Canary.Client.{CanaryClient, enqueue}

-- a call on one of the parts
pub data Action : Type 0 where
  connect_subscriber start_client start_listener_thread run_subscriber : Action
  stop_listener join_thread stop_client revoke_session close_session disconnect : Action

-- what of the settings counts here
pub record RuntimeSettings : Type 0 where
  pub canary_enabled : Bool
  pub canary_base_url : String
  pub canary_api_token : String
  pub cdc_enabled : Bool
  pub db_mode : String

-- the calls that raise, and whether the listener's thread runs when it is joined; that the client's
-- `stop` or the disconnection raises is caught where they are called, and changes nothing
pub record Faults : Type 0 where
  pub session_manager_fails : Bool
  pub client_fails : Bool
  pub connect_fails : Bool
  pub start_client_fails : Bool
  pub listener_fails : Bool
  pub thread_fails : Bool
  -- another exception than `KeyboardInterrupt` comes out of the subscriber's loop
  pub run_fails : Bool
  pub stop_listener_fails : Bool
  pub revoke_fails : Bool
  pub close_fails : Bool
  pub thread_is_alive : Bool

-- the parts that are there, and the calls that were made
pub record Runtime : Type 0 where
  pub cdc_service : Bool
  pub cdc_thread : Bool
  pub canary_client : Bool
  pub session_manager : Bool
  pub calls : List Action

abbrev pub call : Action → Runtime → Runtime
call a r = record r { calls = r.calls ++ a ∷ [] }

abbrev pub call_when : Bool → Action → Runtime → Runtime
call_when true a r = call a r
call_when false a r = r

abbrev pub bare : Runtime
bare = record {
  cdc_service = false;
  cdc_thread = false;
  canary_client = false;
  session_manager = false;
  calls = [];
}

abbrev pub is_configured : RuntimeSettings → Bool
is_configured s =
    s.canary_enabled && (not (is_empty s.canary_base_url) && not (is_empty s.canary_api_token))

-- a session manager whose client fails is revoked and closed; none where that raises
abbrev pub give_back : Bool → Runtime → Option Runtime
give_back true r = none
give_back false r = some (call close_session (call revoke_session r))

-- the session manager, then the client
abbrev pub with_canary : Bool → Faults → Runtime → Option Runtime
with_canary false f r = some r
with_canary true f r =
    if f.session_manager_fails
    then some r
    else if f.client_fails
    then give_back (f.revoke_fails || f.close_fails) r
    else some (record r { canary_client = true; session_manager = true })

-- `__init__`; none is a raise
unfoldable pub open_runtime : RuntimeSettings → Faults → Option Runtime
open_runtime s f = with_canary (is_configured s) f bare

-- a runtime after some calls, and whether the last of them returned
abbrev pub Outcome : Type 0
Outcome = Bool × Runtime

abbrev pub and_then : Outcome → (Runtime → Outcome) → Outcome
and_then (true, r) rest = rest r
and_then (false, r) rest = (false, r)

-- a call that is made if there is such a part
abbrev pub attempt_when : Bool → Action → Bool → Runtime → Outcome
attempt_when true a fails r = (not fails, call a r)
attempt_when false a fails r = (true, r)

-- the listener is wanted, and can be built
abbrev pub is_listening : RuntimeSettings → Faults → Bool
is_listening s f = s.cdc_enabled && (str_eq s.db_mode "local" && not f.listener_fails)

abbrev pub with_listener : Bool → Bool → Runtime → Outcome
with_listener true thread_fails r = (
  not thread_fails,
  call start_listener_thread (record r { cdc_service = true; cdc_thread = true }),
)
with_listener false thread_fails r = (true, r)

-- `_start_cdc_listener`
unfoldable pub start_cdc_listener : RuntimeSettings → Faults → Runtime → Outcome
start_cdc_listener s f r = with_listener (is_listening s f) f.thread_fails r

-- the `finally` block on the session manager: it stays where `close` raises
abbrev pub closed : Bool → Bool → Runtime → Outcome
closed close_fails revoke_fails r =
    if close_fails then (false, r) else (not revoke_fails, record r { session_manager = false })

abbrev pub end_session : Bool → Bool → Bool → Runtime → Outcome
end_session true close_fails revoke_fails r =
    closed close_fails revoke_fails (call close_session (call revoke_session r))
end_session false close_fails revoke_fails r = (true, r)

-- `stop`
unfoldable pub stop : Faults → Runtime → Outcome
stop f r = and_then (attempt_when r.cdc_service stop_listener f.stop_listener_fails r) (λ r₁.
    let joined = call_when (r₁.cdc_thread && f.thread_is_alive) join_thread r₁ in
    let client = call_when joined.canary_client stop_client joined in
    and_then (end_session client.session_manager f.close_fails f.revoke_fails client)
      (λ r₂. (true, call disconnect r₂)))

-- the `try` of `run` with its `finally`
abbrev pub run_to_stop : Faults → Runtime → Outcome
run_to_stop f r =
    let (stopped, r') = stop f (call run_subscriber r) in (stopped && not f.run_fails, r')

-- `run`
unfoldable pub run : RuntimeSettings → Faults → Runtime → Outcome
unfolding start_cdc_listener stop
run s f r =
    let connecting = call connect_subscriber r in
    if f.connect_fails
    then (true, connecting)
    else and_then (attempt_when r.canary_client start_client f.start_client_fails connecting)
        (λ r₁. and_then (start_cdc_listener s f r₁) (λ r₂. run_to_stop f r₂))

module _ {D P : Type 0} (from_mapping : P → Option D) where
  -- the payload that has no diff raises in `enqueue`, and a full queue does: both are caught
  abbrev pub enqueue_parsed : Option D → CanaryClient D → CanaryClient D
  enqueue_parsed none c = c
  enqueue_parsed (some diff) c = (enqueue diff c).1

  -- `_handle_diff`, on the client; the file of diffs is left out
  unfoldable pub handle_diff : P → Option (CanaryClient D) → Option (CanaryClient D)
  unfolding enqueue
  handle_diff payload none = none
  handle_diff payload (some c) = some (enqueue_parsed (from_mapping payload) c)

  unfoldable pub handle_diffs : List P → Option (CanaryClient D) → Option (CanaryClient D)
  unfolding handle_diff
  handle_diffs [] c = c
  handle_diffs (p ∷ ps) c = handle_diffs ps (handle_diff p c)
