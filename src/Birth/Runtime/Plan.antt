-- ===== src/Birth/Runtime/Plan.antt =====
-- The calls of a run of the service in their order, and how a run ends by what is there of the listener and
-- of the Canary client.

use dbirth.Base.{Bool, true, false, ◌&&◌, ◌||◌, not, ◌≡◌, refl, List, [], ◌∷◌, ◌++◌, if◌then◌else◌}
use dbirth.Birth.Runtime.{
  Action, connect_subscriber, start_client, start_listener_thread, run_subscriber, stop_listener,
  join_thread, stop_client, revoke_session, close_session, disconnect, Faults, Runtime, Outcome,
  call, bare, and_then, attempt_when, with_listener, stop, run_to_stop,
}

abbrev Step : Type 0
Step = Action × Bool

abbrev when : Bool → List Step → List Step
when true l = l
when false l = []

-- The calls of a whole run, by what there is of the listener and of the Canary client, each with whether
-- the run ends at it. The session is closed also where its revocation raises.
abbrev pub plan : Bool → Bool → Faults → List (Action × Bool)
plan listener client f =
    (connect_subscriber, f.connect_fails) ∷ when client ((start_client, f.start_client_fails) ∷ [])
    ++ when listener ((start_listener_thread, f.thread_fails) ∷ [])
    ++ (run_subscriber, false)
      ∷ when listener (
          (stop_listener, f.stop_listener_fails)
          ∷ when f.thread_is_alive ((join_thread, false) ∷ []))
    ++ when client (
        (stop_client, false)
        ∷ (revoke_session, false)
        ∷ (close_session, f.close_fails || f.revoke_fails)
        ∷ [])
    ++ (disconnect, false) ∷ []

-- The calls up to the first one at which the run ends.
abbrev pub made : List (Action × Bool) → List Action
made [] = []
made ((a, true) ∷ steps) = a ∷ []
made ((a, false) ∷ steps) = a ∷ made steps

abbrev pub reaches_end : List (Action × Bool) → Bool
reaches_end [] = true
reaches_end ((a, true) ∷ steps) = false
reaches_end ((a, false) ∷ steps) = reaches_end steps

-- What keeps a run from closing the session.
abbrev pub stays_open : Bool → Faults → Bool
stays_open listener f =
    f.connect_fails
    || (f.start_client_fails
        || (listener && (f.thread_fails || f.stop_listener_fails) || f.close_fails))

-- How a run ends, by what there was before it.
pub record Ended (listener : Bool) (f : Faults) (opened : Runtime) (o : Outcome) : Type 0 where
  pub calls_are : o.1.calls ≡ opened.calls ++ made (plan listener opened.canary_client f)
  pub returns :
      o.0
      ≡ (f.connect_fails || reaches_end (plan listener opened.canary_client f) && not f.run_fails)
  pub session : o.1.session_manager ≡ opened.canary_client && stays_open listener f

-- these faults, and those of `f` that do not show in a run that was opened
abbrev faults : Bool → Bool → Bool → Bool → Bool → Bool → Bool → Faults → Faults
faults connect start thread stops alive closes revokes f = record f {
  connect_fails = connect;
  start_client_fails = start;
  thread_fails = thread;
  stop_listener_fails = stops;
  thread_is_alive = alive;
  close_fails = closes;
  revoke_fails = revokes;
}

abbrev pub ran : Bool → Faults → Runtime → Outcome
ran listener f r =
    let connecting = call connect_subscriber r in
    if f.connect_fails
    then (true, connecting)
    else and_then (attempt_when r.canary_client start_client f.start_client_fails connecting)
        (λ r₁. and_then (with_listener listener f.thread_fails r₁) (λ r₂. run_to_stop f r₂))

-- How every run of an opened runtime ends.
abbrev pub AlwaysEnds : Runtime → Type 0
AlwaysEnds r =
    (listener connect start thread stops alive closes revokes : Bool) (f : Faults)
    → Ended listener (faults connect start thread stops alive closes revokes f) r
        (ran listener (faults connect start thread stops alive closes revokes f) r)

pub bare-Ended : AlwaysEnds bare
unfolding stop
bare-Ended l true st th sl al cf rf f = record { calls_are = refl; returns = refl; session = refl }
bare-Ended false false st th sl al cf rf f = record {
  calls_are = refl;
  returns = refl;
  session = refl;
}
bare-Ended true false st true sl al cf rf f = record {
  calls_are = refl;
  returns = refl;
  session = refl;
}
bare-Ended true false st false true al cf rf f = record {
  calls_are = refl;
  returns = refl;
  session = refl;
}
bare-Ended true false st false false true cf rf f = record {
  calls_are = refl;
  returns = refl;
  session = refl;
}
bare-Ended true false st false false false cf rf f = record {
  calls_are = refl;
  returns = refl;
  session = refl;
}

abbrev pub refused : Runtime
refused = call close_session (call revoke_session bare)

pub refused-Ended : AlwaysEnds refused
unfolding stop
refused-Ended l true st th sl al cf rf f = record {
  calls_are = refl;
  returns = refl;
  session = refl;
}
refused-Ended false false st th sl al cf rf f = record {
  calls_are = refl;
  returns = refl;
  session = refl;
}
refused-Ended true false st true sl al cf rf f = record {
  calls_are = refl;
  returns = refl;
  session = refl;
}
refused-Ended true false st false true al cf rf f = record {
  calls_are = refl;
  returns = refl;
  session = refl;
}
refused-Ended true false st false false true cf rf f = record {
  calls_are = refl;
  returns = refl;
  session = refl;
}
refused-Ended true false st false false false cf rf f = record {
  calls_are = refl;
  returns = refl;
  session = refl;
}

abbrev pub ready : Runtime
ready = record bare { canary_client = true; session_manager = true }

pub ready-Ended : AlwaysEnds ready
unfolding stop
ready-Ended l true st th sl al cf rf f = record { calls_are = refl; returns = refl; session = refl }
ready-Ended l false true th sl al cf rf f = record {
  calls_are = refl;
  returns = refl;
  session = refl;
}
ready-Ended false false false th sl al true rf f = record {
  calls_are = refl;
  returns = refl;
  session = refl;
}
ready-Ended false false false th sl al false true f = record {
  calls_are = refl;
  returns = refl;
  session = refl;
}
ready-Ended false false false th sl al false false f = record {
  calls_are = refl;
  returns = refl;
  session = refl;
}
ready-Ended true false false true sl al cf rf f = record {
  calls_are = refl;
  returns = refl;
  session = refl;
}
ready-Ended true false false false true al cf rf f = record {
  calls_are = refl;
  returns = refl;
  session = refl;
}
ready-Ended true false false false false true true rf f = record {
  calls_are = refl;
  returns = refl;
  session = refl;
}
ready-Ended true false false false false true false true f = record {
  calls_are = refl;
  returns = refl;
  session = refl;
}
ready-Ended true false false false false true false false f = record {
  calls_are = refl;
  returns = refl;
  session = refl;
}
ready-Ended true false false false false false true rf f = record {
  calls_are = refl;
  returns = refl;
  session = refl;
}
ready-Ended true false false false false false false true f = record {
  calls_are = refl;
  returns = refl;
  session = refl;
}
ready-Ended true false false false false false false false f = record {
  calls_are = refl;
  returns = refl;
  session = refl;
}
