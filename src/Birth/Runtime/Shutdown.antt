-- ===== src/Birth/Runtime/Shutdown.antt =====
-- How every run of an opened runtime ends.
use mathlib.Core.Path.{subst}
use dbirth.Base.{Bool, true, false, ◌||◌, ◌≡◌, ◌⊎◌, inl, inr, sym, some, if◌then◌else◌}
use dbirth.Birth.Runtime.{
  RuntimeSettings, Faults, Runtime, bare, is_configured, is_listening, with_canary, give_back,
  open_runtime, start_cdc_listener, run,
}
use dbirth.Birth.Runtime.Plan.{
  Ended, ran, AlwaysEnds, bare-Ended, refused, refused-Ended, ready, ready-Ended,
}

opened-cases :
    (configured : Bool) (f : Faults) (r : Runtime)
    → with_canary configured f bare ≡ some r
    → (r ≡ bare) ⊎ (r ≡ refused) ⊎ (r ≡ ready)
opened-cases false f r e = inl (cc (e))
opened-cases true f r e =
    cases f.session_manager_fails f.client_fails (f.revoke_fails || f.close_fails) e
  where
    cases :
        (no_manager no_client stuck : Bool)
        → (if no_manager then some bare else if no_client then give_back stuck bare else some ready)
          ≡ some r
        → (r ≡ bare) ⊎ (r ≡ refused) ⊎ (r ≡ ready)
    cases true no_client stuck e = inl (cc (e))
    cases false true true e = absurd (cc (e))
    cases false true false e = inr (inl (cc (e)))
    cases false false stuck e = inr (inr (cc (e)))

opened-Ended :
    (configured listener : Bool) (f : Faults) (r : Runtime)
    → with_canary configured f bare ≡ some r
    → Ended listener f r (ran listener f r)
opened-Ended configured listener f r e = elim (opened-cases configured f r e) [
  | inl same ↦ subst (λ x. Ended listener f x (ran listener f x)) (sym same) (at bare bare-Ended)
  | inr (inl same) ↦
      subst (λ x. Ended listener f x (ran listener f x)) (sym same) (at refused refused-Ended)
  | inr (inr same) ↦
      subst (λ x. Ended listener f x (ran listener f x)) (sym same) (at ready ready-Ended)
]
  where
    at : (r : Runtime) → AlwaysEnds r → Ended listener f r (ran listener f r)
    at r ends =
        ends listener f.connect_fails f.start_client_fails f.thread_fails f.stop_listener_fails
          f.thread_is_alive f.close_fails f.revoke_fails f

-- Whatever raises, a run of a runtime that could be opened makes exactly these calls after those of
-- the opening: it connects, starts the Canary client and the listener that there are, runs the
-- subscriber, stops the listener, joins its thread if that is alive, stops the client, revokes and
-- closes the session, and disconnects, up to the first call among them that raises, less that a
-- revocation that raises does not keep the session from being closed. It returns if the connection
-- fails, or if it reaches the end and the subscriber's loop has not raised. It leaves the session open
-- where there is one and the connection, the start of the client or of the listener's thread, the stop
-- of the listener, or the closing of the session failed, and nowhere else.
pub run-Ended :
    (s : RuntimeSettings) (f : Faults) (opened : Runtime)
    → open_runtime s f ≡ some opened
    → Ended (is_listening s f) f opened (run s f opened)
unfolding run open_runtime start_cdc_listener
run-Ended s f opened e = opened-Ended (is_configured s) (is_listening s f) f opened e
