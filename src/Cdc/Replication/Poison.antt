-- ===== src/Cdc/Replication/Poison.antt =====
-- A message that cannot be processed holds the stored position back.
use mathlib.Core.Path.{subst}
use dbirth.Base.{
  ℕ, ◌+◌, ◌≤◌, ◌≡◌, ◌≢◌, ◌⊎◌, inl, inr, refl, sym, Bool, false, Option, none, some, List, [], ◌∷◌,
  ◌++◌, arith, All, Bool-cases, Option-cases,
}
use dbirth.Cdc.Replication.Client.{
  CheckpointStore, Message, Flow, through, returned, raised, World, handle_changes, finish_message,
  after_changes, handle_message, pick_stream, handle_stream, conclude, after_stream, process,
}
use dbirth.Cdc.Replication.Progress.{IsWithin, LsnWithin, IsWithin-raise, within-Seen}
use dbirth.Cdc.Replication.Stored.{Holds, message-Holds, conclude-stored}

module _ (store : CheckpointStore) {D C S : Type 0} (decode : Message D → Option (List C))
    (handler : C → S → Bool × S) where
  open store use {load}

  abbrev W : Type 0
  W = World store decode handler

  -- One of the changes is refused by the handler, whatever came before.
  abbrev pub HasRefused : List C → Type 0
  HasRefused [] = ⊥
  HasRefused (c ∷ cs) = ((s : S) → (handler c s).0 ≡ false) ⊎ HasRefused cs

  -- The iterator raises, the message cannot be decoded, or one of its changes is refused.
  abbrev pub IsPoison : Option (Message D) → Type 0
  IsPoison none = Unit
  IsPoison (some m) = (decode m ≡ none) ⊎ ((cs : List C) × (decode m ≡ some cs) × HasRefused cs)

  abbrev Stuck : W → Flow × W → Type 0
  Stuck w r = (r.0 ≡ raised) × (r.1.positions ≡ w.positions)

  refused_changes :
      (lsn : ℕ) (cs : List C) (w : W)
      → HasRefused cs
      → Stuck w (handle_changes store decode handler none lsn cs w)
  unfolding handle_changes
  refused_changes lsn [] w h = absurd h
  refused_changes lsn (c ∷ cs) w (inl bad) = rw (bad w.sink, handle_changes) (refl, refl)
  refused_changes lsn (c ∷ cs) w (inr later) =
      let w' : W = record w { sink = (handler c w.sink).1; processed = w.processed + 1 } in
      elim (Bool-cases (handler c w.sink).0) [
        | inr raises ↦ rw (raises, handle_changes) (refl, refl)
        | inl returns ↦ rw (returns, handle_changes) (refused_changes lsn cs w' later)
      ]

  poison_message :
      (m : Option (Message D)) (w : W)
      → IsPoison m
      → Stuck w (handle_message store decode handler none m w)
  unfolding handle_message
  poison_message none w h = (refl, refl)
  poison_message (some m) w (inl bad) = rw (bad, handle_message) (refl, refl)
  poison_message (some m) w (inr (cs, good, refused)) =
      let (flow, same) = refused_changes m.lsn cs w refused in
      (ground (arith, flow, good), ground (arith, flow, same, good))

  unbounded_changes :
      (lsn : ℕ) (cs : List C) (w : W)
      → (handle_changes store decode handler none lsn cs w).0 ≢ returned
  unfolding handle_changes
  unbounded_changes lsn [] w = cc
  unbounded_changes lsn (c ∷ cs) w =
      let w' : W = record w { sink = (handler c w.sink).1; processed = w.processed + 1 } in
      ground (arith, unbounded_changes lsn cs w')

  finish_message-flow : (lsn : ℕ) (w : W) → (finish_message store decode handler lsn w).0 ≢ returned
  unfolding finish_message
  finish_message-flow lsn w = ground arith

  after_changes-flow :
      (lsn : ℕ) (r : Flow × W)
      → r.0 ≢ returned
      → (after_changes store decode handler lsn r).0 ≢ returned
  after_changes-flow lsn (through, w) h = finish_message-flow lsn w
  after_changes-flow lsn (returned, w) h = λ e. h refl
  after_changes-flow lsn (raised, w) h = h

  -- With no limit on the messages, `process` does not return from inside its loop.
  unbounded_message :
      (m : Option (Message D)) (w : W) → (handle_message store decode handler none m w).0 ≢ returned
  unfolding handle_message
  unbounded_message none w = cc
  unbounded_message (some m) w = elim (Option-cases (decode m)) [
    | inl bad ↦ rw (bad, handle_message) (cc)
    | inr (cs, good) ↦
        rw (good, handle_message)
          (after_changes-flow m.lsn (handle_changes store decode handler none m.lsn cs w)
            (unbounded_changes m.lsn cs w))
  ]

  module _ (bound : ℕ) where
    abbrev HoldsWithin : W → Type 0
    HoldsWithin =
        Holds store decode handler (IsWithin bound) (λ lsn. lsn ≤ bound) (IsWithin-raise bound)
          (λ _. Unit) (λ lsn o e h. tt)

    abbrev StopsWithin : Flow × W → Type 0
    StopsWithin r = (r.0 ≡ raised) × IsWithin bound (load r.1.positions)

    message-HoldsWithin :
        (m : Option (Message D)) (w : W)
        → LsnWithin bound m
        → HoldsWithin w
        → HoldsWithin (handle_message store decode handler none m w).1
    message-HoldsWithin none w a h =
        message-Holds store decode handler (IsWithin bound) (λ lsn. lsn ≤ bound)
          (IsWithin-raise bound) (λ _. Unit) (λ lsn o e h. tt) none none w tt h
    message-HoldsWithin (some m) w a h =
        message-Holds store decode handler (IsWithin bound) (λ lsn. lsn ≤ bound)
          (IsWithin-raise bound) (λ _. Unit) (λ lsn o e h. tt) none (some m) w a h

    pick_poison :
        (flow : Flow) (rest here : Flow × W)
        → flow ≢ returned
        → here.0 ≡ flow
        → StopsWithin rest
        → IsWithin bound (load here.1.positions)
        → StopsWithin (pick_stream store decode handler flow rest here)
    pick_poison through rest here n e r h = r
    pick_poison returned rest here n e r h = absurd (n refl)
    pick_poison raised rest here n e r h = (e, h)

    poison_stream :
        (done : List (Option (Message D))) (bad : Option (Message D))
        (rest : List (Option (Message D))) (w : W)
        → All (LsnWithin bound) done
        → IsPoison bad
        → HoldsWithin w
        → StopsWithin (handle_stream store decode handler none (done ++ bad ∷ rest) w)
    unfolding handle_stream
    poison_stream [] bad rest w a p h =
        let (flow, same) = poison_message bad w p in
        rw (flow, handle_stream) (refl, subst (λ q. IsWithin bound (load q)) (sym same) h.stored)
    poison_stream (m ∷ done) bad rest w a p h =
        let step = handle_message store decode handler none m w in
        let h' = message-HoldsWithin m w a.0 h in
        pick_poison step.0 (handle_stream store decode handler none (done ++ bad ∷ rest) step.1)
          step (unbounded_message m w) refl (poison_stream done bad rest step.1 a.1 p h') h'.stored

    stop_concludes :
        (scale : ℕ → ℕ) (r : Flow × W)
        → StopsWithin r
        → let (flow, w') = after_stream store decode handler r in
          ((conclude store decode handler scale flow w').0 ≡ none)
          × IsWithin bound (load (conclude store decode handler scale flow w').1.positions)
    stop_concludes scale (through, w) h = absurd (cc (h.0))
    stop_concludes scale (returned, w) h = absurd (cc (h.0))
    stop_concludes scale (raised, w) h = (
      refl,
      subst (λ q. IsWithin bound (load q))
          (sym (
            conclude-stored store decode handler (IsWithin bound) (λ lsn. lsn ≤ bound)
              (IsWithin-raise bound) (λ _. Unit) (λ lsn o e h. tt) scale raised w))
          h.1,
    )

    -- Without a limit on the messages, a run over a stream in which one message cannot be processed
    -- raises, and stores no position beyond those of the messages before it, the last one seen
    -- earlier and the one that was stored, whatever follows: the message will come again.
    pub process_poison :
        (scale : ℕ → ℕ) (done : List (Option (Message D))) (bad : Option (Message D))
        (rest : List (Option (Message D))) (w : W)
        → All (LsnWithin bound) done
        → IsPoison bad
        → IsWithin bound (load w.positions)
        → IsWithin bound w.client.last_seen_lsn
        → let (result, w') = process store decode handler scale none (λ _. done ++ bad ∷ rest) w in
          (result ≡ none) × IsWithin bound (load w'.positions)
    unfolding process
    process_poison scale done bad rest w a p stored seen =
        let start : W = record w { processed = 0 } in
        stop_concludes scale (handle_stream store decode handler none (done ++ bad ∷ rest) start) (
          poison_stream done bad rest start a p (record {
            stored = stored;
            persisted = tt;
            seen = within-Seen bound w.client.last_seen_lsn seen;
          }))
