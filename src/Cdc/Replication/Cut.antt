-- ===== src/Cdc/Replication/Cut.antt =====
-- The limit on the messages, when it is met among the changes of one message.
use dbirth.Base.{
  ℕ, ◌+◌, ◌≡◌, refl, ap, Bool, true, false, Option, some, List, [], ◌∷◌, ◌++◌, arith, length,
}
use dbirth.Cdc.Checkpoint.Saves.{raise_to}
use dbirth.Cdc.Replication.Client.{
  CheckpointStore, Message, Flow, returned, World, is_ahead, record_save, persist_checkpoint, see,
  is_full, flow_of, handle_changes, handle_message, handle_stream, process,
}

module _ (store : CheckpointStore) {D C S : Type 0} (decode : Message D → Option (List C))
    (handler : C → S → Bool × S) where
  open store use {load, save}

  abbrev W : Type 0
  W = World store decode handler

  -- The handler returns on each of the changes in turn, and what it leaves behind.
  abbrev pub Accepts : List C → S → Type 0
  Accepts [] s = Unit
  Accepts (c ∷ cs) s = ((handler c s).0 ≡ true) × Accepts cs (handler c s).1

  abbrev pub handle_all : List C → S → S
  handle_all [] s = s
  handle_all (c ∷ cs) s = handle_all cs (handler c s).1

  abbrev cut_world : ℕ → ℕ → S → W → W
  cut_world lsn n s w = see store decode handler lsn (record w { sink = s; processed = n })

  abbrev stopped : Bool × W → Flow × W
  stopped (saved, w) = (flow_of store decode handler returned saved, w)

  cut_changes :
      (n lsn : ℕ) (c : C) (pre post : List C) (w : W)
      → w.processed + length (c ∷ pre) ≡ n
      → Accepts (c ∷ pre) w.sink
      → handle_changes store decode handler (some n) lsn (c ∷ pre ++ post) w
        ≡ stopped (
            persist_checkpoint store decode handler lsn
              (cut_world lsn n (handle_all (c ∷ pre) w.sink) w))
  unfolding handle_changes
  cut_changes n lsn c [] post w e (a, _) =
      let full : is_full store decode handler (some n) (w.processed + 1) ≡ true = ground arith in
      let count : w.processed + 1 ≡ n = omega (arith, e) in
      rw (a, full, handle_changes)
        (ap
          (λ k.
            stopped (
              persist_checkpoint store decode handler lsn (cut_world lsn k (handler c w.sink).1 w)))
          count)
  cut_changes n lsn c (c' ∷ pre) post w e (a, b) =
      let w' : W = record w { sink = (handler c w.sink).1; processed = w.processed + 1 } in
      let more : is_full store decode handler (some n) (w.processed + 1) ≡ false = ground arith in
      rw (a, more, handle_changes) (cut_changes n lsn c' pre post w' (omega (arith, e)) b)

  persist_first :
      (lsn : ℕ) (w : W)
      → is_ahead store decode handler lsn w.client.last_persisted_lsn ≡ true
      → (save lsn w.positions).0 ≡ true
      → persist_checkpoint store decode handler lsn w
        ≡ record_save store decode handler lsn true (save lsn w.positions).1 w
  unfolding persist_checkpoint
  persist_first lsn w fresh saved = rw (fresh, saved, persist_checkpoint)

  module _ (m : Message D) (later : List (Option (Message D))) (c : C) (pre post : List C) (w : W)
      (decoded : decode m ≡ some (c ∷ pre ++ post)) (accepted : Accepts (c ∷ pre) w.sink)
      (fresh : is_ahead store decode handler m.lsn w.client.last_persisted_lsn ≡ true)
      (saved : (save m.lsn w.positions).0 ≡ true) where
    -- Where the loop stops.
    abbrev end_of_cut : W
    end_of_cut =
        (record_save store decode handler m.lsn true (save m.lsn w.positions).1 (
          cut_world m.lsn (length (c ∷ pre)) (handle_all (c ∷ pre) w.sink)
            (record w { processed = 0 }))).1

    cut_message :
        handle_message store decode handler
          (some (length (c ∷ pre)))
          (some m)
          (record w { processed = 0 })
        ≡ (returned, end_of_cut)
    unfolding handle_message
    cut_message =
        let start : W = record w { processed = 0 } in
        let loop = cut_changes (length (c ∷ pre)) m.lsn c pre post start (omega arith) accepted in
        let stop =
          persist_first m.lsn
            (cut_world m.lsn (length (c ∷ pre)) (handle_all (c ∷ pre) w.sink) start) fresh saved in
        rw (decoded, handle_message) (rw (loop, stop) refl)

    -- If the limit is met among the changes of the first message that comes, the handler returns on
    -- each of them up to it, the message lies ahead of the position that the client last persisted, if
    -- there is one, and the store saves, then `process` returns the limit, has handed on the changes up
    -- to it and none of the others, and the stored position covers the whole message.
    pub process_cut :
        (scale : ℕ → ℕ)
        → let (result, w') =
            process store decode handler scale (some (length (c ∷ pre))) (λ _. some m ∷ later) w in
          (result ≡ some (length (c ∷ pre)))
          × (w'.sink ≡ handle_all (c ∷ pre) w.sink)
          × (load w'.positions ≡ some (raise_to m.lsn (load w.positions)))
    unfolding process handle_stream
    process_cut scale = rw (cut_message, process) (refl, refl, store.load-save m.lsn w.positions)
