-- ===== src/Cdc/Debounce/Flush.antt =====
-- `flush_due` against its description: the entries that have been quiet for the window leave the
-- buffer, in the order in which their keys came, and the others stay.
use mathlib.Core.Path.{subst}
use native.Mathlib.Nat.{le_trans}
use dbirth.Base.{
  ℕ, ◌+◌, ◌≤◌, String, ◌≡◌, refl, ap, sym, ◌∙◌, true, false, some, List, [], ◌∷◌, ◌++◌, arith,
  length, Bool-cases, inl, inr, if◌then◌else◌, append_assoc, ite,
}
use dbirth.Base.Dict.{Dict, get, remove, keys, contains, IsDistinct, string_key, String-discrete}
use dbirth.Base.Dict.Keys.{AllEntries, remove_absent}
use dbirth.Cdc.Debounce.{DebounceEntry, DebounceBuffer, Emission, remove_first}
use dbirth.Cdc.Debounce.Due.{
  is_due, due_keys, emission, flush_keys, report_flush, flush_due, sort_by_sequence,
}
use dbirth.Cdc.Debounce.Sequence.{remove_first-keys, sort_due}
use dbirth.Cdc.Debounce.Cap.{IsNamed}
use dbirth.Cdc.Debounce.Invariant.{IsValid}

module _ {V : Type 0} where
  contains-insert :
      (j k : String) (v : V) (pre d : Dict String V)
      → contains j (keys (pre ++ (k, v) ∷ d))
        ≡ ite (String-discrete k j) true (contains j (keys (pre ++ d)))
  unfolding contains
  contains-insert j k v [] d = refl
  contains-insert j k v (x ∷ pre) d = ground (arith, contains-insert j k v pre d)

  contains-middle :
      (k : String) (v : V) (pre d : Dict String V)
      → IsDistinct (keys (pre ++ (k, v) ∷ d))
      → (contains k (keys pre) ≡ false)
        × (contains k (keys d) ≡ false)
        × IsDistinct (keys (pre ++ d))
  unfolding contains
  contains-middle k v [] d u = (refl, u.0, u.1)
  contains-middle k v (x ∷ pre) d u =
      let (a, b, c) = contains-middle k v pre d u.1 in
      (
        ground (arith, contains-insert x.0 k v pre d),
        b,
        (ground (arith, contains-insert x.0 k v pre d), c),
      )

  get-middle :
      (k : String) (v : V) (pre d : Dict String V)
      → contains k (keys pre) ≡ false
      → get k (pre ++ (k, v) ∷ d) ≡ some v
  unfolding get contains
  get-middle k v [] d h = ground arith
  get-middle k v (x ∷ pre) d h = ground (arith, get-middle k v pre d)

  remove-middle :
      (k : String) (v : V) (pre d : Dict String V)
      → contains k (keys pre) ≡ false
      → contains k (keys d) ≡ false
      → remove k (pre ++ (k, v) ∷ d) ≡ pre ++ d
  unfolding remove contains
  remove-middle k v [] d h g = ground (arith, remove_absent k d g)
  remove-middle k v (x ∷ pre) d h g = ground (arith, remove-middle k v pre d)

module _ {V X : Type 0} (current window : ℕ) where
  -- The entries that stay, and the payloads of those that leave.
  abbrev pub waiting : Dict String (DebounceEntry V X) → Dict String (DebounceEntry V X)
  waiting [] = []
  waiting (x ∷ d) = if is_due current window x.1 then waiting d else x ∷ waiting d

  abbrev pub ready : Dict String (DebounceEntry V X) → List (Emission V X)
  ready [] = []
  ready (x ∷ d) = if is_due current window x.1 then emission x.0 x.1 ∷ ready d else ready d

  flush_keys-cons :
      (k : String) (ks : List String) (b b' : DebounceBuffer V X) (e : DebounceEntry V X)
      (rest : List String) (out : List (Emission V X))
      → get k b.entries ≡ some e
      → remove_first k b.sequence ≡ some rest
      → flush_keys ks (record b { entries = remove k b.entries; sequence = rest }) ≡ some (b', out)
      → flush_keys (k ∷ ks) b ≡ some (b', emission k e ∷ out)
  unfolding flush_keys
  flush_keys-cons k ks b b' e rest out g r f = ground arith

  -- A buffer with other entries, and its sequence in step.
  abbrev with_entries : DebounceBuffer V X → Dict String (DebounceEntry V X) → DebounceBuffer V X
  with_entries b d = record b { entries = d; sequence = keys d }

  flush_all :
      (b : DebounceBuffer V X) (pre d : Dict String (DebounceEntry V X))
      → IsDistinct (keys (pre ++ d))
      → flush_keys (due_keys current window d) (with_entries b (pre ++ d))
        ≡ some (with_entries b (pre ++ waiting d), ready d)
  unfolding due_keys
  flush_all b pre [] u = unfold flush_keys in refl
  flush_all b pre ((k, e) ∷ d) u = elim (Bool-cases (is_due current window e)) [
    | inl due ↦
        let (before, after, rest) = contains-middle k e pre d u in
        let found = get-middle k e pre d before in
        let gone = remove-middle k e pre d before after in
        let removed = remove_first-keys k e (pre ++ (k, e) ∷ d) u found in
        rw (due, due_keys)
          (flush_keys-cons k (due_keys current window d) (with_entries b (pre ++ (k, e) ∷ d))
            (with_entries b (pre ++ waiting d)) e (keys (remove k (pre ++ (k, e) ∷ d))) (ready d)
            found removed
            (subst
              (λ l.
                flush_keys (due_keys current window d) (with_entries b l)
                ≡ some (with_entries b (pre ++ waiting d), ready d))
              (sym gone) (flush_all b pre d rest)))
    | inr quiet ↦
        let shift = append_assoc pre ((k, e) ∷ []) d in
        let shift' = append_assoc pre ((k, e) ∷ []) (waiting d) in
        rw (quiet, due_keys)
          (subst
            (λ l.
              flush_keys (due_keys current window d) (with_entries b l)
              ≡ some (with_entries b (pre ++ (k, e) ∷ waiting d), ready d))
            shift
            (flush_all b (pre ++ (k, e) ∷ []) d (subst (λ l. IsDistinct (keys l)) (sym shift) u)
              ∙ ap (λ l. some (with_entries b l, ready d)) shift'))
  ]

  contains-waiting :
      (k : String) (d : Dict String (DebounceEntry V X))
      → contains k (keys d) ≡ false
      → contains k (keys (waiting d)) ≡ false
  unfolding contains
  contains-waiting k [] h = refl
  contains-waiting k (x ∷ d) h = ground (arith, contains-waiting k d)

  waiting-IsDistinct :
      (d : Dict String (DebounceEntry V X)) → IsDistinct (keys d) → IsDistinct (keys (waiting d))
  waiting-IsDistinct [] u = tt
  waiting-IsDistinct (x ∷ d) u =
      ground (arith, waiting-IsDistinct d u.1, contains-waiting x.0 d u.0)

  waiting-IsNamed :
      (d : Dict String (DebounceEntry V X)) → AllEntries IsNamed d → AllEntries IsNamed (waiting d)
  waiting-IsNamed [] n = tt
  waiting-IsNamed (x ∷ d) n = ground (arith, waiting-IsNamed d n.1)

  length-ready-waiting :
      (d : Dict String (DebounceEntry V X)) → length (ready d) + length (waiting d) ≡ length d
  length-ready-waiting [] = refl
  length-ready-waiting (x ∷ d) = ground (arith, length-ready-waiting d)

  length-waiting : (d : Dict String (DebounceEntry V X)) → length (waiting d) ≤ length d
  length-waiting d = omega (arith, length-ready-waiting d)

module _ {V X : Type 0} where
  report_flush-IsValid :
      (ks : List String) (b : DebounceBuffer V X) → IsValid b → IsValid (report_flush ks b)
  unfolding report_flush
  report_flush-IsValid [] b v = v
  report_flush-IsValid (k ∷ ks) b v = record {
    aligned = record {
      distinct = v.aligned.distinct;
      in_step = v.aligned.in_step;
      named = v.aligned.named;
    };
    within = v.within;
  }

  entries-report_flush :
      (ks : List String) (b : DebounceBuffer V X) → (report_flush ks b).entries ≡ b.entries
  unfolding report_flush
  entries-report_flush [] b = refl
  entries-report_flush (k ∷ ks) b = refl

  flush_due-found :
      (current : ℕ) (b b' : DebounceBuffer V X) (ks : List String) (out : List (Emission V X))
      → sort_by_sequence b.sequence (due_keys current b.window_seconds b.entries) ≡ some ks
      → flush_keys ks b ≡ some (b', out)
      → flush_due current b ≡ some (report_flush ks b', out)
  unfolding flush_due
  flush_due-found current b b' ks out s f = ground arith

  -- On a valid buffer a flush never raises. It returns the payloads of exactly the entries whose
  -- last update is at least the window ago, in the order of their first updates; exactly the others
  -- stay, none is lost, and the buffer is valid after it.
  pub flush_due_exact :
      (current : ℕ) (b : DebounceBuffer V X)
      → IsValid b
      → (b' : DebounceBuffer V X) × (flush_due current b
          ≡ some (b', ready current b.window_seconds b.entries))
        × (b'.entries ≡ waiting current b.window_seconds b.entries)
        × IsValid b'
        × (length (ready current b.window_seconds b.entries) + length b'.entries ≡ length b.entries)
  flush_due_exact current b v =
      let window = b.window_seconds in
      let ks = due_keys current window b.entries in
      let after : DebounceBuffer V X = record b {
        entries = waiting current window b.entries;
        sequence = keys (waiting current window b.entries);
      } in
      let distinct = v.aligned.distinct in
      let in_step = v.aligned.in_step in
      let ordered : sort_by_sequence b.sequence ks ≡ some ks =
        subst (λ l. sort_by_sequence l ks ≡ some ks) (sym in_step)
          (sort_due current window b.entries distinct) in
      let taken : flush_keys ks b ≡ some (after, ready current window b.entries) =
        subst
          (λ l.
            flush_keys ks (record b { sequence = l })
            ≡ some (after, ready current window b.entries))
          (sym in_step) (flush_all current window b [] b.entries distinct) in
      let valid : IsValid after = record {
        aligned = record {
          distinct = waiting-IsDistinct current window b.entries distinct;
          in_step = refl;
          named = waiting-IsNamed current window b.entries v.aligned.named;
        };
        within = le_trans (length-waiting current window b.entries) v.within;
      } in
      let same = entries-report_flush ks after in
      (
        report_flush ks after,
        flush_due-found current b after ks _ ordered taken,
        same,
        report_flush-IsValid ks after valid,
        rw same (length-ready-waiting current window b.entries),
      )
