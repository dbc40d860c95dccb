-- ===== src/Session/Store/Sequence.antt =====
-- The sequence watermark of `reduceSessionState` (public/native/session/session-store.js).
use picot.Base.{
  ℕ, zero, suc, ◌+◌, ◌<◌, ◌≡◌, refl, sym, ap, subst, ◌∙◌, inl, inr, true, false, Option, some, List,
  [], ◌∷◌, ◌++◌, arith, leb, nat_beq, nat_eq, Bool-cases, if-both, option_eq, text_eq,
}
use picot.Transport.Target.{Target, same_target_iff}
use picot.Session.Store.{
  SessionState, Snapshot, RuntimeEvent, Action, runtime_snapshot, runtime_event,
  apply_runtime_event, restore, reduce_own, reduce_session_state, reduce_all,
}

-- The state after the `n` events that follow the watermark, each applied once and in order.
pub applied : (ℕ → RuntimeEvent) → ℕ → SessionState → SessionState
applied log zero s = s
applied log (suc n) s = record (apply_runtime_event (log (s.sequence + suc n)) (applied log n s)) {
  sequence = s.sequence + suc n;
  snapshot_required = false;
}

-- The host's events arrive under their numbers, in any order, late, twice or not at all.
abbrev pub deliveries : (ℕ → RuntimeEvent) → Target → List ℕ → List (Option Target × Action)
deliveries log t [] = []
deliveries log t (k ∷ ks) = (some t, runtime_event k (log k)) ∷ deliveries log t ks

abbrev calm : SessionState → SessionState
calm s = record s { snapshot_required = false }

apply-target : (e : RuntimeEvent) (s : SessionState) → (apply_runtime_event e s).target ≡ s.target
unfolding apply_runtime_event
apply-target e s = ground arith

-- An event taken at the number `n`.
abbrev commit : ℕ → RuntimeEvent → SessionState → SessionState
commit n e s = record (apply_runtime_event e s) { sequence = n; snapshot_required = false }

commit-calm : (n : ℕ) (e : RuntimeEvent) (s : SessionState) → commit n e s ≡ commit n e (calm s)
unfolding apply_runtime_event
commit-calm n e s = ground arith

-- The state `r` has taken exactly the `n` events after the watermark of `s`.
record Caught (log : ℕ → RuntimeEvent) (s r : SessionState) (n : ℕ) : Type 0 where
  sequence : r.sequence ≡ s.sequence + n
  target : r.target ≡ s.target
  state : calm r ≡ calm (applied log n s)

Catches : (ℕ → RuntimeEvent) → SessionState → SessionState → Type 0
Catches log s r = (n : ℕ) × Caught log s r n

deliver_one :
    (log : ℕ → RuntimeEvent) (s r : SessionState) (k n : ℕ)
    → Caught log s r n
    → Catches log s (reduce_own (runtime_event k (log k)) r)
unfolding reduce_own Catches applied
deliver_one log s r k n h = elim (Bool-cases (leb k r.sequence)) [
  | inl old ↦ rw old (n, h)
  | inr new ↦ rw new (elim (Bool-cases (nat_beq k (suc r.sequence))) [
    | inl next ↦
        let here : k ≡ s.sequence + suc n = ground (arith, h.sequence) in
        rw next (
          suc n,
          record {
            sequence = here;
            target = apply-target (log k) r ∙ h.target;
            state =
                commit-calm k (log k) r
                ∙ ap (commit k (log k)) h.state
                ∙ sym (commit-calm k (log k) (applied log n s))
                ∙ ap (λ m. commit m (log m) (applied log n s)) here;
          },
        )
    | inr gap ↦ rw gap (
      n,
      if-both (λ t. Caught log s t n) r.snapshot_required _ _ h
          (record { sequence = h.sequence; target = h.target; state = h.state }),
    )
  ])
]

own_target :
    (a : Action) (t : Target) (s : SessionState)
    → s.target ≡ t
    → reduce_session_state (some t, a) s ≡ reduce_own a s
unfolding reduce_session_state
own_target a t s h = rw ((same_target_iff s.target t).1 h) refl

deliver_all :
    (log : ℕ → RuntimeEvent) (s r : SessionState) (ks : List ℕ) (n : ℕ)
    → Caught log s r n
    → Catches log s (reduce_all (deliveries log s.target ks) r)
unfolding reduce_all Catches
deliver_all log s r [] n h = (n, h)
deliver_all log s r (k ∷ ks) n h =
    let (m, h') = deliver_one log s r k n h in
    subst (λ x. Catches log s (reduce_all (deliveries log s.target ks) x))
      (sym (own_target (runtime_event k (log k)) s.target r h.target))
      (deliver_all log s (reduce_own (runtime_event k (log k)) r) ks m h')

-- However the host's events arrive (out of order, repeated, with gaps), the store has taken some
-- number of the events that follow its watermark, each once, in order and without a gap, and its
-- watermark says how many; only the flag that asks for a snapshot may differ.
pub deliveries_in_sequence :
    (log : ℕ → RuntimeEvent) (s : SessionState) (ks : List ℕ)
    → let r = reduce_all (deliveries log s.target ks) s in
      (n : ℕ) × (r.sequence ≡ s.sequence + n)
      × (record r { snapshot_required = false }
          ≡ record (applied log n s) { snapshot_required = false })
unfolding Catches applied
deliveries_in_sequence log s ks =
    let (n, h) =
      deliver_all log s s ks 0 (record { sequence = omega arith; target = refl; state = refl }) in
    (n, h.sequence, h.state)

-- The numbers of the next `n` events after `m`, in order.
abbrev pub following : ℕ → ℕ → List ℕ
following m zero = []
following m (suc n) = suc m ∷ following (suc m) n

applied_shift :
    (log : ℕ → RuntimeEvent) (n : ℕ) (s : SessionState)
    → applied log n (commit (suc s.sequence) (log (suc s.sequence)) s) ≡ applied log (suc n) s
unfolding applied
applied_shift log zero s = ap (λ m. commit m (log m) s) (omega arith)
applied_shift log (suc n) s =
    let e : suc s.sequence + suc n ≡ s.sequence + suc (suc n) = omega arith in
    ap (λ t. commit (suc s.sequence + suc n) (log (suc s.sequence + suc n)) t)
      (applied_shift log n s)
    ∙ ap (λ m. commit m (log m) (applied log (suc n) s)) e

next_one :
    (log : ℕ → RuntimeEvent) (s : SessionState)
    → reduce_own (runtime_event (suc s.sequence) (log (suc s.sequence))) s
      ≡ commit (suc s.sequence) (log (suc s.sequence)) s
unfolding reduce_own
next_one log s = ground arith

in_order :
    (log : ℕ → RuntimeEvent) (n : ℕ) (s : SessionState) (t : Target)
    → s.target ≡ t
    → reduce_all (deliveries log t (following s.sequence n)) s ≡ applied log n s
unfolding reduce_all applied
in_order log zero s t h = refl
in_order log (suc n) s t h =
    let s' = commit (suc s.sequence) (log (suc s.sequence)) s in
    ap (reduce_all (deliveries log t (following (suc s.sequence) n)))
      (own_target _ t s h ∙ next_one log s)
    ∙ in_order log n s' t (apply-target (log (suc s.sequence)) s ∙ h)
    ∙ applied_shift log n s

-- The events that arrive beyond a gap.
abbrev pub Beyond : ℕ → List ℕ → Type 0
Beyond m [] = Unit
Beyond m (k ∷ ks) = (suc m < k) × Beyond m ks

beyond_gap :
    (log : ℕ → RuntimeEvent) (k : ℕ) (s : SessionState)
    → suc s.sequence < k
    → reduce_own (runtime_event k (log k)) s ≡ record s { snapshot_required = true }
unfolding reduce_own
beyond_gap log k s h = ground arith

Beyond-gaps :
    (log : ℕ → RuntimeEvent) (ks : List ℕ) (s : SessionState)
    → Beyond s.sequence ks
    → s.snapshot_required ≡ true
    → reduce_all (deliveries log s.target ks) s ≡ record s { snapshot_required = true }
unfolding reduce_all
Beyond-gaps log [] s h asked = ground arith
Beyond-gaps log (k ∷ ks) s h asked =
    let flagged = record s { snapshot_required = true } in
    ap (reduce_all (deliveries log s.target ks))
      (own_target _ s.target s refl ∙ beyond_gap log k s h.0)
    ∙ Beyond-gaps log ks flagged h.1 refl

reduce_all-append :
    (as' bs : List (Option Target × Action)) (s : SessionState)
    → reduce_all (as' ++ bs) s ≡ reduce_all bs (reduce_all as' s)
unfolding reduce_all
reduce_all-append [] bs s = refl
reduce_all-append (a ∷ as') bs s = reduce_all-append as' bs (reduce_session_state a s)

-- Events beyond a gap change nothing but raise the flag that asks for a snapshot. The snapshot
-- clears it, and the events that follow the snapshot's number, delivered in order, are then all
-- taken: the store is as if it had been restored without the gap.
pub snapshot_recovers :
    (log : ℕ → RuntimeEvent) (s : SessionState) (k : ℕ) (ks : List ℕ) (m n : ℕ) (p : Snapshot)
    → Beyond s.sequence (k ∷ ks)
    → let stalled = reduce_all (deliveries log s.target (k ∷ ks)) s in
      (stalled ≡ record s { snapshot_required = true })
      × (reduce_all
            ((some s.target, runtime_snapshot m p) ∷ deliveries log s.target (following m n))
            stalled
          ≡ applied log n (restore m p s))
unfolding reduce_all reduce_own restore
snapshot_recovers log s k ks m n p h =
    let flagged = record s { snapshot_required = true } in
    let stalls =
      ap (reduce_all (deliveries log s.target ks))
        (own_target (runtime_event k (log k)) s.target s refl ∙ beyond_gap log k s h.0)
      ∙ Beyond-gaps log ks flagged h.1 refl in
    (
      stalls,
      ap
            (reduce_all
              ((some s.target, runtime_snapshot m p) ∷ deliveries log s.target (following m n)))
            stalls
          ∙ ap (reduce_all (deliveries log s.target (following m n)))
              (own_target (runtime_snapshot m p) s.target flagged refl)
          ∙ in_order log n (restore m p s) s.target refl,
    )
