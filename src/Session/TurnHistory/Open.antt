-- ===== src/Session/TurnHistory/Open.antt =====
-- The open turn, while it takes steps (public/native/session/turn-history.js).
use picot.Base.{
  ℕ, zero, suc, ◌-◌, ◌≤◌, ◌≡◌, refl, sym, ap, subst, ◌≢◌, inr, Bool, Option, none, some, List, [],
  ◌∷◌, ◌++◌, arith, nat_beq, if◌then◌else◌, nat_eq, if-both, if-cases, option_elim, option_eq, Text,
  text_eq, length, All, length-append, All-append,
}
use picot.Session.TurnHistory.Turns.{
  running, ok, errored, Step, Target, Turn, new_turn, room, push_step, close_turn, update_at, Build,
  finish, drop_idle, start_turn,
}
use picot.Session.TurnHistory.Closed.{Span, IsOpen, IsClosed, close_turn-IsClosed}
use picot.Session.TurnHistory.Build.{settle}

abbrev pub IsOpen? : ℕ → Option Turn → Type 0
IsOpen? now none = Unit
IsOpen? now (some t) = IsOpen now t

pub record IsBuilt (now : ℕ) (b : Build) : Type 0 where
  pub closed : All IsClosed b.turns
  pub open_turn : IsOpen? now b.turn

pub IsOpen-later : (now later : ℕ) (t : Turn) → now ≤ later → IsOpen now t → IsOpen later t
IsOpen-later now later t l h = record {
  runs = h.runs;
  began = omega (arith, l, h.began);
  few = h.few;
  spans = h.spans;
}

pub IsOpen?-later :
    (now later : ℕ) (o : Option Turn) → now ≤ later → IsOpen? now o → IsOpen? later o
IsOpen?-later now later none l h = tt
IsOpen?-later now later (some t) l h = IsOpen-later now later t l h

pub IsBuilt-later : (now later : ℕ) (b : Build) → now ≤ later → IsBuilt now b → IsBuilt later b
IsBuilt-later now later b l h = record {
  closed = h.closed;
  open_turn = IsOpen?-later now later b.turn l h.open_turn;
}

pub IsBuilt-turn : (now : ℕ) (b : Build) (t : Turn) → IsBuilt now b → b.turn ≡ some t → IsOpen now t
IsBuilt-turn now b t h e = subst (IsOpen? now) e h.open_turn

pub finish-IsBuilt :
    (now later : ℕ) (b : Build)
    → IsBuilt now b
    → IsBuilt later (finish b) × ((finish b).turn ≡ none)
unfolding finish
finish-IsBuilt now later b h =
    option_elim {B = Build} (λ c. IsBuilt later c × (c.turn ≡ none)) b.turn b
      (λ t. record b { turns = b.turns ++ close_turn t ∷ []; turn = none; pending = [] })
      (λ e. (record { closed = h.closed; open_turn = subst (IsOpen? later) (sym e) tt }, e))
      (λ t e.
        let c = close_turn-IsClosed now t (IsBuilt-turn now b t h e) in
        (
          record {
            closed = All-append IsClosed b.turns (close_turn t ∷ []) h.closed (c, tt);
            open_turn = tt;
          },
          refl,
        ))

pub drop_idle-IsBuilt : (now : ℕ) (b : Build) → IsBuilt now b → IsBuilt now (drop_idle b)
unfolding drop_idle
drop_idle-IsBuilt now b h =
    option_elim {B = Build} (IsBuilt now) b.turn b
      (λ t. if nat_beq (length t.steps) 0 then record b { turn = none; index = b.index - 1 } else b)
      (λ e. h)
      (λ t e.
        if-both (IsBuilt now) (nat_beq (length t.steps) 0)
          (record b { turn = none; index = b.index - 1 }) b
          (record { closed = h.closed; open_turn = tt }) h)

pub start_turn-IsBuilt :
    (b : Build) (started : ℕ) (prompt : Text) (target : Target)
    → All IsClosed b.turns
    → IsBuilt started (start_turn b started prompt target)
unfolding new_turn
start_turn-IsBuilt b started prompt target h = record {
  closed = h;
  open_turn = record { runs = refl; began = omega arith; few = omega arith; spans = tt };
}

pub push_step-IsOpen :
    (now : ℕ) (t : Turn) (s : Step)
    → IsOpen now t
    → Span t.started_at s
    → IsOpen now (push_step t s) × ((push_step t s).started_at ≡ t.started_at)
unfolding push_step
push_step-IsOpen now t s h k =
    if-cases (λ (u : Turn). IsOpen now u × (u.started_at ≡ t.started_at)) (room t)
      (record t { steps = t.steps ++ s ∷ [] }) t
      (λ free. (
        record {
          runs = h.runs;
          began = h.began;
          few = ground (arith, free, length-append t.steps (s ∷ []));
          spans = All-append (Span t.started_at) t.steps (s ∷ []) h.spans (k, tt);
        },
        refl,
      ))
      (λ full. (h, refl))

pub settle-Span :
    (from ended : ℕ) (b : Bool) (error : Option Text) (s : Step)
    → Span from s
    → Span from (settle ended b error s)
unfolding settle
settle-Span from ended b error s h = record {
  starts = h.starts;
  forward = omega arith;
  settled = inr (if-both (λ st. st ≢ running) b errored ok (λ c. cc) (λ c. cc));
}

pub update_at-Span :
    (from : ℕ) (f : Step → Step) (i : ℕ) (ss : List Step)
    → ((s : Step) → Span from s → Span from (f s))
    → All (Span from) ss
    → All (Span from) (update_at i f ss) × (length (update_at i f ss) ≡ length ss)
unfolding update_at
update_at-Span from f i [] k h = (tt, refl)
update_at-Span from f zero (s ∷ ss) k h = ((k s h.0, h.1), refl)
update_at-Span from f (suc i) (s ∷ ss) k h =
    let (a, l) = update_at-Span from f i ss k h.1 in ((h.0, a), ap suc l)
