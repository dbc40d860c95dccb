-- ===== src/Session/TurnHistory/Order.antt =====
-- The entries come in the order of their start (public/native/session/turn-history.js).
use picot.Base.{
  ℕ, ◌≤◌, max, subst, Option, none, some, List, [], ◌∷◌, arith, leb, if◌then◌else◌, ◌==◌, nat_eq,
  if-both, if-cases, option_elim, option_eq, Text, codes, text_eq, All, or_default, or_option,
  truthy?,
}
use picot.Session.TurnHistory.{Message, Entry}
use picot.Session.TurnHistory.Entries.{
  Normal, insert_by_start, sort_by_start, to_epoch_ms, prompt_message, normalize_message,
  normalize_entry, normalized,
}

module _ {A : Type 0} where
  -- Each entry starts no earlier than the one before it, and ends no earlier than it starts.
  abbrev pub Rising : ℕ → List (Normal A) → Type 0
  Rising from [] = Unit
  Rising from (n ∷ ns) =
      (from ≤ n.started_at) × ((n.started_at ≤ n.ended_at) × Rising n.started_at ns)

  abbrev Forward : Normal A → Type 0
  Forward n = n.started_at ≤ n.ended_at

  insert_by_start-Rising :
      (from : ℕ) (n : Normal A) (ms : List (Normal A))
      → from ≤ n.started_at
      → Forward n
      → Rising from ms
      → Rising from (insert_by_start n ms)
  unfolding insert_by_start
  insert_by_start-Rising from n [] l f h = (l, (f, tt))
  insert_by_start-Rising from n (m ∷ ms) l f h =
      if-cases (Rising from) (leb n.started_at m.started_at) (n ∷ m ∷ ms) (m ∷ insert_by_start n ms)
        (λ e. (l, (f, (ground (arith, e), h.1))))
        (λ e. (h.0, (h.1.0, insert_by_start-Rising m.started_at n ms (ground (arith, e)) f h.1.1)))

  pub sort_by_start-Rising : (ns : List (Normal A)) → All Forward ns → Rising 0 (sort_by_start ns)
  unfolding sort_by_start
  sort_by_start-Rising [] h = tt
  sort_by_start-Rising (n ∷ ns) h =
      insert_by_start-Rising 0 n (sort_by_start ns) (omega arith) h.0 (sort_by_start-Rising ns h.1)

  -- An entry that is there ends no earlier than it starts.
  abbrev Forward? : Option (Normal A) → Type 0
  Forward? none = Unit
  Forward? (some n) = Forward n

  module _ (parse_date : Text → Option ℕ) where
    normalize_message-Forward :
        (e : Entry A) (m : Message A) → Forward? (normalize_message parse_date e m)
    unfolding normalize_message
    normalize_message-Forward e m =
        let ended =
          or_option (to_epoch_ms parse_date e.timestamp) (to_epoch_ms parse_date m.timestamp) in
        let started = or_option (to_epoch_ms parse_date m.timestamp) ended in go started ended
      where
        go :
            (started ended : Option ℕ)
            → Forward? (elim started as (λ _. Option (Normal A)) [
              | none ↦ none
              | some s ↦ elim ended as (λ _. Option (Normal A)) [
                | none ↦ none
                | some d ↦
                    if truthy? m.role
                    then some (record {
                      role = or_default m.role [];
                      message = m;
                      started_at = s;
                      ended_at = max s d;
                    })
                    else none
              ]
            ])
        go none ended = tt
        go (some s) none = tt
        go (some s) (some d) =
            if-both Forward? (truthy? m.role)
              (some (record {
                role = or_default m.role [];
                message = m;
                started_at = s;
                ended_at = max s d;
              }))
              none (omega arith) tt

    normalize_entry-Forward : (e : Entry A) → Forward? (normalize_entry parse_date e)
    unfolding normalize_entry
    normalize_entry-Forward e =
        let prompt : Option (Normal A) = elim (to_epoch_ms parse_date e.timestamp) [
          | none ↦ none
          | some at ↦ some (record {
            role = codes "prompt";
            message = prompt_message e.content;
            started_at = at;
            ended_at = at;
          })
        ] in
        let message : Option (Normal A) = elim e.message [
          | none ↦ none
          | some m ↦ normalize_message parse_date e m
        ] in
        if-both Forward? (e.kind == codes "custom_message") prompt
          (if e.kind == codes "message" then message else none)
          (option_elim {B = Option (Normal A)} Forward? (to_epoch_ms parse_date e.timestamp) none
            (λ at. some (record {
              role = codes "prompt";
              message = prompt_message e.content;
              started_at = at;
              ended_at = at;
            }))
            (λ missing. tt) (λ at found. omega arith))
          (if-both Forward? (e.kind == codes "message") message none
            (option_elim {B = Option (Normal A)} Forward? e.message none
              (λ m. normalize_message parse_date e m) (λ missing. tt)
              (λ m found. normalize_message-Forward e m))
            tt)

    pub normalized-Forward : (es : List (Entry A)) → All Forward (normalized parse_date es)
    unfolding normalized
    normalized-Forward [] = tt
    normalized-Forward (e ∷ es) =
        let rest = normalized-Forward es in
        let here = normalize_entry-Forward e in
        option_elim {B = List (Normal A)} (All Forward) (normalize_entry parse_date e)
          (normalized parse_date es) (λ n. n ∷ normalized parse_date es) (λ missing. rest)
          (λ n found. (subst Forward? found here, rest))
