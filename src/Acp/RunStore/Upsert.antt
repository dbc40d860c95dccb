-- ===== src/Acp/RunStore/Upsert.antt =====
-- The list of runs of a session under one write: public/native/acp/subagent-store.js.
use picot.Base.{
  ℕ, zero, suc, ◌-◌, ◌≤◌, ◌≡◌, refl, sym, ap, ◌∙◌, inl, inr, Option, none, some, List, [], ◌∷◌,
  ◌++◌, append_assoc, append-nil, arith, ltb, if◌then◌else◌, ◌==◌, nat_eq, ==_refl, Bool-cases,
  Option-cases, if-both, option_eq, Text, text_beq_iff, text_eq, length, drop, length-append,
  length-drop, is_some,
}
use picot.JsMap.{get, set, values, get-append, set_new}
use picot.Acp.RunStore.{RunRecord, max_runs_per_session, by_id, cap}

-- The run with the id.
unfoldable pub run_of : Text → List RunRecord → Option RunRecord
run_of id [] = none
run_of id (r ∷ rs) = if r.id == id then some r else run_of id rs

-- Every id stands once.
abbrev pub Unique : List RunRecord → Type 0
Unique [] = Unit
Unique (r ∷ rs) = (run_of r.id rs ≡ none) × Unique rs

-- The list with the record in the place of the one with its id, or else at the end.
pub upsert : RunRecord → List RunRecord → List RunRecord
upsert x [] = x ∷ []
upsert x (r ∷ rs) = if r.id == x.id then x ∷ rs else r ∷ upsert x rs

abbrev pub pairs : List RunRecord → List (Text × RunRecord)
pairs [] = []
pairs (r ∷ rs) = (r.id, r) ∷ pairs rs

-- No id of the list is a key of the table.
abbrev pub Apart : List RunRecord → List (Text × RunRecord) → Type 0
Apart [] m = Unit
Apart (r ∷ rs) m = (get r.id m ≡ none) × Apart rs m

get_one : (k : Text) (r : RunRecord) → get k ((r.id, r) ∷ []) ≡ (if r.id == k then some r else none)
unfolding get
get_one k r = refl

Apart-append :
    (rs : List RunRecord) (r : RunRecord) (m : List (Text × RunRecord))
    → run_of r.id rs ≡ none
    → Apart rs m
    → Apart rs (m ++ (r.id, r) ∷ [])
unfolding run_of
Apart-append [] r m h a = tt
Apart-append (x ∷ rs) r m h a = (
  ground (
    arith,
    get-append x.id m ((r.id, r) ∷ []),
    get_one x.id r,
    text_beq_iff x.id r.id,
    text_beq_iff r.id x.id,
  ),
  Apart-append rs r m (ground arith) a.1,
)

pub by_id_lem :
    (rs : List RunRecord) (m : List (Text × RunRecord))
    → Unique rs
    → Apart rs m
    → by_id rs m ≡ m ++ pairs rs
unfolding by_id
by_id_lem [] m u a = sym (append-nil m)
by_id_lem (r ∷ rs) m u a =
    ap (by_id rs) (set_new r.id r m a.0)
    ∙ by_id_lem rs (m ++ (r.id, r) ∷ []) u.1 (Apart-append rs r m u.0 a.1)
    ∙ append_assoc m ((r.id, r) ∷ []) (pairs rs)

pub Apart-nil : (rs : List RunRecord) → Apart rs []
unfolding get
Apart-nil [] = tt
Apart-nil (r ∷ rs) = (refl, Apart-nil rs)

values-pairs : (rs : List RunRecord) → values (pairs rs) ≡ rs
values-pairs [] = refl
values-pairs (r ∷ rs) = ap (◌∷◌ r) (values-pairs rs)

pub values-set :
    (x : RunRecord) (rs : List RunRecord) → values (set x.id x (pairs rs)) ≡ upsert x rs
unfolding set upsert
values-set x [] = refl
values-set x (r ∷ rs) = ground (arith, values-set x rs, values-pairs rs)

pub run_of-upsert :
    (x : RunRecord) (id : Text) (rs : List RunRecord)
    → run_of id (upsert x rs) ≡ (if x.id == id then some x else run_of id rs)
unfolding run_of upsert
run_of-upsert x id [] = refl
run_of-upsert x id (r ∷ rs) = ground (
  arith,
  text_beq_iff x.id id,
  text_beq_iff r.id x.id,
  text_beq_iff r.id id,
  run_of-upsert x id rs,
)

pub upsert-Unique : (x : RunRecord) (rs : List RunRecord) → Unique rs → Unique (upsert x rs)
unfolding upsert
upsert-Unique x [] u = (unfold run_of in refl, tt)
upsert-Unique x (r ∷ rs) u = ground (
  arith,
  text_beq_iff r.id x.id,
  text_beq_iff x.id r.id,
  run_of-upsert x r.id rs,
  upsert-Unique x rs u.1,
)

length-upsert :
    (x : RunRecord) (rs : List RunRecord)
    → length (upsert x rs) ≡ (if is_some (run_of x.id rs) then length rs else suc (length rs))
unfolding run_of upsert
length-upsert x [] = refl
length-upsert x (r ∷ rs) = ground (arith, length-upsert x rs)

upsert_new :
    (x : RunRecord) (rs : List RunRecord) → run_of x.id rs ≡ none → upsert x rs ≡ rs ++ x ∷ []
unfolding run_of upsert
upsert_new x [] h = refl
upsert_new x (r ∷ rs) h = ground (arith, upsert_new x rs)

run_of_end :
    (x : RunRecord) (rs : List RunRecord) (n : ℕ)
    → run_of x.id rs ≡ none
    → run_of x.id (drop n rs ++ x ∷ []) ≡ some x
unfolding run_of
run_of_end x [] zero h = ground (arith, text_beq_iff x.id x.id)
run_of_end x [] (suc n) h = ground (arith, text_beq_iff x.id x.id)
run_of_end x (r ∷ rs) zero h = ground (arith, run_of_end x rs zero)
run_of_end x (r ∷ rs) (suc n) h = ground (arith, run_of_end x rs n)

drop-append {ℓ} :
    {A : Type ℓ} (n : ℕ) (xs ys : List A) → n ≤ length xs → drop n (xs ++ ys) ≡ drop n xs ++ ys
drop-append zero xs ys h = refl
drop-append (suc n) [] ys h = absurd (omega arith)
drop-append (suc n) (x ∷ xs) ys h = drop-append n xs ys (omega arith)

cap_short : (l : List RunRecord) → length l ≤ max_runs_per_session → cap l ≡ l
unfolding cap
cap_short l h = ground arith

cap_long : (l : List RunRecord) → length l ≡ suc max_runs_per_session → cap l ≡ drop 1 l
unfolding cap
cap_long l h = rw h refl

cap_new :
    (x : RunRecord) (rs : List RunRecord)
    → length rs ≤ max_runs_per_session
    → cap (rs ++ x ∷ []) ≡ drop (suc (length rs) - max_runs_per_session) rs ++ x ∷ []
cap_new x rs h =
    let long = length-append rs (x ∷ []) in
    elim (Bool-cases (ltb (length rs) max_runs_per_session)) [
      | inl room ↦
          let none_over : 0 ≡ suc (length rs) - max_runs_per_session = ground arith in
          cap_short (rs ++ x ∷ []) (ground (arith, long)) ∙ ap (λ n. drop n rs ++ x ∷ []) none_over
      | inr full ↦
          let one_over : 1 ≡ suc (length rs) - max_runs_per_session = ground arith in
          cap_long (rs ++ x ∷ []) (ground (arith, long))
          ∙ drop-append 1 rs (x ∷ []) (ground arith)
          ∙ ap (λ n. drop n rs ++ x ∷ []) one_over
    ]

-- A record is written in the place of the one with its id. A new one goes to the end, and pushes
-- the oldest out if the list was full.
pub cap-upsert :
    (x : RunRecord) (rs : List RunRecord)
    → length rs ≤ max_runs_per_session
    → cap (upsert x rs) ≡ (
        if is_some (run_of x.id rs)
        then upsert x rs
        else drop (suc (length rs) - max_runs_per_session) rs ++ x ∷ [])
cap-upsert x rs h = elim (Option-cases (run_of x.id rs)) [
  | inl fresh ↦ rw (upsert_new x rs fresh, fresh) (cap_new x rs h)
  | inr (r, old) ↦ rw old (cap_short (upsert x rs) (ground (arith, length-upsert x rs)))
]

run_of-drop :
    (id : Text) (n : ℕ) (rs : List RunRecord) → run_of id rs ≡ none → run_of id (drop n rs) ≡ none
unfolding run_of
run_of-drop id zero rs h = h
run_of-drop id (suc n) [] h = h
run_of-drop id (suc n) (r ∷ rs) h = run_of-drop id n rs (ground arith)

drop-Unique : (n : ℕ) (rs : List RunRecord) → Unique rs → Unique (drop n rs)
drop-Unique zero rs u = u
drop-Unique (suc n) [] u = u
drop-Unique (suc n) (r ∷ rs) u = drop-Unique n rs u.1

pub cap-Unique : (l : List RunRecord) → Unique l → Unique (cap l)
unfolding cap
cap-Unique l u = if-both Unique _ _ _ (drop-Unique (length l - max_runs_per_session) l u) u

pub length-cap : (l : List RunRecord) → length (cap l) ≤ max_runs_per_session
unfolding cap
length-cap l = ground (arith, length-drop (length l - max_runs_per_session) l)

pub run_of-cap :
    (x : RunRecord) (rs : List RunRecord)
    → length rs ≤ max_runs_per_session
    → run_of x.id (cap (upsert x rs)) ≡ some x
run_of-cap x rs h = elim (Option-cases (run_of x.id rs)) [
  | inl fresh ↦
      rw (cap-upsert x rs h, fresh) (run_of_end x rs (suc (length rs) - max_runs_per_session) fresh)
  | inr (r, old) ↦ rw (cap-upsert x rs h, old) (run_of-upsert x x.id rs ∙ rw (==_refl x.id) refl)
]
