-- ===== src/Session/TurnHistory/Branch.antt =====
-- Branches of a log (public/native/session/turn-history.js).
use picot.Base.{
  ℕ, ◌≤◌, ◌<◌, ◌≡◌, refl, sym, ap, subst, ◌∙◌, inl, inr, true, false, not, ◌||◌, Option, none, some,
  List, [], ◌∷◌, arith, if◌then◌else◌, ◌==◌, nat_eq, ==_refl, ==_iff, Bool-cases, if-cases,
  option_eq, Text, text_eq, length, keep, last, truthy, or_option, text_beq_iff,
}
use picot.JsMap.{get, set, get-set}
use picot.Session.TurnHistory.{Entry, by_id, parent, visited, with_id}

module _ {A : Type 0} where
  -- The last entry of the log with the id `k`.
  abbrev pub named : List (Entry A) → Text → Option (Entry A)
  named entries k = last (keep (λ x. x.id == k) entries)

  -- The entry of the log that `e` names as its parent.
  abbrev pub parent_in : List (Entry A) → Entry A → Option (Entry A)
  parent_in entries e = elim e.parent_id [
    | none ↦ none
    | some p ↦ if truthy p then named entries p else none
  ]

  -- The parent of each entry after the first one is the entry before it.
  unfoldable pub Rising : (Entry A → Option (Entry A)) → List (Entry A) → Type 0
  Rising up [] = Unit
  Rising up (a ∷ []) = Unit
  Rising up (a ∷ b ∷ es) = (up b ≡ some a) × Rising up (b ∷ es)

  -- The first entry has no parent, or its parent stands in the chain already: the log has a cycle.
  unfoldable pub Stops : (Entry A → Option (Entry A)) → List (Entry A) → Type 0
  Stops up [] = Unit
  Stops up (a ∷ es) = elim (up a) [ none ↦ Unit | some d ↦ visited d.id (a ∷ es) ≡ true ]

  unfoldable pub Distinct : List (Entry A) → Type 0
  Distinct [] = Unit
  Distinct (a ∷ es) = (visited a.id es ≡ false) × Distinct es

  -- The entry to come is the parent of the chain's first one.
  abbrev pub Above : (Entry A → Option (Entry A)) → Option (Entry A) → List (Entry A) → Type 0
  Above up current [] = Unit
  Above up current (a ∷ es) = up a ≡ current

  -- Every entry of the map has its key as id, and is in the list.
  pub record Indexed (m : List (Text × Entry A)) (list : List (Entry A)) : Type 0 where
    pub found : (k : Text) (e : Entry A) → get k m ≡ some e → (e.id ≡ k) × (visited k list ≡ true)

  pub visited_later :
      (k : Text) (e : Entry A) (es : List (Entry A))
      → visited k es ≡ true
      → visited k (e ∷ es) ≡ true
  visited_later k e es h = ground (arith, h)

  pub by_id-Indexed :
      (m : List (Text × Entry A)) (es list : List (Entry A))
      → Indexed m list
      → ((k : Text) → visited k es ≡ true → visited k list ≡ true)
      → Indexed (by_id m es) list
  unfolding by_id
  by_id-Indexed m [] list h sub = h
  by_id-Indexed m (e ∷ es) list h sub =
      let here : visited e.id list ≡ true =
        sub e.id (ap (λ b. b || visited e.id es) (==_refl e.id)) in
      let P : Text → Option (Entry A) → Type 0 =
        λ k o. (d : Entry A) → o ≡ some d → (d.id ≡ k) × (visited k list ≡ true) in
      let next : Indexed (set e.id e m) list = record {
        found = λ k. subst (P k) (sym (get-set e.id k e m)) (
            if-cases (P k) (e.id == k) (some e) (get k m)
              (λ same d eq.
                let id_k : e.id ≡ k = (==_iff e.id k).0 same in
                let id_d : d.id ≡ e.id = ground (arith, eq) in
                (id_d ∙ id_k, subst (λ i. visited i list ≡ true) id_k here))
              (λ differs. h.found k));
      } in
      by_id-Indexed (set e.id e m) es list next (λ k v. sub k (visited_later k e es v))

  -- The entries that the loop has not reached.
  abbrev pub unvisited : List (Entry A) → List (Entry A) → ℕ
  unvisited chain list = length (keep (λ x. not (visited x.id chain)) list)

  pub unvisited-le :
      (e : Entry A) (chain list : List (Entry A))
      → unvisited (e ∷ chain) list ≤ unvisited chain list
  unvisited-le e chain [] = omega arith
  unvisited-le e chain (x ∷ list) = ground (arith, unvisited-le e chain list)

  pub unvisited-lt :
      (e : Entry A) (chain list : List (Entry A))
      → visited e.id chain ≡ false
      → visited e.id list ≡ true
      → unvisited (e ∷ chain) list < unvisited chain list
  unvisited-lt e chain [] new h = cc
  unvisited-lt e chain (x ∷ list) new h =
      let fewer = unvisited-le e chain list in
      elim (Bool-cases (x.id == e.id)) [
        | inl hit ↦
            let same : x.id ≡ e.id = (==_iff x.id e.id).0 hit in
            let back : (e.id == x.id) ≡ true = (==_iff e.id x.id).1 (sym same) in
            let unseen : visited x.id chain ≡ false = ap (λ i. visited i chain) same ∙ new in
            ground (arith, back, unseen, fewer)
        | inr miss ↦
            let rest = unvisited-lt e chain list new (ground (arith, miss, h)) in
            ground (arith, rest)
      ]

  -- What the loop returns: a whole branch without repetitions that ends in the entry it ended in.
  pub record Branch (up : Entry A → Option (Entry A)) (c : List (Entry A)) (leaf : Option (Entry A))
      : Type 0 where
    pub rising : Rising up c
    pub stops : Stops up c
    pub distinct : Distinct c
    pub ends : last c ≡ leaf

  pub Rising-cons :
      (up : Entry A → Option (Entry A)) (e : Entry A) (chain : List (Entry A))
      → Above up (some e) chain
      → Rising up chain
      → Rising up (e ∷ chain)
  unfolding Rising
  Rising-cons up e [] a h = tt
  Rising-cons up e (b ∷ es) a h = (a, h)

  pub Stops-none :
      (up : Entry A → Option (Entry A)) (chain : List (Entry A))
      → Above up none chain
      → Stops up chain
  unfolding Stops
  Stops-none up [] a = tt
  Stops-none up (b ∷ es) a = rw (Stops, a) tt

  pub Stops-visited :
      (up : Entry A → Option (Entry A)) (e : Entry A) (chain : List (Entry A))
      → Above up (some e) chain
      → visited e.id chain ≡ true
      → Stops up chain
  unfolding Stops
  Stops-visited up e [] a seen = tt
  Stops-visited up e (b ∷ es) a seen = rw (Stops, a) seen

  last-cons : (e : Entry A) (es : List (Entry A)) → last (e ∷ es) ≡ or_option (last es) (some e)
  last-cons e [] = refl
  last-cons e (a ∷ []) = refl
  last-cons e (a ∷ b ∷ es) = ground (arith, last-cons e (b ∷ es), last-cons a (b ∷ es))

  by_id-get :
      (k : Text) (m : List (Text × Entry A)) (es : List (Entry A))
      → get k (by_id m es) ≡ or_option (named es k) (get k m)
  unfolding by_id
  by_id-get k m [] = refl
  by_id-get k m (e ∷ es) = ground (
    arith,
    by_id-get k (set e.id e m) es,
    get-set e.id k e m,
    last-cons e (keep (λ x. x.id == k) es),
    or_assoc (named es k) e (get k m),
  )
    where
      or_assoc :
          (o : Option (Entry A)) (e : Entry A) (p : Option (Entry A))
          → or_option (or_option o (some e)) p ≡ or_option o (some e)
      or_assoc none e p = refl
      or_assoc (some d) e p = refl

  keep-with_id :
      (k : Text) (es : List (Entry A))
      → truthy k ≡ true
      → keep (λ x. x.id == k) (with_id es) ≡ keep (λ x. x.id == k) es
  keep-with_id k [] t = refl
  keep-with_id k (e ∷ es) t = ground (arith, keep-with_id k es t, text_beq_iff e.id k)

  -- The map of the log finds the last entry with an id.
  pub get-named :
      (k : Text) (entries : List (Entry A))
      → truthy k ≡ true
      → get k (by_id [] (with_id entries)) ≡ named entries k
  unfolding get
  get-named k entries t =
      ground (
        arith,
        by_id-get k [] (with_id entries),
        keep-with_id k entries t,
        or_none (named entries k),
      )
    where
      or_none : (o : Option (Entry A)) → or_option o none ≡ o
      or_none none = refl
      or_none (some d) = refl

  pub parent-parent_in :
      (entries : List (Entry A)) (e : Entry A)
      → parent (by_id [] (with_id entries)) e ≡ parent_in entries e
  parent-parent_in entries e = same_parent e.parent_id
    where
      same_parent :
          (o : Option Text)
          → (elim o as (λ _. Option (Entry A)) [
            | none ↦ none
            | some p ↦ if truthy p then get p (by_id [] (with_id entries)) else none
          ])
            ≡ (elim o as (λ _. Option (Entry A)) [
              | none ↦ none
              | some p ↦ if truthy p then named entries p else none
            ])
      same_parent none = refl
      same_parent (some p) = ground (arith, get-named p entries)
