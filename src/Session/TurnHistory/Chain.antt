-- ===== src/Session/TurnHistory/Chain.antt =====
-- `activeChain` (public/native/session/turn-history.js): the loop ends, and the chain is a branch.
use picot.Base.{
  ℕ, zero, suc, ◌<◌, ◌≡◌, refl, sym, ap, subst, ◌∙◌, true, not, Option, none, some, List, [], ◌∷◌,
  arith, if◌then◌else◌, nat_eq, if-both, if-cases, option_elim, option_eq, Text, text_eq, length,
  last, length-keep-le, or_option, truthy,
}
use picot.JsMap.{get}
use picot.Session.TurnHistory.{Entry, by_id, parent, visited, walk, with_id, active_chain}
use picot.Session.TurnHistory.Branch.{
  named, parent_in, Rising, Stops, Distinct, Above, Indexed, Branch, by_id-Indexed, unvisited,
  unvisited-lt, Rising-cons, Stops-none, Stops-visited, get-named, parent-parent_in,
}

module _ {A : Type 0} where
  Listed : List (Entry A) → Option (Entry A) → Type 0
  Listed list current = (e : Entry A) → current ≡ some e → visited e.id list ≡ true

  get-Listed :
      (m : List (Text × Entry A)) (list : List (Entry A)) (k : Text)
      → Indexed m list
      → Listed list (get k m)
  unfolding Listed
  get-Listed m list k h e eq =
      let f = h.found k e eq in subst (λ i. visited i list ≡ true) (sym f.0) f.1

  parent-Listed :
      (m : List (Text × Entry A)) (list : List (Entry A)) (e : Entry A)
      → Indexed m list
      → Listed list (parent m e)
  unfolding Listed
  parent-Listed m list e h =
      option_elim {B = Option (Entry A)} (Listed list) e.parent_id none
        (λ p. if truthy p then get p m else none) (λ missing d eq. cc)
        (λ p named.
          if-both (Listed list) (truthy p) (get p m) none (get-Listed m list p h) (λ d eq. cc))

  -- Where the branch ends: the chain's last entry, or the one to come.
  abbrev ending : Option (Entry A) → List (Entry A) → Option (Entry A)
  ending current chain = or_option (last chain) current

  ending-cons :
      (e : Entry A) (next : Option (Entry A)) (chain : List (Entry A))
      → ending next (e ∷ chain) ≡ ending (some e) chain
  ending-cons e next [] = refl
  ending-cons e next (a ∷ []) = refl
  ending-cons e next (a ∷ b ∷ es) = ending-cons e next (b ∷ es)

  ending-visited :
      (e : Entry A) (chain : List (Entry A))
      → visited e.id chain ≡ true
      → last chain ≡ ending (some e) chain
  ending-visited e [] h = cc
  ending-visited e (a ∷ []) h = refl
  ending-visited e (a ∷ b ∷ es) h = ending_full b es
    where
      ending_full : (b : Entry A) (es : List (Entry A)) → last (b ∷ es) ≡ ending (some e) (b ∷ es)
      ending_full b [] = refl
      ending_full b (x ∷ xs) = ending_full x xs

  ending-none : (chain : List (Entry A)) → last chain ≡ ending none chain
  ending-none [] = refl
  ending-none (a ∷ []) = refl
  ending-none (a ∷ b ∷ es) = ending-none (b ∷ es)

  walk-Branch :
      (fuel : ℕ) (m : List (Text × Entry A)) (list : List (Entry A)) (current : Option (Entry A))
      (chain : List (Entry A))
      → Indexed m list
      → Listed list current
      → unvisited chain list < fuel
      → Above (parent m) current chain
      → Rising (parent m) chain
      → Distinct chain
      → (c : List (Entry A)) × ((walk fuel m current chain ≡ some c)
          × Branch (parent m) c (ending current chain))
  unfolding walk Listed Distinct
  walk-Branch fuel m list none chain h l f a k d = (
    chain,
    (
      refl,
      record {
        rising = k;
        stops = Stops-none (parent m) chain a;
        distinct = d;
        ends = ending-none chain;
      },
    ),
  )
  walk-Branch zero m list (some e) chain h l f a k d = absurd (omega (arith, f))
  walk-Branch (suc fuel) m list (some e) chain h l f a k d =
      let P : Option (List (Entry A)) → Type 0 =
        λ o. (c : List (Entry A)) × ((o ≡ some c) × Branch (parent m) c (ending (some e) chain)) in
      if-cases P (visited e.id chain) (some chain) (walk fuel m (parent m e) (e ∷ chain))
        (λ seen. (
          chain,
          (
            refl,
            record {
              rising = k;
              stops = Stops-visited (parent m) e chain a seen;
              distinct = d;
              ends = ending-visited e chain seen;
            },
          ),
        ))
        (λ unseen.
          let fewer = unvisited-lt e chain list unseen (l e refl) in
          let (c, (eq, b)) =
            walk-Branch fuel m list (parent m e) (e ∷ chain) h (parent-Listed m list e h)
              (omega (arith, f, fewer)) refl (Rising-cons (parent m) e chain a k) (unseen, d) in
          (
            c,
            (
              eq,
              record {
                rising = b.rising;
                stops = b.stops;
                distinct = b.distinct;
                ends = b.ends ∙ ending-cons e (parent m e) chain;
              },
            ),
          ))

  no_entry :
      (list : List (Entry A)) (k : Text) (d : Entry A)
      → get {V = Entry A} k [] ≡ some d
      → (d.id ≡ k) × (visited k list ≡ true)
  unfolding get
  no_entry list k d h = cc

  -- The same with the leaf as the map of the log gives it.
  chain_of_leaf :
      (entries : List (Entry A)) (leaf : Text) (e : Entry A)
      → truthy leaf ≡ true
      → get leaf (by_id [] (with_id entries)) ≡ some e
      → (c : List (Entry A)) × ((active_chain entries (some leaf) ≡ some c)
          × Branch (parent_in entries) c (some e))
  unfolding active_chain Listed Rising Distinct
  chain_of_leaf entries leaf e t eq =
      let list = with_id entries in
      let m = by_id [] list in
      let indexed : Indexed m list =
        by_id-Indexed [] list list (record { found = no_entry list }) (λ k v. v) in
      let bound : unvisited [] list < suc (length list) =
        omega (arith, length-keep-le (λ (x : Entry A). not (visited {A = A} x.id [])) list) in
      let (c, (w, b)) =
        walk-Branch (suc (length list)) m list (some e) [] indexed
          (λ d same. subst (Listed list) eq (get-Listed m list leaf indexed) d same) bound tt tt
          tt in
      let run : active_chain entries (some leaf) ≡ some c =
        ap
          (λ b.
            if b
            then elim (get leaf m) [
              | none ↦ some list
              | some d ↦ walk (suc (length list)) m (some d) []
            ]
            else some list)
          t
        ∙ ap (λ o. elim o [ none ↦ some list | some d ↦ walk (suc (length list)) m (some d) [] ]) eq
        ∙ w in
      (c, (run, subst (λ up. Branch up c (some e)) (λ i d. parent-parent_in entries d i) b))

  -- For every log and every leaf: if `e` is the last entry of the log with the leaf's id, `activeChain`
  -- ends and returns a chain that ends in `e`, in which each entry but the first has the one before it
  -- as its parent, the last entry of the log with the id that it names, and no id stands twice; and
  -- the chain is whole: its first entry names no parent that the log has, or one whose id stands in
  -- the chain already.
  pub active_chain_lem :
      (entries : List (Entry A)) (leaf : Text) (e : Entry A)
      → truthy leaf ≡ true
      → named entries leaf ≡ some e
      → (c : List (Entry A)) × ((active_chain entries (some leaf) ≡ some c)
          × Rising (parent_in entries) c
          × Stops (parent_in entries) c
          × Distinct c
          × (last c ≡ some e))
  active_chain_lem entries leaf e t eq =
      let (c, (run, b)) = chain_of_leaf entries leaf e t (get-named leaf entries t ∙ eq) in
      (c, (run, b.rising, b.stops, b.distinct, b.ends))

  -- For every log, with a leaf or without one: the loop of `activeChain` ends within its fuel.
  pub active_chain_ends :
      (entries : List (Entry A)) (leaf_id : Option Text)
      → (c : List (Entry A)) × (active_chain entries leaf_id ≡ some c)
  unfolding active_chain
  active_chain_ends entries none = (with_id entries, refl)
  active_chain_ends entries (some leaf) =
      let list = with_id entries in
      let m = by_id [] list in
      let P : Option (List (Entry A)) → Type 0 = λ o. (c : List (Entry A)) × (o ≡ some c) in
      let found : Option (List (Entry A)) = elim (get leaf m) [
        | none ↦ some list
        | some e ↦ walk (suc (length list)) m (some e) []
      ] in
      if-cases P (truthy leaf) found (some list)
        (λ has_id.
          option_elim {B = Option (List (Entry A))} P (get leaf m) (some list)
            (λ e. walk (suc (length list)) m (some e) []) (λ missing. (list, refl))
            (λ e eq.
              let (c, (run, b)) = chain_of_leaf entries leaf e has_id eq in
              let open_get : active_chain entries (some leaf)
                  ≡ walk (suc (length list)) m (some e) [] =
                ap (λ b. if b then found else some list) has_id
                ∙ ap
                    (λ o. elim o as (λ _. Option (List (Entry A))) [
                      | none ↦ some list
                      | some d ↦ walk (suc (length list)) m (some d) []
                    ])
                    eq in
              (c, sym open_get ∙ run)))
        (λ unnamed. (list, refl))
