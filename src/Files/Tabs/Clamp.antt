-- ===== src/Files/Tabs/Clamp.antt =====
-- The clamp of `persist` to twenty roots (public/file-tab-state.js) keeps a root that few others follow.
use picot.Base.{
  ℕ, zero, suc, ◌+◌, ◌-◌, ◌≤◌, ◌<◌, ◌≡◌, refl, sym, ap, subst, ◌⊎◌, inl, inr, true, false, not,
  ◌&&◌, none, some, List, [], ◌∷◌, arith, ltb, leb, if◌then◌else◌, ◌==◌, nat_eq, ==_refl, ==_iff,
  Bool-cases, if-both, if-cases, option_eq, Text, text_eq, length, take,
}
use picot.JsMap.{get, set, IsMap}
use picot.Files.Tabs.{insert_touched, sort_touched, clamp_roots}
use picot.Files.Data.{RootState}

leb_le : (a b : ℕ) → leb a b ≡ true → a ≤ b
leb_le a b h = ground (arith, h)

module _ (k : Text) (r : RootState) where
  -- Another root that was touched at the time of `r` or later.
  abbrev pub rivals : List (Text × RootState) → ℕ
  rivals [] = 0
  rivals (e ∷ es) =
      if not (e.0 == k) && leb r.touched_at e.1.touched_at then suc (rivals es) else rivals es

  -- The first entry of the root is `r`, with at most `n` before it, none of them touched earlier.
  unfoldable Within : ℕ → List (Text × RootState) → Type 0
  Within n [] = ⊥
  Within zero (e ∷ es) = ((e.0 == k) ≡ true) × (e.1 ≡ r)
  Within (suc n) (e ∷ es) =
      (((e.0 == k) ≡ true) × (e.1 ≡ r))
      ⊎ (((e.0 == k) ≡ false) × ((r.touched_at ≤ e.1.touched_at) × Within n es))

  Within-suc : (n : ℕ) (es : List (Text × RootState)) → Within n es → Within (suc n) es
  unfolding Within
  Within-suc n [] h = h
  Within-suc zero (e ∷ es) h = inl h
  Within-suc (suc n) (e ∷ es) (inl h) = inl h
  Within-suc (suc n) (e ∷ es) (inr h) = inr (h.0, (h.1.0, Within-suc n es h.1.1))

  Within-get :
      (n : ℕ) (es : List (Text × RootState)) → Within n es → get k (take (suc n) es) ≡ some r
  unfolding Within get
  Within-get n [] h = absurd h
  Within-get zero (e ∷ es) h = ground (arith, h.0, h.1)
  Within-get (suc n) (e ∷ es) (inl h) = ground (arith, h.0, h.1)
  Within-get (suc n) (e ∷ es) (inr h) = ground (arith, h.0, Within-get n es h.1.1)

  -- Another root, put in.
  Within-behind :
      (n : ℕ) (e : Text × RootState) (es : List (Text × RootState))
      → e.1.touched_at < r.touched_at
      → Within n es
      → Within n (insert_touched e es)
  unfolding Within insert_touched
  Within-behind n e [] l h = absurd h
  Within-behind zero e (d ∷ ds) l h =
      if-cases (Within zero) (leb d.1.touched_at e.1.touched_at) (e ∷ d ∷ ds)
        (d ∷ insert_touched e ds)
        (λ before. absurd (
          omega (
            arith,
            l,
            ap (λ (x : RootState). x.touched_at) h.1,
            leb_le d.1.touched_at e.1.touched_at before,
          )))
        (λ after. h)
  Within-behind (suc n) e (d ∷ ds) l (inl h) =
      if-cases (Within (suc n)) (leb d.1.touched_at e.1.touched_at) (e ∷ d ∷ ds)
        (d ∷ insert_touched e ds)
        (λ before. absurd (
          omega (
            arith,
            l,
            ap (λ (x : RootState). x.touched_at) h.1,
            leb_le d.1.touched_at e.1.touched_at before,
          )))
        (λ after. inl h)
  Within-behind (suc n) e (d ∷ ds) l (inr h) =
      if-cases (Within (suc n)) (leb d.1.touched_at e.1.touched_at) (e ∷ d ∷ ds)
        (d ∷ insert_touched e ds)
        (λ before. absurd (omega (arith, l, h.1.0, leb_le d.1.touched_at e.1.touched_at before)))
        (λ after. inr (h.0, (h.1.0, Within-behind n e ds l h.1.1)))

  Within-ahead :
      (n : ℕ) (e : Text × RootState) (es : List (Text × RootState))
      → (e.0 == k) ≡ false
      → r.touched_at ≤ e.1.touched_at
      → Within n es
      → Within (suc n) (insert_touched e es)
  unfolding Within insert_touched
  Within-ahead n e [] o l h = absurd h
  Within-ahead zero e (d ∷ ds) o l h =
      if-both (Within 1) (leb d.1.touched_at e.1.touched_at) (e ∷ d ∷ ds) (d ∷ insert_touched e ds)
        (inr (o, (l, h))) (inl h)
  Within-ahead (suc n) e (d ∷ ds) o l (inl h) =
      if-both (Within (suc (suc n))) (leb d.1.touched_at e.1.touched_at) (e ∷ d ∷ ds)
        (d ∷ insert_touched e ds) (inr (o, (l, inl h))) (inl h)
  Within-ahead (suc n) e (d ∷ ds) o l (inr h) =
      if-both (Within (suc (suc n))) (leb d.1.touched_at e.1.touched_at) (e ∷ d ∷ ds)
        (d ∷ insert_touched e ds) (inr (o, (l, inr h)))
        (inr (h.0, (h.1.0, Within-ahead n e ds o l h.1.1)))

  first_Within :
      (n : ℕ) (e : Text × RootState) (es : List (Text × RootState))
      → (e.0 == k) ≡ true
      → e.1 ≡ r
      → Within n (e ∷ es)
  unfolding Within
  first_Within zero e es h g = (h, g)
  first_Within (suc n) e es h g = inl (h, g)

  next_Within :
      (n : ℕ) (e : Text × RootState) (es : List (Text × RootState))
      → (e.0 == k) ≡ false
      → r.touched_at ≤ e.1.touched_at
      → Within n es
      → Within (suc n) (e ∷ es)
  unfolding Within
  next_Within n e es o l h = inr (o, (l, h))

  -- The root itself, put in.
  Within-here :
      (es : List (Text × RootState)) (e : Text × RootState)
      → (e.0 == k) ≡ true
      → e.1 ≡ r
      → get k es ≡ none
      → Within (rivals es) (insert_touched e es)
  unfolding insert_touched get
  Within-here [] e h g lacks = first_Within 0 e [] h g
  Within-here (d ∷ ds) e h g lacks =
      let other : (d.0 == k) ≡ false = ground (arith, lacks) in
      if-cases (Within (rivals (d ∷ ds))) (leb d.1.touched_at e.1.touched_at) (e ∷ d ∷ ds)
        (d ∷ insert_touched e ds) (λ before. first_Within (rivals (d ∷ ds)) e (d ∷ ds) h g)
        (λ after.
          let late : e.1.touched_at ≤ d.1.touched_at = ground (arith, after) in
          let late_r : r.touched_at ≤ d.1.touched_at =
            subst (λ (x : RootState). x.touched_at ≤ d.1.touched_at) g late in
          let count : rivals (d ∷ ds) ≡ suc (rivals ds) = ground (arith, other, late_r) in
          subst (λ n. Within n (d ∷ insert_touched e ds)) (sym count)
            (next_Within (rivals ds) d (insert_touched e ds) other late_r
              (Within-here ds e h g (ground (arith, lacks, other)))))

  lacks-insert_touched :
      (e : Text × RootState) (es : List (Text × RootState))
      → get k (e ∷ es) ≡ none
      → get k (insert_touched e es) ≡ none
  unfolding insert_touched get
  lacks-insert_touched e [] h = h
  lacks-insert_touched e (d ∷ ds) h =
      let rest = lacks-insert_touched e ds in ground (arith, h, rest)

  lacks-sort_touched :
      (es : List (Text × RootState)) → get k es ≡ none → get k (sort_touched es) ≡ none
  unfolding sort_touched get
  lacks-sort_touched [] h = h
  lacks-sort_touched (e ∷ es) h =
      let rest : get k (sort_touched es) ≡ none = lacks-sort_touched es (ground (arith, h)) in
      lacks-insert_touched e (sort_touched es) (ground (arith, h, rest))

  rivals-insert_touched :
      (e : Text × RootState) (es : List (Text × RootState))
      → rivals (insert_touched e es) ≡ rivals (e ∷ es)
  unfolding insert_touched
  rivals-insert_touched e [] = refl
  rivals-insert_touched e (d ∷ ds) = ground (arith, rivals-insert_touched e ds)

  rivals-sort_touched : (es : List (Text × RootState)) → rivals (sort_touched es) ≡ rivals es
  unfolding sort_touched
  rivals-sort_touched [] = refl
  rivals-sort_touched (e ∷ es) =
      ground (arith, rivals-insert_touched e (sort_touched es), rivals-sort_touched es)

  Within-sort_touched :
      (es : List (Text × RootState))
      → IsMap es
      → get k es ≡ some r
      → Within (rivals es) (sort_touched es)
  unfolding sort_touched get
  Within-sort_touched [] u h = cc
  Within-sort_touched ((j, w) ∷ es) u h = elim (Bool-cases (j == k)) [
    | inl hit ↦
        let same : j ≡ k = (==_iff j k).0 hit in
        let value : w ≡ r = ground (arith, h, hit) in
        let lacks : get k es ≡ none = subst (λ i. get i es ≡ none) same u.0 in
        let count : rivals ((j, w) ∷ es) ≡ rivals (sort_touched es) =
          ground (arith, hit, rivals-sort_touched es) in
        subst (λ n. Within n (insert_touched (j, w) (sort_touched es))) (sym count)
          (Within-here (sort_touched es) (j, w) hit value (lacks-sort_touched es lacks))
    | inr miss ↦
        let rest : Within (rivals es) (sort_touched es) =
          Within-sort_touched es u.1 (ground (arith, h, miss)) in
        elim (Bool-cases (leb r.touched_at w.touched_at)) [
          | inl late ↦
              let count : rivals ((j, w) ∷ es) ≡ suc (rivals es) = ground (arith, miss, late) in
              subst (λ n. Within n (insert_touched (j, w) (sort_touched es))) (sym count)
                (Within-ahead (rivals es) (j, w) (sort_touched es) miss
                  (leb_le r.touched_at w.touched_at late) rest)
          | inr early ↦
              let count : rivals ((j, w) ∷ es) ≡ rivals es = ground (arith, miss, early) in
              subst (λ n. Within n (insert_touched (j, w) (sort_touched es))) (sym count)
                (Within-behind (rivals es) (j, w) (sort_touched es) (ground (arith, early)) rest)
        ]
  ]

  Within-more : (n d : ℕ) (es : List (Text × RootState)) → Within n es → Within (d + n) es
  Within-more n zero es h = subst (λ m. Within m es) (omega arith) h
  Within-more n (suc d) es h =
      subst (λ m. Within m es) (omega arith) (Within-suc (d + n) es (Within-more n d es h))

  -- A root with fewer than twenty rivals survives the clamp.
  pub clamp_roots-get :
      (m : List (Text × RootState))
      → IsMap m
      → get k m ≡ some r
      → rivals m < 20
      → get k (clamp_roots m) ≡ some r
  unfolding clamp_roots
  clamp_roots-get m u h few =
      let w : Within 19 (sort_touched m) =
        subst (λ n. Within n (sort_touched m)) (omega (arith, few))
          (Within-more (rivals m) (19 - rivals m) (sort_touched m) (Within-sort_touched m u h)) in
      if-both (λ c. get k c ≡ some r) (ltb 20 (length m)) (take 20 (sort_touched m)) m
        (Within-get 19 (sort_touched m) w) h

  pub rivals-set : (m : List (Text × RootState)) → rivals (set k r m) ≡ rivals m
  unfolding set
  rivals-set [] = ground (arith, ==_refl k)
  rivals-set ((j, w) ∷ m) = ground (arith, rivals-set m)
