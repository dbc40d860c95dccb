-- ===== src/Session/Pins/Laws.antt =====
-- What the pin operations of public/native/session/pinned-items.js leave in the storage.
use picot.Base.{
  ◌≤◌, ◌<◌, ◌≡◌, refl, sym, subst, ◌⊎◌, inl, inr, false, none, some, List, [], ◌∷◌, map, arith, ltb,
  nat_eq, Bool-cases, if-both, option_eq, Text, text_eq, trim, or_default,
}
use picot.Session.Pins.{
  max_pinned_items, Payload, Workspace, Storage, workspace_of, normalize_workspace_record,
  collect_workspaces, empty_state, normalize_pinned_state, raw, serialize_state, same_pinned_state,
  item_count, read_pinned_items, Outcome, written, over_capacity, write_pinned_items,
  drop_workspace, rename_first, has_id, reconciled, reconcile_workspace_id,
}
use picot.Session.Pins.Normal.{
  IsPinned, normalize-IsPinned, normalize-serialize, same_pinned_state_inv, same_pinned_state_refl,
}

pub read-IsPinned : (st : Storage) → IsPinned (read_pinned_items st)
unfolding read_pinned_items
read-IsPinned st =
    if-both IsPinned st.available (normalize_pinned_state (or_default st.item none)) empty_state
      (normalize-IsPinned (or_default st.item none)) (tt, tt)

-- What a write to the storage comes to.
abbrev pub Wrote : Payload → Storage → Outcome → Type 0
Wrote next st (written after s) =
    (s ≡ normalize_pinned_state (some next))
    × IsPinned s
    × ((item_count s ≤ max_pinned_items) ⊎ (s ≡ read_pinned_items st))
    × ((st.available ≡ false) ⊎ (st.writable ≡ false) ⊎ (read_pinned_items after ≡ s))
Wrote next st (over_capacity n previous) =
    (max_pinned_items < n) × (previous ≡ read_pinned_items st)

-- For every payload and storage, `writePinnedItems` either returns the normalized payload or refuses.
-- Returned, the state is pinned (trimmed paths as ids, nothing twice), has at most 20 items or is
-- what the storage already held, and is what is read afterwards if the storage can be read and
-- written. Refused, the number of items exceeds 20 and the state handed back is the one stored.
pub write_pinned_items_lem :
    (next : Payload) (st : Storage) → Wrote next st (write_pinned_items next st)
unfolding write_pinned_items read_pinned_items
write_pinned_items_lem next st =
    let n = normalize_pinned_state (some next) in
    let pinned = normalize-IsPinned (some next) in
    let after : Storage = record st { item = some (some (serialize_state n)) } in
    let back : (st.available ≡ false) ⊎ (read_pinned_items after ≡ n) =
      elim (Bool-cases st.available) [
        | inl there ↦ inr (ground (arith, there, normalize-serialize n pinned))
        | inr gone ↦ inl gone
      ] in
    elim (Bool-cases (same_pinned_state (read_pinned_items st) n)) [
      | inl same ↦
          let e : write_pinned_items next st ≡ written st n = ground (arith, same) in
          let eq = same_pinned_state_inv (read_pinned_items st) n same in
          subst (Wrote next st) (sym e) (refl, pinned, inr (sym eq), inr (inr eq))
      | inr other ↦ elim (Bool-cases (ltb max_pinned_items (item_count n))) [
        | inl many ↦
            let e : write_pinned_items next st
                ≡ over_capacity (item_count n) (read_pinned_items st) =
              ground (arith, other, many) in
            subst (Wrote next st) (sym e) (ground (arith, many), refl)
        | inr few ↦ elim (Bool-cases st.writable) [
          | inl can ↦
              let e : write_pinned_items next st ≡ written after n =
                ground (arith, other, few, can) in
              subst (Wrote next st) (sym e) (
                refl,
                pinned,
                inl (ground (arith, few)),
                elim back [ inl a ↦ inl a | inr b ↦ inr (inr b) ],
              )
          | inr cannot ↦
              let e : write_pinned_items next st ≡ written st n =
                ground (arith, other, few, cannot) in
              subst (Wrote next st) (sym e)
                (refl, pinned, inl (ground (arith, few)), inr (inl cannot))
        ]
      ]
    ]

-- `normalizeWorkspaceRecord` reads the path alone: a changed id is lost.
collect_workspaces-rename_first :
    (seen : List Text) (old new : Text) (ws : List Workspace)
    → collect_workspaces seen (map raw (rename_first old new ws))
      ≡ collect_workspaces seen (map raw ws)
unfolding collect_workspaces rename_first normalize_workspace_record workspace_of
collect_workspaces-rename_first seen old new [] = refl
collect_workspaces-rename_first seen old new (w ∷ ws) = ground (
  arith,
  collect_workspaces-rename_first seen old new ws,
  collect_workspaces-rename_first (trim w.path ∷ seen) old new ws,
)

-- A payload that normalizes to what is stored is not written.
write_same :
    (next : Payload) (st : Storage)
    → normalize_pinned_state (some next) ≡ read_pinned_items st
    → write_pinned_items next st ≡ written st (read_pinned_items st)
unfolding write_pinned_items
write_same next st h = ground (arith, h, same_pinned_state_refl (read_pinned_items st))

reconciled_same :
    (old new : Text) (ws : List Workspace)
    → has_id new (drop_workspace old ws) ≡ false
    → collect_workspaces [] (map raw (reconciled old new ws)) ≡ collect_workspaces [] (map raw ws)
unfolding reconciled
reconciled_same old new ws h = ground (arith, h, collect_workspaces-rename_first [] old new ws)

-- For every storage and every two ids, the new one not among the other pinned workspaces:
-- `reconcileWorkspaceId` leaves the storage as it is and returns the state that was read. The id it
-- writes is thrown away by the normalization of the same write.
pub reconcile_unchanged :
    (old new : Text) (st : Storage)
    → has_id new (drop_workspace old (read_pinned_items st).workspaces) ≡ false
    → reconcile_workspace_id old new st ≡ written st (read_pinned_items st)
unfolding reconcile_workspace_id normalize_pinned_state
reconcile_unchanged old new st h =
    let current = read_pinned_items st in
    let same =
      write_same
        (serialize_state (record current { workspaces = reconciled old new current.workspaces })) st
        (ground (
          arith,
          reconciled_same old new current.workspaces h,
          normalize-serialize current (read-IsPinned st),
        )) in
    ground (arith, same)
