-- ===== src/Session/Pins/Normal.antt =====
-- What `normalizePinnedState` yields, and that it leaves that alone.
use picot.Base.{
  ◌≡◌, refl, sym, ap, true, false, Option, none, some, List, [], ◌∷◌, map, arith, nat_eq, option_eq,
  Text, text_beq_iff, text_eq, trim, trim_idem, or_default, truthy,
}
use picot.Session.Pins.{
  Raw, Payload, Workspace, PinnedState, workspace_of, normalize_workspace_record, member,
  collect_workspaces, collect_sessions, normalize_pinned_state, raw, serialize_state,
  same_workspaces, same_sessions, same_pinned_state,
}

-- Records whose id is their trimmed path, each id once and none of those seen.
abbrev pub IsClean : List Text → List Workspace → Type 0
IsClean seen [] = Unit
IsClean seen (w ∷ ws) =
    (w.path ≡ w.id)
    × (trim w.id ≡ w.id)
    × (truthy w.id ≡ true)
    × (member w.id seen ≡ false)
    × IsClean (w.id ∷ seen) ws

abbrev pub IsFresh : List Text → List Text → Type 0
IsFresh seen [] = Unit
IsFresh seen (s ∷ ss) = (truthy s ≡ true) × (member s seen ≡ false) × IsFresh (s ∷ seen) ss

abbrev pub IsPinned : PinnedState → Type 0
IsPinned s = IsClean [] s.workspaces × IsFresh [] s.sessions

collect_workspaces-IsClean :
    (seen : List Text) (rs : List (Option Raw)) → IsClean seen (collect_workspaces seen rs)
unfolding collect_workspaces normalize_workspace_record workspace_of
collect_workspaces-IsClean seen [] = tt
collect_workspaces-IsClean seen (none ∷ rs) = collect_workspaces-IsClean seen rs
collect_workspaces-IsClean seen (some r ∷ rs) =
    let p = trim (or_default r.path []) in
    ground (
      arith,
      trim_idem (or_default r.path []),
      collect_workspaces-IsClean seen rs,
      collect_workspaces-IsClean (p ∷ seen) rs,
    )

collect_sessions-IsFresh :
    (seen : List Text) (rs : List (Option Text)) → IsFresh seen (collect_sessions seen rs)
unfolding collect_sessions
collect_sessions-IsFresh seen [] = tt
collect_sessions-IsFresh seen (none ∷ rs) = collect_sessions-IsFresh seen rs
collect_sessions-IsFresh seen (some s ∷ rs) =
    ground (arith, collect_sessions-IsFresh seen rs, collect_sessions-IsFresh (s ∷ seen) rs)

pub normalize-IsPinned : (p : Option Payload) → IsPinned (normalize_pinned_state p)
unfolding normalize_pinned_state
normalize-IsPinned none = (tt, tt)
normalize-IsPinned (some p) =
    (collect_workspaces-IsClean [] p.workspaces, collect_sessions-IsFresh [] p.sessions)

workspace_eta : (w : Workspace) → w.path ≡ w.id → record { id = w.id; path = w.id } ≡ w
workspace_eta w h = ap (λ (p : Text). record { id = w.id; path = p }) (sym h)

pub collect_workspaces-raw :
    (seen : List Text) (ws : List Workspace)
    → IsClean seen ws
    → collect_workspaces seen (map raw ws) ≡ ws
unfolding collect_workspaces normalize_workspace_record workspace_of
collect_workspaces-raw seen [] h = refl
collect_workspaces-raw seen (w ∷ ws) (p, t, n, m, h) =
    ground (arith, workspace_eta w p, p, t, n, m, collect_workspaces-raw (w.id ∷ seen) ws h)

pub collect_sessions-some :
    (seen ss : List Text) → IsFresh seen ss → collect_sessions seen (map some ss) ≡ ss
unfolding collect_sessions
collect_sessions-some seen [] h = refl
collect_sessions-some seen (s ∷ ss) (n, m, h) =
    ground (arith, n, m, collect_sessions-some (s ∷ seen) ss h)

pub normalize-serialize :
    (s : PinnedState) → IsPinned s → normalize_pinned_state (some (serialize_state s)) ≡ s
unfolding normalize_pinned_state
normalize-serialize s (w, t) =
    ground (arith, collect_workspaces-raw [] s.workspaces w, collect_sessions-some [] s.sessions t)

same_workspaces_inv : (vs ws : List Workspace) → same_workspaces vs ws ≡ true → vs ≡ ws
unfolding same_workspaces
same_workspaces_inv [] [] h = refl
same_workspaces_inv [] (w ∷ ws) h = ground arith
same_workspaces_inv (v ∷ vs) [] h = ground arith
same_workspaces_inv (v ∷ vs) (w ∷ ws) h =
    ground (arith, text_beq_iff v.id w.id, text_beq_iff v.path w.path, same_workspaces_inv vs ws)

same_sessions_inv : (ss ts : List Text) → same_sessions ss ts ≡ true → ss ≡ ts
unfolding same_sessions
same_sessions_inv [] [] h = refl
same_sessions_inv [] (t ∷ ts) h = ground arith
same_sessions_inv (s ∷ ss) [] h = ground arith
same_sessions_inv (s ∷ ss) (t ∷ ts) h = ground (arith, text_beq_iff s t, same_sessions_inv ss ts)

pub same_pinned_state_inv : (a b : PinnedState) → same_pinned_state a b ≡ true → a ≡ b
unfolding same_pinned_state
same_pinned_state_inv a b h =
    ground (
      arith,
      same_workspaces_inv a.workspaces b.workspaces,
      same_sessions_inv a.sessions b.sessions,
    )

same_workspaces_refl : (ws : List Workspace) → same_workspaces ws ws ≡ true
unfolding same_workspaces
same_workspaces_refl [] = refl
same_workspaces_refl (w ∷ ws) =
    ground (arith, text_beq_iff w.id w.id, text_beq_iff w.path w.path, same_workspaces_refl ws)

same_sessions_refl : (ss : List Text) → same_sessions ss ss ≡ true
unfolding same_sessions
same_sessions_refl [] = refl
same_sessions_refl (s ∷ ss) = ground (arith, text_beq_iff s s, same_sessions_refl ss)

pub same_pinned_state_refl : (s : PinnedState) → same_pinned_state s s ≡ true
unfolding same_pinned_state
same_pinned_state_refl s =
    ground (arith, same_workspaces_refl s.workspaces, same_sessions_refl s.sessions)
