-- ===== src/Transport/Target.antt =====
-- A runtime target, and which snapshot may replace it.
-- public/native/transport/bootstrap-target.js, runtime-gateway.js (assertTarget)
use picot.Base.{
  ◌≡◌, ◌↔◌, Bool, true, not, ◌&&◌, ◌||◌, Option, none, some, arith, if◌then◌else◌, ◌==◌, nat_eq,
  option_eq, Text, codes, text_beq_iff, text_eq, starts_with, truthy,
}

pub record Target : Type 0 where
  pub workspace_id : Text
  pub session_id : Text
  pub instance_id : Text

-- `sameTarget` of public/native/session/session-store.js.
unfoldable pub same_target : Target → Target → Bool
same_target left right =
    left.workspace_id == right.workspace_id
    && left.session_id == right.session_id
    && left.instance_id == right.instance_id

pub same_target_iff : (a b : Target) → (same_target a b ≡ true) ↔ (a ≡ b)
unfolding same_target
same_target_iff a b = ground (
  arith,
  text_beq_iff a.workspace_id b.workspace_id,
  text_beq_iff a.session_id b.session_id,
  text_beq_iff a.instance_id b.instance_id,
)

-- `assertTarget` does not throw.
unfoldable pub is_complete : Target → Bool
is_complete t = truthy t.workspace_id && truthy t.session_id && truthy t.instance_id

abbrev pub temporary : Text
temporary = codes "temporary-"

-- `none` is the thrown error.
unfoldable pub reconcile_snapshot_target : Target → Option Target → Option Target
reconcile_snapshot_target current none = some current
reconcile_snapshot_target current (some snapshot) =
    if not (snapshot.workspace_id == current.workspace_id)
      || not (snapshot.instance_id == current.instance_id)
    then none
    else if not (snapshot.session_id == current.session_id)
        && not (starts_with temporary current.session_id)
    then some current
    else some snapshot
