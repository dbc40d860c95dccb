-- ===== src/Navigation/Bootstrap.antt =====
-- `resolveBootstrapTarget` of public/native/transport/bootstrap-target.js. What the host answers to
-- `requestTarget` and to `spawnTemporarySession` are arguments.
use picot.Base.{
  ℕ, Bool, ◌&&◌, nat_beq, if◌then◌else◌, nat_eq, option_eq, Text, text_eq, strip_prefix,
  starts_with,
}
use picot.Transport.Target.{Target, temporary}

pub record SessionRoute : Type 0 where
  pub workspace_id : Text
  pub session_id : Text

-- A target, or the status of the error.
pub data Answer : Type 0 where
  found : Target → Answer
  failed : ℕ → Answer

unfoldable pub is_missing_temporary_session : SessionRoute → ℕ → Bool
unfolding strip_prefix
is_missing_temporary_session route status =
    starts_with temporary route.session_id && nat_beq status 404

unfoldable pub resolve_bootstrap_target :
    (SessionRoute → Answer) → (Text → Answer) → SessionRoute → Answer
unfolding is_missing_temporary_session
resolve_bootstrap_target request_target spawn route = elim (request_target route) [
  | found t ↦ found t
  | failed status ↦
      if is_missing_temporary_session route status then spawn route.workspace_id else failed status
]
