-- ===== src/Navigation/Restoration.antt =====
-- public/native/composer/model-restoration.js: the profile that a new session gets, and its
-- restoration in the runtime. The runtime's replies are arguments; the requests made are listed in
-- their order. A reply fails when it is rejected or says so.
pub mod Restored
pub mod Examples
use picot.Base.{
  ◌+◌, Bool, true, false, not, ◌&&◌, ◌||◌, Option, none, some, List, [], ◌∷◌, ◌++◌, if◌then◌else◌,
  ◌==◌, nat_eq, option_eq, Text, codes, text_eq, strip_prefix, starts_with, or_default, or_option,
  truthy,
}
use picot.Transport.Target.{Target, temporary}

pub record Model : Type 0 where
  pub provider : Text
  pub id : Text

pub record Profile : Type 0 where
  pub provider : Text
  pub model_id : Text
  pub thinking_level : Text

pub record Selection : Type 0 where
  pub model : Option Model
  pub thinking_level : Text

pub data Asked : Type 0 where
  set_model : Text → Text → Asked
  set_thinking_level : Text → Asked
  get_state : Asked

-- `set_model` is answered with data that has an id, without, or not at all.
pub data Reply : Type 0 where
  failed : Reply
  accepted : Option Model → Reply

pub record Replies : Type 0 where
  pub to_set_model : Reply
  pub to_set_thinking_level : Bool
  pub to_get_state : Option (Option Model × Option Text)

abbrev pub off : Text
off = codes "off"

unfoldable pub profile_for_new_session : Option Model → Option Text → Option Profile
profile_for_new_session none level = none
profile_for_new_session (some m) level =
    if truthy m.provider && truthy m.id
    then some
        (record { provider = m.provider; model_id = m.id; thinking_level = or_default level off })
    else none

unfoldable pub profile_for_snapshot_rebind :
    Target → Target → Option Profile → Option Model → Option Text → Option Profile
unfolding profile_for_new_session strip_prefix
profile_for_snapshot_rebind previous snapshot pending model level =
    if starts_with temporary previous.session_id
      && truthy snapshot.session_id
      && not (snapshot.session_id == previous.session_id)
      && snapshot.workspace_id == previous.workspace_id
      && snapshot.instance_id == previous.instance_id
    then or_option pending (profile_for_new_session model level)
    else none

unfoldable pub model_changed : Option Model → Profile → Bool
model_changed none p = true
model_changed (some m) p = not (m.provider == p.provider) || not (m.id == p.model_id)

-- The second half of `restoreSessionModel`, once the model is selected.
unfoldable pub restore_level :
    Bool → Replies → Profile → Selection → Option Model → List Asked → Selection × List Asked
restore_level changed replies p current selected asked =
    let wanted : Selection = record { model = selected; thinking_level = p.thinking_level } in
    let asked_level = asked ++ set_thinking_level p.thinking_level ∷ [] in
    if not (changed || not (current.thinking_level == p.thinking_level))
    then (wanted, asked)
    else if replies.to_set_thinking_level
    then (wanted, asked_level)
    else elim replies.to_get_state [
      | none ↦ (
        record { model = selected; thinking_level = current.thinking_level },
        asked_level ++ get_state ∷ [],
      )
      | some (m, l) ↦ (
        record {
          model = or_option m selected;
          thinking_level = or_default l current.thinking_level;
        },
        asked_level ++ get_state ∷ [],
      )
    ]

unfoldable pub restore_session_model :
    Replies → Option Profile → Option Model → Option Text → Selection × List Asked
unfolding model_changed restore_level
restore_session_model replies none model level =
    (record { model = model; thinking_level = or_default level off }, [])
restore_session_model replies (some p) model level =
    let current : Selection = record { model = model; thinking_level = or_default level off } in
    if model_changed model p
    then elim replies.to_set_model [
      | failed ↦ (current, set_model p.provider p.model_id ∷ [])
      | accepted data' ↦
          restore_level true replies p current
            (or_option data' (some (record { provider = p.provider; id = p.model_id })))
            (set_model p.provider p.model_id ∷ [])
    ]
    else restore_level false replies p current model []
