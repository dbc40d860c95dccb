-- ===== src/Navigation/Restoration/Restored.antt =====
-- What public/native/composer/model-restoration.js asks for, and what it reports.
use picot.Base.{
  ◌≡◌, true, Option, none, some, [], arith, nat_eq, option_eq, Text, text_beq_iff, text_eq,
  or_default,
}
use picot.Navigation.Restoration.{
  Model, Profile, Selection, accepted, Replies, off, model_changed, restore_level,
  restore_session_model,
}

-- The selection that a profile stands for.
abbrev pub chosen : Profile → Selection
chosen p = record {
  model = some (record { provider = p.provider; id = p.model_id });
  thinking_level = p.thinking_level;
}

-- For a runtime that accepts both requests and answers `set_model` without model data: restoring a
-- profile reports exactly the profile's model and level, and a second restoration of the profile
-- from what the first one reported asks for nothing and reports the same.
pub restore_settles :
    (replies later : Replies) (p : Profile) (model : Option Model) (level : Option Text)
    → replies.to_set_model ≡ accepted none
    → replies.to_set_thinking_level ≡ true
    → let first = (restore_session_model replies (some p) model level).0 in
      (first ≡ chosen p)
      × (restore_session_model later (some p) first.model (some first.thinking_level)
          ≡ (chosen p, []))
unfolding restore_session_model restore_level model_changed
restore_settles replies later p none level a t = ground (
  arith,
  a,
  t,
  text_beq_iff p.provider p.provider,
  text_beq_iff p.model_id p.model_id,
  text_beq_iff p.thinking_level p.thinking_level,
)
restore_settles replies later p (some m) level a t = ground (
  arith,
  a,
  t,
  text_beq_iff m.provider p.provider,
  text_beq_iff m.id p.model_id,
  text_beq_iff (or_default level off) p.thinking_level,
  text_beq_iff p.provider p.provider,
  text_beq_iff p.model_id p.model_id,
  text_beq_iff p.thinking_level p.thinking_level,
)
