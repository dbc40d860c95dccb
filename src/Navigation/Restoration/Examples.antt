-- ===== src/Navigation/Restoration/Examples.antt =====
-- A profile is restored.
use picot.Base.{◌≡◌, refl, true, false, none, some, [], ◌∷◌, nat_eq, option_eq, codes, text_eq}
use picot.Navigation.Restoration.{
  Profile, Replies, set_model, set_thinking_level, get_state, accepted, restore_session_model,
  restore_level, model_changed,
}
use picot.Navigation.Restoration.Restored.{chosen, restore_settles}

abbrev saved : Profile
saved = record {
  provider = codes "anthropic";
  model_id = codes "opus";
  thinking_level = codes "high";
}

abbrev willing : Replies
willing = record { to_set_model = accepted none; to_set_thinking_level = true; to_get_state = none }

abbrev stubborn : Replies
stubborn = record {
  to_set_model = accepted none;
  to_set_thinking_level = false;
  to_get_state = some (none, some (codes "low"));
}

-- The runtime takes the model, refuses the level and reports its own.
stubborn_run : restore_session_model stubborn (some saved) none none ≡ (
  record {
    model = some (record { provider = codes "anthropic"; id = codes "opus" });
    thinking_level = codes "low";
  },
  set_model (codes "anthropic") (codes "opus") ∷ set_thinking_level (codes "high") ∷ get_state ∷ [],
)
unfolding restore_session_model restore_level model_changed
stubborn_run = refl

restore_settles_example :
    ((restore_session_model willing (some saved) none none).0 ≡ chosen saved)
    × (restore_session_model stubborn
          (some saved)
          (restore_session_model willing (some saved) none none).0.model
          (some (restore_session_model willing (some saved) none none).0.thinking_level)
        ≡ (chosen saved, []))
restore_settles_example = restore_settles willing stubborn saved none none refl refl
