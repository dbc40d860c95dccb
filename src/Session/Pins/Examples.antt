-- ===== src/Session/Pins/Examples.antt =====
-- Runs of the pin operations.
use picot.Base.{
  String, ◌≡◌, refl, true, none, some, [], ◌∷◌, nat_eq, option_eq, codes, text_beq, text_eq,
  is_space, trim_start, trim_end, trim,
}
use picot.Session.Pins.{
  Payload, Workspace, Storage, written, raw, read_pinned_items, write_pinned_items,
  normalize_pinned_state, pin_workspace, reconcile_workspace_id, collect_workspaces,
  collect_sessions, normalize_workspace_record, workspace_of, member, same_pinned_state,
  same_workspaces, same_sessions,
}
use picot.Session.Pins.Laws.{Wrote, write_pinned_items_lem, reconcile_unchanged}

abbrev pin : String → Workspace
pin path = record { id = codes path; path = codes path }

abbrev two_pins : Storage
two_pins = record {
  available = true;
  writable = true;
  item = some (some (record { workspaces = raw (pin "/a") ∷ raw (pin "/b") ∷ []; sessions = [] }));
}

-- A pinned workspace that is pinned again moves to the front.
pin_again :
    pin_workspace (codes "/b") (codes " /b ") two_pins
    ≡ written
        (record two_pins {
          item =
              some (
                some (record { workspaces = raw (pin "/b") ∷ raw (pin "/a") ∷ []; sessions = [] }));
        })
        (record { workspaces = pin "/b" ∷ pin "/a" ∷ []; sessions = [] })
unfolding pin_workspace write_pinned_items read_pinned_items normalize_pinned_state
    collect_workspaces collect_sessions normalize_workspace_record workspace_of member
    same_pinned_state same_workspaces same_sessions text_beq trim trim_start trim_end is_space
pin_again = refl

abbrev one_pin : Payload
one_pin = record { workspaces = raw (pin "/c") ∷ none ∷ []; sessions = [] }

write_pinned_items_lem_example : Wrote one_pin two_pins (write_pinned_items one_pin two_pins)
write_pinned_items_lem_example = write_pinned_items_lem one_pin two_pins

reconcile_unchanged_example :
    reconcile_workspace_id (codes "/a") (codes "history:a") two_pins
    ≡ written two_pins (read_pinned_items two_pins)
unfolding read_pinned_items normalize_pinned_state collect_workspaces collect_sessions
    normalize_workspace_record workspace_of member text_beq trim trim_start trim_end is_space
reconcile_unchanged_example = reconcile_unchanged (codes "/a") (codes "history:a") two_pins refl
