-- ===== src/Navigation/Router/Examples.antt =====
-- Paths and routes.
use picot.Base.{◌≡◌, refl, nat_eq, option_eq, codes, text_beq, text_eq, split}
use picot.Navigation.Router.{
  session, not_found, app_route_path, parse_app_route, parse_segments, valid_id, all_id_chars,
}
use picot.Navigation.Router.RoundTrip.{parse-app_route_path}

-- A path segment that climbs is no id.
climbing : parse_app_route (codes "/app/workspaces/../launcher") ≡ not_found
unfolding parse_app_route parse_segments split valid_id text_beq
climbing = refl

parse-app_route_path_example :
    parse_app_route (codes "/app/workspaces/29e2/sessions/019f-a_b")
    ≡ session (codes "29e2") (codes "019f-a_b")
unfolding app_route_path valid_id all_id_chars
parse-app_route_path_example =
    parse-app_route_path (session (codes "29e2") (codes "019f-a_b"))
      (codes "/app/workspaces/29e2/sessions/019f-a_b") refl
