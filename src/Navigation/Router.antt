-- ===== src/Navigation/Router.antt =====
-- public/native/utils/router.js: the paths of the app and the routes that they stand for. A thrown
-- error is `none`; the route of an unknown name, which a path cannot yield, is not built.
pub mod RoundTrip
pub mod Examples
use picot.Base.{
  ℕ, ◌+◌, Bool, true, false, ◌&&◌, ◌||◌, Option, none, some, List, [], ◌∷◌, ◌++◌, leb, nat_beq,
  if◌then◌else◌, ◌==◌, nat_eq, option_eq, Text, codes, text_eq, split, length,
}

pub data AppRoute : Type 0 where
  app_launcher settings not_found : AppRoute
  launcher : Text → AppRoute
  session : Text → Text → AppRoute

abbrev pub is_alphanumeric : ℕ → Bool
is_alphanumeric c = leb 48 c && leb c 57 || leb 65 c && leb c 90 || leb 97 c && leb c 122

abbrev pub is_id_char : ℕ → Bool
is_id_char c = is_alphanumeric c || nat_beq c 95 || nat_beq c 45

unfoldable pub all_id_chars : Text → Bool
all_id_chars [] = true
all_id_chars (c ∷ s) = is_id_char c && all_id_chars s

-- `/^[A-Za-z0-9][A-Za-z0-9_-]{0,127}$/`
unfoldable pub valid_id : Text → Bool
unfolding all_id_chars
valid_id [] = false
valid_id (c ∷ s) = is_alphanumeric c && all_id_chars s && leb (length s) 127

abbrev pub app_segment : Text
app_segment = codes "app"

abbrev pub workspaces_segment : Text
workspaces_segment = codes "workspaces"

unfoldable pub parse_segments : List Text → AppRoute
unfolding valid_id
parse_segments (root ∷ app ∷ workspaces ∷ w ∷ kind ∷ []) =
    if app == app_segment
      && workspaces == workspaces_segment
      && valid_id w
      && kind == codes "launcher"
    then launcher w
    else not_found
parse_segments (root ∷ app ∷ workspaces ∷ w ∷ kind ∷ s ∷ []) =
    if app == app_segment
      && workspaces == workspaces_segment
      && valid_id w
      && kind == codes "sessions"
      && valid_id s
    then session w s
    else not_found
parse_segments segments = not_found

unfoldable pub parse_app_route : Text → AppRoute
unfolding parse_segments split
parse_app_route path =
    if path == codes "/app" || path == codes "/app/"
    then app_launcher
    else if path == codes "/app/settings"
    then settings
    else parse_segments (split 47 path)

unfoldable pub app_route_path : AppRoute → Option Text
unfolding valid_id
app_route_path app_launcher = some (codes "/app")
app_route_path settings = some (codes "/app/settings")
app_route_path not_found = none
app_route_path (launcher w) =
    if valid_id w then some (codes "/app/workspaces/" ++ w ++ codes "/launcher") else none
app_route_path (session w s) =
    if valid_id w && valid_id s
    then some (codes "/app/workspaces/" ++ w ++ codes "/sessions/" ++ s)
    else none

-- The path that `replaceTemporarySessionRoute` puts into the history.
unfoldable pub replaced_session_route : Text → Text → Text → Option Text
unfolding app_route_path valid_id
replaced_session_route workspace temporary formal =
    if valid_id temporary then app_route_path (session workspace formal) else none
