-- ===== src/Navigation/Router/RoundTrip.antt =====
-- A path that public/native/utils/router.js builds is parsed as the route that it was built from.
use picot.Base.{
  ◌≡◌, refl, sym, ap, ◌∙◌, inl, inr, true, false, ◌&&◌, some, [], ◌∷◌, ◌++◌, append_assoc, arith,
  nat_beq, nat_eq, Bool-cases, option_eq, Text, codes, text_beq, text_eq, split, join, Lacks,
  split-join, any, or_default,
}
use picot.Navigation.Router.{
  AppRoute, app_launcher, settings, not_found, launcher, session, all_id_chars, valid_id,
  app_segment, workspaces_segment, parse_segments, parse_app_route, app_route_path,
}

all_id_chars-Lacks : (s : Text) → all_id_chars s ≡ true → Lacks 47 s
unfolding all_id_chars
all_id_chars-Lacks [] h = tt
all_id_chars-Lacks (c ∷ s) h = ground (arith, h, all_id_chars-Lacks s)

valid_id-Lacks : (s : Text) → valid_id s ≡ true → Lacks 47 s
unfolding valid_id
valid_id-Lacks [] h = tt
valid_id-Lacks (c ∷ s) h = ground (arith, h, all_id_chars-Lacks s)

lacks : (s : Text) → any (λ c. nat_beq c 47) s ≡ false → Lacks 47 s
lacks [] h = tt
lacks (c ∷ s) h = ground (arith, h, lacks s)

launcher_path :
    (w : Text)
    → Lacks 47 w
    → split 47 (codes "/app/workspaces/" ++ w ++ codes "/launcher")
      ≡ [] ∷ app_segment ∷ workspaces_segment ∷ w ∷ codes "launcher" ∷ []
unfolding join
launcher_path w h =
    split-join 47 [] (app_segment ∷ workspaces_segment ∷ w ∷ codes "launcher" ∷ []) (
      tt,
      (
        lacks app_segment refl,
        (lacks workspaces_segment refl, (h, (lacks (codes "launcher") refl, tt))),
      ),
    )

session_path :
    (w s : Text)
    → Lacks 47 w
    → Lacks 47 s
    → split 47 (codes "/app/workspaces/" ++ w ++ codes "/sessions/" ++ s)
      ≡ [] ∷ app_segment ∷ workspaces_segment ∷ w ∷ codes "sessions" ∷ s ∷ []
unfolding join
session_path w s h k =
    ap (λ x. split 47 (codes "/app/workspaces/" ++ x)) (append_assoc w (codes "/sessions/") s)
    ∙ split-join 47 [] (app_segment ∷ workspaces_segment ∷ w ∷ codes "sessions" ∷ s ∷ []) (
      tt,
      (
        lacks app_segment refl,
        (lacks workspaces_segment refl, (h, (lacks (codes "sessions") refl, (k, tt)))),
      ),
    )

parse_launcher :
    (w : Text)
    → valid_id w ≡ true
    → parse_app_route (codes "/app/workspaces/" ++ w ++ codes "/launcher") ≡ launcher w
unfolding parse_app_route parse_segments text_beq
parse_launcher w v = ap parse_segments (launcher_path w (valid_id-Lacks w v)) ∙ ground (arith, v)

parse_session :
    (w s : Text)
    → valid_id w ≡ true
    → valid_id s ≡ true
    → parse_app_route (codes "/app/workspaces/" ++ w ++ codes "/sessions/" ++ s) ≡ session w s
unfolding parse_app_route parse_segments text_beq
parse_session w s v u =
    ap parse_segments (session_path w s (valid_id-Lacks w v) (valid_id-Lacks s u))
    ∙ ground (arith, v, u)

-- For every route whose path is built (its ids are valid): parsing that path gives the route back.
pub parse-app_route_path :
    (r : AppRoute) (p : Text) → app_route_path r ≡ some p → parse_app_route p ≡ r
unfolding app_route_path
parse-app_route_path app_launcher p e =
    ap parse_app_route (sym (ap (λ o. or_default o []) e))
    ∙ (unfold parse_app_route text_beq in refl)
parse-app_route_path settings p e =
    ap parse_app_route (sym (ap (λ o. or_default o []) e))
    ∙ (unfold parse_app_route text_beq in refl)
parse-app_route_path not_found p e = ground (arith, e)
parse-app_route_path (launcher w) p e = elim (Bool-cases (valid_id w)) [
  | inl v ↦ ground (arith, v, e, parse_launcher w v)
  | inr bad ↦ ground (arith, bad, e)
]
parse-app_route_path (session w s) p e = elim (Bool-cases (valid_id w && valid_id s)) [
  | inl v ↦ ground (arith, v, e, parse_session w s)
  | inr bad ↦ ground (arith, bad, e)
]
