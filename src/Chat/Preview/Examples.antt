-- ===== src/Chat/Preview/Examples.antt =====
-- `StreamingPreview` (extensions/chat-inbox/render/streaming.ts) on a service that keeps its messages in a
-- list.
use picot.Base.{
  ℕ, zero, suc, ◌≡◌, refl, ap, ◌∙◌, ◌≢◌, ◌⊎◌, inl, inr, Bool, true, false, Option, none, some, List,
  [], ◌∷◌, ◌++◌, arith, ltb, nat_eq, option_eq, Text, codes, text_eq, length, get_elem?,
}
use picot.Chat.Markdown.Renderer.{new_renderer}
use picot.Chat.Preview.{Transport, Preview, Rendered, ids, take_in, parts_of, update}
use picot.Chat.Preview.Mirror.{Service, Reliable, Mirrors}
use picot.Chat.Preview.Update.{overlay, texts, update-overlay, update-Mirrors}

-- The message's position is its id.
abbrev set_elem : List Text → ℕ → Text → List Text
set_elem [] k t = []
set_elem (m ∷ ms) zero t = t ∷ ms
set_elem (m ∷ ms) (suc k) t = m ∷ set_elem ms k t

abbrev shown : List Text → Text → Option Text
shown w [] = none
shown w (k ∷ []) = get_elem? w k
shown w (k ∷ k' ∷ ks) = none

abbrev edit_message : List Text → Text → Text → Option Text → List Text × Bool
edit_message w [] t mode = (w, false)
edit_message w (k ∷ []) t mode = (set_elem w k t, ltb k (length w))
edit_message w (k ∷ k' ∷ ks) t mode = (w, false)

abbrev message_list : Transport (List Text)
message_list = record {
  create = λ w t mode reply. (w ++ t ∷ [], some (length w ∷ []));
  edit = edit_message;
  delete = λ w id. (w, true);
}

get_elem?-end : (w : List Text) → get_elem? w (length w) ≡ none
get_elem?-end [] = refl
get_elem?-end (m ∷ w) = get_elem?-end w

get_elem?-added : (w : List Text) (t : Text) → get_elem? (w ++ t ∷ []) (length w) ≡ some t
get_elem?-added [] t = refl
get_elem?-added (m ∷ w) t = get_elem?-added w t

get_elem?-more :
    (w : List Text) (k : ℕ) (t u : Text)
    → get_elem? w k ≡ some u
    → get_elem? (w ++ t ∷ []) k ≡ some u
get_elem?-more [] k t u h = cc
get_elem?-more (m ∷ w) zero t u h = h
get_elem?-more (m ∷ w) (suc k) t u h = get_elem?-more w k t u h

get_elem?-set :
    (w : List Text) (k : ℕ) (t : Text)
    → ltb k (length w) ≡ true
    → get_elem? (set_elem w k t) k ≡ some t
get_elem?-set [] k t h = absurd (ground (arith, h))
get_elem?-set (m ∷ w) zero t h = refl
get_elem?-set (m ∷ w) (suc k) t h = get_elem?-set w k t (ground (arith, h))

get_elem?-other :
    (w : List Text) (k j : ℕ) (t : Text) → j ≢ k → get_elem? (set_elem w k t) j ≡ get_elem? w j
get_elem?-other [] k j t n = refl
get_elem?-other (m ∷ w) zero zero t n = absurd (n refl)
get_elem?-other (m ∷ w) zero (suc j) t n = refl
get_elem?-other (m ∷ w) (suc k) zero t n = refl
get_elem?-other (m ∷ w) (suc k) (suc j) t n = get_elem?-other w k j t (λ e. n (ap suc e))

get_elem?-absent :
    (w : List Text) (k : ℕ) (t : Text) → ltb k (length w) ≡ false → set_elem w k t ≡ w
get_elem?-absent [] k t h = refl
get_elem?-absent (m ∷ w) zero t h = absurd (ground (arith, h))
get_elem?-absent (m ∷ w) (suc k) t h = ap (◌∷◌ m) (get_elem?-absent w k t (ground (arith, h)))

shown-more : (w : List Text) (t j u : Text) → shown w j ≡ some u → shown (w ++ t ∷ []) j ≡ some u
shown-more w t [] u h = h
shown-more w t (k ∷ []) u h = get_elem?-more w k t u h
shown-more w t (k ∷ k' ∷ ks) u h = h

edited :
    (w : List Text) (id t : Text) (mode : Option Text)
    → (edit_message w id t mode).1 ≡ true
    → shown (edit_message w id t mode).0 id ≡ some t
edited w [] t mode h = absurd (ground (arith, h))
edited w (k ∷ []) t mode h = get_elem?-set w k t h
edited w (k ∷ k' ∷ ks) t mode h = absurd (ground (arith, h))

edit_keeps_other :
    (w : List Text) (id t : Text) (mode : Option Text) (j u : Text)
    → (j ≢ id) ⊎ ((edit_message w id t mode).1 ≡ false)
    → shown w j ≡ some u
    → shown (edit_message w id t mode).0 j ≡ some u
edit_keeps_other w [] t mode j u n h = h
edit_keeps_other w (k ∷ k' ∷ ks) t mode j u n h = h
edit_keeps_other w (k ∷ []) t mode [] u n h = h
edit_keeps_other w (k ∷ []) t mode (i ∷ i' ∷ is) u n h = h
edit_keeps_other w (k ∷ []) t mode (i ∷ []) u (inl n) h =
    get_elem?-other w k i t (λ e. n (ap (λ x. x ∷ []) e)) ∙ h
edit_keeps_other w (k ∷ []) t mode (i ∷ []) u (inr failed) h =
    ap (λ ms. get_elem? ms i) (get_elem?-absent w k t failed) ∙ h

message_list_lem : Service message_list shown
message_list_lem = record {
  create_fresh = λ w t mode reply id e. ground (arith, e, get_elem?-end w);
  create_shows = λ w t mode reply id e. ground (arith, e, get_elem?-added w t);
  create_keeps = λ w t mode reply j u h. shown-more w t j u h;
  edit_shows = edited;
  edit_keeps = edit_keeps_other;
}

-- A service that answers every call, and shows nothing.
abbrev answering : Transport ℕ
answering = record {
  create = λ n t mode reply. (suc n, some (n ∷ []));
  edit = λ n id t mode. (n, true);
  delete = λ n id. (n, true);
}

answering_lem : Reliable answering
answering_lem = record { creates = λ n t mode reply. (n ∷ [], refl); edits = λ n id t mode. refl }

abbrev as_it_is : Text → Rendered
as_it_is t = record { text = t; parse_mode = none }

abbrev one_message : Preview
one_message = record {
  renderer = record (new_renderer true) {
    accumulated = codes "abc";
    incomplete_line = codes "abc";
  };
  raw_text = codes "abc";
  chunks = record { id = 0 ∷ []; text = codes "abc" } ∷ [];
  reply_to = none;
}

update-Mirrors_example :
    let after =
      update message_list
        (λ t. t)
        as_it_is
        4
        (codes "abc" ∷ [])
        one_message
        (codes "abcdefg")
        true in
    Mirrors message_list shown after.0 after.1.0.chunks
update-Mirrors_example =
    update-Mirrors message_list (λ t. t) as_it_is 4 shown message_list_lem (codes "abc" ∷ [])
      one_message (codes "abcdefg") true (refl, (tt, tt))

update-overlay_example :
    let taken = take_in (λ t. t) one_message (codes "abcdefg") true in
    let parts = parts_of 4 (as_it_is taken.1) in
    let after = update answering (λ t. t) as_it_is 4 1 one_message (codes "abcdefg") true in
    (after.1.1 ≡ some (ids after.1.0.chunks))
    × (texts after.1.0.chunks ≡ overlay parts (texts taken.0.chunks))
update-overlay_example =
    update-overlay answering (λ t. t) as_it_is 4 answering_lem 1 one_message (codes "abcdefg") true
