-- ===== src/Base/Js.antt =====
-- The language's conventions: a field that may be `null` or `undefined` is an Option, a text is
-- falsy when it is empty.
use mathlib.Core.List.{[], ◌∷◌}
use picot.Base.Strings.{Text}
use mathlib.Core.Bool.{Bool, true, false}
use mathlib.Core.Option.{Option, none, some}
use picot.Base.Tests.{if◌then◌else◌}

-- `a ?? b`
abbrev pub or_default {ℓ} : {A : Type ℓ} → Option A → A → A
or_default none b = b
or_default (some a) b = a

-- `a ?? b` where `b` may itself be absent
abbrev pub or_option {ℓ} : {A : Type ℓ} → Option A → Option A → Option A
or_option none b = b
or_option (some a) b = some a

abbrev pub is_some {ℓ} : {A : Type ℓ} → Option A → Bool
is_some none = false
is_some (some a) = true

-- `Boolean(text)`
abbrev pub truthy : Text → Bool
truthy [] = false
truthy (c ∷ s) = true

-- `Boolean(value)` for an optional text
abbrev pub truthy? : Option Text → Bool
truthy? none = false
truthy? (some s) = truthy s

-- `a || b` for an optional text and a text
abbrev pub or_text : Option Text → Text → Text
or_text none b = b
or_text (some a) b = if truthy a then a else b

-- `a || b` for two optional texts
abbrev pub or_text? : Option Text → Option Text → Option Text
or_text? none b = b
or_text? (some a) b = if truthy a then some a else b
