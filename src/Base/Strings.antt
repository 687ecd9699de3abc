-- ===== src/Base/Strings.antt =====
-- The functions of Go's package strings that the source calls.
use Prim.Native.String.{String, ◌++◌}
use mathlib.Core.Path.{◌≡◌, sym}
use mathlib.Core.Logic.{◌≢◌}
use text.Mathlib.TextEquality.{eq_iff}
use mathlib.Core.Bool.{Bool, true, ◌||◌}
use native.Mathlib.Omega.{arith}
use text.Mathlib.Text.{◌==◌}
use text.Mathlib.TextPositions.{eq_refl}
use text.Mathlib.TextLemmas.{nil-append, cons-append, cons≢nil}
use multinic.Base.Tests.{if◌then◌else◌}

-- strings.HasSuffix: some tail of the text is the suffix.
unfoldable pub has_suffix : String → String → Bool
has_suffix String.[] t = String.[] == t
has_suffix (String.◌∷◌ c s) t = (String.◌∷◌ c s == t) || has_suffix s t

-- strings.TrimSuffix: the text without that tail, or the text itself.
unfoldable pub trim_suffix : String → String → String
trim_suffix String.[] t = String.[]
trim_suffix (String.◌∷◌ c s) t =
    let rest = String.◌∷◌ c (trim_suffix s t) in if String.◌∷◌ c s == t then String.[] else rest

pub has_suffix_self : (t : String) → has_suffix t t ≡ true
unfolding has_suffix
has_suffix_self String.[] = eq_refl String.[]
has_suffix_self (String.◌∷◌ c s) = rw (eq_refl (String.◌∷◌ c s))

pub has_suffix-append : (s t : String) → has_suffix (s ++ t) t ≡ true
unfolding has_suffix
has_suffix-append String.[] t = rw (nil-append t) (has_suffix_self t)
has_suffix-append (String.◌∷◌ c s) t =
    rw (cons-append c s t) (ground (arith, has_suffix-append s t))

-- `+` on texts.
abbrev pub concat : String → String → String
concat s t = s ++ t

pub concat-ne-nil : (s t : String) → t ≢ "" → concat s t ≢ ""
concat-ne-nil String.[] t h e = h (rw (nil-append t) at e)
concat-ne-nil (String.◌∷◌ c s) t h e = cons≢nil (rw (cons-append c s t) at e)

-- Only the empty text is a suffix of the empty text.
pub has_suffix_nil : (s t : String) → s ≡ "" → has_suffix s t ≡ true → t ≡ ""
unfolding has_suffix
has_suffix_nil s t e h = sym ((eq_iff "" t).0 (rw (e, has_suffix) at h))
