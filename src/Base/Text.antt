-- ===== src/Base/Text.antt =====
-- Decidable equality of texts.
use Prim.Native.String.{String}
use mathlib.Core.Bool.{Bool, true, false, false≢true}
use mathlib.Core.Path.{◌≡◌, refl, ◌∙◌, sym}
use text.Mathlib.Text.{◌==◌ as str_eq}
use text.Mathlib.TextEquality.{eq_iff}

-- the decision that the native test makes
abbrev decided : (s t : String) (b : Bool) → str_eq s t ≡ b → Dec (s ≡ t)
decided s t true same = yes ((eq_iff s t).0 same)
decided s t false apart = no (λ e. false≢true (sym apart ∙ (eq_iff s t).1 e))

abbrev pub String-discrete : Discrete String
String-discrete s t = decided s t (str_eq s t) refl
