-- ===== src/Prelude/Chars/Strip.antt =====
-- A text without spaces around it is left as it is.
use Prim.Native.Char.{Char}
use Prim.Native.String.{String}
use mathlib.Core.Bool.{Bool, false}
use mathlib.Core.Logic.{inl, inr}
use mathlib.Core.Path.{◌≡◌, refl, ap, ◌∙◌}
use ho_h.Prelude.Chars.{strip_left, strip_right, unless_blank, strip, is_space}
use ho_h.Prelude.Tests.{Bool-cases}

module _ (test : Char → Bool) where
  unless_blank-again :
      (c : Char) (s : String)
      → strip_right test s ≡ s
      → strip_right test (unless_blank test c s) ≡ unless_blank test c s
  unfolding strip_right unless_blank
  unless_blank-again c String.[] h = elim (Bool-cases (test c)) [
    | inl blank ↦ rw blank refl
    | inr other ↦ rw other (rw other refl)
  ]
  unless_blank-again c (String.◌∷◌ d s) h = ap (unless_blank test c) h

  strip_right-again : (s : String) → strip_right test (strip_right test s) ≡ strip_right test s
  unfolding strip_right
  strip_right-again String.[] = refl
  strip_right-again (String.◌∷◌ c s) =
      unless_blank-again c (strip_right test s) (strip_right-again s)

  -- the first character passes the test in neither text
  strip_left-right :
      (c : Char) (rest : String)
      → test c ≡ false
      → strip_left test (unless_blank test c rest) ≡ unless_blank test c rest
  unfolding strip_left unless_blank
  strip_left-right c String.[] other = rw other (rw other refl)
  strip_left-right c (String.◌∷◌ d s) other = rw other refl

  strip_left-again :
      (s : String)
      → strip_left test (strip_right test (strip_left test s))
        ≡ strip_right test (strip_left test s)
  unfolding strip_left strip_right
  strip_left-again String.[] = refl
  strip_left-again (String.◌∷◌ c s) = elim (Bool-cases (test c)) [
    | inl blank ↦ rw blank (strip_left-again s)
    | inr other ↦ rw other (strip_left-right c (strip_right test s) other)
  ]

pub strip-strip : (s : String) → strip (strip s) ≡ strip s
unfolding strip
strip-strip s =
    ap (strip_right is_space) (strip_left-again is_space s)
    ∙ strip_right-again is_space (strip_left is_space s)
