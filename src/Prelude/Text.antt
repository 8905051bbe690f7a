-- ===== src/Prelude/Text.antt =====
-- `strings.EqualFold`, on the characters of two texts.
use Prim.Native.Nat.{ℕ, ◌+◌}
use Prim.Native.Char.{code}
use Prim.Native.String.{String, [], ◌∷◌}
use mathlib.Core.Bool.{Bool, true, false, ◌&&◌}
use ficmart_payment_gateway.Prelude.Tests.{leb, ◌==◌, if◌then◌else◌}

-- Only ASCII letters are folded. The gateway folds against one constant, which holds no letter
-- with a case variant outside ASCII (those are k and s), so the comparison is exact there.
fold_case : ℕ → ℕ
fold_case c = if leb b'A' c && leb c b'Z' then c + 32 else c

unfoldable pub equal_fold : String → String → Bool
unfolding fold_case
equal_fold [] [] = true
equal_fold [] (d ∷ t) = false
equal_fold (c ∷ s) [] = false
equal_fold (c ∷ s) (d ∷ t) = (fold_case (code c) == fold_case (code d)) && equal_fold s t
