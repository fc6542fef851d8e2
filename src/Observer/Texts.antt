-- ===== src/Observer/Texts.antt =====
-- observer/contracts.py: the order of texts that `sorted` uses, by their code points.
use Prim.Native.Char.{code}
use Prim.Native.String.{[], ◌∷◌}
use adaptive_trading_ecosyst.Prelude.{Bool, true, false, ◌&&◌, ◌||◌, ltb, ◌==◌, String}

abbrev pub text_before : String → String → Bool
text_before s [] = false
text_before [] (d ∷ t) = true
text_before (c ∷ s) (d ∷ t) = ltb (code c) (code d) || (code c == code d && text_before s t)
