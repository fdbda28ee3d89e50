-- ===== src/Common/Texts.antt =====
-- Equality of texts.
use mathlib.Core.Bool.{Bool, true, false, ◌&&◌, ◌||◌}
use mathlib.Core.List.{List, [], ◌∷◌}
use soup_db.Common.Tests.{◌==◌}
use soup_db.Common.Utf8.{Text}

-- `left == right`
unfoldable pub same_text : Text → Text → Bool
same_text [] [] = true
same_text (a ∷ s) (b ∷ t) = a == b && same_text s t
same_text s t = false

-- `text in texts`
unfoldable pub is_one_of : Text → List Text → Bool
is_one_of text [] = false
is_one_of text (t ∷ texts) = same_text text t || is_one_of text texts
