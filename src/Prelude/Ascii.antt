-- ===== src/Prelude/Ascii.antt =====
-- `str.lower` on ASCII letters.
use infomesh.Prelude.Tests.{if◌then◌else◌, leb}
use infomesh.Prelude.Equality.{Text}
use Prim.Native.Nat.{◌+◌}
use mathlib.Core.Bool.{◌&&◌}
use mathlib.Core.List.{[], ◌∷◌}

unfoldable pub lower : Text → Text
lower [] = []
lower (c ∷ cs) = (if leb b'A' c && leb c b'Z' then c + 32 else c) ∷ lower cs
