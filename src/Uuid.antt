-- ===== src/Uuid.antt =====
-- backend/src/common/utils/uuid.ts
pub mod Shape
use Prim.Native.Nat.{zero, suc}
use internship_project.Base.{ℕ, Bool, true, false, ◌&&◌, ◌||◌, List, [], ◌∷◌, Text, leb, ◌==◌}

-- `[0-9a-f]` under the flag `i`.
pub is_hex : ℕ → Bool
is_hex c = (leb b'0' c && leb c b'9') || ((leb b'a' c && leb c b'f') || (leb b'A' c && leb c b'F'))

-- `[0-9a-f]{n}`, and then the rest of the pattern.
pub hex_run : ℕ → (Text → Bool) → Text → Bool
hex_run zero rest t = rest t
hex_run (suc n) rest [] = false
hex_run (suc n) rest (c ∷ t) = is_hex c && hex_run n rest t

-- `-`, and then the rest of the pattern.
pub dash : (Text → Bool) → Text → Bool
dash rest [] = false
dash rest (c ∷ t) = (c == b'-') && rest t

-- `$`
pub at_end : Text → Bool
at_end [] = true
at_end (c ∷ t) = false

unfoldable pub is_uuid : Text → Bool
unfolding is_hex hex_run dash at_end
is_uuid =
    hex_run 8 (dash (hex_run 4 (dash (hex_run 4 (dash (hex_run 4 (dash (hex_run 12 at_end))))))))
