-- ===== src/Proto/Bytes.antt =====
-- Little-endian bytes of unsigned words (`to_le_bytes` and `from_le_bytes` of u16 and u32).
use psroot.Prelude.{ℕ, ◌+◌, ◌*◌, ◌/◌, ◌%◌, ◌^◌, ◌<◌, ◌≡◌, List, [], ◌∷◌, All, arith}

abbrev pub IsByte : ℕ → Type 0
IsByte b = b < 256

abbrev pub to_le16 : ℕ → List ℕ
to_le16 v = v % 256 ∷ v / 256 % 256 ∷ []

abbrev pub from_le16 : ℕ → ℕ → ℕ
from_le16 a b = a + 256 * b

abbrev pub to_le32 : ℕ → List ℕ
to_le32 v = v % 256 ∷ v / 256 % 256 ∷ v / 65536 % 256 ∷ v / 16777216 % 256 ∷ []

abbrev pub from_le32 : ℕ → ℕ → ℕ → ℕ → ℕ
from_le32 a b c d = a + 256 * b + 65536 * c + 16777216 * d

pub from_le16-to_le16 : (v : ℕ) → v < 2 ^ 16 → from_le16 (v % 256) (v / 256 % 256) ≡ v
from_le16-to_le16 v h = omega arith

pub from_le32-to_le32 :
    (v : ℕ)
    → v < 2 ^ 32
    → from_le32 (v % 256) (v / 256 % 256) (v / 65536 % 256) (v / 16777216 % 256) ≡ v
from_le32-to_le32 v h = omega arith

to_le32-All : (v : ℕ) → All IsByte (to_le32 v)
to_le32-All v = omega arith
