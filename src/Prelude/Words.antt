-- ===== src/Prelude/Words.antt =====
-- Machine words as native numbers with the wrap written out, and byte strings.
use Prim.Native.Nat.{ℕ, ◌+◌, ◌-◌, ◌*◌, ◌/◌, ◌%◌, ◌^◌, ◌<◌}
use mathlib.Core.Path.{◌≡◌, refl, ap₂}
use mathlib.Core.Logic.{◌↔◌}
use mathlib.Core.Bool.{Bool, true, false, ◌&&◌}
use mathlib.Core.List.{List, [], ◌∷◌, ◌++◌}
use native.Mathlib.Omega.{arith}
use project_tox_core.Prelude.Lists.{get_or}
use project_tox_core.Prelude.Tests.{◌==◌}

abbrev pub add8 : ℕ → ℕ → ℕ
add8 a b = (a + b) % 2 ^ 8

abbrev pub sub8 : ℕ → ℕ → ℕ
sub8 a b = (a + 2 ^ 8 - b) % 2 ^ 8

abbrev pub add16 : ℕ → ℕ → ℕ
add16 a b = (a + b) % 2 ^ 16

abbrev pub add32 : ℕ → ℕ → ℕ
add32 a b = (a + b) % 2 ^ 32

abbrev pub sub32 : ℕ → ℕ → ℕ
sub32 a b = (a + 2 ^ 32 - b) % 2 ^ 32

abbrev pub add64 : ℕ → ℕ → ℕ
add64 a b = (a + b) % 2 ^ 64

abbrev pub sub64 : ℕ → ℕ → ℕ
sub64 a b = (a + 2 ^ 64 - b) % 2 ^ 64

-- `memcmp(a, b, n) == 0`, at two byte strings of the `n` bytes that are compared.
unfoldable pub bytes_eq : List ℕ → List ℕ → Bool
bytes_eq [] [] = true
bytes_eq [] (y ∷ ys) = false
bytes_eq (x ∷ xs) [] = false
bytes_eq (x ∷ xs) (y ∷ ys) = (x == y) && bytes_eq xs ys

pub bytes_eq→eq : (xs ys : List ℕ) → bytes_eq xs ys ≡ true → xs ≡ ys
unfolding bytes_eq
bytes_eq→eq [] [] h = refl
bytes_eq→eq [] (y ∷ ys) h = absurd (cc)
bytes_eq→eq (x ∷ xs) [] h = absurd (cc)
bytes_eq→eq (x ∷ xs) (y ∷ ys) h = ap₂ ◌∷◌ (ground arith) (bytes_eq→eq xs ys (ground arith))

pub bytes_eq_refl : (xs : List ℕ) → bytes_eq xs xs ≡ true
unfolding bytes_eq
bytes_eq_refl [] = refl
bytes_eq_refl (x ∷ xs) = ground (arith, bytes_eq_refl xs)

pub bytes_eq_iff : (xs ys : List ℕ) → (bytes_eq xs ys ≡ true) ↔ (xs ≡ ys)
bytes_eq_iff xs ys = (bytes_eq→eq xs ys, λ e. rw e (bytes_eq_refl ys))

-- The four bytes of a `uint32_t`, least significant first.
abbrev pub bytes32 : ℕ → List ℕ
bytes32 n = n % 256 ∷ n / 2 ^ 8 % 256 ∷ n / 2 ^ 16 % 256 ∷ n / 2 ^ 24 % 256 ∷ []

-- The `uint32_t` in four bytes from byte `i` on, least significant first.
abbrev pub le32_at : List ℕ → ℕ → ℕ
le32_at bytes i =
    get_or bytes i 0
    + get_or bytes (i + 1) 0 * 2 ^ 8
    + get_or bytes (i + 2) 0 * 2 ^ 16
    + get_or bytes (i + 3) 0 * 2 ^ 24

-- The eight bytes of a `uint64_t`, least significant first, and back.
abbrev pub bytes64 : ℕ → List ℕ
bytes64 n = bytes32 n ++ bytes32 (n / 2 ^ 32)

abbrev pub read_le64 : List ℕ → ℕ
read_le64 bytes = le32_at bytes 0 + le32_at bytes 4 * 2 ^ 32

abbrev pub bytes16 : ℕ → List ℕ
bytes16 n = n % 256 ∷ n / 2 ^ 8 % 256 ∷ []

pub read_le64-bytes64 : (n : ℕ) → n < 2 ^ 64 → read_le64 (bytes64 n) ≡ n
read_le64-bytes64 n h = omega arith
