-- ===== src/Prelude/Memory.antt =====
-- C strings and memory as lists of bytes. A C string is the list of its bytes before the NUL;
-- `none` stands for a null pointer.
use Prim.Native.Char.{code}
use Prim.Native.Nat.{ℕ, ◌<◌}
use Prim.Native.String.{String}
use mathlib.Core.Path.{◌≡◌, refl}
use mathlib.Core.Logic.{◌↔◌}
use mathlib.Core.Bool.{Bool, true, false, ◌&&◌}
use mathlib.Core.List.{List, [], ◌∷◌}
use native.Mathlib.Omega.{arith}
use holyhttp.Prelude.Lists.{All, length, take}
use holyhttp.Prelude.Tests.{◌==◌}

abbrev pub Bytes : Type 0
Bytes = List ℕ

-- The bytes of an ASCII literal.
abbrev pub codes : String → Bytes
codes String.[] = []
codes (String.◌∷◌ c s) = code c ∷ codes s

-- A byte that can stand in a C string.
abbrev pub IsChar : ℕ → Type 0
IsChar c = (0 < c) × (c < 256)

abbrev pub IsText : Bytes → Type 0
IsText = All IsChar

-- `strcmp (a, b) == 0`, and `memcmp` over equal lengths.
unfoldable pub bytes_eq : Bytes → Bytes → Bool
bytes_eq [] [] = true
bytes_eq [] (b ∷ bs) = false
bytes_eq (a ∷ as') [] = false
bytes_eq (a ∷ as') (b ∷ bs) = a == b && bytes_eq as' bs

pub eq_of_bytes_eq : (a b : Bytes) → bytes_eq a b ≡ true → a ≡ b
unfolding bytes_eq
eq_of_bytes_eq [] [] h = refl
eq_of_bytes_eq [] (b ∷ bs) h = cc
eq_of_bytes_eq (a ∷ as') [] h = cc
eq_of_bytes_eq (a ∷ as') (b ∷ bs) h = ground (arith, eq_of_bytes_eq as' bs)

pub bytes_eq_refl : (a : Bytes) → bytes_eq a a ≡ true
unfolding bytes_eq
bytes_eq_refl [] = refl
bytes_eq_refl (a ∷ as') = ground (arith, bytes_eq_refl as')

pub bytes_eq_iff : (a b : Bytes) → (bytes_eq a b ≡ true) ↔ (a ≡ b)
bytes_eq_iff a b = (eq_of_bytes_eq a b, λ e. ground (arith, e, bytes_eq_refl a))

-- `strncmp (s, p, strlen (p)) == 0`: `p` stands at the front of `s`.
unfoldable pub is_prefix : Bytes → Bytes → Bool
is_prefix [] s = true
is_prefix (c ∷ p) [] = false
is_prefix (c ∷ p) (d ∷ s) = c == d && is_prefix p s

pub is_prefix_iff : (p s : Bytes) → (is_prefix p s ≡ true) ↔ (take (length p) s ≡ p)
unfolding is_prefix
is_prefix_iff [] s = (λ _. refl, λ _. refl)
is_prefix_iff (c ∷ p) [] = (λ h. cc, λ h. cc)
is_prefix_iff (c ∷ p) (d ∷ s) =
    (λ h. ground (arith, is_prefix_iff p s), λ h. ground (arith, is_prefix_iff p s))
