-- ===== src/Base/Encoding.antt =====
-- Big-endian bytes: `int.from_bytes(b, "big")` and `n.to_bytes(k, "big")`.
use Prim.Native.Nat.{ℕ, zero, suc, ◌+◌, ◌*◌, ◌/◌, ◌%◌, ◌<◌, ◌^◌}
use mathlib.Core.Path.{◌≡◌, refl, ◌∙◌}
use mathlib.Core.List.{List, [], ◌∷◌, ◌++◌}
use native.Mathlib.Omega.{arith}
use native.Mathlib.Nat.{pow-suc}
use dlstorage.Base.Lists.{length, length-append}

abbrev pub Bytes : Type 0
Bytes = List ℕ

from_bytes_acc : ℕ → Bytes → ℕ
from_bytes_acc acc [] = acc
from_bytes_acc acc (b ∷ bs) = from_bytes_acc (acc * 256 + b) bs

unfoldable pub from_bytes : Bytes → ℕ
unfolding from_bytes_acc
from_bytes = from_bytes_acc 0

-- The last byte is the remainder by 256, the bytes before it those of the quotient.
unfoldable pub to_bytes : ℕ → ℕ → Bytes
to_bytes zero n = []
to_bytes (suc k) n = to_bytes k (n / 256) ++ ((n % 256) ∷ [])

pub length-to_bytes : (k n : ℕ) → length (to_bytes k n) ≡ k
unfolding to_bytes
length-to_bytes zero n = refl
length-to_bytes (suc k) n =
    length-append (to_bytes k (n / 256)) ((n % 256) ∷ [])
    ∙ omega (arith, length-to_bytes k (n / 256))

from_bytes_acc-append :
    (acc : ℕ) (xs : Bytes) (b : ℕ)
    → from_bytes_acc acc (xs ++ (b ∷ [])) ≡ from_bytes_acc acc xs * 256 + b
unfolding from_bytes_acc
from_bytes_acc-append acc [] b = refl
from_bytes_acc-append acc (x ∷ xs) b = from_bytes_acc-append (acc * 256 + x) xs b

-- A number below 256^k survives the trip through k bytes.
pub from_bytes-to_bytes : (k n : ℕ) → n < 256 ^ k → from_bytes (to_bytes k n) ≡ n
unfolding to_bytes from_bytes
from_bytes-to_bytes zero n h = omega arith
from_bytes-to_bytes (suc k) n h =
    from_bytes_acc-append 0 (to_bytes k (n / 256)) (n % 256)
    ∙ omega (arith, from_bytes-to_bytes k (n / 256) (quotient_below k n h))
  where
    quotient_below : (j m : ℕ) → m < 256 ^ suc j → m / 256 < 256 ^ j
    quotient_below j m lt = omega (arith, pow-suc 256 j)
