-- ===== src/Types/Address.antt =====
-- An address determines its node: `from_address` reads back what `address` prints, so comparing
-- addresses is comparing hosts and ports.
use dlstorage.Base.{
  ℕ, ◌+◌, Text, text_eq_iff, ℤ, pos, negsuc, true, none, some, [], ◌∷◌, ◌++◌, ◌≡◌, ◌↔◌, refl, arith,
  ap, sym, ◌∙◌,
}
use dlstorage.Result.{ok}
use dlstorage.Types.{NodeInfo, address, node_eq, rsplit, from_address, to_dict, from_dict}
use dlstorage.Types.Decimal.{decimal, str_int}
use dlstorage.Types.Decimal.RoundTrip.{
  AllDigits, digit_no_colon, decimal-AllDigits, int_text-str_int,
}

rsplit-AllDigits : (t : Text) → AllDigits t → rsplit b':' t ≡ none
unfolding rsplit
rsplit-AllDigits [] h = refl
rsplit-AllDigits (c ∷ cs) h = rw (rsplit-AllDigits cs h.1, digit_no_colon c h.0)

rsplit-minus : (t : Text) → AllDigits t → rsplit b':' (b'-' ∷ t) ≡ none
unfolding rsplit
rsplit-minus t h = rw (rsplit-AllDigits t h)

rsplit-str_int : (n : ℤ) → rsplit b':' (str_int n) ≡ none
unfolding str_int
rsplit-str_int (pos n) = rsplit-AllDigits (decimal n) (decimal-AllDigits n)
rsplit-str_int (negsuc n) = rsplit-minus (decimal (n + 1)) (decimal-AllDigits (n + 1))

rsplit-append :
    (sep : ℕ) (host t : Text)
    → rsplit sep t ≡ none
    → rsplit sep (host ++ (sep ∷ t)) ≡ some (host, t)
unfolding rsplit
rsplit-append sep [] t h = rw h (ground arith)
rsplit-append sep (c ∷ cs) t h = rw (rsplit-append sep cs t h)

-- Reading the address of a node gives the node, whatever colons its host holds.
pub from_address-address : (n : NodeInfo) → from_address (address n) ≡ ok n
unfolding from_address address
from_address-address n =
    rw (rsplit-append b':' n.host (str_int n.port) (rsplit-str_int n.port), int_text-str_int n.port)

-- Two nodes compare equal exactly when their hosts and their ports are the same.
pub node_eq_iff : (a b : NodeInfo) → (node_eq a b ≡ true) ↔ (a ≡ b)
unfolding node_eq
node_eq_iff a b = (
  λ h. ok_injective (
      sym (from_address-address a)
      ∙ ap from_address ((text_eq_iff _ _).0 h)
      ∙ from_address-address b),
  λ e. (text_eq_iff _ _).1 (ap address e),
)
  where
    ok_injective : ok a ≡ ok b → a ≡ b
    ok_injective h = cc

-- The dictionary of a node gives the node back.
pub from_dict-to_dict : (n : NodeInfo) → from_dict (to_dict n) ≡ ok n
unfolding from_dict to_dict
from_dict-to_dict n = refl
