-- ===== src/Discovery/Hosts.antt =====
-- The peers behind the addresses of a host name.
use dlstorage.Base.{
  Text, text_eq_iff, text_eq_self, false, List, [], ◌∷◌, if◌then◌else◌, ◌≡◌, refl, arith,
  Bool-cases, inl, inr,
}
use dlstorage.Discovery.{is_seen, unseen}

-- No text stands twice.
abbrev pub IsDistinct : List Text → Type 0
IsDistinct [] = Unit
IsDistinct (t ∷ ts) = (is_seen t ts ≡ false) × IsDistinct ts

is_seen-unseen :
    (k : Text) (seen ips : List Text)
    → is_seen k (unseen seen ips) ≡ (if is_seen k seen then false else is_seen k ips)
unfolding is_seen unseen
is_seen-unseen k seen [] = ground arith
is_seen-unseen k seen (ip ∷ ips) =
    ground (arith, text_eq_iff ip k, is_seen-unseen k seen ips, is_seen-unseen k (ip ∷ seen) ips)

unseen-IsDistinct : (seen ips : List Text) → IsDistinct (unseen seen ips)
unfolding unseen is_seen
unseen-IsDistinct seen [] = tt
unseen-IsDistinct seen (ip ∷ ips) = elim (Bool-cases (is_seen ip seen)) [
  | inl old ↦ rw old (unseen-IsDistinct seen ips)
  | inr new ↦ rw new (is_new, unseen-IsDistinct (ip ∷ seen) ips)
]
  where
    is_new : is_seen ip (unseen (ip ∷ seen) ips) ≡ false
    is_new = rw (is_seen-unseen ip (ip ∷ seen) ips, text_eq_self ip) refl

-- The peers of a host name are the resolved addresses, each once: no address stands twice, and
-- an address is among them exactly if it was resolved.
pub unseen_lem :
    (ips : List Text)
    → IsDistinct (unseen [] ips) × ((k : Text) → is_seen k (unseen [] ips) ≡ is_seen k ips)
unfolding is_seen
unseen_lem ips = (unseen-IsDistinct [] ips, λ k. is_seen-unseen k [] ips)
