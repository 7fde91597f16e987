-- ===== src/Ring/Route.antt =====
-- Which nodes a key is routed to.
use mathlib.Core.List.{Mem, Perm, head?, mem-cons_self, mem-cons_of_mem}
use native.Mathlib.Decide.{ℕ_discrete}
use dlstorage.Base.{
  ℕ, zero, suc, ◌-◌, ◌≤◌, min, Text, ℤ, pos, negsuc, Bytes, true, List, [], ◌∷◌, ◌++◌, take, drop,
  length, length-take, take-append-drop, All, All-map, All-drop, All-take, take-filter, take-nil,
  head?-take, All-mem, All-mem_take, ltb, length-perm, ◌≡◌, refl, sym, ap, ◌∙◌, Bool-cases, inl,
  inr, ◌⊎◌,
}
use dlstorage.Types.{NodeInfo}
use dlstorage.Ring.{
  RendezvousRing, is_member, add, remove, differs, score, get_node, get_nodes, ranked_to, max_of,
  slice_to,
}
use dlstorage.Ring.Rank.{insert_by, sort_by}
use dlstorage.Ring.Rank.Laws.{
  IsDescending, IsTieFree, sort_by-perm, sort_by-IsDescending, sort_by-filter, sort_by-perm_eq,
  head-sort_by,
}

NodeInfo-set : IsSet NodeInfo
NodeInfo-set = hlevel ℕ_discrete

module _ (sha256 : Text → Bytes) (key : Text) where
  abbrev ranking : RendezvousRing → List NodeInfo
  ranking r = sort_by (score sha256 key) r.members

  ranked_to-slice :
      (n : ℤ) (ms : List NodeInfo)
      → ranked_to sha256 key n ms ≡ slice_to n (sort_by (score sha256 key) ms)
  unfolding ranked_to
  ranked_to-slice (pos n) [] = sym (unfold sort_by in take-nil n)
  ranked_to-slice (negsuc n) [] = sym (unfold sort_by in take-nil (0 - suc n))
  ranked_to-slice n (m ∷ ms) = refl

  get_nodes-slice : (n : ℤ) (r : RendezvousRing) → get_nodes sha256 key n r ≡ slice_to n (ranking r)
  unfolding get_nodes
  get_nodes-slice n r = ranked_to-slice n r.members

  get_nodes-take :
      (n : ℕ) (r : RendezvousRing) → get_nodes sha256 key (pos n) r ≡ take n (ranking r)
  get_nodes-take n r = get_nodes-slice (pos n) r

  descending-split :
      (n : ℕ) (l : List NodeInfo)
      → IsDescending (score sha256 key) l
      → All (λ a. All (λ b. score sha256 key b ≤ score sha256 key a) (drop n l)) (take n l)
  descending-split zero l h = tt
  descending-split (suc n) [] h = tt
  descending-split (suc n) (x ∷ l) h =
      (All-drop (λ b. score sha256 key b ≤ score sha256 key x) n l h.0, descending-split n l h.1)

  IsDescending-take :
      (n : ℕ) (l : List NodeInfo)
      → IsDescending (score sha256 key) l
      → IsDescending (score sha256 key) (take n l)
  IsDescending-take zero l h = tt
  IsDescending-take (suc n) [] h = tt
  IsDescending-take (suc n) (x ∷ l) h =
      (All-take (λ b. score sha256 key b ≤ score sha256 key x) n l h.0, IsDescending-take n l h.1)

  -- `get_nodes` returns the `n` best scored members (all if there are fewer), best first: with
  -- the members left out they make up the ring, and no member left out beats a returned one.
  pub get_nodes-top :
      (n : ℕ) (r : RendezvousRing)
      → (rest : List NodeInfo) × Perm (get_nodes sha256 key (pos n) r ++ rest) r.members
        × (length (get_nodes sha256 key (pos n) r) ≡ min n (length r.members))
        × IsDescending (score sha256 key) (get_nodes sha256 key (pos n) r)
        × All
            (λ a. All (λ b. score sha256 key b ≤ score sha256 key a) rest)
            (get_nodes sha256 key (pos n) r)
  get_nodes-top n r =
      let descending = sort_by-IsDescending (score sha256 key) r.members in
      rw (get_nodes-take n r) (
        drop n (ranking r),
        rw (take-append-drop n (ranking r)) (sort_by-perm (score sha256 key) r.members),
        length-take n (ranking r)
            ∙ ap (min n) (length-perm (sort_by-perm (score sha256 key) r.members)),
        IsDescending-take n (ranking r) descending,
        descending-split n (ranking r) descending,
      )

  -- `get_node` is the first of the nodes that `get_nodes` returns.
  pub get_node-head :
      (n : ℕ) (r : RendezvousRing)
      → get_node sha256 key r ≡ head? (get_nodes sha256 key (pos (suc n)) r)
  unfolding get_node
  get_node-head n r =
      max-head r.members
      ∙ sym (head?-take n (ranking r))
      ∙ ap head? (sym (get_nodes-take (suc n) r))
    where
      max-head : (ms : List NodeInfo) → max_of sha256 key ms ≡ head? (sort_by (score sha256 key) ms)
      max-head [] = unfold max_of sort_by in refl
      max-head (m ∷ ms) = unfold max_of in sym (head-sort_by (score sha256 key) m ms)

  -- Two rings with the same members, in whatever order each, route a key to the same nodes,
  -- provided that no two members have the same score for it.
  pub get_nodes-perm :
      (n : ℤ) (r r' : RendezvousRing)
      → Perm r.members r'.members
      → IsTieFree (score sha256 key) r.members
      → get_nodes sha256 key n r ≡ get_nodes sha256 key n r'
  get_nodes-perm n r r' p h =
      get_nodes-slice n r
      ∙ ap (slice_to n) (sort_by-perm_eq (score sha256 key) NodeInfo-set r.members r'.members p h)
      ∙ sym (get_nodes-slice n r')

  -- When a node leaves that a key is not routed to, the key is routed as before.
  pub get_nodes-remove :
      (n : ℕ) (m : NodeInfo) (r : RendezvousRing)
      → All (λ a. differs m a ≡ true) (get_nodes sha256 key (pos n) r)
      → get_nodes sha256 key (pos n) (remove m r) ≡ get_nodes sha256 key (pos n) r
  unfolding remove
  get_nodes-remove n m r h =
      get_nodes-take n (remove m r)
      ∙ ap (take n) (sort_by-filter (score sha256 key) (differs m) r.members)
      ∙ take-filter (differs m) n (ranking r) (rw (get_nodes-take n r) at h)
      ∙ sym (get_nodes-take n r)

  take-insert_by :
      (n : ℕ) (m : NodeInfo) (l : List NodeInfo)
      → All (λ a. (a ≡ m) ⊎ Mem a (take n l)) (take n (insert_by (score sha256 key) m l))
  unfolding insert_by
  take-insert_by zero m l = tt
  take-insert_by (suc n) m [] = (inl refl, rw (take-nil {A = NodeInfo} n) tt)
  take-insert_by (suc n) m (y ∷ l) =
      elim (Bool-cases (ltb (score sha256 key m) (score sha256 key y))) [
        | inl below ↦ rw below (
          inr mem-cons_self,
          All-map (λ a. (a ≡ m) ⊎ Mem a (take n l)) (λ a. (a ≡ m) ⊎ Mem a (y ∷ take n l)) _
              (λ a. elim [ inl e ↦ inl e | inr h ↦ inr (mem-cons_of_mem y h) ])
              (take-insert_by n m l),
        )
        | inr above ↦ rw above (
          inl refl,
          All-map (λ a. Mem a (take (suc n) (y ∷ l))) (λ a. (a ≡ m) ⊎ Mem a (take (suc n) (y ∷ l)))
              (take n (y ∷ l)) (λ a h. inr h) (All-mem_take n (y ∷ l)),
        )
      ]

  ranking-add :
      (n : ℕ) (m : NodeInfo) (r : RendezvousRing)
      → All (λ a. (a ≡ m) ⊎ Mem a (take n (ranking r))) (take n (ranking (add m r)))
  unfolding add
  ranking-add n m r = elim (Bool-cases (is_member m r.members)) [
    | inl old ↦ rw old (
        All-map (λ a. Mem a (take n (ranking r))) (λ a. (a ≡ m) ⊎ Mem a (take n (ranking r)))
          (take n (ranking r)) (λ a h. inr h) (All-mem (take n (ranking r))))
    | inr new ↦ rw new (unfold sort_by in take-insert_by n m (ranking r))
  ]

  -- When a node joins, each node that a key is routed to is the new one or one that the key was
  -- routed to before: no key moves between the nodes that were there.
  pub get_nodes-add :
      (n : ℕ) (m : NodeInfo) (r : RendezvousRing)
      → All
          (λ a. (a ≡ m) ⊎ Mem a (get_nodes sha256 key (pos n) r))
          (get_nodes sha256 key (pos n) (add m r))
  get_nodes-add n m r = rw (get_nodes-take n r, get_nodes-take n (add m r)) (ranking-add n m r)
