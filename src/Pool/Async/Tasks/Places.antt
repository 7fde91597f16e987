-- ===== src/Pool/Async/Tasks/Places.antt =====
-- Who has which connection of the asynchronous pool, whatever its tasks do.
use dlstorage.Base.{
  Text, ℕ, zero, suc, ◌+◌, ◌≤◌, ◌<◌, ◌==◌, true, not, Option, none, some, List, [], ◌∷◌, length,
  ◌≡◌, refl, arith, Bool-cases, inl, inr,
}
use mathlib.Core.Path.{subst}
use dlstorage.Dict
use dlstorage.Dict.{Dict}
use dlstorage.Pool.Async.{drop_stale}
use dlstorage.Mux.Counts.{one, count, count_fst}
use dlstorage.Pool.Async.Tasks.{Tasks, is_open, fill, queue_of, take_from, begin, connected}
use dlstorage.Pool.Async.Tasks.Queues.{
  sum_below, sum_above, sum_updated, count-drop_stale, length-drop_stale, AreKnown, AreKnown-suc,
  AreKnown-put, get-AreKnown,
}

abbrev pub in_queues : ℕ → Tasks → ℕ
in_queues k s = sum_below s.next (λ q. count k (s.content q))

-- The places where a connection can be: in a queue, with a call, or with one that was cancelled.
abbrev pub places : ℕ → Tasks → ℕ
places k s = in_queues k s + count_fst k s.lent + count k s.lost

pub record IsTidy (n : ℕ) (s : Tasks) : Type 0 where
  pub placed : (k : ℕ) → count k s.opened ≤ places k s
  pub once : (k : ℕ) → places k s ≤ 1
  pub short : (q : ℕ) → length (s.content q) ≤ n
  pub lent_known : AreKnown s.next s.lent
  pub queues_known : AreKnown s.next s.queues

pub in_queues-fill :
    (k q : ℕ) (l : List ℕ) (s : Tasks)
    → q < s.next
    → in_queues k (fill q l s) + count k (s.content q) ≡ in_queues k s + count k l
in_queues-fill k q l s h = sum_updated k s.next q l s.content h

pub short-fill :
    (n q : ℕ) (l : List ℕ) (s : Tasks)
    → length l ≤ n
    → ((p : ℕ) → length (s.content p) ≤ n)
    → (p : ℕ) → length ((fill q l s).content p) ≤ n
short-fill n q l s short h p = elim (Bool-cases (p == q)) [
  | inl same ↦ rw same short
  | inr other ↦ rw other (h p)
]

in_queues-new :
    (k : ℕ) (s : Tasks)
    → in_queues k (record (fill s.next [] s) { next = suc s.next }) ≡ in_queues k s
in_queues-new k s =
    let self : (s.next == s.next) ≡ true = ground arith in
    let rest = sum_above k s.next s.next [] s.content (omega arith) in rw self (omega (arith, rest))

queue_of-IsTidy :
    (n : ℕ) (a : Text) (s : Tasks) (o : Option ℕ)
    → Dict.get a s.queues ≡ o
    → IsTidy n s
    → IsTidy n (queue_of a o s).1 × ((queue_of a o s).0 < (queue_of a o s).1.next)
queue_of-IsTidy n a s (some q) e t = (t, get-AreKnown s.next q a s.queues t.queues_known e)
queue_of-IsTidy n a s none e t = (
  record {
    placed = λ k. omega (arith, t.placed k, in_queues-new k s);
    once = λ k. omega (arith, t.once k, in_queues-new k s);
    short = short-fill n s.next [] s (omega arith) t.short;
    lent_known = AreKnown-suc s.next s.lent t.lent_known;
    queues_known =
        AreKnown-put (suc s.next) s.next a s.queues (omega arith)
          (AreKnown-suc s.next s.queues t.queues_known);
  },
  omega arith,
)

-- An open connection of a queue is still there when the closing ones on top have been dropped.
dropped :
    (k q : ℕ) (s : Tasks)
    → (count k (drop_stale (λ conn. not (is_open conn s)) (s.content q)) ≤ count k (s.content q))
      × (0 < count k s.opened
          → count k (drop_stale (λ conn. not (is_open conn s)) (s.content q))
            ≡ count k (s.content q))
dropped k q s =
    let (less, same) = count-drop_stale k (λ conn. not (is_open conn s)) (s.content q) in
    (less, λ there. same (ground (arith, there)))

pub placed_if : (a b : ℕ) → (0 < a → a ≤ b) → a ≤ b
placed_if zero b h = omega arith
placed_if (suc a) b h = h (omega arith)

IsTidy-take_from :
    (n q : ℕ) (l : List ℕ) (s : Tasks)
    → q < s.next
    → length l ≤ length (s.content q)
    → ((k : ℕ)
        → (count k l ≤ count k (s.content q))
          × (0 < count k s.opened → count k l ≡ count k (s.content q)))
    → IsTidy n s
    → IsTidy n (take_from q l s)
IsTidy-take_from n q [] s known shorter kept t = record {
  placed = λ k.
      placed_if _ _
        (λ there. omega (arith, t.placed k, in_queues-fill k q [] s known, (kept k).1 there));
  once = λ k. omega (arith, t.once k, in_queues-fill k q [] s known);
  short = short-fill n q [] s (omega arith) t.short;
  lent_known = t.lent_known;
  queues_known = t.queues_known;
}
IsTidy-take_from n q (conn ∷ rest) s known shorter kept t = record {
  placed = λ k.
      placed_if _ _
        (λ there. omega (arith, t.placed k, in_queues-fill k q rest s known, (kept k).1 there));
  once = λ k. omega (arith, t.once k, in_queues-fill k q rest s known, (kept k).0);
  short = short-fill n q rest s (omega (arith, shorter, t.short q)) t.short;
  lent_known = (known, t.lent_known);
  queues_known = t.queues_known;
}

pub begin-IsTidy : (n : ℕ) (a : Text) (s : Tasks) → IsTidy n s → IsTidy n (begin a s)
unfolding begin
begin-IsTidy n a s h =
    let o = Dict.get a s.queues in
    let (t, known) = queue_of-IsTidy n a s o refl h in
    let q = (queue_of a o s).0 in
    let s' = (queue_of a o s).1 in
    IsTidy-take_from n q _ s' known (length-drop_stale _ (s'.content q)) (λ k. dropped k q s') t

pub connected-IsTidy :
    (n q conn : ℕ) (s : Tasks)
    → q < s.next
    → places conn s ≡ 0
    → IsTidy n s
    → IsTidy n (connected q conn s)
unfolding connected
connected-IsTidy n q conn s known fresh t = record {
  placed = λ k. omega (arith, t.placed k);
  once = λ k. once_more k;
  short = t.short;
  lent_known = (known, t.lent_known);
  queues_known = t.queues_known;
}
  where
    once_more : (k : ℕ) → in_queues k s + (one k conn + count_fst k s.lent) + count k s.lost ≤ 1
    once_more k = elim (Bool-cases (conn == k)) [
      | inl same ↦
          let conn_k : conn ≡ k = ground (arith, same) in
          let nowhere : places k s ≡ 0 = subst (λ x. places x s ≡ 0) conn_k fresh in
          rw same (omega (arith, nowhere))
      | inr other ↦ rw other (omega (arith, t.once k))
    ]
