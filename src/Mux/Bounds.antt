-- ===== src/Mux/Bounds.antt =====
-- The number of idle sockets that the pool keeps for a peer.
use dlstorage.Base.{
  Text, text_eq, ℕ, ◌≤◌, pos, ltb_ℤ, Bytes, Bool, true, false, Option, none, some, List, [], ◌∷◌,
  length, if◌then◌else◌, ◌≡◌, refl, ap, ◌∙◌, arith, Bool-cases, inl, inr,
}
use dlstorage.Result.{Result}
use dlstorage.Types.{Message}
use dlstorage.Dict
use dlstorage.Dict.{Dict}
use dlstorage.Dict.Laws.{get-put, get-remove}
use dlstorage.Mux.{
  Sending, unencoded, undelivered, went_out, InFlight, Mux, Caller, Recv, Outcome, waiting, failed,
  delivered, idle_at, deque_of, close, close_each, close_idle, close_peer, close_all, connect,
  acquire_from, acquire, send_held, send, register, give_back, settle, read_entry, read, pop_right,
  pluck,
}
use dlstorage.Mux.Steps.{
  Step, Reach, start, later, acquires, sends, registers, reads, closes_peer, closes_all,
}

-- No peer has more than `n` idle sockets.
abbrev pub IsBounded : ℕ → Mux → Type 0
IsBounded n m = (a : Text) → length (idle_at a m) ≤ n

length-pop_right : (s : ℕ) (l : List ℕ) → length (pop_right s l).1 ≡ length l
unfolding pop_right
length-pop_right s [] = refl
length-pop_right s (t ∷ l) = omega (arith, length-pop_right t l)

put-IsBounded :
    (n : ℕ) (a : Text) (q : List ℕ) (m : Mux)
    → length q ≤ n
    → IsBounded n m
    → (b : Text) → length (deque_of (Dict.get b (Dict.put a q m.idle))) ≤ n
put-IsBounded n a q m short h b = elim (Bool-cases (text_eq a b)) [
  | inl same ↦ rw (get-put a b q m.idle, same) short
  | inr other ↦ rw (get-put a b q m.idle, other) (h b)
]

idle-close_each : (l : List ℕ) (m : Mux) → (close_each l m).idle ≡ m.idle
unfolding close_each
idle-close_each [] m = refl
idle-close_each (s ∷ l) m = idle-close_each l (close s m)

idle-close_idle : (d : Dict (List ℕ)) (m : Mux) → (close_idle d m).idle ≡ m.idle
unfolding close_idle
idle-close_idle [] m = refl
idle-close_idle ((a, q) ∷ d) m = idle-close_idle d (close_each q m) ∙ idle-close_each q m

acquire_from-IsBounded :
    (n : ℕ) (a : Text) (call : ℕ) (new : Option ℕ) (q : List ℕ) (m : Mux)
    → idle_at a m ≡ q
    → IsBounded n m
    → IsBounded n (acquire_from a call new q m)
unfolding acquire_from connect
acquire_from-IsBounded n a call none [] m e h = h
acquire_from-IsBounded n a call (some s) [] m e h = h
acquire_from-IsBounded n a call new (s ∷ l) m e h =
    let shorter = ap length e in
    put-IsBounded n a (pop_right s l).1 m (omega (arith, shorter, h a, length-pop_right s l)) h

send_held-IsBounded :
    (n s : ℕ) (how : Sending) (o : Option (Caller × List (ℕ × Caller))) (m : Mux)
    → IsBounded n m
    → IsBounded n (send_held s how o m)
unfolding send_held
send_held-IsBounded n s how none m h = h
send_held-IsBounded n s unencoded (some (c, rest)) m h = h
send_held-IsBounded n s undelivered (some (c, rest)) m h = h
send_held-IsBounded n s went_out (some (c, rest)) m h = h

if-IsBounded :
    (n : ℕ) (b : Bool) (x y : Mux)
    → (b ≡ true → IsBounded n x)
    → IsBounded n y
    → IsBounded n (if b then x else y)
if-IsBounded n true x y hx hy = hx refl
if-IsBounded n false x y hx hy = hy

module _ (n : ℕ) (loads : Bytes → Result Message) where
  give_back-IsBounded :
      (a : Text) (s : ℕ) (m : Mux) → IsBounded n m → IsBounded n (give_back (pos n) loads a s m)
  unfolding give_back
  give_back-IsBounded a s m h =
      if-IsBounded n (ltb_ℤ (pos (length (idle_at a m))) (pos n)) _ _
        (λ free. put-IsBounded n a (s ∷ idle_at a m) m (ground (arith, free)) h) h

  settle-IsBounded :
      (s : ℕ) (f : InFlight) (x : Outcome) (m : Mux)
      → IsBounded n m
      → IsBounded n (settle (pos n) loads s f x m)
  unfolding settle
  settle-IsBounded s f (waiting g) m h = h
  settle-IsBounded s f failed m h = h
  settle-IsBounded s f (delivered msg) m h = give_back-IsBounded f.address s m h

  read_entry-IsBounded :
      (s : ℕ) (r : Recv) (o : Option (InFlight × List (ℕ × InFlight))) (m : Mux)
      → IsBounded n m
      → IsBounded n (read_entry (pos n) loads s r o m)
  unfolding read_entry
  read_entry-IsBounded s r none m h = h
  read_entry-IsBounded s r (some (f, rest)) m h =
      settle-IsBounded s f _ (record m { registered = rest }) h

  close_peer-IsBounded : (a : Text) (m : Mux) → IsBounded n m → IsBounded n (close_peer a m)
  unfolding close_peer
  close_peer-IsBounded a m h b =
      rw (idle-close_each (idle_at a m) (record m { idle = Dict.remove a m.idle })) (left b)
    where
      left : (b : Text) → length (deque_of (Dict.get b (Dict.remove a m.idle))) ≤ n
      left b = elim (Bool-cases (text_eq a b)) [
        | inl same ↦ rw (get-remove a b m.idle, same) (omega arith)
        | inr other ↦ rw (get-remove a b m.idle, other) (h b)
      ]

  close_all-IsBounded : (m : Mux) → IsBounded n (close_all m)
  unfolding close_all Dict.get
  close_all-IsBounded m b = rw (idle-close_idle m.idle _) (omega arith)

  Step-IsBounded : {m m' : Mux} → Step (pos n) loads m m' → IsBounded n m → IsBounded n m'
  unfolding acquire send register read
  Step-IsBounded {m} (acquires a call new f) h =
      acquire_from-IsBounded n a call new (idle_at a m) m refl h
  Step-IsBounded {m} (sends s how) h = send_held-IsBounded n s how (pluck s m.held) m h
  Step-IsBounded {m} registers h = if-IsBounded n m.running _ m (λ on. h) h
  Step-IsBounded {m} (reads s r) h = read_entry-IsBounded s r (pluck s m.registered) m h
  Step-IsBounded {m} (closes_peer a) h = close_peer-IsBounded a m h
  Step-IsBounded {m} closes_all h = close_all-IsBounded m

  -- However many requests run at once, the pool never keeps more idle sockets for a peer than its
  -- maximum.
  pub Reach-IsBounded : {m : Mux} → Reach (pos n) loads m → IsBounded n m
  unfolding Dict.get
  Reach-IsBounded start a = omega arith
  Reach-IsBounded (later r st) a = Step-IsBounded st (Reach-IsBounded r) a
