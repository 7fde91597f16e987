-- ===== src/Mux/Steps.antt =====
-- What the threads of a process do to the pool, one operation after another, and what holds then.
use dlstorage.Base.{Text, ℕ, ◌≤◌, ℤ, Bytes, Option, ◌≡◌, refl, arith}
use dlstorage.Result.{Result}
use dlstorage.Types.{Message}
use dlstorage.Mux.{
  Mux, Sending, Recv, init, idle_at, acquire, send, register, read, close_peer, close_all, pluck,
}
use dlstorage.Mux.Counts.{count}
use dlstorage.Mux.Ledger.{
  IsLedger, IsFresh, places, acquire_from-IsLedger, send_held-IsLedger, register-IsLedger,
  read_entry-IsLedger, close_peer-IsLedger, close_all-IsLedger,
}

pub data Step (max_per_peer : ℤ) (loads : Bytes → Result Message) (m : Mux) : Mux → Type 0 where
  acquires :
      (a : Text) (call : ℕ) (new : Option ℕ)
      → IsFresh new m
      → Step max_per_peer loads m (acquire a call new m)
  sends : (s : ℕ) (how : Sending) → Step max_per_peer loads m (send s how m)
  registers : Step max_per_peer loads m (register m)
  reads : (s : ℕ) (r : Recv) → Step max_per_peer loads m (read max_per_peer loads s r m)
  closes_peer : (a : Text) → Step max_per_peer loads m (close_peer a m)
  closes_all : Step max_per_peer loads m (close_all m)

pub data Reach (max_per_peer : ℤ) (loads : Bytes → Result Message) : Mux → Type 0 where
  start : Reach max_per_peer loads init
  later :
      {m n : Mux}
      → Reach max_per_peer loads m
      → Step max_per_peer loads m n
      → Reach max_per_peer loads n

Step-IsLedger :
    {max_per_peer : ℤ} {loads : Bytes → Result Message} {m n : Mux}
    → Step max_per_peer loads m n
    → IsLedger m
    → IsLedger n
unfolding acquire send read
Step-IsLedger {m} (acquires a call new f) o =
    acquire_from-IsLedger a call new (idle_at a m) m refl f o
Step-IsLedger {m} (sends s how) o = send_held-IsLedger s how (pluck s m.held) m refl o
Step-IsLedger {m} registers o = register-IsLedger m o
Step-IsLedger {max_per_peer} {loads} {m} (reads s r) o =
    read_entry-IsLedger max_per_peer loads s r (pluck s m.registered) m refl o
Step-IsLedger {m} (closes_peer a) o = close_peer-IsLedger a m o
Step-IsLedger {m} closes_all o = close_all-IsLedger m o

Reach-Owes :
    {max_per_peer : ℤ} {loads : Bytes → Result Message} {m : Mux}
    → Reach max_per_peer loads m
    → IsLedger m
Reach-Owes start = record { distinct = tt; owned = λ k. refl; once = λ k. omega arith }
Reach-Owes (later r st) = Step-IsLedger st (Reach-Owes r)

-- Whatever the threads do, and in whatever order, each open socket stands in exactly one place of
-- the pool: idle at one peer, with one caller, with one request that is queued, registered or
-- abandoned, or lost by a call that raised. A socket that is not open stands in none.
pub places-Reach :
    {max_per_peer : ℤ} {loads : Bytes → Result Message} {m : Mux} (k : ℕ)
    → Reach max_per_peer loads m
    → (places k m ≡ count k m.opened) × (places k m ≤ 1)
places-Reach k r = let l = Reach-Owes r in omega (arith, l.owned k, l.once k)
