-- ===== src/Mux/Calls.antt =====
-- Every caller is answered, and once.
use dlstorage.Base.{
  Text, ℕ, ◌+◌, ltb, ℤ, pos, length, ltb_ℤ, Bytes, Bool, true, false, Option, none, some, List, [],
  ◌∷◌, ◌++◌, if◌then◌else◌, ◌≡◌, refl, ◌∙◌, arith,
}
use dlstorage.Result.{Result, ok, raise}
use dlstorage.Types.{Message}
use dlstorage.Dict
use dlstorage.Dict.{Dict}
use dlstorage.Mux.{
  Sending, unencoded, undelivered, went_out, InFlight, new_flight, Mux, Caller, Recv, blocked,
  broken, chunk, Outcome, waiting, failed, delivered, idle_at, close, close_each, close_idle,
  close_peer, close_all, connect, acquire_from, acquire, send_held, send, register, give_back,
  settle, read_entry, read, handle_read, deserialise, pluck, unblock,
}
use dlstorage.Mux.Counts.{one, count_fst, weigh, weigh-append, weigh-pluck}
use dlstorage.Mux.Steps.{Step, acquires, sends, registers, reads, closes_peer, closes_all}

-- How many entries of a list belong to the call.
abbrev pub of_caller : ℕ → List (ℕ × Caller) → ℕ
of_caller c = weigh (λ s x. one c x.call)

abbrev pub of_flight : ℕ → List (ℕ × InFlight) → ℕ
of_flight c = weigh (λ s f. one c f.call)

-- How often the call has been answered or has raised, and the places where it still waits.
abbrev pub total : ℕ → Mux → ℕ
total c m =
    count_fst c m.answers
    + of_caller c m.lost
    + of_caller c m.held
    + of_flight c m.queued
    + of_flight c m.registered

same_fields :
    (c : ℕ) (m : Mux) (opened : List ℕ) → total c (record m { opened = opened }) ≡ total c m
same_fields c m opened = refl

total-close_each : (c : ℕ) (l : List ℕ) (m : Mux) → total c (close_each l m) ≡ total c m
unfolding close_each
total-close_each c [] m = refl
total-close_each c (s ∷ l) m = total-close_each c l (close s m)

total-close_idle : (c : ℕ) (d : Dict (List ℕ)) (m : Mux) → total c (close_idle d m) ≡ total c m
unfolding close_idle
total-close_idle c [] m = refl
total-close_idle c ((a, q) ∷ d) m = total-close_idle c d (close_each q m) ∙ total-close_each c q m

total-if :
    (c : ℕ) (b : Bool) (x y : Mux)
    → total c x ≡ total c y
    → total c (if b then x else y) ≡ total c y
total-if c true x y e = e
total-if c false x y e = refl

total-acquire_from :
    (c : ℕ) (a : Text) (call : ℕ) (new : Option ℕ) (q : List ℕ) (m : Mux)
    → total c (acquire_from a call new q m) ≡ one c call + total c m
unfolding acquire_from connect
total-acquire_from c a call none [] m = omega arith
total-acquire_from c a call (some s) [] m = omega arith
total-acquire_from c a call new (s ∷ l) m = omega arith

total-send_held :
    (c s : ℕ) (how : Sending) (o : Option (Caller × List (ℕ × Caller))) (m : Mux)
    → pluck s m.held ≡ o
    → total c (send_held s how o m) ≡ total c m
unfolding send_held
total-send_held c s how none m e = refl
total-send_held c s went_out (some (x, rest)) m e =
    let out = weigh-pluck (λ s x. one c x.call) s m.held x rest e in
    let put = weigh-append (λ s f. one c f.call) m.queued ((s, new_flight x.address x.call) ∷ []) in
    omega (arith, out, put)
total-send_held c s undelivered (some (x, rest)) m e =
    let out = weigh-pluck (λ s x. one c x.call) s m.held x rest e in omega (arith, out)
total-send_held c s unencoded (some (x, rest)) m e =
    let out = weigh-pluck (λ s x. one c x.call) s m.held x rest e in omega (arith, out)

-- Reading does not change whose response it is.
abbrev KeepsCall : InFlight → Outcome → Type 0
KeepsCall f (waiting g) = g.call ≡ f.call
KeepsCall f failed = Unit
KeepsCall f (delivered msg) = Unit

KeepsCall-if :
    (f : InFlight) (b : Bool) (x y : Outcome)
    → KeepsCall f x
    → KeepsCall f y
    → KeepsCall f (if b then x else y)
KeepsCall-if f true x y hx hy = hx
KeepsCall-if f false x y hx hy = hy

handle_read-KeepsCall :
    (loads : Bytes → Result Message) (f : InFlight) (r : Recv) → KeepsCall f (handle_read loads f r)
unfolding handle_read
handle_read-KeepsCall loads f blocked = refl
handle_read-KeepsCall loads f broken = tt
handle_read-KeepsCall loads f (chunk []) = tt
handle_read-KeepsCall loads f (chunk (b ∷ bs)) =
    KeepsCall-if f (ltb (length (f.buf ++ (b ∷ bs))) f.expected) _ _ refl
      (KeepsCall-if f f.hdr_done _ _ (on_body (loads (f.buf ++ (b ∷ bs)))) refl)
  where
    on_body : (x : Result Message) → KeepsCall f (deserialise loads x)
    on_body (ok msg) = tt
    on_body (raise e) = tt

module _ (max_per_peer : ℤ) (loads : Bytes → Result Message) where
  total-settle :
      (c s : ℕ) (f : InFlight) (x : Outcome) (m : Mux)
      → KeepsCall f x
      → total c (settle max_per_peer loads s f x m) ≡ one c f.call + total c m
  unfolding settle give_back
  total-settle c s f (waiting g) m same = rw same (omega arith)
  total-settle c s f failed m same = omega arith
  total-settle c s f (delivered msg) m same =
      let back =
        total-if c (ltb_ℤ (pos (length (idle_at f.address m))) max_per_peer)
          (record m { idle = Dict.put f.address (s ∷ idle_at f.address m) m.idle }) (close s m)
          refl in
      omega (arith, back)

  total-read_entry :
      (c s : ℕ) (r : Recv) (o : Option (InFlight × List (ℕ × InFlight))) (m : Mux)
      → pluck s m.registered ≡ o
      → total c (read_entry max_per_peer loads s r o m) ≡ total c m
  unfolding read_entry
  total-read_entry c s r none m e = refl
  total-read_entry c s r (some (f, rest)) m e =
      let out = weigh-pluck (λ s f. one c f.call) s m.registered f rest e in
      let settled =
        total-settle c s f (handle_read loads f r) (record m { registered = rest })
          (handle_read-KeepsCall loads f r) in
      omega (arith, out, settled)

total-register : (c : ℕ) (m : Mux) → total c (register m) ≡ total c m
unfolding register
total-register c m =
    let put = weigh-append (λ s f. one c f.call) m.registered m.queued in
    total-if c m.running (record m { registered = m.registered ++ m.queued; queued = [] }) m
      (omega (arith, put))

count_fst-unblock :
    (c : ℕ) (l : List (ℕ × InFlight)) (answers : List (ℕ × Option Message))
    → count_fst c (unblock l answers) ≡ of_flight c l + count_fst c answers
unfolding unblock
count_fst-unblock c [] answers = omega arith
count_fst-unblock c ((s, f) ∷ l) answers =
    omega (arith, count_fst-unblock c l ((f.call, none) ∷ answers))

total-close_all : (c : ℕ) (m : Mux) → total c (close_all m) ≡ total c m
unfolding close_all
total-close_all c m =
    total-close_idle c m.idle _ ∙ omega (arith, count_fst-unblock c m.registered m.answers)

-- Whether a step begins the call.
abbrev pub begins :
    {max_per_peer : ℤ} {loads : Bytes → Result Message} {m n : Mux}
    → ℕ
    → Step max_per_peer loads m n
    → ℕ
begins c (acquires a call new f) = one c call
begins c (sends s how) = 0
begins c registers = 0
begins c (reads s r) = 0
begins c (closes_peer a) = 0
begins c closes_all = 0

-- The step that begins a call adds one to the number of its answers, of its exceptions and of the
-- places where it still waits, and no other step changes that number: no call is ever dropped, and
-- none is answered twice.
pub total-Step :
    {max_per_peer : ℤ} {loads : Bytes → Result Message} {m n : Mux} (c : ℕ)
    (step : Step max_per_peer loads m n)
    → total c n ≡ begins c step + total c m
unfolding acquire send read close_peer
total-Step {m = m} c (acquires a call new f) = total-acquire_from c a call new (idle_at a m) m
total-Step {m = m} c (sends s how) = omega (arith, total-send_held c s how (pluck s m.held) m refl)
total-Step {m = m} c registers = omega (arith, total-register c m)
total-Step {max_per_peer} {loads} {m} c (reads s r) =
    omega (arith, total-read_entry max_per_peer loads c s r (pluck s m.registered) m refl)
total-Step {m = m} c (closes_peer a) =
    omega (arith, total-close_each c (idle_at a m) (record m { idle = Dict.remove a m.idle }))
total-Step {m = m} c closes_all = omega (arith, total-close_all c m)
