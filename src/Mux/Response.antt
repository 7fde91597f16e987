-- ===== src/Mux/Response.antt =====
-- dlstorage/connection_pool/mux.py, a response on its way: what `_handle_read` makes of the next
-- bytes on a socket, but for its effects on the pool.
use dlstorage.Base.{
  Text, ℕ, ◌-◌, ltb, Bytes, from_bytes, Bool, true, false, [], ◌∷◌, ◌++◌, length, take,
  if◌then◌else◌,
}
use dlstorage.Result.{Result, ok, raise}
use dlstorage.Types.{Message}
use dlstorage.Wire.{header_size}

-- `_InFlight`
pub record InFlight : Type 0 where
  pub address : Text
  pub call : ℕ
  pub buf : Bytes
  pub expected : ℕ
  pub hdr_done : Bool

abbrev pub new_flight : Text → ℕ → InFlight
new_flight a call = record {
  address = a;
  call = call;
  buf = [];
  expected = header_size;
  hdr_done = false;
}

-- What `sock.recv(need)` does: it would block, it raises, or it returns bytes.
pub data Recv : Type 0 where
  blocked : Recv
  broken : Recv
  chunk : Bytes → Recv

-- What a read comes to: more is to be read, the request has failed, or its response is there.
pub data Outcome : Type 0 where
  waiting : InFlight → Outcome
  failed : Outcome
  delivered : Message → Outcome

-- `inflight.expected - len(inflight.buf)`
abbrev pub need : InFlight → ℕ
need f = f.expected - length f.buf

module _ (loads : Bytes → Result Message) where
  abbrev pub deserialise : Result Message → Outcome
  deserialise (ok msg) = delivered msg
  deserialise (raise e) = failed

  -- The header or the body is complete.
  abbrev pub complete : InFlight → Outcome
  complete f =
      if f.hdr_done
      then deserialise (loads f.buf)
      else waiting
          (record f { expected = from_bytes (take header_size f.buf); buf = []; hdr_done = true })

  abbrev pub extend : InFlight → Outcome
  extend f = if ltb (length f.buf) f.expected then waiting f else complete f

  -- `_handle_read`
  unfoldable pub handle_read : InFlight → Recv → Outcome
  handle_read f blocked = waiting f
  handle_read f broken = failed
  handle_read f (chunk []) = failed
  handle_read f (chunk (b ∷ bs)) = extend (record f { buf = f.buf ++ (b ∷ bs) })
