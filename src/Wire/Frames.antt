-- ===== src/Wire/Frames.antt =====
-- Messages on a stream: framing round trip, and the two receivers against each other.
use dlstorage.Base.{
  ℕ, ◌<◌, ltb, Bytes, from_bytes, to_bytes, from_bytes-to_bytes, length-to_bytes, false, [], ◌∷◌,
  ◌++◌, length, take, drop, All, ◌≡◌, refl, sym, ap, ◌∙◌, arith, Bool-cases, inl, inr,
  length-append,
}
use mathlib.Core.Path.{subst}
use mathlib.Core.List.{append_assoc}
use Prim.Native.Nat.{◌^◌}
use dlstorage.Result.{Result, ok, raise, eof_error}
use dlstorage.Action.{Action, continue, lift}
use dlstorage.Types.{Message}
use dlstorage.Wire.{
  Socket, header_size, header, recv_exactly, read_exactly, frame, with_body, send_frame,
  send_message, recv_message, recv_message_async,
}
use dlstorage.Wire.Stream.{stream, IsPiece, recv_exactly_lem}

module _ {A : Type 0} where
  -- Both readers raise the same, or both return the same and leave the same bytes to come.
  abbrev pub IsAlike : Result A × Socket → Result A × Bytes → Type 0
  IsAlike (ok a, s) (r, b) = (r ≡ ok a) × (stream s.incoming ≡ b) × All IsPiece s.incoming
  IsAlike (raise e, s) (r, b) = r ≡ raise e

  IsAlike-ok :
      (x : Result A × Socket) (y : Result A × Bytes) (a : A)
      → x.0 ≡ ok a
      → y.0 ≡ ok a
      → stream x.1.incoming ≡ y.1
      → All IsPiece x.1.incoming
      → IsAlike x y
  IsAlike-ok (ok b, s) (r, t) a e f left pieces = (f ∙ sym e, left, pieces)
  IsAlike-ok (raise err, s) (r, t) a e f left pieces = f ∙ sym e

  IsAlike-raise :
      (x : Result A × Socket) (y : Result A × Bytes)
      → x.0 ≡ raise eof_error
      → y.0 ≡ raise eof_error
      → IsAlike x y
  IsAlike-raise (ok b, s) (r, t) e f = absurd cc
  IsAlike-raise (raise err, s) (r, t) e f = f ∙ sym e

IsAlike-continue :
    {A B : Type 0} (x : Result A × Socket) (y : Result A × Bytes) (f : A → Action Socket B)
    (g : A → Action Bytes B)
    → IsAlike x y
    → ((a : A) (s : Socket) → All IsPiece s.incoming → IsAlike (f a s) (g a (stream s.incoming)))
    → IsAlike (continue x.0 f x.1) (continue y.0 g y.1)
IsAlike-continue (ok a, s) (r, b) f g h k =
    rw (h.0) (subst (λ t. IsAlike (f a s) (g a t)) h.1 (k a s h.2))
IsAlike-continue (raise e, s) (r, b) f g h k = rw h refl

exactly-IsAlike :
    (n : ℕ) (s : Socket)
    → All IsPiece s.incoming
    → IsAlike (recv_exactly n s) (read_exactly n (stream s.incoming))
unfolding read_exactly
exactly-IsAlike n s pieces = elim (Bool-cases (ltb (length (stream s.incoming)) n)) [
  | inl short ↦ rw short (
      IsAlike-raise (recv_exactly n s) _ ((recv_exactly_lem n s pieces).1 (ground (arith, short)))
        refl)
  | inr there ↦
      let (got, left, still) = (recv_exactly_lem n s pieces).0 (ground (arith, there)) in
      rw there (IsAlike-ok (recv_exactly n s) _ (take n (stream s.incoming)) got refl left still)
]

module _ (loads : Bytes → Result Message) where
  lift-IsAlike :
      (r : Result Message) (s : Socket)
      → All IsPiece s.incoming
      → IsAlike (lift r s) (lift r (stream s.incoming))
  lift-IsAlike (ok m) s pieces = (refl, refl, pieces)
  lift-IsAlike (raise e) s pieces = refl

  -- However a stream is cut into pieces, and whatever bytes it has, the sync receiver and the
  -- async one raise the same, or return the same message and leave the same bytes.
  pub recv_message-IsAlike :
      (s : Socket)
      → All IsPiece s.incoming
      → IsAlike (recv_message loads s) (recv_message_async loads (stream s.incoming))
  unfolding recv_message recv_message_async
  recv_message-IsAlike s pieces =
      IsAlike-continue (recv_exactly header_size s) (read_exactly header_size (stream s.incoming)) _
        _ (exactly-IsAlike header_size s pieces)
        (λ head t more.
          IsAlike-continue (recv_exactly (from_bytes head) t)
            (read_exactly (from_bytes head) (stream t.incoming)) _ _
            (exactly-IsAlike (from_bytes head) t more)
            (λ body u end. lift-IsAlike (loads body) u end))

append_cancel : (xs : Bytes) {ys zs : Bytes} → xs ++ ys ≡ xs ++ zs → ys ≡ zs
append_cancel [] e = e
append_cancel (x ∷ xs) e = append_cancel xs cc

take_whole : (xs ys : Bytes) → take (length xs) (xs ++ ys) ≡ xs
take_whole [] ys = refl
take_whole (x ∷ xs) ys = ap (◌∷◌ x) (take_whole xs ys)

drop_whole : (xs ys : Bytes) → drop (length xs) (xs ++ ys) ≡ ys
drop_whole [] ys = refl
drop_whole (x ∷ xs) ys = drop_whole xs ys

read_exactly_whole :
    (n : ℕ) (xs ys : Bytes) → length xs ≡ n → read_exactly n (xs ++ ys) ≡ (ok xs, ys)
unfolding read_exactly
read_exactly_whole n xs ys e =
    let total = length-append xs ys in
    let there : ltb (length (xs ++ ys)) n ≡ false = ground (arith, total, e) in
    rw (there, sym e, take_whole xs ys, drop_whole xs ys) refl

module _ (dumps : Message → Bytes) (loads : Bytes → Result Message) where
  frame-ok :
      (msg : Message) (bytes : Bytes)
      → frame dumps msg ≡ ok bytes
      → (length (dumps msg) < 256 ^ 4) × (bytes ≡ to_bytes 4 (length (dumps msg)) ++ dumps msg)
  unfolding frame header with_body
  frame-ok msg bytes framed = elim (Bool-cases (ltb (length (dumps msg)) (256 ^ header_size))) [
    | inl fits ↦ let e = rw fits at framed in (ground (arith, fits), cc)
    | inr large ↦ let e = rw large at framed in absurd cc
  ]

  pub recv_message_async-frame :
      (msg : Message) (bytes rest : Bytes)
      → frame dumps msg ≡ ok bytes
      → loads (dumps msg) ≡ ok msg
      → recv_message_async loads (bytes ++ rest) ≡ (ok msg, rest)
  unfolding recv_message_async
  recv_message_async-frame msg bytes rest framed loaded =
      let (small, e) = frame-ok msg bytes framed in
      let n = length (dumps msg) in
      rw
        (
          e,
          append_assoc (to_bytes 4 n) (dumps msg) rest,
          read_exactly_whole 4 (to_bytes 4 n) (dumps msg ++ rest) (length-to_bytes 4 n),
          from_bytes-to_bytes 4 n small,
          read_exactly_whole n (dumps msg) rest refl,
          loaded,
        )
        refl

  -- What `send_message` puts on the wire, `recv_message` gets back at the other end, however the
  -- bytes are cut into pieces and whatever follows them, and it leaves what follows; that the
  -- pickled message can be loaded again is assumed.
  pub recv_message-send_message :
      (msg : Message) (rest : Bytes) (s t u : Socket)
      → send_message dumps msg s ≡ (ok tt, t)
      → loads (dumps msg) ≡ ok msg
      → All IsPiece u.incoming
      → s.sent ++ stream u.incoming ≡ t.sent ++ rest
      → ((recv_message loads u).0 ≡ ok msg) × (stream (recv_message loads u).1.incoming ≡ rest)
  unfolding send_message
  recv_message-send_message msg rest s t u sent loaded pieces arrives =
      go (frame dumps msg) refl sent
    where
      arrived :
          (x : Result Message × Socket)
          → IsAlike x (ok msg, rest)
          → (x.0 ≡ ok msg) × (stream x.1.incoming ≡ rest)
      arrived (ok m, v) h = (sym h.0, h.1)
      arrived (raise e, v) h = absurd cc

      go :
          (r : Result Bytes)
          → frame dumps msg ≡ r
          → send_frame dumps r s ≡ (ok tt, t)
          → ((recv_message loads u).0 ≡ ok msg) × (stream (recv_message loads u).1.incoming ≡ rest)
      go (raise e) framed put = absurd cc
      go (ok bytes) framed put =
          let grown : s.sent ++ bytes ≡ t.sent = ap (λ x. x.1.sent) put in
          let same : stream u.incoming ≡ bytes ++ rest =
            append_cancel s.sent
              (arrives ∙ ap (λ x. x ++ rest) (sym grown) ∙ append_assoc s.sent bytes rest) in
          arrived (recv_message loads u) (
            subst (IsAlike (recv_message loads u))
              (recv_message_async-frame msg bytes rest framed loaded)
              (subst (λ x. IsAlike (recv_message loads u) (recv_message_async loads x)) same
                (recv_message-IsAlike loads u pieces)))
