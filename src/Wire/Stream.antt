-- ===== src/Wire/Stream.antt =====
-- `_recvexactly` gets the same bytes however the stream is cut into pieces.
use dlstorage.Base.{
  ℕ, zero, suc, ◌-◌, ◌≤◌, ◌<◌, ltb, Bytes, true, false, List, [], ◌∷◌, ◌++◌, length, take, drop,
  All, ◌≡◌, refl, sym, ap, ◌∙◌, arith, Bool-cases, inl, inr, length-append, length-take,
}
use mathlib.Core.List.{append_assoc, append-nil}
use dlstorage.Result.{Result, ok, raise, eof_error}
use dlstorage.Wire.{Socket, recv_into, recv_loop, recv_exactly}

-- The bytes that are still to come.
unfoldable pub stream : List Bytes → Bytes
stream [] = []
stream (c ∷ cs) = c ++ stream cs

-- A piece with at least one byte: the peer has not closed the connection before it.
abbrev pub IsPiece : Bytes → Type 0
IsPiece c = 0 < length c

pub take-append_le : (n : ℕ) (xs ys : Bytes) → n ≤ length xs → take n (xs ++ ys) ≡ take n xs
take-append_le zero xs ys h = refl
take-append_le (suc n) [] ys h = absurd (omega arith)
take-append_le (suc n) (x ∷ xs) ys h = ap (◌∷◌ x) (take-append_le n xs ys (omega arith))

pub drop-append_le : (n : ℕ) (xs ys : Bytes) → n ≤ length xs → drop n (xs ++ ys) ≡ drop n xs ++ ys
drop-append_le zero xs ys h = refl
drop-append_le (suc n) [] ys h = absurd (omega arith)
drop-append_le (suc n) (x ∷ xs) ys h = drop-append_le n xs ys (omega arith)

pub take-append_ge :
    (n : ℕ) (xs ys : Bytes) → length xs ≤ n → take n (xs ++ ys) ≡ xs ++ take (n - length xs) ys
take-append_ge n [] ys h = let same : n ≡ n - 0 = omega arith in ap (λ m. take m ys) same
take-append_ge zero (x ∷ xs) ys h = absurd (omega arith)
take-append_ge (suc n) (x ∷ xs) ys h =
    let same : n - length xs ≡ suc n - suc (length xs) = omega arith in
    ap (◌∷◌ x) (take-append_ge n xs ys (omega arith) ∙ ap (λ m. xs ++ take m ys) same)

pub drop-append_ge :
    (n : ℕ) (xs ys : Bytes) → length xs ≤ n → drop n (xs ++ ys) ≡ drop (n - length xs) ys
drop-append_ge n [] ys h = let same : n ≡ n - 0 = omega arith in ap (λ m. drop m ys) same
drop-append_ge zero (x ∷ xs) ys h = absurd (omega arith)
drop-append_ge (suc n) (x ∷ xs) ys h =
    let same : n - length xs ≡ suc n - suc (length xs) = omega arith in
    drop-append_ge n xs ys (omega arith) ∙ ap (λ m. drop m ys) same

recv_loop-done : (fuel : ℕ) (buf : Bytes) (s : Socket) → recv_loop fuel 0 buf s ≡ (ok buf, s)
unfolding recv_loop
recv_loop-done zero buf s = refl
recv_loop-done (suc fuel) buf s = refl

pub recv_into-within :
    (n : ℕ) (c : Bytes) (cs : List Bytes) (s : Socket)
    → s.incoming ≡ c ∷ cs
    → ltb n (length c) ≡ true
    → recv_into n s ≡ (take n c, record s { incoming = drop n c ∷ cs })
unfolding recv_into
recv_into-within n c cs s at_s within = rw (at_s, within) refl

pub recv_into-beyond :
    (n : ℕ) (c : Bytes) (cs : List Bytes) (s : Socket)
    → s.incoming ≡ c ∷ cs
    → ltb n (length c) ≡ false
    → recv_into n s ≡ (c, record s { incoming = cs })
unfolding recv_into
recv_into-beyond n c cs s at_s beyond = rw (at_s, beyond) refl

-- A turn of the loop that gets something.
recv_loop-turn :
    (fuel n b : ℕ) (bs buf : Bytes) (s t : Socket)
    → recv_into (suc n) s ≡ (b ∷ bs, t)
    → recv_loop (suc fuel) (suc n) buf s ≡ recv_loop fuel (n - length bs) (buf ++ (b ∷ bs)) t
unfolding recv_loop
recv_loop-turn fuel n b bs buf s t got =
    rw (got, recv_loop) (ap (λ x. recv_loop fuel (n - length bs) (buf ++ (b ∷ bs)) x.1) got)

-- A turn of the loop that gets nothing.
recv_loop-end :
    (fuel n : ℕ) (buf : Bytes) (s : Socket)
    → s.incoming ≡ []
    → (recv_loop (suc fuel) (suc n) buf s).0 ≡ raise eof_error
unfolding recv_loop recv_into
recv_loop-end fuel n buf s at_s = rw (at_s, recv_loop) refl

pub IsPiece-drop : (n : ℕ) (xs : Bytes) → n < length xs → IsPiece (drop n xs)
IsPiece-drop zero xs h = h
IsPiece-drop (suc n) [] h = absurd (omega arith)
IsPiece-drop (suc n) (x ∷ xs) h = IsPiece-drop n xs (omega arith)

-- What reading `n` bytes from the pieces `cs` comes to.
abbrev HasRead : ℕ → Bytes → List Bytes → Result Bytes × Socket → Type 0
HasRead n buf cs (r, t) =
    (r ≡ ok (buf ++ take n (stream cs)))
    × (stream t.incoming ≡ drop n (stream cs))
    × All IsPiece t.incoming

none_read :
    (buf : Bytes) (cs : List Bytes) (s : Socket)
    → s.incoming ≡ cs
    → All IsPiece cs
    → HasRead 0 buf cs (ok buf, s)
none_read buf cs s at_s pieces = (ap ok (sym (append-nil buf)), ap stream at_s, rw at_s pieces)

recv_loop-reads :
    (fuel n : ℕ) (buf : Bytes) (cs : List Bytes) (s : Socket)
    → s.incoming ≡ cs
    → n ≤ fuel
    → All IsPiece cs
    → n ≤ length (stream cs)
    → HasRead n buf cs (recv_loop fuel n buf s)
unfolding stream
recv_loop-reads zero zero buf cs s at_s enough pieces there =
    rw (recv_loop-done 0 buf s) (none_read buf cs s at_s pieces)
recv_loop-reads zero (suc n) buf cs s at_s enough pieces there = absurd (omega arith)
recv_loop-reads (suc fuel) zero buf cs s at_s enough pieces there =
    rw (recv_loop-done (suc fuel) buf s) (none_read buf cs s at_s pieces)
recv_loop-reads (suc fuel) (suc n) buf [] s at_s enough pieces there = absurd (omega arith)
recv_loop-reads (suc fuel) (suc n) buf ([] ∷ cs) s at_s enough pieces there = absurd (omega arith)
recv_loop-reads (suc fuel) (suc n) buf ((b ∷ bs) ∷ cs) s at_s enough pieces there =
    elim (Bool-cases (ltb (suc n) (length (b ∷ bs)))) [
      | inl within ↦
          let short : suc n < length (b ∷ bs) = ground (arith, within) in
          let all_read : n - length (take n bs) ≡ 0 = rw (length-take n bs) (omega arith) in
          let t : Socket = record s { incoming = drop n bs ∷ cs } in
          rw
            (
              recv_loop-turn fuel n b (take n bs) buf s t
                  (recv_into-within (suc n) (b ∷ bs) cs s at_s within),
              all_read,
              recv_loop-done fuel (buf ++ (b ∷ take n bs)) t,
            )
            (
              ap (λ x. ok (buf ++ (b ∷ x))) (sym (take-append_le n bs (stream cs) (omega arith))),
              sym (drop-append_le n bs (stream cs) (omega arith)),
              (IsPiece-drop n bs (omega arith), pieces.1),
            )
      | inr beyond ↦
          let long : length (b ∷ bs) ≤ suc n = ground (arith, beyond) in
          let t : Socket = record s { incoming = cs } in
          let total = length-append bs (stream cs) in
          let (got, left, still) =
            recv_loop-reads fuel (n - length bs) (buf ++ (b ∷ bs)) cs t refl (omega arith) pieces.1
              (omega (arith, total)) in
          rw
            (recv_loop-turn fuel n b bs buf s t
              (recv_into-beyond (suc n) (b ∷ bs) cs s at_s beyond))
            (
              got
                  ∙ ap ok (
                      append_assoc buf (b ∷ bs) _
                      ∙ ap (λ x. buf ++ (b ∷ x))
                          (sym (take-append_ge n bs (stream cs) (omega arith)))),
              left ∙ sym (drop-append_ge n bs (stream cs) (omega arith)),
              still,
            )
    ]

recv_loop-eof :
    (fuel n : ℕ) (buf : Bytes) (cs : List Bytes) (s : Socket)
    → s.incoming ≡ cs
    → n ≤ fuel
    → All IsPiece cs
    → length (stream cs) < n
    → (recv_loop fuel n buf s).0 ≡ raise eof_error
unfolding stream
recv_loop-eof fuel zero buf cs s at_s enough pieces short = absurd (omega arith)
recv_loop-eof zero (suc n) buf cs s at_s enough pieces short = absurd (omega arith)
recv_loop-eof (suc fuel) (suc n) buf [] s at_s enough pieces short = recv_loop-end fuel n buf s at_s
recv_loop-eof (suc fuel) (suc n) buf ([] ∷ cs) s at_s enough pieces short = absurd (omega arith)
recv_loop-eof (suc fuel) (suc n) buf ((b ∷ bs) ∷ cs) s at_s enough pieces short =
    elim (Bool-cases (ltb (suc n) (length (b ∷ bs)))) [
      | inl within ↦
          let longer : suc n < length (b ∷ bs) = ground (arith, within) in
          let total = length-append bs (stream cs) in absurd (omega (arith, total))
      | inr beyond ↦
          let total = length-append bs (stream cs) in
          let t : Socket = record s { incoming = cs } in
          rw
            (recv_loop-turn fuel n b bs buf s t
              (recv_into-beyond (suc n) (b ∷ bs) cs s at_s beyond))
            (recv_loop-eof fuel (n - length bs) (buf ++ (b ∷ bs)) cs t refl (omega arith) pieces.1
              (omega (arith, total)))
    ]

-- Where `n` bytes are still to come, `_recvexactly` returns exactly the next `n` and leaves the
-- rest, however the stream is cut into pieces; where there are fewer, it raises `EOFError`.
pub recv_exactly_lem :
    (n : ℕ) (s : Socket)
    → All IsPiece s.incoming
    → (n ≤ length (stream s.incoming)
        → ((recv_exactly n s).0 ≡ ok (take n (stream s.incoming)))
          × (stream (recv_exactly n s).1.incoming ≡ drop n (stream s.incoming))
          × All IsPiece (recv_exactly n s).1.incoming)
      × (length (stream s.incoming) < n → (recv_exactly n s).0 ≡ raise eof_error)
unfolding recv_exactly
recv_exactly_lem n s pieces = (
  recv_loop-reads n n [] s.incoming s refl (omega arith) pieces,
  recv_loop-eof n n [] s.incoming s refl (omega arith) pieces,
)
