-- ===== src/Wire/Pieces.antt =====
-- One read of a socket, and reads of exactly so many bytes in two parts.
use mathlib.Core.List.{append_assoc}
use dlstorage.Base.{
  ℕ, ◌-◌, ◌≤◌, ◌<◌, ltb, Bytes, true, false, List, [], zero, suc, ◌∷◌, ◌++◌, length, take, drop,
  All, ◌≡◌, refl, sym, ap, ◌∙◌, arith, Bool-cases, inl, inr, length-append, length-take,
  take-append-drop,
}
use dlstorage.Result.{Result, ok, raise, eof_error}
use dlstorage.Wire.{Socket, recv_into, read_exactly}
use dlstorage.Wire.Stream.{
  stream, IsPiece, IsPiece-drop, recv_into-within, recv_into-beyond, take-append_ge, drop-append_ge,
}

-- A read takes the next bytes off the stream: at most as many as it asks for, and at least one
-- where it asks for one and there is one.
pub record Takes (n : ℕ) (s : Socket) (x : Bytes × Socket) : Type 0 where
  pub split : stream s.incoming ≡ x.0 ++ stream x.1.incoming
  pub short : length x.0 ≤ n
  pub pieces : All IsPiece x.1.incoming
  pub some_byte : 0 < n → 0 < length (stream s.incoming) → 0 < length x.0

recv_into_none : (n : ℕ) (s : Socket) → s.incoming ≡ [] → recv_into n s ≡ ([], s)
unfolding recv_into
recv_into_none n s e = rw e refl

take_from :
    (n : ℕ) (s : Socket) (cs : List Bytes)
    → s.incoming ≡ cs
    → All IsPiece cs
    → Takes n s (recv_into n s)
unfolding stream
take_from n s [] e h = rw (recv_into_none n s e) (record {
  split = refl;
  short = omega arith;
  pieces = rw e tt;
  some_byte = λ _ there. absurd (
      let none_left : length (stream s.incoming) ≡ 0 = rw e refl in
      omega (arith, there, none_left));
})
take_from n s (c ∷ cs) e h = elim (Bool-cases (ltb n (length c))) [
  | inl within ↦
      let longer : n < length c = ground (arith, within) in
      let got : length (take n c) ≡ n = rw (length-take n c) (omega arith) in
      rw (recv_into-within n c cs s e within) (record {
        split = rw e (
            ap (λ x. x ++ stream cs) (sym (take-append-drop n c))
            ∙ append_assoc (take n c) (drop n c) (stream cs));
        short = omega (arith, got);
        pieces = (IsPiece-drop n c longer, h.1);
        some_byte = λ wanted _. omega (arith, wanted, got);
      })
  | inr beyond ↦
      let fits : length c ≤ n = ground (arith, beyond) in
      rw (recv_into-beyond n c cs s e beyond)
        (record { split = rw e refl; short = fits; pieces = h.1; some_byte = λ _ _. h.0 })
]

pub recv_into-Takes : (n : ℕ) (s : Socket) → All IsPiece s.incoming → Takes n s (recv_into n s)
recv_into-Takes n s h = take_from n s s.incoming refl h

unfoldable pub prepend : Bytes → Result Bytes → Result Bytes
prepend c (ok got) = ok (c ++ got)
prepend c (raise e) = raise e

pub read_exactly-append :
    (n : ℕ) (c rest : Bytes)
    → length c ≤ n
    → ((read_exactly n (c ++ rest)).0 ≡ prepend c (read_exactly (n - length c) rest).0)
      × ((read_exactly n (c ++ rest)).1 ≡ (read_exactly (n - length c) rest).1)
unfolding read_exactly prepend
read_exactly-append n c rest h =
    let total = length-append c rest in
    elim (Bool-cases (ltb (length rest) (n - length c))) [
      | inl less ↦
          let short : ltb (length (c ++ rest)) n ≡ true = ground (arith, less, total, h) in
          rw (less, short) (refl, refl)
      | inr enough ↦
          let long : ltb (length (c ++ rest)) n ≡ false = ground (arith, enough, total, h) in
          rw (enough, long) (ap ok (take-append_ge n c rest h), drop-append_ge n c rest h)
    ]

pub read_exactly-nothing : (rest : Bytes) → read_exactly 0 rest ≡ (ok [], rest)
unfolding read_exactly
read_exactly-nothing rest =
    let enough : ltb (length rest) 0 ≡ false = ground arith in rw enough refl

pub read_exactly-short :
    (n : ℕ) (rest : Bytes) → length rest < n → read_exactly n rest ≡ (raise eof_error, [])
unfolding read_exactly
read_exactly-short n rest h =
    let short : ltb (length rest) n ≡ true = ground (arith, h) in rw short refl

take-take : (n : ℕ) (b : Bytes) → take n (take n b) ≡ take n b
take-take zero b = refl
take-take (suc n) [] = refl
take-take (suc n) (x ∷ b) = ap (◌∷◌ x) (take-take n b)

pub read_exactly-take :
    (n : ℕ) (b head rest : Bytes) → read_exactly n b ≡ (ok head, rest) → take n head ≡ head
unfolding read_exactly
read_exactly-take n b head rest h = elim (Bool-cases (ltb (length b) n)) [
  | inl short ↦ let none_got = read_exactly-short n b (ground (arith, short)) in absurd (cc)
  | inr long ↦
      let all_got : read_exactly n b ≡ (ok (take n b), drop n b) = rw long refl in
      let got : take n b ≡ head = cc in rw⁻¹ got (take-take n b)
]
