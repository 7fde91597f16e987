-- ===== src/Node/Server/Replies.antt =====
-- A client gets a reply to each of its requests, in their order.
use mathlib.Core.Path.{subst}
use mathlib.Core.List.{append_assoc, append-nil}
use dlstorage.Base.{
  ℕ, zero, suc, ◌<◌, Bytes, from_bytes, List, [], ◌∷◌, ◌++◌, length, All, ◌≡◌, refl, sym, ap, ◌∙◌,
  arith, ltb, Bool-cases, inl, inr,
}
use dlstorage.Result.{Result, ok, raise, Error}
use dlstorage.Action.{Action, continue}
use dlstorage.Types.{Message}
use dlstorage.Wire.{
  Socket, frame, send_message, recv_message, recv_message_async, recv_into, recv_loop, recv_exactly,
  read_exactly,
}
use dlstorage.Wire.Stream.{stream, IsPiece}
use dlstorage.Wire.Frames.{IsAlike, recv_message-IsAlike, recv_message_async-frame}
use dlstorage.Node.Server.{turn, answer, send, go_on, handle_client}

sent-recv_into : (n : ℕ) (s : Socket) → (recv_into n s).1.sent ≡ s.sent
unfolding recv_into
sent-recv_into n s = go s.incoming refl
  where
    go : (cs : List Bytes) → s.incoming ≡ cs → (recv_into n s).1.sent ≡ s.sent
    go [] e = rw e refl
    go (c ∷ cs) e = elim (Bool-cases (ltb n (length c))) [
      | inl within ↦ rw (e, within) refl
      | inr beyond ↦ rw (e, beyond) refl
    ]

sent-recv_loop : (fuel n : ℕ) (buf : Bytes) (s : Socket) → (recv_loop fuel n buf s).1.sent ≡ s.sent
unfolding recv_loop
sent-recv_loop zero n buf s = refl
sent-recv_loop (suc fuel) zero buf s = refl
sent-recv_loop (suc fuel) (suc n) buf s =
    go (recv_into (suc n) s).0 (recv_into (suc n) s).1 refl (sent-recv_into (suc n) s)
      (λ k more t. sent-recv_loop fuel k more t)
  where
    go :
        (got : Bytes) (t : Socket)
        → recv_into (suc n) s ≡ (got, t)
        → t.sent ≡ s.sent
        → ((k : ℕ) (more : Bytes) (u : Socket) → (recv_loop fuel k more u).1.sent ≡ u.sent)
        → (recv_loop (suc fuel) (suc n) buf s).1.sent ≡ s.sent
    go [] t e kept rest = rw (e, recv_loop) (ap (λ x. x.1.sent) e ∙ kept)
    go (b ∷ bs) t e kept rest = rw (e, recv_loop) (rest _ _ _ ∙ ap (λ x. x.1.sent) e ∙ kept)

sent-continue :
    {A B : Type 0} (x : Result A × Socket) (f : A → Action Socket B) (sent : Bytes)
    → x.1.sent ≡ sent
    → ((a : A) (s : Socket) → (f a s).1.sent ≡ s.sent)
    → (continue x.0 f x.1).1.sent ≡ sent
sent-continue (ok a, s) f sent e h = h a s ∙ e
sent-continue (raise err, s) f sent e h = e

module _ (loads : Bytes → Result Message) where
  pub sent-recv_message : (s : Socket) → (recv_message loads s).1.sent ≡ s.sent
  unfolding recv_message recv_exactly
  sent-recv_message s =
      sent-continue (recv_exactly 4 s) _ s.sent (sent-recv_loop 4 4 [] s) (λ head t.
        sent-continue (recv_exactly (from_bytes head) t) _ t.sent
          (sent-recv_loop (from_bytes head) (from_bytes head) [] t) (λ body u. refl))

module _ {N : Type 0} (dumps : Message → Bytes) (loads : Bytes → Result Message)
    (handle : Message → Action N Message) where
  -- `Session k n ins outs n'`: a client that sends `k` requests, the bytes `ins`, and then closes
  -- takes the node from `n` to `n'`, and the framed responses are the bytes `outs`.
  pub data Session : ℕ → N → Bytes → Bytes → N → Type 0 where
    closed : {n : N} → Session 0 n [] [] n
    request :
        {k : ℕ} {n n₁ n₂ : N} {msg response : Message} {h o ins outs : Bytes}
        → frame dumps msg ≡ ok h
        → loads (dumps msg) ≡ ok msg
        → handle msg n ≡ (ok response, n₁)
        → frame dumps response ≡ ok o
        → Session k n₁ ins outs n₂
        → Session (suc k) n (h ++ ins) (o ++ outs) n₂

  -- What is left after a request has been read.
  pub received :
      (msg : Message) (h rest : Bytes) (s : Socket)
      → frame dumps msg ≡ ok h
      → loads (dumps msg) ≡ ok msg
      → All IsPiece s.incoming
      → stream s.incoming ≡ h ++ rest
      → (t : Socket) × (recv_message loads s ≡ (ok msg, t))
        × (stream t.incoming ≡ rest)
        × All IsPiece t.incoming
        × (t.sent ≡ s.sent)
  received msg h rest s framed loaded pieces arrives =
      go (recv_message loads s).0 (recv_message loads s).1 refl
        (subst (IsAlike (recv_message loads s))
          (recv_message_async-frame dumps loads msg h rest framed loaded)
          (subst (λ x. IsAlike (recv_message loads s) (recv_message_async loads x)) arrives
            (recv_message-IsAlike loads s pieces)))
        (sent-recv_message loads s)
    where
      go :
          (r : Result Message) (t : Socket)
          → recv_message loads s ≡ (r, t)
          → IsAlike (recv_message loads s) (ok msg, rest)
          → (recv_message loads s).1.sent ≡ s.sent
          → (t : Socket) × (recv_message loads s ≡ (ok msg, t))
            × (stream t.incoming ≡ rest)
            × All IsPiece t.incoming
            × (t.sent ≡ s.sent)
      go (ok m) t e like kept =
          let l = subst (λ x. IsAlike x (ok msg, rest)) e like in
          (t, e ∙ ap (λ r. (r, t)) (sym l.0), l.1, l.2, sym (ap (λ x. x.1.sent) e) ∙ kept)
      go (raise err) t e like kept = absurd (raised (subst (λ x. IsAlike x (ok msg, rest)) e like))
        where
          raised : ◌≡◌ {A = Result Message} (ok msg) (raise err) → ⊥
          raised x = cc

  pub sent-frame :
      (response : Message) (o : Bytes) (s : Socket)
      → frame dumps response ≡ ok o
      → send_message dumps response s ≡ (ok tt, record s { sent = s.sent ++ o })
  unfolding send_message
  sent-frame response o s framed = rw framed refl

  turn-request :
      (msg response : Message) (o : Bytes) (s t : Socket) (n n₁ : N)
      → recv_message loads s ≡ (ok msg, t)
      → handle msg n ≡ (ok response, n₁)
      → frame dumps response ≡ ok o
      → turn dumps loads handle s n ≡ (ok tt, record t { sent = t.sent ++ o }, n₁)
  unfolding turn
  turn-request msg response o s t n n₁ got handled framed =
      ap (λ x. answer dumps loads handle x n) got
      ∙ rw (handled, sent-frame response o t framed) refl

  handle_client-request :
      (fuel : ℕ) (s t : Socket) (n n₁ : N)
      → turn dumps loads handle s n ≡ (ok tt, t, n₁)
      → handle_client dumps loads handle (suc fuel) s n ≡ handle_client dumps loads handle fuel t n₁
  unfolding handle_client
  handle_client-request fuel s t n n₁ e =
      ap (go_on dumps loads handle (handle_client dumps loads handle fuel)) e

  -- A request whose handling raises ends the loop, and nothing is sent for it.
  pub handle_client-raise :
      (fuel : ℕ) (msg : Message) (e : Error) (s t : Socket) (n n' : N)
      → recv_message loads s ≡ (ok msg, t)
      → handle msg n ≡ (raise e, n')
      → handle_client dumps loads handle (suc fuel) s n ≡ (t, n')
  unfolding handle_client turn answer send go_on
  handle_client-raise fuel msg e s t n n' got handled =
      ap
        (λ x.
          go_on dumps loads handle (handle_client dumps loads handle fuel)
            (answer dumps loads handle x n))
        got
      ∙ rw handled refl

  at_end :
      (fuel : ℕ) (s : Socket) (n : N)
      → stream s.incoming ≡ []
      → All IsPiece s.incoming
      → ((handle_client dumps loads handle (suc fuel) s n).0.sent ≡ s.sent)
        × ((handle_client dumps loads handle (suc fuel) s n).1 ≡ n)
  unfolding handle_client turn recv_message_async read_exactly
  at_end fuel s n empty pieces =
      go (recv_message loads s)
        (subst (λ x. IsAlike (recv_message loads s) (recv_message_async loads x)) empty
          (recv_message-IsAlike loads s pieces))
        (sent-recv_message loads s)
    where
      go :
          (x : Result Message × Socket)
          → IsAlike x (recv_message_async loads [])
          → x.1.sent ≡ s.sent
          → ((go_on dumps loads handle
                (handle_client dumps loads handle fuel)
                (answer dumps loads handle x n)).0.sent
              ≡ s.sent)
            × ((go_on dumps loads handle
                  (handle_client dumps loads handle fuel)
                  (answer dumps loads handle x n)).1
                ≡ n)
      go (ok m, t) like kept = absurd cc
      go (raise e, t) like kept = (kept, refl)

  -- A client that sends requests one after another and then closes the connection gets the framed
  -- responses in the order of its requests, and the node handles each request once, in that order,
  -- however the bytes of the client are cut into pieces. The handling of each request returns, each
  -- request and response is shorter than the header can say, each request can be loaded again from
  -- its pickle, and the fuel is greater than the number of requests.
  pub handle_client_lem :
      (fuel : ℕ) (s : Socket) {k : ℕ} {n n' : N} {ins outs : Bytes}
      → Session k n ins outs n'
      → k < fuel
      → All IsPiece s.incoming
      → stream s.incoming ≡ ins
      → ((handle_client dumps loads handle fuel s n).0.sent ≡ s.sent ++ outs)
        × ((handle_client dumps loads handle fuel s n).1 ≡ n')
  handle_client_lem zero s session enough pieces arrives = absurd (omega arith)
  handle_client_lem (suc fuel) s (closed {n}) enough pieces arrives =
      let (kept, same) = at_end fuel s n arrives pieces in (kept ∙ sym (append-nil s.sent), same)
  handle_client_lem (suc fuel) s
        (request {k} {n} {n₁} {n₂} {msg} {response} {h} {o} {ins} {outs} framed loaded handled
          replied session)
        enough pieces arrives =
      let (t, got, left, more, kept) = received msg h ins s framed loaded pieces arrives in
      let u : Socket = record t { sent = t.sent ++ o } in
      let (sent, same) = handle_client_lem fuel u session (omega arith) more left in
      rw
        (handle_client-request fuel s u n n₁
          (turn-request msg response o s t n n₁ got handled replied))
        (sent ∙ append_assoc t.sent o outs ∙ ap (λ x. x ++ (o ++ outs)) kept, same)
