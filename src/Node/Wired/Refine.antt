-- ===== src/Node/Wired/Refine.antt =====
-- A request over the wire against a call of what handles it.
use mathlib.Core.List.{append-nil}
use Prim.Native.Nat.{◌^◌}
use dlstorage.Base.{
  ℕ, zero, suc, ◌<◌, ltb, ℤ, Text, Bytes, to_bytes, true, Option, none, some, List, [], ◌++◌,
  length, All, ◌≡◌, refl, sym, ap, ◌∙◌, arith,
}
use dlstorage.Result.{Result, ok, raise, Error, eof_error}
use dlstorage.Action.{Action, continue}
use dlstorage.Types.{Message}
use dlstorage.Store.Lww.{LocalLwwStore}
use dlstorage.Wire.{
  Socket, header_size, header, frame, send_frame, send_message, recv_message, recv_exactly,
}
use dlstorage.Wire.Stream.{stream, IsPiece, recv_exactly_lem}
use dlstorage.Wire.Frames.{recv_message-send_message}
use dlstorage.Node.Dispatcher.{dispatch}
use dlstorage.Node.Handles.Remote.{connected, delivered}
use dlstorage.Node.Server.Replies.{
  Session, received, handle_client_lem, handle_client-raise, sent-frame,
}
use dlstorage.Node.Wired.{IsCut, arriving, over_wire}

-- What the client finds on the connection: the response, or its end.
abbrev pub found : Result Message → Result Message
found (ok response) = ok response
found (raise e) = raise eof_error

-- The length of the pickled message fits into the header, and it can be loaded again.
abbrev pub IsSendable : (Message → Bytes) → (Bytes → Result Message) → Message → Type 0
IsSendable dumps loads m = (length (dumps m) < 256 ^ 4) × (loads (dumps m) ≡ ok m)

module _ {N : Type 0} (dumps : Message → Bytes) (loads : Bytes → Result Message)
    (handle : Message → Action N Message) (there back : Bytes → List Bytes) where
  framed-IsSendable :
      (m : Message) → IsSendable dumps loads m → (o : Bytes) × (frame dumps m ≡ ok o)
  unfolding frame header
  framed-IsSendable m (short, loaded) =
      let fits : ltb (length (dumps m)) (256 ^ header_size) ≡ true = ground (arith, short) in
      (to_bytes 4 (length (dumps m)) ++ dumps m, rw fits refl)

  recv_message-end :
      (s : Socket)
      → All IsPiece s.incoming
      → stream s.incoming ≡ []
      → (recv_message loads s).0 ≡ raise eof_error
  unfolding recv_message
  recv_message-end s pieces empty =
      let short : length (stream s.incoming) < 4 = rw empty (omega arith) in
      go _ (recv_exactly header_size s) ((recv_exactly_lem header_size s pieces).1 short)
    where
      go :
          (f : Bytes → Action Socket Message) (x : Result Bytes × Socket)
          → x.0 ≡ raise eof_error
          → (continue x.0 f x.1).0 ≡ raise eof_error
      go f x e = rw e refl

  module _ (cut_there : IsCut there) (cut_back : IsCut back) where
    answered :
        (fuel : ℕ) (msg response : Message) (n n' : N) (h o : Bytes)
        → 1 < fuel
        → loads (dumps msg) ≡ ok msg
        → frame dumps msg ≡ ok h
        → handle msg n ≡ (ok response, n')
        → frame dumps response ≡ ok o
        → loads (dumps response) ≡ ok response
        → over_wire dumps loads handle there back fuel msg n ≡ (ok response, n')
    unfolding over_wire send_message send_frame
    answered fuel msg response n n' h o enough loaded framed handled replied loaded_response =
        let session : Session dumps loads handle 1 n (h ++ []) (o ++ []) n' =
          Session.request framed loaded handled replied Session.closed in
        let (sent, state) =
          handle_client_lem dumps loads handle fuel (arriving there h) session enough
            (cut_there h).1 ((cut_there h).0 ∙ sym (append-nil h)) in
        let fresh : Socket = record { incoming = []; sent = [] } in
        let (got, rest) =
          recv_message-send_message dumps loads response [] fresh (record fresh { sent = o })
            (arriving back (o ++ [])) (sent-frame dumps loads handle response o fresh replied)
            loaded_response (cut_back (o ++ [])).1 (cut_back (o ++ [])).0 in
        rw (framed, sent, state) (ap (λ r. (r, n')) got)

    refused :
        (fuel : ℕ) (msg : Message) (e : Error) (n n' : N) (h : Bytes)
        → 1 < fuel
        → loads (dumps msg) ≡ ok msg
        → frame dumps msg ≡ ok h
        → handle msg n ≡ (raise e, n')
        → over_wire dumps loads handle there back fuel msg n ≡ (raise eof_error, n')
    unfolding over_wire send_message send_frame
    refused zero msg e n n' h enough loaded framed handled = absurd (omega arith)
    refused (suc fuel) msg e n n' h enough loaded framed handled =
        let (t, got, left, more, kept) =
          received dumps loads handle msg h [] (arriving there h) framed loaded (cut_there h).1
            ((cut_there h).0 ∙ sym (append-nil h)) in
        let ended =
          handle_client-raise dumps loads handle fuel msg e (arriving there h) t n n' got handled in
        rw (framed, ended, kept)
          (ap (λ r. (r, n')) (recv_message-end (arriving back []) (cut_back []).1 (cut_back []).0))

    -- A request over the wire, however the bytes are cut into pieces in both directions, gets what
    -- handling the request gives, and changes what that changes; where the handling raises, the
    -- client finds the end of the stream. The request and its response are shorter than the header
    -- can say, and what is pickled can be loaded again.
    pub over_wire_lem :
        (fuel : ℕ) (msg : Message) (n : N)
        → 1 < fuel
        → IsSendable dumps loads msg
        → ((response : Message) → (handle msg n).0 ≡ ok response → IsSendable dumps loads response)
        → over_wire dumps loads handle there back fuel msg n
          ≡ (found (handle msg n).0, (handle msg n).1)
    over_wire_lem fuel msg n enough sendable sendable_response =
        let (h, framed) = framed-IsSendable msg sendable in
        go h framed (handle msg n).0 (handle msg n).1 refl
      where
        go :
            (h : Bytes)
            → frame dumps msg ≡ ok h
            → (r : Result Message) (n' : N) → handle msg n ≡ (r, n')
            → over_wire dumps loads handle there back fuel msg n ≡ (found r, n')
        go h framed (ok response) n' handled =
            let sent_back = sendable_response response (ap (λ x. x.0) handled) in
            let (o, replied) = framed-IsSendable response sent_back in
            answered fuel msg response n n' h o enough sendable.1 framed handled replied sent_back.1
        go h framed (raise e) n' handled =
            refused fuel msg e n n' h enough sendable.1 framed handled

-- What the pool hands to its caller: an exception is no response.
abbrev pub response_of : Result Message → Option Message
response_of (ok response) = some response
response_of (raise e) = none

-- What the handles see as a call of the peer's dispatcher is what its framed request, the peer's
-- loop and the framed response come to, however the bytes are cut into pieces, where the request
-- and its response are shorter than the header can say and can be loaded again from their pickles,
-- and the peer's loop has two turns.
pub over_wire-connected :
    (dumps : Message → Bytes) (loads : Bytes → Result Message) (there back : Bytes → List Bytes)
    (now clock : ℤ) (fuel : ℕ) (host : Text) (port : ℤ) (msg : Message) (s : LocalLwwStore)
    → IsCut there
    → IsCut back
    → 1 < fuel
    → IsSendable dumps loads msg
    → ((response : Message)
        → (dispatch now clock msg s).0 ≡ ok response
        → IsSendable dumps loads response)
    → (connected now clock).execute host port msg s ≡ (
      ok (response_of (over_wire dumps loads (dispatch now clock) there back fuel msg s).0),
      (over_wire dumps loads (dispatch now clock) there back fuel msg s).1,
    )
over_wire-connected dumps loads there back now clock fuel host port msg s cut_there cut_back enough
      sendable sendable_response =
    rw
      (over_wire_lem dumps loads (dispatch now clock) there back cut_there cut_back fuel msg s
        enough sendable sendable_response)
      (ap (λ r. (r, (dispatch now clock msg s).1)) (delivered-found (dispatch now clock msg s).0))
  where
    delivered-found : (r : Result Message) → delivered r ≡ ok (response_of (found r))
    delivered-found (ok m) = refl
    delivered-found (raise e) = refl
