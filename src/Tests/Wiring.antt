-- ===== src/Tests/Wiring.antt =====
-- A request over the wire on a small input.
use mathlib.Core.Path.{subst}
use dlstorage.Base.{
  ℕ, pos, codes, text_eq, Bytes, ◌==◌, some, List, [], ◌∷◌, if◌then◌else◌, ◌≡◌, refl, ap, arith,
}
use dlstorage.Dict
use dlstorage.Result.{Result, ok, raise, eof_error}
use dlstorage.Types.{Message, MessageType, empty_payload}
use dlstorage.Store.Lww.{get_versioned}
use dlstorage.Wire.Stream.{stream}
use dlstorage.Node.Dispatcher.{dispatch, reply}
use dlstorage.Node.Handles.{get_message}
use dlstorage.Node.Handles.Remote.{connected}
use dlstorage.Node.Wired.{IsCut, over_wire}
use dlstorage.Node.Wired.Refine.{IsSendable, response_of, over_wire-connected}
use dlstorage.Tests.Samples.{stocked, seven}

abbrev get_x : Message
get_x = get_message (codes "x")

abbrev x_reply : Message
x_reply =
    reply MessageType.ok_reply
      (record empty_payload { key = some (codes "x"); value = some seven; ts = some (pos 5) })

abbrev tag : MessageType → ℕ
tag MessageType.get = 1
tag _ = 2

abbrev tag_dumps : Message → Bytes
tag_dumps m = tag m.type ∷ []

abbrev tag_loads : Bytes → Result Message
tag_loads [] = raise eof_error
tag_loads (b ∷ bs) = if b == 1 then ok get_x else ok x_reply

-- A network that delivers byte by byte.
abbrev bytewise : Bytes → List Bytes
bytewise [] = []
bytewise (b ∷ bs) = (b ∷ []) ∷ bytewise bs

bytewise-IsCut : IsCut bytewise
unfolding stream
bytewise-IsCut [] = (refl, tt)
bytewise-IsCut (b ∷ bs) =
    let (same, pieces) = bytewise-IsCut bs in (ap (◌∷◌ b) same, (omega arith, pieces))

x_reply-IsSendable :
    (response : Message)
    → (dispatch (pos 1) (pos 1) get_x stocked).0 ≡ ok response
    → IsSendable tag_dumps tag_loads response
unfolding dispatch get_versioned Dict.get text_eq
x_reply-IsSendable response h =
    let same : x_reply ≡ response = cc in
    subst (IsSendable tag_dumps tag_loads) same (omega arith, refl)

over_wire-connected_example :
    (connected (pos 1) (pos 1)).execute (codes "b") (pos 1) get_x stocked ≡ (
      ok (
          response_of
            (over_wire tag_dumps tag_loads
              (dispatch (pos 1) (pos 1))
              bytewise
              bytewise
              2
              get_x
              stocked).0),
      (over_wire tag_dumps tag_loads
          (dispatch (pos 1) (pos 1))
          bytewise
          bytewise
          2
          get_x
          stocked).1,
    )
over_wire-connected_example =
    over_wire-connected tag_dumps tag_loads bytewise bytewise (pos 1) (pos 1) 2 (codes "b") (pos 1)
      get_x stocked bytewise-IsCut bytewise-IsCut (omega arith) (omega arith, refl)
      x_reply-IsSendable
