-- ===== src/Examples/Lifespan/Ready.antt =====
-- Requests before, during and after the lifespan of the application.
use dlstorage.Base.{
  Text, ℕ, ◌==◌, Bytes, Bool, true, false, none, some, List, [], ◌∷◌, All, if◌then◌else◌, ◌≡◌, refl,
  ap, ◌∙◌, Bool-cases, inl, inr,
}
use dlstorage.Result.{Result, ok, raise}
use dlstorage.Action.{Action, continue, pure, ◌>>=◌}
use dlstorage.Types.{NodeInfo, Value, is_some_value}
use dlstorage.Ring.{RendezvousRing}
use dlstorage.Discovery.{Discovery}
use dlstorage.Handle.{ConnectionPool}
use dlstorage.Node.Storage.{StorageNode, async_set, async_delete}
use dlstorage.Node.Storage.Reads.{async_get}
use dlstorage.Node.Lifecycle.{async_start}
use dlstorage.Examples.{Response, json, healthy, no_content, failed}
use dlstorage.Examples.Fastapi.{get_key, set_key, delete_key, health}
use dlstorage.Examples.Lifespan.{
  App, Request, get_request, put_request, delete_request, health_request, respond, answer,
  answer_all, startup, shutdown,
}

-- The answer "node not ready".
abbrev pub is_503 : Result Response → Bool
is_503 (ok (failed status)) = status == 503
is_503 (ok (json value)) = false
is_503 (ok (healthy h)) = false
is_503 (ok no_content) = false
is_503 (raise e) = false

module _ {S : Type 0} (sha256 : Text → Bytes) (keys : S → ℕ)
    (fields : RendezvousRing → StorageNode S) where
  answer_without :
      (request : Request) (app : App S)
      → app.created ≡ false
      → answer sha256 keys fields request app ≡ (ok (failed 503), app)
  unfolding answer respond get_key set_key delete_key health
  answer_without (get_request key) app gone = rw gone refl
  answer_without (put_request key value ts) app gone = rw gone refl
  answer_without (delete_request key ts) app gone = rw gone refl
  answer_without health_request app gone = rw gone refl

  answer_all_without :
      (requests : List Request) (app : App S)
      → app.created ≡ false
      → All (λ r. is_503 r ≡ true) (answer_all sha256 keys fields requests app).0
        × ((answer_all sha256 keys fields requests app).1 ≡ app)
  unfolding answer_all
  answer_all_without [] app gone = (tt, refl)
  answer_all_without (request ∷ requests) app gone =
      rw (answer_without request app gone)
        (let (rest, same) = answer_all_without requests app gone in ((refl, rest), same))

  -- A result that decides between 204 and an error.
  decided :
      (m : Action S Bool) (status : ℕ) (s : S)
      → (status == 503) ≡ false
      → is_503 ((m >>= λ done. pure (if done then no_content else failed status)) s).0 ≡ false
  decided m status s other = go (m s).0 (m s).1
    where
      go :
          (r : Result Bool) (t : S)
          → is_503 (continue r (λ done. pure (if done then no_content else failed status)) t).0
            ≡ false
      go (ok true) t = refl
      go (ok false) t = other
      go (raise e) t = refl

  shown :
      (value : Value) → is_503 (ok (if is_some_value value then json value else failed 404)) ≡ false
  shown value = elim (Bool-cases (is_some_value value)) [
    | inl there ↦ rw there refl
    | inr missing ↦ rw missing refl
  ]

  respond_ready :
      (request : Request) (node : StorageNode S) (s : S)
      → is_503 (respond sha256 keys request (some node) s).0 ≡ false
  unfolding respond get_key set_key delete_key health
  respond_ready (get_request key) node s = shown (async_get sha256 node key s).0
  respond_ready (put_request key value ts) node s =
      decided (async_set sha256 node key value none ts) 500 s refl
  respond_ready (delete_request key ts) node s =
      decided (async_delete sha256 node key ts) 404 s refl
  respond_ready health_request node s = refl

  answer_all_ready :
      (requests : List Request) (app : App S)
      → app.created ≡ true
      → All (λ r. is_503 r ≡ false) (answer_all sha256 keys fields requests app).0
  unfolding answer_all answer
  answer_all_ready [] app there = tt
  answer_all_ready (request ∷ requests) app there = (
    rw there (respond_ready request (fields app.life.peers.ring) app.life.peers.pool),
    answer_all_ready requests (answer sha256 keys fields request app).1 there,
  )

  start_lem :
      (info : NodeInfo) (pool : ConnectionPool S) (found : Discovery → Result (List NodeInfo))
      (opens : Result Unit) (ps : List NodeInfo) (app : App S)
      → found app.life.peers.discovery ≡ ok ps
      → ((startup info pool found opens app).0 ≡ opens)
        × ((startup info pool found opens app).1.created ≡ true)
  unfolding startup async_start
  start_lem info pool found (ok u) ps app answered = rw answered (refl, refl)
  start_lem info pool found (raise e) ps app answered = rw answered (refl, refl)

  -- Before the lifespan has started and after it has ended, the application answers every request
  -- with 503, also one for its health, and changes nothing by that. In between no request is answered
  -- with 503. Where the discovery answers, the start comes out as the opening of the server's socket
  -- does: the announcement does not fail it.
  pub lifespan_lem :
      (info : NodeInfo) (pool : ConnectionPool S) (found : Discovery → Result (List NodeInfo))
      (opens : Result Unit) (ps : List NodeInfo) (before during after : List Request) (app : App S)
      → app.created ≡ false
      → found app.life.peers.discovery ≡ ok ps
      → let (early, app1) = answer_all sha256 keys fields before app in
        let (started, app2) = startup info pool found opens app1 in
        let (served, app3) = answer_all sha256 keys fields during app2 in
        let app4 = shutdown info pool app3 in
        let (late, app5) = answer_all sha256 keys fields after app4 in
        All (λ r. is_503 r ≡ true) early
        × (app1 ≡ app)
        × (started ≡ opens)
        × All (λ r. is_503 r ≡ false) served
        × All (λ r. is_503 r ≡ true) late
        × (app5 ≡ app4)
  unfolding shutdown
  lifespan_lem info pool found opens ps before during after app gone answered =
      let (early, same) = answer_all_without before app gone in
      let (started, there) =
        start_lem info pool found opens ps _
          (ap (λ a. found a.life.peers.discovery) same ∙ answered) in
      let served = answer_all_ready during _ there in
      let (late, still) = answer_all_without after _ refl in
      (early, same, started, served, late, still)
