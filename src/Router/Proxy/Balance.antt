-- ===== src/Router/Proxy/Balance.antt =====
-- One attempt gives back the slot and the stream that it took, or serves.
use llm_router_server_dashbo.Base.{
  ℕ, ◌+◌, String, Bool, true, false, not, ◌&&◌, ◌≡◌, refl, ◌∙◌, ap, ◌⊎◌, inl, inr, some, arith,
  if-intro, leb, if◌then◌else◌,
}
use llm_router_server_dashbo.Router.State.{
  App, get_inflight, incr_inflight, decr_inflight, mark_backend_failure,
}
use llm_router_server_dashbo.Router.State.Inflight.{
  same_key, get_inflight-incr_inflight, get_inflight-decr_inflight,
}
use llm_router_server_dashbo.Router.Score.{Instance}
use llm_router_server_dashbo.Router.Lora.{Target}
use llm_router_server_dashbo.Router.Proxy.{
  World, Frame, Outcome, Response, failed, responded, on_transport_error, on_server_error,
  on_response, attempt_on, begin_attempt,
}
use llm_router_server_dashbo.Router.Proxy.Keeps.{
  SameInflight, get_inflight-of_same, mark_backend_failure-SameInflight,
}

-- Two states that count the same requests on every backend.
abbrev pub SameCounts : App → App → Type 0
SameCounts a b = (m i : String) → get_inflight a m i ≡ get_inflight b m i

-- One request more on one backend.
abbrev pub OneMore : App → String → String → App → Type 0
OneMore app m i a =
    (m' i' : String)
    → get_inflight a m' i'
      ≡ (if same_key m i m' i' then get_inflight app m' i' + 1 else get_inflight app m' i')

pub incr_inflight-OneMore :
    (app a : App) (m i : String) → SameCounts a app → OneMore app m i (incr_inflight a m i)
incr_inflight-OneMore app a m i h m' i' =
    ground (arith, get_inflight-incr_inflight a m i m' i', h m' i')

pub decr_inflight-SameCounts :
    (app a : App) (m i : String) → OneMore app m i a → SameCounts (decr_inflight a m i) app
decr_inflight-SameCounts app a m i h m' i' =
    ground (arith, get_inflight-decr_inflight a m i m' i', h m' i')

module _ (app : App) (streams : ℕ) where
  -- No slot and no stream is held.
  pub record IsIdle (f : Frame) : Type 0 where
    pub counts : SameCounts f.app app
    pub streams_open : f.open_streams ≡ streams
    pub owns : f.owns_stream ≡ false
    pub context : f.stream_ctx ≡ false
    pub counted : f.inflight_counted ≡ false

  -- The slot of one backend is held, and no stream yet.
  pub record HasSlot (m i : String) (f : Frame) : Type 0 where
    pub model : f.model_key ≡ some m
    pub instance_id : f.instance_id ≡ some i
    pub counts : OneMore app m i f.app
    pub streams_open : f.open_streams ≡ streams
    pub owns : f.owns_stream ≡ false
    pub counted : f.inflight_counted ≡ true

  -- A response is being served: its slot and its stream are held.
  pub record IsServing (f : Frame) : Type 0 where
    pub served : Response
    pub model_of : String
    pub instance_of : String
    pub response : f.response ≡ some served
    pub model : f.model_key ≡ some model_of
    pub instance_id : f.instance_id ≡ some instance_of
    pub counts : OneMore app model_of instance_of f.app
    pub streams_open : f.open_streams ≡ streams + 1
    pub owns : f.owns_stream ≡ true
    pub context : f.stream_ctx ≡ true
    pub counted : f.inflight_counted ≡ true

  -- A group ends exhausted and idle, or serving.
  abbrev pub Settles : Frame × Bool → Type 0
  Settles (f, exhausted) = ((exhausted ≡ true) × IsIdle f) ⊎ ((exhausted ≡ false) × IsServing f)

  pub begin_attempt-HasSlot :
      (t : Target) (instance : Instance) (app' : App) (f : Frame)
      → IsIdle f
      → f.model_key ≡ some t.route_key
      → SameInflight app' f.app
      → HasSlot t.route_key instance.id (begin_attempt t instance app' f)
  unfolding begin_attempt
  begin_attempt-HasSlot t instance app' f idle model same = record {
    model = model;
    instance_id = refl;
    counts =
        incr_inflight-OneMore app app' t.route_key instance.id
          (λ m i. get_inflight-of_same app' f.app m i same ∙ idle.counts m i);
    streams_open = idle.streams_open;
    owns = idle.owns;
    counted = refl;
  }

  module _ (w : World) (t : Target) (id : String) where
    -- the slot is given back after the failure is marked
    give_back :
        (now c : ℕ) (e : String) (a : App)
        → OneMore app t.route_key id a
        → SameCounts
            (decr_inflight (mark_backend_failure now a t.route_key id e c) t.route_key id)
            app
    give_back now c e a h = decr_inflight-SameCounts app _ t.route_key id (λ m i.
        get_inflight-of_same _ a m i (mark_backend_failure-SameInflight now a t.route_key id e c)
        ∙ h m i)

    on_transport_error-IsIdle :
        (error : String) (f : Frame)
        → HasSlot t.route_key id f
        → IsIdle (on_transport_error w t.route_key id error f)
    unfolding on_transport_error
    on_transport_error-IsIdle error f h = record {
      counts = give_back _ _ error f.app h.counts;
      streams_open = h.streams_open;
      owns = h.owns;
      context = refl;
      counted = refl;
    }

    on_server_error-IsIdle :
        (r : Response) (f : Frame)
        → HasSlot t.route_key id f
        → IsIdle (on_server_error w t.route_key id (on_response r f))
    unfolding on_server_error on_response
    on_server_error-IsIdle r f h = record {
      counts = give_back _ _ _ f.app h.counts;
      streams_open = omega (arith, h.streams_open);
      owns = refl;
      context = refl;
      counted = refl;
    }

    pub attempt_on-Settles :
        (is_last : Bool) (again : Frame → Frame × Bool) (f : Frame) (o : Outcome)
        → (is_last ≡ false
            → (g : Frame) → IsIdle g
            → g.model_key ≡ some t.route_key
            → Settles (again g))
        → HasSlot t.route_key id f
        → Settles (attempt_on w t id is_last again f o)
    unfolding attempt_on
    attempt_on-Settles is_last again f (failed error) ih h =
        let f' = on_transport_error w t.route_key id error f in
        let idle = on_transport_error-IsIdle error f h in
        if-intro Settles is_last _ _
          (λ _. inl (
            refl,
            record {
              counts = idle.counts;
              streams_open = idle.streams_open;
              owns = idle.owns;
              context = idle.context;
              counted = idle.counted;
            },
          ))
          (λ more. ih more f' idle (unfold on_transport_error in h.model))
    attempt_on-Settles is_last again f (responded r) ih h =
        if-intro Settles (leb 500 r.status_code && not is_last) _ _
          (λ retry.
            ih (ground arith) (on_server_error w t.route_key id (on_response r f))
              (on_server_error-IsIdle r f h) (unfold on_server_error on_response in h.model))
          (λ _. inr (
            refl,
            unfold on_response in
                record {
                  served = r;
                  model_of = t.route_key;
                  instance_of = id;
                  response = refl;
                  model = h.model;
                  instance_id = h.instance_id;
                  counts = h.counts;
                  streams_open = ap (λ (n : ℕ). n + 1) h.streams_open;
                  owns = refl;
                  context = refl;
                  counted = h.counted;
                },
          ))
