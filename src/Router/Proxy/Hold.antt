-- ===== src/Router/Proxy/Hold.antt =====
-- What the code behind the walk does with the slot and the stream of a frame: the marks on the health
-- of a backend keep them, and the clean-up gives them back.
use llm_router_server_dashbo.Base.{
  ℕ, ◌+◌, String, true, ◌&&◌, ◌≡◌, refl, ◌∙◌, some, arith, if-intro, or_default, ltb, is_some,
}
use llm_router_server_dashbo.Router.State.{App, decr_inflight}
use llm_router_server_dashbo.Router.Proxy.{World, Frame, Response}
use llm_router_server_dashbo.Router.Proxy.Keeps.{
  SameInflight, get_inflight-of_same, mark_backend_failure-SameInflight,
  mark_backend_success-SameInflight,
}
use llm_router_server_dashbo.Router.Proxy.Balance.{
  SameCounts, OneMore, IsIdle, IsServing, decr_inflight-SameCounts,
}
use llm_router_server_dashbo.Router.Proxy.Handler.{
  marked_failure, mark_answered, clean_up, on_unexpected,
}

-- Every slot and every stream that the request took is given back.
pub record IsReleased (app : App) (streams : ℕ) (f : Frame) : Type 0 where
  pub counts : SameCounts f.app app
  pub streams_open : f.open_streams ≡ streams

-- The two frames differ in the health of backends alone.
pub record SameHold (f g : Frame) : Type 0 where
  pub inflight : SameInflight f.app g.app
  pub streams_open : f.open_streams ≡ g.open_streams
  pub owns : f.owns_stream ≡ g.owns_stream
  pub context : f.stream_ctx ≡ g.stream_ctx
  pub counted : f.inflight_counted ≡ g.inflight_counted
  pub model : f.model_key ≡ g.model_key
  pub instance_id : f.instance_id ≡ g.instance_id

pub SameHold-refl : (f : Frame) → SameHold f f
SameHold-refl f = record {
  inflight = refl;
  streams_open = refl;
  owns = refl;
  context = refl;
  counted = refl;
  model = refl;
  instance_id = refl;
}

pub marked_failure-SameHold :
    (w : World) (e : String) (f : Frame) → SameHold (marked_failure w e f) f
marked_failure-SameHold w e f = record {
  inflight = mark_backend_failure-SameInflight _ f.app _ _ e _;
  streams_open = refl;
  owns = refl;
  context = refl;
  counted = refl;
  model = refl;
  instance_id = refl;
}

pub mark_answered-SameHold :
    (w : World) (r : Response) (f : Frame) → SameHold (mark_answered w r f) f
unfolding mark_answered
mark_answered-SameHold w r f =
    if-intro (λ g. SameHold g f) (ltb r.status_code 500) _ _
      (λ _. record {
        inflight = mark_backend_success-SameInflight f.app _ _;
        streams_open = refl;
        owns = refl;
        context = refl;
        counted = refl;
        model = refl;
        instance_id = refl;
      })
      (λ _. marked_failure-SameHold w _ f)

pub on_unexpected-SameHold : (w : World) (e : String) (f : Frame) → SameHold (on_unexpected w e f) f
unfolding on_unexpected
on_unexpected-SameHold w e f =
    if-intro (λ g. SameHold g f) (is_some f.instance_id && is_some f.model_key) _ _
      (λ _. marked_failure-SameHold w e f) (λ _. SameHold-refl f)

module _ (app : App) (streams : ℕ) where
  pub IsIdle-hold : (f g : Frame) → SameHold f g → IsIdle app streams g → IsIdle app streams f
  IsIdle-hold f g h idle = record {
    counts = λ m i. get_inflight-of_same f.app g.app m i h.inflight ∙ idle.counts m i;
    streams_open = h.streams_open ∙ idle.streams_open;
    owns = h.owns ∙ idle.owns;
    context = h.context ∙ idle.context;
    counted = h.counted ∙ idle.counted;
  }

  -- A frame that holds the slot and the stream of a backend.
  pub record Holds (m i : String) (f : Frame) : Type 0 where
    pub model : f.model_key ≡ some m
    pub instance_id : f.instance_id ≡ some i
    pub counts : OneMore app m i f.app
    pub streams_open : f.open_streams ≡ streams + 1
    pub owns : f.owns_stream ≡ true
    pub context : f.stream_ctx ≡ true
    pub counted : f.inflight_counted ≡ true

  pub Holds-of_serving :
      (f : Frame) (s : IsServing app streams f) → Holds s.model_of s.instance_of f
  Holds-of_serving f s = record {
    model = s.model;
    instance_id = s.instance_id;
    counts = s.counts;
    streams_open = s.streams_open;
    owns = s.owns;
    context = s.context;
    counted = s.counted;
  }

  pub Holds-hold : (m i : String) (f g : Frame) → SameHold f g → Holds m i g → Holds m i f
  Holds-hold m i f g h s = record {
    model = h.model ∙ s.model;
    instance_id = h.instance_id ∙ s.instance_id;
    counts = λ m' i'. get_inflight-of_same f.app g.app m' i' h.inflight ∙ s.counts m' i';
    streams_open = h.streams_open ∙ s.streams_open;
    owns = h.owns ∙ s.owns;
    context = h.context ∙ s.context;
    counted = h.counted ∙ s.counted;
  }

  pub clean_up-of_idle : (f : Frame) → IsIdle app streams f → IsReleased app streams (clean_up f)
  unfolding clean_up
  clean_up-of_idle f idle =
      rw (idle.owns, idle.counted)
        (record { counts = idle.counts; streams_open = idle.streams_open })

  -- decr_inflight for the locals `model_key` and `instance_id`
  pub released_counts :
      (m i : String) (f : Frame)
      → f.model_key ≡ some m
      → f.instance_id ≡ some i
      → OneMore app m i f.app
      → SameCounts
          (decr_inflight f.app (or_default f.model_key "") (or_default f.instance_id ""))
          app
  released_counts m i f model inst more =
      rw (model, inst) (decr_inflight-SameCounts app f.app m i more)

  pub clean_up-of_Holds :
      (m i : String) (f : Frame) → Holds m i f → IsReleased app streams (clean_up f)
  unfolding clean_up
  clean_up-of_Holds m i f s =
      rw (s.owns, s.context, s.counted)
        (record {
          counts = released_counts m i f s.model s.instance_id s.counts;
          streams_open = omega (arith, s.streams_open);
        })
