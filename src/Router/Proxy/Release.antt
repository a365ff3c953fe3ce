-- ===== src/Router/Proxy/Release.antt =====
-- `_proxy_to_backend` as a whole: what a request has taken when it ends.
use llm_router_server_dashbo.Base.{
  ℕ, ◌+◌, String, Bool, true, false, ◌≡◌, refl, sym, ◌∙◌, ◌⊎◌, inl, inr, Option, none, some, [],
  arith, if-intro, subst, str_eq,
}
use llm_router_server_dashbo.Router.Http.{HttpException}
use llm_router_server_dashbo.Router.State.{App}
use llm_router_server_dashbo.Router.Config.{Config}
use llm_router_server_dashbo.Router.Lora.{Target, resolve_model, build_route_chain}
use llm_router_server_dashbo.Router.Proxy.{World, Keys, Frame, Response}
use llm_router_server_dashbo.Router.Proxy.Keeps.{get_inflight-of_same}
use llm_router_server_dashbo.Router.Proxy.Balance.{OneMore, IsIdle, IsServing}
use llm_router_server_dashbo.Router.Proxy.Walk.{walk-Settles}
use llm_router_server_dashbo.Router.Proxy.Handler.{
  Answer, buffered, streaming, error, Ended, Read, ReadOutcome, content, read_error, marked_failure,
  mark_answered, clean_up, answer_body, answer_response, end_stream, is_rejected, start_frame,
  proxy_target, proxy_to_backend,
}
use llm_router_server_dashbo.Router.Proxy.Hold.{
  IsReleased, SameHold, SameHold-refl, marked_failure-SameHold, on_unexpected-SameHold,
  mark_answered-SameHold, IsIdle-hold, Holds, Holds-of_serving, Holds-hold, clean_up-of_idle,
  clean_up-of_Holds, released_counts,
}

module _ (app : App) (streams : ℕ) where
  -- What is given back, and when: at once with a whole body or an error, and at the end of the stream
  -- with a streamed response whose stream is open.
  abbrev pub GivesBack : Answer → Frame → Type 0
  GivesBack (buffered r body) f = IsReleased app streams f
  GivesBack (error e) f = IsReleased app streams f
  GivesBack (streaming r) f =
      f.stream_ctx ≡ true
      → (w : World) (message : Option String) → IsReleased app streams (end_stream w r f message).0

  -- All that a request took is given back.
  pub record Releases (e : Ended) : Type 0 where
    pub gives_back : GivesBack e.answer e.frame

  answer_body-GivesBack :
      (w : World) (r : Response) (f : Frame) (o : ReadOutcome)
      → ((g : Frame) → SameHold g f → IsReleased app streams (clean_up g))
      → GivesBack (answer_body w r f o).answer (answer_body w r f o).frame
  unfolding answer_body
  answer_body-GivesBack w r f (content body) release = release f (SameHold-refl f)
  answer_body-GivesBack w r f (read_error message) release =
      release _ (on_unexpected-SameHold w message f)

  end_stream-IsReleased :
      (m i : String) (w : World) (r : Response) (f : Frame) (message : Option String)
      → f.model_key ≡ some m
      → f.instance_id ≡ some i
      → OneMore app m i f.app
      → f.open_streams ≡ streams + 1
      → f.stream_ctx ≡ true
      → IsReleased app streams (end_stream w r f message).0
  unfolding end_stream
  end_stream-IsReleased m i w r f none model inst more opened context = rw context (record {
    counts = released_counts app streams m i f model inst more;
    streams_open = omega (arith, opened);
  })
  end_stream-IsReleased m i w r f (some e) model inst more opened context =
      let g = marked_failure w e f in
      let same = marked_failure-SameHold w e f in
      rw context (record {
        counts =
            released_counts app streams m i g model inst
              (λ m' i'. get_inflight-of_same g.app f.app m' i' same.inflight ∙ more m' i');
        streams_open = omega (arith, opened);
      })

  answer_response-of_serving :
      (m i : String) (w : World) (read : Read) (f : Frame) (r : Response)
      → Holds app streams m i f
      → GivesBack
          (answer_response w read f (some r)).answer
          (answer_response w read f (some r)).frame
  unfolding answer_response
  answer_response-of_serving m i w read f r s =
      let f' = mark_answered w r f in
      let s' = Holds-hold app streams m i f' f (mark_answered-SameHold w r f) s in
      if-intro (λ (e : Ended). GivesBack e.answer e.frame) r.is_event_stream _ _
        (λ _ opened w' message.
          unfold clean_up in
          end_stream-IsReleased m i w' r _ message s'.model s'.instance_id s'.counts s'.streams_open
            s'.context)
        (λ _.
          answer_body-GivesBack w r f' (read f'.owns_stream r)
            (λ g h. clean_up-of_Holds app streams m i g (Holds-hold app streams m i g f' h s')))

  answer_response-of_idle :
      (w : World) (read : Read) (f : Frame) (o : Option Response)
      → IsIdle app streams f
      → GivesBack (answer_response w read f o).answer (answer_response w read f o).frame
  unfolding answer_response
  answer_response-of_idle w read f none idle = clean_up-of_idle app streams f idle
  answer_response-of_idle w read f (some r) idle =
      let f' = mark_answered w r f in
      let idle' = IsIdle-hold app streams f' f (mark_answered-SameHold w r f) idle in
      if-intro (λ (e : Ended). GivesBack e.answer e.frame) r.is_event_stream _ _
        (λ _ opened. absurd (no_stream _ (unfold clean_up in opened) idle'.context))
        (λ _.
          answer_body-GivesBack w r f' (read f'.owns_stream r)
            (λ g h. clean_up-of_idle app streams g (IsIdle-hold app streams g f' h idle')))
    where
      no_stream : (b : Bool) → b ≡ true → b ≡ false → ⊥
      no_stream b p q = cc

  start_frame-IsIdle : IsIdle app streams (start_frame app streams)
  start_frame-IsIdle = record {
    counts = λ m i. refl;
    streams_open = refl;
    owns = refl;
    context = refl;
    counted = refl;
  }

  start-Releases :
      (x : HttpException)
      → Releases (record { frame = start_frame app streams; answer = error x; log = [] })
  start-Releases x = record { gives_back = record { counts = λ m i. refl; streams_open = refl } }

  walked-Releases :
      (w : World) (read : Read) (f : Frame)
      → IsIdle app streams f ⊎ IsServing app streams f
      → Releases (answer_response w read f f.response)
  walked-Releases w read f (inl idle) = record {
    gives_back = answer_response-of_idle w read f f.response idle;
  }
  walked-Releases w read f (inr serving) =
      subst (λ o. Releases (answer_response w read f o)) (sym serving.response)
        (record {
          gives_back =
              answer_response-of_serving serving.model_of serving.instance_of w read f
                serving.served (Holds-of_serving app streams f serving);
        })

  proxy_target-Releases :
      (w : World) (read : Read) (config : Config) (keys : Keys) (path requested : String)
      (o : Option Target)
      → Releases (proxy_target w read config keys path requested (start_frame app streams) o)
  unfolding proxy_target
  proxy_target-Releases w read config keys path requested none = start-Releases _
  proxy_target-Releases w read config keys path requested (some primary) =
      if-intro Releases (is_rejected path primary) _ _ (λ _. start-Releases _)
        (λ _. walked-Releases w read _ (
          walk-Settles app streams w keys (build_route_chain config primary)
            (start_frame app streams) start_frame-IsIdle))

  -- However the backends behave, as long as closing a stream does not raise, a proxied request gives back every in-flight slot and every stream
  -- that it took: with its answer where that is a whole body or an error, and at the end of the
  -- stream, failed or not, where it hands over an open stream.
  pub proxy_to_backend-Releases :
      (w : World) (read : Read) (config : Config) (keys : Keys) (path : String)
      (model : Option String)
      → Releases (proxy_to_backend w read config keys path model (start_frame app streams))
  unfolding proxy_to_backend
  proxy_to_backend-Releases w read config keys path none = start-Releases _
  proxy_to_backend-Releases w read config keys path (some requested) =
      if-intro Releases (str_eq requested "") _ _ (λ _. start-Releases _)
        (λ _.
          proxy_target-Releases w read config keys path requested (resolve_model config requested))
