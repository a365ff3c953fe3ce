-- ===== src/Router/Proxy/Stale.antt =====
-- A response that a failed attempt left over: `response` still holds a closed 5xx when the next
-- selection finds no instance, and the code behind the walk takes it for an answer.
use llm_router_server_dashbo.Base.{
  ℕ, suc, ◌≤◌, String, true, false, ◌≡◌, refl, ◌∙◌, some, List, ◌∷◌, arith, ◌==◌, le→leb,
}
use llm_router_server_dashbo.Router.Http.{HttpException, ok, raised, http_error}
use llm_router_server_dashbo.Router.State.{App}
use llm_router_server_dashbo.Router.Score.{Instance}
use llm_router_server_dashbo.Router.Lora.{Target}
use llm_router_server_dashbo.Router.Proxy.{
  World, Keys, Frame, Response, responded, on_server_error, on_response, attempt_on, begin_attempt,
  attempts, selection, after_selection, address_of,
}
use llm_router_server_dashbo.Router.Proxy.Hold.{mark_answered-SameHold}
use llm_router_server_dashbo.Router.Proxy.Handler.{
  Read, read_error, error, answer_response, answer_body, mark_answered,
}

-- The frame after a 5xx that another attempt may mend.
abbrev pub retried : World → Target → Instance → App → Response → Frame → Frame
retried w t instance app r f =
    on_server_error w t.route_key instance.id (on_response r (begin_attempt t instance app f))

-- A 5xx before the last attempt, and no instance left for the next: the group counts as exhausted,
-- and the response of the failed attempt stays.
pub attempts-leave_response :
    (w : World) (keys : Keys) (t : Target) (strategy : String) (left : ℕ) (tried : List String)
    (f : Frame) (instance : Instance) (app' app'' : App) (r : Response) (e : HttpException)
    → selection w keys t strategy tried f ≡ (ok instance, app')
    → w.upstream f.attempts_made (address_of w t.route_key instance) t.forward_name ≡ responded r
    → 500 ≤ r.status_code
    → selection w keys t strategy (instance.id ∷ tried) (retried w t instance app' r f)
      ≡ (raised e, app'')
    → let (f', exhausted) = attempts w keys t strategy (suc (suc left)) tried f in
      (exhausted ≡ true)
      × (f'.response ≡ some r)
      × (f'.owns_stream ≡ false)
      × (f'.last_exc ≡ some e)
unfolding attempts after_selection attempt_on on_server_error on_response begin_attempt
attempts-leave_response w keys t strategy left tried f instance app' app'' r e first answer bad
      second =
    let more : (suc left == 0) ≡ false = ground arith in
    rw (first, after_selection)
      (rw (answer, attempt_on)
        (rw (le→leb 500 r.status_code bad, more)
          (rw (second, after_selection) (refl, refl, refl, refl))))

module _ (w : World) (read : Read) (f : Frame) (r : Response) where
  -- A response that is no event stream, and whose stream the request has closed, is answered with a 500
  -- once reading it raises.
  pub answer_response-of_closed :
      (message : String)
      → f.owns_stream ≡ false
      → r.is_event_stream ≡ false
      → read false r ≡ read_error message
      → (answer_response w read f (some r)).answer ≡ error (http_error 500 "Internal server error")
  unfolding answer_response answer_body
  answer_response-of_closed message closed plain fails =
      let kept : (mark_answered w r f).owns_stream ≡ false =
        (mark_answered-SameHold w r f).owns ∙ closed in
      simp (plain, kept, fails) refl
